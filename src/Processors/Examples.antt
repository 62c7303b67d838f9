-- ===== src/Processors/Examples.antt =====
-- Tests of src/zuku/processor.cc: two address spaces, the second one with two devices.
use zuku.Base.{ℕ, ◌≡◌, refl, ◌⊎◌, true, false, some, List, [], ◌∷◌, ◌==◌, if◌then◌else◌, ok}
use zuku.Processors.{get_proc, remote_proc, LocalProcessor, get_attached_host, init, sort}
use zuku.Store.Views.{Among}
use zuku.Processors.Numbering.{init-remote_proc}
use zuku.Processors.Hosts.{get_attached_host-Among}

abbrev devices : List (List ℕ)
devices = (7 ∷ []) ∷ (12 ∷ 11 ∷ []) ∷ []

abbrev hosts : List (List ℕ)
hosts = (1 ∷ []) ∷ (3 ∷ 2 ∷ []) ∷ []

abbrev second : LocalProcessor
second = record { local_id = 1; global_id = 2; proc = 12 }

abbrev numbered : List LocalProcessor
numbered = record { local_id = 0; global_id = 1; proc = 11 } ∷ second ∷ []

numbered_test : init devices 1 (12 ∷ 11 ∷ []) ≡ some numbered
unfolding init
numbered_test = refl

init-remote_proc_example :
    (second.local_id ≡ 1)
    × (get_proc numbered (some 1) 0 ≡ ok second)
    × (remote_proc devices second.global_id ≡ some second.proc)
init-remote_proc_example =
    init-remote_proc devices 1 (12 ∷ 11 ∷ []) numbered 1 second refl numbered_test refl

abbrev space_of : ℕ → ℕ
space_of proc = if proc == 7 then 0 else 1

found_test : remote_proc devices 2 ≡ some 12
unfolding remote_proc
found_test = refl

get_attached_host-Among_example :
    (host : ℕ) × (get_attached_host (λ proc. false) space_of devices hosts 2 ≡ some host)
    × ((false ≡ true × host ≡ 12) ⊎ (false ≡ false × Among host (sort (3 ∷ 2 ∷ []))))
get_attached_host-Among_example =
    get_attached_host-Among (λ proc. false) space_of devices hosts 2 12 3 (2 ∷ []) found_test refl
