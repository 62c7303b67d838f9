-- ===== src/Processors.antt =====
-- The numbering of processors: src/zuku/processor.cc (Processor::Init, RemoteProc, GetProc,
-- GetAttachedHost), for the processors of one type. A Realm processor is a number, by which it is
-- compared; what Realm lists for each address space and for this one are arguments, and so are the kind
-- and the address space that it names for a processor. A set is its sorted elements.
pub mod Numbering
pub mod Hosts
mod Examples
use mathlib.Core.Option
use zuku.Base.{
  ℕ, zero, suc, ◌+◌, ◌-◌, Bool, ◌&&◌, Option, none, some, List, [], ◌∷◌, ◌++◌, map, ltb, leb,
  if◌then◌else◌, length, Result, out_of_range, ok, err,
}

abbrev pub get_elem? : {A : Type 0} → List A → ℕ → Option A
get_elem? [] i = none
get_elem? (x ∷ xs) zero = some x
get_elem? (x ∷ xs) (suc i) = get_elem? xs i

pub insert : ℕ → List ℕ → List ℕ
insert p [] = p ∷ []
insert p (q ∷ qs) = let rest = insert p qs in if leb p q then p ∷ q ∷ qs else q ∷ rest

-- `std::sort`, and the elements of a `std::set`
unfoldable pub sort : List ℕ → List ℕ
unfolding insert
sort [] = []
sort (p ∷ ps) = insert p (sort ps)

pub record RemoteProcessors : Type 0 where
  pub global_device_id_start : ℕ
  pub global_device_id_stop : ℕ
  pub processors : List ℕ

pub record LocalProcessor : Type 0 where
  pub local_id : ℕ
  pub global_id : ℕ
  pub proc : ℕ

-- the loop over the address spaces in `Processor::Init`
unfoldable pub number_spaces : ℕ → List (List ℕ) → List RemoteProcessors
unfolding sort
number_spaces global_offset [] = []
number_spaces global_offset (procs ∷ spaces) =
    record {
      global_device_id_start = global_offset;
      global_device_id_stop = global_offset + length (sort procs);
      processors = sort procs;
    }
    ∷ number_spaces (global_offset + length (sort procs)) spaces

-- `all_procs` after that loop
unfoldable pub all_processors : List (List ℕ) → List ℕ
unfolding sort
all_processors [] = []
all_processors (procs ∷ spaces) = sort procs ++ all_processors spaces

-- the loop over the local processors
unfoldable pub number_local : ℕ → ℕ → List ℕ → List LocalProcessor
number_local local_id global_id [] = []
number_local local_id global_id (p ∷ procs) =
    record { local_id = local_id; global_id = global_id; proc = p }
    ∷ number_local (suc local_id) (suc global_id) procs

-- `local_procs` after `Processor::Init`, on the address space `here` of the first local processor
unfoldable pub init : List (List ℕ) → ℕ → List ℕ → Option (List LocalProcessor)
unfolding number_spaces number_local sort
init spaces here [] = some []
init spaces here (p ∷ procs) =
    Option.map
      (λ (space : RemoteProcessors). number_local 0 space.global_device_id_start (sort (p ∷ procs)))
      (get_elem? (number_spaces 0 spaces) here)

-- `RemoteProc`
unfoldable pub remote_proc : List (List ℕ) → ℕ → Option ℕ
unfolding all_processors
remote_proc spaces global_device_id = get_elem? (all_processors spaces) global_device_id

-- `GetProc` for a local id, or for a global id that is taken for a local one
unfoldable pub get_proc : List LocalProcessor → Option ℕ → ℕ → Result LocalProcessor
get_proc procs local global =
    let local_id : ℕ = elim local [ some id ↦ id | none ↦ global ] in
    elim (get_elem? procs local_id) [ none ↦ err out_of_range | some p ↦ ok p ]

-- the hosts of one address space in `GetAttachedHost`
unfoldable pub host_in : RemoteProcessors → ℕ → Option ℕ
host_in hosts global_device_id =
    if leb hosts.global_device_id_start global_device_id
      && ltb global_device_id hosts.global_device_id_stop
    then get_elem? hosts.processors (global_device_id - hosts.global_device_id_start)
    else get_elem? hosts.processors 0

-- `GetAttachedHost` with the devices of a type and the hosts of all address spaces
unfoldable pub get_attached_host :
    (ℕ → Bool) → (ℕ → ℕ) → List (List ℕ) → List (List ℕ) → ℕ → Option ℕ
unfolding remote_proc host_in number_spaces
get_attached_host is_host address_space devices hosts global_device_id =
    elim (remote_proc devices global_device_id) [
      | none ↦ none
      | some device_proc ↦
          if is_host device_proc
          then some device_proc
          else elim (get_elem? (number_spaces 0 hosts) (address_space device_proc)) [
            | none ↦ none
            | some space ↦ host_in space global_device_id
          ]
    ]
