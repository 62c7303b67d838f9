-- ===== src/Store/Examples.antt =====
-- Tests of src/zuku/store.h where an event is the time at which it triggers.
use zuku.Store.Times.{times, times-EventOrder}
use zuku.Base.{ℕ, ◌≤◌, ◌≡◌, refl, false, none, some, List, [], ◌∷◌, arith}
use zuku.Store.Access.{read, write, access, waits, Access, accesses, done}
use zuku.Store.Order.{Launched, waits-accesses}
use zuku.Store.{precondition, Store, open_child, destroy, View}
use zuku.Store.Release.{reads, destroy-reads}
use zuku.Store.Views.{release, used, opened, Among, release-used, viewed, moved, release-moved}
use zuku.Store.Lifetime.{
  deletion, assign, deletion-accesses, waited, moved_from, create, deferred_create,
}

abbrev fresh : Store ℕ
fresh = record {
  has_parent = false;
  parent_notification = none;
  child_rw = none;
  war = none;
  value = some 0;
}

abbrev tasks : List (Access ℕ)
tasks = write 3 3 ∷ read 5 5 ∷ read 4 4 ∷ []

tasks-Launched : Launched times (λ a b. a ≤ b) times-EventOrder tasks fresh
unfolding access waits
tasks-Launched = (omega arith, (omega arith, (omega arith, tt)))

waits_test : waits times (write 9 9) (accesses times tasks fresh) ≡ 5
unfolding waits accesses
waits_test = refl

waits-accesses_example :
    3
    ≤ waits times
        (write 9 9)
        (accesses times (read 5 5 ∷ read 4 4 ∷ []) (access times (write 3 3) fresh))
waits-accesses_example =
    waits-accesses times (λ a b. a ≤ b) times-EventOrder (write 3 3) (write 9 9)
      (read 5 5 ∷ read 4 4 ∷ []) fresh tasks-Launched refl

no_writer : (access times (read 5 5) fresh).child_rw ≡ none
unfolding access
no_writer = refl

destroy-reads_example :
    (precondition times (open_child times 7 (access times (read 5 5) fresh)).1 ≡ 7)
    × (destroy times
          (accesses times (reads (6 ∷ [])) (open_child times 7 (access times (read 5 5) fresh)).0)
        ≡ some (7, 0))
destroy-reads_example = destroy-reads times 7 (6 ∷ []) (access times (read 5 5) fresh) no_writer

-- A view that was made by `view()` with the user event 9, read until 4 and lent until 6.
abbrev lent : View ℕ
lent = record { precondition = none; war_dependency = some 9; views = []; value = some 0 }

release-used_example :
    (end : ℕ) × ((release times (used (viewed 4 ∷ opened 6 ∷ []) lent)).0 ≡ some (9, end))
    × ((e : ℕ) → Among e (4 ∷ 6 ∷ []) → e ≤ end)
release-used_example =
    release-used times (λ a b. a ≤ b) times-EventOrder (viewed 4 ∷ opened 6 ∷ []) lent 9 refl refl

released_test : release times lent ≡ (some (9, 0), none)
unfolding release
released_test = refl

moved_view_test :
    ((release times (moved (used (viewed 4 ∷ []) lent)).1).0 ≡ none)
    × ((release times (moved (used (viewed 4 ∷ []) lent)).0).0 ≡ some (9, 0))
moved_view_test = release-moved times (viewed 4 ∷ []) lent 9 refl

deletion-accesses_example :
    (end : ℕ) × (deletion times (accesses times tasks fresh) ≡ some (0, end))
    × ((x : Access ℕ) → Among x tasks → done x ≤ end)
deletion-accesses_example =
    deletion-accesses times (λ a b. a ≤ b) times-EventOrder (write 3 3) (read 5 5 ∷ read 4 4 ∷ [])
      fresh 0 refl refl tasks-Launched

-- A store that was moved from deletes nothing, and neither does one that has waited for its events.
moved_test : deletion times (moved_from (deferred_create 3 7)) ≡ none
unfolding deletion
moved_test = refl

waited_test : deletion times (waited (deferred_create 3 7)) ≡ none
unfolding deletion
waited_test = refl

-- An assignment drops the user event of the store that it replaces.
dropped_test :
    destroy times (assign (open_child times 7 (create (some 0))).0 (create (some 1))).0 ≡ none
unfolding open_child destroy
dropped_test = refl
