-- ===== src/Manager/Examples.antt =====
-- Tests of src/zuku/reshard_manager.cc where an event is the time at which it triggers, and the next
-- phase of a barrier comes one step later.
use zuku.Store.Times.{times, times-EventOrder}
use zuku.Base.{ℕ, suc, ◌+◌, ◌≤◌, ◌≡◌, refl, List, [], ◌∷◌, Result, ok, err}
use zuku.Manager.Local.{start, calls, Call, Log, Next, send, calls-IsServed, receive}
use zuku.Manager.Remote.{Heard, Notice, notices, sends, notices-IsNoted, names}
use zuku.Manager.{Request}
use zuku.Manager.Matched.{Copy, copies}

abbrev request : ℕ → ℕ → Request ℕ
request precondition instance_id = record {
  precondition = precondition;
  instance_id = instance_id;
  shape = record { rank = 1; ranges = record { lo = 0; end = 4 } ∷ [] };
  field_size = 4;
  new_event = 50 + instance_id;
  new_barrier = 20;
  post = 30 + instance_id;
}

-- Two senders wait, a receiver is served, and a third sender waits as well.
abbrev mixed : List (Call ℕ)
mixed = send (request 3 1) ∷ send (request 4 2) ∷ receive (request 5 3) ∷ send (request 6 4) ∷ []

calls-IsServed_example :
    Next times suc
      (λ a b. a ≤ b)
      times-EventOrder
      (1 ∷ 2 ∷ 4 ∷ [])
      (3 ∷ [])
      (calls times suc mixed start)
calls-IsServed_example = calls-IsServed times suc (λ a b. a ≤ b) times-EventOrder mixed

copies_of : Result (Log ℕ) → List (Copy ℕ)
copies_of (ok l) = copies l.actions
copies_of (err e) = []

-- The first sender's tile goes to the receiver's when both are ready.
mixed_test :
    copies_of (calls times suc mixed start)
    ≡ record { source = 1; target = 3; after = 5; post = 33 } ∷ []
unfolding copies_of calls
mixed_test = refl

-- The names of a target arrive before its sender calls.
abbrev early : List (Notice ℕ)
early = sends (request 3 1) ∷ names 7 5 40 ∷ names 8 6 41 ∷ sends (request 9 2) ∷ []

notices-IsNoted_example :
    Heard times suc 20
      (λ a b. a ≤ b)
      times-EventOrder
      (1 ∷ 2 ∷ [])
      (5 ∷ 6 ∷ [])
      (notices times suc 20 early start)
notices-IsNoted_example =
    notices-IsNoted times suc 20 (λ a b. a ≤ b) times-EventOrder early
      (refl, (tt, (tt, (refl, tt))))
