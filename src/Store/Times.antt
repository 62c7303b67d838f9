-- ===== src/Store/Times.antt =====
-- Events for tests of src/zuku/store.h and the files that use it: an event is the time at which it
-- triggers.
use zuku.Base.{ℕ, ◌≤◌, max, arith}
use zuku.Store.Order.{EventOrder}
use zuku.Store.{Events}

abbrev pub times : Events ℕ
times = record { no_event = 0; merge = max }

max_bounds : (a b : ℕ) → (a ≤ max a b) × (b ≤ max a b)
max_bounds a b = (omega arith, omega arith)

pub times-EventOrder : EventOrder times (λ a b. a ≤ b)
times-EventOrder = record {
  same = λ a. omega arith;
  chain = λ a b c h k. omega arith;
  never = λ a. omega arith;
  merge_left = λ a b. (max_bounds a b).0;
  merge_right = λ a b. (max_bounds a b).1;
  least = λ a b c h k. omega arith;
}
