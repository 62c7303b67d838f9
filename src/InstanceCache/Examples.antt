-- ===== src/InstanceCache/Examples.antt =====
-- Tests of src/zuku/instance_cache.h, with numbers as keys and values.
use zuku.Base.{ℕ, ◌≡◌, refl, Bool, none, some, [], ◌∷◌, ◌==◌, bad_access, ok, err}
use zuku.InstanceCache.{free, get}
use zuku.Queues.{Queues}

abbrev same_number : ℕ → ℕ → Bool
same_number a b = a == b

abbrev two_free : Queues ℕ ℕ
two_free = (5, 10 ∷ 11 ∷ []) ∷ []

free_test : free same_number 5 11 (free same_number 5 10 []) ≡ two_free
unfolding free
free_test = refl

-- The value that was freed first comes first.
first_test : get same_number (λ key. 99) 5 none two_free ≡ ok (10, (5, 11 ∷ []) ∷ [])
unfolding get
first_test = refl

-- With fewer values than the least size a new one is made.
least_test : get same_number (λ key. 99) 5 (some 3) two_free ≡ ok (99, two_free)
unfolding get
least_test = refl

-- With 0 as least size the front of an empty queue is read.
empty_test : get {Value = ℕ} same_number (λ key. 99) 5 (some 0) [] ≡ err bad_access
unfolding get
empty_test = refl
