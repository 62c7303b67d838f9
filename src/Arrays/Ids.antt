-- ===== src/Arrays/Ids.antt =====
-- The ids of arrays: AllocateNextGlobalId of src/zuku/tiled_array.cc.
use zuku.Base.{
  ℕ, ◌+◌, ◌≡◌, refl, sym, ap, ◌∙◌, ◌⊎◌, inl, inr, true, false, Option, none, some, List, [], ◌∷◌,
  arith, if◌then◌else◌, Bool-cases,
}
use zuku.Queues.{IsSame, same-cong}
use zuku.Arrays.{
  same_global_id_key, allocate_next_global_id, Processor, GlobalIdKey, next_id, key_of, NextIds,
  count_up,
}
use zuku.Mesh.{DeviceList, same_devices}

-- A call: the key, and the id that the caller assigns, if any.
pub record IdCall : Type 0 where
  pub processor : Processor
  pub devices : DeviceList
  pub assigned_id : Option ℕ

pub allocate_all : List IdCall → NextIds → NextIds
unfolding allocate_next_global_id
allocate_all [] ids = ids
allocate_all (c ∷ cs) ids =
    allocate_all cs (allocate_next_global_id c.processor c.devices c.assigned_id ids).1

-- Whether a call draws an id under the key.
abbrev pub draws : GlobalIdKey → IdCall → ℕ
draws key c = elim c.assigned_id [
  | some id ↦ 0
  | none ↦ if same_global_id_key key (key_of c.processor c.devices) then 1 else 0
]

-- How many of the calls draw an id under the key.
unfoldable pub drawn : GlobalIdKey → List IdCall → ℕ
drawn key [] = 0
drawn key (c ∷ cs) = draws key c + drawn key cs

abbrev same_parts : GlobalIdKey → ℕ × ℕ × ℕ × ℕ
same_parts k = (k.devices.start, k.devices.num_devices, k.local_proc_id, k.proc_type)

key-IsSame : IsSame same_global_id_key same_parts
unfolding same_global_id_key same_devices
key-IsSame = record {
  sound = λ i j h.
      let a : i.devices.start ≡ j.devices.start = ground arith in
      let b : i.devices.num_devices ≡ j.devices.num_devices = ground arith in
      let c : i.local_proc_id ≡ j.local_proc_id = ground arith in
      let d : i.proc_type ≡ j.proc_type = ground arith in cc (a, b, c, d);
  complete = λ i j h.
      let a : i.devices.start ≡ j.devices.start = ap (λ (k : ℕ × ℕ × ℕ × ℕ). k.0) h in
      let b : i.devices.num_devices ≡ j.devices.num_devices = ap (λ (k : ℕ × ℕ × ℕ × ℕ). k.1) h in
      let c : i.local_proc_id ≡ j.local_proc_id = ap (λ (k : ℕ × ℕ × ℕ × ℕ). k.2) h in
      let d : i.proc_type ≡ j.proc_type = ap (λ (k : ℕ × ℕ × ℕ × ℕ). k.3) h in ground arith;
}

next_id-count_up :
    (j k : GlobalIdKey) (ids : NextIds)
    → next_id j (count_up k ids) ≡ (if same_global_id_key j k then 1 else 0) + next_id j ids
unfolding next_id count_up
next_id-count_up j k [] = elim (Bool-cases (same_global_id_key j k)) [
  | inl same ↦ rw same refl
  | inr other ↦ rw other refl
]
next_id-count_up j k ((i, n) ∷ ids) = elim (Bool-cases (same_global_id_key k i)) [
  | inl here ↦
      rw (here, same-cong same_global_id_key same_parts key-IsSame j k i here)
        (at_key (Bool-cases (same_global_id_key j i)))
  | inr there ↦
      rw (there, next_id-count_up j k ids)
        (elsewhere (Bool-cases (same_global_id_key j i)) (Bool-cases (same_global_id_key j k))
          there)
]
  where
    at_key :
        (same_global_id_key j i ≡ true) ⊎ (same_global_id_key j i ≡ false)
        → (if same_global_id_key j i then n + 1 else next_id j ids)
          ≡ (if same_global_id_key j i then 1 else 0)
            + (if same_global_id_key j i then n else next_id j ids)
    at_key (inl x) = rw x (omega arith)
    at_key (inr x) = rw x (omega arith)

    elsewhere :
        (same_global_id_key j i ≡ true) ⊎ (same_global_id_key j i ≡ false)
        → (same_global_id_key j k ≡ true) ⊎ (same_global_id_key j k ≡ false)
        → same_global_id_key k i ≡ false
        → (if same_global_id_key j i
            then n
            else (if same_global_id_key j k then 1 else 0) + next_id j ids)
          ≡ (if same_global_id_key j k then 1 else 0)
            + (if same_global_id_key j i then n else next_id j ids)
    elsewhere (inl x) (inl y) there = absurd (
        cc (
          sym there
          ∙ key-IsSame.complete k i (sym (key-IsSame.sound j k y) ∙ key-IsSame.sound j i x)))
    elsewhere (inl x) (inr y) there = rw (x, y) (omega arith)
    elsewhere (inr x) y there = rw x refl

drawn_from :
    (key : GlobalIdKey) (cs : List IdCall) (ids : NextIds)
    → next_id key (allocate_all cs ids) ≡ drawn key cs + next_id key ids
unfolding allocate_all drawn allocate_next_global_id
drawn_from key [] ids = omega arith
drawn_from key (c ∷ cs) ids = drawn_from key cs _ ∙ by_call (c.assigned_id)
  where
    by_call :
        (assigned : Option ℕ)
        → drawn key cs + next_id key (allocate_next_global_id c.processor c.devices assigned ids).1
          ≡ elim assigned [
            | some id ↦ 0
            | none ↦ if same_global_id_key key (key_of c.processor c.devices) then 1 else 0
          ]
            + drawn key cs
            + next_id key ids
    by_call (some id) = omega arith
    by_call none = omega (arith, next_id-count_up key (key_of c.processor c.devices) ids)

-- Whatever was allocated before, an array without an assigned id gets the number of earlier arrays
-- without one that have the same devices and processor: nodes that create the same arrays in the same
-- order agree on their ids.
pub allocate-drawn :
    (cs : List IdCall) (p : Processor) (devices : DeviceList)
    → (allocate_next_global_id p devices none (allocate_all cs [])).0 ≡ drawn (key_of p devices) cs
unfolding allocate_next_global_id next_id
allocate-drawn cs p devices = drawn_from (key_of p devices) cs [] ∙ omega arith
