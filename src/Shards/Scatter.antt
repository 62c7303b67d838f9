-- ===== src/Shards/Scatter.antt =====
-- Senders and receivers of scattered shards: src/zuku/reshard_scatter_shards.cc.
use zuku.Base.{
  ℕ, zero, suc, ◌+◌, ◌*◌, ◌/◌, ◌%◌, ◌≤◌, ◌<◌, ◌≡◌, ap, subst, ◌≢◌, inl, inr, arith, div-lt, ok,
}
use zuku.Mesh.{DeviceList, size}
use zuku.Shards.{
  scatter_receives, UniqueId, keys_from, scatter_sends, ReshardKey, shards_per_source,
}
use zuku.Store.Views.{Among}

keys_from-elim :
    (a b : UniqueId) (source shard n : ℕ) (key : ReshardKey)
    → Among key (keys_from a b source shard n)
    → (key.src_shard_id ≡ source) × (shard ≤ key.dst_shard_id) × (key.dst_shard_id < shard + n)
keys_from-elim a b source shard zero key h = absurd h
keys_from-elim a b source shard (suc n) key (inl e) = (
  ap (λ (k : ReshardKey). k.src_shard_id) e,
  omega (arith, ap (λ (k : ReshardKey). k.dst_shard_id) e),
  omega (arith, ap (λ (k : ReshardKey). k.dst_shard_id) e),
)
keys_from-elim a b source shard (suc n) key (inr h) =
    let rest = keys_from-elim a b source (shard + 1) n key h in
    (rest.0, omega (arith, rest.1), omega (arith, rest.2))

keys_from-intro :
    (a b : UniqueId) (source shard n i : ℕ)
    → i < n
    → Among
        (record { src_id = a; dst_id = b; src_shard_id = source; dst_shard_id = shard + i })
        (keys_from a b source shard n)
keys_from-intro a b source shard zero i h = absurd (omega arith)
keys_from-intro a b source shard (suc n) zero h = inl (
    ap (λ t. record { src_id = a; dst_id = b; src_shard_id = source; dst_shard_id = t })
      (omega arith))
keys_from-intro a b source shard (suc n) (suc i) h = inr (
    subst
      (λ t.
        Among (record { src_id = a; dst_id = b; src_shard_id = source; dst_shard_id = t })
          (keys_from a b source (shard + 1) n))
      (omega arith) (keys_from-intro a b source (shard + 1) n i (omega arith)))

positive : (k m t : ℕ) → t < k * m → 0 < k
positive zero m t h = absurd (omega arith)
positive (suc k) m t h = omega arith

quotient : (t k : ℕ) → 0 < k → (t % k < k) × (k * (t / k) + t % k ≡ t)
quotient t k h = (grind arith, grind arith)

too_far : (t m k : ℕ) → 0 < k → k * m ≤ t → m ≤ t / k
too_far t m k pos h = grind arith

last_block : (k s m : ℕ) → s < m → k * s + k ≤ k * m
last_block k s m h = grind arith

-- If every source has the same positive number of targets, a target computes the key that it receives
-- under, and the shard that it receives from exists, and sends to it under that key.
pub scattered :
    (a b : UniqueId) (src dst : DeviceList) (target : ℕ)
    → shards_per_source src dst * size src ≡ size dst
    → target < size dst
    → (key : ReshardKey) × (scatter_receives a b src dst target ≡ ok key)
      × (key.src_shard_id < size src)
      × Among key (scatter_sends a b src dst key.src_shard_id)
unfolding scatter_receives scatter_sends
scattered a b src dst target whole lt =
    let k : ℕ = shards_per_source src dst in
    let q : ℕ = target / k in
    let pos : 0 < k = positive k (size src) target (omega arith) in
    let cut = quotient target k pos in
    (
      record { src_id = a; dst_id = b; src_shard_id = q; dst_shard_id = target },
      ground arith,
      div-lt target (size src) k (omega arith),
      subst
          (λ t.
            Among (record { src_id = a; dst_id = b; src_shard_id = q; dst_shard_id = t })
              (keys_from a b q (k * q) k))
          cut.1 (keys_from-intro a b q (k * q) k (target % k) cut.0),
    )

-- The defect: where the sources do not divide the targets evenly, no source sends to the last targets,
-- which still wait for a source shard that does not exist.
pub unscattered :
    (a b : UniqueId) (src dst : DeviceList) (target source : ℕ)
    → 0 < shards_per_source src dst
    → shards_per_source src dst * size src ≤ target
    → target < size dst
    → source < size src
    → (waits : ReshardKey) × (scatter_receives a b src dst target ≡ ok waits)
      × (size src ≤ waits.src_shard_id)
      × ((key : ReshardKey)
          → Among key (scatter_sends a b src dst source)
          → key.dst_shard_id ≢ target)
unfolding scatter_receives scatter_sends
unscattered a b src dst target source pos le lt hs =
    let k : ℕ = shards_per_source src dst in
    (
      record { src_id = a; dst_id = b; src_shard_id = target / k; dst_shard_id = target },
      ground arith,
      too_far target (size src) k pos le,
      λ key h e.
          let inside = keys_from-elim a b source (k * source) k key h in
          omega (arith, inside.2, e, le, last_block k source (size src) hs),
    )
