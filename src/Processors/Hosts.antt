-- ===== src/Processors/Hosts.antt =====
-- The host of a device: src/zuku/processor.cc (GetAttachedHost).
use zuku.Base.{
  ℕ, zero, suc, ◌+◌, ◌-◌, ◌<◌, ◌≡◌, refl, sym, subst, ◌⊎◌, inl, inr, Bool, true, false, ◌&&◌, some,
  List, [], ◌∷◌, arith, ltb, leb, Bool-cases, length,
}
use zuku.Processors.{
  insert, host_in, number_spaces, get_elem?, get_attached_host, remote_proc, RemoteProcessors, sort,
}
use zuku.Store.Views.{Among}
use zuku.Processors.Numbering.{space_processors}

-- A number below the length has an entry.
entry : (xs : List ℕ) (i : ℕ) → i < length xs → (x : ℕ) × (get_elem? xs i ≡ some x) × Among x xs
entry [] i h = absurd (omega arith)
entry (x ∷ xs) zero h = (x, refl, inl refl)
entry (x ∷ xs) (suc i) h = let (y, e, a) = entry xs i (omega arith) in (y, e, inr a)

insert_some : (p : ℕ) (qs : List ℕ) → 0 < length (insert p qs)
unfolding insert
insert_some p [] = omega arith
insert_some p (q ∷ qs) = elim (Bool-cases (leb p q)) [
  | inl low ↦ rw low (omega arith)
  | inr high ↦ rw high (omega arith)
]

space_stop :
    (offset : ℕ) (spaces : List (List ℕ)) (here : ℕ) (space : RemoteProcessors)
    → get_elem? (number_spaces offset spaces) here ≡ some space
    → space.global_device_id_stop ≡ space.global_device_id_start + length space.processors
unfolding number_spaces
space_stop offset [] here space e = absurd (cc e)
space_stop offset (q ∷ spaces) zero space e =
    let same : record {
      global_device_id_start = offset;
      global_device_id_stop = offset + length (sort q);
      processors = sort q;
    }
        ≡ space =
      cc e in
    subst
      (λ (r : RemoteProcessors).
        r.global_device_id_stop ≡ r.global_device_id_start + length r.processors)
      same refl
space_stop offset (q ∷ spaces) (suc here) space e =
    space_stop (offset + length (sort q)) spaces here space e

numbered_space :
    (offset : ℕ) (spaces : List (List ℕ)) (here : ℕ) (procs : List ℕ)
    → get_elem? spaces here ≡ some procs
    → (space : RemoteProcessors) × (get_elem? (number_spaces offset spaces) here ≡ some space)
unfolding number_spaces
numbered_space offset [] here procs e = absurd (cc e)
numbered_space offset (q ∷ spaces) zero procs e = (_, refl)
numbered_space offset (q ∷ spaces) (suc here) procs e =
    numbered_space (offset + length (sort q)) spaces here procs e

host_in-entry :
    (space : RemoteProcessors) (id : ℕ)
    → space.global_device_id_stop ≡ space.global_device_id_start + length space.processors
    → 0 < length space.processors
    → (host : ℕ) × (host_in space id ≡ some host) × Among host space.processors
unfolding host_in
host_in-entry space id stops some_host =
    elim (Bool-cases (leb space.global_device_id_start id && ltb id space.global_device_id_stop)) [
      | inl inside ↦
          (let below : id - space.global_device_id_start < length space.processors = ground arith in
            let (host, e, a) = entry space.processors (id - space.global_device_id_start) below in
            (host, rw inside e, a))
      | inr outside ↦
          (let (host, e, a) = entry space.processors 0 some_host in (host, rw outside e, a))
    ]

-- Let a device be among the processors, and let the address space that Realm names for it have a host.
-- Then GetAttachedHost reads no vector out of its bounds, whether hosts and devices are numbered alike or
-- not: it gives the device itself if that is a host, and otherwise a host of its address space.
pub get_attached_host-Among :
    (is_host : ℕ → Bool) (address_space : ℕ → ℕ) (devices hosts : List (List ℕ)) (id device h : ℕ)
    (hs : List ℕ)
    → remote_proc devices id ≡ some device
    → get_elem? hosts (address_space device) ≡ some (h ∷ hs)
    → (host : ℕ) × (get_attached_host is_host address_space devices hosts id ≡ some host)
      × ((is_host device ≡ true × host ≡ device)
          ⊎ (is_host device ≡ false × Among host (sort (h ∷ hs))))
unfolding get_attached_host
get_attached_host-Among is_host address_space devices hosts id device h hs found own =
    elim (Bool-cases (is_host device)) [
      | inl host ↦ (device, rw (get_attached_host, found, host) refl, inl (host, refl))
      | inr other ↦
          (let (space, e) = numbered_space 0 hosts (address_space device) (h ∷ hs) own in
            let procs : space.processors ≡ sort (h ∷ hs) =
              space_processors 0 hosts (address_space device) space (h ∷ hs) e own in
            let some_host : 0 < length space.processors =
              subst (λ ps. 0 < length ps) (sym procs) (unfold sort in insert_some h (sort hs)) in
            let (host, r, a) =
              host_in-entry space id (space_stop 0 hosts (address_space device) space e)
                some_host in
            (
              host,
              rw (get_attached_host, found, other, e) r,
              inr (other, subst (Among host) procs a),
            ))
    ]
