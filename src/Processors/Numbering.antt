-- ===== src/Processors/Numbering.antt =====
-- What the numbers of processors say: src/zuku/processor.cc.
use zuku.Base.{
  ℕ, zero, suc, ◌+◌, ◌≡◌, refl, sym, ap, ◌∙◌, subst, Option, none, some, List, [], ◌∷◌, ◌++◌, arith,
  length, ok,
}
use zuku.Processors.{
  number_local, number_spaces, get_elem?, LocalProcessor, all_processors, RemoteProcessors, sort,
  init, get_proc, remote_proc,
}

pub get_elem-append :
    {A : Type 0} (xs ys : List A) (i : ℕ) → get_elem? (xs ++ ys) (length xs + i) ≡ get_elem? ys i
get_elem-append [] ys i = let none_before : 0 + i ≡ i = omega arith in ap (get_elem? ys) none_before
get_elem-append (x ∷ xs) ys i =
    let shift : suc (length xs) + i ≡ suc (length xs + i) = omega arith in
    ap (get_elem? ((x ∷ xs) ++ ys)) shift ∙ get_elem-append xs ys i

get_elem-left :
    {A : Type 0} (xs ys : List A) (i : ℕ) (x : A)
    → get_elem? xs i ≡ some x
    → get_elem? (xs ++ ys) i ≡ some x
get_elem-left [] ys i x e = absurd (cc e)
get_elem-left (y ∷ xs) ys zero x e = e
get_elem-left (y ∷ xs) ys (suc i) x e = get_elem-left xs ys i x e

-- The processor of a local number.
number_local-get_elem :
    (l g : ℕ) (procs : List ℕ) (i : ℕ) (p : LocalProcessor)
    → get_elem? (number_local l g procs) i ≡ some p
    → (p.local_id ≡ l + i) × (p.global_id ≡ g + i) × (get_elem? procs i ≡ some p.proc)
unfolding number_local
number_local-get_elem l g [] i p e = absurd (cc e)
number_local-get_elem l g (x ∷ procs) zero p e =
    let same : record { local_id = l; global_id = g; proc = x } ≡ p = cc e in
    (
      omega (arith, ap (λ (q : LocalProcessor). q.local_id) same),
      omega (arith, ap (λ (q : LocalProcessor). q.global_id) same),
      ap (λ (q : LocalProcessor). some q.proc) same,
    )
number_local-get_elem l g (x ∷ procs) (suc i) p e =
    let (a, b, c) = number_local-get_elem (suc l) (suc g) procs i p e in
    (omega arith, omega arith, c)

-- A processor of an address space has its place among all, behind the earlier address spaces.
placed :
    (offset : ℕ) (spaces : List (List ℕ)) (here : ℕ) (space : RemoteProcessors) (i p : ℕ)
    → get_elem? (number_spaces offset spaces) here ≡ some space
    → get_elem? space.processors i ≡ some p
    → (at : ℕ) × (space.global_device_id_start ≡ offset + at)
      × (get_elem? (all_processors spaces) (at + i) ≡ some p)
unfolding number_spaces all_processors
placed offset [] here space i p e h = absurd (cc e)
placed offset (procs ∷ spaces) zero space i p e h =
    let same : record {
      global_device_id_start = offset;
      global_device_id_stop = offset + length (sort procs);
      processors = sort procs;
    }
        ≡ space =
      cc e in
    (
      0,
      omega (arith, ap (λ (r : RemoteProcessors). r.global_device_id_start) same),
      let none_before : 0 + i ≡ i = omega arith in
          ap (get_elem? (sort procs ++ all_processors spaces)) none_before
          ∙ get_elem-left (sort procs) (all_processors spaces) i p
              (subst (λ (r : RemoteProcessors). get_elem? r.processors i ≡ some p) (sym same) h),
    )
placed offset (procs ∷ spaces) (suc here) space i p e h =
    let (at, a, b) = placed (offset + length (sort procs)) spaces here space i p e h in
    let shift : length (sort procs) + at + i ≡ length (sort procs) + (at + i) = omega arith in
    (
      length (sort procs) + at,
      omega arith,
      subst (λ n. get_elem? (sort procs ++ all_processors spaces) n ≡ some p) (sym shift)
          (get_elem-append (sort procs) (all_processors spaces) (at + i) ∙ b),
    )

pub space_processors :
    (offset : ℕ) (spaces : List (List ℕ)) (here : ℕ) (space : RemoteProcessors) (procs : List ℕ)
    → get_elem? (number_spaces offset spaces) here ≡ some space
    → get_elem? spaces here ≡ some procs
    → space.processors ≡ sort procs
unfolding number_spaces
space_processors offset [] here space procs e h = absurd (cc e)
space_processors offset (q ∷ spaces) zero space procs e h =
    let same : record {
      global_device_id_start = offset;
      global_device_id_stop = offset + length (sort q);
      processors = sort q;
    }
        ≡ space =
      cc e in
    let own : q ≡ procs = cc h in
    sym (ap (λ (r : RemoteProcessors). r.processors) same) ∙ ap sort own
space_processors offset (q ∷ spaces) (suc here) space procs e h =
    space_processors (offset + length (sort q)) spaces here space procs e h

-- Let Realm list the local processors as those of one address space. Then a local processor has its place
-- in the list as its local number, and its global number is that under which every node finds it.
pub init-remote_proc :
    (spaces : List (List ℕ)) (here : ℕ) (local : List ℕ) (procs : List LocalProcessor) (i : ℕ)
    (p : LocalProcessor)
    → get_elem? spaces here ≡ some local
    → init spaces here local ≡ some procs
    → get_elem? procs i ≡ some p
    → (p.local_id ≡ i)
      × (get_proc procs (some i) 0 ≡ ok p)
      × (remote_proc spaces p.global_id ≡ some p.proc)
unfolding init get_proc remote_proc
init-remote_proc spaces here [] procs i p own made found =
    let none_there : [] ≡ procs = cc made in
    absurd (cc (subst (λ ps. get_elem? ps i ≡ some p) (sym none_there) found))
init-remote_proc spaces here (q ∷ local) procs i p own made found =
    by_space (get_elem? (number_spaces 0 spaces) here) refl
  where
    by_space :
        (space : Option RemoteProcessors)
        → get_elem? (number_spaces 0 spaces) here ≡ space
        → (p.local_id ≡ i)
          × (get_proc procs (some i) 0 ≡ ok p)
          × (remote_proc spaces p.global_id ≡ some p.proc)
    by_space none e = absurd (cc (rw e at made))
    by_space (some space) e =
        let numbered : number_local 0 space.global_device_id_start (sort (q ∷ local)) ≡ procs =
          cc (rw e at made) in
        let (a, b, c) =
          number_local-get_elem 0 space.global_device_id_start (sort (q ∷ local)) i p
            (subst (λ ps. get_elem? ps i ≡ some p) (sym numbered) found) in
        let (at, start, there) = placed 0 spaces here space i p.proc e (
          ap (λ ps. get_elem? ps i) (space_processors 0 spaces here space (q ∷ local) e own) ∙ c) in
        let place : p.global_id ≡ at + i = omega arith in
        (
          omega arith,
          rw (found, get_proc) refl,
          ap (get_elem? (all_processors spaces)) place ∙ there,
        )
