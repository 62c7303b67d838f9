-- ===== src/TileCache/Fifo.antt =====
-- The cache of free tiles in src/zuku/tiled_array.cc against a specification that has one queue per
-- type and sizes of a tile.
use zuku.Base.{
  ℕ, ◌≡◌, refl, sym, ap, ap₂, ◌∙◌, inl, inr, Bool, true, false, ◌&&◌, Option, none, some, List, [],
  ◌∷◌, ◌++◌, arith, ◌==◌, if◌then◌else◌, Bool-cases,
}
use zuku.Queues.{find_queue, put_queue, IsSame, find-put}
use zuku.TileCache.{
  TileShape, same_dim_sizes, ArrayTile, TileCache, get_tile, same_tile_shape, free_tile, type_value,
  clear_tiles, pop_tile,
}

same_dim_sizes_sound : (xs ys : List ℕ) → same_dim_sizes xs ys ≡ true → xs ≡ ys
unfolding same_dim_sizes
same_dim_sizes_sound [] [] h = refl
same_dim_sizes_sound [] (y ∷ ys) h = cc h
same_dim_sizes_sound (x ∷ xs) [] h = cc h
same_dim_sizes_sound (x ∷ xs) (y ∷ ys) h = elim (Bool-cases (x == y)) [
  | inl same ↦
      let first : x ≡ y = ground arith in
      let rest : xs ≡ ys = same_dim_sizes_sound xs ys (rw same at h) in cc (first, rest)
  | inr other ↦ absurd (cc (rw other at h))
]

same_dim_sizes_self : (xs : List ℕ) → same_dim_sizes xs xs ≡ true
unfolding same_dim_sizes
same_dim_sizes_self [] = refl
same_dim_sizes_self (x ∷ xs) =
    let here : (x == x) ≡ true = ground arith in rw (here, same_dim_sizes_self xs) refl

-- What the cache's keys are compared by.
abbrev pub kind : TileShape → ℕ × List ℕ
kind shape = (type_value shape.type, shape.dims)

both : (a b : Bool) → (a && b) ≡ true → (a ≡ true) × (b ≡ true)
both true b h = (refl, h)
both false b h = absurd (cc h)

equal_numbers : (a b : ℕ) → (a == b) ≡ true → a ≡ b
equal_numbers a b h = ground arith

number_self : (a : ℕ) → (a == a) ≡ true
number_self a = ground arith

pub same_tile_shape-IsSame : IsSame same_tile_shape kind
unfolding same_tile_shape
same_tile_shape-IsSame = record {
  sound = λ i j h.
      let parts = both (type_value i.type == type_value j.type) (same_dim_sizes i.dims j.dims) h in
      let types = equal_numbers (type_value i.type) (type_value j.type) parts.0 in
      let sizes = same_dim_sizes_sound i.dims j.dims parts.1 in cc (types, sizes);
  complete = λ i j h.
      let types = ap (λ (k : ℕ × List ℕ). k.0) h in
      let sizes = ap (λ (k : ℕ × List ℕ). k.1) h in
      rw (types, sizes, number_self (type_value j.type), same_dim_sizes_self j.dims) refl;
}

pub tile_self : (shape : TileShape) → same_tile_shape shape shape ≡ true
tile_self shape = same_tile_shape-IsSame.complete shape shape refl

pub tile_swap : (i j : TileShape) → same_tile_shape i j ≡ true → same_tile_shape j i ≡ true
tile_swap i j h = same_tile_shape-IsSame.complete j i (sym (same_tile_shape-IsSame.sound i j h))

pub tile_chain :
    (i j k : TileShape)
    → same_tile_shape i j ≡ true
    → same_tile_shape j k ≡ true
    → same_tile_shape i k ≡ true
tile_chain i j k g h =
    same_tile_shape-IsSame.complete i k
      (same_tile_shape-IsSame.sound i j g ∙ same_tile_shape-IsSame.sound j k h)

-- What is done with the cache.
pub data CacheStep (E : Type 0) : Type 0 where
  gets : (shape : TileShape) → CacheStep E
  frees : (tile : ArrayTile) (free : E) → CacheStep E
  clears : CacheStep E

-- A specification: a queue for every shape.
abbrev pub Lines : Type 0 → Type 0
Lines E = TileShape → List (E × ArrayTile)

module _ {E : Type 0} where
  abbrev pub held : TileShape → TileCache E → List (E × ArrayTile)
  held shape cache = find_queue same_tile_shape shape cache

  pub held-put :
      (j k : TileShape) (tiles : List (E × ArrayTile)) (cache : TileCache E)
      → held j (put_queue same_tile_shape k tiles cache)
        ≡ (if same_tile_shape j k then tiles else held j cache)
  held-put j k tiles cache = find-put same_tile_shape kind same_tile_shape-IsSame j k tiles cache

  abbrev taken : Option (E × ArrayTile) → List (E × ArrayTile)
  taken none = []
  taken (some tile) = tile ∷ []

  pub cache_step : CacheStep E → TileCache E → List (E × ArrayTile) × TileCache E
  unfolding get_tile free_tile clear_tiles
  cache_step (gets shape) cache =
      (taken (get_tile true shape cache).0, (get_tile true shape cache).1)
  cache_step (frees tile free) cache = ([], (free_tile true tile free cache).0)
  cache_step clears cache = ([], (clear_tiles true cache).0)

  -- The tiles that the steps got, and the cache after them.
  pub cache_steps : List (CacheStep E) → TileCache E → List (E × ArrayTile) × TileCache E
  unfolding cache_step
  cache_steps [] cache = ([], cache)
  cache_steps (step ∷ steps) cache =
      let now = cache_step step cache in
      let later = cache_steps steps now.1 in (now.0 ++ later.0, later.1)

  abbrev pub line_got : TileShape → List (E × ArrayTile) → Lines E → List (E × ArrayTile) × Lines E
  line_got shape [] lines = ([], lines)
  line_got shape (front ∷ rest) lines =
      (front ∷ [], λ j. if same_tile_shape j shape then rest else lines j)

  abbrev pub line_step : CacheStep E → Lines E → List (E × ArrayTile) × Lines E
  line_step (gets shape) lines = line_got shape (lines shape) lines
  line_step (frees tile free) lines = (
    [],
    λ j. if same_tile_shape j tile.shape then lines tile.shape ++ ((free, tile) ∷ []) else lines j,
  )
  line_step clears lines = ([], λ j. [])

  pub line_steps : List (CacheStep E) → Lines E → List (E × ArrayTile) × Lines E
  line_steps [] lines = ([], lines)
  line_steps (step ∷ steps) lines =
      let now = line_step step lines in
      let later = line_steps steps now.1 in (now.0 ++ later.0, later.1)

  abbrev Agrees : TileCache E → Lines E → Type 0
  Agrees cache lines = (j : TileShape) → held j cache ≡ lines j

  step-Agrees :
      (step : CacheStep E) (cache : TileCache E) (lines : Lines E)
      → Agrees cache lines
      → ((cache_step step cache).0 ≡ (line_step step lines).0)
        × Agrees (cache_step step cache).1 (line_step step lines).1
  unfolding cache_step get_tile free_tile clear_tiles
  step-Agrees (gets shape) cache lines a = rw (← a shape) (by_front (held shape cache))
    where
      by_front :
          (tiles : List (E × ArrayTile))
          → (taken (pop_tile shape cache tiles).0 ≡ (line_got shape tiles lines).0)
            × Agrees (pop_tile shape cache tiles).1 (line_got shape tiles lines).1
      by_front [] = (refl, a)
      by_front (front ∷ rest) = (refl, λ j. held-put j shape rest cache ∙ rw (a j) refl)
  step-Agrees (frees tile free) cache lines a =
      (refl, λ j. held-put j tile.shape _ cache ∙ rw (a j, a tile.shape) refl)
  step-Agrees clears cache lines a = (refl, λ j. unfold find_queue in refl)

  steps-Agrees :
      (steps : List (CacheStep E)) (cache : TileCache E) (lines : Lines E)
      → Agrees cache lines
      → ((cache_steps steps cache).0 ≡ (line_steps steps lines).0)
        × Agrees (cache_steps steps cache).1 (line_steps steps lines).1
  unfolding cache_steps line_steps
  steps-Agrees [] cache lines a = (refl, a)
  steps-Agrees (step ∷ steps) cache lines a =
      let now = step-Agrees step cache lines a in
      let later = steps-Agrees steps _ _ now.1 in (ap₂ ◌++◌ now.0 later.0, later.1)

  -- Let tiles be freed and got from an empty cache, and the cache be cleared, in any order. The tiles
  -- that come out are those of a specification in which each type and sizes has a queue of its own.
  pub steps-Lines :
      (steps : List (CacheStep E)) → (cache_steps steps []).0 ≡ (line_steps steps (λ j. [])).0
  steps-Lines steps = (steps-Agrees steps [] (λ j. []) (λ j. unfold find_queue in refl)).0
