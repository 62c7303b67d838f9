-- ===== src/Tile/Bounds.antt =====
-- Where the tiles lie: the loop of `ComputeTileBounds` in src/zuku/tiled_array.cc, and the points of an
-- array.
use zuku.Base.{
  ℕ, zero, suc, ◌+◌, ◌-◌, ◌*◌, ◌/◌, ◌≤◌, ◌<◌, ◌≡◌, refl, sym, ap, ap₂, ◌∙◌, subst, ◌↔◌, inl, inr,
  false, List, [], ◌∷◌, arith, ltb, if◌then◌else◌, Bool-cases, length, All, product, ok,
}
use zuku.Shape.{ShardingDim}
use zuku.Tile.{Range, is_fake, tile_ranges, size_loop}
use zuku.Shape.Counts.{IsTileable, local_extents}
use zuku.Tile.Digits.{InRange}
use zuku.Tile.Permuted.{shardings}

-- A point lies in a rectangle.
abbrev pub Inside : List ℕ → List Range → Type 0
Inside [] [] = Unit
Inside [] (r ∷ rs) = ⊥
Inside (x ∷ xs) [] = ⊥
Inside (x ∷ xs) (r ∷ rs) = ((r.lo ≤ x) × (x < r.end)) × Inside xs rs

-- A point of the array: a coordinate for each dimension that is not fake.
abbrev pub InArray : List ℕ → List ShardingDim → Type 0
InArray xs [] = xs ≡ []
InArray [] (dim ∷ dims) = if is_fake dim then InArray [] dims else ⊥
InArray (x ∷ xs) (dim ∷ dims) =
    if is_fake dim then InArray (x ∷ xs) dims else (x < dim.size) × InArray xs dims

-- The index of the tile with a point; replica 0 of it.
pub tile_of : List ℕ → List ShardingDim → List ℕ
tile_of xs [] = []
tile_of [] (dim ∷ dims) = 0 ∷ tile_of [] dims
tile_of (x ∷ xs) (dim ∷ dims) =
    if is_fake dim
    then 0 ∷ tile_of (x ∷ xs) dims
    else (x / (dim.size / dim.sharding)) ∷ tile_of xs dims

-- Two indices agree along every dimension that is not fake.
abbrev pub SameTile : List ShardingDim → List ℕ → List ℕ → Type 0
SameTile [] is js = Unit {0}
SameTile (dim ∷ dims) [] js = ⊥
SameTile (dim ∷ dims) (i ∷ is) [] = ⊥
SameTile (dim ∷ dims) (i ∷ is) (j ∷ js) = (is_fake dim ≡ false → i ≡ j) × SameTile dims is js

-- A dimension that is not fake is cut in tiles of one positive extent.
extent_even :
    (dim : ShardingDim)
    → IsTileable dim
    → is_fake dim ≡ false
    → (dim.sharding * (dim.size / dim.sharding) ≡ dim.size) × (0 < dim.size / dim.sharding)
extent_even dim (hs, hz, inl one) f =
    let s : dim.sharding ≡ 1 = ground arith in (rw (one, s) refl, rw (one, s) (omega arith))
extent_even dim (hs, hz, inr even) f = (even, pos (dim.size / dim.sharding) even)
  where
    pos : (q : ℕ) → dim.sharding * q ≡ dim.size → 0 < q
    pos zero e = absurd (omega arith)
    pos (suc q) e = omega arith

tile_holds : (e i x : ℕ) → 0 < e → ((e * i ≤ x) × (x < e * i + e)) ↔ (i ≡ x / e)
tile_holds e i x h = (λ b. grind arith, λ q. rw q (grind arith))

tile_below : (e s x : ℕ) → 0 < e → x < s * e → x / e < s
tile_below e s x h lt = grind arith

-- The tile of a point has an index in range.
pub tile_of-InRange :
    (dims : List ShardingDim) (xs : List ℕ)
    → All IsTileable dims
    → InArray xs dims
    → InRange (shardings dims) (tile_of xs dims)
unfolding tile_of
tile_of-InRange [] xs t h = tt
tile_of-InRange (dim ∷ dims) [] t h = elim (Bool-cases (is_fake dim)) [
  | inl f ↦ (t.0.0, tile_of-InRange dims [] t.1 (rw f at h))
  | inr f ↦ absurd (rw f at h)
]
tile_of-InRange (dim ∷ dims) (x ∷ xs) t h = elim (Bool-cases (is_fake dim)) [
  | inl f ↦ rw f (t.0.0, tile_of-InRange dims (x ∷ xs) t.1 (rw f at h))
  | inr f ↦
      let b : (x < dim.size) × InArray xs dims = rw f at h in
      let e = extent_even dim t.0 f in
      rw f (
        tile_below (dim.size / dim.sharding) dim.sharding x e.1 (omega arith),
        tile_of-InRange dims xs t.1 b.1,
      )
]

-- A point lies in the rectangle of an index exactly when the index agrees with the point's tile.
pub Inside-tile_ranges :
    (dims : List ShardingDim) (xs is : List ℕ)
    → All IsTileable dims
    → InArray xs dims
    → length is ≡ length dims
    → Inside xs (tile_ranges dims is) ↔ SameTile dims is (tile_of xs dims)
unfolding tile_of tile_ranges
Inside-tile_ranges [] xs is t h e = (λ b. tt, λ b. subst (λ ys. Inside ys []) (sym h) tt)
Inside-tile_ranges (dim ∷ dims) xs [] t h e = absurd (omega arith)
Inside-tile_ranges (dim ∷ dims) [] (i ∷ is) t h e = elim (Bool-cases (is_fake dim)) [
  | inl f ↦
      let rest = Inside-tile_ranges dims [] is t.1 (rw f at h) (omega arith) in
      rw f (λ b. (λ c. cc, rest.0 b), λ b. rest.1 b.1)
  | inr f ↦ absurd (rw f at h)
]
Inside-tile_ranges (dim ∷ dims) (x ∷ xs) (i ∷ is) t h e = elim (Bool-cases (is_fake dim)) [
  | inl f ↦
      let rest = Inside-tile_ranges dims (x ∷ xs) is t.1 (rw f at h) (omega arith) in
      rw f (λ b. (λ c. cc, rest.0 b), λ b. rest.1 b.1)
  | inr f ↦
      let inside : (x < dim.size) × InArray xs dims = rw f at h in
      let rest = Inside-tile_ranges dims xs is t.1 inside.1 (omega arith) in
      let here = tile_holds (dim.size / dim.sharding) i x (extent_even dim t.0 f).1 in
      rw f (λ b. (λ c. here.0 b.0, rest.0 b.1), λ b. (here.1 (b.0 f), rest.1 b.1))
]

-- The points of a rectangle, all of whose coordinates are written.
pub ranges_size : List Range → ℕ
ranges_size [] = 1
ranges_size (r ∷ rs) = (r.end - r.lo) * ranges_size rs

pub size_loop-ranges :
    (ranges : List Range) → size_loop (length ranges) ranges ≡ ok (ranges_size ranges)
unfolding size_loop ranges_size
size_loop-ranges [] = refl
size_loop-ranges (r ∷ rs) = rw (size_loop-ranges rs) refl

-- The points of a tile, multiplied out.
pub ranges_size-product :
    (dims : List ShardingDim) (is : List ℕ)
    → All IsTileable dims
    → length is ≡ length dims
    → ranges_size (tile_ranges dims is) ≡ product (local_extents dims)
unfolding tile_ranges ranges_size
ranges_size-product [] is t e = refl
ranges_size-product (dim ∷ dims) [] t e = absurd (omega arith)
ranges_size-product (dim ∷ dims) (i ∷ is) t e =
    let rest = ranges_size-product dims is t.1 (omega arith) in
    elim (Bool-cases (is_fake dim)) [
      | inl f ↦
          let one : dim.size ≡ 1 = ground arith in
          let small : ltb 1 dim.size ≡ false = ground arith in rw (f, small) (rest ∙ omega arith)
      | inr f ↦
          let extent = width (dim.size / dim.sharding) i in
          elim (Bool-cases (ltb 1 dim.size)) [
            | inl big ↦ rw (f, big) (ap₂ ◌*◌ extent rest)
            | inr small ↦
                let one : dim.size / dim.sharding ≡ 1 = single dim t.0 f small in
                rw (f, small) (ap₂ ◌*◌ (extent ∙ one) rest)
          ]
    ]
  where
    width : (q i : ℕ) → q * i + q - q * i ≡ q
    width q i = omega arith

    single :
        (dim : ShardingDim)
        → IsTileable dim
        → is_fake dim ≡ false
        → ltb 1 dim.size ≡ false
        → dim.size / dim.sharding ≡ 1
    single dim t f small =
        let one : dim.size ≡ 1 = ground arith in
        let s : dim.sharding ≡ 1 = ground arith in rw (one, s) refl

pub length-InRange : (es ds : List ℕ) → InRange es ds → length es ≡ length ds
length-InRange [] [] h = refl
length-InRange [] (d ∷ ds) h = absurd h
length-InRange (e ∷ es) [] h = absurd h
length-InRange (e ∷ es) (d ∷ ds) h = ap suc (length-InRange es ds h.1)

pub SameTile-refl :
    (dims : List ShardingDim) (is : List ℕ) → length is ≡ length dims → SameTile dims is is
SameTile-refl [] is e = tt
SameTile-refl (dim ∷ dims) [] e = absurd (omega arith)
SameTile-refl (dim ∷ dims) (i ∷ is) e = (λ f. refl, SameTile-refl dims is (omega arith))

-- Without fake dimensions, indices of one tile are equal.
pub SameTile-eq :
    (dims : List ShardingDim) (is : List ℕ) (xs : List ℕ)
    → All (λ dim. is_fake dim ≡ false) dims
    → length is ≡ length dims
    → SameTile dims is (tile_of xs dims)
    → is ≡ tile_of xs dims
unfolding tile_of
SameTile-eq [] [] xs r e h = refl
SameTile-eq [] (i ∷ is) xs r e h = absurd (omega arith)
SameTile-eq (dim ∷ dims) [] xs r e h = absurd (omega arith)
SameTile-eq (dim ∷ dims) (i ∷ is) [] r e h =
    ap₂ ◌∷◌ (h.0 r.0) (SameTile-eq dims is [] r.1 (omega arith) h.1)
SameTile-eq (dim ∷ dims) (i ∷ is) (x ∷ xs) r e h =
    let b : (is_fake dim ≡ false → i ≡ x / (dim.size / dim.sharding))
        × SameTile dims is (tile_of xs dims) =
      rw r.0 at h in
    rw r.0 (ap₂ ◌∷◌ (b.0 r.0) (SameTile-eq dims is xs r.1 (omega arith) b.1))
