-- ===== src/TileCache/Create.antt =====
-- `ArrayTile::Create` of src/zuku/tiled_array.cc: which tile it gives, and when it fails.
use zuku.Base.{
  ℕ, ◌≡◌, refl, sym, ap, ◌∙◌, subst, ◌≢◌, ◌⊎◌, inl, inr, Bool, true, false, none, some, List, [],
  ◌∷◌, ◌++◌, if◌then◌else◌, Bool-cases, All, Result, allocation_failure, ok, err,
}
use zuku.Store.{Events}
use zuku.TileCache.{
  clear_tiles, TileCache, free_tile, to_realm_type, TileShape, create_tile, Attempt, Made,
  RealmType, ArrayTile, get_tile, try_allocation, new_tile, allocate, cached_or, same_tile_shape,
  pop_tile, delete_all, delete_queues, Deletion, deferred_delete,
}
use zuku.Queues.{find_queue, put_queue}
use zuku.TileCache.Fifo.{held, tile_self, held-put, tile_chain, tile_swap}
use zuku.Shape.{
  pred, f16, bf16, f32, f64, s8, s16, s32, s64, u8, u16, u32, u64, c64, c128, SupportedType,
}
use zuku.Store.Views.{Among}

-- What happens to the tiles of a processor.
pub data TileChange (E : Type 0) : Type 0 where
  made : (shape : TileShape) (answer : List (Deletion E) → Attempt E) → TileChange E
  freed : (tile : ArrayTile) (free : E) → TileChange E

module _ {E : Type 0} (es : Events E) where
  pub changed : Bool → TileChange E → TileCache E → TileCache E
  unfolding create_tile free_tile
  changed cached (made shape answer) cache = (create_tile es cached shape answer cache).cache
  changed cached (freed tile free) cache = (free_tile cached tile free cache).0

  unfoldable pub changes : Bool → List (TileChange E) → TileCache E → TileCache E
  unfolding changed
  changes cached [] cache = cache
  changes cached (c ∷ cs) cache = changes cached cs (changed cached c cache)

  abbrev FitsKey : TileShape → E × ArrayTile → Type 0
  FitsKey j tile = same_tile_shape tile.1.shape j ≡ true

  -- Every free tile has the type and the sizes under which it is kept.
  abbrev IsKept : TileCache E → Type 0
  IsKept cache = (j : TileShape) → All (FitsKey j) (held j cache)

  All-snoc :
      (j : TileShape) (tiles : List (E × ArrayTile)) (tile : E × ArrayTile)
      → All (FitsKey j) tiles
      → FitsKey j tile
      → All (FitsKey j) (tiles ++ (tile ∷ []))
  All-snoc j [] tile a f = (f, tt)
  All-snoc j (x ∷ tiles) tile (g, a) f = (g, All-snoc j tiles tile a f)

  All-same :
      (i j : TileShape) (tiles : List (E × ArrayTile))
      → same_tile_shape j i ≡ true
      → All (FitsKey i) tiles
      → All (FitsKey j) tiles
  All-same i j [] h a = tt
  All-same i j (x ∷ tiles) h (f, a) =
      (tile_chain x.1.shape i j f (tile_swap j i h), All-same i j tiles h a)

  put-IsKept :
      (k : TileShape) (tiles : List (E × ArrayTile)) (cache : TileCache E)
      → IsKept cache
      → All (FitsKey k) tiles
      → IsKept (put_queue same_tile_shape k tiles cache)
  put-IsKept k tiles cache v a j =
      rw (held-put j k tiles cache) (by_key (Bool-cases (same_tile_shape j k)))
    where
      by_key :
          (same_tile_shape j k ≡ true) ⊎ (same_tile_shape j k ≡ false)
          → All (FitsKey j) (if same_tile_shape j k then tiles else held j cache)
      by_key (inl same) = rw same (All-same k j tiles same a)
      by_key (inr other) = rw other (v j)

  nothing-IsKept : IsKept []
  nothing-IsKept j = unfold find_queue in tt

  -- A tile of the shape, if there is one.
  abbrev FitsShape : TileShape → Result (E × ArrayTile) → Type 0
  FitsShape shape (ok tile) = same_tile_shape tile.1.shape shape ≡ true
  FitsShape shape (err error) = Unit {0}

  new_tile-FitsShape :
      (shape : TileShape) (type : RealmType) (attempt : Attempt E)
      → FitsShape shape (new_tile shape type attempt)
  new_tile-FitsShape shape type attempt = elim (Bool-cases attempt.success) [
    | inl works ↦ rw works (tile_self shape)
    | inr fails ↦ rw fails tt
  ]

  abbrev IsGood : TileShape → Made E → Type 0
  IsGood shape m = FitsShape shape m.tile × IsKept m.cache

  clear-IsKept :
      (cached : Bool) (cache : TileCache E) → IsKept cache → IsKept (clear_tiles cached cache).0
  unfolding clear_tiles
  clear-IsKept false cache v = v
  clear-IsKept true cache v = nothing-IsKept

  allocate-IsGood :
      (cached : Bool) (shape : TileShape) (answer : List (Deletion E) → Attempt E)
      (cache : TileCache E) (type : Result RealmType)
      → IsKept cache
      → IsGood shape (allocate es cached shape answer cache type)
  allocate-IsGood cached shape answer cache (err error) v = (tt, v)
  allocate-IsGood cached shape answer cache (ok type) v =
      elim (Bool-cases (try_allocation es shape.bounds (answer [])).success) [
        | inl works ↦ rw works (tile_self shape, v)
        | inr fails ↦ rw fails (
          new_tile-FitsShape shape type
              (try_allocation es shape.bounds (answer (clear_tiles cached cache).1)),
          clear-IsKept cached cache v,
        )
      ]

  create-IsGood :
      (cached : Bool) (shape : TileShape) (answer : List (Deletion E) → Attempt E)
      (cache : TileCache E)
      → IsKept cache
      → IsGood shape (create_tile es cached shape answer cache)
  unfolding create_tile get_tile
  create-IsGood false shape answer cache v =
      allocate-IsGood false shape answer cache (to_realm_type shape.type) v
  create-IsGood true shape answer cache v = by_front (held shape cache) (v shape)
    where
      by_front :
          (tiles : List (E × ArrayTile))
          → All (FitsKey shape) tiles
          → IsGood shape (cached_or es true shape answer (pop_tile shape cache tiles))
      by_front [] a = allocate-IsGood true shape answer cache (to_realm_type shape.type) v
      by_front (front ∷ rest) (f, a) = (f, put-IsKept shape rest cache v a)

  change-IsKept :
      (cached : Bool) (c : TileChange E) (cache : TileCache E)
      → IsKept cache
      → IsKept (changed cached c cache)
  unfolding changed free_tile
  change-IsKept cached (made shape answer) cache v = (create-IsGood cached shape answer cache v).1
  change-IsKept false (freed tile free) cache v = v
  change-IsKept true (freed tile free) cache v = put-IsKept tile.shape _ cache v (
      All-snoc tile.shape (held tile.shape cache) (free, tile) (v tile.shape)
        (tile_self tile.shape))

  changes-IsKept :
      (cached : Bool) (cs : List (TileChange E)) (cache : TileCache E)
      → IsKept cache
      → IsKept (changes cached cs cache)
  unfolding changes
  changes-IsKept cached [] cache v = v
  changes-IsKept cached (c ∷ cs) cache v =
      changes-IsKept cached cs _ (change-IsKept cached c cache v)

  -- Let tiles be created and freed in any order, with any answers of Realm, with a cache or without. A tile that is then created
  -- has the type and the sizes that are asked for, also if it comes from the cache.
  pub create-shape :
      (cached : Bool) (cs : List (TileChange E)) (shape : TileShape)
      (answer : List (Deletion E) → Attempt E) (tile : E × ArrayTile)
      → (create_tile es cached shape answer (changes cached cs [])).tile ≡ ok tile
      → same_tile_shape tile.1.shape shape ≡ true
  create-shape cached cs shape answer tile e =
      subst (FitsShape shape) e
        (create-IsGood cached shape answer (changes cached cs [])
          (changes-IsKept cached cs [] nothing-IsKept)).0

  new_tile-fails :
      (shape : TileShape) (type : RealmType) (attempt : Attempt E)
      → new_tile shape type attempt ≡ err allocation_failure
      → attempt.success ≡ false
  new_tile-fails shape type attempt e = elim (Bool-cases attempt.success) [
    | inl works ↦ absurd (cc (rw works at e))
    | inr fails ↦ fails
  ]

  to_realm_type-fails : (type : SupportedType) → to_realm_type type ≢ err allocation_failure
  unfolding to_realm_type
  to_realm_type-fails pred e = cc e
  to_realm_type-fails s8 e = cc e
  to_realm_type-fails u8 e = cc e
  to_realm_type-fails f16 e = cc e
  to_realm_type-fails bf16 e = cc e
  to_realm_type-fails s16 e = cc e
  to_realm_type-fails u16 e = cc e
  to_realm_type-fails f32 e = cc e
  to_realm_type-fails s32 e = cc e
  to_realm_type-fails u32 e = cc e
  to_realm_type-fails f64 e = cc e
  to_realm_type-fails s64 e = cc e
  to_realm_type-fails u64 e = cc e
  to_realm_type-fails c64 e = cc e
  to_realm_type-fails c128 e = cc e

  -- What the cache keeps under a shape is deleted when the cache is cleared, each tile after the event
  -- that it was freed with.
  Among-left : (d : Deletion E) (xs ys : List (Deletion E)) → Among d xs → Among d (xs ++ ys)
  Among-left d [] ys a = absurd a
  Among-left d (x ∷ xs) ys (inl e) = inl e
  Among-left d (x ∷ xs) ys (inr a) = inr (Among-left d xs ys a)

  Among-right : (d : Deletion E) (xs ys : List (Deletion E)) → Among d ys → Among d (xs ++ ys)
  Among-right d [] ys a = a
  Among-right d (x ∷ xs) ys a = inr (Among-right d xs ys a)

  abbrev deletion_of : ℕ → E → Deletion E
  deletion_of id free = record { instance_id = id; after = free }

  delete_all-Among :
      (tiles : List (E × ArrayTile)) (tile : E × ArrayTile) (id : ℕ)
      → Among tile tiles
      → tile.1.instance_id ≡ some id
      → Among (deletion_of id tile.0) (delete_all tiles)
  unfolding delete_all
  delete_all-Among [] tile id a e = absurd a
  delete_all-Among ((free, x) ∷ tiles) tile id (inl same) e =
      let event : tile.0 ≡ free = ap (λ (t : E × ArrayTile). t.0) same in
      let own : x.instance_id ≡ some id =
        sym (ap (λ (t : E × ArrayTile). t.1.instance_id) same) ∙ e in
      rw own (inl (ap (deletion_of id) event))
  delete_all-Among ((free, x) ∷ tiles) tile id (inr a) e =
      Among-right (deletion_of id tile.0) (deferred_delete x free) (delete_all tiles)
        (delete_all-Among tiles tile id a e)

  delete_queues-Among :
      (j : TileShape) (cache : TileCache E) (tile : E × ArrayTile) (id : ℕ)
      → Among tile (held j cache)
      → tile.1.instance_id ≡ some id
      → Among (deletion_of id tile.0) (delete_queues cache)
  unfolding delete_queues find_queue
  delete_queues-Among j [] tile id a e = absurd a
  delete_queues-Among j ((k, tiles) ∷ cache) tile id a e = elim (Bool-cases (same_tile_shape j k)) [
    | inl same ↦
        Among-left (deletion_of id tile.0) (delete_all tiles) (delete_queues cache)
          (delete_all-Among tiles tile id (rw same at a) e)
    | inr other ↦
        Among-right (deletion_of id tile.0) (delete_all tiles) (delete_queues cache)
          (delete_queues-Among j cache tile id (rw other at a) e)
  ]

  -- No tile is free, and Realm refuses an instance first and after the deletions that it was asked for.
  pub record Refused (cached : Bool) (shape : TileShape) (answer : List (Deletion E) → Attempt E)
      (cache : TileCache E) (m : Made E) : Type 0 where
    pub none_free : (get_tile cached shape cache).0 ≡ none
    pub supported : (type : RealmType) × (to_realm_type shape.type ≡ ok type)
    pub refused_first : (try_allocation es shape.bounds (answer [])).success ≡ false
    pub refused_after : (try_allocation es shape.bounds (answer m.deleted)).success ≡ false
    pub all_deleted :
        (j : TileShape) (tile : E × ArrayTile) (id : ℕ)
        → cached ≡ true
        → Among tile (held j cache)
        → tile.1.instance_id ≡ some id
        → Among (deletion_of id tile.0) m.deleted
    pub none_left : (j : TileShape) → cached ≡ true → held j m.cache ≡ []

  allocate-Refused :
      (cached : Bool) (shape : TileShape) (answer : List (Deletion E) → Attempt E)
      (cache : TileCache E) (type : Result RealmType)
      → (get_tile cached shape cache).0 ≡ none
      → to_realm_type shape.type ≡ type
      → (allocate es cached shape answer cache type).tile ≡ err allocation_failure
      → Refused cached shape answer cache (allocate es cached shape answer cache type)
  allocate-Refused cached shape answer cache (err error) free t e =
      let same : error ≡ allocation_failure = cc e in
      absurd (to_realm_type-fails shape.type (t ∙ ap err same))
  allocate-Refused cached shape answer cache (ok type) free t e =
      elim (Bool-cases (try_allocation es shape.bounds (answer [])).success) [
        | inl works ↦ absurd (cc (rw works at e))
        | inr fails ↦ rw fails (record {
          none_free = free;
          supported = (type, t);
          refused_first = fails;
          refused_after =
              new_tile-fails shape type
                (try_allocation es shape.bounds (answer (clear_tiles cached cache).1))
                (rw fails at e);
          all_deleted = λ j tile id on a own. cleared cached on j tile id a own;
          none_left = λ j on. emptied cached on j;
        })
      ]
    where
      cleared :
          (c : Bool)
          → c ≡ true
          → (j : TileShape) (tile : E × ArrayTile) (id : ℕ) → Among tile (held j cache)
          → tile.1.instance_id ≡ some id
          → Among (deletion_of id tile.0) (clear_tiles c cache).1
      cleared false on j tile id a own = absurd (cc on)
      cleared true on j tile id a own =
          unfold clear_tiles in delete_queues-Among j cache tile id a own

      emptied : (c : Bool) → c ≡ true → (j : TileShape) → held j (clear_tiles c cache).0 ≡ []
      emptied false on j = absurd (cc on)
      emptied true on j = unfold clear_tiles in unfold find_queue in refl

  -- An AllocationFailure comes only where no tile of the type and sizes was free, and Realm refused an
  -- instance twice: at first, and once it had been asked to delete the instance of every free tile of the
  -- processor, each after the event that the tile was freed with. No free tile is left then. Without a
  -- cache there are no free tiles, and Realm is asked twice all the same.
  pub create-fails :
      (cached : Bool) (shape : TileShape) (answer : List (Deletion E) → Attempt E)
      (cache : TileCache E)
      → (create_tile es cached shape answer cache).tile ≡ err allocation_failure
      → Refused cached shape answer cache (create_tile es cached shape answer cache)
  unfolding create_tile get_tile
  create-fails false shape answer cache e =
      allocate-Refused false shape answer cache (to_realm_type shape.type) refl refl e
  create-fails true shape answer cache e = by_front (held shape cache) refl e
    where
      by_front :
          (tiles : List (E × ArrayTile))
          → held shape cache ≡ tiles
          → (cached_or es true shape answer (pop_tile shape cache tiles)).tile
            ≡ err allocation_failure
          → Refused true shape answer cache
              (cached_or es true shape answer (pop_tile shape cache tiles))
      by_front [] own e =
          allocate-Refused true shape answer cache (to_realm_type shape.type)
            (rw (get_tile, own) refl) refl e
      by_front (front ∷ rest) own e = absurd (cc e)
