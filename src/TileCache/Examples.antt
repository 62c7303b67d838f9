-- ===== src/TileCache/Examples.antt =====
-- Tests of the tiles in src/zuku/tiled_array.cc, where an event is the time at which it triggers.
use zuku.Base.{
  ℕ, ◌+◌, max, ◌≡◌, refl, true, false, none, some, List, [], ◌∷◌, ◌==◌, if◌then◌else◌, length,
  allocation_failure, ok, err,
}
use zuku.Shape.{f32}
use zuku.TileCache.{Attempt, TileCache, TileShape, create_tile, ArrayTile, int32, Deletion}
use zuku.Store.{Events}
use zuku.TileCache.Fifo.{cache_steps, frees, gets, line_steps, steps-Lines, CacheStep}
use zuku.TileCache.Create.{changes, freed, create-fails, Refused}

abbrev times : Events ℕ
times = record { no_event = 0; merge = max }

abbrev four_from : ℕ → TileShape
four_from lo = record {
  type = f32;
  dims = 4 ∷ [];
  bounds = record { rank = 1; ranges = record { lo = lo; end = lo + 4 } ∷ [] };
}

abbrev tile : ℕ → ArrayTile
tile lo = record { instance_id = some 8; shape = four_from lo; type = int32 }

abbrev refused : Attempt ℕ
refused = record { ready = 0; instance_id = none; success = false }

abbrev granted : Attempt ℕ
granted = record { ready = 6; instance_id = some 9; success = true }

abbrev always_refused : List (Deletion ℕ) → Attempt ℕ
always_refused deleted = refused

abbrev steps : List (CacheStep ℕ)
steps = frees (tile 0) 5 ∷ frees (tile 4) 7 ∷ gets (four_from 8) ∷ []

steps-Lines_example : (cache_steps steps []).0 ≡ (line_steps steps (λ j. [])).0
steps-Lines_example = steps-Lines steps

-- An array for the elements 4 to 7 gets the tile of 0 to 3.
created_test :
    (create_tile times true
      (four_from 4)
      always_refused
      (changes times true (freed (tile 0) 5 ∷ []) [])).tile
    ≡ ok (5, tile 0)
unfolding create_tile changes
created_test = refl

abbrev other : TileCache ℕ
other =
    (
      record { type = f32; dims = 3 ∷ []; bounds = record { rank = 1; ranges = [] } },
      (5, tile 0) ∷ [],
    )
    ∷ []

refused_all :
    (create_tile times true (four_from 4) always_refused other).tile ≡ err allocation_failure
unfolding create_tile
refused_all = refl

create-fails_example :
    Refused times true
      (four_from 4)
      always_refused
      other
      (create_tile times true (four_from 4) always_refused other)
create-fails_example = create-fails times true (four_from 4) always_refused other refused_all

-- The instance of the free tile of another kind is deleted between the two requests.
deleted_test :
    (create_tile times true (four_from 4) always_refused other).deleted
    ≡ record { instance_id = 8; after = 5 } ∷ []
unfolding create_tile
deleted_test = refl

-- Realm grants the second request once that instance is to be deleted.
second_test :
    (create_tile times true
      (four_from 4)
      (λ (deleted : List (Deletion ℕ)). if length deleted == 0 then refused else granted)
      other).tile
    ≡ ok (6, record { instance_id = some 9; shape = four_from 4; type = int32 })
unfolding create_tile
second_test = refl
