-- ===== src/Tests/Grids.antt =====
-- Examples of the iteration over the coordinates of one process.
use pencil_rs.Prelude.{ℕ, ◌≡◌, refl, List, [], ◌∷◌, some, ok, arith, length, get_elem?}
use pencil_rs.ExtraShape.{scalar}
use pencil_rs.Geometry.Cover.{Owns}
use pencil_rs.Array.{local_indices, global_offset}
use pencil_rs.Grid.{LocalGrid, LocalGridIter, from_pencil, iter, get_local}
use pencil_rs.Grid.Odometer.{items}
use pencil_rs.Grid.Slices.{tuple_at}
use pencil_rs.Grid.Items.{iter-from_pencil_lem}
use pencil_rs.Tests.{pencil_of, ranges_of, IsValid-pencil}

-- The axes 10, …, 13 and 20, …, 22.
abbrev axes : List (List ℕ)
axes = (10 ∷ 11 ∷ 12 ∷ 13 ∷ []) ∷ (20 ∷ 21 ∷ 22 ∷ []) ∷ []

abbrev start : LocalGridIter ℕ
start = record {
  axes = (12 ∷ 13 ∷ []) ∷ (20 ∷ 21 ∷ 22 ∷ []) ∷ [];
  memory_shape = 3 ∷ 2 ∷ [];
  logical_to_memory = 1 ∷ 0 ∷ [];
  memory_indices = 0 ∷ 0 ∷ [];
  remaining = 6;
}

-- The second process, whose memory order is the reverse of the logical one.
all_items :
    items 7 start
    ≡ some (
        (12 ∷ 20 ∷ [])
        ∷ (13 ∷ 20 ∷ [])
        ∷ (12 ∷ 21 ∷ [])
        ∷ (13 ∷ 21 ∷ [])
        ∷ (12 ∷ 22 ∷ [])
        ∷ (13 ∷ 22 ∷ [])
        ∷ [])
unfolding items pencil_rs.Grid.advance
all_items = refl

iter-from_pencil_example :
    (grid : LocalGrid ℕ) × (xs : List (List ℕ)) × (from_pencil (pencil_of (1 ∷ [])) axes ≡ ok grid)
    × (items 7 (iter grid) ≡ some xs)
    × (length xs ≡ 6)
    × ((gi : List ℕ)
        → Owns (ranges_of (1 ∷ [])) gi
        → (o : ℕ) × (is : List ℕ) × (item : List ℕ) × (global_offset
              (pencil_of (1 ∷ []))
              scalar
              []
              gi
            ≡ some (some o))
          × (get_elem? xs o ≡ some item)
          × (local_indices (ranges_of (1 ∷ [])) gi ≡ some is)
          × (get_local grid is ≡ some (some item))
          × (tuple_at axes gi ≡ some item))
iter-from_pencil_example =
    iter-from_pencil_lem (pencil_of (1 ∷ [])) (IsValid-pencil 1 (omega arith)) axes
      (refl, (refl, tt))
