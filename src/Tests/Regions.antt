-- ===== src/Tests/Regions.antt =====
-- Examples of region walks: in the first process's block, stored with its axes in reversed order, the
-- last two columns.
use pencil_rs.Prelude.{
  ℕ, zero, suc, ◌+◌, ◌*◌, ◌<◌, ◌≤◌, ◌≡◌, ◌≢◌, refl, List, [], ◌∷◌, arith, some, ok, length,
  get_elem?, product,
}
use pencil_rs.Geometry.{Range, shape_from_ranges}
use pencil_rs.Geometry.Offset.{Within, ravel}
use pencil_rs.Pencil.{Pencil}
use pencil_rs.Transpose.Walk.{
  RegionWalk, layout_of, region_walk, copy_region_to_payload, copy_region_from_payload,
}
use pencil_rs.Transpose.Odometer.{dot}
use pencil_rs.Transpose.Regions.{Sound, copy_region_to_payload_lem, copy_region_from_payload_lem}
use pencil_rs.Transpose.Region.{Stands}
use pencil_rs.Transpose.Bounded.{region_walk_lem}
use pencil_rs.Tests.{pencil_of, IsValid-pencil}

abbrev pub columns : List Range
columns = record { start = 0; end = 2 } ∷ record { start = 1; end = 3 } ∷ []

abbrev block : Pencil
block = pencil_of (0 ∷ [])

region_walk_example :
    (walk : RegionWalk) × (region_walk (layout_of block) columns ≡ ok walk)
    × Sound walk
    × (walk.extent ≡ shape_from_ranges columns)
    × (walk.max_offset < 6)
    × ((is : List ℕ)
        → Within (shape_from_ranges columns) is
        → Stands block columns is (walk.start + dot walk.stride is))
region_walk_example =
    region_walk_lem (IsValid-pencil 0 (omega arith)) columns
      (omega arith, omega arith, omega arith, (omega arith, omega arith, omega arith, tt))

abbrev walk_columns : RegionWalk
walk_columns = record {
  start = 2;
  stride = 1 ∷ 2 ∷ [];
  extent = 2 ∷ 2 ∷ [];
  outer_len = 2;
  run_len = 2;
  run_stride = 2;
  max_offset = 5;
}

Sound-columns : Sound walk_columns
Sound-columns = record {
  axes = omega arith;
  rank = refl;
  positive = (omega arith, (omega arith, tt));
  run_count = refl;
  run_step = refl;
  total = refl;
  reach = refl;
  fits = omega arith;
  distinct = different;
}
  where
    different :
        (is js : List ℕ)
        → Within (2 ∷ 2 ∷ []) is
        → Within (2 ∷ 2 ∷ []) js
        → dot (1 ∷ 2 ∷ []) is ≡ dot (1 ∷ 2 ∷ []) js
        → ravel (2 ∷ 2 ∷ []) is ≡ ravel (2 ∷ 2 ∷ []) js
    different [] js w u e = absurd w
    different (i ∷ []) js w u e = absurd w.1
    different (i ∷ j ∷ k ∷ is) js w u e = absurd w.1.1
    different (i ∷ j ∷ []) [] w u e = absurd u
    different (i ∷ j ∷ []) (k ∷ []) w u e = absurd u.1
    different (i ∷ j ∷ []) (k ∷ l ∷ h ∷ js) w u e = absurd u.1.1
    different (i ∷ j ∷ []) (k ∷ l ∷ []) (a, (b, _)) (c, (d, _)) e = omega arith

abbrev stored : List ℕ
stored = 10 ∷ 11 ∷ 12 ∷ 13 ∷ 14 ∷ 15 ∷ []

abbrev empty : List ℕ
empty = 0 ∷ 0 ∷ 0 ∷ 0 ∷ []

copy_region_to_payload_example :
    (out : List ℕ) × (copy_region_to_payload walk_columns stored empty ≡ some out)
    × (length out ≡ 4)
    × ((is : List ℕ)
        → Within (2 ∷ 2 ∷ []) is
        → get_elem? out (ravel (2 ∷ 2 ∷ []) is) ≡ get_elem? stored (2 + dot (1 ∷ 2 ∷ []) is))
    × ((k : ℕ) → 4 ≤ k → get_elem? out k ≡ get_elem? empty k)
copy_region_to_payload_example =
    copy_region_to_payload_lem walk_columns Sound-columns stored empty (omega arith) (omega arith)

-- The payload of these two columns.
packed_columns : copy_region_to_payload walk_columns stored empty ≡ some (12 ∷ 14 ∷ 13 ∷ 15 ∷ [])
unfolding copy_region_to_payload pencil_rs.Prelude.put_at pencil_rs.Word.checked_add
packed_columns = refl

copy_region_from_payload_example :
    (out : List ℕ) × (copy_region_from_payload walk_columns (1 ∷ 2 ∷ 3 ∷ 4 ∷ []) stored ≡ some out)
    × (length out ≡ 6)
    × ((is : List ℕ)
        → Within (2 ∷ 2 ∷ []) is
        → get_elem? out (2 + dot (1 ∷ 2 ∷ []) is)
          ≡ get_elem? (1 ∷ 2 ∷ 3 ∷ 4 ∷ []) (ravel (2 ∷ 2 ∷ []) is))
    × ((k : ℕ)
        → ((is : List ℕ) → Within (2 ∷ 2 ∷ []) is → k ≢ 2 + dot (1 ∷ 2 ∷ []) is)
        → get_elem? out k ≡ get_elem? stored k)
copy_region_from_payload_example =
    copy_region_from_payload_lem walk_columns Sound-columns (1 ∷ 2 ∷ 3 ∷ 4 ∷ []) stored
      (omega arith) (omega arith)
