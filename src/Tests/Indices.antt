-- ===== src/Tests/Indices.antt =====
-- Examples of axes, decompositions, partitions and offsets.
use pencil_rs.Prelude.{
  ℕ, ◌<◌, ◌≡◌, ◌≢◌, refl, List, [], ◌∷◌, true, some, arith, length, get_elem?, All, product, ok,
  err, leb, if◌then◌else◌,
}
use pencil_rs.Error.{GeometryError}
use pencil_rs.Axis.{permute, unpermute, new}
use pencil_rs.Axis.Valid.{NewResult, axis_permutation_new_lem}
use pencil_rs.Axis.RoundTrip.{unpermute-permute, permute-unpermute}
use pencil_rs.Decomposition.{Decomposition, complete_process_grid, complete_process_coords}
use pencil_rs.Decomposition.Valid.{
  complete_process_grid_lem, complete_process_coords_lem, decomposition_new_lem,
}
use pencil_rs.Decomposition.Valid
use pencil_rs.Decomposition
use pencil_rs.Geometry.{Range, partition_range, range_contains, row_major_offset, offset_from}
use pencil_rs.Geometry.Partition.{Inputs}
use pencil_rs.Geometry.Tiling.{Tiles, partition_range-Tiles, partition_range_owner}
use pencil_rs.Geometry.Offset.{row_major_offset_lem, row_major_offset_sound, ravel, Within}
use pencil_rs.Checked.{checked_product, checked_product_lem}
use pencil_rs.SpatialRemap.{partition_owner}
use pencil_rs.SpatialRemap.Owner.{partition_owner_lem}
use pencil_rs.Word.{usize_max, checked_mul, checked_add}
use pencil_rs.Tests.{swapped, IsAxisPermutation-swapped, IsDecomposition-first}

axis_permutation_new_example : NewResult 2 (1 ∷ 0 ∷ []) (new 2 (1 ∷ 0 ∷ []))
axis_permutation_new_example = axis_permutation_new_lem 2 (1 ∷ 0 ∷ []) refl

unpermute-permute_example :
    (ys : List ℕ) × (permute swapped (4 ∷ 3 ∷ []) ≡ some ys)
    × (length ys ≡ 2)
    × (unpermute swapped ys ≡ some (4 ∷ 3 ∷ []))
unpermute-permute_example = unpermute-permute IsAxisPermutation-swapped (4 ∷ 3 ∷ []) refl

permute-unpermute_example :
    (xs : List ℕ) × (unpermute swapped (3 ∷ 4 ∷ []) ≡ some xs)
    × (length xs ≡ 2)
    × (permute swapped xs ≡ some (3 ∷ 4 ∷ []))
permute-unpermute_example = permute-unpermute IsAxisPermutation-swapped (3 ∷ 4 ∷ []) refl

decomposition_new_example :
    Decomposition.Valid.NewResult 2 (0 ∷ []) (Decomposition.new 2 1 (0 ∷ []))
decomposition_new_example = decomposition_new_lem 2 (0 ∷ [])

abbrev first_axis : Decomposition
first_axis = record { axes = 0 ∷ [] }

complete_process_grid_example :
    (out : List ℕ) × (complete_process_grid 2 first_axis (5 ∷ []) ≡ some out)
    × (length out ≡ 2)
    × ((t a g : ℕ)
        → get_elem? (0 ∷ []) t ≡ some a
        → get_elem? (5 ∷ []) t ≡ some g
        → get_elem? out a ≡ some g)
    × ((a : ℕ) → a < 2 → All (λ y. a ≢ y) (0 ∷ []) → get_elem? out a ≡ some 1)
complete_process_grid_example =
    complete_process_grid_lem 2 first_axis (5 ∷ []) IsDecomposition-first refl

ten_by_four : Inputs 10 4
ten_by_four = record { length_fits = omega arith; parts_fit = omega arith; positive = omega arith }

partition_range-Tiles_example : (range_of : ℕ → Range) × Tiles 10 4 range_of
partition_range-Tiles_example = partition_range-Tiles ten_by_four

partition_range_owner_example :
    (c : ℕ) × (c < 4)
    × ((r : Range) × (partition_range 10 4 c ≡ ok r) × (range_contains r 7 ≡ true))
    × ((d : ℕ) (s : Range)
        → d < 4
        → partition_range 10 4 d ≡ ok s
        → range_contains s 7 ≡ true
        → d ≡ c)
partition_range_owner_example = partition_range_owner 7 ten_by_four (omega arith)

row_major_offset_example : (row_major_offset (3 ∷ 4 ∷ []) (2 ∷ 1 ∷ []) ≡ ok 9) × (9 < 12)
row_major_offset_example =
    row_major_offset_lem (3 ∷ 4 ∷ []) (2 ∷ 1 ∷ []) (omega arith, (omega arith, tt)) (omega arith)

run_at_nine : row_major_offset (3 ∷ 4 ∷ []) (2 ∷ 1 ∷ []) ≡ ok 9
unfolding row_major_offset offset_from checked_mul checked_add
run_at_nine = refl

row_major_offset_sound_example :
    Within (3 ∷ 4 ∷ []) (2 ∷ 1 ∷ []) × (9 ≡ ravel (3 ∷ 4 ∷ []) (2 ∷ 1 ∷ []))
row_major_offset_sound_example = row_major_offset_sound (3 ∷ 4 ∷ []) (2 ∷ 1 ∷ []) run_at_nine

checked_product_example : checked_product (3 ∷ 4 ∷ []) ≡ (
    if leb (product (3 ∷ 4 ∷ [])) usize_max
    then ok (product (3 ∷ 4 ∷ []))
    else err GeometryError.size_overflow)
checked_product_example = checked_product_lem (3 ∷ 4 ∷ [])

partition_owner_example :
    (c : ℕ) × (partition_owner 7 10 4 ≡ ok c)
    × (c < 4)
    × ((r : Range) × (partition_range 10 4 c ≡ ok r) × (range_contains r 7 ≡ true))
partition_owner_example = partition_owner_lem 7 ten_by_four (omega arith)
