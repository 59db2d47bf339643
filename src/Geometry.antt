-- ===== src/Geometry.antt =====
-- crates/pencil-array/src/geometry.rs: floor partitions, local ranges, row-major offsets.
pub mod Partition
pub mod Tiling
pub mod Offset
pub mod Ravel
pub mod Ranges
pub mod Cover
use pencil_rs.Prelude.{
  ℕ, zero, suc, ◌+◌, ◌-◌, ◌*◌, ◌/◌, ◌%◌, ◌^◌, ◌≡◌, List, [], ◌∷◌, Bool, true, false, Option, none,
  some, ltb, leb, ◌==◌, not, ◌&&◌, if◌then◌else◌, length, get_elem?, put_at, map, Outcome, ok, err,
  expect, and_then, ok_or, reject_if, ◌>>=◌, ◌>>◌,
}
use pencil_rs.Word.{checked_add, checked_mul}
use pencil_rs.Error.{GeometryError}
use pencil_rs.Axis.{SpatialAxis}

-- `std::ops::Range<usize>`
pub record Range : Type 0 where
  pub start : ℕ
  pub end : ℕ

-- `Range::len`: an inverted range has no elements.
abbrev pub range_len : Range → ℕ
range_len r = r.end - r.start

-- `Range::contains`
abbrev pub range_contains : Range → ℕ → Bool
range_contains r x = leb r.start x && ltb x r.end

-- `((length as u128 * position as u128) / parts as u128) as usize`
unfoldable pub boundary : ℕ → ℕ → ℕ → ℕ
boundary length parts position = (length * position) % 2 ^ 128 / parts % 2 ^ 64

unfoldable pub partition_range : ℕ → ℕ → ℕ → Outcome GeometryError Range
partition_range length parts coordinate = do
  reject_if (parts == 0) GeometryError.zero_partitions
  reject_if (leb parts coordinate)
      (GeometryError.process_coordinate_out_of_bounds 0 coordinate parts)
  ok (record {
    start = boundary length parts coordinate;
    end = boundary length parts ((coordinate + 1) % 2 ^ 64);
  })

-- `std::array::from_fn(|axis| 0..global_shape[axis])`
unfoldable pub full_ranges : List ℕ → List Range
full_ranges global_shape = map (λ extent. record { start = 0; end = extent }) global_shape

-- `for topology_axis in 0..M`, from a given topology axis on. The lists are what is left of the
-- process grid, the process coordinates and the decomposition, three arrays of length M.
unfoldable pub assign_ranges :
    List ℕ
    → ℕ
    → List Range
    → List ℕ
    → List ℕ
    → List SpatialAxis
    → Outcome GeometryError (List Range)
assign_ranges global_shape topology_axis ranges (extent ∷ grid) (coordinate ∷ coords)
      (axis ∷ axes) =
    do
      reject_if (extent == 0) (GeometryError.zero_process_extent topology_axis)
      reject_if (leb extent coordinate)
          (GeometryError.process_coordinate_out_of_bounds topology_axis coordinate extent)
      length ← expect (get_elem? global_shape axis)
      range ← partition_range length extent coordinate
      next ← expect (put_at ranges axis range)
      assign_ranges global_shape (topology_axis + 1) next grid coords axes
assign_ranges global_shape topology_axis ranges _ _ _ = ok ranges

unfoldable pub local_ranges_for :
    List ℕ → List ℕ → List ℕ → List SpatialAxis → Outcome GeometryError (List Range)
local_ranges_for global_shape process_grid process_coords decomposition =
    assign_ranges global_shape 0 (full_ranges global_shape) process_grid process_coords
      decomposition

unfoldable pub shape_from_ranges : List Range → List ℕ
shape_from_ranges ranges = map range_len ranges

-- `for (axis, (&extent, &index)) in shape.iter().zip(indices).enumerate()`, from a given axis
-- and offset on
unfoldable pub offset_from : ℕ → ℕ → List ℕ → List ℕ → Outcome GeometryError ℕ
offset_from axis offset (extent ∷ shape) (index ∷ indices) = do
  reject_if (leb extent index) (GeometryError.local_index_out_of_bounds axis index extent)
  next ←
      ok_or (and_then (checked_mul offset extent) (λ base. checked_add base index))
        GeometryError.size_overflow
  offset_from (axis + 1) next shape indices
offset_from axis offset [] indices = ok offset
offset_from axis offset (extent ∷ shape) [] = ok offset

unfoldable pub row_major_offset : List ℕ → List ℕ → Outcome GeometryError ℕ
row_major_offset shape indices = do
  reject_if (not (length shape == length indices))
      (GeometryError.rank_mismatch (length shape) (length indices))
  offset_from 0 0 shape indices
