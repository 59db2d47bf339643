-- ===== src/Transpose/Walk.antt =====
-- crates/pencil-array/src/transpose.rs: the memory walk of one peer region, and the copies along it.
-- Overflow checks and debug assertions are taken as enabled, and sums of positions that stay within
-- a slice are written without their check.
use pencil_rs.Prelude.{
  ℕ, zero, suc, ◌+◌, ◌-◌, ◌*◌, List, [], ◌∷◌, Bool, true, false, Option, none, some, ◌==◌, ◌||◌,
  ◌&&◌, not, if◌then◌else◌, leb, ltb, length, get_elem?, put_at, replicate, and_then, Outcome, ok,
  expect, ok_or, reject_if, ◌>>=◌,
}
use pencil_rs.Word.{checked_add, checked_mul}
use pencil_rs.Axis.{AxisPermutation}
use pencil_rs.Geometry.{Range}
use pencil_rs.Pencil.{Pencil}
use pencil_rs.Transpose.{TransposeError}

pub record LocalLayout : Type 0 where
  pub local_ranges : List Range
  pub shape_memory : List ℕ
  pub permutation : AxisPermutation
  pub local_len : ℕ

-- `LocalLayout::new`
unfoldable pub layout_of : Pencil → LocalLayout
layout_of pencil = record {
  local_ranges = pencil.local_ranges;
  shape_memory = pencil.local_shape_memory;
  permutation = pencil.permutation;
  local_len = pencil.local_len;
}

pub record RegionWalk : Type 0 where
  pub start : ℕ
  pub stride : List ℕ
  pub extent : List ℕ
  pub outer_len : ℕ
  pub run_len : ℕ
  pub run_stride : ℕ
  pub max_offset : ℕ

-- `checked_sub`, and a subtraction that panics below 0
unfoldable pub checked_sub : ℕ → ℕ → Option ℕ
checked_sub a b = if leb b a then some (a - b) else none

-- `for position in (0..N).rev()`: the strides as they are stored, and the running product.
unfoldable pub store_strides : List ℕ → List ℕ → List ℕ → Option (List ℕ × ℕ)
store_strides stride (axis ∷ axes) (extent ∷ shape) =
    and_then (store_strides stride axes shape) (λ (inner, running).
      and_then (put_at inner axis running)
        (λ stored. and_then (checked_mul running extent) (λ next. some (stored, next))))
store_strides stride [] shape = some (stride, 1)
store_strides stride (axis ∷ axes) [] = some (stride, 1)

-- What the axis loop of `region_walk` has accumulated.
pub record Measures : Type 0 where
  pub start : ℕ
  pub offset_span : ℕ
  pub outer_len : ℕ
  pub run_len : ℕ
  pub run_stride : ℕ

-- `sum.checked_add(count.checked_mul(stride)?)?`
unfoldable pub add_scaled : ℕ → ℕ → ℕ → Outcome TransposeError ℕ
add_scaled sum count stride =
    ok_or (and_then (checked_mul count stride) (λ scaled. checked_add sum scaled))
      TransposeError.preparation_failed

-- `if axis + 1 < N { .. } else { .. }`, with the ranges of the axes that follow.
unfoldable pub close_axis : List Range → ℕ → ℕ → Measures → Outcome TransposeError Measures
close_axis [] length stride e = ok (record e { run_len = length; run_stride = stride })
close_axis (range ∷ ranges) length stride e =
    ok_or (checked_mul e.outer_len length) TransposeError.preparation_failed >>= λ outer_len.
    ok (record e { outer_len = outer_len })

-- `for axis in 0..N` of `region_walk`, from a given axis on: the extents and the measures.
unfoldable pub measure_axes :
    List Range → List Range → List ℕ → Measures → Outcome TransposeError (List ℕ × Measures)
unfolding checked_sub add_scaled close_axis
measure_axes (local ∷ locals) (requested ∷ region) (stride ∷ strides) e =
    reject_if (ltb requested.start local.start || ltb local.end requested.end)
      TransposeError.preparation_failed
    >>= λ _.
        ok_or (checked_sub requested.end requested.start) TransposeError.preparation_failed
        >>= λ length. reject_if (length == 0) TransposeError.preparation_failed >>= λ _.
            add_scaled e.start (requested.start - local.start) stride >>= λ start.
            add_scaled e.offset_span (length - 1) stride >>= λ offset_span.
            close_axis region length stride (record e { start = start; offset_span = offset_span })
            >>= λ next. measure_axes locals region strides next >>= λ (extents, measures).
                ok (length ∷ extents, measures)
measure_axes [] region strides e = ok ([], e)
measure_axes (local ∷ locals) [] strides e = ok ([], e)
measure_axes (local ∷ locals) (requested ∷ region) [] e = ok ([], e)

-- `region_walk`
unfoldable pub region_walk : LocalLayout → List Range → Outcome TransposeError RegionWalk
unfolding store_strides measure_axes
region_walk layout region =
    expect (
      store_strides (replicate (length layout.local_ranges) 0)
        layout.permutation.axes_in_memory_order layout.shape_memory)
    >>= λ (strides, running).
        measure_axes layout.local_ranges region strides
          (record { start = 0; offset_span = 0; outer_len = 1; run_len = 0; run_stride = 0 })
        >>= λ (extents, e).
            ok_or (checked_add e.start e.offset_span) TransposeError.preparation_failed
            >>= λ max_offset. ok (record {
              start = e.start;
              stride = strides;
              extent = extents;
              outer_len = e.outer_len;
              run_len = e.run_len;
              run_stride = e.run_stride;
              max_offset = max_offset;
            })

-- `advance_region`, `for axis in (0..N.saturating_sub(1)).rev()`: whether the loop ran through
-- without returning, the counter and the offset. The last axis is not touched.
unfoldable pub advance_axes : List ℕ → List ℕ → List ℕ → ℕ → Option (Bool × (List ℕ × ℕ))
unfolding checked_sub
advance_axes (extent ∷ next ∷ extents) (stride ∷ strides) (count ∷ counter) offset =
    and_then (advance_axes (next ∷ extents) strides counter offset) (λ (carry, rest).
      if not carry
      then some (false, (count ∷ rest.0, rest.1))
      else if ltb (count + 1) extent
      then and_then (checked_add rest.1 stride)
          (λ moved. some (false, ((count + 1) ∷ rest.0, moved)))
      else and_then (checked_mul count stride)
          (λ back. and_then (checked_sub rest.1 back) (λ moved. some (true, (0 ∷ rest.0, moved)))))
advance_axes [] strides counter offset = some (true, (counter, offset))
advance_axes (extent ∷ []) strides counter offset = some (true, (counter, offset))
advance_axes (extent ∷ next ∷ extents) [] counter offset = none
advance_axes (extent ∷ next ∷ extents) (stride ∷ strides) [] offset = none

-- `advance_region`: the counter and the offset as they are left.
unfoldable pub advance_region : RegionWalk → List ℕ → ℕ → Option (List ℕ × ℕ)
unfolding advance_axes
advance_region walk counter offset =
    and_then (advance_axes walk.extent walk.stride counter offset) (λ (carry, rest). some rest)

module _ {ℓ} {T : Type ℓ} where
  -- `to[to_start + index * to_stride] = from[from_start + index * from_stride]`, for a number of
  -- indices that is left, from a given index on.
  unfoldable pub copy_strided : (left index : ℕ) → List T → ℕ → ℕ → List T → ℕ → ℕ → Option (List T)
  copy_strided zero index from from_start from_stride to to_start to_stride = some to
  copy_strided (suc left) index from from_start from_stride to to_start to_stride =
      and_then (get_elem? from (from_start + index * from_stride)) (λ value.
        and_then (put_at to (to_start + index * to_stride) value) (λ next.
          copy_strided left (index + 1) from from_start from_stride next to_start to_stride))

  -- `to[to_start..to_start + len].copy_from_slice(&from[from_start..from_start + len])`
  unfoldable pub copy_slice : ℕ → List T → ℕ → List T → ℕ → Option (List T)
  unfolding copy_strided
  copy_slice len from from_start to to_start =
      if leb (from_start + len) (length from) && leb (to_start + len) (length to)
      then copy_strided len 0 from from_start 1 to to_start 1
      else none

  -- The body of the loop of `copy_region_to_payload`.
  unfoldable pub run_to_payload : RegionWalk → List T → ℕ → ℕ → List T → Option (List T)
  unfolding copy_slice copy_strided
  run_to_payload walk storage payload_offset offset payload =
      if walk.run_stride == 1
      then copy_slice walk.run_len storage offset payload payload_offset
      else copy_strided walk.run_len 0 storage offset walk.run_stride payload payload_offset 1

  -- The body of the loop of `copy_region_from_payload`.
  unfoldable pub run_from_payload : RegionWalk → List T → ℕ → ℕ → List T → Option (List T)
  unfolding copy_slice copy_strided
  run_from_payload walk payload payload_offset offset storage =
      if walk.run_stride == 1
      then copy_slice walk.run_len payload payload_offset storage offset
      else copy_strided walk.run_len 0 payload payload_offset 1 storage offset walk.run_stride

  -- `for position in 0..walk.outer_len`, for a number of positions that is left. The last position
  -- leaves the loop before the walk advances.
  unfoldable pub walk_runs :
      RegionWalk
      → (ℕ → ℕ → List T → Option (List T))
      → (left : ℕ) → List ℕ
      → ℕ
      → ℕ
      → List T
      → Option (List T)
  unfolding advance_region
  walk_runs walk run zero counter offset payload_offset buffer = some buffer
  walk_runs walk run (suc zero) counter offset payload_offset buffer =
      run payload_offset offset buffer
  walk_runs walk run (suc (suc left)) counter offset payload_offset buffer =
      and_then (run payload_offset offset buffer) (λ written.
        and_then (advance_region walk counter offset) (λ (next_counter, next_offset).
          walk_runs walk run (suc left) next_counter next_offset (payload_offset + walk.run_len)
            written))

  -- `copy_region_to_payload`: the payload as it is left.
  unfoldable pub copy_region_to_payload : RegionWalk → List T → List T → Option (List T)
  unfolding run_to_payload walk_runs
  copy_region_to_payload walk storage payload =
      if walk.run_len == 0
      then some payload
      else walk_runs walk (run_to_payload walk storage) walk.outer_len
          (replicate (length walk.extent) 0) walk.start 0 payload

  -- `copy_region_from_payload`: the storage as it is left.
  unfoldable pub copy_region_from_payload : RegionWalk → List T → List T → Option (List T)
  unfolding run_from_payload walk_runs
  copy_region_from_payload walk payload storage =
      if walk.run_len == 0
      then some storage
      else walk_runs walk (run_from_payload walk payload) walk.outer_len
          (replicate (length walk.extent) 0) walk.start 0 storage
