-- ===== src/LocalTranspose.antt =====
-- crates/pencil-array/src/local_transpose.rs: permuting the memory axes of one process's array.
pub mod Linear
pub mod Offsets
pub mod Copy
pub mod Execute
pub mod InPlace
pub mod Staged
pub mod InPlaceExecute
use pencil_rs.Prelude.{
  ℕ, zero, suc, ◌+◌, ◌*◌, ◌/◌, ◌%◌, List, [], ◌∷◌, Bool, Option, none, some, ◌==◌, if◌then◌else◌,
  not, leb, ◌&&◌, ◌||◌, min, list_eq, length, get_elem?, put_at, reject_if, Outcome, ok, err,
  expect, map_err, ok_or, and_then, ◌>>=◌, ◌>>◌,
}
use pencil_rs.Word.{checked_add, checked_mul}
use pencil_rs.Error.{ArrayError, GeometryError}
use pencil_rs.Axis.{permute}
use pencil_rs.Geometry.{row_major_offset}
use pencil_rs.Pencil.{Pencil, same_distribution, same_layout}
use pencil_rs.Checked.{checked_product}
use pencil_rs.ExtraShape.{ExtraShape}
use pencil_rs.Array.{PencilArray}

-- `a % b` and `a / b` of usize panic at a zero divisor.
abbrev pub rem_or_panic : ℕ → ℕ → Option ℕ
rem_or_panic a b = if b == 0 then none else some (a % b)

abbrev pub div_or_panic : ℕ → ℕ → Option ℕ
div_or_panic a b = if b == 0 then none else some (a / b)

-- `for axis in (0..N).rev()`: the indices of a linear position, and the remainder that is left.
-- The last axis is split off first.
unfoldable pub split_linear : List ℕ → ℕ → Option (List ℕ × ℕ)
split_linear [] remainder = some ([], remainder)
split_linear (extent ∷ shape) remainder = and_then (split_linear shape remainder) (λ (is, rest).
    and_then (rem_or_panic rest extent)
      (λ index. and_then (div_or_panic rest extent) (λ next. some (index ∷ is, next))))

-- `extra_linear.checked_mul(local_len).and_then(|base| base.checked_add(spatial_offset))`
unfoldable pub extra_offset : ℕ → ℕ → ℕ → Outcome ArrayError ℕ
extra_offset extra_linear local_len spatial_offset =
    ok_or (and_then (checked_mul extra_linear local_len) (λ base. checked_add base spatial_offset))
      (ArrayError.geometry GeometryError.size_overflow)

unfoldable pub logical_offsets : Pencil → Pencil → ℕ → Outcome ArrayError (ℕ × ℕ)
unfolding extra_offset
logical_offsets source destination linear = do
  spatial_linear ← expect (rem_or_panic linear source.local_len)
  extra_linear ← expect (div_or_panic linear source.local_len)
  split ← expect (split_linear source.local_shape_logical spatial_linear)
  source_memory ← expect (permute source.permutation split.0)
  destination_memory ← expect (permute destination.permutation split.0)
  source_spatial ←
      map_err ArrayError.geometry (row_major_offset source.local_shape_memory source_memory)
  destination_spatial ←
      map_err ArrayError.geometry
        (row_major_offset destination.local_shape_memory destination_memory)
  source_offset ← extra_offset extra_linear source.local_len source_spatial
  destination_offset ← extra_offset extra_linear destination.local_len destination_spatial
  ok (source_offset, destination_offset)

pub data LocalTransposeError : Type 0 where
  incompatible_distribution : LocalTransposeError
  source_layout_mismatch : LocalTransposeError
  destination_layout_mismatch : LocalTransposeError
  extra_shape_mismatch : LocalTransposeError
  scratch_too_small : (required actual : ℕ) → LocalTransposeError
  array : ArrayError → LocalTransposeError

pub record LocalTransposePlan : Type 0 where
  pub source : Pencil
  pub destination : Pencil

-- `LocalTransposePlan::new`
unfoldable pub plan_new : Pencil → Pencil → Outcome LocalTransposeError LocalTransposePlan
plan_new source destination = do
  reject_if (not (same_distribution source destination))
      LocalTransposeError.incompatible_distribution
  ok (record { source = source; destination = destination })

-- `for linear in 0..required`, from a given position on: every offset is resolved before a write.
unfoldable pub check_offsets :
    LocalTransposePlan → ℕ → ℕ → ℕ → ℕ → ℕ → Outcome LocalTransposeError (Unit {0})
check_offsets plan required source_len destination_len zero linear = ok tt
check_offsets plan required source_len destination_len (suc left) linear = do
  offsets ← map_err LocalTransposeError.array (logical_offsets plan.source plan.destination linear)
  reject_if (leb source_len offsets.0 || leb destination_len offsets.1) (
      LocalTransposeError.array
        (ArrayError.storage_length_mismatch required (min source_len destination_len)))
  check_offsets plan required source_len destination_len left (linear + 1)

-- `==` of two extra shapes
unfoldable pub same_extra_shape : ExtraShape → ExtraShape → Bool
same_extra_shape x y = list_eq x.dimensions y.dimensions && x.element_count == y.element_count

module _ {ℓ} {T : Type ℓ} where
  -- `for linear in 0..required`, from a given position on: the copy into the destination.
  unfoldable pub copy_elements :
      LocalTransposePlan → List T → ℕ → ℕ → List T → Outcome LocalTransposeError (List T)
  copy_elements plan source zero linear destination = ok destination
  copy_elements plan source (suc left) linear destination =
      map_err LocalTransposeError.array (logical_offsets plan.source plan.destination linear)
      >>= λ offsets. expect (get_elem? source offsets.0) >>= λ value.
          expect (put_at destination offsets.1 value) >>= λ next.
          copy_elements plan source left (linear + 1) next

  -- `LocalTransposePlan::execute_views`: the destination as it is left.
  unfoldable pub execute_views :
      LocalTransposePlan
      → PencilArray T
      → PencilArray T
      → Outcome LocalTransposeError (PencilArray T)
  unfolding same_extra_shape
  execute_views plan source destination =
      reject_if (not (same_layout source.pencil plan.source))
        LocalTransposeError.source_layout_mismatch
      >>= λ _.
          reject_if (not (same_layout destination.pencil plan.destination))
            LocalTransposeError.destination_layout_mismatch
          >>= λ _.
              reject_if (not (same_extra_shape source.extra_shape destination.extra_shape))
                LocalTransposeError.extra_shape_mismatch
              >>= λ _.
                  map_err (λ e. LocalTransposeError.array (ArrayError.geometry e))
                    (checked_product
                      (plan.source.local_len ∷ source.extra_shape.element_count ∷ []))
                  >>= λ required.
                      reject_if (not (length source.storage == required)) (
                        LocalTransposeError.array
                          (ArrayError.storage_length_mismatch required (length source.storage)))
                      >>= λ _.
                          reject_if (not (length destination.storage == required)) (
                            LocalTransposeError.array (
                              ArrayError.storage_length_mismatch required
                                (length destination.storage)))
                          >>= λ _.
                              check_offsets plan required (length source.storage)
                                (length destination.storage) required 0
                              >>= λ _.
                                  copy_elements plan source.storage required 0 destination.storage
                                  >>= λ storage. ok (record destination { storage = storage })
