-- ===== src/Array.antt =====
-- crates/pencil-array/src/array.rs and view.rs: local storage behind a pencil's layout. Owned
-- arrays, views and mutable views have the same three parts; here they are one record.
pub mod Offsets
pub mod Cells
pub mod Access
use pencil_rs.Prelude.{
  ℕ, ◌-◌, List, [], ◌∷◌, ◌++◌, Bool, Option, none, some, not, ◌==◌, if◌then◌else◌, length,
  get_elem?, gather, Outcome, ok, err, panic, expect, map_err, and_then, reject_if, ◌>>=◌, ◌>>◌,
}
use pencil_rs.Error.{ArrayError, GeometryError}
use pencil_rs.Checked.{checked_product}
use pencil_rs.Geometry.{Range, range_contains, row_major_offset}
use pencil_rs.ExtraShape.{ExtraShape}
use pencil_rs.Pencil.{Pencil}

-- `PencilArray`, `PencilArrayView`, `PencilArrayViewMut`
pub record PencilArray {ℓ} (T : Type ℓ) : Type ℓ where
  pub pencil : Pencil
  pub extra_shape : ExtraShape
  pub storage : List T

-- `.ok()`: the outer `none` is a panic.
abbrev pub discard_error {ℓ} : {A : Type ℓ} → Outcome ArrayError A → Option (Option A)
discard_error (ok a) = some (some a)
discard_error (err _) = some none
discard_error panic = none

-- `return None` where a step finds nothing.
abbrev pub or_absent {ℓ κ} :
    {A : Type ℓ} {B : Type κ} → Option A → (A → Option (Option B)) → Option (Option B)
or_absent none f = some none
or_absent (some a) f = f a

-- `LocalArrayLayout::logical_shape`
unfoldable pub logical_shape : Pencil → ExtraShape → List ℕ
logical_shape pencil extra_shape = extra_shape.dimensions ++ pencil.local_shape_logical

-- `LocalArrayLayout::memory_shape`
unfoldable pub memory_shape : Pencil → ExtraShape → List ℕ
memory_shape pencil extra_shape = extra_shape.dimensions ++ pencil.local_shape_memory

-- `LocalArrayLayout::local_offset`
unfoldable pub local_offset : Pencil → ExtraShape → List ℕ → List ℕ → Outcome ArrayError ℕ
unfolding memory_shape
local_offset pencil extra_shape extra_indices spatial_indices = do
  reject_if (not (length extra_indices == length extra_shape.dimensions))
      (ArrayError.extra_index_rank_mismatch (length extra_shape.dimensions) (length extra_indices))
  spatial ← expect (gather spatial_indices pencil.permutation.axes_in_memory_order)
  map_err ArrayError.geometry
      (row_major_offset (memory_shape pencil extra_shape) (extra_indices ++ spatial))

-- `for axis in 0..N` of `global_offset`: the indices relative to the ranges, `none` for an index
-- outside its range.
unfoldable pub local_indices : List Range → List ℕ → Option (List ℕ)
local_indices (range ∷ ranges) (global ∷ globals) =
    if range_contains range global
    then and_then (local_indices ranges globals) (λ locals. some ((global - range.start) ∷ locals))
    else none
local_indices [] globals = some []
local_indices (range ∷ ranges) [] = some []

-- `LocalArrayLayout::global_offset`; the outer `none` is a panic.
unfoldable pub global_offset : Pencil → ExtraShape → List ℕ → List ℕ → Option (Option ℕ)
unfolding local_offset local_indices
global_offset pencil extra_shape extra_indices global_spatial_indices =
    or_absent (local_indices pencil.local_ranges global_spatial_indices)
      (λ locals. discard_error (local_offset pencil extra_shape extra_indices locals))

-- `validate_storage_len`
unfoldable pub validate_storage_len : Pencil → ExtraShape → ℕ → Outcome ArrayError (Unit {0})
validate_storage_len pencil extra_shape actual = do
  required ←
      map_err ArrayError.geometry
        (checked_product (extra_shape.element_count ∷ pencil.local_len ∷ []))
  reject_if (not (actual == required)) (ArrayError.storage_length_mismatch required actual)

module _ {ℓ} {T : Type ℓ} where
  -- `PencilArrayView::new`, `PencilArrayViewMut::new`
  unfoldable pub view_new : Pencil → ExtraShape → List T → Outcome ArrayError (PencilArray T)
  unfolding validate_storage_len
  view_new pencil extra_shape storage =
      validate_storage_len pencil extra_shape (length storage) >>= λ _.
      ok (record { pencil = pencil; extra_shape = extra_shape; storage = storage })

  -- `PencilArray::from_vec`
  unfoldable pub from_vec : Pencil → ExtraShape → List T → Outcome ArrayError (PencilArray T)
  from_vec pencil extra_shape storage =
      map_err ArrayError.geometry
        (checked_product (pencil.local_len ∷ extra_shape.element_count ∷ []))
      >>= λ required.
          reject_if (not (length storage == required))
            (ArrayError.storage_length_mismatch required (length storage))
          >>= λ _. ok (record { pencil = pencil; extra_shape = extra_shape; storage = storage })

  -- `get_local`; the outer `none` is a panic.
  unfoldable pub get_local : PencilArray T → List ℕ → List ℕ → Option (Option T)
  unfolding local_offset
  get_local a extra_indices spatial_indices =
      and_then (discard_error (local_offset a.pencil a.extra_shape extra_indices spatial_indices))
        (λ found. some (and_then found (get_elem? a.storage)))

  -- `get_global`; the outer `none` is a panic.
  unfoldable pub get_global : PencilArray T → List ℕ → List ℕ → Option (Option T)
  unfolding global_offset
  get_global a extra_indices global_spatial_indices =
      and_then (global_offset a.pencil a.extra_shape extra_indices global_spatial_indices)
        (λ found. some (and_then found (get_elem? a.storage)))
