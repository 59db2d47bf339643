-- ===== src/Axis.antt =====
-- crates/pencil-array/src/axis.rs: validated axis indices and permutations of axes.
-- `[T; N]` is a list of length n; the length is a hypothesis or part of an invariant.
pub mod Validate
pub mod Positions
pub mod Valid
pub mod RoundTrip
pub mod Product
use pencil_rs.Prelude.{
  ℕ, zero, suc, ◌+◌, ◌<◌, ◌≡◌, List, [], ◌∷◌, Bool, true, false, Option, none, some, ltb, leb,
  if◌then◌else◌, get_elem?, replicate, count_from, gather, put_at, set, Outcome, ok, err, panic,
  expect, and_then, ok_or, ◌>>=◌, ◌>>◌,
}
use pencil_rs.Error.{AxisError}

-- `struct SpatialAxis(usize)`
abbrev pub SpatialAxis : Type 0
SpatialAxis = ℕ

-- `SpatialAxis::new::<N>`
unfoldable pub spatial_axis_new : ℕ → ℕ → Outcome AxisError SpatialAxis
spatial_axis_new n index = if ltb index n then ok index else err (AxisError.out_of_bounds index n)

pub record AxisPermutation : Type 0 where
  pub axes_in_memory_order : List SpatialAxis
  pub logical_to_memory : List ℕ

-- `for &axis in &axes`, with the bitmap of the axes seen so far
unfoldable pub check_axes : ℕ → List Bool → List ℕ → Outcome AxisError (Unit {0})
check_axes n seen [] = ok tt
check_axes n seen (axis ∷ axes) =
    if leb n axis then err (AxisError.out_of_bounds axis n) else elim (get_elem? seen axis) [
      | none ↦ panic
      | some true ↦ err (AxisError.duplicate axis)
      | some false ↦ check_axes n (set seen axis true) axes
    ]

-- `for (memory_position, axis) in axes.enumerate()`, from a given position on
unfoldable pub store_positions : List ℕ → ℕ → List SpatialAxis → Option (List ℕ)
store_positions positions memory_position [] = some positions
store_positions positions memory_position (axis ∷ axes) =
    and_then (put_at positions axis memory_position)
      (λ next. store_positions next (memory_position + 1) axes)

-- `AxisPermutation::new`
unfoldable pub new : ℕ → List ℕ → Outcome AxisError AxisPermutation
new n axes = do
  check_axes n (replicate n false) axes
  positions ← expect (store_positions (replicate n 0) 0 axes)
  ok (record { axes_in_memory_order = axes; logical_to_memory = positions })

-- `AxisPermutation::identity`
unfoldable pub identity : ℕ → AxisPermutation
identity n = record { axes_in_memory_order = count_from 0 n; logical_to_memory = count_from 0 n }

-- `AxisPermutation::inverse_position`
unfoldable pub inverse_position : ℕ → AxisPermutation → SpatialAxis → Outcome AxisError ℕ
inverse_position n p axis =
    ok_or (get_elem? p.logical_to_memory axis) (AxisError.out_of_bounds axis n)

-- `AxisPermutation::position_of`
unfoldable pub position_of : ℕ → AxisPermutation → SpatialAxis → Outcome AxisError ℕ
unfolding inverse_position
position_of n p axis = inverse_position n p axis

module _ {ℓ} {A : Type ℓ} where
  -- `AxisPermutation::permute`
  unfoldable pub permute : AxisPermutation → List A → Option (List A)
  permute p logical = gather logical p.axes_in_memory_order

  -- `AxisPermutation::unpermute`
  unfoldable pub unpermute : AxisPermutation → List A → Option (List A)
  unpermute p memory = gather memory p.logical_to_memory
