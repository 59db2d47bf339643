-- ===== src/Decomposition.antt =====
-- crates/pencil-array/src/decomposition.rs: which spatial axes the topology axes distribute.
pub mod Valid
use pencil_rs.Prelude.{
  ℕ, ◌<◌, List, [], ◌∷◌, Bool, false, ◌||◌, Option, none, some, ltb, ◌==◌, replicate, put_at,
  Outcome, ok, expect_ok, and_then, reject_if, ◌>>=◌, ◌>>◌,
}
use pencil_rs.Error.{AxisError}
use pencil_rs.Axis.{SpatialAxis, spatial_axis_new, check_axes}

pub record Decomposition : Type 0 where
  pub axes : List SpatialAxis

-- `from_fn(|index| SpatialAxis::new::<N>(axes[index]).expect(…))`
unfoldable pub wrap_axes : ℕ → List ℕ → Outcome AxisError (List SpatialAxis)
unfolding spatial_axis_new
wrap_axes n [] = ok []
wrap_axes n (axis ∷ axes) = do
  wrapped ← expect_ok (spatial_axis_new n axis)
  rest ← wrap_axes n axes
  ok (wrapped ∷ rest)

-- `Decomposition::<N, M>::new`
unfoldable pub new : ℕ → ℕ → List ℕ → Outcome AxisError Decomposition
new n m axes = do
  reject_if (m == 0 || ltb n m) (AxisError.invalid_decomposition_rank n m)
  check_axes n (replicate n false) axes
  wrapped ← wrap_axes n axes
  ok (record { axes = wrapped })

-- `for (axis, value) in axes.zip(values) { completed[axis] = value; }`
unfoldable pub fill_axes : List ℕ → List SpatialAxis → List ℕ → Option (List ℕ)
fill_axes completed (axis ∷ axes) (value ∷ values) =
    and_then (put_at completed axis value) (λ next. fill_axes next axes values)
fill_axes completed [] values = some completed
fill_axes completed (axis ∷ axes) [] = some completed

unfoldable pub complete_dims : ℕ → List ℕ → List ℕ → Option (List ℕ)
unfolding fill_axes
complete_dims n axes values = fill_axes (replicate n 1) axes values

unfoldable pub complete_process_grid : ℕ → Decomposition → List ℕ → Option (List ℕ)
unfolding complete_dims
complete_process_grid n d process_grid = complete_dims n d.axes process_grid

unfoldable pub complete_process_coords : ℕ → Decomposition → List ℕ → Option (List ℕ)
unfolding fill_axes
complete_process_coords n d process_coords = fill_axes (replicate n 0) d.axes process_coords
