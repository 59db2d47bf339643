-- ===== src/Pencil.antt =====
-- crates/pencil-array/src/pencil.rs: the distribution and memory layout of one process. N and M
-- are the arguments n and m; `Arc::ptr_eq` compares the addresses of the topologies.
pub mod Valid
pub mod Construct
pub mod Cover
use pencil_rs.Prelude.{
  ℕ, ◌+◌, List, [], ◌∷◌, Bool, ◌&&◌, ◌||◌, ltb, ◌==◌, list_eq, count_from, map, Outcome, ok, err,
  panic, expect, map_err, reject_if, ◌>>=◌, ◌>>◌,
}
use pencil_rs.Error.{PencilError, GeometryError, TopologyError}
use pencil_rs.Checked.{checked_product}
use pencil_rs.Axis
use pencil_rs.Axis.{SpatialAxis, AxisPermutation, permute}
use pencil_rs.Decomposition
use pencil_rs.Geometry.{Range, local_ranges_for, shape_from_ranges}
use pencil_rs.Topology.{MpiTopology, rank_at}

pub record PencilConfig : Type 0 where
  pub global_shape : List ℕ
  pub decomposition : List ℕ
  pub permutation : AxisPermutation

pub record Pencil : Type 0 where
  pub topology : MpiTopology
  pub global_shape : List ℕ
  pub decomposition : List SpatialAxis
  pub permutation : AxisPermutation
  pub local_ranges : List Range
  pub local_shape_logical : List ℕ
  pub local_shape_memory : List ℕ
  pub local_len : ℕ
  pub global_len : ℕ

-- `map_err(map_geometry_error)`; `unreachable!` is a panic.
unfoldable pub map_geometry_error : {A : Type 0} → Outcome GeometryError A → Outcome PencilError A
map_geometry_error (ok a) = ok a
map_geometry_error (err GeometryError.size_overflow) = err PencilError.size_overflow
map_geometry_error (err GeometryError.count_overflow) = err PencilError.size_overflow
map_geometry_error (err _) = panic
map_geometry_error panic = panic

-- `for (axis, extent) in global_shape.enumerate()`, from a given axis on
unfoldable pub check_global_shape : ℕ → List ℕ → Outcome PencilError (Unit {0})
check_global_shape axis [] = ok tt
check_global_shape axis (extent ∷ shape) = do
  reject_if (extent == 0) (PencilError.zero_global_extent axis)
  check_global_shape (axis + 1) shape

unfoldable pub ranges_at_stored :
    MpiTopology → List ℕ → List SpatialAxis → List ℕ → Outcome PencilError (List Range)
unfolding map_geometry_error
ranges_at_stored topology global_shape decomposition process_coords = do
  rank ← map_err PencilError.topology (rank_at topology process_coords)
  map_geometry_error
      (local_ranges_for global_shape topology.process_grid process_coords decomposition)

-- `Pencil::new_permuted`
unfoldable pub new_permuted :
    (n m : ℕ) → MpiTopology → List ℕ → List ℕ → AxisPermutation → Outcome PencilError Pencil
unfolding map_geometry_error ranges_at_stored
new_permuted n m topology global_shape decomposition permutation = do
  reject_if (m == 0 || ltb n m) (PencilError.invalid_dimension_relation n m)
  check_global_shape 0 global_shape
  global_len ← map_geometry_error (checked_product global_shape)
  decomposed ← map_err PencilError.invalid_decomposition (Decomposition.new n m decomposition)
  local_ranges ← ranges_at_stored topology global_shape decomposed.axes topology.local_coords
  local_shape_memory ← expect (permute permutation (shape_from_ranges local_ranges))
  local_len ← map_geometry_error (checked_product (shape_from_ranges local_ranges))
  ok (record {
    topology = topology;
    global_shape = global_shape;
    decomposition = decomposed.axes;
    permutation = permutation;
    local_ranges = local_ranges;
    local_shape_logical = shape_from_ranges local_ranges;
    local_shape_memory = local_shape_memory;
    local_len = local_len;
    global_len = global_len;
  })

-- `Pencil::new`
unfoldable pub new : (n m : ℕ) → MpiTopology → List ℕ → List ℕ → Outcome PencilError Pencil
unfolding new_permuted
new n m topology global_shape decomposition =
    new_permuted n m topology global_shape decomposition (Axis.identity n)

-- `Pencil::new_default`
unfoldable pub new_default : (n m : ℕ) → MpiTopology → List ℕ → Outcome PencilError Pencil
unfolding new
new_default n m topology global_shape = new n m topology global_shape (count_from 0 m)

-- `PencilConfig::from`
unfoldable pub config_of : Pencil → PencilConfig
config_of p = record {
  global_shape = p.global_shape;
  decomposition = p.decomposition;
  permutation = p.permutation;
}

-- `Pencil::reconfigured`
unfoldable pub reconfigured : (n m : ℕ) → Pencil → PencilConfig → Outcome PencilError Pencil
unfolding new_permuted
reconfigured n m p config =
    new_permuted n m p.topology config.global_shape config.decomposition config.permutation

-- `Pencil::with_decomposition`
unfoldable pub with_decomposition : (n m : ℕ) → Pencil → List ℕ → Outcome PencilError Pencil
unfolding reconfigured
with_decomposition n m p decomposition = reconfigured n m p (record {
  global_shape = p.global_shape;
  decomposition = decomposition;
  permutation = p.permutation;
})

-- `Pencil::with_permutation`
unfoldable pub with_permutation : (n m : ℕ) → Pencil → AxisPermutation → Outcome PencilError Pencil
unfolding reconfigured
with_permutation n m p permutation = reconfigured n m p (record {
  global_shape = p.global_shape;
  decomposition = p.decomposition;
  permutation = permutation;
})

-- `Pencil::with_global_shape`
unfoldable pub with_global_shape : (n m : ℕ) → Pencil → List ℕ → Outcome PencilError Pencil
unfolding reconfigured
with_global_shape n m p global_shape = reconfigured n m p (record {
  global_shape = global_shape;
  decomposition = p.decomposition;
  permutation = p.permutation;
})

-- `Pencil::ranges_at`
unfoldable pub ranges_at : Pencil → List ℕ → Outcome PencilError (List Range)
unfolding ranges_at_stored
ranges_at p process_coords =
    ranges_at_stored p.topology p.global_shape p.decomposition process_coords

-- `Pencil::same_topology`
unfoldable pub same_topology : Pencil → Pencil → Bool
same_topology p q = p.topology.address == q.topology.address

-- `Pencil::same_distribution`
unfoldable pub same_distribution : Pencil → Pencil → Bool
unfolding same_topology
same_distribution p q =
    same_topology p q
    && (list_eq p.global_shape q.global_shape && list_eq p.decomposition q.decomposition)

-- `Pencil::same_layout`, with the derived `==` of permutations
unfoldable pub same_layout : Pencil → Pencil → Bool
unfolding same_distribution
same_layout p q =
    same_distribution p q
    && (list_eq p.permutation.axes_in_memory_order q.permutation.axes_in_memory_order
        && list_eq p.permutation.logical_to_memory q.permutation.logical_to_memory)
