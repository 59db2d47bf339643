-- ===== src/Error.antt =====
-- The error types of crates/pencil-array/src/error.rs.
use pencil_rs.Prelude.{ℕ, List}

-- Errors validating spatial axes, permutations and decompositions.
pub data AxisError : Type 0 where
  out_of_bounds : (axis dimensions : ℕ) → AxisError
  duplicate : (axis : ℕ) → AxisError
  invalid_decomposition_rank : (spatial_dimensions topology_dimensions : ℕ) → AxisError

-- Errors computing local geometry and row-major offsets.
pub data GeometryError : Type 0 where
  size_overflow : GeometryError
  count_overflow : GeometryError
  zero_partitions : GeometryError
  rank_mismatch : (shape_rank index_rank : ℕ) → GeometryError
  zero_process_extent : (axis : ℕ) → GeometryError
  process_coordinate_out_of_bounds : (axis coordinate extent : ℕ) → GeometryError
  local_index_out_of_bounds : (axis index extent : ℕ) → GeometryError

-- Errors validating undistributed extra dimensions.
pub data ShapeError : Type 0 where
  size_overflow : ShapeError

-- Errors constructing a borrowed local grid.
pub data LocalGridError : Type 0 where
  axis_length_mismatch : (axis expected actual : ℕ) → LocalGridError
  size_overflow : LocalGridError

-- Errors constructing or accessing local array storage.
pub data ArrayError : Type 0 where
  storage_length_mismatch : (required actual : ℕ) → ArrayError
  allocation_failed : (required : ℕ) → ArrayError
  extra_index_rank_mismatch : (required actual : ℕ) → ArrayError
  incompatible_pencils : ArrayError
  invalid_active_layout : (index layout_count : ℕ) → ArrayError
  poisoned : ArrayError
  geometry : GeometryError → ArrayError

-- Errors constructing or querying a Cartesian topology. The code of a failed MPI call is an i32
-- that is only passed on; its bit pattern stands here, and the name of the operation as its bytes.
pub data TopologyError : Type 0 where
  inter_communicator_unsupported : TopologyError
  inconsistent_dimensions : TopologyError
  inconsistent_process_grid : TopologyError
  collective_precondition_failed : TopologyError
  zero_dimensions : TopologyError
  zero_extent : (axis : ℕ) → TopologyError
  communicator_size_mismatch : (grid_size communicator_size : ℕ) → TopologyError
  cartesian_creation_failed : TopologyError
  dimension_mismatch : (expected actual : ℕ) → TopologyError
  coordinate_out_of_bounds : (axis coordinate extent : ℕ) → TopologyError
  axis_out_of_bounds : (axis dimensions : ℕ) → TopologyError
  subcommunicator_size_mismatch : (axis expected actual : ℕ) → TopologyError
  mpi : (operation : List ℕ) (code : ℕ) → TopologyError
  geometry : GeometryError → TopologyError

-- Errors validating or deriving a pencil layout.
pub data PencilError : Type 0 where
  invalid_dimension_relation : (spatial topology : ℕ) → PencilError
  zero_global_extent : (axis : ℕ) → PencilError
  invalid_decomposition : AxisError → PencilError
  invalid_permutation : AxisError → PencilError
  size_overflow : PencilError
  topology : TopologyError → PencilError
