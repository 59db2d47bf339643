-- ===== src/Topology.antt =====
-- crates/pencil-array/src/topology.rs: a Cartesian process grid. What MPI itself provides is a
-- field of the record or an argument: the map from coordinates to ranks
-- (`coordinates_to_rank_unchecked`), the size of the communicator, and the address of the shared
-- object, by which `Arc::ptr_eq` tells topologies apart.
pub mod Valid
use pencil_rs.Prelude.{
  ℕ, ◌+◌, ◌-◌, ◌^◌, List, [], ◌∷◌, not, leb, ltb, ◌==◌, Outcome, ok, err, ok_or, map_err, reject_if,
  ◌>>=◌, ◌>>◌, Option, none, some, if◌then◌else◌,
}
use pencil_rs.Error.{TopologyError, GeometryError}
use pencil_rs.Checked.{checked_product}

pub record MpiTopology : Type 0 where
  pub address : ℕ
  pub coordinates_to_rank : List ℕ → ℕ
  pub process_grid : List ℕ
  pub local_coords : List ℕ

abbrev pub i32_max : ℕ
i32_max = 2 ^ 31 - 1

-- `i32::try_from` of a usize
unfoldable pub to_i32 : ℕ → Outcome TopologyError ℕ
to_i32 x = if leb x i32_max then ok x else err (TopologyError.geometry GeometryError.count_overflow)

-- `for (axis, extent) in process_grid.enumerate()`, from a given axis on
unfoldable pub check_extents : ℕ → List ℕ → Outcome TopologyError (Unit {0})
check_extents axis [] = ok tt
check_extents axis (extent ∷ grid) = do
  reject_if (extent == 0) (TopologyError.zero_extent axis)
  check_extents (axis + 1) grid

-- `for (slot, extent) in dims.iter_mut().zip(process_grid)`
unfoldable pub to_dims : List ℕ → Outcome TopologyError (List ℕ)
unfolding to_i32
to_dims [] = ok []
to_dims (extent ∷ grid) = do slot ← to_i32 extent; rest ← to_dims grid; ok (slot ∷ rest)

-- `MpiTopology::validate_grid`, with the size of the communicator
unfoldable pub validate_grid : ℕ → List ℕ → Outcome TopologyError (List ℕ)
validate_grid communicator_size process_grid = do
  check_extents 0 process_grid
  grid_size ← map_err TopologyError.geometry (checked_product process_grid)
  reject_if (not (grid_size == communicator_size))
      (TopologyError.communicator_size_mismatch grid_size communicator_size)
  to_dims process_grid

-- `for axis in 0..M` of `rank_at`, from a given axis on
unfoldable pub to_mpi_coords : ℕ → List ℕ → List ℕ → Outcome TopologyError (List ℕ)
unfolding to_i32
to_mpi_coords axis (coordinate ∷ coords) (extent ∷ grid) = do
  reject_if (leb extent coordinate) (TopologyError.coordinate_out_of_bounds axis coordinate extent)
  first ← to_i32 coordinate
  rest ← to_mpi_coords (axis + 1) coords grid
  ok (first ∷ rest)
to_mpi_coords axis [] grid = ok []
to_mpi_coords axis (coordinate ∷ coords) [] = ok []

-- `MpiTopology::rank_at`
unfoldable pub rank_at : MpiTopology → List ℕ → Outcome TopologyError ℕ
rank_at t coords = do
  mpi_coords ← to_mpi_coords 0 coords t.process_grid
  ok (t.coordinates_to_rank mpi_coords)
