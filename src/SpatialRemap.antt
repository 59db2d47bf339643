-- ===== src/SpatialRemap.antt =====
-- crates/pencil-array/src/spatial_remap.rs: the search for the process that owns a global index.
pub mod Owner
use pencil_rs.Prelude.{
  ℕ, zero, suc, ◌+◌, ◌-◌, ◌/◌, List, [], ◌∷◌, Bool, true, false, ◌==◌, ◌||◌, if◌then◌else◌, ltb,
  leb, Option, none, some, get_elem?, Outcome, ok, err, panic, expect, map_err, reject_if, ◌>>=◌,
  ◌>>◌,
}
use pencil_rs.Error.{PencilError, TopologyError}
use pencil_rs.Geometry.{partition_range}
use pencil_rs.Topology.{rank_at}
use pencil_rs.Pencil.{Pencil}

-- `SpatialRemapError`: signed numbers stand as their bit patterns and a text as its bytes.
pub data SpatialRemapError : Type 0 where
  different_topology : SpatialRemapError
  different_shape : SpatialRemapError
  invalid_affine_sign : (axis sign : ℕ) → SpatialRemapError
  different_extra_shape : SpatialRemapError
  layout_mismatch : SpatialRemapError
  collective_precondition_failed : SpatialRemapError
  collective_descriptor_mismatch : SpatialRemapError
  size_overflow : SpatialRemapError
  mpi_count_overflow : SpatialRemapError
  allocation : (stage : List ℕ) (elements : ℕ) → SpatialRemapError
  wrong_owner : (rank global_index : ℕ) → SpatialRemapError
  structural_inconsistency : SpatialRemapError
  unsupported_datatype : SpatialRemapError
  pencil : PencilError → SpatialRemapError
  topology : TopologyError → SpatialRemapError

-- `while low < high`, with a number of rounds that is left; panic when it is used up.
unfoldable pub search_owner : (index extent parts rounds low high : ℕ) → Outcome SpatialRemapError ℕ
search_owner index extent parts zero low high =
    if ltb low high then panic else err SpatialRemapError.structural_inconsistency
search_owner index extent parts (suc rounds) low high = elim (ltb low high) [
  | false ↦ err SpatialRemapError.structural_inconsistency
  | true ↦ elim (partition_range extent parts (low + (high - low) / 2)) [
    | err e ↦ err SpatialRemapError.structural_inconsistency
    | panic ↦ panic
    | ok range ↦ elim (ltb index range.start) [
      | true ↦ search_owner index extent parts rounds low (low + (high - low) / 2)
      | false ↦ elim (leb range.end index) [
        | true ↦ search_owner index extent parts rounds (low + (high - low) / 2 + 1) high
        | false ↦ ok (low + (high - low) / 2)
      ]
    ]
  ]
]

-- `partition_owner`; each round shortens the interval, so that as many rounds as parts are enough.
unfoldable pub partition_owner : (index extent parts : ℕ) → Outcome SpatialRemapError ℕ
unfolding search_owner
partition_owner index extent parts = do
  reject_if (extent == 0 || leb extent index || parts == 0)
      SpatialRemapError.structural_inconsistency
  search_owner index extent parts parts 0 parts

-- `for (topology_axis, owner_coordinate) in owner_coords.iter_mut().enumerate()`
unfoldable pub owner_coords : (global shape axes grid : List ℕ) → Outcome SpatialRemapError (List ℕ)
unfolding partition_owner
owner_coords global shape [] grid = ok []
owner_coords global shape (axis ∷ axes) [] = panic
owner_coords global shape (axis ∷ axes) (parts ∷ grid) = do
  index ← expect (get_elem? global axis)
  extent ← expect (get_elem? shape axis)
  coordinate ← partition_owner index extent parts
  rest ← owner_coords global shape axes grid
  ok (coordinate ∷ rest)

-- `owner_rank`, with the size of the topology's communicator.
unfoldable pub owner_rank : (size : ℕ) → Pencil → List ℕ → Outcome SpatialRemapError ℕ
owner_rank size source global = do
  coords ← owner_coords global source.global_shape source.decomposition source.topology.process_grid
  rank ← map_err SpatialRemapError.topology (rank_at source.topology coords)
  reject_if (leb size rank) SpatialRemapError.structural_inconsistency
  ok rank
