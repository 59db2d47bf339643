-- ===== src/Transpose/Peers.antt =====
-- crates/pencil-array/src/transpose.rs: which topology axis a transpose changes, and the regions that a
-- process exchanges with each peer along it. The communicator of that axis is MPI's: its size and the
-- coordinate of each of its ranks are arguments, numbers that are not negative. Reserving memory
-- succeeds.
use pencil_rs.Prelude.{
  ℕ, zero, suc, ◌+◌, List, [], ◌∷◌, not, Option, none, some, ◌==◌, if◌then◌else◌, leb, ltb, list_eq,
  max, min, put_at, map_err, Outcome, ok, err, expect, ok_or, reject_if, ◌>>=◌, ◌>>◌,
}
use pencil_rs.Word.{checked_add}
use pencil_rs.Checked.{checked_product}
use pencil_rs.Geometry.{Range}
use pencil_rs.Topology.{i32_max}
use pencil_rs.Pencil.{Pencil, same_topology, ranges_at}
use pencil_rs.Transpose.{TransposeError}
use pencil_rs.Transpose.Walk.{checked_sub}

pub record PeerMetadata : Type 0 where
  pub peer_rank : ℕ
  pub peer_coordinate : ℕ
  pub send_region : List Range
  pub receive_region : List Range
  pub send_spatial_len : ℕ
  pub receive_spatial_len : ℕ
  pub send_spatial_displacement : ℕ
  pub receive_spatial_displacement : ℕ

-- The communicator along one topology axis: `size`, and `rank_to_coordinates_into` for one axis.
pub record Subcommunicator : Type 0 where
  pub size : ℕ
  pub coordinate_of : ℕ → ℕ

-- `Count::try_from` of a usize
unfoldable pub to_count : ℕ → Option ℕ
to_count x = if leb x i32_max then some x else none

-- `for axis in 0..M` of `validate_plan_layout`, from a given axis on, with the change seen so far.
unfoldable pub find_changed : ℕ → Option ℕ → List ℕ → List ℕ → Outcome TransposeError (Option ℕ)
find_changed axis changed (from ∷ source) (to ∷ destination) =
    if from == to then find_changed (axis + 1) changed source destination else elim changed [
      | some earlier ↦ err TransposeError.unsupported_decomposition_change
      | none ↦ find_changed (axis + 1) (some axis) source destination
    ]
find_changed axis changed [] destination = ok changed
find_changed axis changed (from ∷ source) [] = ok changed

-- `validate_plan_layout`
unfoldable pub validate_plan_layout : Pencil → Pencil → Outcome TransposeError ℕ
unfolding find_changed
validate_plan_layout source destination = do
  reject_if (not (same_topology source destination)) TransposeError.incompatible_topology
  reject_if (not (list_eq source.global_shape destination.global_shape))
      TransposeError.incompatible_global_shape
  changed ← find_changed 0 none source.decomposition destination.decomposition
  ok_or changed TransposeError.unsupported_decomposition_change

-- One axis of `intersect_ranges`.
unfoldable pub intersect_range : Range → Range → Range
intersect_range left right =
    if ltb (max left.start right.start) (min left.end right.end)
    then record { start = max left.start right.start; end = min left.end right.end }
    else record { start = max left.start right.start; end = max left.start right.start }

-- `intersect_ranges`
unfoldable pub intersect_ranges : List Range → List Range → List Range
unfolding intersect_range
intersect_ranges (left ∷ lefts) (right ∷ rights) =
    intersect_range left right ∷ intersect_ranges lefts rights
intersect_ranges [] rights = []
intersect_ranges (left ∷ lefts) [] = []

-- `for axis in 0..N` of `region_spatial_len`
unfoldable pub region_shape : List Range → Outcome TransposeError (List ℕ)
region_shape [] = ok []
region_shape (range ∷ region) = do
  extent ← ok_or (checked_sub range.end range.start) TransposeError.preparation_failed
  rest ← region_shape region
  ok (extent ∷ rest)

-- `region_spatial_len`
unfoldable pub region_spatial_len : List Range → Outcome TransposeError ℕ
unfolding region_shape
region_spatial_len region = do
  shape ← region_shape region
  map_err (λ _. TransposeError.preparation_failed) (checked_product shape)

-- The body of the loop of `build_peer_metadata`: the peer of one rank, before its segments are counted.
unfoldable pub peer_at :
    Pencil → Pencil → ℕ → Subcommunicator → ℕ → ℕ → ℕ → Outcome TransposeError PeerMetadata
peer_at source destination changed_topology_axis subcommunicator peer_index send_displacement
      receive_displacement =
    do
      peer_rank ← ok_or (to_count peer_index) TransposeError.preparation_failed
      peer_coords ← expect (
          put_at source.topology.local_coords changed_topology_axis
            (subcommunicator.coordinate_of peer_rank))
      source_peer_ranges ←
          map_err (λ _. TransposeError.preparation_failed) (ranges_at source peer_coords)
      destination_peer_ranges ←
          map_err (λ _. TransposeError.preparation_failed) (ranges_at destination peer_coords)
      send_spatial_len ←
          region_spatial_len (intersect_ranges source.local_ranges destination_peer_ranges)
      receive_spatial_len ←
          region_spatial_len (intersect_ranges source_peer_ranges destination.local_ranges)
      ok (record {
        peer_rank = peer_rank;
        peer_coordinate = subcommunicator.coordinate_of peer_rank;
        send_region = intersect_ranges source.local_ranges destination_peer_ranges;
        receive_region = intersect_ranges source_peer_ranges destination.local_ranges;
        send_spatial_len = send_spatial_len;
        receive_spatial_len = receive_spatial_len;
        send_spatial_displacement = send_displacement;
        receive_spatial_displacement = receive_displacement;
      })

-- `for peer_index in 0..peer_count`, for a number of peers that is left, from a given index on.
unfoldable pub push_peers :
    Pencil
    → Pencil
    → ℕ
    → Subcommunicator
    → (left peer_index send_displacement receive_displacement : ℕ)
    → Outcome TransposeError (List PeerMetadata)
unfolding peer_at
push_peers source destination axis subcommunicator zero peer_index send receive = ok []
push_peers source destination axis subcommunicator (suc left) peer_index send receive = do
  peer ← peer_at source destination axis subcommunicator peer_index send receive
  next_send ← ok_or (checked_add send peer.send_spatial_len) TransposeError.preparation_failed
  next_receive ←
      ok_or (checked_add receive peer.receive_spatial_len) TransposeError.preparation_failed
  peers ←
      push_peers source destination axis subcommunicator left (peer_index + 1) next_send
        next_receive
  ok (peer ∷ peers)

-- `build_peer_metadata`
unfoldable pub build_peer_metadata :
    Pencil → Pencil → ℕ → Subcommunicator → Outcome TransposeError (List PeerMetadata)
unfolding push_peers
build_peer_metadata source destination changed_topology_axis subcommunicator =
    push_peers source destination changed_topology_axis subcommunicator subcommunicator.size 0 0 0
