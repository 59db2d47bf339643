-- ===== src/Transpose/Counts.antt =====
-- crates/pencil-array/src/transpose.rs: the counts, displacements and checks that precede an exchange.
-- Reserving memory succeeds, and the numbers of type `mpi::Count` are not negative.
use pencil_rs.Prelude.{
  ℕ, ◌-◌, List, [], ◌∷◌, Bool, not, true, false, ◌||◌, ◌==◌, if◌then◌else◌, leb, ltb, length,
  replicate, get_elem?, put_at, and_then, map_err, Outcome, ok, expect, ok_or, reject_if, ◌>>=◌,
  ◌>>◌,
}
use pencil_rs.Word.{checked_add, checked_mul}
use pencil_rs.Axis.{AxisPermutation, permute}
use pencil_rs.Geometry.{Range, row_major_offset}
use pencil_rs.ExtraShape.{ExtraShape}
use pencil_rs.Array.{PencilArray}
use pencil_rs.LocalTranspose.{same_extra_shape}
use pencil_rs.Pencil.{Pencil, same_layout}
use pencil_rs.Transpose.{TransposeError}
use pencil_rs.Transpose.Walk.{checked_sub}
use pencil_rs.Transpose.Peers.{PeerMetadata, to_count, region_spatial_len}

pub data CommunicationMode : Type 0 where
  all_to_allv : CommunicationMode
  point_to_point : CommunicationMode

-- `mode == CommunicationMode::AllToAllv`
abbrev pub is_all_to_allv : CommunicationMode → Bool
is_all_to_allv CommunicationMode.all_to_allv = true
is_all_to_allv CommunicationMode.point_to_point = false

pub record TransposeWorkspace {ℓ} (T : Type ℓ) : Type ℓ where
  pub send_buffer : List T
  pub receive_buffer : List T

pub record TransposeWorkspaceRequirements : Type 0 where
  pub send_len : ℕ
  pub receive_len : ℕ

pub record PreparedExchange : Type 0 where
  pub requirements : TransposeWorkspaceRequirements
  pub send_counts : List ℕ
  pub send_displacements : List ℕ
  pub receive_counts : List ℕ
  pub receive_displacements : List ℕ

pub record TransposePlanCore : Type 0 where
  pub source : Pencil
  pub destination : Pencil
  pub changed_topology_axis : ℕ
  pub peers : List PeerMetadata
  pub descriptor : List ℕ
  pub mode : CommunicationMode

-- `checked_count`
unfoldable pub checked_count : ℕ → ℕ → CommunicationMode → Outcome TransposeError ℕ
checked_count count displacement mode = do
  count_as_mpi ← ok_or (to_count count) TransposeError.count_overflow
  _ ←
      (if is_all_to_allv mode
        then ok_or (to_count displacement) TransposeError.count_overflow
        else ok displacement)
  _ ← ok_or (checked_add count displacement) TransposeError.count_overflow
  ok count_as_mpi

-- `checked_partition_count`
unfoldable pub checked_partition_count : ℕ → ℕ → ℕ → CommunicationMode → Outcome TransposeError ℕ
unfolding checked_count
checked_partition_count count displacement total mode = do
  count_as_mpi ← checked_count count displacement mode
  end ← ok_or (checked_add count displacement) TransposeError.count_overflow
  reject_if (ltb total end) TransposeError.preparation_failed
  ok count_as_mpi

-- `spatial.checked_mul(batch).ok_or(CountOverflow)?`
unfoldable pub batched : ℕ → ℕ → Outcome TransposeError ℕ
batched spatial batch = ok_or (checked_mul spatial batch) TransposeError.count_overflow

-- `for peer in peers` of `workspace_requirements_for_peers`, from given lengths on.
unfoldable pub add_requirements :
    List PeerMetadata
    → ℕ
    → CommunicationMode
    → TransposeWorkspaceRequirements
    → Outcome TransposeError TransposeWorkspaceRequirements
unfolding checked_count batched
add_requirements [] batch mode required = ok required
add_requirements (peer ∷ peers) batch mode required = do
  send_count ← batched peer.send_spatial_len batch
  receive_count ← batched peer.receive_spatial_len batch
  send_displacement ← batched peer.send_spatial_displacement batch
  receive_displacement ← batched peer.receive_spatial_displacement batch
  _ ← checked_count send_count send_displacement mode
  _ ← checked_count receive_count receive_displacement mode
  send_len ← ok_or (checked_add required.send_len send_count) TransposeError.count_overflow
  receive_len ← ok_or (checked_add required.receive_len receive_count) TransposeError.count_overflow
  add_requirements peers batch mode (record { send_len = send_len; receive_len = receive_len })

-- `workspace_requirements_for_peers`
unfoldable pub workspace_requirements_for_peers :
    List PeerMetadata
    → ℕ
    → CommunicationMode
    → Outcome TransposeError TransposeWorkspaceRequirements
unfolding add_requirements
workspace_requirements_for_peers peers batch mode =
    add_requirements peers batch mode (record { send_len = 0; receive_len = 0 })

-- `TransposePlanCore::workspace_requirements`
unfoldable pub workspace_requirements :
    TransposePlanCore → ExtraShape → Outcome TransposeError TransposeWorkspaceRequirements
unfolding workspace_requirements_for_peers
workspace_requirements plan extra_shape =
    workspace_requirements_for_peers plan.peers extra_shape.element_count plan.mode

-- `displacements[index] = Count::try_from(displacement)?` where the mode has displacements.
unfoldable pub store_displacement :
    CommunicationMode → List ℕ → ℕ → ℕ → Outcome TransposeError (List ℕ)
store_displacement mode displacements index displacement =
    if is_all_to_allv mode
    then (ok_or (to_count displacement) TransposeError.count_overflow >>= λ count.
        expect (put_at displacements index count))
    else ok displacements

-- `for peer in peers` of `prepare_exchange_counts`, from given vectors on. The number of peers is the
-- length of the count vectors.
unfoldable pub store_counts :
    List PeerMetadata
    → (batch coordinate_extent peer_count : ℕ) → CommunicationMode
    → PreparedExchange
    → Outcome TransposeError PreparedExchange
unfolding checked_partition_count batched store_displacement
store_counts [] batch coordinate_extent peer_count mode prepared = ok prepared
store_counts (peer ∷ peers) batch coordinate_extent peer_count mode prepared = do
  reject_if (leb peer_count peer.peer_rank || leb coordinate_extent peer.peer_coordinate)
      TransposeError.preparation_failed
  send_count ← batched peer.send_spatial_len batch
  receive_count ← batched peer.receive_spatial_len batch
  send_displacement ← batched peer.send_spatial_displacement batch
  receive_displacement ← batched peer.receive_spatial_displacement batch
  send_as_mpi ←
      checked_partition_count send_count send_displacement prepared.requirements.send_len mode
  send_counts ← expect (put_at prepared.send_counts peer.peer_rank send_as_mpi)
  send_displacements ←
      store_displacement mode prepared.send_displacements peer.peer_rank send_displacement
  receive_as_mpi ←
      checked_partition_count receive_count receive_displacement prepared.requirements.receive_len
        mode
  receive_counts ← expect (put_at prepared.receive_counts peer.peer_rank receive_as_mpi)
  receive_displacements ←
      store_displacement mode prepared.receive_displacements peer.peer_rank receive_displacement
  store_counts peers batch coordinate_extent peer_count mode (record {
    requirements = prepared.requirements;
    send_counts = send_counts;
    send_displacements = send_displacements;
    receive_counts = receive_counts;
    receive_displacements = receive_displacements;
  })

-- The displacement vector of a mode before the loop.
abbrev pub empty_displacements : CommunicationMode → ℕ → List ℕ
empty_displacements mode peer_count = if is_all_to_allv mode then replicate peer_count 0 else []

-- `prepare_exchange_counts`
unfoldable pub prepare_exchange_counts :
    List PeerMetadata
    → (batch coordinate_extent : ℕ) → CommunicationMode
    → Outcome TransposeError PreparedExchange
unfolding workspace_requirements_for_peers store_counts
prepare_exchange_counts peers batch coordinate_extent mode = do
  requirements ← workspace_requirements_for_peers peers batch mode
  store_counts peers batch coordinate_extent (length peers) mode (record {
    requirements = requirements;
    send_counts = replicate (length peers) 0;
    send_displacements = empty_displacements mode (length peers);
    receive_counts = replicate (length peers) 0;
    receive_displacements = empty_displacements mode (length peers);
  })

-- `for axis in 0..N` of `validate_region_offsets`: the local indices of the region's last element.
unfoldable pub last_local : List Range → List Range → Outcome TransposeError (List ℕ)
last_local (local ∷ locals) (requested ∷ region) = do
  reject_if (ltb requested.start local.start || ltb local.end requested.end)
      TransposeError.preparation_failed
  index ←
      ok_or (and_then (checked_sub requested.end 1) (λ last. checked_sub last local.start))
        TransposeError.preparation_failed
  rest ← last_local locals region
  ok (index ∷ rest)
last_local [] region = ok []
last_local (local ∷ locals) [] = ok []

-- `validate_region_offsets`, for a region that has elements.
unfoldable pub validate_last_offset :
    List Range
    → List ℕ
    → AxisPermutation
    → (local_len storage_len : ℕ) → List Range
    → ℕ
    → Outcome TransposeError (Unit {0})
unfolding last_local
validate_last_offset local_ranges local_shape_memory permutation local_len storage_len region
      extra_count =
    do
      last ← last_local local_ranges region
      last_memory ← expect (permute permutation last)
      max_spatial ←
          map_err (λ _. TransposeError.preparation_failed)
            (row_major_offset local_shape_memory last_memory)
      max_offset ←
          ok_or
            (and_then (checked_mul (extra_count - 1) local_len)
              (λ extra_offset. checked_add extra_offset max_spatial))
            TransposeError.preparation_failed
      reject_if (leb storage_len max_offset) TransposeError.preparation_failed

-- `validate_region_offsets`
unfoldable pub validate_region_offsets :
    List Range
    → List ℕ
    → AxisPermutation
    → (local_len storage_len : ℕ) → List Range
    → ℕ
    → Outcome TransposeError (Unit {0})
unfolding validate_last_offset
validate_region_offsets local_ranges local_shape_memory permutation local_len storage_len region
      extra_count =
    if extra_count == 0
    then ok tt
    else region_spatial_len region >>= λ len.
        if len == 0
        then ok tt
        else validate_last_offset local_ranges local_shape_memory permutation local_len storage_len
            region extra_count

-- `counts.iter().try_fold(..)` of `prepare_common`
unfoldable pub sum_counts : ℕ → List ℕ → Outcome TransposeError ℕ
sum_counts total [] = ok total
sum_counts total (count ∷ counts) = do
  next ← ok_or (checked_add total count) TransposeError.preparation_failed
  sum_counts next counts

-- `for peer in &self.peers` of `prepare_common`
unfoldable pub validate_peers :
    TransposePlanCore
    → List PeerMetadata
    → (source_len destination_len extra_count : ℕ) → Outcome TransposeError (Unit {0})
unfolding validate_region_offsets
validate_peers plan [] source_len destination_len extra_count = ok tt
validate_peers plan (peer ∷ peers) source_len destination_len extra_count = do
  send_len ← region_spatial_len peer.send_region
  receive_len ← region_spatial_len peer.receive_region
  reject_if
      (not (send_len == peer.send_spatial_len) || not (receive_len == peer.receive_spatial_len))
      TransposeError.preparation_failed
  validate_region_offsets plan.source.local_ranges plan.source.local_shape_memory
      plan.source.permutation plan.source.local_len source_len peer.send_region extra_count
  validate_region_offsets plan.destination.local_ranges plan.destination.local_shape_memory
      plan.destination.permutation plan.destination.local_len destination_len peer.receive_region
      extra_count
  validate_peers plan peers source_len destination_len extra_count

module _ {ℓ} {T : Type ℓ} where
  -- `TransposePlanCore::prepare_common`
  unfoldable pub prepare_common :
      TransposePlanCore
      → ExtraShape
      → (source_len destination_len : ℕ) → TransposeWorkspace T
      → Outcome TransposeError PreparedExchange
  unfolding workspace_requirements prepare_exchange_counts sum_counts validate_peers
  prepare_common plan extra_shape source_len destination_len workspace = do
    requirements ← workspace_requirements plan extra_shape
    reject_if
        (ltb (length workspace.send_buffer) requirements.send_len
          || ltb (length workspace.receive_buffer) requirements.receive_len)
        (TransposeError.workspace_too_small requirements.send_len (length workspace.send_buffer)
          requirements.receive_len (length workspace.receive_buffer))
    coordinate_extent ←
        expect (get_elem? plan.source.topology.process_grid plan.changed_topology_axis)
    prepared ←
        prepare_exchange_counts plan.peers extra_shape.element_count coordinate_extent plan.mode
    reject_if
        (not (requirements.send_len == source_len)
          || not (requirements.receive_len == destination_len))
        TransposeError.preparation_failed
    send_total ← sum_counts 0 prepared.send_counts
    reject_if (not (send_total == source_len)) TransposeError.preparation_failed
    receive_total ← sum_counts 0 prepared.receive_counts
    reject_if (not (receive_total == destination_len)) TransposeError.preparation_failed
    validate_peers plan plan.peers source_len destination_len extra_shape.element_count
    ok prepared

  -- `TransposePlanCore::prepare_execution`
  unfoldable pub prepare_execution :
      TransposePlanCore
      → PencilArray T
      → PencilArray T
      → TransposeWorkspace T
      → Outcome TransposeError PreparedExchange
  unfolding prepare_common
  prepare_execution plan source destination workspace = do
    reject_if (not (same_layout source.pencil plan.source)) TransposeError.source_layout_mismatch
    reject_if (not (same_layout destination.pencil plan.destination))
        TransposeError.destination_layout_mismatch
    reject_if (not (same_extra_shape source.extra_shape destination.extra_shape))
        TransposeError.extra_shape_mismatch
    prepare_common plan source.extra_shape (length source.storage) (length destination.storage)
        workspace
