-- ===== src/Transpose/InPlace.antt =====
-- crates/pencil-array/src/transpose.rs: the in-place exchange over a registered buffer, before and after
-- the communication, and what a plan answers about itself.
use pencil_rs.Prelude.{
  ℕ, suc, List, [], ◌∷◌, ◌++◌, Option, none, some, not, ◌==◌, if◌then◌else◌, length, get_elem?,
  and_then, Outcome, ok, err, panic, map_err, ok_or, reject_if, ◌>>=◌, ◌>>◌,
}
use pencil_rs.Error.{ArrayError}
use pencil_rs.Checked.{checked_product}
use pencil_rs.Pencil.{same_layout}
use pencil_rs.Many.{
  ManyPencilArray, active_index, find_layout, split_prefix, begin_in_place_write, commit,
}
use pencil_rs.Grid.{debug_assert}
use pencil_rs.Transpose.{TransposeError}
use pencil_rs.Transpose.Peers.{PeerMetadata}
use pencil_rs.Transpose.Counts.{
  PreparedExchange, TransposePlanCore, TransposeWorkspace, prepare_common,
}
use pencil_rs.Transpose.Pack.{unpack_destination}

pub record PreparedInPlace : Type 0 where
  pub destination_index : ℕ
  pub exchange : PreparedExchange

-- `iter().find(|peer| peer.peer_coordinate == coordinate)`
unfoldable pub find_peer : List PeerMetadata → ℕ → Option PeerMetadata
find_peer [] coordinate = none
find_peer (peer ∷ peers) coordinate =
    if peer.peer_coordinate == coordinate then some peer else find_peer peers coordinate

-- `TransposePlanCore::self_peer`: `none` is a panic.
unfoldable pub self_peer : TransposePlanCore → Option PeerMetadata
unfolding find_peer
self_peer plan =
    and_then (get_elem? plan.source.topology.local_coords plan.changed_topology_axis)
      (find_peer plan.peers)

-- `iter().filter(|&&count| count != 0).count()`
unfoldable pub count_nonzero : List ℕ → ℕ
count_nonzero [] = 0
count_nonzero (count ∷ counts) =
    let rest = count_nonzero counts in if count == 0 then rest else suc rest

-- `TransposePlanCore::request_counts`: of the receives and of the sends.
unfoldable pub request_counts : TransposePlanCore → PreparedExchange → Option (ℕ × ℕ)
unfolding count_nonzero
request_counts plan prepared =
    and_then (debug_assert (length prepared.receive_counts == length plan.peers)) (λ _.
      and_then (debug_assert (length prepared.send_counts == length plan.peers))
        (λ _. some (count_nonzero prepared.receive_counts, count_nonzero prepared.send_counts)))

-- `.expect(..)` of an outcome
abbrev pub value_or_panic {κ μ} : {E : Type κ} → {A : Type μ} → Outcome E A → Option A
value_or_panic (ok value) = some value
value_or_panic (err _) = none
value_or_panic panic = none

module _ {ℓ} {T : Type ℓ} where
  -- `prepare_in_place`
  unfoldable pub prepare_in_place :
      TransposePlanCore
      → ManyPencilArray T
      → TransposeWorkspace T
      → Outcome TransposeError PreparedInPlace
  unfolding prepare_common
  prepare_in_place plan array workspace = do
    source_index ← map_err TransposeError.array (active_index array)
    active_source ←
        ok_or (get_elem? array.pencils source_index) TransposeError.source_layout_mismatch
    reject_if (not (same_layout active_source plan.source)) TransposeError.source_layout_mismatch
    destination_index ←
        ok_or (find_layout array.pencils plan.destination)
          TransposeError.destination_layout_mismatch
    source_len ←
        map_err (λ e. TransposeError.array (ArrayError.geometry e))
          (checked_product (active_source.local_len ∷ array.extra_shape.element_count ∷ []))
    destination_pencil ←
        ok_or (get_elem? array.pencils destination_index) TransposeError.destination_layout_mismatch
    destination_len ←
        map_err (λ e. TransposeError.array (ArrayError.geometry e))
          (checked_product (destination_pencil.local_len ∷ array.extra_shape.element_count ∷ []))
    exchange ← prepare_common plan array.extra_shape source_len destination_len workspace
    ok (record { destination_index = destination_index; exchange = exchange })

  -- `finish_in_place`: the array that it leaves, or `none` for a panic.
  unfoldable pub finish_in_place :
      TransposePlanCore
      → ManyPencilArray T
      → ℕ
      → PreparedExchange
      → List T
      → ℕ
      → Option (ManyPencilArray T)
  unfolding begin_in_place_write commit
  finish_in_place plan array destination_index exchange receive_buffer extra_count =
      and_then (value_or_panic (begin_in_place_write array)) (λ guard.
        and_then (split_prefix guard.storage exchange.requirements.receive_len) (λ (front, back).
          and_then (unpack_destination plan.peers plan.destination front receive_buffer extra_count)
            (λ written.
              let committed =
                commit (record guard { storage = written ++ back }) destination_index in
              and_then (value_or_panic committed.0) (λ _. some committed.1))))
