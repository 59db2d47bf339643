-- ===== src/Transpose/Pack.antt =====
-- crates/pencil-array/src/transpose.rs: the send buffer packed from the source's storage, and the
-- destination's storage unpacked from the receive buffer. Debug assertions and overflow checks are
-- taken as enabled.
use pencil_rs.Prelude.{
  ℕ, zero, suc, ◌+◌, ◌-◌, ◌*◌, List, [], ◌∷◌, Bool, false, ◌||◌, Option, none, some, ◌==◌,
  if◌then◌else◌, ltb, min, length, and_then, Outcome, ok, err, panic,
}
use pencil_rs.Word.{usize_max, checked_add, checked_mul}
use pencil_rs.Geometry.{Range}
use pencil_rs.Grid.{get_range, debug_assert}
use pencil_rs.Pencil.{Pencil}
use pencil_rs.Transpose.Walk.{
  LocalLayout, layout_of, RegionWalk, region_walk, copy_region_to_payload, copy_region_from_payload,
}
use pencil_rs.Transpose.Peers.{PeerMetadata}
use pencil_rs.Transpose.Splice.{splice}

-- `Result::expect`, in a function that returns no error
abbrev pub value_of {ℓ κ} : {E : Type ℓ} {A : Type κ} → Outcome E A → Option A
value_of (ok a) = some a
value_of (err e) = none
value_of panic = none

-- `skip_peer_coordinate == Some(coordinate)`
abbrev pub is_skipped : Option ℕ → ℕ → Bool
is_skipped none coordinate = false
is_skipped (some skip) coordinate = skip == coordinate

-- What the loops over the peers compute before the blocks of a peer: the walk of its region, with the
-- assertions on its size and its greatest offset, and the start of its segment.
unfoldable pub checked_segment :
    LocalLayout → List Range → (spatial_len displacement extra_count : ℕ) → Option (RegionWalk × ℕ)
checked_segment layout region spatial_len displacement extra_count =
    and_then (value_of (region_walk layout region)) (λ walk.
      and_then (checked_mul walk.outer_len walk.run_len) (λ walk_len.
        and_then (debug_assert (walk_len == spatial_len)) (λ _.
          and_then
            (and_then (checked_mul (extra_count - 1) layout.local_len)
              (λ extra_offset. checked_add extra_offset walk.max_offset))
            (λ max_offset.
              and_then
                (debug_assert (ltb max_offset (min (layout.local_len * extra_count) usize_max)))
                (λ _.
                  and_then (checked_mul displacement extra_count)
                    (λ segment_start. some (walk, segment_start)))))))

-- The places of one block of a peer: of its storage, and of its payload from start to end.
unfoldable pub block_places :
    (local_len spatial_len segment_start extra_linear : ℕ) → Option (ℕ × ℕ × ℕ)
block_places local_len spatial_len segment_start extra_linear =
    and_then (checked_mul extra_linear local_len) (λ extra_offset.
      and_then
        (and_then (checked_mul extra_linear spatial_len) (λ done. checked_add segment_start done))
        (λ payload_offset.
          and_then (checked_add payload_offset spatial_len)
            (λ payload_end. some (extra_offset, payload_offset, payload_end))))

module _ {ℓ} {T : Type ℓ} where
  -- `&mut buffer[start..end]` lent to a function that leaves it changed.
  unfoldable pub write_range : List T → ℕ → ℕ → (List T → Option (List T)) → Option (List T)
  write_range buffer start end body =
      and_then (get_range buffer (record { start = start; end = end }))
        (λ part. and_then (body part) (λ written. some (splice buffer start written)))

  -- `for extra_linear in 0..extra_count` of the packing loop, for a number of blocks that is left.
  unfoldable pub pack_blocks :
      RegionWalk
      → (local_len spatial_len segment_start : ℕ) → List T
      → (left extra_linear : ℕ) → List T
      → Option (List T)
  unfolding block_places write_range
  pack_blocks walk local_len spatial_len segment_start source zero extra_linear buffer = some buffer
  pack_blocks walk local_len spatial_len segment_start source (suc left) extra_linear buffer =
      and_then (block_places local_len spatial_len segment_start extra_linear)
        (λ (extra_offset, payload_offset, payload_end).
          and_then (get_range source (record { start = extra_offset; end = length source }))
            (λ block.
              and_then
                (write_range buffer payload_offset payload_end (copy_region_to_payload walk block))
                (λ next.
                  pack_blocks walk local_len spatial_len segment_start source left
                    (extra_linear + 1) next)))

  -- One peer of `pack_source_regions_skipping`.
  unfoldable pub pack_peer : LocalLayout → List T → ℕ → PeerMetadata → List T → Option (List T)
  unfolding checked_segment pack_blocks
  pack_peer layout source extra_count peer buffer =
      and_then
        (checked_segment layout peer.send_region peer.send_spatial_len
          peer.send_spatial_displacement extra_count)
        (λ (walk, segment_start).
          pack_blocks walk layout.local_len peer.send_spatial_len segment_start source extra_count 0
            buffer)

  -- `for peer in peers` of `pack_source_regions_skipping`
  unfoldable pub pack_peers :
      List PeerMetadata → Option ℕ → LocalLayout → List T → ℕ → List T → Option (List T)
  unfolding pack_peer
  pack_peers [] skip layout source extra_count buffer = some buffer
  pack_peers (peer ∷ peers) skip layout source extra_count buffer =
      and_then
        (if is_skipped skip peer.peer_coordinate || peer.send_spatial_len == 0
          then some buffer
          else pack_peer layout source extra_count peer buffer)
        (λ next. pack_peers peers skip layout source extra_count next)

  -- `pack_source_regions_skipping`: the send buffer as it is left.
  unfoldable pub pack_source_regions_skipping :
      List PeerMetadata → Option ℕ → LocalLayout → List T → List T → ℕ → ℕ → Option (List T)
  unfolding pack_peers
  pack_source_regions_skipping peers skip layout source buffer send_len extra_count =
      and_then (debug_assert (length buffer == send_len)) (λ _.
        if extra_count == 0
        then some buffer
        else pack_peers peers skip layout source extra_count buffer)

  -- `pack_source`, through `pack_source_regions`
  unfoldable pub pack_source :
      List PeerMetadata → Pencil → List T → List T → ℕ → ℕ → Option (List T)
  unfolding pack_source_regions_skipping
  pack_source peers source_pencil source buffer send_len extra_count =
      pack_source_regions_skipping peers none (layout_of source_pencil) source buffer send_len
        extra_count

  -- `pack_source_except_self`
  unfoldable pub pack_source_except_self :
      List PeerMetadata → ℕ → Pencil → List T → List T → ℕ → ℕ → Option (List T)
  unfolding pack_source_regions_skipping
  pack_source_except_self peers self_coordinate source_pencil source buffer send_len extra_count =
      pack_source_regions_skipping peers (some self_coordinate) (layout_of source_pencil) source
        buffer send_len extra_count

  -- `for extra_linear in 0..extra_count` of the unpacking loop, for a number of blocks that is left.
  unfoldable pub unpack_blocks :
      RegionWalk
      → (local_len spatial_len segment_start : ℕ) → List T
      → (left extra_linear : ℕ) → List T
      → Option (List T)
  unfolding block_places write_range
  unpack_blocks walk local_len spatial_len segment_start received zero extra_linear storage =
      some storage
  unpack_blocks walk local_len spatial_len segment_start received (suc left) extra_linear storage =
      and_then (block_places local_len spatial_len segment_start extra_linear)
        (λ (extra_offset, payload_offset, payload_end).
          and_then (get_range received (record { start = payload_offset; end = payload_end }))
            (λ payload.
              and_then
                (write_range storage extra_offset (length storage)
                  (copy_region_from_payload walk payload))
                (λ next.
                  unpack_blocks walk local_len spatial_len segment_start received left
                    (extra_linear + 1) next)))

  -- One peer of `unpack_destination_regions_skipping`.
  unfoldable pub unpack_peer : LocalLayout → List T → ℕ → PeerMetadata → List T → Option (List T)
  unfolding checked_segment unpack_blocks
  unpack_peer layout received extra_count peer storage =
      and_then
        (checked_segment layout peer.receive_region peer.receive_spatial_len
          peer.receive_spatial_displacement extra_count)
        (λ (walk, segment_start).
          unpack_blocks walk layout.local_len peer.receive_spatial_len segment_start received
            extra_count 0 storage)

  -- `for peer in peers` of `unpack_destination_regions_skipping`
  unfoldable pub unpack_peers :
      List PeerMetadata → Option ℕ → LocalLayout → List T → ℕ → List T → Option (List T)
  unfolding unpack_peer
  unpack_peers [] skip layout received extra_count storage = some storage
  unpack_peers (peer ∷ peers) skip layout received extra_count storage =
      and_then
        (if is_skipped skip peer.peer_coordinate || peer.receive_spatial_len == 0
          then some storage
          else unpack_peer layout received extra_count peer storage)
        (λ next. unpack_peers peers skip layout received extra_count next)

  -- `unpack_destination_regions_skipping`: the destination's storage as it is left.
  unfoldable pub unpack_destination_regions_skipping :
      List PeerMetadata → Option ℕ → LocalLayout → List T → List T → ℕ → Option (List T)
  unfolding unpack_peers
  unpack_destination_regions_skipping peers skip layout storage received extra_count =
      if extra_count == 0
      then some storage
      else unpack_peers peers skip layout received extra_count storage

  -- `unpack_destination`, through `unpack_destination_regions`
  unfoldable pub unpack_destination :
      List PeerMetadata → Pencil → List T → List T → ℕ → Option (List T)
  unfolding unpack_destination_regions_skipping
  unpack_destination peers destination_pencil storage received extra_count =
      unpack_destination_regions_skipping peers none (layout_of destination_pencil) storage received
        extra_count

  -- `unpack_destination_except_self`
  unfoldable pub unpack_destination_except_self :
      List PeerMetadata → ℕ → Pencil → List T → List T → ℕ → Option (List T)
  unfolding unpack_destination_regions_skipping
  unpack_destination_except_self peers self_coordinate destination_pencil storage received
        extra_count =
      unpack_destination_regions_skipping peers (some self_coordinate)
        (layout_of destination_pencil) storage received extra_count
