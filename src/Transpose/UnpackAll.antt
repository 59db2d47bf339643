-- ===== src/Transpose/UnpackAll.antt =====
-- `unpack_destination`: the destination's storage gets the segment of every peer, block by block.
use pencil_rs.Prelude.{
  ℕ, ◌+◌, ◌*◌, ◌<◌, ◌≤◌, ◌≡◌, ◌≢◌, refl, sym, ap, ◌∙◌, List, [], ◌∷◌, true, false, ◌||◌, Option,
  none, some, arith, ◌==◌, length, get_elem?, All, All-imp, product, Bool-cases, inl, inr,
}
use native.Mathlib.Nat.{mul-le-mul_right}
use pencil_rs.Word.{usize_max}
use pencil_rs.Geometry.{Range, shape_from_ranges}
use pencil_rs.Geometry.Offset.{Within, ravel, ravel-lt-product}
use pencil_rs.Array.Cells.{block_unique}
use pencil_rs.Pencil.{Pencil}
use pencil_rs.Pencil.Valid.{IsValid, product-local_shape_memory}
use pencil_rs.Transpose.Walk.{layout_of}
use pencil_rs.Transpose.Odometer.{dot}
use pencil_rs.Transpose.Measure.{Inside}
use pencil_rs.Transpose.Region.{Stands}
use pencil_rs.Transpose.Peers.{PeerMetadata}
use pencil_rs.Transpose.Pack.{unpack_peer, unpack_peers, is_skipped, unpack_destination}
use pencil_rs.Transpose.Packed.{checked_segment_lem}
use pencil_rs.Transpose.Unpacked.{unpack_blocks_lem, Separate, Stands-Apart}

-- A receive region: its size, and that it lies in the local ranges when it has elements.
pub record ReceiveSide (p : Pencil) (peer : PeerMetadata) : Type 0 where
  pub size : peer.receive_spatial_len ≡ product (shape_from_ranges peer.receive_region)
  pub inside : 0 < peer.receive_spatial_len → Inside p.local_ranges peer.receive_region

-- The segments follow one another from a start up to a total.
abbrev pub ReceiveSegments : ℕ → List PeerMetadata → ℕ → Type 0
ReceiveSegments start [] total = start ≡ total
ReceiveSegments start (peer ∷ peers) total =
    (peer.receive_spatial_displacement ≡ start)
    × ReceiveSegments (start + peer.receive_spatial_len) peers total

-- No two peers send an element of one place.
abbrev pub Disjoint : List PeerMetadata → Type 0
Disjoint [] = Unit
Disjoint (peer ∷ peers) =
    All (λ later. Separate peer.receive_region later.receive_region) peers × Disjoint peers

segments_le :
    (start : ℕ) (peers : List PeerMetadata) (total : ℕ)
    → ReceiveSegments start peers total
    → start ≤ total
segments_le start [] total h = omega (arith, h)
segments_le start (peer ∷ peers) total h =
    omega (arith, segments_le (start + peer.receive_spatial_len) peers total h.1)

-- Every tuple of the peer's region, in every block, is read from the peer's segment.
abbrev pub PeerUnpacked {ℓ} : {T : Type ℓ} → Pencil → List T → List T → ℕ → PeerMetadata → Type ℓ
PeerUnpacked p received out extra_count peer =
    (extra : ℕ) (is : List ℕ)
    → extra < extra_count
    → Within (shape_from_ranges peer.receive_region) is
    → (offset : ℕ) × Stands p peer.receive_region is offset
      × (get_elem? out (extra * p.local_len + offset)
          ≡ get_elem? received (
              peer.receive_spatial_displacement * extra_count
              + extra * peer.receive_spatial_len
              + ravel (shape_from_ranges peer.receive_region) is))

-- The place is none of an element of the peer's region.
abbrev pub NotOf : Pencil → ℕ → ℕ → PeerMetadata → Type 0
NotOf p extra_count i peer =
    (extra : ℕ) (is : List ℕ) (offset : ℕ)
    → extra < extra_count
    → Within (shape_from_ranges peer.receive_region) is
    → Stands p peer.receive_region is offset
    → i ≢ extra * p.local_len + offset

-- What the loop over the peers does.
pub record PeersUnpacked {ℓ} {T : Type ℓ} (p : Pencil) (skip : Option ℕ)
    (received storage out : List T) (extra_count : ℕ) (peers : List PeerMetadata) : Type ℓ where
  pub size : length out ≡ length storage
  pub unpacked :
      All
        (λ peer.
          is_skipped skip peer.peer_coordinate ≡ false
          → PeerUnpacked p received out extra_count peer)
        peers
  pub kept : (i : ℕ) → All (NotOf p extra_count i) peers → get_elem? out i ≡ get_elem? storage i

module _ {ℓ} {T : Type ℓ} {n m : ℕ} {p : Pencil} (v : IsValid n m p) (received : List T)
    (k total : ℕ) (pos : 0 < k) (fits : k * p.local_len ≤ usize_max)
    (held : length received ≡ total * k) (room : total * k ≤ usize_max) where
  unpack_peer_lem :
      (peer : PeerMetadata) (storage : List T)
      → ReceiveSide p peer
      → 0 < peer.receive_spatial_len
      → peer.receive_spatial_displacement + peer.receive_spatial_len ≤ total
      → length storage ≡ k * p.local_len
      → (out : List T) × (unpack_peer (layout_of p) received k peer storage ≡ some out)
        × (length out ≡ length storage)
        × PeerUnpacked p received out k peer
        × ((i : ℕ) → NotOf p k i peer → get_elem? out i ≡ get_elem? storage i)
  unfolding unpack_peer layout_of
  unpack_peer_lem peer storage side some_len within stored =
      let segment : (peer.receive_spatial_displacement + peer.receive_spatial_len) * k ≤ total * k =
        mul-le-mul_right k within in
      let blocks : peer.receive_spatial_displacement * k + k * peer.receive_spatial_len
          ≤ total * k =
        omega arith in
      let (walk, checked, w) =
        checked_segment_lem peer.receive_region peer.receive_spatial_len
          peer.receive_spatial_displacement k v (side.inside some_len) side.size pos (omega arith)
          (omega arith) in
      let whole : peer.receive_spatial_len ≡ product walk.extent =
        side.size ∙ sym (ap product w.extents) in
      let (out, run, b) =
        unpack_blocks_lem walk w.sound received p.local_len peer.receive_spatial_len
          (peer.receive_spatial_displacement * k) k w.reach whole (omega arith) (omega arith) fits k
          0 storage (omega arith) (omega arith) in
      (
        out,
        rw checked run,
        b.size,
        λ extra is low inside. (
          walk.start + dot walk.stride is,
          w.stands is inside,
          b.moved extra is (omega arith) low (rw w.extents inside)
              ∙ ap
                  (λ (shape : List ℕ). get_elem? received (
                    peer.receive_spatial_displacement * k
                    + extra * peer.receive_spatial_len
                    + ravel shape is))
                  w.extents,
        ),
        λ i free. b.kept i (λ extra is from low inside.
            let within : Within (shape_from_ranges peer.receive_region) is =
              rw w.extents at inside in
            free extra is (walk.start + dot walk.stride is) low within (w.stands is within)),
      )

  offset_below :
      (region : List Range) (is : List ℕ) (offset : ℕ)
      → Stands p region is offset
      → offset < p.local_len
  offset_below region is offset st = omega (
    arith,
    st.number,
    ravel-lt-product p.local_shape_memory st.mem st.permuted.within,
    product-local_shape_memory v,
  )

  unpack_peers_lem :
      (peers : List PeerMetadata) (skip : Option ℕ) (start : ℕ) (storage : List T)
      → All (ReceiveSide p) peers
      → ReceiveSegments start peers total
      → Disjoint peers
      → length storage ≡ k * p.local_len
      → (out : List T) × (unpack_peers peers skip (layout_of p) received k storage ≡ some out)
        × PeersUnpacked p skip received storage out k peers
  unfolding unpack_peers
  unpack_peers_lem [] skip start storage sides segments apart stored =
      (storage, refl, record { size = refl; unpacked = tt; kept = λ i h. refl })
  unpack_peers_lem (peer ∷ peers) skip start storage (side, sides) (at, segments) (away, apart)
        stored =
      elim (Bool-cases (is_skipped skip peer.peer_coordinate || peer.receive_spatial_len == 0)) [
        | inl skips ↦
            let (out, run, rest) =
              unpack_peers_lem peers skip (start + peer.receive_spatial_len) storage sides segments
                apart stored in
            (
              out,
              rw skips run,
              record {
                size = rest.size;
                unpacked = (empty skips out, rest.unpacked);
                kept = λ i free. rest.kept i free.1;
              },
            )
        | inr takes ↦
            let some_len : 0 < peer.receive_spatial_len = ground (arith, takes) in
            let whole = segments_le (start + peer.receive_spatial_len) peers total segments in
            let (mid, unpacked, mid_size, here, others) =
              unpack_peer_lem peer storage side some_len (omega arith) stored in
            let (out, run, rest) =
              unpack_peers_lem peers skip (start + peer.receive_spatial_len) mid sides segments
                apart (mid_size ∙ stored) in
            (
              out,
              rw (takes, unpacked) run,
              record {
                size = rest.size ∙ mid_size;
                unpacked =
                    (λ active. keep mid out (side.inside some_len) here rest.kept, rest.unpacked);
                kept = λ i free. rest.kept i free.1 ∙ others i free.0;
              },
            )
      ]
    where
      -- The places of the later peers' elements are not those of the peer.
      later :
          (extra : ℕ) (is : List ℕ) (offset : ℕ)
          → Inside p.local_ranges peer.receive_region
          → extra < k
          → Within (shape_from_ranges peer.receive_region) is
          → Stands p peer.receive_region is offset
          → (rest : List PeerMetadata) → All (ReceiveSide p) rest
          → All (λ q. Separate peer.receive_region q.receive_region) rest
          → All (NotOf p k (extra * p.local_len + offset)) rest
      later extra is offset inside low within st [] sides away = tt
      later extra is offset inside low within st (q ∷ rest) (side_q, sides) (away_q, away) = (
        λ g js other bound u x e.
            let (_, same) =
              block_unique extra offset p.local_len g other
                (offset_below peer.receive_region is offset st)
                (offset_below q.receive_region js other x) e in
            Stands-Apart peer.receive_region q.receive_region is js offset other inside
              (side_q.inside (
                omega
                  (arith, side_q.size, ravel-lt-product (shape_from_ranges q.receive_region) js u)))
              away_q within u st x same,
        later extra is offset inside low within st rest sides away,
      )

      keep :
          (mid out : List T)
          → Inside p.local_ranges peer.receive_region
          → PeerUnpacked p received mid k peer
          → ((i : ℕ) → All (NotOf p k i) peers → get_elem? out i ≡ get_elem? mid i)
          → PeerUnpacked p received out k peer
      keep mid out inside here kept extra is low within =
          let (offset, st, moved) = here extra is low within in
          (
            offset,
            st,
            kept (extra * p.local_len + offset)
                  (later extra is offset inside low within st peers sides away)
                ∙ moved,
          )

      empty :
          (is_skipped skip peer.peer_coordinate || peer.receive_spatial_len == 0) ≡ true
          → (out : List T) → is_skipped skip peer.peer_coordinate ≡ false
          → PeerUnpacked p received out k peer
      empty skips out active extra is low within =
          let zero_len : peer.receive_spatial_len ≡ 0 = ground (arith, skips, active) in
          absurd (
            omega (
              arith,
              ravel-lt-product (shape_from_ranges peer.receive_region) is within,
              zero_len,
              side.size,
            ))

  -- For a well-formed destination pencil, peers whose receive regions lie in its local ranges, share
  -- no element and have segments that follow one another from 0 to a total, a storage of one block of
  -- the local length for each of the extra elements, at least one, and a receive buffer of the total
  -- times as many elements, both of which fit usize: `unpack_destination` succeeds and keeps the
  -- storage's length; every tuple of every peer's region, in every block, is then read from the
  -- peer's segment at the block's place and the tuple's row-major number; and a place that is none of
  -- a peer's elements is as before.
  pub unpack_destination_lem :
      (peers : List PeerMetadata) (storage : List T)
      → All (ReceiveSide p) peers
      → ReceiveSegments 0 peers total
      → Disjoint peers
      → length storage ≡ k * p.local_len
      → (out : List T) × (unpack_destination peers p storage received k ≡ some out)
        × (length out ≡ length storage)
        × All (PeerUnpacked p received out k) peers
        × ((i : ℕ) → All (NotOf p k i) peers → get_elem? out i ≡ get_elem? storage i)
  unfolding unpack_destination
  unpack_destination_lem peers storage sides segments apart stored =
      let (out, run, unpacked) =
        unpack_peers_lem peers none 0 storage sides segments apart stored in
      let blocks : (k == 0) ≡ false = ground (arith, pos) in
      (
        out,
        rw blocks run,
        unpacked.size,
        All-imp (λ peer h. h refl) peers unpacked.unpacked,
        unpacked.kept,
      )
