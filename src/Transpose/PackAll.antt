-- ===== src/Transpose/PackAll.antt =====
-- `pack_source`: the send buffer holds the region of every peer, block by block, in the order of the
-- peers.
use pencil_rs.Prelude.{
  ℕ, ◌+◌, ◌*◌, ◌<◌, ◌≤◌, ◌≡◌, refl, sym, ap, ◌∙◌, List, [], ◌∷◌, true, false, ◌||◌, Option, none,
  some, arith, ◌==◌, length, get_elem?, All, All-imp, product, ==-eq_refl, Bool-cases, inl, inr,
}
use native.Mathlib.Nat.{mul-le-mul_right}
use pencil_rs.Word.{usize_max}
use pencil_rs.Geometry.{shape_from_ranges}
use pencil_rs.Geometry.Offset.{Within, ravel, ravel-lt-product}
use pencil_rs.Pencil.{Pencil}
use pencil_rs.Pencil.Valid.{IsValid}
use pencil_rs.Transpose.Walk.{layout_of}
use pencil_rs.Transpose.Odometer.{dot}
use pencil_rs.Transpose.Measure.{Inside}
use pencil_rs.Transpose.Region.{Stands}
use pencil_rs.Transpose.Peers.{PeerMetadata}
use pencil_rs.Transpose.Pack.{pack_peer, pack_peers, is_skipped, pack_source}
use pencil_rs.Transpose.Packed.{checked_segment_lem, pack_blocks_lem}

-- A send region: its size, and that it lies in the local ranges when it has elements.
pub record SendSide (p : Pencil) (peer : PeerMetadata) : Type 0 where
  pub size : peer.send_spatial_len ≡ product (shape_from_ranges peer.send_region)
  pub inside : 0 < peer.send_spatial_len → Inside p.local_ranges peer.send_region

-- The segments follow one another from a start up to a total.
abbrev pub SendSegments : ℕ → List PeerMetadata → ℕ → Type 0
SendSegments start [] total = start ≡ total
SendSegments start (peer ∷ peers) total =
    (peer.send_spatial_displacement ≡ start)
    × SendSegments (start + peer.send_spatial_len) peers total

segments_le :
    (start : ℕ) (peers : List PeerMetadata) (total : ℕ)
    → SendSegments start peers total
    → start ≤ total
segments_le start [] total h = omega (arith, h)
segments_le start (peer ∷ peers) total h =
    omega (arith, segments_le (start + peer.send_spatial_len) peers total h.1)

-- Every tuple of the peer's region stands in the peer's segment of every block.
abbrev pub PeerPacked {ℓ} : {T : Type ℓ} → Pencil → List T → List T → ℕ → PeerMetadata → Type ℓ
PeerPacked p source out extra_count peer =
    (extra : ℕ) (is : List ℕ)
    → extra < extra_count
    → Within (shape_from_ranges peer.send_region) is
    → (offset : ℕ) × Stands p peer.send_region is offset
      × (get_elem? out (
            peer.send_spatial_displacement * extra_count
            + extra * peer.send_spatial_len
            + ravel (shape_from_ranges peer.send_region) is)
          ≡ get_elem? source (extra * p.local_len + offset))

-- What the loop over the peers does from a given segment on.
pub record PeersPacked {ℓ} {T : Type ℓ} (p : Pencil) (skip : Option ℕ) (source buffer out : List T)
    (extra_count start : ℕ) (peers : List PeerMetadata) : Type ℓ where
  pub size : length out ≡ length buffer
  pub packed :
      All
        (λ peer.
          is_skipped skip peer.peer_coordinate ≡ false → PeerPacked p source out extra_count peer)
        peers
  pub before : (i : ℕ) → i < start * extra_count → get_elem? out i ≡ get_elem? buffer i

module _ {ℓ} {T : Type ℓ} {n m : ℕ} {p : Pencil} (v : IsValid n m p) (source : List T) (k total : ℕ)
    (pos : 0 < k) (stored : length source ≡ k * p.local_len) (fits : k * p.local_len ≤ usize_max)
    (room : total * k ≤ usize_max) where
  pack_peer_lem :
      (peer : PeerMetadata) (buffer : List T)
      → SendSide p peer
      → 0 < peer.send_spatial_len
      → peer.send_spatial_displacement + peer.send_spatial_len ≤ total
      → length buffer ≡ total * k
      → (out : List T) × (pack_peer (layout_of p) source k peer buffer ≡ some out)
        × (length out ≡ length buffer)
        × PeerPacked p source out k peer
        × ((i : ℕ) → i < peer.send_spatial_displacement * k → get_elem? out i ≡ get_elem? buffer i)
  unfolding pack_peer layout_of
  pack_peer_lem peer buffer side some_len within size =
      let segment : (peer.send_spatial_displacement + peer.send_spatial_len) * k ≤ total * k =
        mul-le-mul_right k within in
      let blocks : peer.send_spatial_displacement * k + k * peer.send_spatial_len ≤ total * k =
        omega arith in
      let (walk, checked, w) =
        checked_segment_lem peer.send_region peer.send_spatial_len peer.send_spatial_displacement k
          v (side.inside some_len) side.size pos (omega arith) (omega arith) in
      let whole : peer.send_spatial_len ≡ product walk.extent =
        side.size ∙ sym (ap product w.extents) in
      let (out, run, b) =
        pack_blocks_lem walk w.sound source p.local_len peer.send_spatial_len
          (peer.send_spatial_displacement * k) k w.reach whole (omega arith) fits k 0 buffer
          (omega arith) (omega arith) (omega arith) in
      (
        out,
        rw checked run,
        b.size,
        λ extra is low inside. (
          walk.start + dot walk.stride is,
          w.stands is inside,
          ap
                (λ (shape : List ℕ). get_elem? out (
                  peer.send_spatial_displacement * k
                  + extra * peer.send_spatial_len
                  + ravel shape is))
                (sym w.extents)
              ∙ b.moved extra is (omega arith) low (rw w.extents inside),
        ),
        λ i h. b.before i (omega arith),
      )

  pack_peers_lem :
      (peers : List PeerMetadata) (skip : Option ℕ) (start : ℕ) (buffer : List T)
      → All (SendSide p) peers
      → SendSegments start peers total
      → length buffer ≡ total * k
      → (out : List T) × (pack_peers peers skip (layout_of p) source k buffer ≡ some out)
        × PeersPacked p skip source buffer out k start peers
  unfolding pack_peers
  pack_peers_lem [] skip start buffer sides segments size =
      (buffer, refl, record { size = refl; packed = tt; before = λ i h. refl })
  pack_peers_lem (peer ∷ peers) skip start buffer (side, sides) (at, segments) size =
      elim (Bool-cases (is_skipped skip peer.peer_coordinate || peer.send_spatial_len == 0)) [
        | inl skips ↦
            let (out, run, rest) =
              pack_peers_lem peers skip (start + peer.send_spatial_len) buffer sides segments
                size in
            (
              out,
              rw skips run,
              record {
                size = rest.size;
                packed = (empty skips out, rest.packed);
                before = λ i h. rest.before i (
                    omega (
                      arith,
                      mul-le-mul_right {m = start} {n = start + peer.send_spatial_len} k
                          (omega arith),
                    ));
              },
            )
        | inr packs ↦
            let some_len : 0 < peer.send_spatial_len = positive packs in
            let whole = segments_le (start + peer.send_spatial_len) peers total segments in
            let (mid, packed, mid_size, here, low) =
              pack_peer_lem peer buffer side some_len (omega arith) size in
            let (out, run, rest) =
              pack_peers_lem peers skip (start + peer.send_spatial_len) mid sides segments
                (mid_size ∙ size) in
            let grows : start * k ≤ (start + peer.send_spatial_len) * k =
              mul-le-mul_right k (omega arith) in
            (
              out,
              rw (packs, packed) run,
              record {
                size = rest.size ∙ mid_size;
                packed = (λ active. keep mid out here rest.before, rest.packed);
                before = λ i h.
                    rest.before i (omega arith) ∙ low i (omega (arith, ap (λ (t : ℕ). t * k) at));
              },
            )
      ]
    where
      positive :
          (is_skipped skip peer.peer_coordinate || peer.send_spatial_len == 0) ≡ false
          → 0 < peer.send_spatial_len
      positive h = ground arith

      -- The segments that follow leave the peer's own segment alone.
      keep :
          (mid out : List T)
          → PeerPacked p source mid k peer
          → ((i : ℕ) → i < (start + peer.send_spatial_len) * k → get_elem? out i ≡ get_elem? mid i)
          → PeerPacked p source out k peer
      keep mid out here before extra is low inside =
          let (offset, stands, moved) = here extra is low inside in
          let below = ravel-lt-product (shape_from_ranges peer.send_region) is inside in
          let block : (extra + 1) * peer.send_spatial_len ≤ k * peer.send_spatial_len =
            mul-le-mul_right peer.send_spatial_len (omega arith) in
          (
            offset,
            stands,
            before
                  (peer.send_spatial_displacement * k
                    + extra * peer.send_spatial_len
                    + ravel (shape_from_ranges peer.send_region) is)
                  (omega (arith, side.size, ap (λ (t : ℕ). t * k) at))
                ∙ moved,
          )

      empty :
          (is_skipped skip peer.peer_coordinate || peer.send_spatial_len == 0) ≡ true
          → (out : List T) → is_skipped skip peer.peer_coordinate ≡ false
          → PeerPacked p source out k peer
      empty skips out active extra is low inside =
          let zero_len : peer.send_spatial_len ≡ 0 = ground (arith, skips, active) in
          absurd (
            omega (
              arith,
              ravel-lt-product (shape_from_ranges peer.send_region) is inside,
              zero_len,
              side.size,
            ))

  -- For a well-formed source pencil, peers whose send regions lie in its local ranges and whose
  -- segments follow one another from 0 to a total, a source storage of one block of the local length
  -- for each of the extra elements, at least one, and a send buffer of the total times as many
  -- elements, both of which fit usize: `pack_source` succeeds and keeps the buffer's length, and every
  -- tuple of every peer's region, in every block, stands in the peer's segment, at the block's place
  -- and the tuple's row-major number, as the element at its local memory offset.
  pub pack_source_lem :
      (peers : List PeerMetadata) (buffer : List T)
      → All (SendSide p) peers
      → SendSegments 0 peers total
      → length buffer ≡ total * k
      → (out : List T) × (pack_source peers p source buffer (length buffer) k ≡ some out)
        × (length out ≡ length buffer)
        × All (PeerPacked p source out k) peers
  unfolding pack_source
  pack_source_lem peers buffer sides segments size =
      let (out, run, packed) = pack_peers_lem peers none 0 buffer sides segments size in
      let blocks : (k == 0) ≡ false = ground (arith, pos) in
      (
        out,
        rw (==-eq_refl (length buffer), blocks) run,
        packed.size,
        All-imp (λ peer h. h refl) peers packed.packed,
      )
