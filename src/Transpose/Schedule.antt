-- ===== src/Transpose/Schedule.antt =====
-- The peers that `build_peer_metadata` builds.
use pencil_rs.Prelude.{
  ℕ, zero, suc, ◌+◌, ◌*◌, ◌<◌, ◌≤◌, ◌≡◌, refl, ap, ◌∙◌, List, [], ◌∷◌, some, arith, length, set,
  product, All, All-get_elem?, All-imp, ok, le→leb, put_at-some, lt_of_get_elem?,
}
use native.Mathlib.Nat.{mul-zero}
use pencil_rs.Word.{usize_max, checked_add, checked_add-some}
use pencil_rs.Geometry.{Range, shape_from_ranges}
use pencil_rs.Geometry.Offset.{length-Within}
use pencil_rs.Geometry.Partition.{
  floor_range, floor_boundary, floor_boundary-zero, floor_boundary-last,
}
use pencil_rs.Topology.{MpiTopology, i32_max}
use pencil_rs.Pencil.{Pencil, ranges_at}
use pencil_rs.Pencil.Valid.{LocalRanges-pencil}
use pencil_rs.Transpose.Measure.{Inside}
use pencil_rs.Transpose.Peers.{
  PeerMetadata, Subcommunicator, to_count, peer_at, push_peers, build_peer_metadata,
  intersect_ranges,
}
use pencil_rs.Transpose.Slab.{axis-free, intersect_ranges_comm, floor_inside}
use pencil_rs.Transpose.Sides.{Exchange, Side, side, layer, layer-total, peer_coords}
use pencil_rs.Transpose.Build.{AlongAxis, Built, CutAt, Disjoint-cuts, Inside-set}

module _ {n m : ℕ} {p q : Pencil} {t axis parts extent : ℕ}
    (x : Exchange n m p q t axis parts extent) where
  -- A region of the block that has elements lies inside the block.
  Inside-Side :
      (c : ℕ) (region : List Range)
      → c < parts
      → Side x c region
      → 0 < product (shape_from_ranges region)
      → Inside p.local_ranges region
  Inside-Side c region low s some_len =
      let (mid, high) = floor_inside extent parts c low in
      rw s.cut (
        Inside-set p.local_ranges axis (record { start = 0; end = extent })
          (floor_range extent parts c)
          ((LocalRanges-pencil x.source).whole axis extent (axis-free x.change) x.change.at_shape)
          (omega arith) high (rw s.cut at some_len))

  axis_below : axis < length p.local_ranges
  axis_below =
      lt_of_get_elem? p.local_ranges axis
        ((LocalRanges-pencil x.source).whole axis extent (axis-free x.change) x.change.at_shape)

-- The peer at a coordinate, and what is known of it.
record PeerOf {n m : ℕ} {p q : Pencil} {t a b parts e f : ℕ} (x : Exchange n m p q t a parts e)
    (y : Exchange n m q p t b parts f) (c send receive : ℕ) (peer : PeerMetadata) : Type 0 where
  rank : peer.peer_rank ≡ c
  coordinate : peer.peer_coordinate ≡ c
  send_side : Side x c peer.send_region
  receive_side : Side y c peer.receive_region
  send_len : peer.send_spatial_len ≡ product (shape_from_ranges peer.send_region)
  receive_len : peer.receive_spatial_len ≡ product (shape_from_ranges peer.receive_region)
  send_displacement : peer.send_spatial_displacement ≡ send
  receive_displacement : peer.receive_spatial_displacement ≡ receive

adds : (a b next : ℕ) → a + b ≡ next → next ≤ usize_max → checked_add a b ≡ some next
adds a b next e h = checked_add-some a b (omega arith) ∙ ap some e

module _ {n m : ℕ} {p q : Pencil} {t a b parts e f : ℕ} (x : Exchange n m p q t a parts e)
    (y : Exchange n m q p t b parts f) {sub : Subcommunicator} (s : AlongAxis sub parts) where
  peer_at_lem :
      (c send receive : ℕ)
      → c < parts
      → (peer : PeerMetadata) × (peer_at p q t sub c send receive ≡ ok peer)
        × PeerOf x y c send receive peer
  unfolding peer_at to_count
  peer_at_lem c send receive low =
      let (theirs, run, send_side) = side x c low in
      let (ours, back, other_side) = side y c low in
      let coords : peer_coords q t c ≡ peer_coords p t c =
        ap (λ (top : MpiTopology). set top.local_coords t c) x.topology in
      let own : ranges_at p (peer_coords p t c) ≡ ok ours = rw coords at back in
      let swap = intersect_ranges_comm q.local_ranges ours in
      let receive_side : Side y c (intersect_ranges ours q.local_ranges) = rw swap at other_side in
      let few : parts ≤ i32_max =
        All-get_elem? (λ g. g ≤ i32_max) p.topology.process_grid t x.source.topology.fits
          x.change.at_grid in
      let room : t < length p.topology.local_coords = omega (
        arith,
        length-Within p.topology.process_grid p.topology.local_coords x.source.topology.own,
        lt_of_get_elem? p.topology.process_grid t x.change.at_grid,
      ) in
      (
        record {
          peer_rank = c;
          peer_coordinate = c;
          send_region = intersect_ranges p.local_ranges theirs;
          receive_region = intersect_ranges ours q.local_ranges;
          send_spatial_len = product (shape_from_ranges (intersect_ranges p.local_ranges theirs));
          receive_spatial_len = product (shape_from_ranges (intersect_ranges ours q.local_ranges));
          send_spatial_displacement = send;
          receive_spatial_displacement = receive;
        },
        rw
            (
              le→leb c i32_max (omega arith),
              s.coordinate c low,
              put_at-some p.topology.local_coords t c room,
              own,
              run,
              send_side.len,
              receive_side.len,
            )
            refl,
        record {
          rank = refl;
          coordinate = refl;
          send_side = send_side;
          receive_side = receive_side;
          send_len = refl;
          receive_len = refl;
          send_displacement = refl;
          receive_displacement = refl;
        },
      )

  -- What the loop pushes, with the displacements that it has reached.
  push_peers_lem :
      (left c : ℕ)
      → left + c ≡ parts
      → (peers : List PeerMetadata) × (push_peers p q t sub left c
            (layer x * floor_boundary e parts c)
            (layer y * floor_boundary f parts c)
          ≡ ok peers)
        × Built p q
            (layer x * floor_boundary e parts c)
            (layer y * floor_boundary f parts c)
            c
            left
            peers
        × All (CutAt p a e q b f parts c) peers
  unfolding push_peers
  push_peers_lem zero c h =
      let pos : 0 < parts =
        All-get_elem? (λ g. 0 < g) p.topology.process_grid t x.source.topology.positive
          x.change.at_grid in
      let end : c ≡ parts = omega arith in
      (
        [],
        refl,
        record {
          ranks = refl;
          coordinates = refl;
          send_sides = tt;
          send_segments = rw (end, floor_boundary-last e parts pos) (layer-total x);
          receive_sides = tt;
          receive_segments = rw (end, floor_boundary-last f parts pos) (layer-total y);
          disjoint = tt;
        },
        tt,
      )
  push_peers_lem (suc left) c h =
      let low : c < parts = omega arith in
      let send = layer x * floor_boundary e parts c in
      let receive = layer y * floor_boundary f parts c in
      let (peer, run, k) = peer_at_lem c send receive low in
      let (peers, rest, built, cuts) = push_peers_lem left (c + 1) (omega arith) in
      let next_send : send + peer.send_spatial_len ≡ layer x * floor_boundary e parts (c + 1) =
        omega (arith, k.send_len, k.send_side.size) in
      let next_receive : receive + peer.receive_spatial_len
          ≡ layer y * floor_boundary f parts (c + 1) =
        omega (arith, k.receive_len, k.receive_side.size) in
      let add_send =
        adds send peer.send_spatial_len (layer x * floor_boundary e parts (c + 1)) next_send
          (omega (arith, k.send_side.bound, x.source.local_bound, x.source.global_fits)) in
      let add_receive =
        adds receive peer.receive_spatial_len (layer y * floor_boundary f parts (c + 1))
          next_receive
          (omega (arith, k.receive_side.bound, y.source.local_bound, y.source.global_fits)) in
      let own_cut : peer.receive_region ≡ set q.local_ranges b (floor_range f parts c) =
        k.receive_side.cut in
      (
        peer ∷ peers,
        rw (run, add_send, add_receive, rest) refl,
        record {
          ranks = rw (k.rank, built.ranks) refl;
          coordinates = rw (k.coordinate, built.coordinates) refl;
          send_sides = (
            record {
              size = k.send_len;
              inside = λ some_len.
                  Inside-Side x c peer.send_region low k.send_side (rw (← k.send_len) some_len);
            },
            built.send_sides,
          );
          send_segments = (k.send_displacement, rw next_send built.send_segments);
          receive_sides = (
            record {
              size = k.receive_len;
              inside = λ some_len.
                  Inside-Side y c peer.receive_region low k.receive_side
                    (rw (← k.receive_len) some_len);
            },
            built.receive_sides,
          );
          receive_segments = (k.receive_displacement, rw next_receive built.receive_segments);
          disjoint = (
            Disjoint-cuts p a e q b f parts c peer peers (axis_below y) (omega arith) own_cut cuts,
            built.disjoint,
          );
        },
        (
          (rw k.coordinate k.send_side.cut, rw k.coordinate own_cut, omega (arith, k.coordinate)),
          All-imp (λ later h. (h.0, h.1, omega (arith, h.2))) peers cuts,
        ),
      )

  -- For two well-formed pencils over one topology and global shape whose decompositions differ at one
  -- topology axis, and a communicator along this axis as MPI documents it: `build_peer_metadata`
  -- succeeds with one peer for each coordinate of the axis, in order, whose regions are the two local
  -- blocks, each cut at the part of this coordinate. The send regions lie in the
  -- source's local ranges and their segments follow one another from 0 to the source's local length;
  -- the receive regions lie in the destination's local ranges, share no element, and their segments
  -- follow one another from 0 to the destination's local length.
  pub build_peer_metadata_lem :
      (peers : List PeerMetadata) × (build_peer_metadata p q t sub ≡ ok peers)
      × Built p q 0 0 0 parts peers
      × All (CutAt p a e q b f parts 0) peers
  unfolding build_peer_metadata
  build_peer_metadata_lem =
      let pos : 0 < parts =
        All-get_elem? (λ g. 0 < g) p.topology.process_grid t x.source.topology.positive
          x.change.at_grid in
      let (peers, run, built, cuts) = push_peers_lem parts 0 (omega arith) in
      let send : layer x * floor_boundary e parts 0 ≡ 0 =
        ap (λ (z : ℕ). layer x * z) (floor_boundary-zero e parts pos) ∙ mul-zero (layer x) in
      let receive : layer y * floor_boundary f parts 0 ≡ 0 =
        ap (λ (z : ℕ). layer y * z) (floor_boundary-zero f parts pos) ∙ mul-zero (layer y) in
      (peers, rw s.size (rw (send, receive) at run), rw (send, receive) at built, cuts)
