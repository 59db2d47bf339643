-- ===== src/Tests/Deliveries.antt =====
-- An example of a whole exchange: two processes that change from blocks of rows to blocks of columns, with
-- two values at each point.
use pencil_rs.Prelude.{
  ℕ, ◌↔◌, zero, suc, ◌+◌, ◌*◌, ◌<◌, ◌≤◌, ◌≡◌, refl, sym, ap, ◌∙◌, List, [], ◌∷◌, arith, some, ok,
  err, Outcome, length, get_elem?,
}
use pencil_rs.Transpose.{TransposeError}
use pencil_rs.Geometry.{
  shape_from_ranges, local_ranges_for, assign_ranges, partition_range, full_ranges, boundary,
}
use pencil_rs.Geometry.Offset.{Within}
use pencil_rs.Geometry.Cover.{Owns}
use pencil_rs.Array.{PencilArray, get_global}
use pencil_rs.Array.Access.{IsArray}
use pencil_rs.Pencil.{Pencil}
use pencil_rs.Pencil.Valid.{IsValid}
use pencil_rs.Transpose.Descriptor.{build_plan_descriptor}
use pencil_rs.Transpose.Described.{SameLayout, build_plan_descriptor_lem}
use pencil_rs.Transpose.Peers.{PeerMetadata, build_peer_metadata}
use pencil_rs.Transpose.Pack.{pack_source, unpack_destination}
use pencil_rs.Transpose.Sides.{Exchange}
use pencil_rs.Transpose.Schedule.{build_peer_metadata_lem}
use pencil_rs.Transpose.Line.{Line}
use pencil_rs.Transpose.Delivery.{Delivers, sent_by, with_storage, distributed_transpose_lem}
use pencil_rs.Tests.{
  process, pencil_of, pairs, straight, IsTopology-process, IsAxisPermutation-straight,
  IsValid-pencil, IsExtraShape-pairs,
}
use pencil_rs.Tests.Exchanges.{
  rows_to_columns, columns_to_rows, along, AlongAxis-along, IsDecomposition-second,
}

abbrev width : ℕ → ℕ
width zero = 1
width (suc c) = 2

abbrev columns_of : ℕ → Pencil
columns_of c = record {
  topology = process (c ∷ []);
  global_shape = 4 ∷ 3 ∷ [];
  decomposition = 1 ∷ [];
  permutation = straight;
  local_ranges = record { start = 0; end = 4 } ∷ record { start = c; end = c + width c } ∷ [];
  local_shape_logical = 4 ∷ width c ∷ [];
  local_shape_memory = 4 ∷ width c ∷ [];
  local_len = 4 * width c;
  global_len = 12;
}

columns_ranges-eq :
    (c : ℕ)
    → c < 2
    → local_ranges_for (4 ∷ 3 ∷ []) (2 ∷ []) (c ∷ []) (1 ∷ []) ≡ ok (columns_of c).local_ranges
unfolding local_ranges_for assign_ranges partition_range pencil_rs.Prelude.put_at full_ranges
    boundary
columns_ranges-eq zero h = refl
columns_ranges-eq (suc zero) h = refl
columns_ranges-eq (suc (suc c)) h = absurd (omega arith)

width_le : (c : ℕ) → width c ≤ 2
width_le zero = omega arith
width_le (suc c) = omega arith

IsValid-columns_of : (c : ℕ) → c < 2 → IsValid 2 1 (columns_of c)
unfolding shape_from_ranges pencil_rs.Axis.permute pencil_rs.Prelude.gather
IsValid-columns_of c h = record {
  topology = IsTopology-process c h;
  grid_rank = refl;
  rank = refl;
  positive = (omega arith, (omega arith, tt));
  shape_fits = (omega arith, (omega arith, tt));
  global_count = refl;
  global_fits = omega arith;
  decomposed = IsDecomposition-second;
  decomposition_rank = refl;
  permutation = IsAxisPermutation-straight;
  ranges = columns_ranges-eq c h;
  logical = ap (λ (k : ℕ). 4 ∷ k ∷ []) (omega arith);
  memory = refl;
  local_count = omega arith;
  local_bound = omega (arith, width_le c);
}

abbrev values : ℕ → List ℕ
values c =
    (c + 0)
    ∷ (c + 2)
    ∷ (c + 4)
    ∷ (c + 6)
    ∷ (c + 8)
    ∷ (c + 10)
    ∷ (c + 20)
    ∷ (c + 22)
    ∷ (c + 24)
    ∷ (c + 26)
    ∷ (c + 28)
    ∷ (c + 30)
    ∷ []

abbrev blank : ℕ → List ℕ
blank zero = 0 ∷ 0 ∷ 0 ∷ 0 ∷ 0 ∷ 0 ∷ 0 ∷ 0 ∷ []
blank (suc c) = 0 ∷ 0 ∷ 0 ∷ 0 ∷ 0 ∷ 0 ∷ 0 ∷ 0 ∷ 0 ∷ 0 ∷ 0 ∷ 0 ∷ 0 ∷ 0 ∷ 0 ∷ 0 ∷ []

length-blank : (c : ℕ) → length (blank c) ≡ 2 * (4 * width c)
length-blank zero = refl
length-blank (suc c) = refl

abbrev rows_array : ℕ → PencilArray ℕ
rows_array c = record { pencil = pencil_of (c ∷ []); extra_shape = pairs; storage = values c }

abbrev columns_array : ℕ → PencilArray ℕ
columns_array c = record { pencil = columns_of c; extra_shape = pairs; storage = blank c }

rows-IsArray : (c : ℕ) → c < 2 → IsArray 2 1 (rows_array c)
rows-IsArray c h = record {
  layout = record { pencil = IsValid-pencil c h; extra = IsExtraShape-pairs; fits = omega arith };
  stored = refl;
}

columns-IsArray : (c : ℕ) → c < 2 → IsArray 2 1 (columns_array c)
columns-IsArray c h = record {
  layout = record {
    pencil = IsValid-columns_of c h;
    extra = IsExtraShape-pairs;
    fits = omega (arith, width_le c);
  };
  stored = length-blank c;
}

abbrev peers_in : Outcome TransposeError (List PeerMetadata) → List PeerMetadata
peers_in (ok peers) = peers
peers_in (err e) = []
peers_in pencil_rs.Prelude.panic = []

abbrev peers_of : ℕ → List PeerMetadata
peers_of c = peers_in (build_peer_metadata (pencil_of (c ∷ [])) (columns_of c) 0 along)

forward : (c : ℕ) → c < 2 → Exchange 2 1 (pencil_of (c ∷ [])) (columns_of c) 0 1 2 3
forward c h = record {
  source = IsValid-pencil c h;
  destination = IsValid-columns_of c h;
  topology = refl;
  shape = refl;
  change = rows_to_columns.change;
}

backward : (c : ℕ) → c < 2 → Exchange 2 1 (columns_of c) (pencil_of (c ∷ [])) 0 0 2 4
backward c h = record {
  source = IsValid-columns_of c h;
  destination = IsValid-pencil c h;
  topology = refl;
  shape = refl;
  change = columns_to_rows.change;
}

two_processes :
    Line 2 1
      (4 ∷ 3 ∷ [])
      (2 ∷ [])
      (0 ∷ [])
      (1 ∷ [])
      (0 ∷ [])
      pairs
      0
      1
      0
      2
      3
      4
      along
      rows_array
      columns_array
      peers_of
two_processes = record {
  change = rows_to_columns.change;
  reverse = columns_to_rows.change;
  along = AlongAxis-along;
  sources = rows-IsArray;
  destinations = columns-IsArray;
  shapes = λ c. refl;
  destination_shapes = λ c. refl;
  grids = λ c. refl;
  places = λ c. refl;
  topologies = λ c. refl;
  decompositions = λ c. refl;
  destination_decompositions = λ c. refl;
  extras = λ c. refl;
  destination_extras = λ c. refl;
  built = λ c h.
      let (peers, run, _, _) =
        build_peer_metadata_lem (forward c h) (backward c h) AlongAxis-along in
      run ∙ ap ok (sym (ap peers_in run));
}

abbrev own_peer : ℕ → PeerMetadata
own_peer c = record {
  peer_rank = 0;
  peer_coordinate = 0;
  send_region = record { start = c * 2; end = c * 2 + 2 } ∷ record { start = 0; end = 1 } ∷ [];
  receive_region = record { start = 0; end = 2 } ∷ record { start = c; end = c + width c } ∷ [];
  send_spatial_len = 2;
  receive_spatial_len = 2 * width c;
  send_spatial_displacement = 0;
  receive_spatial_displacement = 0;
}

abbrev other_peer : ℕ → PeerMetadata
other_peer c = record {
  peer_rank = 1;
  peer_coordinate = 1;
  send_region = record { start = c * 2; end = c * 2 + 2 } ∷ record { start = 1; end = 3 } ∷ [];
  receive_region = record { start = 2; end = 4 } ∷ record { start = c; end = c + width c } ∷ [];
  send_spatial_len = 4;
  receive_spatial_len = 2 * width c;
  send_spatial_displacement = 2;
  receive_spatial_displacement = 2 * width c;
}

peers_of-both : (c : ℕ) → c < 2 → peers_of c ≡ own_peer c ∷ other_peer c ∷ []
unfolding build_peer_metadata pencil_rs.Transpose.Peers.push_peers pencil_rs.Transpose.Peers.peer_at
    pencil_rs.Pencil.ranges_at pencil_rs.Transpose.Peers.intersect_ranges shape_from_ranges
    pencil_rs.Transpose.Peers.to_count pencil_rs.Prelude.put_at pencil_rs.Topology.rank_at
    pencil_rs.Topology.to_mpi_coords local_ranges_for assign_ranges partition_range full_ranges
    pencil_rs.Transpose.Peers.region_spatial_len pencil_rs.Transpose.Walk.checked_sub boundary
    pencil_rs.Checked.checked_product pencil_rs.Checked.contains_zero pencil_rs.Checked.fold_product
    pencil_rs.Word.checked_mul pencil_rs.Word.checked_add
peers_of-both zero h = refl
peers_of-both (suc zero) h = refl
peers_of-both (suc (suc c)) h = absurd (omega arith)

abbrev send_buffer : ℕ → List ℕ
send_buffer c = 0 ∷ 0 ∷ 0 ∷ 0 ∷ 0 ∷ 0 ∷ 0 ∷ 0 ∷ 0 ∷ 0 ∷ 0 ∷ 0 ∷ []

abbrev packed : ℕ → List ℕ
packed c =
    c
    ∷ (c + 2)
    ∷ (c + 20)
    ∷ (c + 22)
    ∷ (c + 4)
    ∷ (c + 8)
    ∷ (c + 6)
    ∷ (c + 10)
    ∷ (c + 24)
    ∷ (c + 28)
    ∷ (c + 26)
    ∷ (c + 30)
    ∷ []

sent_by-packed : (c : ℕ) → c < 2 → sent_by rows_array peers_of send_buffer 2 c ≡ packed c
unfolding pack_source pencil_rs.Transpose.Walk.region_walk pencil_rs.Transpose.Walk.layout_of
    pencil_rs.Prelude.put_at pencil_rs.Word.checked_mul pencil_rs.Word.checked_add
    pencil_rs.Grid.get_range pencil_rs.Transpose.Walk.copy_region_to_payload
sent_by-packed zero h = rw (peers_of-both 0 h) refl
sent_by-packed (suc zero) h = rw (peers_of-both 1 h) refl
sent_by-packed (suc (suc c)) h = absurd (omega arith)

abbrev received : List ℕ
received = 0 ∷ 2 ∷ 20 ∷ 22 ∷ 1 ∷ 3 ∷ 21 ∷ 23 ∷ []

first_segment : (i j : ℕ) → i < 2 → j < 4 → get_elem? received (i * 4 + j) ≡ get_elem? (packed i) j
first_segment zero zero hi hj = refl
first_segment zero (suc zero) hi hj = refl
first_segment zero (suc (suc zero)) hi hj = refl
first_segment zero (suc (suc (suc zero))) hi hj = refl
first_segment zero (suc (suc (suc (suc j)))) hi hj = absurd (omega arith)
first_segment (suc zero) zero hi hj = refl
first_segment (suc zero) (suc zero) hi hj = refl
first_segment (suc zero) (suc (suc zero)) hi hj = refl
first_segment (suc zero) (suc (suc (suc zero))) hi hj = refl
first_segment (suc zero) (suc (suc (suc (suc j)))) hi hj = absurd (omega arith)
first_segment (suc (suc i)) j hi hj = absurd (omega arith)

receive_displacement :
    (i : ℕ) (r : PeerMetadata)
    → i < 2
    → get_elem? (own_peer 0 ∷ other_peer 0 ∷ []) i ≡ some r
    → r.receive_spatial_displacement * 2 ≡ i * 4
receive_displacement zero r h e = let same : own_peer 0 ≡ r = cc in rw (← same) refl
receive_displacement (suc zero) r h e = let same : other_peer 0 ≡ r = cc in rw (← same) refl
receive_displacement (suc (suc i)) r h e = absurd (omega arith)

delivers : Delivers 2 2 peers_of (sent_by rows_array peers_of send_buffer 2) 0 received
delivers i s r j hi sa ra low =
    let own : own_peer i ≡ s = first (rw (peers_of-both i hi) at sa) in
    let at = receive_displacement i r hi (rw (peers_of-both 0 (omega arith)) at ra) in
    let len : s.send_spatial_len ≡ 2 = ap (λ (q : PeerMetadata). q.send_spatial_len) (sym own) in
    let start : s.send_spatial_displacement ≡ 0 =
      ap (λ (q : PeerMetadata). q.send_spatial_displacement) (sym own) in
    let there : s.send_spatial_displacement * 2 + j ≡ j = omega (arith, start) in
    rw (sent_by-packed i hi, at, there) (first_segment i j hi (omega (arith, low, len)))
  where
    first : {x y : PeerMetadata} → some x ≡ some y → x ≡ y
    first e = cc

distributed_transpose_example :
    ((i : ℕ)
      → i < 2
      → pack_source
          (peers_of i)
          (rows_array i).pencil
          (rows_array i).storage
          (send_buffer i)
          (length (send_buffer i))
          2
        ≡ some (sent_by rows_array peers_of send_buffer 2 i))
    × (out : List ℕ) × (unpack_destination (peers_of 0) (columns_of 0) (blank 0) received 2
        ≡ some out)
    × IsArray 2 1 (with_storage (columns_array 0) out)
    × ((ei gi : List ℕ)
        → Within (2 ∷ []) ei
        → Owns (columns_of 0).local_ranges gi
        → (i : ℕ) × (i < 2)
          × Owns (rows_array i).pencil.local_ranges gi
          × (get_global (with_storage (columns_array 0) out) ei gi
              ≡ get_global (rows_array i) ei gi))
distributed_transpose_example =
    distributed_transpose_lem two_processes (omega arith) send_buffer (λ i h. refl) 0 received
      (omega arith) refl delivers

abbrev operation : ℕ
operation = 1

build_plan_descriptor_example :
    (mine : List ℕ) × (theirs : List ℕ) × (build_plan_descriptor 2 1
        (pencil_of (0 ∷ []))
        (columns_of 0)
        operation
      ≡ some mine)
    × (build_plan_descriptor 2 1 (pencil_of (1 ∷ [])) (columns_of 1) operation ≡ some theirs)
    × ((mine ≡ theirs) ↔ (
        (operation ≡ operation)
        × (SameLayout (pencil_of (0 ∷ [])) (pencil_of (1 ∷ []))
            × SameLayout (columns_of 0) (columns_of 1))))
build_plan_descriptor_example =
    build_plan_descriptor_lem (omega arith) (pencil_of (0 ∷ [])) (columns_of 0) (pencil_of (1 ∷ []))
      (columns_of 1) operation operation (IsValid-pencil 0 (omega arith))
      (IsValid-columns_of 0 (omega arith)) (IsValid-pencil 1 (omega arith))
      (IsValid-columns_of 1 (omega arith))
