-- ===== src/Tests/Exchanges.antt =====
-- Examples of a distributed transpose: a 4 × 3 domain over two processes, from blocks of rows to blocks
-- of columns, as the first process sees it.
use pencil_rs.Prelude.{
  ℕ, zero, suc, ◌+◌, ◌*◌, ◌<◌, ◌≤◌, ◌≡◌, ◌≢◌, refl, List, [], ◌∷◌, arith, some, ok, length,
  get_elem?, All, Option,
}
use pencil_rs.Geometry.{
  Range, shape_from_ranges, local_ranges_for, assign_ranges, partition_range, full_ranges, boundary,
}
use pencil_rs.Geometry.Cover.{Shared}
use pencil_rs.Decomposition.Valid.{IsDecomposition}
use pencil_rs.Pencil.{Pencil}
use pencil_rs.Pencil.Valid.{IsValid}
use pencil_rs.Transpose.Peers.{PeerMetadata, Subcommunicator, build_peer_metadata}
use pencil_rs.Transpose.Pack.{pack_source, unpack_destination}
use pencil_rs.Transpose.PackAll.{SendSide, PeerPacked, pack_source_lem}
use pencil_rs.Transpose.UnpackAll.{ReceiveSide, PeerUnpacked, NotOf, unpack_destination_lem}
use pencil_rs.Transpose.Unpacked.{Separate}
use pencil_rs.Transpose.Sides.{Exchange}
use pencil_rs.Transpose.Build.{AlongAxis, Built, CutAt}
use pencil_rs.Transpose.Schedule.{build_peer_metadata_lem}
use pencil_rs.Tests.{
  process, pencil_of, straight, IsTopology-process, IsAxisPermutation-straight, IsValid-pencil,
}

abbrev rows : Pencil
rows = pencil_of (0 ∷ [])

abbrev columns_ranges : List Range
columns_ranges = record { start = 0; end = 4 } ∷ record { start = 0; end = 1 } ∷ []

abbrev columns : Pencil
columns = record {
  topology = process (0 ∷ []);
  global_shape = 4 ∷ 3 ∷ [];
  decomposition = 1 ∷ [];
  permutation = straight;
  local_ranges = columns_ranges;
  local_shape_logical = 4 ∷ 1 ∷ [];
  local_shape_memory = 4 ∷ 1 ∷ [];
  local_len = 4;
  global_len = 12;
}

pub IsDecomposition-second : IsDecomposition 2 (1 ∷ [])
IsDecomposition-second = record {
  some_axes = omega arith;
  rank = omega arith;
  below = (omega arith, tt);
  distinct = (tt, tt);
}

IsValid-columns : IsValid 2 1 columns
unfolding shape_from_ranges pencil_rs.Axis.permute pencil_rs.Prelude.gather local_ranges_for
    assign_ranges partition_range pencil_rs.Prelude.put_at full_ranges boundary
IsValid-columns = record {
  topology = IsTopology-process 0 (omega arith);
  grid_rank = refl;
  rank = refl;
  positive = (omega arith, (omega arith, tt));
  shape_fits = (omega arith, (omega arith, tt));
  global_count = refl;
  global_fits = omega arith;
  decomposed = IsDecomposition-second;
  decomposition_rank = refl;
  permutation = IsAxisPermutation-straight;
  ranges = refl;
  logical = refl;
  memory = refl;
  local_count = refl;
  local_bound = omega arith;
}

shared_by : (axis : ℕ) → axis < 2 → Shared (4 ∷ 3 ∷ []) (2 ∷ []) (axis ∷ [])
shared_by axis h = record {
  rank = refl;
  below = (h, tt);
  distinct = (tt, tt);
  shape_fits = (omega arith, (omega arith, tt));
  grid_fits = (omega arith, tt);
  positive = (omega arith, tt);
}

no_other : (a b u : ℕ) → (u ≡ 0 → ⊥) → get_elem? (a ∷ []) u ≡ get_elem? (b ∷ []) u
no_other a b zero h = absurd (h refl)
no_other a b (suc u) h = refl

one_axis : (a b : ℕ) → some a ≡ some b → a ≡ b
one_axis a b e = cc

pub rows_to_columns : Exchange 2 1 rows columns 0 1 2 3
rows_to_columns = record {
  source = IsValid-pencil 0 (omega arith);
  destination = IsValid-columns;
  topology = refl;
  shape = refl;
  change = record {
    source = shared_by 0 (omega arith);
    destination = shared_by 1 (omega arith);
    at_axis = refl;
    at_grid = refl;
    at_shape = refl;
    others = no_other 0 1;
    differ = λ e. omega (arith, one_axis 0 1 e);
  };
}

pub columns_to_rows : Exchange 2 1 columns rows 0 0 2 4
columns_to_rows = record {
  source = IsValid-columns;
  destination = IsValid-pencil 0 (omega arith);
  topology = refl;
  shape = refl;
  change = record {
    source = shared_by 1 (omega arith);
    destination = shared_by 0 (omega arith);
    at_axis = refl;
    at_grid = refl;
    at_shape = refl;
    others = no_other 1 0;
    differ = λ e. omega (arith, one_axis 1 0 e);
  };
}

abbrev pub along : Subcommunicator
along = record { size = 2; coordinate_of = λ r. r }

pub AlongAxis-along : AlongAxis along 2
AlongAxis-along = record { size = refl; coordinate = λ r h. refl }

build_peer_metadata_example :
    (peers : List PeerMetadata) × (build_peer_metadata rows columns 0 along ≡ ok peers)
    × Built rows columns 0 0 0 2 peers
    × All (CutAt rows 1 3 columns 0 4 2 0) peers
build_peer_metadata_example =
    build_peer_metadata_lem rows_to_columns columns_to_rows AlongAxis-along

-- The two peers of the first process.
abbrev own_peer : PeerMetadata
own_peer = record {
  peer_rank = 0;
  peer_coordinate = 0;
  send_region = record { start = 0; end = 2 } ∷ record { start = 0; end = 1 } ∷ [];
  receive_region = record { start = 0; end = 2 } ∷ record { start = 0; end = 1 } ∷ [];
  send_spatial_len = 2;
  receive_spatial_len = 2;
  send_spatial_displacement = 0;
  receive_spatial_displacement = 0;
}

abbrev other_peer : PeerMetadata
other_peer = record {
  peer_rank = 1;
  peer_coordinate = 1;
  send_region = record { start = 0; end = 2 } ∷ record { start = 1; end = 3 } ∷ [];
  receive_region = record { start = 2; end = 4 } ∷ record { start = 0; end = 1 } ∷ [];
  send_spatial_len = 4;
  receive_spatial_len = 2;
  send_spatial_displacement = 2;
  receive_spatial_displacement = 2;
}

abbrev both_peers : List PeerMetadata
both_peers = own_peer ∷ other_peer ∷ []

abbrev stored : List ℕ
stored = 10 ∷ 11 ∷ 12 ∷ 13 ∷ 14 ∷ 15 ∷ 20 ∷ 21 ∷ 22 ∷ 23 ∷ 24 ∷ 25 ∷ []

abbrev empty : List ℕ
empty = 0 ∷ 0 ∷ 0 ∷ 0 ∷ 0 ∷ 0 ∷ 0 ∷ 0 ∷ 0 ∷ 0 ∷ 0 ∷ 0 ∷ []

send_sides : All (SendSide rows) both_peers
unfolding shape_from_ranges
send_sides = (
  record {
    size = refl;
    inside =
        λ h. (omega arith, omega arith, omega arith, (omega arith, omega arith, omega arith, tt));
  },
  (
    record {
      size = refl;
      inside =
          λ h. (omega arith, omega arith, omega arith, (omega arith, omega arith, omega arith, tt));
    },
    tt,
  ),
)

pack_source_example :
    (out : List ℕ) × (pack_source both_peers rows stored empty 12 2 ≡ some out)
    × (length out ≡ 12)
    × All (PeerPacked rows stored out 2) both_peers
pack_source_example =
    pack_source_lem (IsValid-pencil 0 (omega arith)) stored 2 6 (omega arith) refl (omega arith)
      (omega arith) both_peers empty send_sides (refl, (refl, refl)) refl

receive_sides : All (ReceiveSide columns) both_peers
unfolding shape_from_ranges
receive_sides = (
  record {
    size = refl;
    inside =
        λ h. (omega arith, omega arith, omega arith, (omega arith, omega arith, omega arith, tt));
  },
  (
    record {
      size = refl;
      inside =
          λ h. (omega arith, omega arith, omega arith, (omega arith, omega arith, omega arith, tt));
    },
    tt,
  ),
)

separate : Separate own_peer.receive_region other_peer.receive_region
unfolding shape_from_ranges
separate [] js w u e = absurd w
separate (i ∷ is) [] w u e = absurd u
separate (i ∷ []) (j ∷ js) w u e = absurd w.1
separate (i ∷ k ∷ is) (j ∷ []) w u e = absurd u.1
separate (i ∷ k ∷ is) (j ∷ l ∷ js) w u e = let same : 0 + i ≡ 2 + j = cc in omega (arith, w.0)

abbrev received : List ℕ
received = 1 ∷ 2 ∷ 3 ∷ 4 ∷ 5 ∷ 6 ∷ 7 ∷ 8 ∷ []

abbrev kept_storage : List ℕ
kept_storage = 0 ∷ 0 ∷ 0 ∷ 0 ∷ 0 ∷ 0 ∷ 0 ∷ 0 ∷ []

unpack_destination_example :
    (out : List ℕ) × (unpack_destination both_peers columns kept_storage received 2 ≡ some out)
    × (length out ≡ 8)
    × All (PeerUnpacked columns received out 2) both_peers
    × ((i : ℕ) → All (NotOf columns 2 i) both_peers → get_elem? out i ≡ get_elem? kept_storage i)
unpack_destination_example =
    unpack_destination_lem IsValid-columns received 2 4 (omega arith) (omega arith) refl
      (omega arith) both_peers kept_storage receive_sides (refl, (refl, refl))
      ((separate, tt), (tt, tt)) refl
