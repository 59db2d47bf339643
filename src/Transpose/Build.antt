-- ===== src/Transpose/Build.antt =====
-- `build_peer_metadata`: one peer for each coordinate of the changed axis, whose regions tile the two
-- local blocks and whose segments fill the two buffers.
use pencil_rs.Prelude.{
  ℕ, zero, suc, ◌+◌, ◌*◌, ◌<◌, ◌≤◌, ◌≡◌, refl, sym, ap, ◌∙◌, List, [], ◌∷◌, some, arith, length,
  get_elem?, set, product, map, count_from, All, get_elem?-set_self,
}
use native.Mathlib.Nat.{mul-zero}
use pencil_rs.Geometry.{Range, range_len, shape_from_ranges}
use pencil_rs.Geometry.Offset.{Within}
use pencil_rs.Geometry.Partition.{floor_range, floor_owner_unique}
use pencil_rs.Pencil.{Pencil}
use pencil_rs.Transpose.Measure.{Inside}
use pencil_rs.Transpose.Peers.{PeerMetadata, Subcommunicator}
use pencil_rs.Transpose.PackAll.{SendSide, SendSegments}
use pencil_rs.Transpose.Unpacked.{globals, Separate}
use pencil_rs.Transpose.UnpackAll.{ReceiveSide, ReceiveSegments, Disjoint}

positive_factors : (a b : ℕ) → 0 < a * b → (0 < a) × (0 < b)
positive_factors zero b h = absurd (omega arith)
positive_factors (suc a) zero h = absurd (omega (arith, mul-zero (suc a)))
positive_factors (suc a) (suc b) h = (omega arith, omega arith)

-- A block with elements lies in itself, and cut at one axis too.
Inside-self : (ranges : List Range) → 0 < product (shape_from_ranges ranges) → Inside ranges ranges
unfolding shape_from_ranges
Inside-self [] h = tt
Inside-self (r ∷ ranges) h =
    let (a, b) = positive_factors (range_len r) (product (shape_from_ranges ranges)) h in
    (omega arith, omega arith, omega arith, Inside-self ranges b)

pub Inside-set :
    (ranges : List Range) (a : ℕ) (outer r : Range)
    → get_elem? ranges a ≡ some outer
    → outer.start ≤ r.start
    → r.end ≤ outer.end
    → 0 < product (shape_from_ranges (set ranges a r))
    → Inside ranges (set ranges a r)
unfolding shape_from_ranges
Inside-set [] a outer r e low high h = tt
Inside-set (x ∷ ranges) zero outer r e low high h =
    let (p, q) = positive_factors (range_len r) (product (shape_from_ranges ranges)) h in
    let same : outer ≡ x = cc in
    (rw (← same) low, omega arith, rw (← same) high, Inside-self ranges q)
Inside-set (x ∷ ranges) (suc a) outer r e low high h =
    let (p, q) = positive_factors (range_len x) (product (shape_from_ranges (set ranges a r))) h in
    (omega arith, omega arith, omega arith, Inside-set ranges a outer r e low high q)

pub globals-within :
    (region : List Range) (is : List ℕ) (a : ℕ) (r : Range)
    → Within (shape_from_ranges region) is
    → get_elem? region a ≡ some r
    → (g : ℕ) × (get_elem? (globals region is) a ≡ some g) × (r.start ≤ g) × (g < r.end)
unfolding shape_from_ranges
globals-within [] is a r w e = absurd (cc)
globals-within (x ∷ region) [] a r w e = absurd w
globals-within (x ∷ region) (i ∷ is) zero r w e =
    let same : x ≡ r = cc in
    (x.start + i, refl, rw (← same) (omega arith), rw (← same) (omega (arith, w.0)))
globals-within (x ∷ region) (i ∷ is) (suc a) r w e = globals-within region is a r w.1 e

-- Blocks cut at different parts of one axis share no element.
pub Separate-cuts :
    (ranges : List Range) (a extent parts c d : ℕ)
    → a < length ranges
    → 0 < parts
    → c < d
    → Separate
        (set ranges a (floor_range extent parts c))
        (set ranges a (floor_range extent parts d))
Separate-cuts ranges a extent parts c d inside pos less is js w u e =
    let (g, pg, gl, gh) =
      globals-within (set ranges a (floor_range extent parts c)) is a (floor_range extent parts c) w
        (get_elem?-set_self ranges a (floor_range extent parts c) inside) in
    let (h, ph, hl, hh) =
      globals-within (set ranges a (floor_range extent parts d)) js a (floor_range extent parts d) u
        (get_elem?-set_self ranges a (floor_range extent parts d) inside) in
    let same : g ≡ h = index (sym pg ∙ ap (λ (t : List ℕ). get_elem? t a) e ∙ ph) in
    let part = floor_owner_unique extent parts pos g c d gl gh (omega arith) (omega arith) in
    omega arith
  where
    index : {g h : ℕ} → some g ≡ some h → g ≡ h
    index e = cc

-- What MPI documents of the communicator along one axis: as many ranks as the axis has processes, and
-- the rank is the coordinate.
pub record AlongAxis (sub : Subcommunicator) (parts : ℕ) : Type 0 where
  pub size : sub.size ≡ parts
  pub coordinate : (r : ℕ) → r < parts → sub.coordinate_of r ≡ r

-- A peer whose regions are the two blocks cut at its coordinate, from a given one on.
abbrev pub CutAt :
    (p : Pencil) → (a e : ℕ) → (q : Pencil) → (b f parts c : ℕ) → PeerMetadata → Type 0
CutAt p a e q b f parts c peer =
    (peer.send_region ≡ set p.local_ranges a (floor_range e parts peer.peer_coordinate))
    × (peer.receive_region ≡ set q.local_ranges b (floor_range f parts peer.peer_coordinate))
    × (c ≤ peer.peer_coordinate)

-- The peers from a given coordinate on, in order: their regions, with as many elements as are left of
-- the two blocks, in segments that follow one another.
pub record Built (p q : Pencil) (send receive c left : ℕ) (peers : List PeerMetadata) : Type 0 where
  pub ranks : map (λ (peer : PeerMetadata). peer.peer_rank) peers ≡ count_from c left
  pub coordinates : map (λ (peer : PeerMetadata). peer.peer_coordinate) peers ≡ count_from c left
  pub send_sides : All (SendSide p) peers
  pub send_segments : SendSegments send peers p.local_len
  pub receive_sides : All (ReceiveSide q) peers
  pub receive_segments : ReceiveSegments receive peers q.local_len
  pub disjoint : Disjoint peers

pub Disjoint-cuts :
    (p : Pencil) (a e : ℕ) (q : Pencil) (b f parts c : ℕ) (first : PeerMetadata)
    (peers : List PeerMetadata)
    → b < length q.local_ranges
    → 0 < parts
    → first.receive_region ≡ set q.local_ranges b (floor_range f parts c)
    → All (CutAt p a e q b f parts (c + 1)) peers
    → All (λ later. Separate first.receive_region later.receive_region) peers
Disjoint-cuts p a e q b f parts c first [] inside pos own h = tt
Disjoint-cuts p a e q b f parts c first (peer ∷ peers) inside pos own ((_, cut, after), rest) = (
  rw (own, cut)
      (Separate-cuts q.local_ranges b f parts c peer.peer_coordinate inside pos (omega arith)),
  Disjoint-cuts p a e q b f parts c first peers inside pos own rest,
)
