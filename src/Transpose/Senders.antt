-- ===== src/Transpose/Senders.antt =====
-- Who sends an element in a distributed transpose: the peer of one process for another, the process that has
-- an element of a destination block, and the places of a segment.
use pencil_rs.Prelude.{
  ℕ, zero, suc, ◌+◌, ◌*◌, ◌<◌, ◌≤◌, ◌≡◌, sym, ap, ◌∙◌, List, [], ◌∷◌, some, arith, length,
  get_elem?, set, map, product, All-get_elem?, get_elem?-some, lt_of_get_elem?,
  get_elem?-count_from, length-map, length-count_from,
}
use native.Mathlib.Nat.{mul-le-mul_right, mul_comm}
use pencil_rs.Geometry.{Range, shape_from_ranges}
use pencil_rs.Geometry.Offset.{Within, ravel, ravel-lt-product}
use pencil_rs.Geometry.Partition.{floor_range, floor_owner}
use pencil_rs.Geometry.Tiling.{range_contains_iff_left, range_contains_iff_right}
use pencil_rs.Geometry.Cover.{Owns}
use pencil_rs.ExtraShape.{ExtraShape}
use pencil_rs.Array.{PencilArray}
use pencil_rs.Transpose.Peers.{PeerMetadata, Subcommunicator}
use pencil_rs.Transpose.Slab.{axis-free, floor_inside}
use pencil_rs.Transpose.Build.{CutAt}
use pencil_rs.Transpose.Line.{Line, matching, schedule, source_ranges, destination_ranges}
use pencil_rs.Transpose.Reads.{Owns-set, Owns-of_set}

map-coordinate :
    (peers : List PeerMetadata) (c : ℕ) (peer : PeerMetadata)
    → get_elem? peers c ≡ some peer
    → get_elem? (map (λ (q : PeerMetadata). q.peer_coordinate) peers) c ≡ some peer.peer_coordinate
map-coordinate [] c peer e = absurd (cc)
map-coordinate (q ∷ peers) zero peer e =
    ap some (ap (λ (z : PeerMetadata). z.peer_coordinate) (the_same e))
  where
    the_same : {x y : PeerMetadata} → some x ≡ some y → x ≡ y
    the_same e = cc
map-coordinate (q ∷ peers) (suc c) peer e = map-coordinate peers c peer e

module _ {ℓ} {T : Type ℓ} {n m : ℕ} {shape grid from to base : List ℕ} {x : ExtraShape}
    {t a b parts e f : ℕ} {sub : Subcommunicator} {source destination : ℕ → PencilArray T}
    {peers : ℕ → List PeerMetadata}
    (l : Line n m shape grid from to base x t a b parts e f sub source destination peers) where
  -- The peer of one process for another.
  pub peer_for :
      (i c : ℕ)
      → i < parts
      → c < parts
      → (peer : PeerMetadata) × (get_elem? (peers i) c ≡ some peer)
        × (peer.send_region ≡ set (source i).pencil.local_ranges a (floor_range e parts c))
        × (peer.receive_region ≡ set (destination i).pencil.local_ranges b (floor_range f parts c))
  peer_for i c hi hc =
      let (built, cuts) = schedule l i hi in
      let count : length (peers i) ≡ parts =
        sym (length-map (λ (q : PeerMetadata). q.peer_coordinate) (peers i))
        ∙ ap length built.coordinates
        ∙ length-count_from 0 parts in
      let (peer, at) = get_elem?-some (peers i) c (omega (arith, count)) in
      let from_zero : 0 + c ≡ c = omega arith in
      let place : peer.peer_coordinate ≡ c = number (
        sym (map-coordinate (peers i) c peer at)
        ∙ ap (λ (z : List ℕ). get_elem? z c) built.coordinates
        ∙ get_elem?-count_from 0 parts c hc
        ∙ ap some from_zero) in
      let cut =
        All-get_elem? (CutAt (source i).pencil a e (destination i).pencil b f parts 0) (peers i) c
          cuts at in
      (peer, at, rw place at cut.0, rw place at cut.1)
    where
      number : {u v : ℕ} → some u ≡ some v → u ≡ v
      number e = cc

  -- The process that has an element of a destination block in the source layout.
  pub sender :
      (c : ℕ) (gi : List ℕ)
      → c < parts
      → Owns (destination c).pencil.local_ranges gi
      → (i : ℕ) × (i < parts)
        × Owns (set (destination c).pencil.local_ranges b (floor_range f parts i)) gi
        × Owns (source i).pencil.local_ranges gi
  sender c gi hc own =
      let whole = (destination_ranges l c hc).whole b f (axis-free l.reverse) l.reverse.at_shape in
      let below = lt_of_get_elem? (destination c).pencil.local_ranges b whole in
      let (g, at) = get_elem?-some gi b (omega (arith, own.0)) in
      let bounds =
        range_contains_iff_right (record { start = 0; end = f }) g
          (own.1 b (record { start = 0; end = f }) g whole at) in
      let (i, hi, low, high) = floor_owner f parts (omega arith) g (omega (arith, bounds)) in
      let cut =
        Owns-set (destination c).pencil.local_ranges b (floor_range f parts i) gi g own at
          (range_contains_iff_left (floor_range f parts i) g low high) in
      let sent = (source_ranges l i hi).whole a e (axis-free l.change) l.change.at_shape in
      (
        i,
        hi,
        cut,
        Owns-of_set (source i).pencil.local_ranges a (record { start = 0; end = e })
            (floor_range e parts c) gi sent (omega arith) (floor_inside e parts c hc).1
            (rw (matching l i c hi hc) cut),
      )

  -- The offset of a tuple within a peer's segment.
  pub segment_index :
      (region : List Range) (len : ℕ) (ei is : List ℕ)
      → len ≡ product (shape_from_ranges region)
      → product x.dimensions ≡ x.element_count
      → Within x.dimensions ei
      → Within (shape_from_ranges region) is
      → ravel x.dimensions ei * len + ravel (shape_from_ranges region) is < len * x.element_count
  segment_index region len ei is size count we w =
      let low = ravel-lt-product x.dimensions ei we in
      let inner = ravel-lt-product (shape_from_ranges region) is w in
      let block : (ravel x.dimensions ei + 1) * len ≤ x.element_count * len =
        mul-le-mul_right len (omega (arith, count)) in
      omega (arith, mul_comm x.element_count len)
