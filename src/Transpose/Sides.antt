-- ===== src/Transpose/Sides.antt =====
-- What a process exchanges with the peer at one coordinate: the region, its size, and how the sizes of
-- all peers add up to the block.
use pencil_rs.Prelude.{
  ℕ, zero, suc, ◌+◌, ◌*◌, ◌<◌, ◌≤◌, ◌≡◌, refl, sym, ap, ◌∙◌, inl, inr, List, [], ◌∷◌, some, arith,
  length, get_elem?, set, product, All, All-of_get_elem?, ok, le→leb, get_elem?-some,
  lt_of_get_elem?,
}
use native.Mathlib.Nat.{mul_assoc, mul-le-mul_left}
use pencil_rs.Word.{usize_max}
use pencil_rs.Checked.{checked_product_lem}
use pencil_rs.Geometry.{Range, range_len, shape_from_ranges}
use pencil_rs.Geometry.Offset.{Within, length-Within, get_elem?-Within}
use pencil_rs.Geometry.Partition.{floor_range, floor_boundary}
use pencil_rs.Geometry.Ranges.{LocalRanges, local_ranges_for_lem}
use pencil_rs.Geometry.Cover.{occurs_or_not, Layout_of_Shared}
use pencil_rs.Topology.{MpiTopology}
use pencil_rs.Pencil.{Pencil, ranges_at}
use pencil_rs.Pencil.Valid.{IsValid, Shared-pencil, LocalRanges-pencil}
use pencil_rs.Pencil.Cover.{ranges_at-eq}
use pencil_rs.Transpose.Walk.{checked_sub}
use pencil_rs.Transpose.Peers.{intersect_ranges, region_shape, region_spatial_len}
use pencil_rs.Transpose.Slab.{Change, slab, axis-free, floor_inside}

-- The product of a list with one entry replaced.
product-set :
    (xs : List ℕ) (a v : ℕ) → a < length xs → product (set xs a v) ≡ product (set xs a 1) * v
product-set [] a v h = absurd (omega arith)
product-set (x ∷ xs) zero v h = omega arith
product-set (x ∷ xs) (suc a) v h =
    ap (λ (t : ℕ). x * t) (product-set xs a v (omega arith))
    ∙ sym (mul_assoc x (product (set xs a 1)) v)

set-same : (xs : List ℕ) (a v : ℕ) → get_elem? xs a ≡ some v → set xs a v ≡ xs
set-same [] a v e = refl
set-same (x ∷ xs) zero v e = let p : x ≡ v = cc in rw p refl
set-same (x ∷ xs) (suc a) v e = ap (λ ys. x ∷ ys) (set-same xs a v e)

shape-set :
    (ranges : List Range) (a : ℕ) (r : Range)
    → shape_from_ranges (set ranges a r) ≡ set (shape_from_ranges ranges) a (range_len r)
unfolding shape_from_ranges
shape-set [] a r = refl
shape-set (x ∷ ranges) zero r = refl
shape-set (x ∷ ranges) (suc a) r = ap (λ ys. range_len x ∷ ys) (shape-set ranges a r)

get_elem?-shape :
    (ranges : List Range) (a : ℕ) (r : Range)
    → get_elem? ranges a ≡ some r
    → get_elem? (shape_from_ranges ranges) a ≡ some (range_len r)
unfolding shape_from_ranges
get_elem?-shape [] a r e = absurd (cc)
get_elem?-shape (x ∷ ranges) zero r e = let p : x ≡ r = cc in rw p refl
get_elem?-shape (x ∷ ranges) (suc a) r e = get_elem?-shape ranges a r e

-- No range is inverted.
abbrev pub Ordered : List Range → Type 0
Ordered ranges = All (λ r. r.start ≤ r.end) ranges

region_shape-ok :
    (region : List Range) → Ordered region → region_shape region ≡ ok (shape_from_ranges region)
unfolding region_shape shape_from_ranges checked_sub
region_shape-ok [] h = refl
region_shape-ok (r ∷ region) h = rw (le→leb r.start r.end h.0, region_shape-ok region h.1) refl

pub region_spatial_len-ok :
    (region : List Range)
    → Ordered region
    → product (shape_from_ranges region) ≤ usize_max
    → region_spatial_len region ≡ ok (product (shape_from_ranges region))
unfolding region_spatial_len
region_spatial_len-ok region h fits =
    rw
      (
        region_shape-ok region h,
        checked_product_lem (shape_from_ranges region),
        le→leb (product (shape_from_ranges region)) usize_max fits,
      )
      refl

Ordered-local :
    {shape grid coords axes : List ℕ} {ranges : List Range}
    → length axes ≡ length grid
    → Within grid coords
    → LocalRanges shape grid coords axes ranges
    → Ordered ranges
Ordered-local {shape} {grid} {coords} {axes} {ranges} rank w l =
    All-of_get_elem? (λ r. r.start ≤ r.end) ranges
      λ a r e.
        let (x, px) = get_elem?-some shape a (omega (arith, lt_of_get_elem? ranges a e, l.rank)) in
        elim (occurs_or_not a axes) [
          | inl (t, pt) ↦
              let (g, pg) = get_elem?-some grid t (omega (arith, lt_of_get_elem? axes t pt)) in
              let (c, pc) =
                get_elem?-some coords t
                  (omega (arith, lt_of_get_elem? grid t pg, length-Within grid coords w)) in
              let same : floor_range x g c ≡ r = cc (l.distributed t a g c x pt pg pc px) in
              rw (← same) (floor_inside x g c (get_elem?-Within grid coords t g c w pg pc)).0
          | inr free ↦
              let same : record { start = 0; end = x } ≡ r = cc (l.whole a x free px) in
              rw (← same) (omega arith)
        ]

Ordered-set :
    (ranges : List Range) (a : ℕ) (r : Range)
    → Ordered ranges
    → r.start ≤ r.end
    → Ordered (set ranges a r)
Ordered-set [] a r h k = tt
Ordered-set (x ∷ ranges) zero r h k = (k, h.1)
Ordered-set (x ∷ ranges) (suc a) r h k = (h.0, Ordered-set ranges a r h.1 k)

-- Two pencils over one topology and global shape whose decompositions differ at one topology axis.
pub record Exchange (n m : ℕ) (p q : Pencil) (t axis parts extent : ℕ) : Type 0 where
  pub source : IsValid n m p
  pub destination : IsValid n m q
  pub topology : q.topology ≡ p.topology
  pub shape : q.global_shape ≡ p.global_shape
  pub change :
      Change p.global_shape p.topology.process_grid p.decomposition q.decomposition t axis parts
        extent

-- The coordinates of the peer.
abbrev pub peer_coords : Pencil → ℕ → ℕ → List ℕ
peer_coords p t c = set p.topology.local_coords t c

Within-set :
    (grid coords : List ℕ) (t g c : ℕ)
    → Within grid coords
    → get_elem? grid t ≡ some g
    → c < g
    → Within grid (set coords t c)
Within-set [] [] t g c w e h = tt
Within-set [] (x ∷ coords) t g c w e h = absurd w
Within-set (y ∷ grid) [] t g c w e h = absurd w
Within-set (y ∷ grid) (x ∷ coords) zero g c w e h = let p : y ≡ g = cc in (omega arith, w.1)
Within-set (y ∷ grid) (x ∷ coords) (suc t) g c w e h = (w.0, Within-set grid coords t g c w.1 e h)

module _ {n m : ℕ} {p q : Pencil} {t axis parts extent : ℕ}
    (x : Exchange n m p q t axis parts extent) where
  -- The number of elements of the block over one index of the axis.
  abbrev pub layer : ℕ
  layer = product (set p.local_shape_logical axis 1)

  axis_extent : get_elem? p.local_shape_logical axis ≡ some extent
  axis_extent = rw x.source.logical (
      get_elem?-shape p.local_ranges axis (record { start = 0; end = extent })
        ((LocalRanges-pencil x.source).whole axis extent (axis-free x.change) x.change.at_shape)
      ∙ ap some (omega arith))

  pub layer-total : layer * extent ≡ p.local_len
  layer-total =
      sym (
        product-set p.local_shape_logical axis extent
          (lt_of_get_elem? p.local_shape_logical axis axis_extent))
      ∙ ap product (set-same p.local_shape_logical axis extent axis_extent)
      ∙ sym x.source.local_count

  -- The region exchanged with the peer at a coordinate, and its size.
  pub record Side (c : ℕ) (region : List Range) : Type 0 where
    pub cut : region ≡ set p.local_ranges axis (floor_range extent parts c)
    pub len : region_spatial_len region ≡ ok (product (shape_from_ranges region))
    pub size :
        layer * floor_boundary extent parts c + product (shape_from_ranges region)
        ≡ layer * floor_boundary extent parts (c + 1)
    pub bound : layer * floor_boundary extent parts (c + 1) ≤ p.local_len

  pub side :
      (c : ℕ)
      → c < parts
      → (ranges : List Range) × (ranges_at q (peer_coords p t c) ≡ ok ranges)
        × Side c (intersect_ranges p.local_ranges ranges)
  side c low =
      let grid : q.topology.process_grid ≡ p.topology.process_grid =
        ap (λ (top : MpiTopology). top.process_grid) x.topology in
      let coords : Within p.topology.process_grid (peer_coords p t c) =
        Within-set p.topology.process_grid p.topology.local_coords t parts c x.source.topology.own
          x.change.at_grid low in
      let inside : Within q.topology.process_grid (peer_coords p t c) = rw grid coords in
      let (ranges, run, l) =
        local_ranges_for_lem q.global_shape q.topology.process_grid (peer_coords p t c)
          q.decomposition
          (Layout_of_Shared (peer_coords p t c) (Shared-pencil x.destination) inside) in
      let cut =
        slab x.change p.topology.local_coords c x.source.topology.own low
          (LocalRanges-pencil x.source) (rw (x.shape, grid) at l) in
      let (mid, high) = floor_inside extent parts c low in
      let count = count_of (intersect_ranges p.local_ranges ranges) c cut in
      let whole : floor_boundary extent parts c + range_len (floor_range extent parts c)
          ≡ floor_boundary extent parts (c + 1) =
        omega arith in
      let size : layer * floor_boundary extent parts c
            + layer * range_len (floor_range extent parts c)
          ≡ layer * floor_boundary extent parts (c + 1) =
        omega (arith, ap (λ (z : ℕ). layer * z) whole) in
      let bound : layer * floor_boundary extent parts (c + 1) ≤ layer * extent =
        mul-le-mul_left layer high in
      let ordered : Ordered (intersect_ranges p.local_ranges ranges) = rw cut (
        Ordered-set p.local_ranges axis (floor_range extent parts c)
          (Ordered-local x.change.source.rank x.source.topology.own (LocalRanges-pencil x.source))
          mid) in
      (
        ranges,
        ranges_at-eq x.destination (peer_coords p t c) inside run,
        record {
          cut = cut;
          len =
              region_spatial_len-ok (intersect_ranges p.local_ranges ranges) ordered (
                omega
                  (arith, count, size, layer-total, x.source.local_bound, x.source.global_fits));
          size = omega (arith, count, size);
          bound = omega (arith, layer-total);
        },
      )
    where
      count_of :
          (region : List Range) (c : ℕ)
          → region ≡ set p.local_ranges axis (floor_range extent parts c)
          → product (shape_from_ranges region) ≡ layer * range_len (floor_range extent parts c)
      count_of region c cut =
          ap (λ (r : List Range). product (shape_from_ranges r)) cut
          ∙ ap product (shape-set p.local_ranges axis (floor_range extent parts c))
          ∙ ap
              (λ (shape : List ℕ).
                product (set shape axis (range_len (floor_range extent parts c))))
              (sym x.source.logical)
          ∙ product-set p.local_shape_logical axis (range_len (floor_range extent parts c))
              (lt_of_get_elem? p.local_shape_logical axis axis_extent)
