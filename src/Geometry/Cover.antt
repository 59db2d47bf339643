-- ===== src/Geometry/Cover.antt =====
-- The local ranges of all processes tile the global index space.
use pencil_rs.Prelude.{
  ℕ, zero, suc, ◌+◌, ◌<◌, ◌≤◌, ◌≡◌, ◌≢◌, sym, ap, ◌∙◌, ◌⊎◌, inl, inr, List, [], ◌∷◌, true, some,
  arith, length, get_elem?, All, Distinct, ok, get_elem?-some, lt_of_get_elem?, list_ext,
  All-get_elem?, get_elem?-none,
}
use native.Mathlib.Decide.{dec_lt, ℕ_discrete}
use pencil_rs.Word.{usize_max}
use pencil_rs.Geometry.{Range, range_contains, local_ranges_for}
use pencil_rs.Geometry.Offset.{Within, length-Within, get_elem?-Within}
use pencil_rs.Geometry.Partition.{floor_range, floor_boundary, floor_owner, floor_owner_unique}
use pencil_rs.Geometry.Tiling.{range_contains_iff_left, range_contains_iff_right}
use pencil_rs.Geometry.Ranges.{Layout, LocalRanges, local_ranges_for_lem}

-- The tuple lies in the box that the ranges describe.
abbrev pub Owns : List Range → List ℕ → Type 0
Owns ranges is =
    (length is ≡ length ranges)
    × ((a : ℕ) (r : Range) (i : ℕ)
        → get_elem? ranges a ≡ some r
        → get_elem? is a ≡ some i
        → range_contains r i ≡ true)

-- What all the processes of a grid share.
pub record Shared (shape grid axes : List ℕ) : Type 0 where
  pub rank : length axes ≡ length grid
  pub below : All (λ a. a < length shape) axes
  pub distinct : Distinct axes
  pub shape_fits : All (λ e. e ≤ usize_max) shape
  pub grid_fits : All (λ e. e ≤ usize_max) grid
  pub positive : All (λ e. 0 < e) grid

pub Layout_of_Shared :
    {shape grid axes : List ℕ} (coords : List ℕ)
    → Shared shape grid axes
    → Within grid coords
    → Layout shape grid coords axes
Layout_of_Shared coords s w = record {
  inside = w;
  rank = s.rank;
  below = s.below;
  distinct = s.distinct;
  shape_fits = s.shape_fits;
  grid_fits = s.grid_fits;
}

-- The owner's coordinates, one for each axis of the grid.
owner_coords :
    (shape is grid axes : List ℕ)
    → Within shape is
    → length axes ≡ length grid
    → All (λ a. a < length shape) axes
    → All (λ e. 0 < e) grid
    → (coords : List ℕ) × Within grid coords
      × ((t a g c e i : ℕ)
          → get_elem? axes t ≡ some a
          → get_elem? grid t ≡ some g
          → get_elem? coords t ≡ some c
          → get_elem? shape a ≡ some e
          → get_elem? is a ≡ some i
          → range_contains (floor_range e g c) i ≡ true)
owner_coords shape is [] [] w rank below pos = ([], tt, λ t a g c e i p. absurd (cc))
owner_coords shape is [] (a ∷ axes) w rank below pos = absurd (omega arith)
owner_coords shape is (g ∷ grid) [] w rank below pos = absurd (omega arith)
owner_coords shape is (g ∷ grid) (a ∷ axes) w rank below pos =
    let (e, pe) = get_elem?-some shape a below.0 in
    let (i, pi) = get_elem?-some is a (omega (arith, below.0, length-Within shape is w)) in
    let (c, lt, low, high) = floor_owner e g pos.0 i (get_elem?-Within shape is a e i w pe pi) in
    let (coords, inside, own) = owner_coords shape is grid axes w (omega arith) below.1 pos.1 in
    (c ∷ coords, (lt, inside), choose e pe i pi c low high coords own)
  where
    choose :
        (e : ℕ)
        → get_elem? shape a ≡ some e
        → (i : ℕ) → get_elem? is a ≡ some i
        → (c : ℕ) → floor_boundary e g c ≤ i
        → i < floor_boundary e g (c + 1)
        → (coords : List ℕ)
        → ((t b h d f j : ℕ)
            → get_elem? axes t ≡ some b
            → get_elem? grid t ≡ some h
            → get_elem? coords t ≡ some d
            → get_elem? shape b ≡ some f
            → get_elem? is b ≡ some j
            → range_contains (floor_range f h d) j ≡ true)
        → (t b h d f j : ℕ) → get_elem? (a ∷ axes) t ≡ some b
        → get_elem? (g ∷ grid) t ≡ some h
        → get_elem? (c ∷ coords) t ≡ some d
        → get_elem? shape b ≡ some f
        → get_elem? is b ≡ some j
        → range_contains (floor_range f h d) j ≡ true
    choose e pe i pi c low high coords own zero b h d f j p q r u v =
        let head : range_contains (floor_range e g c) i ≡ true =
          range_contains_iff_left (floor_range e g c) i low high in
        let same_e : e ≡ f = cc in
        let same_i : i ≡ j = cc in
        let same_g : g ≡ h = cc in
        let same_c : c ≡ d = cc in rw (← same_e, ← same_i, ← same_g, ← same_c) head
    choose e pe i pi c low high coords own (suc t) b h d f j p q r u v = own t b h d f j p q r u v

-- Either the axis stands in the list or it differs from all of the list.
pub occurs_or_not :
    (a : ℕ) (axes : List ℕ) → ((t : ℕ) × (get_elem? axes t ≡ some a)) ⊎ All (λ y. a ≢ y) axes
occurs_or_not a [] = inr tt
occurs_or_not a (x ∷ axes) = elim (ℕ_discrete a x) [
  | yes p ↦ inl (0, ap some (sym p))
  | no p ↦ elim (occurs_or_not a axes) [ inl (t, q) ↦ inl (suc t, q) | inr h ↦ inr (p, h) ]
]

-- Each coordinate of the process picks a part that holds the index on its distributed axis.
abbrev Holds : (shape is grid axes coords : List ℕ) → Type 0
Holds shape is grid axes coords =
    (t a g c e i : ℕ)
    → get_elem? axes t ≡ some a
    → get_elem? grid t ≡ some g
    → get_elem? coords t ≡ some c
    → get_elem? shape a ≡ some e
    → get_elem? is a ≡ some i
    → range_contains (floor_range e g c) i ≡ true

Owns-of_Holds :
    {shape grid axes : List ℕ} (is coords : List ℕ) {ranges : List Range}
    → Shared shape grid axes
    → Within shape is
    → Within grid coords
    → LocalRanges shape grid coords axes ranges
    → Holds shape is grid axes coords
    → Owns ranges is
Owns-of_Holds {shape} {grid} {axes} is coords {ranges} s w inside l own =
    (sym (length-Within shape is w) ∙ sym l.rank, λ a r i p q. inside_range a r i p q)
  where
    inside_range :
        (a : ℕ) (r : Range) (i : ℕ)
        → get_elem? ranges a ≡ some r
        → get_elem? is a ≡ some i
        → range_contains r i ≡ true
    inside_range a r i p q =
        let (e, pe) = get_elem?-some shape a (omega (arith, lt_of_get_elem? ranges a p, l.rank)) in
        elim (occurs_or_not a axes) [
          | inl (t, pt) ↦
              let lt : t < length grid = omega (arith, lt_of_get_elem? axes t pt, s.rank) in
              let (g, pg) = get_elem?-some grid t lt in
              let (c, pc) =
                get_elem?-some coords t (omega (arith, length-Within grid coords inside)) in
              let same : floor_range e g c ≡ r = cc (l.distributed t a g c e pt pg pc pe) in
              rw (← same) (own t a g c e i pt pg pc pe q)
          | inr differs ↦
              let same : record { start = 0; end = e } ≡ r = cc (l.whole a e differs pe) in
              rw (← same) (
                range_contains_iff_left (record { start = 0; end = e }) i (omega arith)
                  (get_elem?-Within shape is a e i w pe q))
        ]

Holds-of_Owns :
    {shape grid axes : List ℕ} (is coords : List ℕ) {ranges : List Range}
    → LocalRanges shape grid coords axes ranges
    → Owns ranges is
    → Holds shape is grid axes coords
Holds-of_Owns is coords l own t a g c e i pt pg pc pe pi =
    own.1 a (floor_range e g c) i (l.distributed t a g c e pt pg pc pe) pi

-- Two processes whose coordinates hold one index are the same process.
coords_unique :
    {shape grid axes : List ℕ} (is c d : List ℕ)
    → Shared shape grid axes
    → Within shape is
    → Within grid c
    → Within grid d
    → Holds shape is grid axes c
    → Holds shape is grid axes d
    → c ≡ d
coords_unique {shape} {grid} {axes} is c d s w wc wd hc hd = list_ext c d λ t.
    elim (dec_lt t (length grid)) [
      | no ge ↦
          get_elem?-none c t (omega (arith, length-Within grid c wc))
          ∙ sym (get_elem?-none d t (omega (arith, length-Within grid d wd)))
      | yes lt ↦
          let (a, pa) = get_elem?-some axes t (omega (arith, s.rank)) in
          let (g, pg) = get_elem?-some grid t lt in
          let (x, px) = get_elem?-some c t (omega (arith, length-Within grid c wc)) in
          let (y, py) = get_elem?-some d t (omega (arith, length-Within grid d wd)) in
          let (e, pe) = get_elem?-some shape a (All-get_elem? _ axes t s.below pa) in
          let (i, pi) = get_elem?-some is a (
            omega (
              arith,
              All-get_elem? (λ b. b < length shape) axes t s.below pa,
              length-Within shape is w,
            )) in
          let u = range_contains_iff_right (floor_range e g x) i (hc t a g x e i pa pg px pe pi) in
          let v = range_contains_iff_right (floor_range e g y) i (hd t a g y e i pa pg py pe pi) in
          let pos : 0 < g = All-get_elem? _ grid t s.positive pg in
          let same : x ≡ y = floor_owner_unique e g pos i x y u.0 u.1 v.0 v.1 in
          px ∙ ap some same ∙ sym py
    ]

-- For a validated decomposition over a grid of positive extents, every index tuple of the global
-- shape lies in the local ranges of exactly one process of the grid: `local_ranges_for` succeeds
-- for that process and its ranges hold the tuple, and any process of the grid whose ranges hold
-- the tuple has the same coordinates.
pub local_ranges_cover :
    {shape grid axes : List ℕ} (is : List ℕ)
    → Shared shape grid axes
    → Within shape is
    → (coords : List ℕ) × Within grid coords
      × ((ranges : List Range) × (local_ranges_for shape grid coords axes ≡ ok ranges)
          × Owns ranges is)
      × ((other : List ℕ) (ranges : List Range)
          → Within grid other
          → local_ranges_for shape grid other axes ≡ ok ranges
          → Owns ranges is
          → other ≡ coords)
local_ranges_cover {shape} {grid} {axes} is s w =
    let (coords, inside, own) = owner_coords shape is grid axes w s.rank s.below s.positive in
    let (ranges, run, l) =
      local_ranges_for_lem shape grid coords axes (Layout_of_Shared coords s inside) in
    (
      coords,
      inside,
      (ranges, run, Owns-of_Holds is coords s w inside l own),
      λ other rs wo ro mine.
          let (rs', ro', lo) =
            local_ranges_for_lem shape grid other axes (Layout_of_Shared other s wo) in
          let same : rs ≡ rs' = cc in
          coords_unique is other coords s w wo inside (Holds-of_Owns is other lo (rw (← same) mine))
            own,
    )
