-- ===== src/Pencil/Valid.antt =====
-- The invariant of a pencil, and the bound of a local shape by the global one.
use pencil_rs.Prelude.{
  ℕ, suc, ◌+◌, ◌<◌, ◌≤◌, ◌≡◌, refl, sym, ap, ◌∙◌, inl, inr, List, [], ◌∷◌, some, arith, length,
  get_elem?, All, product, ok, get_elem?-some, lt_of_get_elem?, length-map, All-imp,
}
use native.Mathlib.Nat.{mul-le-mul}
use pencil_rs.Word.{usize_max}
use pencil_rs.Axis.Valid.{IsValid as IsAxisPermutation}
use pencil_rs.Axis.Product.{product-gather}
use pencil_rs.Axis.{permute}
use pencil_rs.Decomposition.Valid.{IsDecomposition}
use pencil_rs.Geometry.{Range, range_len, local_ranges_for, shape_from_ranges}
use pencil_rs.Geometry.Offset.{length-Within, get_elem?-Within}
use pencil_rs.Geometry.Partition.{
  floor_range, floor_boundary, floor_boundary_mono, floor_boundary-last,
}
use pencil_rs.Geometry.Ranges.{Layout, LocalRanges, local_ranges_for_lem}
use pencil_rs.Geometry.Cover.{Shared, Layout_of_Shared, occurs_or_not}
use pencil_rs.Topology.{MpiTopology}
use pencil_rs.Topology.Valid.{IsValid as IsTopology}
use pencil_rs.Pencil.{Pencil}

-- What a constructed pencil satisfies.
pub record IsValid (n m : ℕ) (p : Pencil) : Type 0 where
  pub topology : IsTopology p.topology
  pub grid_rank : length p.topology.process_grid ≡ m
  pub rank : length p.global_shape ≡ n
  pub positive : All (λ e. 0 < e) p.global_shape
  pub shape_fits : All (λ e. e ≤ usize_max) p.global_shape
  pub global_count : p.global_len ≡ product p.global_shape
  pub global_fits : p.global_len ≤ usize_max
  pub decomposed : IsDecomposition n p.decomposition
  pub decomposition_rank : length p.decomposition ≡ m
  pub permutation : IsAxisPermutation n p.permutation
  pub ranges :
      local_ranges_for p.global_shape p.topology.process_grid p.topology.local_coords
        p.decomposition
      ≡ ok p.local_ranges
  pub logical : p.local_shape_logical ≡ shape_from_ranges p.local_ranges
  pub memory : permute p.permutation p.local_shape_logical ≡ some p.local_shape_memory
  pub local_count : p.local_len ≡ product p.local_shape_logical
  pub local_bound : p.local_len ≤ p.global_len

pub length-shape_from_ranges :
    (ranges : List Range) → length (shape_from_ranges ranges) ≡ length ranges
unfolding shape_from_ranges
length-shape_from_ranges ranges = length-map range_len ranges

product_of_ranges_le :
    (ranges : List Range) (shape : List ℕ)
    → length ranges ≡ length shape
    → ((a : ℕ) (r : Range) (e : ℕ)
        → get_elem? ranges a ≡ some r
        → get_elem? shape a ≡ some e
        → range_len r ≤ e)
    → product (shape_from_ranges ranges) ≤ product shape
unfolding shape_from_ranges
product_of_ranges_le [] [] len h = omega arith
product_of_ranges_le [] (e ∷ shape) len h = absurd (omega arith)
product_of_ranges_le (r ∷ ranges) [] len h = absurd (omega arith)
product_of_ranges_le (r ∷ ranges) (e ∷ shape) len h =
    mul-le-mul (h 0 r e refl refl)
      (product_of_ranges_le ranges shape (omega arith) (λ a. h (suc a)))

floor_range_le : (e g c : ℕ) → c < g → range_len (floor_range e g c) ≤ e
floor_range_le e g c h =
    let pos : 0 < g = omega arith in
    let top : floor_boundary e g (c + 1) ≤ floor_boundary e g g =
      floor_boundary_mono e g pos (c + 1) g (omega arith) in
    let last : floor_boundary e g g ≡ e = floor_boundary-last e g pos in omega arith

-- The local shape of a process holds no more elements than the global shape.
pub local_product_le :
    {shape grid coords axes : List ℕ} {ranges : List Range}
    → Layout shape grid coords axes
    → LocalRanges shape grid coords axes ranges
    → product (shape_from_ranges ranges) ≤ product shape
local_product_le {shape} {grid} {coords} {axes} {ranges} l r =
    product_of_ranges_le ranges shape r.rank extent
  where
    extent :
        (a : ℕ) (x : Range) (e : ℕ)
        → get_elem? ranges a ≡ some x
        → get_elem? shape a ≡ some e
        → range_len x ≤ e
    extent a x e px pe = elim (occurs_or_not a axes) [
      | inl (t, pt) ↦
          let (g, pg) = get_elem?-some grid t (omega (arith, lt_of_get_elem? axes t pt, l.rank)) in
          let (c, pc) =
            get_elem?-some coords t
              (omega (arith, lt_of_get_elem? grid t pg, length-Within grid coords l.inside)) in
          let same : floor_range e g c ≡ x = cc (r.distributed t a g c e pt pg pc pe) in
          rw (← same) (floor_range_le e g c (get_elem?-Within grid coords t g c l.inside pg pc))
      | inr differs ↦
          let same : record { start = 0; end = e } ≡ x = cc (r.whole a e differs pe) in
          rw (← same) (omega arith)
    ]

-- What a decomposition shares with the grid of a valid topology.
pub Shared-of :
    {n : ℕ} {t : MpiTopology} {shape axes : List ℕ}
    → IsTopology t
    → length axes ≡ length t.process_grid
    → length shape ≡ n
    → All (λ e. e ≤ usize_max) shape
    → IsDecomposition n axes
    → Shared shape t.process_grid axes
Shared-of {shape = shape} {axes = axes} v rank len fits d = record {
  rank = rank;
  below = rw len d.below;
  distinct = d.distinct;
  shape_fits = fits;
  grid_fits = All-imp (λ e h. omega arith) _ v.fits;
  positive = v.positive;
}

module _ {n m : ℕ} {p : Pencil} (v : IsValid n m p) where
  pub Shared-pencil : Shared p.global_shape p.topology.process_grid p.decomposition
  Shared-pencil =
      Shared-of v.topology (v.decomposition_rank ∙ sym v.grid_rank) v.rank v.shape_fits v.decomposed

  -- The ranges that the pencil stores are the floor ranges of its process.
  pub LocalRanges-pencil :
      LocalRanges p.global_shape p.topology.process_grid p.topology.local_coords p.decomposition
        p.local_ranges
  LocalRanges-pencil =
      let (rs, run, l) =
        local_ranges_for_lem p.global_shape p.topology.process_grid p.topology.local_coords
          p.decomposition (Layout_of_Shared p.topology.local_coords Shared-pencil v.topology.own) in
      let same : rs ≡ p.local_ranges = cc (v.ranges) in rw (← same) l

  pub length-local_ranges : length p.local_ranges ≡ n
  length-local_ranges = LocalRanges-pencil.rank ∙ v.rank

  pub length-local_shape_logical : length p.local_shape_logical ≡ n
  length-local_shape_logical =
      ap length v.logical ∙ length-shape_from_ranges p.local_ranges ∙ length-local_ranges

  pub product-local_shape_memory : product p.local_shape_memory ≡ p.local_len
  product-local_shape_memory =
      unfold permute in
      (product-gather p.local_shape_logical v.permutation.perm length-local_shape_logical v.memory
        ∙ sym v.local_count)
