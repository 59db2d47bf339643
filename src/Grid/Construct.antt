-- ===== src/Grid/Construct.antt =====
-- `LocalGrid::from_pencil` accepts one coordinate axis for each spatial axis of a pencil.
use pencil_rs.Prelude.{
  ℕ, suc, ◌+◌, ◌≤◌, ◌≡◌, refl, sym, ap, ◌∙◌, inl, inr, List, [], ◌∷◌, some, arith, length,
  get_elem?, product, replicate, ok, ==-eq_refl, get_elem?-some, get_elem?-none, le→leb, list_ext,
  length-replicate, lt_of_get_elem?,
}
use native.Mathlib.Decide.{dec_lt}
use pencil_rs.Word.{usize_max}
use pencil_rs.Checked.{checked_product, checked_product_lem}
use pencil_rs.Axis.{AxisPermutation, store_positions}
use pencil_rs.Axis.Valid.{IsValid as IsAxisPermutation, axis-Occurs}
use pencil_rs.Axis.Positions.{store_positions_lem}
use pencil_rs.Geometry.{Range}
use pencil_rs.Geometry.Offset.{length-Within, get_elem?-Within}
use pencil_rs.Geometry.Partition.{floor_range}
use pencil_rs.Geometry.Cover.{occurs_or_not}
use pencil_rs.Pencil.{Pencil}
use pencil_rs.Pencil.Valid.{IsValid, LocalRanges-pencil, product-local_shape_memory}
use pencil_rs.Transpose.Slab.{floor_inside}
use pencil_rs.Grid.{from_pencil, local_axes}
use pencil_rs.Grid.Slices.{Complete, Covered, check_axis_lengths-ok}

Covered-of :
    (shape : List ℕ) (ranges : List Range)
    → length ranges ≡ length shape
    → ((a e : ℕ) (r : Range)
        → get_elem? shape a ≡ some e
        → get_elem? ranges a ≡ some r
        → (r.start ≤ r.end) × (r.end ≤ e))
    → Covered shape ranges
Covered-of [] [] len h = tt
Covered-of [] (r ∷ ranges) len h = absurd (omega arith)
Covered-of (e ∷ shape) [] len h = absurd (omega arith)
Covered-of (e ∷ shape) (r ∷ ranges) len h =
    let (low, high) = h 0 e r refl refl in
    (low, (high, Covered-of shape ranges (omega arith) (λ a. h (suc a))))

-- The table that the loop of `from_pencil` writes is that of the permutation.
table-eq :
    (n : ℕ) (p : AxisPermutation)
    → IsAxisPermutation n p
    → store_positions (replicate (length p.axes_in_memory_order) 0) 0 p.axes_in_memory_order
      ≡ some p.logical_to_memory
table-eq n p v =
    let size : length (replicate {A = ℕ} (length p.axes_in_memory_order) 0) ≡ n =
      length-replicate {A = ℕ} (length p.axes_in_memory_order) 0 ∙ v.perm.size in
    let (out, s) =
      store_positions_lem (replicate (length p.axes_in_memory_order) 0) 0 p.axes_in_memory_order
        (rw size v.perm.below) v.perm.distinct in
    s.writes
    ∙ ap some (
        list_ext out p.logical_to_memory λ a. elim (dec_lt a n) [
          | yes low ↦
              let (j, at) = axis-Occurs v a low in
              let from : 0 + j ≡ j = omega arith in
              s.position j a at ∙ ap some from ∙ sym (v.position j a at)
          | no high ↦
              get_elem?-none out a (omega (arith, s.same_length, size))
              ∙ sym (get_elem?-none p.logical_to_memory a (omega (arith, v.table_size)))
        ])

product-ok :
    (shape : List ℕ) (k : ℕ) → product shape ≡ k → k ≤ usize_max → checked_product shape ≡ ok k
product-ok shape k size fits = checked_product_lem shape ∙ rw (size, le→leb k usize_max fits) refl

module _ {n m : ℕ} (p : Pencil) (v : IsValid n m p) where
  -- The ranges of a process lie within the global extents.
  pub Covered-pencil : Covered p.global_shape p.local_ranges
  Covered-pencil = Covered-of p.global_shape p.local_ranges (LocalRanges-pencil v).rank inside
    where
      inside :
          (a e : ℕ) (r : Range)
          → get_elem? p.global_shape a ≡ some e
          → get_elem? p.local_ranges a ≡ some r
          → (r.start ≤ r.end) × (r.end ≤ e)
      inside a e r pe pr = elim (occurs_or_not a p.decomposition) [
        | inl (t, pt) ↦
            let grid = p.topology.process_grid in
            let coords = p.topology.local_coords in
            let rank = v.decomposition_rank ∙ sym v.grid_rank in
            let (g, pg) =
              get_elem?-some grid t (omega (arith, lt_of_get_elem? p.decomposition t pt, rank)) in
            let (c, pc) = get_elem?-some coords t (
              omega (arith, lt_of_get_elem? grid t pg, length-Within grid coords v.topology.own)) in
            let same : floor_range e g c ≡ r =
              cc ((LocalRanges-pencil v).distributed t a g c e pt pg pc pe, pr) in
            rw (← same)
              (floor_inside e g c (get_elem?-Within grid coords t g c v.topology.own pg pc))
        | inr free ↦
            let same : record { start = 0; end = e } ≡ r =
              cc ((LocalRanges-pencil v).whole a e free pe, pr) in
            rw (← same) (omega arith, omega arith)
      ]

  pub local_fits : p.local_len ≤ usize_max
  local_fits = omega (arith, v.local_bound, v.global_fits)

  -- The grid that is made of a pencil, and its slices.
  pub from_pencil-ok {ℓ} :
      {C : Type ℓ} (coordinates axes : List (List C))
      → Complete p.global_shape coordinates
      → local_axes p.local_ranges coordinates ≡ some axes
      → from_pencil p coordinates
        ≡ ok (record {
          axes = axes;
          logical_shape = p.local_shape_logical;
          memory_shape = p.local_shape_memory;
          logical_to_memory = p.permutation.logical_to_memory;
          len = p.local_len;
        })
  unfolding from_pencil
  from_pencil-ok coordinates axes complete cut =
      rw
        (
          check_axis_lengths-ok 0 p.global_shape coordinates complete,
          product-ok p.local_shape_logical p.local_len (sym v.local_count) local_fits,
          product-ok p.local_shape_memory p.local_len (product-local_shape_memory v) local_fits,
          ==-eq_refl p.local_len,
          cut,
          table-eq n p.permutation v.permutation,
        )
        refl
