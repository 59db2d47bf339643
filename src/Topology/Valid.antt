-- ===== src/Topology/Valid.antt =====
-- Which process grids and coordinates are accepted.
use pencil_rs.Prelude.{
  ℕ, suc, ◌+◌, ◌*◌, ◌<◌, ◌≤◌, ◌≡◌, refl, ap, ◌∙◌, ◌⊎◌, inl, inr, List, [], ◌∷◌, arith, leb, ◌==◌,
  length, get_elem?, All-get_elem?, All, product, some, Outcome, ok, err, le→leb, Bool-cases,
  leb→le, leb_false→lt, ==_iff,
}
use native.Mathlib.Nat.{le-mul_of_pos_right}
use pencil_rs.Word.{usize_max}
use pencil_rs.Error.{TopologyError, GeometryError}
use pencil_rs.Checked.{checked_product_lem}
use pencil_rs.Geometry.Offset.{Within, get_elem?-Within}
use pencil_rs.Topology.{
  MpiTopology, i32_max, check_extents, to_dims, validate_grid, to_mpi_coords, rank_at,
}

-- A topology that MPI created: positive extents that fit an i32, and the rank's own coordinates.
pub record IsValid (t : MpiTopology) : Type 0 where
  pub positive : All (λ e. 0 < e) t.process_grid
  pub fits : All (λ e. e ≤ i32_max) t.process_grid
  pub own : Within t.process_grid t.local_coords

-- A coordinate at position t that is not below its extent.
record Outside (axis : ℕ) (coords grid : List ℕ) (r : Outcome TopologyError (List ℕ)) : Type 0 where
  t : ℕ
  coordinate : ℕ
  extent : ℕ
  coordinate_at : get_elem? coords t ≡ some coordinate
  extent_at : get_elem? grid t ≡ some extent
  beyond : extent ≤ coordinate
  reported : r ≡ err (TopologyError.coordinate_out_of_bounds (axis + t) coordinate extent)

to_mpi_coords_lem :
    (axis : ℕ) (coords grid : List ℕ)
    → length coords ≡ length grid
    → All (λ e. e ≤ i32_max) grid
    → Within grid coords × (to_mpi_coords axis coords grid ≡ ok coords)
      ⊎ Outside axis coords grid (to_mpi_coords axis coords grid)
unfolding to_mpi_coords
to_mpi_coords_lem axis [] [] len f = inl (tt, refl)
to_mpi_coords_lem axis [] (e ∷ grid) len f = absurd (omega arith)
to_mpi_coords_lem axis (c ∷ coords) [] len f = absurd (omega arith)
to_mpi_coords_lem axis (c ∷ coords) (e ∷ grid) len f = elim (Bool-cases (leb e c)) [
  | inl out ↦ rw out (
      inr (record {
        t = 0;
        coordinate = c;
        extent = e;
        coordinate_at = refl;
        extent_at = refl;
        beyond = leb→le e c out;
        reported = ap (λ k. err (TopologyError.coordinate_out_of_bounds k c e)) (omega arith);
      }))
  | inr within ↦
      let lt : c < e = leb_false→lt e c within in
      rw (within, le→leb c i32_max (omega (arith, f.0)))
        (elim (to_mpi_coords_lem (axis + 1) coords grid (omega arith) f.1) [
          | inl (w, p) ↦ inl ((lt, w), rw p)
          | inr o ↦ inr (record {
            t = suc o.t;
            coordinate = o.coordinate;
            extent = o.extent;
            coordinate_at = o.coordinate_at;
            extent_at = o.extent_at;
            beyond = o.beyond;
            reported = rw o.reported (
                ap (λ k. err (TopologyError.coordinate_out_of_bounds k o.coordinate o.extent))
                  (omega arith));
          })
        ])
]

-- The two outcomes of `rank_at`.
abbrev pub RankResult : MpiTopology → List ℕ → Outcome TopologyError ℕ → Type 0
RankResult t coords r =
    Within t.process_grid coords × (r ≡ ok (t.coordinates_to_rank coords))
    ⊎ ((axis coordinate extent : ℕ) × (get_elem? coords axis ≡ some coordinate)
        × (get_elem? t.process_grid axis ≡ some extent)
        × (extent ≤ coordinate)
        × (r ≡ err (TopologyError.coordinate_out_of_bounds axis coordinate extent)))

-- On a valid topology and coordinates of its rank, `rank_at` returns the rank that MPI gives the
-- coordinates when each is below its extent, unchanged by the conversion to i32; else it reports
-- an axis whose coordinate is not below its extent. It has no other outcome.
pub rank_at_lem :
    (t : MpiTopology) (coords : List ℕ)
    → IsValid t
    → length coords ≡ length t.process_grid
    → RankResult t coords (rank_at t coords)
unfolding rank_at
rank_at_lem t coords v len = elim (to_mpi_coords_lem 0 coords t.process_grid len v.fits) [
  | inl (w, p) ↦ inl (w, rw p)
  | inr o ↦ inr (
    o.t,
    o.coordinate,
    o.extent,
    o.coordinate_at,
    o.extent_at,
    o.beyond,
    rw o.reported (
        ap (λ k. err (TopologyError.coordinate_out_of_bounds k o.coordinate o.extent))
          (omega arith)),
  )
]

pub rank_at-ok :
    (t : MpiTopology) (coords : List ℕ)
    → IsValid t
    → length coords ≡ length t.process_grid
    → Within t.process_grid coords
    → rank_at t coords ≡ ok (t.coordinates_to_rank coords)
rank_at-ok t coords v len w = elim (rank_at_lem t coords v len) [
  | inl (_, p) ↦ p
  | inr (axis, c, e, pc, pe, beyond, _) ↦
      let lt : c < e = get_elem?-Within t.process_grid coords axis e c w pe pc in
      absurd (omega arith)
]

-- The first extent that is zero.
check_extents_lem :
    (axis : ℕ) (grid : List ℕ)
    → All (λ e. 0 < e) grid × (check_extents axis grid ≡ ok tt)
      ⊎ ((t : ℕ) × (get_elem? grid t ≡ some 0)
          × (check_extents axis grid ≡ err (TopologyError.zero_extent (axis + t))))
unfolding check_extents
check_extents_lem axis [] = inl (tt, refl)
check_extents_lem axis (e ∷ grid) = elim (Bool-cases (e == 0)) [
  | inl z ↦
      let zero : e ≡ 0 = (==_iff e 0).0 z in
      rw z (inr (0, ap some zero, ap (λ k. err (TopologyError.zero_extent k)) (omega arith)))
  | inr nz ↦ rw nz (elim (check_extents_lem (axis + 1) grid) [
    | inl (h, p) ↦ inl ((ground arith, h), p)
    | inr (t, q, p) ↦ inr (suc t, q, p ∙ ap (λ k. err (TopologyError.zero_extent k)) (omega arith))
  ])
]

to_dims-ok : (grid : List ℕ) → All (λ e. e ≤ i32_max) grid → to_dims grid ≡ ok grid
unfolding to_dims
to_dims-ok [] h = refl
to_dims-ok (e ∷ grid) h = rw (le→leb e i32_max h.0, to_dims-ok grid h.1)

-- Positive factors are at most their product.
factors_le :
    (grid : List ℕ) (bound : ℕ)
    → All (λ e. 0 < e) grid
    → product grid ≤ bound
    → All (λ e. e ≤ bound) grid × (0 < product grid)
factors_le [] bound h le = (tt, omega arith)
factors_le (e ∷ grid) bound h le =
    let pos : 0 < product grid = (factors_le grid (product grid) h.1 (omega arith)).1 in
    let one : e ≤ e * product grid = le-mul_of_pos_right e pos in
    let two : product grid ≤ product grid * e = le-mul_of_pos_right (product grid) h.0 in
    let rest = factors_le grid bound h.1 (omega arith) in
    ((omega arith, rest.0), omega (arith, h.0))

-- For a communicator size that fits an i32, `validate_grid` accepts a grid exactly when its extents
-- are positive and their product is the size, and then the grid is passed to MPI unchanged. It
-- never panics.
pub validate_grid_lem :
    (size : ℕ) (grid : List ℕ)
    → size ≤ i32_max
    → All (λ e. 0 < e) grid × (product grid ≡ size) × (validate_grid size grid ≡ ok grid)
      ⊎ (¬ (All (λ e. 0 < e) grid × (product grid ≡ size)))
        × ((e : TopologyError) × (validate_grid size grid ≡ err e))
unfolding validate_grid
validate_grid_lem size grid small = elim (check_extents_lem 0 grid) [
  | inr (t, z, p) ↦ inr (
    λ h. let bad : 0 < 0 = All-get_elem? (λ e. 0 < e) grid t h.0 z in omega arith,
    (TopologyError.zero_extent (0 + t), rw p),
  )
  | inl (pos, p) ↦ elim (Bool-cases (leb (product grid) usize_max)) [
    | inr over ↦ inr (
      λ h. let big = leb_false→lt (product grid) usize_max over in omega (arith, h.1),
      (TopologyError.geometry GeometryError.size_overflow, rw (p, checked_product_lem grid, over)),
    )
    | inl fits ↦ elim (Bool-cases (product grid == size)) [
      | inr differ ↦ inr (
        λ h. cc (differ, (==_iff (product grid) size).1 h.1),
        (
          TopologyError.communicator_size_mismatch (product grid) size,
          rw (p, checked_product_lem grid, fits, differ),
        ),
      )
      | inl same ↦
          let equal : product grid ≡ size = (==_iff (product grid) size).0 same in
          inl (
            pos,
            equal,
            rw (
              p,
              checked_product_lem grid,
              fits,
              same,
              to_dims-ok grid (factors_le grid i32_max pos (omega arith)).0,
            ),
          )
    ]
  ]
]
