-- ===== src/Pencil/Construct.antt =====
-- Which arguments `Pencil::new_permuted` accepts, and what it builds from them.
use pencil_rs.Prelude.{
  ℕ, suc, ◌+◌, ◌<◌, ◌≤◌, ◌≡◌, refl, sym, ap, ◌∙◌, ◌⊎◌, inl, inr, List, [], ◌∷◌, true, false, ◌||◌,
  some, arith, leb, ltb, ◌==◌, length, get_elem?, All, product, Outcome, ok, err, Bool-cases,
  leb→le, leb_false→lt, le→leb, ==_iff, All-get_elem?,
}
use pencil_rs.Word.{usize_max}
use pencil_rs.Error.{PencilError, AxisError}
use pencil_rs.Checked.{checked_product_lem}
use pencil_rs.Axis.{AxisPermutation}
use pencil_rs.Axis.Valid.{IsValid as IsAxisPermutation}
use pencil_rs.Axis.Validate.{FirstFault-bad}
use pencil_rs.Axis.RoundTrip.{unpermute-permute}
use pencil_rs.Decomposition
use pencil_rs.Decomposition.Valid.{
  IsDecomposition, new-ok, decomposition_new_lem, rank_test, rank_test_fails,
}
use pencil_rs.Geometry.{shape_from_ranges}
use pencil_rs.Geometry.Offset.{length-Within}
use pencil_rs.Geometry.Ranges.{local_ranges_for_lem}
use pencil_rs.Geometry.Cover.{Layout_of_Shared}
use pencil_rs.Topology.{MpiTopology}
use pencil_rs.Topology.Valid.{IsValid as IsTopology, rank_at-ok}
use pencil_rs.Pencil.{Pencil, new_permuted, check_global_shape}
use pencil_rs.Pencil.Valid.{IsValid, local_product_le, length-shape_from_ranges, Shared-of}

-- The arguments that the types of the source admit: arrays of the right lengths over usize, a
-- permutation that was validated, and a topology that MPI created.
pub record Arguments (n m : ℕ) (t : MpiTopology) (shape decomposition : List ℕ)
    (permutation : AxisPermutation) : Type 0 where
  pub topology : IsTopology t
  pub grid_rank : length t.process_grid ≡ m
  pub rank : length shape ≡ n
  pub shape_fits : All (λ e. e ≤ usize_max) shape
  pub decomposition_rank : length decomposition ≡ m
  pub permuted : IsAxisPermutation n permutation

-- Positive extents whose product fits usize, and one to N distinct axes below N.
pub record IsAccepted (n : ℕ) (shape decomposition : List ℕ) : Type 0 where
  pub positive : All (λ e. 0 < e) shape
  pub fits : product shape ≤ usize_max
  pub decomposed : IsDecomposition n decomposition

check_global_shape_lem :
    (axis : ℕ) (shape : List ℕ)
    → All (λ e. 0 < e) shape × (check_global_shape axis shape ≡ ok tt)
      ⊎ ((t : ℕ) × (get_elem? shape t ≡ some 0)
          × (check_global_shape axis shape ≡ err (PencilError.zero_global_extent (axis + t))))
unfolding check_global_shape
check_global_shape_lem axis [] = inl (tt, refl)
check_global_shape_lem axis (e ∷ shape) = elim (Bool-cases (e == 0)) [
  | inl z ↦
      let zero : e ≡ 0 = (==_iff e 0).0 z in
      rw z (inr (0, ap some zero, ap (λ k. err (PencilError.zero_global_extent k)) (omega arith)))
  | inr nz ↦ rw nz (elim (check_global_shape_lem (axis + 1) shape) [
    | inl (h, p) ↦ inl ((ground arith, h), p)
    | inr (t, q, p) ↦
        inr (suc t, q, p ∙ ap (λ k. err (PencilError.zero_global_extent k)) (omega arith))
  ])
]

check_global_shape-ok :
    (axis : ℕ) (shape : List ℕ) → All (λ e. 0 < e) shape → check_global_shape axis shape ≡ ok tt
check_global_shape-ok axis shape h = elim (check_global_shape_lem axis shape) [
  | inl (_, p) ↦ p
  | inr (k, z, _) ↦ let bad : 0 < 0 = All-get_elem? (λ e. 0 < e) shape k h z in absurd (omega arith)
]

wrong_rank : (n m : ℕ) → (m == 0 || ltb n m) ≡ true → (m ≡ 0) ⊎ (n < m)
wrong_rank n m h = ground arith

right_rank : (n m : ℕ) → (m == 0 || ltb n m) ≡ false → (0 < m) × (m ≤ n)
right_rank n m h = ground arith

-- The two outcomes of construction.
abbrev pub NewResult :
    (n m : ℕ)
    → MpiTopology
    → List ℕ
    → List ℕ
    → AxisPermutation
    → Outcome PencilError Pencil
    → Type 0
NewResult n m t shape decomposition permutation r =
    IsAccepted n shape decomposition
      × ((p : Pencil) × (r ≡ ok p)
          × IsValid n m p
          × (p.topology ≡ t)
          × (p.global_shape ≡ shape)
          × (p.decomposition ≡ decomposition)
          × (p.permutation ≡ permutation))
    ⊎ (¬ IsAccepted n shape decomposition) × ((e : PencilError) × (r ≡ err e))

module _ {n m : ℕ} {t : MpiTopology} {shape decomposition : List ℕ} {permutation : AxisPermutation}
    (a : Arguments n m t shape decomposition permutation) where
  -- The accepted case, when every check has passed.
  build :
      IsAccepted n shape decomposition
      → (p : Pencil) × (new_permuted n m t shape decomposition permutation ≡ ok p)
        × IsValid n m p
        × (p.topology ≡ t)
        × (p.global_shape ≡ shape)
        × (p.decomposition ≡ decomposition)
        × (p.permutation ≡ permutation)
  unfolding new_permuted
  build h =
      let dec = new-ok n m decomposition a.decomposition_rank h.decomposed in
      let shared =
        Shared-of a.topology (a.decomposition_rank ∙ sym a.grid_rank) a.rank a.shape_fits
          h.decomposed in
      let layout = Layout_of_Shared t.local_coords shared a.topology.own in
      let (ranges, run, l) =
        local_ranges_for_lem shape t.process_grid t.local_coords decomposition layout in
      let len : length (shape_from_ranges ranges) ≡ n =
        length-shape_from_ranges ranges ∙ l.rank ∙ a.rank in
      let (mem, reads, mem_len, _) = unpermute-permute a.permuted (shape_from_ranges ranges) len in
      let le : product (shape_from_ranges ranges) ≤ product shape = local_product_le layout l in
      let check : check_global_shape 0 shape ≡ ok tt = check_global_shape-ok 0 shape h.positive in
      (
        record {
          topology = t;
          global_shape = shape;
          decomposition = decomposition;
          permutation = permutation;
          local_ranges = ranges;
          local_shape_logical = shape_from_ranges ranges;
          local_shape_memory = mem;
          local_len = product (shape_from_ranges ranges);
          global_len = product shape;
        },
        rw (
          rank_test n m (omega (arith, h.decomposed.some_axes, a.decomposition_rank))
              (omega (arith, h.decomposed.rank, a.decomposition_rank)),
          check,
          checked_product_lem shape,
          le→leb (product shape) usize_max h.fits,
          dec,
          rank_at-ok t t.local_coords a.topology
              (sym (length-Within t.process_grid t.local_coords a.topology.own)) a.topology.own,
          run,
          reads,
          checked_product_lem (shape_from_ranges ranges),
          le→leb (product (shape_from_ranges ranges)) usize_max (omega (arith, h.fits)),
        ),
        record {
          topology = a.topology;
          grid_rank = a.grid_rank;
          rank = a.rank;
          positive = h.positive;
          shape_fits = a.shape_fits;
          global_count = refl;
          global_fits = h.fits;
          decomposed = h.decomposed;
          decomposition_rank = a.decomposition_rank;
          permutation = a.permuted;
          ranges = run;
          logical = refl;
          memory = reads;
          local_count = refl;
          local_bound = le;
        },
        refl,
        refl,
        refl,
        refl,
      )

  refuse_rank :
      (m ≡ 0) ⊎ (n < m)
      → (¬ IsAccepted n shape decomposition)
        × ((e : PencilError) × (new_permuted n m t shape decomposition permutation ≡ err e))
  unfolding new_permuted
  refuse_rank bad = (
    λ h. let d = h.decomposed in omega (arith, d.some_axes, d.rank, a.decomposition_rank),
    (PencilError.invalid_dimension_relation n m, rw (rank_test_fails n m bad)),
  )

  refuse_decomposition :
      0 < m
      → m ≤ n
      → All (λ e. 0 < e) shape
      → product shape ≤ usize_max
      → (e : AxisError) → Decomposition.new n m decomposition ≡ err e
      → new_permuted n m t shape decomposition permutation
        ≡ err (PencilError.invalid_decomposition e)
  unfolding new_permuted
  refuse_decomposition least low pos fits e p = rw (
    rank_test n m least low,
    check_global_shape-ok 0 shape pos,
    checked_product_lem shape,
    le→leb (product shape) usize_max fits,
    p,
  )

  -- For arguments of the source's types, `Pencil::new_permuted` never panics. It accepts exactly
  -- positive extents whose product fits usize with one to N distinct axes below N, and then returns
  -- a pencil that satisfies the invariant and keeps the topology, shape, decomposition and
  -- permutation it was given; in every other case it returns an error.
  pub new_permuted_lem :
      NewResult n m t shape decomposition permutation
        (new_permuted n m t shape decomposition permutation)
  unfolding new_permuted
  new_permuted_lem = elim (Bool-cases (m == 0 || ltb n m)) [
    | inl bad ↦ inr (refuse_rank (wrong_rank n m bad))
    | inr fine ↦ elim (check_global_shape_lem 0 shape) [
      | inr (k, z, p) ↦ inr (
        λ h. let bad : 0 < 0 = All-get_elem? (λ e. 0 < e) shape k h.positive z in omega arith,
        (PencilError.zero_global_extent (0 + k), rw (fine, p)),
      )
      | inl (pos, p) ↦ elim (Bool-cases (leb (product shape) usize_max)) [
        | inr over ↦ inr (
          λ h. let big = leb_false→lt (product shape) usize_max over in omega (arith, h.fits),
          (PencilError.size_overflow, rw (fine, p, checked_product_lem shape, over)),
        )
        | inl fits ↦ decide pos (leb→le (product shape) usize_max fits) (right_rank n m fine)
      ]
    ]
  ]
    where
      decide :
          All (λ e. 0 < e) shape
          → product shape ≤ usize_max
          → (0 < m) × (m ≤ n)
          → NewResult n m t shape decomposition permutation
              (new_permuted n m t shape decomposition permutation)
      decide pos fits rank = elim (decomposition_new_lem n decomposition) [
        | inl (d, _) ↦
            let h : IsAccepted n shape decomposition = record {
              positive = pos;
              fits = fits;
              decomposed = d;
            } in
            inl (h, build h)
        | inr (inl (inl z, _)) ↦ absurd (omega (arith, a.decomposition_rank, rank.0))
        | inr (inl (inr big, _)) ↦ absurd (omega (arith, a.decomposition_rank, rank.1))
        | inr (inr (e, p, f)) ↦ inr (
          λ h. FirstFault-bad f h.decomposed.below h.decomposed.distinct,
          (
            PencilError.invalid_decomposition e,
            refuse_decomposition rank.0 rank.1 pos fits e (rw (← a.decomposition_rank) p),
          ),
        )
      ]
