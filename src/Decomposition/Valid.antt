-- ===== src/Decomposition/Valid.antt =====
-- Which decompositions are accepted, and where their values go.
use pencil_rs.Prelude.{
  ℕ, zero, suc, ◌<◌, ◌≤◌, ◌≡◌, ◌≢◌, refl, sym, ◌∙◌, ◌⊎◌, inl, inr, List, [], ◌∷◌, true, false, ◌||◌,
  some, arith, ltb, ◌==◌, length, get_elem?, set, replicate, All, Distinct, put_at-some, Outcome,
  ok, err, lt→ltb, get_elem?-set_self, get_elem?-set_ne, length-set, get_elem?-replicate,
  length-replicate, Bool-cases,
}
use pencil_rs.Error.{AxisError}
use pencil_rs.Axis.{spatial_axis_new}
use pencil_rs.Axis.Validate.{FirstFault, FirstFault-bad, check_axes-fresh}
use pencil_rs.Decomposition.{
  Decomposition, new, wrap_axes, fill_axes, complete_process_grid, complete_process_coords,
}

-- Between one and N distinct axes below N.
pub record IsDecomposition (n : ℕ) (axes : List ℕ) : Type 0 where
  pub some_axes : 0 < length axes
  pub rank : length axes ≤ n
  pub below : All (λ a. a < n) axes
  pub distinct : Distinct axes

wrap_axes-eq : (n : ℕ) (axes : List ℕ) → All (λ a. a < n) axes → wrap_axes n axes ≡ ok axes
unfolding wrap_axes spatial_axis_new
wrap_axes-eq n [] h = refl
wrap_axes-eq n (a ∷ axes) h = rw (lt→ltb a n h.0, wrap_axes-eq n axes h.1)

pub rank_test : (n m : ℕ) → 0 < m → m ≤ n → (m == 0 || ltb n m) ≡ false
rank_test n m p q = ground arith

pub rank_test_fails : (n m : ℕ) → ((m ≡ 0) ⊎ (n < m)) → (m == 0 || ltb n m) ≡ true
rank_test_fails n m p = ground arith

-- The three outcomes of `new`.
abbrev pub NewResult : ℕ → List ℕ → Outcome AxisError Decomposition → Type 0
NewResult n axes r =
    (IsDecomposition n axes × (r ≡ ok (record { axes = axes })))
    ⊎ ((length axes ≡ 0) ⊎ (n < length axes))
      × (r ≡ err (AxisError.invalid_decomposition_rank n (length axes)))
    ⊎ ((e : AxisError) × (r ≡ err e) × FirstFault n axes e)

-- `Decomposition::new` never panics. It accepts exactly the arrays of one to N distinct axes below
-- N and keeps their order; it reports a wrong rank first, and else the first axis that is out of
-- range or occurs a second time.
pub decomposition_new_lem : (n : ℕ) (axes : List ℕ) → NewResult n axes (new n (length axes) axes)
unfolding new
decomposition_new_lem n axes = elim (Bool-cases (length axes == 0 || ltb n (length axes))) [
  | inl bad ↦ rw bad (inr (inl (wrong_rank bad, refl)))
  | inr fine ↦ rw fine (elim (check_axes-fresh n axes) [
    | inl (p, below, d) ↦
        let rank = right_rank fine in
        inl (
          record { some_axes = rank.0; rank = rank.1; below = below; distinct = d },
          rw (p, wrap_axes-eq n axes below),
        )
    | inr (e, p, f) ↦ inr (inr (e, rw p, f))
  ])
]
  where
    wrong_rank :
        (length axes == 0 || ltb n (length axes)) ≡ true → (length axes ≡ 0) ⊎ (n < length axes)
    wrong_rank h = ground arith

    right_rank :
        (length axes == 0 || ltb n (length axes)) ≡ false → (0 < length axes) × (length axes ≤ n)
    right_rank h = ground arith

pub new-ok :
    (n m : ℕ) (axes : List ℕ)
    → length axes ≡ m
    → IsDecomposition n axes
    → new n m axes ≡ ok (record { axes = axes })
new-ok n m axes len d = rw (← len) (elim (decomposition_new_lem n axes) [
  | inl (_, p) ↦ p
  | inr (inl (inl z, _)) ↦ absurd (omega (arith, d.some_axes))
  | inr (inl (inr big, _)) ↦ absurd (omega (arith, d.rank))
  | inr (inr (e, _, f)) ↦ absurd (FirstFault-bad f d.below d.distinct)
])

-- A completed array: the given value at each listed axis, the default elsewhere.
pub record Completed (start axes values out : List ℕ) : Type 0 where
  pub size : length out ≡ length start
  pub distributed :
      (t a v : ℕ)
      → get_elem? axes t ≡ some a
      → get_elem? values t ≡ some v
      → get_elem? out a ≡ some v
  pub others : (a : ℕ) → All (λ y. a ≢ y) axes → get_elem? out a ≡ get_elem? start a

fill_axes_lem :
    (start axes values : List ℕ)
    → length axes ≡ length values
    → All (λ a. a < length start) axes
    → Distinct axes
    → (out : List ℕ) × (fill_axes start axes values ≡ some out) × Completed start axes values out
unfolding fill_axes
fill_axes_lem start [] values rank below d = (
  start,
  refl,
  record { size = refl; distributed = λ t a v e. absurd (cc); others = λ a h. refl },
)
fill_axes_lem start (a ∷ axes) [] rank below d = absurd (omega arith)
fill_axes_lem start (a ∷ axes) (v ∷ values) rank below d =
    let len : length (set start a v) ≡ length start = length-set start a v in
    let (out, run, c) =
      fill_axes_lem (set start a v) axes values (omega arith) (rw len below.1) d.1 in
    (
      out,
      rw (put_at-some start a v below.0) run,
      record {
        size = c.size ∙ len;
        distributed = λ t b w p q. at c t b w p q;
        others = λ b h. c.others b h.1 ∙ get_elem?-set_ne start a b v (λ p. h.0 (sym p));
      },
    )
  where
    at :
        {out : List ℕ}
        → Completed (set start a v) axes values out
        → (t b w : ℕ) → get_elem? (a ∷ axes) t ≡ some b
        → get_elem? (v ∷ values) t ≡ some w
        → get_elem? out b ≡ some w
    at {out} c zero b w p q =
        let head : get_elem? out a ≡ some v =
          c.others a d.0 ∙ get_elem?-set_self start a v below.0 in
        cc
    at c (suc t) b w p q = c.distributed t b w p q

-- For a decomposition and a process grid of its rank, `complete_process_grid` gives N extents: the
-- grid's on the axis that it distributes, one on every other axis below N.
pub complete_process_grid_lem :
    (n : ℕ) (d : Decomposition) (grid : List ℕ)
    → IsDecomposition n d.axes
    → length d.axes ≡ length grid
    → (out : List ℕ) × (complete_process_grid n d grid ≡ some out)
      × (length out ≡ n)
      × ((t a g : ℕ)
          → get_elem? d.axes t ≡ some a
          → get_elem? grid t ≡ some g
          → get_elem? out a ≡ some g)
      × ((a : ℕ) → a < n → All (λ y. a ≢ y) d.axes → get_elem? out a ≡ some 1)
unfolding complete_process_grid
complete_process_grid_lem n d grid v rank =
    let size : length (replicate {A = ℕ} n 1) ≡ n = length-replicate n 1 in
    let (out, run, c) =
      fill_axes_lem (replicate n 1) d.axes grid rank (rw size v.below) v.distinct in
    (out, run, c.size ∙ size, c.distributed, λ a lt h. c.others a h ∙ get_elem?-replicate n 1 a lt)

-- For a decomposition and process coordinates of its rank, `complete_process_coords` gives N
-- coordinates: the given one on each axis that is distributed, zero on every other axis below N.
pub complete_process_coords_lem :
    (n : ℕ) (d : Decomposition) (coords : List ℕ)
    → IsDecomposition n d.axes
    → length d.axes ≡ length coords
    → (out : List ℕ) × (complete_process_coords n d coords ≡ some out)
      × (length out ≡ n)
      × ((t a c : ℕ)
          → get_elem? d.axes t ≡ some a
          → get_elem? coords t ≡ some c
          → get_elem? out a ≡ some c)
      × ((a : ℕ) → a < n → All (λ y. a ≢ y) d.axes → get_elem? out a ≡ some 0)
unfolding complete_process_coords
complete_process_coords_lem n d coords v rank =
    let size : length (replicate {A = ℕ} n 0) ≡ n = length-replicate n 0 in
    let (out, run, c) =
      fill_axes_lem (replicate n 0) d.axes coords rank (rw size v.below) v.distinct in
    (out, run, c.size ∙ size, c.distributed, λ a lt h. c.others a h ∙ get_elem?-replicate n 0 a lt)
