-- ===== src/Axis/Valid.antt =====
-- The invariant of `AxisPermutation`, and which inputs `new` accepts.
use pencil_rs.Prelude.{
  ℕ, ◌<◌, ◌≤◌, ◌≡◌, refl, ap, ◌∙◌, ◌⊎◌, inl, inr, List, some, arith, length, get_elem?, replicate,
  All, Distinct, count_from, Outcome, ok, err, lt_of_get_elem?, get_elem?-count_from,
  length-count_from, length-replicate, count_from_inverse, Distinct-of_get_elem?, All-of_get_elem?,
  get_elem?-none,
}
use pencil_rs.Error.{AxisError}
use pencil_rs.Axis.{AxisPermutation, new, identity, inverse_position}
use pencil_rs.Axis.Validate.{FirstFault, check_axes-fresh, Occurs}
use pencil_rs.Axis.Positions.{Occurs-of_Distinct, store_positions_lem}

-- The axes are 0, …, n - 1 in some order.
pub record IsPermutation (n : ℕ) (axes : List ℕ) : Type 0 where
  pub size : length axes ≡ n
  pub below : All (λ a. a < n) axes
  pub distinct : Distinct axes

-- The representation invariant: the axes are a permutation and the table is its inverse.
pub record IsValid (n : ℕ) (p : AxisPermutation) : Type 0 where
  pub perm : IsPermutation n p.axes_in_memory_order
  pub table_size : length p.logical_to_memory ≡ n
  pub position :
      (j a : ℕ)
      → get_elem? p.axes_in_memory_order j ≡ some a
      → get_elem? p.logical_to_memory a ≡ some j

-- The two outcomes of `new`.
abbrev pub NewResult : ℕ → List ℕ → Outcome AxisError AxisPermutation → Type 0
NewResult n axes r =
    IsPermutation n axes
      × ((p : AxisPermutation) × (r ≡ ok p) × (p.axes_in_memory_order ≡ axes) × IsValid n p)
    ⊎ ((e : AxisError) × (r ≡ err e) × FirstFault n axes e)

-- `AxisPermutation::new` never panics. It accepts exactly the permutations of 0, …, n - 1, and
-- then returns those axes with their inverse table; on any other array of n numbers it returns
-- the error of the first axis that is out of range or occurs a second time.
pub axis_permutation_new_lem :
    (n : ℕ) (axes : List ℕ) → length axes ≡ n → NewResult n axes (new n axes)
unfolding new
axis_permutation_new_lem n axes len = elim (check_axes-fresh n axes) [
  | inr (e, p, f) ↦ inr (e, rw p, f)
  | inl (p, below, d) ↦
      let (out, s) =
        store_positions_lem (replicate n 0) 0 axes (rw (length-replicate {A = ℕ} n 0) below) d in
      inl (
        record { size = len; below = below; distinct = d },
        (
          record { axes_in_memory_order = axes; logical_to_memory = out },
          rw (p, s.writes),
          refl,
          record {
            perm = record { size = len; below = below; distinct = d };
            table_size = s.same_length ∙ length-replicate {A = ℕ} n 0;
            position = λ j a e. s.position j a e ∙ ap some (omega arith);
          },
        ),
      )
]

-- `identity` satisfies the invariant.
pub identity-IsValid : (n : ℕ) → IsValid n (identity n)
unfolding identity
identity-IsValid n = record {
  perm = record {
    size = length-count_from 0 n;
    below =
        All-of_get_elem? _ (count_from 0 n) (λ k a e. omega (arith, count_from_inverse 0 n k e));
    distinct =
        Distinct-of_get_elem? (count_from 0 n)
          λ i j a e f. omega (arith, count_from_inverse 0 n i e, count_from_inverse 0 n j f);
  };
  table_size = length-count_from 0 n;
  position = λ j a e. at j a e;
}
  where
    at : (j a : ℕ) → get_elem? (count_from 0 n) j ≡ some a → get_elem? (count_from 0 n) a ≡ some j
    at j a e =
        let (lt, eq) = count_from_inverse 0 n j e in
        get_elem?-count_from 0 n a (omega arith) ∙ ap some (omega arith)

module _ {n : ℕ} {p : AxisPermutation} (v : IsValid n p) where
  -- Every axis stands at some memory position.
  pub axis-Occurs : (a : ℕ) → a < n → Occurs a p.axes_in_memory_order
  axis-Occurs a h =
      Occurs-of_Distinct n p.axes_in_memory_order a v.perm.size v.perm.below v.perm.distinct h

  -- The table is the inverse in the other direction too.
  pub position_inverse :
      (a j : ℕ)
      → get_elem? p.logical_to_memory a ≡ some j
      → get_elem? p.axes_in_memory_order j ≡ some a
  position_inverse a j e =
      let (k, q) =
        axis-Occurs a (omega (arith, lt_of_get_elem? p.logical_to_memory a e, v.table_size)) in
      cc (v.position k a q, e, q)

  pub table_below : All (λ j. j < n) p.logical_to_memory
  table_below = All-of_get_elem? _ p.logical_to_memory λ a j e.
      omega (arith, lt_of_get_elem? p.axes_in_memory_order j (position_inverse a j e), v.perm.size)

  -- Under a valid permutation of n axes: `inverse_position` of an axis below n is the place of the axis
  -- in memory order, and an axis that was validated for more dimensions is refused.
  pub inverse_position_lem :
      (axis : ℕ)
      → (axis < n)
          × ((k : ℕ) × (inverse_position n p axis ≡ ok k)
              × (get_elem? p.axes_in_memory_order k ≡ some axis))
        ⊎ (n ≤ axis) × (inverse_position n p axis ≡ err (AxisError.out_of_bounds axis n))
  unfolding inverse_position
  inverse_position_lem axis = elim (native.Mathlib.Decide.dec_lt axis n) [
    | yes h ↦ let (k, q) = axis-Occurs axis h in inl (h, (k, rw (v.position k axis q), q))
    | no h ↦
        inr
          (omega arith, rw (get_elem?-none p.logical_to_memory axis (omega (arith, v.table_size))))
  ]
