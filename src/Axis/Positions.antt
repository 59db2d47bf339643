-- ===== src/Axis/Positions.antt =====
-- A list of n distinct numbers below n holds each of them; and the inverse table that
-- `AxisPermutation::new` writes.
use pencil_rs.Prelude.{
  ℕ, zero, suc, ◌+◌, ◌<◌, ◌≤◌, ◌≡◌, ◌≢◌, refl, ap, sym, ◌∙◌, ◌⊎◌, inl, inr, List, [], ◌∷◌, Bool,
  true, false, some, arith, length, get_elem?, set, replicate, All, Distinct, put_at-some,
  get_elem?-set_ne, get_elem?-set_self, length-set, length-replicate, get_elem?-replicate,
}
use native.Mathlib.Decide.{ℕ_discrete}
use pencil_rs.Axis.{store_positions}
use pencil_rs.Axis.Validate.{Occurs, Free, Free-replicate, set-Free}

-- The bitmap after all axes are marked.
unfoldable pub mark : List Bool → List ℕ → List Bool
mark seen [] = seen
mark seen (a ∷ axes) = mark (set seen a true) axes

unfoldable pub marks : List Bool → ℕ
marks [] = 0
marks (true ∷ bs) = suc (marks bs)
marks (false ∷ bs) = marks bs

pub marks-le-length : (bs : List Bool) → marks bs ≤ length bs
unfolding marks
marks-le-length [] = omega arith
marks-le-length (true ∷ bs) = omega (arith, marks-le-length bs)
marks-le-length (false ∷ bs) = omega (arith, marks-le-length bs)

marks-set :
    (bs : List Bool) (i : ℕ) → get_elem? bs i ≡ some false → marks (set bs i true) ≡ marks bs + 1
unfolding marks
marks-set [] i e = absurd (cc)
marks-set (true ∷ bs) zero e = absurd (cc)
marks-set (false ∷ bs) zero e = omega arith
marks-set (true ∷ bs) (suc i) e = omega (arith, marks-set bs i e)
marks-set (false ∷ bs) (suc i) e = marks-set bs i e

all_marked :
    (bs : List Bool) (i : ℕ) → marks bs ≡ length bs → i < length bs → get_elem? bs i ≡ some true
unfolding marks
all_marked [] i e h = elim h [ ]
all_marked (true ∷ bs) zero e h = refl
all_marked (true ∷ bs) (suc i) e h = all_marked bs i (omega arith) (omega arith)
all_marked (false ∷ bs) i e h = absurd (omega (arith, marks-le-length bs))

length-mark : (seen : List Bool) (axes : List ℕ) → length (mark seen axes) ≡ length seen
unfolding mark
length-mark seen [] = refl
length-mark seen (a ∷ axes) = length-mark (set seen a true) axes ∙ length-set seen a true

marks-mark :
    (seen : List Bool) (axes : List ℕ)
    → Free seen axes
    → Distinct axes
    → marks (mark seen axes) ≡ marks seen + length axes
unfolding mark
marks-mark seen [] f d = omega arith
marks-mark seen (a ∷ axes) f d = omega (
  arith,
  marks-mark (set seen a true) axes (set-Free seen a axes f.1 d.0) d.1,
  marks-set seen a f.0,
)

marked-Occurs :
    (seen : List Bool) (axes : List ℕ) (a : ℕ)
    → get_elem? (mark seen axes) a ≡ some true
    → (get_elem? seen a ≡ some true) ⊎ Occurs a axes
unfolding mark
marked-Occurs seen [] a e = inl e
marked-Occurs seen (x ∷ axes) a e = elim (marked-Occurs (set seen x true) axes a e) [
  | inr (k, p) ↦ inr (suc k, p)
  | inl p ↦ elim (ℕ_discrete x a) [
    | yes q ↦ inr (0, ap some q)
    | no q ↦ inl (sym (get_elem?-set_ne seen x a true q) ∙ p)
  ]
]

marks-replicate : (n : ℕ) → marks (replicate n false) ≡ 0
unfolding marks
marks-replicate zero = refl
marks-replicate (suc n) = marks-replicate n

-- Marking n distinct numbers below n leaves nothing unmarked.
pub full_marks :
    (n : ℕ) (axes : List ℕ)
    → length axes ≡ n
    → All (λ x. x < n) axes
    → Distinct axes
    → (length (mark (replicate n false) axes) ≡ n) × (marks (mark (replicate n false) axes) ≡ n)
full_marks n axes len below d = (
  length-mark (replicate n false) axes ∙ length-replicate n false,
  omega (
    arith,
    marks-mark (replicate n false) axes (Free-replicate n axes below) d,
    marks-replicate n,
  ),
)

-- n distinct numbers below n are all the numbers below n.
pub Occurs-of_Distinct :
    (n : ℕ) (axes : List ℕ) (a : ℕ)
    → length axes ≡ n
    → All (λ x. x < n) axes
    → Distinct axes
    → a < n
    → Occurs a axes
Occurs-of_Distinct n axes a len below d h =
    let (size, full) = full_marks n axes len below d in
    elim (marked-Occurs (replicate n false) axes a
      (all_marked (mark (replicate n false) axes) a (omega arith) (omega arith))) [
        | inl p ↦ absurd (cc (p, get_elem?-replicate n false a h))
        | inr o ↦ o
      ]

-- The table that the writing loop leaves: each axis holds the position at which it was met.
pub record Stored (table : List ℕ) (k : ℕ) (axes : List ℕ) (out : List ℕ) : Type 0 where
  pub writes : store_positions table k axes ≡ some out
  pub same_length : length out ≡ length table
  pub position : (j a : ℕ) → get_elem? axes j ≡ some a → get_elem? out a ≡ some (k + j)
  pub others : (a : ℕ) → All (λ y. a ≢ y) axes → get_elem? out a ≡ get_elem? table a

pub store_positions_lem :
    (table : List ℕ) (k : ℕ) (axes : List ℕ)
    → All (λ a. a < length table) axes
    → Distinct axes
    → (out : List ℕ) × Stored table k axes out
unfolding store_positions
store_positions_lem table k [] below d = (
  table,
  record {
    writes = refl;
    same_length = refl;
    position = λ j a e. absurd (cc);
    others = λ a h. refl;
  },
)
store_positions_lem table k (x ∷ axes) below d =
    let len : length (set table x k) ≡ length table = length-set table x k in
    let (out, s) = store_positions_lem (set table x k) (k + 1) axes (rw len below.1) d.1 in
    (
      out,
      record {
        writes = rw (put_at-some table x k below.0) s.writes;
        same_length = s.same_length ∙ len;
        position = λ j a e. at j a e s;
        others = λ a h. s.others a h.1 ∙ get_elem?-set_ne table x a k (λ p. h.0 (sym p));
      },
    )
  where
    at :
        {out : List ℕ} (j a : ℕ)
        → get_elem? (x ∷ axes) j ≡ some a
        → Stored (set table x k) (k + 1) axes out
        → get_elem? out a ≡ some (k + j)
    at {out} zero a e s =
        let stays : get_elem? out x ≡ some k =
          s.others x d.0 ∙ get_elem?-set_self table x k below.0 in
        let start : k ≡ k + 0 = omega arith in cc (stays, start, e)
    at (suc j) a e s = s.position j a e ∙ ap some (omega arith)
