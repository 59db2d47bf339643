-- ===== src/Geometry/Ravel.antt =====
-- Row-major numbers of concatenated shapes, and the tuples that they stand for.
use pencil_rs.Prelude.{
  ℕ, zero, suc, ◌+◌, ◌*◌, ◌/◌, ◌%◌, ◌<◌, ◌≡◌, ap, List, [], ◌∷◌, ◌++◌, arith, product,
  product-append,
}
use native.Mathlib.Nat.{mod-lt, div-add-mod', div-lt_iff_lt-mul}
use pencil_rs.Geometry.Offset.{Within, ravel}

-- A concatenation of shapes is indexed by concatenated tuples, the first part slower.
pub ravel-append :
    (shape rest is js : List ℕ)
    → Within shape is
    → ravel (shape ++ rest) (is ++ js) ≡ ravel shape is * product rest + ravel rest js
ravel-append [] rest [] js w = omega arith
ravel-append [] rest (i ∷ is) js w = absurd w
ravel-append (e ∷ shape) rest [] js w = absurd w
ravel-append (e ∷ shape) rest (i ∷ is) js w =
    omega
      (arith, ravel-append shape rest is js w.1, ap (λ (t : ℕ). i * t) (product-append shape rest))

pub Within-append :
    (shape rest is js : List ℕ)
    → Within shape is
    → Within rest js
    → Within (shape ++ rest) (is ++ js)
Within-append [] rest [] js w u = u
Within-append [] rest (i ∷ is) js w u = absurd w
Within-append (e ∷ shape) rest [] js w u = absurd w
Within-append (e ∷ shape) rest (i ∷ is) js w u = (w.0, Within-append shape rest is js w.1 u)

-- Every number below the element count is the number of some tuple.
pub ravel_onto :
    (shape : List ℕ) (r : ℕ)
    → r < product shape
    → (is : List ℕ) × Within shape is × (ravel shape is ≡ r)
ravel_onto [] r h = ([], tt, omega arith)
ravel_onto (e ∷ shape) r h =
    let pos : 0 < product shape = positive (product shape) h in
    let (is, w, q) = ravel_onto shape (r % product shape) (mod-lt r pos) in
    (
      (r / product shape) ∷ is,
      ((div-lt_iff_lt-mul pos).1 h, w),
      omega (arith, div-add-mod' r (product shape)),
    )
  where
    positive : (p : ℕ) → r < e * p → 0 < p
    positive zero h = absurd (omega arith)
    positive (suc p) h = omega arith
