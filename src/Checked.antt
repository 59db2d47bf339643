-- ===== src/Checked.antt =====
-- crates/pencil-array/src/checked.rs: the product of a shape, refused when it does not fit `usize`.
use pencil_rs.Prelude.{
  ℕ, ◌*◌, ◌≤◌, ◌<◌, ◌≡◌, ap, ◌∙◌, List, [], ◌∷◌, Bool, true, false, ◌||◌, arith, leb, ◌==◌,
  if◌then◌else◌, product, Outcome, ok, err, ok_or, ◌>>=◌, Bool-cases, inl, inr, leb→le,
  leb_false→lt, le→leb, lt→leb_false,
}
use native.Mathlib.Nat.{mul_assoc, le-mul_of_pos_right, zero-mul, mul-zero}
use pencil_rs.Word.{usize_max, checked_mul, checked_mul-some, checked_mul-none}
use pencil_rs.Error.{GeometryError}

-- `values.contains(&0)`
unfoldable pub contains_zero : List ℕ → Bool
contains_zero [] = false
contains_zero (v ∷ vs) = v == 0 || contains_zero vs

-- `try_fold(1, checked_mul)`
unfoldable pub fold_product : ℕ → List ℕ → Outcome GeometryError ℕ
fold_product acc [] = ok acc
fold_product acc (v ∷ vs) = do
  next ← ok_or (checked_mul acc v) GeometryError.size_overflow
  fold_product next vs

unfoldable pub checked_product : List ℕ → Outcome GeometryError ℕ
checked_product values = if contains_zero values then ok 0 else fold_product 1 values

product_of_contains_zero : (vs : List ℕ) → contains_zero vs ≡ true → product vs ≡ 0
unfolding contains_zero
product_of_contains_zero [] h = absurd (cc)
product_of_contains_zero (v ∷ vs) h = elim (Bool-cases (v == 0)) [
  | inl z ↦ let e : v ≡ 0 = ground arith in rw (e, zero-mul)
  | inr nz ↦ rw (product_of_contains_zero vs (ground arith), mul-zero)
]

product_pos : (vs : List ℕ) → contains_zero vs ≡ false → 0 < product vs
unfolding contains_zero
product_pos [] h = omega arith
product_pos (v ∷ vs) h =
    let rest : 0 < product vs = product_pos vs (ground arith) in
    let head : 0 < v = ground arith in grind arith

abbrev bounded : ℕ → Outcome GeometryError ℕ
bounded p = if leb p usize_max then ok p else err GeometryError.size_overflow

fold_product-eq :
    (acc : ℕ) (vs : List ℕ)
    → acc ≤ usize_max
    → contains_zero vs ≡ false
    → fold_product acc vs ≡ bounded (acc * product vs)
unfolding fold_product contains_zero
fold_product-eq acc [] small nz =
    let e : acc * 1 ≡ acc = omega arith in rw (e, le→leb acc usize_max small)
fold_product-eq acc (v ∷ vs) small nz = elim (Bool-cases (leb (acc * v) usize_max)) [
  | inl fits ↦ rw (checked_mul-some acc v (leb→le _ _ fits)) (
      fold_product-eq (acc * v) vs (leb→le _ _ fits) (ground arith)
      ∙ ap bounded (mul_assoc acc v (product vs)))
  | inr over ↦ rw (
    checked_mul-none acc v (leb_false→lt _ _ over),
    lt→leb_false usize_max (acc * (v * product vs)) (over_max (leb_false→lt _ _ over)),
  )
]
  where
    over_max : usize_max < acc * v → usize_max < acc * (v * product vs)
    over_max h =
        let pos : 0 < product vs = product_pos vs (ground arith) in
        omega (arith, le-mul_of_pos_right (acc * v) pos)

-- `checked_product` gives exactly the product of the extents when that fits `usize`, and the
-- overflow error when it does not, whatever the order of the extents and the intermediate values.
pub checked_product_lem :
    (vs : List ℕ)
    → checked_product vs
      ≡ (if leb (product vs) usize_max then ok (product vs) else err GeometryError.size_overflow)
unfolding checked_product
checked_product_lem vs = elim (Bool-cases (contains_zero vs)) [
  | inl z ↦ rw (z, product_of_contains_zero vs z)
  | inr nz ↦ rw nz (fold_product-eq 1 vs (omega arith) nz ∙ ap bounded (omega arith))
]
