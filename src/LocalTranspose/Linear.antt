-- ===== src/LocalTranspose/Linear.antt =====
-- Splitting a linear position into indices is the inverse of the row-major number.
use pencil_rs.Prelude.{
  ℕ, ◌+◌, ◌*◌, ◌/◌, ◌%◌, ◌<◌, ◌≡◌, sym, ap, ◌∙◌, List, [], ◌∷◌, false, Option, some, arith, ◌==◌,
  product,
}
use native.Mathlib.Nat.{
  add-mul-mod_self_right, add-mul-div_right, mod-eq_of_lt, div-eq_of_lt, add_comm,
}
use pencil_rs.Geometry.Offset.{Within, ravel}
use pencil_rs.Geometry.Ravel.{ravel_onto}
use pencil_rs.LocalTranspose.{split_linear}

pub digit : (k e i : ℕ) → i < e → ((k * e + i) % e ≡ i) × ((k * e + i) / e ≡ k)
digit k e i h =
    let swap : k * e + i ≡ i + k * e = add_comm (k * e) i in
    (
      rw (swap, add-mul-mod_self_right i k e) (mod-eq_of_lt h),
      rw (swap, add-mul-div_right i k {z = e} (omega arith), div-eq_of_lt h) (omega arith),
    )

-- Splitting the number of a tuple, k blocks of the shape further on, gives the tuple and k.
pub split_linear-ravel :
    (shape is : List ℕ) (k : ℕ)
    → Within shape is
    → split_linear shape (k * product shape + ravel shape is) ≡ some (is, k)
unfolding split_linear
split_linear-ravel [] [] k w = let e : k * 1 + 0 ≡ k = omega arith in rw e
split_linear-ravel [] (i ∷ is) k w = absurd w
split_linear-ravel (e ∷ shape) [] k w = absurd w
split_linear-ravel (e ∷ shape) (i ∷ is) k w =
    let regroup : k * (e * product shape) + (i * product shape + ravel shape is)
        ≡ (k * e + i) * product shape + ravel shape is =
      omega arith in
    let positive : (e == 0) ≡ false = ground (arith, w.0) in
    let (rem, div) = digit k e i w.0 in
    rw (regroup, split_linear-ravel shape is (k * e + i) w.1, positive, rem, div)

-- Tuples of one shape with one number are equal.
pub ravel_injective :
    (shape is js : List ℕ)
    → Within shape is
    → Within shape js
    → ravel shape is ≡ ravel shape js
    → is ≡ js
ravel_injective shape is js w u e =
    let same : 0 * product shape + ravel shape is ≡ 0 * product shape + ravel shape js =
      omega arith in
    let p : ◌≡◌ {A = Option (List ℕ × ℕ)} (some (is, 0)) (some (js, 0)) =
      sym (split_linear-ravel shape is 0 w)
      ∙ ap (split_linear shape) same
      ∙ split_linear-ravel shape js 0 u in
    cc

-- For a position below the element count of a shape, `split_linear` succeeds without a remainder and
-- gives indices within the shape whose row-major number is the position.
pub split_linear_lem :
    (shape : List ℕ) (r : ℕ)
    → r < product shape
    → (is : List ℕ) × (split_linear shape r ≡ some (is, 0)) × Within shape is × (ravel shape is ≡ r)
split_linear_lem shape r h =
    let (is, w, e) = ravel_onto shape r h in
    let same : r ≡ 0 * product shape + ravel shape is = omega arith in
    (is, ap (split_linear shape) same ∙ split_linear-ravel shape is 0 w, w, e)
