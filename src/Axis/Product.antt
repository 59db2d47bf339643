-- ===== src/Axis/Product.antt =====
-- A permutation of a shape has the same number of elements.
use pencil_rs.Prelude.{
  ℕ, zero, suc, ◌*◌, ◌≡◌, refl, ap, sym, ◌∙◌, List, [], ◌∷◌, Bool, true, false, some, arith, length,
  get_elem?, set, replicate, Distinct, gather, and_then, product, Option, none,
}
use native.Mathlib.Nat.{mul_left_comm, mul_assoc}
use pencil_rs.Axis.Validate.{Free, Free-replicate, set-Free}
use pencil_rs.Axis.Positions.{mark, marks, marks-le-length, full_marks}
use pencil_rs.Axis.Valid.{IsPermutation}

-- The product over the positions that are not marked.
masked : List Bool → List ℕ → ℕ
masked (true ∷ bs) (x ∷ xs) = masked bs xs
masked (false ∷ bs) (x ∷ xs) = x * masked bs xs
masked [] xs = 1
masked (true ∷ bs) [] = 1
masked (false ∷ bs) [] = 1

masked-set :
    (bs : List Bool) (xs : List ℕ) (i x : ℕ)
    → get_elem? bs i ≡ some false
    → get_elem? xs i ≡ some x
    → masked bs xs ≡ x * masked (set bs i true) xs
unfolding masked
masked-set [] xs i x e f = absurd (cc)
masked-set (b ∷ bs) [] i x e f = absurd (cc)
masked-set (true ∷ bs) (y ∷ xs) zero x e f = absurd (cc)
masked-set (false ∷ bs) (y ∷ xs) zero x e f = let q : y ≡ x = cc in rw q
masked-set (true ∷ bs) (y ∷ xs) (suc i) x e f = masked-set bs xs i x e f
masked-set (false ∷ bs) (y ∷ xs) (suc i) x e f =
    ap (λ (t : ℕ). y * t) (masked-set bs xs i x e f) ∙ mul_left_comm y x (masked (set bs i true) xs)

masked-replicate : (xs : List ℕ) → masked (replicate (length xs) false) xs ≡ product xs
unfolding masked
masked-replicate [] = refl
masked-replicate (x ∷ xs) = ap (λ (t : ℕ). x * t) (masked-replicate xs)

masked_full : (bs : List Bool) (xs : List ℕ) → marks bs ≡ length bs → masked bs xs ≡ 1
unfolding masked marks
masked_full [] xs e = refl
masked_full (true ∷ bs) [] e = refl
masked_full (true ∷ bs) (x ∷ xs) e = masked_full bs xs (omega arith)
masked_full (false ∷ bs) xs e = absurd (omega (arith, marks-le-length bs))

masked-gather :
    (seen : List Bool) (xs : List ℕ) (is : List ℕ) {ys : List ℕ}
    → Free seen is
    → Distinct is
    → gather xs is ≡ some ys
    → product ys * masked (mark seen is) xs ≡ masked seen xs
unfolding gather mark
masked-gather seen xs [] {ys} f d e = let q : ys ≡ [] = cc in rw q (omega arith)
masked-gather seen xs (i ∷ is) {ys} f d e =
    split (get_elem? xs i) refl (gather xs is) refl e
      (λ zs q. masked-gather (set seen i true) xs is (set-Free seen i is f.1 d.0) d.1 q)
  where
    split :
        (o : Option ℕ)
        → get_elem? xs i ≡ o
        → (r : Option (List ℕ)) → gather xs is ≡ r
        → and_then o (λ x. and_then r (λ zs. some (x ∷ zs))) ≡ some ys
        → ((zs : List ℕ)
            → gather xs is ≡ some zs
            → product zs * masked (mark (set seen i true) is) xs ≡ masked (set seen i true) xs)
        → product ys * masked (mark (set seen i true) is) xs ≡ masked seen xs
    split none p r q h ih = absurd (cc)
    split (some x) p none q h ih = absurd (cc)
    split (some x) p (some zs) q h ih =
        let v : ys ≡ x ∷ zs = cc in
        rw v (
          mul_assoc x (product zs) _
          ∙ ap (λ (t : ℕ). x * t) (ih zs q)
          ∙ sym (masked-set seen xs i x f.0 p))

-- Reading a list of n numbers in the order of a permutation keeps the product.
pub product-gather :
    {n : ℕ} {axes ys : List ℕ} (xs : List ℕ)
    → IsPermutation n axes
    → length xs ≡ n
    → gather xs axes ≡ some ys
    → product ys ≡ product xs
product-gather {n} {axes} {ys} xs perm len e =
    let (size, full) = full_marks n axes perm.size perm.below perm.distinct in
    let one : masked (mark (replicate n false) axes) xs ≡ 1 = masked_full _ xs (full ∙ sym size) in
    let all : masked (replicate n false) xs ≡ product xs = rw (← len) (masked-replicate xs) in
    let step : product ys * masked (mark (replicate n false) axes) xs
        ≡ masked (replicate n false) xs =
      masked-gather _ xs axes (Free-replicate n axes perm.below) perm.distinct e in
    let cut : product ys * 1 ≡ product xs = rw one at step ∙ all in omega arith
