-- ===== src/Tests/Agreements.antt =====
-- Examples of agreement between ranks, with reductions of lists.
use pencil_rs.Prelude.{
  ℕ, zero, suc, ◌<◌, ◌≤◌, ◌≡◌, ◌↔◌, refl, sym, ap, ◌∙◌, List, [], ◌∷◌, true, arith, some, ok, err,
  length, get_elem?, All, Outcome, max, min,
}
use pencil_rs.Preflight.{agree_header, agree_preflight, u64_max}
use pencil_rs.Preflight.Agree.{
  MaxReduction, MinReduction, PreflightResult, agree_header_lem, agree_preflight_lem,
}

-- The minimum of the ranks' numbers.
abbrev smallest : List ℕ → ℕ
smallest [] = 0
smallest (x ∷ []) = x
smallest (x ∷ y ∷ xs) = min x (smallest (y ∷ xs))

MinReduction-smallest : MinReduction smallest
MinReduction-smallest = record { lower = low; attained = reached }
  where
    low : (xs : List ℕ) (i v : ℕ) → get_elem? xs i ≡ some v → smallest xs ≤ v
    low [] i v e = absurd (cc)
    low (x ∷ []) zero v e = let same : x ≡ v = cc in omega arith
    low (x ∷ []) (suc i) v e = absurd (cc)
    low (x ∷ y ∷ xs) zero v e = let same : x ≡ v = cc in omega arith
    low (x ∷ y ∷ xs) (suc i) v e = omega (arith, low (y ∷ xs) i v e)

    reached : (xs : List ℕ) → 0 < length xs → (i : ℕ) × (get_elem? xs i ≡ some (smallest xs))
    reached [] h = absurd (omega arith)
    reached (x ∷ []) h = (0, refl)
    reached (x ∷ y ∷ xs) h =
        let (i, e) = reached (y ∷ xs) (omega arith) in
        elim (native.Mathlib.Decide.dec_le x (smallest (y ∷ xs))) [
          | yes le ↦ let m : min x (smallest (y ∷ xs)) ≡ x = omega arith in (0, rw m refl)
          | no gt ↦
              let m : min x (smallest (y ∷ xs)) ≡ smallest (y ∷ xs) = omega arith in (suc i, rw m e)
        ]

abbrev results : List (Outcome ℕ ℕ)
results = ok 3 ∷ err 5 ∷ ok 4 ∷ []

agree_preflight_example : PreflightResult 9 results (agree_preflight smallest 9 results)
agree_preflight_example = agree_preflight_lem smallest 9 results MinReduction-smallest (omega arith)

-- The greater words of two headers, and the greatest words of all.
abbrev greater : List ℕ → List ℕ → List ℕ
greater (x ∷ xs) (y ∷ ys) = max x y ∷ greater xs ys
greater [] ys = []
greater (x ∷ xs) [] = []

abbrev greatest : List (List ℕ) → List ℕ
greatest [] = []
greatest (x ∷ []) = x
greatest (x ∷ y ∷ xs) = greater x (greatest (y ∷ xs))

length-greater : (xs ys : List ℕ) → length xs ≡ length ys → length (greater xs ys) ≡ length xs
length-greater [] ys e = refl
length-greater (x ∷ xs) [] e = absurd (omega arith)
length-greater (x ∷ xs) (y ∷ ys) e = omega (arith, length-greater xs ys (omega arith))

length-greatest :
    (w : ℕ) (xs : List (List ℕ))
    → 0 < length xs
    → All (λ x. length x ≡ w) xs
    → length (greatest xs) ≡ w
length-greatest w [] h sizes = absurd (omega arith)
length-greatest w (x ∷ []) h sizes = sizes.0
length-greatest w (x ∷ y ∷ xs) h sizes =
    let rest = length-greatest w (y ∷ xs) (omega arith) sizes.1 in
    omega (arith, length-greater x (greatest (y ∷ xs)) (omega (arith, sizes.0)), sizes.0)

-- A word of the greater header is the greater of the two words.
greater-word :
    (xs ys : List ℕ) (j top : ℕ)
    → get_elem? (greater xs ys) j ≡ some top
    → (a : ℕ) × (b : ℕ) × (get_elem? xs j ≡ some a) × (get_elem? ys j ≡ some b) × (top ≡ max a b)
greater-word [] ys j top e = absurd (cc)
greater-word (x ∷ xs) [] j top e = absurd (cc)
greater-word (x ∷ xs) (y ∷ ys) zero top e = (x, y, refl, refl, word e)
  where
    word : some (max x y) ≡ some top → top ≡ max x y
    word e = cc
greater-word (x ∷ xs) (y ∷ ys) (suc j) top e = greater-word xs ys j top e

MaxReduction-greatest : MaxReduction greatest
MaxReduction-greatest = record { size = length-greatest; upper = high; attained = reached }
  where
    word : {a b : ℕ} → some a ≡ some b → a ≡ b
    word e = cc

    row : {x y : List ℕ} → some x ≡ some y → x ≡ y
    row e = cc

    high :
        (w : ℕ) (xs : List (List ℕ)) (i j : ℕ) (x : List ℕ) (v top : ℕ)
        → All (λ x. length x ≡ w) xs
        → get_elem? xs i ≡ some x
        → get_elem? x j ≡ some v
        → get_elem? (greatest xs) j ≡ some top
        → v ≤ top
    high w [] i j x v top sizes e f g = absurd (cc)
    high w (z ∷ []) zero j x v top sizes e f g =
        let same : z ≡ x = row e in
        let equal : v ≡ top = word (sym f ∙ ap (λ (t : List ℕ). get_elem? t j) (sym same) ∙ g) in
        omega arith
    high w (z ∷ []) (suc i) j x v top sizes e f g = absurd (cc)
    high w (z ∷ y ∷ xs) zero j x v top sizes e f g =
        let (a, b, p, q, t) = greater-word z (greatest (y ∷ xs)) j top g in
        let same : z ≡ x = row e in
        let equal : v ≡ a = word (sym f ∙ ap (λ (t : List ℕ). get_elem? t j) (sym same) ∙ p) in
        omega arith
    high w (z ∷ y ∷ xs) (suc i) j x v top sizes e f g =
        let (a, b, p, q, t) = greater-word z (greatest (y ∷ xs)) j top g in
        omega (arith, high w (y ∷ xs) i j x v b sizes.1 e f q)

    reached :
        (w : ℕ) (xs : List (List ℕ)) (j top : ℕ)
        → All (λ x. length x ≡ w) xs
        → get_elem? (greatest xs) j ≡ some top
        → (i : ℕ) × (x : List ℕ) × (get_elem? xs i ≡ some x) × (get_elem? x j ≡ some top)
    reached w [] j top sizes e = absurd (cc)
    reached w (x ∷ []) j top sizes e = (0, x, refl, e)
    reached w (x ∷ y ∷ xs) j top sizes e =
        let (a, b, p, q, t) = greater-word x (greatest (y ∷ xs)) j top e in
        elim (native.Mathlib.Decide.dec_le a b) [
          | yes le ↦
              let (i, z, at, here) = reached w (y ∷ xs) j b sizes.1 q in
              (suc i, z, at, here ∙ ap some (omega arith))
          | no gt ↦ (0, x, refl, p ∙ ap some (omega arith))
        ]

abbrev headers : List (List ℕ)
headers = (1 ∷ 2 ∷ 3 ∷ 1 ∷ 21 ∷ []) ∷ (1 ∷ 2 ∷ 3 ∷ 1 ∷ 25 ∷ []) ∷ []

words_fit : All (All (λ v. v ≤ u64_max)) headers
words_fit = (
  (omega arith, (omega arith, (omega arith, (omega arith, (omega arith, tt))))),
  ((omega arith, (omega arith, (omega arith, (omega arith, (omega arith, tt))))), tt),
)

agree_header_example : (agree_header greatest headers ≡ true) ↔ (
    (i j : ℕ) (x y : List ℕ) → get_elem? headers i ≡ some x → get_elem? headers j ≡ some y → x ≡ y)
agree_header_example =
    agree_header_lem greatest MaxReduction-greatest 5 headers (omega arith) (refl, (refl, tt))
      words_fit
