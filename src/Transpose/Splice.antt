-- ===== src/Transpose/Splice.antt =====
-- A part of a buffer that is written through a mutable slice of it.
use pencil_rs.Prelude.{
  ℕ, zero, suc, ◌+◌, ◌-◌, ◌<◌, ◌≤◌, ◌≡◌, refl, ap, ◌∙◌, List, [], ◌∷◌, some, arith, length,
  get_elem?, take, le→leb,
}
use pencil_rs.Grid.{get_range, drop}

module _ {ℓ} {T : Type ℓ} where
  -- The buffer after its elements from a given place on were replaced by a slice's elements.
  abbrev pub splice : List T → ℕ → List T → List T
  splice [] start written = []
  splice (x ∷ xs) (suc start) written = x ∷ splice xs start written
  splice (x ∷ xs) zero [] = x ∷ xs
  splice (x ∷ xs) zero (w ∷ written) = w ∷ splice xs zero written

  pub length-splice :
      (xs : List T) (start : ℕ) (written : List T) → length (splice xs start written) ≡ length xs
  length-splice [] start written = refl
  length-splice (x ∷ xs) (suc start) written = ap suc (length-splice xs start written)
  length-splice (x ∷ xs) zero [] = refl
  length-splice (x ∷ xs) zero (w ∷ written) = ap suc (length-splice xs zero written)

  pub get_elem?-splice :
      (xs : List T) (start : ℕ) (written : List T) (k : ℕ)
      → k < length written
      → start + k < length xs
      → get_elem? (splice xs start written) (start + k) ≡ get_elem? written k
  get_elem?-splice [] start written k h r = absurd (omega arith)
  get_elem?-splice (x ∷ xs) (suc start) written k h r =
      let e : suc start + k ≡ suc (start + k) = omega arith in
      rw e (get_elem?-splice xs start written k h (omega arith))
  get_elem?-splice (x ∷ xs) zero [] k h r = absurd (omega arith)
  get_elem?-splice (x ∷ xs) zero (w ∷ written) zero h r = refl
  get_elem?-splice (x ∷ xs) zero (w ∷ written) (suc k) h r =
      let e : 0 + suc k ≡ suc (0 + k) = omega arith in
      rw e (get_elem?-splice xs zero written k (omega arith) (omega arith))

  pub get_elem?-splice_before :
      (xs : List T) (start : ℕ) (written : List T) (k : ℕ)
      → k < start
      → get_elem? (splice xs start written) k ≡ get_elem? xs k
  get_elem?-splice_before [] start written k h = refl
  get_elem?-splice_before (x ∷ xs) zero written k h = absurd (omega arith)
  get_elem?-splice_before (x ∷ xs) (suc start) written zero h = refl
  get_elem?-splice_before (x ∷ xs) (suc start) written (suc k) h =
      get_elem?-splice_before xs start written k (omega arith)

  pub get_elem?-splice_after :
      (xs : List T) (start : ℕ) (written : List T) (k : ℕ)
      → start + length written ≤ k
      → get_elem? (splice xs start written) k ≡ get_elem? xs k
  get_elem?-splice_after [] start written k h = refl
  get_elem?-splice_after (x ∷ xs) (suc start) written zero h = absurd (omega arith)
  get_elem?-splice_after (x ∷ xs) (suc start) written (suc k) h =
      get_elem?-splice_after xs start written k (omega arith)
  get_elem?-splice_after (x ∷ xs) zero [] k h = refl
  get_elem?-splice_after (x ∷ xs) zero (w ∷ written) zero h = absurd (omega arith)
  get_elem?-splice_after (x ∷ xs) zero (w ∷ written) (suc k) h =
      get_elem?-splice_after xs zero written k (omega arith)

  pub length-take : (n : ℕ) (xs : List T) → n ≤ length xs → length (take n xs) ≡ n
  length-take zero xs h = refl
  length-take (suc n) [] h = absurd (omega arith)
  length-take (suc n) (x ∷ xs) h = ap suc (length-take n xs (omega arith))

  pub length-drop : (k : ℕ) (xs : List T) → k ≤ length xs → length (drop k xs) + k ≡ length xs
  length-drop zero xs h = omega arith
  length-drop (suc k) [] h = absurd (omega arith)
  length-drop (suc k) (x ∷ xs) h = omega (arith, length-drop k xs (omega arith))

  pub get_elem?-take :
      (n : ℕ) (xs : List T) (i : ℕ) → i < n → get_elem? (take n xs) i ≡ get_elem? xs i
  get_elem?-take zero xs i h = absurd (omega arith)
  get_elem?-take (suc n) [] i h = refl
  get_elem?-take (suc n) (x ∷ xs) zero h = refl
  get_elem?-take (suc n) (x ∷ xs) (suc i) h = get_elem?-take n xs i (omega arith)

  pub get_elem?-drop :
      (k : ℕ) (xs : List T) (i : ℕ) → get_elem? (drop k xs) i ≡ get_elem? xs (k + i)
  get_elem?-drop zero xs i = ap (get_elem? xs) (omega arith)
  get_elem?-drop (suc k) [] i = refl
  get_elem?-drop (suc k) (x ∷ xs) i =
      let e : suc k + i ≡ suc (k + i) = omega arith in rw e (get_elem?-drop k xs i)

  -- A slice of a list: its elements are those from its start on.
  pub get_range_lem :
      (xs : List T) (start end : ℕ)
      → start ≤ end
      → end ≤ length xs
      → (part : List T) × (get_range xs (record { start = start; end = end }) ≡ some part)
        × (length part + start ≡ end)
        × ((k : ℕ) → start + k < end → get_elem? part k ≡ get_elem? xs (start + k))
  unfolding get_range
  get_range_lem xs start end low high =
      let rest = length-drop start xs (omega arith) in
      (
        take (end - start) (drop start xs),
        rw (le→leb start end low, le→leb end (length xs) high) refl,
        omega (arith, length-take (end - start) (drop start xs) (omega arith)),
        λ k h.
            get_elem?-take (end - start) (drop start xs) k (omega arith)
            ∙ get_elem?-drop start xs k,
      )
