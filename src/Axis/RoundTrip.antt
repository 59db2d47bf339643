-- ===== src/Axis/RoundTrip.antt =====
-- `permute` and `unpermute` are inverse to one another.
use pencil_rs.Prelude.{
  ℕ, ◌<◌, ◌≡◌, ap, sym, ◌∙◌, List, some, arith, length, get_elem?, gather_lem, Gathered, and_then,
  get_elem?-some, get_elem?-none, list_ext,
}
use native.Mathlib.Decide.{dec_lt}
use pencil_rs.Axis.{AxisPermutation, permute, unpermute}
use pencil_rs.Axis.Valid.{IsValid, axis-Occurs, table_below}

module _ {ℓ} {A : Type ℓ} where
  -- Reading back through a second list of indices that inverts the first one.
  gather_inverse :
      (n : ℕ) (xs : List A) (is js : List ℕ) {ys : List A}
      → length xs ≡ n
      → length js ≡ n
      → ((a : ℕ) → a < n → (k : ℕ) × (get_elem? js a ≡ some k) × (get_elem? is k ≡ some a))
      → Gathered xs is ys
      → {zs : List A} → Gathered ys js zs
      → zs ≡ xs
  gather_inverse n xs is js {ys} len jlen inv g {zs} h = list_ext zs xs λ a. elim (dec_lt a n) [
    | yes lt ↦
        let (k, p, q) = inv a lt in
        h.pointwise a
        ∙ ap (λ o. and_then o (get_elem? ys)) p
        ∙ g.pointwise k
        ∙ ap (λ o. and_then o (get_elem? xs)) q
    | no ge ↦
        get_elem?-none zs a (omega (arith, h.same_length)) ∙ sym (get_elem?-none xs a (omega arith))
  ]

  module _ {n : ℕ} {p : AxisPermutation} (v : IsValid n p) where
    pub permute-Gathered :
        (xs : List A) → length xs ≡ n → (ys : List A) × Gathered xs p.axes_in_memory_order ys
    permute-Gathered xs len = gather_lem xs p.axes_in_memory_order (rw len v.perm.below)

    pub unpermute-Gathered :
        (ys : List A) → length ys ≡ n → (xs : List A) × Gathered ys p.logical_to_memory xs
    unpermute-Gathered ys len = gather_lem ys p.logical_to_memory (rw len (table_below v))

    -- Under a valid permutation of n axes, `permute` succeeds on every array of n values, its
    -- result has n values, and `unpermute` takes it back to the array.
    pub unpermute-permute :
        (xs : List A)
        → length xs ≡ n
        → (ys : List A) × (permute p xs ≡ some ys) × (length ys ≡ n) × (unpermute p ys ≡ some xs)
    unfolding permute unpermute
    unpermute-permute xs len =
        let (ys, g) = permute-Gathered xs len in
        let ylen : length ys ≡ n = g.same_length ∙ v.perm.size in
        let (zs, h) = unpermute-Gathered ys ylen in
        let back : zs ≡ xs =
          gather_inverse n xs p.axes_in_memory_order p.logical_to_memory len v.table_size inverse g
            h in
        (ys, g.reads, ylen, h.reads ∙ ap some back)
      where
        inverse :
            (a : ℕ)
            → a < n
            → (k : ℕ) × (get_elem? p.logical_to_memory a ≡ some k)
              × (get_elem? p.axes_in_memory_order k ≡ some a)
        inverse a lt = let (k, q) = axis-Occurs v a lt in (k, v.position k a q, q)

    -- Under a valid permutation of n axes, `unpermute` succeeds on every array of n values, its result
    -- has n values, and `permute` takes it back to the array.
    pub permute-unpermute :
        (ys : List A)
        → length ys ≡ n
        → (xs : List A) × (unpermute p ys ≡ some xs) × (length xs ≡ n) × (permute p xs ≡ some ys)
    unfolding permute unpermute
    permute-unpermute ys len =
        let (xs, g) = unpermute-Gathered ys len in
        let xlen : length xs ≡ n = g.same_length ∙ v.table_size in
        let (zs, h) = permute-Gathered xs xlen in
        let back : zs ≡ ys =
          gather_inverse n ys p.logical_to_memory p.axes_in_memory_order len v.perm.size inverse g
            h in
        (xs, g.reads, xlen, h.reads ∙ ap some back)
      where
        inverse :
            (j : ℕ)
            → j < n
            → (a : ℕ) × (get_elem? p.axes_in_memory_order j ≡ some a)
              × (get_elem? p.logical_to_memory a ≡ some j)
        inverse j lt =
            let (a, e) = get_elem?-some p.axes_in_memory_order j (omega (arith, v.perm.size)) in
            (a, e, v.position j a e)
