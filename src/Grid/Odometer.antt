-- ===== src/Grid/Odometer.antt =====
-- The iterator counts through the row-major order of the local memory shape.
use pencil_rs.Prelude.{
  ℕ, zero, suc, ◌+◌, ◌-◌, ◌*◌, ◌<◌, ◌≡◌, refl, sym, ap, ◌⊎◌, inl, inr, List, [], ◌∷◌, true, false,
  Option, none, some, arith, ◌==◌, ltb, length, get_elem?, product, and_then, Bool-cases, ltb→lt,
}
use pencil_rs.Geometry.Offset.{Within, ravel, ravel-lt-product}
use pencil_rs.LocalTranspose.Linear.{ravel_injective}
use pencil_rs.Grid.{LocalGridIter, advance, advance_memory_indices, coordinates_at, next}

advance_lem :
    (shape is : List ℕ)
    → Within shape is
    → ((js : List ℕ) × (advance shape is ≡ some (false, js))
        × Within shape js
        × (ravel shape js ≡ ravel shape is + 1))
      ⊎ ((js : List ℕ) × (advance shape is ≡ some (true, js))
          × Within shape js
          × (ravel shape js ≡ 0)
          × (ravel shape is + 1 ≡ product shape))
unfolding advance
advance_lem [] [] w = inr ([], refl, tt, refl, omega arith)
advance_lem [] (i ∷ is) w = absurd w
advance_lem (e ∷ shape) [] w = absurd w
advance_lem (e ∷ shape) (i ∷ is) (low, w) = elim (advance_lem shape is w) [
  | inl (js, run, wj, r) ↦ inl (i ∷ js, rw run refl, (low, wj), omega arith)
  | inr (js, run, wj, z, full) ↦
      let some_extent : (e == 0) ≡ false = ground (arith, low) in
      elim (Bool-cases (ltb i (e - 1))) [
        | inl more ↦
            let bound = ltb→lt i (e - 1) more in
            inl ((i + 1) ∷ js, rw (run, some_extent, more) refl, (omega arith, wj), omega arith)
        | inr last ↦
            let end : i + 1 ≡ e = ground (arith, low, last) in
            inr (
              0 ∷ js,
              rw (run, some_extent, last) refl,
              (omega arith, wj),
              omega arith,
              omega (arith, ap (λ (t : ℕ). t * product shape) end),
            )
      ]
]

-- The items of the calls of `next` up to the first that answers none, for a number of calls; the outer
-- `none` is a panic, or calls that are used up.
unfoldable pub items {ℓ} : {C : Type ℓ} → ℕ → LocalGridIter C → Option (List (List C))
unfolding next
items zero it = none
items (suc calls) it = and_then (next it) (λ (item, after). elim item [
  | none ↦ some []
  | some x ↦ and_then (items calls after) (λ rest. some (x ∷ rest))
])

module _ {ℓ} {C : Type ℓ} (axes : List (List C)) (shape positions : List ℕ)
    (readable : (is : List ℕ)
      → Within shape is
      → (item : List C) × (coordinates_at axes positions is ≡ some item)) where
  -- The iterator at given memory indices.
  abbrev pub standing : List ℕ → ℕ → LocalGridIter C
  standing is left = record {
    axes = axes;
    memory_shape = shape;
    logical_to_memory = positions;
    memory_indices = is;
    remaining = left;
  }

  next_more :
      (is : List ℕ) (left : ℕ)
      → Within shape is
      → suc left + ravel shape is ≡ product shape
      → (item : List C) × (js : List ℕ) × (coordinates_at axes positions is ≡ some item)
        × (next (standing is (suc left)) ≡ some (some item, standing js left))
        × (0 < left → Within shape js × (ravel shape js ≡ ravel shape is + 1))
  unfolding next advance_memory_indices
  next_more is zero w total =
      let (item, read) = readable is w in (item, is, read, rw read refl, λ h. absurd (omega arith))
  next_more is (suc left) w total =
      let (item, read) = readable is w in
      elim (advance_lem shape is w) [
        | inr (js, _, _, _, full) ↦ absurd (omega (arith, total))
        | inl (js, run, wj, step) ↦
            let one_more : (suc (suc left) == 0) ≡ false = ground arith in
            let further : (suc (suc left) - 1 == 0) ≡ false = ground arith in
            let rest : suc (suc left) - 1 ≡ suc left = omega arith in
            (
              item,
              js,
              read,
              rw (one_more, read, further, run)
                  (ap (λ (z : ℕ). some (some item, standing js z)) rest),
              λ h. (wj, step),
            )
      ]

  -- From given memory indices on: one item for each place that is left, each the coordinates at its
  -- own indices.
  pub items_lem :
      (left : ℕ) (is : List ℕ) (k : ℕ)
      → left + k ≡ product shape
      → (0 < left → Within shape is × (ravel shape is ≡ k))
      → (xs : List (List C)) × (items (suc left) (standing is left) ≡ some xs)
        × (length xs ≡ left)
        × ((j : ℕ) (sp : List ℕ)
            → Within shape sp
            → ravel shape sp ≡ k + j
            → get_elem? xs j ≡ coordinates_at axes positions sp)
  unfolding items
  items_lem zero is k total place = (
    [],
    unfold next in refl,
    refl,
    λ j sp w e. absurd (omega (arith, ravel-lt-product shape sp w)),
  )
  items_lem (suc left) is k total place =
      let (w, r) = place (omega arith) in
      let (item, js, read, run, step) = next_more is left w (omega arith) in
      let (xs, rest, size, at) =
        items_lem left js (k + 1) (omega arith) (λ h. ((step h).0, omega (arith, (step h).1))) in
      (
        item ∷ xs,
        rw (run, rest) refl,
        ap suc size,
        elim [
          | zero ↦ λ sp u e.
              let same : is ≡ sp = ravel_injective shape is sp w u (omega arith) in
              rw (← same) (sym read)
          | suc j ↦ λ sp u e. at j sp u (omega arith)
        ],
      )
