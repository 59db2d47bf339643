-- ===== src/Transpose/Odometer.antt =====
-- `advance_region` counts through the row-major order of a region and keeps the memory offset of
-- the tuple it stands at.
use pencil_rs.Prelude.{
  ℕ, suc, ◌+◌, ◌-◌, ◌*◌, ◌/◌, ◌%◌, ◌<◌, ◌≤◌, ◌≡◌, refl, ap, ◌⊎◌, inl, inr, List, [], ◌∷◌, true,
  false, some, arith, ltb, length, product, Bool-cases, ltb→lt,
}
use native.Mathlib.Nat.{mul-le-mul_right}
use pencil_rs.Word.{usize_max, checked_add-some, checked_mul-some}
use pencil_rs.Geometry.Offset.{Within, ravel, ravel-lt-product}
use pencil_rs.LocalTranspose.Linear.{digit}
use pencil_rs.Transpose.Walk.{RegionWalk, checked_sub, advance_axes, advance_region}

-- The memory offset of a tuple, from the start of its region.
abbrev pub dot : List ℕ → List ℕ → ℕ
dot (s ∷ strides) (i ∷ is) = i * s + dot strides is
dot [] is = 0
dot (s ∷ strides) [] = 0

-- The memory offset of the last tuple.
abbrev pub span : List ℕ → List ℕ → ℕ
span (s ∷ strides) (e ∷ extent) = (e - 1) * s + span strides extent
span [] extent = 0
span (s ∷ strides) [] = 0

abbrev pub last : List ℕ → ℕ
last [] = 0
last (x ∷ []) = x
last (x ∷ y ∷ xs) = last (y ∷ xs)

-- The memory offset of the tuple with a given row-major number.
abbrev pub place : List ℕ → List ℕ → ℕ → ℕ
place (e ∷ extent) (s ∷ strides) r =
    r / product extent * s + place extent strides (r % product extent)
place [] strides r = 0
place (e ∷ extent) [] r = 0

pub dot-le-span :
    (extent strides is : List ℕ) → Within extent is → dot strides is ≤ span strides extent
dot-le-span [] [] [] w = omega arith
dot-le-span [] (s ∷ strides) [] w = omega arith
dot-le-span [] strides (i ∷ is) w = absurd w
dot-le-span (e ∷ extent) strides [] w = absurd w
dot-le-span (e ∷ extent) [] (i ∷ is) w = omega arith
dot-le-span (e ∷ extent) (s ∷ strides) (i ∷ is) w =
    let rest = dot-le-span extent strides is w.1 in
    let step : i * s ≤ (e - 1) * s = mul-le-mul_right s (omega (arith, w.0)) in omega arith

subtracts : (a b : ℕ) → checked_sub (a + b) b ≡ some a
unfolding checked_sub
subtracts a b = ground arith

-- A tuple at the start of its run: the counter that the loop holds.
pub record AtRun (extent strides is : List ℕ) : Type 0 where
  pub within : Within extent is
  pub rank : length strides ≡ length extent
  pub first : last is ≡ 0

-- What the loop over the outer axes leaves, given the offset of the corner of these axes.
abbrev Advanced : List ℕ → List ℕ → List ℕ → ℕ → ℕ → Type 0
Advanced extent strides is base offset =
    ((js : List ℕ) × (advance_axes extent strides is offset
        ≡ some (false, (js, base + dot strides js)))
      × AtRun extent strides js
      × (ravel extent js ≡ ravel extent is + last extent))
    ⊎ ((js : List ℕ) × (advance_axes extent strides is offset ≡ some (true, (js, base)))
        × AtRun extent strides js
        × (ravel extent js ≡ 0)
        × (dot strides js ≡ 0)
        × (ravel extent is + last extent ≡ product extent))

advance_axes_lem :
    (e : ℕ) (extent strides is : List ℕ) (base offset : ℕ)
    → AtRun (e ∷ extent) strides is
    → base + span strides (e ∷ extent) ≤ usize_max
    → offset ≡ base + dot strides is
    → Advanced (e ∷ extent) strides is base offset
unfolding advance_axes
advance_axes_lem e [] strides [] base offset a fits o = absurd a.within
advance_axes_lem e [] [] (i ∷ is) base offset a fits o = absurd (omega (arith, a.rank))
advance_axes_lem e [] (s ∷ []) (i ∷ []) base offset a fits o =
    let z : i ≡ 0 = a.first in
    let same : offset ≡ base = omega (arith, ap (λ (t : ℕ). t * s) z) in
    inr (
      i ∷ [],
      rw same refl,
      a,
      omega (arith, z),
      omega (arith, ap (λ (t : ℕ). t * s) z),
      omega (arith, z),
    )
advance_axes_lem e [] (s ∷ t ∷ strides) (i ∷ is) base offset a fits o =
    absurd (omega (arith, a.rank))
advance_axes_lem e [] (s ∷ []) (i ∷ j ∷ is) base offset a fits o = absurd a.within.1
advance_axes_lem e (f ∷ extent) strides [] base offset a fits o = absurd a.within
advance_axes_lem e (f ∷ extent) [] (i ∷ is) base offset a fits o = absurd (omega (arith, a.rank))
advance_axes_lem e (f ∷ extent) (s ∷ strides) (i ∷ []) base offset a fits o = absurd a.within.1
advance_axes_lem e (f ∷ extent) (s ∷ strides) (i ∷ j ∷ is) base offset a fits o =
    let low : i < e = a.within.0 in
    let rest : AtRun (f ∷ extent) strides (j ∷ is) = record {
      within = a.within.1;
      rank = omega (arith, a.rank);
      first = a.first;
    } in
    let reach : i * s ≤ (e - 1) * s = mul-le-mul_right s (omega arith) in
    elim (advance_axes_lem f extent strides (j ∷ is) (base + i * s) offset rest (omega arith)
      (omega arith)) [
        | inl (js, run, at, up) ↦ inl (
          i ∷ js,
          rw run (ap (λ (t : ℕ). some (false, (i ∷ js, t))) (omega arith)),
          outer i js low at,
          omega arith,
        )
        | inr (js, run, at, zero_number, zero_offset, full) ↦ elim (Bool-cases (ltb (i + 1) e)) [
          | inl more ↦
              let next : i + 1 < e = ltb→lt (i + 1) e more in
              let further : (i + 1) * s ≤ (e - 1) * s = mul-le-mul_right s (omega arith) in
              inl (
                (i + 1) ∷ js,
                rw (run, more, checked_add-some (base + i * s) s (omega arith))
                    (ap (λ (t : ℕ). some (false, ((i + 1) ∷ js, t))) (omega arith)),
                outer (i + 1) js next at,
                omega arith,
              )
          | inr wraps ↦
              let end : i + 1 ≡ e = ground (arith, low, wraps) in
              inr (
                0 ∷ js,
                rw (run, wraps, checked_mul-some i s (omega arith), subtracts base (i * s)) refl,
                outer 0 js (omega arith) at,
                omega arith,
                omega arith,
                omega (arith, ap (λ (t : ℕ). t * product (f ∷ extent)) end),
              )
        ]
      ]
  where
    outer :
        (k : ℕ) (js : List ℕ)
        → k < e
        → AtRun (f ∷ extent) strides js
        → AtRun (e ∷ f ∷ extent) (s ∷ strides) (k ∷ js)
    outer k [] h at = absurd at.within
    outer k (l ∷ js) h at = record {
      within = (h, at.within);
      rank = ap suc at.rank;
      first = at.first;
    }

advance_axes_any :
    (extent strides is : List ℕ) (base offset : ℕ)
    → 0 < length extent
    → AtRun extent strides is
    → base + span strides extent ≤ usize_max
    → offset ≡ base + dot strides is
    → Advanced extent strides is base offset
advance_axes_any [] strides is base offset h a fits o = absurd (omega arith)
advance_axes_any (e ∷ extent) strides is base offset h a fits o =
    advance_axes_lem e extent strides is base offset a fits o

-- From the start of a run that is not the last one: the walk moves to the start of the next run.
pub advance_region_lem :
    (walk : RegionWalk) (is : List ℕ) (offset : ℕ)
    → 0 < length walk.extent
    → AtRun walk.extent walk.stride is
    → walk.start + span walk.stride walk.extent ≤ usize_max
    → offset ≡ walk.start + dot walk.stride is
    → ravel walk.extent is + last walk.extent < product walk.extent
    → (js : List ℕ) × (advance_region walk is offset ≡ some (js, walk.start + dot walk.stride js))
      × AtRun walk.extent walk.stride js
      × (ravel walk.extent js ≡ ravel walk.extent is + last walk.extent)
unfolding advance_region
advance_region_lem walk is offset h a fits o more =
    elim (advance_axes_any walk.extent walk.stride is walk.start offset h a fits o) [
      | inl (js, run, at, up) ↦ (js, rw run refl, at, up)
      | inr (_, _, _, _, _, full) ↦ absurd (omega arith)
    ]

-- The numbers of one run: their places are a run stride apart.
pub place-run :
    (extent strides is : List ℕ) (j : ℕ)
    → 0 < length extent
    → AtRun extent strides is
    → j < last extent
    → (place extent strides (ravel extent is + j) ≡ dot strides is + j * last strides)
      × (ravel extent is + j < product extent)
place-run [] strides is j h a low = absurd (omega arith)
place-run (e ∷ extent) [] is j h a low = absurd (omega (arith, a.rank))
place-run (e ∷ extent) (s ∷ strides) [] j h a low = absurd a.within
place-run (e ∷ []) (s ∷ t ∷ strides) (i ∷ is) j h a low = absurd (omega (arith, a.rank))
place-run (e ∷ []) (s ∷ []) (i ∷ k ∷ is) j h a low = absurd a.within.1
place-run (e ∷ []) (s ∷ []) (i ∷ []) j h a low =
    let z : i ≡ 0 = a.first in
    let same : (i * 1 + 0 + j) / 1 ≡ j = omega (arith, z) in
    (omega (arith, ap (λ (t : ℕ). t * s) same, ap (λ (t : ℕ). t * s) z), omega (arith, z))
place-run (e ∷ f ∷ extent) (s ∷ strides) (i ∷ []) j h a low = absurd a.within.1
place-run (e ∷ f ∷ extent) (s ∷ []) (i ∷ k ∷ is) j h a low = absurd (omega (arith, a.rank))
place-run (e ∷ f ∷ extent) (s ∷ t ∷ strides) (i ∷ k ∷ is) j h a low =
    let P = product (f ∷ extent) in
    let R = ravel (f ∷ extent) (k ∷ is) in
    let (at, below) =
      place-run (f ∷ extent) (t ∷ strides) (k ∷ is) j (omega arith)
        (record { within = a.within.1; rank = omega (arith, a.rank); first = a.first }) low in
    let step : (i + 1) * P ≤ e * P = mul-le-mul_right P (omega (arith, a.within.0)) in
    let (remainder, quotient) = digit i P (R + j) below in
    let regroup : i * P + R + j ≡ i * P + (R + j) = omega arith in
    (rw (regroup, quotient, remainder, at) (omega arith), omega arith)

-- The place of a tuple's number is the tuple's memory offset.
pub place-ravel :
    (extent strides is : List ℕ)
    → Within extent is
    → place extent strides (ravel extent is) ≡ dot strides is
place-ravel [] [] [] w = refl
place-ravel [] (s ∷ strides) [] w = refl
place-ravel [] strides (i ∷ is) w = absurd w
place-ravel (e ∷ extent) strides [] w = absurd w
place-ravel (e ∷ extent) [] (i ∷ is) w = refl
place-ravel (e ∷ extent) (s ∷ strides) (i ∷ is) w =
    let (remainder, quotient) =
      digit i (product extent) (ravel extent is) (ravel-lt-product extent is w.1) in
    rw (quotient, remainder, place-ravel extent strides is w.1) refl
