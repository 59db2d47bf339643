-- ===== src/Transpose/Measure.antt =====
-- The axis loop of `region_walk`: what it measures for a region inside the local ranges.
use pencil_rs.Prelude.{
  ℕ, ◌+◌, ◌-◌, ◌*◌, ◌<◌, ◌≤◌, ◌≡◌, refl, ap, ◌∙◌, List, [], ◌∷◌, false, ◌||◌, some, arith, ltb,
  ◌==◌, length, product, All, ok, ◌>>=◌,
}
use native.Mathlib.Nat.{le-mul_of_pos_right, mul_assoc}
use pencil_rs.Word.{usize_max, checked_add-some, checked_mul-some}
use pencil_rs.Geometry.{Range, range_len, shape_from_ranges}
use pencil_rs.Transpose.Walk.{Measures, checked_sub, add_scaled, close_axis, measure_axes}
use pencil_rs.Transpose.Odometer.{dot, span, last}
use pencil_rs.Transpose.Strides.{product-positive}

-- Each range of the region is not empty and lies in the local range of its axis.
abbrev pub Inside : List Range → List Range → Type 0
Inside (local ∷ locals) (range ∷ region) =
    (local.start ≤ range.start)
    × (range.start < range.end)
    × (range.end ≤ local.end)
    × Inside locals region
Inside [] [] = Unit
Inside [] (range ∷ region) = ⊥
Inside (local ∷ locals) [] = ⊥

-- The local indices of a tuple of the region.
abbrev pub shifted : List Range → List Range → List ℕ → List ℕ
shifted (local ∷ locals) (range ∷ region) (i ∷ is) =
    (range.start - local.start + i) ∷ shifted locals region is
shifted [] region is = []
shifted (local ∷ locals) [] is = []
shifted (local ∷ locals) (range ∷ region) [] = []

-- The local indices of the region's first tuple.
abbrev pub corner : List Range → List Range → List ℕ
corner (local ∷ locals) (range ∷ region) = (range.start - local.start) ∷ corner locals region
corner [] region = []
corner (local ∷ locals) [] = []

add_scaled-ok :
    (sum count stride : ℕ)
    → sum + count * stride ≤ usize_max
    → add_scaled sum count stride ≡ ok (sum + count * stride)
unfolding add_scaled
add_scaled-ok sum count stride h =
    rw
      (
        checked_mul-some count stride (omega arith),
        checked_add-some sum (count * stride) (omega arith),
      )
      refl

-- The measures after the offsets of one axis are added.
abbrev measured : Range → Range → ℕ → Measures → Measures
measured local range stride e = record e {
  start = e.start + (range.start - local.start) * stride;
  offset_span = e.offset_span + (range_len range - 1) * stride;
}

measure_step :
    (local range : Range) (locals region : List Range) (stride : ℕ) (strides : List ℕ)
    (e : Measures)
    → local.start ≤ range.start
    → range.start < range.end
    → range.end ≤ local.end
    → e.start + (range.start - local.start) * stride ≤ usize_max
    → e.offset_span + (range_len range - 1) * stride ≤ usize_max
    → measure_axes (local ∷ locals) (range ∷ region) (stride ∷ strides) e ≡ (
        close_axis region (range_len range) stride (measured local range stride e) >>= λ next.
        measure_axes locals region strides next >>= λ (extents, measures).
        ok (range_len range ∷ extents, measures))
unfolding measure_axes
measure_step local range locals region stride strides e low full high a b =
    let inside : (ltb range.start local.start || ltb local.end range.end) ≡ false = ground arith in
    let positive : (range.end - range.start == 0) ≡ false = ground arith in
    rw
      (
        inside,
        subtracts range.end range.start (omega arith),
        positive,
        add_scaled-ok e.start (range.start - local.start) stride a,
        add_scaled-ok e.offset_span (range.end - range.start - 1) stride b,
      )
      refl
  where
    subtracts : (a b : ℕ) → b ≤ a → checked_sub a b ≡ some (a - b)
    subtracts a b h = unfold checked_sub in ground arith

-- What the loop gives from given measures on.
pub record Measured (locals region : List Range) (strides : List ℕ) (e out : Measures)
    : Type 0 where
  pub runs : measure_axes locals region strides e ≡ ok (shape_from_ranges region, out)
  pub start : out.start ≡ e.start + dot strides (corner locals region)
  pub offset_span : out.offset_span ≡ e.offset_span + span strides (shape_from_ranges region)
  pub run_len : 0 < length region → out.run_len ≡ last (shape_from_ranges region)
  pub run_stride : 0 < length region → out.run_stride ≡ last strides
  pub outer_len :
      0 < length region
      → out.outer_len * last (shape_from_ranges region)
        ≡ e.outer_len * product (shape_from_ranges region)

pub Inside-positive :
    (locals region : List Range)
    → Inside locals region
    → All (λ e. 0 < e) (shape_from_ranges region)
unfolding shape_from_ranges
Inside-positive [] [] h = tt
Inside-positive [] (r ∷ region) h = absurd h
Inside-positive (l ∷ locals) [] h = absurd h
Inside-positive (l ∷ locals) (r ∷ region) (low, full, high, h) =
    (omega arith, Inside-positive locals region h)

pub measure_axes_lem :
    (locals region : List Range) (strides : List ℕ) (e : Measures)
    → Inside locals region
    → length strides ≡ length region
    → e.start + dot strides (corner locals region) ≤ usize_max
    → e.offset_span + span strides (shape_from_ranges region) ≤ usize_max
    → e.outer_len * product (shape_from_ranges region) ≤ usize_max
    → (out : Measures) × Measured locals region strides e out
unfolding measure_axes shape_from_ranges close_axis
measure_axes_lem [] [] [] e h len a b c = (
  e,
  record {
    runs = refl;
    start = omega arith;
    offset_span = omega arith;
    run_len = λ z. absurd (omega arith);
    run_stride = λ z. absurd (omega arith);
    outer_len = λ z. absurd (omega arith);
  },
)
measure_axes_lem [] [] (s ∷ strides) e h len a b c = absurd (omega arith)
measure_axes_lem [] (r ∷ region) strides e h len a b c = absurd h
measure_axes_lem (l ∷ locals) [] strides e h len a b c = absurd h
measure_axes_lem (l ∷ locals) (r ∷ region) [] e h len a b c = absurd (omega arith)
measure_axes_lem (l ∷ []) (r ∷ []) (s ∷ []) e (low, full, high, h) len a b c = (
  record (measured l r s e) { run_len = range_len r; run_stride = s },
  record {
    runs = measure_step l r [] [] s [] e low full high (omega arith) (omega arith);
    start = omega arith;
    offset_span = omega arith;
    run_len = λ z. refl;
    run_stride = λ z. refl;
    outer_len = λ z. ap (λ (t : ℕ). e.outer_len * t) (omega arith);
  },
)
measure_axes_lem (l ∷ []) (r ∷ []) (s ∷ t ∷ strides) e h len a b c = absurd (omega arith)
measure_axes_lem (l ∷ []) (r ∷ q ∷ region) (s ∷ strides) e h len a b c = absurd h.3
measure_axes_lem (l ∷ k ∷ locals) (r ∷ []) (s ∷ strides) e h len a b c = absurd h.3
measure_axes_lem (l ∷ k ∷ locals) (r ∷ q ∷ region) (s ∷ []) e h len a b c = absurd (omega arith)
measure_axes_lem (l ∷ k ∷ locals) (r ∷ q ∷ region) (s ∷ t ∷ strides) e (low, full, high, h) len a b
      c =
    let rest = product (shape_from_ranges (q ∷ region)) in
    let regroup : e.outer_len * range_len r * rest ≡ e.outer_len * (range_len r * rest) =
      mul_assoc e.outer_len (range_len r) rest in
    let pos : 0 < rest =
      product-positive (shape_from_ranges (q ∷ region))
        (Inside-positive (k ∷ locals) (q ∷ region) h) in
    let outer : e.outer_len * range_len r ≤ e.outer_len * range_len r * rest =
      le-mul_of_pos_right (e.outer_len * range_len r) pos in
    let next : Measures = record (measured l r s e) { outer_len = e.outer_len * range_len r } in
    let (out, m) =
      measure_axes_lem (k ∷ locals) (q ∷ region) (t ∷ strides) next h (omega arith) (omega arith)
        (omega arith) (omega arith) in
    (
      out,
      record {
        runs =
            measure_step l r (k ∷ locals) (q ∷ region) s (t ∷ strides) e low full high (omega arith)
              (omega arith)
            ∙ rw (checked_mul-some e.outer_len (range_len r) (omega arith), m.runs) refl;
        start = omega (arith, m.start);
        offset_span = omega (arith, m.offset_span);
        run_len = λ z. m.run_len (omega arith);
        run_stride = λ z. m.run_stride (omega arith);
        outer_len = λ z. m.outer_len (omega arith) ∙ regroup;
      },
    )
