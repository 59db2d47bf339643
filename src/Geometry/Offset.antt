-- ===== src/Geometry/Offset.antt =====
-- Row-major offsets: the code's Horner loop computes the mixed-radix number of an index tuple.
use pencil_rs.Prelude.{
  ℕ, zero, suc, ◌+◌, ◌*◌, ◌<◌, ◌≤◌, ◌≡◌, refl, ap, ◌∙◌, List, [], ◌∷◌, some, none, arith, leb, ◌==◌,
  length, get_elem?, product, and_then, ok, ok_or, Bool-cases, inl, inr, leb_false→lt, lt→leb_false,
  ==-eq_refl, ==_iff, Option, >>=-eq-ok,
}
use native.Mathlib.Nat.{mul-le-mul_right, le-mul_of_pos_right}
use pencil_rs.Word.{usize_max, checked_add, checked_mul, checked_mul-some, checked_add-some}
use pencil_rs.Error.{GeometryError}
use pencil_rs.Geometry.{offset_from, row_major_offset}

-- The tuple has the rank of the shape, and each index is below its extent.
abbrev pub Within : List ℕ → List ℕ → Type 0
Within [] [] = Unit
Within (extent ∷ shape) (i ∷ is) = (i < extent) × Within shape is
Within [] (i ∷ is) = ⊥
Within (extent ∷ shape) [] = ⊥

-- The place of a tuple in the lexicographic order of all tuples of the shape.
abbrev pub ravel : List ℕ → List ℕ → ℕ
ravel (extent ∷ shape) (i ∷ is) = i * product shape + ravel shape is
ravel [] is = 0
ravel (extent ∷ shape) [] = 0

pub ravel-lt-product : (shape is : List ℕ) → Within shape is → ravel shape is < product shape
ravel-lt-product [] [] w = omega arith
ravel-lt-product [] (i ∷ is) w = absurd w
ravel-lt-product (e ∷ shape) [] w = absurd w
ravel-lt-product (e ∷ shape) (i ∷ is) w =
    let rest : ravel shape is < product shape = ravel-lt-product shape is w.1 in
    let step : (i + 1) * product shape ≤ e * product shape =
      mul-le-mul_right (product shape) (omega (arith, w.0)) in
    omega arith

pub length-Within : (shape is : List ℕ) → Within shape is → length shape ≡ length is
length-Within [] [] w = refl
length-Within [] (i ∷ is) w = absurd w
length-Within (e ∷ shape) [] w = absurd w
length-Within (e ∷ shape) (i ∷ is) w = ap suc (length-Within shape is w.1)

pub get_elem?-Within :
    (shape is : List ℕ) (a e i : ℕ)
    → Within shape is
    → get_elem? shape a ≡ some e
    → get_elem? is a ≡ some i
    → i < e
get_elem?-Within [] is a e i w p q = absurd (cc)
get_elem?-Within (x ∷ shape) [] a e i w p q = absurd w
get_elem?-Within (x ∷ shape) (j ∷ is) zero e i w p q =
    let f : x ≡ e = cc in let g : j ≡ i = cc in omega (arith, w.0)
get_elem?-Within (x ∷ shape) (j ∷ is) (suc a) e i w p q = get_elem?-Within shape is a e i w.1 p q

product_pos : (shape is : List ℕ) → Within shape is → 0 < product shape
product_pos shape is w = omega (arith, ravel-lt-product shape is w)

-- With room for (offset + 1) * product, no step overflows.
offset_from-eq :
    (axis offset : ℕ) (shape is : List ℕ)
    → Within shape is
    → (offset + 1) * product shape ≤ usize_max + 1
    → offset_from axis offset shape is ≡ ok (offset * product shape + ravel shape is)
unfolding offset_from
offset_from-eq axis offset [] [] w room = ap ok (omega arith)
offset_from-eq axis offset [] (i ∷ is) w room = absurd w
offset_from-eq axis offset (e ∷ shape) [] w room = absurd w
offset_from-eq axis offset (e ∷ shape) (i ∷ is) w room =
    let pos : 0 < product shape = product_pos shape is w.1 in
    let grown : (offset + 1) * e ≤ (offset + 1) * e * product shape =
      le-mul_of_pos_right ((offset + 1) * e) pos in
    let fits : offset * e + i ≤ usize_max = omega arith in
    let step : (offset * e + i + 1) * product shape ≤ (offset * e + e) * product shape =
      mul-le-mul_right (product shape) (omega (arith, w.0)) in
    rw
      (
        lt→leb_false i e w.0,
        checked_mul-some offset e (omega arith),
        checked_add-some (offset * e) i fits,
      )
      (offset_from-eq (axis + 1) (offset * e + i) shape is w.1 (omega arith) ∙ ap ok (omega arith))

-- For a tuple within a shape whose element count fits usize, `row_major_offset` returns the place of
-- the tuple in row-major order, which is below the element count.
pub row_major_offset_lem :
    (shape is : List ℕ)
    → Within shape is
    → product shape ≤ usize_max
    → (row_major_offset shape is ≡ ok (ravel shape is)) × (ravel shape is < product shape)
unfolding row_major_offset
row_major_offset_lem shape is w fits = (
  rw (length-Within shape is w, ==-eq_refl (length is))
      (offset_from-eq 0 0 shape is w (omega arith) ∙ ap ok (omega arith)),
  ravel-lt-product shape is w,
)

horner_step :
    (offset e i k : ℕ)
    → and_then (checked_mul offset e) (λ base. checked_add base i) ≡ some k
    → k ≡ offset * e + i
unfolding checked_mul checked_add
horner_step offset e i k h = ground arith

offset_from_sound :
    (axis offset : ℕ) (shape is : List ℕ) {o : ℕ}
    → length shape ≡ length is
    → offset_from axis offset shape is ≡ ok o
    → Within shape is × (o ≡ offset * product shape + ravel shape is)
unfolding offset_from
offset_from_sound axis offset [] [] {o} len h = (tt, let e : offset ≡ o = cc in omega arith)
offset_from_sound axis offset [] (i ∷ is) len h = absurd (omega arith)
offset_from_sound axis offset (e ∷ shape) [] len h = absurd (omega arith)
offset_from_sound axis offset (e ∷ shape) (i ∷ is) {o} len h = elim (Bool-cases (leb e i)) [
  | inl out ↦ absurd (cc (rw out at h))
  | inr within ↦
      let (next, q, p) = >>=-eq-ok _ _ (rw within at h) in
      let step : next ≡ offset * e + i = horner_step offset e i next (some_of_ok_or _ p) in
      let (w, r) = offset_from_sound (axis + 1) next shape is (omega arith) q in
      ((leb_false→lt e i within, w), omega (arith, ap (λ (t : ℕ). t * product shape) step))
]
  where
    some_of_ok_or : (x : Option ℕ) {k : ℕ} → ok_or x GeometryError.size_overflow ≡ ok k → x ≡ some k
    some_of_ok_or none e = absurd (cc)
    some_of_ok_or (some y) e = cc

-- Whenever `row_major_offset` returns an offset, the tuple has the rank of the shape, each index is
-- below its extent, and the offset is the place of the tuple in row-major order.
pub row_major_offset_sound :
    (shape is : List ℕ) {o : ℕ}
    → row_major_offset shape is ≡ ok o
    → Within shape is × (o ≡ ravel shape is)
unfolding row_major_offset
row_major_offset_sound shape is {o} h = elim (Bool-cases (length shape == length is)) [
  | inr differ ↦ absurd (cc (rw differ at h))
  | inl same ↦
      let (w, r) =
        offset_from_sound 0 0 shape is ((==_iff (length shape) (length is)).0 same)
          (rw same at h) in
      (w, omega arith)
]
