-- ===== src/Transpose/Reads.antt =====
-- Global reads of the elements of a region, and the tuples of a region as global indices.
use pencil_rs.Prelude.{
  ℕ, ◌+◌, ◌-◌, ◌*◌, ◌<◌, ◌≤◌, ◌≡◌, refl, sym, ap, ◌∙◌, List, [], ◌∷◌, true, some, arith, length,
  get_elem?, set, get_elem?-set_self, get_elem?-set_ne, length-set, lt_of_get_elem?,
}
use native.Mathlib.Decide.{ℕ_discrete}
use pencil_rs.Axis.{AxisPermutation, permute}
use pencil_rs.Geometry.{Range, range_contains, shape_from_ranges}
use pencil_rs.Geometry.Offset.{Within, ravel}
use pencil_rs.Geometry.Tiling.{range_contains_iff_left, range_contains_iff_right}
use pencil_rs.Geometry.Cover.{Owns}
use pencil_rs.Array.{PencilArray, local_indices, get_global}
use pencil_rs.Array.Cells.{cell, local_offset_lem}
use pencil_rs.Array.Access.{IsArray, Owns-tail}
use pencil_rs.Transpose.Measure.{Inside, shifted}
use pencil_rs.Transpose.Region.{Stands, shifted-Within}
use pencil_rs.Transpose.Unpacked.{globals}

-- The local indices of a tuple's global indices.
local_indices-globals :
    (locals region : List Range) (is : List ℕ)
    → Inside locals region
    → Within (shape_from_ranges region) is
    → local_indices locals (globals region is) ≡ some (shifted locals region is)
unfolding local_indices shape_from_ranges
local_indices-globals [] [] is h w = refl
local_indices-globals [] (r ∷ region) is h w = absurd h
local_indices-globals (l ∷ locals) [] is h w = absurd h
local_indices-globals (l ∷ locals) (r ∷ region) [] h w = absurd w
local_indices-globals (l ∷ locals) (r ∷ region) (i ∷ is) (low, full, high, h) (b, w) =
    let inside : range_contains l (r.start + i) ≡ true =
      range_contains_iff_left l (r.start + i) (omega arith) (omega arith) in
    let index : r.start + i - l.start ≡ r.start - l.start + i = omega arith in
    rw (inside, local_indices-globals locals region is h w, index) refl

permute_agrees :
    (p : AxisPermutation) (s : List ℕ) {x y : List ℕ}
    → permute p s ≡ some x
    → permute p s ≡ some y
    → x ≡ y
permute_agrees p s e f = unfold permute in cc

-- A global read of an element of a region is a read at its offset in its block.
pub get_global-Stands {ℓ} :
    {T : Type ℓ} {n m : ℕ} (a : PencilArray T) (region : List Range) (ei is : List ℕ) (offset : ℕ)
    → IsArray n m a
    → Inside a.pencil.local_ranges region
    → Within a.extra_shape.dimensions ei
    → Within (shape_from_ranges region) is
    → Stands a.pencil region is offset
    → get_global a ei (globals region is)
      ≡ some (get_elem? a.storage (ravel a.extra_shape.dimensions ei * a.pencil.local_len + offset))
unfolding get_global
get_global-Stands a region ei is offset v h we w st =
    let within = shifted-Within a.pencil.local_ranges region is h w in
    let (sp, forward, _, run, lt) =
      local_offset_lem v.layout ei (shifted a.pencil.local_ranges region is) we
        (rw v.layout.pencil.logical within) in
    let same : sp ≡ st.mem =
      permute_agrees a.pencil.permutation (shifted a.pencil.local_ranges region is) forward
        st.permuted.forward in
    let place : cell a.pencil a.extra_shape ei sp
        ≡ ravel a.extra_shape.dimensions ei * a.pencil.local_len + offset =
      ap (λ (t : List ℕ). cell a.pencil a.extra_shape ei t) same ∙ omega (arith, st.number) in
    rw (local_indices-globals a.pencil.local_ranges region is h w, run, place, get_global) refl

-- A global tuple that a block holds is that of one of its tuples.
pub globals_onto :
    (ranges : List Range) (gi : List ℕ)
    → Owns ranges gi
    → (is : List ℕ) × Within (shape_from_ranges ranges) is × (globals ranges is ≡ gi)
unfolding shape_from_ranges
globals_onto [] [] own = ([], tt, refl)
globals_onto [] (g ∷ gi) own = absurd (omega (arith, own.0))
globals_onto (r ∷ ranges) [] own = absurd (omega (arith, own.0))
globals_onto (r ∷ ranges) (g ∷ gi) own =
    let bounds = range_contains_iff_right r g (own.1 0 r g refl refl) in
    let (is, w, e) = globals_onto ranges gi (Owns-tail r ranges g gi own) in
    let head : r.start + (g - r.start) ≡ g = omega arith in
    ((g - r.start) ∷ is, (omega arith, w), rw (head, e) refl)

-- A block cut at one axis holds the tuples of the block whose index lies in the cut.
pub Owns-set :
    (ranges : List Range) (a : ℕ) (r : Range) (gi : List ℕ) (g : ℕ)
    → Owns ranges gi
    → get_elem? gi a ≡ some g
    → range_contains r g ≡ true
    → Owns (set ranges a r) gi
Owns-set ranges a r gi g own at inside = (
  own.0 ∙ sym (length-set ranges a r),
  λ b s i p q. elim (ℕ_discrete a b) [
    | yes same ↦
        let index : g ≡ i = number (sym at ∙ ap (get_elem? gi) same ∙ q) in
        let below : a < length ranges =
          omega (arith, lt_of_get_elem? (set ranges a r) b p, length-set ranges a r) in
        let range : r ≡ s =
          piece (
            sym (get_elem?-set_self ranges a r below) ∙ ap (get_elem? (set ranges a r)) same ∙ p) in
        rw (← index, ← range) inside
    | no other ↦ own.1 b s i (sym (get_elem?-set_ne ranges a b r other) ∙ p) q
  ],
)
  where
    number : {x y : ℕ} → some x ≡ some y → x ≡ y
    number e = cc

    piece : {x y : Range} → some x ≡ some y → x ≡ y
    piece e = cc

-- The block holds what the cut holds.
pub Owns-of_set :
    (ranges : List Range) (a : ℕ) (outer r : Range) (gi : List ℕ)
    → get_elem? ranges a ≡ some outer
    → outer.start ≤ r.start
    → r.end ≤ outer.end
    → Owns (set ranges a r) gi
    → Owns ranges gi
Owns-of_set ranges a outer r gi whole low high own = (
  own.0 ∙ length-set ranges a r,
  λ b s i p q. elim (ℕ_discrete a b) [
    | no other ↦ own.1 b s i (get_elem?-set_ne ranges a b r other ∙ p) q
    | yes same ↦
        let range : outer ≡ s = piece (sym whole ∙ ap (get_elem? ranges) same ∙ p) in
        let cut : get_elem? (set ranges a r) b ≡ some r =
          ap (get_elem? (set ranges a r)) (sym same)
          ∙ get_elem?-set_self ranges a r (lt_of_get_elem? ranges a whole) in
        let bounds = range_contains_iff_right r i (own.1 b r i cut q) in
        rw (← range) (range_contains_iff_left outer i (omega arith) (omega arith))
  ],
)
  where
    piece : {x y : Range} → some x ≡ some y → x ≡ y
    piece e = cc
