-- ===== src/Grid/Slices.antt =====
-- The axis slices that `LocalGrid::from_pencil` keeps, and the coordinates that are read from them.
use pencil_rs.Prelude.{
  ℕ, ◌+◌, ◌<◌, ◌≤◌, ◌≡◌, refl, sym, ◌∙◌, List, [], ◌∷◌, Option, none, some, arith, length,
  get_elem?, and_then, gather, ok, ==-eq_refl, get_elem?-some, lt→leb_false, false,
}
use pencil_rs.Geometry.{Range, shape_from_ranges}
use pencil_rs.Geometry.Offset.{Within}
use pencil_rs.Transpose.Splice.{get_range_lem}
use pencil_rs.Transpose.Unpacked.{globals}
use pencil_rs.Grid.{check_axis_lengths, local_axes, coordinates_at, values_at, any_beyond}

-- The coordinates at a global index: one of each axis.
unfoldable pub tuple_at {ℓ} : {C : Type ℓ} → List (List C) → List ℕ → Option (List C)
tuple_at [] gi = some []
tuple_at (axis ∷ axes) [] = none
tuple_at (axis ∷ axes) (g ∷ gi) =
    and_then (get_elem? axis g)
      (λ coordinate. and_then (tuple_at axes gi) (λ rest. some (coordinate ∷ rest)))

-- One coordinate axis of the global extent for each spatial axis.
abbrev pub Complete {ℓ} : {C : Type ℓ} → List ℕ → List (List C) → Type 0
Complete [] [] = Unit
Complete [] (axis ∷ axes) = ⊥
Complete (extent ∷ shape) [] = ⊥
Complete (extent ∷ shape) (axis ∷ axes) = (length axis ≡ extent) × Complete shape axes

-- Ranges within the extents.
abbrev pub Covered : List ℕ → List Range → Type 0
Covered [] [] = Unit
Covered [] (range ∷ ranges) = ⊥
Covered (extent ∷ shape) [] = ⊥
Covered (extent ∷ shape) (range ∷ ranges) =
    (range.start ≤ range.end) × ((range.end ≤ extent) × Covered shape ranges)

pub any_beyond-Within : (shape is : List ℕ) → Within shape is → any_beyond shape is ≡ some false
unfolding any_beyond
any_beyond-Within [] [] w = refl
any_beyond-Within [] (i ∷ is) w = absurd w
any_beyond-Within (e ∷ shape) [] w = refl
any_beyond-Within (e ∷ shape) (i ∷ is) (low, w) =
    rw (lt→leb_false i e low, any_beyond-Within shape is w) refl

gather_cons :
    (sp : List ℕ) (position : ℕ) (positions : List ℕ) (i : ℕ) (is : List ℕ)
    → gather sp (position ∷ positions) ≡ some (i ∷ is)
    → (get_elem? sp position ≡ some i) × (gather sp positions ≡ some is)
unfolding gather
gather_cons sp position positions i is e = both (get_elem? sp position) (gather sp positions) e
  where
    both :
        (a : Option ℕ) (b : Option (List ℕ))
        → and_then a (λ x. and_then b (λ ys. some (x ∷ ys))) ≡ some (i ∷ is)
        → (a ≡ some i) × (b ≡ some is)
    both none b e = absurd (cc)
    both (some a) none e = absurd (cc)
    both (some a) (some b) e = (cc, cc)

gather_nil : (sp : List ℕ) (i : ℕ) (is : List ℕ) → gather sp [] ≡ some (i ∷ is) → ⊥
unfolding gather
gather_nil sp i is e = cc

module _ {ℓ} {C : Type ℓ} where
  pub check_axis_lengths-ok :
      (axis : ℕ) (shape : List ℕ) (coordinates : List (List C))
      → Complete shape coordinates
      → check_axis_lengths axis shape coordinates ≡ ok tt
  unfolding check_axis_lengths
  check_axis_lengths-ok axis [] [] h = refl
  check_axis_lengths-ok axis [] (c ∷ coordinates) h = absurd h
  check_axis_lengths-ok axis (e ∷ shape) [] h = absurd h
  check_axis_lengths-ok axis (e ∷ shape) (c ∷ coordinates) (len, h) =
      rw (len, ==-eq_refl e, check_axis_lengths-ok (axis + 1) shape coordinates h) refl

  -- One more axis: its slice is read where the axis is read at the global index.
  slice_item :
      (axes coordinates : List (List C)) (ranges : List Range) (x slice : List C) (r : Range)
      → length slice + r.start ≡ r.end
      → ((k : ℕ) → r.start + k < r.end → get_elem? slice k ≡ get_elem? x (r.start + k))
      → ((sp positions is : List ℕ)
          → gather sp positions ≡ some is
          → Within (shape_from_ranges ranges) is
          → (item : List C) × (coordinates_at axes positions sp ≡ some item)
            × (values_at axes is ≡ some item)
            × (tuple_at coordinates (globals ranges is) ≡ some item))
      → (sp positions is : List ℕ) → gather sp positions ≡ some is
      → Within (shape_from_ranges (r ∷ ranges)) is
      → (item : List C) × (coordinates_at (slice ∷ axes) positions sp ≡ some item)
        × (values_at (slice ∷ axes) is ≡ some item)
        × (tuple_at (x ∷ coordinates) (globals (r ∷ ranges) is) ≡ some item)
  unfolding coordinates_at values_at tuple_at shape_from_ranges
  slice_item axes coordinates ranges x slice r size reads items sp positions [] g w = absurd w
  slice_item axes coordinates ranges x slice r size reads items sp [] (i ∷ is) g w =
      absurd (gather_nil sp i is g)
  slice_item axes coordinates ranges x slice r size reads items sp (position ∷ positions) (i ∷ is) g
        (low, w) =
      let (index, rest) = gather_cons sp position positions i is g in
      let (item, here, local, there) = items sp positions is rest w in
      let (coordinate, at) = get_elem?-some slice i (omega arith) in
      let global : get_elem? x (r.start + i) ≡ some coordinate = sym (reads i (omega arith)) ∙ at in
      (coordinate ∷ item, rw (index, at, here) refl, rw (at, local) refl, rw (global, there) refl)

  -- The slices hold, at the positions of local indices, the coordinates at the global indices.
  pub local_axes_lem :
      (shape : List ℕ) (ranges : List Range) (coordinates : List (List C))
      → Complete shape coordinates
      → Covered shape ranges
      → (axes : List (List C)) × (local_axes ranges coordinates ≡ some axes)
        × ((sp positions is : List ℕ)
            → gather sp positions ≡ some is
            → Within (shape_from_ranges ranges) is
            → (item : List C) × (coordinates_at axes positions sp ≡ some item)
              × (values_at axes is ≡ some item)
              × (tuple_at coordinates (globals ranges is) ≡ some item))
  unfolding local_axes coordinates_at values_at tuple_at shape_from_ranges gather
  local_axes_lem [] [] [] h c = ([], refl, λ sp positions is g w. ([], refl, refl, refl))
  local_axes_lem [] [] (x ∷ coordinates) h c = absurd h
  local_axes_lem [] (r ∷ ranges) coordinates h c = absurd c
  local_axes_lem (e ∷ shape) [] coordinates h c = absurd c
  local_axes_lem (e ∷ shape) (r ∷ ranges) [] h c = absurd h
  local_axes_lem (e ∷ shape) (r ∷ ranges) (x ∷ coordinates) (len, h) (low, (high, c)) =
      let (slice, cut, size, reads) = get_range_lem x r.start r.end low (omega arith) in
      let (axes, run, items) = local_axes_lem shape ranges coordinates h c in
      (
        slice ∷ axes,
        rw (cut, run) refl,
        slice_item axes coordinates ranges x slice r size reads items,
      )
