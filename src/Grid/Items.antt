-- ===== src/Grid/Items.antt =====
-- The iteration of `LocalGrid::iter` over the grid that `LocalGrid::from_pencil` makes of a pencil.
use pencil_rs.Prelude.{
  ℕ, zero, suc, ◌+◌, ◌-◌, ◌*◌, ◌<◌, ◌≡◌, refl, sym, ap, ◌∙◌, List, [], ◌∷◌, true, some, arith,
  length, get_elem?, product, replicate, ok,
}
use native.Mathlib.Nat.{mul-zero}
use pencil_rs.Axis.{unpermute}
use pencil_rs.Geometry.{Range, range_contains, shape_from_ranges}
use pencil_rs.Geometry.Offset.{Within, ravel}
use pencil_rs.Geometry.Tiling.{range_contains_iff_left}
use pencil_rs.Geometry.Cover.{Owns}
use pencil_rs.ExtraShape.{scalar}
use pencil_rs.Pencil.{Pencil}
use pencil_rs.Pencil.Valid.{IsValid, product-local_shape_memory}
use pencil_rs.Array.{local_indices, global_offset}
use pencil_rs.Array.Cells.{Layout, cell, local_offset_lem}
use pencil_rs.Array.Offsets.{permute-Within, unpermute-Within}
use pencil_rs.Transpose.Unpacked.{globals}
use pencil_rs.Transpose.Reads.{globals_onto}
use pencil_rs.Grid.{LocalGrid, from_pencil, iter, get_local}
use pencil_rs.Grid.Odometer.{items, items_lem}
use pencil_rs.Grid.Slices.{tuple_at, Complete, local_axes_lem, any_beyond-Within}
use pencil_rs.Grid.Construct.{Covered-pencil, local_fits, from_pencil-ok}

-- The first tuple of a shape that has tuples.
zeros-Within :
    (shape : List ℕ)
    → 0 < product shape
    → Within shape (replicate (length shape) 0) × (ravel shape (replicate (length shape) 0) ≡ 0)
zeros-Within [] h = (tt, refl)
zeros-Within (zero ∷ shape) h = absurd (omega arith)
zeros-Within (suc e ∷ shape) h =
    let (w, r) = zeros-Within shape (positive (product shape) h) in ((omega arith, w), omega arith)
  where
    positive : (k : ℕ) → 0 < suc e * k → 0 < k
    positive zero h = absurd (omega (arith, mul-zero (suc e)))
    positive (suc k) h = omega arith

local_indices-whole :
    (ranges : List Range) (is : List ℕ)
    → Within (shape_from_ranges ranges) is
    → local_indices ranges (globals ranges is) ≡ some is
unfolding local_indices shape_from_ranges
local_indices-whole [] [] w = refl
local_indices-whole [] (i ∷ is) w = absurd w
local_indices-whole (r ∷ ranges) [] w = absurd w
local_indices-whole (r ∷ ranges) (i ∷ is) (low, w) =
    let inside : range_contains r (r.start + i) ≡ true =
      range_contains_iff_left r (r.start + i) (omega arith) (omega arith) in
    let index : r.start + i - r.start ≡ i = omega arith in
    rw (inside, local_indices-whole ranges is w, index) refl

module _ {n m : ℕ} (p : Pencil) (v : IsValid n m p) where
  -- Where a global index that the process owns is stored, in one batch of the local block.
  place_of :
      (gi : List ℕ)
      → Owns p.local_ranges gi
      → (is sp : List ℕ) × Within p.local_shape_logical is
        × Within p.local_shape_memory sp
        × (globals p.local_ranges is ≡ gi)
        × (unpermute p.permutation sp ≡ some is)
        × (local_indices p.local_ranges gi ≡ some is)
        × (global_offset p scalar [] gi ≡ some (some (ravel p.local_shape_memory sp)))
  unfolding global_offset scalar
  place_of gi own =
      let (is, w, whole) = globals_onto p.local_ranges gi own in
      let wl : Within p.local_shape_logical is = rw v.logical w in
      let layout : Layout n m p scalar = record {
        pencil = v;
        extra = record { count = refl; fits = omega arith };
        fits = omega (arith, local_fits p v);
      } in
      let (sp, forward, ws, run, _) = local_offset_lem layout [] is tt wl in
      let (sq, q) = permute-Within v is wl in
      let same : sp ≡ sq = cc (forward, q.forward) in
      let cell_eq : cell p scalar [] sp ≡ ravel p.local_shape_memory sp = omega arith in
      let locals : local_indices p.local_ranges gi ≡ some is =
        ap (local_indices p.local_ranges) (sym whole) ∙ local_indices-whole p.local_ranges is w in
      (
        is,
        sp,
        wl,
        ws,
        whole,
        ap (unpermute p.permutation) same ∙ q.backward,
        locals,
        rw (locals, run, cell_eq) refl,
      )

  -- For a well-formed pencil and one coordinate axis of the global extent for each spatial axis:
  -- `from_pencil` succeeds, and the calls of `next` on its `iter` give as many items as the local
  -- length and then none, without a panic. The item at the storage offset of a global index that the
  -- process owns holds the coordinates at this global index, one of each axis, and `get_local` gives
  -- the same item at its local indices.
  pub iter-from_pencil_lem {ℓ} :
      {C : Type ℓ} (coordinates : List (List C))
      → Complete p.global_shape coordinates
      → (grid : LocalGrid C) × (xs : List (List C)) × (from_pencil p coordinates ≡ ok grid)
        × (items (suc p.local_len) (iter grid) ≡ some xs)
        × (length xs ≡ p.local_len)
        × ((gi : List ℕ)
            → Owns p.local_ranges gi
            → (o : ℕ) × (is : List ℕ) × (item : List C) × (global_offset p scalar [] gi
                ≡ some (some o))
              × (get_elem? xs o ≡ some item)
              × (local_indices p.local_ranges gi ≡ some is)
              × (get_local grid is ≡ some (some item))
              × (tuple_at coordinates gi ≡ some item))
  unfolding iter unpermute get_local
  iter-from_pencil_lem coordinates complete =
      let (axes, cut, slices) =
        local_axes_lem p.global_shape p.local_ranges coordinates complete (Covered-pencil p v) in
      let table = p.permutation.logical_to_memory in
      let (xs, run, size, at) =
        items_lem axes p.local_shape_memory table
          (λ sp w.
            let (is, wi, q) = unpermute-Within v sp w in
            let (item, here, _, _) = slices sp table is q.backward (rw v.logical at wi) in
            (item, here))
          p.local_len (replicate (length p.local_shape_memory) 0) 0
          (omega (arith, product-local_shape_memory v))
          (λ h. zeros-Within p.local_shape_memory (omega (arith, product-local_shape_memory v))) in
      (
        record {
          axes = axes;
          logical_shape = p.local_shape_logical;
          memory_shape = p.local_shape_memory;
          logical_to_memory = table;
          len = p.local_len;
        },
        xs,
        from_pencil-ok p v coordinates axes complete cut,
        run,
        size,
        λ gi own.
            let (is, sp, wl, ws, whole, back, locals, place) = place_of gi own in
            let (item, here, local, there) = slices sp table is back (rw v.logical at wl) in
            (
              ravel p.local_shape_memory sp,
              is,
              item,
              place,
              at (ravel p.local_shape_memory sp) sp ws (omega arith) ∙ here,
              locals,
              rw (any_beyond-Within p.local_shape_logical is wl, local) refl,
              ap (tuple_at coordinates) (sym whole) ∙ there,
            ),
      )
