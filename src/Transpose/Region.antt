-- ===== src/Transpose/Region.antt =====
-- `region_walk` on a region inside a pencil's local ranges.
use pencil_rs.Prelude.{
  ℕ, suc, ◌+◌, ◌-◌, ◌<◌, ◌≤◌, ◌≡◌, refl, sym, ap, ◌∙◌, List, [], ◌∷◌, some, arith, length, All,
  product, replicate, gather,
}
use pencil_rs.Word.{usize_max}
use pencil_rs.Axis.{permute, unpermute}
use pencil_rs.Geometry.{Range, range_len, shape_from_ranges}
use pencil_rs.Geometry.Offset.{Within, ravel, ravel-lt-product, length-Within}
use pencil_rs.LocalTranspose.Linear.{ravel_injective}
use pencil_rs.Pencil.{Pencil}
use pencil_rs.Pencil.Valid.{
  IsValid, length-local_ranges, length-local_shape_logical, product-local_shape_memory,
}
use pencil_rs.Array.Offsets.{Permuted, permute-Within}
use pencil_rs.Transpose.Walk.{RegionWalk, Measures, layout_of, region_walk}
use pencil_rs.Transpose.Odometer.{dot, span}
use pencil_rs.Transpose.Strides.{strides_of_shape}
use pencil_rs.Transpose.Measure.{Inside, shifted, corner}

pub length-Inside :
    (locals region : List Range) → Inside locals region → length region ≡ length locals
length-Inside [] [] h = refl
length-Inside [] (r ∷ region) h = absurd h
length-Inside (l ∷ locals) [] h = absurd h
length-Inside (l ∷ locals) (r ∷ region) h = ap suc (length-Inside locals region h.3)

-- The local indices of a tuple of the region are within the local shape.
pub shifted-Within :
    (locals region : List Range) (is : List ℕ)
    → Inside locals region
    → Within (shape_from_ranges region) is
    → Within (shape_from_ranges locals) (shifted locals region is)
unfolding shape_from_ranges
shifted-Within [] [] [] h w = tt
shifted-Within [] [] (i ∷ is) h w = absurd w
shifted-Within [] (r ∷ region) is h w = absurd h
shifted-Within (l ∷ locals) [] is h w = absurd h
shifted-Within (l ∷ locals) (r ∷ region) [] h w = absurd w
shifted-Within (l ∷ locals) (r ∷ region) (i ∷ is) (low, full, high, h) (b, w) =
    (omega arith, shifted-Within locals region is h w)

-- The offset of a shifted tuple is that of the corner and that of the tuple.
dot-shifted :
    (locals region : List Range) (strides is : List ℕ)
    → Inside locals region
    → Within (shape_from_ranges region) is
    → dot strides (shifted locals region is) ≡ dot strides (corner locals region) + dot strides is
unfolding shape_from_ranges
dot-shifted [] [] [] [] h w = refl
dot-shifted [] [] (s ∷ strides) [] h w = refl
dot-shifted [] [] strides (i ∷ is) h w = absurd w
dot-shifted [] (r ∷ region) strides is h w = absurd h
dot-shifted (l ∷ locals) [] strides is h w = absurd h
dot-shifted (l ∷ locals) (r ∷ region) strides [] h w = absurd w
dot-shifted (l ∷ locals) (r ∷ region) [] (i ∷ is) h w = refl
dot-shifted (l ∷ locals) (r ∷ region) (s ∷ strides) (i ∷ is) h w =
    omega (arith, dot-shifted locals region strides is h.3 w.1)

-- Tuples with the same shift are the same.
shifted_injective :
    (locals region : List Range) (is js : List ℕ)
    → Within (shape_from_ranges region) is
    → Within (shape_from_ranges region) js
    → Inside locals region
    → shifted locals region is ≡ shifted locals region js
    → is ≡ js
unfolding shape_from_ranges
shifted_injective [] [] [] [] w u h e = refl
shifted_injective [] [] (i ∷ is) js w u h e = absurd w
shifted_injective [] [] [] (j ∷ js) w u h e = absurd u
shifted_injective [] (r ∷ region) is js w u h e = absurd h
shifted_injective (l ∷ locals) [] is js w u h e = absurd h
shifted_injective (l ∷ locals) (r ∷ region) [] js w u h e = absurd w
shifted_injective (l ∷ locals) (r ∷ region) (i ∷ is) [] w u h e = absurd u
shifted_injective (l ∷ locals) (r ∷ region) (i ∷ is) (j ∷ js) w u h e =
    let head : r.start - l.start + i ≡ r.start - l.start + j = cc in
    let tail : shifted locals region is ≡ shifted locals region js = cc in
    let same : i ≡ j = omega arith in
    rw (same, shifted_injective locals region is js w.1 u.1 h.3 tail) refl

-- The last tuple of the region.
pub tops : List Range → List ℕ
tops [] = []
tops (r ∷ region) = (range_len r - 1) ∷ tops region

pub tops-Within :
    (locals region : List Range)
    → Inside locals region
    → Within (shape_from_ranges region) (tops region)
unfolding tops shape_from_ranges
tops-Within [] [] h = tt
tops-Within [] (r ∷ region) h = absurd h
tops-Within (l ∷ locals) [] h = absurd h
tops-Within (l ∷ locals) (r ∷ region) (low, full, high, h) =
    (omega arith, tops-Within locals region h)

pub span-tops :
    (strides : List ℕ) (region : List Range)
    → span strides (shape_from_ranges region) ≡ dot strides (tops region)
unfolding tops shape_from_ranges
span-tops [] [] = refl
span-tops [] (r ∷ region) = refl
span-tops (s ∷ strides) [] = refl
span-tops (s ∷ strides) (r ∷ region) = omega (arith, span-tops strides region)

-- The elements of a region are no more than those of the local ranges.
pub product-Inside :
    (locals region : List Range)
    → Inside locals region
    → product (shape_from_ranges region) ≤ product (shape_from_ranges locals)
unfolding shape_from_ranges
product-Inside [] [] h = omega arith
product-Inside [] (r ∷ region) h = absurd h
product-Inside (l ∷ locals) [] h = absurd h
product-Inside (l ∷ locals) (r ∷ region) (low, full, high, h) =
    native.Mathlib.Nat.mul-le-mul (omega arith) (product-Inside locals region h)

pub Within-positive : (shape is : List ℕ) → Within shape is → All (λ e. 0 < e) shape
Within-positive [] is w = tt
Within-positive (e ∷ shape) [] w = absurd w
Within-positive (e ∷ shape) (i ∷ is) w = (omega (arith, w.0), Within-positive shape is w.1)

-- Where a tuple of the region stands in memory: the row-major number of its local indices in memory
-- order.
pub record Stands (p : Pencil) (region : List Range) (is : List ℕ) (offset : ℕ) : Type 0 where
  pub mem : List ℕ
  pub permuted : Permuted p (shifted p.local_ranges region is) mem
  pub number : offset ≡ ravel p.local_shape_memory mem

module _ {n m : ℕ} {p : Pencil} (v : IsValid n m p) (region : List Range)
    (h : Inside p.local_ranges region) where
  pub rank : length region ≡ n
  rank = length-Inside p.local_ranges region h ∙ length-local_ranges v

  abbrev pub extents : List ℕ
  extents = shape_from_ranges region

  Permuted-tuple :
      (is : List ℕ)
      → Within extents is
      → (mem : List ℕ) × Permuted p (shifted p.local_ranges region is) mem
  Permuted-tuple is w =
      permute-Within v (shifted p.local_ranges region is)
        (rw v.logical (shifted-Within p.local_ranges region is h w))

  pub size_fits : product p.local_shape_memory ≤ usize_max
  size_fits = omega (arith, product-local_shape_memory v, v.local_bound, v.global_fits)

  pub length-memory : length p.local_shape_memory ≡ n
  length-memory =
      let (ys, run, len, back) =
        pencil_rs.Axis.RoundTrip.unpermute-permute v.permutation p.local_shape_logical
          (length-local_shape_logical v) in
      let same : ys ≡ p.local_shape_memory = cc (v.memory) in rw (← same) len

  -- The strides, and the offset of each tuple from the corner of the local ranges.
  pub strides :
      (out : List ℕ) × (pencil_rs.Transpose.Walk.store_strides
          (replicate n 0)
          p.permutation.axes_in_memory_order
          p.local_shape_memory
        ≡ some (out, product p.local_shape_memory))
      × (length out ≡ n)
      × ((is mem : List ℕ)
          → length is ≡ n
          → gather is p.permutation.axes_in_memory_order ≡ some mem
          → dot out is ≡ ravel p.local_shape_memory mem)
  strides =
      let (mem, q) = Permuted-tuple (tops region) (tops-Within p.local_ranges region h) in
      strides_of_shape n p.permutation.axes_in_memory_order p.local_shape_memory
        v.permutation.perm.size length-memory v.permutation.perm.below v.permutation.perm.distinct
        (Within-positive p.local_shape_memory mem q.within) size_fits

  pub offset_of :
      (is : List ℕ)
      → Within extents is
      → Stands p region is (dot strides.0 (corner p.local_ranges region) + dot strides.0 is)
  unfolding permute
  offset_of is w =
      let (mem, q) = Permuted-tuple is w in
      let within : Within p.local_shape_logical (shifted p.local_ranges region is) =
        rw v.logical (shifted-Within p.local_ranges region is h w) in
      let size : length (shifted p.local_ranges region is) ≡ n =
        sym (length-Within p.local_shape_logical (shifted p.local_ranges region is) within)
        ∙ length-local_shape_logical v in
      record {
        mem = mem;
        permuted = q;
        number =
            sym (dot-shifted p.local_ranges region strides.0 is h w)
            ∙ strides.3 (shifted p.local_ranges region is) mem size q.forward;
      }

  pub offset_fits :
      (is : List ℕ)
      → Within extents is
      → dot strides.0 (corner p.local_ranges region) + dot strides.0 is < p.local_len
  offset_fits is w =
      let o = offset_of is w in
      omega (
        arith,
        o.number,
        ravel-lt-product p.local_shape_memory o.mem o.permuted.within,
        product-local_shape_memory v,
      )

  pub offset_unique :
      (is js : List ℕ)
      → Within extents is
      → Within extents js
      → dot strides.0 is ≡ dot strides.0 js
      → is ≡ js
  offset_unique is js w u e =
      let a = offset_of is w in
      let b = offset_of js u in
      let same : a.mem ≡ b.mem =
        ravel_injective p.local_shape_memory a.mem b.mem a.permuted.within b.permuted.within (
          sym a.number
          ∙ ap (λ (t : ℕ). dot strides.0 (corner p.local_ranges region) + t) e
          ∙ b.number) in
      let back : shifted p.local_ranges region is ≡ shifted p.local_ranges region js =
        agree (a.mem) (b.mem) same a.permuted.backward b.permuted.backward in
      shifted_injective p.local_ranges region is js w u h back
    where
      agree :
          (x y : List ℕ)
          → x ≡ y
          → {s t : List ℕ} → unpermute p.permutation x ≡ some s
          → unpermute p.permutation y ≡ some t
          → s ≡ t
      agree x y e f g = unfold unpermute in cc
