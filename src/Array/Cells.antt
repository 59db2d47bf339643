-- ===== src/Array/Cells.antt =====
-- `local_offset` is a bijection between the logical indices and the positions of the storage.
use pencil_rs.Prelude.{
  ℕ, zero, suc, ◌+◌, ◌*◌, ◌/◌, ◌%◌, ◌<◌, ◌≤◌, ◌≡◌, sym, ap, ◌∙◌, List, ◌++◌, some, arith, length,
  product, product-append, ok, ==-eq_refl,
}
use native.Mathlib.Nat.{mul-le-mul_right, mod-lt, div-add-mod', div-lt_iff_lt-mul}
use pencil_rs.Word.{usize_max}
use pencil_rs.Axis.{permute}
use pencil_rs.Geometry.Offset.{Within, ravel, ravel-lt-product, row_major_offset_lem, length-Within}
use pencil_rs.Geometry.Ravel.{ravel-append, Within-append, ravel_onto}
use pencil_rs.ExtraShape.{ExtraShape}
use pencil_rs.ExtraShape.{IsValid as IsExtraShape}
use pencil_rs.LocalTranspose.Linear.{ravel_injective}
use pencil_rs.Pencil.{Pencil}
use pencil_rs.Pencil.Valid.{IsValid, product-local_shape_memory}
use pencil_rs.Array.{local_offset}
use pencil_rs.Array.Offsets.{permute-Within, unpermute-Within}

-- The position of an element: its extra block, and its place in the block.
abbrev pub cell : Pencil → ExtraShape → List ℕ → List ℕ → ℕ
cell p x ei sp = ravel x.dimensions ei * p.local_len + ravel p.local_shape_memory sp

-- A block number below a count and a place below the block's length stay below the total.
pub block_bound : (q l k r : ℕ) → q < k → r < l → q * l + r < k * l
block_bound q l k r h s =
    let t : (q + 1) * l ≤ k * l = mul-le-mul_right l (omega arith) in omega arith

-- Block and place are determined by the position.
pub block_unique : (q r l k s : ℕ) → r < l → s < l → q * l + r ≡ k * l + s → (q ≡ k) × (r ≡ s)
block_unique q r l k s hr hs e = elim (native.Mathlib.Decide.dec_lt q k) [
  | yes lt ↦ absurd (let t : (q + 1) * l ≤ k * l = mul-le-mul_right l (omega arith) in omega arith)
  | no ge ↦ elim (native.Mathlib.Decide.dec_lt k q) [
    | yes gt ↦
        absurd (let t : (k + 1) * l ≤ q * l = mul-le-mul_right l (omega arith) in omega arith)
    | no le ↦ let same : q ≡ k = omega arith in (same, cancel same)
  ]
]
  where
    cancel : q ≡ k → r ≡ s
    cancel same = omega (arith, ap (λ (t : ℕ). t * l) same)

-- A position below the total has a block and a place.
pub block_split : (o k l : ℕ) → o < k * l → (o / l < k) × (o % l < l) × (o / l * l + o % l ≡ o)
block_split o k zero h = absurd (omega arith)
block_split o k (suc l) h =
    let pos : 0 < suc l = omega arith in
    ((div-lt_iff_lt-mul pos).1 h, mod-lt o pos, div-add-mod' o (suc l))

-- The arguments of an access: a constructed pencil, a constructed extra shape, and a storage whose
-- length fits usize.
pub record Layout (n m : ℕ) (p : Pencil) (x : ExtraShape) : Type 0 where
  pub pencil : IsValid n m p
  pub extra : IsExtraShape x
  pub fits : x.element_count * p.local_len ≤ usize_max

module _ {n m : ℕ} {p : Pencil} {x : ExtraShape} (l : Layout n m p x) where
  memory_product : product (x.dimensions ++ p.local_shape_memory) ≡ x.element_count * p.local_len
  memory_product =
      product-append x.dimensions p.local_shape_memory
      ∙ ap (λ (t : ℕ). product x.dimensions * t) (product-local_shape_memory l.pencil)
      ∙ ap (λ (t : ℕ). t * p.local_len) (sym l.extra.count)

  pub cell-lt :
      (ei sp : List ℕ)
      → Within x.dimensions ei
      → Within p.local_shape_memory sp
      → cell p x ei sp < x.element_count * p.local_len
  cell-lt ei sp we ws =
      block_bound (ravel x.dimensions ei) p.local_len x.element_count
        (ravel p.local_shape_memory sp)
        (omega (arith, ravel-lt-product x.dimensions ei we, l.extra.count))
        (omega
          (arith, ravel-lt-product p.local_shape_memory sp ws, product-local_shape_memory l.pencil))

  -- For a pencil and an extra shape that satisfy their invariants, with a storage length that fits
  -- usize: indices within the extra dimensions and the local shape have an offset below the storage
  -- length, which is the row-major place of the extra indices followed by the spatial indices in
  -- memory order.
  pub local_offset_lem :
      (ei si : List ℕ)
      → Within x.dimensions ei
      → Within p.local_shape_logical si
      → (sp : List ℕ) × (permute p.permutation si ≡ some sp)
        × Within p.local_shape_memory sp
        × (local_offset p x ei si ≡ ok (cell p x ei sp))
        × (cell p x ei sp < x.element_count * p.local_len)
  unfolding local_offset permute
  local_offset_lem ei si we ws =
      let (sp, q) = permute-Within l.pencil si ws in
      let within = Within-append x.dimensions p.local_shape_memory ei sp we q.within in
      let run =
        row_major_offset_lem (x.dimensions ++ p.local_shape_memory) (ei ++ sp) within
          (rw memory_product l.fits) in
      let place : ravel (x.dimensions ++ p.local_shape_memory) (ei ++ sp) ≡ cell p x ei sp =
        ravel-append x.dimensions p.local_shape_memory ei sp we
        ∙ ap (λ (t : ℕ). ravel x.dimensions ei * t + ravel p.local_shape_memory sp)
            (product-local_shape_memory l.pencil) in
      (
        sp,
        q.forward,
        q.within,
        rw (
          sym (length-Within x.dimensions ei we),
          ==-eq_refl (length x.dimensions),
          q.forward,
          run.0,
          place,
        ),
        cell-lt ei sp we q.within,
      )

  -- For a pencil and an extra shape that satisfy their invariants, with a storage length that fits
  -- usize, and indices within the extra dimensions and the local shape: two elements with one offset
  -- have the same indices.
  pub local_offset_injective :
      (ei si ej sj : List ℕ) {o : ℕ}
      → Within x.dimensions ei
      → Within p.local_shape_logical si
      → Within x.dimensions ej
      → Within p.local_shape_logical sj
      → local_offset p x ei si ≡ ok o
      → local_offset p x ej sj ≡ ok o
      → (ei ≡ ej) × (si ≡ sj)
  local_offset_injective ei si ej sj {o} we ws ue us pe qe =
      let (sp, fp, wp, op, _) = local_offset_lem ei si we ws in
      let (sq, fq, wq, oq, _) = local_offset_lem ej sj ue us in
      let one : cell p x ei sp ≡ o = cc in
      let two : cell p x ej sq ≡ o = cc in
      let size = product-local_shape_memory l.pencil in
      let (blocks, places) =
        block_unique (ravel x.dimensions ei) (ravel p.local_shape_memory sp) p.local_len
          (ravel x.dimensions ej) (ravel p.local_shape_memory sq)
          (omega (arith, ravel-lt-product p.local_shape_memory sp wp, size))
          (omega (arith, ravel-lt-product p.local_shape_memory sq wq, size)) (one ∙ sym two) in
      let same : sp ≡ sq = ravel_injective p.local_shape_memory sp sq wp wq places in
      (ravel_injective x.dimensions ei ej we ue blocks, back si sj ws us same fp fq)
    where
      back :
          (si sj : List ℕ) {sp sq : List ℕ}
          → Within p.local_shape_logical si
          → Within p.local_shape_logical sj
          → sp ≡ sq
          → permute p.permutation si ≡ some sp
          → permute p.permutation sj ≡ some sq
          → si ≡ sj
      back si sj ws us same fp fq =
          let (yp, gp) = permute-Within l.pencil si ws in
          let (yq, gq) = permute-Within l.pencil sj us in
          cc (gp.forward, gp.backward, gq.forward, gq.backward)

  -- For a pencil and an extra shape that satisfy their invariants, with a storage length that fits
  -- usize: every position below the storage length is the offset of some indices within the extra
  -- dimensions and the local shape.
  pub local_offset_onto :
      (o : ℕ)
      → o < x.element_count * p.local_len
      → (ei si : List ℕ) × Within x.dimensions ei
        × Within p.local_shape_logical si
        × (local_offset p x ei si ≡ ok o)
  local_offset_onto o h =
      let (block, place, whole) = block_split o x.element_count p.local_len h in
      let count = l.extra.count in
      let size = product-local_shape_memory l.pencil in
      let (ei, we, re) = ravel_onto x.dimensions (o / p.local_len) (rw (← count) block) in
      let (sq, wq, rq) = ravel_onto p.local_shape_memory (o % p.local_len) (rw size place) in
      let (si, ws, q) = unpermute-Within l.pencil sq wq in
      let (sp, fp, wp, op, _) = local_offset_lem ei si we ws in
      let same : sp ≡ sq = cc (q.forward) in
      let at : cell p x ei sq ≡ o = omega (arith, ap (λ (t : ℕ). t * p.local_len) re) in
      (ei, si, we, ws, op ∙ ap (λ s. ok (cell p x ei s)) same ∙ ap ok at)
