-- ===== src/LocalTranspose/Offsets.antt =====
-- The offsets of one transpose step are those of one element in the two layouts.
use pencil_rs.Prelude.{
  ℕ, ◌+◌, ◌*◌, ◌/◌, ◌%◌, ◌<◌, ◌≤◌, ◌≡◌, ap, ◌∙◌, List, false, arith, ◌==◌, product, ok,
}
use pencil_rs.Word.{usize_max, checked_add-some, checked_mul-some}
use pencil_rs.Geometry.Offset.{Within, ravel, ravel-lt-product, row_major_offset_lem}
use pencil_rs.Geometry.Ravel.{ravel_onto}
use pencil_rs.ExtraShape.{ExtraShape}
use pencil_rs.Pencil.{Pencil}
use pencil_rs.Pencil.Valid.{product-local_shape_memory}
use pencil_rs.Array.{local_offset}
use pencil_rs.Array.Cells.{Layout, cell, local_offset_lem, block_bound, block_split, block_unique}
use pencil_rs.LocalTranspose.{logical_offsets, extra_offset, split_linear}
use pencil_rs.LocalTranspose.Linear.{split_linear-ravel, digit, ravel_injective}

extra_offset-eq :
    (e l s k : ℕ) → e < k → s < l → k * l ≤ usize_max → extra_offset e l s ≡ ok (e * l + s)
unfolding extra_offset
extra_offset-eq e l s k h hs fits =
    let bound : e * l + s < k * l = block_bound e l k s h hs in
    rw (checked_mul-some e l (omega arith), checked_add-some (e * l) s (omega arith))

-- The linear position of an element in logical order.
abbrev pub linear_of : Pencil → ExtraShape → List ℕ → List ℕ → ℕ
linear_of p x ei si = ravel x.dimensions ei * p.local_len + ravel p.local_shape_logical si

-- Two layouts over one distribution and one extra shape.
pub record Pair (n m : ℕ) (p q : Pencil) (x : ExtraShape) : Type 0 where
  pub source : Layout n m p x
  pub destination : Layout n m q x
  pub logical : q.local_shape_logical ≡ p.local_shape_logical
  pub count : q.local_len ≡ p.local_len

module _ {n m : ℕ} {p q : Pencil} {x : ExtraShape} (d : Pair n m p q x) where
  -- For two well-formed layouts of one distribution and one extra shape, and indices within them: at
  -- the logical position of an element, `logical_offsets` returns the offset that `local_offset`
  -- gives the element in the source layout and the one in the destination layout, both below the
  -- storage length.
  pub logical_offsets_lem :
      (ei si : List ℕ)
      → Within x.dimensions ei
      → Within p.local_shape_logical si
      → (o : ℕ) × (k : ℕ) × (logical_offsets p q (linear_of p x ei si) ≡ ok (o, k))
        × (local_offset p x ei si ≡ ok o)
        × (local_offset q x ei si ≡ ok k)
        × (o < x.element_count * p.local_len)
        × (k < x.element_count * p.local_len)
  unfolding logical_offsets
  logical_offsets_lem ei si we ws =
      let count = d.source.pencil.local_count in
      let small : ravel p.local_shape_logical si < p.local_len =
        omega (arith, ravel-lt-product p.local_shape_logical si ws) in
      let block : ravel x.dimensions ei < x.element_count =
        omega (arith, ravel-lt-product x.dimensions ei we, d.source.extra.count) in
      let (rem, div) =
        digit (ravel x.dimensions ei) p.local_len (ravel p.local_shape_logical si) small in
      let positive : (p.local_len == 0) ≡ false = ground arith in
      let first : ravel p.local_shape_logical si
          ≡ 0 * product p.local_shape_logical + ravel p.local_shape_logical si =
        omega arith in
      let split =
        ap (split_linear p.local_shape_logical) first
        ∙ split_linear-ravel p.local_shape_logical si 0 ws in
      let (sp, fp, wp, op, lp) = local_offset_lem d.source ei si we ws in
      let (sq, fq, wq, oq, lq) = local_offset_lem d.destination ei si we (rw d.logical ws) in
      let size_p = product-local_shape_memory d.source.pencil in
      let size_q = product-local_shape_memory d.destination.pencil in
      let run_p =
        row_major_offset_lem p.local_shape_memory sp wp
          (omega (arith, d.source.pencil.local_bound, d.source.pencil.global_fits)) in
      let run_q =
        row_major_offset_lem q.local_shape_memory sq wq
          (omega (arith, d.destination.pencil.local_bound, d.destination.pencil.global_fits)) in
      (
        cell p x ei sp,
        cell q x ei sq,
        rw (
          positive,
          rem,
          div,
          split,
          fp,
          fq,
          run_p.0,
          run_q.0,
          extra_offset-eq (ravel x.dimensions ei) p.local_len (ravel p.local_shape_memory sp)
              x.element_count block (omega (arith, run_p.1)) d.source.fits,
          extra_offset-eq (ravel x.dimensions ei) q.local_len (ravel q.local_shape_memory sq)
              x.element_count block (omega (arith, run_q.1)) d.destination.fits,
        ),
        op,
        oq,
        lp,
        rw (← d.count) lq,
      )

  -- Every linear position is that of some element.
  pub linear_onto :
      (l : ℕ)
      → l < x.element_count * p.local_len
      → (ei : List ℕ) × (si : List ℕ) × Within x.dimensions ei
        × Within p.local_shape_logical si
        × (linear_of p x ei si ≡ l)
  linear_onto l h =
      let (block, place, whole) = block_split l x.element_count p.local_len h in
      let (ei, we, re) =
        ravel_onto x.dimensions (l / p.local_len) (rw (← d.source.extra.count) block) in
      let (si, ws, rs) =
        ravel_onto p.local_shape_logical (l % p.local_len)
          (rw (← d.source.pencil.local_count) place) in
      (ei, si, we, ws, omega (arith, ap (λ (t : ℕ). t * p.local_len) re))

  -- Two elements with one linear position are the same.
  pub linear_injective :
      (ei si ej sj : List ℕ)
      → Within x.dimensions ei
      → Within p.local_shape_logical si
      → Within x.dimensions ej
      → Within p.local_shape_logical sj
      → linear_of p x ei si ≡ linear_of p x ej sj
      → (ei ≡ ej) × (si ≡ sj)
  linear_injective ei si ej sj we ws ue us e =
      let count = d.source.pencil.local_count in
      let (blocks, places) =
        block_unique (ravel x.dimensions ei) (ravel p.local_shape_logical si) p.local_len
          (ravel x.dimensions ej) (ravel p.local_shape_logical sj)
          (omega (arith, ravel-lt-product p.local_shape_logical si ws))
          (omega (arith, ravel-lt-product p.local_shape_logical sj us)) e in
      (
        ravel_injective x.dimensions ei ej we ue blocks,
        ravel_injective p.local_shape_logical si sj ws us places,
      )

  pub linear_of-lt :
      (ei si : List ℕ)
      → Within x.dimensions ei
      → Within p.local_shape_logical si
      → linear_of p x ei si < x.element_count * p.local_len
  linear_of-lt ei si we ws =
      let count = d.source.pencil.local_count in
      block_bound (ravel x.dimensions ei) p.local_len x.element_count
        (ravel p.local_shape_logical si)
        (omega (arith, ravel-lt-product x.dimensions ei we, d.source.extra.count))
        (omega (arith, ravel-lt-product p.local_shape_logical si ws))
