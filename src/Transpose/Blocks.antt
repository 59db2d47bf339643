-- ===== src/Transpose/Blocks.antt =====
-- The blocks of one peer: the places that the packing and unpacking loops compute, and one block
-- written through a slice.
use pencil_rs.Prelude.{
  ℕ, ◌+◌, ◌-◌, ◌<◌, ◌≤◌, ◌≡◌, refl, sym, ◌∙◌, List, some, arith, length, get_elem?, get_elem?-none,
  ◌≢◌, ◌⊎◌, inl, inr, product,
}
use native.Mathlib.Decide.{dec_lt}
use pencil_rs.Grid.{get_range}
use pencil_rs.Geometry.Offset.{Within, ravel, ravel-lt-product}
use pencil_rs.Transpose.Walk.{RegionWalk, copy_region_to_payload, copy_region_from_payload}
use pencil_rs.Transpose.Odometer.{dot, dot-le-span}
use pencil_rs.Transpose.Regions.{Sound, copy_region_to_payload_lem, copy_region_from_payload_lem}
use pencil_rs.Transpose.Splice.{
  splice, get_range_lem, length-splice, get_elem?-splice, get_elem?-splice_before,
  get_elem?-splice_after,
}
use pencil_rs.Transpose.Pack.{write_range}

-- What the packing of one block of a region does: the payload's places in the buffer get the elements
-- of the region's block in the source, and nothing else changes.
pub record BlockPacked {ℓ} {T : Type ℓ} (walk : RegionWalk) (source buffer out : List T)
    (extra_offset payload_offset : ℕ) : Type ℓ where
  pub size : length out ≡ length buffer
  pub moved :
      (is : List ℕ)
      → Within walk.extent is
      → get_elem? out (payload_offset + ravel walk.extent is)
        ≡ get_elem? source (extra_offset + (walk.start + dot walk.stride is))
  pub before : (k : ℕ) → k < payload_offset → get_elem? out k ≡ get_elem? buffer k
  pub after :
      (k : ℕ) → payload_offset + product walk.extent ≤ k → get_elem? out k ≡ get_elem? buffer k

module _ {ℓ} {T : Type ℓ} where
  pub pack_block :
      (walk : RegionWalk) (source buffer : List T) (extra_offset payload_offset payload_end : ℕ)
      → Sound walk
      → extra_offset + walk.max_offset < length source
      → payload_end ≡ payload_offset + product walk.extent
      → payload_end ≤ length buffer
      → (block : List T) × (out : List T) × (get_range source
            (record { start = extra_offset; end = length source })
          ≡ some block)
        × (write_range buffer payload_offset payload_end (copy_region_to_payload walk block)
            ≡ some out)
        × BlockPacked walk source buffer out extra_offset payload_offset
  unfolding write_range
  pack_block walk source buffer extra_offset payload_offset payload_end s reach e room =
      let (block, gets, size, reads) =
        get_range_lem source extra_offset (length source) (omega arith) (omega arith) in
      let (part, lends, part_size, part_reads) =
        get_range_lem buffer payload_offset payload_end (omega arith) room in
      let (written, run, len, moved, kept) =
        copy_region_to_payload_lem walk s block part (omega arith) (omega arith) in
      (
        block,
        splice buffer payload_offset written,
        gets,
        rw (lends, run) refl,
        record {
          size = length-splice buffer payload_offset written;
          moved = λ is w.
              let below = ravel-lt-product walk.extent is w in
              get_elem?-splice buffer payload_offset written (ravel walk.extent is) (omega arith)
                (omega arith)
              ∙ moved is w
              ∙ reads (walk.start + dot walk.stride is)
                  (omega (arith, s.reach, dot-le-span walk.extent walk.stride is w));
          before = λ k h. get_elem?-splice_before buffer payload_offset written k h;
          after = λ k h. get_elem?-splice_after buffer payload_offset written k (omega arith);
        },
      )

-- What the unpacking of one block of a region does.
pub record BlockUnpacked {ℓ} {T : Type ℓ} (walk : RegionWalk) (received storage out : List T)
    (extra_offset payload_offset : ℕ) : Type ℓ where
  pub size : length out ≡ length storage
  pub moved :
      (is : List ℕ)
      → Within walk.extent is
      → get_elem? out (extra_offset + (walk.start + dot walk.stride is))
        ≡ get_elem? received (payload_offset + ravel walk.extent is)
  pub kept :
      (k : ℕ)
      → ((is : List ℕ)
          → Within walk.extent is
          → k ≢ extra_offset + (walk.start + dot walk.stride is))
      → get_elem? out k ≡ get_elem? storage k

module _ {ℓ} {T : Type ℓ} where
  pub unpack_block :
      (walk : RegionWalk) (received storage : List T) (extra_offset payload_offset payload_end : ℕ)
      → Sound walk
      → extra_offset + walk.max_offset < length storage
      → payload_end ≡ payload_offset + product walk.extent
      → payload_end ≤ length received
      → (payload : List T) × (out : List T) × (get_range received
            (record { start = payload_offset; end = payload_end })
          ≡ some payload)
        × (write_range storage extra_offset (length storage) (copy_region_from_payload walk payload)
            ≡ some out)
        × BlockUnpacked walk received storage out extra_offset payload_offset
  unfolding write_range
  unpack_block walk received storage extra_offset payload_offset payload_end s reach e room =
      let (payload, gets, size, reads) =
        get_range_lem received payload_offset payload_end (omega arith) room in
      let (part, lends, part_size, part_reads) =
        get_range_lem storage extra_offset (length storage) (omega arith) (omega arith) in
      let (written, run, len, moved, kept) =
        copy_region_from_payload_lem walk s payload part (omega arith) (omega arith) in
      (
        payload,
        splice storage extra_offset written,
        gets,
        rw (lends, run) refl,
        record {
          size = length-splice storage extra_offset written;
          moved = λ is w.
              let below = ravel-lt-product walk.extent is w in
              let bound = dot-le-span walk.extent walk.stride is w in
              get_elem?-splice storage extra_offset written (walk.start + dot walk.stride is)
                (omega (arith, s.reach)) (omega (arith, s.reach))
              ∙ moved is w
              ∙ reads (ravel walk.extent is) (omega arith);
          kept = λ k free. elim (range_of k) [
            | inl low ↦ get_elem?-splice_before storage extra_offset written k low
            | inr (inl (i, at, inside)) ↦ rw at (
                get_elem?-splice storage extra_offset written i (omega arith) (omega arith)
                ∙ kept i (λ is w e. free is w (omega arith))
                ∙ part_reads i (omega arith))
            | inr (inr high) ↦
                get_elem?-none (splice storage extra_offset written) k
                  (omega (arith, length-splice storage extra_offset written))
                ∙ sym (get_elem?-none storage k high)
          ];
        },
      )
    where
      range_of :
          (k : ℕ)
          → (k < extra_offset)
            ⊎ ((i : ℕ) × (k ≡ extra_offset + i) × (k < length storage))
            ⊎ (length storage ≤ k)
      range_of k = elim (dec_lt k extra_offset) [
        | yes low ↦ inl low
        | no high ↦ elim (dec_lt k (length storage)) [
          | yes inside ↦ inr (inl (k - extra_offset, omega arith, inside))
          | no out ↦ inr (inr (omega arith))
        ]
      ]
