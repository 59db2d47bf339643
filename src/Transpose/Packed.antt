-- ===== src/Transpose/Packed.antt =====
-- The packing of all blocks of one peer.
use pencil_rs.Prelude.{
  ℕ, zero, suc, ◌+◌, ◌-◌, ◌*◌, ◌<◌, ◌≤◌, ◌≡◌, refl, sym, ap, ◌∙◌, List, some, arith, min, length,
  get_elem?, product, lt→ltb, ==-eq_refl,
}
use native.Mathlib.Nat.{mul-le-mul_right, mul_comm}
use pencil_rs.Word.{usize_max, checked_add-some, checked_mul-some}
use pencil_rs.Geometry.{Range, shape_from_ranges}
use pencil_rs.Geometry.Offset.{Within, ravel, ravel-lt-product}
use pencil_rs.Pencil.{Pencil}
use pencil_rs.Pencil.Valid.{IsValid}
use pencil_rs.Transpose.Walk.{RegionWalk, layout_of}
use pencil_rs.Transpose.Odometer.{dot}
use pencil_rs.Transpose.Regions.{Sound}
use pencil_rs.Transpose.Measure.{Inside}
use pencil_rs.Transpose.Region.{Stands}
use pencil_rs.Transpose.Bounded.{region_walk_lem, elements, len_fits}
use pencil_rs.Transpose.Pack.{checked_segment, block_places, pack_blocks}
use pencil_rs.Transpose.Blocks.{pack_block}

-- The walk of a peer's region: what `region_walk` gives for it, and what it stands for.
pub record WalkOf (p : Pencil) (region : List Range) (walk : RegionWalk) : Type 0 where
  pub sound : Sound walk
  pub extents : walk.extent ≡ shape_from_ranges region
  pub reach : walk.max_offset < p.local_len
  pub stands :
      (is : List ℕ)
      → Within (shape_from_ranges region) is
      → Stands p region is (walk.start + dot walk.stride is)

-- For a region inside the local ranges with its number of elements, the checks before its blocks pass.
pub checked_segment_lem :
    {n m : ℕ} {p : Pencil} (region : List Range) (len displacement extra_count : ℕ)
    → IsValid n m p
    → Inside p.local_ranges region
    → len ≡ product (shape_from_ranges region)
    → 0 < extra_count
    → p.local_len * extra_count ≤ usize_max
    → displacement * extra_count ≤ usize_max
    → (walk : RegionWalk) × (checked_segment (layout_of p) region len displacement extra_count
        ≡ some (walk, displacement * extra_count))
      × WalkOf p region walk
unfolding checked_segment layout_of
checked_segment_lem {n} {m} {p} region len displacement k v inside size pos fits segment =
    let (walk, run, s, extents, reach, stands) = region_walk_lem v region inside in
    let whole : walk.outer_len * walk.run_len ≡ len = s.total ∙ ap product extents ∙ sym size in
    let small : len ≤ usize_max =
      omega (arith, elements v region inside, len_fits v region inside) in
    let blocks : p.local_len * k ≡ (k - 1) * p.local_len + p.local_len =
      mul_comm p.local_len k ∙ last_block k pos in
    (
      walk,
      rw
          (
            run,
            checked_mul-some walk.outer_len walk.run_len (omega arith),
            whole,
            ==-eq_refl len,
            checked_mul-some (k - 1) p.local_len (omega arith),
            checked_add-some ((k - 1) * p.local_len) walk.max_offset (omega arith),
            lt→ltb ((k - 1) * p.local_len + walk.max_offset) (min (p.local_len * k) usize_max)
                (omega arith),
            checked_mul-some displacement k segment,
          )
          refl,
      record { sound = s; extents = extents; reach = reach; stands = stands },
    )
  where
    last_block : (k : ℕ) → 0 < k → k * p.local_len ≡ (k - 1) * p.local_len + p.local_len
    last_block zero h = absurd (omega arith)
    last_block (suc k) h = let e : suc k - 1 ≡ k = omega arith in rw e (omega arith)

-- The places of a block fit usize.
pub block_places_lem :
    (local_len len base extra k : ℕ)
    → extra < k
    → k * local_len ≤ usize_max
    → base + k * len ≤ usize_max
    → block_places local_len len base extra
      ≡ some (extra * local_len, base + extra * len, base + extra * len + len)
unfolding block_places
block_places_lem local_len len base extra k low fits room =
    let a : (extra + 1) * local_len ≤ k * local_len = mul-le-mul_right local_len (omega arith) in
    let b : (extra + 1) * len ≤ k * len = mul-le-mul_right len (omega arith) in
    rw
      (
        checked_mul-some extra local_len (omega arith),
        checked_mul-some extra len (omega arith),
        checked_add-some base (extra * len) (omega arith),
        checked_add-some (base + extra * len) len (omega arith),
      )
      refl

-- The blocks from a given one on are packed: each tuple of each block, and nothing else.
pub record BlocksPacked {ℓ} {T : Type ℓ} (walk : RegionWalk) (source buffer out : List T)
    (local_len len base extra k : ℕ) : Type ℓ where
  pub size : length out ≡ length buffer
  pub moved :
      (e : ℕ) (is : List ℕ)
      → extra ≤ e
      → e < k
      → Within walk.extent is
      → get_elem? out (base + e * len + ravel walk.extent is)
        ≡ get_elem? source (e * local_len + (walk.start + dot walk.stride is))
  pub before : (i : ℕ) → i < base + extra * len → get_elem? out i ≡ get_elem? buffer i
  pub after : (i : ℕ) → base + k * len ≤ i → get_elem? out i ≡ get_elem? buffer i

module _ {ℓ} {T : Type ℓ} (walk : RegionWalk) (s : Sound walk) (source : List T)
    (local_len len base k : ℕ) (reach : walk.max_offset < local_len)
    (size : len ≡ product walk.extent) (stored : k * local_len ≤ length source)
    (fits : k * local_len ≤ usize_max) where
  pub pack_blocks_lem :
      (left extra : ℕ) (buffer : List T)
      → left + extra ≡ k
      → base + k * len ≤ length buffer
      → base + k * len ≤ usize_max
      → (out : List T) × (pack_blocks walk local_len len base source left extra buffer ≡ some out)
        × BlocksPacked walk source buffer out local_len len base extra k
  unfolding pack_blocks
  pack_blocks_lem zero extra buffer e room small = (
    buffer,
    refl,
    record {
      size = refl;
      moved = λ f is low high w. absurd (omega arith);
      before = λ i h. refl;
      after = λ i h. refl;
    },
  )
  pack_blocks_lem (suc left) extra buffer e room small =
      let a : (extra + 1) * local_len ≤ k * local_len = mul-le-mul_right local_len (omega arith) in
      let b : (extra + 1) * len ≤ k * len = mul-le-mul_right len (omega arith) in
      let (block, mid, gets, writes, first) =
        pack_block walk source buffer (extra * local_len) (base + extra * len)
          (base + extra * len + len) s (omega arith) (omega arith) (omega arith) in
      let (out, run, rest) =
        pack_blocks_lem left (extra + 1) mid (omega arith) (omega (arith, first.size)) small in
      (
        out,
        rw (block_places_lem local_len len base extra k (omega arith) fits small, gets, writes) run,
        record {
          size = rest.size ∙ first.size;
          moved = λ f is low high w. elim (native.Mathlib.Decide.ℕ_discrete extra f) [
            | no later ↦ rest.moved f is (omega arith) high w
            | yes now ↦ rw (← now) (
                rest.before (base + extra * len + ravel walk.extent is)
                  (omega (arith, ravel-lt-product walk.extent is w))
                ∙ first.moved is w)
          ];
          before = λ i h. rest.before i (omega arith) ∙ first.before i h;
          after = λ i h. rest.after i h ∙ first.after i (omega arith);
        },
      )
