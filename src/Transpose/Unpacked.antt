-- ===== src/Transpose/Unpacked.antt =====
-- The unpacking of all blocks of one peer, and what keeps the regions of different peers apart in
-- memory.
use pencil_rs.Prelude.{
  ℕ, zero, suc, ◌+◌, ◌-◌, ◌*◌, ◌<◌, ◌≤◌, ◌≡◌, ◌≢◌, refl, sym, ◌∙◌, List, [], ◌∷◌, some, arith,
  length, get_elem?, product,
}
use native.Mathlib.Nat.{mul-le-mul_right}
use pencil_rs.Word.{usize_max}
use pencil_rs.Axis.{AxisPermutation, unpermute}
use pencil_rs.Geometry.{Range, shape_from_ranges}
use pencil_rs.Geometry.Offset.{Within, ravel}
use pencil_rs.LocalTranspose.Linear.{ravel_injective}
use pencil_rs.Array.Cells.{block_unique}
use pencil_rs.Pencil.{Pencil}
use pencil_rs.Transpose.Walk.{RegionWalk}
use pencil_rs.Transpose.Odometer.{dot, dot-le-span}
use pencil_rs.Transpose.Regions.{Sound}
use pencil_rs.Transpose.Measure.{Inside, shifted}
use pencil_rs.Transpose.Region.{Stands}
use pencil_rs.Transpose.Pack.{unpack_blocks}
use pencil_rs.Transpose.Blocks.{unpack_block}
use pencil_rs.Transpose.Packed.{block_places_lem}

-- The blocks from a given one on are unpacked: each tuple of each block, and nothing else.
pub record BlocksUnpacked {ℓ} {T : Type ℓ} (walk : RegionWalk) (received storage out : List T)
    (local_len len base extra k : ℕ) : Type ℓ where
  pub size : length out ≡ length storage
  pub moved :
      (e : ℕ) (is : List ℕ)
      → extra ≤ e
      → e < k
      → Within walk.extent is
      → get_elem? out (e * local_len + (walk.start + dot walk.stride is))
        ≡ get_elem? received (base + e * len + ravel walk.extent is)
  pub kept :
      (i : ℕ)
      → ((e : ℕ) (is : List ℕ)
          → extra ≤ e
          → e < k
          → Within walk.extent is
          → i ≢ e * local_len + (walk.start + dot walk.stride is))
      → get_elem? out i ≡ get_elem? storage i

module _ {ℓ} {T : Type ℓ} (walk : RegionWalk) (s : Sound walk) (received : List T)
    (local_len len base k : ℕ) (reach : walk.max_offset < local_len)
    (size : len ≡ product walk.extent) (room : base + k * len ≤ length received)
    (small : base + k * len ≤ usize_max) (fits : k * local_len ≤ usize_max) where
  offset_low : (is : List ℕ) → Within walk.extent is → walk.start + dot walk.stride is < local_len
  offset_low is w = omega (arith, s.reach, dot-le-span walk.extent walk.stride is w)

  pub unpack_blocks_lem :
      (left extra : ℕ) (storage : List T)
      → left + extra ≡ k
      → k * local_len ≤ length storage
      → (out : List T) × (unpack_blocks walk local_len len base received left extra storage
          ≡ some out)
        × BlocksUnpacked walk received storage out local_len len base extra k
  unfolding unpack_blocks
  unpack_blocks_lem zero extra storage e stored = (
    storage,
    refl,
    record { size = refl; moved = λ f is low high w. absurd (omega arith); kept = λ i h. refl },
  )
  unpack_blocks_lem (suc left) extra storage e stored =
      let a : (extra + 1) * local_len ≤ k * local_len = mul-le-mul_right local_len (omega arith) in
      let b : (extra + 1) * len ≤ k * len = mul-le-mul_right len (omega arith) in
      let (payload, mid, gets, writes, first) =
        unpack_block walk received storage (extra * local_len) (base + extra * len)
          (base + extra * len + len) s (omega arith) (omega arith) (omega arith) in
      let (out, run, rest) =
        unpack_blocks_lem left (extra + 1) mid (omega arith) (omega (arith, first.size)) in
      (
        out,
        rw (block_places_lem local_len len base extra k (omega arith) fits small, gets, writes) run,
        record {
          size = rest.size ∙ first.size;
          moved = λ f is low high w. elim (native.Mathlib.Decide.ℕ_discrete extra f) [
            | no later ↦ rest.moved f is (omega arith) high w
            | yes now ↦ rw (← now) (
                rest.kept (extra * local_len + (walk.start + dot walk.stride is))
                  (λ g js later bound u same.
                    let (block, _) =
                      block_unique extra (walk.start + dot walk.stride is) local_len g
                        (walk.start + dot walk.stride js) (offset_low is w) (offset_low js u)
                        same in
                    omega arith)
                ∙ first.moved is w)
          ];
          kept = λ i free.
              rest.kept i (λ g js later bound u. free g js (omega arith) bound u)
              ∙ first.kept i (λ is w. free extra is (omega arith) (omega arith) w);
        },
      )

-- The global indices of a tuple of the region.
abbrev pub globals : List Range → List ℕ → List ℕ
globals (range ∷ region) (i ∷ is) = (range.start + i) ∷ globals region is
globals [] is = []
globals (range ∷ region) [] = []

-- No element of the global array lies in both regions.
abbrev pub Separate : List Range → List Range → Type 0
Separate left right =
    (is js : List ℕ)
    → Within (shape_from_ranges left) is
    → Within (shape_from_ranges right) js
    → globals left is ≢ globals right js

-- Tuples of two regions with the same local indices have the same global indices.
shifted-globals :
    (locals left right : List Range) (is js : List ℕ)
    → Inside locals left
    → Inside locals right
    → Within (shape_from_ranges left) is
    → Within (shape_from_ranges right) js
    → shifted locals left is ≡ shifted locals right js
    → globals left is ≡ globals right js
unfolding shape_from_ranges
shifted-globals [] [] [] is js h g w u e = refl
shifted-globals [] [] (r ∷ right) is js h g w u e = absurd g
shifted-globals [] (l ∷ left) right is js h g w u e = absurd h
shifted-globals (x ∷ locals) [] right is js h g w u e = absurd h
shifted-globals (x ∷ locals) (l ∷ left) [] is js h g w u e = absurd g
shifted-globals (x ∷ locals) (l ∷ left) (r ∷ right) [] js h g w u e = absurd w
shifted-globals (x ∷ locals) (l ∷ left) (r ∷ right) (i ∷ is) [] h g w u e = absurd u
shifted-globals (x ∷ locals) (l ∷ left) (r ∷ right) (i ∷ is) (j ∷ js) h g w u e =
    let head : l.start - x.start + i ≡ r.start - x.start + j = cc in
    let tail : shifted locals left is ≡ shifted locals right js = cc in
    let same : l.start + i ≡ r.start + j = omega (arith, h.0, g.0) in
    rw (same, shifted-globals locals left right is js h.3 g.3 w.1 u.1 tail) refl

unpermute_agrees :
    (p : AxisPermutation) {x y s t : List ℕ}
    → x ≡ y
    → unpermute p x ≡ some s
    → unpermute p y ≡ some t
    → s ≡ t
unpermute_agrees p e f g = unfold unpermute in cc

-- Elements of separate regions stand at different offsets.
pub Stands-Apart :
    {p : Pencil} (left right : List Range) (is js : List ℕ) (a b : ℕ)
    → Inside p.local_ranges left
    → Inside p.local_ranges right
    → Separate left right
    → Within (shape_from_ranges left) is
    → Within (shape_from_ranges right) js
    → Stands p left is a
    → Stands p right js b
    → a ≢ b
Stands-Apart {p} left right is js a b h g separate w u x y e =
    let same : x.mem ≡ y.mem =
      ravel_injective p.local_shape_memory x.mem y.mem x.permuted.within y.permuted.within
        (sym x.number ∙ e ∙ y.number) in
    separate is js w u (
      shifted-globals p.local_ranges left right is js h g w u
        (unpermute_agrees p.permutation same x.permuted.backward y.permuted.backward))
