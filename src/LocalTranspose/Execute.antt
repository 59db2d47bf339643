-- ===== src/LocalTranspose/Execute.antt =====
-- `execute_views` on well-formed views: every element keeps its logical indices.
use pencil_rs.Prelude.{
  ℕ, ◌*◌, ◌<◌, ◌≤◌, ◌≡◌, refl, sym, ap, ◌∙◌, List, [], ◌∷◌, Bool, true, ◌&&◌, some, arith, length,
  product, ok, list_eq_sound, ==_iff, ==-eq_refl, le→leb,
}
use native.Mathlib.Nat.{mul_comm}
use pencil_rs.Word.{usize_max}
use pencil_rs.Checked.{checked_product, checked_product_lem}
use pencil_rs.Axis.{permute}
use pencil_rs.Geometry.{local_ranges_for, shape_from_ranges}
use pencil_rs.Geometry.Offset.{Within}
use pencil_rs.Topology.{MpiTopology}
use pencil_rs.ExtraShape.{ExtraShape}
use pencil_rs.Pencil.{Pencil, same_distribution, same_layout}
use pencil_rs.Pencil.Valid.{IsValid}
use pencil_rs.Pencil.Cover.{same_layout_sound, same_distribution_sound, same_layout-distribution}
use pencil_rs.Array.{PencilArray, local_offset, get_local}
use pencil_rs.Array.Access.{IsArray}
use pencil_rs.LocalTranspose.{LocalTransposePlan, execute_views, same_extra_shape, copy_elements}
use pencil_rs.LocalTranspose.Offsets.{Pair, linear_of, logical_offsets_lem, linear_of-lt}
use pencil_rs.LocalTranspose.Copy.{
  Steps-plan, offsets_of, check_offsets-ok, copy_elements_lem, Moved,
}

-- `Arc::ptr_eq`: topologies at one address are one object.
abbrev pub SharedTopology : Pencil → Pencil → Type 0
SharedTopology p q = p.topology.address ≡ q.topology.address → p.topology ≡ q.topology

-- What two pencils of one distribution share.
pub record SameLocal (p q : Pencil) : Type 0 where
  pub logical : p.local_shape_logical ≡ q.local_shape_logical
  pub count : p.local_len ≡ q.local_len

pub same_distribution-local :
    {n m : ℕ} {p q : Pencil}
    → IsValid n m p
    → IsValid n m q
    → SharedTopology p q
    → same_distribution p q ≡ true
    → SameLocal p q
same_distribution-local {n} {m} {p} {q} v w shared h =
    let (address, shape, decomposition) = same_distribution_sound p q h in
    let topology = shared address in
    let ranges : p.local_ranges ≡ q.local_ranges =
      ranges_agree v.ranges w.ranges topology shape decomposition in
    let logical : p.local_shape_logical ≡ q.local_shape_logical =
      v.logical ∙ ap shape_from_ranges ranges ∙ sym w.logical in
    record { logical = logical; count = v.local_count ∙ ap product logical ∙ sym w.local_count }
  where
    ranges_agree :
        local_ranges_for p.global_shape p.topology.process_grid p.topology.local_coords
            p.decomposition
          ≡ ok p.local_ranges
        → local_ranges_for q.global_shape q.topology.process_grid q.topology.local_coords
            q.decomposition
          ≡ ok q.local_ranges
        → p.topology ≡ q.topology
        → p.global_shape ≡ q.global_shape
        → p.decomposition ≡ q.decomposition
        → p.local_ranges ≡ q.local_ranges
    ranges_agree a b t s d =
        let grid : p.topology.process_grid ≡ q.topology.process_grid =
          ap (λ (x : MpiTopology). x.process_grid) t in
        let coords : p.topology.local_coords ≡ q.topology.local_coords =
          ap (λ (x : MpiTopology). x.local_coords) t in
        cc (a, b, grid, coords, s, d)

-- Pencils of one layout put an element at one offset, whatever equal extra shapes they are used with.
pub same_layout-offset :
    {n m : ℕ} {p q : Pencil} (x y : ExtraShape) (ei si : List ℕ)
    → IsValid n m p
    → IsValid n m q
    → SharedTopology p q
    → same_layout p q ≡ true
    → x.dimensions ≡ y.dimensions
    → local_offset p x ei si ≡ local_offset q y ei si
unfolding local_offset
same_layout-offset {n} {m} {p} {q} x y ei si v w shared h dims =
    let same = same_layout_sound p q h in
    let l = same_distribution-local v w shared (same_layout-distribution p q h) in
    let memory : p.local_shape_memory ≡ q.local_shape_memory =
      memory_agrees v.memory w.memory l.logical same.axes in
    rw (dims, memory, same.axes)
  where
    memory_agrees :
        permute p.permutation p.local_shape_logical ≡ some p.local_shape_memory
        → permute q.permutation q.local_shape_logical ≡ some q.local_shape_memory
        → p.local_shape_logical ≡ q.local_shape_logical
        → p.permutation.axes_in_memory_order ≡ q.permutation.axes_in_memory_order
        → p.local_shape_memory ≡ q.local_shape_memory
    memory_agrees a b s e = unfold permute in cc (a, b, s, e)

-- What `execute_views` is called with, in its success case: arrays in the plan's two layouts.
pub record Ready {ℓ} {T : Type ℓ} (n m : ℕ) (plan : LocalTransposePlan)
    (source destination : PencilArray T) : Type 0 where
  pub source_array : IsArray n m source
  pub destination_array : IsArray n m destination
  pub source_pencil : IsValid n m plan.source
  pub destination_pencil : IsValid n m plan.destination
  pub planned : same_distribution plan.source plan.destination ≡ true
  pub source_layout : same_layout source.pencil plan.source ≡ true
  pub destination_layout : same_layout destination.pencil plan.destination ≡ true
  pub extra : same_extra_shape source.extra_shape destination.extra_shape ≡ true
  pub source_shared : SharedTopology source.pencil plan.source
  pub destination_shared : SharedTopology destination.pencil plan.destination
  pub plan_shared : SharedTopology plan.source plan.destination

and_true : (a b : Bool) → (a && b) ≡ true → (a ≡ true) × (b ≡ true)
and_true a b h = ground arith

pub same_extra_shape_sound :
    (x y : ExtraShape)
    → same_extra_shape x y ≡ true
    → (x.dimensions ≡ y.dimensions) × (x.element_count ≡ y.element_count)
unfolding same_extra_shape
same_extra_shape_sound x y h =
    let (dims, count) = and_true _ _ h in (list_eq_sound _ _ dims, (==_iff _ _).0 count)

module _ {ℓ} {T : Type ℓ} {n m : ℕ} {plan : LocalTransposePlan} {source destination : PencilArray T}
    (r : Ready n m plan source destination) where
  pub planned_pair : Pair n m plan.source plan.destination source.extra_shape
  planned_pair =
      let l =
        same_distribution-local r.source_pencil r.destination_pencil r.plan_shared r.planned in
      let s =
        same_distribution-local r.source_array.layout.pencil r.source_pencil r.source_shared
          (same_layout-distribution _ _ r.source_layout) in
      let fits : source.extra_shape.element_count * plan.source.local_len ≤ usize_max =
        rw (← s.count) r.source_array.layout.fits in
      record {
        source = record {
          pencil = r.source_pencil;
          extra = r.source_array.layout.extra;
          fits = fits;
        };
        destination = record {
          pencil = r.destination_pencil;
          extra = r.source_array.layout.extra;
          fits = rw (← l.count) fits;
        };
        logical = sym l.logical;
        count = sym l.count;
      }

  pub source_size : length source.storage ≡ source.extra_shape.element_count * plan.source.local_len
  source_size =
      let s =
        same_distribution-local r.source_array.layout.pencil r.source_pencil r.source_shared
          (same_layout-distribution _ _ r.source_layout) in
      rw (← s.count) r.source_array.stored

  pub destination_size :
      length destination.storage ≡ source.extra_shape.element_count * plan.source.local_len
  destination_size =
      let d =
        same_distribution-local r.destination_array.layout.pencil r.destination_pencil
          r.destination_shared (same_layout-distribution _ _ r.destination_layout) in
      let l =
        same_distribution-local r.source_pencil r.destination_pencil r.plan_shared r.planned in
      let (_, count) = same_extra_shape_sound _ _ r.extra in
      r.destination_array.stored ∙ rw (← count, d.count, ← l.count) refl

  pub required_ok :
      checked_product (plan.source.local_len ∷ source.extra_shape.element_count ∷ [])
      ≡ ok (source.extra_shape.element_count * plan.source.local_len)
  required_ok =
      let fits = planned_pair.source.fits in
      let size : plan.source.local_len * (source.extra_shape.element_count * 1)
          ≡ source.extra_shape.element_count * plan.source.local_len =
        ap (λ (t : ℕ). plan.source.local_len * t) (omega arith)
        ∙ mul_comm plan.source.local_len source.extra_shape.element_count in
      checked_product_lem (plan.source.local_len ∷ source.extra_shape.element_count ∷ [])
      ∙ rw (size, le→leb _ usize_max fits) refl

  -- The element at the same indices, before and after.
  abbrev Kept : List ℕ → List ℕ → List T → Type ℓ
  Kept ei si storage =
      get_local (record destination { storage = storage }) ei si ≡ get_local source ei si

  kept :
      {out : List T} (ei si : List ℕ)
      → Moved (Steps-plan planned_pair) source.storage destination.storage out 0
      → Within source.extra_shape.dimensions ei
      → Within source.pencil.local_shape_logical si
      → Kept ei si out
  unfolding get_local offsets_of
  kept {out} ei si mv we ws =
      let s =
        same_distribution-local r.source_array.layout.pencil r.source_pencil r.source_shared
          (same_layout-distribution _ _ r.source_layout) in
      let within : Within plan.source.local_shape_logical si = rw (← s.logical) ws in
      let (o, k, run, op, oq, lo, lk) = logical_offsets_lem planned_pair ei si we within in
      let low : linear_of plan.source source.extra_shape ei si
          < source.extra_shape.element_count * plan.source.local_len =
        linear_of-lt planned_pair ei si we within in
      let moved = mv.moved (linear_of plan.source source.extra_shape ei si) (omega arith) low in
      let (dims, _) = same_extra_shape_sound _ _ r.extra in
      let from : local_offset source.pencil source.extra_shape ei si ≡ ok o =
        same_layout-offset source.extra_shape source.extra_shape ei si r.source_array.layout.pencil
          r.source_pencil r.source_shared r.source_layout refl
        ∙ op in
      let into : local_offset destination.pencil destination.extra_shape ei si ≡ ok k =
        same_layout-offset destination.extra_shape source.extra_shape ei si
          r.destination_array.layout.pencil r.destination_pencil r.destination_shared
          r.destination_layout (sym dims)
        ∙ oq in
      rw (from, into, rw (run, offsets_of) at moved)

  -- The copy of a ready pair of arrays, and what it moves.
  pub elements_moved :
      (out : List T) × (copy_elements plan source.storage
          (source.extra_shape.element_count * plan.source.local_len)
          0
          destination.storage
        ≡ ok out)
      × (length out ≡ length destination.storage)
      × ((ei si : List ℕ)
          → Within source.extra_shape.dimensions ei
          → Within source.pencil.local_shape_logical si
          → get_local (record destination { storage = out }) ei si ≡ get_local source ei si)
  elements_moved =
      let total = source.extra_shape.element_count * plan.source.local_len in
      let (out, run, mv) =
        copy_elements_lem (Steps-plan planned_pair) source.storage total 0 destination.storage
          (omega arith) source_size destination_size in
      (out, run, mv.size, λ ei si we ws. kept ei si mv we ws)

  -- For a plan that `plan_new` accepts and two arrays in its source and destination layouts with
  -- equal extra shapes: `execute_views` succeeds, the destination keeps its pencil, extra shape and
  -- number of elements, and at every index tuple within the extra dimensions and the local shape
  -- it then reads the element that the source reads there.
  pub execute_views_lem :
      (out : List T) × (execute_views plan source destination
        ≡ ok (record destination { storage = out }))
      × IsArray n m (record destination { storage = out })
      × ((ei si : List ℕ)
          → Within source.extra_shape.dimensions ei
          → Within source.pencil.local_shape_logical si
          → get_local (record destination { storage = out }) ei si ≡ get_local source ei si)
  unfolding execute_views
  execute_views_lem =
      let total = source.extra_shape.element_count * plan.source.local_len in
      let (out, run, size, same) = elements_moved in
      (
        out,
        rw (
          r.source_layout,
          r.destination_layout,
          r.extra,
          required_ok,
          source_size,
          destination_size,
          ==-eq_refl total,
          check_offsets-ok (Steps-plan planned_pair) total 0 total (omega arith),
          run,
        ),
        record { layout = r.destination_array.layout; stored = size ∙ r.destination_array.stored },
        same,
      )
