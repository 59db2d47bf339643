-- ===== src/Pencil/Cover.antt =====
-- The processes of a pencil's topology own the global index space between them; and what it means
-- that two pencils have one layout.
use pencil_rs.Prelude.{
  ℕ, ◌≡◌, sym, ap, ◌∙◌, List, Bool, true, ◌&&◌, arith, ok, list_eq_sound, ==_iff,
}
use pencil_rs.Geometry.{Range, local_ranges_for}
use pencil_rs.Geometry.Offset.{Within, length-Within}
use pencil_rs.Geometry.Ranges.{local_ranges_for_lem}
use pencil_rs.Geometry.Cover.{Owns, local_ranges_cover, Layout_of_Shared}
use pencil_rs.Topology.Valid.{rank_at-ok}
use pencil_rs.Pencil.{Pencil, ranges_at, same_layout, same_distribution}
use pencil_rs.Pencil.Valid.{IsValid, Shared-pencil}

module _ {n m : ℕ} {p : Pencil} (v : IsValid n m p) where
  pub ranges_at-eq :
      (coords : List ℕ) {ranges : List Range}
      → Within p.topology.process_grid coords
      → local_ranges_for p.global_shape p.topology.process_grid coords p.decomposition ≡ ok ranges
      → ranges_at p coords ≡ ok ranges
  unfolding ranges_at
  ranges_at-eq coords w run = rw (
    rank_at-ok p.topology coords v.topology (sym (length-Within p.topology.process_grid coords w))
        w,
    run,
  )

  ranges_at-local :
      (coords : List ℕ) {ranges : List Range}
      → Within p.topology.process_grid coords
      → ranges_at p coords ≡ ok ranges
      → local_ranges_for p.global_shape p.topology.process_grid coords p.decomposition ≡ ok ranges
  ranges_at-local coords {ranges} w e =
      let (rs, run, _) =
        local_ranges_for_lem p.global_shape p.topology.process_grid coords p.decomposition
          (Layout_of_Shared coords (Shared-pencil v) w) in
      let same : rs ≡ ranges = cc (ranges_at-eq coords w run) in run ∙ ap ok same

  -- For a pencil that satisfies the invariant, every index tuple of the global shape lies in the
  -- ranges that `ranges_at` gives for exactly one process of the topology.
  pub ranges_at_cover :
      (is : List ℕ)
      → Within p.global_shape is
      → (coords : List ℕ) × Within p.topology.process_grid coords
        × ((ranges : List Range) × (ranges_at p coords ≡ ok ranges) × Owns ranges is)
        × ((other : List ℕ) (ranges : List Range)
            → Within p.topology.process_grid other
            → ranges_at p other ≡ ok ranges
            → Owns ranges is
            → other ≡ coords)
  ranges_at_cover is w =
      let (coords, inside, (ranges, run, own), unique) =
        local_ranges_cover is (Shared-pencil v) w in
      (
        coords,
        inside,
        (ranges, ranges_at-eq coords inside run, own),
        λ other rs wo ro mine. unique other rs wo (ranges_at-local other wo ro) mine,
      )

and_left : (a b : Bool) → (a && b) ≡ true → a ≡ true
and_left a b h = ground arith

and_right : (a b : Bool) → (a && b) ≡ true → b ≡ true
and_right a b h = ground arith

-- The layouts of two pencils agree in all that determines where an element is stored.
pub record SameLayout (p q : Pencil) : Type 0 where
  pub topology : p.topology.address ≡ q.topology.address
  pub shape : p.global_shape ≡ q.global_shape
  pub decomposition : p.decomposition ≡ q.decomposition
  pub axes : p.permutation.axes_in_memory_order ≡ q.permutation.axes_in_memory_order
  pub table : p.permutation.logical_to_memory ≡ q.permutation.logical_to_memory

pub same_distribution_sound :
    (p q : Pencil)
    → same_distribution p q ≡ true
    → (p.topology.address ≡ q.topology.address)
      × (p.global_shape ≡ q.global_shape)
      × (p.decomposition ≡ q.decomposition)
unfolding same_distribution
same_distribution_sound p q h =
    let rest = and_right _ _ h in
    (
      (==_iff _ _).0 (and_left _ _ h),
      list_eq_sound _ _ (and_left _ _ rest),
      list_eq_sound _ _ (and_right _ _ rest),
    )

pub same_layout-distribution :
    (p q : Pencil) → same_layout p q ≡ true → same_distribution p q ≡ true
unfolding same_layout
same_layout-distribution p q h = and_left _ _ h

pub same_layout_sound : (p q : Pencil) → same_layout p q ≡ true → SameLayout p q
unfolding same_layout
same_layout_sound p q h =
    let d = and_left _ _ h in
    let rest = and_right _ _ d in
    let perm = and_right _ _ h in
    record {
      topology = (==_iff _ _).0 (and_left _ _ d);
      shape = list_eq_sound _ _ (and_left _ _ rest);
      decomposition = list_eq_sound _ _ (and_right _ _ rest);
      axes = list_eq_sound _ _ (and_left _ _ perm);
      table = list_eq_sound _ _ (and_right _ _ perm);
    }
