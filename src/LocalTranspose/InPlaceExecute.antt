-- ===== src/LocalTranspose/InPlaceExecute.antt =====
-- `execute_in_place` on a well-formed buffer: the active view keeps its elements.
use pencil_rs.Prelude.{
  ℕ, ◌+◌, ◌*◌, ◌<◌, ◌≤◌, ◌≡◌, refl, sym, ap, ◌∙◌, List, [], ◌++◌, true, false, some, arith, ltb,
  length, get_elem?, All, ok, lt→leb_false, length-append, inl, inr, lt_of_get_elem?, ==-eq_refl,
  list_eq_refl, ◌++◌, All-get_elem?,
}
use native.Mathlib.Nat.{mul_comm}
use pencil_rs.Geometry.Offset.{Within}
use pencil_rs.Pencil.{Pencil, same_layout, same_distribution}
use pencil_rs.Pencil.Valid.{IsValid}
use pencil_rs.Pencil.Cover.{same_layout-distribution}
use pencil_rs.Array.{PencilArray, get_local}
use pencil_rs.Array.Access.{IsArray}
use pencil_rs.Many.{
  ManyPencilArray, LayoutState, active_index, active_view, find_layout, begin_in_place_write,
  begin_write, commit, split_prefix,
}
use pencil_rs.Many.Transitions.{IsMany, find_layout_lem, view_of, view_at_lem}
use pencil_rs.LocalTranspose.{LocalTransposePlan, same_extra_shape}
use pencil_rs.LocalTranspose.Copy.{Steps-plan, check_offsets-ok}
use pencil_rs.LocalTranspose.Execute.{
  SharedTopology, same_distribution-local, Ready, planned_pair, source_size, required_ok,
  elements_moved,
}
use pencil_rs.LocalTranspose.InPlace.{
  validate_in_place, validate_source, staged_values, write_staged, commit_staged,
  write_staged_in_place, execute_in_place,
}
use pencil_rs.LocalTranspose.Staged.{split_prefix_self, append_unique, write_staged-eq}

-- A well-formed buffer whose active layout is the plan's source, with the plan's destination
-- registered.
pub record Transposable {ℓ} {T : Type ℓ} (n m : ℕ) (plan : LocalTransposePlan)
    (a : ManyPencilArray T) (i d : ℕ) (p : Pencil) : Type 0 where
  pub buffer : IsMany n m a
  pub active : a.state ≡ LayoutState.valid i
  pub found : get_elem? a.pencils i ≡ some p
  pub source_layout : same_layout p plan.source ≡ true
  pub registered : find_layout a.pencils plan.destination ≡ some d
  pub source_pencil : IsValid n m plan.source
  pub destination_pencil : IsValid n m plan.destination
  pub planned : same_distribution plan.source plan.destination ≡ true
  pub plan_shared : SharedTopology plan.source plan.destination
  pub source_shared : SharedTopology p plan.source
  pub destination_shared : All (λ q. SharedTopology q plan.destination) a.pencils

module _ {ℓ} {T : Type ℓ} {n m : ℕ} {plan : LocalTransposePlan} {a : ManyPencilArray T} {i d : ℕ}
    {p : Pencil} (t : Transposable n m plan a i d p) where
  destination_found :
      (q : Pencil) × (get_elem? a.pencils d ≡ some q) × (same_layout q plan.destination ≡ true)
  destination_found = elim (find_layout_lem a.pencils plan.destination) [
    | inl (_, none_found) ↦ absurd (cc (none_found, t.registered))
    | inr (j, q, run, found, same) ↦
        let index : j ≡ d = cc (run, t.registered) in (q, rw index at found, same)
  ]

  active_index-eq : active_index a ≡ ok i
  unfolding active_index
  active_index-eq = rw (t.active, lt→leb_false i _ (t.buffer.active i t.active)) refl

  -- The views of one buffer in the source and destination layouts, over one prefix.
  ready :
      (q : Pencil) (front : List T)
      → IsArray n m (view_of t.buffer p front)
      → get_elem? a.pencils d ≡ some q
      → same_layout q plan.destination ≡ true
      → Ready n m plan (view_of t.buffer p front) (view_of t.buffer q front)
  unfolding same_extra_shape
  ready q front array found same =
      let valid : IsValid n m q =
        All-get_elem? (λ p. IsValid n m p) a.pencils d t.buffer.pencils found in
      let shared : SharedTopology q plan.destination =
        All-get_elem? (λ q. SharedTopology q plan.destination) a.pencils d t.destination_shared
          found in
      let one =
        same_distribution-local array.layout.pencil t.source_pencil t.source_shared
          (same_layout-distribution _ _ t.source_layout) in
      let two =
        same_distribution-local t.source_pencil t.destination_pencil t.plan_shared t.planned in
      let three =
        same_distribution-local valid t.destination_pencil shared
          (same_layout-distribution _ _ same) in
      let count : p.local_len ≡ q.local_len = one.count ∙ two.count ∙ sym three.count in
      record {
        source_array = array;
        destination_array = record {
          layout = record {
            pencil = valid;
            extra = t.buffer.extra;
            fits = rw (← count) array.layout.fits;
          };
          stored = rw (← count) array.stored;
        };
        source_pencil = t.source_pencil;
        destination_pencil = t.destination_pencil;
        planned = t.planned;
        source_layout = t.source_layout;
        destination_layout = same;
        extra =
            rw (list_eq_refl a.extra_shape.dimensions, ==-eq_refl a.extra_shape.element_count) refl;
        source_shared = t.source_shared;
        destination_shared = shared;
        plan_shared = t.plan_shared;
      }

  -- The buffer that is left.
  abbrev transposed : List T → ManyPencilArray T
  transposed storage = record a { storage = storage; state = LayoutState.valid d }

  IsMany-transposed :
      (storage : List T)
      → length storage ≡ length a.storage
      → d < length a.pencils
      → IsMany n m (transposed storage)
  IsMany-transposed storage size low = record {
    pencils = t.buffer.pencils;
    distinct = t.buffer.distinct;
    extra = t.buffer.extra;
    fits = t.buffer.fits;
    largest = (t.buffer.largest.0, t.buffer.largest.1, size ∙ t.buffer.largest.2);
    active = λ j e. let same : d ≡ j = cc in rw (← same) low;
  }

  begin-eq : begin_in_place_write a ≡ ok (begin_write a)
  unfolding begin_in_place_write
  begin-eq = rw active_index-eq refl

  write_back :
      (front back out : List T) (total : ℕ)
      → write_staged plan front total 0 a.storage ≡ (ok tt, out ++ back)
      → d < length a.pencils
      → write_staged_in_place plan a d total front ≡ (ok tt, transposed (out ++ back))
  unfolding write_staged_in_place commit_staged begin_write commit
  write_back front back out total written low =
      rw (write_staged_in_place, begin-eq, written, lt→leb_false d _ low) refl

  -- The run, step by step.
  run_in_place :
      (q : Pencil) (front back out scratch : List T) (capacity : ℕ)
      → (r : Ready n m plan (view_of t.buffer p front) (view_of t.buffer q front))
      → active_view a ≡ ok (view_of t.buffer p front)
      → front ++ back ≡ a.storage
      → write_staged plan front (a.extra_shape.element_count * plan.source.local_len) 0 a.storage
        ≡ (ok tt, out ++ back)
      → a.extra_shape.element_count * plan.source.local_len ≤ capacity
      → d < length a.pencils
      → execute_in_place plan a scratch capacity ≡ (ok tt, (transposed (out ++ back), front))
  unfolding execute_in_place validate_in_place staged_values validate_source
  run_in_place q front back out scratch capacity r view whole written enough low =
      let total = a.extra_shape.element_count * plan.source.local_len in
      let size = source_size r in
      let room : ltb capacity total ≡ false = ground (arith, enough) in
      let all : split_prefix front total ≡ some (front, []) =
        rw (← size) (split_prefix_self front) in
      rw
        (
          execute_in_place,
          validate_in_place,
          active_index-eq,
          t.found,
          t.source_layout,
          t.registered,
          required_ok r,
          room,
          view,
          size,
          ==-eq_refl total,
          check_offsets-ok (Steps-plan (planned_pair r)) total 0 total (omega arith),
          all,
          write_back front back out total written low,
        )
        refl

  -- For a well-formed buffer whose active layout is that of the plan's source, with the plan's
  -- destination registered and a scratch capacity of at least the number of elements:
  -- `execute_in_place` succeeds, the destination layout becomes active, and at every index tuple
  -- within the extra dimensions and the local shape the active view afterwards reads the element that
  -- it read before.
  pub execute_in_place_lem :
      (scratch : List T) (capacity : ℕ)
      → a.extra_shape.element_count * plan.source.local_len ≤ capacity
      → (before after : PencilArray T) × (storage staged : List T) × (execute_in_place plan a
            scratch capacity
          ≡ (ok tt, (record a { storage = storage; state = LayoutState.valid d }, staged)))
        × (active_view a ≡ ok before)
        × (active_view (record a { storage = storage; state = LayoutState.valid d }) ≡ ok after)
        × (same_layout after.pencil plan.destination ≡ true)
        × ((ei si : List ℕ)
            → Within before.extra_shape.dimensions ei
            → Within before.pencil.local_shape_logical si
            → get_local after ei si ≡ get_local before ei si)
  unfolding active_view active_index
  execute_in_place_lem scratch capacity enough =
      let (q, found, same) = destination_found in
      let (front, back, view, whole, size, array) = view_at_lem t.buffer i p t.found in
      let r = ready q front array found same in
      let (out, copied, kept_size, moved) = elements_moved r in
      let low = lt_of_get_elem? a.pencils d found in
      let total_size : length (out ++ back) ≡ length a.storage =
        length-append out back
        ∙ ap (λ (k : ℕ). k + length back) kept_size
        ∙ sym (length-append front back)
        ∙ ap length whole in
      let b = IsMany-transposed (out ++ back) total_size low in
      let (front', back', view', whole', size', array') = view_at_lem b d q found in
      let count = r.destination_array.stored in
      let parts : front' ≡ out =
        append_unique front' back' out back
          (size' ∙ mul_comm q.local_len a.extra_shape.element_count ∙ sym count ∙ sym kept_size)
          whole' in
      let written = rw whole at (write_staged-eq plan front _ 0 front back copied) in
      let start : active_view a ≡ ok (view_of t.buffer p front) =
        rw (t.active, lt→leb_false i _ (t.buffer.active i t.active), view) refl in
      (
        view_of t.buffer p front,
        view_of t.buffer q out,
        out ++ back,
        front,
        run_in_place q front back out scratch capacity r start whole written enough low,
        start,
        rw (lt→leb_false d _ low, view', parts) refl,
        same,
        moved,
      )
