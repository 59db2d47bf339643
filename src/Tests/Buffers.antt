-- ===== src/Tests/Buffers.antt =====
-- Examples of a buffer that is registered for the swapped and the straight memory order.
use pencil_rs.Prelude.{
  ℕ, ◌*◌, ◌≡◌, ◌≢◌, ◌⊎◌, refl, List, [], ◌∷◌, ◌++◌, true, false, some, arith, length, get_elem?,
  All, ok, err,
}
use pencil_rs.Error.{ArrayError}
use pencil_rs.Pencil.{Pencil, same_topology, same_distribution, same_layout}
use pencil_rs.Array.{PencilArray}
use pencil_rs.Array.Access.{IsArray}
use pencil_rs.Many.{
  ManyPencilArray, LayoutState, OverwriteError, Ending, from_vec_preserving, active_view,
  overwrite_with,
}
use pencil_rs.Many.Registry.{IsLargest}
use pencil_rs.Many.Construct.{IsRegistry, from_vec_preserving_lem}
use pencil_rs.Many.Transitions.{IsMany, view_of}
use pencil_rs.Many.Overwrite.{
  active_view_lem, overwrite_with_lem, overwrite_with-IsMany, result_of, state_of,
}
use pencil_rs.Geometry.Offset.{Within}
use pencil_rs.Array.{get_local}
use pencil_rs.Many.{find_layout}
use pencil_rs.LocalTranspose.{LocalTransposePlan}
use pencil_rs.LocalTranspose.InPlace.{execute_in_place}
use pencil_rs.LocalTranspose.InPlaceExecute.{Transposable, execute_in_place_lem}
use pencil_rs.Tests.{
  pencil_of, straight_of, pairs, array_of, IsValid-pencil, IsValid-straight, IsExtraShape-pairs,
}

abbrev swapped_pencil : Pencil
swapped_pencil = pencil_of (0 ∷ [])

abbrev straight_pencil : Pencil
straight_pencil = straight_of (0 ∷ [])

abbrev registry : List Pencil
registry = swapped_pencil ∷ straight_pencil ∷ []

abbrev stored : List ℕ
stored = (array_of (0 ∷ [])).storage

abbrev buffer : ManyPencilArray ℕ
buffer = record {
  pencils = registry;
  extra_shape = pairs;
  storage = stored;
  state = LayoutState.valid 0;
}

from_vec_preserving_example :
    IsRegistry registry 0 pairs
      × ((k : ℕ) × IsLargest k registry
          × (length stored ≡ k * 2)
          × (from_vec_preserving registry 0 pairs stored ≡ ok buffer))
    ⊎ ((k : ℕ) → IsRegistry registry 0 pairs → IsLargest k registry → length stored ≢ k * 2)
      × ((e : ArrayError) × (from_vec_preserving registry 0 pairs stored ≡ err (e, stored)))
from_vec_preserving_example = from_vec_preserving_lem registry 0 pairs stored

well_formed : IsMany 2 1 buffer
unfolding same_distribution same_layout same_topology
well_formed = record {
  pencils = (IsValid-pencil 0 (omega arith), (IsValid-straight 0 (omega arith), tt));
  distinct = ((refl, tt), (tt, tt));
  extra = IsExtraShape-pairs;
  fits = (omega arith, (omega arith, tt));
  largest = (
    6,
    record { bound = (omega arith, (omega arith, tt)); reached = (0, swapped_pencil, refl, refl) },
    refl,
  );
  active = λ i e. let first : 0 ≡ i = cc in omega arith;
}

active_view_example :
    ((i : ℕ) × (p : Pencil) × (front : List ℕ) × (back : List ℕ) × (LayoutState.valid 0
        ≡ LayoutState.valid i)
      × (get_elem? registry i ≡ some p)
      × (front ++ back ≡ stored)
      × (active_view buffer ≡ ok (view_of well_formed p front))
      × IsArray 2 1 (view_of well_formed p front))
    ⊎ (LayoutState.valid 0 ≡ LayoutState.poisoned) × (active_view buffer ≡ err ArrayError.poisoned)
active_view_example = active_view_lem well_formed

-- A closure that leaves its view as it is and fails.
abbrev give_up : PencilArray ℕ → List ℕ × Ending ℕ
give_up view = (view.storage, Ending.failed 3)

overwrite_with_example :
    All (λ p. same_layout p straight_pencil ≡ false) registry
      × (overwrite_with buffer straight_pencil give_up
          ≡ (err (OverwriteError.array ArrayError.incompatible_pencils), buffer))
    ⊎ ((i : ℕ) × (p : Pencil) × (front : List ℕ) × (back : List ℕ) × (get_elem? registry i ≡ some p)
        × (same_layout p straight_pencil ≡ true)
        × (front ++ back ≡ stored)
        × IsArray 2 1 (view_of well_formed p front)
        × (overwrite_with buffer straight_pencil give_up ≡ (
          result_of (give_up (view_of well_formed p front)).1,
          record buffer {
            storage = (give_up (view_of well_formed p front)).0 ++ back;
            state = state_of (give_up (view_of well_formed p front)).1 i;
          },
        )))
overwrite_with_example = overwrite_with_lem well_formed straight_pencil give_up

overwrite_with-IsMany_example : IsMany 2 1 (overwrite_with buffer straight_pencil give_up).1
overwrite_with-IsMany_example =
    overwrite_with-IsMany well_formed straight_pencil give_up (λ view. refl)

abbrev reorder : LocalTransposePlan
reorder = record { source = swapped_pencil; destination = straight_pencil }

transposable : Transposable 2 1 reorder buffer 0 1 swapped_pencil
unfolding find_layout same_distribution same_layout same_topology
transposable = record {
  buffer = well_formed;
  active = refl;
  found = refl;
  source_layout = refl;
  registered = refl;
  source_pencil = IsValid-pencil 0 (omega arith);
  destination_pencil = IsValid-straight 0 (omega arith);
  planned = refl;
  plan_shared = λ _. refl;
  source_shared = λ _. refl;
  destination_shared = (λ _. refl, (λ _. refl, tt));
}

execute_in_place_example :
    (before after : PencilArray ℕ) × (storage staged : List ℕ) × (execute_in_place reorder buffer []
        12
      ≡ (ok tt, (record buffer { storage = storage; state = LayoutState.valid 1 }, staged)))
    × (active_view buffer ≡ ok before)
    × (active_view (record buffer { storage = storage; state = LayoutState.valid 1 }) ≡ ok after)
    × (same_layout after.pencil straight_pencil ≡ true)
    × ((ei si : List ℕ)
        → Within before.extra_shape.dimensions ei
        → Within before.pencil.local_shape_logical si
        → get_local after ei si ≡ get_local before ei si)
execute_in_place_example = execute_in_place_lem transposable [] 12 (omega arith)
