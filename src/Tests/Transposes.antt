-- ===== src/Tests/Transposes.antt =====
-- Examples of a local transpose from the swapped to the straight memory order.
use pencil_rs.Prelude.{ℕ, ◌<◌, ◌≡◌, refl, List, [], ◌∷◌, arith, ok}
use pencil_rs.Geometry.Offset.{Within}
use pencil_rs.Pencil.{Pencil, same_topology, same_distribution, same_layout}
use pencil_rs.Array.{PencilArray, local_offset, get_local}
use pencil_rs.Array.Access.{IsArray}
use pencil_rs.LocalTranspose.{LocalTransposePlan, logical_offsets, execute_views, same_extra_shape}
use pencil_rs.LocalTranspose.Offsets.{Pair, linear_of, logical_offsets_lem}
use pencil_rs.LocalTranspose.Execute.{Ready, execute_views_lem}
use pencil_rs.Tests.{
  pencil_of, straight_of, pairs, array_of, IsValid-pencil, IsValid-straight, IsExtraShape-pairs,
  array_of-IsArray,
}

abbrev from_pencil : Pencil
from_pencil = pencil_of (1 ∷ [])

abbrev to_pencil : Pencil
to_pencil = straight_of (1 ∷ [])

pair : Pair 2 1 from_pencil to_pencil pairs
pair = record {
  source = record {
    pencil = IsValid-pencil 1 (omega arith);
    extra = IsExtraShape-pairs;
    fits = omega arith;
  };
  destination = record {
    pencil = IsValid-straight 1 (omega arith);
    extra = IsExtraShape-pairs;
    fits = omega arith;
  };
  logical = refl;
  count = refl;
}

logical_offsets_example :
    (o : ℕ) × (k : ℕ) × (logical_offsets from_pencil to_pencil
        (linear_of from_pencil pairs (1 ∷ []) (1 ∷ 2 ∷ []))
      ≡ ok (o, k))
    × (local_offset from_pencil pairs (1 ∷ []) (1 ∷ 2 ∷ []) ≡ ok o)
    × (local_offset to_pencil pairs (1 ∷ []) (1 ∷ 2 ∷ []) ≡ ok k)
    × (o < 12)
    × (k < 12)
logical_offsets_example =
    logical_offsets_lem pair (1 ∷ []) (1 ∷ 2 ∷ []) (omega arith, tt)
      (omega arith, (omega arith, tt))

abbrev plan : LocalTransposePlan
plan = record { source = from_pencil; destination = to_pencil }

abbrev source : PencilArray ℕ
source = array_of (1 ∷ [])

abbrev destination : PencilArray ℕ
destination = record source { pencil = to_pencil }

ready : Ready 2 1 plan source destination
unfolding same_extra_shape same_distribution same_layout same_topology
ready = record {
  source_array = array_of-IsArray 1 (omega arith);
  destination_array = record {
    layout = record {
      pencil = IsValid-straight 1 (omega arith);
      extra = IsExtraShape-pairs;
      fits = omega arith;
    };
    stored = refl;
  };
  source_pencil = IsValid-pencil 1 (omega arith);
  destination_pencil = IsValid-straight 1 (omega arith);
  planned = refl;
  source_layout = refl;
  destination_layout = refl;
  extra = refl;
  source_shared = λ _. refl;
  destination_shared = λ _. refl;
  plan_shared = λ _. refl;
}

execute_views_example :
    (out : List ℕ) × (execute_views plan source destination
      ≡ ok (record destination { storage = out }))
    × IsArray 2 1 (record destination { storage = out })
    × ((ei si : List ℕ)
        → Within (2 ∷ []) ei
        → Within (2 ∷ 3 ∷ []) si
        → get_local (record destination { storage = out }) ei si ≡ get_local source ei si)
execute_views_example = execute_views_lem ready
