-- ===== src/Transpose/Descriptor.antt =====
-- crates/pencil-array/src/transpose.rs: the words by which the ranks compare their plans before a
-- distributed transpose is built. Reserving memory succeeds, and a usize is a word of its own value.
use pencil_rs.Prelude.{
  ℕ, ◌+◌, List, [], ◌∷◌, ◌++◌, Bool, true, false, ◌&&◌, ◌==◌, Option, none, some, if◌then◌else◌,
  length, map, take, and_then, Outcome, ok, err, panic,
}
use pencil_rs.Word.{checked_add, checked_mul}
use pencil_rs.Pencil.{Pencil}
use pencil_rs.Grid.{drop}
use pencil_rs.Transpose.{TransposeError}
use pencil_rs.Transpose.Peers.{to_count}
use pencil_rs.Transpose.Counts.{CommunicationMode}
use pencil_rs.Preflight.{u64_max, complement, expand_for_max, collective_valid}

abbrev pub descriptor_schema : ℕ
descriptor_schema = 1

abbrev pub invalid_axis : ℕ
invalid_axis = u64_max

unfoldable pub new_operation : CommunicationMode → ℕ
new_operation CommunicationMode.all_to_allv = 1
new_operation CommunicationMode.point_to_point = 4

unfoldable pub views_operation : CommunicationMode → ℕ
views_operation CommunicationMode.all_to_allv = 2
views_operation CommunicationMode.point_to_point = 5

unfoldable pub in_place_operation : CommunicationMode → ℕ
in_place_operation CommunicationMode.all_to_allv = 3
in_place_operation CommunicationMode.point_to_point = 6

unfoldable pub timed_views_operation : CommunicationMode → ℕ
timed_views_operation CommunicationMode.point_to_point = 0x10002
timed_views_operation CommunicationMode.all_to_allv = 0x10004

unfoldable pub timed_in_place_operation : CommunicationMode → ℕ
timed_in_place_operation CommunicationMode.point_to_point = 0x10003
timed_in_place_operation CommunicationMode.all_to_allv = 0x10005

unfoldable pub callback_operation : CommunicationMode → ℕ
callback_operation CommunicationMode.point_to_point = 0x10001
callback_operation CommunicationMode.all_to_allv = 2

unfoldable pub callback_in_place_operation : CommunicationMode → ℕ
callback_in_place_operation CommunicationMode.point_to_point = 0x10006
callback_in_place_operation CommunicationMode.all_to_allv = 3

-- `plan_descriptor_len`
unfoldable pub plan_descriptor_len : (n m : ℕ) → Option ℕ
plan_descriptor_len n m = and_then (checked_mul m 4) (λ topology_words.
    and_then (checked_mul n 4) (λ spatial_words.
      and_then (checked_add 5 topology_words) (λ value. checked_add value spatial_words)))

-- `for axis in 0..M` of `changed_axis_sentinel`, from a given axis on, with the change seen so far.
unfoldable pub sentinel_from : ℕ → Option ℕ → List ℕ → List ℕ → ℕ
sentinel_from axis changed (from ∷ source) (to ∷ destination) =
    if from == to then sentinel_from (axis + 1) changed source destination else elim changed [
      | some earlier ↦ invalid_axis
      | none ↦ sentinel_from (axis + 1) (some axis) source destination
    ]
sentinel_from axis (some changed) [] destination = changed
sentinel_from axis (some changed) (from ∷ source) [] = changed
sentinel_from axis none [] destination = invalid_axis
sentinel_from axis none (from ∷ source) [] = invalid_axis

-- `changed_axis_sentinel`
unfoldable pub changed_axis_sentinel : Pencil → Pencil → ℕ
unfolding sentinel_from
changed_axis_sentinel source destination =
    sentinel_from 0 none source.decomposition destination.decomposition

-- `append_pencil_values`: the words that are appended.
unfoldable pub pencil_values : Pencil → List ℕ
pencil_values pencil =
    pencil.global_shape ++ (pencil.decomposition ++ pencil.permutation.axes_in_memory_order)

-- `build_plan_descriptor`: the words before the check of their number.
unfoldable pub plan_words : (n m : ℕ) → Pencil → Pencil → ℕ → List ℕ
unfolding changed_axis_sentinel pencil_values
plan_words n m source destination operation =
    descriptor_schema
      ∷ operation
      ∷ n
      ∷ m
      ∷ changed_axis_sentinel source destination
      ∷ source.topology.process_grid
    ++ (destination.topology.process_grid ++ (pencil_values source ++ pencil_values destination))

-- `build_plan_descriptor`
unfoldable pub build_plan_descriptor : (n m : ℕ) → Pencil → Pencil → ℕ → Option (List ℕ)
unfolding plan_descriptor_len plan_words
build_plan_descriptor n m source destination operation = and_then (plan_descriptor_len n m) (λ len.
    if length (plan_words n m source destination operation) == len
    then some (plan_words n m source destination operation)
    else none)

-- `ready` of `collective_descriptor`: what one rank reports.
unfoldable pub descriptor_ready : Option (List ℕ) → Option ℕ → Bool
descriptor_ready (some descriptor) (some expected_len) =
    length descriptor == expected_len && elim (checked_mul expected_len 2) [
      | some doubled ↦ elim (to_count doubled) [ some _ ↦ true | none ↦ false ]
      | none ↦ false
    ]
descriptor_ready none expected_len = false
descriptor_ready (some descriptor) none = false

-- `maximum.zip(complemented_minimum).any(..)`
unfoldable pub any_mismatch : List ℕ → List ℕ → Bool
any_mismatch (maximum ∷ tops) (complemented_minimum ∷ bottoms) =
    if maximum == complement complemented_minimum then any_mismatch tops bottoms else true
any_mismatch [] bottoms = false
any_mismatch (maximum ∷ tops) [] = false

-- What a rank passes to the reduction.
abbrev pub paired_descriptor : Option (List ℕ) × Option ℕ → List ℕ
paired_descriptor (some descriptor, len) = expand_for_max descriptor
paired_descriptor (none, len) = []

-- What a rank concludes from the reduced words.
unfoldable pub conclude : List ℕ → Option (List ℕ) × Option ℕ → Outcome TransposeError (List ℕ)
unfolding any_mismatch
conclude reduced (some descriptor, some len) =
    if any_mismatch (take len reduced) (drop len reduced)
    then err TransposeError.collective_descriptor_mismatch
    else ok descriptor
conclude reduced (none, len) = panic
conclude reduced (some descriptor, none) = panic

-- `collective_descriptor`, for all ranks.
unfoldable pub collective_descriptor :
    (List ℕ → ℕ)
    → (List (List ℕ) → List ℕ)
    → List (Option (List ℕ) × Option ℕ)
    → List (Outcome TransposeError (List ℕ))
unfolding descriptor_ready conclude
collective_descriptor all_reduce_min all_reduce_max locals =
    if collective_valid all_reduce_min
      (map (λ (l : Option (List ℕ) × Option ℕ). descriptor_ready l.0 l.1) locals)
    then map (conclude (all_reduce_max (map paired_descriptor locals))) locals
    else map (λ _. err TransposeError.preparation_failed) locals
