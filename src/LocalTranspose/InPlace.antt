-- ===== src/LocalTranspose/InPlace.antt =====
-- crates/pencil-array/src/local_transpose.rs: the in-place execution over a registered buffer. The
-- clones of elements are assumed not to panic.
use pencil_rs.Prelude.{
  ℕ, zero, suc, ◌+◌, List, [], ◌∷◌, ◌++◌, none, some, not, ◌==◌, if◌then◌else◌, ltb, length,
  get_elem?, put_at, Outcome, ok, err, panic, expect, map_err, ok_or, reject_if, ◌>>=◌,
}
use pencil_rs.Error.{ArrayError}
use pencil_rs.Checked.{checked_product}
use pencil_rs.Pencil.{same_layout}
use pencil_rs.Array.{PencilArray}
use pencil_rs.Many.{
  ManyPencilArray, active_index, active_view, find_layout, split_prefix, begin_in_place_write,
  commit,
}
use pencil_rs.LocalTranspose.{
  LocalTransposePlan, LocalTransposeError, logical_offsets, check_offsets,
}

-- `slot.clone_from(value)` for each pair of `zip`
unfoldable pub clone_into {ℓ} : {T : Type ℓ} → List T → List T → List T
clone_into values [] = []
clone_into [] (slot ∷ slots) = slot ∷ slots
clone_into (value ∷ values) (slot ∷ slots) = value ∷ clone_into values slots

module _ {ℓ} {T : Type ℓ} where
  -- `validate_in_place`: the index of the destination layout and the number of elements.
  unfoldable pub validate_in_place :
      LocalTransposePlan → ManyPencilArray T → Outcome LocalTransposeError (ℕ × ℕ)
  validate_in_place plan array =
      map_err LocalTransposeError.array (active_index array) >>= λ source_index.
      expect (get_elem? array.pencils source_index) >>= λ active.
      reject_if (not (same_layout active plan.source)) LocalTransposeError.source_layout_mismatch
      >>= λ _.
          ok_or (find_layout array.pencils plan.destination)
            LocalTransposeError.destination_layout_mismatch
          >>= λ destination_index.
              map_err (λ e. LocalTransposeError.array (ArrayError.geometry e))
                (checked_product (plan.source.local_len ∷ array.extra_shape.element_count ∷ []))
              >>= λ required. ok (destination_index, required)

  -- `validate_source`
  unfoldable pub validate_source :
      LocalTransposePlan → PencilArray T → ℕ → Outcome LocalTransposeError (Unit {0})
  validate_source plan source required =
      reject_if (not (length source.storage == required)) (
        LocalTransposeError.array
          (ArrayError.storage_length_mismatch required (length source.storage)))
      >>= λ _. check_offsets plan required (length source.storage) required required 0

  -- The values that are staged: those of the active view, once it is validated.
  unfoldable pub staged_values :
      LocalTransposePlan → ManyPencilArray T → ℕ → Outcome LocalTransposeError (List T)
  unfolding validate_source
  staged_values plan array required =
      map_err LocalTransposeError.array (active_view array) >>= λ source.
      validate_source plan source required >>= λ _. ok source.storage

  -- `for linear in 0..required` of `write_staged_in_place`, from a given position on: the outcome
  -- and the storage as it is left.
  unfoldable pub write_staged :
      LocalTransposePlan → List T → ℕ → ℕ → List T → Outcome LocalTransposeError (Unit {0}) × List T
  write_staged plan staged zero linear storage = (ok tt, storage)
  write_staged plan staged (suc left) linear storage =
      elim (logical_offsets plan.source plan.destination linear) [
        | err e ↦ (err (LocalTransposeError.array e), storage)
        | panic ↦ (panic, storage)
        | ok offsets ↦ elim (get_elem? staged offsets.0) [
          | none ↦ (panic, storage)
          | some value ↦ elim (put_at storage offsets.1 value) [
            | none ↦ (panic, storage)
            | some next ↦ write_staged plan staged left (linear + 1) next
          ]
        ]
      ]

  -- What follows the loop: `guard.commit(destination_index)?`
  unfoldable pub commit_staged :
      ManyPencilArray T
      → ℕ
      → Outcome LocalTransposeError (Unit {0}) × List T
      → Outcome LocalTransposeError (Unit {0}) × ManyPencilArray T
  commit_staged array destination_index (ok done, storage) =
      let committed = commit (record array { storage = storage }) destination_index in
      (map_err LocalTransposeError.array committed.0, committed.1)
  commit_staged array destination_index (err e, storage) =
      (err e, record array { storage = storage })
  commit_staged array destination_index (panic, storage) =
      (panic, record array { storage = storage })

  -- `write_staged_in_place`: what it returns, and the array it leaves.
  unfoldable pub write_staged_in_place :
      LocalTransposePlan
      → ManyPencilArray T
      → ℕ
      → ℕ
      → List T
      → Outcome LocalTransposeError (Unit {0}) × ManyPencilArray T
  unfolding commit_staged
  write_staged_in_place plan array destination_index required staged =
      elim (begin_in_place_write array) [
        | err e ↦ (err (LocalTransposeError.array e), array)
        | panic ↦ (panic, array)
        | ok guarded ↦
            commit_staged guarded destination_index
              (write_staged plan staged required 0 guarded.storage)
      ]

  -- `execute_in_place`, with the capacity of the scratch vector: what it returns, the array and the
  -- contents of the scratch vector.
  unfoldable pub execute_in_place :
      LocalTransposePlan
      → ManyPencilArray T
      → List T
      → ℕ
      → Outcome LocalTransposeError (Unit {0}) × (ManyPencilArray T × List T)
  execute_in_place plan array scratch capacity = elim (validate_in_place plan array) [
    | err e ↦ (err e, (array, scratch))
    | panic ↦ (panic, (array, scratch))
    | ok (destination_index, required) ↦
        if ltb capacity required
        then (err (LocalTransposeError.scratch_too_small required capacity), (array, scratch))
        else elim (staged_values plan array required) [
          | err e ↦ (err e, (array, scratch))
          | panic ↦ (panic, (array, scratch))
          | ok staged ↦ elim (split_prefix staged required) [
            | none ↦ (panic, (array, staged))
            | some (front, back) ↦
                let written = write_staged_in_place plan array destination_index required front in
                (written.0, (written.1, staged))
          ]
        ]
  ]

  -- `execute_in_place_with_transpose_workspace`, with the send buffer of the workspace.
  unfoldable pub execute_in_place_with_workspace :
      LocalTransposePlan
      → ManyPencilArray T
      → List T
      → Outcome LocalTransposeError (Unit {0}) × (ManyPencilArray T × List T)
  execute_in_place_with_workspace plan array send = elim (validate_in_place plan array) [
    | err e ↦ (err e, (array, send))
    | panic ↦ (panic, (array, send))
    | ok (destination_index, required) ↦ elim (split_prefix send required) [
      | none ↦ (err (LocalTransposeError.scratch_too_small required (length send)), (array, send))
      | some (slots, tail) ↦ elim (staged_values plan array required) [
        | err e ↦ (err e, (array, send))
        | panic ↦ (panic, (array, send))
        | ok staged ↦
            let written =
              write_staged_in_place plan array destination_index required
                (clone_into staged slots) in
            (written.0, (written.1, clone_into staged slots ++ tail))
      ]
    ]
  ]
