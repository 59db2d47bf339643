-- ===== src/Many.antt =====
-- crates/pencil-array/src/many.rs: one buffer registered for several pencil layouts.
pub mod Registry
pub mod Construct
pub mod Transitions
pub mod Overwrite
use pencil_rs.Prelude.{
  ℕ, zero, suc, ◌*◌, List, [], ◌∷◌, ◌++◌, Bool, true, false, Option, none, some, not, ◌==◌, ◌||◌,
  if◌then◌else◌, leb, max, list_eq, length, get_elem?, Outcome, ok, err, panic, expect, map_err,
  ok_or, and_then, reject_if, ◌>>=◌, ◌>>◌,
}
use pencil_rs.Error.{ArrayError}
use pencil_rs.Checked.{checked_product}
use pencil_rs.ExtraShape.{ExtraShape}
use pencil_rs.Pencil.{Pencil, same_topology, same_layout}
use pencil_rs.Array.{PencilArray, view_new}

pub data OverwriteError {ℓ} (E : Type ℓ) : Type ℓ where
  array : ArrayError → OverwriteError E
  writer : E → OverwriteError E

pub data LayoutState : Type 0 where
  valid : (index : ℕ) → LayoutState
  poisoned : LayoutState

pub record ManyPencilArray {ℓ} (T : Type ℓ) : Type ℓ where
  pub pencils : List Pencil
  pub extra_shape : ExtraShape
  pub storage : List T
  pub state : LayoutState

-- `iter().any(|q| q.same_layout(pencil))`
unfoldable pub registered : List Pencil → Pencil → Bool
registered [] pencil = false
registered (q ∷ seen) pencil = same_layout q pencil || registered seen pencil

-- `iter().skip(1).any(..)`: a pencil over another topology or global shape than the first.
unfoldable pub any_incompatible : Pencil → List Pencil → Bool
any_incompatible first [] = false
any_incompatible first (p ∷ ps) =
    not (same_topology first p)
    || not (list_eq first.global_shape p.global_shape)
    || any_incompatible first ps

-- `for (index, pencil) in pencils.iter().enumerate()`: a layout that an earlier pencil has.
unfoldable pub any_repeated : List Pencil → List Pencil → Bool
any_repeated seen [] = false
any_repeated seen (p ∷ ps) = registered seen p || any_repeated (seen ++ p ∷ []) ps

-- `iter().map(|pencil| pencil.local_len()).max()`
unfoldable pub max_local_len : List Pencil → Option ℕ
max_local_len [] = none
max_local_len (p ∷ []) = some p.local_len
max_local_len (p ∷ q ∷ ps) = and_then (max_local_len (q ∷ ps)) (λ k. some (max p.local_len k))

-- `validate_registry`
unfoldable pub validate_registry : List Pencil → ℕ → ExtraShape → Outcome ArrayError ℕ
unfolding any_incompatible any_repeated max_local_len
validate_registry [] active extra_shape = err ArrayError.incompatible_pencils
validate_registry (first ∷ rest) active extra_shape = do
  reject_if (leb (length (first ∷ rest)) active)
      (ArrayError.invalid_active_layout active (length (first ∷ rest)))
  reject_if (any_incompatible first rest) ArrayError.incompatible_pencils
  reject_if (any_repeated [] (first ∷ rest)) ArrayError.incompatible_pencils
  largest ← expect (max_local_len (first ∷ rest))
  map_err ArrayError.geometry (checked_product (largest ∷ extra_shape.element_count ∷ []))

-- The position of the first registered pencil with the layout.
unfoldable pub find_layout : List Pencil → Pencil → Option ℕ
find_layout [] pencil = none
find_layout (q ∷ ps) pencil =
    let rest = find_layout ps pencil in
    if same_layout q pencil then some 0 else and_then rest (λ i. some (suc i))

-- `&storage[..used]` and what follows it
unfoldable pub split_prefix {ℓ} : {T : Type ℓ} → List T → ℕ → Option (List T × List T)
split_prefix storage zero = some ([], storage)
split_prefix [] (suc used) = none
split_prefix (t ∷ storage) (suc used) =
    and_then (split_prefix storage used) (λ (front, back). some (t ∷ front, back))

-- How the closure of `overwrite_with` ends.
pub data Ending {ℓ} (E : Type ℓ) : Type ℓ where
  finished : Ending E
  failed : E → Ending E
  unwound : Ending E

module _ {ℓ} {T : Type ℓ} where
  -- `ManyPencilArray::from_vec_preserving`: an error comes with the storage.
  unfoldable pub from_vec_preserving :
      List Pencil → ℕ → ExtraShape → List T → Outcome (ArrayError × List T) (ManyPencilArray T)
  from_vec_preserving pencils active extra_shape storage =
      map_err (λ e. (e, storage)) (validate_registry pencils active extra_shape) >>= λ required.
      reject_if (not (length storage == required))
        (ArrayError.storage_length_mismatch required (length storage), storage)
      >>= λ _. ok (record {
        pencils = pencils;
        extra_shape = extra_shape;
        storage = storage;
        state = LayoutState.valid active;
      })

  -- `ManyPencilArray::from_vec`
  unfoldable pub from_vec_many :
      List Pencil → ℕ → ExtraShape → List T → Outcome ArrayError (ManyPencilArray T)
  unfolding from_vec_preserving
  from_vec_many pencils active extra_shape storage =
      map_err (λ (e : ArrayError × List T). e.0)
        (from_vec_preserving pencils active extra_shape storage)

  unfoldable pub active_index : ManyPencilArray T → Outcome ArrayError ℕ
  active_index a = elim a.state [
    | LayoutState.valid index ↦
        if leb (length a.pencils) index
        then err (ArrayError.invalid_active_layout index (length a.pencils))
        else ok index
    | LayoutState.poisoned ↦ err ArrayError.poisoned
  ]

  unfoldable pub layout_len : ManyPencilArray T → ℕ → Outcome ArrayError ℕ
  layout_len a index =
      ok_or (get_elem? a.pencils index) (ArrayError.invalid_active_layout index (length a.pencils))
      >>= λ pencil.
          map_err ArrayError.geometry
            (checked_product (pencil.local_len ∷ a.extra_shape.element_count ∷ []))

  -- `LayoutWriteGuard::view_mut`, and the body of `active_view` and `active_view_mut`: the view of
  -- a layout's prefix of the storage, and what follows the prefix.
  unfoldable pub view_at : ManyPencilArray T → ℕ → Outcome ArrayError (PencilArray T × List T)
  unfolding layout_len
  view_at a index = layout_len a index >>= λ used. expect (get_elem? a.pencils index) >>= λ pencil.
      expect (split_prefix a.storage used) >>= λ parts.
      view_new pencil a.extra_shape parts.0 >>= λ view. ok (view, parts.1)

  -- `active_view`
  unfoldable pub active_view : ManyPencilArray T → Outcome ArrayError (PencilArray T)
  unfolding active_index view_at
  active_view a = active_index a >>= λ index. view_at a index >>= λ found. ok found.0

  -- `into_parts_preserving`: an error comes with the array.
  unfoldable pub into_parts_preserving :
      ManyPencilArray T
      → Outcome (ArrayError × ManyPencilArray T) (List Pencil × (ℕ × (ExtraShape × List T)))
  unfolding active_index
  into_parts_preserving a = map_err (λ e. (e, a)) (active_index a) >>= λ active.
      ok (a.pencils, (active, (a.extra_shape, a.storage)))

  -- `LayoutWriteGuard::new`: the array is poisoned before the write.
  unfoldable pub begin_write : ManyPencilArray T → ManyPencilArray T
  begin_write a = record a { state = LayoutState.poisoned }

  -- `begin_in_place_write`: the guard poisons the array once there is an active layout.
  unfoldable pub begin_in_place_write : ManyPencilArray T → Outcome ArrayError (ManyPencilArray T)
  unfolding active_index begin_write
  begin_in_place_write a = active_index a >>= λ _. ok (begin_write a)

  -- `LayoutWriteGuard::commit`
  unfoldable pub commit : ManyPencilArray T → ℕ → Outcome ArrayError (Unit {0}) × ManyPencilArray T
  commit a index =
      if leb (length a.pencils) index
      then (err (ArrayError.invalid_active_layout index (length a.pencils)), a)
      else (ok tt, record a { state = LayoutState.valid index })

  -- `write(..).map_err(OverwriteError::Writer)?; guard.commit(target_index)?`: the storage is what
  -- the closure left in its view and what follows the view.
  unfoldable pub finish_write {κ} :
      {E : Type κ}
      → ManyPencilArray T
      → ℕ
      → List T
      → List T × Ending E
      → Outcome (OverwriteError E) (Unit {0}) × ManyPencilArray T
  unfolding commit
  finish_write a index back (front, Ending.finished) =
      let committed = commit (record a { storage = front ++ back }) index in
      (map_err OverwriteError.array committed.0, committed.1)
  finish_write a index back (front, Ending.failed e) =
      (err (OverwriteError.writer e), record a { storage = front ++ back })
  finish_write a index back (front, Ending.unwound) = (panic, record a { storage = front ++ back })

  -- `overwrite_with`: what it returns, and the array it leaves.
  unfoldable pub overwrite_with {κ} :
      {E : Type κ}
      → ManyPencilArray T
      → Pencil
      → (PencilArray T → List T × Ending E)
      → Outcome (OverwriteError E) (Unit {0}) × ManyPencilArray T
  unfolding begin_write view_at finish_write
  overwrite_with a target write = elim (find_layout a.pencils target) [
    | none ↦ (err (OverwriteError.array ArrayError.incompatible_pencils), a)
    | some index ↦ elim (view_at (begin_write a) index) [
      | ok (view, back) ↦ finish_write (begin_write a) index back (write view)
      | err e ↦ (err (OverwriteError.array e), begin_write a)
      | panic ↦ (panic, begin_write a)
    ]
  ]
