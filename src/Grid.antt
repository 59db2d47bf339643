-- ===== src/Grid.antt =====
-- crates/pencil-array/src/grid.rs: the coordinate slices of one process and their iteration. Debug
-- assertions are taken as enabled.
pub mod Odometer
pub mod Slices
pub mod Construct
pub mod Items
use pencil_rs.Prelude.{
  ℕ, zero, suc, ◌+◌, ◌-◌, List, [], ◌∷◌, Bool, true, false, Option, none, some, not, ◌==◌, ◌&&◌,
  if◌then◌else◌, leb, ltb, length, get_elem?, take, replicate, and_then, Outcome, ok, err, expect,
  map_err, reject_if, ◌>>=◌, ◌>>◌,
}
use pencil_rs.Error.{LocalGridError}
use pencil_rs.Checked.{checked_product}
use pencil_rs.Axis.{store_positions}
use pencil_rs.Geometry.{Range}
use pencil_rs.Pencil.{Pencil}

pub record LocalGrid {ℓ} (C : Type ℓ) : Type ℓ where
  pub axes : List (List C)
  pub logical_shape : List ℕ
  pub memory_shape : List ℕ
  pub logical_to_memory : List ℕ
  pub len : ℕ

pub record LocalGridIter {ℓ} (C : Type ℓ) : Type ℓ where
  pub axes : List (List C)
  pub memory_shape : List ℕ
  pub logical_to_memory : List ℕ
  pub memory_indices : List ℕ
  pub remaining : ℕ

-- `debug_assert!`
abbrev pub debug_assert : Bool → Option (Unit {0})
debug_assert true = some tt
debug_assert false = none

abbrev pub drop {ℓ} : {A : Type ℓ} → ℕ → List A → List A
drop zero xs = xs
drop (suc k) [] = []
drop (suc k) (x ∷ xs) = drop k xs

-- `slice.get(range)`
unfoldable pub get_range {ℓ} : {A : Type ℓ} → List A → Range → Option (List A)
get_range xs range =
    if leb range.start range.end && leb range.end (length xs)
    then some (take (range.end - range.start) (drop range.start xs))
    else none

-- `local_indices.iter().enumerate().any(|(axis, &index)| index >= logical_shape[axis])`, with `none`
-- for a panic
unfoldable pub any_beyond : List ℕ → List ℕ → Option Bool
any_beyond shape [] = some false
any_beyond [] (index ∷ indices) = none
any_beyond (extent ∷ shape) (index ∷ indices) =
    let rest = any_beyond shape indices in if leb extent index then some true else rest

module _ {ℓ} {C : Type ℓ} where
  -- `for (axis, coordinate_axis) in coordinates.iter().enumerate()`, from a given axis on
  unfoldable pub check_axis_lengths : ℕ → List ℕ → List (List C) → Outcome LocalGridError (Unit {0})
  check_axis_lengths axis shape [] = ok tt
  check_axis_lengths axis [] (coordinates ∷ rest) = ok tt
  check_axis_lengths axis (expected ∷ shape) (coordinates ∷ rest) =
      reject_if (not (length coordinates == expected))
        (LocalGridError.axis_length_mismatch axis expected (length coordinates))
      >>= λ _. check_axis_lengths (axis + 1) shape rest

  -- `from_fn(|axis| coordinates[axis].get(range))`
  unfoldable pub local_axes : List Range → List (List C) → Option (List (List C))
  unfolding get_range
  local_axes [] coordinates = some []
  local_axes (range ∷ ranges) [] = none
  local_axes (range ∷ ranges) (coordinates ∷ rest) =
      and_then (get_range coordinates range)
        (λ local. and_then (local_axes ranges rest) (λ locals. some (local ∷ locals)))

  -- `LocalGrid::from_pencil`
  unfoldable pub from_pencil : Pencil → List (List C) → Outcome LocalGridError (LocalGrid C)
  unfolding check_axis_lengths local_axes
  from_pencil pencil coordinates = check_axis_lengths 0 pencil.global_shape coordinates >>= λ _.
      map_err (λ _. LocalGridError.size_overflow) (checked_product pencil.local_shape_logical)
      >>= λ len.
          map_err (λ _. LocalGridError.size_overflow) (checked_product pencil.local_shape_memory)
          >>= λ memory_len. expect (debug_assert (len == memory_len)) >>= λ _.
              expect (debug_assert (len == pencil.local_len)) >>= λ _.
              expect (local_axes pencil.local_ranges coordinates) >>= λ axes.
              expect (
                store_positions (replicate (length pencil.permutation.axes_in_memory_order) 0) 0
                  pencil.permutation.axes_in_memory_order)
              >>= λ logical_to_memory. ok (record {
                axes = axes;
                logical_shape = pencil.local_shape_logical;
                memory_shape = pencil.local_shape_memory;
                logical_to_memory = logical_to_memory;
                len = len;
              })

  -- `LocalGrid::axis`
  unfoldable pub axis : LocalGrid C → ℕ → Option (List C)
  axis grid a = get_elem? grid.axes a

  -- `from_fn(|axis| &axes[axis][local_indices[axis]])`
  unfoldable pub values_at : List (List C) → List ℕ → Option (List C)
  values_at [] indices = some []
  values_at (axis ∷ axes) [] = none
  values_at (axis ∷ axes) (index ∷ indices) =
      and_then (get_elem? axis index)
        (λ value. and_then (values_at axes indices) (λ rest. some (value ∷ rest)))

  -- `LocalGrid::get_local`; the outer `none` is a panic.
  unfoldable pub get_local : LocalGrid C → List ℕ → Option (Option (List C))
  unfolding any_beyond values_at
  get_local grid local_indices = and_then (any_beyond grid.logical_shape local_indices) (λ beyond.
      if beyond
      then some none
      else and_then (values_at grid.axes local_indices) (λ item. some (some item)))

  -- `LocalGrid::iter`
  unfoldable pub iter : LocalGrid C → LocalGridIter C
  iter grid = record {
    axes = grid.axes;
    memory_shape = grid.memory_shape;
    logical_to_memory = grid.logical_to_memory;
    memory_indices = replicate (length grid.memory_shape) 0;
    remaining = grid.len;
  }

  -- `from_fn(|logical_axis| &axes[logical_axis][memory_indices[logical_to_memory[logical_axis]]])`
  unfoldable pub coordinates_at : List (List C) → List ℕ → List ℕ → Option (List C)
  coordinates_at [] positions indices = some []
  coordinates_at (axis ∷ axes) [] indices = none
  coordinates_at (axis ∷ axes) (position ∷ positions) indices =
      and_then (get_elem? indices position) (λ index. and_then (get_elem? axis index) (λ coordinate.
        and_then (coordinates_at axes positions indices) (λ rest. some (coordinate ∷ rest))))

-- `advance_memory_indices`, `for position in (0..N).rev()`: the indices as they are left, and whether
-- the loop ran through without returning. An empty extent panics.
unfoldable pub advance : List ℕ → List ℕ → Option (Bool × List ℕ)
advance [] indices = some (true, indices)
advance (extent ∷ shape) [] = none
advance (extent ∷ shape) (index ∷ indices) = and_then (advance shape indices) (λ (carry, rest).
    if not carry
    then some (false, index ∷ rest)
    else if extent == 0
    then none
    else if ltb index (extent - 1)
    then some (false, (index + 1) ∷ rest)
    else some (true, 0 ∷ rest))

-- `advance_memory_indices`, with the debug assertion behind the loop.
unfoldable pub advance_memory_indices : ℕ → List ℕ → List ℕ → Option (List ℕ)
advance_memory_indices remaining shape indices = and_then (advance shape indices) (λ (carry, next).
    if carry then and_then (debug_assert (remaining == 0)) (λ _. some next) else some next)

module _ {ℓ} {C : Type ℓ} where
  -- `Iterator::next`: the item and the iterator as it is left; the outer `none` is a panic.
  unfoldable pub next : LocalGridIter C → Option (Option (List C) × LocalGridIter C)
  unfolding coordinates_at advance_memory_indices
  next it =
      if it.remaining == 0
      then some (none, it)
      else and_then (coordinates_at it.axes it.logical_to_memory it.memory_indices) (λ item.
        if it.remaining - 1 == 0
        then some (some item, record it { remaining = it.remaining - 1 })
        else and_then (advance_memory_indices (it.remaining - 1) it.memory_shape it.memory_indices)
            (λ indices.
              some
                (some item, record it { remaining = it.remaining - 1; memory_indices = indices })))
