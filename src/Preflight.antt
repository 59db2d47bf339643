-- ===== src/Preflight.antt =====
-- crates/pencil-array/src/preflight.rs and `collective_valid` of transpose.rs: what all ranks of a
-- communicator agree on before they exchange data. A collective function is modelled for the whole
-- group: it takes what each rank passes, in the order of the ranks, and MPI's all-reduce is an argument
-- that takes the contributions of all ranks and gives the one result that each of them receives.
pub mod Agree
use pencil_rs.Prelude.{
  ℕ, ◌+◌, ◌-◌, ◌/◌, ◌^◌, List, ◌++◌, Bool, true, false, not, ◌==◌, if◌then◌else◌, length, list_eq,
  take, map, Outcome, ok, err, panic, is_ok,
}
use pencil_rs.Grid.{drop}

abbrev pub u64_max : ℕ
u64_max = 2 ^ 64 - 1

-- `!value` of a u64
unfoldable pub complement : ℕ → ℕ
complement value = u64_max - value

-- `expand_for_max`: the paired buffer, of twice the length of the values.
unfoldable pub expand_for_max : List ℕ → List ℕ
expand_for_max values = values ++ map complement values

-- `split_min_max`: the minimum and the maximum.
unfoldable pub split_min_max : List ℕ → List ℕ × List ℕ
split_min_max reduced =
    (map complement (drop (length reduced / 2) reduced), take (length reduced / 2) reduced)

-- `agree_header`
unfoldable pub agree_header : (List (List ℕ) → List ℕ) → List (List ℕ) → Bool
unfolding expand_for_max split_min_max
agree_header all_reduce_max headers =
    list_eq (split_min_max (all_reduce_max (map expand_for_max headers))).0
      (split_min_max (all_reduce_max (map expand_for_max headers))).1

-- `i32::from` of a Boolean
abbrev pub from_bool : Bool → ℕ
from_bool true = 1
from_bool false = 0

-- `collective_valid`, and `all_ranks_succeeded` on the communicator of a topology
unfoldable pub collective_valid : (List ℕ → ℕ) → List Bool → Bool
collective_valid all_reduce_min flags = not (all_reduce_min (map from_bool flags) == 0)

module _ {ℓ κ} {E : Type ℓ} {A : Type κ} where
  -- `Err(local.err().unwrap_or(peer_error))`
  unfoldable pub or_peer_error : E → Outcome E A → Outcome E A
  or_peer_error peer_error (ok value) = err peer_error
  or_peer_error peer_error (err own) = err own
  or_peer_error peer_error panic = panic

  -- `agree_preflight`: the result of every rank. No rank that panics reaches the call.
  unfoldable pub agree_preflight : (List ℕ → ℕ) → E → List (Outcome E A) → List (Outcome E A)
  unfolding collective_valid or_peer_error
  agree_preflight all_reduce_min peer_error locals =
      if collective_valid all_reduce_min (map is_ok locals)
      then locals
      else map (or_peer_error peer_error) locals
