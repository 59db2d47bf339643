-- ===== src/Word.antt =====
-- `usize` on a 64-bit target, and its checked operations (`usize::checked_add`,
-- `usize::checked_mul` of the Rust core library; `none` is an overflow).
use pencil_rs.Prelude.{
  ℕ, ◌+◌, ◌-◌, ◌*◌, ◌^◌, ◌≤◌, ◌<◌, ◌≡◌, Option, none, some, arith, leb, if◌then◌else◌,
}

abbrev pub usize_max : ℕ
usize_max = 2 ^ 64 - 1

unfoldable pub checked_add : ℕ → ℕ → Option ℕ
checked_add a b = if leb (a + b) usize_max then some (a + b) else none

unfoldable pub checked_mul : ℕ → ℕ → Option ℕ
checked_mul a b = if leb (a * b) usize_max then some (a * b) else none

pub checked_add-some : (a b : ℕ) → a + b ≤ usize_max → checked_add a b ≡ some (a + b)
unfolding checked_add
checked_add-some a b h = ground arith

pub checked_add-none : (a b : ℕ) → usize_max < a + b → checked_add a b ≡ none
unfolding checked_add
checked_add-none a b h = ground arith

pub checked_mul-some : (a b : ℕ) → a * b ≤ usize_max → checked_mul a b ≡ some (a * b)
unfolding checked_mul
checked_mul-some a b h = ground arith

pub checked_mul-none : (a b : ℕ) → usize_max < a * b → checked_mul a b ≡ none
unfolding checked_mul
checked_mul-none a b h = ground arith
