-- ===== src/Prelude/Results.antt =====
-- What a Rust function gives back: a value, an error of its result type, or a panic. A function
-- whose type in the source has no error returns an Option here, `none` for a panic.
use mathlib.Core.Path.{◌≡◌, refl}
use mathlib.Core.Option.{Option, none, some}
use mathlib.Core.Bool.{Bool, true, false}

pub data Outcome {ℓ κ} (E : Type ℓ) (A : Type κ) : Type (ℓ ⊔ κ) where
  ok : A → Outcome E A
  err : E → Outcome E A
  panic : Outcome E A

module _ {ℓ κ μ} {E : Type ℓ} {A : Type κ} {B : Type μ} where
  -- `?`: the rest of the function runs on the value.
  infixl 5 ◌>>=◌
  abbrev pub ◌>>=◌ : Outcome E A → (A → Outcome E B) → Outcome E B
  panic >>= rest = panic
  err fault >>= rest = err fault
  ok value >>= rest = rest value

  -- What a chain that succeeded went through.
  pub >>=-eq-ok :
      {b : B} (first : Outcome E A) (rest : A → Outcome E B)
      → (first >>= rest) ≡ ok b
      → (value : A) × (rest value ≡ ok b) × (first ≡ ok value)
  >>=-eq-ok panic rest h = absurd (cc)
  >>=-eq-ok (err fault) rest h = absurd (cc)
  >>=-eq-ok (ok value) rest h = (value, h, refl)

module _ {ℓ κ} {E : Type ℓ} {B : Type κ} where
  infixl 5 ◌>>◌
  abbrev pub ◌>>◌ : Outcome E (Unit {0}) → Outcome E B → Outcome E B
  panic >> rest = panic
  err fault >> rest = err fault
  ok unit >> rest = rest

-- `if test { return Err(e); }`
abbrev pub reject_if {ℓ} : {E : Type ℓ} → Bool → E → Outcome E (Unit {0})
reject_if true e = err e
reject_if false e = ok tt

-- `ok_or(e)?`
abbrev pub ok_or {ℓ κ} : {E : Type ℓ} {A : Type κ} → Option A → E → Outcome E A
ok_or (some a) e = ok a
ok_or none e = err e

-- `expect`, and an index that panics out of range
abbrev pub expect {ℓ κ} : {E : Type ℓ} {A : Type κ} → Option A → Outcome E A
expect (some a) = ok a
expect none = panic

-- `Result::expect`
abbrev pub expect_ok {ℓ κ μ} : {E : Type ℓ} {F : Type κ} {A : Type μ} → Outcome E A → Outcome F A
expect_ok (ok a) = ok a
expect_ok (err e) = panic
expect_ok panic = panic

abbrev pub map_err {ℓ κ μ} :
    {E : Type ℓ} {F : Type κ} {A : Type μ} → (E → F) → Outcome E A → Outcome F A
map_err f (ok a) = ok a
map_err f (err e) = err (f e)
map_err f panic = panic

abbrev pub is_ok {ℓ κ} : {E : Type ℓ} {A : Type κ} → Outcome E A → Bool
is_ok (ok a) = true
is_ok (err e) = false
is_ok panic = false

-- The same chain for functions that can only panic.
abbrev pub and_then {ℓ κ} : {A : Type ℓ} {B : Type κ} → Option A → (A → Option B) → Option B
and_then none f = none
and_then (some a) f = f a
