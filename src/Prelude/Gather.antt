-- ===== src/Prelude/Gather.antt =====
-- Reading a list at a list of indices, and writing it at one; both panic out of range.
use Prim.Native.Nat.{ℕ, zero, suc, ◌<◌}
use mathlib.Core.Path.{◌≡◌, refl, ap}
use mathlib.Core.List.{List, [], ◌∷◌}
use mathlib.Core.Option.{Option, none, some}
use pencil_rs.Prelude.Tests.{ltb, lt→ltb, if◌then◌else◌}
use pencil_rs.Prelude.Lists.{length, get_elem?, get_elem?-some, set, All}
use pencil_rs.Prelude.Results.{and_then}

module _ {ℓ} {A : Type ℓ} where
  -- `from_fn(|k| xs[indices[k]])`
  unfoldable pub gather : List A → List ℕ → Option (List A)
  gather xs [] = some []
  gather xs (i ∷ is) =
      and_then (get_elem? xs i) (λ x. and_then (gather xs is) (λ ys. some (x ∷ ys)))

  -- `xs[i] = v`
  unfoldable pub put_at : List A → ℕ → A → Option (List A)
  put_at xs i v = if ltb i (length xs) then some (set xs i v) else none

  pub put_at-some :
      (xs : List A) (i : ℕ) (v : A) → i < length xs → put_at xs i v ≡ some (set xs i v)
  unfolding put_at
  put_at-some xs i v h = rw (lt→ltb i (length xs) h)

  -- What a list of reads gives when every index is in range.
  pub record Gathered (xs : List A) (is : List ℕ) (ys : List A) : Type ℓ where
    pub reads : gather xs is ≡ some ys
    pub same_length : length ys ≡ length is
    pub pointwise : (k : ℕ) → get_elem? ys k ≡ and_then (get_elem? is k) (get_elem? xs)

  pub gather_lem :
      (xs : List A) (is : List ℕ) → All (λ i. i < length xs) is → (ys : List A) × Gathered xs is ys
  unfolding gather
  gather_lem xs [] h = ([], record { reads = refl; same_length = refl; pointwise = λ k. refl })
  gather_lem xs (i ∷ is) h =
      let (x, ex) = get_elem?-some xs i h.0 in
      let (ys, g) = gather_lem xs is h.1 in
      (
        x ∷ ys,
        record {
          reads = rw (ex, g.reads);
          same_length = ap suc g.same_length;
          pointwise = elim [ zero ↦ rw ex | suc k ↦ g.pointwise k ];
        },
      )
