-- ===== src/LocalTranspose/Staged.antt =====
-- The staged write of an in-place transpose is the copy of `execute_views`, on a longer buffer.
use pencil_rs.Prelude.{
  ℕ, zero, suc, ◌+◌, ◌<◌, ◌≡◌, refl, sym, ap, ◌∙◌, List, [], ◌∷◌, ◌++◌, Option, none, some, arith,
  ltb, length, get_elem?, set, put_at, Outcome, ok, err, panic, expect, map_err, Bool-cases, ltb→lt,
  lt→ltb, length-append, >>=-eq-ok, inl, inr,
}
use pencil_rs.Error.{ArrayError}
use pencil_rs.Many.{split_prefix}
use pencil_rs.LocalTranspose.{
  LocalTransposePlan, LocalTransposeError, logical_offsets, copy_elements,
}
use pencil_rs.LocalTranspose.InPlace.{write_staged}

ok_of_map_err :
    {A : Type 0} (m : Outcome ArrayError A) {a : A}
    → map_err LocalTransposeError.array m ≡ ok a
    → m ≡ ok a
ok_of_map_err (ok b) e = cc
ok_of_map_err (err b) e = absurd (cc)
ok_of_map_err panic e = absurd (cc)

some_of_expect {ℓ} :
    {A : Type ℓ} (m : Option A) {a : A} → expect {E = LocalTransposeError} m ≡ ok a → m ≡ some a
some_of_expect none e = absurd (cc)
some_of_expect (some b) e = cc

module _ {ℓ} {T : Type ℓ} where
  set-append :
      (xs ys : List T) (i : ℕ) (v : T) → i < length xs → set (xs ++ ys) i v ≡ set xs i v ++ ys
  set-append [] ys i v h = absurd (omega arith)
  set-append (x ∷ xs) ys zero v h = refl
  set-append (x ∷ xs) ys (suc i) v h = ap (λ t. x ∷ t) (set-append xs ys i v (omega arith))

  put_at-append :
      (xs ys : List T) (i : ℕ) (v : T) {zs : List T}
      → put_at xs i v ≡ some zs
      → put_at (xs ++ ys) i v ≡ some (zs ++ ys)
  unfolding put_at
  put_at-append xs ys i v {zs} e = elim (Bool-cases (ltb i (length xs))) [
    | inr out ↦ absurd (cc (rw out at e))
    | inl within ↦
        let low = ltb→lt i (length xs) within in
        let same : set xs i v ≡ zs = cc (rw within at e) in
        let wide : i < length (xs ++ ys) = omega (arith, length-append xs ys) in
        rw (lt→ltb i (length (xs ++ ys)) wide, set-append xs ys i v low, same) refl
  ]

  -- The prefix of the length of the first part.
  pub split_prefix-append : (xs ys : List T) → split_prefix (xs ++ ys) (length xs) ≡ some (xs, ys)
  unfolding split_prefix
  split_prefix-append [] ys = refl
  split_prefix-append (x ∷ xs) ys = rw (split_prefix-append xs ys) refl

  -- Two splits of one list at one length are the same.
  pub append_unique : (xs ys zs ws : List T) → length xs ≡ length zs → xs ++ ys ≡ zs ++ ws → xs ≡ zs
  append_unique xs ys zs ws len e =
      let one = split_prefix-append xs ys in
      let two = split_prefix-append zs ws in
      let parts : some (xs, ys) ≡ some (zs, ws) =
        sym one ∙ ap (λ t. split_prefix t (length xs)) e ∙ ap (split_prefix (zs ++ ws)) len ∙ two in
      cc parts

  pub write_staged-eq :
      (plan : LocalTransposePlan) (staged : List T) (left linear : ℕ) (front back : List T)
      {out : List T}
      → copy_elements plan staged left linear front ≡ ok out
      → write_staged plan staged left linear (front ++ back) ≡ (ok tt, out ++ back)
  unfolding copy_elements write_staged
  write_staged-eq plan staged zero linear front back {out} e =
      let same : front ≡ out = cc in ap (λ s. (ok tt, s ++ back)) same
  write_staged-eq plan staged (suc left) linear front back {out} e =
      let (offsets, e', at) =
        >>=-eq-ok
          (map_err LocalTransposeError.array (logical_offsets plan.source plan.destination linear))
          _ e in
      let (value, e'', read) = >>=-eq-ok (expect (get_elem? staged offsets.0)) _ e' in
      let (next, rest, write) = >>=-eq-ok (expect (put_at front offsets.1 value)) _ e'' in
      rw
        (
          write_staged,
          ok_of_map_err _ at,
          some_of_expect _ read,
          put_at-append front back offsets.1 value (some_of_expect _ write),
        )
        (write_staged-eq plan staged left (linear + 1) next back rest)

  pub split_prefix_self : (xs : List T) → split_prefix xs (length xs) ≡ some (xs, [])
  unfolding split_prefix
  split_prefix_self [] = refl
  split_prefix_self (x ∷ xs) = rw (split_prefix_self xs) refl
