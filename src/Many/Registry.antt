-- ===== src/Many/Registry.antt =====
-- The checks of `validate_registry`, one by one.
use pencil_rs.Prelude.{
  ℕ, suc, ◌≤◌, ◌≡◌, refl, inl, inr, List, [], ◌∷◌, ◌++◌, Bool, true, false, some, arith, not, ◌||◌,
  leb, max, list_eq, get_elem?, All, Bool-cases, ==_iff, leb→le, leb_false→lt, list_eq_sound,
  list_eq_refl, ◌↔◌,
}
use pencil_rs.Pencil.{Pencil, same_topology, same_layout}
use pencil_rs.Many.{registered, any_incompatible, any_repeated, max_local_len}

-- Every registered layout fits the given number of elements, and one of them needs them all.
pub record IsLargest (k : ℕ) (pencils : List Pencil) : Type 0 where
  pub bound : All (λ p. p.local_len ≤ k) pencils
  pub reached : (i : ℕ) × (p : Pencil) × (get_elem? pencils i ≡ some p) × (p.local_len ≡ k)

bound-imp :
    (k l : ℕ) (ps : List Pencil)
    → k ≤ l
    → All (λ p. p.local_len ≤ k) ps
    → All (λ p. p.local_len ≤ l) ps
bound-imp k l [] le h = tt
bound-imp k l (p ∷ ps) le h = (omega (arith, h.0), bound-imp k l ps le h.1)

pub max_local_len_lem :
    (p : Pencil) (ps : List Pencil)
    → (k : ℕ) × (max_local_len (p ∷ ps) ≡ some k) × IsLargest k (p ∷ ps)
unfolding max_local_len
max_local_len_lem p [] =
    (p.local_len, refl, record { bound = (omega arith, tt); reached = (0, p, refl, refl) })
max_local_len_lem p (q ∷ ps) =
    let (k, e, l) = max_local_len_lem q ps in
    let low : k ≤ max p.local_len k = omega arith in
    (
      max p.local_len k,
      rw e refl,
      record {
        bound = (omega arith, bound-imp k (max p.local_len k) (q ∷ ps) low l.bound);
        reached = elim (Bool-cases (leb k p.local_len)) [
          | inl h ↦ (0, p, refl, let le = leb→le k p.local_len h in omega arith)
          | inr h ↦
              let (i, r, found, size) = l.reached in
              (suc i, r, found, let lt = leb_false→lt k p.local_len h in omega arith)
        ];
      },
    )

or_false : (a b : Bool) → ((a || b) ≡ false) ↔ (a ≡ false) × (b ≡ false)
or_false a b = ground arith

negation_lem : (a : Bool) → (not a ≡ false) ↔ (a ≡ true)
negation_lem a = ground arith

abbrev pub Unlike : List Pencil → Pencil → Type 0
Unlike seen p = All (λ q. same_layout q p ≡ false) seen

-- No two pencils of a registry have one layout.
abbrev pub DistinctLayouts : List Pencil → Type 0
DistinctLayouts [] = Unit {0}
DistinctLayouts (p ∷ ps) = All (λ q. same_layout p q ≡ false) ps × DistinctLayouts ps

registered_lem : (seen : List Pencil) (p : Pencil) → (registered seen p ≡ false) ↔ Unlike seen p
unfolding registered
registered_lem [] p = (λ _. tt, λ _. refl)
registered_lem (q ∷ seen) p =
    let step = or_false (same_layout q p) (registered seen p) in
    let rest = registered_lem seen p in
    (λ h. ((step.0 h).0, rest.0 (step.0 h).1), λ h. step.1 (h.0, rest.1 h.1))

-- The pencils seen so far are unlike those that follow.
abbrev pub Cross : List Pencil → List Pencil → Type 0
Cross seen ps = All (λ p. Unlike seen p) ps

Cross-snoc :
    (seen : List Pencil) (p : Pencil) (ps : List Pencil)
    → Cross (seen ++ p ∷ []) ps ↔ Cross seen ps × All (λ q. same_layout p q ≡ false) ps
Cross-snoc seen p [] = (λ _. (tt, tt), λ _. tt)
Cross-snoc seen p (q ∷ ps) =
    let rest = Cross-snoc seen p ps in
    (
      λ h. let (a, b) = rest.0 h.1 in let (c, d) = (split seen).0 h.0 in ((c, a), (d, b)),
      λ (a, b). ((split seen).1 (a.0, b.0), rest.1 (a.1, b.1)),
    )
  where
    split :
        (seen : List Pencil) → Unlike (seen ++ p ∷ []) q ↔ Unlike seen q × (same_layout p q ≡ false)
    split [] = (λ h. (tt, h.0), λ h. (h.1, tt))
    split (s ∷ seen) =
        let rest = split seen in
        (λ h. ((h.0, (rest.0 h.1).0), (rest.0 h.1).1), λ (a, b). (a.0, rest.1 (a.1, b)))

pub any_repeated_lem :
    (seen ps : List Pencil) → (any_repeated seen ps ≡ false) ↔ Cross seen ps × DistinctLayouts ps
unfolding any_repeated
any_repeated_lem seen [] = (λ _. (tt, tt), λ _. refl)
any_repeated_lem seen (p ∷ ps) =
    let step = or_false (registered seen p) (any_repeated (seen ++ p ∷ []) ps) in
    let head = registered_lem seen p in
    let rest = any_repeated_lem (seen ++ p ∷ []) ps in
    let snoc = Cross-snoc seen p ps in
    (
      λ h.
          let (a, b) = step.0 h in
          let (c, d) = rest.0 b in let (e, f) = snoc.0 c in ((head.0 a, e), (f, d)),
      λ (a, b). step.1 (head.1 a.0, rest.1 (snoc.1 (a.1, b.0), b.1)),
    )

-- One topology object and one global shape.
abbrev pub Compatible : Pencil → Pencil → Type 0
Compatible p q = (p.topology.address ≡ q.topology.address) × (p.global_shape ≡ q.global_shape)

pub any_incompatible_lem :
    (first : Pencil) (ps : List Pencil)
    → (any_incompatible first ps ≡ false) ↔ All (λ p. Compatible first p) ps
unfolding any_incompatible same_topology
any_incompatible_lem first [] = (λ _. tt, λ _. refl)
any_incompatible_lem first (p ∷ ps) =
    let rest = any_incompatible_lem first ps in
    let address = ==_iff first.topology.address p.topology.address in
    let outer =
      or_false (not (same_topology first p) || not (list_eq first.global_shape p.global_shape))
        (any_incompatible first ps) in
    let inner =
      or_false (not (same_topology first p)) (not (list_eq first.global_shape p.global_shape)) in
    let one = negation_lem (same_topology first p) in
    let two = negation_lem (list_eq first.global_shape p.global_shape) in
    (
      λ h.
          let (a, b) = outer.0 h in
          let (c, d) = inner.0 a in ((address.0 (one.0 c), list_eq_sound _ _ (two.0 d)), rest.0 b),
      λ (h, t). outer.1 (
        inner.1 (one.1 (address.1 h.0), two.1 (rw (h.1) (list_eq_refl p.global_shape))),
        rest.1 t,
      ),
    )
