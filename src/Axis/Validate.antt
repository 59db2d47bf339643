-- ===== src/Axis/Validate.antt =====
-- What the validation loop of axis.rs and decomposition.rs accepts, and which fault it reports.
use pencil_rs.Prelude.{
  ℕ, zero, suc, ◌<◌, ◌≤◌, ◌≡◌, ◌≢◌, refl, ap, sym, ◌∙◌, ◌⊎◌, inl, inr, List, [], ◌∷◌, ◌++◌, Bool,
  true, false, Option, none, some, arith, leb, length, get_elem?, set, All, Distinct, Outcome, ok,
  err, panic, Bool-cases, leb→le, leb_false→lt, get_elem?-some, get_elem?-set_ne,
  get_elem?-set_self, length-set, length-replicate, get_elem?-replicate, replicate, lt_of_get_elem?,
}
use native.Mathlib.Decide.{ℕ_discrete}
use pencil_rs.Error.{AxisError}
use pencil_rs.Axis.{check_axes}

-- The value stands at some index of the list.
abbrev pub Occurs : ℕ → List ℕ → Type 0
Occurs a xs = (k : ℕ) × (get_elem? xs k ≡ some a)

-- The axes are within range and marked as not seen, with no repetition.
abbrev pub Free : List Bool → List ℕ → Type 0
Free seen axes = All (λ a. get_elem? seen a ≡ some false) axes

-- How a list of axes fails: the first bad axis, which is out of range or seen before, after a
-- prefix of good ones; and the error that reports it.
pub record Fault (n : ℕ) (seen : List Bool) (axes : List ℕ) (e : AxisError) : Type 0 where
  pub before : List ℕ
  pub bad : ℕ
  pub after : List ℕ
  pub split : axes ≡ before ++ (bad ∷ after)
  pub free : Free seen before
  pub distinct : Distinct before
  pub reason :
      (n ≤ bad) × (e ≡ AxisError.out_of_bounds bad n)
      ⊎ (bad < n)
        × ((get_elem? seen bad ≡ some true) ⊎ Occurs bad before)
        × (e ≡ AxisError.duplicate bad)

-- Freedom after marking one more axis is freedom before it, and difference from that axis.
pub Free-set :
    (seen : List Bool) (x : ℕ) (axes : List ℕ)
    → get_elem? seen x ≡ some false
    → Free (set seen x true) axes
    → Free seen axes × All (λ y. x ≢ y) axes
Free-set seen x [] e h = (tt, tt)
Free-set seen x (a ∷ axes) e h =
    let (free, differ) = Free-set seen x axes e h.1 in
    elim (ℕ_discrete x a) [
      | yes p ↦ absurd (marked p)
      | no p ↦ ((sym (get_elem?-set_ne seen x a true p) ∙ h.0, free), (p, differ))
    ]
  where
    marked : x ≡ a → ⊥
    marked p = cc (get_elem?-set_self seen x true (lt_of_get_elem? seen x e), h.0, p)

pub set-Free :
    (seen : List Bool) (x : ℕ) (axes : List ℕ)
    → Free seen axes
    → All (λ y. x ≢ y) axes
    → Free (set seen x true) axes
set-Free seen x [] h d = tt
set-Free seen x (a ∷ axes) h d =
    (get_elem?-set_ne seen x a true d.0 ∙ h.0, set-Free seen x axes h.1 d.1)

-- The two ways in which the loop ends.
abbrev Verdict : ℕ → List Bool → List ℕ → Outcome AxisError (Unit {0}) → Type 0
Verdict n seen axes r =
    (r ≡ ok tt) × All (λ a. a < n) axes × Free seen axes × Distinct axes
    ⊎ ((e : AxisError) × (r ≡ err e) × Fault n seen axes e)

Fault-cons :
    (n : ℕ) (seen : List Bool) (x : ℕ) (axes : List ℕ) (e : AxisError)
    → get_elem? seen x ≡ some false
    → Fault n (set seen x true) axes e
    → Fault n seen (x ∷ axes) e
Fault-cons n seen x axes e free f = record {
  before = x ∷ f.before;
  bad = f.bad;
  after = f.after;
  split = ap (λ l. x ∷ l) f.split;
  free = (free, fs.0);
  distinct = (fs.1, f.distinct);
  reason = elim f.reason [ inl r ↦ inl r | inr (lt, why, e) ↦ inr (lt, earlier why, e) ];
}
  where
    fs : Free seen f.before × All (λ y. x ≢ y) f.before
    fs = Free-set seen x f.before free f.free

    earlier :
        (get_elem? (set seen x true) f.bad ≡ some true) ⊎ Occurs f.bad f.before
        → (get_elem? seen f.bad ≡ some true) ⊎ Occurs f.bad (x ∷ f.before)
    earlier (inr (k, p)) = inr (suc k, p)
    earlier (inl p) = elim (ℕ_discrete x f.bad) [
      | yes q ↦ inr (0, ap some q)
      | no q ↦ inl (sym (get_elem?-set_ne seen x f.bad true q) ∙ p)
    ]

-- The loop from a bitmap of length n: it passes exactly on axes that are in range, unseen and
-- distinct, it reports the first fault otherwise, and it never reads outside the bitmap.
pub check_axes_lem :
    (n : ℕ) (seen : List Bool) (axes : List ℕ)
    → length seen ≡ n
    → Verdict n seen axes (check_axes n seen axes)
unfolding check_axes
check_axes_lem n seen [] len = inl (refl, tt, tt, tt)
check_axes_lem n seen (x ∷ axes) len = elim (Bool-cases (leb n x)) [
  | inl out ↦
      rw out (inr (AxisError.out_of_bounds x n, refl, fault_here (inl (leb→le n x out, refl))))
  | inr within ↦
      let lt : x < n = leb_false→lt n x within in
      rw within (
        by_mark (get_elem? seen x) refl lt
          (check_axes_lem n (set seen x true) axes (length-set seen x true ∙ len)))
]
  where
    out_of_bitmap : get_elem? seen x ≡ none → (b : Bool) × (get_elem? seen x ≡ some b) → ⊥
    out_of_bitmap e (b, f) = cc

    fault_here :
        {e : AxisError}
        → (n ≤ x) × (e ≡ AxisError.out_of_bounds x n)
          ⊎ (x < n) × ((get_elem? seen x ≡ some true) ⊎ Occurs x []) × (e ≡ AxisError.duplicate x)
        → Fault n seen (x ∷ axes) e
    fault_here r = record {
      before = [];
      bad = x;
      after = axes;
      split = refl;
      free = tt;
      distinct = tt;
      reason = r;
    }

    by_mark :
        (m : Option Bool)
        → get_elem? seen x ≡ m
        → x < n
        → Verdict n (set seen x true) axes (check_axes n (set seen x true) axes)
        → Verdict n seen (x ∷ axes) (elim m [
          | none ↦ panic
          | some true ↦ err (AxisError.duplicate x)
          | some false ↦ check_axes n (set seen x true) axes
        ])
    by_mark none e lt ih = absurd (out_of_bitmap e (get_elem?-some seen x (omega arith)))
    by_mark (some true) e lt ih =
        inr (AxisError.duplicate x, refl, fault_here (inr (lt, inl e, refl)))
    by_mark (some false) e lt (inl (p, below, free, d)) =
        let (f, differ) = Free-set seen x axes e free in inl (p, (lt, below), (e, f), (differ, d))
    by_mark (some false) e lt (inr (er, p, f)) = inr (er, p, Fault-cons n seen x axes er e f)

pub Free-replicate : (n : ℕ) (axes : List ℕ) → All (λ a. a < n) axes → Free (replicate n false) axes
Free-replicate n [] h = tt
Free-replicate n (a ∷ axes) h = (get_elem?-replicate n false a h.0, Free-replicate n axes h.1)

-- The first bad axis of a list: out of range, or a repetition of one before it, after distinct axes in
-- range.
pub record FirstFault (n : ℕ) (axes : List ℕ) (e : AxisError) : Type 0 where
  pub before : List ℕ
  pub bad : ℕ
  pub after : List ℕ
  pub split : axes ≡ before ++ (bad ∷ after)
  pub below : All (λ a. a < n) before
  pub distinct : Distinct before
  pub reason :
      (n ≤ bad) × (e ≡ AxisError.out_of_bounds bad n)
      ⊎ (bad < n) × Occurs bad before × (e ≡ AxisError.duplicate bad)

-- The loop from an empty bitmap.
pub check_axes-fresh :
    (n : ℕ) (axes : List ℕ)
    → (check_axes n (replicate n false) axes ≡ ok tt) × All (λ a. a < n) axes × Distinct axes
      ⊎ ((e : AxisError) × (check_axes n (replicate n false) axes ≡ err e) × FirstFault n axes e)
check_axes-fresh n axes =
    elim (check_axes_lem n (replicate n false) axes (length-replicate n false)) [
      | inl (p, below, free, d) ↦ inl (p, below, d)
      | inr (e, p, f) ↦ inr (
        e,
        p,
        record {
          before = f.before;
          bad = f.bad;
          after = f.after;
          split = f.split;
          below = within f.before f.free;
          distinct = f.distinct;
          reason = elim f.reason [
            | inl r ↦ inl r
            | inr (lt, inl marked, q) ↦ absurd (unmarked _ lt marked)
            | inr (lt, inr o, q) ↦ inr (lt, o, q)
          ];
        },
      )
    ]
  where
    within : (before : List ℕ) → Free (replicate n false) before → All (λ a. a < n) before
    within [] h = tt
    within (a ∷ before) h = (
      omega (arith, lt_of_get_elem? (replicate n false) a h.0, length-replicate {A = Bool} n false),
      within before h.1,
    )

    unmarked : (b : ℕ) → b < n → get_elem? (replicate n false) b ≡ some true → ⊥
    unmarked b lt e = cc (get_elem?-replicate n false b lt, e)

All-middle {κ} :
    (P : ℕ → Type κ) (before : List ℕ) (bad : ℕ) (after : List ℕ)
    → All P (before ++ (bad ∷ after))
    → P bad
All-middle P [] bad after h = h.0
All-middle P (x ∷ before) bad after h = All-middle P before bad after h.1

Distinct-middle :
    (before : List ℕ) (bad : ℕ) (after : List ℕ)
    → Distinct (before ++ (bad ∷ after))
    → ¬ Occurs bad before
Distinct-middle [] bad after d (k, e) = cc
Distinct-middle (x ∷ before) bad after d (zero, e) =
    All-middle (λ y. x ≢ y) before bad after d.0 (cc)
Distinct-middle (x ∷ before) bad after d (suc k, e) = Distinct-middle before bad after d.1 (k, e)

-- Axes with a first fault are not distinct axes in range.
pub FirstFault-bad :
    {n : ℕ} {axes : List ℕ} {e : AxisError}
    → FirstFault n axes e
    → All (λ a. a < n) axes
    → Distinct axes
    → ⊥
FirstFault-bad {n} f below d = elim f.reason [
  | inl (le, _) ↦
      let lt : f.bad < n = All-middle (λ a. a < n) f.before f.bad f.after (rw f.split at below) in
      omega arith
  | inr (_, occurs, _) ↦ Distinct-middle f.before f.bad f.after (rw f.split at d) occurs
]
