-- ===== src/Many/Transitions.antt =====
-- The states of a registered buffer: which layout is readable, and what a write leaves.
use pencil_rs.Prelude.{
  ℕ, zero, suc, ◌*◌, ◌<◌, ◌≤◌, ◌≡◌, refl, sym, ap, ◌∙◌, ◌⊎◌, inl, inr, List, [], ◌∷◌, ◌++◌, true,
  false, none, some, arith, length, get_elem?, All, ok, Bool-cases, ==-eq_refl, le→leb,
  All-get_elem?,
}
use native.Mathlib.Nat.{mul_comm, mul-le-mul_right}
use pencil_rs.Word.{usize_max}
use pencil_rs.Checked.{checked_product_lem}
use pencil_rs.ExtraShape.{IsValid as IsExtraShape}
use pencil_rs.Pencil.{Pencil, same_layout}
use pencil_rs.Pencil.Valid.{IsValid}
use pencil_rs.Array.{PencilArray, view_new}
use pencil_rs.Array.Access.{IsArray}
use pencil_rs.Many.{ManyPencilArray, LayoutState, find_layout, split_prefix, view_at}
use pencil_rs.Many.Registry.{IsLargest, DistinctLayouts}

-- A registry of valid pencils with distinct layouts, a buffer of the largest size, and an active
-- layout that is registered, if there is one.
pub record IsMany {ℓ} {T : Type ℓ} (n m : ℕ) (a : ManyPencilArray T) : Type 0 where
  pub pencils : All (λ p. IsValid n m p) a.pencils
  pub distinct : DistinctLayouts a.pencils
  pub extra : IsExtraShape a.extra_shape
  pub fits : All (λ p. p.local_len * a.extra_shape.element_count ≤ usize_max) a.pencils
  pub largest :
      (k : ℕ) × IsLargest k a.pencils × (length a.storage ≡ k * a.extra_shape.element_count)
  pub active : (i : ℕ) → a.state ≡ LayoutState.valid i → i < length a.pencils

split_prefix_lem {ℓ} :
    {T : Type ℓ} (storage : List T) (used : ℕ)
    → used ≤ length storage
    → (front : List T) × (back : List T) × (split_prefix storage used ≡ some (front, back))
      × (front ++ back ≡ storage)
      × (length front ≡ used)
unfolding split_prefix
split_prefix_lem storage zero h = ([], storage, refl, refl, refl)
split_prefix_lem [] (suc used) h = absurd (omega arith)
split_prefix_lem (t ∷ storage) (suc used) h =
    let (front, back, run, whole, size) = split_prefix_lem storage used (omega arith) in
    (t ∷ front, back, rw run refl, ap (λ s. t ∷ s) whole, omega arith)

pub find_layout_lem :
    (ps : List Pencil) (target : Pencil)
    → All (λ p. same_layout p target ≡ false) ps × (find_layout ps target ≡ none)
      ⊎ ((i : ℕ) × (p : Pencil) × (find_layout ps target ≡ some i)
          × (get_elem? ps i ≡ some p)
          × (same_layout p target ≡ true))
unfolding find_layout
find_layout_lem [] target = inl (tt, refl)
find_layout_lem (q ∷ ps) target = elim (Bool-cases (same_layout q target)) [
  | inl here ↦ inr (0, q, rw here refl, refl, here)
  | inr other ↦ elim (find_layout_lem ps target) [
    | inl (unlike, run) ↦ inl ((other, unlike), rw (other, run) refl)
    | inr (i, p, run, found, same) ↦ inr (suc i, p, rw (other, run) refl, found, same)
  ]
]

module _ {ℓ} {T : Type ℓ} {n m : ℕ} {a : ManyPencilArray T} (v : IsMany n m a) where
  -- The view of a registered layout.
  abbrev pub view_of : Pencil → List T → PencilArray T
  view_of p storage = record { pencil = p; extra_shape = a.extra_shape; storage = storage }

  room :
      (i : ℕ) (p : Pencil)
      → get_elem? a.pencils i ≡ some p
      → p.local_len * a.extra_shape.element_count ≤ length a.storage
  room i p found =
      let (k, l, size) = v.largest in
      let le : p.local_len ≤ k = All-get_elem? (λ p. p.local_len ≤ k) a.pencils i l.bound found in
      let whole : p.local_len * a.extra_shape.element_count ≤ k * a.extra_shape.element_count =
        mul-le-mul_right a.extra_shape.element_count le in
      omega arith

  pub view_at_lem :
      (i : ℕ) (p : Pencil)
      → get_elem? a.pencils i ≡ some p
      → (front : List T) × (back : List T) × (view_at a i ≡ ok (view_of p front, back))
        × (front ++ back ≡ a.storage)
        × (length front ≡ p.local_len * a.extra_shape.element_count)
        × IsArray n m (view_of p front)
  unfolding view_at view_new
  view_at_lem i p found =
      let count = a.extra_shape.element_count in
      let fits : p.local_len * count ≤ usize_max =
        All-get_elem? (λ p. p.local_len * a.extra_shape.element_count ≤ usize_max) a.pencils i
          v.fits found in
      let swap : count * p.local_len ≡ p.local_len * count = mul_comm count p.local_len in
      let used : p.local_len * (count * 1) ≡ p.local_len * count =
        ap (λ (t : ℕ). p.local_len * t) (omega arith) in
      let needed : count * (p.local_len * 1) ≡ p.local_len * count =
        ap (λ (t : ℕ). count * t) (omega arith) ∙ swap in
      let (front, back, run, whole, size) =
        split_prefix_lem a.storage (p.local_len * count) (room i p found) in
      (
        front,
        back,
        rw
            (
              found,
              checked_product_lem (p.local_len ∷ count ∷ []),
              used,
              le→leb _ usize_max fits,
              run,
              checked_product_lem (count ∷ p.local_len ∷ []),
              needed,
              le→leb _ usize_max fits,
              size,
              ==-eq_refl (p.local_len * count),
            )
            refl,
        whole,
        size,
        record {
          layout = record {
            pencil = All-get_elem? (λ p. IsValid n m p) a.pencils i v.pencils found;
            extra = v.extra;
            fits = rw swap fits;
          };
          stored = size ∙ sym swap;
        },
      )
