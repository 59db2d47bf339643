-- ===== src/Many/Construct.antt =====
-- Which registries and buffers are accepted.
use pencil_rs.Prelude.{
  ℕ, ◌*◌, ◌<◌, ◌≤◌, ◌≡◌, refl, ap, ◌∙◌, ◌⊎◌, inl, inr, List, [], ◌∷◌, false, some, arith, ◌==◌, leb,
  length, All, Outcome, ok, err, Bool-cases, ==_iff, leb→le, leb_false→lt, ◌≢◌, All-get_elem?,
}
use native.Mathlib.Nat.{mul-le-mul_right}
use pencil_rs.Word.{usize_max}
use pencil_rs.Error.{ArrayError, GeometryError}
use pencil_rs.Checked.{checked_product_lem}
use pencil_rs.ExtraShape.{ExtraShape}
use pencil_rs.Pencil.{Pencil}
use pencil_rs.Many.{
  LayoutState, any_incompatible, any_repeated, max_local_len, validate_registry,
  from_vec_preserving,
}
use pencil_rs.Many.Registry.{
  IsLargest, max_local_len_lem, DistinctLayouts, Cross, any_repeated_lem, Compatible,
  any_incompatible_lem,
}

abbrev pub Alike : List Pencil → Type 0
Alike [] = Unit {0}
Alike (first ∷ rest) = All (λ p. Compatible first p) rest

-- Distinct layouts over one topology and global shape, each of which fits usize with the extra
-- dimensions, and an active one among them.
pub record IsRegistry (pencils : List Pencil) (active : ℕ) (x : ExtraShape) : Type 0 where
  pub active_layout : active < length pencils
  pub alike : Alike pencils
  pub distinct : DistinctLayouts pencils
  pub fits : All (λ p. p.local_len * x.element_count ≤ usize_max) pencils

bound_fits :
    (k c : ℕ) (ps : List Pencil)
    → All (λ p. p.local_len ≤ k) ps
    → k * c ≤ usize_max
    → All (λ p. p.local_len * c ≤ usize_max) ps
bound_fits k c [] h f = tt
bound_fits k c (p ∷ ps) h f =
    let le : p.local_len * c ≤ k * c = mul-le-mul_right c h.0 in
    (omega arith, bound_fits k c ps h.1 f)

largest_fits :
    {k : ℕ} (c : ℕ) {ps : List Pencil}
    → IsLargest k ps
    → All (λ p. p.local_len * c ≤ usize_max) ps
    → k * c ≤ usize_max
largest_fits {k} c {ps} l h =
    let (i, p, found, size) = l.reached in
    let fits : p.local_len * c ≤ usize_max =
      All-get_elem? (λ p. p.local_len * c ≤ usize_max) ps i h found in
    rw (← size) fits

largest_unique : {k l : ℕ} {ps : List Pencil} → IsLargest k ps → IsLargest l ps → k ≡ l
largest_unique {k} {l} {ps} a b =
    let (i, p, found, size) = a.reached in
    let (j, q, found', size') = b.reached in
    let le : p.local_len ≤ l = All-get_elem? (λ p. p.local_len ≤ l) ps i b.bound found in
    let ge : q.local_len ≤ k = All-get_elem? (λ p. p.local_len ≤ k) ps j a.bound found' in
    omega arith

abbrev pub RegistryResult : List Pencil → ℕ → ExtraShape → Outcome ArrayError ℕ → Type 0
RegistryResult pencils active x r =
    IsRegistry pencils active x × ((k : ℕ) × IsLargest k pencils × (r ≡ ok (k * x.element_count)))
    ⊎ (¬ IsRegistry pencils active x) × ((e : ArrayError) × (r ≡ err e))

pub validate_registry_lem :
    (pencils : List Pencil) (active : ℕ) (x : ExtraShape)
    → RegistryResult pencils active x (validate_registry pencils active x)
unfolding validate_registry
validate_registry_lem [] active x =
    inr (λ r. let low = r.active_layout in omega arith, (ArrayError.incompatible_pencils, refl))
validate_registry_lem (first ∷ rest) active x =
    elim (Bool-cases (leb (length (first ∷ rest)) active)) [
      | inl out ↦ inr (
        λ r. let low = r.active_layout in let high = leb→le _ active out in omega arith,
        (ArrayError.invalid_active_layout active (length (first ∷ rest)), rw out refl),
      )
      | inr inside ↦ elim (Bool-cases (any_incompatible first rest)) [
        | inl bad ↦ inr (
          λ r. cc (bad, (any_incompatible_lem first rest).1 r.alike),
          (ArrayError.incompatible_pencils, rw (inside, bad) refl),
        )
        | inr alike ↦ elim (Bool-cases (any_repeated [] (first ∷ rest))) [
          | inl bad ↦ inr (
            λ r. cc (
              bad,
              (any_repeated_lem [] (first ∷ rest)).1 (cross_nil (first ∷ rest), r.distinct),
            ),
            (ArrayError.incompatible_pencils, rw (inside, alike, bad) refl),
          )
          | inr distinct ↦ size inside alike distinct (max_local_len_lem first rest)
        ]
      ]
    ]
  where
    cross_nil : (ps : List Pencil) → Cross [] ps
    cross_nil [] = tt
    cross_nil (p ∷ ps) = (tt, cross_nil ps)

    size :
        leb (length (first ∷ rest)) active ≡ false
        → any_incompatible first rest ≡ false
        → any_repeated [] (first ∷ rest) ≡ false
        → (k : ℕ) × (max_local_len (first ∷ rest) ≡ some k) × IsLargest k (first ∷ rest)
        → RegistryResult (first ∷ rest) active x (validate_registry (first ∷ rest) active x)
    size inside alike distinct (k, run, l) =
        let whole : k * (x.element_count * 1) ≡ k * x.element_count =
          ap (λ (t : ℕ). k * t) (omega arith) in
        elim (Bool-cases (leb (k * x.element_count) usize_max)) [
          | inl fits ↦ inl (
            record {
              active_layout = leb_false→lt _ active inside;
              alike = (any_incompatible_lem first rest).0 alike;
              distinct = ((any_repeated_lem [] (first ∷ rest)).0 distinct).1;
              fits = bound_fits k x.element_count (first ∷ rest) l.bound (leb→le _ usize_max fits);
            },
            (
              k,
              l,
              rw
                  (
                    inside,
                    alike,
                    distinct,
                    run,
                    checked_product_lem (k ∷ x.element_count ∷ []),
                    whole,
                    fits,
                  )
                  refl,
            ),
          )
          | inr large ↦ inr (
            λ r.
                let low = largest_fits x.element_count l r.fits in
                let high = leb_false→lt _ usize_max large in omega arith,
            (
              ArrayError.geometry GeometryError.size_overflow,
              rw
                  (
                    inside,
                    alike,
                    distinct,
                    run,
                    checked_product_lem (k ∷ x.element_count ∷ []),
                    whole,
                    large,
                  )
                  refl,
            ),
          )
        ]

module _ {ℓ} {T : Type ℓ} where
  -- `from_vec_preserving` accepts a registry of distinct layouts over one topology and global shape
  -- with an active one among them, whose sizes fit usize, together with exactly as many elements as
  -- the largest layout needs, and then returns the array with that layout active. In every other
  -- case it returns an error together with the storage it was given. It never panics.
  pub from_vec_preserving_lem :
      (pencils : List Pencil) (active : ℕ) (x : ExtraShape) (storage : List T)
      → IsRegistry pencils active x
          × ((k : ℕ) × IsLargest k pencils
              × (length storage ≡ k * x.element_count)
              × (from_vec_preserving pencils active x storage
                  ≡ ok (record {
                    pencils = pencils;
                    extra_shape = x;
                    storage = storage;
                    state = LayoutState.valid active;
                  })))
        ⊎ ((k : ℕ)
            → IsRegistry pencils active x
            → IsLargest k pencils
            → length storage ≢ k * x.element_count)
          × ((e : ArrayError) × (from_vec_preserving pencils active x storage ≡ err (e, storage)))
  unfolding from_vec_preserving
  from_vec_preserving_lem pencils active x storage = elim (validate_registry_lem pencils active x) [
    | inr (bad, (e, run)) ↦ inr (λ k r l size. bad r, (e, rw run refl))
    | inl (r, (k, l, run)) ↦ elim (Bool-cases (length storage == k * x.element_count)) [
      | inl same ↦ inl (r, (k, l, (==_iff _ _).0 same, rw (run, same) refl))
      | inr differs ↦ inr (
        λ j r l' size.
            let equal : j ≡ k = largest_unique l' l in
            cc (
              differs,
              (==_iff (length storage) (k * x.element_count)).1
                  (size ∙ ap (λ (t : ℕ). t * x.element_count) equal),
            ),
        (
          ArrayError.storage_length_mismatch (k * x.element_count) (length storage),
          rw (run, differs) refl,
        ),
      )
    ]
  ]
