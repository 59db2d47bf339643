-- ===== src/Array/Access.antt =====
-- Element access by global indices: each element of the global array is readable on one process.
use pencil_rs.Prelude.{
  ℕ, zero, suc, ◌-◌, ◌*◌, ◌≡◌, ◌≢◌, refl, sym, ap, ◌∙◌, ◌⊎◌, inl, inr, List, [], ◌∷◌, true, none,
  some, arith, length, get_elem?, ok, Bool-cases, get_elem?-some,
}
use pencil_rs.Geometry.{Range, range_contains, shape_from_ranges, local_ranges_for}
use pencil_rs.Geometry.Offset.{Within, length-Within}
use pencil_rs.Geometry.Tiling.{range_contains_iff_right}
use pencil_rs.Geometry.Cover.{Owns, Shared, local_ranges_cover}
use pencil_rs.Pencil.Valid.{length-local_ranges, Shared-pencil}
use pencil_rs.Array.{PencilArray, local_indices, get_global, get_local, local_offset}
use pencil_rs.Array.Cells.{Layout, cell, local_offset_lem}

pub Owns-tail :
    (r : Range) (ranges : List Range) (g : ℕ) (globals : List ℕ)
    → Owns (r ∷ ranges) (g ∷ globals)
    → Owns ranges globals
Owns-tail r ranges g globals own = (omega (arith, own.0), λ a. own.1 (suc a))

local_indices-some :
    (ranges : List Range) (globals : List ℕ)
    → Owns ranges globals
    → (locals : List ℕ) × (local_indices ranges globals ≡ some locals)
      × Within (shape_from_ranges ranges) locals
unfolding local_indices shape_from_ranges
local_indices-some [] [] own = ([], refl, tt)
local_indices-some [] (g ∷ globals) own = absurd (omega (arith, own.0))
local_indices-some (r ∷ ranges) [] own = absurd (omega (arith, own.0))
local_indices-some (r ∷ ranges) (g ∷ globals) own =
    let inside : range_contains r g ≡ true = own.1 0 r g refl refl in
    let bounds = range_contains_iff_right r g inside in
    let (locals, run, w) = local_indices-some ranges globals (Owns-tail r ranges g globals own) in
    ((g - r.start) ∷ locals, rw (inside, run), (omega arith, w))

local_indices_lem :
    (ranges : List Range) (globals : List ℕ)
    → length globals ≡ length ranges
    → Owns ranges globals ⊎ (¬ Owns ranges globals) × (local_indices ranges globals ≡ none)
unfolding local_indices
local_indices_lem [] [] len = inl (refl, λ a r i e. absurd (cc))
local_indices_lem [] (g ∷ globals) len = absurd (omega arith)
local_indices_lem (r ∷ ranges) [] len = absurd (omega arith)
local_indices_lem (r ∷ ranges) (g ∷ globals) len = elim (Bool-cases (range_contains r g)) [
  | inr out ↦ inr (λ own. cc (own.1 0 r g refl refl), rw out)
  | inl inside ↦ elim (local_indices_lem ranges globals (omega arith)) [
    | inl own ↦ inl (len, here inside own)
    | inr (foreign, p) ↦ inr (λ own. foreign (Owns-tail r ranges g globals own), rw (inside, p))
  ]
]
  where
    here :
        range_contains r g ≡ true
        → Owns ranges globals
        → (a : ℕ) (s : Range) (i : ℕ) → get_elem? (r ∷ ranges) a ≡ some s
        → get_elem? (g ∷ globals) a ≡ some i
        → range_contains s i ≡ true
    here inside own zero s i p q =
        let same : r ≡ s = cc in let index : g ≡ i = cc in rw (← same, ← index) inside
    here inside own (suc a) s i p q = own.1 a s i p q

-- An array over a layout, with as many stored elements as the layout has.
pub record IsArray {ℓ} {T : Type ℓ} (n m : ℕ) (a : PencilArray T) : Type 0 where
  pub layout : Layout n m a.pencil a.extra_shape
  pub stored : length a.storage ≡ a.extra_shape.element_count * a.pencil.local_len

module _ {ℓ} {T : Type ℓ} {n m : ℕ} where
  -- Indices within the extra dimensions and the local shape read an element.
  pub get_local_lem :
      {a : PencilArray T} (ei si : List ℕ)
      → IsArray n m a
      → Within a.extra_shape.dimensions ei
      → Within a.pencil.local_shape_logical si
      → (o : ℕ) × (t : T) × (local_offset a.pencil a.extra_shape ei si ≡ ok o)
        × (get_elem? a.storage o ≡ some t)
        × (get_local a ei si ≡ some (some t))
  unfolding get_local
  get_local_lem {a} ei si v we ws =
      let (sp, _, _, op, lt) = local_offset_lem v.layout ei si we ws in
      let (t, e) = get_elem?-some a.storage (cell a.pencil a.extra_shape ei sp) (rw v.stored lt) in
      (cell a.pencil a.extra_shape ei sp, t, op, e, rw (op, e))

  -- For a well-formed array, extra indices within its extra dimensions and a global index tuple of
  -- its rank: `get_global` reads an element when the process's ranges hold the tuple and answers
  -- none when they do not. It never panics.
  pub get_global_lem :
      {a : PencilArray T} (ei gi : List ℕ)
      → IsArray n m a
      → Within a.extra_shape.dimensions ei
      → length gi ≡ n
      → Owns a.pencil.local_ranges gi × ((t : T) × (get_global a ei gi ≡ some (some t)))
        ⊎ (¬ Owns a.pencil.local_ranges gi) × (get_global a ei gi ≡ some none)
  unfolding get_global
  get_global_lem {a} ei gi v we len =
      elim (local_indices_lem a.pencil.local_ranges gi
        (len ∙ sym (length-local_ranges v.layout.pencil))) [
          | inr (foreign, p) ↦ inr (foreign, rw (p, get_global))
          | inl own ↦
              let (locals, run, w) = local_indices-some a.pencil.local_ranges gi own in
              let (sp, _, _, op, lt) =
                local_offset_lem v.layout ei locals we (rw v.layout.pencil.logical w) in
              let (t, e) =
                get_elem?-some a.storage (cell a.pencil a.extra_shape ei sp) (rw v.stored lt) in
              inl (own, (t, rw (run, op, e, get_global)))
        ]

-- The arrays of all processes of one distributed array: one for each coordinate tuple of the grid,
-- alike but for the coordinates and the elements.
pub record IsDistributed {ℓ} {T : Type ℓ} (n m : ℕ) (shape grid axes extra : List ℕ)
    (array_of : List ℕ → PencilArray T) : Type 0 where
  pub arrays : (coords : List ℕ) → Within grid coords → IsArray n m (array_of coords)
  pub grids : (coords : List ℕ) → (array_of coords).pencil.topology.process_grid ≡ grid
  pub places : (coords : List ℕ) → (array_of coords).pencil.topology.local_coords ≡ coords
  pub shapes : (coords : List ℕ) → (array_of coords).pencil.global_shape ≡ shape
  pub decompositions : (coords : List ℕ) → (array_of coords).pencil.decomposition ≡ axes
  pub extras : (coords : List ℕ) → (array_of coords).extra_shape.dimensions ≡ extra
  pub some_process : (coords : List ℕ) × Within grid coords

module _ {ℓ} {T : Type ℓ} {n m : ℕ} {shape grid axes extra : List ℕ} where
  -- For the arrays of all processes of one distributed array, extra indices within the extra
  -- dimensions and a global index tuple within the global shape: exactly one process of the grid
  -- reads an element there, and every other process of the grid answers none.
  pub get_global_unique :
      {array_of : List ℕ → PencilArray T} (ei gi : List ℕ)
      → IsDistributed n m shape grid axes extra array_of
      → Within extra ei
      → Within shape gi
      → (owner : List ℕ) × Within grid owner
        × ((t : T) × (get_global (array_of owner) ei gi ≡ some (some t)))
        × ((other : List ℕ)
            → Within grid other
            → other ≢ owner
            → get_global (array_of other) ei gi ≡ some none)
  get_global_unique {array_of} ei gi d we ws =
      let (owner, inside, (ranges, run, own), unique) =
        local_ranges_cover gi (shared d.some_process.0 d.some_process.1) ws in
      (
        owner,
        inside,
        reads owner inside (ranges_of owner inside run own),
        λ other wo differs. elim (answer other wo) [
          | inr (_, p) ↦ p
          | inl (mine, _) ↦ absurd (
              differs (unique other (array_of other).pencil.local_ranges wo (stored other wo) mine))
        ],
      )
    where
      shared : (c : List ℕ) → Within grid c → Shared shape grid axes
      shared c w =
          rw (d.shapes c, d.grids c, d.decompositions c) at
            (Shared-pencil (d.arrays c w).layout.pencil)

      stored :
          (c : List ℕ)
          → Within grid c
          → local_ranges_for shape grid c axes ≡ ok (array_of c).pencil.local_ranges
      stored c w =
          rw (d.shapes c, d.grids c, d.places c, d.decompositions c) at
            (d.arrays c w).layout.pencil.ranges

      answer :
          (c : List ℕ)
          → Within grid c
          → Owns (array_of c).pencil.local_ranges gi
              × ((t : T) × (get_global (array_of c) ei gi ≡ some (some t)))
            ⊎ (¬ Owns (array_of c).pencil.local_ranges gi)
              × (get_global (array_of c) ei gi ≡ some none)
      answer c w = get_global_lem ei gi (d.arrays c w) (rw (d.extras c) we) (
          sym (length-Within shape gi ws)
          ∙ sym (ap length (d.shapes c))
          ∙ (d.arrays c w).layout.pencil.rank)

      ranges_of :
          (c : List ℕ)
          → Within grid c
          → {ranges : List Range} → local_ranges_for shape grid c axes ≡ ok ranges
          → Owns ranges gi
          → Owns (array_of c).pencil.local_ranges gi
      ranges_of c w {ranges} run own =
          let same : ranges ≡ (array_of c).pencil.local_ranges = cc (stored c w) in rw same at own

      reads :
          (c : List ℕ)
          → Within grid c
          → Owns (array_of c).pencil.local_ranges gi
          → (t : T) × (get_global (array_of c) ei gi ≡ some (some t))
      reads c w own = elim (answer c w) [ inl (_, r) ↦ r | inr (foreign, _) ↦ absurd (foreign own) ]
