-- ===== src/Transpose/Slab.antt =====
-- The region that a process exchanges with a peer is a slab of its block: the block cut on the one
-- axis that the other layout distributes over the changed topology axis.
use pencil_rs.Prelude.{
  ℕ, zero, suc, ◌+◌, ◌<◌, ◌≤◌, ◌≡◌, ◌≢◌, refl, sym, ap, ◌∙◌, inl, inr, List, [], ◌∷◌, some, arith,
  max, min, length, get_elem?, set, All, All-get_elem?, ltb, Bool-cases, Distinct-get_elem?,
  list_ext, get_elem?-some, get_elem?-none, get_elem?-set_self, get_elem?-set_ne, length-set,
  lt_of_get_elem?,
}
use native.Mathlib.Decide.{dec_lt, ℕ_discrete}
use pencil_rs.Geometry.{Range}
use pencil_rs.Geometry.Offset.{Within, length-Within, get_elem?-Within}
use pencil_rs.Geometry.Partition.{
  floor_range, floor_boundary, floor_boundary_mono, floor_boundary-last,
}
use pencil_rs.Geometry.Ranges.{LocalRanges}
use pencil_rs.Geometry.Cover.{Shared, occurs_or_not}
use pencil_rs.Transpose.Peers.{intersect_range, intersect_ranges}

-- A range inside another is their intersection, on either side.
pub intersect_range-inner :
    (outer inner : Range)
    → outer.start ≤ inner.start
    → inner.start ≤ inner.end
    → inner.end ≤ outer.end
    → (intersect_range outer inner ≡ inner) × (intersect_range inner outer ≡ inner)
unfolding intersect_range
intersect_range-inner outer inner low mid high =
    let a : max outer.start inner.start ≡ inner.start = omega arith in
    let b : max inner.start outer.start ≡ inner.start = omega arith in
    let c : min outer.end inner.end ≡ inner.end = omega arith in
    let d : min inner.end outer.end ≡ inner.end = omega arith in
    elim (Bool-cases (ltb inner.start inner.end)) [
      | inl full ↦ (rw (a, c, full) refl, rw (b, d, full) refl)
      | inr empty ↦
          let same : inner.start ≡ inner.end = ground (arith, mid, empty) in
          let point : record { start = inner.start; end = inner.start } ≡ inner =
            ap (λ (t : ℕ). record { start = inner.start; end = t }) same in
          (rw (a, c, empty) point, rw (b, d, empty) point)
    ]

intersect_range_comm :
    (left right : Range) → intersect_range left right ≡ intersect_range right left
unfolding intersect_range
intersect_range_comm left right =
    let a : max left.start right.start ≡ max right.start left.start = omega arith in
    let b : min left.end right.end ≡ min right.end left.end = omega arith in rw (a, b) refl

-- `intersect_ranges` does not depend on the order of its arguments.
pub intersect_ranges_comm :
    (left right : List Range) → intersect_ranges left right ≡ intersect_ranges right left
unfolding intersect_ranges
intersect_ranges_comm [] [] = refl
intersect_ranges_comm [] (r ∷ right) = refl
intersect_ranges_comm (l ∷ left) [] = refl
intersect_ranges_comm (l ∷ left) (r ∷ right) =
    rw (intersect_range_comm l r, intersect_ranges_comm left right) refl

get_elem?-intersect :
    (left right : List Range) (b : ℕ) (x y : Range)
    → get_elem? left b ≡ some x
    → get_elem? right b ≡ some y
    → get_elem? (intersect_ranges left right) b ≡ some (intersect_range x y)
unfolding intersect_ranges
get_elem?-intersect [] right b x y e f = absurd (cc)
get_elem?-intersect (l ∷ left) [] b x y e f = absurd (cc)
get_elem?-intersect (l ∷ left) (r ∷ right) zero x y e f =
    let p : l ≡ x = cc in let q : r ≡ y = cc in rw (p, q) refl
get_elem?-intersect (l ∷ left) (r ∷ right) (suc b) x y e f =
    get_elem?-intersect left right b x y e f

length-intersect :
    (left right : List Range)
    → length left ≡ length right
    → length (intersect_ranges left right) ≡ length left
unfolding intersect_ranges
length-intersect [] right e = refl
length-intersect (l ∷ left) [] e = absurd (omega arith)
length-intersect (l ∷ left) (r ∷ right) e = ap suc (length-intersect left right (omega arith))

-- Two decompositions that differ at one topology axis, where the second has a given spatial axis.
pub record Change (shape grid from to : List ℕ) (t axis parts extent : ℕ) : Type 0 where
  pub source : Shared shape grid from
  pub destination : Shared shape grid to
  pub at_axis : get_elem? to t ≡ some axis
  pub at_grid : get_elem? grid t ≡ some parts
  pub at_shape : get_elem? shape axis ≡ some extent
  pub others : (u : ℕ) → u ≢ t → get_elem? from u ≡ get_elem? to u
  pub differ : get_elem? from t ≢ some axis

module _ {shape grid from to : List ℕ} {t axis parts extent : ℕ}
    (d : Change shape grid from to t axis parts extent) where
  -- The axis is not distributed by the first decomposition.
  pub axis-free : All (λ y. axis ≢ y) from
  axis-free = elim (occurs_or_not axis from) [
    | inr free ↦ free
    | inl (u, e) ↦ elim (ℕ_discrete u t) [
      | yes same ↦ absurd (d.differ (rw same at e))
      | no other ↦ absurd (
          other (
            Distinct-get_elem? to u t d.destination.distinct (sym (d.others u other) ∙ e)
              d.at_axis))
    ]
  ]

  -- A further axis that the first decomposition does not distribute, nor does the second.
  still-free : (b : ℕ) → b ≢ axis → All (λ y. b ≢ y) from → All (λ y. b ≢ y) to
  still-free b away free = elim (occurs_or_not b to) [
    | inr clear ↦ clear
    | inl (w, e) ↦ elim (ℕ_discrete w t) [
      | yes same ↦ absurd (away (same_axis (sym e ∙ rw same d.at_axis)))
      | no other ↦ absurd (All-get_elem? (λ y. b ≢ y) from w free (d.others w other ∙ e) refl)
    ]
  ]
    where
      same_axis : {a b : ℕ} → some a ≡ some b → a ≡ b
      same_axis e = cc

  -- The axis that the first decomposition has there is not distributed by the second.
  dropped-free : (b : ℕ) → b ≢ axis → get_elem? from t ≡ some b → All (λ y. b ≢ y) to
  dropped-free b away e = elim (occurs_or_not b to) [
    | inr clear ↦ clear
    | inl (w, f) ↦ elim (ℕ_discrete w t) [
      | yes same ↦ absurd (away (same_axis (sym f ∙ rw same d.at_axis)))
      | no other ↦
          absurd (other (Distinct-get_elem? from w t d.source.distinct (d.others w other ∙ f) e))
    ]
  ]
    where
      same_axis : {a b : ℕ} → some a ≡ some b → a ≡ b
      same_axis e = cc

pub floor_inside :
    (e g c : ℕ)
    → c < g
    → (floor_boundary e g c ≤ floor_boundary e g (c + 1)) × (floor_boundary e g (c + 1) ≤ e)
floor_inside e g c h =
    let pos : 0 < g = omega arith in
    (
      floor_boundary_mono e g pos c (c + 1) (omega arith),
      omega
          (arith, floor_boundary_mono e g pos (c + 1) g (omega arith), floor_boundary-last e g pos),
    )

module _ {shape grid from to : List ℕ} {t axis parts extent : ℕ}
    (d : Change shape grid from to t axis parts extent) (own : List ℕ) (c : ℕ)
    (within : Within grid own) (low : c < parts) {local other : List Range}
    (l : LocalRanges shape grid own from local)
    (o : LocalRanges shape grid (set own t c) to other) where
  peer_coord : get_elem? (set own t c) t ≡ some c
  peer_coord =
      get_elem?-set_self own t c
        (omega (arith, length-Within grid own within, lt_of_get_elem? grid t d.at_grid))

  whole_range : ℕ → Range
  whole_range e = record { start = 0; end = e }

  -- At the axis that is cut.
  cut : get_elem? (intersect_ranges local other) axis ≡ some (floor_range extent parts c)
  cut =
      let mine = l.whole axis extent (axis-free d) d.at_shape in
      let theirs = o.distributed t axis parts c extent d.at_axis d.at_grid peer_coord d.at_shape in
      let (a, b) = floor_inside extent parts c low in
      get_elem?-intersect local other axis (record { start = 0; end = extent })
        (floor_range extent parts c) mine theirs
      ∙ ap some
          (intersect_range-inner (record { start = 0; end = extent }) (floor_range extent parts c)
            (omega arith) a b).0

  -- At any other axis the other block is no smaller.
  uncut :
      (b : ℕ)
      → b ≢ axis
      → b < length shape
      → get_elem? (intersect_ranges local other) b ≡ get_elem? local b
  uncut b away inside =
      let (e, pe) = get_elem?-some shape b inside in
      elim (occurs_or_not b from) [
        | inr free ↦
            let mine = l.whole b e free pe in
            let theirs = o.whole b e (still-free d b away free) pe in
            same_range b (record { start = 0; end = e }) (record { start = 0; end = e }) mine theirs
              (omega arith) (omega arith) (omega arith)
        | inl (u, pu) ↦
            let (g, pg) =
              get_elem?-some grid u (omega (arith, lt_of_get_elem? from u pu, d.source.rank)) in
            let (x, px) =
              get_elem?-some own u
                (omega (arith, lt_of_get_elem? grid u pg, length-Within grid own within)) in
            let mine = l.distributed u b g x e pu pg px pe in
            let (p, q) = floor_inside e g x (get_elem?-Within grid own u g x within pg px) in
            elim (ℕ_discrete u t) [
              | yes same ↦
                  let theirs = o.whole b e (dropped-free d b away (rw same at pu)) pe in
                  same_range b (floor_range e g x) (record { start = 0; end = e }) mine theirs
                    (omega arith) p q
              | no off ↦
                  let theirs =
                    o.distributed u b g x e (sym (d.others u off) ∙ pu) pg
                      (get_elem?-set_ne own t u c (λ z. off (sym z)) ∙ px) pe in
                  same_range b (floor_range e g x) (floor_range e g x) mine theirs (omega arith) p
                    (omega arith)
            ]
      ]
    where
      same_range :
          (b : ℕ) (inner outer : Range)
          → get_elem? local b ≡ some inner
          → get_elem? other b ≡ some outer
          → outer.start ≤ inner.start
          → inner.start ≤ inner.end
          → inner.end ≤ outer.end
          → get_elem? (intersect_ranges local other) b ≡ get_elem? local b
      same_range b inner outer mine theirs x y z =
          get_elem?-intersect local other b inner outer mine theirs
          ∙ ap some (intersect_range-inner outer inner x y z).1
          ∙ sym mine

  -- The exchanged region is the block cut at one axis.
  pub slab : intersect_ranges local other ≡ set local axis (floor_range extent parts c)
  slab = list_ext (intersect_ranges local other) (set local axis (floor_range extent parts c)) λ b.
      elim (ℕ_discrete axis b) [
        | yes same ↦ rw (← same) (
            cut
            ∙ sym (
                get_elem?-set_self local axis (floor_range extent parts c)
                  (omega (arith, l.rank, lt_of_get_elem? shape axis d.at_shape))))
        | no away ↦ elim (dec_lt b (length shape)) [
          | yes inside ↦
              uncut b (λ z. away (sym z)) inside
              ∙ sym (get_elem?-set_ne local axis b (floor_range extent parts c) away)
          | no out ↦
              get_elem?-none (intersect_ranges local other) b
                (omega (arith, length-intersect local other (l.rank ∙ sym o.rank), l.rank))
              ∙ sym (
                  get_elem?-none (set local axis (floor_range extent parts c)) b
                    (omega (arith, length-set local axis (floor_range extent parts c), l.rank)))
        ]
      ]
