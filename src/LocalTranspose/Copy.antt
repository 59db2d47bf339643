-- ===== src/LocalTranspose/Copy.antt =====
-- The copy loop of a local transpose: each element ends at its place in the destination layout.
use pencil_rs.Prelude.{
  ℕ, zero, suc, ◌+◌, ◌*◌, ◌<◌, ◌≤◌, ◌≡◌, ◌≢◌, refl, sym, ap, ◌∙◌, List, some, arith, length,
  get_elem?, set, Outcome, ok, err, panic, put_at-some, get_elem?-some, get_elem?-set_self,
  get_elem?-set_ne, length-set, lt→leb_false,
}
use native.Mathlib.Decide.{ℕ_discrete}
use pencil_rs.Error.{ArrayError}
use pencil_rs.ExtraShape.{ExtraShape}
use pencil_rs.Array.Cells.{local_offset_injective}
use pencil_rs.LocalTranspose.{LocalTransposePlan, logical_offsets, check_offsets, copy_elements}
use pencil_rs.LocalTranspose.Offsets.{Pair, logical_offsets_lem, linear_onto}

-- The two offsets of a step; (0, 0) where the step fails.
unfoldable pub offsets_of : Outcome ArrayError (ℕ × ℕ) → ℕ × ℕ
offsets_of (ok o) = o
offsets_of (err _) = (0, 0)
offsets_of panic = (0, 0)

-- What the steps of a plan do: they succeed below a total, stay below it, and no two of them
-- write to one place.
pub record Steps (plan : LocalTransposePlan) (total : ℕ) (at : ℕ → ℕ × ℕ) : Type 0 where
  pub runs : (l : ℕ) → l < total → logical_offsets plan.source plan.destination l ≡ ok (at l)
  pub reads : (l : ℕ) → l < total → (at l).0 < total
  pub writes : (l : ℕ) → l < total → (at l).1 < total
  pub apart : (l k : ℕ) → l < total → k < total → (at l).1 ≡ (at k).1 → l ≡ k

module _ {n m : ℕ} {plan : LocalTransposePlan} {x : ExtraShape}
    (d : Pair n m plan.source plan.destination x) where
  abbrev total : ℕ
  total = x.element_count * plan.source.local_len

  pub Steps-plan :
      Steps plan total (λ l. offsets_of (logical_offsets plan.source plan.destination l))
  unfolding offsets_of
  Steps-plan = record {
    runs = λ l h. (step l h).0;
    reads = λ l h. (step l h).1;
    writes = λ l h. (step l h).2;
    apart = λ l k h g e. same l k h g e;
  }
    where
      step :
          (l : ℕ)
          → l < total
          → (logical_offsets plan.source plan.destination l
              ≡ ok (offsets_of (logical_offsets plan.source plan.destination l)))
            × ((offsets_of (logical_offsets plan.source plan.destination l)).0 < total)
            × ((offsets_of (logical_offsets plan.source plan.destination l)).1 < total)
      step l h =
          let (ei, si, we, ws, e) = linear_onto d l h in
          let (o, k, run, _, _, lo, lk) = logical_offsets_lem d ei si we ws in
          let at : logical_offsets plan.source plan.destination l ≡ ok (o, k) = rw (← e) run in
          rw (at, offsets_of) (refl, lo, lk)

      same :
          (l k : ℕ)
          → l < total
          → k < total
          → (offsets_of (logical_offsets plan.source plan.destination l)).1
            ≡ (offsets_of (logical_offsets plan.source plan.destination k)).1
          → l ≡ k
      same l k h g e =
          let (ei, si, we, ws, el) = linear_onto d l h in
          let (ej, sj, ue, us, ek) = linear_onto d k g in
          let (o, w, run, _, place, _, _) = logical_offsets_lem d ei si we ws in
          let (o', w', run', _, place', _, _) = logical_offsets_lem d ej sj ue us in
          let at : logical_offsets plan.source plan.destination l ≡ ok (o, w) = rw (← el) run in
          let at' : logical_offsets plan.source plan.destination k ≡ ok (o', w') = rw (← ek) run' in
          let equal : w ≡ w' = rw (at, at', offsets_of) at e in
          let (blocks, places) =
            local_offset_injective d.destination ei si ej sj we (rw d.logical ws) ue
              (rw d.logical us) (place ∙ ap ok equal) place' in
          sym el ∙ cc (blocks, places) ∙ ek

module _ {plan : LocalTransposePlan} {total : ℕ} {at : ℕ → ℕ × ℕ} (s : Steps plan total at) where
  pub check_offsets-ok :
      (left linear required : ℕ)
      → linear + left ≡ total
      → check_offsets plan required total total left linear ≡ ok tt
  unfolding check_offsets
  check_offsets-ok zero linear required e = refl
  check_offsets-ok (suc left) linear required e =
      let h : linear < total = omega arith in
      rw
        (
          s.runs linear h,
          lt→leb_false (at linear).0 total (s.reads linear h),
          lt→leb_false (at linear).1 total (s.writes linear h),
        )
        (check_offsets-ok left (linear + 1) required (omega arith))

module _ {ℓ} {T : Type ℓ} {plan : LocalTransposePlan} {total : ℕ} {at : ℕ → ℕ × ℕ}
    (s : Steps plan total at) where
  -- What is left of the loop does: it moves the elements of its steps and no others.
  pub record Moved (source destination out : List T) (linear : ℕ) : Type ℓ where
    pub size : length out ≡ length destination
    pub moved :
        (l : ℕ) → linear ≤ l → l < total → get_elem? out (at l).1 ≡ get_elem? source (at l).0
    pub kept :
        (j : ℕ)
        → ((l : ℕ) → linear ≤ l → l < total → j ≢ (at l).1)
        → get_elem? out j ≡ get_elem? destination j

  pub copy_elements_lem :
      (source : List T) (left linear : ℕ) (destination : List T)
      → linear + left ≡ total
      → length source ≡ total
      → length destination ≡ total
      → (out : List T) × (copy_elements plan source left linear destination ≡ ok out)
        × Moved source destination out linear
  unfolding copy_elements
  copy_elements_lem source zero linear destination e ls ld = (
    destination,
    refl,
    record { size = refl; moved = λ l low high. absurd (omega arith); kept = λ j h. refl },
  )
  copy_elements_lem source (suc left) linear destination e ls ld =
      let h : linear < total = omega arith in
      let (value, found) = get_elem?-some source (at linear).0 (rw ls (s.reads linear h)) in
      let place : (at linear).1 < length destination = rw ld (s.writes linear h) in
      let (out, run, mv) =
        copy_elements_lem source left (linear + 1) (set destination (at linear).1 value)
          (omega arith) ls (length-set destination (at linear).1 value ∙ ld) in
      (
        out,
        rw (s.runs linear h, found, put_at-some destination (at linear).1 value place) run,
        record {
          size = mv.size ∙ length-set destination (at linear).1 value;
          moved = λ l low high. elim (ℕ_discrete linear l) [
            | no later ↦ mv.moved l (omega arith) high
            | yes now ↦ rw (← now) (first h value found place mv)
          ];
          kept = λ j free.
              mv.kept j (λ l low high. free l (omega arith) high)
              ∙ get_elem?-set_ne destination (at linear).1 j value
                  (λ p. free linear (omega arith) h (sym p));
        },
      )
    where
      first :
          linear < total
          → (value : T) → get_elem? source (at linear).0 ≡ some value
          → (at linear).1 < length destination
          → {out : List T} → Moved source (set destination (at linear).1 value) out (linear + 1)
          → get_elem? out (at linear).1 ≡ get_elem? source (at linear).0
      first h value found place mv =
          mv.kept (at linear).1
            (λ l low high p. let same : linear ≡ l = s.apart linear l h high p in omega arith)
          ∙ get_elem?-set_self destination (at linear).1 value place
          ∙ sym found
