-- ===== src/Transpose/Runs.antt =====
-- The runs that `copy_region_to_payload` and `copy_region_from_payload` copy: contiguous and strided
-- copies as moves between numbered places.
use pencil_rs.Prelude.{
  ℕ, zero, suc, ◌+◌, ◌-◌, ◌*◌, ◌<◌, ◌≤◌, ◌≡◌, ◌≢◌, refl, sym, ap, ◌∙◌, List, some, arith, ◌==◌,
  length, get_elem?, set, put_at-some, get_elem?-some, get_elem?-set_self, get_elem?-set_ne,
  length-set, le→leb, Bool-cases, ◌⊎◌, inl, inr, ==_iff,
}
use pencil_rs.Transpose.Walk.{
  RegionWalk, copy_strided, copy_slice, run_to_payload, run_from_payload,
}

module _ {ℓ} {T : Type ℓ} where
  -- The elements numbered from low up to high are moved from their source places to their target
  -- places, and nothing else changes.
  pub record Copied (from to out : List T) (src dst : ℕ → ℕ) (low high : ℕ) : Type ℓ where
    pub size : length out ≡ length to
    pub moved : (r : ℕ) → low ≤ r → r < high → get_elem? out (dst r) ≡ get_elem? from (src r)
    pub kept :
        (k : ℕ) → ((r : ℕ) → low ≤ r → r < high → k ≢ dst r) → get_elem? out k ≡ get_elem? to k

-- Different numbers below a bound have different places.
abbrev pub Apart : (ℕ → ℕ) → ℕ → Type 0
Apart dst high = (r s : ℕ) → r < high → s < high → dst r ≡ dst s → r ≡ s

-- Consecutive numbers stand at places of a constant distance.
abbrev pub Strided : (ℕ → ℕ) → (r first index stride left : ℕ) → Type 0
Strided at r first index stride left =
    (t j : ℕ) → t ≡ r + j → j < left → at t ≡ first + (index + j) * stride

Strided-step :
    (at : ℕ → ℕ) (r first index stride left : ℕ)
    → Strided at r first index stride (suc left)
    → Strided at (r + 1) first (index + 1) stride left
Strided-step at r first index stride left s t j e h =
    s t (j + 1) (omega arith) (omega arith) ∙ ap (λ (k : ℕ). first + k * stride) (omega arith)

module _ {ℓ} {T : Type ℓ} (from : List T) (src dst : ℕ → ℕ) (high : ℕ)
    (apart : Apart dst high) where
  pub Copied-join :
      {to mid out : List T} (low middle : ℕ) {end : ℕ}
      → low ≤ middle
      → middle ≤ end
      → end ≤ high
      → Copied from to mid src dst low middle
      → Copied from mid out src dst middle end
      → Copied from to out src dst low end
  Copied-join low middle {end} a b c x y = record {
    size = y.size ∙ x.size;
    moved = λ r l h. elim (split r) [
      | inl before ↦
          y.kept (dst r)
            (λ s ls hs e. let same : r ≡ s = apart r s (omega arith) (omega arith) e in omega arith)
          ∙ x.moved r l before
      | inr after ↦ y.moved r after h
    ];
    kept = λ k free.
        y.kept k (λ r l h. free r (omega arith) h) ∙ x.kept k (λ r l h. free r l (omega arith));
  }
    where
      split : (r : ℕ) → (r < middle) ⊎ (middle ≤ r)
      split r = ground arith

  Copied-set :
      (to : List T) (r : ℕ) {value : T}
      → get_elem? from (src r) ≡ some value
      → dst r < length to
      → Copied from to (set to (dst r) value) src dst r (r + 1)
  Copied-set to r {value} found place = record {
    size = length-set to (dst r) value;
    moved = λ s l h.
        let same : r ≡ s = omega arith in
        rw (← same) (get_elem?-set_self to (dst r) value place ∙ sym found);
    kept = λ k free.
        get_elem?-set_ne to (dst r) k value (λ e. free r (omega arith) (omega arith) (sym e));
  }

  pub Copied-none : (to : List T) (r : ℕ) → Copied from to to src dst r r
  Copied-none to r = record {
    size = refl;
    moved = λ s l h. absurd (omega arith);
    kept = λ k free. refl;
  }

  -- The numbers from r on, left of them, have places in the two lists.
  abbrev pub Placed : List T → ℕ → ℕ → Type 0
  Placed to r left = (t : ℕ) → r ≤ t → t < r + left → (src t < length from) × (dst t < length to)

  pub Copied-copy_strided :
      (left index r : ℕ) (to : List T) (a fs b ts : ℕ)
      → Strided src r a index fs left
      → Strided dst r b index ts left
      → Placed to r left
      → r + left ≤ high
      → (out : List T) × (copy_strided left index from a fs to b ts ≡ some out)
        × Copied from to out src dst r (r + left)
  unfolding copy_strided
  Copied-copy_strided zero index r to a fs b ts s d p bound =
      (to, refl, let e : r ≡ r + 0 = omega arith in rw (← e) (Copied-none to r))
  Copied-copy_strided (suc left) index r to a fs b ts s d p bound =
      let (here, there) = p r (omega arith) (omega arith) in
      let (value, found) = get_elem?-some from (src r) here in
      let first = Copied-set to r found there in
      let next = set to (dst r) value in
      let (out, run, rest) =
        Copied-copy_strided left (index + 1) (r + 1) next a fs b ts
          (Strided-step src r a index fs left s) (Strided-step dst r b index ts left d)
          (λ t l h. let q = p t (omega arith) (omega arith) in (q.0, rw first.size q.1))
          (omega arith) in
      let at_src : src r ≡ a + index * fs =
        s r 0 (omega arith) (omega arith) ∙ ap (λ (k : ℕ). a + k * fs) (omega arith) in
      let at_dst : dst r ≡ b + index * ts =
        d r 0 (omega arith) (omega arith) ∙ ap (λ (k : ℕ). b + k * ts) (omega arith) in
      (
        out,
        rw (← at_src, ← at_dst, found, put_at-some to (dst r) value there) run,
        let e : (r + 1) + left ≡ r + suc left = omega arith in
            Copied-join r (r + 1) (omega arith) (omega arith) (omega arith) first (rw e at rest),
      )

  pub Copied-copy_slice :
      (len r : ℕ) (to : List T) (a b : ℕ)
      → 0 < len
      → Strided src r a 0 1 len
      → Strided dst r b 0 1 len
      → Placed to r len
      → r + len ≤ high
      → (out : List T) × (copy_slice len from a to b ≡ some out)
        × Copied from to out src dst r (r + len)
  unfolding copy_slice
  Copied-copy_slice len r to a b pos s d p bound =
      let (here, there) = p (r + (len - 1)) (omega arith) (omega arith) in
      let last_src : src (r + (len - 1)) ≡ a + (0 + (len - 1)) * 1 =
        s (r + (len - 1)) (len - 1) refl (omega arith) in
      let last_dst : dst (r + (len - 1)) ≡ b + (0 + (len - 1)) * 1 =
        d (r + (len - 1)) (len - 1) refl (omega arith) in
      rw (le→leb (a + len) (length from) (omega arith), le→leb (b + len) (length to) (omega arith))
        (Copied-copy_strided len 0 r to a 1 b 1 s d p bound)

  -- The numbers of one run: consecutive in the payload, a run stride apart in the storage.
  pub Copied-run_to_payload :
      (walk : RegionWalk) (len r : ℕ) (payload : List T) (a b : ℕ)
      → 0 < len
      → walk.run_len ≡ len
      → Strided src r a 0 walk.run_stride len
      → Strided dst r b 0 1 len
      → Placed payload r len
      → r + len ≤ high
      → (out : List T) × (run_to_payload walk from b a payload ≡ some out)
        × Copied from payload out src dst r (r + len)
  unfolding run_to_payload
  Copied-run_to_payload walk len r payload a b pos size s d p bound =
      elim (Bool-cases (walk.run_stride == 1)) [
        | inl unit ↦
            let one = (==_iff walk.run_stride 1).0 unit in
            rw (unit, size) (Copied-copy_slice len r payload a b pos (rw one at s) d p bound)
        | inr other ↦
            rw (other, size) (Copied-copy_strided len 0 r payload a walk.run_stride b 1 s d p bound)
      ]

  pub Copied-run_from_payload :
      (walk : RegionWalk) (len r : ℕ) (storage : List T) (a b : ℕ)
      → 0 < len
      → walk.run_len ≡ len
      → Strided src r b 0 1 len
      → Strided dst r a 0 walk.run_stride len
      → Placed storage r len
      → r + len ≤ high
      → (out : List T) × (run_from_payload walk from b a storage ≡ some out)
        × Copied from storage out src dst r (r + len)
  unfolding run_from_payload
  Copied-run_from_payload walk len r storage a b pos size s d p bound =
      elim (Bool-cases (walk.run_stride == 1)) [
        | inl unit ↦
            let one = (==_iff walk.run_stride 1).0 unit in
            rw (unit, size) (Copied-copy_slice len r storage b a pos s (rw one at d) p bound)
        | inr other ↦
            rw (other, size) (Copied-copy_strided len 0 r storage b 1 a walk.run_stride s d p bound)
      ]
