-- ===== src/Transpose/Regions.antt =====
-- `copy_region_to_payload` and `copy_region_from_payload` match the elementwise reference: the
-- payload is the row-major order of the region.
use pencil_rs.Prelude.{
  ℕ, zero, suc, ◌+◌, ◌-◌, ◌*◌, ◌<◌, ◌≤◌, ◌≡◌, ◌≢◌, refl, sym, ap, ◌∙◌, List, [], ◌∷◌, false, Option,
  some, arith, ◌==◌, length, get_elem?, product, replicate, All,
}
use pencil_rs.Word.{usize_max}
use pencil_rs.Geometry.Offset.{Within, ravel, ravel-lt-product}
use pencil_rs.Geometry.Ravel.{ravel_onto}
use pencil_rs.Transpose.Walk.{
  RegionWalk, walk_runs, run_to_payload, run_from_payload, copy_region_to_payload,
  copy_region_from_payload,
}
use pencil_rs.Transpose.Runs.{
  Copied, Apart, Strided, Copied-join, Copied-none, Copied-run_to_payload, Copied-run_from_payload,
}
use pencil_rs.Transpose.Odometer.{
  dot, span, last, place, AtRun, advance_region_lem, place-run, place-ravel, dot-le-span,
}

-- What `region_walk` computes for a region that is not empty: the measures of its extents and
-- strides, with different offsets for different tuples, the last of which fits usize.
pub record Sound (walk : RegionWalk) : Type 0 where
  pub axes : 0 < length walk.extent
  pub rank : length walk.stride ≡ length walk.extent
  pub positive : All (λ e. 0 < e) walk.extent
  pub run_count : walk.run_len ≡ last walk.extent
  pub run_step : walk.run_stride ≡ last walk.stride
  pub total : walk.outer_len * walk.run_len ≡ product walk.extent
  pub reach : walk.max_offset ≡ walk.start + span walk.stride walk.extent
  pub fits : walk.max_offset ≤ usize_max
  pub distinct :
      (is js : List ℕ)
      → Within walk.extent is
      → Within walk.extent js
      → dot walk.stride is ≡ dot walk.stride js
      → ravel walk.extent is ≡ ravel walk.extent js

positive-last : (extent : List ℕ) → 0 < length extent → All (λ e. 0 < e) extent → 0 < last extent
positive-last [] h p = absurd (omega arith)
positive-last (e ∷ []) h p = p.0
positive-last (e ∷ f ∷ extent) h p = positive-last (f ∷ extent) (omega arith) p.1

zeros-AtRun :
    (extent strides : List ℕ)
    → length strides ≡ length extent
    → All (λ e. 0 < e) extent
    → AtRun extent strides (replicate (length extent) 0)
      × (ravel extent (replicate (length extent) 0) ≡ 0)
      × (dot strides (replicate (length extent) 0) ≡ 0)
zeros-AtRun [] [] len p = (record { within = tt; rank = refl; first = refl }, refl, refl)
zeros-AtRun [] (s ∷ strides) len p = absurd (omega arith)
zeros-AtRun (e ∷ extent) [] len p = absurd (omega arith)
zeros-AtRun (e ∷ []) (s ∷ strides) len p =
    (record { within = (p.0, tt); rank = len; first = refl }, omega arith, dot-zero strides)
  where
    dot-zero : (strides : List ℕ) → 0 * s + dot strides [] ≡ 0
    dot-zero [] = omega arith
    dot-zero (t ∷ strides) = omega arith
zeros-AtRun (e ∷ f ∷ extent) (s ∷ strides) len p =
    let (at, number, offset) = zeros-AtRun (f ∷ extent) strides (omega arith) p.1 in
    (record { within = (p.0, at.within); rank = len; first = at.first }, omega arith, omega arith)

-- The number of elements of the region, and their places in the storage by their number.
abbrev pub total : RegionWalk → ℕ
total walk = product walk.extent

abbrev pub at_offset : RegionWalk → ℕ → ℕ
at_offset walk r = walk.start + place walk.extent walk.stride r

module _ (walk : RegionWalk) (s : Sound walk) where
  at_offset-bound : (r : ℕ) → r < total walk → at_offset walk r ≤ walk.max_offset
  at_offset-bound r h =
      let (is, w, number) = ravel_onto walk.extent r h in
      let place_of : place walk.extent walk.stride r ≡ dot walk.stride is =
        ap (place walk.extent walk.stride) (sym number)
        ∙ place-ravel walk.extent walk.stride is w in
      omega (arith, dot-le-span walk.extent walk.stride is w, s.reach)

  at_offset-Apart : Apart (at_offset walk) (total walk)
  at_offset-Apart r q hr hq e =
      let (is, wi, ni) = ravel_onto walk.extent r hr in
      let (js, wj, nj) = ravel_onto walk.extent q hq in
      let pi : place walk.extent walk.stride r ≡ dot walk.stride is =
        ap (place walk.extent walk.stride) (sym ni) ∙ place-ravel walk.extent walk.stride is wi in
      let pj : place walk.extent walk.stride q ≡ dot walk.stride js =
        ap (place walk.extent walk.stride) (sym nj) ∙ place-ravel walk.extent walk.stride js wj in
      let same = s.distinct is js wi wj (omega arith) in omega arith

  at_offset-Strided :
      (is : List ℕ)
      → AtRun walk.extent walk.stride is
      → Strided
          (at_offset walk)
          (ravel walk.extent is)
          (walk.start + dot walk.stride is)
          0
          walk.run_stride
          (last walk.extent)
  at_offset-Strided is a t j e h =
      let (at, _) = place-run walk.extent walk.stride is j s.axes a h in
      rw (e, s.run_step) (omega (arith, at))

  run-end :
      (is : List ℕ)
      → AtRun walk.extent walk.stride is
      → ravel walk.extent is + last walk.extent ≤ total walk
  run-end is a =
      let pos = positive-last walk.extent s.axes s.positive in
      let (_, below) =
        place-run walk.extent walk.stride is (last walk.extent - 1) s.axes a (omega arith) in
      omega arith

module _ {ℓ} {T : Type ℓ} (walk : RegionWalk) (s : Sound walk) where
  -- The loop, when the body copies the run that starts at each counter.
  walk_runs_lem :
      (from : List T) (src dst : ℕ → ℕ) (size : ℕ)
      → Apart dst (total walk)
      → (run : ℕ → ℕ → List T → Option (List T))
      → ((is : List ℕ) (buffer : List T)
          → AtRun walk.extent walk.stride is
          → length buffer ≡ size
          → (out : List T) × (run (ravel walk.extent is) (walk.start + dot walk.stride is) buffer
              ≡ some out)
            × Copied from buffer out src dst
                (ravel walk.extent is)
                (ravel walk.extent is + last walk.extent))
      → (left : ℕ) (is : List ℕ) (buffer : List T) → AtRun walk.extent walk.stride is
      → length buffer ≡ size
      → ravel walk.extent is + left * last walk.extent ≡ total walk
      → (out : List T) × (walk_runs walk run left is
            (walk.start + dot walk.stride is)
            (ravel walk.extent is)
            buffer
          ≡ some out)
        × Copied from buffer out src dst (ravel walk.extent is) (total walk)
  unfolding walk_runs
  walk_runs_lem from src dst size apart run each zero is buffer a len e =
      let here : ravel walk.extent is ≡ (total walk) = omega arith in
      (buffer, refl, rw here (Copied-none from src dst (total walk) apart buffer (total walk)))
  walk_runs_lem from src dst size apart run each (suc zero) is buffer a len e =
      let (out, ran, c) = each is buffer a len in
      let end : ravel walk.extent is + last walk.extent ≡ (total walk) = omega arith in
      (out, ran, rw end at c)
  walk_runs_lem from src dst size apart run each (suc (suc left)) is buffer a len e =
      let (mid, ran, c) = each is buffer a len in
      let pos = positive-last walk.extent s.axes s.positive in
      let more : ravel walk.extent is + last walk.extent < (total walk) = grind arith in
      let (js, moves, at, up) =
        advance_region_lem walk is (walk.start + dot walk.stride is) s.axes a
          (omega (arith, s.reach, s.fits)) refl more in
      let (out, rest, d) =
        walk_runs_lem from src dst size apart run each (suc left) js mid at (c.size ∙ len)
          (omega arith) in
      let next : ravel walk.extent is + walk.run_len ≡ ravel walk.extent js =
        omega (arith, s.run_count) in
      (
        out,
        rw (ran, moves, next) rest,
        Copied-join from src dst (total walk) apart (ravel walk.extent is) (ravel walk.extent js)
            (omega arith) (omega arith) (omega arith) (rw (← up) at c) d,
      )

  -- For the walk of a region that is not empty, a payload that holds the region and a storage that
  -- holds the walk's last offset: `copy_region_to_payload` succeeds and keeps the payload's length;
  -- at the row-major number of each tuple of the region the payload then holds the element at the
  -- tuple's offset in the storage, and beyond the region it is as before.
  pub copy_region_to_payload_lem :
      (storage payload : List T)
      → product walk.extent ≤ length payload
      → walk.max_offset < length storage
      → (out : List T) × (copy_region_to_payload walk storage payload ≡ some out)
        × (length out ≡ length payload)
        × ((is : List ℕ)
            → Within walk.extent is
            → get_elem? out (ravel walk.extent is)
              ≡ get_elem? storage (walk.start + dot walk.stride is))
        × ((k : ℕ) → product walk.extent ≤ k → get_elem? out k ≡ get_elem? payload k)
  unfolding copy_region_to_payload
  copy_region_to_payload_lem storage payload room reach =
      let pos = positive-last walk.extent s.axes s.positive in
      let (at, number, offset) = zeros-AtRun walk.extent walk.stride s.rank s.positive in
      let (out, run, c) =
        walk_runs_lem storage (at_offset walk) (λ r. r) (length payload) (λ r q hr hq e. e)
          (run_to_payload walk storage) each walk.outer_len (replicate (length walk.extent) 0)
          payload at refl (omega (arith, number, rw s.run_count at s.total)) in
      let begin : walk.start + dot walk.stride (replicate (length walk.extent) 0) ≡ walk.start =
        omega (arith, offset) in
      let runs : (walk.run_len == 0) ≡ false = ground (arith, s.run_count, pos) in
      (
        out,
        rw (runs, rw (begin, number) at run) refl,
        c.size,
        λ is w.
            c.moved (ravel walk.extent is) (omega (arith, number))
              (ravel-lt-product walk.extent is w)
            ∙ ap (λ (t : ℕ). get_elem? storage (walk.start + t))
                (place-ravel walk.extent walk.stride is w),
        λ k beyond. c.kept k (λ r l h e. absurd (omega arith)),
      )
    where
      each :
          (is : List ℕ) (buffer : List T)
          → AtRun walk.extent walk.stride is
          → length buffer ≡ length payload
          → (out : List T) × (run_to_payload walk storage
                (ravel walk.extent is)
                (walk.start + dot walk.stride is)
                buffer
              ≡ some out)
            × Copied storage buffer out
                (at_offset walk)
                (λ r. r)
                (ravel walk.extent is)
                (ravel walk.extent is + last walk.extent)
      each is buffer a len =
          Copied-run_to_payload storage (at_offset walk) (λ r. r) (total walk) (λ r q hr hq e. e)
            walk (last walk.extent) (ravel walk.extent is) buffer (walk.start + dot walk.stride is)
            (ravel walk.extent is) (positive-last walk.extent s.axes s.positive) s.run_count
            (at_offset-Strided walk s is a) (λ t j e h. omega (arith, e))
            (λ t l h.
              let end = run-end walk s is a in
              let bound = at_offset-bound walk s t (omega arith) in (omega arith, omega arith))
            (run-end walk s is a)

  -- For the walk of a region that is not empty, a payload that holds the region and a storage that
  -- holds the walk's last offset: `copy_region_from_payload` succeeds and keeps the storage's length;
  -- at the offset of each tuple of the region the storage then holds the payload's element at the
  -- tuple's row-major number, and every place that is no tuple's offset is as before.
  pub copy_region_from_payload_lem :
      (payload storage : List T)
      → product walk.extent ≤ length payload
      → walk.max_offset < length storage
      → (out : List T) × (copy_region_from_payload walk payload storage ≡ some out)
        × (length out ≡ length storage)
        × ((is : List ℕ)
            → Within walk.extent is
            → get_elem? out (walk.start + dot walk.stride is)
              ≡ get_elem? payload (ravel walk.extent is))
        × ((k : ℕ)
            → ((is : List ℕ) → Within walk.extent is → k ≢ walk.start + dot walk.stride is)
            → get_elem? out k ≡ get_elem? storage k)
  unfolding copy_region_from_payload
  copy_region_from_payload_lem payload storage room reach =
      let pos = positive-last walk.extent s.axes s.positive in
      let (at, number, offset) = zeros-AtRun walk.extent walk.stride s.rank s.positive in
      let (out, run, c) =
        walk_runs_lem payload (λ r. r) (at_offset walk) (length storage) (at_offset-Apart walk s)
          (run_from_payload walk payload) each walk.outer_len (replicate (length walk.extent) 0)
          storage at refl (omega (arith, number, rw s.run_count at s.total)) in
      let begin : walk.start + dot walk.stride (replicate (length walk.extent) 0) ≡ walk.start =
        omega (arith, offset) in
      let runs : (walk.run_len == 0) ≡ false = ground (arith, s.run_count, pos) in
      (
        out,
        rw (runs, rw (begin, number) at run) refl,
        c.size,
        λ is w.
            ap (λ (t : ℕ). get_elem? out (walk.start + t))
              (sym (place-ravel walk.extent walk.stride is w))
            ∙ c.moved (ravel walk.extent is) (omega (arith, number))
                (ravel-lt-product walk.extent is w),
        λ k free. c.kept k (λ r l h e.
            let (is, w, same) = ravel_onto walk.extent r h in
            free is w (
              e
              ∙ ap (at_offset walk) (sym same)
              ∙ ap (λ (t : ℕ). walk.start + t) (place-ravel walk.extent walk.stride is w))),
      )
    where
      each :
          (is : List ℕ) (buffer : List T)
          → AtRun walk.extent walk.stride is
          → length buffer ≡ length storage
          → (out : List T) × (run_from_payload walk payload
                (ravel walk.extent is)
                (walk.start + dot walk.stride is)
                buffer
              ≡ some out)
            × Copied payload buffer out
                (λ r. r)
                (at_offset walk)
                (ravel walk.extent is)
                (ravel walk.extent is + last walk.extent)
      each is buffer a len =
          Copied-run_from_payload payload (λ r. r) (at_offset walk) (total walk)
            (at_offset-Apart walk s) walk (last walk.extent) (ravel walk.extent is) buffer
            (walk.start + dot walk.stride is) (ravel walk.extent is)
            (positive-last walk.extent s.axes s.positive) s.run_count (λ t j e h. omega (arith, e))
            (at_offset-Strided walk s is a)
            (λ t l h.
              let end = run-end walk s is a in
              let bound = at_offset-bound walk s t (omega arith) in (omega arith, omega arith))
            (run-end walk s is a)
