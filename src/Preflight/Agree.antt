-- ===== src/Preflight/Agree.antt =====
-- The agreement steps tell exactly whether all ranks agree, and give every rank the same verdict.
use pencil_rs.Prelude.{
  ℕ, zero, suc, ◌+◌, ◌/◌, ◌<◌, ◌≤◌, ◌≡◌, refl, sym, ap, ◌∙◌, ◌↔◌, ◌⊎◌, inl, inr, List, [], ◌∷◌,
  ◌++◌, Bool, true, false, some, arith, length, get_elem?, take, map, All, All-get_elem?,
  All-of_get_elem?, list_eq_sound, list_eq_refl, list_ext, Outcome, ok, err, is_ok, and_then,
  length-map, length-append, get_elem?-some, get_elem?-none, lt_of_get_elem?, get_elem?-append_left,
  Bool-cases,
}
use pencil_rs.Grid.{drop}
use pencil_rs.Transpose.Splice.{length-take, length-drop, get_elem?-take, get_elem?-drop}
use pencil_rs.Preflight.{
  u64_max, complement, expand_for_max, split_min_max, agree_header, from_bool, collective_valid,
  or_peer_error, agree_preflight,
}

-- `MPI_MAX` over vectors of one length: at each position the result is one of the contributions and
-- none is greater.
pub record MaxReduction (reduce : List (List ℕ) → List ℕ) : Type 0 where
  pub size :
      (w : ℕ) (xs : List (List ℕ))
      → 0 < length xs
      → All (λ x. length x ≡ w) xs
      → length (reduce xs) ≡ w
  pub upper :
      (w : ℕ) (xs : List (List ℕ)) (i j : ℕ) (x : List ℕ) (value top : ℕ)
      → All (λ x. length x ≡ w) xs
      → get_elem? xs i ≡ some x
      → get_elem? x j ≡ some value
      → get_elem? (reduce xs) j ≡ some top
      → value ≤ top
  pub attained :
      (w : ℕ) (xs : List (List ℕ)) (j : ℕ) (top : ℕ)
      → All (λ x. length x ≡ w) xs
      → get_elem? (reduce xs) j ≡ some top
      → (i : ℕ) × (x : List ℕ) × (get_elem? xs i ≡ some x) × (get_elem? x j ≡ some top)

-- `MPI_MIN` over one number of each rank.
pub record MinReduction (reduce : List ℕ → ℕ) : Type 0 where
  pub lower : (xs : List ℕ) (i value : ℕ) → get_elem? xs i ≡ some value → reduce xs ≤ value
  pub attained : (xs : List ℕ) → 0 < length xs → (i : ℕ) × (get_elem? xs i ≡ some (reduce xs))

get_elem?-map {ℓ κ} :
    {A : Type ℓ} {B : Type κ} (f : A → B) (xs : List A) (i : ℕ)
    → get_elem? (map f xs) i ≡ and_then (get_elem? xs i) (λ x. some (f x))
get_elem?-map f [] i = refl
get_elem?-map f (x ∷ xs) zero = refl
get_elem?-map f (x ∷ xs) (suc i) = get_elem?-map f xs i

get_elem?-map-some {ℓ κ} :
    {A : Type ℓ} {B : Type κ} (f : A → B) (xs : List A) (i : ℕ) {x : A}
    → get_elem? xs i ≡ some x
    → get_elem? (map f xs) i ≡ some (f x)
get_elem?-map-some f xs i e = get_elem?-map f xs i ∙ rw e refl

get_elem?-append_right {ℓ} :
    {A : Type ℓ} (xs ys : List A) (i : ℕ) → get_elem? (xs ++ ys) (length xs + i) ≡ get_elem? ys i
get_elem?-append_right [] ys i = ap (get_elem? ys) (omega arith)
get_elem?-append_right (x ∷ xs) ys i =
    let e : suc (length xs) + i ≡ suc (length xs + i) = omega arith in
    rw e (get_elem?-append_right xs ys i)

-- All flags are set.
pub collective_valid_lem :
    (reduce : List ℕ → ℕ) (flags : List Bool)
    → MinReduction reduce
    → 0 < length flags
    → (collective_valid reduce flags ≡ true) ↔ All (λ flag. flag ≡ true) flags
unfolding collective_valid
collective_valid_lem reduce flags r some_rank = (
  λ valid.
      All-of_get_elem? (λ flag. flag ≡ true) flags
        λ i flag e.
          let low =
            r.lower (map from_bool flags) i (from_bool flag)
              (get_elem?-map-some from_bool flags i e) in
          set_flag flag (ground (arith, valid)) low,
  λ all.
      let (i, e) = r.attained (map from_bool flags) (omega (arith, length-map from_bool flags)) in
      let (flag, f) =
        get_elem?-some flags i
          (omega (arith, lt_of_get_elem? (map from_bool flags) i e, length-map from_bool flags)) in
      let at = get_elem?-map-some from_bool flags i f in
      let one : flag ≡ true = All-get_elem? (λ flag. flag ≡ true) flags i all f in
      let value : reduce (map from_bool flags) ≡ 1 = cc (e, at, one, ap from_bool one) in
      rw value refl,
)
  where
    set_flag : (flag : Bool) → {n : ℕ} → 0 < n → n ≤ from_bool flag → flag ≡ true
    set_flag true h l = refl
    set_flag false h l = absurd (omega arith)

-- The halves of a list of even length.
get_elem?-half {ℓ} :
    {A : Type ℓ} (w : ℕ) (xs : List A) (k : ℕ)
    → length xs ≡ w + w
    → k < w
    → (get_elem? (take (length xs / 2) xs) k ≡ get_elem? xs k)
      × (get_elem? (drop (length xs / 2) xs) k ≡ get_elem? xs (w + k))
get_elem?-half w xs k len low =
    let half : length xs / 2 ≡ w = omega arith in
    rw half (get_elem?-take w xs k low, get_elem?-drop w xs k)

length-half {ℓ} :
    {A : Type ℓ} (w : ℕ) (xs : List A)
    → length xs ≡ w + w
    → (length (take (length xs / 2) xs) ≡ w) × (length (drop (length xs / 2) xs) ≡ w)
length-half w xs len =
    let half : length xs / 2 ≡ w = omega arith in
    rw half (length-take w xs (omega arith), omega (arith, length-drop w xs (omega arith)))

-- A word and its complement, in the buffer that a rank passes.
expanded :
    (w : ℕ) (x : List ℕ) (k v : ℕ)
    → length x ≡ w
    → get_elem? x k ≡ some v
    → (get_elem? (expand_for_max x) k ≡ some v)
      × (get_elem? (expand_for_max x) (w + k) ≡ some (complement v))
unfolding expand_for_max
expanded w x k v len e = (
  get_elem?-append_left x (map complement x) k (lt_of_get_elem? x k e) ∙ e,
  rw (← len)
      (get_elem?-append_right x (map complement x) k ∙ get_elem?-map complement x k ∙ rw e refl),
)

module _ (reduce : List (List ℕ) → List ℕ) (r : MaxReduction reduce) (w : ℕ)
    (headers : List (List ℕ)) (some_rank : 0 < length headers)
    (sizes : All (λ x. length x ≡ w) headers) (words : All (All (λ v. v ≤ u64_max)) headers) where
  abbrev paired : List (List ℕ)
  paired = map expand_for_max headers

  paired_sizes : All (λ x. length x ≡ w + w) paired
  paired_sizes = All-map headers sizes
    where
      All-map :
          (xs : List (List ℕ))
          → All (λ x. length x ≡ w) xs
          → All (λ x. length x ≡ w + w) (map expand_for_max xs)
      All-map [] h = tt
      All-map (x ∷ xs) h = (
        unfold expand_for_max in
            omega (arith, length-append x (map complement x), length-map complement x, h.0),
        All-map xs h.1,
      )

  reduced_size : length (reduce paired) ≡ w + w
  reduced_size =
      r.size (w + w) paired (omega (arith, length-map expand_for_max headers)) paired_sizes

  -- The words of the two halves at one position.
  halves :
      (k : ℕ)
      → k < w
      → (top : ℕ) × (bottom : ℕ) × (get_elem? (reduce paired) k ≡ some top)
        × (get_elem? (reduce paired) (w + k) ≡ some bottom)
        × (get_elem? (split_min_max (reduce paired)).1 k ≡ some top)
        × (get_elem? (split_min_max (reduce paired)).0 k ≡ some (complement bottom))
  unfolding split_min_max
  halves k low =
      let (top, pt) = get_elem?-some (reduce paired) k (omega (arith, reduced_size)) in
      let (bottom, pb) = get_elem?-some (reduce paired) (w + k) (omega (arith, reduced_size)) in
      let (a, b) = get_elem?-half w (reduce paired) k reduced_size low in
      (
        top,
        bottom,
        pt,
        pb,
        a ∙ pt,
        get_elem?-map complement (drop (length (reduce paired) / 2) (reduce paired)) k
            ∙ rw (b, pb) refl,
      )

  maximum_size : length (split_min_max (reduce paired)).1 ≡ w
  maximum_size = unfold split_min_max in (length-half w (reduce paired) reduced_size).0

  minimum_size : length (split_min_max (reduce paired)).0 ≡ w
  minimum_size =
      unfold split_min_max in
      (length-map complement (drop (length (reduce paired) / 2) (reduce paired))
        ∙ (length-half w (reduce paired) reduced_size).1)

  -- When the halves agree, they are the header of each rank.
  header_of_all :
      (split_min_max (reduce paired)).0 ≡ (split_min_max (reduce paired)).1
      → (i : ℕ) (x : List ℕ) → get_elem? headers i ≡ some x
      → x ≡ (split_min_max (reduce paired)).1
  header_of_all agree i x e = list_ext x (split_min_max (reduce paired)).1 λ k.
      elim (native.Mathlib.Decide.dec_lt k w) [
        | no ge ↦
            get_elem?-none x k (omega (arith, All-get_elem? (λ x. length x ≡ w) headers i sizes e))
            ∙ sym (get_elem?-none (split_min_max (reduce paired)).1 k (omega (arith, maximum_size)))
        | yes lt ↦
            let len = All-get_elem? (λ x. length x ≡ w) headers i sizes e in
            let (v, pv) = get_elem?-some x k (omega arith) in
            let small : v ≤ u64_max =
              All-get_elem? (λ v. v ≤ u64_max) x k
                (All-get_elem? (All (λ v. v ≤ u64_max)) headers i words e) pv in
            let (top, bottom, pt, pb, at_top, at_bottom) = halves k lt in
            let (ex, ec) = expanded w x k v len pv in
            let mine = get_elem?-map-some expand_for_max headers i e in
            let a = r.upper (w + w) paired i k (expand_for_max x) v top paired_sizes mine ex pt in
            let b =
              r.upper (w + w) paired i (w + k) (expand_for_max x) (complement v) bottom paired_sizes
                mine ec pb in
            let same : complement bottom ≡ top =
              same_word (sym at_bottom ∙ ap (λ ys. get_elem? ys k) agree ∙ at_top) in
            pv ∙ ap some (pinned v top bottom small a b same) ∙ sym at_top
      ]
    where
      same_word : {a b : ℕ} → some a ≡ some b → a ≡ b
      same_word e = cc

      pinned :
          (v top bottom : ℕ)
          → v ≤ u64_max
          → v ≤ top
          → complement v ≤ bottom
          → complement bottom ≡ top
          → v ≡ top
      pinned v top bottom small a b same = unfold complement in omega (arith, small, a, b, same)

  -- A header that all ranks share comes back in both halves.
  shared_header :
      ((i j : ℕ) (x y : List ℕ)
        → get_elem? headers i ≡ some x
        → get_elem? headers j ≡ some y
        → x ≡ y)
      → (split_min_max (reduce paired)).0 ≡ (split_min_max (reduce paired)).1
  shared_header shared =
      list_ext (split_min_max (reduce paired)).0 (split_min_max (reduce paired)).1 λ k.
        elim (native.Mathlib.Decide.dec_lt k w) [
          | no ge ↦
              get_elem?-none (split_min_max (reduce paired)).0 k (omega (arith, minimum_size))
              ∙ sym
                  (get_elem?-none (split_min_max (reduce paired)).1 k (omega (arith, maximum_size)))
          | yes lt ↦
              let (x, first) = get_elem?-some headers 0 some_rank in
              let len = All-get_elem? (λ x. length x ≡ w) headers 0 sizes first in
              let (v, pv) = get_elem?-some x k (omega arith) in
              let small : v ≤ u64_max =
                All-get_elem? (λ v. v ≤ u64_max) x k
                  (All-get_elem? (All (λ v. v ≤ u64_max)) headers 0 words first) pv in
              let (top, bottom, pt, pb, at_top, at_bottom) = halves k lt in
              let (ex, ec) = expanded w x k v len pv in
              let a : top ≡ v = attained_word shared x first k top v ex pt in
              let b : bottom ≡ complement v =
                attained_word shared x first (w + k) bottom (complement v) ec pb in
              at_bottom ∙ ap some (twice v top bottom small a b) ∙ sym at_top
        ]
    where
      twice :
          (v top bottom : ℕ)
          → v ≤ u64_max
          → top ≡ v
          → bottom ≡ complement v
          → complement bottom ≡ top
      twice v top bottom small a b = unfold complement in omega (arith, small, a, b)

      attained_word :
          ((i j : ℕ) (x y : List ℕ)
            → get_elem? headers i ≡ some x
            → get_elem? headers j ≡ some y
            → x ≡ y)
          → (x : List ℕ) → get_elem? headers 0 ≡ some x
          → (k top v : ℕ) → get_elem? (expand_for_max x) k ≡ some v
          → get_elem? (reduce paired) k ≡ some top
          → top ≡ v
      attained_word shared x first k top v ex pt =
          let (i, z, pi, pz) = r.attained (w + w) paired k top paired_sizes pt in
          let (y, py) =
            get_elem?-some headers i
              (omega (arith, lt_of_get_elem? paired i pi, length-map expand_for_max headers)) in
          let mine = get_elem?-map-some expand_for_max headers i py in
          let same : y ≡ x = shared i 0 y x py first in
          let expanded_same : z ≡ expand_for_max x = cc (pi, mine, ap expand_for_max same) in
          cc (pz, ex, ap (λ (t : List ℕ). get_elem? t k) expanded_same)

  -- For headers of one length, one for each rank, of words of 64 bits, and a maximum reduction as MPI
  -- documents it: `agree_header` holds exactly when the headers of all ranks are equal.
  pub agree_header_lem : (agree_header reduce headers ≡ true) ↔ (
      (i j : ℕ) (x y : List ℕ)
      → get_elem? headers i ≡ some x
      → get_elem? headers j ≡ some y
      → x ≡ y)
  unfolding agree_header
  agree_header_lem = (
    λ agreed i j x y e f.
        let same =
          list_eq_sound (split_min_max (reduce paired)).0 (split_min_max (reduce paired)).1
            agreed in
        header_of_all same i x e ∙ sym (header_of_all same j y f),
    λ shared. rw (shared_header shared) (list_eq_refl (split_min_max (reduce paired)).1),
  )

-- What `agree_preflight` gives the ranks: when all succeeded, each its own result; else each an
-- error, its own where it has one and the peer error where it succeeded.
abbrev pub PreflightResult {ℓ κ} :
    {E : Type ℓ} {A : Type κ} → E → List (Outcome E A) → List (Outcome E A) → Type (ℓ ⊔ κ)
PreflightResult {E = E} {A = A} peer_error locals results =
    All (λ local. is_ok local ≡ true) locals × (results ≡ locals)
    ⊎ (¬ All (λ local. is_ok local ≡ true) locals)
      × (length results ≡ length locals)
      × ((i : ℕ) (value : A)
          → get_elem? locals i ≡ some (ok value)
          → get_elem? results i ≡ some (err peer_error))
      × ((i : ℕ) (own : E)
          → get_elem? locals i ≡ some (err own)
          → get_elem? results i ≡ some (err own))

module _ {ℓ κ} {E : Type ℓ} {A : Type κ} where
  All-ok :
      (locals : List (Outcome E A))
      → All (λ flag. flag ≡ true) (map is_ok locals) ↔ All (λ local. is_ok local ≡ true) locals
  All-ok [] = (λ h. tt, λ h. tt)
  All-ok (local ∷ locals) = (λ h. (h.0, (All-ok locals).0 h.1), λ h. (h.0, (All-ok locals).1 h.1))

  -- For at least one rank and a minimum reduction as MPI documents it: when every rank's local result
  -- is a success, `agree_preflight` gives each rank its own result; and else it gives every rank an
  -- error, a failed rank its own and a successful rank the peer error.
  pub agree_preflight_lem :
      (reduce : List ℕ → ℕ) (peer_error : E) (locals : List (Outcome E A))
      → MinReduction reduce
      → 0 < length locals
      → PreflightResult peer_error locals (agree_preflight reduce peer_error locals)
  unfolding agree_preflight or_peer_error
  agree_preflight_lem reduce peer_error locals r some_rank =
      let verdict =
        collective_valid_lem reduce (map is_ok locals) r (omega (arith, length-map is_ok locals)) in
      elim (Bool-cases (collective_valid reduce (map is_ok locals))) [
        | inl valid ↦ inl ((All-ok locals).0 (verdict.0 valid), rw valid refl)
        | inr invalid ↦ inr (
          λ all. cc (verdict.1 ((All-ok locals).1 all), invalid),
          rw invalid (length-map (or_peer_error peer_error) locals),
          λ i value e. rw invalid (get_elem?-map-some (or_peer_error peer_error) locals i e),
          λ i own e. rw invalid (get_elem?-map-some (or_peer_error peer_error) locals i e),
        )
      ]
