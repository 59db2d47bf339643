-- ===== src/Transpose/Strides.antt =====
-- The strides of `region_walk`: the memory offset of a tuple of logical indices is the row-major
-- number of the permuted tuple.
use pencil_rs.Prelude.{
  ℕ, zero, suc, ◌+◌, ◌*◌, ◌<◌, ◌≤◌, ◌≡◌, ◌≢◌, refl, sym, ap, ◌∙◌, List, [], ◌∷◌, some, none, Option,
  arith, length, get_elem?, set, product, replicate, All, Distinct, gather, and_then, put_at-some,
  get_elem?-some, get_elem?-set_ne, length-set, length-replicate, get_elem?-replicate, All-imp,
}
use native.Mathlib.Nat.{le-mul_of_pos_right, mul_comm}
use pencil_rs.Word.{usize_max, checked_mul-some}
use pencil_rs.Geometry.Offset.{ravel}
use pencil_rs.Transpose.Walk.{store_strides}
use pencil_rs.Transpose.Odometer.{dot}

-- One more stride, at an axis that had none.
dot-set :
    (strides is : List ℕ) (a v i : ℕ)
    → get_elem? strides a ≡ some 0
    → get_elem? is a ≡ some i
    → dot (set strides a v) is ≡ dot strides is + i * v
dot-set [] is a v i e f = absurd (cc)
dot-set (s ∷ strides) [] a v i e f = absurd (cc)
dot-set (s ∷ strides) (j ∷ is) zero v i e f =
    let z : s ≡ 0 = cc in
    let same : j ≡ i = cc in omega (arith, ap (λ (t : ℕ). j * t) z, ap (λ (t : ℕ). t * v) same)
dot-set (s ∷ strides) (j ∷ is) (suc a) v i e f = omega (arith, dot-set strides is a v i e f)

-- What the loop leaves, from given strides on.
pub record StridesStored (table axes shape out : List ℕ) : Type 0 where
  pub runs : store_strides table axes shape ≡ some (out, product shape)
  pub size : length out ≡ length table
  pub others : (a : ℕ) → All (λ y. a ≢ y) axes → get_elem? out a ≡ get_elem? table a
  pub offsets :
      (is mem : List ℕ)
      → length is ≡ length table
      → gather is axes ≡ some mem
      → dot out is ≡ dot table is + ravel shape mem

pub product-positive : (shape : List ℕ) → All (λ e. 0 < e) shape → 0 < product shape
product-positive [] p = omega arith
product-positive (e ∷ shape) p =
    let rest = product-positive shape p.1 in
    let head : e ≤ e * product shape = le-mul_of_pos_right e rest in omega (arith, p.0)

pub store_strides_lem :
    (table axes shape : List ℕ)
    → length axes ≡ length shape
    → All (λ a. a < length table) axes
    → All (λ a. get_elem? table a ≡ some 0) axes
    → Distinct axes
    → All (λ e. 0 < e) shape
    → product shape ≤ usize_max
    → (out : List ℕ) × StridesStored table axes shape out
unfolding store_strides gather
store_strides_lem table [] [] len below zeros d pos fits = (
  table,
  record { runs = refl; size = refl; others = λ a h. refl; offsets = λ is mem size e. omega arith },
)
store_strides_lem table [] (e ∷ shape) len below zeros d pos fits = absurd (omega arith)
store_strides_lem table (a ∷ axes) [] len below zeros d pos fits = absurd (omega arith)
store_strides_lem table (a ∷ axes) (e ∷ shape) len below zeros d pos fits =
    let grown : product shape ≤ product shape * e = le-mul_of_pos_right (product shape) pos.0 in
    let flip : product shape * e ≡ e * product shape = mul_comm (product shape) e in
    let (inner, s) =
      store_strides_lem table axes shape (omega arith) below.1 zeros.1 d.1 pos.1 (omega arith) in
    let still : get_elem? inner a ≡ some 0 = s.others a d.0 ∙ zeros.0 in
    (
      set inner a (product shape),
      record {
        runs =
            rw
              (
                s.runs,
                put_at-some inner a (product shape) (rw s.size below.0),
                checked_mul-some (product shape) e (omega arith),
                flip,
              )
              refl;
        size = length-set inner a (product shape) ∙ s.size;
        others =
            λ b h. get_elem?-set_ne inner a b (product shape) (λ q. h.0 (sym q)) ∙ s.others b h.1;
        offsets = λ is mem size g.
            let (i, at) = get_elem?-some is a (omega (arith, size, below.0)) in
            join inner s still is mem size i at g;
      },
    )
  where
    join :
        (inner : List ℕ)
        → StridesStored table axes shape inner
        → get_elem? inner a ≡ some 0
        → (is mem : List ℕ) → length is ≡ length table
        → (i : ℕ) → get_elem? is a ≡ some i
        → gather is (a ∷ axes) ≡ some mem
        → dot (set inner a (product shape)) is ≡ dot table is + ravel (e ∷ shape) mem
    join inner s still is mem size i at g = tail (gather is axes) refl (rw at at g)
      where
        tail :
            (o : Option (List ℕ))
            → gather is axes ≡ o
            → and_then o (λ ys. some (i ∷ ys)) ≡ some mem
            → dot (set inner a (product shape)) is ≡ dot table is + ravel (e ∷ shape) mem
        tail none p h = absurd (cc)
        tail (some ys) p h =
            let shape_of : mem ≡ i ∷ ys = cc in
            rw shape_of (
              dot-set inner is a (product shape) i still at ∙ omega (arith, s.offsets is ys size p))

dot-replicate : (n : ℕ) (is : List ℕ) → dot (replicate n 0) is ≡ 0
dot-replicate zero is = refl
dot-replicate (suc n) [] = refl
dot-replicate (suc n) (i ∷ is) = omega (arith, dot-replicate n is)

-- The strides of `region_walk`, for a permutation of n axes.
pub strides_of_shape :
    (n : ℕ) (axes shape : List ℕ)
    → length axes ≡ n
    → length shape ≡ n
    → All (λ a. a < n) axes
    → Distinct axes
    → All (λ e. 0 < e) shape
    → product shape ≤ usize_max
    → (out : List ℕ) × (store_strides (replicate n 0) axes shape ≡ some (out, product shape))
      × (length out ≡ n)
      × ((is mem : List ℕ)
          → length is ≡ n
          → gather is axes ≡ some mem
          → dot out is ≡ ravel shape mem)
strides_of_shape n axes shape la ls below d pos fits =
    let len : length (replicate n 0) ≡ n = length-replicate {A = ℕ} n 0 in
    let (out, s) =
      store_strides_lem (replicate n 0) axes shape (la ∙ sym ls)
        (All-imp {P = λ a. a < n} (λ a h. omega (arith, len)) axes below)
        (All-imp {P = λ a. a < n} (λ a h. get_elem?-replicate {A = ℕ} n 0 a h) axes below) d pos
        fits in
    (
      out,
      s.runs,
      s.size ∙ len,
      λ is mem size g. s.offsets is mem (size ∙ sym len) g ∙ omega (arith, dot-replicate n is),
    )
