-- ===== src/Geometry/Partition.antt =====
-- The floor partition of geometry.rs: no intermediate value wraps, and the parts tile the domain.
use pencil_rs.Prelude.{
  ℕ, zero, suc, ◌+◌, ◌*◌, ◌/◌, ◌^◌, ◌<◌, ◌≤◌, ◌≡◌, refl, false, arith, ok, err, lt→leb_false,
  le→leb, ◌==◌, if◌then◌else◌,
}
use native.Mathlib.Nat.{
  le_trans, div-mul-le_self, lt-div-mul-add, lt_of_mul-lt-mul_right, div-eq_of_lt,
  div-eq_of_eq-mul_left, mod-eq_of_lt, mul-le-mul, mul-le-mul_left, div-le_of_le-mul, mul_comm,
}
use native.Mathlib.Numerals.{add-one}
use native.Mathlib.Decide.{dec_lt}
use pencil_rs.Word.{usize_max}
use pencil_rs.Error.{GeometryError}
use pencil_rs.Geometry.{Range, boundary, partition_range}

-- The floor of length * position / parts.
abbrev pub floor_boundary : ℕ → ℕ → ℕ → ℕ
floor_boundary length parts position = length * position / parts

-- The products fit 128 bits and the quotients fit 64, so neither conversion wraps.
pub boundary_lem :
    (length parts position : ℕ)
    → length ≤ usize_max
    → position ≤ parts
    → 0 < parts
    → parts ≤ usize_max
    → boundary length parts position ≡ floor_boundary length parts position
unfolding boundary
boundary_lem length parts position hl hp pos hparts =
    let small : length * position ≤ usize_max * usize_max = mul-le-mul hl (le_trans hp hparts) in
    let wide : length * position < 2 ^ 128 = omega arith in
    let quotient : length * position / parts ≤ length =
      div-le_of_le-mul parts (rw (mul_comm parts length) (mul-le-mul_left length hp)) in
    rw (mod-eq_of_lt wide, mod-eq_of_lt {n = length * position / parts} {m = 2 ^ 64} (omega arith))

-- A multiple of m that is at most n is at most n / m times m.
le-div : (k m n : ℕ) → 0 < m → k * m ≤ n → k ≤ n / m
le-div k m n pos h =
    let b : n < n / m * m + m = lt-div-mul-add pos in
    let c : k * m < (n / m + 1) * m = omega arith in omega (arith, lt_of_mul-lt-mul_right m c)

module _ (length parts : ℕ) (pos : 0 < parts) where
  pub floor_boundary-zero : floor_boundary length parts 0 ≡ 0
  floor_boundary-zero = let e : length * 0 ≡ 0 = omega arith in rw (e, div-eq_of_lt pos)

  pub floor_boundary-last : floor_boundary length parts parts ≡ length
  floor_boundary-last = div-eq_of_eq-mul_left pos refl

  pub floor_boundary_mono :
      (i j : ℕ) → i ≤ j → floor_boundary length parts i ≤ floor_boundary length parts j
  floor_boundary_mono i j h =
      le-div _ parts (length * j) pos
        (le_trans (div-mul-le_self (length * i) parts) (mul-le-mul_left length h))

  -- Consecutive boundaries are length / parts or one more apart.
  pub floor_boundary_step :
      (i : ℕ)
      → (floor_boundary length parts i + length / parts ≤ floor_boundary length parts (i + 1))
        × (floor_boundary length parts (i + 1) ≤ floor_boundary length parts i + length / parts + 1)
  floor_boundary_step i =
      let a = length * i / parts in
      let b = length * (i + 1) / parts in
      let q = length / parts in
      let a_low : a * parts ≤ length * i = div-mul-le_self (length * i) parts in
      let a_high : length * i < a * parts + parts = lt-div-mul-add pos in
      let q_low : q * parts ≤ length = div-mul-le_self length parts in
      let q_high : length < q * parts + parts = lt-div-mul-add pos in
      let b_low : b * parts ≤ length * (i + 1) = div-mul-le_self (length * (i + 1)) parts in
      let b_high : length * (i + 1) < b * parts + parts = lt-div-mul-add pos in
      let low : (a + q) * parts < (b + 1) * parts = omega arith in
      let high : b * parts < (a + q + 2) * parts = omega arith in
      (
        omega (arith, lt_of_mul-lt-mul_right parts low),
        omega (arith, lt_of_mul-lt-mul_right parts high),
      )

  -- Some part holds an index of the domain.
  floor_owner_below :
      (k i : ℕ)
      → i < floor_boundary length parts k
      → (c : ℕ) × (c < k)
        × (floor_boundary length parts c ≤ i)
        × (i < floor_boundary length parts (c + 1))
  floor_owner_below zero i h = absurd (omega (arith, floor_boundary-zero))
  floor_owner_below (suc k) i h = elim (dec_lt i (floor_boundary length parts k)) [
    | yes lt ↦ let (c, below, low, high) = floor_owner_below k i lt in (c, omega arith, low, high)
    | no ge ↦ (k, omega arith, omega arith, rw add-one h)
  ]

  pub floor_owner :
      (i : ℕ)
      → i < length
      → (c : ℕ) × (c < parts)
        × (floor_boundary length parts c ≤ i)
        × (i < floor_boundary length parts (c + 1))
  floor_owner i h = floor_owner_below parts i (rw floor_boundary-last h)

  -- No two parts hold one index.
  pub floor_owner_unique :
      (i c d : ℕ)
      → floor_boundary length parts c ≤ i
      → i < floor_boundary length parts (c + 1)
      → floor_boundary length parts d ≤ i
      → i < floor_boundary length parts (d + 1)
      → c ≡ d
  floor_owner_unique i c d cl ch dl dh = elim (dec_lt c d) [
    | yes lt ↦ absurd (omega (arith, floor_boundary_mono (c + 1) d (omega arith)))
    | no ge ↦ elim (dec_lt d c) [
      | yes gt ↦ absurd (omega (arith, floor_boundary_mono (d + 1) c (omega arith)))
      | no le ↦ omega arith
    ]
  ]

-- What a caller passes: a length and a positive number of parts, both of type usize.
pub record Inputs (length parts : ℕ) : Type 0 where
  pub length_fits : length ≤ usize_max
  pub parts_fit : parts ≤ usize_max
  pub positive : 0 < parts

-- The range of a part, in exact arithmetic.
abbrev pub floor_range : ℕ → ℕ → ℕ → Range
floor_range length parts c = record {
  start = floor_boundary length parts c;
  end = floor_boundary length parts (c + 1);
}

-- For every coordinate below the number of parts the code returns the exact floor range, so that
-- its 128-bit products, its conversions and the successor of the coordinate do not wrap.
pub partition_range_lem :
    {length parts : ℕ} (c : ℕ)
    → Inputs length parts
    → c < parts
    → partition_range length parts c ≡ ok (floor_range length parts c)
unfolding partition_range
partition_range_lem {length} {parts} c v h =
    let some_parts : (parts == 0) ≡ false = ground arith in
    rw (
      some_parts,
      lt→leb_false c parts h,
      mod-eq_of_lt {n = c + 1} {m = 2 ^ 64} (omega arith),
      boundary_lem length parts c v.length_fits (omega arith) v.positive v.parts_fit,
      boundary_lem length parts (c + 1) v.length_fits (omega arith) v.positive v.parts_fit,
    )

-- A coordinate that is not below the number of parts, or no parts at all, is an error.
pub partition_range_rejects :
    (length parts c : ℕ)
    → parts ≤ c
    → partition_range length parts c
      ≡ err (
          if parts == 0
          then GeometryError.zero_partitions
          else GeometryError.process_coordinate_out_of_bounds 0 c parts)
unfolding partition_range
partition_range_rejects length parts c h = ground (arith, le→leb parts c h)
