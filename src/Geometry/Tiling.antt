-- ===== src/Geometry/Tiling.antt =====
-- The ranges that `partition_range` gives to the coordinates of one process-grid axis.
use pencil_rs.Prelude.{
  ℕ, ◌+◌, ◌-◌, ◌/◌, ◌<◌, ◌≤◌, ◌≡◌, refl, ap, ◌∙◌, ◌⊎◌, true, arith, ok, le→leb, lt→ltb,
}
use pencil_rs.Geometry.{Range, range_len, range_contains, partition_range}
use pencil_rs.Geometry.Partition.{
  Inputs, floor_range, floor_boundary, floor_boundary-zero, floor_boundary-last,
  floor_boundary_step, floor_owner, floor_owner_unique, partition_range_lem,
}

pub range_contains_iff_left :
    (r : Range) (x : ℕ) → r.start ≤ x → x < r.end → range_contains r x ≡ true
range_contains_iff_left r x low high = ground (arith, le→leb r.start x low, lt→ltb x r.end high)

pub range_contains_iff_right :
    (r : Range) (x : ℕ) → range_contains r x ≡ true → (r.start ≤ x) × (x < r.end)
range_contains_iff_right r x h = ground arith

-- How the ranges of the coordinates 0, …, parts - 1 lie in 0..length.
pub record Tiles (length parts : ℕ) (range_of : ℕ → Range) : Type 0 where
  pub returned : (c : ℕ) → c < parts → partition_range length parts c ≡ ok (range_of c)
  pub first : (range_of 0).start ≡ 0
  pub last : (range_of (parts - 1)).end ≡ length
  pub adjacent : (c : ℕ) → c + 1 < parts → (range_of c).end ≡ (range_of (c + 1)).start
  pub ordered : (c : ℕ) → c < parts → (range_of c).start ≤ (range_of c).end
  pub balanced :
      (c : ℕ)
      → c < parts
      → (range_len (range_of c) ≡ length / parts) ⊎ (range_len (range_of c) ≡ length / parts + 1)

-- For a length and a positive number of parts, both of type usize, `partition_range` succeeds for
-- every coordinate below the number of parts; the first range begins at 0, each begins where the
-- one before it ends, the last ends at the length, and each has length / parts elements or one
-- more.
pub partition_range-Tiles :
    {length parts : ℕ} → Inputs length parts → (range_of : ℕ → Range) × Tiles length parts range_of
partition_range-Tiles {length} {parts} v = (
  floor_range length parts,
  record {
    returned = λ c h. partition_range_lem c v h;
    first = floor_boundary-zero length parts v.positive;
    last =
        let e : parts - 1 + 1 ≡ parts = omega (arith, v.positive) in
        ap (λ k. floor_boundary length parts k) e ∙ floor_boundary-last length parts v.positive;
    adjacent = λ c h. refl;
    ordered = λ c h. let s = floor_boundary_step length parts v.positive c in omega arith;
    balanced = λ c h. let s = floor_boundary_step length parts v.positive c in omega arith;
  },
)

-- For a length and a positive number of parts, both of type usize, every index below the length lies
-- in the range that `partition_range` returns for exactly one coordinate.
pub partition_range_owner :
    {length parts : ℕ} (i : ℕ)
    → Inputs length parts
    → i < length
    → (c : ℕ) × (c < parts)
      × ((r : Range) × (partition_range length parts c ≡ ok r) × (range_contains r i ≡ true))
      × ((d : ℕ) (s : Range)
          → d < parts
          → partition_range length parts d ≡ ok s
          → range_contains s i ≡ true
          → d ≡ c)
partition_range_owner {length} {parts} i v h =
    let (c, below, low, high) = floor_owner length parts v.positive i h in
    (
      c,
      below,
      (
        floor_range length parts c,
        partition_range_lem c v below,
        range_contains_iff_left (floor_range length parts c) i low high,
      ),
      λ d s lt e inside. unique c low high d s lt e inside,
    )
  where
    unique :
        (c : ℕ)
        → floor_boundary length parts c ≤ i
        → i < floor_boundary length parts (c + 1)
        → (d : ℕ) (s : Range) → d < parts
        → partition_range length parts d ≡ ok s
        → range_contains s i ≡ true
        → d ≡ c
    unique c low high d s lt e inside =
        let same : s ≡ floor_range length parts d = cc (partition_range_lem d v lt) in
        let within = range_contains_iff_right (floor_range length parts d) i (rw same at inside) in
        floor_owner_unique length parts v.positive i d c within.0 within.1 low high
