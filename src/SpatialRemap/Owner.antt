-- ===== src/SpatialRemap/Owner.antt =====
-- The bisection finds the part that holds an index.
use pencil_rs.Prelude.{
  ℕ, zero, suc, ◌+◌, ◌-◌, ◌/◌, ◌<◌, ◌≤◌, ◌≡◌, refl, Bool, true, false, arith, ◌==◌, ◌||◌, ltb, leb,
  Outcome, ok, inl, inr, Bool-cases, ltb→lt, leb→le, leb_false→lt, lt→ltb,
}
use pencil_rs.Geometry.{Range, range_contains, partition_range}
use pencil_rs.Geometry.Partition.{
  Inputs, floor_boundary, floor_range, floor_boundary_mono, floor_owner, partition_range_lem,
}
use pencil_rs.Geometry.Tiling.{range_contains_iff_left}
use pencil_rs.SpatialRemap.{search_owner, partition_owner}

ltb_false→le : (a b : ℕ) → ltb a b ≡ false → b ≤ a
ltb_false→le a b h = ground arith

module _ {extent parts : ℕ} (v : Inputs extent parts) (index c : ℕ) (below : c < parts)
    (start : floor_boundary extent parts c ≤ index)
    (end : index < floor_boundary extent parts (c + 1)) where
  search_owner_lem :
      (rounds low high : ℕ)
      → low ≤ c
      → c < high
      → high ≤ parts
      → high - low ≤ rounds
      → search_owner index extent parts rounds low high ≡ ok c
  unfolding search_owner
  search_owner_lem zero low high l h p enough = absurd (omega arith)
  search_owner_lem (suc rounds) low high l h p enough =
      let open_interval : ltb low high ≡ true = lt→ltb low high (omega arith) in
      let middle = low + (high - low) / 2 in
      let inside : middle < high = omega arith in
      let run = partition_range_lem middle v (omega arith) in
      elim (Bool-cases (ltb index (floor_boundary extent parts middle))) [
        | inl before ↦
            let lt = ltb→lt index (floor_boundary extent parts middle) before in
            let left : c < middle = earlier middle lt in
            rw (search_owner, open_interval, run)
              (rw (before) (search_owner_lem rounds low middle l left (omega arith) (omega arith)))
        | inr not_before ↦
            elim (Bool-cases (leb (floor_boundary extent parts (middle + 1)) index)) [
              | inl behind ↦
                  let le = leb→le (floor_boundary extent parts (middle + 1)) index behind in
                  let right : middle + 1 ≤ c = later middle le in
                  rw (search_owner, open_interval, run)
                    (rw (not_before, behind)
                      (search_owner_lem rounds (middle + 1) high right h p (omega arith)))
              | inr here ↦
                  let le = ltb_false→le index (floor_boundary extent parts middle) not_before in
                  let lt = leb_false→lt (floor_boundary extent parts (middle + 1)) index here in
                  let same : middle ≡ c =
                    pencil_rs.Geometry.Partition.floor_owner_unique extent parts v.positive index
                      middle c le lt start end in
                  rw (search_owner, open_interval, run)
                    (rw (not_before, here) (pencil_rs.Prelude.ap ok same))
            ]
      ]
    where
      earlier : (middle : ℕ) → index < floor_boundary extent parts middle → c < middle
      earlier middle lt = elim (native.Mathlib.Decide.dec_lt c middle) [
        | yes h ↦ h
        | no h ↦ absurd (
            omega (
              arith,
              lt,
              start,
              floor_boundary_mono extent parts v.positive middle c (omega arith),
            ))
      ]

      later : (middle : ℕ) → floor_boundary extent parts (middle + 1) ≤ index → middle + 1 ≤ c
      later middle le = elim (native.Mathlib.Decide.dec_lt middle c) [
        | yes h ↦ omega arith
        | no h ↦ absurd (
            omega (
              arith,
              le,
              end,
              floor_boundary_mono extent parts v.positive (c + 1) (middle + 1) (omega arith),
            ))
      ]

-- For an extent and a positive number of parts, both of type usize, and an index below the extent:
-- the bisection of `partition_owner` terminates within as many rounds as there are parts and returns
-- the coordinate whose range holds the index.
pub partition_owner_lem :
    {extent parts : ℕ} (index : ℕ)
    → Inputs extent parts
    → index < extent
    → (c : ℕ) × (partition_owner index extent parts ≡ ok c)
      × (c < parts)
      × ((r : Range) × (partition_range extent parts c ≡ ok r) × (range_contains r index ≡ true))
unfolding partition_owner
partition_owner_lem {extent} {parts} index v h =
    let (c, below, low, high) = floor_owner extent parts v.positive index h in
    let accepted : (extent == 0 || leb extent index || parts == 0) ≡ false =
      ground (arith, h, v.positive) in
    (
      c,
      rw (accepted) (
          search_owner_lem v index c below low high parts 0 parts (omega arith) below (omega arith)
            (omega arith)),
      below,
      (
        floor_range extent parts c,
        partition_range_lem c v below,
        range_contains_iff_left (floor_range extent parts c) index low high,
      ),
    )
