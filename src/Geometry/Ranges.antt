-- ===== src/Geometry/Ranges.antt =====
-- `local_ranges_for`: one floor range for each distributed axis, the whole axis elsewhere.
use pencil_rs.Prelude.{
  ℕ, zero, suc, ◌+◌, ◌<◌, ◌≤◌, ◌≡◌, ◌≢◌, refl, sym, ◌∙◌, List, [], ◌∷◌, false, some, arith, ◌==◌,
  length, get_elem?, set, All, Distinct, ok, put_at-some, get_elem?-set_ne, get_elem?-set_self,
  length-set, length-map, get_elem?-some, All-get_elem?, lt→leb_false,
}
use pencil_rs.Word.{usize_max}
use pencil_rs.Geometry.{Range, full_ranges, assign_ranges, local_ranges_for}
use pencil_rs.Geometry.Offset.{Within}
use pencil_rs.Geometry.Partition.{floor_range, partition_range_lem, Inputs}

-- The arguments of a validated decomposition: distinct axes of the shape, a process coordinate
-- below each extent of the grid, and extents that fit usize.
pub record Layout (shape grid coords axes : List ℕ) : Type 0 where
  pub inside : Within grid coords
  pub rank : length axes ≡ length grid
  pub below : All (λ a. a < length shape) axes
  pub distinct : Distinct axes
  pub shape_fits : All (λ e. e ≤ usize_max) shape
  pub grid_fits : All (λ e. e ≤ usize_max) grid

-- What the loop leaves: the floor range of its coordinate at each axis that it treats, and the
-- range from before at the others.
pub record Assigned (shape : List ℕ) (ranges : List Range) (grid coords axes : List ℕ)
    (out : List Range) : Type 0 where
  pub rank : length out ≡ length ranges
  pub distributed :
      (t a g c e : ℕ)
      → get_elem? axes t ≡ some a
      → get_elem? grid t ≡ some g
      → get_elem? coords t ≡ some c
      → get_elem? shape a ≡ some e
      → get_elem? out a ≡ some (floor_range e g c)
  pub others : (a : ℕ) → All (λ y. a ≢ y) axes → get_elem? out a ≡ get_elem? ranges a

Layout-tail :
    (shape : List ℕ) (g : ℕ) (grid : List ℕ) (c : ℕ) (coords : List ℕ) (a : ℕ) (axes : List ℕ)
    → Layout shape (g ∷ grid) (c ∷ coords) (a ∷ axes)
    → Layout shape grid coords axes
Layout-tail shape g grid c coords a axes l = record {
  inside = l.inside.1;
  rank = omega (arith, l.rank);
  below = l.below.1;
  distinct = l.distinct.1;
  shape_fits = l.shape_fits;
  grid_fits = l.grid_fits.1;
}

pub assign_ranges_lem :
    (shape : List ℕ) (axis : ℕ) (ranges : List Range) (grid coords axes : List ℕ)
    → Layout shape grid coords axes
    → length ranges ≡ length shape
    → (out : List Range) × (assign_ranges shape axis ranges grid coords axes ≡ ok out)
      × Assigned shape ranges grid coords axes out
unfolding assign_ranges
assign_ranges_lem shape axis ranges [] [] [] l len = (
  ranges,
  refl,
  record { rank = refl; distributed = λ t a g c e p. absurd (cc); others = λ a h. refl },
)
assign_ranges_lem shape axis ranges [] [] (a ∷ axes) l len = absurd (omega (arith, l.rank))
assign_ranges_lem shape axis ranges [] (c ∷ coords) axes l len = absurd l.inside
assign_ranges_lem shape axis ranges (g ∷ grid) [] axes l len = absurd l.inside
assign_ranges_lem shape axis ranges (g ∷ grid) (c ∷ coords) [] l len =
    absurd (omega (arith, l.rank))
assign_ranges_lem shape axis ranges (g ∷ grid) (c ∷ coords) (a ∷ axes) l len =
    let (e, at) = get_elem?-some shape a l.below.0 in
    let inputs : Inputs e g = record {
      length_fits = All-get_elem? _ shape a l.shape_fits at;
      parts_fit = l.grid_fits.0;
      positive = omega (arith, l.inside.0);
    } in
    let r = floor_range e g c in
    let some_parts : (g == 0) ≡ false = ground (arith, inputs.positive) in
    let room : a < length ranges = omega (arith, l.below.0) in
    let (out, run, s) =
      assign_ranges_lem shape (axis + 1) (set ranges a r) grid coords axes
        (Layout-tail shape g grid c coords a axes l) (length-set ranges a r ∙ len) in
    (
      out,
      rw
          (
            some_parts,
            lt→leb_false c g l.inside.0,
            at,
            partition_range_lem c inputs l.inside.0,
            put_at-some ranges a r room,
          )
          run,
      record {
        rank = s.rank ∙ length-set ranges a r;
        distributed = first e at room s;
        others = λ b h. s.others b h.1 ∙ get_elem?-set_ne ranges a b r (λ p. h.0 (sym p));
      },
    )
  where
    first :
        (e : ℕ)
        → get_elem? shape a ≡ some e
        → a < length ranges
        → {out : List Range}
        → Assigned shape (set ranges a (floor_range e g c)) grid coords axes out
        → (t b h d f : ℕ) → get_elem? (a ∷ axes) t ≡ some b
        → get_elem? (g ∷ grid) t ≡ some h
        → get_elem? (c ∷ coords) t ≡ some d
        → get_elem? shape b ≡ some f
        → get_elem? out b ≡ some (floor_range f h d)
    first e at room {out} s zero b h d f p q r u =
        let v : get_elem? out a ≡ some (floor_range e g c) =
          s.others a l.distinct.0 ∙ get_elem?-set_self ranges a (floor_range e g c) room in
        let same : e ≡ f = cc in cc
    first e at room s (suc t) b h d f p q r u = s.distributed t b h d f p q r u

pub get_elem?-full_ranges :
    (shape : List ℕ) (a e : ℕ)
    → get_elem? shape a ≡ some e
    → get_elem? (full_ranges shape) a ≡ some (record { start = 0; end = e })
unfolding full_ranges
get_elem?-full_ranges [] a e p = absurd (cc)
get_elem?-full_ranges (x ∷ shape) zero e p = let q : x ≡ e = cc in rw q
get_elem?-full_ranges (x ∷ shape) (suc a) e p = get_elem?-full_ranges shape a e p

-- The ranges of one process: at a distributed axis the floor range of the process's coordinate
-- on the grid axis that distributes it, at any other axis the whole extent.
pub record LocalRanges (shape grid coords axes : List ℕ) (ranges : List Range) : Type 0 where
  pub rank : length ranges ≡ length shape
  pub distributed :
      (t a g c e : ℕ)
      → get_elem? axes t ≡ some a
      → get_elem? grid t ≡ some g
      → get_elem? coords t ≡ some c
      → get_elem? shape a ≡ some e
      → get_elem? ranges a ≡ some (floor_range e g c)
  pub whole :
      (a e : ℕ)
      → All (λ y. a ≢ y) axes
      → get_elem? shape a ≡ some e
      → get_elem? ranges a ≡ some (record { start = 0; end = e })

-- For coordinates within the grid and distinct axes within the shape, one for each grid axis, all
-- numbers of type usize: `local_ranges_for` succeeds, each distributed axis gets the floor range of
-- its coordinate, and every other axis its whole extent.
pub local_ranges_for_lem :
    (shape grid coords axes : List ℕ)
    → Layout shape grid coords axes
    → (ranges : List Range) × (local_ranges_for shape grid coords axes ≡ ok ranges)
      × LocalRanges shape grid coords axes ranges
unfolding local_ranges_for
local_ranges_for_lem shape grid coords axes l =
    let len : length (full_ranges shape) ≡ length shape = length-full_ranges shape in
    let (out, run, s) = assign_ranges_lem shape 0 (full_ranges shape) grid coords axes l len in
    (
      out,
      run,
      record {
        rank = s.rank ∙ len;
        distributed = s.distributed;
        whole = λ a e h p. s.others a h ∙ get_elem?-full_ranges shape a e p;
      },
    )
  where
    length-full_ranges : (xs : List ℕ) → length (full_ranges xs) ≡ length xs
    length-full_ranges xs = unfold full_ranges in length-map _ xs
