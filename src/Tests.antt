-- ===== src/Tests.antt =====
-- Concrete processes, pencils and arrays: a 4 × 3 domain over a grid of two processes, stored with
-- the axes in reversed order.
pub mod Indices
pub mod Pencils
pub mod Arrays
pub mod Transposes
pub mod Buffers
pub mod Grids
pub mod Regions
pub mod Exchanges
pub mod Agreements
pub mod Deliveries
use pencil_rs.Prelude.{
  ℕ, zero, suc, ◌+◌, ◌*◌, ◌<◌, ◌≡◌, refl, ap, ◌-◌, List, [], ◌∷◌, some, arith, get_elem?, ok,
}
use pencil_rs.Axis.{AxisPermutation}
use pencil_rs.Axis.Valid.{IsValid as IsAxisPermutation}
use pencil_rs.Decomposition.Valid.{IsDecomposition}
use pencil_rs.Geometry.{
  Range, local_ranges_for, shape_from_ranges, assign_ranges, partition_range, full_ranges, boundary,
}
use pencil_rs.Geometry.Offset.{Within}
use pencil_rs.Topology.{MpiTopology}
use pencil_rs.Topology.Valid.{IsValid as IsTopology}
use pencil_rs.ExtraShape.{ExtraShape, IsValid as IsExtraShape}
use pencil_rs.Pencil.{Pencil}
use pencil_rs.Pencil.Valid.{IsValid}
use pencil_rs.Array.{PencilArray}
use pencil_rs.Array.Access.{IsArray}

abbrev pub head : List ℕ → ℕ
head [] = 0
head (x ∷ xs) = x

abbrev pub process : List ℕ → MpiTopology
process coords = record {
  address = 7;
  coordinates_to_rank = head;
  process_grid = 2 ∷ [];
  local_coords = coords;
}

abbrev pub swapped : AxisPermutation
swapped = record { axes_in_memory_order = 1 ∷ 0 ∷ []; logical_to_memory = 1 ∷ 0 ∷ [] }

abbrev pub straight : AxisPermutation
straight = record { axes_in_memory_order = 0 ∷ 1 ∷ []; logical_to_memory = 0 ∷ 1 ∷ [] }

abbrev pub ranges_of : List ℕ → List Range
ranges_of coords =
    record { start = head coords * 2; end = head coords * 2 + 2 }
    ∷ record { start = 0; end = 3 }
    ∷ []

abbrev pub pencil_of : List ℕ → Pencil
pencil_of coords = record {
  topology = process coords;
  global_shape = 4 ∷ 3 ∷ [];
  decomposition = 0 ∷ [];
  permutation = swapped;
  local_ranges = ranges_of coords;
  local_shape_logical = 2 ∷ 3 ∷ [];
  local_shape_memory = 3 ∷ 2 ∷ [];
  local_len = 6;
  global_len = 12;
}

-- The same distribution with the axes in logical order.
abbrev pub straight_of : List ℕ → Pencil
straight_of coords = record (pencil_of coords) {
  permutation = straight;
  local_shape_memory = 2 ∷ 3 ∷ [];
}

pub IsAxisPermutation-swapped : IsAxisPermutation 2 swapped
IsAxisPermutation-swapped = record {
  perm = record {
    size = refl;
    below = (omega arith, (omega arith, tt));
    distinct = ((omega arith, tt), (tt, tt));
  };
  table_size = refl;
  position = at;
}
  where
    at : (j a : ℕ) → get_elem? (1 ∷ 0 ∷ []) j ≡ some a → get_elem? (1 ∷ 0 ∷ []) a ≡ some j
    at zero a e = let same : 1 ≡ a = cc in rw (← same) refl
    at (suc zero) a e = let same : 0 ≡ a = cc in rw (← same) refl
    at (suc (suc j)) a e = absurd (cc)

pub IsAxisPermutation-straight : IsAxisPermutation 2 straight
IsAxisPermutation-straight = record {
  perm = record {
    size = refl;
    below = (omega arith, (omega arith, tt));
    distinct = ((omega arith, tt), (tt, tt));
  };
  table_size = refl;
  position = at;
}
  where
    at : (j a : ℕ) → get_elem? (0 ∷ 1 ∷ []) j ≡ some a → get_elem? (0 ∷ 1 ∷ []) a ≡ some j
    at zero a e = let same : 0 ≡ a = cc in rw (← same) refl
    at (suc zero) a e = let same : 1 ≡ a = cc in rw (← same) refl
    at (suc (suc j)) a e = absurd (cc)

pub IsTopology-process : (c : ℕ) → c < 2 → IsTopology (process (c ∷ []))
IsTopology-process c h = record {
  positive = (omega arith, tt);
  fits = (omega arith, tt);
  own = (h, tt);
}

pub IsDecomposition-first : IsDecomposition 2 (0 ∷ [])
IsDecomposition-first = record {
  some_axes = omega arith;
  rank = omega arith;
  below = (omega arith, tt);
  distinct = (tt, tt);
}

ranges-eq :
    (c : ℕ)
    → c < 2
    → local_ranges_for (4 ∷ 3 ∷ []) (2 ∷ []) (c ∷ []) (0 ∷ []) ≡ ok (ranges_of (c ∷ []))
unfolding local_ranges_for assign_ranges partition_range pencil_rs.Prelude.put_at full_ranges
    boundary
ranges-eq zero h = refl
ranges-eq (suc zero) h = refl
ranges-eq (suc (suc c)) h = absurd (omega arith)

pub IsValid-pencil : (c : ℕ) → c < 2 → IsValid 2 1 (pencil_of (c ∷ []))
unfolding shape_from_ranges pencil_rs.Axis.permute pencil_rs.Prelude.gather
IsValid-pencil c h = record {
  topology = IsTopology-process c h;
  grid_rank = refl;
  rank = refl;
  positive = (omega arith, (omega arith, tt));
  shape_fits = (omega arith, (omega arith, tt));
  global_count = refl;
  global_fits = omega arith;
  decomposed = IsDecomposition-first;
  decomposition_rank = refl;
  permutation = IsAxisPermutation-swapped;
  ranges = ranges-eq c h;
  logical = ap (λ (k : ℕ). k ∷ 3 ∷ []) (omega arith);
  memory = refl;
  local_count = refl;
  local_bound = omega arith;
}

pub IsValid-straight : (c : ℕ) → c < 2 → IsValid 2 1 (straight_of (c ∷ []))
unfolding shape_from_ranges pencil_rs.Axis.permute pencil_rs.Prelude.gather
IsValid-straight c h = record {
  topology = IsTopology-process c h;
  grid_rank = refl;
  rank = refl;
  positive = (omega arith, (omega arith, tt));
  shape_fits = (omega arith, (omega arith, tt));
  global_count = refl;
  global_fits = omega arith;
  decomposed = IsDecomposition-first;
  decomposition_rank = refl;
  permutation = IsAxisPermutation-straight;
  ranges = ranges-eq c h;
  logical = ap (λ (k : ℕ). k ∷ 3 ∷ []) (omega arith);
  memory = refl;
  local_count = refl;
  local_bound = omega arith;
}

-- Two values at each point of the domain.
abbrev pub pairs : ExtraShape
pairs = record { dimensions = 2 ∷ []; element_count = 2 }

pub IsExtraShape-pairs : IsExtraShape pairs
IsExtraShape-pairs = record { count = refl; fits = omega arith }

abbrev pub array_of : List ℕ → PencilArray ℕ
array_of coords = record {
  pencil = pencil_of coords;
  extra_shape = pairs;
  storage = 10 ∷ 11 ∷ 12 ∷ 13 ∷ 14 ∷ 15 ∷ 20 ∷ 21 ∷ 22 ∷ 23 ∷ 24 ∷ 25 ∷ [];
}

pub array_of-IsArray : (c : ℕ) → c < 2 → IsArray 2 1 (array_of (c ∷ []))
array_of-IsArray c h = record {
  layout = record { pencil = IsValid-pencil c h; extra = IsExtraShape-pairs; fits = omega arith };
  stored = refl;
}
