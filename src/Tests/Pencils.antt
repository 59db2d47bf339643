-- ===== src/Tests/Pencils.antt =====
-- Examples of topologies, pencils and the ranges of their processes.
use pencil_rs.Prelude.{ℕ, ◌<◌, ◌≡◌, ◌⊎◌, refl, List, [], ◌∷◌, arith, All, product, ok, err}
use pencil_rs.Error.{TopologyError}
use pencil_rs.Geometry.{Range, local_ranges_for}
use pencil_rs.Geometry.Offset.{Within}
use pencil_rs.Geometry.Ranges.{LocalRanges, local_ranges_for_lem}
use pencil_rs.Geometry.Cover.{Owns, Shared, local_ranges_cover, Layout_of_Shared}
use pencil_rs.Topology.{rank_at, validate_grid}
use pencil_rs.Topology.Valid.{RankResult, rank_at_lem, validate_grid_lem}
use pencil_rs.Pencil.{new_permuted, ranges_at}
use pencil_rs.Pencil.Construct.{NewResult, Arguments, new_permuted_lem}
use pencil_rs.Pencil.Cover.{ranges_at_cover}
use pencil_rs.Tests.{
  swapped, process, pencil_of, IsAxisPermutation-swapped, IsTopology-process, IsValid-pencil,
}

abbrev first_process : pencil_rs.Topology.MpiTopology
first_process = process (0 ∷ [])

rank_at_example : RankResult first_process (1 ∷ []) (rank_at first_process (1 ∷ []))
rank_at_example = rank_at_lem first_process (1 ∷ []) (IsTopology-process 0 (omega arith)) refl

validate_grid_example :
    All (λ e. 0 < e) (2 ∷ 3 ∷ [])
      × (product (2 ∷ 3 ∷ []) ≡ 6)
      × (validate_grid 6 (2 ∷ 3 ∷ []) ≡ ok (2 ∷ 3 ∷ []))
    ⊎ (¬ (All (λ e. 0 < e) (2 ∷ 3 ∷ []) × (product (2 ∷ 3 ∷ []) ≡ 6)))
      × ((e : TopologyError) × (validate_grid 6 (2 ∷ 3 ∷ []) ≡ err e))
validate_grid_example = validate_grid_lem 6 (2 ∷ 3 ∷ []) (omega arith)

shared : Shared (4 ∷ 3 ∷ []) (2 ∷ []) (0 ∷ [])
shared = record {
  rank = refl;
  below = (omega arith, tt);
  distinct = (tt, tt);
  shape_fits = (omega arith, (omega arith, tt));
  grid_fits = (omega arith, tt);
  positive = (omega arith, tt);
}

local_ranges_for_example :
    (ranges : List Range) × (local_ranges_for (4 ∷ 3 ∷ []) (2 ∷ []) (1 ∷ []) (0 ∷ []) ≡ ok ranges)
    × LocalRanges (4 ∷ 3 ∷ []) (2 ∷ []) (1 ∷ []) (0 ∷ []) ranges
local_ranges_for_example =
    local_ranges_for_lem (4 ∷ 3 ∷ []) (2 ∷ []) (1 ∷ []) (0 ∷ [])
      (Layout_of_Shared (1 ∷ []) shared (omega arith, tt))

local_ranges_cover_example :
    (coords : List ℕ) × Within (2 ∷ []) coords
    × ((ranges : List Range) × (local_ranges_for (4 ∷ 3 ∷ []) (2 ∷ []) coords (0 ∷ []) ≡ ok ranges)
        × Owns ranges (3 ∷ 1 ∷ []))
    × ((other : List ℕ) (ranges : List Range)
        → Within (2 ∷ []) other
        → local_ranges_for (4 ∷ 3 ∷ []) (2 ∷ []) other (0 ∷ []) ≡ ok ranges
        → Owns ranges (3 ∷ 1 ∷ [])
        → other ≡ coords)
local_ranges_cover_example = local_ranges_cover (3 ∷ 1 ∷ []) shared (omega arith, (omega arith, tt))

abbrev first_pencil : pencil_rs.Pencil.Pencil
first_pencil = pencil_of (0 ∷ [])

ranges_at_cover_example :
    (coords : List ℕ) × Within (2 ∷ []) coords
    × ((ranges : List Range) × (ranges_at first_pencil coords ≡ ok ranges)
        × Owns ranges (3 ∷ 1 ∷ []))
    × ((other : List ℕ) (ranges : List Range)
        → Within (2 ∷ []) other
        → ranges_at first_pencil other ≡ ok ranges
        → Owns ranges (3 ∷ 1 ∷ [])
        → other ≡ coords)
ranges_at_cover_example =
    ranges_at_cover (IsValid-pencil 0 (omega arith)) (3 ∷ 1 ∷ []) (omega arith, (omega arith, tt))

arguments : Arguments 2 1 first_process (4 ∷ 3 ∷ []) (0 ∷ []) swapped
arguments = record {
  topology = IsTopology-process 0 (omega arith);
  grid_rank = refl;
  rank = refl;
  shape_fits = (omega arith, (omega arith, tt));
  decomposition_rank = refl;
  permuted = IsAxisPermutation-swapped;
}

new_permuted_example :
    NewResult 2 1 first_process
      (4 ∷ 3 ∷ [])
      (0 ∷ [])
      swapped
      (new_permuted 2 1 first_process (4 ∷ 3 ∷ []) (0 ∷ []) swapped)
new_permuted_example = new_permuted_lem arguments
