-- ===== src/Tests/Arrays.antt =====
-- Examples of local offsets and of access by local and global indices.
use pencil_rs.Prelude.{ℕ, ◌<◌, ◌≡◌, ◌≢◌, ◌⊎◌, refl, List, [], ◌∷◌, some, none, arith, gather, ok}
use pencil_rs.Axis.{permute}
use pencil_rs.Geometry.{row_major_offset, offset_from}
use pencil_rs.Word.{checked_mul, checked_add}
use pencil_rs.Geometry.Offset.{Within}
use pencil_rs.Geometry.Cover.{Owns}
use pencil_rs.Pencil.{Pencil}
use pencil_rs.Array.{PencilArray, local_offset, memory_shape, get_global}
use pencil_rs.Array.Cells.{
  Layout, cell, local_offset_lem, local_offset_injective, local_offset_onto,
}
use pencil_rs.Array.Access.{IsArray, IsDistributed, get_global_lem, get_global_unique}
use pencil_rs.Tests.{pencil_of, pairs, array_of, array_of-IsArray}

abbrev first_pencil : Pencil
first_pencil = pencil_of (0 ∷ [])

layout : Layout 2 1 first_pencil pairs
layout = (array_of-IsArray 0 (omega arith)).layout

local_offset_example :
    (sp : List ℕ) × (permute first_pencil.permutation (1 ∷ 2 ∷ []) ≡ some sp)
    × Within (3 ∷ 2 ∷ []) sp
    × (local_offset first_pencil pairs (1 ∷ []) (1 ∷ 2 ∷ [])
        ≡ ok (cell first_pencil pairs (1 ∷ []) sp))
    × (cell first_pencil pairs (1 ∷ []) sp < 12)
local_offset_example =
    local_offset_lem layout (1 ∷ []) (1 ∷ 2 ∷ []) (omega arith, tt) (omega arith, (omega arith, tt))

at_eleven : local_offset first_pencil pairs (1 ∷ []) (1 ∷ 2 ∷ []) ≡ ok 11
unfolding local_offset memory_shape gather row_major_offset offset_from checked_mul checked_add
at_eleven = refl

abbrev one : List ℕ
one = 1 ∷ []

abbrev corner : List ℕ
corner = 1 ∷ 2 ∷ []

local_offset_injective_example : (one ≡ one) × (corner ≡ corner)
local_offset_injective_example =
    local_offset_injective layout (1 ∷ []) (1 ∷ 2 ∷ []) (1 ∷ []) (1 ∷ 2 ∷ []) (omega arith, tt)
      (omega arith, (omega arith, tt)) (omega arith, tt) (omega arith, (omega arith, tt)) at_eleven
      at_eleven

local_offset_onto_example :
    (ei si : List ℕ) × Within (2 ∷ []) ei
    × Within (2 ∷ 3 ∷ []) si
    × (local_offset first_pencil pairs ei si ≡ ok 7)
local_offset_onto_example = local_offset_onto layout 7 (omega arith)

abbrev first_array : PencilArray ℕ
first_array = array_of (0 ∷ [])

get_global_example :
    Owns first_pencil.local_ranges (3 ∷ 1 ∷ [])
      × ((t : ℕ) × (get_global first_array (1 ∷ []) (3 ∷ 1 ∷ []) ≡ some (some t)))
    ⊎ (¬ Owns first_pencil.local_ranges (3 ∷ 1 ∷ []))
      × (get_global first_array (1 ∷ []) (3 ∷ 1 ∷ []) ≡ some none)
get_global_example =
    get_global_lem (1 ∷ []) (3 ∷ 1 ∷ []) (array_of-IsArray 0 (omega arith)) (omega arith, tt) refl

arrays_valid : (coords : List ℕ) → Within (2 ∷ []) coords → IsArray 2 1 (array_of coords)
arrays_valid [] w = absurd w
arrays_valid (c ∷ []) w = array_of-IsArray c w.0
arrays_valid (c ∷ d ∷ coords) w = absurd (w.1)

distributed : IsDistributed 2 1 (4 ∷ 3 ∷ []) (2 ∷ []) (0 ∷ []) (2 ∷ []) array_of
distributed = record {
  arrays = arrays_valid;
  grids = λ coords. refl;
  places = λ coords. refl;
  shapes = λ coords. refl;
  decompositions = λ coords. refl;
  extras = λ coords. refl;
  some_process = (0 ∷ [], (omega arith, tt));
}

get_global_unique_example :
    (owner : List ℕ) × Within (2 ∷ []) owner
    × ((t : ℕ) × (get_global (array_of owner) (1 ∷ []) (3 ∷ 1 ∷ []) ≡ some (some t)))
    × ((other : List ℕ)
        → Within (2 ∷ []) other
        → other ≢ owner
        → get_global (array_of other) (1 ∷ []) (3 ∷ 1 ∷ []) ≡ some none)
get_global_unique_example =
    get_global_unique (1 ∷ []) (3 ∷ 1 ∷ []) distributed (omega arith, tt)
      (omega arith, (omega arith, tt))
