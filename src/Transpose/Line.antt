-- ===== src/Transpose/Line.antt =====
-- The processes of one line of the grid in a distributed transpose: their arrays in the two layouts, and the
-- schedule of each.
use pencil_rs.Prelude.{ℕ, zero, suc, ◌<◌, ◌≡◌, refl, sym, ap, ◌∙◌, List, [], ◌∷◌, set, ok, All}
use pencil_rs.Geometry.Offset.{Within}
use pencil_rs.Geometry.Partition.{floor_range}
use pencil_rs.Geometry.Ranges.{LocalRanges}
use pencil_rs.ExtraShape.{ExtraShape}
use pencil_rs.Topology.{MpiTopology}
use pencil_rs.Pencil.Valid.{LocalRanges-pencil}
use pencil_rs.Array.{PencilArray}
use pencil_rs.Array.Access.{IsArray}
use pencil_rs.Transpose.Peers.{PeerMetadata, Subcommunicator, build_peer_metadata}
use pencil_rs.Transpose.Slab.{Change, slab, intersect_ranges_comm}
use pencil_rs.Transpose.Sides.{Exchange}
use pencil_rs.Transpose.Build.{AlongAxis, Built, CutAt}
use pencil_rs.Transpose.Schedule.{build_peer_metadata_lem}

set-twice : (xs : List ℕ) (t i c : ℕ) → set (set xs t i) t c ≡ set xs t c
set-twice [] t i c = refl
set-twice (x ∷ xs) zero i c = refl
set-twice (x ∷ xs) (suc t) i c = ap (λ ys. x ∷ ys) (set-twice xs t i c)

-- The processes along one topology axis, with the arrays of each in the two layouts and the peers that
-- each has built. `base` holds their coordinates on the other axes.
pub record Line {ℓ} {T : Type ℓ} (n m : ℕ) (shape grid from to base : List ℕ) (x : ExtraShape)
    (t a b parts e f : ℕ) (sub : Subcommunicator) (source destination : ℕ → PencilArray T)
    (peers : ℕ → List PeerMetadata) : Type ℓ where
  pub change : Change shape grid from to t a parts e
  pub reverse : Change shape grid to from t b parts f
  pub along : AlongAxis sub parts
  pub sources : (c : ℕ) → c < parts → IsArray n m (source c)
  pub destinations : (c : ℕ) → c < parts → IsArray n m (destination c)
  pub shapes : (c : ℕ) → (source c).pencil.global_shape ≡ shape
  pub destination_shapes : (c : ℕ) → (destination c).pencil.global_shape ≡ shape
  pub grids : (c : ℕ) → (source c).pencil.topology.process_grid ≡ grid
  pub places : (c : ℕ) → (source c).pencil.topology.local_coords ≡ set base t c
  pub topologies : (c : ℕ) → (destination c).pencil.topology ≡ (source c).pencil.topology
  pub decompositions : (c : ℕ) → (source c).pencil.decomposition ≡ from
  pub destination_decompositions : (c : ℕ) → (destination c).pencil.decomposition ≡ to
  pub extras : (c : ℕ) → (source c).extra_shape ≡ x
  pub destination_extras : (c : ℕ) → (destination c).extra_shape ≡ x
  pub built :
      (c : ℕ)
      → c < parts
      → build_peer_metadata (source c).pencil (destination c).pencil t sub ≡ ok (peers c)

module _ {ℓ} {T : Type ℓ} {n m : ℕ} {shape grid from to base : List ℕ} {x : ExtraShape}
    {t a b parts e f : ℕ} {sub : Subcommunicator} {source destination : ℕ → PencilArray T}
    {peers : ℕ → List PeerMetadata}
    (l : Line n m shape grid from to base x t a b parts e f sub source destination peers) where
  destination_grid : (c : ℕ) → (destination c).pencil.topology.process_grid ≡ grid
  destination_grid c = ap (λ (top : MpiTopology). top.process_grid) (l.topologies c) ∙ l.grids c

  destination_place : (c : ℕ) → (destination c).pencil.topology.local_coords ≡ set base t c
  destination_place c = ap (λ (top : MpiTopology). top.local_coords) (l.topologies c) ∙ l.places c

  forward : (c : ℕ) → c < parts → Exchange n m (source c).pencil (destination c).pencil t a parts e
  forward c low = record {
    source = (l.sources c low).layout.pencil;
    destination = (l.destinations c low).layout.pencil;
    topology = l.topologies c;
    shape = l.destination_shapes c ∙ sym (l.shapes c);
    change =
        rw (l.shapes c, l.grids c, l.decompositions c, l.destination_decompositions c) l.change;
  }

  backward : (c : ℕ) → c < parts → Exchange n m (destination c).pencil (source c).pencil t b parts f
  backward c low = record {
    source = (l.destinations c low).layout.pencil;
    destination = (l.sources c low).layout.pencil;
    topology = sym (l.topologies c);
    shape = l.shapes c ∙ sym (l.destination_shapes c);
    change =
        rw
          (
            l.destination_shapes c,
            destination_grid c,
            l.decompositions c,
            l.destination_decompositions c,
          )
          l.reverse;
  }

  pub source_ranges :
      (c : ℕ)
      → c < parts
      → LocalRanges shape grid (set base t c) from (source c).pencil.local_ranges
  source_ranges c low =
      rw (l.shapes c, l.grids c, l.places c, l.decompositions c) at
        (LocalRanges-pencil (l.sources c low).layout.pencil)

  pub destination_ranges :
      (c : ℕ)
      → c < parts
      → LocalRanges shape grid (set base t c) to (destination c).pencil.local_ranges
  destination_ranges c low =
      rw
        (
          l.destination_shapes c,
          destination_grid c,
          destination_place c,
          l.destination_decompositions c,
        )
        at (LocalRanges-pencil (l.destinations c low).layout.pencil)

  own_place : (c : ℕ) → c < parts → Within grid (set base t c)
  own_place c low = rw (l.grids c, l.places c) at (l.sources c low).layout.pencil.topology.own

  -- What one process sends to another is what that one expects from it.
  pub matching :
      (i c : ℕ)
      → i < parts
      → c < parts
      → set (source i).pencil.local_ranges a (floor_range e parts c)
        ≡ set (destination c).pencil.local_ranges b (floor_range f parts i)
  matching i c hi hc =
      sym (
        slab l.change (set base t i) c (own_place i hi) hc (source_ranges i hi)
          (rw (set-twice base t i c) (destination_ranges c hc)))
      ∙ intersect_ranges_comm (source i).pencil.local_ranges (destination c).pencil.local_ranges
      ∙ slab l.reverse (set base t c) i (own_place c hc) hi (destination_ranges c hc)
          (rw (set-twice base t c i) (source_ranges i hi))

  -- The peers of a process, and what is known of them.
  pub schedule :
      (c : ℕ)
      → c < parts
      → Built (source c).pencil (destination c).pencil 0 0 0 parts (peers c)
        × All (CutAt (source c).pencil a e (destination c).pencil b f parts 0) (peers c)
  schedule c low =
      let (ps, run, built, cuts) =
        build_peer_metadata_lem (forward c low) (backward c low) l.along in
      let same : ps ≡ peers c = agree ps (peers c) run (l.built c low) in
      (rw same at built, rw same at cuts)
    where
      agree :
          (xs ys : List PeerMetadata)
          → build_peer_metadata (source c).pencil (destination c).pencil t sub ≡ ok xs
          → build_peer_metadata (source c).pencil (destination c).pencil t sub ≡ ok ys
          → xs ≡ ys
      agree xs ys p q = cc
