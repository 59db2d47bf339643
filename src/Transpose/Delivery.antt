-- ===== src/Transpose/Delivery.antt =====
-- A distributed transpose from the packed buffers to the elements of the destination: `pack_source`,
-- `MPI_Alltoallv` as it is documented, `unpack_destination`.
use pencil_rs.Prelude.{
  ℕ, ◌+◌, ◌*◌, ◌<◌, ◌≤◌, ◌≡◌, sym, ap, ◌∙◌, List, [], Option, none, some, arith, length, get_elem?,
  product, All, All-get_elem?,
}
use native.Mathlib.Nat.{mul_comm}
use pencil_rs.Word.{usize_max}
use pencil_rs.Geometry.{Range, shape_from_ranges}
use pencil_rs.Geometry.Offset.{Within, ravel, ravel-lt-product}
use pencil_rs.Geometry.Cover.{Owns}
use pencil_rs.ExtraShape.{ExtraShape}
use pencil_rs.Array.{PencilArray, get_global}
use pencil_rs.Array.Access.{IsArray}
use pencil_rs.Transpose.Measure.{Inside}
use pencil_rs.Transpose.Region.{Stands}
use pencil_rs.Transpose.Peers.{PeerMetadata, Subcommunicator}
use pencil_rs.Transpose.Pack.{pack_source, unpack_destination}
use pencil_rs.Transpose.PackAll.{SendSide, PeerPacked, pack_source_lem}
use pencil_rs.Transpose.Unpacked.{globals}
use pencil_rs.Transpose.UnpackAll.{ReceiveSide, PeerUnpacked, unpack_destination_lem}
use pencil_rs.Transpose.Line.{Line, matching, schedule}
use pencil_rs.Transpose.Reads.{get_global-Stands, globals_onto}
use pencil_rs.Transpose.Senders.{peer_for, sender, segment_index}

-- What MPI documents of `MPI_Alltoallv` for one receiver: the segment that each process has for it
-- arrives in its segment for this process. Counts and displacements are those of the peers, times the
-- number of extra elements.
abbrev pub Delivers {ℓ} :
    {T : Type ℓ}
    → (parts k : ℕ) → (ℕ → List PeerMetadata)
    → (ℕ → List T)
    → (c : ℕ) → List T
    → Type ℓ
Delivers parts k peers sent c received =
    (i : ℕ) (s r : PeerMetadata) (j : ℕ)
    → i < parts
    → get_elem? (peers i) c ≡ some s
    → get_elem? (peers c) i ≡ some r
    → j < s.send_spatial_len * k
    → get_elem? received (r.receive_spatial_displacement * k + j)
      ≡ get_elem? (sent i) (s.send_spatial_displacement * k + j)

-- The array with another storage.
abbrev pub with_storage {ℓ} : {T : Type ℓ} → PencilArray T → List T → PencilArray T
with_storage a storage = record {
  pencil = a.pencil;
  extra_shape = a.extra_shape;
  storage = storage;
}

abbrev pub or_empty {ℓ} : {T : Type ℓ} → Option (List T) → List T
or_empty none = []
or_empty (some out) = out

-- The send buffer of a process after `pack_source`, and no buffer where that panics.
abbrev pub sent_by {ℓ} :
    {T : Type ℓ} → (ℕ → PencilArray T) → (ℕ → List PeerMetadata) → (ℕ → List T) → ℕ → ℕ → List T
sent_by source peers buffers k i =
    or_empty (
      pack_source (peers i) (source i).pencil (source i).storage (buffers i) (length (buffers i)) k)

-- A global read of an element of a region, for an array whose extra shape is a given one.
read_at {ℓ} :
    {T : Type ℓ} {n m : ℕ} (a : PencilArray T) (x : ExtraShape) (region : List Range)
    (ei is : List ℕ) (offset : ℕ)
    → a.extra_shape ≡ x
    → IsArray n m a
    → Inside a.pencil.local_ranges region
    → Within x.dimensions ei
    → Within (shape_from_ranges region) is
    → Stands a.pencil region is offset
    → get_global a ei (globals region is)
      ≡ some (get_elem? a.storage (ravel x.dimensions ei * a.pencil.local_len + offset))
read_at a x region ei is offset extra v inside we w st =
    get_global-Stands a region ei is offset v inside (rw extra we) w st
    ∙ ap
        (λ (z : ExtraShape).
          some (get_elem? a.storage (ravel z.dimensions ei * a.pencil.local_len + offset)))
        extra

module _ {ℓ} {T : Type ℓ} {n m : ℕ} {shape grid from to base : List ℕ} {x : ExtraShape}
    {t a b parts e f : ℕ} {sub : Subcommunicator} {source destination : ℕ → PencilArray T}
    {peers : ℕ → List PeerMetadata}
    (l : Line n m shape grid from to base x t a b parts e f sub source destination peers) where
  module _ (pos : 0 < x.element_count) (buffers : ℕ → List T)
      (sizes : (i : ℕ)
        → i < parts
        → length (buffers i) ≡ (source i).pencil.local_len * x.element_count) where
    abbrev sent : ℕ → List T
    sent = sent_by source peers buffers x.element_count

    packs :
        (i : ℕ)
        → i < parts
        → (pack_source
              (peers i)
              (source i).pencil
              (source i).storage
              (buffers i)
              (length (buffers i))
              x.element_count
            ≡ some (sent i))
          × All (PeerPacked (source i).pencil (source i).storage (sent i) x.element_count) (peers i)
    packs i hi =
        let array = l.sources i hi in
        let (built, cuts) = schedule l i hi in
        let fits : x.element_count * (source i).pencil.local_len ≤ usize_max =
          rw (l.extras i) at array.layout.fits in
        let (out, run, size, packed) =
          pack_source_lem array.layout.pencil (source i).storage x.element_count
            (source i).pencil.local_len pos (rw (l.extras i) at array.stored) fits
            (omega (arith, mul_comm x.element_count (source i).pencil.local_len)) (peers i)
            (buffers i) built.send_sides built.send_segments (sizes i hi) in
        let same : sent i ≡ out = ap or_empty run in (run ∙ ap some (sym same), rw same packed)

    -- One element, read back on the receiver.
    delivered :
        (c : ℕ) (received out : List T) (ei gi : List ℕ)
        → (hc : c < parts) → Delivers parts x.element_count peers sent c received
        → IsArray n m (with_storage (destination c) out)
        → All (PeerUnpacked (destination c).pencil received out x.element_count) (peers c)
        → Within x.dimensions ei
        → Owns (destination c).pencil.local_ranges gi
        → (i : ℕ) × (i < parts)
          × Owns (source i).pencil.local_ranges gi
          × (get_global (with_storage (destination c) out) ei gi ≡ get_global (source i) ei gi)
    delivered c received out ei gi hc net array unpacked we own =
        let (i, hi, cut, mine) = sender l c gi hc own in
        let (r, r_at, _, r_cut) = peer_for l c i hc hi in
        let (s, s_at, s_cut, _) = peer_for l i c hi hc in
        let same : s.send_region ≡ r.receive_region = s_cut ∙ matching l i c hi hc ∙ sym r_cut in
        let (is, w, whole) = globals_onto r.receive_region gi (rw r_cut cut) in
        let sent_w : Within (shape_from_ranges s.send_region) is = rw same w in
        let count : product x.dimensions ≡ x.element_count =
          sym (rw (l.extras i) at (l.sources i hi).layout.extra.count) in
        let block = ravel x.dimensions ei in
        let low : block < x.element_count =
          omega (arith, count, ravel-lt-product x.dimensions ei we) in
        let r_side =
          All-get_elem? (ReceiveSide (destination c).pencil) (peers c) i
            (schedule l c hc).0.receive_sides r_at in
        let s_side =
          All-get_elem? (SendSide (source i).pencil) (peers i) c (schedule l i hi).0.send_sides
            s_at in
        let (at, stands, moved) =
          All-get_elem? (PeerUnpacked (destination c).pencil received out x.element_count) (peers c)
            i unpacked r_at block is low w in
        let (from_at, from_stands, packed) =
          All-get_elem? (PeerPacked (source i).pencil (source i).storage (sent i) x.element_count)
            (peers i) c (packs i hi).1 s_at block is low sent_w in
        let read =
          read_at (with_storage (destination c) out) x r.receive_region ei is at
            (l.destination_extras c) array
            (r_side.inside (
              omega
                (arith, r_side.size, ravel-lt-product (shape_from_ranges r.receive_region) is w)))
            we w stands in
        let from_read =
          read_at (source i) x s.send_region ei is from_at (l.extras i) (l.sources i hi)
            (s_side.inside (
              omega
                (arith, s_side.size, ravel-lt-product (shape_from_ranges s.send_region) is sent_w)))
            we sent_w from_stands in
        let len : s.send_spatial_len ≡ r.receive_spatial_len =
          s_side.size
          ∙ ap (λ (z : List Range). product (shape_from_ranges z)) same
          ∙ sym r_side.size in
        let arrives =
          net i s r (block * s.send_spatial_len + ravel (shape_from_ranges s.send_region) is) hi
            s_at r_at
            (segment_index l s.send_region s.send_spatial_len ei is s_side.size count we sent_w) in
        let rank : ravel (shape_from_ranges s.send_region) is
            ≡ ravel (shape_from_ranges r.receive_region) is =
          ap (λ (z : List Range). ravel (shape_from_ranges z) is) same in
        let blocks : block * s.send_spatial_len ≡ block * r.receive_spatial_len =
          ap (λ (z : ℕ). block * z) len in
        let there : r.receive_spatial_displacement * x.element_count
              + block * r.receive_spatial_len
              + ravel (shape_from_ranges r.receive_region) is
            ≡ r.receive_spatial_displacement * x.element_count
              + (block * s.send_spatial_len + ravel (shape_from_ranges s.send_region) is) =
          omega (arith, rank, blocks) in
        let here : s.send_spatial_displacement * x.element_count
              + (block * s.send_spatial_len + ravel (shape_from_ranges s.send_region) is)
            ≡ s.send_spatial_displacement * x.element_count
              + block * s.send_spatial_len
              + ravel (shape_from_ranges s.send_region) is =
          omega arith in
        let tuple : globals s.send_region is ≡ gi =
          ap (λ (z : List Range). globals z is) same ∙ whole in
        (
          i,
          hi,
          mine,
          ap (get_global (with_storage (destination c) out) ei) (sym whole)
              ∙ read
              ∙ ap some (
                  moved
                  ∙ ap (get_elem? received) there
                  ∙ arrives
                  ∙ ap (get_elem? (sent i)) here
                  ∙ packed)
              ∙ sym from_read
              ∙ ap (get_global (source i) ei) tuple,
        )

    -- For the processes of one line of the grid, which change the decomposition of a well-formed array
    -- at one topology axis, with at least one extra element, send buffers of the source's local length
    -- and a receive buffer of the destination's local length, each times the number of extra elements,
    -- and an exchange that delivers as `MPI_Alltoallv` is documented: `pack_source` succeeds on every
    -- process; `unpack_destination` succeeds on the receiver and leaves a well-formed destination
    -- array; and each element of a global index that the receiver owns in the destination layout reads
    -- the same there as on the process of the line that owns it in the source layout.
    pub distributed_transpose_lem :
        (c : ℕ) (received : List T)
        → c < parts
        → length received ≡ (destination c).pencil.local_len * x.element_count
        → Delivers parts x.element_count peers sent c received
        → ((i : ℕ)
            → i < parts
            → pack_source
                (peers i)
                (source i).pencil
                (source i).storage
                (buffers i)
                (length (buffers i))
                x.element_count
              ≡ some (sent i))
          × (out : List T) × (unpack_destination
                (peers c)
                (destination c).pencil
                (destination c).storage
                received
                x.element_count
              ≡ some out)
          × IsArray n m (with_storage (destination c) out)
          × ((ei gi : List ℕ)
              → Within x.dimensions ei
              → Owns (destination c).pencil.local_ranges gi
              → (i : ℕ) × (i < parts)
                × Owns (source i).pencil.local_ranges gi
                × (get_global (with_storage (destination c) out) ei gi
                    ≡ get_global (source i) ei gi))
    distributed_transpose_lem c received hc held net =
        let array = l.destinations c hc in
        let built = (schedule l c hc).0 in
        let stored : length (destination c).storage
            ≡ x.element_count * (destination c).pencil.local_len =
          rw (l.destination_extras c) at array.stored in
        let fits : x.element_count * (destination c).pencil.local_len ≤ usize_max =
          rw (l.destination_extras c) at array.layout.fits in
        let (out, run, size, unpacked, _) =
          unpack_destination_lem array.layout.pencil received x.element_count
            (destination c).pencil.local_len pos fits held
            (omega (arith, mul_comm x.element_count (destination c).pencil.local_len)) (peers c)
            (destination c).storage built.receive_sides built.receive_segments built.disjoint
            stored in
        let after : IsArray n m (with_storage (destination c) out) = record {
          layout = array.layout;
          stored = size ∙ array.stored;
        } in
        (
          λ i hi. (packs i hi).0,
          out,
          run,
          after,
          λ ei gi we own. delivered c received out ei gi hc net after unpacked we own,
        )
