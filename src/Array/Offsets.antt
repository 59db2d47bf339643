-- ===== src/Array/Offsets.antt =====
-- Where an element is stored: local offsets are a bijection onto the storage.
use pencil_rs.Prelude.{
  ℕ, suc, ◌<◌, ◌≡◌, refl, sym, ap, ◌∙◌, List, [], ◌∷◌, some, arith, length, get_elem?, Gathered,
  and_then, get_elem?-some, lt_of_get_elem?,
}
use pencil_rs.Axis.{permute, unpermute}
use pencil_rs.Axis.RoundTrip.{
  unpermute-permute, permute-unpermute, permute-Gathered, unpermute-Gathered,
}
use pencil_rs.Geometry.Offset.{Within, length-Within, get_elem?-Within}
use pencil_rs.Pencil.{Pencil}
use pencil_rs.Pencil.Valid.{IsValid, length-local_shape_logical}

-- Pointwise bounds are a tuple within a shape.
Within-of_get_elem? :
    (shape is : List ℕ)
    → length shape ≡ length is
    → ((k e i : ℕ) → get_elem? shape k ≡ some e → get_elem? is k ≡ some i → i < e)
    → Within shape is
Within-of_get_elem? [] [] len h = tt
Within-of_get_elem? [] (i ∷ is) len h = absurd (omega arith)
Within-of_get_elem? (e ∷ shape) [] len h = absurd (omega arith)
Within-of_get_elem? (e ∷ shape) (i ∷ is) len h =
    (h 0 e i refl refl, Within-of_get_elem? shape is (omega arith) (λ k. h (suc k)))

-- Reading a shape and a tuple within it in one order gives a tuple within a shape.
pub gather-Within :
    (shape is axes : List ℕ) {s t : List ℕ}
    → Within shape is
    → Gathered shape axes s
    → Gathered is axes t
    → Within s t
gather-Within shape is axes {s} {t} w g h =
    Within-of_get_elem? s t (g.same_length ∙ sym h.same_length) λ k e i pe pi.
      let (a, pa) = get_elem?-some axes k (omega (arith, lt_of_get_elem? s k pe, g.same_length)) in
      let q : get_elem? shape a ≡ some e =
        sym (ap (λ o. and_then o (get_elem? shape)) pa) ∙ sym (g.pointwise k) ∙ pe in
      let r : get_elem? is a ≡ some i =
        sym (ap (λ o. and_then o (get_elem? is)) pa) ∙ sym (h.pointwise k) ∙ pi in
      get_elem?-Within shape is a e i w q r

-- A permuted tuple: within the memory shape, and taken back by `unpermute`.
pub record Permuted (p : Pencil) (si sp : List ℕ) : Type 0 where
  pub forward : permute p.permutation si ≡ some sp
  pub backward : unpermute p.permutation sp ≡ some si
  pub within : Within p.local_shape_memory sp

module _ {n m : ℕ} {p : Pencil} (v : IsValid n m p) where
  rank_of_Within : (si : List ℕ) → Within p.local_shape_logical si → length si ≡ n
  rank_of_Within si w =
      sym (length-Within p.local_shape_logical si w) ∙ length-local_shape_logical v

  pub permute-Within :
      (si : List ℕ) → Within p.local_shape_logical si → (sp : List ℕ) × Permuted p si sp
  unfolding permute
  permute-Within si w =
      let (sp, reads, len, back) = unpermute-permute v.permutation si (rank_of_Within si w) in
      let (ys, g) =
        permute-Gathered v.permutation p.local_shape_logical (length-local_shape_logical v) in
      let (zs, h) = permute-Gathered v.permutation si (rank_of_Within si w) in
      let memory : ys ≡ p.local_shape_memory = cc (v.memory, g.reads) in
      let same : zs ≡ sp = cc (h.reads) in
      (
        sp,
        record {
          forward = reads;
          backward = back;
          within =
              rw (memory, same) at
                (gather-Within p.local_shape_logical si p.permutation.axes_in_memory_order w g h);
        },
      )

  pub unpermute-Within :
      (sp : List ℕ)
      → Within p.local_shape_memory sp
      → (si : List ℕ) × Within p.local_shape_logical si × Permuted p si sp
  unfolding permute unpermute
  unpermute-Within sp w =
      let (mem, reads, mem_len, back) =
        unpermute-permute v.permutation p.local_shape_logical (length-local_shape_logical v) in
      let memory : mem ≡ p.local_shape_memory = cc (v.memory) in
      let size : length p.local_shape_memory ≡ n = rw memory at mem_len in
      let sp_len : length sp ≡ n = sym (length-Within p.local_shape_memory sp w) ∙ size in
      let (si, undo, si_len, redo) = permute-unpermute v.permutation sp sp_len in
      let (ys, g) = unpermute-Gathered v.permutation p.local_shape_memory size in
      let (zs, h) = unpermute-Gathered v.permutation sp sp_len in
      let logical : ys ≡ p.local_shape_logical = cc (rw memory at back, g.reads) in
      let same : zs ≡ si = cc (h.reads) in
      (
        si,
        rw (logical, same) at
            (gather-Within p.local_shape_memory sp p.permutation.logical_to_memory w g h),
        record { forward = redo; backward = undo; within = w },
      )
