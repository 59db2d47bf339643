-- ===== src/Transpose/Described.antt =====
-- What the equality of the descriptors (`build_plan_descriptor`) of two ranks tells.
use pencil_rs.Prelude.{
  ℕ, ◌+◌, ◌*◌, ◌≤◌, ◌≡◌, refl, sym, ◌∙◌, ◌↔◌, List, [], ◌∷◌, ◌++◌, some, arith, length, ==-eq_refl,
  length-append,
}
use pencil_rs.Word.{usize_max, checked_add-some, checked_mul-some}
use pencil_rs.Pencil.{Pencil}
use pencil_rs.Pencil.Valid.{IsValid}
use pencil_rs.Transpose.Descriptor.{
  plan_descriptor_len, plan_words, pencil_values, changed_axis_sentinel, build_plan_descriptor,
}

-- Two pencils of one grid, global shape, decomposition and memory order.
pub record SameLayout (p q : Pencil) : Type 0 where
  pub grid : p.topology.process_grid ≡ q.topology.process_grid
  pub shape : p.global_shape ≡ q.global_shape
  pub decomposition : p.decomposition ≡ q.decomposition
  pub order : p.permutation.axes_in_memory_order ≡ q.permutation.axes_in_memory_order

tail_eq : {x y : ℕ} {xs ys : List ℕ} → x ∷ xs ≡ y ∷ ys → xs ≡ ys
tail_eq e = cc

head_eq : {x y : ℕ} {xs ys : List ℕ} → x ∷ xs ≡ y ∷ ys → x ≡ y
head_eq e = cc

append_injective :
    (xs us ys vs : List ℕ) → length xs ≡ length us → xs ++ ys ≡ us ++ vs → (xs ≡ us) × (ys ≡ vs)
append_injective [] [] ys vs len e = (refl, e)
append_injective [] (u ∷ us) ys vs len e = absurd (omega arith)
append_injective (x ∷ xs) [] ys vs len e = absurd (omega arith)
append_injective (x ∷ xs) (u ∷ us) ys vs len e =
    let (rest, after) = append_injective xs us ys vs (omega arith) (tail_eq e) in
    (rw (head_eq e, rest) refl, after)

length-pencil_values : {n m : ℕ} (p : Pencil) → IsValid n m p → length (pencil_values p) ≡ n + m + n
unfolding pencil_values
length-pencil_values p v = omega (
  arith,
  length-append p.global_shape (p.decomposition ++ p.permutation.axes_in_memory_order),
  length-append p.decomposition p.permutation.axes_in_memory_order,
  v.rank,
  v.decomposition_rank,
  v.permutation.perm.size,
)

pencil_values_injective :
    {n m : ℕ} (p q : Pencil)
    → IsValid n m p
    → IsValid n m q
    → p.topology.process_grid ≡ q.topology.process_grid
    → pencil_values p ≡ pencil_values q
    → SameLayout p q
unfolding pencil_values
pencil_values_injective p q v w grid e =
    let (shape, rest) =
      append_injective p.global_shape q.global_shape
        (p.decomposition ++ p.permutation.axes_in_memory_order)
        (q.decomposition ++ q.permutation.axes_in_memory_order) (v.rank ∙ sym w.rank) e in
    let (decomposition, order) =
      append_injective p.decomposition q.decomposition p.permutation.axes_in_memory_order
        q.permutation.axes_in_memory_order (v.decomposition_rank ∙ sym w.decomposition_rank) rest in
    record { grid = grid; shape = shape; decomposition = decomposition; order = order }

same_words :
    (n m : ℕ) (p q r s : Pencil) (operation other : ℕ)
    → (operation ≡ other) × (SameLayout p r × SameLayout q s)
    → plan_words n m p q operation ≡ plan_words n m r s other
unfolding plan_words pencil_values changed_axis_sentinel
same_words n m p q r s operation other (op, (a, b)) =
    rw (op, a.grid, b.grid, a.shape, b.shape, a.decomposition, b.decomposition, a.order, b.order)
      refl

module _ {n m : ℕ} (small : 5 + m * 4 + n * 4 ≤ usize_max) where
  length-plan_words :
      (p q : Pencil) (operation : ℕ)
      → IsValid n m p
      → IsValid n m q
      → length (plan_words n m p q operation) ≡ 5 + m * 4 + n * 4
  unfolding plan_words
  length-plan_words p q operation v w = omega (
    arith,
    length-append p.topology.process_grid
        (q.topology.process_grid ++ (pencil_values p ++ pencil_values q)),
    length-append q.topology.process_grid (pencil_values p ++ pencil_values q),
    length-append (pencil_values p) (pencil_values q),
    length-pencil_values p v,
    length-pencil_values q w,
    v.grid_rank,
    w.grid_rank,
  )

  build_plan_descriptor-some :
      (p q : Pencil) (operation : ℕ)
      → IsValid n m p
      → IsValid n m q
      → build_plan_descriptor n m p q operation ≡ some (plan_words n m p q operation)
  unfolding build_plan_descriptor plan_descriptor_len
  build_plan_descriptor-some p q operation v w =
      let a = checked_mul-some m 4 (omega arith) in
      let b = checked_mul-some n 4 (omega arith) in
      let c = checked_add-some 5 (m * 4) (omega arith) in
      let d = checked_add-some (5 + m * 4) (n * 4) small in
      let size = length-plan_words p q operation v w in
      rw (a, b, c, d, size, ==-eq_refl (5 + m * 4 + n * 4)) refl

  same_layouts :
      (p q r s : Pencil) (operation other : ℕ)
      → IsValid n m p
      → IsValid n m q
      → IsValid n m r
      → IsValid n m s
      → plan_words n m p q operation ≡ plan_words n m r s other
      → (operation ≡ other) × (SameLayout p r × SameLayout q s)
  unfolding plan_words
  same_layouts p q r s operation other v w x y e =
      let words = tail_eq e in
      let (source_grid, after) =
        append_injective p.topology.process_grid r.topology.process_grid
          (q.topology.process_grid ++ (pencil_values p ++ pencil_values q))
          (s.topology.process_grid ++ (pencil_values r ++ pencil_values s))
          (v.grid_rank ∙ sym x.grid_rank) (tail_eq (tail_eq (tail_eq (tail_eq words)))) in
      let (destination_grid, values) =
        append_injective q.topology.process_grid s.topology.process_grid
          (pencil_values p ++ pencil_values q) (pencil_values r ++ pencil_values s)
          (w.grid_rank ∙ sym y.grid_rank) after in
      let (source, destination) =
        append_injective (pencil_values p) (pencil_values r) (pencil_values q) (pencil_values s)
          (length-pencil_values p v ∙ sym (length-pencil_values r x)) values in
      (
        head_eq words,
        (
          pencil_values_injective p r v x source_grid source,
          pencil_values_injective q s w y destination_grid destination,
        ),
      )

  -- For two ranks whose plans have well-formed pencils, with dimensions whose descriptor length fits
  -- usize: `build_plan_descriptor` succeeds on both, and the two descriptors are equal exactly when
  -- the operations are equal and the source pencils as well as the destination pencils have the same
  -- process grid, global shape, decomposition and memory order.
  pub build_plan_descriptor_lem :
      (p q r s : Pencil) (operation other : ℕ)
      → IsValid n m p
      → IsValid n m q
      → IsValid n m r
      → IsValid n m s
      → (mine : List ℕ) × (theirs : List ℕ) × (build_plan_descriptor n m p q operation ≡ some mine)
        × (build_plan_descriptor n m r s other ≡ some theirs)
        × ((mine ≡ theirs) ↔ ((operation ≡ other) × (SameLayout p r × SameLayout q s)))
  build_plan_descriptor_lem p q r s operation other v w x y = (
    plan_words n m p q operation,
    plan_words n m r s other,
    build_plan_descriptor-some p q operation v w,
    build_plan_descriptor-some r s other x y,
    (same_layouts p q r s operation other v w x y, same_words n m p q r s operation other),
  )
