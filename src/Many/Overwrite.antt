-- ===== src/Many/Overwrite.antt =====
-- What `overwrite_with` leaves on each of its paths, and what stays readable.
use pencil_rs.Prelude.{
  ℕ, ◌+◌, ◌<◌, ◌≡◌, refl, sym, ap, ◌∙◌, ◌⊎◌, inl, inr, List, ◌++◌, true, false, some, length,
  get_elem?, All, Outcome, ok, err, panic, lt→leb_false, length-append, get_elem?-some,
  lt_of_get_elem?,
}
use pencil_rs.Error.{ArrayError}
use pencil_rs.Pencil.{Pencil, same_layout}
use pencil_rs.Array.{PencilArray}
use pencil_rs.Array.Access.{IsArray}
use pencil_rs.Many.{
  ManyPencilArray, LayoutState, OverwriteError, Ending, active_index, active_view, begin_write,
  commit, finish_write, overwrite_with,
}
use pencil_rs.Many.Transitions.{IsMany, find_layout_lem, view_of, view_at_lem}

module _ {ℓ} {T : Type ℓ} {n m : ℕ} {a : ManyPencilArray T} (v : IsMany n m a) where
  -- For a well-formed buffer: `active_view` is an array in the active layout over a prefix of the
  -- storage when there is an active layout, and the error Poisoned when there is none.
  pub active_view_lem :
      ((i : ℕ) × (p : Pencil) × (front : List T) × (back : List T) × (a.state ≡ LayoutState.valid i)
        × (get_elem? a.pencils i ≡ some p)
        × (front ++ back ≡ a.storage)
        × (active_view a ≡ ok (view_of v p front))
        × IsArray n m (view_of v p front))
      ⊎ (a.state ≡ LayoutState.poisoned) × (active_view a ≡ err ArrayError.poisoned)
  unfolding active_view active_index
  active_view_lem = go a.state refl
    where
      go :
          (s : LayoutState)
          → a.state ≡ s
          → ((i : ℕ) × (p : Pencil) × (front : List T) × (back : List T) × (a.state
                ≡ LayoutState.valid i)
              × (get_elem? a.pencils i ≡ some p)
              × (front ++ back ≡ a.storage)
              × (active_view a ≡ ok (view_of v p front))
              × IsArray n m (view_of v p front))
            ⊎ (a.state ≡ LayoutState.poisoned) × (active_view a ≡ err ArrayError.poisoned)
      go LayoutState.poisoned e = inr (e, rw e refl)
      go (LayoutState.valid i) e =
          let low = v.active i e in
          let (p, found) = get_elem?-some a.pencils i low in
          let (front, back, run, whole, _, array) = view_at_lem v i p found in
          inl (i, p, front, back, e, found, whole, rw (e, lt→leb_false i _ low, run) refl, array)

module _ {κ} {E : Type κ} where
  -- What the end of the closure makes of the call and of the state.
  abbrev pub result_of : Ending E → Outcome (OverwriteError E) (Unit {0})
  result_of Ending.finished = ok tt
  result_of (Ending.failed e) = err (OverwriteError.writer e)
  result_of Ending.unwound = panic

  abbrev pub state_of : Ending E → ℕ → LayoutState
  state_of Ending.finished index = LayoutState.valid index
  state_of (Ending.failed e) index = LayoutState.poisoned
  state_of Ending.unwound index = LayoutState.poisoned

module _ {ℓ κ} {T : Type ℓ} {E : Type κ} where
  finish_write-eq :
      (a : ManyPencilArray T) (i : ℕ) (back : List T) (w : List T × Ending E)
      → a.state ≡ LayoutState.poisoned
      → i < length a.pencils
      → finish_write a i back w
        ≡ (result_of w.1, record a { storage = w.0 ++ back; state = state_of w.1 i })
  unfolding finish_write commit
  finish_write-eq a i back (front, Ending.finished) e h = rw (lt→leb_false i _ h) refl
  finish_write-eq a i back (front, Ending.failed x) e h = rw (← e) refl
  finish_write-eq a i back (front, Ending.unwound) e h = rw (← e) refl

module _ {ℓ κ} {T : Type ℓ} {E : Type κ} {n m : ℕ} {a : ManyPencilArray T} (v : IsMany n m a)
    (target : Pencil) (write : PencilArray T → List T × Ending E) where
  -- For a well-formed buffer: when no registered pencil has the target's layout, `overwrite_with`
  -- returns IncompatiblePencils and leaves the buffer as it was. Otherwise the closure gets the
  -- array of the first such pencil over a prefix of the storage; the storage behind that prefix
  -- stays, the layout becomes active when the closure finishes, and the buffer is left poisoned when
  -- the closure fails or unwinds.
  pub overwrite_with_lem :
      All (λ p. same_layout p target ≡ false) a.pencils
        × (overwrite_with a target write
            ≡ (err (OverwriteError.array ArrayError.incompatible_pencils), a))
      ⊎ ((i : ℕ) × (p : Pencil) × (front : List T) × (back : List T) × (get_elem? a.pencils i
            ≡ some p)
          × (same_layout p target ≡ true)
          × (front ++ back ≡ a.storage)
          × IsArray n m (view_of v p front)
          × (overwrite_with a target write ≡ (
            result_of (write (view_of v p front)).1,
            record a {
              storage = (write (view_of v p front)).0 ++ back;
              state = state_of (write (view_of v p front)).1 i;
            },
          )))
  unfolding overwrite_with begin_write
  overwrite_with_lem = elim (find_layout_lem a.pencils target) [
    | inl (unlike, run) ↦ inl (unlike, rw (run, overwrite_with) refl)
    | inr (i, p, run, found, same) ↦
        let (front, back, view, whole, _, array) = view_at_lem (poison v) i p found in
        inr (
          i,
          p,
          front,
          back,
          found,
          same,
          whole,
          array,
          rw (run, view, overwrite_with)
              (finish_write-eq (begin_write a) i back (write (view_of v p front)) refl
                (lt_of_get_elem? a.pencils i found)),
        )
  ]
    where
      poison : IsMany n m a → IsMany n m (begin_write a)
      poison v = record {
        pencils = v.pencils;
        distinct = v.distinct;
        extra = v.extra;
        fits = v.fits;
        largest = v.largest;
        active = λ i e. absurd (cc);
      }

  -- For a well-formed buffer and a closure that leaves the number of elements of its view as it
  -- is: `overwrite_with` leaves a well-formed buffer, whatever way the closure ends.
  pub overwrite_with-IsMany :
      ((view : PencilArray T) → length (write view).0 ≡ length view.storage)
      → IsMany n m (overwrite_with a target write).1
  overwrite_with-IsMany keeps = elim overwrite_with_lem [
    | inl (_, run) ↦ rw run v
    | inr (i, p, front, back, found, _, whole, _, run) ↦ rw run (record {
      pencils = v.pencils;
      distinct = v.distinct;
      extra = v.extra;
      fits = v.fits;
      largest = (
        v.largest.0,
        v.largest.1,
        size front back whole (write (view_of v p front)).0 (keeps (view_of v p front))
            ∙ v.largest.2,
      );
      active = λ j e. ends (write (view_of v p front)).1 i j (lt_of_get_elem? a.pencils i found) e;
    })
  ]
    where
      size :
          (front back : List T)
          → front ++ back ≡ a.storage
          → (written : List T) → length written ≡ length front
          → length (written ++ back) ≡ length a.storage
      size front back whole written same =
          length-append written back
          ∙ ap (λ (t : ℕ). t + length back) same
          ∙ sym (length-append front back)
          ∙ ap length whole

      ends :
          (w : Ending E) (i j : ℕ)
          → i < length a.pencils
          → state_of w i ≡ LayoutState.valid j
          → j < length a.pencils
      ends Ending.finished i j h e = let same : i ≡ j = cc in rw (← same) h
      ends (Ending.failed x) i j h e = absurd (cc)
      ends Ending.unwound i j h e = absurd (cc)
