-- ===== src/Transpose/Bounded.antt =====
-- `region_walk` succeeds on a region inside a pencil's local ranges, and its offsets are those of
-- the region's elements.
use pencil_rs.Prelude.{
  ℕ, ◌+◌, ◌*◌, ◌<◌, ◌≤◌, ◌≡◌, refl, sym, ap, ◌∙◌, List, arith, length, product, ok,
}
use pencil_rs.Word.{usize_max, checked_add-some}
use pencil_rs.Geometry.{Range, shape_from_ranges}
use pencil_rs.Geometry.Offset.{Within, ravel}
use pencil_rs.Pencil.{Pencil}
use pencil_rs.Pencil.Valid.{
  IsValid, length-shape_from_ranges, length-local_ranges, product-local_shape_memory,
}
use pencil_rs.Transpose.Walk.{RegionWalk, Measures, layout_of, region_walk}
use pencil_rs.Transpose.Odometer.{dot, span}
use pencil_rs.Transpose.Regions.{Sound}
use pencil_rs.Transpose.Measure.{Inside, Inside-positive, corner, measure_axes_lem, Measured}
use pencil_rs.Transpose.Region.{
  Stands, rank, strides, size_fits, offset_of, offset_fits, offset_unique, tops, tops-Within,
  span-tops, product-Inside,
}

module _ {n m : ℕ} {p : Pencil} (v : IsValid n m p) (region : List Range)
    (h : Inside p.local_ranges region) where
  abbrev initial : Measures
  initial = record { start = 0; offset_span = 0; outer_len = 1; run_len = 0; run_stride = 0 }

  abbrev extents : List ℕ
  extents = shape_from_ranges region

  reach :
      dot (strides v region h).0 (corner p.local_ranges region)
        + span (strides v region h).0 extents
      < p.local_len
  reach = omega (
    arith,
    span-tops (strides v region h).0 region,
    offset_fits v region h (tops region) (tops-Within p.local_ranges region h),
  )

  pub len_fits : p.local_len ≤ usize_max
  len_fits = omega (arith, product-local_shape_memory v, size_fits v region h)

  abbrev steps : List ℕ
  steps = (strides v region h).0

  pub elements : product extents ≤ p.local_len
  elements =
      omega (arith, product-Inside p.local_ranges region h, v.local_count, ap product v.logical)

  measures : (out : Measures) × Measured p.local_ranges region steps initial out
  measures =
      measure_axes_lem p.local_ranges region steps initial h
        ((strides v region h).2 ∙ sym (rank v region h)) (omega (arith, reach, len_fits))
        (omega (arith, reach, len_fits)) (omega (arith, elements, len_fits))

  abbrev walk_of : Measures → RegionWalk
  walk_of out = record {
    start = out.start;
    stride = steps;
    extent = extents;
    outer_len = out.outer_len;
    run_len = out.run_len;
    run_stride = out.run_stride;
    max_offset = out.start + out.offset_span;
  }

  Sound-walk_of :
      (out : Measures) → Measured p.local_ranges region steps initial out → Sound (walk_of out)
  Sound-walk_of out d =
      let some_axes : 0 < length region =
        omega (arith, rank v region h, v.decomposed.some_axes, v.decomposed.rank) in
      let size : length extents ≡ length region = length-shape_from_ranges region in
      record {
        axes = omega arith;
        rank = (strides v region h).2 ∙ sym (rank v region h) ∙ sym size;
        positive = Inside-positive p.local_ranges region h;
        run_count = d.run_len some_axes;
        run_step = d.run_stride some_axes;
        total =
            ap (λ (t : ℕ). out.outer_len * t) (d.run_len some_axes)
            ∙ d.outer_len some_axes
            ∙ omega arith;
        reach = omega (arith, d.offset_span);
        fits = omega (arith, reach, len_fits, d.start, d.offset_span);
        distinct = λ is js w u e. ap (ravel extents) (offset_unique v region h is js w u e);
      }

  -- For a well-formed pencil and a region whose ranges are not empty and lie in its local ranges:
  -- `region_walk` succeeds without a panic or an error, its walk is sound with the region's extents,
  -- its greatest offset is below the local length, and the offset of each tuple of the region is the
  -- row-major place, in the local memory shape, of the tuple's permuted local indices.
  pub region_walk_lem :
      (walk : RegionWalk) × (region_walk (layout_of p) region ≡ ok walk)
      × Sound walk
      × (walk.extent ≡ shape_from_ranges region)
      × (walk.max_offset < p.local_len)
      × ((is : List ℕ)
          → Within (shape_from_ranges region) is
          → Stands p region is (walk.start + dot walk.stride is))
  unfolding region_walk layout_of
  region_walk_lem =
      let (out, d) = measures in
      (
        walk_of out,
        rw
            (
              length-local_ranges v,
              (strides v region h).1,
              d.runs,
              checked_add-some out.start out.offset_span
                  (omega (arith, reach, len_fits, d.start, d.offset_span)),
            )
            refl,
        Sound-walk_of out d,
        refl,
        omega (arith, reach, d.start, d.offset_span),
        λ is w.
            let begin : out.start ≡ dot steps (corner p.local_ranges region) =
              omega (arith, d.start) in
            rw begin (offset_of v region h is w),
      )
