-- ===== src/ExtraShape.antt =====
-- crates/pencil-array/src/extra_shape.rs: the undistributed dimensions before the spatial ones.
use pencil_rs.Prelude.{ℕ, ◌≤◌, ◌≡◌, List, [], Outcome, ok, map_err, ◌>>=◌, product}
use pencil_rs.Word.{usize_max}
use pencil_rs.Error.{ShapeError}
use pencil_rs.Checked.{checked_product}

pub record ExtraShape : Type 0 where
  pub dimensions : List ℕ
  pub element_count : ℕ

-- `ExtraShape::new`
unfoldable pub new : List ℕ → Outcome ShapeError ExtraShape
new dimensions = do
  element_count ← map_err (λ _. ShapeError.size_overflow) (checked_product dimensions)
  ok (record { dimensions = dimensions; element_count = element_count })

-- `ExtraShape::scalar`
unfoldable pub scalar : ExtraShape
scalar = record { dimensions = []; element_count = 1 }

-- The stored count is the product of the dimensions, and fits usize.
pub record IsValid (s : ExtraShape) : Type 0 where
  pub count : s.element_count ≡ product s.dimensions
  pub fits : s.element_count ≤ usize_max
