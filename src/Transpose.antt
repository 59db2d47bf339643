-- ===== src/Transpose.antt =====
-- crates/pencil-array/src/transpose.rs: the metadata of distributed transposes.
pub mod Walk
pub mod Runs
pub mod Odometer
pub mod Regions
pub mod Strides
pub mod Measure
pub mod Region
pub mod Bounded
pub mod Peers
pub mod Counts
pub mod Pack
pub mod Splice
pub mod Blocks
pub mod Packed
pub mod PackAll
pub mod Unpacked
pub mod UnpackAll
pub mod Slab
pub mod Sides
pub mod Build
pub mod Schedule
pub mod Reads
pub mod Line
pub mod Senders
pub mod Delivery
pub mod Descriptor
pub mod Described
pub mod InPlace
use pencil_rs.Prelude.{ℕ}
use pencil_rs.Error.{ArrayError}

-- `TransposeError`
pub data TransposeError : Type 0 where
  incompatible_topology : TransposeError
  incompatible_global_shape : TransposeError
  unsupported_decomposition_change : TransposeError
  source_layout_mismatch : TransposeError
  destination_layout_mismatch : TransposeError
  extra_shape_mismatch : TransposeError
  workspace_too_small : (send_required send_len receive_required receive_len : ℕ) → TransposeError
  count_overflow : TransposeError
  preparation_failed : TransposeError
  collective_descriptor_mismatch : TransposeError
  collective_precondition_failed : TransposeError
  array : ArrayError → TransposeError
