-- ===== src/Lib.antt =====
-- The layout core of pencil-rs, the crate crates/pencil-array: how a global array is cut into
-- blocks over a Cartesian grid of MPI processes ("pencils"), and how each process stores and
-- addresses its block.
--
-- The parts, with their files in crates/pencil-array/src and here:
--   error.rs            Error             the error enums as data types
--   checked.rs          Checked           checked_product
--   axis.rs             Axis              SpatialAxis, AxisPermutation
--   decomposition.rs    Decomposition     topology axes to spatial axes
--   geometry.rs         Geometry          partition_range, local_ranges_for, row_major_offset
--   extra_shape.rs      ExtraShape        the undistributed dimensions
--   topology.rs         Topology          validate_grid, rank_at
--   pencil.rs           Pencil            new_permuted and the other constructors, compatibility
--   array.rs, view.rs   Array             offsets and element reads of arrays and views
--   local_transpose.rs  LocalTranspose    LocalTransposePlan, execute_views
--                       LocalTranspose.InPlace  execute_in_place and its workspace variant
--   many.rs             Many              ManyPencilArray, a buffer with several layouts
--   grid.rs             Grid              the coordinate slices of a process and their iteration
--   transpose.rs        Transpose         the peers of a distributed transpose, and the copies of
--                                         their regions to and from the send and receive buffers
--                       Transpose.Descriptor  the words by which ranks compare their plans
--                       Transpose.InPlace  what surrounds the exchange of a registered buffer
--                       Transpose.Line, Transpose.Delivery  one line of processes, and the exchange
--   preflight.rs        Preflight         what all ranks agree on before an exchange
--   spatial_remap.rs    SpatialRemap      partition_owner and owner_rank
-- Prelude holds the shared lists, tests and outcomes, Word the checked usize operations, Tests the
-- concrete data and the instances of the results.
--
-- A topology fixes a process grid and the coordinates of the process. A pencil adds a global shape,
-- a decomposition and an axis permutation; its construction partitions the distributed axes by the
-- floor rule and stores the local ranges and shapes. An array puts a buffer behind a pencil; a local
-- transpose copies between two pencils that differ in their permutation alone; a registered buffer
-- holds several such layouts of which one at most is readable.
--
-- How the source corresponds to the definitions. A Rust function keeps its name; an associated
-- function `new` is the `new` of the module of its type, and where two types share a file the name
-- says which (`spatial_axis_new`, `view_new`, `plan_new`, `from_vec_many`). A function that returns
-- a Result is an Outcome: ok, err with the error of the source, or panic. A function without an
-- error is an Option where an index or an `expect` can panic. The const parameters N and M are
-- arguments n and m where the code reads them, and arrays are lists, so that their lengths are
-- hypotheses. A mutated array or state is an argument and part of the result. A `for` loop is a
-- structural recursion on the list it walks or on the number of rounds left. The one `while` loop,
-- the bisection of partition_owner, gets as many rounds as there are parts; each round shortens its
-- interval, so that they are enough.
-- A SpatialAxis is its number, `Arc::ptr_eq` compares the address of a topology, and equal addresses
-- are assumed to be one object.
--
-- Numbers. usize has 64 bits, the widest that the code supports: `checked_add` and `checked_mul` fail
-- beyond 2 ^ 64 - 1, and `boundary` computes modulo 2 ^ 128 and casts modulo 2 ^ 64 as the source
-- does. i32 conversions of the topology fail beyond 2 ^ 31 - 1.
--
-- Debug assertions are taken as enabled and fail as panics. A function of all ranks takes what each
-- rank passes, in the order of the ranks.
--
-- Given by MPI or by the caller, and arguments here: the communicator size, the rank of a coordinate
-- tuple, the communicator along one topology axis, the all-reduces of a preflight, the exchange
-- `MPI_Alltoallv`, and the closure of `overwrite_with`, which may finish, fail or unwind and is assumed to
-- keep the length of its slice only where a result says so.
--
-- Not modelled: the collective constructors of a topology; of the distributed transposes, the
-- descriptors of an execution, the constructor over all ranks and the copy of the own region, and the
-- transports alltoallv_transpose.rs, point_to_point_transpose.rs and checked_partition.rs; the
-- reductions of collectives.rs and pointwise.rs, agree_words of preflight.rs and the rest of
-- spatial_remap.rs, which need a model of several communicating processes; allocation failures and
-- panics of element clones; and the crates pencil-fft, pencil-fftw and pencil-io, which drive numerical
-- and file libraries.
pub mod Prelude
pub mod Word
pub mod Error
pub mod Checked
pub mod Axis
pub mod Decomposition
pub mod Geometry
pub mod ExtraShape
pub mod Topology
pub mod Pencil
pub mod Array
pub mod LocalTranspose
pub mod Many
pub mod Transpose
pub mod Preflight
pub mod Tests
pub mod Grid
pub mod SpatialRemap
