-- ===== src/Lib.antt =====
-- A model of the native core of lightarray, small N-dimensional arrays with NumPy's semantics, and
-- the theorems that make it correct.
--
-- The program. `src/dims.rs` keeps a shape of at most 8 axes and its C-order byte strides inline.
-- `src/array.rs` joins such dims with a buffer into `Array<T>`: construction, indexing, views that
-- share a buffer, broadcasting and the kernels; `AnyArray` is an array of one of three dtypes.
-- `src/lib.rs` and `src/python.rs` export these to Python, and `src/dlpack.rs` hands a buffer to
-- other libraries. A call of the Python layer resolves its arguments, asks `Array` for a selection
-- plan, and takes a window of the buffer when the plan is contiguous and a strided view otherwise.
--
-- The files, and the code each is about.
-- - Prelude: lists, products and integers over the native numbers; Prelude/Words the products of
--   `usize`, which wrap around at 2^64 as in a release build.
-- - Outcome: the `Result` of src/array.rs with a third way to end, a panic; the formatted texts of
--   an error are constructors with the values that go into them.
-- - Dims: src/dims.rs. The fixed arrays are lists padded with zeros, a stride its bit pattern below
--   2^64. Dims/Strides: what a layout is.
-- - Array: the structure `Array`, whose field `data` is `buffer` here, and its constructors.
--   Array/Valid: the invariant, C-order dims over a buffer with an element for each position.
-- - Array/Locate: `normalize_index`, `locate`, `index`, `get`, `set` and the views of a sub-array;
--   its Order says what C order is, and the others prove about reads, writes and windows.
-- - Array/Select: `selection_plan`, `gather`, `select` and `plan_view`; Plan and Whole are about
--   the plan, Gather about the copy, Scanning and Contiguous about the window.
-- - Array/Broadcast: `broadcast_shape`, `broadcast_strides`, `zip_map` and `zip_map_inplace`; Walk
--   is about the odometer, Aligned about shapes, Origin about where an element comes from.
-- - Array/Reorder: `take_leading`, `compress_flat`, `select_where`, `concatenate`, `transpose`.
-- - Array/Kernels: the reductions and scans of `Array<f64>`, over any floats.
-- - Array/AnyArray: the dtypes, promotion and casts, and the kernels of bool and int64 arrays.
-- - ShapeArgs: `extract_shape_args` of src/python.rs, from the integers that PyO3 extracts on.
-- - Layout: `Layout` of src/python.rs, where the elements of an array live. Address and Turned are
--   about the addresses of positions, Axes about inserted axes, Compact about C order.
-- - Memory: `walk_strided`, `gather_from` and `scatter_to` of src/array.rs. Walk and Whole are about
--   the visits, Loops and Copy about what they copy.
-- - PyArray: the Python object of src/python.rs with its strided views: `layout_of`, `base_of`,
--   `view_from_layout`, `transposed`, `index_result`, `select_result`. Views says what array a
--   layout makes, Sharing when one array is a view of another, Inserted what inserted axes change;
--   Planned, Basic, Turned and Elements use them.
--   PyArray/Numpy: `view_of_numpy`, whose address arithmetic wraps around as in a release build.
--   PyArray/Keys: the keys of `__getitem__`, what a tuple calls (Tuples) and gives (Views).
--   PyArray/Assign: `__setitem__`, `fill` and the in-place operators.
-- - Operators: `classify`, `binary_op` and `alt_binary` of src/python.rs, from the array that `arr`
--   loads. Promotion is about results of floats, Integers about those of integers.
--   Operators/Comparisons: `__richcmp__`, `bitwise` and the unary operators; Masks is about the
--   answers of comparisons.
-- - Creation: `arange` of integers and `linspace` of src/lib.rs; Progression is about the numbers of
--   `arange`, Ceiling about how many there are, Exact and Steps about its integers.
-- The modules named Tests run the models as the tests of src/array.rs do.
--
-- Memory. An address is an integer, memory a function from the address of an element to the element.
-- An array that is not strided keeps its elements in its buffer, which is a window of memory; a
-- strided view keeps a cache there, which `arr` loads and `commit` stores. What an allocation
-- returns, and the number of a new Python object, are arguments.
--
-- Bounds. A shape `Fits` when each of its trailing sub-shapes takes less than 2^63 bytes, as every
-- allocation does; an element takes from 1 to 255 bytes. Loops run on the list or on the number of
-- steps that the source counts, so none needs fuel. Positions and offsets inside a buffer carry no
-- wrap: they stay below its length. The addresses and strides of `Layout` are integers without their
-- wrap, which agree with those of the code modulo 2^64.
--
-- Not modelled: reference counting, the struct that DLPack exports, and the lifetime of buffers;
-- argument parsing and error conversion of the Python layer; and formatting. Closures, the
-- element type and the operations of floats are parameters.
pub mod Prelude
pub mod Outcome
pub mod Dims
pub mod Array
pub mod ShapeArgs
pub mod Layout
pub mod Memory
pub mod PyArray
pub mod Operators
pub mod Creation
