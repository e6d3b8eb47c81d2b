-- ===== src/Array.antt =====
-- `Array<T>` of src/array.rs: its structure and its construction. `buffer` is its field
-- `data`: the elements that the `Storage` derefs to.
pub mod Valid
pub mod Locate
pub mod Select
pub mod Broadcast
pub mod Reorder
pub mod Kernels
pub mod AnyArray
mod Tests
use lightarray.Prelude.{ℕ, ◌*◌, ◌<◌, ◌≡◌, List, [], ◌∷◌, if◌then◌else◌, ◌==◌, length, replicate}
use lightarray.Prelude.{wrapping_product}
use lightarray.Outcome.{Result, ok, err, panic, size_mismatch, ◌>>=◌, ◌>>◌, ensure}
use lightarray.Dims
use lightarray.Dims.{Dims}

-- The trait `Element`, with `std::mem::size_of::<T>()`.
pub record Element {ℓ} (A : Type ℓ) : Type ℓ where
  pub size_of : ℕ
  pub default : A
  pub size_of_pos : 0 < size_of
  pub size_of_small : size_of < 256

pub record Array {ℓ} (A : Type ℓ) : Type ℓ where
  pub buffer : List A
  pub dims : Dims

module _ {ℓ} {A : Type ℓ} where
  abbrev pub shape : Array A → List ℕ
  shape a = Dims.shape a.dims

  abbrev pub ndim : Array A → ℕ
  ndim a = a.dims.ndim

  abbrev pub size : Array A → ℕ
  size a = length a.buffer

module _ {ℓ} {A : Type ℓ} ⦃e : Element A⦄ where
  unfoldable pub new : List A → List ℕ → Result (Array A)
  new buffer shape = do
    dims ← Dims.with_itemsize shape e.size_of
    ensure (Dims.size dims == length buffer) (size_mismatch (Dims.size dims) (length buffer))
    ok (record { buffer = buffer; dims = dims })

  unfoldable pub scalar : A → Array A
  unfolding Dims.scalar_with
  scalar value = record { buffer = value ∷ []; dims = Dims.scalar_with e.size_of }

  unfoldable pub filled : List ℕ → A → Result (Array A)
  filled shape value = do
    dims ← Dims.with_itemsize shape e.size_of
    ok (record { buffer = replicate (Dims.size dims) value; dims = dims })

  unfoldable pub reshape : Array A → List ℕ → Result (Array A)
  unfolding new
  reshape a shape = new a.buffer shape

  -- `AnyArray::set_shape`: the same data under new dims.
  unfoldable pub set_shape : Array A → List ℕ → Result (Array A)
  set_shape a shape = do
    ensure (wrapping_product shape == size a) (size_mismatch (wrapping_product shape) (size a))
    dims ← Dims.with_itemsize shape a.dims.itemsize
    ok (record a { dims = dims })
