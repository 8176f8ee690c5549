-- ===== src/Transaction/Mirror/Tags.antt =====
-- The tags of src/execution_transaction/mirror.rs tell the constructors apart.
use faber_runtime.Base.{ℕ, ◌<◌, ◌≡◌, arith}
use faber_runtime.Base.Word.{u64_mod}
use faber_runtime.Bytes.Reading.{u64_bytes}
use faber_runtime.Bytes.Reads.{IsReadable, u64_bytes-IsReadable}
use faber_runtime.Transaction.Mirror.{
  TransferDirectionMirror, direction_tag, MirroredDtype, dtype_tag, MirroredStorageLayout,
  layout_tag, TransportPathMirror, path_tag,
}

-- A tag that tells the constructors apart, as a word.
module _ {A : Type 0} where
  tag-IsReadable :
      (tag : A → ℕ)
      → ((a b : A) → tag a ≡ tag b → a ≡ b)
      → ((a : A) → tag a < u64_mod)
      → IsReadable (λ a. Unit {0}) (λ a. u64_bytes (tag a))
  tag-IsReadable tag injective small a b r s p q e =
      let (same_tag, rest) = u64_bytes-IsReadable (tag a) (tag b) r s (small a) (small b) e in
      (injective a b same_tag, rest)

direction_injective : (a b : TransferDirectionMirror) → direction_tag a ≡ direction_tag b → a ≡ b
direction_injective a b e = ground arith

pub direction-IsReadable : IsReadable (λ d. Unit {0}) (λ d. u64_bytes (direction_tag d))
direction-IsReadable = tag-IsReadable direction_tag direction_injective (λ d. ground arith)

dtype_injective : (a b : MirroredDtype) → dtype_tag a ≡ dtype_tag b → a ≡ b
dtype_injective a b e = ground arith

pub dtype-IsReadable : IsReadable (λ d. Unit {0}) (λ d. u64_bytes (dtype_tag d))
dtype-IsReadable = tag-IsReadable dtype_tag dtype_injective (λ d. ground arith)

layout_injective : (a b : MirroredStorageLayout) → layout_tag a ≡ layout_tag b → a ≡ b
layout_injective a b e = ground arith

pub layout-IsReadable : IsReadable (λ l. Unit {0}) (λ l. u64_bytes (layout_tag l))
layout-IsReadable = tag-IsReadable layout_tag layout_injective (λ l. ground arith)

path_injective : (a b : TransportPathMirror) → path_tag a ≡ path_tag b → a ≡ b
path_injective a b e = ground arith

pub path-IsReadable : IsReadable (λ l. Unit {0}) (λ l. u64_bytes (path_tag l))
path-IsReadable = tag-IsReadable path_tag path_injective (λ l. ground arith)
