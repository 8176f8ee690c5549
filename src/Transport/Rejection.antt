-- ===== src/Transport/Rejection.antt =====
-- src/transport.rs: what a transfer is rejected for before a byte is copied.
use faber_runtime.Base.{ℕ, Bool, not, ◌++◌, ◌==◌, ltb, if◌then◌else◌}
use faber_runtime.Base.Key.{Text, text, text_key, same}
use faber_runtime.Base.Decimal.{decimal}
use faber_runtime.BoundPlan.{LogicalPartitionId}
use faber_runtime.Transaction.Mirror.{
  TransferRef, MirroredDtype, MirroredStorageLayout, dtype_tag, layout_tag, f32, f64, f16, bf16, i8,
  i32, dense, block_packed,
}
use faber_runtime.Transaction.State.{Outcome, ok, err, ◌>>◌}
use faber_runtime.Transport.{ByteRange, end, TransferSpec, SourceValue, total_bytes}

-- The transfer, what it declares, and what is there.
pub data TransferRejection : Type 0 where
  dtype_mismatch : TransferRef → MirroredDtype → MirroredDtype → TransferRejection
  layout_mismatch : TransferRef → MirroredStorageLayout → MirroredStorageLayout → TransferRejection
  range_out_of_bounds : TransferRef → ByteRange → ℕ → TransferRejection
  generation_mismatch : TransferRef → ℕ → ℕ → TransferRejection
  owner_mismatch destination_mismatch :
      TransferRef → LogicalPartitionId → LogicalPartitionId → TransferRejection

class : TransferRejection → Text
class (dtype_mismatch t d a) = text "dtype mismatch"
class (layout_mismatch t d a) = text "layout mismatch"
class (range_out_of_bounds t r n) = text "out-of-bounds range"
class (generation_mismatch t d a) = text "generation mismatch"
class (owner_mismatch t d a) = text "owner mismatch"
class (destination_mismatch t d a) = text "destination mismatch"

-- `MirroredDtype::spelling` and `MirroredStorageLayout::spelling`.
abbrev dtype_spelling : MirroredDtype → Text
dtype_spelling f32 = text "f32"
dtype_spelling f64 = text "f64"
dtype_spelling f16 = text "f16"
dtype_spelling bf16 = text "bf16"
dtype_spelling i8 = text "i8"
dtype_spelling i32 = text "i32"

abbrev layout_spelling : MirroredStorageLayout → Text
layout_spelling dense = text "dense"
layout_spelling block_packed = text "block-packed"

-- The derived `Debug`.
abbrev debug_range : ByteRange → Text
debug_range r =
    text "ByteRange { offset: "
    ++ decimal r.offset
    ++ text ", length: "
    ++ decimal r.length
    ++ text " }"

unfoldable pub display : TransferRejection → Text
display (dtype_mismatch t d a) =
    text "dtype mismatch: transfer "
    ++ t
    ++ text " declared "
    ++ dtype_spelling d
    ++ text " but the source content is "
    ++ dtype_spelling a
display (layout_mismatch t d a) =
    text "layout mismatch: transfer "
    ++ t
    ++ text " declared "
    ++ layout_spelling d
    ++ text " but the source content is "
    ++ layout_spelling a
display (range_out_of_bounds t r n) =
    text "out-of-bounds range: transfer "
    ++ t
    ++ text " declares range "
    ++ debug_range r
    ++ text " which exceeds the source's "
    ++ decimal n
    ++ text " bytes"
display (generation_mismatch t d a) =
    text "generation mismatch: transfer "
    ++ t
    ++ text " declares generation "
    ++ decimal d
    ++ text " but the source content is generation "
    ++ decimal a
display (owner_mismatch t d a) =
    text "owner mismatch: transfer "
    ++ t
    ++ text " declares owner "
    ++ d
    ++ text " but the source content belongs to "
    ++ a
display (destination_mismatch t d a) =
    text "destination mismatch: transfer "
    ++ t
    ++ text " declares destination "
    ++ d
    ++ text " but the copy would land on "
    ++ a

-- An early return: the next checks run unless `failed` holds.
abbrev reject_if : Bool → TransferRejection → Outcome (Unit {0}) TransferRejection
reject_if failed rejection = if failed then err rejection else ok tt

unfoldable pub validate_before_copy :
    TransferSpec → SourceValue → LogicalPartitionId → Outcome (Unit {0}) TransferRejection
validate_before_copy spec source destination =
    reject_if (not (dtype_tag spec.dtype == dtype_tag source.dtype))
      (dtype_mismatch spec.transfer_ref spec.dtype source.dtype)
    >> reject_if (not (layout_tag spec.layout == layout_tag source.layout))
        (layout_mismatch spec.transfer_ref spec.layout source.layout)
    >> reject_if (ltb (total_bytes source) (end spec.range))
        (range_out_of_bounds spec.transfer_ref spec.range (total_bytes source))
    >> reject_if (not (spec.generation == source.generation))
        (generation_mismatch spec.transfer_ref spec.generation source.generation)
    >> reject_if (not (same spec.source_owner source.owner))
        (owner_mismatch spec.transfer_ref spec.source_owner source.owner)
    >> reject_if (not (same spec.destination destination))
        (destination_mismatch spec.transfer_ref spec.destination destination)
