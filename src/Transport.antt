-- ===== src/Transport.antt =====
-- src/transport.rs: the declared facts of a typed and ranged transfer, and the actual facts of the
-- content that it moves. A duration is its nanoseconds.
pub mod Rejection
pub mod Rates
pub mod Staging
pub mod Peer
pub mod Errors
pub mod Adapter
pub mod Copied
pub mod Settled
pub mod Succeeds
pub mod Budget
use faber_runtime.Base.{
  ℕ, ◌+◌, ◌-◌, Bool, ◌&&◌, Option, none, some, List, length, take, drop, leb, if◌then◌else◌,
}
use faber_runtime.Base.Word.{u64}
use faber_runtime.BoundPlan.{LogicalPartitionId}
use faber_runtime.Transaction.Mirror.{
  TransferRef, TransferDirectionMirror, MirroredDtype, MirroredStorageLayout, TransportPathMirror,
  host_staged, TransferOperationMirror,
}

abbrev pub Duration : Type 0
Duration = ℕ

pub record ByteRange : Type 0 where
  pub offset : ℕ
  pub length : ℕ

-- The addition is not checked.
abbrev pub end : ByteRange → ℕ
end r = u64 (r.offset + r.length)

pub record TransferSpec : Type 0 where
  pub transfer_ref : TransferRef
  pub source_owner : LogicalPartitionId
  pub destination : LogicalPartitionId
  pub range : ByteRange
  pub direction : TransferDirectionMirror
  pub dtype : MirroredDtype
  pub layout : MirroredStorageLayout
  pub generation : ℕ
  pub path_label : TransportPathMirror
  pub timeout : Duration

unfoldable pub new :
    TransferRef
    → LogicalPartitionId
    → LogicalPartitionId
    → ByteRange
    → TransferDirectionMirror
    → MirroredDtype
    → MirroredStorageLayout
    → ℕ
    → Duration
    → TransferSpec
new transfer source destination range direction dtype layout generation timeout = record {
  transfer_ref = transfer;
  source_owner = source;
  destination = destination;
  range = range;
  direction = direction;
  dtype = dtype;
  layout = layout;
  generation = generation;
  path_label = host_staged;
  timeout = timeout;
}

unfoldable pub from_mirror : TransferOperationMirror → Duration → TransferSpec
from_mirror mirror timeout = record {
  transfer_ref = mirror.id;
  source_owner = mirror.source;
  destination = mirror.destination;
  range = record { offset = 0; length = mirror.byte_count };
  direction = mirror.direction;
  dtype = mirror.element_dtype;
  layout = mirror.layout;
  generation = mirror.producer_generation;
  path_label = mirror.path_label;
  timeout = timeout;
}

pub record SourceValue : Type 0 where
  pub owner : LogicalPartitionId
  pub dtype : MirroredDtype
  pub layout : MirroredStorageLayout
  pub generation : ℕ
  pub bytes : List ℕ

abbrev pub total_bytes : SourceValue → ℕ
total_bytes s = length s.bytes

-- An index out of order or out of range panics: `none`.
abbrev pub slice : SourceValue → ByteRange → Option (List ℕ)
slice s r =
    if leb r.offset (end r) && leb (end r) (total_bytes s)
    then some (take (end r - r.offset) (drop r.offset s.bytes))
    else none
