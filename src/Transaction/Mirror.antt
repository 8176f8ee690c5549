-- ===== src/Transaction/Mirror.antt =====
-- src/execution_transaction/mirror.rs: the accepted plan as the coordinator sees it. The newtypes
-- over a string are texts; their sets stand in the order of their bytes.
pub mod Tags
pub mod Encoding
use native.Mathlib.Decide.{ℕ_discrete}
use faber_runtime.Base.{ℕ, Bool, true, false, ◌&&◌, List, [], ◌∷◌, ◌++◌, length}
use faber_runtime.Base.Key.{Text, text_key, nat_key}
use faber_runtime.Base.Map.{Set, keys}
use faber_runtime.BoundPlan.{LogicalPartitionId}
use faber_runtime.Bytes.{push_u64, push_str, push_strs, push}

abbrev pub LaunchRef : Type 0
LaunchRef = Text

abbrev pub TransferRef : Type 0
TransferRef = Text

abbrev pub CollectiveRef : Type 0
CollectiveRef = Text

abbrev pub BarrierRef : Type 0
BarrierRef = Text

abbrev pub OutputRef : Type 0
OutputRef = Text

pub data TransferDirectionMirror : Type 0 where
  h2d d2h bidi : TransferDirectionMirror

abbrev pub direction_tag : TransferDirectionMirror → ℕ
direction_tag h2d = 0
direction_tag d2h = 1
direction_tag bidi = 2

pub data MirroredDtype : Type 0 where
  f32 f64 f16 bf16 i8 i32 : MirroredDtype

abbrev pub dtype_tag : MirroredDtype → ℕ
dtype_tag f32 = 0
dtype_tag f64 = 1
dtype_tag f16 = 2
dtype_tag bf16 = 3
dtype_tag i8 = 4
dtype_tag i32 = 5

pub data MirroredStorageLayout : Type 0 where
  dense block_packed : MirroredStorageLayout

abbrev pub layout_tag : MirroredStorageLayout → ℕ
layout_tag dense = 0
layout_tag block_packed = 1

pub data TransportPathMirror : Type 0 where
  host_staged : TransportPathMirror

abbrev pub path_tag : TransportPathMirror → ℕ
path_tag host_staged = 0

pub record TransactionCommitBoundary : Type 0 where
  pub barriers : Set BarrierRef
  pub launches : Set LaunchRef

unfoldable pub is_empty : TransactionCommitBoundary → Bool
is_empty b =
    (elim b.barriers [ [] ↦ true | x ∷ r ↦ false ])
    && (elim b.launches [ [] ↦ true | x ∷ r ↦ false ])

pub boundary_bytes : TransactionCommitBoundary → List ℕ
boundary_bytes b =
    let barriers = push_strs (push_u64 [] (length b.barriers)) (keys b.barriers) in
    push_strs (push_u64 barriers (length b.launches)) (keys b.launches)

pub record TransferOperationMirror : Type 0 where
  pub id : TransferRef
  pub source : LogicalPartitionId
  pub destination : LogicalPartitionId
  pub byte_count : ℕ
  pub direction : TransferDirectionMirror
  pub element_dtype : MirroredDtype
  pub layout : MirroredStorageLayout
  pub path_label : TransportPathMirror
  pub producer_generation : ℕ
  pub consumer_generation : ℕ
  pub completion_boundary : TransactionCommitBoundary

pub transfer_bytes : TransferOperationMirror → List ℕ
unfolding boundary_bytes
transfer_bytes t =
    let named = push_str (push_str (push_str [] t.id) t.source) t.destination in
    let counted = push_u64 (push_u64 named t.byte_count) (direction_tag t.direction) in
    let typed = push_u64 (push_u64 counted (dtype_tag t.element_dtype)) (layout_tag t.layout) in
    let routed = push_u64 typed (path_tag t.path_label) in
    let staged = push_u64 (push_u64 routed t.producer_generation) t.consumer_generation in
    staged ++ boundary_bytes t.completion_boundary

pub record CollectiveBroadcastMirror : Type 0 where
  pub id : CollectiveRef
  pub source : LogicalPartitionId
  pub participants : Set LogicalPartitionId
  pub byte_count : ℕ

pub broadcast_bytes : CollectiveBroadcastMirror → List ℕ
broadcast_bytes b =
    let counted = push_u64 (push_str (push_str [] b.id) b.source) (length b.participants) in
    push_u64 (push_strs counted (keys b.participants)) b.byte_count

pub data OperationRef : Type 0 where
  launch_op : LaunchRef → OperationRef
  transfer_op : TransferRef → OperationRef
  collective_op : CollectiveRef → OperationRef
  barrier_op : BarrierRef → OperationRef

pub data BoundaryRef : Type 0 where
  barrier_bound : BarrierRef → BoundaryRef
  launch_bound : LaunchRef → BoundaryRef

pub record StagedWrite : Type 0 where
  pub partition : LogicalPartitionId
  pub output_ref : OutputRef
  pub byte_count : ℕ

pub data TransactionOperation : Type 0 where
  launch : LogicalPartitionId → LaunchRef → ℕ → TransactionOperation
  transfer : TransferOperationMirror → TransactionOperation
  collective_broadcast : CollectiveBroadcastMirror → TransactionOperation
  barrier : BarrierRef → Set LogicalPartitionId → TransactionOperation

pub data OperationEvent : Type 0 where
  launch_completed : LogicalPartitionId → LaunchRef → OperationEvent
  transfer_completed : LogicalPartitionId → TransferRef → OperationEvent
  broadcast_completed : LogicalPartitionId → CollectiveRef → OperationEvent
  barrier_completed : LogicalPartitionId → BarrierRef → OperationEvent

pub operation_bytes : TransactionOperation → List ℕ
unfolding transfer_bytes broadcast_bytes
operation_bytes (launch partition launch_ref output_bytes) =
    push_u64 (push_str (push_str (push [] 0) partition) launch_ref) output_bytes
operation_bytes (transfer t) = push [] 1 ++ transfer_bytes t
operation_bytes (collective_broadcast b) = push [] 2 ++ broadcast_bytes b
operation_bytes (barrier barrier_ref partitions) =
    push_strs (push_u64 (push_str (push [] 3) barrier_ref) (length partitions)) (keys partitions)

unfoldable pub TransactionOperation-discrete : Discrete TransactionOperation
TransactionOperation-discrete = hlevel ℕ_discrete
