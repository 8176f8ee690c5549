-- ===== src/Transaction/Plan.antt =====
-- src/execution_transaction/transaction.rs: the record of a transaction and its construction.
use faber_runtime.Base.{ℕ, false, Option, none, List, [], ◌∷◌, arith, if◌then◌else◌, ◌≡◌}
use faber_runtime.Base.Key.{text_key}
use faber_runtime.Base.Map.{Map, Set}
use faber_runtime.Base.Result
use faber_runtime.BoundPlan.{LogicalPartitionId, BoundDistributedPlan, is_degenerate}
use faber_runtime.Transaction.Mirror.{
  TransactionOperation, TransactionCommitBoundary, OutputRef, OperationRef, StagedWrite,
  OperationEvent,
}
use faber_runtime.Transaction.Operation.{operation_ref_key}
use faber_runtime.Transaction.Reservation.{ReservationRecord}
use faber_runtime.Transaction.State.{
  TransactionId, TransactionState, TransactionFailure, ConstructError, degenerate_plan,
  empty_snapshot, TransactionDecision, ExecutedOperationRecord, PublishSummary, TeardownFacts,
  TransactionTimings, TransactionReceipt,
}

pub record ExecutionTransaction (TransportReceipt : Type 0) : Type 0 where
  pub id : TransactionId
  pub bound_plan : BoundDistributedPlan
  pub operations : List TransactionOperation
  pub commit_boundary : TransactionCommitBoundary
  pub operation_keys : Map OperationRef ℕ
  pub state : TransactionState
  pub reservation : Option (Map LogicalPartitionId ReservationRecord)
  pub declared_write_set : Map OutputRef StagedWrite
  pub staged_write_set : Map OutputRef StagedWrite
  pub executed_operations : List ExecutedOperationRecord
  pub completed_events : Set OperationEvent
  pub failure : Option TransactionFailure
  pub decision : Option TransactionDecision
  pub publish_summary : Option PublishSummary
  pub teardown : TeardownFacts
  pub timings : TransactionTimings
  pub transport_receipt : Option TransportReceipt
  pub receipt : Option (TransactionReceipt TransportReceipt)

abbrev pub no_teardown : TeardownFacts
no_teardown = record {
  released_partitions = [];
  retired_partitions = [];
  partial_publication = false;
}

abbrev pub no_timings : TransactionTimings
no_timings = record { prepare_nanos = 0; execute_nanos = 0; finalize_nanos = 0 }

abbrev pub fresh :
    {TR : Type 0}
    → TransactionId
    → BoundDistributedPlan
    → List TransactionOperation
    → TransactionCommitBoundary
    → ExecutionTransaction TR
fresh id plan ops boundary = record {
  id = id;
  bound_plan = plan;
  operations = ops;
  commit_boundary = boundary;
  operation_keys = [];
  state = TransactionState.new;
  reservation = none;
  declared_write_set = [];
  staged_write_set = [];
  executed_operations = [];
  completed_events = [];
  failure = none;
  decision = none;
  publish_summary = none;
  teardown = no_teardown;
  timings = no_timings;
  transport_receipt = none;
  receipt = none;
}

unfoldable pub new :
    {TR : Type 0}
    → TransactionId
    → BoundDistributedPlan
    → List TransactionOperation
    → TransactionCommitBoundary
    → Result.Result (ExecutionTransaction TR) ConstructError
new id plan ops boundary = if is_degenerate plan then Result.err degenerate_plan else elim ops [
  | [] ↦ Result.err empty_snapshot
  | op ∷ rest ↦ Result.ok (fresh id plan (op ∷ rest) boundary)
]

pub new_lem :
    {TR : Type 0} (id : TransactionId) (plan : BoundDistributedPlan)
    (ops : List TransactionOperation) (boundary : TransactionCommitBoundary)
    (t : ExecutionTransaction TR)
    → new id plan ops boundary ≡ Result.ok t
    → t ≡ fresh id plan ops boundary
unfolding new
new_lem id plan [] boundary t e = absurd (ground arith)
new_lem id plan (op ∷ ops) boundary t e = ground arith
