-- ===== src/Transaction/State.antt =====
-- src/execution_transaction/state_machine.rs, errors.rs and receipt.rs: states, failures, errors
-- and receipts of a transaction.
use faber_runtime.Base.{ℕ, Bool, Option, List, ◌≡◌, refl, ◌⊎◌, inl, inr}
use faber_runtime.Base.Key.{Text}
use faber_runtime.Base.Map.{Map, Set}
use faber_runtime.BoundPlan.{LogicalPartitionId}
use faber_runtime.Partition.{PartitionReceipt}
use faber_runtime.Transaction.Mirror.{
  BarrierRef, LaunchRef, OutputRef, OperationRef, BoundaryRef, StagedWrite, TransactionOperation,
  OperationEvent,
}
use faber_runtime.Transaction.Reservation.{BudgetClass, ReservationRecord}

-- Newtypes over a string and over `u64`.
abbrev pub TransactionId : Type 0
TransactionId = Text

abbrev pub PublicationOrdinal : Type 0
PublicationOrdinal = ℕ

-- `BackendError` of backend.rs: the partition that fails, and what the runtime says.
pub data BackendError : Type 0 where
  allocation operation device_loss cancelled timeout : LogicalPartitionId → Text → BackendError

abbrev pub error_partition : BackendError → LogicalPartitionId
error_partition (allocation p d) = p
error_partition (operation p d) = p
error_partition (device_loss p d) = p
error_partition (cancelled p d) = p
error_partition (timeout p d) = p

pub data TransactionFailure : Type 0 where
  backend_failure : BackendError → TransactionFailure
  publish_failed : Text → TransactionFailure
  cancelled_for : Text → TransactionFailure

pub data TransactionState : Type 0 where
  new prepared executing committed : TransactionState
  failed : TransactionFailure → TransactionState
  aborted : TransactionFailure → TransactionState

-- `state == TransactionState::New`, and so on.
abbrev pub is_new : TransactionState → Bool
is_new new = Bool.true
is_new _ = Bool.false

abbrev pub is_prepared : TransactionState → Bool
is_prepared prepared = Bool.true
is_prepared _ = Bool.false

abbrev pub is_executing : TransactionState → Bool
is_executing executing = Bool.true
is_executing _ = Bool.false

abbrev pub is_failed : TransactionState → Bool
is_failed (failed f) = Bool.true
is_failed _ = Bool.false

abbrev pub is_committed : TransactionState → Bool
is_committed committed = Bool.true
is_committed _ = Bool.false

-- No call leaves these states.
abbrev pub is_ended : TransactionState → Bool
is_ended committed = Bool.true
is_ended (aborted f) = Bool.true
is_ended _ = Bool.false

pub data ConstructError : Type 0 where
  degenerate_plan empty_snapshot : ConstructError

pub data PrepareError : Type 0 where
  invalid_state : TransactionState → PrepareError
  unknown_partition : LogicalPartitionId → ℕ → PrepareError
  duplicate_operation : OperationRef → PrepareError
  undeclared_boundary_barrier : BarrierRef → PrepareError
  undeclared_boundary_launch : LaunchRef → PrepareError
  missing_admitted_budget : LogicalPartitionId → PrepareError
  reservation_exceeds_budget : LogicalPartitionId → BudgetClass → ℕ → ℕ → PrepareError
  backend_error : BackendError → PrepareError

pub data ExecuteError : Type 0 where
  invalid_state : TransactionState → ExecuteError
  operation_outside_snapshot : OperationRef → ExecuteError
  backend_error : BackendError → ExecuteError

pub data CommitError : Type 0 where
  invalid_state : TransactionState → CommitError
  boundary_not_reached : Set BoundaryRef → CommitError
  publish_failed : BackendError → CommitError

pub data AbortError : Type 0 where
  already_committed : AbortError

pub data TransactionDecision : Type 0 where
  committed : PublicationOrdinal → TransactionDecision
  aborted : TransactionFailure → TransactionDecision

pub record ExecutedOperationRecord : Type 0 where
  pub operation : TransactionOperation
  pub byte_count : ℕ

pub record PublishSummary : Type 0 where
  pub staged_bytes : ℕ
  pub published_bytes : ℕ
  pub atomic : Bool

pub record TeardownFacts : Type 0 where
  pub released_partitions : Set LogicalPartitionId
  pub retired_partitions : Set LogicalPartitionId
  pub partial_publication : Bool

pub record TransactionTimings : Type 0 where
  pub prepare_nanos : ℕ
  pub execute_nanos : ℕ
  pub finalize_nanos : ℕ

-- `TransportReceipt` of src/transport.rs is carried verbatim: its type is the parameter.
pub record TransactionReceipt (TransportReceipt : Type 0) : Type 0 where
  pub transaction_id : TransactionId
  pub logical_distributed_plan_hash : Text
  pub bound_distributed_plan_hash : Text
  pub plan_receipt : PartitionReceipt
  pub reservation_summary : Map LogicalPartitionId ReservationRecord
  pub declared_write_set : Map OutputRef StagedWrite
  pub executed_operations : List ExecutedOperationRecord
  pub synchronization_events : Set OperationEvent
  pub decision : TransactionDecision
  pub publish_summary : Option PublishSummary
  pub teardown : TeardownFacts
  pub timings : TransactionTimings
  pub selected_transports : Option TransportReceipt

-- The end of a call: a result, an error, or a panic at an `expect`.
pub data Outcome {ℓ κ} (A : Type ℓ) (E : Type κ) : Type (ℓ ⊔ κ) where
  ok : A → Outcome A E
  err : E → Outcome A E
  panic : Outcome A E

pub Outcome-cases {ℓ κ} :
    {A : Type ℓ} {E : Type κ} (o : Outcome A E)
    → ((a : A) × (o ≡ ok a)) ⊎ (((e : E) × (o ≡ err e)) ⊎ (o ≡ panic))
Outcome-cases (ok a) = inl (a, refl)
Outcome-cases (err e) = inr (inl (e, refl))
Outcome-cases panic = inr (inr refl)

-- `?` hands an error on, and a panic ends the call.
infixl 5 ◌>>=◌
abbrev pub ◌>>=◌ {ℓ κ υ} :
    {E : Type υ} {A : Type ℓ} {B : Type κ} → Outcome A E → (A → Outcome B E) → Outcome B E
panic >>= next = panic
err e >>= next = err e
ok a >>= next = next a

infixl 5 ◌>>◌
abbrev pub ◌>>◌ {ℓ κ} : {E : Type κ} {B : Type ℓ} → Outcome (Unit {0}) E → Outcome B E → Outcome B E
check >> rest = check >>= λ done. rest

-- Inversion of a chain that succeeds.
pub >>=-eq-ok {ℓ κ υ} :
    {E : Type υ} {A : Type ℓ} {B : Type κ} {result : B} (call : Outcome A E)
    (next : A → Outcome B E)
    → (call >>= next) ≡ ok result
    → (value : A) × (call ≡ ok value) × (next value ≡ ok result)
>>=-eq-ok panic next ended = cc
>>=-eq-ok (err e) next ended = cc
>>=-eq-ok (ok value) next ended = (value, refl, ended)
