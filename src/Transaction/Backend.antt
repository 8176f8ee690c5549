-- ===== src/Transaction/Backend.antt =====
-- src/execution_transaction/backend.rs: the device backend that a transaction drives, and the
-- repository's fake of it. `S` is the state of the backend; a method that mutates it returns it.
use faber_runtime.Base.{ℕ, ◌+◌, ◌-◌, Bool, true, false, List, [], ◌∷◌, ◌++◌, if◌then◌else◌}
use faber_runtime.Base.Word.{u64, saturating_add}
use faber_runtime.Base.Result.{Result, ok, err}
use faber_runtime.Base.Key.{Text, text, same, text_key}
use faber_runtime.Base.Map.{Map, Set, insert, remove, keys, contains, contains_key, add, add_all}
use faber_runtime.BoundPlan.{LogicalPartitionId}
use faber_runtime.Transaction.Mirror.{StagedWrite, OutputRef, TransactionOperation, OperationEvent}
use faber_runtime.Transaction.Operation.{completed_events, event_key}
use faber_runtime.Transaction.Reservation.{ReservationRecord}
use faber_runtime.Transaction.State.{BackendError, allocation, operation, TransactionFailure}

abbrev pub Reply : Type 0 → Type 0
Reply S = Result (Unit {0}) BackendError × S

pub record DeviceExecutionBackend (S : Type 0) : Type 0 where
  pub reserve : LogicalPartitionId → ReservationRecord → S → Reply S
  pub run_operation : TransactionOperation → S → Reply S
  pub event_completed : OperationEvent → S → Bool
  pub stage_write : StagedWrite → S → Reply S
  pub publish : S → Reply S
  pub staged_bytes : S → ℕ
  pub published_bytes : S → ℕ
  pub release : LogicalPartitionId → S → S
  pub retire : LogicalPartitionId → TransactionFailure → S → S

pub record FakeExecutionBackend : Type 0 where
  pub reservations : Map LogicalPartitionId ReservationRecord
  pub staged_writes : Map OutputRef StagedWrite
  pub published_writes : Map OutputRef StagedWrite
  pub staged_total_bytes : ℕ
  pub published_total_bytes : ℕ
  pub published_once : Bool
  pub executed_operations : List TransactionOperation
  pub dispatched_events : Set OperationEvent
  pub completed_events : Set OperationEvent
  pub released_partitions : Set LogicalPartitionId
  pub retired_partitions : Set LogicalPartitionId
  pub auto_complete : Bool

unfoldable pub fake_new : FakeExecutionBackend
fake_new = record {
  reservations = [];
  staged_writes = [];
  published_writes = [];
  staged_total_bytes = 0;
  published_total_bytes = 0;
  published_once = false;
  executed_operations = [];
  dispatched_events = [];
  completed_events = [];
  released_partitions = [];
  retired_partitions = [];
  auto_complete = true;
}

unfoldable pub set_auto_complete : FakeExecutionBackend → Bool → FakeExecutionBackend
set_auto_complete s on = record s { auto_complete = on }

unfoldable pub complete_event : FakeExecutionBackend → OperationEvent → FakeExecutionBackend
complete_event s e = record s {
  dispatched_events = add e s.dispatched_events;
  completed_events = add e s.completed_events;
}

unfoldable pub fake_reserve :
    LogicalPartitionId → ReservationRecord → FakeExecutionBackend → Reply FakeExecutionBackend
fake_reserve p r s =
    if contains_key p s.reservations
    then (err (allocation p (text "partition " ++ (p ++ text " already holds a reservation"))), s)
    else (ok tt, record s { reservations = insert p r s.reservations })

unfoldable pub fake_run_operation :
    TransactionOperation → FakeExecutionBackend → Reply FakeExecutionBackend
fake_run_operation op s =
    let events = keys (completed_events op) in
    (
      ok tt,
      record s {
        executed_operations = s.executed_operations ++ op ∷ [];
        dispatched_events = add_all events s.dispatched_events;
        completed_events =
            if s.auto_complete then add_all events s.completed_events else s.completed_events;
      },
    )

unfoldable pub fake_stage_write : StagedWrite → FakeExecutionBackend → Reply FakeExecutionBackend
fake_stage_write w s =
    if contains_key w.output_ref s.staged_writes
    then (
      err (allocation w.partition (text "output " ++ (w.output_ref ++ text " staged twice"))),
      s,
    )
    else (
      ok tt,
      record s {
        staged_total_bytes = saturating_add s.staged_total_bytes w.byte_count;
        staged_writes = insert w.output_ref w s.staged_writes;
      },
    )

-- The text holds a dash of three bytes.
one_shot : Text
one_shot = text "publish called twice " ++ (226 ∷ 128 ∷ 148 ∷ text " publication is one-shot")

unfoldable pub fake_publish : FakeExecutionBackend → Reply FakeExecutionBackend
unfolding one_shot
fake_publish s = if s.published_once then (err (operation (text "unknown") one_shot), s) else (
  ok tt,
  record s {
    published_writes = s.staged_writes;
    published_total_bytes = s.staged_total_bytes;
    published_once = true;
  },
)

unfoldable pub fake_release : LogicalPartitionId → FakeExecutionBackend → FakeExecutionBackend
fake_release p s = record s {
  reservations = remove p s.reservations;
  released_partitions = add p s.released_partitions;
}

-- The bytes staged for a partition (a sum that wraps), and the writes kept when it is retired.
bytes_of : LogicalPartitionId → Map OutputRef StagedWrite → ℕ
bytes_of p [] = 0
bytes_of p ((o, w) ∷ m) =
    let rest = bytes_of p m in if same w.partition p then u64 (w.byte_count + rest) else rest

writes_but : LogicalPartitionId → Map OutputRef StagedWrite → Map OutputRef StagedWrite
writes_but p [] = []
writes_but p ((o, w) ∷ m) =
    let rest = writes_but p m in if same w.partition p then rest else (o, w) ∷ rest

-- `saturating_sub` of the retired bytes.
unfoldable pub fake_retire :
    LogicalPartitionId → TransactionFailure → FakeExecutionBackend → FakeExecutionBackend
unfolding bytes_of writes_but
fake_retire p failure s = record s {
  staged_total_bytes = s.staged_total_bytes - bytes_of p s.staged_writes;
  staged_writes = writes_but p s.staged_writes;
  reservations = remove p s.reservations;
  retired_partitions = add p s.retired_partitions;
}

abbrev pub fake_backend : DeviceExecutionBackend FakeExecutionBackend
fake_backend = record {
  reserve = fake_reserve;
  run_operation = fake_run_operation;
  event_completed = λ e s. contains e s.completed_events;
  stage_write = fake_stage_write;
  publish = fake_publish;
  staged_bytes = λ s. s.staged_total_bytes;
  published_bytes = λ s. s.published_total_bytes;
  release = fake_release;
  retire = fake_retire;
}
