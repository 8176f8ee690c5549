-- ===== src/Transaction/Prepare.antt =====
-- src/execution_transaction/transaction.rs, `prepare`.
pub mod Sound
use faber_runtime.Base.{
  ℕ, suc, ◌+◌, Bool, true, false, not, ◌||◌, Option, none, some, List, [], ◌∷◌, ◌++◌, map,
  get_elem?, if◌then◌else◌,
}
use faber_runtime.Base.Word.{u64}
use faber_runtime.Base.Result
use faber_runtime.Base.Key.{Text, same, text_key}
use faber_runtime.Base.Map.{Map, Set, lookup, insert, keys, values, contains, add, add_all, of_list}
use faber_runtime.BoundPlan.{LogicalPartitionId, receipt}
use faber_runtime.Transaction.Mirror.{
  TransactionOperation, TransactionOperation-discrete, launch, transfer, collective_broadcast,
  barrier, BarrierRef, LaunchRef, OutputRef, BoundaryRef, barrier_bound, launch_bound, StagedWrite,
  OperationEvent, launch_completed, barrier_completed,
}
use faber_runtime.Transaction.Operation.{
  partitions, operation_ref, byte_count, completed_events, staged_writes, operation_ref_key,
  boundary_ref_key, event_key,
}
use faber_runtime.Transaction.Reservation.{ReservationRecord, derive_declared_write_set}
use faber_runtime.Transaction.State.{
  BackendError, TransactionFailure, backend_failure, cancelled_for, TransactionState, prepared,
  executing, failed, is_new, is_prepared, is_executing, PublicationOrdinal, PrepareError,
  ExecuteError, operation_outside_snapshot, CommitError, boundary_not_reached, AbortError,
  already_committed, TransactionDecision, TransactionReceipt, Outcome, ok, err, panic,
}
use faber_runtime.Transaction.Backend.{DeviceExecutionBackend, Reply}
use faber_runtime.Transaction.Plan.{ExecutionTransaction}
use faber_runtime.Transaction.Boundary.{
  missing_boundary_refs, join_events, refresh_completed_events,
}
use faber_runtime.Transaction.Coordinator.{
  End, fail, difference, reserved_partitions, build_receipt,
}
use faber_runtime.Transaction.Check.{AcceptedPlan, check_plan, expect}

module _ {S : Type 0} (b : DeviceExecutionBackend S) where
  -- Hold the reservation on the backend, partition by partition.
  unfoldable pub hold : Map LogicalPartitionId ReservationRecord → S → Reply S
  hold [] s = (Result.ok tt, s)
  hold ((p, r) ∷ m) s =
      let (reply, next) = b.reserve p r s in
      elim reply [ Result.ok done ↦ hold m next | Result.err e ↦ (Result.err e, next) ]

module _ {TR S : Type 0} where
  unfoldable pub prepare_held :
      ExecutionTransaction TR → ℕ → AcceptedPlan → Reply S → End TR S (Unit {0}) PrepareError
  prepare_held t nanos plan (Result.err e, s) = (err (PrepareError.backend_error e), t, s)
  prepare_held t nanos plan (Result.ok done, s) = (
    ok tt,
    record t {
      operation_keys = plan.operation_keys;
      reservation = some plan.reservation;
      declared_write_set = derive_declared_write_set t.operations;
      timings = record t.timings { prepare_nanos = u64 nanos };
      state = prepared;
    },
    s,
  )

module _ {TR S : Type 0} (b : DeviceExecutionBackend S) where
  unfoldable pub prepare : ExecutionTransaction TR → ℕ → S → End TR S (Unit {0}) PrepareError
  unfolding prepare_held
  prepare t nanos s =
      if is_new t.state
      then elim (check_plan t.bound_plan t.operations t.commit_boundary) [
        | ok plan ↦ prepare_held t nanos plan (hold b plan.reservation s)
        | err e ↦ (err e, t, s)
        | panic ↦ (panic, t, s)
      ]
      else (err (PrepareError.invalid_state t.state), t, s)
