-- ===== src/Transaction/Execute.antt =====
-- src/execution_transaction/transaction.rs, `execute_operation` and `execute`.
pub mod Ran
pub mod Snapshot
pub mod Staging
pub mod Settled
pub mod Once
use faber_runtime.Base.{
  ℕ, suc, ◌+◌, Bool, true, false, not, ◌||◌, Option, none, some, List, [], ◌∷◌, ◌++◌, map,
  get_elem?, if◌then◌else◌,
}
use faber_runtime.Base.Word.{u64}
use faber_runtime.Base.Result
use faber_runtime.Base.Key.{Text, same, text_key}
use faber_runtime.Base.Map.{Map, Set, lookup, insert, keys, values, contains, add, add_all, of_list}
use faber_runtime.BoundPlan.{LogicalPartitionId, receipt}
use faber_runtime.Transaction.Mirror.{
  TransactionOperation, TransactionOperation-discrete, launch, transfer, collective_broadcast,
  barrier, BarrierRef, LaunchRef, OutputRef, BoundaryRef, barrier_bound, launch_bound, StagedWrite,
  OperationEvent, launch_completed, barrier_completed,
}
use faber_runtime.Transaction.Operation.{
  partitions, operation_ref, byte_count, completed_events, staged_writes, operation_ref_key,
  boundary_ref_key, event_key,
}
use faber_runtime.Transaction.Reservation.{ReservationRecord, derive_declared_write_set}
use faber_runtime.Transaction.State.{
  BackendError, TransactionFailure, backend_failure, cancelled_for, TransactionState, prepared,
  executing, failed, is_new, is_prepared, is_executing, PublicationOrdinal, PrepareError,
  ExecuteError, operation_outside_snapshot, CommitError, boundary_not_reached, AbortError,
  already_committed, TransactionDecision, TransactionReceipt, Outcome, ok, err, panic,
}
use faber_runtime.Transaction.Backend.{DeviceExecutionBackend, Reply}
use faber_runtime.Transaction.Plan.{ExecutionTransaction}
use faber_runtime.Transaction.Boundary.{
  missing_boundary_refs, join_events, refresh_completed_events,
}
use faber_runtime.Transaction.Coordinator.{
  End, fail, difference, reserved_partitions, build_receipt,
}
use faber_runtime.Transaction.Check.{AcceptedPlan, check_plan, expect}

module _ {S : Type 0} (b : DeviceExecutionBackend S) where
  -- The writes of one operation, until the backend refuses one.
  unfoldable pub stage :
      List StagedWrite
      → Map OutputRef StagedWrite
      → S
      → Result.Result (Unit {0}) BackendError × Map OutputRef StagedWrite × S
  stage [] m s = (Result.ok tt, m, s)
  stage (w ∷ ws) m s =
      let (reply, next) = b.stage_write w s in
      elim reply [
        | Result.ok done ↦ stage ws (insert w.output_ref w m) next
        | Result.err e ↦ (Result.err e, m, next)
      ]

module _ {TR S : Type 0} where
  unfoldable pub timed : ℕ → End TR S (Unit {0}) ExecuteError → End TR S (Unit {0}) ExecuteError
  timed nanos (end, t, s) =
      (end, record t { timings = record t.timings { execute_nanos = u64 nanos } }, s)

module _ {TR S : Type 0} (b : DeviceExecutionBackend S) where
  unfoldable pub execute_staged :
      ExecutionTransaction TR
      → TransactionOperation
      → Result.Result (Unit {0}) BackendError × Map OutputRef StagedWrite × S
      → End TR S (Unit {0}) ExecuteError
  execute_staged t op (Result.err e, m, s) = (
    err (ExecuteError.backend_error e),
    fail (record t { staged_write_set = m }) (backend_failure e),
    s,
  )
  execute_staged t op (Result.ok done, m, s) = (
    ok tt,
    record t {
      staged_write_set = m;
      executed_operations =
          t.executed_operations ++ record { operation = op; byte_count = byte_count op } ∷ [];
      completed_events =
          join_events (λ e. b.event_completed e s) (keys (completed_events op)) t.completed_events;
    },
    s,
  )

  unfoldable pub execute_run :
      ExecutionTransaction TR → TransactionOperation → Reply S → End TR S (Unit {0}) ExecuteError
  unfolding execute_staged
  execute_run t op (Result.err e, s) =
      (err (ExecuteError.backend_error e), fail t (backend_failure e), s)
  execute_run t op (Result.ok done, s) =
      execute_staged t op (stage b (staged_writes op) t.staged_write_set s)

  -- The operation must be the accepted one, in every declared fact.
  unfoldable pub execute_accepted :
      ExecutionTransaction TR
      → TransactionOperation
      → S
      → Option TransactionOperation
      → End TR S (Unit {0}) ExecuteError
  unfolding execute_run
  execute_accepted t op s none = (panic, t, s)
  execute_accepted t op s (some accepted) = elim (TransactionOperation-discrete accepted op) [
    | yes same_op ↦ execute_run t op (b.run_operation op s)
    | no other ↦ (err (operation_outside_snapshot (operation_ref op)), t, s)
  ]

  unfoldable pub execute_operation :
      ExecutionTransaction TR → TransactionOperation → S → End TR S (Unit {0}) ExecuteError
  unfolding execute_accepted
  execute_operation t op s =
      if is_executing t.state
      then elim (lookup (operation_ref op) t.operation_keys) [
        | none ↦ (err (operation_outside_snapshot (operation_ref op)), t, s)
        | some index ↦ execute_accepted t op s (get_elem? t.operations index)
      ]
      else (err (ExecuteError.invalid_state t.state), t, s)

  unfoldable pub execute_all :
      List TransactionOperation → ExecutionTransaction TR → S → End TR S (Unit {0}) ExecuteError
  execute_all [] t s = (ok tt, t, s)
  execute_all (op ∷ ops) t s =
      let (end, t', s') = execute_operation t op s in
      elim end [
        | ok done ↦ execute_all ops t' s'
        | err e ↦ (err e, t', s')
        | panic ↦ (panic, t', s')
      ]

  unfoldable pub execute : ExecutionTransaction TR → ℕ → S → End TR S (Unit {0}) ExecuteError
  unfolding timed execute_all
  execute t nanos s =
      if is_prepared t.state
      then timed nanos (execute_all t.operations (record t { state = executing }) s)
      else (err (ExecuteError.invalid_state t.state), t, s)
