-- ===== src/Transaction/Finish.antt =====
-- src/execution_transaction/transaction.rs, `commit` and `abort`. `debug` is the text of a backend
-- error under `{:?}`.
pub mod Undone
pub mod Published
pub mod Aborted
pub mod Settled
use faber_runtime.Base.{
  ℕ, suc, ◌+◌, Bool, true, false, not, ◌||◌, Option, none, some, List, [], ◌∷◌, ◌++◌, map,
  get_elem?, if◌then◌else◌,
}
use faber_runtime.Base.Word.{u64}
use faber_runtime.Base.Result
use faber_runtime.Base.Key.{Text, same, text_key}
use faber_runtime.Base.Map.{Map, Set, lookup, insert, keys, values, contains, add, add_all, of_list}
use faber_runtime.BoundPlan.{LogicalPartitionId, receipt}
use faber_runtime.Transaction.Mirror.{
  TransactionOperation, TransactionOperation-discrete, launch, transfer, collective_broadcast,
  barrier, BarrierRef, LaunchRef, OutputRef, BoundaryRef, barrier_bound, launch_bound, StagedWrite,
  OperationEvent, launch_completed, barrier_completed,
}
use faber_runtime.Transaction.Operation.{
  partitions, operation_ref, byte_count, completed_events, staged_writes, operation_ref_key,
  boundary_ref_key, event_key,
}
use faber_runtime.Transaction.Reservation.{ReservationRecord, derive_declared_write_set}
use faber_runtime.Transaction.State.{
  BackendError, TransactionFailure, backend_failure, cancelled_for, TransactionState, new, prepared,
  executing, failed, is_new, is_prepared, is_executing, PublicationOrdinal, PrepareError,
  ExecuteError, operation_outside_snapshot, CommitError, boundary_not_reached, AbortError,
  already_committed, TransactionDecision, TransactionReceipt, Outcome, ok, err, panic,
}
use faber_runtime.Transaction.Backend.{DeviceExecutionBackend, Reply}
use faber_runtime.Transaction.Plan.{ExecutionTransaction}
use faber_runtime.Transaction.Boundary.{
  missing_boundary_refs, join_events, refresh_completed_events,
}
use faber_runtime.Transaction.Coordinator.{
  End, fail, difference, reserved_partitions, build_receipt,
}
use faber_runtime.Transaction.Check.{AcceptedPlan, check_plan, expect}

module _ {S : Type 0} (b : DeviceExecutionBackend S) where
  unfoldable pub release_all : List LogicalPartitionId → S → S
  release_all [] s = s
  release_all (p ∷ ps) s = release_all ps (b.release p s)

  pub retire_all : List LogicalPartitionId → TransactionFailure → S → S
  retire_all [] f s = s
  retire_all (p ∷ ps) f s = retire_all ps f (b.retire p f s)

module _ {TR : Type 0} where
  pub staged_partitions : ExecutionTransaction TR → Set LogicalPartitionId
  staged_partitions t = of_list (map (λ w. w.partition) (values t.staged_write_set))

module _ {TR S : Type 0} where
  -- The receipt is built last, and kept.
  unfoldable pub finish :
      ExecutionTransaction TR → S → {E : Type 0} → End TR S (TransactionReceipt TR) E
  finish t s = elim (build_receipt t) [
    | none ↦ (panic, t, s)
    | some r ↦ (ok r, record t { receipt = some r }, s)
  ]

module _ {TR S : Type 0} (b : DeviceExecutionBackend S) where
  unfoldable pub commit_published :
      (BackendError → Text)
      → PublicationOrdinal
      → ℕ
      → ExecutionTransaction TR
      → Reply S
      → End TR S (TransactionReceipt TR) CommitError
  commit_published debug ordinal nanos t (Result.err e, s) =
      (err (CommitError.publish_failed e), fail t (TransactionFailure.publish_failed (debug e)), s)
  commit_published debug ordinal nanos t (Result.ok done, s) =
      let reserved = keys (reserved_partitions t) in
      let s' = release_all b reserved s in
      finish
        (record t {
          teardown = record t.teardown {
            released_partitions = add_all reserved t.teardown.released_partitions;
          };
          publish_summary = some (record {
            staged_bytes = b.staged_bytes s';
            published_bytes = b.published_bytes s';
            atomic = true;
          });
          decision = some (TransactionDecision.committed ordinal);
          state = TransactionState.committed;
          timings = record t.timings { finalize_nanos = u64 nanos };
        })
        s'

  unfoldable pub commit_joined :
      (BackendError → Text)
      → PublicationOrdinal
      → ℕ
      → ExecutionTransaction TR
      → S
      → End TR S (TransactionReceipt TR) CommitError
  unfolding commit_published
  commit_joined debug ordinal nanos t s =
      elim (missing_boundary_refs t.operations t.commit_boundary t.completed_events) [
        | [] ↦ commit_published debug ordinal nanos t (b.publish s)
        | m ∷ ms ↦ (err (boundary_not_reached (m ∷ ms)), t, s)
      ]

  unfoldable pub commit :
      (BackendError → Text)
      → PublicationOrdinal
      → ℕ
      → ExecutionTransaction TR
      → S
      → End TR S (TransactionReceipt TR) CommitError
  unfolding commit_joined
  commit debug ordinal nanos t s =
      if is_executing t.state
      then commit_joined debug ordinal nanos
          (record t {
            completed_events =
                refresh_completed_events (λ e. b.event_completed e s) t.operations
                  t.completed_events;
          })
          s
      else (err (CommitError.invalid_state t.state), t, s)

  unfoldable pub abort_live :
      TransactionFailure
      → ℕ
      → ExecutionTransaction TR
      → S
      → End TR S (TransactionReceipt TR) AbortError
  unfolding staged_partitions
  abort_live f nanos t s =
      let staged = staged_partitions t in
      let others = difference (keys (reserved_partitions t)) staged in
      let s' = release_all b others (retire_all b (keys staged) f s) in
      finish
        (record t {
          teardown = record t.teardown {
            retired_partitions = add_all (keys staged) t.teardown.retired_partitions;
            released_partitions = add_all others t.teardown.released_partitions;
          };
          failure = some f;
          state = TransactionState.aborted f;
          decision = some (TransactionDecision.aborted f);
          timings = record t.timings { finalize_nanos = u64 nanos };
        })
        s'

  unfoldable pub abort_in :
      TransactionState
      → Text
      → ℕ
      → ExecutionTransaction TR
      → S
      → End TR S (TransactionReceipt TR) AbortError
  unfolding abort_live
  abort_in (TransactionState.aborted f) reason nanos t s = (expect t.receipt, t, s)
  abort_in TransactionState.committed reason nanos t s = (err already_committed, t, s)
  abort_in (failed f) reason nanos t s = abort_live f nanos t s
  abort_in new reason nanos t s = abort_live (cancelled_for reason) nanos t s
  abort_in prepared reason nanos t s = abort_live (cancelled_for reason) nanos t s
  abort_in executing reason nanos t s = abort_live (cancelled_for reason) nanos t s

  unfoldable pub abort :
      Text → ℕ → ExecutionTransaction TR → S → End TR S (TransactionReceipt TR) AbortError
  unfolding abort_in
  abort reason nanos t s = abort_in t.state reason nanos t s
