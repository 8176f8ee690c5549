-- ===== src/Transaction/Lifecycle.antt =====
-- Any sequence of calls on one transaction of src/execution_transaction/transaction.rs, over the
-- fake backend of backend.rs, with the events that a test completes by hand in between.
pub mod Consistent
pub mod Atomic
use faber_runtime.Base.{
  ℕ, zero, suc, ◌≡◌, refl, sym, ap, ◌∙◌, subst, ◌≢◌, ◌⊎◌, inl, inr, Bool, true, false, Option, none,
  some, List, [], ◌∷◌, arith, if◌then◌else◌, is_some, get_elem?,
}
use faber_runtime.Base.Result
use faber_runtime.Base.Key.{Text, text_key}
use faber_runtime.Base.Map.{Map, lookup, keys}
use faber_runtime.BoundPlan.{BoundDistributedPlan}
use faber_runtime.Transaction.Mirror.{
  TransactionOperation, TransactionCommitBoundary, OutputRef, OperationEvent, StagedWrite,
}
use faber_runtime.Transaction.Operation.{operation_ref, operation_ref_key}
use faber_runtime.Transaction.Reservation.{insert_all, derive_declared_write_set}
use faber_runtime.Transaction.State.{
  BackendError, TransactionId, TransactionState, TransactionFailure, new, prepared, executing,
  failed, is_failed, is_executing, Outcome, ok, err, panic,
}
use faber_runtime.Transaction.Backend.{
  FakeExecutionBackend, fake_backend, fake_new, complete_event, set_auto_complete,
}
use faber_runtime.Transaction.Plan.{ExecutionTransaction}
use faber_runtime.Transaction.Prepare.{prepare}
use faber_runtime.Transaction.Prepare.Sound.{Prepared, prepare_ok, prepare-staged}
use faber_runtime.Transaction.Execute.{execute, execute_operation}
use faber_runtime.Transaction.Execute.Snapshot.{execute_ok}
use faber_runtime.Transaction.Execute.Staging.{
  Quiet, Ran, execute_operation-Ran, execute-Quiet, execute_unprepared, execute_operation_stopped,
}
use faber_runtime.Transaction.Execute.Settled.{
  IsIndexed, SamePlan, execute_operation_plan, execute_settled,
}
use faber_runtime.Transaction.Execute.Once.{execute_operation_once}
use faber_runtime.Transaction.Finish.{commit, abort}
use faber_runtime.Transaction.Finish.Aborted.{
  IsLive, first_failure, Aborted, abort_lem, abort-published,
}
use faber_runtime.Transaction.Finish.Settled.{commit_fake}

pub data Call : Type 0 where
  prepare_call execute_call : ℕ → Call
  operation_call : TransactionOperation → Call
  commit_call : (BackendError → Text) → ℕ → ℕ → Call
  abort_call : Text → ℕ → Call
  complete_call : OperationEvent → Call
  auto_complete_call : Bool → Call

module _ {TR : Type 0} where
  abbrev pub call :
      Call
      → ExecutionTransaction TR
      → FakeExecutionBackend
      → ExecutionTransaction TR × FakeExecutionBackend
  call (prepare_call n) t s = let (_, t', s') = prepare fake_backend t n s in (t', s')
  call (execute_call n) t s = let (_, t', s') = execute fake_backend t n s in (t', s')
  call (operation_call op) t s = let (_, t', s') = execute_operation fake_backend t op s in (t', s')
  call (commit_call debug ordinal n) t s =
      let (_, t', s') = commit fake_backend debug ordinal n t s in (t', s')
  call (abort_call reason n) t s = let (_, t', s') = abort fake_backend reason n t s in (t', s')
  call (complete_call e) t s = (t, complete_event s e)
  call (auto_complete_call on) t s = (t, set_auto_complete s on)

  abbrev pub run :
      List Call
      → ExecutionTransaction TR
      → FakeExecutionBackend
      → ExecutionTransaction TR × FakeExecutionBackend
  run [] t s = (t, s)
  run (c ∷ cs) t s = let (t', s') = call c t s in run cs t' s'

  -- Nothing is published, and every staged write is on record.
  pub record Open (t : ExecutionTransaction TR) (s : FakeExecutionBackend) : Type 0 where
    pub in_step : t.staged_write_set ≡ s.staged_writes
    pub writes : s.published_writes ≡ []
    pub once : s.published_once ≡ false

  -- What stands of the transaction and the backend in each state.
  abbrev pub Phase : TransactionState → ExecutionTransaction TR → FakeExecutionBackend → Type 0
  Phase new t s = Open t s × (t.staged_write_set ≡ [])
  Phase prepared t s = Open t s × (t.staged_write_set ≡ []) × IsIndexed t
  Phase executing t s =
      Open t s × (t.staged_write_set ≡ derive_declared_write_set t.operations) × IsIndexed t
  Phase (failed f) t s = Open t s
  Phase TransactionState.committed t s =
      (s.published_writes ≡ derive_declared_write_set t.operations) × (is_some t.receipt ≡ true)
  Phase (TransactionState.aborted f) t s = (s.published_writes ≡ []) × (is_some t.receipt ≡ true)

  abbrev pub IsConsistent : ExecutionTransaction TR → FakeExecutionBackend → Type 0
  IsConsistent t s = Phase t.state t s
