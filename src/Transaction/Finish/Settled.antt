-- ===== src/Transaction/Finish/Settled.antt =====
-- `commit` of src/execution_transaction/transaction.rs on the fake backend of backend.rs.
use faber_runtime.Base.{ℕ, ◌≡◌, refl, ◌≢◌, ◌⊎◌, true, false, arith, is_some}
use faber_runtime.Base.Key.{Text, text_key}
use faber_runtime.Base.Map.{keys}
use faber_runtime.Transaction.State.{
  BackendError, TransactionFailure, cancelled_for, TransactionState, new, prepared, executing,
  failed,
}
use faber_runtime.Transaction.Backend.{FakeExecutionBackend, fake_backend, fake_publish}
use faber_runtime.Transaction.Plan.{ExecutionTransaction}
use faber_runtime.Transaction.Coordinator.{fail, reserved_partitions, build_receipt}
use faber_runtime.Transaction.Finish.{
  finish, commit_published, commit_joined, commit, abort, abort_in, abort_live,
}
use faber_runtime.Transaction.Finish.Aborted.{release_all-published}
use faber_runtime.Transaction.Finish.Published.{joined}

module _ {TR : Type 0} where
  -- The commit waits, with nothing changed but the completed events.
  abbrev pub Waiting :
      ExecutionTransaction TR
      → FakeExecutionBackend
      → ExecutionTransaction TR
      → FakeExecutionBackend
      → Type 0
  Waiting t s t' s' =
      (t'.state ≡ t.state)
      × (t'.staged_write_set ≡ t.staged_write_set)
      × (t'.operations ≡ t.operations)
      × (t'.operation_keys ≡ t.operation_keys)
      × (t'.receipt ≡ t.receipt)
      × (s' ≡ s)

  -- All that was staged is published, and nothing else.
  abbrev pub Done :
      ExecutionTransaction TR
      → FakeExecutionBackend
      → ExecutionTransaction TR
      → FakeExecutionBackend
      → Type 0
  Done t s t' s' =
      (t.state ≡ executing)
      × (t'.state ≡ TransactionState.committed)
      × (t'.operations ≡ t.operations)
      × (is_some t'.receipt ≡ true)
      × (s'.published_writes ≡ s.staged_writes)

  commit_published_fake :
      (debug : BackendError → Text) (ordinal nanos : ℕ) (t : ExecutionTransaction TR)
      (s : FakeExecutionBackend)
      → s.published_once ≡ false
      → t.state ≡ executing
      → let (end, t', s') = commit_published fake_backend debug ordinal nanos t (fake_publish s) in
        Done t s t' s'
  unfolding commit_published finish build_receipt fake_publish
  commit_published_fake debug ordinal nanos t s free x =
      ground (arith, release_all-published (keys (reserved_partitions t)) (fake_publish s).1)

  -- While nothing is published, a commit either waits or publishes everything that is staged.
  pub commit_fake :
      (debug : BackendError → Text) (ordinal nanos : ℕ) (t : ExecutionTransaction TR)
      (s : FakeExecutionBackend)
      → s.published_once ≡ false
      → let (end, t', s') = commit fake_backend debug ordinal nanos t s in
        Waiting t s t' s' ⊎ Done t s t' s'
  unfolding commit commit_joined
  commit_fake debug ordinal nanos t s free = ground (
    arith,
    commit_published_fake debug ordinal nanos
        (record t { completed_events = joined fake_backend t s }) s free,
  )

  pub commit_unexecuted :
      (debug : BackendError → Text) (ordinal nanos : ℕ) (t : ExecutionTransaction TR)
      (s : FakeExecutionBackend)
      → t.state ≢ executing
      → let (end, t', s') = commit fake_backend debug ordinal nanos t s in (t' ≡ t) × (s' ≡ s)
  unfolding commit
  commit_unexecuted debug ordinal nanos t s h = ground arith

  pub abort_ended :
      (reason : Text) (nanos : ℕ) (t : ExecutionTransaction TR) (s : FakeExecutionBackend)
      → (t.state ≡ TransactionState.committed)
        ⊎ ((f : TransactionFailure) × (t.state ≡ TransactionState.aborted f))
      → let (end, t', s') = abort fake_backend reason nanos t s in (t' ≡ t) × (s' ≡ s)
  unfolding abort abort_in
  abort_ended reason nanos t s h = ground arith

  pub commit-operations :
      (debug : BackendError → Text) (ordinal nanos : ℕ) (t : ExecutionTransaction TR)
      (s : FakeExecutionBackend)
      → (commit fake_backend debug ordinal nanos t s).1.operations ≡ t.operations
  unfolding commit commit_joined commit_published finish build_receipt fail
  commit-operations debug ordinal nanos t s = ground arith

  abort_live-operations :
      (f : TransactionFailure) (nanos : ℕ) (t : ExecutionTransaction TR) (s : FakeExecutionBackend)
      → (abort_live fake_backend f nanos t s).1.operations ≡ t.operations
  unfolding abort_live finish build_receipt
  abort_live-operations f nanos t s = refl

  abort_in-operations :
      (x : TransactionState) (reason : Text) (nanos : ℕ) (t : ExecutionTransaction TR)
      (s : FakeExecutionBackend)
      → (abort_in fake_backend x reason nanos t s).1.operations ≡ t.operations
  unfolding abort_in
  abort_in-operations TransactionState.committed reason nanos t s = refl
  abort_in-operations (TransactionState.aborted f) reason nanos t s = refl
  abort_in-operations (failed f) reason nanos t s = abort_live-operations f nanos t s
  abort_in-operations new reason nanos t s = abort_live-operations (cancelled_for reason) nanos t s
  abort_in-operations prepared reason nanos t s =
      abort_live-operations (cancelled_for reason) nanos t s
  abort_in-operations executing reason nanos t s =
      abort_live-operations (cancelled_for reason) nanos t s

  pub abort-operations :
      (reason : Text) (nanos : ℕ) (t : ExecutionTransaction TR) (s : FakeExecutionBackend)
      → (abort fake_backend reason nanos t s).1.operations ≡ t.operations
  unfolding abort
  abort-operations reason nanos t s = abort_in-operations t.state reason nanos t s
