-- ===== src/Transaction/Lifecycle/Atomic.antt =====
-- What the fake backend of backend.rs has published after any calls of
-- src/execution_transaction/transaction.rs: the declared writes, all of them or none.
use faber_runtime.Base.{
  ℕ, ◌≡◌, refl, sym, ap, ◌∙◌, subst, inl, inr, true, List, [], ◌∷◌, arith, if◌then◌else◌, is_some,
}
use faber_runtime.Base.Result
use faber_runtime.Base.Key.{Text, text_key}
use faber_runtime.BoundPlan.{BoundDistributedPlan}
use faber_runtime.Transaction.Mirror.{TransactionOperation, TransactionCommitBoundary}
use faber_runtime.Transaction.Operation.{operation_ref_key}
use faber_runtime.Transaction.Reservation.{derive_declared_write_set}
use faber_runtime.Transaction.State.{
  BackendError, TransactionId, TransactionState, new, prepared, executing, failed, is_committed,
  is_ended,
}
use faber_runtime.Transaction.Backend.{
  FakeExecutionBackend, fake_backend, fake_new, complete_event, set_auto_complete,
}
use faber_runtime.Transaction.Plan
use faber_runtime.Transaction.Plan.{ExecutionTransaction, new_lem}
use faber_runtime.Transaction.Prepare.Sound.{prepare-staged}
use faber_runtime.Transaction.Execute.{execute, execute_operation}
use faber_runtime.Transaction.Execute.Staging.{execute_unprepared, execute_operation_stopped}
use faber_runtime.Transaction.Execute.Settled.{execute_operation_plan, execute-operations}
use faber_runtime.Transaction.Finish.{commit, abort}
use faber_runtime.Transaction.Finish.Settled.{
  commit_unexecuted, abort_ended, commit-operations, abort-operations,
}
use faber_runtime.Transaction.Lifecycle.{
  Call, prepare_call, execute_call, operation_call, commit_call, abort_call, complete_call,
  auto_complete_call, call, run, Phase, IsConsistent,
}
use faber_runtime.Transaction.Lifecycle.Consistent.{
  unchanged, still, Phase-IsConsistent, prepare-IsConsistent, execute_prepared, operation_executing,
  commit_executing, abort_open,
}

module _ {TR : Type 0} where
  execute-IsConsistent :
      (x : TransactionState) (n : ℕ) (t : ExecutionTransaction TR) (s : FakeExecutionBackend)
      → t.state ≡ x
      → IsConsistent t s
      → let (t', s') = call (execute_call n) t s in IsConsistent t' s'
  execute-IsConsistent prepared n t s e h =
      execute_prepared n t s e (Phase-IsConsistent prepared t s e h)
  execute-IsConsistent x n t s e h =
      let (_, t', s') = execute fake_backend t n s in
      still t t' s s' (execute_unprepared t n s (ground arith)) h

  operation-IsConsistent :
      (x : TransactionState) (op : TransactionOperation) (t : ExecutionTransaction TR)
      (s : FakeExecutionBackend)
      → t.state ≡ x
      → IsConsistent t s
      → let (t', s') = call (operation_call op) t s in IsConsistent t' s'
  operation-IsConsistent executing op t s e h =
      operation_executing op t s e (Phase-IsConsistent executing t s e h)
  operation-IsConsistent x op t s e h =
      let (_, t', s') = execute_operation fake_backend t op s in
      still t t' s s' (execute_operation_stopped t op s (ground arith)) h

  commit-IsConsistent :
      (x : TransactionState) (debug : BackendError → Text) (ordinal n : ℕ)
      (t : ExecutionTransaction TR) (s : FakeExecutionBackend)
      → t.state ≡ x
      → IsConsistent t s
      → let (t', s') = call (commit_call debug ordinal n) t s in IsConsistent t' s'
  commit-IsConsistent executing debug ordinal n t s e h =
      commit_executing debug ordinal n t s e (Phase-IsConsistent executing t s e h)
  commit-IsConsistent x debug ordinal n t s e h =
      let (_, t', s') = commit fake_backend debug ordinal n t s in
      still t t' s s' (commit_unexecuted debug ordinal n t s (ground arith)) h

  abort-IsConsistent :
      (x : TransactionState) (reason : Text) (n : ℕ) (t : ExecutionTransaction TR)
      (s : FakeExecutionBackend)
      → t.state ≡ x
      → IsConsistent t s
      → let (t', s') = call (abort_call reason n) t s in IsConsistent t' s'
  abort-IsConsistent TransactionState.committed reason n t s e h =
      let (_, t', s') = abort fake_backend reason n t s in
      still t t' s s' (abort_ended reason n t s (inl e)) h
  abort-IsConsistent (TransactionState.aborted f) reason n t s e h =
      let (_, t', s') = abort fake_backend reason n t s in
      still t t' s s' (abort_ended reason n t s (inr (f, e))) h
  abort-IsConsistent new reason n t s e h =
      abort_open reason n t s (rw e tt) (Phase-IsConsistent new t s e h).0.writes
  abort-IsConsistent prepared reason n t s e h =
      abort_open reason n t s (rw e tt) (Phase-IsConsistent prepared t s e h).0.writes
  abort-IsConsistent executing reason n t s e h =
      abort_open reason n t s (rw e tt) (Phase-IsConsistent executing t s e h).0.writes
  abort-IsConsistent (failed f) reason n t s e h =
      abort_open reason n t s (rw e tt) (Phase-IsConsistent (failed f) t s e h).writes

  call-IsConsistent :
      (c : Call) (t : ExecutionTransaction TR) (s : FakeExecutionBackend)
      → IsConsistent t s
      → let (t', s') = call c t s in IsConsistent t' s'
  unfolding complete_event set_auto_complete
  call-IsConsistent (prepare_call n) t s h = prepare-IsConsistent n t s h
  call-IsConsistent (execute_call n) t s h = execute-IsConsistent t.state n t s refl h
  call-IsConsistent (operation_call op) t s h = operation-IsConsistent t.state op t s refl h
  call-IsConsistent (commit_call debug ordinal n) t s h =
      commit-IsConsistent t.state debug ordinal n t s refl h
  call-IsConsistent (abort_call reason n) t s h = abort-IsConsistent t.state reason n t s refl h
  call-IsConsistent (complete_call e) t s h =
      unchanged t t s (complete_event s e) refl
        (record { staged = refl; writes = refl; once = refl }) h
  call-IsConsistent (auto_complete_call on) t s h =
      unchanged t t s (set_auto_complete s on) refl
        (record { staged = refl; writes = refl; once = refl }) h

  run-IsConsistent :
      (cs : List Call) (t : ExecutionTransaction TR) (s : FakeExecutionBackend)
      → IsConsistent t s
      → let (t', s') = run cs t s in IsConsistent t' s'
  run-IsConsistent [] t s h = h
  run-IsConsistent (c ∷ cs) t s h =
      let (t', s') = call c t s in run-IsConsistent cs t' s' (call-IsConsistent c t s h)

  new-IsConsistent :
      (id : TransactionId) (plan : BoundDistributedPlan) (ops : List TransactionOperation)
      (boundary : TransactionCommitBoundary) (t : ExecutionTransaction TR)
      → Plan.new id plan ops boundary ≡ Result.ok t
      → IsConsistent t fake_new
  unfolding fake_new
  new-IsConsistent id plan ops boundary t e =
      subst (λ u. IsConsistent u fake_new) (sym (new_lem id plan ops boundary t e))
        (record { in_step = refl; writes = refl; once = refl }, refl)

  call-operations :
      (c : Call) (t : ExecutionTransaction TR) (s : FakeExecutionBackend)
      → (call c t s).0.operations ≡ t.operations
  call-operations (prepare_call n) t s = let (_, _, _, _, ops, _) = prepare-staged t n s in ops
  call-operations (execute_call n) t s = execute-operations fake_backend t n s
  call-operations (operation_call op) t s = (execute_operation_plan fake_backend t op s).0
  call-operations (commit_call debug ordinal n) t s = commit-operations debug ordinal n t s
  call-operations (abort_call reason n) t s = abort-operations reason n t s
  call-operations (complete_call e) t s = refl
  call-operations (auto_complete_call on) t s = refl

  run-operations :
      (cs : List Call) (t : ExecutionTransaction TR) (s : FakeExecutionBackend)
      → (run cs t s).0.operations ≡ t.operations
  run-operations [] t s = refl
  run-operations (c ∷ cs) t s =
      let (t', s') = call c t s in run-operations cs t' s' ∙ call-operations c t s

  Phase-published :
      (x : TransactionState) (t : ExecutionTransaction TR) (s : FakeExecutionBackend)
      → Phase x t s
      → s.published_writes ≡ (if is_committed x then derive_declared_write_set t.operations else [])
  Phase-published new t s h = h.0.writes
  Phase-published prepared t s h = h.0.writes
  Phase-published executing t s h = h.0.writes
  Phase-published (failed f) t s h = h.writes
  Phase-published TransactionState.committed t s h = h.0
  Phase-published (TransactionState.aborted f) t s h = h.0

  -- Whatever calls are made of a new transaction over a new fake backend, in whatever order, with
  -- operations run again and events completed by hand: what is published is the declared write
  -- set of its operations if the transaction is committed, and nothing otherwise.
  pub run-published :
      (id : TransactionId) (plan : BoundDistributedPlan) (ops : List TransactionOperation)
      (boundary : TransactionCommitBoundary) (t : ExecutionTransaction TR) (cs : List Call)
      → Plan.new id plan ops boundary ≡ Result.ok t
      → let (t', s') = run cs t fake_new in
        s'.published_writes ≡ (if is_committed t'.state then derive_declared_write_set ops else [])
  run-published id plan ops boundary t cs e =
      let (t', s') = run cs t fake_new in
      let h = run-IsConsistent cs t fake_new (new-IsConsistent id plan ops boundary t e) in
      let kept =
        run-operations cs t fake_new ∙ ap (λ u. u.operations) (new_lem id plan ops boundary t e) in
      Phase-published t'.state t' s' h
      ∙ ap (λ o. if is_committed t'.state then derive_declared_write_set o else []) kept

  -- After any calls on a new transaction over a new fake backend: if it is committed or aborted,
  -- it has its receipt.
  pub run-receipt :
      (id : TransactionId) (plan : BoundDistributedPlan) (ops : List TransactionOperation)
      (boundary : TransactionCommitBoundary) (t : ExecutionTransaction TR) (cs : List Call)
      → Plan.new id plan ops boundary ≡ Result.ok t
      → is_ended (run cs t fake_new).0.state ≡ true
      → is_some (run cs t fake_new).0.receipt ≡ true
  run-receipt id plan ops boundary t cs e =
      let (t', s') = run cs t fake_new in
      receipt_of t'.state t' s'
        (run-IsConsistent cs t fake_new (new-IsConsistent id plan ops boundary t e))
    where
      receipt_of :
          (x : TransactionState) (t : ExecutionTransaction TR) (s : FakeExecutionBackend)
          → Phase x t s
          → is_ended x ≡ true
          → is_some t.receipt ≡ true
      receipt_of TransactionState.committed t s h k = h.1
      receipt_of (TransactionState.aborted f) t s h k = h.1
      receipt_of x t s h k = absurd (cc)
