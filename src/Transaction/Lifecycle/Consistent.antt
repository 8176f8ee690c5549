-- ===== src/Transaction/Lifecycle/Consistent.antt =====
-- Every call of src/execution_transaction/transaction.rs keeps the phases of a transaction over the
-- fake backend of backend.rs.
use native.Mathlib.Nat.{zero-add}
use faber_runtime.Base.{ℕ, ◌≡◌, sym, ap, ◌∙◌, subst, inl, inr, true, some, [], is_some, get_elem?}
use faber_runtime.Base.Key.{Text, text_key}
use faber_runtime.Base.Map.{keys}
use faber_runtime.Transaction.Mirror.{TransactionOperation}
use faber_runtime.Transaction.Operation.{operation_ref_key}
use faber_runtime.Transaction.Reservation.{insert_all, derive_declared_write_set}
use faber_runtime.Transaction.State.{
  BackendError, TransactionState, new, prepared, executing, failed, is_failed,
}
use faber_runtime.Transaction.Backend.{FakeExecutionBackend, fake_backend}
use faber_runtime.Transaction.Plan.{ExecutionTransaction}
use faber_runtime.Transaction.Check.Accepted.{IndexedFrom-get_elem?}
use faber_runtime.Transaction.Prepare.{prepare}
use faber_runtime.Transaction.Prepare.Sound.{Prepared, prepare_ok, prepare-staged}
use faber_runtime.Transaction.Execute.{execute, execute_operation}
use faber_runtime.Transaction.Execute.Snapshot.{execute_ok}
use faber_runtime.Transaction.Execute.Staging.{execute_operation-Ran, execute-Quiet}
use faber_runtime.Transaction.Execute.Settled.{IsIndexed, execute_operation_plan, execute_settled}
use faber_runtime.Transaction.Execute.Once.{execute_operation_once}
use faber_runtime.Transaction.Finish.{commit, abort}
use faber_runtime.Transaction.Finish.Aborted.{IsLive, first_failure, abort_lem, abort-published}
use faber_runtime.Transaction.Finish.Settled.{commit_fake}
use faber_runtime.Transaction.Lifecycle.{
  prepare_call, execute_call, operation_call, commit_call, abort_call, call, Open, Phase,
  IsConsistent,
}

-- The backend has published and staged what it had before.
pub record Agrees (s s' : FakeExecutionBackend) : Type 0 where
  pub staged : s'.staged_writes ≡ s.staged_writes
  pub writes : s'.published_writes ≡ s.published_writes
  pub once : s'.published_once ≡ s.published_once

Agrees-refl : (s s' : FakeExecutionBackend) → s' ≡ s → Agrees s s'
Agrees-refl s s' e = record {
  staged = ap (λ x. x.staged_writes) e;
  writes = ap (λ x. x.published_writes) e;
  once = ap (λ x. x.published_once) e;
}

module _ {TR : Type 0} where
  Open-Agrees :
      (t : ExecutionTransaction TR) (s s' : FakeExecutionBackend)
      → Agrees s s'
      → Open t s
      → Open t s'
  Open-Agrees t s s' a h = record {
    in_step = h.in_step ∙ sym a.staged;
    writes = a.writes ∙ h.writes;
    once = a.once ∙ h.once;
  }

  Phase-Agrees :
      (x : TransactionState) (t : ExecutionTransaction TR) (s s' : FakeExecutionBackend)
      → Agrees s s'
      → Phase x t s
      → Phase x t s'
  Phase-Agrees new t s s' a h = (Open-Agrees t s s' a h.0, h.1)
  Phase-Agrees prepared t s s' a h = (Open-Agrees t s s' a h.0, h.1, h.2)
  Phase-Agrees executing t s s' a h = (Open-Agrees t s s' a h.0, h.1, h.2)
  Phase-Agrees (failed f) t s s' a h = Open-Agrees t s s' a h
  Phase-Agrees TransactionState.committed t s s' a h = (a.writes ∙ h.0, h.1)
  Phase-Agrees (TransactionState.aborted f) t s s' a h = (a.writes ∙ h.0, h.1)

  -- A call that leaves the transaction and what the backend staged and published alone.
  pub unchanged :
      (t t' : ExecutionTransaction TR) (s s' : FakeExecutionBackend)
      → t' ≡ t
      → Agrees s s'
      → IsConsistent t s
      → IsConsistent t' s'
  unchanged t t' s s' e a h =
      subst (λ u. IsConsistent u s') (sym e) (Phase-Agrees t.state t s s' a h)

  pub still :
      (t t' : ExecutionTransaction TR) (s s' : FakeExecutionBackend)
      → (t' ≡ t) × (s' ≡ s)
      → IsConsistent t s
      → IsConsistent t' s'
  still t t' s s' e h = unchanged t t' s s' e.0 (Agrees-refl s s' e.1) h

  IsConsistent-Phase :
      (x : TransactionState) (t : ExecutionTransaction TR) (s : FakeExecutionBackend)
      → t.state ≡ x
      → Phase x t s
      → IsConsistent t s
  IsConsistent-Phase x t s e h = subst (λ y. Phase y t s) (sym e) h

  pub Phase-IsConsistent :
      (x : TransactionState) (t : ExecutionTransaction TR) (s : FakeExecutionBackend)
      → t.state ≡ x
      → IsConsistent t s
      → Phase x t s
  Phase-IsConsistent x t s e h = subst (λ y. Phase y t s) e h

  Phase-failed :
      (x : TransactionState) (t : ExecutionTransaction TR) (s : FakeExecutionBackend)
      → is_failed x ≡ true
      → Open t s
      → Phase x t s
  Phase-failed (failed f) t s e h = h
  Phase-failed new t s e h = absurd (cc)
  Phase-failed prepared t s e h = absurd (cc)
  Phase-failed executing t s e h = absurd (cc)
  Phase-failed TransactionState.committed t s e h = absurd (cc)
  Phase-failed (TransactionState.aborted f) t s e h = absurd (cc)

  IsIndexed-SamePlan :
      (t t' : ExecutionTransaction TR)
      → t'.operations ≡ t.operations
      → t'.operation_keys ≡ t.operation_keys
      → IsIndexed t
      → IsIndexed t'
  IsIndexed-SamePlan t t' ops keys h n op e =
      rw keys (h n op (subst (λ o. get_elem? o n ≡ some op) ops e))

  pub prepare-IsConsistent :
      (n : ℕ) (t : ExecutionTransaction TR) (s : FakeExecutionBackend)
      → IsConsistent t s
      → let (t', s') = call (prepare_call n) t s in IsConsistent t' s'
  prepare-IsConsistent n t s h =
      let (end, t', s') = prepare fake_backend t n s in
      let (staged, writes, once, kept, ops, which) = prepare-staged t n s in
      let a : Agrees s s' = record { staged = staged; writes = writes; once = once } in
      elim which [
        | inl same ↦ unchanged t t' s s' same a h
        | inr done ↦
            let p : Prepared fake_backend t s t' s' =
              prepare_ok fake_backend t t' n s s' (ap (λ o. (o, t', s')) done) in
            let before = Phase-IsConsistent new t s p.was_new h in
            IsConsistent-Phase prepared t' s' p.is_prepared (
              record {
                in_step = kept ∙ before.0.in_step ∙ sym staged;
                writes = writes ∙ before.0.writes;
                once = once ∙ before.0.once;
              },
              kept ∙ before.1,
              λ i op e. rw p.keyed (
                  IndexedFrom-get_elem? 0 i p.plan.operation_keys t.operations op p.accepted.indexed
                    (subst (λ o. get_elem? o i ≡ some op) ops e)
                  ∙ ap some (zero-add i)),
            )
      ]

  pub execute_prepared :
      (n : ℕ) (t : ExecutionTransaction TR) (s : FakeExecutionBackend)
      → t.state ≡ prepared
      → Phase prepared t s
      → let (t', s') = call (execute_call n) t s in IsConsistent t' s'
  unfolding derive_declared_write_set
  execute_prepared n t s x h =
      let (end, t', s') = execute fake_backend t n s in
      let quiet = execute-Quiet t n s in
      let still_open : Open t' s' = record {
        in_step = quiet.in_step h.0.in_step;
        writes = quiet.writes ∙ h.0.writes;
        once = quiet.once ∙ h.0.once;
      } in
      let (plan, which) = execute_settled fake_backend t n s x h.2 in
      elim which [
        | inl (done, running) ↦
            let (_, _, ran, staged, ops, _, _, _, _) =
              execute_ok fake_backend t t' n s s' (ap (λ o. (o, t', s')) done) in
            IsConsistent-Phase executing t' s' running (
              still_open,
              staged ∙ ap (insert_all t.operations) h.1 ∙ ap (λ o. insert_all o []) (sym ops),
              IsIndexed-SamePlan t t' plan.0 plan.1 h.2,
            )
        | inr (stopped, lost) ↦ Phase-failed t'.state t' s' lost still_open
      ]

  pub operation_executing :
      (op : TransactionOperation) (t : ExecutionTransaction TR) (s : FakeExecutionBackend)
      → t.state ≡ executing
      → Phase executing t s
      → let (t', s') = call (operation_call op) t s in IsConsistent t' s'
  unfolding derive_declared_write_set
  operation_executing op t s x h =
      let (end, t', s') = execute_operation fake_backend t op s in
      let ran = execute_operation-Ran t op s in
      let (ops, keys_kept, _) = execute_operation_plan fake_backend t op s in
      let same_writes = execute_operation_once t op s h.0.in_step h.1 in
      let still_open : Open t' s' = record {
        in_step = ran.quiet.in_step h.0.in_step;
        writes = ran.quiet.writes ∙ h.0.writes;
        once = ran.quiet.once ∙ h.0.once;
      } in
      elim ran.state [
        | inl same ↦ IsConsistent-Phase executing t' s' (same ∙ x) (
          still_open,
          same_writes ∙ h.1 ∙ ap (λ o. insert_all o []) (sym ops),
          IsIndexed-SamePlan t t' ops keys_kept h.2,
        )
        | inr lost ↦ Phase-failed t'.state t' s' lost still_open
      ]

  pub commit_executing :
      (debug : BackendError → Text) (ordinal n : ℕ) (t : ExecutionTransaction TR)
      (s : FakeExecutionBackend)
      → t.state ≡ executing
      → Phase executing t s
      → let (t', s') = call (commit_call debug ordinal n) t s in IsConsistent t' s'
  unfolding derive_declared_write_set
  commit_executing debug ordinal n t s x h =
      let (end, t', s') = commit fake_backend debug ordinal n t s in
      elim (commit_fake debug ordinal n t s h.0.once) [
        | inl (same, writes, ops, keys_kept, receipt, backend) ↦
            IsConsistent-Phase executing t' s' (same ∙ x) (
              record {
                in_step = writes ∙ h.0.in_step ∙ sym (ap (λ b. b.staged_writes) backend);
                writes = ap (λ b. b.published_writes) backend ∙ h.0.writes;
                once = ap (λ b. b.published_once) backend ∙ h.0.once;
              },
              writes ∙ h.1 ∙ ap (λ o. insert_all o []) (sym ops),
              IsIndexed-SamePlan t t' ops keys_kept h.2,
            )
        | inr (_, done, ops, receipt, backend) ↦
            IsConsistent-Phase TransactionState.committed t' s' done
              (backend ∙ sym h.0.in_step ∙ h.1 ∙ ap (λ o. insert_all o []) (sym ops), receipt)
      ]

  pub abort_open :
      (reason : Text) (n : ℕ) (t : ExecutionTransaction TR) (s : FakeExecutionBackend)
      → IsLive t.state
      → s.published_writes ≡ []
      → let (t', s') = call (abort_call reason n) t s in IsConsistent t' s'
  abort_open reason n t s live h =
      let (end, t', s') = abort fake_backend reason n t s in
      let a = abort_lem fake_backend reason n t s live in
      IsConsistent-Phase (TransactionState.aborted (first_failure t.state reason)) t' s'
        a.is_aborted ((abort-published reason n t s).0 ∙ h, ap is_some a.kept)
