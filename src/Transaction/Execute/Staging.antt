-- ===== src/Transaction/Execute/Staging.antt =====
-- `execute_operation` and `execute` of src/execution_transaction/transaction.rs on the fake backend
-- of backend.rs: the two keep the same staged writes, and nothing is published.
use faber_runtime.Base.{ℕ, ◌≡◌, refl, ◌∙◌, ◌≢◌, ◌⊎◌, inl, true, List, [], ◌∷◌, arith}
use faber_runtime.Base.Key.{text_key}
use faber_runtime.Base.Map.{Map, insert}
use faber_runtime.Transaction.Mirror.{TransactionOperation, OutputRef, StagedWrite}
use faber_runtime.Transaction.Operation.{staged_writes, operation_ref_key}
use faber_runtime.Transaction.State.{executing, prepared, is_failed, ExecuteError, Outcome, ok}
use faber_runtime.Transaction.Backend.{
  FakeExecutionBackend, fake_backend, fake_stage_write, fake_run_operation,
}
use faber_runtime.Transaction.Plan.{ExecutionTransaction}
use faber_runtime.Transaction.Coordinator.{fail}
use faber_runtime.Transaction.Execute.{
  stage, execute_staged, execute_run, execute_accepted, execute_operation, execute_all, execute,
  timed,
}

-- The writes on record and those of the backend agree, and what the backend has published is as
-- before.
pub record Quiet (m : Map OutputRef StagedWrite) (s : FakeExecutionBackend)
    (m' : Map OutputRef StagedWrite) (s' : FakeExecutionBackend) : Type 0 where
  pub in_step : m ≡ s.staged_writes → m' ≡ s'.staged_writes
  pub writes : s'.published_writes ≡ s.published_writes
  pub once : s'.published_once ≡ s.published_once

Quiet-refl : (m : Map OutputRef StagedWrite) (s : FakeExecutionBackend) → Quiet m s m s
Quiet-refl m s = record { in_step = λ e. e; writes = refl; once = refl }

Quiet-trans :
    (m m1 m2 : Map OutputRef StagedWrite) (s s1 s2 : FakeExecutionBackend)
    → Quiet m s m1 s1
    → Quiet m1 s1 m2 s2
    → Quiet m s m2 s2
Quiet-trans m m1 m2 s s1 s2 h k = record {
  in_step = λ e. k.in_step (h.in_step e);
  writes = k.writes ∙ h.writes;
  once = k.once ∙ h.once;
}

stage-Quiet :
    (ws : List StagedWrite) (m : Map OutputRef StagedWrite) (s : FakeExecutionBackend)
    → let (reply, m', s') = stage fake_backend ws m s in Quiet m s m' s'
unfolding stage fake_stage_write
stage-Quiet [] m s = Quiet-refl m s
stage-Quiet (w ∷ ws) m s =
    let rest = stage-Quiet ws (insert w.output_ref w m) (fake_stage_write w s).1 in
    record {
      in_step = ground (arith, rest.in_step);
      writes = ground (arith, rest.writes);
      once = ground (arith, rest.once);
    }

module _ {TR : Type 0} where
  -- The transaction after the call is in the state before it, or has failed.
  pub record Ran (t : ExecutionTransaction TR) (s : FakeExecutionBackend)
      (end : Outcome (Unit {0}) ExecuteError) (t' : ExecutionTransaction TR)
      (s' : FakeExecutionBackend) : Type 0 where
    pub quiet : Quiet t.staged_write_set s t'.staged_write_set s'
    pub state : (t'.state ≡ t.state) ⊎ (is_failed t'.state ≡ true)
    pub receipt : t'.receipt ≡ t.receipt

  pub execute_operation-Ran :
      (t : ExecutionTransaction TR) (op : TransactionOperation) (s : FakeExecutionBackend)
      → let (end, t', s') = execute_operation fake_backend t op s in Ran t s end t' s'
  unfolding execute_operation execute_accepted execute_run execute_staged fake_run_operation fail
  execute_operation-Ran t op s =
      let s1 = (fake_run_operation op s).1 in
      let staged = stage-Quiet (staged_writes op) t.staged_write_set s1 in
      record {
        quiet = record {
          in_step = ground (arith, staged.in_step);
          writes = ground (arith, staged.writes);
          once = ground (arith, staged.once);
        };
        state = ground arith;
        receipt = ground arith;
      }

  Ran-refl :
      (t : ExecutionTransaction TR) (s : FakeExecutionBackend)
      (end : Outcome (Unit {0}) ExecuteError)
      → Ran t s end t s
  Ran-refl t s end = record {
    quiet = Quiet-refl t.staged_write_set s;
    state = inl refl;
    receipt = refl;
  }

  -- A failed transaction runs nothing.
  execute_all-Ran :
      (ops : List TransactionOperation) (t : ExecutionTransaction TR) (s : FakeExecutionBackend)
      → let (end, t', s') = execute_all fake_backend ops t s in Ran t s end t' s'
  unfolding execute_all
  execute_all-Ran [] t s = Ran-refl t s (ok tt)
  execute_all-Ran (op ∷ ops) t s =
      let (end, t1, s1) = execute_operation fake_backend t op s in
      let one = execute_operation-Ran t op s in
      let rest = execute_all-Ran ops t1 s1 in
      record {
        quiet = record {
          in_step = ground (arith, one.quiet.in_step, rest.quiet.in_step);
          writes = ground (arith, one.quiet.writes, rest.quiet.writes);
          once = ground (arith, one.quiet.once, rest.quiet.once);
        };
        state = ground (arith, one.state, rest.state);
        receipt = ground (arith, one.receipt, rest.receipt);
      }

  -- `execute` on the fake backend publishes nothing, and the staged writes stay those of the
  -- backend.
  pub execute-Quiet :
      (t : ExecutionTransaction TR) (nanos : ℕ) (s : FakeExecutionBackend)
      → let (end, t', s') = execute fake_backend t nanos s in
        Quiet t.staged_write_set s t'.staged_write_set s'
  unfolding execute timed
  execute-Quiet t nanos s =
      let all = execute_all-Ran t.operations (record t { state = executing }) s in
      record {
        in_step = ground (arith, all.quiet.in_step);
        writes = ground (arith, all.quiet.writes);
        once = ground (arith, all.quiet.once);
      }

  pub execute_unprepared :
      (t : ExecutionTransaction TR) (nanos : ℕ) (s : FakeExecutionBackend)
      → t.state ≢ prepared
      → let (end, t', s') = execute fake_backend t nanos s in (t' ≡ t) × (s' ≡ s)
  unfolding execute
  execute_unprepared t nanos s h = ground arith

  pub execute_operation_stopped :
      (t : ExecutionTransaction TR) (op : TransactionOperation) (s : FakeExecutionBackend)
      → t.state ≢ executing
      → let (end, t', s') = execute_operation fake_backend t op s in (t' ≡ t) × (s' ≡ s)
  unfolding execute_operation
  execute_operation_stopped t op s h = ground arith
