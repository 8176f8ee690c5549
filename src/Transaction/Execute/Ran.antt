-- ===== src/Transaction/Execute/Ran.antt =====
-- What the backend has run and accepted when an operation of
-- src/execution_transaction/transaction.rs is executed to its end.
use faber_runtime.Base.{◌≡◌, ap, List, [], ◌∷◌, arith}
use faber_runtime.Base.Result
use faber_runtime.Base.Key.{text_key}
use faber_runtime.Base.Map.{Map, insert}
use faber_runtime.Base.Steps.{Steps}
use faber_runtime.Transaction.Mirror.{TransactionOperation, OutputRef, StagedWrite}
use faber_runtime.Transaction.Operation.{staged_writes, operation_ref_key}
use faber_runtime.Transaction.State.{ok}
use faber_runtime.Transaction.Backend.{DeviceExecutionBackend}
use faber_runtime.Transaction.Plan.{ExecutionTransaction}
use faber_runtime.Transaction.Execute.{
  stage, execute_staged, execute_run, execute_accepted, execute_operation,
}

module _ {S : Type 0} (b : DeviceExecutionBackend S) where
  abbrev pub HasStaged : StagedWrite → S → S → Type 0
  HasStaged w s s' = b.stage_write w s ≡ (Result.ok tt, s')

  -- The backend has run the operation and then staged its writes, in their order.
  abbrev pub HasRun : TransactionOperation → S → S → Type 0
  HasRun op s s' =
      (m : S) × (b.run_operation op s ≡ (Result.ok tt, m)) × Steps HasStaged (staged_writes op) m s'

  stage_step :
      (w : StagedWrite) (ws : List StagedWrite) (m m' : Map OutputRef StagedWrite) (s s' : S)
      → stage b (w ∷ ws) m s ≡ (Result.ok tt, m', s')
      → ((b.stage_write w s).0 ≡ Result.ok tt)
        × (stage b ws (insert w.output_ref w m) (b.stage_write w s).1 ≡ (Result.ok tt, m', s'))
  unfolding stage
  stage_step w ws m m' s s' e = ground arith

  stage-HasStaged :
      (ws : List StagedWrite) (m m' : Map OutputRef StagedWrite) (s s' : S)
      → stage b ws m s ≡ (Result.ok tt, m', s')
      → Steps HasStaged ws s s'
  unfolding stage
  stage-HasStaged [] m m' s s' e = ap (λ x. x.2) e
  stage-HasStaged (w ∷ ws) m m' s s' e =
      let (done, rest) = stage_step w ws m m' s s' e in
      let next = (b.stage_write w s).1 in
      (next, ap (λ r. (r, next)) done, stage-HasStaged ws (insert w.output_ref w m) m' next s' rest)

module _ {TR S : Type 0} (b : DeviceExecutionBackend S) where
  execute_run_steps :
      (t t' : ExecutionTransaction TR) (op : TransactionOperation) (s s' : S)
      → execute_run b t op (b.run_operation op s) ≡ (ok tt, t', s')
      → ((b.run_operation op s).0 ≡ Result.ok tt)
        × (stage b (staged_writes op) t.staged_write_set (b.run_operation op s).1 ≡ (
          Result.ok tt,
          (stage b (staged_writes op) t.staged_write_set (b.run_operation op s).1).1,
          s',
        ))
  unfolding execute_run execute_staged
  execute_run_steps t t' op s s' e = ground arith

  execute_operation_runs :
      (t t' : ExecutionTransaction TR) (op : TransactionOperation) (s s' : S)
      → execute_operation b t op s ≡ (ok tt, t', s')
      → execute_run b t op (b.run_operation op s) ≡ (ok tt, t', s')
  unfolding execute_operation execute_accepted
  execute_operation_runs t t' op s s' e = ground arith

  execute_run-HasRun :
      (t t' : ExecutionTransaction TR) (op : TransactionOperation) (s s' : S)
      → execute_run b t op (b.run_operation op s) ≡ (ok tt, t', s')
      → HasRun b op s s'
  execute_run-HasRun t t' op s s' e =
      let next = (b.run_operation op s).1 in
      let (done, staged) = execute_run_steps t t' op s s' e in
      (
        next,
        ap (λ r. (r, next)) done,
        stage-HasStaged b (staged_writes op) t.staged_write_set
            (stage b (staged_writes op) t.staged_write_set next).1 next s' staged,
      )

  pub execute_operation-HasRun :
      (t t' : ExecutionTransaction TR) (op : TransactionOperation) (s s' : S)
      → execute_operation b t op s ≡ (ok tt, t', s')
      → HasRun b op s s'
  execute_operation-HasRun t t' op s s' e =
      execute_run-HasRun t t' op s s' (execute_operation_runs t t' op s s' e)
