-- ===== src/Transaction/Execute/Snapshot.antt =====
-- What `execute_operation` and `execute` of src/execution_transaction/transaction.rs run and stage.
use mathlib.Core.List.{append-nil, append_assoc}
use faber_runtime.Base.{ℕ, ◌≡◌, ◌≢◌, some, ap, List, [], ◌∷◌, ◌++◌, map, arith, get_elem?}
use faber_runtime.Base.Result
use faber_runtime.Base.Key.{text_key}
use faber_runtime.Base.Map.{Map, lookup, insert}
use faber_runtime.Base.Steps.{Steps}
use faber_runtime.Transaction.Mirror.{TransactionOperation, OutputRef, StagedWrite}
use faber_runtime.Transaction.Operation.{
  operation_ref, byte_count, staged_writes, operation_ref_key,
}
use faber_runtime.Transaction.Reservation.{insert_writes, insert_all}
use faber_runtime.Transaction.State.{
  executing, prepared, operation_outside_snapshot, ExecutedOperationRecord, ok, err,
}
use faber_runtime.Transaction.Backend.{DeviceExecutionBackend}
use faber_runtime.Transaction.Plan.{ExecutionTransaction}
use faber_runtime.Transaction.Execute.Ran.{HasRun, execute_operation-HasRun}
use faber_runtime.Transaction.Execute.{
  stage, execute_staged, execute_run, execute_accepted, execute_operation, execute_all, execute,
  timed,
}

module _ {S : Type 0} (b : DeviceExecutionBackend S) where
  -- When every write is accepted, they are all staged, in order.
  stage_ok :
      (ws : List StagedWrite) (m m' : Map OutputRef StagedWrite) (s s' : S)
      → stage b ws m s ≡ (Result.ok tt, m', s')
      → m' ≡ insert_writes ws m
  unfolding stage insert_writes
  stage_ok [] m m' s s' e = ground arith
  stage_ok (w ∷ ws) m m' s s' e =
      ground (arith, stage_ok ws (insert w.output_ref w m) m' (b.stage_write w s).1 s')

abbrev pub record_executed : TransactionOperation → ExecutedOperationRecord
record_executed op = record { operation = op; byte_count = byte_count op }

-- The transaction after an accepted operation: its writes staged, itself recorded, and some events
-- joined; nothing else is changed.
abbrev pub after :
    {TR : Type 0}
    → ExecutionTransaction TR
    → TransactionOperation
    → ExecutionTransaction TR
    → ExecutionTransaction TR
after t op t' = record t {
  staged_write_set = insert_writes (staged_writes op) t.staged_write_set;
  executed_operations = t.executed_operations ++ record_executed op ∷ [];
  completed_events = t'.completed_events;
}

-- The operation is one of the accepted plan, found under its own identity.
abbrev pub IsAccepted : {TR : Type 0} → ExecutionTransaction TR → TransactionOperation → Type 0
IsAccepted t op =
    (i : ℕ) × (lookup (operation_ref op) t.operation_keys ≡ some i)
    × (get_elem? t.operations i ≡ some op)

module _ {TR S : Type 0} (b : DeviceExecutionBackend S) where
  execute_run_ok :
      (t t' : ExecutionTransaction TR) (op : TransactionOperation) (s s' : S)
      → execute_run b t op (b.run_operation op s) ≡ (ok tt, t', s')
      → t' ≡ after t op t'
  unfolding execute_run execute_staged
  execute_run_ok t t' op s s' e = ground (
    arith,
    stage_ok b (staged_writes op) t.staged_write_set
        (stage b (staged_writes op) t.staged_write_set (b.run_operation op s).1).1
        (b.run_operation op s).1
        (stage b (staged_writes op) t.staged_write_set (b.run_operation op s).1).2,
  )

  -- An operation that runs to its end is an accepted one, and changes just what it should.
  pub execute_operation_ok :
      (t t' : ExecutionTransaction TR) (op : TransactionOperation) (s s' : S)
      → execute_operation b t op s ≡ (ok tt, t', s')
      → IsAccepted t op × (t' ≡ after t op t')
  unfolding execute_operation execute_accepted
  execute_operation_ok t t' op s s' e = ground (arith, execute_run_ok t t' op s s')

  -- In an executing transaction, an operation that has the identity of an accepted one but is not
  -- that operation is refused: the transaction and the backend are left as they were.
  pub execute_operation_outside :
      (t : ExecutionTransaction TR) (op : TransactionOperation) (s : S) (i : ℕ)
      (accepted : TransactionOperation)
      → t.state ≡ executing
      → lookup (operation_ref op) t.operation_keys ≡ some i
      → get_elem? t.operations i ≡ some accepted
      → accepted ≢ op
      → execute_operation b t op s ≡ (err (operation_outside_snapshot (operation_ref op)), t, s)
  unfolding execute_operation execute_accepted
  execute_operation_outside t op s i accepted x k g differ = ground arith

  abbrev pub after_all :
      ExecutionTransaction TR
      → List TransactionOperation
      → ExecutionTransaction TR
      → ExecutionTransaction TR
  after_all t ops t' = record t {
    staged_write_set = insert_all ops t.staged_write_set;
    executed_operations = t.executed_operations ++ map record_executed ops;
    completed_events = t'.completed_events;
  }

  execute_all_step :
      (t t' : ExecutionTransaction TR) (op : TransactionOperation) (ops : List TransactionOperation)
      (s s' : S)
      → execute_all b (op ∷ ops) t s ≡ (ok tt, t', s')
      → let (end, t1, s1) = execute_operation b t op s in
        (end ≡ ok tt) × (execute_all b ops t1 s1 ≡ (ok tt, t', s'))
  unfolding execute_all
  execute_all_step t t' op ops s s' e = ground arith

  execute_all_ok :
      (ops : List TransactionOperation) (t t' : ExecutionTransaction TR) (s s' : S)
      → execute_all b ops t s ≡ (ok tt, t', s')
      → t' ≡ after_all t ops t'
  unfolding execute_all insert_all
  execute_all_ok [] t t' s s' e = rw (append-nil t.executed_operations) (ground arith)
  execute_all_ok (op ∷ ops) t t' s s' e =
      let (_, t1, s1) = execute_operation b t op s in
      let (done, rest) = execute_all_step t t' op ops s s' e in
      let one = (execute_operation_ok t t1 op s s1 (ground arith)).1 in
      let all = execute_all_ok ops t1 t' s1 s' rest in
      ground (
        arith,
        append_assoc t.executed_operations (record_executed op ∷ []) (map record_executed ops),
      )

  execute_all-HasRun :
      (ops : List TransactionOperation) (t t' : ExecutionTransaction TR) (s s' : S)
      → execute_all b ops t s ≡ (ok tt, t', s')
      → Steps (HasRun b) ops s s'
  unfolding execute_all
  execute_all-HasRun [] t t' s s' e = ap (λ x. x.2) e
  execute_all-HasRun (op ∷ ops) t t' s s' e =
      let (_, t1, s1) = execute_operation b t op s in
      let (done, rest) = execute_all_step t t' op ops s s' e in
      (
        s1,
        execute_operation-HasRun b t t1 op s s1 (ap (λ x. (x, t1, s1)) done),
        execute_all-HasRun ops t1 t' s1 s' rest,
      )

  execute_steps :
      (t t' : ExecutionTransaction TR) (nanos : ℕ) (s s' : S)
      → execute b t nanos s ≡ (ok tt, t', s')
      → execute_all b t.operations (record t { state = executing }) s
        ≡ (ok tt, (execute_all b t.operations (record t { state = executing }) s).1, s')
  unfolding execute timed
  execute_steps t t' nanos s s' e = ground arith

  execute_records :
      (t t' : ExecutionTransaction TR) (nanos : ℕ) (s s' : S)
      → execute b t nanos s ≡ (ok tt, t', s')
      → (t.state ≡ prepared)
        × (t'.state ≡ executing)
        × (t'.executed_operations ≡ t.executed_operations ++ map record_executed t.operations)
        × (t'.staged_write_set ≡ insert_all t.operations t.staged_write_set)
        × (t'.operations ≡ t.operations)
        × (t'.declared_write_set ≡ t.declared_write_set)
        × (t'.reservation ≡ t.reservation)
        × (t'.operation_keys ≡ t.operation_keys)
  unfolding execute timed
  execute_records t t' nanos s s' e = ground (
    arith,
    execute_all_ok t.operations (record t { state = executing })
        (execute_all b t.operations (record t { state = executing }) s).1 s
        (execute_all b t.operations (record t { state = executing }) s).2,
  )

  -- An `execute` that succeeds was asked of a prepared transaction and leaves it executing. The
  -- backend has run each operation of the plan, in order, and accepted each of its writes before
  -- the next one was run. The transaction has recorded every operation once and in order, has
  -- staged the writes of the plan over those staged before, and keeps the operations, their keys,
  -- the declared writes and the reservation.
  pub execute_ok :
      (t t' : ExecutionTransaction TR) (nanos : ℕ) (s s' : S)
      → execute b t nanos s ≡ (ok tt, t', s')
      → (t.state ≡ prepared)
        × (t'.state ≡ executing)
        × (t'.executed_operations ≡ t.executed_operations ++ map record_executed t.operations)
        × (t'.staged_write_set ≡ insert_all t.operations t.staged_write_set)
        × (t'.operations ≡ t.operations)
        × (t'.declared_write_set ≡ t.declared_write_set)
        × (t'.reservation ≡ t.reservation)
        × (t'.operation_keys ≡ t.operation_keys)
        × Steps (HasRun b) t.operations s s'
  execute_ok t t' nanos s s' e =
      let (was, now, recorded, staged, ops, writes, held, indexed) =
        execute_records t t' nanos s s' e in
      (
        was,
        now,
        recorded,
        staged,
        ops,
        writes,
        held,
        indexed,
        execute_all-HasRun t.operations (record t { state = executing })
            (execute_all b t.operations (record t { state = executing }) s).1 s s'
            (execute_steps t t' nanos s s' e),
      )
