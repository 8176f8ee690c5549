-- ===== src/Transaction/Execute/Once.antt =====
-- `execute_operation` of src/execution_transaction/transaction.rs after the whole plan has run, on
-- the fake backend of backend.rs: no output is staged twice.
use faber_runtime.Base.{
  ℕ, zero, suc, ◌≡◌, refl, subst, inl, inr, true, some, List, [], ◌∷◌, arith, get_elem?,
  Option-cases,
}
use faber_runtime.Base.Key.{text_key, same_refl}
use faber_runtime.Base.Map.{Map, lookup, insert, contains_key, lookup-insert}
use faber_runtime.Transaction.Mirror.{TransactionOperation, OutputRef, StagedWrite}
use faber_runtime.Transaction.Operation.{operation_ref, staged_writes, operation_ref_key}
use faber_runtime.Transaction.Reservation.{insert_writes, insert_all}
use faber_runtime.Transaction.Backend.{
  FakeExecutionBackend, fake_backend, fake_stage_write, fake_run_operation,
}
use faber_runtime.Transaction.Plan.{ExecutionTransaction}
use faber_runtime.Transaction.Coordinator.{fail}
use faber_runtime.Transaction.Execute.{
  stage, execute_staged, execute_run, execute_accepted, execute_operation,
}

-- What is declared stays declared, and each write of each operation is.
contains_key-insert_writes :
    (r : OutputRef) (ws : List StagedWrite) (m : Map OutputRef StagedWrite)
    → contains_key r m ≡ true
    → contains_key r (insert_writes ws m) ≡ true
unfolding insert_writes
contains_key-insert_writes r [] m h = h
contains_key-insert_writes r (w ∷ ws) m h =
    contains_key-insert_writes r ws (insert w.output_ref w m)
      (ground (arith, lookup-insert w.output_ref r w m))

contains_key-first :
    (w : StagedWrite) (ws : List StagedWrite) (m : Map OutputRef StagedWrite)
    → contains_key w.output_ref (insert_writes (w ∷ ws) m) ≡ true
unfolding insert_writes
contains_key-first w ws m =
    contains_key-insert_writes w.output_ref ws (insert w.output_ref w m)
      (ground (arith, lookup-insert w.output_ref w.output_ref w m, same_refl w.output_ref))

contains_key-insert_all :
    (r : OutputRef) (ops : List TransactionOperation) (m : Map OutputRef StagedWrite)
    → contains_key r m ≡ true
    → contains_key r (insert_all ops m) ≡ true
unfolding insert_all
contains_key-insert_all r [] m h = h
contains_key-insert_all r (op ∷ ops) m h =
    contains_key-insert_all r ops (insert_writes (staged_writes op) m)
      (contains_key-insert_writes r (staged_writes op) m h)

abbrev IsBlocked : List StagedWrite → Map OutputRef StagedWrite → Type 0
IsBlocked [] m = Unit {0}
IsBlocked (w ∷ ws) m = contains_key w.output_ref m ≡ true

IsBlocked-member :
    (ops : List TransactionOperation) (n : ℕ) (op : TransactionOperation)
    (m : Map OutputRef StagedWrite)
    → get_elem? ops n ≡ some op
    → IsBlocked (staged_writes op) (insert_all ops m)
unfolding insert_all
IsBlocked-member [] n op m e = absurd (cc)
IsBlocked-member (x ∷ ops) (suc n) op m e =
    IsBlocked-member ops n op (insert_writes (staged_writes x) m) e
IsBlocked-member (x ∷ ops) zero op m e =
    subst (λ o. IsBlocked (staged_writes o) (insert_all ops (insert_writes (staged_writes x) m)))
      (some_injective e) (first (staged_writes x) m)
  where
    some_injective : {a b : TransactionOperation} → some a ≡ some b → a ≡ b
    some_injective h = ground arith

    first :
        (ws : List StagedWrite) (m : Map OutputRef StagedWrite)
        → IsBlocked ws (insert_all ops (insert_writes ws m))
    first [] m = tt
    first (w ∷ ws) m =
        contains_key-insert_all w.output_ref ops (insert_writes (w ∷ ws) m)
          (contains_key-first w ws m)

-- A first write that is there already: nothing is staged.
stage_blocked :
    (ws : List StagedWrite) (m : Map OutputRef StagedWrite) (s : FakeExecutionBackend)
    → IsBlocked ws s.staged_writes
    → (stage fake_backend ws m s).1 ≡ m
unfolding stage fake_stage_write
stage_blocked [] m s h = refl
stage_blocked (w ∷ ws) m s h = ground arith

module _ {TR : Type 0} where
  -- Over the fake backend, when the writes on record are those that it has staged and are all the
  -- writes of the plan: running any operation again leaves the writes on record as they are.
  pub execute_operation_once :
      (t : ExecutionTransaction TR) (op : TransactionOperation) (s : FakeExecutionBackend)
      → t.staged_write_set ≡ s.staged_writes
      → t.staged_write_set ≡ insert_all t.operations []
      → (execute_operation fake_backend t op s).1.staged_write_set ≡ t.staged_write_set
  unfolding execute_operation execute_accepted execute_run execute_staged fake_run_operation fail
  execute_operation_once t op s in_step complete =
      let run_state = (fake_run_operation op s).1 in
      elim (Option-cases (lookup (operation_ref op) t.operation_keys)) [
        | inl h ↦ ground arith
        | inr (n, h) ↦ ground (
          arith,
          stage_blocked (staged_writes op) t.staged_write_set run_state,
          IsBlocked-member t.operations n op [],
        )
      ]
