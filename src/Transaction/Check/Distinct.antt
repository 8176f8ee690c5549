-- ===== src/Transaction/Check/Distinct.antt =====
-- The identities of a plan, as `prepare` of src/execution_transaction/transaction.rs indexes them.
use faber_runtime.Base.{ℕ, suc, ◌+◌, ◌≤◌, ◌≡◌, refl, ◌≢◌, false, some, List, [], ◌∷◌, All, arith}
use faber_runtime.Base.Key.{same→eq, text_key}
use faber_runtime.Base.Map.{Map, lookup, insert, contains_key, lookup-insert}
use faber_runtime.Transaction.Mirror.{TransactionOperation, OperationRef}
use faber_runtime.Transaction.Operation.{operation_ref, operation_ref_key}
use faber_runtime.Transaction.State.{ok}
use faber_runtime.Transaction.Check.{check_identities}
use faber_runtime.Transaction.Check.Accepted.{IndexedFrom}

-- No two operations have one identity.
abbrev pub HasDistinct : List TransactionOperation → Type 0
HasDistinct [] = Unit {0}
HasDistinct (op ∷ ops) = All (λ x. operation_ref x ≢ operation_ref op) ops × HasDistinct ops

abbrev pub indexed_by : ℕ → Map OperationRef ℕ → List TransactionOperation → Map OperationRef ℕ
indexed_by i seen [] = seen
indexed_by i seen (op ∷ ops) = indexed_by (suc i) (insert (operation_ref op) i seen) ops

abbrev pub IsUnseen : Map OperationRef ℕ → List TransactionOperation → Type 0
IsUnseen seen ops = All (λ x. contains_key (operation_ref x) seen ≡ false) ops

IsUnseen-insert :
    (op : TransactionOperation) (i : ℕ) (seen : Map OperationRef ℕ)
    (ops : List TransactionOperation)
    → All (λ x. operation_ref x ≢ operation_ref op) ops
    → IsUnseen seen ops
    → IsUnseen (insert (operation_ref op) i seen) ops
IsUnseen-insert op i seen [] h k = tt
IsUnseen-insert op i seen (x ∷ ops) h k = (
  ground (
    arith,
    lookup-insert (operation_ref op) (operation_ref x) i seen,
    same→eq (operation_ref op) (operation_ref x),
    h.0,
    k.0,
  ),
  IsUnseen-insert op i seen ops h.1 k.1,
)

pub check_identities-HasDistinct :
    (i : ℕ) (seen : Map OperationRef ℕ) (ops : List TransactionOperation)
    → HasDistinct ops
    → IsUnseen seen ops
    → check_identities i seen ops ≡ ok (indexed_by i seen ops)
unfolding check_identities
check_identities-HasDistinct i seen [] h k = refl
check_identities-HasDistinct i seen (op ∷ ops) h k = rw k.0 (
    check_identities-HasDistinct (suc i) (insert (operation_ref op) i seen) ops h.1
      (IsUnseen-insert op i seen ops h.0 k.1))

IndexedFrom-later :
    (i j : ℕ) (found : Map OperationRef ℕ) (r : OperationRef) (ops : List TransactionOperation)
    → lookup r found ≡ some i
    → i + 1 ≤ j
    → IndexedFrom j found ops
    → All (λ x. operation_ref x ≢ r) ops
IndexedFrom-later i j found r [] h lt k = tt
IndexedFrom-later i j found r (x ∷ ops) h lt k =
    (ground (arith, k.0), IndexedFrom-later i (suc j) found r ops h (omega arith) k.1)

pub IndexedFrom-HasDistinct :
    (i : ℕ) (found : Map OperationRef ℕ) (ops : List TransactionOperation)
    → IndexedFrom i found ops
    → HasDistinct ops
IndexedFrom-HasDistinct i found [] h = tt
IndexedFrom-HasDistinct i found (op ∷ ops) h = (
  IndexedFrom-later i (suc i) found (operation_ref op) ops h.0 (omega arith) h.1,
  IndexedFrom-HasDistinct (suc i) found ops h.1,
)

pub IsUnseen-nil : (ops : List TransactionOperation) → IsUnseen [] ops
unfolding lookup
IsUnseen-nil [] = tt
IsUnseen-nil (op ∷ ops) = (refl, IsUnseen-nil ops)
