-- ===== src/Transaction/Check.antt =====
-- src/execution_transaction/transaction.rs: the checks of the accepted plan that `prepare` makes
-- before it reserves anything, in their order.
pub mod Named
pub mod Accepted
pub mod Total
pub mod Distinct
pub mod Complete
use faber_runtime.Base.{
  ℕ, suc, ◌+◌, Bool, true, false, ◌||◌, Option, none, some, List, [], ◌∷◌, ◌++◌, ltb, if◌then◌else◌,
}
use faber_runtime.Base.Key.{Text, same, text_key}
use faber_runtime.Base.Map.{
  Map, Set, lookup, insert, keys, contains, contains_key, of_list, add_all,
}
use faber_runtime.BoundPlan.{LogicalPartitionId, BoundDistributedPlan, PartitionBinding, bindings}
use faber_runtime.Partition.{PartitionBudgetLedger}
use faber_runtime.Transaction.Mirror.{
  TransactionOperation, launch, transfer, collective_broadcast, barrier, TransactionCommitBoundary,
  BarrierRef, LaunchRef, OperationRef,
}
use faber_runtime.Transaction.Operation.{partitions, operation_ref, operation_ref_key}
use faber_runtime.Transaction.Reservation.{
  ReservationRecord, transfer_staging, activation_scratch, class_six_bytes, class_three_bytes,
  derive_reservation,
}
use faber_runtime.Transaction.State.{
  PrepareError, unknown_partition, duplicate_operation, undeclared_boundary_barrier,
  undeclared_boundary_launch, missing_admitted_budget, reservation_exceeds_budget, Outcome, ok, err,
  panic, ◌>>=◌, ◌>>◌,
}

abbrev pub Check : Type 0 → Type 0
Check A = Outcome A PrepareError

abbrev pub Bindings : Type 0
Bindings = Map LogicalPartitionId PartitionBinding

abbrev pub expect {ℓ κ} : {A : Type ℓ} {E : Type κ} → Option A → Outcome A E
expect none = panic
expect (some a) = ok a

-- 1. Every partition of every operation is declared by the bound plan.
unfoldable pub check_partitions :
    Set LogicalPartitionId → ℕ → List LogicalPartitionId → Check (Unit {0})
check_partitions declared index [] = ok tt
check_partitions declared index (p ∷ ps) =
    let rest = check_partitions declared index ps in
    if contains p declared then rest else err (unknown_partition p index)

unfoldable pub check_topology :
    Set LogicalPartitionId → ℕ → List TransactionOperation → Check (Unit {0})
check_topology declared index [] = ok tt
check_topology declared index (op ∷ ops) = do
  check_partitions declared index (keys (partitions op))
  check_topology declared (suc index) ops

-- 2. No two operations share an identity.
unfoldable pub check_identities :
    ℕ → Map OperationRef ℕ → List TransactionOperation → Check (Map OperationRef ℕ)
check_identities index seen [] = ok seen
check_identities index seen (op ∷ ops) =
    let rest = check_identities (suc index) (insert (operation_ref op) index seen) ops in
    if contains_key (operation_ref op) seen
    then err (duplicate_operation (operation_ref op))
    else rest

-- 3. The boundary names barriers and launches of the snapshot.
unfoldable pub declares_barrier : BarrierRef → List TransactionOperation → Bool
declares_barrier b [] = false
declares_barrier b (barrier r ps ∷ ops) = same r b || declares_barrier b ops
declares_barrier b (launch p r n ∷ ops) = declares_barrier b ops
declares_barrier b (transfer t ∷ ops) = declares_barrier b ops
declares_barrier b (collective_broadcast c ∷ ops) = declares_barrier b ops

unfoldable pub declares_launch : LaunchRef → List TransactionOperation → Bool
declares_launch l [] = false
declares_launch l (launch p r n ∷ ops) = same r l || declares_launch l ops
declares_launch l (barrier r ps ∷ ops) = declares_launch l ops
declares_launch l (transfer t ∷ ops) = declares_launch l ops
declares_launch l (collective_broadcast c ∷ ops) = declares_launch l ops

unfoldable pub check_barriers : List TransactionOperation → List BarrierRef → Check (Unit {0})
check_barriers ops [] = ok tt
check_barriers ops (b ∷ bs) =
    let rest = check_barriers ops bs in
    if declares_barrier b ops then rest else err (undeclared_boundary_barrier b)

unfoldable pub check_launches : List TransactionOperation → List LaunchRef → Check (Unit {0})
check_launches ops [] = ok tt
check_launches ops (l ∷ ls) =
    let rest = check_launches ops ls in
    if declares_launch l ops then rest else err (undeclared_boundary_launch l)

unfoldable pub all_partitions : List TransactionOperation → List LogicalPartitionId
all_partitions [] = []
all_partitions (op ∷ ops) = keys (partitions op) ++ all_partitions ops

unfoldable pub referenced : List TransactionOperation → Set LogicalPartitionId
unfolding all_partitions
referenced ops = of_list (all_partitions ops)

-- 4. Every referenced partition carries an admitted virtual partition.
unfoldable pub check_admitted : Bindings → List LogicalPartitionId → Check (Unit {0})
check_admitted bs [] = ok tt
check_admitted bs (p ∷ ps) = do
  binding ← expect (lookup p bs)
  elim binding.virtual_partition [
    | none ↦ err (missing_admitted_budget p)
    | some v ↦ check_admitted bs ps
  ]

-- 5. The derived reservation stays within the admitted class budgets.
unfoldable pub check_budget :
    LogicalPartitionId → ReservationRecord → PartitionBudgetLedger → Check (Unit {0})
check_budget p r ledger =
    if ltb ledger.transfer_staging_bytes (class_six_bytes r)
    then err (
        reservation_exceeds_budget p transfer_staging (class_six_bytes r)
          ledger.transfer_staging_bytes)
    else if ltb ledger.activation_scratch_bytes (class_three_bytes r)
    then err (
        reservation_exceeds_budget p activation_scratch (class_three_bytes r)
          ledger.activation_scratch_bytes)
    else ok tt

unfoldable pub check_budgets :
    Bindings → Map LogicalPartitionId ReservationRecord → Check (Unit {0})
unfolding check_budget
check_budgets bs [] = ok tt
check_budgets bs ((p, r) ∷ m) = do
  binding ← expect (lookup p bs)
  v ← expect binding.virtual_partition
  check_budget p r v.ledger
  check_budgets bs m

pub record AcceptedPlan : Type 0 where
  pub operation_keys : Map OperationRef ℕ
  pub reservation : Map LogicalPartitionId ReservationRecord

unfoldable pub check_plan :
    BoundDistributedPlan
    → List TransactionOperation
    → TransactionCommitBoundary
    → Check AcceptedPlan
check_plan plan ops boundary = do
  bs ← expect (bindings plan)
  check_topology (of_list (keys bs)) 0 ops
  found ← check_identities 0 [] ops
  check_barriers ops (keys boundary.barriers)
  check_launches ops (keys boundary.launches)
  check_admitted bs (keys (referenced ops))
  let derived = derive_reservation ops (referenced ops)
  check_budgets bs derived
  ok (record { operation_keys = found; reservation = derived })
