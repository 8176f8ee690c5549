-- ===== src/Transaction/Check/Complete.antt =====
-- The plans that `prepare` of src/execution_transaction/transaction.rs accepts, described without
-- the order of its checks.
use faber_runtime.Base.{ℕ, suc, ◌≤◌, ◌≡◌, refl, ◌↔◌, true, some, List, [], ◌∷◌, All, arith, subst}
use faber_runtime.Base.Key.{text_key}
use faber_runtime.Base.Map.{Map, Set, keys, contains, of_list}
use faber_runtime.BoundPlan.{LogicalPartitionId, BoundDistributedPlan, bindings}
use faber_runtime.Partition.{PartitionBudgetLedger}
use faber_runtime.Transaction.Mirror.{
  TransactionOperation, TransactionCommitBoundary, BarrierRef, LaunchRef,
}
use faber_runtime.Transaction.Operation.{partitions, operation_ref_key}
use faber_runtime.Transaction.Reservation.{
  ReservationRecord, class_six_bytes, class_three_bytes, derive_reservation,
}
use faber_runtime.Transaction.State.{ok, >>=-eq-ok}
use faber_runtime.Transaction.Check.{
  Bindings, expect, check_partitions, check_topology, check_identities, check_barriers,
  check_launches, referenced, check_admitted, check_budget, check_budgets, AcceptedPlan, check_plan,
}
use faber_runtime.Transaction.Check.Accepted.{IsDeclared, IsWithin, check_plan_ok}
use faber_runtime.Transaction.Check.Total.{IsAdmitted, check_admitted_ok}
use faber_runtime.Transaction.Check.Distinct.{
  HasDistinct, indexed_by, check_identities-HasDistinct, IndexedFrom-HasDistinct, IsUnseen-nil,
}
use faber_runtime.Transaction.Check.Named.{
  HasBarrier, HasLaunch, HasBarrier-declares_barrier, HasLaunch-declares_launch,
}

check_partitions-All :
    (declared : Set LogicalPartitionId) (index : ℕ) (ps : List LogicalPartitionId)
    → All (λ p. contains p declared ≡ true) ps
    → check_partitions declared index ps ≡ ok tt
unfolding check_partitions
check_partitions-All declared index [] h = refl
check_partitions-All declared index (p ∷ ps) h = rw h.0 (check_partitions-All declared index ps h.1)

check_topology-All :
    (declared : Set LogicalPartitionId) (index : ℕ) (ops : List TransactionOperation)
    → All (IsDeclared declared) ops
    → check_topology declared index ops ≡ ok tt
unfolding check_topology
check_topology-All declared index [] h = refl
check_topology-All declared index (op ∷ ops) h =
    rw (check_partitions-All declared index (keys (partitions op)) h.0)
      (check_topology-All declared (suc index) ops h.1)

check_barriers-All :
    (ops : List TransactionOperation) (bs : List BarrierRef)
    → All (HasBarrier ops) bs
    → check_barriers ops bs ≡ ok tt
unfolding check_barriers
check_barriers-All ops [] h = refl
check_barriers-All ops (b ∷ bs) h =
    rw (HasBarrier-declares_barrier ops b h.0) (check_barriers-All ops bs h.1)

check_launches-All :
    (ops : List TransactionOperation) (ls : List LaunchRef)
    → All (HasLaunch ops) ls
    → check_launches ops ls ≡ ok tt
unfolding check_launches
check_launches-All ops [] h = refl
check_launches-All ops (l ∷ ls) h =
    rw (HasLaunch-declares_launch ops l h.0) (check_launches-All ops ls h.1)

check_admitted-All :
    (bs : Bindings) (ps : List LogicalPartitionId)
    → All (IsAdmitted bs) ps
    → check_admitted bs ps ≡ ok tt
unfolding check_admitted
check_admitted-All bs [] h = refl
check_admitted-All bs (p ∷ ps) h = rw (h.0.found, h.0.attached) (check_admitted-All bs ps h.1)

check_budget_within :
    (p : LogicalPartitionId) (r : ReservationRecord) (l : PartitionBudgetLedger)
    → class_six_bytes r ≤ l.transfer_staging_bytes
    → class_three_bytes r ≤ l.activation_scratch_bytes
    → check_budget p r l ≡ ok tt
unfolding check_budget
check_budget_within p r l six three = ground arith

check_budgets-All :
    (bs : Bindings) (m : Map LogicalPartitionId ReservationRecord)
    → All (λ e. IsWithin bs e.0 e.1) m
    → check_budgets bs m ≡ ok tt
unfolding check_budgets
check_budgets-All bs [] h = refl
check_budgets-All bs ((p, r) ∷ m) h =
    rw
      (h.0.found, h.0.attached, check_budget_within p r h.0.admitted.ledger h.0.staging h.0.scratch)
      (check_budgets-All bs m h.1)

check_plan-IsAdmitted :
    (plan : BoundDistributedPlan) (ops : List TransactionOperation)
    (boundary : TransactionCommitBoundary) (found : AcceptedPlan) (table : Bindings)
    → bindings plan ≡ some table
    → check_plan plan ops boundary ≡ ok found
    → All (IsAdmitted table) (keys (referenced ops))
unfolding check_plan
check_plan-IsAdmitted plan ops boundary found table bound e =
    let (bs, e0, e1) = >>=-eq-ok (expect (bindings plan)) _ e in
    let (_, _, e2) = >>=-eq-ok (check_topology (of_list (keys bs)) 0 ops) _ e1 in
    let (_, _, e3) = >>=-eq-ok (check_identities 0 [] ops) _ e2 in
    let (_, _, e4) = >>=-eq-ok (check_barriers ops (keys boundary.barriers)) _ e3 in
    let (_, _, e5) = >>=-eq-ok (check_launches ops (keys boundary.launches)) _ e4 in
    let (_, admitted, _) = >>=-eq-ok (check_admitted bs (keys (referenced ops))) _ e5 in
    let same_table : bs ≡ table = ground arith in
    subst (λ x. All (IsAdmitted x) (keys (referenced ops))) same_table
      (check_admitted_ok bs (keys (referenced ops)) admitted)

-- What a plan has to be: its operations touch bound partitions only and have distinct identities,
-- its boundary names barriers and launches of it, every partition that it touches is admitted, and
-- every reservation that it derives is within the admitted budget.
pub record IsAcceptable (plan : BoundDistributedPlan) (ops : List TransactionOperation)
    (boundary : TransactionCommitBoundary) : Type 0 where
  pub table : Bindings
  pub bound : bindings plan ≡ some table
  pub declared : All (IsDeclared (of_list (keys table))) ops
  pub distinct : HasDistinct ops
  pub barriers : All (HasBarrier ops) (keys boundary.barriers)
  pub launches : All (HasLaunch ops) (keys boundary.launches)
  pub admitted : All (IsAdmitted table) (keys (referenced ops))
  pub within : All (λ e. IsWithin table e.0 e.1) (derive_reservation ops (referenced ops))

IsAcceptable-check_plan :
    (plan : BoundDistributedPlan) (ops : List TransactionOperation)
    (boundary : TransactionCommitBoundary)
    → ((found : AcceptedPlan) × (check_plan plan ops boundary ≡ ok found))
    → IsAcceptable plan ops boundary
IsAcceptable-check_plan plan ops boundary (found, e) =
    let a = check_plan_ok plan ops boundary found e in
    record {
      table = a.table;
      bound = a.bound;
      declared = a.declared;
      distinct = IndexedFrom-HasDistinct 0 found.operation_keys ops a.indexed;
      barriers = a.barriers;
      launches = a.launches;
      admitted = check_plan-IsAdmitted plan ops boundary found a.table a.bound e;
      within = subst (λ m. All (λ x. IsWithin a.table x.0 x.1) m) a.derived a.within;
    }

check_plan-IsAcceptable :
    (plan : BoundDistributedPlan) (ops : List TransactionOperation)
    (boundary : TransactionCommitBoundary)
    → IsAcceptable plan ops boundary
    → (found : AcceptedPlan) × (check_plan plan ops boundary ≡ ok found)
unfolding check_plan
check_plan-IsAcceptable plan ops boundary h = (
  record {
    operation_keys = indexed_by 0 [] ops;
    reservation = derive_reservation ops (referenced ops);
  },
  rw
      (
        h.bound,
        check_topology-All (of_list (keys h.table)) 0 ops h.declared,
        check_identities-HasDistinct 0 [] ops h.distinct (IsUnseen-nil ops),
        check_barriers-All ops (keys boundary.barriers) h.barriers,
        check_launches-All ops (keys boundary.launches) h.launches,
        check_admitted-All h.table (keys (referenced ops)) h.admitted,
        check_budgets-All h.table (derive_reservation ops (referenced ops)) h.within,
      )
      refl,
)

-- The checks accept exactly the acceptable plans: bound partitions only, distinct identities, a
-- boundary whose names are those of barriers and launches of the plan, admitted partitions, and reservations within their
-- budgets.
pub check_plan_lem :
    (plan : BoundDistributedPlan) (ops : List TransactionOperation)
    (boundary : TransactionCommitBoundary)
    → ((found : AcceptedPlan) × (check_plan plan ops boundary ≡ ok found))
      ↔ IsAcceptable plan ops boundary
check_plan_lem plan ops boundary =
    (IsAcceptable-check_plan plan ops boundary, check_plan-IsAcceptable plan ops boundary)
