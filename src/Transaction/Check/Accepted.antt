-- ===== src/Transaction/Check/Accepted.antt =====
-- What `prepare` of src/execution_transaction/transaction.rs has checked of a plan it accepts.
use faber_runtime.Base.{
  ℕ, zero, suc, ◌+◌, ◌≤◌, ◌≡◌, sym, ap, subst, true, Option, some, List, [], ◌∷◌, All, get_elem?,
  arith,
}
use faber_runtime.Base.Key.{same→eq, same_refl, text_key}
use faber_runtime.Base.Map.{Map, Set, lookup, insert, keys, contains, of_list, lookup-insert}
use faber_runtime.BoundPlan.{LogicalPartitionId, BoundDistributedPlan, PartitionBinding, bindings}
use faber_runtime.Partition.{VirtualDevicePartition, PartitionBudgetLedger}
use faber_runtime.Transaction.Mirror.{
  TransactionOperation, TransactionCommitBoundary, BarrierRef, LaunchRef, OperationRef,
}
use faber_runtime.Transaction.Operation.{partitions, operation_ref, operation_ref_key}
use faber_runtime.Transaction.Reservation.{
  ReservationRecord, class_six_bytes, class_three_bytes, derive_reservation,
}
use faber_runtime.Transaction.State.{ok, >>=-eq-ok}
use faber_runtime.Transaction.Check.{
  Bindings, expect, check_partitions, check_topology, check_identities, check_barriers,
  check_launches, referenced, check_admitted, check_budget, check_budgets, AcceptedPlan, check_plan,
}
use faber_runtime.Transaction.Check.Named.{
  HasBarrier, HasLaunch, declares_barrier-HasBarrier, declares_launch-HasLaunch,
}

check_partitions_ok :
    (declared : Set LogicalPartitionId) (index : ℕ) (ps : List LogicalPartitionId)
    → check_partitions declared index ps ≡ ok tt
    → All (λ p. contains p declared ≡ true) ps
unfolding check_partitions
check_partitions_ok declared index [] e = tt
check_partitions_ok declared index (p ∷ ps) e =
    (ground arith, check_partitions_ok declared index ps (ground arith))

abbrev pub IsDeclared : Set LogicalPartitionId → TransactionOperation → Type 0
IsDeclared declared op = All (λ p. contains p declared ≡ true) (keys (partitions op))

pub check_topology_ok :
    (declared : Set LogicalPartitionId) (index : ℕ) (ops : List TransactionOperation)
    → check_topology declared index ops ≡ ok tt
    → All (IsDeclared declared) ops
unfolding check_topology
check_topology_ok declared index [] e = tt
check_topology_ok declared index (op ∷ ops) e =
    let (done, here, rest) =
      >>=-eq-ok (check_partitions declared index (keys (partitions op))) _ e in
    (
      check_partitions_ok declared index (keys (partitions op)) here,
      check_topology_ok declared (suc index) ops rest,
    )

check_barriers_ok :
    (ops : List TransactionOperation) (bs : List BarrierRef)
    → check_barriers ops bs ≡ ok tt
    → All (HasBarrier ops) bs
unfolding check_barriers
check_barriers_ok ops [] e = tt
check_barriers_ok ops (b ∷ bs) e =
    (declares_barrier-HasBarrier ops b (ground arith), check_barriers_ok ops bs (ground arith))

check_launches_ok :
    (ops : List TransactionOperation) (ls : List LaunchRef)
    → check_launches ops ls ≡ ok tt
    → All (HasLaunch ops) ls
unfolding check_launches
check_launches_ok ops [] e = tt
check_launches_ok ops (l ∷ ls) e =
    (declares_launch-HasLaunch ops l (ground arith), check_launches_ok ops ls (ground arith))

-- An identity that was seen keeps the index of its operation.
check_identities_seen :
    (i : ℕ) (seen found : Map OperationRef ℕ) (ops : List TransactionOperation) (r : OperationRef)
    (n : ℕ)
    → check_identities i seen ops ≡ ok found
    → lookup r seen ≡ some n
    → lookup r found ≡ some n
unfolding check_identities
check_identities_seen i seen found [] r n e h = ground arith
check_identities_seen i seen found (op ∷ ops) r n e h =
    check_identities_seen (suc i) (insert (operation_ref op) i seen) found ops r n (ground arith)
      (ground (arith, lookup-insert (operation_ref op) r i seen, same→eq (operation_ref op) r))

-- The identities of the operations lead to their positions, counted from `i`.
abbrev pub IndexedFrom : ℕ → Map OperationRef ℕ → List TransactionOperation → Type 0
IndexedFrom i found [] = Unit {0}
IndexedFrom i found (op ∷ ops) =
    (lookup (operation_ref op) found ≡ some i) × IndexedFrom (suc i) found ops

check_identities_ok :
    (i : ℕ) (seen found : Map OperationRef ℕ) (ops : List TransactionOperation)
    → check_identities i seen ops ≡ ok found
    → IndexedFrom i found ops
unfolding check_identities
check_identities_ok i seen found [] e = tt
check_identities_ok i seen found (op ∷ ops) e =
    let next = insert (operation_ref op) i seen in
    let rest : check_identities (suc i) next ops ≡ ok found = ground arith in
    (
      check_identities_seen (suc i) next found ops (operation_ref op) i rest (
          ground (
            arith,
            lookup-insert (operation_ref op) (operation_ref op) i seen,
            same_refl (operation_ref op),
          )),
      check_identities_ok (suc i) next found ops rest,
    )

pub IndexedFrom-get_elem? :
    (i n : ℕ) (found : Map OperationRef ℕ) (ops : List TransactionOperation)
    (op : TransactionOperation)
    → IndexedFrom i found ops
    → get_elem? ops n ≡ some op
    → lookup (operation_ref op) found ≡ some (i + n)
IndexedFrom-get_elem? i n found [] op h e = absurd (cc)
IndexedFrom-get_elem? i zero found (x ∷ ops) op h e = ground (arith, h.0)
IndexedFrom-get_elem? i (suc n) found (x ∷ ops) op h e =
    ground (arith, IndexedFrom-get_elem? (suc i) n found ops op h.1)

-- The reservation of a partition is within what its virtual partition was admitted with.
pub record IsWithin (bs : Bindings) (p : LogicalPartitionId) (r : ReservationRecord) : Type 0 where
  pub binding : PartitionBinding
  pub admitted : VirtualDevicePartition
  pub found : lookup p bs ≡ some binding
  pub attached : binding.virtual_partition ≡ some admitted
  pub staging : class_six_bytes r ≤ admitted.ledger.transfer_staging_bytes
  pub scratch : class_three_bytes r ≤ admitted.ledger.activation_scratch_bytes

expect-eq-ok :
    {A : Type 0} {E : Type 0} (o : Option A) {a : A} → expect {E = E} o ≡ ok a → o ≡ some a
expect-eq-ok o e = ground arith

check_budget_ok :
    (p : LogicalPartitionId) (r : ReservationRecord) (l : PartitionBudgetLedger)
    → check_budget p r l ≡ ok tt
    → (class_six_bytes r ≤ l.transfer_staging_bytes)
      × (class_three_bytes r ≤ l.activation_scratch_bytes)
unfolding check_budget
check_budget_ok p r l e = ground arith

check_budgets_ok :
    (bs : Bindings) (m : Map LogicalPartitionId ReservationRecord)
    → check_budgets bs m ≡ ok tt
    → All (λ e. IsWithin bs e.0 e.1) m
unfolding check_budgets
check_budgets_ok bs [] e = tt
check_budgets_ok bs ((p, x) ∷ m) e =
    let (binding, found, e1) = >>=-eq-ok (expect (lookup p bs)) _ e in
    let (v, attached, e2) = >>=-eq-ok (expect binding.virtual_partition) _ e1 in
    let (done, here, rest) = >>=-eq-ok (check_budget p x v.ledger) _ e2 in
    let (staging, scratch) = check_budget_ok p x v.ledger here in
    (
      record {
        binding = binding;
        admitted = v;
        found = expect-eq-ok (lookup p bs) found;
        attached = expect-eq-ok binding.virtual_partition attached;
        staging = staging;
        scratch = scratch;
      },
      check_budgets_ok bs m rest,
    )

-- What stands of a plan that is accepted.
pub record Accepted (plan : BoundDistributedPlan) (ops : List TransactionOperation)
    (boundary : TransactionCommitBoundary) (found : AcceptedPlan) : Type 0 where
  pub table : Bindings
  pub bound : bindings plan ≡ some table
  pub declared : All (IsDeclared (of_list (keys table))) ops
  pub indexed : IndexedFrom 0 found.operation_keys ops
  pub barriers : All (HasBarrier ops) (keys boundary.barriers)
  pub launches : All (HasLaunch ops) (keys boundary.launches)
  pub derived : found.reservation ≡ derive_reservation ops (referenced ops)
  pub within : All (λ e. IsWithin table e.0 e.1) found.reservation

-- An accepted plan: the operations touch declared partitions only, each identity leads to its own
-- operation (so no two share one), the boundary names barriers and launches of the plan, and every
-- derived reservation is within the admitted budget of its partition.
pub check_plan_ok :
    (plan : BoundDistributedPlan) (ops : List TransactionOperation)
    (boundary : TransactionCommitBoundary) (found : AcceptedPlan)
    → check_plan plan ops boundary ≡ ok found
    → Accepted plan ops boundary found
unfolding check_plan
check_plan_ok plan ops boundary found e =
    let (table, bound, e1) = >>=-eq-ok (expect (bindings plan)) _ e in
    let (_, topology, e2) = >>=-eq-ok (check_topology (of_list (keys table)) 0 ops) _ e1 in
    let (seen, identities, e3) = >>=-eq-ok (check_identities 0 [] ops) _ e2 in
    let (_, barriers, e4) = >>=-eq-ok (check_barriers ops (keys boundary.barriers)) _ e3 in
    let (_, launches, e5) = >>=-eq-ok (check_launches ops (keys boundary.launches)) _ e4 in
    let (_, admitted, e6) = >>=-eq-ok (check_admitted table (keys (referenced ops))) _ e5 in
    let derived = derive_reservation ops (referenced ops) in
    let (_, budgets, last) = >>=-eq-ok (check_budgets table derived) _ e6 in
    let answer : record { operation_keys = seen; reservation = derived } ≡ found = ground arith in
    record {
      table = table;
      bound = expect-eq-ok (bindings plan) bound;
      declared = check_topology_ok (of_list (keys table)) 0 ops topology;
      indexed =
          subst (λ a. IndexedFrom 0 a.operation_keys ops) answer
            (check_identities_ok 0 [] seen ops identities);
      barriers = check_barriers_ok ops (keys boundary.barriers) barriers;
      launches = check_launches_ok ops (keys boundary.launches) launches;
      derived = ap (λ a. a.reservation) (sym answer);
      within =
          subst (λ a. All (λ e. IsWithin table e.0 e.1) a.reservation) answer
            (check_budgets_ok table derived budgets);
    }
