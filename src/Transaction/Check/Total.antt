-- ===== src/Transaction/Check/Total.antt =====
-- The `expect`s that `prepare` of src/execution_transaction/transaction.rs passes while it checks a
-- plan: none of them can fail.
use faber_runtime.Base.{
  ℕ, suc, ◌≡◌, refl, ◌≢◌, inl, inr, true, some, List, [], ◌∷◌, All, All-append, All-map, arith,
  Option-cases,
}
use faber_runtime.Base.Key.{text_key}
use faber_runtime.Base.Map.{
  Map, Set, lookup, insert, keys, contains, contains_key, of_list, any_same, contains-add_all,
  All-add_all,
}
use faber_runtime.BoundPlan.{LogicalPartitionId, BoundDistributedPlan, PartitionBinding, bindings}
use faber_runtime.Partition.{VirtualDevicePartition, PartitionBudgetLedger}
use faber_runtime.Transaction.Mirror.{
  TransactionOperation, TransactionCommitBoundary, BarrierRef, LaunchRef, OperationRef,
}
use faber_runtime.Transaction.Operation.{partitions, operation_ref, operation_ref_key}
use faber_runtime.Transaction.Reservation.{ReservationRecord, derive_reservation}
use faber_runtime.Transaction.Reservation.Exact.{derive_reservation-All}
use faber_runtime.Transaction.State.{ok, err, panic, ◌>>=◌}
use faber_runtime.Transaction.Check.{
  Check, Bindings, check_partitions, check_topology, check_identities, check_barriers,
  check_launches, all_partitions, referenced, check_admitted, check_budget, check_budgets,
  check_plan,
}
use faber_runtime.Transaction.Check.Accepted.{IsDeclared, check_topology_ok}

-- A chain panics only where one of its steps does.
>>=-ne-panic :
    {A B : Type 0} (m : Check A) (f : A → Check B)
    → m ≢ panic
    → ((a : A) → m ≡ ok a → f a ≢ panic)
    → (m >>= f) ≢ panic
>>=-ne-panic (ok a) f h k = k a refl
>>=-ne-panic (err e) f h k = λ q. cc
>>=-ne-panic panic f h k = absurd (h refl)

check_partitions_total :
    (declared : Set LogicalPartitionId) (index : ℕ) (ps : List LogicalPartitionId)
    → check_partitions declared index ps ≢ panic
unfolding check_partitions
check_partitions_total declared index [] = λ e. cc
check_partitions_total declared index (p ∷ ps) =
    ground (arith, check_partitions_total declared index ps)

check_topology_total :
    (declared : Set LogicalPartitionId) (index : ℕ) (ops : List TransactionOperation)
    → check_topology declared index ops ≢ panic
unfolding check_topology
check_topology_total declared index [] = λ e. cc
check_topology_total declared index (op ∷ ops) =
    >>=-ne-panic (check_partitions declared index (keys (partitions op))) _
      (check_partitions_total declared index (keys (partitions op)))
      (λ _ _. check_topology_total declared (suc index) ops)

check_identities_total :
    (i : ℕ) (seen : Map OperationRef ℕ) (ops : List TransactionOperation)
    → check_identities i seen ops ≢ panic
unfolding check_identities
check_identities_total i seen [] = λ e. cc
check_identities_total i seen (op ∷ ops) =
    ground (arith, check_identities_total (suc i) (insert (operation_ref op) i seen) ops)

check_barriers_total :
    (ops : List TransactionOperation) (bs : List BarrierRef) → check_barriers ops bs ≢ panic
unfolding check_barriers
check_barriers_total ops [] = λ e. cc
check_barriers_total ops (b ∷ bs) = ground (arith, check_barriers_total ops bs)

check_launches_total :
    (ops : List TransactionOperation) (ls : List LaunchRef) → check_launches ops ls ≢ panic
unfolding check_launches
check_launches_total ops [] = λ e. cc
check_launches_total ops (l ∷ ls) = ground (arith, check_launches_total ops ls)

-- The declared partitions are the keys of the table.
contains_key-keys :
    (j : LogicalPartitionId) (bs : Bindings) → any_same j (keys bs) ≡ contains_key j bs
unfolding any_same lookup
contains_key-keys j [] = refl
contains_key-keys j ((p, b) ∷ bs) = ground (arith, contains_key-keys j bs)

abbrev IsBound : Bindings → LogicalPartitionId → Type 0
IsBound bs p = contains_key p bs ≡ true

IsBound-declared :
    (bs : Bindings) (p : LogicalPartitionId) → contains p (of_list (keys bs)) ≡ true → IsBound bs p
unfolding lookup
IsBound-declared bs p h = ground (arith, contains-add_all (keys bs) p [], contains_key-keys p bs)

IsBound-all_partitions :
    (bs : Bindings) (ops : List TransactionOperation)
    → All (IsDeclared (of_list (keys bs))) ops
    → All (IsBound bs) (all_partitions ops)
unfolding all_partitions
IsBound-all_partitions bs [] h = tt
IsBound-all_partitions bs (op ∷ ops) h =
    All-append (IsBound bs) (keys (partitions op)) (all_partitions ops)
      (All-map _ (IsBound bs) (IsBound-declared bs) (keys (partitions op)) h.0)
      (IsBound-all_partitions bs ops h.1)

IsBound-referenced :
    (bs : Bindings) (ops : List TransactionOperation)
    → All (IsDeclared (of_list (keys bs))) ops
    → All (IsBound bs) (keys (referenced ops))
unfolding referenced
IsBound-referenced bs ops h =
    All-add_all (IsBound bs) (all_partitions ops) [] (IsBound-all_partitions bs ops h) tt

-- The binding that is looked up has a virtual partition.
pub record IsAdmitted (bs : Bindings) (p : LogicalPartitionId) : Type 0 where
  pub binding : PartitionBinding
  pub admitted : VirtualDevicePartition
  pub found : lookup p bs ≡ some binding
  pub attached : binding.virtual_partition ≡ some admitted

check_admitted_total :
    (bs : Bindings) (ps : List LogicalPartitionId)
    → All (IsBound bs) ps
    → check_admitted bs ps ≢ panic
unfolding check_admitted
check_admitted_total bs [] h = λ e. cc
check_admitted_total bs (p ∷ ps) h = ground (arith, check_admitted_total bs ps h.1, h.0)

pub check_admitted_ok :
    (bs : Bindings) (ps : List LogicalPartitionId)
    → check_admitted bs ps ≡ ok tt
    → All (IsAdmitted bs) ps
unfolding check_admitted
check_admitted_ok bs [] e = tt
check_admitted_ok bs (p ∷ ps) e = elim (Option-cases (lookup p bs)) [
  | inl h ↦ absurd (ground arith)
  | inr (b, h) ↦ elim (Option-cases b.virtual_partition) [
    | inl k ↦ absurd (ground arith)
    | inr (v, k) ↦ (
      record { binding = b; admitted = v; found = h; attached = k },
      check_admitted_ok bs ps (ground arith),
    )
  ]
]

check_budget_total :
    (p : LogicalPartitionId) (r : ReservationRecord) (l : PartitionBudgetLedger)
    → check_budget p r l ≢ panic
unfolding check_budget
check_budget_total p r l = ground arith

check_budgets_total :
    (bs : Bindings) (m : Map LogicalPartitionId ReservationRecord)
    → All (IsAdmitted bs) (keys m)
    → check_budgets bs m ≢ panic
unfolding check_budgets
check_budgets_total bs [] h = λ e. cc
check_budgets_total bs ((p, r) ∷ m) h =
    rw (h.0.found, h.0.attached)
      (>>=-ne-panic (check_budget p r h.0.admitted.ledger) _
        (check_budget_total p r h.0.admitted.ledger) (λ _ _. check_budgets_total bs m h.1))

-- The checks never panic on a plan that has bindings: what `expect` looks up was checked to be
-- there.
pub check_plan_total :
    (plan : BoundDistributedPlan) (table : Bindings) (ops : List TransactionOperation)
    (boundary : TransactionCommitBoundary)
    → bindings plan ≡ some table
    → check_plan plan ops boundary ≢ panic
unfolding check_plan
check_plan_total plan table ops boundary bound = rw bound (
    >>=-ne-panic (check_topology (of_list (keys table)) 0 ops) _
      (check_topology_total (of_list (keys table)) 0 ops)
      (λ _ topology.
        >>=-ne-panic (check_identities 0 [] ops) _ (check_identities_total 0 [] ops) (λ found _.
          >>=-ne-panic (check_barriers ops (keys boundary.barriers)) _
            (check_barriers_total ops (keys boundary.barriers))
            (λ _ _.
              >>=-ne-panic (check_launches ops (keys boundary.launches)) _
                (check_launches_total ops (keys boundary.launches))
                (λ _ _.
                  >>=-ne-panic (check_admitted table (keys (referenced ops))) _
                    (check_admitted_total table (keys (referenced ops)) (
                      IsBound-referenced table ops
                        (check_topology_ok (of_list (keys table)) 0 ops topology)))
                    (λ _ admitted.
                      >>=-ne-panic (check_budgets table (derive_reservation ops (referenced ops))) _
                        (check_budgets_total table (derive_reservation ops (referenced ops)) (
                          derive_reservation-All (IsAdmitted table) ops (referenced ops)
                            (check_admitted_ok table (keys (referenced ops)) admitted)))
                        (λ _ _ e. cc)))))))
