-- ===== src/Transaction/Check/Named.antt =====
-- The barriers and launches that a boundary names, as `prepare` of
-- src/execution_transaction/transaction.rs looks for them in the plan.
use faber_runtime.Base.{
  ℕ, zero, suc, ◌≡◌, ap, inl, inr, true, some, List, [], ◌∷◌, get_elem?, Bool-cases, arith,
}
use faber_runtime.Base.Key.{same, same→eq, same_refl, text_key}
use faber_runtime.Base.Map.{Set}
use faber_runtime.BoundPlan.{LogicalPartitionId}
use faber_runtime.Transaction.Mirror.{
  TransactionOperation, launch, transfer, collective_broadcast, barrier, BarrierRef, LaunchRef,
}
use faber_runtime.Transaction.Check.{declares_barrier, declares_launch}

-- Some operation of the plan is a barrier of that name.
abbrev pub HasBarrier : List TransactionOperation → BarrierRef → Type 0
HasBarrier ops b = (i : ℕ) × (ps : Set LogicalPartitionId) × (get_elem? ops i ≡ some (barrier b ps))

-- Some operation of the plan is a launch of that name.
abbrev pub HasLaunch : List TransactionOperation → LaunchRef → Type 0
HasLaunch ops l =
    (i : ℕ) × (p : LogicalPartitionId) × (n : ℕ) × (get_elem? ops i ≡ some (launch p l n))

later_barrier :
    (op : TransactionOperation) (ops : List TransactionOperation) (b : BarrierRef)
    → HasBarrier ops b
    → HasBarrier (op ∷ ops) b
later_barrier op ops b (i, ps, e) = (suc i, ps, e)

later_launch :
    (op : TransactionOperation) (ops : List TransactionOperation) (l : LaunchRef)
    → HasLaunch ops l
    → HasLaunch (op ∷ ops) l
later_launch op ops l (i, p, n, e) = (suc i, p, n, e)

pub declares_barrier-HasBarrier :
    (ops : List TransactionOperation) (b : BarrierRef)
    → declares_barrier b ops ≡ true
    → HasBarrier ops b
unfolding declares_barrier
declares_barrier-HasBarrier [] b h = absurd (cc)
declares_barrier-HasBarrier (barrier r ps ∷ ops) b h = elim (Bool-cases (same r b)) [
  | inl e ↦ (0, ps, ap (λ x. some (barrier x ps)) (same→eq r b e))
  | inr n ↦ later_barrier _ ops b (declares_barrier-HasBarrier ops b (ground arith))
]
declares_barrier-HasBarrier (launch p r n ∷ ops) b h =
    later_barrier _ ops b (declares_barrier-HasBarrier ops b h)
declares_barrier-HasBarrier (transfer t ∷ ops) b h =
    later_barrier _ ops b (declares_barrier-HasBarrier ops b h)
declares_barrier-HasBarrier (collective_broadcast c ∷ ops) b h =
    later_barrier _ ops b (declares_barrier-HasBarrier ops b h)

pub declares_launch-HasLaunch :
    (ops : List TransactionOperation) (l : LaunchRef)
    → declares_launch l ops ≡ true
    → HasLaunch ops l
unfolding declares_launch
declares_launch-HasLaunch [] l h = absurd (cc)
declares_launch-HasLaunch (launch p r n ∷ ops) l h = elim (Bool-cases (same r l)) [
  | inl e ↦ (0, p, n, ap (λ x. some (launch p x n)) (same→eq r l e))
  | inr no_match ↦ later_launch _ ops l (declares_launch-HasLaunch ops l (ground arith))
]
declares_launch-HasLaunch (barrier r ps ∷ ops) l h =
    later_launch _ ops l (declares_launch-HasLaunch ops l h)
declares_launch-HasLaunch (transfer t ∷ ops) l h =
    later_launch _ ops l (declares_launch-HasLaunch ops l h)
declares_launch-HasLaunch (collective_broadcast c ∷ ops) l h =
    later_launch _ ops l (declares_launch-HasLaunch ops l h)

pub HasBarrier-declares_barrier :
    (ops : List TransactionOperation) (b : BarrierRef)
    → HasBarrier ops b
    → declares_barrier b ops ≡ true
unfolding declares_barrier
HasBarrier-declares_barrier [] b (i, ps, e) = absurd (cc)
HasBarrier-declares_barrier (op ∷ ops) b (zero, ps, e) = ground (arith, same_refl b)
HasBarrier-declares_barrier (op ∷ ops) b (suc i, ps, e) =
    ground (arith, HasBarrier-declares_barrier ops b (i, ps, e))

pub HasLaunch-declares_launch :
    (ops : List TransactionOperation) (l : LaunchRef)
    → HasLaunch ops l
    → declares_launch l ops ≡ true
unfolding declares_launch
HasLaunch-declares_launch [] l (i, p, n, e) = absurd (cc)
HasLaunch-declares_launch (op ∷ ops) l (zero, p, n, e) = ground (arith, same_refl l)
HasLaunch-declares_launch (op ∷ ops) l (suc i, p, n, e) =
    ground (arith, HasLaunch-declares_launch ops l (i, p, n, e))
