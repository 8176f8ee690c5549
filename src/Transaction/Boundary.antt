-- ===== src/Transaction/Boundary.antt =====
-- src/execution_transaction/transaction.rs, `missing_boundary_refs` and
-- `refresh_completed_events`: what the declared commit boundary still waits for.
pub mod Reached
pub mod Missing
use faber_runtime.Base.{ℕ, Bool, ◌||◌, Option, none, some, List, [], ◌∷◌, if◌then◌else◌}
use faber_runtime.Base.Key.{Text, same, text_key}
use faber_runtime.Base.Map.{Set, keys, contains, add, of_list}
use faber_runtime.BoundPlan.{LogicalPartitionId}
use faber_runtime.Transaction.Mirror.{
  TransactionOperation, launch, transfer, collective_broadcast, barrier, BarrierRef, LaunchRef,
  BoundaryRef, barrier_bound, launch_bound, TransactionCommitBoundary, OperationEvent,
  launch_completed, barrier_completed,
}
use faber_runtime.Transaction.Operation.{completed_events, boundary_ref_key, event_key}

-- The participants of the first barrier, or launch, of that name.
unfoldable pub barrier_partitions :
    BarrierRef → List TransactionOperation → Option (Set LogicalPartitionId)
barrier_partitions b [] = none
barrier_partitions b (barrier r ps ∷ ops) = if same r b then some ps else barrier_partitions b ops
barrier_partitions b (launch p r n ∷ ops) = barrier_partitions b ops
barrier_partitions b (transfer t ∷ ops) = barrier_partitions b ops
barrier_partitions b (collective_broadcast c ∷ ops) = barrier_partitions b ops

unfoldable pub launch_partitions :
    LaunchRef → List TransactionOperation → Option (Set LogicalPartitionId)
launch_partitions l [] = none
launch_partitions l (launch p r n ∷ ops) =
    if same r l then some (of_list (p ∷ [])) else launch_partitions l ops
launch_partitions l (barrier r ps ∷ ops) = launch_partitions l ops
launch_partitions l (transfer t ∷ ops) = launch_partitions l ops
launch_partitions l (collective_broadcast c ∷ ops) = launch_partitions l ops

-- The reference is missing if the event of some partition has not completed.
unfoldable pub mark :
    Set OperationEvent
    → (LogicalPartitionId → OperationEvent)
    → BoundaryRef
    → List LogicalPartitionId
    → Set BoundaryRef
    → Set BoundaryRef
mark completed event ref [] missing = missing
mark completed event ref (p ∷ ps) missing =
    mark completed event ref ps (if contains (event p) completed then missing else add ref missing)

unfoldable pub mark_barriers :
    List TransactionOperation
    → Set OperationEvent
    → List BarrierRef
    → Set BoundaryRef
    → Set BoundaryRef
mark_barriers ops completed [] missing = missing
mark_barriers ops completed (b ∷ bs) missing =
    mark_barriers ops completed bs (elim (barrier_partitions b ops) [
      | none ↦ add (barrier_bound b) missing
      | some ps ↦ mark completed (λ p. barrier_completed p b) (barrier_bound b) (keys ps) missing
    ])

unfoldable pub mark_launches :
    List TransactionOperation
    → Set OperationEvent
    → List LaunchRef
    → Set BoundaryRef
    → Set BoundaryRef
mark_launches ops completed [] missing = missing
mark_launches ops completed (l ∷ ls) missing =
    mark_launches ops completed ls (elim (launch_partitions l ops) [
      | none ↦ add (launch_bound l) missing
      | some ps ↦ mark completed (λ p. launch_completed p l) (launch_bound l) (keys ps) missing
    ])

unfoldable pub missing_boundary_refs :
    List TransactionOperation → TransactionCommitBoundary → Set OperationEvent → Set BoundaryRef
missing_boundary_refs ops boundary completed =
    mark_launches ops completed (keys boundary.launches)
      (mark_barriers ops completed (keys boundary.barriers) [])

-- The events that the backend confirms join the completed ones.
unfoldable pub join_events :
    (OperationEvent → Bool) → List OperationEvent → Set OperationEvent → Set OperationEvent
join_events done [] completed = completed
join_events done (e ∷ es) completed =
    join_events done es (if done e then add e completed else completed)

unfoldable pub refresh_completed_events :
    (OperationEvent → Bool) → List TransactionOperation → Set OperationEvent → Set OperationEvent
refresh_completed_events done [] completed = completed
refresh_completed_events done (op ∷ ops) completed =
    refresh_completed_events done ops (join_events done (keys (completed_events op)) completed)
