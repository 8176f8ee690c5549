-- ===== src/Transaction/Boundary/Reached.antt =====
-- When `missing_boundary_refs` of src/execution_transaction/transaction.rs is empty.
use faber_runtime.Base.{
  ◌≡◌, refl, ◌∙◌, ◌↔◌, true, Option, none, some, List, [], ◌∷◌, arith, All, if◌then◌else◌,
}
use faber_runtime.Base.Map.{Set, keys, contains, add, insert-ne-nil}
use faber_runtime.BoundPlan.{LogicalPartitionId}
use faber_runtime.Transaction.Mirror.{
  TransactionOperation, BarrierRef, LaunchRef, BoundaryRef, barrier_bound, launch_bound,
  TransactionCommitBoundary, OperationEvent, launch_completed, barrier_completed,
}
use faber_runtime.Transaction.Operation.{boundary_ref_key, event_key}
use faber_runtime.Transaction.Boundary.{
  barrier_partitions, launch_partitions, mark, mark_barriers, mark_launches, missing_boundary_refs,
}

-- The events of these partitions have all completed.
abbrev pub Completed :
    Set OperationEvent
    → (LogicalPartitionId → OperationEvent)
    → Option (Set LogicalPartitionId)
    → Type 0
Completed completed event none = ⊥
Completed completed event (some ps) = All (λ p. contains (event p) completed ≡ true) (keys ps)

-- The plan has every barrier and launch of the boundary, and each has completed in every partition
-- that takes part in it.
pub record IsReached (ops : List TransactionOperation) (boundary : TransactionCommitBoundary)
    (completed : Set OperationEvent) : Type 0 where
  pub barriers :
      All
        (λ b. Completed completed (λ p. barrier_completed p b) (barrier_partitions b ops))
        (keys boundary.barriers)
  pub launches :
      All
        (λ l. Completed completed (λ p. launch_completed p l) (launch_partitions l ops))
        (keys boundary.launches)

mark_nil :
    (completed : Set OperationEvent) (event : LogicalPartitionId → OperationEvent)
    (ref : BoundaryRef) (ps : List LogicalPartitionId) (missing : Set BoundaryRef)
    → mark completed event ref ps missing ≡ []
    → (missing ≡ []) × All (λ p. contains (event p) completed ≡ true) ps
unfolding mark
mark_nil completed event ref [] missing e = (e, tt)
mark_nil completed event ref (p ∷ ps) missing e = ground (
  arith,
  mark_nil completed event ref ps
      (if contains (event p) completed then missing else add ref missing) e,
  insert-ne-nil ref tt missing,
)

mark_found_nil :
    (completed : Set OperationEvent) (event : LogicalPartitionId → OperationEvent)
    (ref : BoundaryRef) (found : Option (Set LogicalPartitionId)) (missing : Set BoundaryRef)
    → elim found as (λ o. Set BoundaryRef) [
      | none ↦ add ref missing
      | some ps ↦ mark completed event ref (keys ps) missing
    ]
      ≡ []
    → (missing ≡ []) × Completed completed event found
mark_found_nil completed event ref none missing e = absurd (insert-ne-nil ref tt missing e)
mark_found_nil completed event ref (some ps) missing e =
    mark_nil completed event ref (keys ps) missing e

mark_barriers_nil :
    (ops : List TransactionOperation) (completed : Set OperationEvent) (bs : List BarrierRef)
    (missing : Set BoundaryRef)
    → mark_barriers ops completed bs missing ≡ []
    → (missing ≡ [])
      × All (λ b. Completed completed (λ p. barrier_completed p b) (barrier_partitions b ops)) bs
unfolding mark_barriers
mark_barriers_nil ops completed [] missing e = (e, tt)
mark_barriers_nil ops completed (b ∷ bs) missing e =
    let (here, rest) = mark_barriers_nil ops completed bs _ e in
    let (before, done) =
      mark_found_nil completed (λ p. barrier_completed p b) (barrier_bound b)
        (barrier_partitions b ops) missing here in
    (before, (done, rest))

mark_launches_nil :
    (ops : List TransactionOperation) (completed : Set OperationEvent) (ls : List LaunchRef)
    (missing : Set BoundaryRef)
    → mark_launches ops completed ls missing ≡ []
    → (missing ≡ [])
      × All (λ l. Completed completed (λ p. launch_completed p l) (launch_partitions l ops)) ls
unfolding mark_launches
mark_launches_nil ops completed [] missing e = (e, tt)
mark_launches_nil ops completed (l ∷ ls) missing e =
    let (here, rest) = mark_launches_nil ops completed ls _ e in
    let (before, done) =
      mark_found_nil completed (λ p. launch_completed p l) (launch_bound l)
        (launch_partitions l ops) missing here in
    (before, (done, rest))

pub missing_boundary_refs_nil :
    (ops : List TransactionOperation) (boundary : TransactionCommitBoundary)
    (completed : Set OperationEvent)
    → missing_boundary_refs ops boundary completed ≡ []
    → IsReached ops boundary completed
unfolding missing_boundary_refs
missing_boundary_refs_nil ops boundary completed e =
    let (barriers_nil, launched) = mark_launches_nil ops completed (keys boundary.launches) _ e in
    let (start, joined) =
      mark_barriers_nil ops completed (keys boundary.barriers) [] barriers_nil in
    record { barriers = joined; launches = launched }

-- The other way round: nothing is missing of a boundary that is reached.
mark-All :
    (completed : Set OperationEvent) (event : LogicalPartitionId → OperationEvent)
    (ref : BoundaryRef) (ps : List LogicalPartitionId) (missing : Set BoundaryRef)
    → All (λ p. contains (event p) completed ≡ true) ps
    → mark completed event ref ps missing ≡ missing
unfolding mark
mark-All completed event ref [] missing h = refl
mark-All completed event ref (p ∷ ps) missing h =
    rw h.0 (mark-All completed event ref ps missing h.1)

mark_found_all :
    (completed : Set OperationEvent) (event : LogicalPartitionId → OperationEvent)
    (ref : BoundaryRef) (found : Option (Set LogicalPartitionId)) (missing : Set BoundaryRef)
    → Completed completed event found
    → elim found as (λ o. Set BoundaryRef) [
      | none ↦ add ref missing
      | some ps ↦ mark completed event ref (keys ps) missing
    ]
      ≡ missing
mark_found_all completed event ref none missing h = absurd h
mark_found_all completed event ref (some ps) missing h =
    mark-All completed event ref (keys ps) missing h

mark_barriers-All :
    (ops : List TransactionOperation) (completed : Set OperationEvent) (bs : List BarrierRef)
    (missing : Set BoundaryRef)
    → All (λ b. Completed completed (λ p. barrier_completed p b) (barrier_partitions b ops)) bs
    → mark_barriers ops completed bs missing ≡ missing
unfolding mark_barriers
mark_barriers-All ops completed [] missing h = refl
mark_barriers-All ops completed (b ∷ bs) missing h =
    mark_barriers-All ops completed bs _ h.1
    ∙ mark_found_all completed (λ p. barrier_completed p b) (barrier_bound b)
        (barrier_partitions b ops) missing h.0

mark_launches-All :
    (ops : List TransactionOperation) (completed : Set OperationEvent) (ls : List LaunchRef)
    (missing : Set BoundaryRef)
    → All (λ l. Completed completed (λ p. launch_completed p l) (launch_partitions l ops)) ls
    → mark_launches ops completed ls missing ≡ missing
unfolding mark_launches
mark_launches-All ops completed [] missing h = refl
mark_launches-All ops completed (l ∷ ls) missing h =
    mark_launches-All ops completed ls _ h.1
    ∙ mark_found_all completed (λ p. launch_completed p l) (launch_bound l)
        (launch_partitions l ops) missing h.0

pub missing_boundary_refs_reached :
    (ops : List TransactionOperation) (boundary : TransactionCommitBoundary)
    (completed : Set OperationEvent)
    → IsReached ops boundary completed
    → missing_boundary_refs ops boundary completed ≡ []
unfolding missing_boundary_refs
missing_boundary_refs_reached ops boundary completed h =
    mark_launches-All ops completed (keys boundary.launches) _ h.launches
    ∙ mark_barriers-All ops completed (keys boundary.barriers) [] h.barriers

-- Nothing is missing exactly if the boundary is reached: the plan has each of its barriers and
-- launches, and each has completed in every partition that takes part in it.
pub missing_boundary_refs_lem :
    (ops : List TransactionOperation) (boundary : TransactionCommitBoundary)
    (completed : Set OperationEvent)
    → (missing_boundary_refs ops boundary completed ≡ []) ↔ IsReached ops boundary completed
missing_boundary_refs_lem ops boundary completed = (
  missing_boundary_refs_nil ops boundary completed,
  missing_boundary_refs_reached ops boundary completed,
)
