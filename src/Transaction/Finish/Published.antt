-- ===== src/Transaction/Finish/Published.antt =====
-- What `commit` and `abort` of src/execution_transaction/transaction.rs publish and leave behind.
use faber_runtime.Base.{ℕ, ◌≡◌, sym, subst, ◌↔◌, true, some, List, [], arith}
use faber_runtime.Base.Steps.{Steps}
use faber_runtime.Base.Result
use faber_runtime.Base.Key.{Text, text_key}
use faber_runtime.Base.Map.{Set, keys, contains, any_same}
use faber_runtime.BoundPlan.{LogicalPartitionId}
use faber_runtime.Transaction.Mirror.{OperationEvent, BoundaryRef}
use faber_runtime.Transaction.State.{
  BackendError, TransactionState, executing, boundary_not_reached, TransactionDecision,
  TransactionReceipt, PublicationOrdinal, ok, err,
}
use faber_runtime.Transaction.Backend.{DeviceExecutionBackend}
use faber_runtime.Transaction.Plan.{ExecutionTransaction}
use faber_runtime.Transaction.Boundary.{missing_boundary_refs, refresh_completed_events}
use faber_runtime.Transaction.Operation.{boundary_ref_key}
use faber_runtime.Transaction.Boundary.Missing.{IsMissing, missing_boundary_refs-IsMissing}
use faber_runtime.Transaction.Boundary.Reached.{IsReached, missing_boundary_refs_nil}
use faber_runtime.Transaction.Coordinator.{reserved_partitions, build_receipt}
use faber_runtime.Transaction.Finish.{release_all, finish, commit_published, commit_joined, commit}
use faber_runtime.Transaction.Finish.Undone.{
  IsReleased, HasReserved, release_all-Steps, reserved_partitions_lem,
}

module _ {TR S : Type 0} (b : DeviceExecutionBackend S) where
  -- The events of the plan that have completed once the backend has been asked again.
  abbrev pub joined : ExecutionTransaction TR → S → Set OperationEvent
  joined t s = refresh_completed_events (λ e. b.event_completed e s) t.operations t.completed_events

  pub record Committed (ordinal : PublicationOrdinal) (t : ExecutionTransaction TR) (s : S)
      (r : TransactionReceipt TR) (t' : ExecutionTransaction TR) (s' : S) : Type 0 where
    pub was_executing : t.state ≡ executing
    pub reached : IsReached t.operations t.commit_boundary (joined t s)
    pub published : (b.publish s).0 ≡ Result.ok tt
    pub released : List LogicalPartitionId
    pub releases : Steps (IsReleased b) released (b.publish s).1 s'
    pub released_are : (p : LogicalPartitionId) → (any_same p released ≡ true) ↔ HasReserved t p
    pub is_committed : t'.state ≡ TransactionState.committed
    pub kept : t'.receipt ≡ some r
    pub decided : r.decision ≡ TransactionDecision.committed ordinal
    pub executed_kept : r.executed_operations ≡ t.executed_operations
    pub events_kept : r.synchronization_events ≡ joined t s
    pub staged_kept : t'.staged_write_set ≡ t.staged_write_set

  commit_published_ok :
      (debug : BackendError → Text) (ordinal nanos : ℕ) (t t' : ExecutionTransaction TR) (s s' : S)
      (r : TransactionReceipt TR)
      → commit_published b debug ordinal nanos t (b.publish s) ≡ (ok r, t', s')
      → ((b.publish s).0 ≡ Result.ok tt)
        × (s' ≡ release_all b (keys (reserved_partitions t)) (b.publish s).1)
        × (t'.state ≡ TransactionState.committed)
        × (t'.receipt ≡ some r)
        × (r.decision ≡ TransactionDecision.committed ordinal)
        × (r.executed_operations ≡ t.executed_operations)
        × (r.synchronization_events ≡ t.completed_events)
        × (t'.staged_write_set ≡ t.staged_write_set)
  unfolding commit_published finish build_receipt
  commit_published_ok debug ordinal nanos t t' s s' r e = ground arith

  commit_reached :
      (debug : BackendError → Text) (ordinal nanos : ℕ) (t t' : ExecutionTransaction TR) (s s' : S)
      (r : TransactionReceipt TR)
      → commit b debug ordinal nanos t s ≡ (ok r, t', s')
      → (t.state ≡ executing)
        × (missing_boundary_refs t.operations t.commit_boundary (joined t s) ≡ [])
        × (commit_published b debug ordinal nanos
              (record t { completed_events = joined t s })
              (b.publish s)
            ≡ (ok r, t', s'))
  unfolding commit commit_joined
  commit_reached debug ordinal nanos t t' s s' r e = ground arith

  -- A commit that succeeds was asked of an executing transaction whose boundary is reached with the
  -- events known now; the backend has published, and then let go of exactly the reserved partitions;
  -- the receipt says so and is kept.
  pub commit_ok :
      (debug : BackendError → Text) (ordinal nanos : ℕ) (t t' : ExecutionTransaction TR) (s s' : S)
      (r : TransactionReceipt TR)
      → commit b debug ordinal nanos t s ≡ (ok r, t', s')
      → Committed ordinal t s r t' s'
  unfolding reserved_partitions
  commit_ok debug ordinal nanos t t' s s' r e =
      let (started, nothing_missing, ended) = commit_reached debug ordinal nanos t t' s s' r e in
      let (done, let_go, final, stored, made, ran, seen, writes) =
        commit_published_ok debug ordinal nanos (record t { completed_events = joined t s }) t' s s'
          r ended in
      record {
        was_executing = started;
        reached =
            missing_boundary_refs_nil t.operations t.commit_boundary (joined t s) nothing_missing;
        published = done;
        released = keys (reserved_partitions t);
        releases =
            subst (Steps (IsReleased b) (keys (reserved_partitions t)) (b.publish s).1) (sym let_go)
              (release_all-Steps b (keys (reserved_partitions t)) (b.publish s).1);
        released_are = reserved_partitions_lem t;
        is_committed = final;
        kept = stored;
        decided = made;
        executed_kept = ran;
        events_kept = seen;
        staged_kept = writes;
      }

  commit_not_reached :
      (debug : BackendError → Text) (ordinal nanos : ℕ) (t : ExecutionTransaction TR) (s : S)
      → t.state ≡ executing
      → ¬ IsReached t.operations t.commit_boundary (joined t s)
      → commit b debug ordinal nanos t s ≡ (
        err (
            boundary_not_reached
              (missing_boundary_refs t.operations t.commit_boundary (joined t s))),
        record t { completed_events = joined t s },
        s,
      )
  unfolding commit commit_joined
  commit_not_reached debug ordinal nanos t s x h =
      ground (arith, missing_boundary_refs_nil t.operations t.commit_boundary (joined t s))

  -- A commit of an executing transaction whose boundary is not reached reports exactly the barriers
  -- and launches of the boundary that are not in the plan or have not completed in every partition
  -- that takes part in them, each as what it is. The backend is not touched, and the transaction
  -- only has the joined events more.
  pub commit_waits :
      (debug : BackendError → Text) (ordinal nanos : ℕ) (t : ExecutionTransaction TR) (s : S)
      → t.state ≡ executing
      → ¬ IsReached t.operations t.commit_boundary (joined t s)
      → (missing : Set BoundaryRef) × (commit b debug ordinal nanos t s
          ≡ (err (boundary_not_reached missing), record t { completed_events = joined t s }, s))
        × ((x : BoundaryRef)
            → (contains x missing ≡ true) ↔ IsMissing t.operations t.commit_boundary (joined t s) x)
  commit_waits debug ordinal nanos t s x h = (
    missing_boundary_refs t.operations t.commit_boundary (joined t s),
    commit_not_reached debug ordinal nanos t s x h,
    missing_boundary_refs-IsMissing t.operations t.commit_boundary (joined t s),
  )
