-- ===== src/Transaction/Coordinator.antt =====
-- src/execution_transaction/transaction.rs: what the four calls of the coordinator share. A call
-- takes the time that its clock measures and the backend's state, and returns its end, the
-- transaction and that state.
use faber_runtime.Base.{Option, none, some, List, [], ◌∷◌, if◌then◌else◌}
use faber_runtime.Base.Key.{text_key}
use faber_runtime.Base.Map.{Set, keys, contains, of_list}
use faber_runtime.BoundPlan.{LogicalPartitionId, receipt}
use faber_runtime.Transaction.Operation.{operation_ref_key, boundary_ref_key, event_key}
use faber_runtime.Transaction.State.{
  TransactionFailure, TransactionState, failed, TransactionReceipt, Outcome,
}
use faber_runtime.Transaction.Plan.{ExecutionTransaction}

-- Members of the one set that are not in the other.
abbrev pub difference : List LogicalPartitionId → Set LogicalPartitionId → List LogicalPartitionId
difference [] s = []
difference (p ∷ ps) s = let rest = difference ps s in if contains p s then rest else p ∷ rest

module _ {TR : Type 0} where
  pub with_transport_receipt : ExecutionTransaction TR → TR → ExecutionTransaction TR
  with_transport_receipt t r = record t { transport_receipt = some r }

  -- The first failure wins.
  unfoldable pub fail : ExecutionTransaction TR → TransactionFailure → ExecutionTransaction TR
  fail t f = elim t.state [
    | TransactionState.committed ↦ t
    | failed g ↦ t
    | TransactionState.aborted g ↦ t
    | _ ↦ record t { failure = some f; state = failed f }
  ]

  unfoldable pub reserved_partitions : ExecutionTransaction TR → Set LogicalPartitionId
  reserved_partitions t = elim t.reservation [ none ↦ [] | some m ↦ of_list (keys m) ]

  -- `None` stands for the `expect` on a decision that was not made.
  unfoldable pub build_receipt : ExecutionTransaction TR → Option (TransactionReceipt TR)
  build_receipt t = elim t.decision [
    | none ↦ none
    | some made ↦ some (record {
      transaction_id = t.id;
      logical_distributed_plan_hash = t.bound_plan.logical_distributed_plan_hash;
      bound_distributed_plan_hash = t.bound_plan.bound_distributed_plan_hash;
      plan_receipt = receipt t.bound_plan;
      reservation_summary = elim t.reservation [ none ↦ [] | some m ↦ m ];
      declared_write_set = t.declared_write_set;
      executed_operations = t.executed_operations;
      synchronization_events = t.completed_events;
      decision = made;
      publish_summary = t.publish_summary;
      teardown = t.teardown;
      timings = t.timings;
      selected_transports = t.transport_receipt;
    })
  ]

-- The end of a call, the transaction after it, and the state of the backend.
abbrev pub End : Type 0 → Type 0 → Type 0 → Type 0 → Type 0
End TR S A E = Outcome A E × ExecutionTransaction TR × S
