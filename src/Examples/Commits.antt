-- ===== src/Examples/Commits.antt =====
-- `execute`, `execute_operation` and `commit` of src/execution_transaction/transaction.rs on the
-- plan of a launch and a barrier, over the fake backend.
use native.Mathlib.Decide.{ℕ_discrete}
use faber_runtime.Base.{◌≡◌, refl, ◌↔◌, true, false, Option, none, some, [], ◌∷◌, ◌++◌, map}
use faber_runtime.Base.Key.{text, text_key}
use faber_runtime.Base.Steps.{Steps}
use faber_runtime.Base.Map.{Set, contains, lookup, insert, add_all, of_list}
use faber_runtime.BoundPlan.{receipt}
use faber_runtime.Transaction.Mirror.{
  TransactionOperation, TransactionOperation-discrete, BoundaryRef, launch, launch_completed,
  barrier_completed,
}
use faber_runtime.Transaction.Operation.{
  operation_ref, byte_count, completed_events, staged_writes, operation_ref_key, boundary_ref_key,
  event_key,
}
use faber_runtime.Transaction.Reservation.{insert_all, derive_declared_write_set}
use faber_runtime.Transaction.State.{
  executing, prepared, boundary_not_reached, TransactionDecision, TransactionReceipt, ok, err,
}
use faber_runtime.Transaction.Backend.{
  FakeExecutionBackend, fake_backend, fake_new, fake_run_operation, fake_stage_write, fake_publish,
}
use faber_runtime.Transaction.Plan.{ExecutionTransaction, no_teardown, no_timings}
use faber_runtime.Transaction.Execute.{
  stage, timed, execute_staged, execute_run, execute_accepted, execute_operation, execute_all,
  execute,
}
use faber_runtime.Transaction.Execute.Ran.{HasRun}
use faber_runtime.Transaction.Execute.Snapshot.{record_executed, execute_ok}
use faber_runtime.Transaction.Execute.Once.{execute_operation_once}
use faber_runtime.Transaction.Finish.{finish, commit_published, commit_joined, commit}
use faber_runtime.Transaction.Finish.Published.{joined, Committed, commit_ok, commit_waits}
use faber_runtime.Transaction.Boundary.{
  barrier_partitions, launch_partitions, mark, mark_barriers, mark_launches, missing_boundary_refs,
  join_events, refresh_completed_events,
}
use faber_runtime.Transaction.Boundary.Reached.{IsReached}
use faber_runtime.Transaction.Boundary.Missing.{IsMissing}
use faber_runtime.Transaction.Coordinator.{build_receipt}
use faber_runtime.Examples.Plans.{debug, plan, work, join, boundary, transaction, TransportReceipt}
use faber_runtime.Examples.Runs.{accepted}

abbrev ready : ExecutionTransaction TransportReceipt
ready = record transaction { state = prepared; operation_keys = accepted.operation_keys }

abbrev ran : ExecutionTransaction TransportReceipt
ran = (execute fake_backend ready 2 fake_new).1

abbrev staged : FakeExecutionBackend
staged = (execute fake_backend ready 2 fake_new).2

execute_test : execute fake_backend ready 2 fake_new ≡ (ok tt, ran, staged)
unfolding execute timed execute_all execute_operation execute_accepted execute_run execute_staged
    stage fake_run_operation fake_stage_write fake_new operation_ref byte_count staged_writes
    TransactionOperation-discrete ℕ_discrete lookup insert
execute_test = refl

execute_ok_example :
    (ready.state ≡ prepared)
    × (ran.state ≡ executing)
    × (ran.executed_operations ≡ [] ++ map record_executed (work ∷ join ∷ []))
    × (ran.staged_write_set ≡ insert_all (work ∷ join ∷ []) [])
    × (ran.operations ≡ work ∷ join ∷ [])
    × (ran.declared_write_set ≡ [])
    × (ran.reservation ≡ none)
    × (ran.operation_keys ≡ accepted.operation_keys)
    × Steps (HasRun fake_backend) (work ∷ join ∷ []) fake_new staged
execute_ok_example = execute_ok fake_backend ready ran 2 fake_new staged execute_test

-- The launch under its own name, with a different size.
abbrev forged : TransactionOperation
forged = launch (text "a") (text "work") 65

abbrev running : ExecutionTransaction TransportReceipt
running = record ready { state = executing }

abbrev executed : ExecutionTransaction TransportReceipt
executed = record running { staged_write_set = derive_declared_write_set (work ∷ join ∷ []) }

abbrev written : FakeExecutionBackend
written = record fake_new { staged_writes = derive_declared_write_set (work ∷ join ∷ []) }

execute_operation_once_example :
    (execute_operation fake_backend executed work written).1.staged_write_set
    ≡ derive_declared_write_set (work ∷ join ∷ [])
unfolding derive_declared_write_set
execute_operation_once_example = execute_operation_once executed work written refl refl

-- Every event of the plan has completed.
abbrev finished : FakeExecutionBackend
finished = record written {
  completed_events = of_list (
      launch_completed (text "a") (text "work")
      ∷ barrier_completed (text "a") (text "join")
      ∷ barrier_completed (text "b") (text "join")
      ∷ []);
}

abbrev receipt_of :
    Option (TransactionReceipt TransportReceipt) → TransactionReceipt TransportReceipt
receipt_of (some r) = r
receipt_of none = record {
  transaction_id = [];
  logical_distributed_plan_hash = [];
  bound_distributed_plan_hash = [];
  plan_receipt = receipt plan;
  reservation_summary = [];
  declared_write_set = [];
  executed_operations = [];
  synchronization_events = [];
  decision = TransactionDecision.committed 0;
  publish_summary = none;
  teardown = no_teardown;
  timings = no_timings;
  selected_transports = none;
}

abbrev closed : ExecutionTransaction TransportReceipt
closed = (commit fake_backend debug 5 3 executed finished).1

abbrev published : FakeExecutionBackend
published = (commit fake_backend debug 5 3 executed finished).2

commit_test :
    commit fake_backend debug 5 3 executed finished
    ≡ (ok (receipt_of closed.receipt), closed, published)
unfolding commit commit_joined commit_published finish build_receipt missing_boundary_refs
    mark_barriers mark_launches mark barrier_partitions launch_partitions refresh_completed_events
    join_events completed_events fake_publish lookup insert add_all fake_new
commit_test = refl

commit_ok_example :
    Committed fake_backend 5 executed finished (receipt_of closed.receipt) closed published
commit_ok_example =
    commit_ok fake_backend debug 5 3 executed closed finished published (receipt_of closed.receipt)
      commit_test

-- No event has completed.
not-IsReached : ¬ IsReached (work ∷ join ∷ []) boundary (joined fake_backend executed written)
unfolding refresh_completed_events join_events completed_events barrier_partitions launch_partitions
    lookup insert add_all fake_new
not-IsReached h = let e : false ≡ true = h.launches.0.0 in cc

commit_waits_example :
    (missing : Set BoundaryRef) × (commit fake_backend debug 5 3 executed written ≡ (
      err (boundary_not_reached missing),
      record executed { completed_events = joined fake_backend executed written },
      written,
    ))
    × ((x : BoundaryRef)
        → (contains x missing ≡ true)
          ↔ IsMissing (work ∷ join ∷ []) boundary (joined fake_backend executed written) x)
commit_waits_example = commit_waits fake_backend debug 5 3 executed written refl not-IsReached
