-- ===== src/Examples/Plans.antt =====
-- A plan of a launch and a barrier over two partitions, run by the coordinator of
-- src/execution_transaction/transaction.rs over the fake backend.
use native.Mathlib.Omega.{arith}
use faber_runtime.Base.{ℕ, ◌≡◌, refl, ◌↔◌, none, some, List, [], ◌∷◌, if◌then◌else◌}
use faber_runtime.Base.Result
use faber_runtime.Base.Key.{Text, text, text_key}
use faber_runtime.Base.Map.{Map, Set, lookup, contains}
use faber_runtime.Device.{PhysicalDeviceId, metal}
use faber_runtime.Partition.{PartitionBudgetLedger, active, virtual, no_transport}
use faber_runtime.BoundPlan.{
  LogicalPartitionId, PartitionBinding, BoundDistributedPlan, distributed, is_degenerate,
}
use faber_runtime.Transaction.Mirror.{
  TransactionOperation, launch, barrier, TransactionCommitBoundary,
}
use faber_runtime.Transaction.Mirror.Encoding.{OperationFits, operation_bytes_inv}
use faber_runtime.Transaction.Operation.{operation_ref_key, event_key}
use faber_runtime.Transaction.Reservation.{derive_reservation, derive_declared_write_set}
use faber_runtime.Transaction.Reservation.Exact.{exact_record, derive_reservation_lem}
use faber_runtime.Transaction.State.{BackendError, failed, cancelled_for, is_committed}
use faber_runtime.Transaction.Backend.{fake_backend, fake_new}
use faber_runtime.Transaction.Plan as Plan
use faber_runtime.Transaction.Plan.{ExecutionTransaction, fresh}
use faber_runtime.Transaction.Boundary.{missing_boundary_refs}
use faber_runtime.Transaction.Boundary.Reached.{IsReached, missing_boundary_refs_lem}
use faber_runtime.Transaction.Finish.{abort}
use faber_runtime.Transaction.Finish.Aborted.{Aborted, abort_lem}
use faber_runtime.Transaction.Lifecycle.{
  Call, prepare_call, execute_call, operation_call, commit_call, abort_call, run,
}
use faber_runtime.Transaction.Lifecycle.Atomic.{run-published}

abbrev pub ledger : PartitionBudgetLedger
ledger = record {
  weight_bytes = 0;
  kv_cache_bytes = 0;
  activation_scratch_bytes = 10000;
  module_storage_bytes = 0;
  allocator_overhead_bytes = 0;
  transfer_staging_bytes = 1000;
  concurrent_state_bytes = 0;
}

abbrev pub device : PhysicalDeviceId
device = record { facts = metal (record { registry_id = text "gpu" }) }

abbrev pub binding : PartitionBinding
binding = record {
  device = device;
  virtual_partition = some (record {
    id = 1;
    bound_device = device;
    ledger = ledger;
    safe_limit = 20000;
    state = active;
  });
}

abbrev pub table : Map LogicalPartitionId PartitionBinding
table = (text "a", binding) ∷ (text "b", binding) ∷ []

abbrev pub plan : BoundDistributedPlan
plan = record {
  logical_distributed_plan_hash = text "l";
  kind = distributed table;
  device_set = (device, tt) ∷ [];
  snapshot_id = [];
  fixture_identity_class = virtual;
  transport_class = no_transport;
  bound_distributed_plan_hash = text "h";
}

abbrev pub work : TransactionOperation
work = launch (text "a") (text "work") 64

abbrev pub join : TransactionOperation
join = barrier (text "join") ((text "a", tt) ∷ (text "b", tt) ∷ [])

abbrev pub boundary : TransactionCommitBoundary
boundary = record { barriers = (text "join", tt) ∷ []; launches = (text "work", tt) ∷ [] }

abbrev pub TransportReceipt : Type 0
TransportReceipt = Unit {0}

abbrev pub transaction : ExecutionTransaction TransportReceipt
transaction = fresh (text "t") plan (work ∷ join ∷ []) boundary

new_test : Plan.new (text "t") plan (work ∷ join ∷ []) boundary ≡ Result.ok transaction
unfolding Plan.new is_degenerate
new_test = refl

abbrev pub debug : BackendError → Text
debug e = text "backend error"

-- A run to the end, with calls that come too late.
abbrev calls : List Call
calls =
    prepare_call 1
    ∷ execute_call 2
    ∷ commit_call debug 5 3
    ∷ operation_call work
    ∷ abort_call (text "late") 4
    ∷ []

run-published_example : (run calls transaction fake_new).1.published_writes ≡ (
    if is_committed (run calls transaction fake_new).0.state
    then derive_declared_write_set (work ∷ join ∷ [])
    else [])
run-published_example =
    run-published (text "t") plan (work ∷ join ∷ []) boundary transaction calls new_test

join_fits : OperationFits join
join_fits = (omega arith, (omega arith, (omega arith, (omega arith, tt))))

missing_boundary_refs_lem_example :
    (missing_boundary_refs (work ∷ join ∷ []) boundary [] ≡ [])
    ↔ IsReached (work ∷ join ∷ []) boundary []
missing_boundary_refs_lem_example = missing_boundary_refs_lem (work ∷ join ∷ []) boundary []

abbrev both : Set LogicalPartitionId
both = (text "a", tt) ∷ (text "b", tt) ∷ []

derive_reservation_lem_example :
    lookup (text "a") (derive_reservation (work ∷ join ∷ []) both)
    ≡ (if contains (text "a") both then some (exact_record (work ∷ join ∷ []) (text "a")) else none)
derive_reservation_lem_example = derive_reservation_lem (work ∷ join ∷ []) both (text "a")

-- Two writes are on record, one of them staged in the partition that is reserved.
abbrev half_done : ExecutionTransaction TransportReceipt
half_done = record transaction {
  state = failed (cancelled_for (text "first"));
  staged_write_set = derive_declared_write_set (work ∷ []);
  reservation = some (derive_reservation (work ∷ join ∷ []) both);
}

abort_lem_example :
    let (end, t', s') = abort fake_backend (text "stop") 4 half_done fake_new in
    Aborted fake_backend half_done fake_new (cancelled_for (text "first")) end t' s'
abort_lem_example = abort_lem fake_backend (text "stop") 4 half_done fake_new tt

operation_bytes_inv_example : (join ≡ join) × (◌≡◌ {A = List ℕ} (1 ∷ []) (1 ∷ []))
operation_bytes_inv_example =
    operation_bytes_inv join join (1 ∷ []) (1 ∷ []) join_fits join_fits refl
