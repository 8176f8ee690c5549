-- ===== src/Examples/Runs.antt =====
-- `prepare` of src/execution_transaction/transaction.rs and its checks, on the plan of a launch and
-- a barrier, over the fake backend.
use mathlib.Core.Logic.{◌↔◌}
use faber_runtime.Base.{◌≡◌, refl, ◌≢◌, some, [], ◌∷◌}
use faber_runtime.Base.Key.{text, text_key}
use faber_runtime.Base.Map.{lookup, insert, add_all}
use faber_runtime.BoundPlan.{bindings}
use faber_runtime.Transaction.Operation.{partitions, operation_ref, operation_ref_key, event_key}
use faber_runtime.Transaction.Reservation.{
  ReservationRecord, bump, bump_each, bump_others, charge_staging, charge_outputs, charge_events,
  charge, record_of, collect_records, derive_reservation,
}
use faber_runtime.Transaction.State.{undeclared_boundary_barrier, ok, err}
use faber_runtime.Transaction.Backend.{FakeExecutionBackend, fake_backend, fake_new}
use faber_runtime.Transaction.Plan.{ExecutionTransaction, fresh}
use faber_runtime.Transaction.Check.{
  AcceptedPlan, check_partitions, check_topology, check_identities, declares_barrier,
  declares_launch, check_barriers, check_launches, all_partitions, referenced, check_admitted,
  check_budget, check_budgets, check_plan,
}
use faber_runtime.Transaction.Check.Complete.{IsAcceptable, check_plan_lem}
use faber_runtime.Transaction.Prepare.{prepare_held, prepare}
use faber_runtime.Transaction.Prepare.Sound.{prepare_leaks}
use faber_runtime.Examples.Plans.{plan, work, join, boundary, transaction, TransportReceipt}

abbrev pub accepted : AcceptedPlan
accepted = record {
  operation_keys = insert (operation_ref join) 1 (insert (operation_ref work) 0 []);
  reservation = derive_reservation (work ∷ join ∷ []) (referenced (work ∷ join ∷ []));
}

pub check_test : check_plan plan (work ∷ join ∷ []) boundary ≡ ok accepted
unfolding bindings check_plan check_partitions check_topology check_identities declares_barrier
    declares_launch check_barriers check_launches all_partitions referenced check_admitted
    check_budget check_budgets partitions operation_ref bump bump_each bump_others charge_staging
    charge_outputs charge_events charge record_of collect_records derive_reservation lookup insert
    add_all
check_test = refl

check_plan_lem_example :
    ((found : AcceptedPlan) × (check_plan plan (work ∷ join ∷ []) boundary ≡ ok found))
    ↔ IsAcceptable plan (work ∷ join ∷ []) boundary
check_plan_lem_example = check_plan_lem plan (work ∷ join ∷ []) boundary

-- Prepared, executed, and committed.
abbrev first : ExecutionTransaction TransportReceipt
first = (prepare fake_backend transaction 1 fake_new).1

abbrev held : FakeExecutionBackend
held = (prepare fake_backend transaction 1 fake_new).2

-- The boundary waits for a barrier that this plan does not have.
abbrev lost : ExecutionTransaction TransportReceipt
lost = fresh (text "t") plan (work ∷ []) boundary

refused_test :
    (prepare fake_backend lost 9 fake_new).0 ≡ err (undeclared_boundary_barrier (text "join"))
unfolding prepare prepare_held bindings check_plan check_partitions check_topology check_identities
    declares_barrier check_barriers partitions operation_ref lookup insert add_all
refused_test = refl

refused : (prepare fake_backend lost 9 fake_new).0 ≢ ok tt
refused = rw refused_test (λ e. cc)

-- Partition `b` is taken already.
abbrev record_a : ReservationRecord
record_a = record {
  transfer_staging_bytes = 0;
  output_buffer_bytes = 64;
  event_bytes = 128;
  transaction_scratch_bytes = 4096;
}

abbrev record_b : ReservationRecord
record_b = record record_a { output_buffer_bytes = 0; event_bytes = 64 }

abbrev taken : FakeExecutionBackend
taken = record fake_new { reservations = (text "b", record_b) ∷ [] }

prepare_leaks_example :
    let (end, t', s') = prepare fake_backend transaction 1 taken in
    (end ≢ ok tt) × (t' ≡ transaction) × (lookup (text "a") s'.reservations ≡ some record_a)
unfolding referenced all_partitions partitions bump bump_each bump_others charge_staging
    charge_outputs charge_events charge record_of collect_records derive_reservation lookup insert
    add_all
prepare_leaks_example =
    prepare_leaks transaction 1 taken accepted (text "a") (text "b") record_a record_b [] refl
      check_test refl refl refl
