-- ===== src/Transaction/Prepare/Sound.antt =====
-- What `prepare` of src/execution_transaction/transaction.rs leaves behind, whatever its end.
use faber_runtime.Base.{ℕ, ◌≡◌, refl, ◌≢◌, ◌⊎◌, inl, inr, true, false, some, [], ◌∷◌, arith}
use faber_runtime.Base.Result
use faber_runtime.Base.Key.{same_refl, text_key}
use faber_runtime.Base.Map.{Map, lookup, contains_key, lookup-insert}
use faber_runtime.BoundPlan.{LogicalPartitionId, bindings}
use faber_runtime.Transaction.Reservation.{ReservationRecord, derive_declared_write_set}
use faber_runtime.Transaction.State.{new, prepared, Outcome-cases, ok, panic}
use faber_runtime.Transaction.Backend.{
  DeviceExecutionBackend, FakeExecutionBackend, fake_backend, fake_reserve,
}
use faber_runtime.Transaction.Plan.{ExecutionTransaction}
use faber_runtime.Transaction.Check.{Bindings, AcceptedPlan, check_plan}
use faber_runtime.Transaction.Check.Accepted.{Accepted, check_plan_ok}
use faber_runtime.Transaction.Check.Total.{check_plan_total}
use faber_runtime.Transaction.Prepare.{hold, prepare_held, prepare}

module _ {TR S : Type 0} (b : DeviceExecutionBackend S) where
  pub record Prepared (t : ExecutionTransaction TR) (s : S) (t' : ExecutionTransaction TR) (s' : S)
      : Type 0 where
    pub was_new : t.state ≡ new
    pub plan : AcceptedPlan
    pub accepted : Accepted t.bound_plan t.operations t.commit_boundary plan
    pub held : hold b plan.reservation s ≡ (Result.ok tt, s')
    pub is_prepared : t'.state ≡ prepared
    pub reserved : t'.reservation ≡ some plan.reservation
    pub keyed : t'.operation_keys ≡ plan.operation_keys
    pub declared : t'.declared_write_set ≡ derive_declared_write_set t.operations
    pub same_operations : t'.operations ≡ t.operations
    pub nothing_staged : t'.staged_write_set ≡ t.staged_write_set
    pub nothing_executed : t'.executed_operations ≡ t.executed_operations

  -- The end is read off the checks and the backend.
  prepare_checked :
      (t t' : ExecutionTransaction TR) (nanos : ℕ) (s s' : S)
      → prepare b t nanos s ≡ (ok tt, t', s')
      → (t.state ≡ new)
        × (plan : AcceptedPlan) × (check_plan t.bound_plan t.operations t.commit_boundary ≡ ok plan)
        × (prepare_held t nanos plan (hold b plan.reservation s) ≡ (ok tt, t', s'))
  unfolding prepare
  prepare_checked t t' nanos s s' e =
      let checked = check_plan t.bound_plan t.operations t.commit_boundary in
      elim (Outcome-cases checked) [
        | inl (plan, h) ↦ (ground arith, plan, h, ground arith)
        | inr (inl (x, h)) ↦ absurd (ground arith)
        | inr (inr h) ↦ absurd (ground arith)
      ]

  pub prepare_ok :
      (t t' : ExecutionTransaction TR) (nanos : ℕ) (s s' : S)
      → prepare b t nanos s ≡ (ok tt, t', s')
      → Prepared t s t' s'
  unfolding prepare_held
  prepare_ok t t' nanos s s' e =
      let (x, plan, checked, ended) = prepare_checked t t' nanos s s' e in
      record {
        was_new = x;
        plan = plan;
        accepted = check_plan_ok t.bound_plan t.operations t.commit_boundary plan checked;
        held = ground arith;
        is_prepared = ground arith;
        reserved = ground arith;
        keyed = ground arith;
        declared = ground arith;
        same_operations = ground arith;
        nothing_staged = ground arith;
        nothing_executed = ground arith;
      }

  -- On a plan with bindings, a prepare that does not succeed ends in an error and leaves the
  -- transaction as it was.
  pub prepare_refused :
      (t : ExecutionTransaction TR) (table : Bindings) (nanos : ℕ) (s : S)
      → bindings t.bound_plan ≡ some table
      → (prepare b t nanos s).0 ≢ ok tt
      → let (end, t', s') = prepare b t nanos s in (end ≢ panic) × (t' ≡ t)
  unfolding prepare prepare_held
  prepare_refused t table nanos s bound refused =
      ground (arith, check_plan_total t.bound_plan table t.operations t.commit_boundary bound)

-- With the fake backend: a reservation that is refused at its second partition stays held at the
-- first one, though the call fails and the transaction is as before.
pub prepare_leaks :
    {TR : Type 0} (t : ExecutionTransaction TR) (nanos : ℕ) (s : FakeExecutionBackend)
    (plan : AcceptedPlan) (p q : LogicalPartitionId) (r x : ReservationRecord)
    (m : Map LogicalPartitionId ReservationRecord)
    → t.state ≡ new
    → check_plan t.bound_plan t.operations t.commit_boundary ≡ ok plan
    → plan.reservation ≡ (p, r) ∷ (q, x) ∷ m
    → contains_key p s.reservations ≡ false
    → contains_key q s.reservations ≡ true
    → let (end, t', s') = prepare fake_backend t nanos s in
      (end ≢ ok tt) × (t' ≡ t) × (lookup p s'.reservations ≡ some r)
unfolding prepare prepare_held hold fake_reserve
prepare_leaks t nanos s plan p q r x m new_state checked derived free taken =
    ground
      (arith, lookup-insert p q r s.reservations, lookup-insert p p r s.reservations, same_refl p)

-- With the fake backend: holding a reservation stages and publishes nothing.
hold-staged :
    (m : Map LogicalPartitionId ReservationRecord) (s : FakeExecutionBackend)
    → let (reply, s') = hold fake_backend m s in
      (s'.staged_writes ≡ s.staged_writes)
      × (s'.published_writes ≡ s.published_writes)
      × (s'.published_once ≡ s.published_once)
unfolding hold fake_reserve
hold-staged [] s = (refl, refl, refl)
hold-staged ((p, r) ∷ m) s = ground (arith, hold-staged m (fake_reserve p r s).1)

pub prepare-staged :
    {TR : Type 0} (t : ExecutionTransaction TR) (nanos : ℕ) (s : FakeExecutionBackend)
    → let (end, t', s') = prepare fake_backend t nanos s in
      (s'.staged_writes ≡ s.staged_writes)
      × (s'.published_writes ≡ s.published_writes)
      × (s'.published_once ≡ s.published_once)
      × (t'.staged_write_set ≡ t.staged_write_set)
      × (t'.operations ≡ t.operations)
      × ((t' ≡ t) ⊎ (end ≡ ok tt))
unfolding prepare prepare_held
prepare-staged t nanos s =
    elim (Outcome-cases (check_plan t.bound_plan t.operations t.commit_boundary)) [
      | inl (plan, h) ↦ ground (arith, hold-staged plan.reservation s)
      | inr (inl (e, h)) ↦ ground arith
      | inr (inr h) ↦ ground arith
    ]
