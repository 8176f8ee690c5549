-- ===== src/Partition/Lifecycle.antt =====
-- The lifecycle of a partition of src/partition.rs over any sequence of reports.
use faber_runtime.Base.{◌≡◌, refl, List, [], ◌∷◌, arith, Bool, true, false, if◌then◌else◌}
use faber_runtime.Base.Key.{Text}
use faber_runtime.Partition.{
  VirtualDevicePartition, PartitionFailure, PartitionState, active, failed, torn_down,
  allocation_failure, device_loss, record_failure, record_allocation_failure, report_device_loss,
  teardown,
}

pub data Report : Type 0 where
  allocation : Text → Report
  loss : Text → Report
  tears_down : Report

pub step : VirtualDevicePartition → Report → VirtualDevicePartition
unfolding record_allocation_failure report_device_loss teardown
step p (allocation detail) = record_allocation_failure p detail
step p (loss detail) = report_device_loss p detail
step p tears_down = teardown p

pub run : VirtualDevicePartition → List Report → VirtualDevicePartition
run p [] = p
run p (r ∷ rs) = run (step p r) rs

abbrev is_torn : List Report → Bool
is_torn [] = false
is_torn (tears_down ∷ rs) = true
is_torn (allocation d ∷ rs) = is_torn rs
is_torn (loss d ∷ rs) = is_torn rs

abbrev first_failure : List Report → PartitionState
first_failure [] = active
first_failure (allocation d ∷ rs) = failed (allocation_failure d)
first_failure (loss d ∷ rs) = failed (device_loss d)
first_failure (tears_down ∷ rs) = first_failure rs

-- The state that a list of reports should lead to: torn down if it holds a teardown, else the
-- first failure, else active.
abbrev pub outcome : List Report → PartitionState
outcome rs = if is_torn rs then torn_down else first_failure rs

run_torn : (p : VirtualDevicePartition) (rs : List Report) → p.state ≡ torn_down → run p rs ≡ p
unfolding run step record_allocation_failure report_device_loss teardown record_failure
run_torn p [] e = refl
run_torn p (allocation d ∷ rs) e = ground (arith, run_torn p rs e)
run_torn p (loss d ∷ rs) e = ground (arith, run_torn p rs e)
run_torn p (tears_down ∷ rs) e = ground (arith, run_torn (teardown p) rs refl)

run_failed :
    (p : VirtualDevicePartition) (f : PartitionFailure) (rs : List Report)
    → p.state ≡ failed f
    → run p rs ≡ record p { state = if is_torn rs then torn_down else failed f }
unfolding run step record_allocation_failure report_device_loss teardown record_failure
run_failed p f [] e = ground arith
run_failed p f (allocation d ∷ rs) e = ground (arith, run_failed p f rs e)
run_failed p f (loss d ∷ rs) e = ground (arith, run_failed p f rs e)
run_failed p f (tears_down ∷ rs) e = run_torn (teardown p) rs refl

-- Any reports on an active partition leave its identity, device, ledger and limit alone, and lead
-- to the first failure reported, or to the end once a teardown was among them.
pub run-outcome :
    (p : VirtualDevicePartition) (rs : List Report)
    → p.state ≡ active
    → run p rs ≡ record p { state = outcome rs }
unfolding run step record_allocation_failure report_device_loss teardown record_failure
run-outcome p [] e = ground arith
run-outcome p (allocation d ∷ rs) e = ground (
  arith,
  run_failed (record p { state = failed (allocation_failure d) }) (allocation_failure d) rs refl,
)
run-outcome p (loss d ∷ rs) e =
    ground (arith, run_failed (record p { state = failed (device_loss d) }) (device_loss d) rs refl)
run-outcome p (tears_down ∷ rs) e = run_torn (teardown p) rs refl
