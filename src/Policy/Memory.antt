-- ===== src/Policy/Memory.antt =====
-- src/policy.rs: the gates on memory and on the topology.
use faber_runtime.Base.{ℕ, Option, none, some, List, [], ◌∷◌, ◌++◌, ltb, leb, if◌then◌else◌}
use faber_runtime.Base.Key.{Text, text}
use faber_runtime.Base.Result.{Result, ok, err}
use faber_runtime.Base.Map.{Map, lookup}
use faber_runtime.Base.Decimal.{decimal}
use faber_runtime.Device.{device_key, PhysicalDeviceId, display}
use faber_runtime.DeviceSet.{
  DeviceTopologySnapshot, LinkGateError, unknown_endpoint, no_link_recorded, link_not_attempted,
  link_rejected, traversal_allowed,
}
use faber_runtime.Partition.{PartitionBudgetLedger, SafePhysicalLimit, total_bytes}
use faber_runtime.Policy.{
  GateViolation, required_memory, topology, DeclaredConstraints, DeviceAssignment, Transfer,
  CandidatePlan,
}
use faber_runtime.Policy.Gates.{arrow}

pub no_budget : PhysicalDeviceId → GateViolation
no_budget id = record {
  gate = required_memory;
  device = some id;
  failing_fact =
      text "no declared admitted budget for device " ++ display id ++ text " (fail-closed)";
}

unfoldable pub over_limit : PhysicalDeviceId → ℕ → SafePhysicalLimit → GateViolation
over_limit id total limit = record {
  gate = required_memory;
  device = some id;
  failing_fact =
      text "budget_exceeded: declared "
      ++ decimal total
      ++ text " bytes exceeds policy limit "
      ++ decimal limit
      ++ text " bytes (SafePhysicalLimit)";
}

pub overflowing : PhysicalDeviceId → SafePhysicalLimit → GateViolation
overflowing id limit = record {
  gate = required_memory;
  device = some id;
  failing_fact =
      text "budget_exceeded: declared ledger overflow; policy limit "
      ++ decimal limit
      ++ text " bytes";
}

unfoldable pub check_total : PhysicalDeviceId → SafePhysicalLimit → Option ℕ → List GateViolation
check_total id limit none = overflowing id limit ∷ []
check_total id limit (some total) = if leb total limit then [] else over_limit id total limit ∷ []

unfoldable pub check_budget :
    PhysicalDeviceId → PartitionBudgetLedger → Option SafePhysicalLimit → List GateViolation
unfolding check_total
check_budget id required none = no_budget id ∷ []
check_budget id required (some limit) = check_total id limit (total_bytes required)

unfoldable pub check_budgets :
    List DeviceAssignment → Map PhysicalDeviceId SafePhysicalLimit → List GateViolation
unfolding check_budget
check_budgets [] budgets = []
check_budgets (a ∷ more) budgets =
    check_budget a.device a.required (lookup a.device budgets) ++ check_budgets more budgets

pub over_total : ℕ → SafePhysicalLimit → GateViolation
over_total declared budget = record {
  gate = required_memory;
  device = none;
  failing_fact =
      text "declared total "
      ++ decimal declared
      ++ text " bytes exceeds declared total budget "
      ++ decimal budget
      ++ text " bytes";
}

unfoldable pub check_declared_total : ℕ → Option SafePhysicalLimit → List GateViolation
check_declared_total declared none = []
check_declared_total declared (some budget) =
    if ltb budget declared then over_total declared budget ∷ [] else []

unfoldable pub gate_memory : CandidatePlan → DeclaredConstraints → List GateViolation
unfolding check_budgets check_declared_total
gate_memory plan c =
    check_budgets plan.assignments c.per_device_budget
    ++ check_declared_total plan.declared_total_bytes c.total_budget

abbrev transfer_text : PhysicalDeviceId → PhysicalDeviceId → Text → Text
transfer_text from to what =
    text "transfer " ++ display from ++ arrow ++ display to ++ text ": " ++ what

unfoldable pub link_fact : Transfer → LinkGateError → Text
link_fact t (unknown_endpoint endpoint) =
    transfer_text t.from t.to
      (text "endpoint " ++ display endpoint ++ text " is not a device in the topology")
link_fact t (no_link_recorded from to) =
    transfer_text from to (text "no directed link recorded; unmeasured pairs are never assumed")
link_fact t (link_not_attempted from to) =
    transfer_text from to (text "directed link is NOT ATTEMPTED")
link_fact t (link_rejected from to reason) =
    transfer_text from to (text "directed link rejected (" ++ reason ++ text ")")

unfoldable pub link_violation : Transfer → Result (Unit {0}) LinkGateError → List GateViolation
link_violation t (ok u) = []
link_violation t (err e) =
    record { gate = topology; device = none; failing_fact = link_fact t e } ∷ []

unfoldable pub gate_topology : List Transfer → DeviceTopologySnapshot → List GateViolation
unfolding link_violation
gate_topology [] t = []
gate_topology (x ∷ more) t =
    link_violation x (traversal_allowed t x.from x.to) ++ gate_topology more t
