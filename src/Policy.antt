-- ===== src/Policy.antt =====
-- src/policy.rs: candidate plans over a set of devices, the four gates that reject them and the
-- objectives that rank the rest. This file has the data.
pub mod Gates
pub mod Memory
pub mod Rank
pub mod Receipt
pub mod Evaluate
pub mod Admissible
pub mod Outcome
pub mod Recorded
use faber_runtime.Base.{ℕ, Bool, Option, none, List}
use faber_runtime.Base.Key.{Text}
use faber_runtime.Base.Map.{Map}
use faber_runtime.Device.{PhysicalDeviceId, DeviceHealthGeneration}
use faber_runtime.Discovery.{ComputeCapability, DtypeSurface, no_dtypes, DeviceDiscoverySnapshot}
use faber_runtime.DeviceSet.{DeviceSetSelection, DeviceTopologySnapshot}
use faber_runtime.Partition.{PartitionBudgetLedger, SafePhysicalLimit}

pub data GateClass : Type 0 where
  health_epoch_membership compatibility required_memory topology : GateClass

abbrev pub gate_tag : GateClass → ℕ
gate_tag health_epoch_membership = 0
gate_tag compatibility = 1
gate_tag required_memory = 2
gate_tag topology = 3

pub record GateViolation : Type 0 where
  pub gate : GateClass
  pub device : Option PhysicalDeviceId
  pub failing_fact : Text

pub record PlanRejection : Type 0 where
  pub plan : Text
  pub violations : List GateViolation

pub data Objective : Type 0 where
  latency throughput capacity_reserve cache_affinity expert_hotness transfer_budget power :
      Objective

abbrev pub objective_tag : Objective → ℕ
objective_tag latency = 0
objective_tag throughput = 1
objective_tag capacity_reserve = 2
objective_tag cache_affinity = 3
objective_tag expert_hotness = 4
objective_tag transfer_budget = 5
objective_tag power = 6

pub data ObjectiveDirection : Type 0 where
  minimize maximize : ObjectiveDirection

abbrev pub direction : Objective → ObjectiveDirection
direction latency = minimize
direction transfer_budget = minimize
direction power = minimize
direction throughput = maximize
direction capacity_reserve = maximize
direction cache_affinity = maximize
direction expert_hotness = maximize

pub record ObjectiveScore : Type 0 where
  pub objective : Objective
  pub value : ℕ

pub record RankedPlan : Type 0 where
  pub rank : ℕ
  pub plan : Text
  pub devices : List PhysicalDeviceId
  pub scores : List ObjectiveScore

pub record ExplainedReceipt : Type 0 where
  pub snapshot_id_hex : Text
  pub current_generation : DeviceHealthGeneration
  pub per_device_budget : List (PhysicalDeviceId × SafePhysicalLimit)
  pub total_budget : Option SafePhysicalLimit
  pub objectives : List Objective
  pub rejected : List PlanRejection
  pub ranked : List RankedPlan
  pub determinism_fingerprint : Text

pub record PolicyOutcome : Type 0 where
  pub rejected : List PlanRejection
  pub ranked : List RankedPlan
  pub receipt : ExplainedReceipt

pub record DeclaredConstraints : Type 0 where
  pub current_generation : DeviceHealthGeneration
  pub topology : DeviceTopologySnapshot
  pub per_device_budget : Map PhysicalDeviceId SafePhysicalLimit
  pub total_budget : Option SafePhysicalLimit

pub record RequiredCapabilities : Type 0 where
  pub min_compute_capability : Option ComputeCapability
  pub min_sm_count : Option ℕ
  pub required_dtypes : DtypeSurface

abbrev pub no_required : RequiredCapabilities
no_required = record {
  min_compute_capability = none;
  min_sm_count = none;
  required_dtypes = no_dtypes;
}

pub record ObjectiveFacts : Type 0 where
  pub latency_nanos : Option ℕ
  pub throughput_tokens_per_sec : Option ℕ
  pub cache_affinity_hit_rate_milli : Option ℕ
  pub expert_hotness_score : Option ℕ
  pub transfer_bytes : Option ℕ
  pub estimated_power_milliwatts : Option ℕ

pub record DeviceAssignment : Type 0 where
  pub device : PhysicalDeviceId
  pub required : PartitionBudgetLedger
  pub required_capabilities : RequiredCapabilities

abbrev pub assign : PhysicalDeviceId → PartitionBudgetLedger → DeviceAssignment
assign device required = record {
  device = device;
  required = required;
  required_capabilities = no_required;
}

pub record Transfer : Type 0 where
  pub from : PhysicalDeviceId
  pub to : PhysicalDeviceId

pub record CandidatePlan : Type 0 where
  pub name : Text
  pub assignments : List DeviceAssignment
  pub transfers : List Transfer
  pub declared_total_bytes : ℕ
  pub facts : ObjectiveFacts

pub record PolicyRequest : Type 0 where
  pub discovery : DeviceDiscoverySnapshot
  pub selection : DeviceSetSelection
  pub constraints : DeclaredConstraints
  pub objectives : List Objective
  pub plans : List CandidatePlan
