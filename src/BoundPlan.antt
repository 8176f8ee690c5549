-- ===== src/BoundPlan.antt =====
-- src/bound_plan.rs: the plan that is bound to physical devices, as the coordinator reads it.
pub mod Admit
pub mod Bind
use faber_runtime.Base.{ℕ, Bool, true, false, Option, none, some, List, [], ◌∷◌}
use faber_runtime.Base.Key.{Text, text_key, nat_key}
use faber_runtime.Base.Map.{Map, Set, of_list, values}
use faber_runtime.Device.{PhysicalDeviceId, device_key}
use faber_runtime.Partition.{
  VirtualDevicePartition, VirtualDevicePartitionId, FixtureIdentityClass, TransportClass,
  PartitionReceipt, receipt_new,
}

-- A newtype over a string.
abbrev pub LogicalPartitionId : Type 0
LogicalPartitionId = Text

pub record PartitionBinding : Type 0 where
  pub device : PhysicalDeviceId
  pub virtual_partition : Option VirtualDevicePartition

pub data BoundPlanKind : Type 0 where
  implicit_local : PhysicalDeviceId → Option VirtualDevicePartition → BoundPlanKind
  distributed : Map LogicalPartitionId PartitionBinding → BoundPlanKind

pub record BoundDistributedPlan : Type 0 where
  pub logical_distributed_plan_hash : Text
  pub kind : BoundPlanKind
  pub device_set : Set PhysicalDeviceId
  pub snapshot_id : List ℕ
  pub fixture_identity_class : FixtureIdentityClass
  pub transport_class : TransportClass
  pub bound_distributed_plan_hash : Text

abbrev pub kind_bindings : BoundPlanKind → Option (Map LogicalPartitionId PartitionBinding)
kind_bindings (distributed bindings) = some bindings
kind_bindings (implicit_local d v) = none

unfoldable pub bindings : BoundDistributedPlan → Option (Map LogicalPartitionId PartitionBinding)
bindings p = kind_bindings p.kind

abbrev pub kind_degenerate : BoundPlanKind → Bool
kind_degenerate (implicit_local d v) = true
kind_degenerate (distributed bindings) = false

unfoldable pub is_degenerate : BoundDistributedPlan → Bool
is_degenerate p = kind_degenerate p.kind

-- The devices of the bindings, and the ids of the virtual partitions attached to them.
devices : List PartitionBinding → List PhysicalDeviceId
devices [] = []
devices (b ∷ bs) = b.device ∷ devices bs

virtual_ids : List PartitionBinding → List VirtualDevicePartitionId
virtual_ids [] = []
virtual_ids (b ∷ bs) =
    let rest = virtual_ids bs in elim b.virtual_partition [ none ↦ rest | some v ↦ v.id ∷ rest ]

kind_receipt : BoundPlanKind → FixtureIdentityClass → TransportClass → PartitionReceipt
kind_receipt (implicit_local d v) class transport =
    receipt_new (of_list (d ∷ [])) (of_list (elim v [ none ↦ [] | some p ↦ p.id ∷ [] ])) class
      transport
kind_receipt (distributed bs) class transport =
    receipt_new (of_list (devices (values bs))) (of_list (virtual_ids (values bs))) class transport

unfoldable pub receipt : BoundDistributedPlan → PartitionReceipt
unfolding kind_receipt devices virtual_ids
receipt p = kind_receipt p.kind p.fixture_identity_class p.transport_class
