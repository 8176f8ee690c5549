-- ===== src/Partition.antt =====
-- src/partition.rs: the budget ledger of a virtual device partition, its admission, its lifecycle
-- and its receipt. A method that mutates `self` returns the new partition.
pub mod Admission
pub mod Lifecycle
use faber_runtime.Base.{
  ℕ, ◌+◌, ◌≤◌, Bool, true, false, Option, none, some, List, [], ◌∷◌, ◌++◌, leb, if◌then◌else◌,
  length,
}
use faber_runtime.Base.Word.{checked_add}
use faber_runtime.Base.Key.{Key, Text, nat_key}
use faber_runtime.Base.Result.{Result, ok, err}
use faber_runtime.Base.Map.{Set, keys}
use faber_runtime.Bytes.{push_u64, push_bool}
use faber_runtime.Device.{PhysicalDeviceId, canonical_bytes as device_bytes}

-- A newtype over `u64`.
abbrev pub VirtualDevicePartitionId : Type 0
VirtualDevicePartitionId = ℕ

pub record PartitionBudgetLedger : Type 0 where
  pub weight_bytes : ℕ
  pub kv_cache_bytes : ℕ
  pub activation_scratch_bytes : ℕ
  pub module_storage_bytes : ℕ
  pub allocator_overhead_bytes : ℕ
  pub transfer_staging_bytes : ℕ
  pub concurrent_state_bytes : ℕ

infixl 5 ◌>>=◌
abbrev ◌>>=◌ : Option ℕ → (ℕ → Option ℕ) → Option ℕ
none >>= f = none
some n >>= f = f n

unfoldable pub total_bytes : PartitionBudgetLedger → Option ℕ
total_bytes l = do
  a ← checked_add 0 l.weight_bytes
  b ← checked_add a l.kv_cache_bytes
  c ← checked_add b l.activation_scratch_bytes
  d ← checked_add c l.module_storage_bytes
  e ← checked_add d l.allocator_overhead_bytes
  f ← checked_add e l.transfer_staging_bytes
  g ← checked_add f l.concurrent_state_bytes
  some g

-- `SafePhysicalLimit`.
abbrev pub SafePhysicalLimit : Type 0
SafePhysicalLimit = ℕ

pub record AdmissionRequest : Type 0 where
  pub partition_id : VirtualDevicePartitionId
  pub bound_device : PhysicalDeviceId
  pub declared : PartitionBudgetLedger

pub data AdmissionError : Type 0 where
  budget_exceeded : Option ℕ → ℕ → AdmissionError

pub data PartitionFailure : Type 0 where
  allocation_failure : Text → PartitionFailure
  device_loss : Text → PartitionFailure

pub data PartitionState : Type 0 where
  active : PartitionState
  failed : PartitionFailure → PartitionState
  torn_down : PartitionState

pub record VirtualDevicePartition : Type 0 where
  pub id : VirtualDevicePartitionId
  pub bound_device : PhysicalDeviceId
  pub ledger : PartitionBudgetLedger
  pub safe_limit : SafePhysicalLimit
  pub state : PartitionState

unfoldable pub admit :
    AdmissionRequest → SafePhysicalLimit → Result VirtualDevicePartition AdmissionError
admit r limit = elim (total_bytes r.declared) [
  | some total ↦
      if leb total limit
      then ok (record {
        id = r.partition_id;
        bound_device = r.bound_device;
        ledger = r.declared;
        safe_limit = limit;
        state = active;
      })
      else err (budget_exceeded (some total) limit)
  | none ↦ err (budget_exceeded none limit)
]

pub implicit_local :
    VirtualDevicePartitionId
    → PhysicalDeviceId
    → PartitionBudgetLedger
    → SafePhysicalLimit
    → Result VirtualDevicePartition AdmissionError
unfolding admit
implicit_local id device ledger limit =
    admit (record { partition_id = id; bound_device = device; declared = ledger }) limit

abbrev pub is_active_state : PartitionState → Bool
is_active_state active = true
is_active_state (failed f) = false
is_active_state torn_down = false

unfoldable pub is_active : VirtualDevicePartition → Bool
is_active p = is_active_state p.state

pub failure : VirtualDevicePartition → Option PartitionFailure
failure p = elim p.state [ failed f ↦ some f | active ↦ none | torn_down ↦ none ]

pub admitted_total_bytes : VirtualDevicePartition → Option ℕ
unfolding total_bytes
admitted_total_bytes p = total_bytes p.ledger

-- The first failure wins.
pub record_failure : VirtualDevicePartition → PartitionFailure → VirtualDevicePartition
record_failure p f = elim p.state [
  | active ↦ record p { state = failed f }
  | failed g ↦ p
  | torn_down ↦ p
]

pub record_allocation_failure : VirtualDevicePartition → Text → VirtualDevicePartition
unfolding record_failure
record_allocation_failure p detail = record_failure p (allocation_failure detail)

pub report_device_loss : VirtualDevicePartition → Text → VirtualDevicePartition
unfolding record_failure
report_device_loss p detail = record_failure p (device_loss detail)

pub teardown : VirtualDevicePartition → VirtualDevicePartition
teardown p = record p { state = torn_down }

pub data HardwareIsolationClaim : Type 0 where
  not_claimed : HardwareIsolationClaim

pub data FixtureIdentityClass : Type 0 where
  physical virtual synthetic : FixtureIdentityClass

abbrev pub class_tag : FixtureIdentityClass → ℕ
class_tag physical = 0
class_tag virtual = 1
class_tag synthetic = 2

pub data TransportClass : Type 0 where
  no_transport host_staged directed_peer_not_attempted : TransportClass

abbrev pub transport_tag : TransportClass → ℕ
transport_tag no_transport = 0
transport_tag host_staged = 1
transport_tag directed_peer_not_attempted = 2

pub record PartitionReceipt : Type 0 where
  pub physical_device_count : ℕ
  pub physical_device_ids : Set PhysicalDeviceId
  pub virtual_partition_count : ℕ
  pub virtual_partition_ids : Set VirtualDevicePartitionId
  pub fixture_identity_class : FixtureIdentityClass
  pub transport_class : TransportClass
  pub hardware_isolation_claimed : HardwareIsolationClaim

pub receipt_new :
    Set PhysicalDeviceId
    → Set VirtualDevicePartitionId
    → FixtureIdentityClass
    → TransportClass
    → PartitionReceipt
receipt_new devices partitions class transport = record {
  physical_device_count = length devices;
  physical_device_ids = devices;
  virtual_partition_count = length partitions;
  virtual_partition_ids = partitions;
  fixture_identity_class = class;
  transport_class = transport;
  hardware_isolation_claimed = not_claimed;
}

pub push_devices : List ℕ → List PhysicalDeviceId → List ℕ
push_devices out [] = out
push_devices out (d ∷ ds) = push_devices (out ++ device_bytes d) ds

pub push_ids : List ℕ → List VirtualDevicePartitionId → List ℕ
push_ids out [] = out
push_ids out (i ∷ is) = push_ids (push_u64 out i) is

pub receipt_bytes : PartitionReceipt → List ℕ
unfolding push_devices push_ids
receipt_bytes r =
    let counted = push_u64 [] r.physical_device_count in
    let devices =
      push_devices (push_u64 counted (length r.physical_device_ids)) (keys r.physical_device_ids) in
    let partitions = push_u64 devices r.virtual_partition_count in
    let ids =
      push_ids (push_u64 partitions (length r.virtual_partition_ids))
        (keys r.virtual_partition_ids) in
    let tags =
      push_u64 (push_u64 ids (class_tag r.fixture_identity_class))
        (transport_tag r.transport_class) in
    push_bool tags (elim r.hardware_isolation_claimed [ not_claimed ↦ false ])
