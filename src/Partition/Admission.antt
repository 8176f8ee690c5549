-- ===== src/Partition/Admission.antt =====
-- What admission in src/partition.rs decides, and what it leaves in the admitted partition.
use faber_runtime.Base.{ℕ, ◌+◌, ◌≤◌, ◌<◌, ◌≡◌, none, some, arith, ltb, if◌then◌else◌}
use faber_runtime.Base.Word.{u64_mod}
use faber_runtime.Base.Result.{ok}
use faber_runtime.Partition.{
  PartitionBudgetLedger, AdmissionRequest, SafePhysicalLimit, VirtualDevicePartition, active,
  total_bytes, admit,
}

-- The seven classes together, without a bound.
abbrev pub ledger_sum : PartitionBudgetLedger → ℕ
ledger_sum l =
    l.weight_bytes + l.kv_cache_bytes + l.activation_scratch_bytes + l.module_storage_bytes
    + l.allocator_overhead_bytes + l.transfer_staging_bytes + l.concurrent_state_bytes

-- The chain of checked additions gives the exact sum if it fits 64 bits, and nothing otherwise.
pub total_bytes_lem :
    (l : PartitionBudgetLedger)
    → total_bytes l ≡ (if ltb (ledger_sum l) u64_mod then some (ledger_sum l) else none)
unfolding total_bytes
total_bytes_lem l = ground arith

pub record IsAdmitted (r : AdmissionRequest) (limit : ℕ) (p : VirtualDevicePartition) : Type 0 where
  pub same_id : p.id ≡ r.partition_id
  pub same_device : p.bound_device ≡ r.bound_device
  pub same_ledger : p.ledger ≡ r.declared
  pub same_limit : p.safe_limit ≡ limit
  pub starts_active : p.state ≡ active

-- Under a limit of 64 bits, a request whose exact sum is within the limit is admitted as it
-- stands.
pub admit_fits :
    (r : AdmissionRequest) (limit : SafePhysicalLimit)
    → limit < u64_mod
    → ledger_sum r.declared ≤ limit
    → (p : VirtualDevicePartition) × (admit r limit ≡ ok p) × IsAdmitted r limit p
unfolding admit
admit_fits r limit small fits = (
  record {
    id = r.partition_id;
    bound_device = r.bound_device;
    ledger = r.declared;
    safe_limit = limit;
    state = active;
  },
  ground (arith, total_bytes_lem r.declared),
  ground arith,
)

-- Whatever is admitted has an exact sum within the limit, and is the request as it stands.
pub admit_sound :
    (r : AdmissionRequest) (limit : SafePhysicalLimit) {p : VirtualDevicePartition}
    → admit r limit ≡ ok p
    → (ledger_sum r.declared ≤ limit) × IsAdmitted r limit p
unfolding admit
admit_sound r limit e = ground (arith, total_bytes_lem r.declared)
