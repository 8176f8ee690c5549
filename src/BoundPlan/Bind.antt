-- ===== src/BoundPlan/Bind.antt =====
-- src/bound_plan.rs: `bind`, the checks that it makes in order and the plan that it builds. An
-- `expect` that fails is `none`.
pub mod Total
pub mod Sound
pub mod Bound
use faber_runtime.Base.{
  ℕ, Bool, true, false, not, ◌&&◌, Option, none, some, List, [], ◌∷◌, ◌++◌, ltb, ◌==◌, length, map,
  if◌then◌else◌,
}
use faber_runtime.Base.Key.{Key, Text, text, same, text_key, nat_key}
use faber_runtime.Base.Result.{Result, ok, err, ◌>>=◌}
use faber_runtime.Base.Decimal.{decimal, hex_bytes}
use faber_runtime.Base.Map.{Map, Set, keys, values, lookup, contains, add, of_list}
use faber_runtime.Bytes.{push_u64, push_str, push}
use faber_runtime.Device.{
  device_key, DeviceBackend, metal_backend, cuda_backend, PhysicalDeviceId, DeviceHealthGeneration,
  display, backend as device_backend, canonical_bytes as device_bytes,
}
use faber_runtime.Discovery.{DeviceDiscoverySnapshot, DeviceDiscoverySnapshotId, is_stale}
use faber_runtime.DeviceSet.{DeviceSet, MembershipError, validate, same_backend, set_len}
use faber_runtime.Gguf.{sha256}
use faber_runtime.Partition.{
  VirtualDevicePartition, VirtualDevicePartitionId, FixtureIdentityClass, TransportClass, is_active,
  class_tag, transport_tag,
}
use faber_runtime.BoundPlan.{
  LogicalPartitionId, PartitionBinding, BoundPlanKind, implicit_local, distributed,
  BoundDistributedPlan,
}
use faber_runtime.BoundPlan.Admit.{
  DeclaredPlacementConstraint, distinct_physical_devices, colocated, required_backend,
  AdmittedLogicalPlan,
}

abbrev pub Bindings : Type 0
Bindings = Map LogicalPartitionId PartitionBinding

pub data BindError : Type 0 where
  stale_snapshot : DeviceDiscoverySnapshotId → DeviceHealthGeneration → BindError
  membership_error : MembershipError → BindError
  topology_mismatch : Text → BindError
  invalid_partition_binding : LogicalPartitionId → Text → BindError
  constraint_violation : DeclaredPlacementConstraint → Text → BindError

abbrev pub bound_devices : Bindings → List PhysicalDeviceId
bound_devices bs = map (λ (b : PartitionBinding). b.device) (values bs)

-- `Display` of a backend.
abbrev spelling : DeviceBackend → Text
spelling metal_backend = text "metal"
spelling cuda_backend = text "cuda"

unfoldable pub check_distinct : Bindings → Result (Unit {0}) Text
check_distinct bs =
    let distinct = of_list (bound_devices bs) in
    if length distinct == length bs
    then ok tt
    else err (
        decimal (length bs)
        ++ text " partition(s) must each bind a distinct physical device; "
        ++ decimal (length distinct)
        ++ text " distinct device(s) referenced")

-- The loop over the partitions that must share a device.
unfoldable pub gather :
    List LogicalPartitionId → Bindings → Set PhysicalDeviceId → Option (Set PhysicalDeviceId)
gather [] bs devices = some devices
gather (p ∷ ps) bs devices = elim (lookup p bs) [
  | none ↦ none
  | some b ↦ gather ps bs (add b.device devices)
]

unfoldable pub at_most_one : Set PhysicalDeviceId → Result (Unit {0}) Text
at_most_one devices =
    if ltb 1 (length devices)
    then err (
        text "colocated partitions must bind exactly one physical device; found "
        ++ decimal (length devices))
    else ok tt

unfoldable pub check_backends :
    List LogicalPartitionId → DeviceBackend → Bindings → Option (Result (Unit {0}) Text)
check_backends [] wanted bs = some (ok tt)
check_backends (p ∷ ps) wanted bs = elim (lookup p bs) [
  | none ↦ none
  | some b ↦ elim (same_backend (device_backend b.device) wanted) [
    | true ↦ check_backends ps wanted bs
    | false ↦ some (
        err (
          text "partition "
          ++ p
          ++ text " bound to a "
          ++ spelling (device_backend b.device)
          ++ text " device; declared backend is "
          ++ spelling wanted))
  ]
]

abbrev pub gathered : Option (Set PhysicalDeviceId) → Option (Result (Unit {0}) Text)
gathered none = none
gathered (some devices) = some (at_most_one devices)

unfoldable pub check_constraint :
    DeclaredPlacementConstraint → Bindings → Option (Result (Unit {0}) Text)
unfolding check_distinct gather at_most_one check_backends
check_constraint distinct_physical_devices bs = some (check_distinct bs)
check_constraint (colocated partitions) bs = gathered (gather (keys partitions) bs [])
check_constraint (required_backend partitions wanted) bs =
    check_backends (keys partitions) wanted bs

-- Step 4 of `bind`.
unfoldable pub check_constraints :
    List DeclaredPlacementConstraint → Bindings → Option (Result (Unit {0}) BindError)
unfolding check_constraint
check_constraints [] bs = some (ok tt)
check_constraints (c ∷ cs) bs = elim (check_constraint c bs) [
  | none ↦ none
  | some (err detail) ↦ some (err (constraint_violation c detail))
  | some (ok u) ↦ check_constraints cs bs
]

-- `Display` of the id of a virtual partition.
abbrev partition_text : VirtualDevicePartitionId → Text
partition_text id = text "vp:" ++ decimal id

-- Step 3 of `bind`, for one binding.
unfoldable pub check_binding :
    LogicalPartitionId
    → PhysicalDeviceId
    → Option VirtualDevicePartition
    → Result (Unit {0}) BindError
check_binding p device none = ok tt
check_binding p device (some v) =
    if not (same v.bound_device device)
    then err (
        invalid_partition_binding p (
          text "attached partition "
          ++ partition_text v.id
          ++ text " binds "
          ++ display v.bound_device
          ++ text ", but the binding names "
          ++ display device))
    else if not (is_active v)
    then err (
        invalid_partition_binding p
          (text "attached partition " ++ partition_text v.id ++ text " is not active"))
    else ok tt

unfoldable pub check_bindings : Bindings → Result (Unit {0}) BindError
unfolding check_binding
check_bindings [] = ok tt
check_bindings ((p, b) ∷ bs) = elim (check_binding p b.device b.virtual_partition) [
  | err e ↦ err e
  | ok u ↦ check_bindings bs
]

-- `PartialEq` of two sets.
module _ {K : Type 0} ⦃k : Key K⦄ where
  unfoldable pub same_keys : List K → List K → Bool
  same_keys [] [] = true
  same_keys (a ∷ more) (b ∷ bs) = same a b && same_keys more bs
  same_keys _ _ = false

push_attached : List ℕ → Option VirtualDevicePartition → List ℕ
push_attached out none = push out 0
push_attached out (some v) = push_u64 (push out 1) v.id

push_bindings : List ℕ → Bindings → List ℕ
unfolding push_attached
push_bindings out [] = out
push_bindings out ((p, b) ∷ bs) =
    push_bindings (push_attached (push_str out p ++ device_bytes b.device) b.virtual_partition) bs

push_kind : List ℕ → BoundPlanKind → List ℕ
unfolding push_bindings
push_kind out (implicit_local device v) = push_attached (push out 0 ++ device_bytes device) v
push_kind out (distributed bs) = push_bindings (push_u64 (push out 1) (length bs)) bs

push_members : List ℕ → List PhysicalDeviceId → List ℕ
push_members out [] = out
push_members out (d ∷ ds) = push_members (out ++ device_bytes d) ds

pub plan_bytes : BoundDistributedPlan → List ℕ
unfolding push_kind push_members
plan_bytes p =
    let kind = push_kind (push_str [] p.logical_distributed_plan_hash) p.kind in
    let members = push_members (push_u64 kind (length p.device_set)) (keys p.device_set) in
    push_u64 (push_u64 (members ++ p.snapshot_id) (class_tag p.fixture_identity_class))
      (transport_tag p.transport_class)

-- The plan with the hash of its own bytes.
unfoldable pub hashed : BoundDistributedPlan → BoundDistributedPlan
hashed p = record p {
  bound_distributed_plan_hash = text "sha256:" ++ hex_bytes (sha256 (plan_bytes p));
}

unfoldable pub first_binding : Bindings → Option BoundPlanKind
first_binding [] = none
first_binding ((p, b) ∷ more) = some (implicit_local b.device b.virtual_partition)

-- One declared partition binds the implicit local partition.
unfoldable pub kind_of : AdmittedLogicalPlan → Bindings → Option BoundPlanKind
unfolding first_binding
kind_of admitted bs =
    if length admitted.declared_partitions == 1 then first_binding bs else some (distributed bs)

pub record BindRequest : Type 0 where
  pub admitted : AdmittedLogicalPlan
  pub bindings : Bindings
  pub device_set : DeviceSet
  pub snapshot : DeviceDiscoverySnapshot
  pub current_generation : DeviceHealthGeneration
  pub fixture_identity_class : FixtureIdentityClass
  pub transport_class : TransportClass

-- `map_err(BindError::Membership)`.
abbrev pub as_bind : Result (Unit {0}) MembershipError → Result (Unit {0}) BindError
as_bind (ok u) = ok u
as_bind (err e) = err (membership_error e)

-- Step 1.
unfoldable pub check_epoch : BindRequest → Result (Unit {0}) BindError
check_epoch r =
    if is_stale r.snapshot r.current_generation
    then err (stale_snapshot r.snapshot.id r.current_generation)
    else as_bind (validate r.device_set r.snapshot r.current_generation)

-- Steps 2 and 2b.
unfoldable pub check_shape : BindRequest → Result (Unit {0}) BindError
unfolding same_keys
check_shape r =
    let devices = of_list (bound_devices r.bindings) in
    if not (same_keys (keys r.admitted.declared_partitions) (keys r.bindings))
    then err (
        topology_mismatch (
          text "binding set does not match the declared partition set: declared "
          ++ decimal (length r.admitted.declared_partitions)
          ++ text " partition(s), "
          ++ decimal (length r.bindings)
          ++ text " binding(s)"))
    else if not (same_keys (keys devices) (keys r.device_set.members))
    then err (
        topology_mismatch (
          text "the device set does not match the bound device set: set has "
          ++ decimal (set_len r.device_set)
          ++ text " member(s), bindings reference "
          ++ decimal (length devices)))
    else ok tt

unfoldable pub plan_of : BindRequest → BoundPlanKind → BoundDistributedPlan
unfolding hashed
plan_of r kind = hashed (record {
  logical_distributed_plan_hash = r.admitted.logical_distributed_plan_hash;
  kind = kind;
  device_set = r.device_set.members;
  snapshot_id = r.snapshot.id;
  fixture_identity_class = r.fixture_identity_class;
  transport_class = r.transport_class;
  bound_distributed_plan_hash = [];
})

abbrev pub built :
    BindRequest → Option BoundPlanKind → Option (Result BoundDistributedPlan BindError)
built r none = none
built r (some kind) = some (ok (plan_of r kind))

-- From step 4 on.
abbrev pub constrained :
    BindRequest
    → Option (Result (Unit {0}) BindError)
    → Option (Result BoundDistributedPlan BindError)
constrained r none = none
constrained r (some (err e)) = some (err e)
constrained r (some (ok u)) = built r (kind_of r.admitted r.bindings)

abbrev pub checked :
    BindRequest → Result (Unit {0}) BindError → Option (Result BoundDistributedPlan BindError)
checked r (err e) = some (err e)
checked r (ok u) = constrained r (check_constraints r.admitted.declared_constraints r.bindings)

-- Steps 1 to 3, each ended by `?` or an early return.
unfoldable pub early_checks : BindRequest → Result (Unit {0}) BindError
unfolding check_epoch check_shape check_bindings
early_checks r = do fresh ← check_epoch r; shaped ← check_shape r; check_bindings r.bindings

unfoldable pub bind : BindRequest → Option (Result BoundDistributedPlan BindError)
unfolding early_checks check_constraints kind_of plan_of
bind r = checked r (early_checks r)
