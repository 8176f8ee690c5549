-- ===== src/BoundPlan/Admit.antt =====
-- src/bound_plan.rs: admission of logical plans, with the placement constraints they declare.
use faber_runtime.Base.{
  ℕ, Bool, true, false, not, ◌&&◌, Option, none, some, List, [], ◌∷◌, leb, ◌==◌, length, drop, take,
  if◌then◌else◌,
}
use faber_runtime.Base.Key.{Text, text, same, text_key}
use faber_runtime.Base.Result.{Result, ok, err}
use faber_runtime.Base.Map.{Set, keys, contains, of_list}
use faber_runtime.Device.{DeviceBackend}
use faber_runtime.BoundPlan.{LogicalPartitionId}

pub data DeclaredPlacementConstraint : Type 0 where
  distinct_physical_devices : DeclaredPlacementConstraint
  colocated : Set LogicalPartitionId → DeclaredPlacementConstraint
  required_backend : Set LogicalPartitionId → DeviceBackend → DeclaredPlacementConstraint

pub data AdmitError : Type 0 where
  unadmitted_logical_hash : Text → AdmitError
  no_declared_partitions : AdmitError
  constraint_references_unknown_partition : LogicalPartitionId → AdmitError

pub record AdmittedLogicalPlan : Type 0 where
  pub logical_distributed_plan_hash : Text
  pub declared_partitions : Set LogicalPartitionId
  pub declared_constraints : List DeclaredPlacementConstraint

is_lower_hex : ℕ → Bool
is_lower_hex c = if leb 48 c then (if leb c 57 then true else leb 97 c && leb c 102) else false

all_lower_hex : List ℕ → Bool
unfolding is_lower_hex
all_lower_hex [] = true
all_lower_hex (c ∷ cs) = is_lower_hex c && all_lower_hex cs

-- The prefix `sha256:` has 7 bytes. A byte of a longer character is no hexadecimal digit.
unfoldable pub is_sha256_hex : Text → Bool
unfolding all_lower_hex
is_sha256_hex hash =
    let digest = drop 7 hash in
    same (take 7 hash) (text "sha256:") && length digest == 64 && all_lower_hex digest

unfoldable pub first_unknown :
    List LogicalPartitionId → Set LogicalPartitionId → Option LogicalPartitionId
first_unknown [] declared = none
first_unknown (p ∷ ps) declared =
    let rest = first_unknown ps declared in if contains p declared then rest else some p

unfoldable pub constraint_unknown_partition :
    DeclaredPlacementConstraint → Set LogicalPartitionId → Option LogicalPartitionId
unfolding first_unknown
constraint_unknown_partition distinct_physical_devices declared = none
constraint_unknown_partition (colocated partitions) declared =
    first_unknown (keys partitions) declared
constraint_unknown_partition (required_backend partitions backend) declared =
    first_unknown (keys partitions) declared

unfoldable pub any_unknown :
    List DeclaredPlacementConstraint → Set LogicalPartitionId → Option LogicalPartitionId
unfolding constraint_unknown_partition
any_unknown [] declared = none
any_unknown (c ∷ cs) declared = elim (constraint_unknown_partition c declared) [
  | some p ↦ some p
  | none ↦ any_unknown cs declared
]

abbrev is_empty : Set LogicalPartitionId → Bool
is_empty [] = true
is_empty (p ∷ ps) = false

abbrev pub known_or_error :
    AdmittedLogicalPlan → Option LogicalPartitionId → Result AdmittedLogicalPlan AdmitError
known_or_error plan none = ok plan
known_or_error plan (some p) = err (constraint_references_unknown_partition p)

unfoldable pub admit :
    Text
    → List LogicalPartitionId
    → List DeclaredPlacementConstraint
    → Result AdmittedLogicalPlan AdmitError
unfolding is_sha256_hex any_unknown
admit hash declared constraints =
    let partitions = of_list declared in
    if not (is_sha256_hex hash)
    then err (unadmitted_logical_hash hash)
    else if is_empty partitions
    then err no_declared_partitions
    else known_or_error
        (record {
          logical_distributed_plan_hash = hash;
          declared_partitions = partitions;
          declared_constraints = constraints;
        })
        (any_unknown constraints partitions)
