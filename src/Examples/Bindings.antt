-- ===== src/Examples/Bindings.antt =====
-- src/bound_plan.rs: a logical plan of two partitions bound to two devices.
use faber_runtime.Base.{◌≡◌, refl, true, none, some, [], ◌∷◌, ◌++◌, is_some, take, drop}
use faber_runtime.Base.Key.{Text, text}
use faber_runtime.Base.Result.{ok, err}
use faber_runtime.Base.Decimal.{decimal}
use faber_runtime.Base.Map.{lookup, insert, add_all}
use faber_runtime.Device.{cuda_backend, is_stale as generation_is_stale, backend as device_backend}
use faber_runtime.Discovery.{is_stale, any_stale, find_device}
use faber_runtime.DeviceSet.{validate, validate_all, validate_member}
use faber_runtime.Discovery.Sha256.{digest}
use faber_runtime.Gguf.{sha256}
use faber_runtime.Gguf.Agreement.{sha256-eq-digest}
use faber_runtime.Partition.{physical, host_staged}
use faber_runtime.BoundPlan.{distributed, BoundDistributedPlan}
use faber_runtime.BoundPlan.Admit.{
  AdmittedLogicalPlan, distinct_physical_devices, required_backend, admit, is_sha256_hex,
  any_unknown, constraint_unknown_partition, first_unknown,
}
use faber_runtime.BoundPlan.Bind.{
  BindRequest, bind, early_checks, check_epoch, check_shape, check_bindings, check_binding,
  check_constraints, check_constraint, check_distinct, check_backends, same_keys, kind_of, plan_of,
  constraint_violation,
}
use faber_runtime.BoundPlan.Bind.Total.{bind_total}
use faber_runtime.BoundPlan.Bind.Bound.{IsBound, bind-IsBound}
use faber_runtime.Examples.Policies.{first, second, snapshot, both}

abbrev hash : Text
hash = text "sha256:00000000000000000000000000000000000000000000000000000000000000ff"

abbrev logical : AdmittedLogicalPlan
logical = record {
  logical_distributed_plan_hash = hash;
  declared_partitions = (text "decode", tt) ∷ (text "prefill", tt) ∷ [];
  declared_constraints =
      distinct_physical_devices ∷ required_backend ((text "decode", tt) ∷ []) cuda_backend ∷ [];
}

logical_admitted :
    admit hash (text "prefill" ∷ text "decode" ∷ []) logical.declared_constraints ≡ ok logical
unfolding admit is_sha256_hex any_unknown constraint_unknown_partition first_unknown add_all insert
    lookup take drop
logical_admitted = refl

abbrev on : BindRequest
on = record {
  admitted = logical;
  bindings =
      (text "decode", record { device = second; virtual_partition = none })
      ∷ (text "prefill", record { device = first; virtual_partition = none })
      ∷ [];
  device_set = both;
  snapshot = snapshot;
  current_generation = record { epoch = 3 };
  fixture_identity_class = physical;
  transport_class = host_staged;
}

abbrev plan : BoundDistributedPlan
plan = plan_of on (distributed on.bindings)

on_bound : bind on ≡ some (ok plan)
unfolding bind early_checks check_epoch check_shape check_bindings check_binding check_constraints
    check_constraint check_distinct check_backends same_keys kind_of is_stale any_stale find_device
    validate validate_all validate_member generation_is_stale device_backend add_all insert lookup
on_bound = refl

-- Both partitions on one device are refused.
abbrev crowded : BindRequest
crowded = record on {
  bindings =
      (text "decode", record { device = first; virtual_partition = none })
      ∷ (text "prefill", record { device = first; virtual_partition = none })
      ∷ [];
  device_set = record { members = (first, tt) ∷ [] };
}

crowded_refused :
    bind crowded
    ≡ some (
        err (
          constraint_violation distinct_physical_devices (
            text "2 partition(s) must each bind a distinct physical device; "
            ++ text "1 distinct device(s) referenced")))
unfolding bind early_checks check_epoch check_shape check_bindings check_binding check_constraints
    check_constraint check_distinct check_backends same_keys kind_of is_stale any_stale find_device
    validate validate_all validate_member generation_is_stale device_backend add_all insert lookup
    decimal
crowded_refused = refl

bind_total_example : is_some (bind on) ≡ true
bind_total_example =
    bind_total hash (text "prefill" ∷ text "decode" ∷ []) logical.declared_constraints on
      logical_admitted

bind-IsBound_example : IsBound on plan
bind-IsBound_example = bind-IsBound on plan on_bound

sha256-eq-digest_example : sha256 (text "abc") ≡ digest (text "abc")
sha256-eq-digest_example = sha256-eq-digest (text "abc")
