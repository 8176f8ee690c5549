-- ===== src/Policy/Gates.antt =====
-- src/policy.rs: the four gates, with the fact that each violation names.
use faber_runtime.Base.{
  ℕ, Bool, false, not, ◌&&◌, ◌||◌, Option, none, some, List, [], ◌∷◌, ◌++◌, ltb, ◌==◌,
  if◌then◌else◌,
}
use faber_runtime.Base.Key.{Text, text, same, text_key}
use faber_runtime.Base.Result.{Result, ok, err}
use faber_runtime.Base.Map.{Map}
use faber_runtime.Base.Decimal.{decimal}
use faber_runtime.Device.{
  device_key, PhysicalDeviceId, DeviceHealthGeneration, display, is_stale as generation_is_stale,
}
use faber_runtime.Discovery.{
  DeviceOrdinal, ComputeCapability, DtypeSurface, DeviceDiscoveryEntry, DeviceDiscoverySnapshot,
  hex, is_stale, find_device,
}
use faber_runtime.DeviceSet.{
  DeviceSet, set_contains, unknown_device, stale_epoch, SelectionError, membership, below_minimum,
  above_maximum, resolve,
}
use faber_runtime.Policy.{
  GateViolation, health_epoch_membership, compatibility, RequiredCapabilities, DeviceAssignment,
  PolicyRequest,
}

-- The arrow of the source's messages, in UTF-8.
abbrev pub arrow : Text
arrow = text " " ++ 0xe2 ∷ 0x86 ∷ 0x92 ∷ text " "

at_generation : Text → DeviceHealthGeneration → Text
at_generation what g = what ++ text " recorded at generation " ++ decimal g.epoch

join_entries : List Text → Text
join_entries [] = []
join_entries (a ∷ []) = a
join_entries (a ∷ b ∷ rest) = a ++ text "; " ++ join_entries (b ∷ rest)

stale_entries : DeviceHealthGeneration → Map DeviceOrdinal DeviceDiscoveryEntry → List Text
unfolding at_generation
stale_entries current [] = []
stale_entries current ((key, e) ∷ ds) =
    let rest = stale_entries current ds in
    if generation_is_stale current e.health_generation
    then at_generation (display e.identity) e.health_generation ∷ rest
    else rest

pub stale_snapshot : DeviceDiscoverySnapshot → DeviceHealthGeneration → GateViolation
unfolding join_entries stale_entries
stale_snapshot discovery current = record {
  gate = health_epoch_membership;
  device = none;
  failing_fact =
      text "snapshot "
      ++ hex discovery.id
      ++ text " carries stale health generation(s): "
      ++ join_entries (stale_entries current discovery.devices);
}

count_violation : Text → Text → ℕ → ℕ → GateViolation
count_violation relation bound limit actual = record {
  gate = health_epoch_membership;
  device = none;
  failing_fact =
      text "selection resolved "
      ++ decimal actual
      ++ text " member(s), "
      ++ relation
      ++ text " declared "
      ++ bound
      ++ text " "
      ++ decimal limit;
}

pub selection_violation : SelectionError → GateViolation
unfolding at_generation count_violation
selection_violation (membership (unknown_device id)) = record {
  gate = health_epoch_membership;
  device = some id;
  failing_fact =
      text "device " ++ display id ++ text " is not recorded in the snapshot (unknown or replaced)";
}
selection_violation (membership (stale_epoch id recorded current)) = record {
  gate = health_epoch_membership;
  device = some id;
  failing_fact =
      at_generation (text "device " ++ display id) recorded
      ++ text ", current is "
      ++ decimal current.epoch;
}
selection_violation (below_minimum limit actual) =
    count_violation (text "below") (text "minimum") limit actual
selection_violation (above_maximum limit actual) =
    count_violation (text "above") (text "maximum") limit actual

abbrev pub map_violation : Result DeviceSet SelectionError → Result DeviceSet GateViolation
map_violation (ok s) = ok s
map_violation (err e) = err (selection_violation e)

unfoldable pub gate_health_epoch_selection : PolicyRequest → Result DeviceSet GateViolation
gate_health_epoch_selection r =
    let current = r.constraints.current_generation in
    if is_stale r.discovery current
    then err (stale_snapshot r.discovery current)
    else map_violation (resolve r.selection r.discovery current)

pub not_a_member : PhysicalDeviceId → GateViolation
not_a_member id = record {
  gate = health_epoch_membership;
  device = some id;
  failing_fact =
      text "device "
      ++ display id
      ++ text " is not a current-epoch member of the resolved selection";
}

unfoldable pub gate_membership : List DeviceAssignment → DeviceSet → List GateViolation
gate_membership [] s = []
gate_membership (a ∷ more) s =
    let rest = gate_membership more s in
    if set_contains s a.device then rest else not_a_member a.device ∷ rest

unfoldable pub dtype_supported : DtypeSurface → Text → Bool
dtype_supported s name =
    if same name (text "f32")
    then s.f32
    else if same name (text "f64")
    then s.f64
    else if same name (text "f16")
    then s.f16
    else if same name (text "bf16")
    then s.bf16
    else if same name (text "i8")
    then s.i8
    else if same name (text "i32")
    then s.i32
    else false

abbrev pub dtype_names : List Text
dtype_names = text "f32" ∷ text "f64" ∷ text "f16" ∷ text "bf16" ∷ text "i8" ∷ text "i32" ∷ []

pub incompatible : PhysicalDeviceId → Text → GateViolation
incompatible id fact = record { gate = compatibility; device = some id; failing_fact = fact }

abbrev version : ComputeCapability → Text
version c = decimal c.major ++ text "." ++ decimal c.minor

-- The derived order of the pair of major and minor version.
abbrev pub older : ComputeCapability → ComputeCapability → Bool
older a b = ltb a.major b.major || a.major == b.major && ltb a.minor b.minor

unfoldable pub check_compute :
    PhysicalDeviceId → ComputeCapability → Option ComputeCapability → List GateViolation
check_compute id got none = []
check_compute id got (some wanted) =
    if older got wanted
    then incompatible id
        (text "compute capability " ++ version got ++ text " is below required " ++ version wanted)
      ∷ []
    else []

unfoldable pub check_dtypes :
    PhysicalDeviceId → DtypeSurface → DtypeSurface → List Text → List GateViolation
unfolding dtype_supported
check_dtypes id got wanted [] = []
check_dtypes id got wanted (name ∷ names) =
    let rest = check_dtypes id got wanted names in
    if dtype_supported wanted name && not (dtype_supported got name)
    then incompatible id (text "device " ++ display id ++ text " lacks required dtype " ++ name)
      ∷ rest
    else rest

unfoldable pub check_sms : PhysicalDeviceId → ℕ → Option ℕ → List GateViolation
check_sms id got none = []
check_sms id got (some wanted) =
    if ltb got wanted
    then incompatible id
        (text "sm count " ++ decimal got ++ text " is below required " ++ decimal wanted)
      ∷ []
    else []

unfoldable pub check_entry :
    PhysicalDeviceId → RequiredCapabilities → Option DeviceDiscoveryEntry → List GateViolation
unfolding check_compute check_dtypes check_sms
check_entry id required none =
    incompatible id
      (text "no capability facts recorded for " ++ display id ++ text " in the snapshot")
    ∷ []
check_entry id required (some e) =
    check_compute id e.capabilities.compute_capability required.min_compute_capability
    ++ check_dtypes id e.capabilities.dtype_surface required.required_dtypes dtype_names
    ++ check_sms id e.capabilities.sm_count required.min_sm_count

unfoldable pub gate_compatibility :
    List DeviceAssignment → DeviceDiscoverySnapshot → List GateViolation
unfolding check_entry
gate_compatibility [] discovery = []
gate_compatibility (a ∷ more) discovery =
    check_entry a.device a.required_capabilities (find_device discovery.devices a.device)
    ++ gate_compatibility more discovery
