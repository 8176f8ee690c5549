-- ===== src/Discovery.antt =====
-- src/discovery.rs: timestamped facts about the devices of a machine. A snapshot is built from its
-- facts and carries the digest of its canonical bytes as its id. `assert_eq!` panics: `none`.
pub mod Sha256
pub mod Equality
use faber_runtime.Base.{
  ℕ, Bool, true, false, not, ◌&&◌, ◌||◌, Option, none, some, List, [], ◌∷◌, ◌++◌, ◌==◌, length,
  if◌then◌else◌,
}
use faber_runtime.Base.Key.{Text, same}
use faber_runtime.Base.Map.{Map}
use faber_runtime.Base.Decimal.{hex_bytes}
use faber_runtime.Bytes.{push_u64, push_u32, push_bool, push_str, push}
use faber_runtime.Device.{
  device_key, DeviceBackend, PhysicalDeviceId, DeviceHealthGeneration,
  is_stale as generation_is_stale, canonical_bytes as device_bytes, backend as device_backend,
}
use faber_runtime.Discovery.Sha256.{digest}

-- The newtype `DeviceDiscoverySnapshotId` over 32 bytes, and the newtype `DeviceOrdinal` over `u32`.
abbrev pub DeviceDiscoverySnapshotId : Type 0
DeviceDiscoverySnapshotId = List ℕ

abbrev pub DeviceOrdinal : Type 0
DeviceOrdinal = ℕ

pub from_canonical_bytes : List ℕ → DeviceDiscoverySnapshotId
from_canonical_bytes bytes = digest bytes

unfoldable pub hex : DeviceDiscoverySnapshotId → Text
hex id = hex_bytes id

pub record ComputeCapability : Type 0 where
  pub major : ℕ
  pub minor : ℕ

pub record DtypeSurface : Type 0 where
  pub f32 : Bool
  pub f64 : Bool
  pub f16 : Bool
  pub bf16 : Bool
  pub i8 : Bool
  pub i32 : Bool

abbrev pub no_dtypes : DtypeSurface
no_dtypes = record { f32 = false; f64 = false; f16 = false; bf16 = false; i8 = false; i32 = false }

pub record DeviceCapabilities : Type 0 where
  pub compute_capability : ComputeCapability
  pub sm_count : ℕ
  pub dtype_surface : DtypeSurface

pub record DeviceMemory : Type 0 where
  pub tool_report_total_mib : Option ℕ
  pub api_total_bytes : ℕ

pub data DeviceHealth : Type 0 where
  healthy : DeviceHealth
  degraded : Text → DeviceHealth

pub record ProbeProvenance : Type 0 where
  pub probe : Text
  pub tool_versions : Text

pub data P2pProbeState : Type 0 where
  p2p_not_attempted p2p_attempted : P2pProbeState

pub record DeviceDiscoveryEntry : Type 0 where
  pub ordinal : DeviceOrdinal
  pub identity : PhysicalDeviceId
  pub device_model : Option Text
  pub capabilities : DeviceCapabilities
  pub memory : DeviceMemory
  pub health : DeviceHealth
  pub health_generation : DeviceHealthGeneration
  pub probe_provenance : ProbeProvenance

pub entry_backend : DeviceDiscoveryEntry → DeviceBackend
entry_backend e = device_backend e.identity

pub record DeviceDiscoverySnapshot : Type 0 where
  pub id : DeviceDiscoverySnapshotId
  pub probe_utc_nanos : ℕ
  pub devices : Map DeviceOrdinal DeviceDiscoveryEntry
  pub p2p : P2pProbeState

pub push_model : List ℕ → Option Text → List ℕ
push_model out none = push_bool out false
push_model out (some model) = push_str (push_bool out true) model

pub push_capabilities : List ℕ → DeviceCapabilities → List ℕ
push_capabilities out c =
    let words =
      push_u32 (push_u32 (push_u32 out c.compute_capability.major) c.compute_capability.minor)
        c.sm_count in
    let ds = c.dtype_surface in
    push_bool
      (push_bool (push_bool (push_bool (push_bool (push_bool words ds.f32) ds.f64) ds.f16) ds.bf16)
        ds.i8)
      ds.i32

push_report : List ℕ → Option ℕ → List ℕ
push_report out none = push_bool out false
push_report out (some mib) = push_u64 (push_bool out true) mib

pub push_memory : List ℕ → DeviceMemory → List ℕ
unfolding push_report
push_memory out m = push_u64 (push_report out m.tool_report_total_mib) m.api_total_bytes

pub push_health : List ℕ → DeviceHealth → List ℕ
push_health out healthy = push out 0
push_health out (degraded reason) = push_str (push out 1) reason

pub push_entry : List ℕ → DeviceOrdinal × DeviceDiscoveryEntry → List ℕ
unfolding push_model push_capabilities push_memory push_health
push_entry out (ordinal, e) =
    let located = push_u32 out ordinal ++ device_bytes e.identity in
    let modelled = push_model located e.device_model in
    let capable = push_capabilities modelled e.capabilities in
    let sized = push_memory capable e.memory in
    let checked = push_u64 (push_health sized e.health) e.health_generation.epoch in
    push_str (push_str checked e.probe_provenance.probe) e.probe_provenance.tool_versions

pub push_entries : List ℕ → Map DeviceOrdinal DeviceDiscoveryEntry → List ℕ
push_entries out [] = out
push_entries out (d ∷ ds) = push_entries (push_entry out d) ds

pub canonical_bytes_without_id : DeviceDiscoverySnapshot → List ℕ
unfolding push_entries
canonical_bytes_without_id s =
    let head = push_u64 (push_u64 [] s.probe_utc_nanos) (length s.devices) in
    let out = push_entries head s.devices in
    elim s.p2p [ p2p_not_attempted ↦ push out 0 | p2p_attempted ↦ push out 1 ]

pub ordinals_match : Map DeviceOrdinal DeviceDiscoveryEntry → Bool
ordinals_match [] = true
ordinals_match ((key, e) ∷ ds) = key == e.ordinal && ordinals_match ds

-- `[0u8; 32]`, the id before it is derived.
abbrev zero_id : DeviceDiscoverySnapshotId
zero_id =
    0 ∷ 0 ∷ 0 ∷ 0 ∷ 0 ∷ 0 ∷ 0 ∷ 0 ∷ 0 ∷ 0 ∷ 0 ∷ 0 ∷ 0 ∷ 0 ∷ 0 ∷ 0 ∷ 0 ∷ 0 ∷ 0 ∷ 0 ∷ 0 ∷ 0 ∷ 0 ∷ 0
    ∷ 0 ∷ 0 ∷ 0 ∷ 0 ∷ 0 ∷ 0 ∷ 0 ∷ 0 ∷ []

unfoldable pub new :
    ℕ → Map DeviceOrdinal DeviceDiscoveryEntry → P2pProbeState → Option DeviceDiscoverySnapshot
unfolding ordinals_match from_canonical_bytes
new probe_utc_nanos devices p2p =
    let out : DeviceDiscoverySnapshot = record {
      id = zero_id;
      probe_utc_nanos = probe_utc_nanos;
      devices = devices;
      p2p = p2p;
    } in
    if ordinals_match devices
    then some (record out { id = from_canonical_bytes (canonical_bytes_without_id out) })
    else none

unfoldable pub any_stale : DeviceHealthGeneration → Map DeviceOrdinal DeviceDiscoveryEntry → Bool
any_stale current [] = false
any_stale current ((key, e) ∷ ds) =
    generation_is_stale current e.health_generation || any_stale current ds

unfoldable pub is_stale : DeviceDiscoverySnapshot → DeviceHealthGeneration → Bool
unfolding any_stale
is_stale s current = any_stale current s.devices

pub is_current_generation : DeviceDiscoverySnapshot → DeviceHealthGeneration → Bool
unfolding is_stale
is_current_generation s current = not (is_stale s current)

-- `devices().values().find(|entry| &entry.identity == id)`.
unfoldable pub find_device :
    Map DeviceOrdinal DeviceDiscoveryEntry → PhysicalDeviceId → Option DeviceDiscoveryEntry
find_device [] q = none
find_device ((key, e) ∷ ds) q = if same e.identity q then some e else find_device ds q
