-- ===== src/Discovery/Equality.antt =====
-- The derived `PartialEq` of the facts of src/discovery.rs, field by field.
use faber_runtime.Base.{ℕ, Bool, true, false, ◌&&◌, Option, none, some, [], ◌∷◌, ◌==◌}
use faber_runtime.Base.Key.{Text, same, text_key}
use faber_runtime.Base.Map.{Map}
use faber_runtime.Device.{device_key}
use faber_runtime.Discovery.{
  DeviceOrdinal, DtypeSurface, DeviceCapabilities, DeviceMemory, DeviceHealth, healthy, degraded,
  P2pProbeState, p2p_not_attempted, p2p_attempted, DeviceDiscoveryEntry, DeviceDiscoverySnapshot,
}

abbrev same_bool : Bool → Bool → Bool
same_bool true b = b
same_bool false true = false
same_bool false false = true

abbrev same_text? : Option Text → Option Text → Bool
same_text? none none = true
same_text? (some a) (some b) = same a b
same_text? _ _ = false

abbrev same_word? : Option ℕ → Option ℕ → Bool
same_word? none none = true
same_word? (some a) (some b) = a == b
same_word? _ _ = false

unfoldable pub same_surface : DtypeSurface → DtypeSurface → Bool
same_surface a b =
    same_bool a.f32 b.f32
    && same_bool a.f64 b.f64
    && same_bool a.f16 b.f16
    && same_bool a.bf16 b.bf16
    && same_bool a.i8 b.i8
    && same_bool a.i32 b.i32

unfoldable pub same_capabilities : DeviceCapabilities → DeviceCapabilities → Bool
unfolding same_surface
same_capabilities a b =
    a.compute_capability.major == b.compute_capability.major
    && a.compute_capability.minor == b.compute_capability.minor
    && a.sm_count == b.sm_count
    && same_surface a.dtype_surface b.dtype_surface

abbrev same_memory : DeviceMemory → DeviceMemory → Bool
same_memory a b =
    same_word? a.tool_report_total_mib b.tool_report_total_mib
    && a.api_total_bytes == b.api_total_bytes

abbrev same_health : DeviceHealth → DeviceHealth → Bool
same_health healthy healthy = true
same_health (degraded a) (degraded b) = same a b
same_health _ _ = false

unfoldable pub same_entry : DeviceDiscoveryEntry → DeviceDiscoveryEntry → Bool
unfolding same_capabilities
same_entry a b =
    a.ordinal == b.ordinal
    && same a.identity b.identity
    && same_text? a.device_model b.device_model
    && same_capabilities a.capabilities b.capabilities
    && same_memory a.memory b.memory
    && same_health a.health b.health
    && a.health_generation.epoch == b.health_generation.epoch
    && same a.probe_provenance.probe b.probe_provenance.probe
    && same a.probe_provenance.tool_versions b.probe_provenance.tool_versions

unfoldable pub same_devices :
    Map DeviceOrdinal DeviceDiscoveryEntry → Map DeviceOrdinal DeviceDiscoveryEntry → Bool
unfolding same_entry
same_devices [] [] = true
same_devices ((k, a) ∷ more) ((l, b) ∷ bs) = k == l && same_entry a b && same_devices more bs
same_devices _ _ = false

abbrev same_p2p : P2pProbeState → P2pProbeState → Bool
same_p2p p2p_not_attempted p2p_not_attempted = true
same_p2p p2p_attempted p2p_attempted = true
same_p2p _ _ = false

unfoldable pub same_snapshot : DeviceDiscoverySnapshot → DeviceDiscoverySnapshot → Bool
unfolding same_devices
same_snapshot a b =
    same a.id b.id
    && a.probe_utc_nanos == b.probe_utc_nanos
    && same_devices a.devices b.devices
    && same_p2p a.p2p b.p2p
