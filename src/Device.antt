-- ===== src/Device.antt =====
-- src/device_identity.rs: machine-local identities of physical devices, and the health epoch.
pub mod Encoding
pub mod Order
use Prim.Native.Nat.Ordering.{lt, eq, gt}
use faber_runtime.Base.{
  ℕ, ◌+◌, Bool, true, false, not, Option, none, some, List, [], ◌∷◌, ◌++◌, arith, Ordering, is_some,
  ◌≡◌, refl, ◌==◌, ltb, if◌then◌else◌,
}
use faber_runtime.Base.Word.{saturating_add}
use faber_runtime.Base.Key.{
  Key, Text, text, same, then_with, cmp_text, cmp_text_refl, eq_of_cmp_text,
}
use faber_runtime.Bytes.{push_str, push_bool, push}

pub data DeviceBackend : Type 0 where
  metal_backend cuda_backend : DeviceBackend

pub record CudaIdentityFacts : Type 0 where
  pub pci_uuid : Text
  pub driver_uuid : Option Text

pub record MetalIdentityFacts : Type 0 where
  pub registry_id : Text

pub data DeviceIdentityFacts : Type 0 where
  cuda : CudaIdentityFacts → DeviceIdentityFacts
  metal : MetalIdentityFacts → DeviceIdentityFacts

pub record PhysicalDeviceId : Type 0 where
  pub facts : DeviceIdentityFacts

-- The derived `Ord`: by constructor, then field by field; `None` comes first.
abbrev cmp_driver : Option Text → Option Text → Ordering
cmp_driver none none = eq
cmp_driver none (some b) = lt
cmp_driver (some a) none = gt
cmp_driver (some a) (some b) = cmp_text a b

abbrev cmp_facts : DeviceIdentityFacts → DeviceIdentityFacts → Ordering
cmp_facts (cuda a) (cuda b) =
    then_with (cmp_text a.pci_uuid b.pci_uuid) (cmp_driver a.driver_uuid b.driver_uuid)
cmp_facts (cuda a) (metal b) = lt
cmp_facts (metal a) (cuda b) = gt
cmp_facts (metal a) (metal b) = cmp_text a.registry_id b.registry_id

abbrev pub cmp_device : PhysicalDeviceId → PhysicalDeviceId → Ordering
cmp_device a b = cmp_facts a.facts b.facts

cmp_driver_refl : (a : Option Text) → cmp_driver a a ≡ eq
cmp_driver_refl none = refl
cmp_driver_refl (some a) = cmp_text_refl a

cmp_facts_refl : (a : DeviceIdentityFacts) → cmp_facts a a ≡ eq
cmp_facts_refl (cuda a) = ground (arith, cmp_text_refl a.pci_uuid, cmp_driver_refl a.driver_uuid)
cmp_facts_refl (metal a) = cmp_text_refl a.registry_id

eq_of_cmp_driver : (a b : Option Text) → cmp_driver a b ≡ eq → a ≡ b
eq_of_cmp_driver none none h = refl
eq_of_cmp_driver none (some b) h = cc
eq_of_cmp_driver (some a) none h = cc
eq_of_cmp_driver (some a) (some b) h = cc (eq_of_cmp_text a b h)

eq_of_cmp_facts : (a b : DeviceIdentityFacts) → cmp_facts a b ≡ eq → a ≡ b
eq_of_cmp_facts (cuda a) (cuda b) h =
    ground
      (arith, eq_of_cmp_text a.pci_uuid b.pci_uuid, eq_of_cmp_driver a.driver_uuid b.driver_uuid)
eq_of_cmp_facts (cuda a) (metal b) h = cc
eq_of_cmp_facts (metal a) (cuda b) h = cc
eq_of_cmp_facts (metal a) (metal b) h = ground (arith, eq_of_cmp_text a.registry_id b.registry_id h)

pub cmp_device_refl : (a : PhysicalDeviceId) → cmp_device a a ≡ eq
cmp_device_refl a = cmp_facts_refl a.facts

pub eq_of_cmp_device : (a b : PhysicalDeviceId) → cmp_device a b ≡ eq → a ≡ b
eq_of_cmp_device a b h = ground (arith, eq_of_cmp_facts a.facts b.facts h)

instance abbrev pub device_key : Key PhysicalDeviceId
device_key = record { cmp = cmp_device; cmp_refl = cmp_device_refl; eq_of_cmp = eq_of_cmp_device }

unfoldable pub backend : PhysicalDeviceId → DeviceBackend
backend id = elim id.facts [ cuda c ↦ cuda_backend | metal m ↦ metal_backend ]

pub push_driver : List ℕ → Option Text → List ℕ
push_driver out none = push_bool out false
push_driver out (some uuid) = push_str (push_bool out true) uuid

pub canonical_bytes : PhysicalDeviceId → List ℕ
unfolding push_driver
canonical_bytes id = elim id.facts [
  | cuda c ↦ push_driver (push_str (push [] 0) c.pci_uuid) c.driver_uuid
  | metal m ↦ push_str (push [] 1) m.registry_id
]

display_driver : Option Text → Text
display_driver none = []
display_driver (some uuid) = text " (driver " ++ uuid ++ text ")"

-- `Display`.
unfoldable pub display : PhysicalDeviceId → Text
unfolding display_driver
display id = elim id.facts [
  | cuda c ↦ text "cuda:" ++ c.pci_uuid ++ display_driver c.driver_uuid
  | metal m ↦ text "metal:" ++ m.registry_id
]

pub data IdentityChange : Type 0 where
  same_device replaced : IdentityChange

pub change_against : PhysicalDeviceId → PhysicalDeviceId → IdentityChange
change_against self previous = if same self previous then same_device else replaced

-- `DeviceHealthGeneration`.
pub record DeviceHealthGeneration : Type 0 where
  pub epoch : ℕ

pub initial : DeviceHealthGeneration
initial = record { epoch = 1 }

pub advance : DeviceHealthGeneration → DeviceHealthGeneration
advance g = record { epoch = saturating_add g.epoch 1 }

unfoldable pub is_stale : DeviceHealthGeneration → DeviceHealthGeneration → Bool
is_stale self candidate = not (candidate.epoch == self.epoch)

pub is_current : DeviceHealthGeneration → DeviceHealthGeneration → Bool
is_current self candidate = candidate.epoch == self.epoch
