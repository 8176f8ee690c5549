-- ===== src/Device/Order.antt =====
-- The order of devices in src/device_identity.rs: derived, by the identity facts alone.
use Prim.Native.Nat.Ordering.{lt}
use faber_runtime.Base.{◌≡◌, refl, Option, none, some}
use faber_runtime.Base.Key.{Text, cmp_text, eq_of_cmp_text}
use faber_runtime.Base.Order.{
  reversed, reversed-then_with, then_with_trans, cmp_text-reversed, cmp_text_trans,
}
use faber_runtime.Device.{
  PhysicalDeviceId, DeviceIdentityFacts, cuda, metal, cmp_driver, cmp_facts, cmp_device,
}

cmp_driver-reversed : (a b : Option Text) → cmp_driver b a ≡ reversed (cmp_driver a b)
cmp_driver-reversed none none = refl
cmp_driver-reversed none (some b) = refl
cmp_driver-reversed (some a) none = refl
cmp_driver-reversed (some a) (some b) = cmp_text-reversed a b

cmp_driver_trans :
    (a b c : Option Text) → cmp_driver a b ≡ lt → cmp_driver b c ≡ lt → cmp_driver a c ≡ lt
cmp_driver_trans none none c h k = cc
cmp_driver_trans none (some b) none h k = cc
cmp_driver_trans none (some b) (some c) h k = refl
cmp_driver_trans (some a) none c h k = cc
cmp_driver_trans (some a) (some b) none h k = cc
cmp_driver_trans (some a) (some b) (some c) h k = cmp_text_trans a b c h k

cmp_facts-reversed : (a b : DeviceIdentityFacts) → cmp_facts b a ≡ reversed (cmp_facts a b)
cmp_facts-reversed (cuda a) (cuda b) =
    reversed-then_with (cmp_text a.pci_uuid b.pci_uuid) (cmp_driver a.driver_uuid b.driver_uuid) _ _
      (cmp_text-reversed a.pci_uuid b.pci_uuid) (cmp_driver-reversed a.driver_uuid b.driver_uuid)
cmp_facts-reversed (cuda a) (metal b) = refl
cmp_facts-reversed (metal a) (cuda b) = refl
cmp_facts-reversed (metal a) (metal b) = cmp_text-reversed a.registry_id b.registry_id

cmp_facts_trans :
    (a b c : DeviceIdentityFacts) → cmp_facts a b ≡ lt → cmp_facts b c ≡ lt → cmp_facts a c ≡ lt
cmp_facts_trans (cuda a) (cuda b) (cuda c) h k =
    then_with_trans (cmp_text a.pci_uuid b.pci_uuid) (cmp_text b.pci_uuid c.pci_uuid)
      (cmp_text a.pci_uuid c.pci_uuid) (cmp_driver a.driver_uuid b.driver_uuid)
      (cmp_driver b.driver_uuid c.driver_uuid) (cmp_driver a.driver_uuid c.driver_uuid)
      (λ e. rw (eq_of_cmp_text a.pci_uuid b.pci_uuid e) refl)
      (λ e. rw (eq_of_cmp_text b.pci_uuid c.pci_uuid e) refl)
      (cmp_text_trans a.pci_uuid b.pci_uuid c.pci_uuid)
      (λ e f. cmp_driver_trans a.driver_uuid b.driver_uuid c.driver_uuid) h k
cmp_facts_trans (cuda a) (cuda b) (metal c) h k = refl
cmp_facts_trans (cuda a) (metal b) (cuda c) h k = cc
cmp_facts_trans (cuda a) (metal b) (metal c) h k = refl
cmp_facts_trans (metal a) (cuda b) c h k = cc
cmp_facts_trans (metal a) (metal b) (cuda c) h k = cc
cmp_facts_trans (metal a) (metal b) (metal c) h k =
    cmp_text_trans a.registry_id b.registry_id c.registry_id h k

pub cmp_device-reversed : (a b : PhysicalDeviceId) → cmp_device b a ≡ reversed (cmp_device a b)
cmp_device-reversed a b = cmp_facts-reversed a.facts b.facts

pub cmp_device_trans :
    (a b c : PhysicalDeviceId) → cmp_device a b ≡ lt → cmp_device b c ≡ lt → cmp_device a c ≡ lt
cmp_device_trans a b c = cmp_facts_trans a.facts b.facts c.facts
