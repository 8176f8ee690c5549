-- ===== src/Device/Encoding.antt =====
-- Identity of src/device_identity.rs: what `change_against` decides, and that the canonical bytes
-- tell any two devices apart.
use mathlib.Core.List.{append_assoc}
use faber_runtime.Base.{
  ℕ, ◌≡◌, refl, sym, ap, ◌∙◌, ◌↔◌, Option, none, some, List, [], ◌∷◌, ◌++◌, arith,
}
use faber_runtime.Base.Key.{Text, same→eq, same_refl}
use faber_runtime.Bytes.{push_bool}
use faber_runtime.Bytes.Reading.{str_bytes, str_inv, push_str_lem, Short, cons_inv}
use faber_runtime.Device.{
  device_key, PhysicalDeviceId, DeviceIdentityFacts, cuda, metal, canonical_bytes, push_driver,
  change_against, same_device,
}

-- The same device exactly if every identity fact is the same.
pub change_against_lem : (a b : PhysicalDeviceId) → (change_against a b ≡ same_device) ↔ (a ≡ b)
unfolding change_against
change_against_lem a b = (λ h. ground (arith, same→eq a b), λ h. rw h (rw (same_refl b)))

-- The texts of a device are no longer than a 64-bit length can say.
abbrev FitsDriver : Option Text → Type 0
FitsDriver none = Unit {0}
FitsDriver (some uuid) = Short uuid

abbrev FitsFacts : DeviceIdentityFacts → Type 0
FitsFacts (cuda c) = Short c.pci_uuid × FitsDriver c.driver_uuid
FitsFacts (metal m) = Short m.registry_id

abbrev pub Fits : PhysicalDeviceId → Type 0
Fits id = FitsFacts id.facts

driver_bytes : Option Text → List ℕ
driver_bytes none = 0 ∷ []
driver_bytes (some uuid) = 1 ∷ str_bytes uuid

facts_bytes : DeviceIdentityFacts → List ℕ
facts_bytes (cuda c) = 0 ∷ str_bytes c.pci_uuid ++ driver_bytes c.driver_uuid
facts_bytes (metal m) = 1 ∷ str_bytes m.registry_id

push_driver_lem : (out : List ℕ) (d : Option Text) → push_driver out d ≡ out ++ driver_bytes d
unfolding push_driver push_bool driver_bytes
push_driver_lem out none = refl
push_driver_lem out (some uuid) =
    push_str_lem (out ++ 1 ∷ []) uuid ∙ append_assoc out (1 ∷ []) (str_bytes uuid)

canonical_facts : (f : DeviceIdentityFacts) → canonical_bytes (record { facts = f }) ≡ facts_bytes f
unfolding canonical_bytes facts_bytes
canonical_facts (cuda c) = rw (push_driver_lem, push_str_lem) refl
canonical_facts (metal m) = push_str_lem (1 ∷ []) m.registry_id

driver_inv :
    (a b : Option Text) (r s : List ℕ)
    → FitsDriver a
    → FitsDriver b
    → driver_bytes a ++ r ≡ driver_bytes b ++ s
    → (a ≡ b) × (r ≡ s)
unfolding driver_bytes
driver_inv none none r s p q e = (refl, cc)
driver_inv none (some b) r s p q e = cc
driver_inv (some a) none r s p q e = cc
driver_inv (some a) (some b) r s p q e =
    let (same_uuid, rest) = str_inv a b r s p q (cc) in (cc, rest)

facts_inv :
    (a b : DeviceIdentityFacts) (r s : List ℕ)
    → FitsFacts a
    → FitsFacts b
    → facts_bytes a ++ r ≡ facts_bytes b ++ s
    → (a ≡ b) × (r ≡ s)
unfolding facts_bytes
facts_inv (cuda a) (cuda b) r s p q e =
    let (tag, body) = cons_inv 0 0 _ _ e in
    let (same_uuid, more) =
      str_inv a.pci_uuid b.pci_uuid (driver_bytes a.driver_uuid ++ r)
        (driver_bytes b.driver_uuid ++ s) p.0 q.0
        (sym (append_assoc (str_bytes a.pci_uuid) (driver_bytes a.driver_uuid) r)
          ∙ body
          ∙ append_assoc (str_bytes b.pci_uuid) (driver_bytes b.driver_uuid) s) in
    let (same_driver, rest) = driver_inv a.driver_uuid b.driver_uuid r s p.1 q.1 more in
    (ground arith, rest)
facts_inv (cuda a) (metal b) r s p q e = cc
facts_inv (metal a) (cuda b) r s p q e = cc
facts_inv (metal a) (metal b) r s p q e =
    let (same_id, rest) = str_inv a.registry_id b.registry_id r s p q (cc) in (ground arith, rest)

-- The canonical bytes of a device, with anything after them, determine the device, if no text of
-- it is longer than 64 bits can say.
pub canonical_bytes_inv :
    (a b : PhysicalDeviceId) (r s : List ℕ)
    → Fits a
    → Fits b
    → canonical_bytes a ++ r ≡ canonical_bytes b ++ s
    → (a ≡ b) × (r ≡ s)
canonical_bytes_inv a b r s p q e =
    let (same_facts, rest) = facts_inv a.facts b.facts r s p q (
      sym (ap (λ x. x ++ r) (canonical_facts a.facts))
      ∙ e
      ∙ ap (λ x. x ++ s) (canonical_facts b.facts)) in
    (ap (λ (f : DeviceIdentityFacts). record { facts = f }) same_facts, rest)
