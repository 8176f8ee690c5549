-- ===== src/DeviceSet/Resolve.antt =====
-- Selection of src/device_set.rs: which devices a resolved set holds.
use faber_runtime.Base.{
  ℕ, ◌≤◌, ◌≡◌, refl, ◌∙◌, sym, ap, Bool, true, false, not, ◌&&◌, ◌||◌, Option, none, some, List, [],
  ◌∷◌, arith, Option-cases, inl, inr,
}
use faber_runtime.Base.Key.{same, same→eq, same_refl}
use faber_runtime.Base.Result.{Result, ok, err}
use faber_runtime.Base.Map.{
  Map, Set, keys, contains, of_list, any_same, contains-of_list, any_same-keys,
  any_same-head_or_tail, any_same-if,
}
use faber_runtime.Device.{
  device_key, PhysicalDeviceId, DeviceHealthGeneration, is_stale as generation_is_stale,
  backend as device_backend,
}
use faber_runtime.Discovery.{
  DeviceOrdinal, DeviceDiscoveryEntry, DeviceDiscoverySnapshot, find_device,
}
use faber_runtime.DeviceSet.{
  DeviceSet, DeviceSetConstraints, DeviceSetSelection, explicit, constraints, MembershipError,
  from_members, set_contains, set_len, validate_member, validate_all, validate, backend_allowed,
  is_selectable, select, check_counts, as_selection, resolve, above,
}

-- Some entry records the device under the current generation.
unfoldable pub is_recorded :
    Map DeviceOrdinal DeviceDiscoveryEntry → DeviceHealthGeneration → PhysicalDeviceId → Bool
is_recorded [] current id = false
is_recorded ((key, e) ∷ ds) current id =
    same e.identity id && not (generation_is_stale current e.health_generation)
    || is_recorded ds current id

-- What a selection asks for, whatever is recorded.
abbrev pub asks_for : DeviceSetSelection → PhysicalDeviceId → Bool
asks_for (explicit ids) id = contains id ids
asks_for (constraints c) id =
    backend_allowed c.backend (device_backend id) && not (contains id c.exclude)

abbrev WithinMax : Option ℕ → ℕ → Type 0
WithinMax none n = Unit {0}
WithinMax (some most) n = n ≤ most

-- The declared bounds on the count.
abbrev pub Counts : DeviceSetSelection → ℕ → Type 0
Counts (explicit ids) n = Unit {0}
Counts (constraints c) n = (c.min_count ≤ n) × WithinMax c.max_count n

find_device-is_recorded :
    (ds : Map DeviceOrdinal DeviceDiscoveryEntry) (current : DeviceHealthGeneration)
    (id : PhysicalDeviceId) (e : DeviceDiscoveryEntry)
    → find_device ds id ≡ some e
    → generation_is_stale current e.health_generation ≡ false
    → is_recorded ds current id ≡ true
unfolding find_device is_recorded
find_device-is_recorded [] current id e h k = cc
find_device-is_recorded ((key, d) ∷ ds) current id e h k =
    ground (arith, same→eq d.identity id, same_refl id, find_device-is_recorded ds current id e)

validate_member-is_recorded :
    (s : DeviceDiscoverySnapshot) (current : DeviceHealthGeneration) (id : PhysicalDeviceId)
    → validate_member s current id ≡ ok tt
    → is_recorded s.devices current id ≡ true
unfolding validate_member
validate_member-is_recorded s current id h = elim (Option-cases (find_device s.devices id)) [
  | inl missing ↦ absurd (ground arith)
  | inr (e, found) ↦ find_device-is_recorded s.devices current id e found (ground arith)
]

pub validate_all-is_recorded :
    (s : DeviceDiscoverySnapshot) (current : DeviceHealthGeneration) (ids : List PhysicalDeviceId)
    (id : PhysicalDeviceId)
    → validate_all s current ids ≡ ok tt
    → any_same id ids ≡ true
    → is_recorded s.devices current id ≡ true
unfolding validate_all any_same
validate_all-is_recorded s current [] id h k = cc
validate_all-is_recorded s current (q ∷ qs) id h k =
    let first : validate_member s current q ≡ ok tt = ground arith in
    let others : validate_all s current qs ≡ ok tt = ground arith in
    elim (any_same-head_or_tail id q qs k) [
      | inl e ↦ rw (sym (same→eq q id e)) (validate_member-is_recorded s current q first)
      | inr later ↦ validate_all-is_recorded s current qs id others later
    ]

-- One entry more, as truth values: what holds of a device holds of the same device.
selected_or_later :
    (this fresh allowed allowed' excluded excluded' recorded : Bool)
    → (this ≡ true → allowed ≡ allowed')
    → (this ≡ true → excluded ≡ excluded')
    → ((fresh && allowed && not excluded) && this || (allowed' && not excluded') && recorded)
      ≡ ((allowed' && not excluded') && (this && fresh || recorded))
selected_or_later true fresh _ _ _ _ _ a e = ground (arith, a refl, e refl)
selected_or_later false fresh _ _ _ _ _ a e = ground arith

any_same-select :
    (c : DeviceSetConstraints) (current : DeviceHealthGeneration)
    (ds : Map DeviceOrdinal DeviceDiscoveryEntry) (id : PhysicalDeviceId)
    → any_same id (select c current ds) ≡ (asks_for (constraints c) id && is_recorded ds current id)
unfolding any_same select is_selectable is_recorded
any_same-select c current [] id = ground arith
any_same-select c current ((key, e) ∷ ds) id =
    any_same-if (is_selectable c current e) id e.identity (select c current ds)
    ∙ ap (λ b. is_selectable c current e && same e.identity id || b)
        (any_same-select c current ds id)
    ∙ selected_or_later (same e.identity id) (not (generation_is_stale current e.health_generation))
        _ _ _ _ _
        (λ h. ap (λ d. backend_allowed c.backend (device_backend d)) (same→eq e.identity id h))
        (λ h. ap (λ d. contains d c.exclude) (same→eq e.identity id h))

implied : (a b : Bool) → (a ≡ true → b ≡ true) → a ≡ (a && b)
implied true b h = sym (h refl)
implied false b h = refl

as_selection-ok :
    (t : DeviceSet) (r : Result (Unit {0}) MembershipError) {set : DeviceSet}
    → as_selection t r ≡ ok set
    → (set ≡ t) × (r ≡ ok tt)
as_selection-ok t (ok u) h = (cc, refl)
as_selection-ok t (err e) h = absurd (cc)

above-WithinMax : (most : Option ℕ) (n : ℕ) → above most n ≡ false → WithinMax most n
unfolding above
above-WithinMax none n h = tt
above-WithinMax (some most) n h = ground arith

check_counts-ok :
    (c : DeviceSetConstraints) (t : DeviceSet) {set : DeviceSet}
    → check_counts c t ≡ ok set
    → (set ≡ t) × Counts (constraints c) (set_len t)
unfolding check_counts
check_counts-ok c t h =
    (ground arith, (ground arith, above-WithinMax c.max_count (set_len t) (ground arith)))

module _ (s : DeviceDiscoverySnapshot) (current : DeviceHealthGeneration) where
  resolved_explicit :
      (ids : Set PhysicalDeviceId) {set : DeviceSet}
      → resolve (explicit ids) s current ≡ ok set
      → (id : PhysicalDeviceId)
      → set_contains set id ≡ (contains id ids && is_recorded s.devices current id)
  unfolding resolve set_contains from_members validate
  resolved_explicit ids h id =
      let members = of_list (keys ids) in
      let (same_set, checked) = as_selection-ok (from_members (keys ids)) _ h in
      let held = contains-of_list (keys ids) id ∙ any_same-keys id ids in
      rw same_set (
        held
        ∙ implied (contains id ids) (is_recorded s.devices current id) (λ asked.
          validate_all-is_recorded s current (keys members) id checked
            (any_same-keys id members ∙ held ∙ asked)))

  -- A set that a selection resolves to holds just the devices that the selection asks for and that
  -- are recorded under the current generation, and it keeps the declared bounds on the count.
  pub resolve_ok :
      (selection : DeviceSetSelection) {set : DeviceSet}
      → resolve selection s current ≡ ok set
      → ((id : PhysicalDeviceId)
          → set_contains set id ≡ (asks_for selection id && is_recorded s.devices current id))
        × Counts selection (set_len set)
  unfolding resolve set_contains from_members
  resolve_ok (explicit ids) h = (resolved_explicit ids h, tt)
  resolve_ok (constraints c) h =
      let (same_set, counts) = check_counts-ok c _ h in
      rw same_set (
        λ id.
            contains-of_list (select c current s.devices) id
            ∙ any_same-select c current s.devices id,
        counts,
      )
