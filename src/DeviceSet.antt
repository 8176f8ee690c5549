-- ===== src/DeviceSet.antt =====
-- src/device_set.rs: membership of devices, the selections that ask for it, and the directed links
-- of a topology. An assertion that fails panics: `none`.
pub mod Resolve
pub mod Links
use faber_runtime.Base.{
  ℕ, Bool, true, false, not, ◌&&◌, Option, none, some, List, [], ◌∷◌, map, ltb, ◌==◌, length,
  is_some, if◌then◌else◌,
}
use faber_runtime.Base.Key.{Text, same, nat_key, pair_key}
use faber_runtime.Base.Result.{Result, ok, err, ◌>>=◌}
use faber_runtime.Base.Map.{Map, Set, keys, lookup, insert, contains, of_list}
use faber_runtime.Device.{
  device_key, DeviceBackend, metal_backend, cuda_backend, PhysicalDeviceId, DeviceHealthGeneration,
  is_stale as generation_is_stale, backend as device_backend,
}
use faber_runtime.Discovery.{
  DeviceOrdinal, DeviceDiscoveryEntry, DeviceDiscoverySnapshot, find_device,
}

pub record DeviceSet : Type 0 where
  pub members : Set PhysicalDeviceId

pub data MembershipError : Type 0 where
  unknown_device : PhysicalDeviceId → MembershipError
  stale_epoch : PhysicalDeviceId → DeviceHealthGeneration → DeviceHealthGeneration → MembershipError

pub record DeviceSetConstraints : Type 0 where
  pub backend : Option DeviceBackend
  pub exclude : Set PhysicalDeviceId
  pub min_count : ℕ
  pub max_count : Option ℕ

abbrev pub no_constraints : DeviceSetConstraints
no_constraints = record { backend = none; exclude = []; min_count = 0; max_count = none }

pub data DeviceSetSelection : Type 0 where
  explicit : Set PhysicalDeviceId → DeviceSetSelection
  constraints : DeviceSetConstraints → DeviceSetSelection

-- The declared bound, then the count that was resolved.
pub data SelectionError : Type 0 where
  membership : MembershipError → SelectionError
  below_minimum above_maximum : ℕ → ℕ → SelectionError

unfoldable pub from_members : List PhysicalDeviceId → DeviceSet
from_members ids = record { members = of_list ids }

unfoldable pub set_contains : DeviceSet → PhysicalDeviceId → Bool
set_contains s id = contains id s.members

unfoldable pub set_len : DeviceSet → ℕ
set_len s = length s.members

is_singleton : DeviceSet → Bool
is_singleton s = length s.members == 1

unfoldable pub validate_member :
    DeviceDiscoverySnapshot
    → DeviceHealthGeneration
    → PhysicalDeviceId
    → Result (Unit {0}) MembershipError
validate_member discovery current id = elim (find_device discovery.devices id) [
  | none ↦ err (unknown_device id)
  | some entry ↦
      if generation_is_stale current entry.health_generation
      then err (stale_epoch id entry.health_generation current)
      else ok tt
]

unfoldable pub validate_all :
    DeviceDiscoverySnapshot
    → DeviceHealthGeneration
    → List PhysicalDeviceId
    → Result (Unit {0}) MembershipError
validate_all discovery current [] = ok tt
validate_all discovery current (id ∷ ids) = do
  checked ← validate_member discovery current id
  validate_all discovery current ids

unfoldable pub validate :
    DeviceSet → DeviceDiscoverySnapshot → DeviceHealthGeneration → Result (Unit {0}) MembershipError
unfolding validate_member validate_all
validate s discovery current = validate_all discovery current (keys s.members)

-- `PartialEq` of two backends.
abbrev pub same_backend : DeviceBackend → DeviceBackend → Bool
same_backend metal_backend metal_backend = true
same_backend cuda_backend cuda_backend = true
same_backend _ _ = false

abbrev pub backend_allowed : Option DeviceBackend → DeviceBackend → Bool
backend_allowed none b = true
backend_allowed (some wanted) b = same_backend b wanted

-- The three `continue`s of the loop over the entries.
unfoldable pub is_selectable :
    DeviceSetConstraints → DeviceHealthGeneration → DeviceDiscoveryEntry → Bool
is_selectable c current e =
    not (generation_is_stale current e.health_generation)
    && backend_allowed c.backend (device_backend e.identity)
    && not (contains e.identity c.exclude)

unfoldable pub select :
    DeviceSetConstraints
    → DeviceHealthGeneration
    → Map DeviceOrdinal DeviceDiscoveryEntry
    → List PhysicalDeviceId
unfolding is_selectable
select c current [] = []
select c current ((key, e) ∷ ds) =
    let rest = select c current ds in if is_selectable c current e then e.identity ∷ rest else rest

above : Option ℕ → ℕ → Bool
above none n = false
above (some most) n = ltb most n

or_zero : Option ℕ → ℕ
or_zero none = 0
or_zero (some n) = n

unfoldable pub check_counts : DeviceSetConstraints → DeviceSet → Result DeviceSet SelectionError
unfolding above or_zero set_len
check_counts c s =
    if ltb (set_len s) c.min_count
    then err (below_minimum c.min_count (set_len s))
    else if above c.max_count (set_len s)
    then err (above_maximum (or_zero c.max_count) (set_len s))
    else ok s

-- `map_err(SelectionError::Membership)`.
abbrev pub as_selection :
    DeviceSet → Result (Unit {0}) MembershipError → Result DeviceSet SelectionError
as_selection s (ok u) = ok s
as_selection s (err e) = err (membership e)

unfoldable pub resolve :
    DeviceSetSelection
    → DeviceDiscoverySnapshot
    → DeviceHealthGeneration
    → Result DeviceSet SelectionError
unfolding validate select check_counts from_members
resolve (explicit ids) discovery current =
    let s = from_members (keys ids) in as_selection s (validate s discovery current)
resolve (constraints c) discovery current =
    check_counts c (from_members (select c current discovery.devices))

pub data LinkPathClass : Type 0 where
  peer host_staged : LinkPathClass

pub record LinkFacts : Type 0 where
  pub bandwidth_bytes_per_sec : ℕ
  pub latency_nanos : ℕ

pub data DeviceLinkState : Type 0 where
  admitted : LinkPathClass → LinkFacts → DeviceLinkState
  not_attempted : DeviceLinkState
  rejected : Text → DeviceLinkState

pub record DeviceLink : Type 0 where
  pub from : PhysicalDeviceId
  pub to : PhysicalDeviceId
  pub state : DeviceLinkState

-- The constructors `admitted`, `not_attempted` and `rejected` of a link: each asserts that the ends
-- differ.
pub link_with : PhysicalDeviceId → PhysicalDeviceId → DeviceLinkState → Option DeviceLink
link_with from to state =
    if same from to then none else some (record { from = from; to = to; state = state })

abbrev pub Links : Type 0
Links = Map (PhysicalDeviceId × PhysicalDeviceId) DeviceLink

pub record DeviceTopologySnapshot : Type 0 where
  pub discovery : DeviceDiscoverySnapshot
  pub links : Links

-- The assertions of `new` on one link.
unfoldable pub is_placed : DeviceDiscoverySnapshot → DeviceLink → Bool
is_placed discovery l =
    not (same l.from l.to)
    && is_some (find_device discovery.devices l.from)
    && is_some (find_device discovery.devices l.to)

unfoldable pub insert_links : DeviceDiscoverySnapshot → List DeviceLink → Links → Option Links
unfolding is_placed
insert_links discovery [] by_pair = some by_pair
insert_links discovery (l ∷ ls) by_pair =
    let rest = insert_links discovery ls (insert (l.from, l.to) l by_pair) in
    if is_placed discovery l then rest else none

abbrev with_links : DeviceDiscoverySnapshot → Option Links → Option DeviceTopologySnapshot
with_links discovery none = none
with_links discovery (some links) = some (record { discovery = discovery; links = links })

unfoldable pub new : DeviceDiscoverySnapshot → List DeviceLink → Option DeviceTopologySnapshot
unfolding insert_links
new discovery links = with_links discovery (insert_links discovery links [])

unfoldable pub link :
    DeviceTopologySnapshot → PhysicalDeviceId → PhysicalDeviceId → Option DeviceLink
link t from to = lookup (from, to) t.links

unfoldable pub member : DeviceTopologySnapshot → PhysicalDeviceId → Option DeviceDiscoveryEntry
member t id = find_device t.discovery.devices id

pub data LinkGateError : Type 0 where
  unknown_endpoint : PhysicalDeviceId → LinkGateError
  no_link_recorded link_not_attempted : PhysicalDeviceId → PhysicalDeviceId → LinkGateError
  link_rejected : PhysicalDeviceId → PhysicalDeviceId → Text → LinkGateError

unfoldable pub link_gate :
    PhysicalDeviceId → PhysicalDeviceId → Option DeviceLink → Result (Unit {0}) LinkGateError
link_gate from to none = err (no_link_recorded from to)
link_gate from to (some l) = elim l.state [
  | admitted class facts ↦ ok tt
  | not_attempted ↦ err (link_not_attempted from to)
  | rejected reason ↦ err (link_rejected from to reason)
]

unfoldable pub traversal_allowed :
    DeviceTopologySnapshot → PhysicalDeviceId → PhysicalDeviceId → Result (Unit {0}) LinkGateError
unfolding link_gate
traversal_allowed t from to =
    if same from to
    then ok tt
    else if not (is_some (find_device t.discovery.devices from))
    then err (unknown_endpoint from)
    else if not (is_some (find_device t.discovery.devices to))
    then err (unknown_endpoint to)
    else link_gate from to (lookup (from, to) t.links)
