-- ===== src/DeviceSet/Links.antt =====
-- Topologies of src/device_set.rs: what their links say of a transfer.
use faber_runtime.Base.{
  ◌≡◌, refl, ◌∙◌, ap, ◌↔◌, inl, inr, Bool, true, false, not, ◌&&◌, ◌||◌, Option, none, some, List,
  [], ◌∷◌, All, arith, if◌then◌else◌, is_some, Bool-cases,
}
use faber_runtime.Base.Key.{same, pair_key}
use faber_runtime.Base.Result.{Result, ok, err}
use faber_runtime.Base.Map.{lookup, insert, lookup-insert}
use faber_runtime.Device.{device_key, PhysicalDeviceId}
use faber_runtime.Discovery.{DeviceDiscoverySnapshot, find_device}
use faber_runtime.DeviceSet.{
  DeviceLink, DeviceLinkState, admitted, not_attempted, rejected, Links, DeviceTopologySnapshot,
  LinkGateError, is_placed, insert_links, new, link_gate, traversal_allowed, link, with_links,
}

abbrev is_admitted_state : DeviceLinkState → Bool
is_admitted_state (admitted class facts) = true
is_admitted_state not_attempted = false
is_admitted_state (rejected reason) = false

-- The link is there and admitted.
unfoldable pub is_admitted : Option DeviceLink → Bool
is_admitted none = false
is_admitted (some l) = is_admitted_state l.state

link_gate-ok :
    (from to : PhysicalDeviceId) (l : Option DeviceLink)
    → (link_gate from to l ≡ ok tt) ↔ (is_admitted l ≡ true)
unfolding link_gate is_admitted
link_gate-ok from to none = ground arith
link_gate-ok from to (some l) = ground arith

module _ (t : DeviceTopologySnapshot) (from to : PhysicalDeviceId) where
  abbrev pub admits : Bool
  admits =
      same from to
      || is_some (find_device t.discovery.devices from)
        && is_some (find_device t.discovery.devices to)
        && is_admitted (link t from to)

  -- A transfer is allowed exactly if it stays on its device, or both ends are recorded and the link
  -- from the one to the other is there and admitted.
  pub traversal_allowed_lem : (traversal_allowed t from to ≡ ok tt) ↔ (admits ≡ true)
  unfolding traversal_allowed link
  traversal_allowed_lem =
      gate (same from to) (is_some (find_device t.discovery.devices from))
        (is_some (find_device t.discovery.devices to)) _ _
        (link_gate-ok from to (lookup (from, to) t.links))
    where
      gate :
          (self known_from known_to : Bool) {r : Result (Unit {0}) LinkGateError} {b : Bool}
          (e f : LinkGateError)
          → (r ≡ ok tt) ↔ (b ≡ true)
          → ((if self
                then ok tt
                else if not known_from
                then err e
                else if not known_to
                then err f
                else r)
              ≡ ok tt)
            ↔ ((self || known_from && known_to && b) ≡ true)
      gate true p q e f h = (λ x. refl, λ x. refl)
      gate false false q e f h = (λ x. cc, λ x. cc)
      gate false true false e f h = (λ x. cc, λ x. cc)
      gate false true true e f h = h

abbrev pub or_else : Option DeviceLink → Option DeviceLink → Option DeviceLink
or_else none b = b
or_else (some a) b = some a

module _ (from to : PhysicalDeviceId) where
  -- The last link of a list with these ends.
  unfoldable pub last_link : List DeviceLink → Option DeviceLink
  last_link [] = none
  last_link (l ∷ ls) = or_else (last_link ls) (
      if same {K = PhysicalDeviceId × PhysicalDeviceId} (l.from, l.to) (from, to)
      then some l
      else none)

  or_else_step :
      (b : Bool) (l : DeviceLink) (later before : Option DeviceLink)
      → or_else later (if b then some l else before)
        ≡ or_else (or_else later (if b then some l else none)) before
  or_else_step true l none before = refl
  or_else_step false l none before = refl
  or_else_step b l (some a) before = refl

  pub lookup-insert_links :
      (d : DeviceDiscoverySnapshot) (ls : List DeviceLink) (m : Links) {r : Links}
      → insert_links d ls m ≡ some r
      → lookup (from, to) r ≡ or_else (last_link ls) (lookup (from, to) m)
  unfolding insert_links last_link
  lookup-insert_links d [] m h = cc
  lookup-insert_links d (l ∷ ls) m h = elim (Bool-cases (is_placed d l)) [
    | inl placed ↦
        lookup-insert_links d ls (insert (l.from, l.to) l m) (ground arith)
        ∙ ap (or_else (last_link ls)) (lookup-insert (l.from, l.to) (from, to) l m)
        ∙ or_else_step (same {K = PhysicalDeviceId × PhysicalDeviceId} (l.from, l.to) (from, to)) l
            (last_link ls) (lookup (from, to) m)
    | inr misplaced ↦ absurd (ground arith)
  ]

abbrev pub Placed : DeviceDiscoverySnapshot → DeviceLink → Type 0
Placed d l = is_placed d l ≡ true

insert_links-Placed :
    (d : DeviceDiscoverySnapshot) (ls : List DeviceLink) (m r : Links)
    → insert_links d ls m ≡ some r
    → All (Placed d) ls
unfolding insert_links
insert_links-Placed d [] m r h = tt
insert_links-Placed d (l ∷ ls) m r h = elim (Bool-cases (is_placed d l)) [
  | inl placed ↦ (placed, insert_links-Placed d ls (insert (l.from, l.to) l m) r (ground arith))
  | inr misplaced ↦ absurd (ground arith)
]

built :
    (d : DeviceDiscoverySnapshot) (o : Option Links) {t : DeviceTopologySnapshot}
    → with_links d o ≡ some t
    → (m : Links) × (o ≡ some m) × (t ≡ record { discovery = d; links = m })
built d none h = absurd (cc)
built d (some m) h = (m, refl, cc)

-- A topology that `new` builds keeps the snapshot, every link that was given has two different
-- recorded ends, and between any two devices the last link that was given is recorded.
pub new_lem :
    (d : DeviceDiscoverySnapshot) (ls : List DeviceLink) {t : DeviceTopologySnapshot}
    → new d ls ≡ some t
    → (t.discovery ≡ d)
      × All (Placed d) ls
      × ((from to : PhysicalDeviceId) → link t from to ≡ last_link from to ls)
unfolding new link lookup
new_lem d ls h =
    let (m, inserted, is_t) = built d (insert_links d ls []) h in
    rw is_t (
      refl,
      insert_links-Placed d ls [] m inserted,
      λ from to. lookup-insert_links from to d ls [] inserted ∙ no_more (last_link from to ls),
    )
  where
    no_more : (o : Option DeviceLink) → or_else o none ≡ o
    no_more none = refl
    no_more (some l) = refl
