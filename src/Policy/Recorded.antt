-- ===== src/Policy/Recorded.antt =====
-- The gates of src/policy.rs and the selection of src/device_set.rs together: which devices a plan
-- that passes can use.
use faber_runtime.Base.{
  ◌≡◌, sym, ◌∙◌, true, false, List, [], ◌∷◌, arith, All, Bool-cases, both_true, inl, inr,
}
use faber_runtime.Base.Result.{Result, ok, err}
use faber_runtime.Discovery.{is_stale}
use faber_runtime.DeviceSet.{DeviceSet, SelectionError, set_contains, resolve}
use faber_runtime.DeviceSet.Resolve.{is_recorded, asks_for, resolve_ok}
use faber_runtime.Policy.{DeviceAssignment, CandidatePlan, PolicyRequest}
use faber_runtime.Policy.Gates.{gate_health_epoch_selection, map_violation}
use faber_runtime.Policy.Admissible.{all, admissible}

-- The device was asked for, and is recorded under the current generation.
abbrev pub IsUsable : PolicyRequest → DeviceAssignment → Type 0
IsUsable r a =
    (asks_for r.selection a.device ≡ true)
    × (is_recorded r.discovery.devices r.constraints.current_generation a.device ≡ true)

map_violation-ok :
    (x : Result DeviceSet SelectionError) {set : DeviceSet} → map_violation x ≡ ok set → x ≡ ok set
map_violation-ok (ok s) h = cc
map_violation-ok (err e) h = cc

gate_health_epoch_selection-ok :
    (r : PolicyRequest) {set : DeviceSet}
    → gate_health_epoch_selection r ≡ ok set
    → (is_stale r.discovery r.constraints.current_generation ≡ false)
      × (resolve r.selection r.discovery r.constraints.current_generation ≡ ok set)
unfolding gate_health_epoch_selection
gate_health_epoch_selection-ok r h =
    let current = r.constraints.current_generation in
    elim (Bool-cases (is_stale r.discovery current)) [
      | inl stale ↦ absurd (ground arith)
      | inr fresh ↦
          (fresh, map_violation-ok (resolve r.selection r.discovery current) (ground arith))
    ]

all-IsUsable :
    (r : PolicyRequest) (set : DeviceSet)
    → gate_health_epoch_selection r ≡ ok set
    → (l : List DeviceAssignment)
    → all (λ (a : DeviceAssignment). set_contains set a.device) l ≡ true
    → All (IsUsable r) l
unfolding all
all-IsUsable r set gate [] h = tt
all-IsUsable r set gate (a ∷ l) h =
    let (here, rest) = both_true _ _ h in
    let resolved = (gate_health_epoch_selection-ok r gate).1 in
    let held =
      (resolve_ok r.discovery r.constraints.current_generation r.selection resolved).0 a.device in
    (both_true _ _ (sym held ∙ here), all-IsUsable r set gate l rest)

-- A plan that is admissible over the resolved selection uses only devices that the selection asks
-- for and that are recorded under the current generation, and no device of the snapshot is stale.
pub admissible-IsUsable :
    (r : PolicyRequest) (set : DeviceSet) (p : CandidatePlan)
    → gate_health_epoch_selection r ≡ ok set
    → admissible r set p ≡ true
    → All (IsUsable r) p.assignments
      × (is_stale r.discovery r.constraints.current_generation ≡ false)
unfolding admissible
admissible-IsUsable r set p gate h =
    let members = (both_true _ _ (both_true _ _ (both_true _ _ (both_true _ _ h).0).0).0).0 in
    (all-IsUsable r set gate p.assignments members, (gate_health_epoch_selection-ok r gate).0)
