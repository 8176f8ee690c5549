-- ===== src/Policy/Admissible.antt =====
-- The gates of src/policy.rs: together they let through exactly the admissible plans.
use mathlib.Core.Path.{ap₂}
use faber_runtime.Base.{
  ℕ, ◌≡◌, refl, ◌∙◌, sym, Bool, true, false, not, ◌&&◌, ◌||◌, Option, none, some, List, [], ◌∷◌,
  ◌++◌, arith, ltb, leb, if◌then◌else◌,
}
use faber_runtime.Base.Key.{Text, text}
use faber_runtime.Base.Result.{Result, ok, err}
use faber_runtime.Base.Word.{u64_mod}
use faber_runtime.Base.Map.{Map, lookup}
use faber_runtime.Device.{device_key, PhysicalDeviceId}
use faber_runtime.Discovery.{
  ComputeCapability, DtypeSurface, DeviceDiscoveryEntry, DeviceDiscoverySnapshot, find_device,
}
use faber_runtime.DeviceSet.{
  DeviceSet, set_contains, DeviceTopologySnapshot, LinkGateError, traversal_allowed,
}
use faber_runtime.DeviceSet.Links.{admits, traversal_allowed_lem}
use faber_runtime.Partition.{PartitionBudgetLedger, SafePhysicalLimit}
use faber_runtime.Partition.Admission.{ledger_sum, total_bytes_lem}
use faber_runtime.Policy.{
  GateViolation, RequiredCapabilities, DeviceAssignment, Transfer, CandidatePlan, PolicyRequest,
}
use faber_runtime.Policy.Gates.{
  gate_membership, gate_compatibility, check_entry, check_compute, check_dtypes, check_sms,
  dtype_supported, dtype_names, older,
}
use faber_runtime.Policy.Memory.{
  gate_memory, check_budgets, check_budget, check_total, check_declared_total, gate_topology,
  link_violation,
}
use faber_runtime.Policy.Evaluate.{violations_of, is_clean}

unfoldable pub all {ℓ} : {A : Type ℓ} → (A → Bool) → List A → Bool
all p [] = true
all p (x ∷ xs) = p x && all p xs

-- What is required is provided.
abbrev pub implies : Bool → Bool → Bool
implies a b = not a || b

abbrev pub new_enough : ComputeCapability → Option ComputeCapability → Bool
new_enough got none = true
new_enough got (some wanted) = not (older got wanted)

abbrev pub covers : DtypeSurface → DtypeSurface → Bool
covers got wanted =
    implies wanted.f32 got.f32
    && implies wanted.f64 got.f64
    && implies wanted.f16 got.f16
    && implies wanted.bf16 got.bf16
    && implies wanted.i8 got.i8
    && implies wanted.i32 got.i32

abbrev pub enough : ℕ → Option ℕ → Bool
enough got none = true
enough got (some wanted) = leb wanted got

-- A recorded device has the capabilities that are required of it.
abbrev pub provides : Option DeviceDiscoveryEntry → RequiredCapabilities → Bool
provides none required = false
provides (some e) required =
    new_enough e.capabilities.compute_capability required.min_compute_capability
    && covers e.capabilities.dtype_surface required.required_dtypes
    && enough e.capabilities.sm_count required.min_sm_count

-- A ledger fits a declared budget: its exact sum is a word, and within the limit.
abbrev pub fits_budget : PartitionBudgetLedger → Option SafePhysicalLimit → Bool
fits_budget l none = false
fits_budget l (some limit) = ltb (ledger_sum l) u64_mod && leb (ledger_sum l) limit

abbrev pub within_total : ℕ → Option SafePhysicalLimit → Bool
within_total declared none = true
within_total declared (some budget) = leb declared budget

-- A plan is admissible: every assignment is on a device of the set that provides what is required
-- and has the budget for it, the declared total is within the total budget, and every transfer is
-- admitted by the topology.
unfoldable pub admissible : PolicyRequest → DeviceSet → CandidatePlan → Bool
admissible r set p =
    all (λ (a : DeviceAssignment). set_contains set a.device) p.assignments
    && all
        (λ (a : DeviceAssignment).
          provides (find_device r.discovery.devices a.device) a.required_capabilities)
        p.assignments
    && all
        (λ (a : DeviceAssignment).
          fits_budget a.required (lookup a.device r.constraints.per_device_budget))
        p.assignments
    && within_total p.declared_total_bytes r.constraints.total_budget
    && all (λ (t : Transfer). admits r.constraints.topology t.from t.to) p.transfers

is_clean-append : (vs ws : List GateViolation) → is_clean (vs ++ ws) ≡ (is_clean vs && is_clean ws)
is_clean-append [] ws = refl
is_clean-append (v ∷ vs) ws = refl

membership_lem :
    (s : DeviceSet) (l : List DeviceAssignment)
    → is_clean (gate_membership l s) ≡ all (λ (a : DeviceAssignment). set_contains s a.device) l
unfolding gate_membership all
membership_lem s [] = refl
membership_lem s (a ∷ l) = ground (arith, membership_lem s l)

compute_lem :
    (id : PhysicalDeviceId) (got : ComputeCapability) (wanted : Option ComputeCapability)
    → is_clean (check_compute id got wanted) ≡ new_enough got wanted
unfolding check_compute
compute_lem id got none = refl
compute_lem id got (some wanted) = ground arith

sms_lem :
    (id : PhysicalDeviceId) (got : ℕ) (wanted : Option ℕ)
    → is_clean (check_sms id got wanted) ≡ enough got wanted
unfolding check_sms
sms_lem id got none = refl
sms_lem id got (some wanted) = ground arith

dtype_lem :
    (id : PhysicalDeviceId) (got wanted : DtypeSurface) (name : Text) (names : List Text)
    → is_clean (check_dtypes id got wanted (name ∷ names)) ≡ (
        implies (dtype_supported wanted name) (dtype_supported got name)
        && is_clean (check_dtypes id got wanted names))
unfolding check_dtypes
dtype_lem id got wanted name names =
    by_bits (dtype_supported wanted name) (dtype_supported got name) _ _
  where
    by_bits :
        (w g : Bool) (v : GateViolation) (rest : List GateViolation)
        → is_clean (if w && not g then v ∷ rest else rest) ≡ (implies w g && is_clean rest)
    by_bits true true v rest = refl
    by_bits true false v rest = refl
    by_bits false g v rest = refl

six :
    (a b c d e f : Bool)
    → (a && (b && (c && (d && (e && (f && true)))))) ≡ (a && b && c && d && e && f)
six a b c d e f = ground arith

dtypes_lem :
    (id : PhysicalDeviceId) (got wanted : DtypeSurface)
    → is_clean (check_dtypes id got wanted dtype_names) ≡ covers got wanted
unfolding dtype_supported check_dtypes
dtypes_lem id got wanted =
    let step = dtype_lem id got wanted in
    rw
      (
        step (text "f32") _,
        step (text "f64") _,
        step (text "f16") _,
        step (text "bf16") _,
        step (text "i8") _,
        step (text "i32") [],
      )
      (six (implies wanted.f32 got.f32) (implies wanted.f64 got.f64) (implies wanted.f16 got.f16)
        (implies wanted.bf16 got.bf16) (implies wanted.i8 got.i8) (implies wanted.i32 got.i32))

entry_lem :
    (id : PhysicalDeviceId) (required : RequiredCapabilities) (e : Option DeviceDiscoveryEntry)
    → is_clean (check_entry id required e) ≡ provides e required
unfolding check_entry
entry_lem id required none = refl
entry_lem id required (some e) =
    rw
      (
        is_clean-append,
        is_clean-append,
        compute_lem id e.capabilities.compute_capability required.min_compute_capability,
        dtypes_lem id e.capabilities.dtype_surface required.required_dtypes,
        sms_lem id e.capabilities.sm_count required.min_sm_count,
      )
      refl

compatibility_lem :
    (discovery : DeviceDiscoverySnapshot) (l : List DeviceAssignment)
    → is_clean (gate_compatibility l discovery)
      ≡ all
          (λ (a : DeviceAssignment).
            provides (find_device discovery.devices a.device) a.required_capabilities)
          l
unfolding gate_compatibility all
compatibility_lem discovery [] = refl
compatibility_lem discovery (a ∷ l) =
    let e = find_device discovery.devices a.device in
    is_clean-append (check_entry a.device a.required_capabilities e)
      (gate_compatibility l discovery)
    ∙ ap₂ ◌&&◌ (entry_lem a.device a.required_capabilities e) (compatibility_lem discovery l)

budget_lem :
    (id : PhysicalDeviceId) (l : PartitionBudgetLedger) (limit : Option SafePhysicalLimit)
    → is_clean (check_budget id l limit) ≡ fits_budget l limit
unfolding check_budget check_total
budget_lem id l none = refl
budget_lem id l (some limit) = ground (arith, total_bytes_lem l)

budgets_lem :
    (budgets : Map PhysicalDeviceId SafePhysicalLimit) (l : List DeviceAssignment)
    → is_clean (check_budgets l budgets)
      ≡ all (λ (a : DeviceAssignment). fits_budget a.required (lookup a.device budgets)) l
unfolding check_budgets all
budgets_lem budgets [] = refl
budgets_lem budgets (a ∷ l) =
    is_clean-append (check_budget a.device a.required (lookup a.device budgets))
      (check_budgets l budgets)
    ∙ ap₂ ◌&&◌ (budget_lem a.device a.required (lookup a.device budgets)) (budgets_lem budgets l)

total_lem :
    (declared : ℕ) (budget : Option SafePhysicalLimit)
    → is_clean (check_declared_total declared budget) ≡ within_total declared budget
unfolding check_declared_total
total_lem declared none = refl
total_lem declared (some budget) = ground arith

bool_iff : (a b : Bool) → (a ≡ true → b ≡ true) → (b ≡ true → a ≡ true) → a ≡ b
bool_iff true b f g = sym (f refl)
bool_iff false true f g = g refl
bool_iff false false f g = refl

link_lem :
    (t : Transfer) (r : Result (Unit {0}) LinkGateError)
    → (is_clean (link_violation t r) ≡ true → r ≡ ok tt)
      × (r ≡ ok tt → is_clean (link_violation t r) ≡ true)
unfolding link_violation
link_lem t (ok u) = (λ h. refl, λ h. refl)
link_lem t (err e) = (λ h. cc, λ h. cc)

topology_lem :
    (t : DeviceTopologySnapshot) (l : List Transfer)
    → is_clean (gate_topology l t) ≡ all (λ (x : Transfer). admits t x.from x.to) l
unfolding gate_topology all
topology_lem t [] = refl
topology_lem t (x ∷ l) =
    let r = traversal_allowed t x.from x.to in
    let gate = link_lem x r in
    let allowed = traversal_allowed_lem t x.from x.to in
    is_clean-append (link_violation x r) (gate_topology l t)
    ∙ ap₂ ◌&&◌ (bool_iff _ _ (λ h. allowed.0 (gate.0 h)) (λ h. gate.1 (allowed.1 h)))
        (topology_lem t l)

clean_five :
    (a b c d e : List GateViolation)
    → is_clean (a ++ b ++ (c ++ d) ++ e)
      ≡ (is_clean a && is_clean b && is_clean c && is_clean d && is_clean e)
clean_five [] [] [] [] e = refl
clean_five [] [] [] (v ∷ d) e = refl
clean_five [] [] (v ∷ c) d e = refl
clean_five [] (v ∷ b) c d e = refl
clean_five (v ∷ a) b c d e = refl

-- The gates record nothing against a plan exactly if the plan is admissible.
pub violations_of_lem :
    (r : PolicyRequest) (set : DeviceSet) (p : CandidatePlan)
    → is_clean (violations_of r set p) ≡ admissible r set p
unfolding violations_of admissible gate_memory
violations_of_lem r set p =
    let members = gate_membership p.assignments set in
    let compatible = gate_compatibility p.assignments r.discovery in
    let budgets = check_budgets p.assignments r.constraints.per_device_budget in
    let total = check_declared_total p.declared_total_bytes r.constraints.total_budget in
    let links = gate_topology p.transfers r.constraints.topology in
    clean_five members compatible budgets total links
    ∙ ap₂ ◌&&◌
        (ap₂ ◌&&◌
          (ap₂ ◌&&◌
            (ap₂ ◌&&◌ (membership_lem set p.assignments)
              (compatibility_lem r.discovery p.assignments))
            (budgets_lem r.constraints.per_device_budget p.assignments))
          (total_lem p.declared_total_bytes r.constraints.total_budget))
        (topology_lem r.constraints.topology p.transfers)
