-- ===== src/Policy/Rank.antt =====
-- src/policy.rs: the ranking of the plans that passed every gate. `sort_by` of the standard library
-- is a stable sort; here it inserts each plan before the first later one that is not smaller.
pub mod Order
pub mod Sorted
use Prim.Native.Nat.Ordering.{lt, eq, gt}
use faber_runtime.Base.{
  ℕ, ◌+◌, ◌-◌, Bool, true, false, if◌then◌else◌, Option, none, some, List, [], ◌∷◌, map, compare,
  Ordering,
}
use faber_runtime.Base.Word.{u64_mod, saturating_add}
use faber_runtime.Base.Key.{then_with}
use faber_runtime.Base.Map.{Map, Set, keys, lookup, of_list}
use faber_runtime.Device.{device_key, cmp_device, PhysicalDeviceId}
use faber_runtime.Partition.{SafePhysicalLimit, total_bytes}
use faber_runtime.Policy.{
  Objective, latency, throughput, capacity_reserve, cache_affinity, expert_hotness, transfer_budget,
  power, ObjectiveDirection, minimize, maximize, direction, ObjectiveScore, RankedPlan,
  DeclaredConstraints, DeviceAssignment, CandidatePlan,
}

-- `unwrap_or`.
abbrev value_or : Option ℕ → ℕ → ℕ
value_or none d = d
value_or (some v) d = v

abbrev add_headroom : Option SafePhysicalLimit → Option ℕ → ℕ → ℕ
add_headroom none total reserve = reserve
add_headroom (some limit) none reserve = reserve
add_headroom (some limit) (some total) reserve = saturating_add reserve (limit - total)

unfoldable pub reserve_bytes :
    List DeviceAssignment → Map PhysicalDeviceId SafePhysicalLimit → ℕ → ℕ
reserve_bytes [] budgets reserve = reserve
reserve_bytes (a ∷ more) budgets reserve =
    reserve_bytes more budgets
      (add_headroom (lookup a.device budgets) (total_bytes a.required) reserve)

unfoldable pub capacity_reserve_bytes : CandidatePlan → DeclaredConstraints → ℕ
unfolding reserve_bytes
capacity_reserve_bytes plan c = reserve_bytes plan.assignments c.per_device_budget 0

unfoldable pub objective_value : CandidatePlan → Objective → DeclaredConstraints → ℕ
unfolding capacity_reserve_bytes
objective_value plan latency c = value_or plan.facts.latency_nanos (u64_mod - 1)
objective_value plan throughput c = value_or plan.facts.throughput_tokens_per_sec 0
objective_value plan capacity_reserve c = capacity_reserve_bytes plan c
objective_value plan cache_affinity c = value_or plan.facts.cache_affinity_hit_rate_milli 0
objective_value plan expert_hotness c = value_or plan.facts.expert_hotness_score 0
objective_value plan transfer_budget c = value_or plan.facts.transfer_bytes (u64_mod - 1)
objective_value plan power c = value_or plan.facts.estimated_power_milliwatts (u64_mod - 1)

pub record Scored : Type 0 where
  pub plan : CandidatePlan
  pub values : List ℕ
  pub devices : Set PhysicalDeviceId

unfoldable pub values_of : CandidatePlan → List Objective → DeclaredConstraints → List ℕ
unfolding objective_value
values_of plan [] c = []
values_of plan (o ∷ os) c = objective_value plan o c ∷ values_of plan os c

unfoldable pub devices_of : CandidatePlan → Set PhysicalDeviceId
devices_of plan = of_list (map (λ (a : DeviceAssignment). a.device) plan.assignments)

unfoldable pub score : List Objective → DeclaredConstraints → CandidatePlan → Scored
unfolding values_of devices_of
score objectives c plan = record {
  plan = plan;
  values = values_of plan objectives c;
  devices = devices_of plan;
}

abbrev pub cmp_value : ObjectiveDirection → ℕ → ℕ → Ordering
cmp_value minimize a b = compare a b
cmp_value maximize a b = compare b a

-- The loop over the objectives: the first one that tells the two apart decides.
unfoldable pub cmp_values : List Objective → List ℕ → List ℕ → Ordering
cmp_values (o ∷ os) (a ∷ more) (b ∷ bs) =
    then_with (cmp_value (direction o) a b) (cmp_values os more bs)
cmp_values _ _ _ = eq

-- `Ord` of two sets: element by element, in the order of the elements.
unfoldable pub cmp_devices : List PhysicalDeviceId → List PhysicalDeviceId → Ordering
cmp_devices [] [] = eq
cmp_devices [] (b ∷ bs) = lt
cmp_devices (a ∷ more) [] = gt
cmp_devices (a ∷ more) (b ∷ bs) = then_with (cmp_device a b) (cmp_devices more bs)

unfoldable pub cmp_scored : List Objective → Scored → Scored → Ordering
unfolding cmp_values cmp_devices
cmp_scored objectives a b =
    then_with (cmp_values objectives a.values b.values)
      (cmp_devices (keys a.devices) (keys b.devices))

abbrev pub is_greater : Ordering → Bool
is_greater gt = true
is_greater eq = false
is_greater lt = false

unfoldable pub insert_scored : List Objective → Scored → List Scored → List Scored
insert_scored objectives x [] = x ∷ []
insert_scored objectives x (y ∷ ys) =
    let later = y ∷ insert_scored objectives x ys in
    if is_greater (cmp_scored objectives x y) then later else x ∷ y ∷ ys

unfoldable pub sort_scored : List Objective → List Scored → List Scored
unfolding insert_scored
sort_scored objectives [] = []
sort_scored objectives (x ∷ xs) = insert_scored objectives x (sort_scored objectives xs)

unfoldable pub zip_scores : List Objective → List ℕ → List ObjectiveScore
zip_scores (o ∷ os) (v ∷ vs) = record { objective = o; value = v } ∷ zip_scores os vs
zip_scores _ _ = []

-- `enumerate`: the rank counts from 1.
unfoldable pub number : List Objective → ℕ → List Scored → List RankedPlan
unfolding zip_scores
number objectives n [] = []
number objectives n (s ∷ ss) =
    record {
      rank = n + 1;
      plan = s.plan.name;
      devices = keys s.devices;
      scores = zip_scores objectives s.values;
    }
    ∷ number objectives (n + 1) ss

unfoldable pub rank_plans :
    List CandidatePlan → List Objective → DeclaredConstraints → List RankedPlan
unfolding score sort_scored number
rank_plans passers objectives c =
    number objectives 0 (sort_scored objectives (map (score objectives c) passers))
