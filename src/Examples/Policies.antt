-- ===== src/Examples/Policies.antt =====
-- src/discovery.rs, src/device_set.rs and src/policy.rs on a machine with two devices.
use faber_runtime.Base.{ℕ, ◌≡◌, refl, true, false, ◌&&◌, none, some, [], ◌∷◌, ◌++◌, map}
use faber_runtime.Base.Key.{Text, text}
use faber_runtime.Base.Result.{ok, err}
use faber_runtime.Base.Decimal.{decimal}
use faber_runtime.Base.Map.{Map, insert, lookup, add_all}
use faber_runtime.Device.{
  PhysicalDeviceId, cuda, display, is_stale as generation_is_stale, backend as device_backend,
}
use faber_runtime.Discovery.{
  DeviceDiscoveryEntry, DeviceDiscoverySnapshot, healthy, p2p_attempted, DeviceOrdinal, no_dtypes,
  is_stale, any_stale, find_device,
}
use faber_runtime.Discovery.Equality.{same_snapshot}
use faber_runtime.DeviceSet as DeviceSet
use faber_runtime.DeviceSet.{
  DeviceSet, DeviceSetSelection, explicit, constraints, no_constraints, DeviceLink, admitted,
  not_attempted, peer, DeviceTopologySnapshot, resolve, set_contains, set_len, traversal_allowed,
  link, from_members, select, is_selectable, check_counts, below_minimum, insert_links, is_placed,
  link_gate,
}
use faber_runtime.DeviceSet.Resolve.{asks_for, is_recorded, Counts, resolve_ok}
use faber_runtime.DeviceSet.Links.{is_admitted}
use faber_runtime.Partition.{PartitionBudgetLedger, total_bytes}
use faber_runtime.Policy.{
  latency, capacity_reserve, assign, CandidatePlan, ObjectiveFacts, PolicyRequest, PolicyOutcome,
  RankedPlan, GateViolation,
}
use faber_runtime.Policy.Gates.{
  gate_health_epoch_selection, gate_membership, gate_compatibility, check_entry, check_compute,
  check_dtypes, check_sms, dtype_supported, arrow,
}
use faber_runtime.Policy.Memory.{
  gate_memory, check_budgets, check_budget, check_total, check_declared_total, gate_topology,
  link_violation, link_fact, over_limit,
}
use faber_runtime.Policy.Rank.{
  rank_plans, score, values_of, devices_of, objective_value, capacity_reserve_bytes, reserve_bytes,
  sort_scored, insert_scored, cmp_scored, cmp_values, cmp_devices, number,
}
use faber_runtime.Policy.Evaluate.{gate_pass, passers, evaluate, is_clean, violations_of}
use faber_runtime.Policy.Admissible.{all, admissible, violations_of_lem}
use faber_runtime.Policy.Outcome.{Evaluates, evaluate_lem}

abbrev pub first : PhysicalDeviceId
first = record { facts = cuda (record { pci_uuid = text "GPU-1"; driver_uuid = none }) }

abbrev pub second : PhysicalDeviceId
second = record { facts = cuda (record { pci_uuid = text "GPU-2"; driver_uuid = none }) }

abbrev pub entry : DeviceOrdinal → PhysicalDeviceId → DeviceDiscoveryEntry
entry ordinal id = record {
  ordinal = ordinal;
  identity = id;
  device_model = some (text "H100");
  capabilities = record {
    compute_capability = record { major = 9; minor = 0 };
    sm_count = 132;
    dtype_surface = record no_dtypes { f32 = true; bf16 = true };
  };
  memory = record { tool_report_total_mib = some 81559; api_total_bytes = 84978696192 };
  health = healthy;
  health_generation = record { epoch = 3 };
  probe_provenance = record { probe = text "probe"; tool_versions = text "1" };
}

abbrev pub found : Map DeviceOrdinal DeviceDiscoveryEntry
found = (0, entry 0 first) ∷ (1, entry 1 second) ∷ []

abbrev pub snapshot : DeviceDiscoverySnapshot
snapshot = record { id = 1 ∷ 2 ∷ []; probe_utc_nanos = 7; devices = found; p2p = p2p_attempted }

abbrev up : DeviceLink
up = record {
  from = first;
  to = second;
  state = admitted peer (record { bandwidth_bytes_per_sec = 900; latency_nanos = 5 });
}

abbrev down : DeviceLink
down = record { from = second; to = first; state = not_attempted }

abbrev measured : DeviceTopologySnapshot
measured = record {
  discovery = snapshot;
  links = ((first, second), up) ∷ ((second, first), down) ∷ [];
}

abbrev anything : DeviceSetSelection
anything = constraints (record no_constraints { min_count = 2 })

abbrev pub both : DeviceSet
both = record { members = (first, tt) ∷ (second, tt) ∷ [] }

same_measured : same_snapshot snapshot snapshot ≡ true
unfolding same_snapshot
same_measured = refl

anything_resolved : resolve anything snapshot (record { epoch = 3 }) ≡ ok both
unfolding resolve select is_selectable check_counts from_members generation_is_stale device_backend
    add_all insert lookup set_len
anything_resolved = refl

-- One generation later nothing of the snapshot can be selected.
anything_stale : resolve anything snapshot (record { epoch = 4 }) ≡ err (below_minimum 2 0)
unfolding resolve select is_selectable check_counts from_members generation_is_stale device_backend
    add_all insert lookup set_len
anything_stale = refl

resolve_ok_example :
    ((id : PhysicalDeviceId)
      → set_contains both id
        ≡ (asks_for anything id && is_recorded found (record { epoch = 3 }) id))
    × Counts anything (set_len both)
resolve_ok_example = resolve_ok snapshot (record { epoch = 3 }) anything anything_resolved

measured-new : DeviceSet.new snapshot (up ∷ down ∷ []) ≡ some measured
unfolding DeviceSet.new insert_links is_placed find_device insert
measured-new = refl

abbrev ledger : ℕ → PartitionBudgetLedger
ledger weights = record {
  weight_bytes = weights;
  kv_cache_bytes = 10;
  activation_scratch_bytes = 0;
  module_storage_bytes = 0;
  allocator_overhead_bytes = 0;
  transfer_staging_bytes = 0;
  concurrent_state_bytes = 0;
}

abbrev facts : ℕ → ObjectiveFacts
facts nanos = record {
  latency_nanos = some nanos;
  throughput_tokens_per_sec = none;
  cache_affinity_hit_rate_milli = none;
  expert_hotness_score = none;
  transfer_bytes = none;
  estimated_power_milliwatts = none;
}

abbrev slow : CandidatePlan
slow = record {
  name = text "slow";
  assignments = assign first (ledger 50) ∷ [];
  transfers = [];
  declared_total_bytes = 60;
  facts = facts 900;
}

-- Over the link that is admitted.
abbrev split : CandidatePlan
split = record {
  name = text "split";
  assignments = assign first (ledger 50) ∷ assign second (ledger 50) ∷ [];
  transfers = record { from = first; to = second } ∷ [];
  declared_total_bytes = 120;
  facts = facts 400;
}

-- Back over the link that was not attempted, with more than its budget.
abbrev greedy : CandidatePlan
greedy = record {
  name = text "greedy";
  assignments = assign second (ledger 500) ∷ [];
  transfers = record { from = second; to = first } ∷ [];
  declared_total_bytes = 510;
  facts = facts 1;
}

abbrev request : PolicyRequest
request = record {
  discovery = snapshot;
  selection = anything;
  constraints = record {
    current_generation = record { epoch = 3 };
    topology = measured;
    per_device_budget = (first, 100) ∷ (second, 100) ∷ [];
    total_budget = some 1000;
  };
  objectives = latency ∷ capacity_reserve ∷ [];
  plans = slow ∷ greedy ∷ split ∷ [];
}

selected : gate_health_epoch_selection request ≡ ok both
unfolding gate_health_epoch_selection is_stale any_stale resolve select is_selectable check_counts
    from_members generation_is_stale device_backend add_all insert lookup set_len
selected = refl

admissible_plans : map (admissible request both) request.plans ≡ true ∷ false ∷ true ∷ []
unfolding admissible all set_contains lookup find_device link is_admitted
admissible_plans = refl

split-admissible : admissible request both split ≡ true
unfolding admissible all set_contains lookup find_device link is_admitted
split-admissible = refl

-- The latency decides: the split plan comes first, and the greedy one is not ranked.
ranking :
    map {B = ℕ × Text} (λ (p : RankedPlan). (p.rank, p.plan)) (gate_pass request (ok both)).1
    ≡ (1, text "split") ∷ (2, text "slow") ∷ []
unfolding gate_pass passers violations_of gate_membership gate_compatibility check_entry
    check_compute check_dtypes check_sms dtype_supported gate_memory check_budgets check_budget
    check_total check_declared_total gate_topology link_violation traversal_allowed link_gate
    set_contains lookup find_device total_bytes rank_plans score values_of devices_of
    objective_value capacity_reserve_bytes reserve_bytes sort_scored insert_scored cmp_scored
    cmp_values cmp_devices number add_all insert
ranking = refl

greedy_reasons :
    map (λ (v : GateViolation). v.failing_fact) (violations_of request both greedy)
    ≡ text "budget_exceeded: declared 510 bytes exceeds policy limit 100 bytes (SafePhysicalLimit)"
      ∷ (text "transfer cuda:GPU-2" ++ arrow ++ text "cuda:GPU-1: directed link is NOT ATTEMPTED")
      ∷ []
unfolding violations_of gate_membership gate_compatibility check_entry check_compute check_dtypes
    check_sms dtype_supported gate_memory check_budgets check_budget check_total
    check_declared_total gate_topology link_violation link_fact traversal_allowed link_gate
    set_contains lookup find_device total_bytes over_limit decimal display
greedy_reasons = refl

violations_of_lem_example :
    is_clean (violations_of request both greedy) ≡ admissible request both greedy
violations_of_lem_example = violations_of_lem request both greedy

evaluate_lem_example :
    (o : PolicyOutcome) × (evaluate request ≡ some o)
    × Evaluates request (gate_health_epoch_selection request) o
    × (o.receipt.rejected ≡ o.rejected)
    × (o.receipt.ranked ≡ o.ranked)
evaluate_lem_example = evaluate_lem request same_measured
