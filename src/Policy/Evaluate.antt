-- ===== src/Policy/Evaluate.antt =====
-- src/policy.rs: `evaluate`, the gate pass and the objective pass. The assertion on the topology
-- panics: `none`.
use faber_runtime.Base.{
  Bool, true, false, Option, none, some, List, [], ◌∷◌, ◌++◌, map, if◌then◌else◌,
}
use faber_runtime.Base.Result.{Result, ok, err}
use faber_runtime.Base.Decimal.{hex64}
use faber_runtime.Discovery.{hex}
use faber_runtime.Discovery.Equality.{same_snapshot}
use faber_runtime.DeviceSet.{DeviceSet}
use faber_runtime.Policy.{
  GateViolation, PlanRejection, RankedPlan, ExplainedReceipt, PolicyOutcome, CandidatePlan,
  PolicyRequest,
}
use faber_runtime.Policy.Gates.{gate_health_epoch_selection, gate_membership, gate_compatibility}
use faber_runtime.Policy.Memory.{gate_memory, gate_topology}
use faber_runtime.Policy.Rank.{rank_plans}
use faber_runtime.Policy.Receipt.{receipt_bytes, fnv1a64}

-- What the four gates record against one plan.
unfoldable pub violations_of : PolicyRequest → DeviceSet → CandidatePlan → List GateViolation
violations_of r set plan =
    gate_membership plan.assignments set
    ++ gate_compatibility plan.assignments r.discovery
    ++ gate_memory plan r.constraints
    ++ gate_topology plan.transfers r.constraints.topology

abbrev pub is_clean : List GateViolation → Bool
is_clean [] = true
is_clean (v ∷ vs) = false

unfoldable pub passers : PolicyRequest → DeviceSet → List CandidatePlan → List CandidatePlan
unfolding violations_of
passers r set [] = []
passers r set (p ∷ ps) =
    let rest = passers r set ps in if is_clean (violations_of r set p) then p ∷ rest else rest

unfoldable pub reject : CandidatePlan → List GateViolation → PlanRejection
reject p violations = record { plan = p.name; violations = violations }

unfoldable pub rejections : PolicyRequest → DeviceSet → List CandidatePlan → List PlanRejection
unfolding violations_of reject
rejections r set [] = []
rejections r set (p ∷ ps) =
    let rest = rejections r set ps in
    let violations = violations_of r set p in
    if is_clean violations then rest else reject p violations ∷ rest

unfoldable pub gate_pass :
    PolicyRequest → Result DeviceSet GateViolation → List PlanRejection × List RankedPlan
unfolding passers rejections reject
gate_pass r (ok set) =
    (rejections r set r.plans, rank_plans (passers r set r.plans) r.objectives r.constraints)
gate_pass r (err violation) = (map (λ p. reject p (violation ∷ [])) r.plans, [])

unfoldable pub receipt_of : PolicyRequest → List PlanRejection → List RankedPlan → ExplainedReceipt
receipt_of r rejected ranked =
    let receipt : ExplainedReceipt = record {
      snapshot_id_hex = hex r.discovery.id;
      current_generation = r.constraints.current_generation;
      per_device_budget = r.constraints.per_device_budget;
      total_budget = r.constraints.total_budget;
      objectives = r.objectives;
      rejected = rejected;
      ranked = ranked;
      determinism_fingerprint = [];
    } in
    record receipt { determinism_fingerprint = hex64 (fnv1a64 (receipt_bytes receipt)) }

unfoldable pub evaluate : PolicyRequest → Option PolicyOutcome
unfolding gate_pass
evaluate r =
    let (rejected, ranked) = gate_pass r (gate_health_epoch_selection r) in
    if same_snapshot r.constraints.topology.discovery r.discovery
    then some
        (record { rejected = rejected; ranked = ranked; receipt = receipt_of r rejected ranked })
    else none
