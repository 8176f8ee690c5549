-- ===== src/Policy/Outcome.antt =====
-- `evaluate` of src/policy.rs against what it promises: the gates reject, the objectives rank the
-- rest.
use mathlib.Core.List.{Perm}
use faber_runtime.Base.{
  ◌≡◌, refl, Bool, true, false, not, some, List, [], ◌∷◌, map, filter, if◌then◌else◌,
}
use faber_runtime.Base.Result.{Result, ok, err}
use faber_runtime.Discovery.Equality.{same_snapshot}
use faber_runtime.DeviceSet.{DeviceSet}
use faber_runtime.Policy.{GateViolation, PlanRejection, PolicyOutcome, CandidatePlan, PolicyRequest}
use faber_runtime.Policy.Gates.{gate_health_epoch_selection}
use faber_runtime.Policy.Rank.{score, number}
use faber_runtime.Policy.Rank.Sorted.{IsRanked, rank_plans_lem}
use faber_runtime.Policy.Evaluate.{
  violations_of, passers, reject, rejections, gate_pass, receipt_of, evaluate,
}
use faber_runtime.Policy.Admissible.{admissible, violations_of_lem}

module _ (r : PolicyRequest) (set : DeviceSet) where
  passers_lem : (ps : List CandidatePlan) → passers r set ps ≡ filter (admissible r set) ps
  unfolding passers filter
  passers_lem [] = refl
  passers_lem (p ∷ ps) = rw (violations_of_lem r set p, passers_lem ps) refl

  -- The plans that are not admissible.
  abbrev pub inadmissible : CandidatePlan → Bool
  inadmissible p = not (admissible r set p)

  -- A rejection with what the gates recorded.
  abbrev pub rejection : CandidatePlan → PlanRejection
  rejection p = record { plan = p.name; violations = violations_of r set p }

  rejections_lem :
      (ps : List CandidatePlan) → rejections r set ps ≡ map rejection (filter inadmissible ps)
  unfolding rejections filter reject
  rejections_lem [] = refl
  rejections_lem (p ∷ ps) =
      rw (violations_of_lem r set p, rejections_lem ps)
        (swapped (admissible r set p) (filter inadmissible ps) p)
    where
      swapped :
          (b : Bool) (l : List CandidatePlan) (q : CandidatePlan)
          → (if b then map rejection l else rejection q ∷ map rejection l)
            ≡ map rejection (if not b then q ∷ l else l)
      swapped true l q = refl
      swapped false l q = refl

-- What an outcome has to be, by the resolved selection: the admissible plans ranked, each once and
-- none behind one that it is better than, and every other plan rejected with what the gates record
-- against it, in the order of the request; or, without a selection, every plan rejected with the
-- reason and none ranked.
abbrev pub Evaluates : PolicyRequest → Result DeviceSet GateViolation → PolicyOutcome → Type 0
Evaluates r (ok set) o =
    ((ordered : List CandidatePlan) × Perm ordered (filter (admissible r set) r.plans)
      × IsRanked r.constraints r.objectives ordered
      × (o.ranked ≡ number r.objectives 0 (map (score r.objectives r.constraints) ordered)))
    × (o.rejected ≡ map (rejection r set) (filter (inadmissible r set) r.plans))
Evaluates r (err v) o =
    (o.ranked ≡ [])
    × (o.rejected ≡ map (λ p. record { plan = p.name; violations = v ∷ [] }) r.plans)

outcome : PolicyRequest → Result DeviceSet GateViolation → PolicyOutcome
outcome r gate =
    let (rejected, ranked) = gate_pass r gate in
    record { rejected = rejected; ranked = ranked; receipt = receipt_of r rejected ranked }

outcome-Evaluates :
    (r : PolicyRequest) (gate : Result DeviceSet GateViolation) → Evaluates r gate (outcome r gate)
unfolding outcome gate_pass reject
outcome-Evaluates r (ok set) = (
  rw (passers_lem r set r.plans)
      (rank_plans_lem r.constraints r.objectives (filter (admissible r set) r.plans)),
  rejections_lem r set r.plans,
)
outcome-Evaluates r (err v) = (refl, refl)

-- Over a topology that was measured from the snapshot of the request, an evaluation answers with
-- an outcome as it has to be, and its receipt repeats the rejections and the ranking.
pub evaluate_lem :
    (r : PolicyRequest)
    → same_snapshot r.constraints.topology.discovery r.discovery ≡ true
    → (o : PolicyOutcome) × (evaluate r ≡ some o)
      × Evaluates r (gate_health_epoch_selection r) o
      × (o.receipt.rejected ≡ o.rejected)
      × (o.receipt.ranked ≡ o.ranked)
unfolding evaluate outcome receipt_of
evaluate_lem r measured =
    let gate = gate_health_epoch_selection r in
    (outcome r gate, rw measured refl, outcome-Evaluates r gate, refl, refl)
