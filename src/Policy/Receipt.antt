-- ===== src/Policy/Receipt.antt =====
-- src/policy.rs: the canonical bytes of a receipt and its fingerprint.
use Prim.Native.Nat.{bit_xor}
use faber_runtime.Base.{ℕ, ◌*◌, true, false, Option, none, some, List, [], ◌∷◌, ◌++◌, length}
use faber_runtime.Base.Word.{u64}
use faber_runtime.Bytes.{push_u64, push_bool, push_str}
use faber_runtime.Device.{PhysicalDeviceId, canonical_bytes as device_bytes}
use faber_runtime.Partition.{SafePhysicalLimit}
use faber_runtime.Policy.{
  gate_tag, GateViolation, PlanRejection, Objective, objective_tag, ObjectiveScore, RankedPlan,
  ExplainedReceipt,
}

push_budgets : List ℕ → List (PhysicalDeviceId × SafePhysicalLimit) → List ℕ
push_budgets out [] = out
push_budgets out ((id, limit) ∷ more) = push_budgets (push_u64 (out ++ device_bytes id) limit) more

push_total : List ℕ → Option SafePhysicalLimit → List ℕ
push_total out none = push_bool out false
push_total out (some total) = push_u64 (push_bool out true) total

push_objectives : List ℕ → List Objective → List ℕ
push_objectives out [] = out
push_objectives out (o ∷ os) = push_objectives (push_u64 out (objective_tag o)) os

push_device : List ℕ → Option PhysicalDeviceId → List ℕ
push_device out none = push_bool out false
push_device out (some id) = push_bool out true ++ device_bytes id

push_violations : List ℕ → List GateViolation → List ℕ
unfolding push_device
push_violations out [] = out
push_violations out (v ∷ vs) =
    push_violations
      (push_str (push_device (push_u64 out (gate_tag v.gate)) v.device) v.failing_fact) vs

push_rejections : List ℕ → List PlanRejection → List ℕ
unfolding push_violations
push_rejections out [] = out
push_rejections out (r ∷ rs) =
    push_rejections
      (push_violations (push_u64 (push_str out r.plan) (length r.violations)) r.violations) rs

push_ids : List ℕ → List PhysicalDeviceId → List ℕ
push_ids out [] = out
push_ids out (id ∷ ids) = push_ids (out ++ device_bytes id) ids

push_scores : List ℕ → List ObjectiveScore → List ℕ
push_scores out [] = out
push_scores out (s ∷ ss) =
    push_scores (push_u64 (push_u64 out (objective_tag s.objective)) s.value) ss

push_ranked : List ℕ → List RankedPlan → List ℕ
unfolding push_ids push_scores
push_ranked out [] = out
push_ranked out (p ∷ ps) =
    let named = push_str (push_u64 out p.rank) p.plan in
    let placed = push_ids (push_u64 named (length p.devices)) p.devices in
    push_ranked (push_scores (push_u64 placed (length p.scores)) p.scores) ps

pub receipt_bytes : ExplainedReceipt → List ℕ
unfolding push_budgets push_total push_objectives push_rejections push_ranked
receipt_bytes r =
    let head = push_u64 (push_str [] r.snapshot_id_hex) r.current_generation.epoch in
    let budgets = push_budgets (push_u64 head (length r.per_device_budget)) r.per_device_budget in
    let total = push_total budgets r.total_budget in
    let objectives = push_objectives (push_u64 total (length r.objectives)) r.objectives in
    let rejected = push_rejections (push_u64 objectives (length r.rejected)) r.rejected in
    push_ranked (push_u64 rejected (length r.ranked)) r.ranked

-- The loop of `fnv1a64`, from a hash so far.
fnv_from : ℕ → List ℕ → ℕ
fnv_from hash [] = hash
fnv_from hash (b ∷ bs) = fnv_from (u64 (bit_xor hash b * 0x100000001b3)) bs

pub fnv1a64 : List ℕ → ℕ
unfolding fnv_from
fnv1a64 bytes = fnv_from 0xcbf29ce484222325 bytes
