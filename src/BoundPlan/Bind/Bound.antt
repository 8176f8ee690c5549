-- ===== src/BoundPlan/Bind/Bound.antt =====
-- `bind` of src/bound_plan.rs, whole: what a bound plan is, in terms of the request.
use faber_runtime.Base.{
  ℕ, ◌≡◌, refl, ◌∙◌, sym, ap, true, false, Option, none, some, List, ◌++◌, arith, All, Bool-cases,
  inl, inr,
}
use faber_runtime.Base.Key.{text, text_key}
use faber_runtime.Base.Result.{Result, ok, err}
use faber_runtime.Base.Decimal.{hex_bytes}
use faber_runtime.Base.Map.{keys, of_list, any_same, any_same-keys, contains-of_list}
use faber_runtime.Device.{device_key, PhysicalDeviceId}
use faber_runtime.Discovery.{is_stale}
use faber_runtime.Discovery.Sha256.{digest}
use faber_runtime.DeviceSet.{MembershipError, validate}
use faber_runtime.DeviceSet.Resolve.{is_recorded, validate_all-is_recorded}
use faber_runtime.Gguf.Agreement.{sha256-eq-digest}
use faber_runtime.BoundPlan.{BoundDistributedPlan, BoundPlanKind}
use faber_runtime.BoundPlan.Bind.{
  BindError, BindRequest, bound_devices, check_constraints, check_epoch, check_shape, early_checks,
  as_bind, same_keys, kind_of, hashed, plan_of, plan_bytes, checked, bind,
}
use faber_runtime.BoundPlan.Bind.Total.{same_keys→eq, early_checks-ok, check_shape-keys}
use faber_runtime.BoundPlan.Bind.Sound.{Holds, constraints-Holds, IsAttached, bindings-IsAttached}

-- The devices of the bindings are recorded under the current generation of a snapshot with nothing
-- stale; the bindings are those of the declared partitions, their attached partitions fit, and every
-- declared constraint holds; the plan keeps what it was bound from, is the implicit local plan
-- exactly for one partition, and carries the digest of its own bytes.
pub record IsBound (r : BindRequest) (plan : BoundDistributedPlan) : Type 0 where
  pub fresh : is_stale r.snapshot r.current_generation ≡ false
  pub recorded :
      (id : PhysicalDeviceId)
      → any_same id (bound_devices r.bindings) ≡ true
      → is_recorded r.snapshot.devices r.current_generation id ≡ true
  pub declared : keys r.admitted.declared_partitions ≡ keys r.bindings
  pub members : keys (of_list (bound_devices r.bindings)) ≡ keys plan.device_set
  pub attached : All IsAttached r.bindings
  pub constrained : All (Holds r.bindings) r.admitted.declared_constraints
  pub kind : kind_of r.admitted r.bindings ≡ some plan.kind
  pub logical : plan.logical_distributed_plan_hash ≡ r.admitted.logical_distributed_plan_hash
  pub sampled : plan.snapshot_id ≡ r.snapshot.id
  pub hash :
      plan.bound_distributed_plan_hash ≡ text "sha256:" ++ hex_bytes (digest (plan_bytes plan))

as_bind-ok : (x : Result (Unit {0}) MembershipError) → as_bind x ≡ ok tt → x ≡ ok tt
as_bind-ok (ok u) h = refl
as_bind-ok (err e) h = cc

module _ (r : BindRequest) where
  check_epoch-ok :
      check_epoch r ≡ ok tt
      → (is_stale r.snapshot r.current_generation ≡ false)
        × (validate r.device_set r.snapshot r.current_generation ≡ ok tt)
  unfolding check_epoch
  check_epoch-ok h = elim (Bool-cases (is_stale r.snapshot r.current_generation)) [
    | inl stale ↦ absurd (ground arith)
    | inr fresh ↦
        (fresh, as_bind-ok (validate r.device_set r.snapshot r.current_generation) (ground arith))
  ]

  check_shape-members :
      check_shape r ≡ ok tt → keys (of_list (bound_devices r.bindings)) ≡ keys r.device_set.members
  unfolding check_shape
  check_shape-members h =
      let devices = keys (of_list (bound_devices r.bindings)) in
      elim (Bool-cases (same_keys devices (keys r.device_set.members))) [
        | inl e ↦ same_keys→eq devices (keys r.device_set.members) e
        | inr n ↦ absurd (ground arith)
      ]

  bound-is_recorded :
      check_epoch r ≡ ok tt
      → check_shape r ≡ ok tt
      → (id : PhysicalDeviceId) → any_same id (bound_devices r.bindings) ≡ true
      → is_recorded r.snapshot.devices r.current_generation id ≡ true
  unfolding validate
  bound-is_recorded epoch shape id h =
      let devices = bound_devices r.bindings in
      validate_all-is_recorded r.snapshot r.current_generation (keys r.device_set.members) id
        (check_epoch-ok epoch).1
        (ap (any_same id) (sym (check_shape-members shape))
          ∙ any_same-keys id (of_list devices)
          ∙ contains-of_list devices id
          ∙ h)

  -- The three results that a bound plan came from.
  bind-parts :
      {plan : BoundDistributedPlan}
      → bind r ≡ some (ok plan)
      → (early_checks r ≡ ok tt)
        × (check_constraints r.admitted.declared_constraints r.bindings ≡ some (ok tt))
        × ((kind : BoundPlanKind) × (kind_of r.admitted r.bindings ≡ some kind)
            × (plan ≡ plan_of r kind))
  unfolding bind
  bind-parts h =
      in_turn (early_checks r) (check_constraints r.admitted.declared_constraints r.bindings)
        (kind_of r.admitted r.bindings) refl refl refl h
    where
      in_turn :
          {plan : BoundDistributedPlan} (x : Result (Unit {0}) BindError)
          (y : Option (Result (Unit {0}) BindError)) (z : Option BoundPlanKind)
          → early_checks r ≡ x
          → check_constraints r.admitted.declared_constraints r.bindings ≡ y
          → kind_of r.admitted r.bindings ≡ z
          → checked r (early_checks r) ≡ some (ok plan)
          → (x ≡ ok tt)
            × (y ≡ some (ok tt))
            × ((kind : BoundPlanKind) × (z ≡ some kind) × (plan ≡ plan_of r kind))
      in_turn (err e) y z p q s h = absurd (ground arith)
      in_turn (ok u) none z p q s h = absurd (ground arith)
      in_turn (ok u) (some (err e)) z p q s h = absurd (ground arith)
      in_turn (ok u) (some (ok v)) none p q s h = absurd (ground arith)
      in_turn (ok u) (some (ok v)) (some kind) p q s h = (refl, refl, (kind, refl, ground arith))

  -- A plan that `bind` binds is bound as it has to be.
  pub bind-IsBound : (plan : BoundDistributedPlan) → bind r ≡ some (ok plan) → IsBound r plan
  unfolding plan_of hashed plan_bytes
  bind-IsBound plan h =
      let (early, constraints, (k, is_kind, is_plan)) = bind-parts h in
      let (epoch, shape, attachments) = early_checks-ok r early in
      rw is_plan (record {
        fresh = (check_epoch-ok epoch).0;
        recorded = bound-is_recorded epoch shape;
        declared = check_shape-keys r shape;
        members = check_shape-members shape;
        attached = bindings-IsAttached r.bindings attachments;
        constrained = constraints-Holds r.admitted.declared_constraints r.bindings constraints;
        kind = is_kind;
        logical = refl;
        sampled = refl;
        hash = ap (λ (d : List ℕ). text "sha256:" ++ hex_bytes d) (sha256-eq-digest _);
      })
