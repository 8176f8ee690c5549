-- ===== src/BoundPlan/Bind/Total.antt =====
-- `bind` of src/bound_plan.rs on plans that `admit` accepted: none of its expects fails.
use faber_runtime.Base.{
  suc, ◌≡◌, refl, ◌∙◌, sym, ap, true, Option, none, some, List, [], ◌∷◌, arith, All, length,
  is_some, Bool-cases, both_true, Option-cases, inl, inr,
}
use faber_runtime.Base.Key.{Key, Text, text_key, same, same→eq}
use faber_runtime.Base.Result.{Result, ok, err, ◌>>=◌}
use faber_runtime.Base.Map.{Map, Set, keys, lookup, contains, of_list, any_same, any_same-keys, add}
use faber_runtime.Device.{device_key, DeviceBackend, PhysicalDeviceId, backend as device_backend}
use faber_runtime.DeviceSet.{same_backend}
use faber_runtime.BoundPlan.{LogicalPartitionId, BoundPlanKind}
use faber_runtime.BoundPlan.Admit.{
  DeclaredPlacementConstraint, distinct_physical_devices, colocated, required_backend,
  AdmittedLogicalPlan, first_unknown, constraint_unknown_partition, any_unknown, admit,
}
use faber_runtime.BoundPlan.Bind.{
  Bindings, BindError, BindRequest, gather, check_backends, check_constraint, check_constraints,
  check_bindings, check_epoch, check_shape, early_checks, same_keys, kind_of, first_binding, built,
  constrained, checked, bind,
}

module _ {K : Type 0} ⦃k : Key K⦄ where
  pub same_keys→eq : (xs ys : List K) → same_keys xs ys ≡ true → xs ≡ ys
  unfolding same_keys
  same_keys→eq [] [] h = refl
  same_keys→eq [] (y ∷ ys) h = cc
  same_keys→eq (x ∷ xs) [] h = cc
  same_keys→eq (x ∷ xs) (y ∷ ys) h =
      let (first, others) = both_true (same x y) (same_keys xs ys) h in
      cc (same→eq x y first, same_keys→eq xs ys others)

  pub lookup-any_same :
      {V : Type 0} (q : K) (m : Map K V) → is_some (lookup q m) ≡ any_same q (keys m)
  unfolding lookup any_same
  lookup-any_same q [] = refl
  lookup-any_same q ((p, v) ∷ m) = ground (arith, lookup-any_same q m)

-- Every partition of a list is bound.
abbrev pub Bound : Bindings → List LogicalPartitionId → Type 0
Bound bs ps = All (λ p. is_some (lookup p bs) ≡ true) ps

first_unknown-Bound :
    (ps : List LogicalPartitionId) (declared : Set LogicalPartitionId) (bs : Bindings)
    → keys declared ≡ keys bs
    → first_unknown ps declared ≡ none
    → Bound bs ps
unfolding first_unknown
first_unknown-Bound [] declared bs e h = tt
first_unknown-Bound (p ∷ ps) declared bs e h = elim (Bool-cases (contains p declared)) [
  | inl known ↦ (
    lookup-any_same p bs ∙ ap (any_same p) (sym e) ∙ any_same-keys p declared ∙ known,
    first_unknown-Bound ps declared bs e (rw known at h),
  )
  | inr unknown ↦ absurd (ground arith)
]

-- The partitions that a constraint names are bound.
abbrev pub Names : Bindings → DeclaredPlacementConstraint → Type 0
Names bs distinct_physical_devices = Unit {0}
Names bs (colocated ps) = Bound bs (keys ps)
Names bs (required_backend ps wanted) = Bound bs (keys ps)

constraint_unknown-Names :
    (c : DeclaredPlacementConstraint) (declared : Set LogicalPartitionId) (bs : Bindings)
    → keys declared ≡ keys bs
    → constraint_unknown_partition c declared ≡ none
    → Names bs c
unfolding constraint_unknown_partition
constraint_unknown-Names distinct_physical_devices declared bs e h = tt
constraint_unknown-Names (colocated ps) declared bs e h =
    first_unknown-Bound (keys ps) declared bs e h
constraint_unknown-Names (required_backend ps wanted) declared bs e h =
    first_unknown-Bound (keys ps) declared bs e h

any_unknown-Names :
    (cs : List DeclaredPlacementConstraint) (declared : Set LogicalPartitionId) (bs : Bindings)
    → keys declared ≡ keys bs
    → any_unknown cs declared ≡ none
    → All (Names bs) cs
unfolding any_unknown
any_unknown-Names [] declared bs e h = tt
any_unknown-Names (c ∷ cs) declared bs e h =
    elim (Option-cases (constraint_unknown_partition c declared)) [
      | inl known ↦ (
        constraint_unknown-Names c declared bs e known,
        any_unknown-Names cs declared bs e (ground arith),
      )
      | inr (p, unknown) ↦ absurd (ground arith)
    ]

gather-ne-none :
    (ps : List LogicalPartitionId) (bs : Bindings) (ds : Set PhysicalDeviceId)
    → Bound bs ps
    → is_some (gather ps bs ds) ≡ true
unfolding gather
gather-ne-none [] bs ds h = refl
gather-ne-none (p ∷ ps) bs ds h = elim (Option-cases (lookup p bs)) [
  | inl missing ↦ absurd (ground arith)
  | inr (b, found) ↦ rw (found, is_some, gather) (gather-ne-none ps bs (add b.device ds) h.1)
]

check_backends-ne-none :
    (ps : List LogicalPartitionId) (wanted : DeviceBackend) (bs : Bindings)
    → Bound bs ps
    → is_some (check_backends ps wanted bs) ≡ true
unfolding check_backends
check_backends-ne-none [] wanted bs h = refl
check_backends-ne-none (p ∷ ps) wanted bs h = elim (Option-cases (lookup p bs)) [
  | inl missing ↦ absurd (ground arith)
  | inr (b, found) ↦ elim (Bool-cases (same_backend (device_backend b.device) wanted)) [
    | inl right ↦
        rw (found, right, is_some, check_backends) (check_backends-ne-none ps wanted bs h.1)
    | inr wrong ↦ rw (found, wrong, is_some, check_backends) refl
  ]
]

check_constraint-ne-none :
    (c : DeclaredPlacementConstraint) (bs : Bindings)
    → Names bs c
    → is_some (check_constraint c bs) ≡ true
unfolding check_constraint
check_constraint-ne-none distinct_physical_devices bs h = refl
check_constraint-ne-none (colocated ps) bs h = ground (arith, gather-ne-none (keys ps) bs [] h)
check_constraint-ne-none (required_backend ps wanted) bs h =
    check_backends-ne-none (keys ps) wanted bs h

check_constraints-ne-none :
    (cs : List DeclaredPlacementConstraint) (bs : Bindings)
    → All (Names bs) cs
    → is_some (check_constraints cs bs) ≡ true
unfolding check_constraints
check_constraints-ne-none [] bs h = refl
check_constraints-ne-none (c ∷ cs) bs h =
    ground (arith, check_constraint-ne-none c bs h.0, check_constraints-ne-none cs bs h.1)

-- What an accepted plan is: the constraints name declared partitions only.
admit-known :
    (hash : Text) (ps : List LogicalPartitionId) (cs : List DeclaredPlacementConstraint)
    {plan : AdmittedLogicalPlan}
    → admit hash ps cs ≡ ok plan
    → any_unknown plan.declared_constraints plan.declared_partitions ≡ none
unfolding admit
admit-known hash ps cs h = elim (Option-cases (any_unknown cs (of_list ps))) [
  | inl known ↦ ground arith
  | inr (p, unknown) ↦ absurd (ground arith)
]

first_binding-ne-none : (bs : Bindings) → length (keys bs) ≡ 1 → is_some (first_binding bs) ≡ true
unfolding first_binding
first_binding-ne-none [] h = absurd (omega arith)
first_binding-ne-none (b ∷ bs) h = refl

length-keys : {V : Type 0} (m : Map LogicalPartitionId V) → length (keys m) ≡ length m
length-keys [] = refl
length-keys (e ∷ m) = ap suc (length-keys m)

kind_of-ne-none :
    (a : AdmittedLogicalPlan) (bs : Bindings)
    → keys a.declared_partitions ≡ keys bs
    → is_some (kind_of a bs) ≡ true
unfolding kind_of
kind_of-ne-none a bs e =
    let same_length = ap length e in
    ground (arith, first_binding-ne-none bs, length-keys a.declared_partitions, length-keys bs)

-- The shape that step 2 checks.
pub check_shape-keys :
    (r : BindRequest)
    → check_shape r ≡ ok tt
    → keys r.admitted.declared_partitions ≡ keys r.bindings
unfolding check_shape
check_shape-keys r h =
    let wanted = keys r.admitted.declared_partitions in
    elim (Bool-cases (same_keys wanted (keys r.bindings))) [
      | inl e ↦ same_keys→eq wanted (keys r.bindings) e
      | inr n ↦ absurd (ground arith)
    ]

-- What has passed before step 4.
pub early_checks-ok :
    (r : BindRequest)
    → early_checks r ≡ ok tt
    → (check_epoch r ≡ ok tt) × (check_shape r ≡ ok tt) × (check_bindings r.bindings ≡ ok tt)
unfolding early_checks
early_checks-ok r = in_turn (check_epoch r) (check_shape r) (check_bindings r.bindings)
  where
    in_turn :
        (x y z : Result (Unit {0}) BindError)
        → (x >>= λ u. y >>= λ v. z) ≡ ok tt
        → (x ≡ ok tt) × (y ≡ ok tt) × (z ≡ ok tt)
    in_turn (err e) y z h = absurd (cc)
    in_turn (ok u) (err e) z h = absurd (cc)
    in_turn (ok u) (ok v) z h = (refl, refl, h)

constrained-ne-none :
    (r : BindRequest)
    → keys r.admitted.declared_partitions ≡ keys r.bindings
    → (after : Option (Result (Unit {0}) BindError)) → is_some after ≡ true
    → is_some (constrained r after) ≡ true
constrained-ne-none r e none h = h
constrained-ne-none r e (some (err x)) h = refl
constrained-ne-none r e (some (ok u)) h =
    built_some (kind_of r.admitted r.bindings) (kind_of-ne-none r.admitted r.bindings e)
  where
    built_some : (k : Option BoundPlanKind) → is_some k ≡ true → is_some (built r k) ≡ true
    built_some none h = h
    built_some (some k) h = refl

-- Binding a plan that `admit` accepted ends in a bound plan or an error: the expects on the
-- bindings of a constraint's partitions, and on the only binding, never fail.
pub bind_total :
    (hash : Text) (ps : List LogicalPartitionId) (cs : List DeclaredPlacementConstraint)
    (r : BindRequest)
    → admit hash ps cs ≡ ok r.admitted
    → is_some (bind r) ≡ true
unfolding bind
bind_total hash ps cs r accepted = from_checks (early_checks r) refl
  where
    from_checks :
        (before : Result (Unit {0}) BindError)
        → before ≡ early_checks r
        → is_some (checked r before) ≡ true
    from_checks (err e) h = refl
    from_checks (ok u) h =
        let shaped = (early_checks-ok r (sym h)).1 in
        let e = check_shape-keys r shaped in
        let known = admit-known hash ps cs accepted in
        constrained-ne-none r e (check_constraints r.admitted.declared_constraints r.bindings) (
          check_constraints-ne-none r.admitted.declared_constraints r.bindings (
            any_unknown-Names r.admitted.declared_constraints r.admitted.declared_partitions
              r.bindings e known))
