-- ===== src/BoundPlan/Bind/Sound.antt =====
-- `bind` of src/bound_plan.rs: what holds of a plan that it binds.
use faber_runtime.Base.{
  ◌≤◌, ◌≡◌, refl, ◌∙◌, sym, ap, subst, Bool, true, false, ◌||◌, Option, none, some, List, [], ◌∷◌,
  arith, All, length, Bool-cases, Option-cases, inl, inr,
}
use faber_runtime.Base.Key.{text_key, same, same→eq, same_refl}
use faber_runtime.Base.Result.{ok}
use faber_runtime.Base.Map.{
  Set, keys, lookup, contains, of_list, any_same, contains-add, any_same-head_or_tail, add,
  two_in_one,
}
use faber_runtime.Device.{
  device_key, DeviceBackend, metal_backend, cuda_backend, PhysicalDeviceId,
  backend as device_backend,
}
use faber_runtime.DeviceSet.{same_backend}
use faber_runtime.Partition.{VirtualDevicePartition, is_active}
use faber_runtime.BoundPlan.{LogicalPartitionId, PartitionBinding}
use faber_runtime.BoundPlan.Admit.{
  DeclaredPlacementConstraint, distinct_physical_devices, colocated, required_backend,
}
use faber_runtime.BoundPlan.Bind.{
  Bindings, bound_devices, gather, at_most_one, check_distinct, check_backends, check_constraint,
  check_constraints, check_binding, check_bindings,
}

-- A constraint holds of the bindings: as many devices as bindings, one device for all partitions
-- that share, or the declared backend for each partition.
abbrev pub Holds : Bindings → DeclaredPlacementConstraint → Type 0
Holds bs distinct_physical_devices = length (of_list (bound_devices bs)) ≡ length bs
Holds bs (colocated ps) =
    (p q : LogicalPartitionId) (b d : PartitionBinding)
    → any_same p (keys ps) ≡ true
    → any_same q (keys ps) ≡ true
    → lookup p bs ≡ some b
    → lookup q bs ≡ some d
    → b.device ≡ d.device
Holds bs (required_backend ps wanted) =
    (p : LogicalPartitionId) (b : PartitionBinding)
    → any_same p (keys ps) ≡ true
    → lookup p bs ≡ some b
    → device_backend b.device ≡ wanted

some_inj {ℓ} : {A : Type ℓ} {a b : A} → some a ≡ some b → a ≡ b
some_inj h = cc

or_right : (a b : Bool) → b ≡ true → (a || b) ≡ true
or_right true b h = refl
or_right false b h = h

or_left : (a b : Bool) → a ≡ true → (a || b) ≡ true
or_left true b h = refl
or_left false b h = absurd (cc)

gather-keeps :
    (ps : List LogicalPartitionId) (bs : Bindings) (ds r : Set PhysicalDeviceId)
    → gather ps bs ds ≡ some r
    → (x : PhysicalDeviceId) → contains x ds ≡ true
    → contains x r ≡ true
unfolding gather
gather-keeps [] bs ds r h x k =
    subst (λ (s : Set PhysicalDeviceId). contains x s ≡ true) (some_inj h) k
gather-keeps (p ∷ ps) bs ds r h x k = elim (Option-cases (lookup p bs)) [
  | inl missing ↦ absurd (ground arith)
  | inr (b, found) ↦
      gather-keeps ps bs (add b.device ds) r (ground arith) x
        (contains-add b.device x ds ∙ or_right (same b.device x) (contains x ds) k)
]

gather-collects :
    (ps : List LogicalPartitionId) (bs : Bindings) (ds r : Set PhysicalDeviceId)
    → gather ps bs ds ≡ some r
    → (p : LogicalPartitionId) (b : PartitionBinding) → any_same p ps ≡ true
    → lookup p bs ≡ some b
    → contains b.device r ≡ true
unfolding gather any_same
gather-collects [] bs ds r h p b k e = cc
gather-collects (q ∷ qs) bs ds r h p b k e = elim (Option-cases (lookup q bs)) [
  | inl missing ↦ absurd (ground arith)
  | inr (d, found) ↦
      let rest : gather qs bs (add d.device ds) ≡ some r = ground arith in
      elim (any_same-head_or_tail p q qs k) [
        | inl here ↦
            let same_binding : d ≡ b =
              some_inj
                (sym found ∙ ap (λ (z : LogicalPartitionId). lookup z bs) (same→eq q p here) ∙ e) in
            let added =
              contains-add d.device d.device ds
              ∙ or_left (same d.device d.device) (contains d.device ds) (same_refl d.device) in
            subst (λ (z : PartitionBinding). contains z.device r ≡ true) same_binding
              (gather-keeps qs bs (add d.device ds) r rest d.device added)
        | inr later ↦ gather-collects qs bs (add d.device ds) r rest p b later e
      ]
]

colocated-Holds :
    (ps : Set LogicalPartitionId) (bs : Bindings)
    → check_constraint (colocated ps) bs ≡ some (ok tt)
    → Holds bs (colocated ps)
unfolding check_constraint
colocated-Holds ps bs h p q b d in_p in_q at_p at_q = elim (Option-cases (gather (keys ps) bs [])) [
  | inl missing ↦ absurd (ground arith)
  | inr (ds, found) ↦
      two_in_one ds b.device d.device (few ds (ground arith))
        (gather-collects (keys ps) bs [] ds found p b in_p at_p)
        (gather-collects (keys ps) bs [] ds found q d in_q at_q)
]
  where
    few : (ds : Set PhysicalDeviceId) → at_most_one ds ≡ ok tt → length ds ≤ 1
    few ds h = unfold at_most_one in ground arith

same_backend→eq : (a b : DeviceBackend) → same_backend a b ≡ true → a ≡ b
same_backend→eq metal_backend metal_backend h = refl
same_backend→eq metal_backend cuda_backend h = cc
same_backend→eq cuda_backend metal_backend h = cc
same_backend→eq cuda_backend cuda_backend h = refl

backends-Holds :
    (ps : List LogicalPartitionId) (wanted : DeviceBackend) (bs : Bindings)
    → check_backends ps wanted bs ≡ some (ok tt)
    → (p : LogicalPartitionId) (b : PartitionBinding) → any_same p ps ≡ true
    → lookup p bs ≡ some b
    → device_backend b.device ≡ wanted
unfolding check_backends any_same
backends-Holds [] wanted bs h p b k e = absurd (cc)
backends-Holds (q ∷ qs) wanted bs h p b k e = elim (Option-cases (lookup q bs)) [
  | inl missing ↦ absurd (ground arith)
  | inr (d, found) ↦ elim (Bool-cases (same_backend (device_backend d.device) wanted)) [
    | inr wrong ↦ absurd (ground arith)
    | inl right ↦ elim (any_same-head_or_tail p q qs k) [
      | inl here ↦
          let same_binding : d ≡ b =
            some_inj
              (sym found ∙ ap (λ (z : LogicalPartitionId). lookup z bs) (same→eq q p here) ∙ e) in
          subst (λ (z : PartitionBinding). device_backend z.device ≡ wanted) same_binding
            (same_backend→eq (device_backend d.device) wanted right)
      | inr later ↦ backends-Holds qs wanted bs (ground arith) p b later e
    ]
  ]
]

distinct-Holds :
    (bs : Bindings)
    → check_constraint distinct_physical_devices bs ≡ some (ok tt)
    → Holds bs distinct_physical_devices
unfolding check_constraint check_distinct
distinct-Holds bs h = ground arith

constraint-Holds :
    (c : DeclaredPlacementConstraint) (bs : Bindings)
    → check_constraint c bs ≡ some (ok tt)
    → Holds bs c
unfolding check_constraint
constraint-Holds distinct_physical_devices bs h = distinct-Holds bs h
constraint-Holds (colocated ps) bs h = colocated-Holds ps bs h
constraint-Holds (required_backend ps wanted) bs h = backends-Holds (keys ps) wanted bs h

pub constraints-Holds :
    (cs : List DeclaredPlacementConstraint) (bs : Bindings)
    → check_constraints cs bs ≡ some (ok tt)
    → All (Holds bs) cs
unfolding check_constraints
constraints-Holds [] bs h = tt
constraints-Holds (c ∷ cs) bs h =
    (constraint-Holds c bs (ground arith), constraints-Holds cs bs (ground arith))

-- An attached partition binds the device of its binding, and is active.
abbrev pub Attached : PhysicalDeviceId → Option VirtualDevicePartition → Type 0
Attached device none = Unit {0}
Attached device (some v) = (v.bound_device ≡ device) × (is_active v ≡ true)

check_binding-Attached :
    (p : LogicalPartitionId) (device : PhysicalDeviceId) (v : Option VirtualDevicePartition)
    → check_binding p device v ≡ ok tt
    → Attached device v
unfolding check_binding
check_binding-Attached p device none h = tt
check_binding-Attached p device (some v) h = elim (Bool-cases (same v.bound_device device)) [
  | inr other ↦ absurd (ground arith)
  | inl here ↦ (same→eq v.bound_device device here, ground arith)
]

abbrev pub IsAttached : LogicalPartitionId × PartitionBinding → Type 0
IsAttached e = Attached e.1.device e.1.virtual_partition

pub bindings-IsAttached : (bs : Bindings) → check_bindings bs ≡ ok tt → All IsAttached bs
unfolding check_bindings
bindings-IsAttached [] h = tt
bindings-IsAttached ((p, b) ∷ bs) h = (
  check_binding-Attached p b.device b.virtual_partition (ground arith),
  bindings-IsAttached bs (ground arith),
)
