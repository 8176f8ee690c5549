-- ===== src/Transaction/Boundary/Missing.antt =====
-- Which references `missing_boundary_refs` of src/execution_transaction/transaction.rs reports.
use faber_runtime.Base.{
  ◌≡◌, refl, sym, ap, ◌∙◌, ◌↔◌, inl, inr, Bool, true, false, not, ◌&&◌, ◌||◌, Option, none, some,
  List, [], ◌∷◌, All, Bool-cases, both_true, arith,
}
use faber_runtime.Base.Key.{same, same→eq, text_key}
use faber_runtime.Base.Map.{Set, lookup, keys, contains, add, any_same, any_same-keys, contains-add}
use faber_runtime.BoundPlan.{LogicalPartitionId}
use faber_runtime.Transaction.Mirror.{
  TransactionOperation, BarrierRef, LaunchRef, BoundaryRef, barrier_bound, launch_bound,
  TransactionCommitBoundary, OperationEvent, launch_completed, barrier_completed,
}
use faber_runtime.Transaction.Operation.{boundary_ref_key, event_key}
use faber_runtime.Transaction.Boundary.{
  barrier_partitions, launch_partitions, mark, mark_barriers, mark_launches, missing_boundary_refs,
}
use faber_runtime.Transaction.Boundary.Reached.{Completed}

module _ (completed : Set OperationEvent) (event : LogicalPartitionId → OperationEvent) where
  abbrev lacks : List LogicalPartitionId → Bool
  lacks [] = false
  lacks (p ∷ ps) = not (contains (event p) completed) || lacks ps

  abbrev waits : Option (Set LogicalPartitionId) → Bool
  waits none = true
  waits (some ps) = lacks (keys ps)

  lacks-All :
      (ps : List LogicalPartitionId)
      → lacks ps ≡ false
      → All (λ p. contains (event p) completed ≡ true) ps
  lacks-All [] h = tt
  lacks-All (p ∷ ps) h = (ground arith, lacks-All ps (ground arith))

  All-lacks :
      (ps : List LogicalPartitionId)
      → All (λ p. contains (event p) completed ≡ true) ps
      → lacks ps ≡ false
  All-lacks [] h = refl
  All-lacks (p ∷ ps) h = rw h.0 (All-lacks ps h.1)

  waits_lem :
      (o : Option (Set LogicalPartitionId)) → (waits o ≡ true) ↔ (¬ Completed completed event o)
  waits_lem none = (λ h c. c, λ h. refl)
  waits_lem (some ps) = (
    λ h c. clash h (All-lacks (keys ps) c),
    λ h. elim (Bool-cases (lacks (keys ps))) [
      | inl e ↦ e
      | inr e ↦ absurd (h (lacks-All (keys ps) e))
    ],
  )
    where
      clash : {b : Bool} → b ≡ true → b ≡ false → ⊥
      clash p q = ground arith

  contains-mark :
      (x ref : BoundaryRef) (ps : List LogicalPartitionId) (missing : Set BoundaryRef)
      → contains x (mark completed event ref ps missing)
        ≡ (same ref x && lacks ps || contains x missing)
  unfolding mark
  contains-mark x ref [] missing = ground arith
  contains-mark x ref (p ∷ ps) missing = elim (Bool-cases (contains (event p) completed)) [
    | inl e ↦ rw (e, mark) (contains-mark x ref ps missing)
    | inr e ↦
        rw (e, mark)
          (contains-mark x ref ps (add ref missing)
            ∙ ap (λ b. same ref x && lacks ps || b) (contains-add ref x missing)
            ∙ absorb (same ref x) (lacks ps) (contains x missing))
  ]
    where
      absorb : (a l c : Bool) → (a && l || (a || c)) ≡ (a && true || c)
      absorb a l c = ground arith

  contains-mark_found :
      (x ref : BoundaryRef) (found : Option (Set LogicalPartitionId)) (missing : Set BoundaryRef)
      → contains x (elim found as (λ o. Set BoundaryRef) [
        | none ↦ add ref missing
        | some ps ↦ mark completed event ref (keys ps) missing
      ])
        ≡ (same ref x && waits found || contains x missing)
  contains-mark_found x ref none missing =
      contains-add ref x missing ∙ true_right (same ref x) (contains x missing)
    where
      true_right : (a c : Bool) → (a || c) ≡ (a && true || c)
      true_right a c = ground arith
  contains-mark_found x ref (some ps) missing = contains-mark x ref (keys ps) missing

-- A reference is hit by some name of the list that still waits.
module _ {A : Type 0} (ref : A → BoundaryRef) (late : A → Bool) (x : BoundaryRef) where
  abbrev hit : List A → Bool
  hit [] = false
  hit (a ∷ rest) = same (ref a) x && late a || hit rest

or_false : (a : Bool) → (a || false) ≡ a
or_false a = ground arith

or_assoc : (a b c : Bool) → (a || (b || c)) ≡ (b || a || c)
or_assoc a b c = ground arith

module _ (ops : List TransactionOperation) (completed : Set OperationEvent) where
  barrier_waits : BarrierRef → Bool
  barrier_waits b = waits completed (λ p. barrier_completed p b) (barrier_partitions b ops)

  launch_waits : LaunchRef → Bool
  launch_waits l = waits completed (λ p. launch_completed p l) (launch_partitions l ops)

  contains-mark_barriers :
      (x : BoundaryRef) (bs : List BarrierRef) (missing : Set BoundaryRef)
      → contains x (mark_barriers ops completed bs missing)
        ≡ (hit barrier_bound barrier_waits x bs || contains x missing)
  unfolding mark_barriers barrier_waits
  contains-mark_barriers x [] missing = refl
  contains-mark_barriers x (b ∷ bs) missing =
      contains-mark_barriers x bs _
      ∙ ap (λ c. hit barrier_bound barrier_waits x bs || c)
          (contains-mark_found completed (λ p. barrier_completed p b) x (barrier_bound b)
            (barrier_partitions b ops) missing)
      ∙ or_assoc (hit barrier_bound barrier_waits x bs)
          (same (barrier_bound b) x && barrier_waits b) (contains x missing)

  contains-mark_launches :
      (x : BoundaryRef) (ls : List LaunchRef) (missing : Set BoundaryRef)
      → contains x (mark_launches ops completed ls missing)
        ≡ (hit launch_bound launch_waits x ls || contains x missing)
  unfolding mark_launches launch_waits
  contains-mark_launches x [] missing = refl
  contains-mark_launches x (l ∷ ls) missing =
      contains-mark_launches x ls _
      ∙ ap (λ c. hit launch_bound launch_waits x ls || c)
          (contains-mark_found completed (λ p. launch_completed p l) x (launch_bound l)
            (launch_partitions l ops) missing)
      ∙ or_assoc (hit launch_bound launch_waits x ls) (same (launch_bound l) x && launch_waits l)
          (contains x missing)

-- The two kinds of reference are apart, and each keeps its name.
same_name :
    (late : BarrierRef → Bool) (b c : BarrierRef) (r : Bool)
    → (same b c && late b || (r && late c)) ≡ ((same b c || r) && late c)
same_name late b c r = elim (Bool-cases (same b c)) [
  | inl e ↦ rw (e, ap late (same→eq b c e)) (or_both (late c) r)
  | inr e ↦ rw e refl
]
  where
    or_both : (a r : Bool) → (a || (r && a)) ≡ a
    or_both a r = ground arith

hit_barrier :
    (late : BarrierRef → Bool) (c : BarrierRef) (bs : List BarrierRef)
    → hit barrier_bound late (barrier_bound c) bs ≡ (any_same c bs && late c)
unfolding any_same
hit_barrier late c [] = refl
hit_barrier late c (b ∷ bs) =
    ap (λ r. same b c && late b || r) (hit_barrier late c bs) ∙ same_name late b c (any_same c bs)

hit_launch :
    (late : LaunchRef → Bool) (c : LaunchRef) (ls : List LaunchRef)
    → hit launch_bound late (launch_bound c) ls ≡ (any_same c ls && late c)
unfolding any_same
hit_launch late c [] = refl
hit_launch late c (l ∷ ls) =
    ap (λ r. same l c && late l || r) (hit_launch late c ls) ∙ same_name late l c (any_same c ls)

no_launch_hit :
    (late : LaunchRef → Bool) (c : BarrierRef) (ls : List LaunchRef)
    → hit launch_bound late (barrier_bound c) ls ≡ false
no_launch_hit late c [] = refl
no_launch_hit late c (l ∷ ls) = no_launch_hit late c ls

no_barrier_hit :
    (late : BarrierRef → Bool) (c : LaunchRef) (bs : List BarrierRef)
    → hit barrier_bound late (launch_bound c) bs ≡ false
no_barrier_hit late c [] = refl
no_barrier_hit late c (b ∷ bs) = no_barrier_hit late c bs

-- A barrier or launch of the boundary that is not in the plan, or has not completed in every
-- partition that takes part in it.
abbrev pub IsMissing :
    List TransactionOperation
    → TransactionCommitBoundary
    → Set OperationEvent
    → BoundaryRef
    → Type 0
IsMissing ops boundary completed (barrier_bound b) =
    (contains b boundary.barriers ≡ true)
    × ¬ Completed completed (λ p. barrier_completed p b) (barrier_partitions b ops)
IsMissing ops boundary completed (launch_bound l) =
    (contains l boundary.launches ≡ true)
    × ¬ Completed completed (λ p. launch_completed p l) (launch_partitions l ops)

both_iff : {P : Type 0} (a b : Bool) → (b ≡ true) ↔ P → ((a && b) ≡ true) ↔ ((a ≡ true) × P)
both_iff a b e =
    (λ h. let (first, second) = both_true a b h in (first, e.0 second), λ h. rw h.0 (e.1 h.1))

module _ (ops : List TransactionOperation) (boundary : TransactionCommitBoundary)
    (completed : Set OperationEvent) where
  contains-missing :
      (x : BoundaryRef)
      → contains x (missing_boundary_refs ops boundary completed) ≡ (
          hit launch_bound (launch_waits ops completed) x (keys boundary.launches)
          || (hit barrier_bound (barrier_waits ops completed) x (keys boundary.barriers) || false))
  unfolding missing_boundary_refs lookup
  contains-missing x =
      contains-mark_launches ops completed x (keys boundary.launches) _
      ∙ ap (λ c. hit launch_bound (launch_waits ops completed) x (keys boundary.launches) || c)
          (contains-mark_barriers ops completed x (keys boundary.barriers) [])

  in_missing :
      (x : BoundaryRef) (a b : Bool)
      → contains x (missing_boundary_refs ops boundary completed) ≡ (a && b)
      → {P : Type 0} → ((a && b) ≡ true) ↔ P
      → (contains x (missing_boundary_refs ops boundary completed) ≡ true) ↔ P
  in_missing x a b e i = (λ h. i.0 (sym e ∙ h), λ h. e ∙ i.1 h)

  pub missing_boundary_refs-IsMissing :
      (x : BoundaryRef)
      → (contains x (missing_boundary_refs ops boundary completed) ≡ true)
        ↔ IsMissing ops boundary completed x
  unfolding barrier_waits launch_waits
  missing_boundary_refs-IsMissing (barrier_bound b) =
      in_missing (barrier_bound b) (contains b boundary.barriers) (barrier_waits ops completed b)
        (contains-missing (barrier_bound b)
          ∙ rw
              (
                no_launch_hit (launch_waits ops completed) b (keys boundary.launches),
                hit_barrier (barrier_waits ops completed) b (keys boundary.barriers),
                any_same-keys b boundary.barriers,
              )
              (or_false (contains b boundary.barriers && barrier_waits ops completed b)))
        (both_iff (contains b boundary.barriers) (barrier_waits ops completed b)
          (waits_lem completed (λ p. barrier_completed p b) (barrier_partitions b ops)))
  missing_boundary_refs-IsMissing (launch_bound l) =
      in_missing (launch_bound l) (contains l boundary.launches) (launch_waits ops completed l)
        (contains-missing (launch_bound l)
          ∙ rw
              (
                no_barrier_hit (barrier_waits ops completed) l (keys boundary.barriers),
                hit_launch (launch_waits ops completed) l (keys boundary.launches),
                any_same-keys l boundary.launches,
              )
              (or_false (contains l boundary.launches && launch_waits ops completed l)))
        (both_iff (contains l boundary.launches) (launch_waits ops completed l)
          (waits_lem completed (λ p. launch_completed p l) (launch_partitions l ops)))
