-- ===== src/Policy/Rank/Order.antt =====
-- The ranking order of src/policy.rs on plans: by the objectives in turn, then by the devices. It
-- is a total preorder.
use Prim.Native.Nat.Ordering.{lt, eq, gt}
use mathlib.Core.Path.{ap₂}
use faber_runtime.Base.{ℕ, ◌≡◌, refl, sym, ap, false, List, [], ◌∷◌, Ordering, compare-eq}
use faber_runtime.Base.Key.{then_with}
use faber_runtime.Base.Map.{keys}
use faber_runtime.Base.Order.{
  reversed, reversed-then_with, then_with_trans, compare-reversed, compare_trans,
}
use faber_runtime.Device.{PhysicalDeviceId, cmp_device, eq_of_cmp_device}
use faber_runtime.Device.Order.{cmp_device-reversed, cmp_device_trans}
use faber_runtime.Policy.{
  Objective, ObjectiveDirection, minimize, maximize, direction, DeclaredConstraints, CandidatePlan,
}
use faber_runtime.Policy.Rank.{
  values_of, devices_of, score, cmp_value, cmp_values, cmp_devices, cmp_scored, is_greater,
  objective_value,
}

cmp_value-reversed :
    (d : ObjectiveDirection) (a b : ℕ) → cmp_value d b a ≡ reversed (cmp_value d a b)
cmp_value-reversed minimize a b = compare-reversed a b
cmp_value-reversed maximize a b = compare-reversed b a

cmp_value_trans :
    (d : ObjectiveDirection) (a b c : ℕ)
    → cmp_value d a b ≡ lt
    → cmp_value d b c ≡ lt
    → cmp_value d a c ≡ lt
cmp_value_trans minimize a b c h k = compare_trans a b c h k
cmp_value_trans maximize a b c h k = compare_trans c b a k h

eq_of_cmp_value : (d : ObjectiveDirection) (a b : ℕ) → cmp_value d a b ≡ eq → a ≡ b
eq_of_cmp_value minimize a b h = (compare-eq a b).0 h
eq_of_cmp_value maximize a b h = sym ((compare-eq b a).0 h)

cmp_devices-reversed : (a b : List PhysicalDeviceId) → cmp_devices b a ≡ reversed (cmp_devices a b)
unfolding cmp_devices
cmp_devices-reversed [] [] = refl
cmp_devices-reversed [] (y ∷ ys) = refl
cmp_devices-reversed (x ∷ xs) [] = refl
cmp_devices-reversed (x ∷ xs) (y ∷ ys) =
    reversed-then_with (cmp_device x y) (cmp_devices xs ys) _ _ (cmp_device-reversed x y)
      (cmp_devices-reversed xs ys)

cmp_devices_trans :
    (a b c : List PhysicalDeviceId)
    → cmp_devices a b ≡ lt
    → cmp_devices b c ≡ lt
    → cmp_devices a c ≡ lt
unfolding cmp_devices
cmp_devices_trans [] [] c h k = k
cmp_devices_trans [] (y ∷ ys) [] h k = cc
cmp_devices_trans [] (y ∷ ys) (z ∷ zs) h k = refl
cmp_devices_trans (x ∷ xs) [] c h k = cc
cmp_devices_trans (x ∷ xs) (y ∷ ys) [] h k = cc
cmp_devices_trans (x ∷ xs) (y ∷ ys) (z ∷ zs) h k =
    then_with_trans (cmp_device x y) (cmp_device y z) (cmp_device x z) (cmp_devices xs ys)
      (cmp_devices ys zs) (cmp_devices xs zs)
      (λ e. ap (λ d. cmp_device d z) (eq_of_cmp_device x y e))
      (λ e. sym (ap (cmp_device x) (eq_of_cmp_device y z e))) (cmp_device_trans x y z)
      (λ e f. cmp_devices_trans xs ys zs) h k

then_with-eq : (x y : Ordering) → then_with x y ≡ eq → (x ≡ eq) × (y ≡ eq)
then_with-eq lt y h = cc
then_with-eq eq y h = (refl, h)
then_with-eq gt y h = cc

eq_of_cmp_devices : (a b : List PhysicalDeviceId) → cmp_devices a b ≡ eq → a ≡ b
unfolding cmp_devices
eq_of_cmp_devices [] [] h = refl
eq_of_cmp_devices [] (y ∷ ys) h = cc
eq_of_cmp_devices (x ∷ xs) [] h = cc
eq_of_cmp_devices (x ∷ xs) (y ∷ ys) h =
    let (first, others) = then_with-eq (cmp_device x y) (cmp_devices xs ys) h in
    cc (eq_of_cmp_device x y first, eq_of_cmp_devices xs ys others)

module _ (c : DeclaredConstraints) where
  -- The comparison of two plans by the objectives alone.
  by_values : List Objective → CandidatePlan → CandidatePlan → Ordering
  by_values os p q = cmp_values os (values_of p os c) (values_of q os c)

  by_values-reversed :
      (os : List Objective) (p q : CandidatePlan) → by_values os q p ≡ reversed (by_values os p q)
  unfolding by_values cmp_values values_of
  by_values-reversed [] p q = refl
  by_values-reversed (o ∷ os) p q =
      reversed-then_with (cmp_value (direction o) (objective_value p o c) (objective_value q o c))
        (by_values os p q) _ _
        (cmp_value-reversed (direction o) (objective_value p o c) (objective_value q o c))
        (by_values-reversed os p q)

  values-eq_of_by_values :
      (os : List Objective) (p q : CandidatePlan)
      → by_values os p q ≡ eq
      → values_of p os c ≡ values_of q os c
  unfolding by_values cmp_values values_of
  values-eq_of_by_values [] p q h = refl
  values-eq_of_by_values (o ∷ os) p q h =
      let a = objective_value p o c in
      let b = objective_value q o c in
      let (first, others) = then_with-eq (cmp_value (direction o) a b) (by_values os p q) h in
      cc (eq_of_cmp_value (direction o) a b first, values-eq_of_by_values os p q others)

  by_values_trans :
      (os : List Objective) (p q r : CandidatePlan)
      → by_values os p q ≡ lt
      → by_values os q r ≡ lt
      → by_values os p r ≡ lt
  unfolding by_values cmp_values values_of
  by_values_trans [] p q r h k = h
  by_values_trans (o ∷ os) p q r h k =
      let d = direction o in
      let x = objective_value p o c in
      let y = objective_value q o c in
      let z = objective_value r o c in
      then_with_trans (cmp_value d x y) (cmp_value d y z) (cmp_value d x z) (by_values os p q)
        (by_values os q r) (by_values os p r)
        (λ e. ap (λ (n : ℕ). cmp_value d n z) (eq_of_cmp_value d x y e))
        (λ e. sym (ap (cmp_value d x) (eq_of_cmp_value d y z e))) (cmp_value_trans d x y z)
        (λ e f. by_values_trans os p q r) h k

  -- The comparison of two plans that the ranking sorts by.
  unfoldable pub cmp_plans : List Objective → CandidatePlan → CandidatePlan → Ordering
  unfolding score
  cmp_plans os p q = cmp_scored os (score os c p) (score os c q)

  devices_list : CandidatePlan → List PhysicalDeviceId
  devices_list p = keys (devices_of p)

  pub cmp_plans-reversed :
      (os : List Objective) (p q : CandidatePlan) → cmp_plans os q p ≡ reversed (cmp_plans os p q)
  unfolding cmp_plans cmp_scored by_values devices_list
  cmp_plans-reversed os p q =
      reversed-then_with (by_values os p q) (cmp_devices (devices_list p) (devices_list q)) _ _
        (by_values-reversed os p q) (cmp_devices-reversed (devices_list p) (devices_list q))

  cmp_plans_trans :
      (os : List Objective) (p q r : CandidatePlan)
      → cmp_plans os p q ≡ lt
      → cmp_plans os q r ≡ lt
      → cmp_plans os p r ≡ lt
  unfolding cmp_plans cmp_scored by_values devices_list
  cmp_plans_trans os p q r h k =
      let values = values_of r os c in
      then_with_trans (by_values os p q) (by_values os q r) (by_values os p r)
        (cmp_devices (devices_list p) (devices_list q))
        (cmp_devices (devices_list q) (devices_list r))
        (cmp_devices (devices_list p) (devices_list r))
        (λ e. ap (λ (v : List ℕ). cmp_values os v values) (values-eq_of_by_values os p q e))
        (λ e. sym (ap (cmp_values os (values_of p os c)) (values-eq_of_by_values os q r e)))
        (by_values_trans os p q r)
        (λ e f. cmp_devices_trans (devices_list p) (devices_list q) (devices_list r)) h k

  -- Plans that compare as equal compare alike with any other.
  cmp_plans-eq :
      (os : List Objective) (p q : CandidatePlan)
      → cmp_plans os p q ≡ eq
      → (values_of p os c ≡ values_of q os c) × (devices_list p ≡ devices_list q)
  unfolding cmp_plans cmp_scored by_values devices_list
  cmp_plans-eq os p q h =
      let (same_values, same_devices) =
        then_with-eq (by_values os p q) (cmp_devices (devices_list p) (devices_list q)) h in
      (
        values-eq_of_by_values os p q same_values,
        eq_of_cmp_devices (devices_list p) (devices_list q) same_devices,
      )

  cmp_plans_left :
      (os : List Objective) (p q r : CandidatePlan)
      → cmp_plans os p q ≡ eq
      → cmp_plans os p r ≡ cmp_plans os q r
  unfolding cmp_plans cmp_scored devices_list
  cmp_plans_left os p q r h =
      let (v, d) = cmp_plans-eq os p q h in
      ap₂
        (λ (vs : List ℕ) (ds : List PhysicalDeviceId).
          then_with (cmp_values os vs (values_of r os c)) (cmp_devices ds (keys (devices_of r))))
        v d

  cmp_plans_right :
      (os : List Objective) (p q r : CandidatePlan)
      → cmp_plans os q r ≡ eq
      → cmp_plans os p r ≡ cmp_plans os p q
  unfolding cmp_plans cmp_scored devices_list
  cmp_plans_right os p q r h =
      let (v, d) = cmp_plans-eq os q r h in
      ap₂
        (λ (vs : List ℕ) (ds : List PhysicalDeviceId).
          then_with (cmp_values os (values_of p os c) vs) (cmp_devices (keys (devices_of p)) ds))
        (sym v) (sym d)

  -- The first plan is at least as good as the second.
  abbrev pub NotAfter : List Objective → CandidatePlan → CandidatePlan → Type 0
  NotAfter os p q = is_greater (cmp_plans os p q) ≡ false

  pub NotAfter-trans :
      (os : List Objective) (p q r : CandidatePlan)
      → NotAfter os p q
      → NotAfter os q r
      → NotAfter os p r
  NotAfter-trans os p q r =
      by_cases (cmp_plans os p q) (cmp_plans os q r) (cmp_plans os p r) (cmp_plans_left os p q r)
        (cmp_plans_right os p q r) (cmp_plans_trans os p q r)
    where
      by_cases :
          (x y z : Ordering)
          → (x ≡ eq → z ≡ y)
          → (y ≡ eq → z ≡ x)
          → (x ≡ lt → y ≡ lt → z ≡ lt)
          → is_greater x ≡ false
          → is_greater y ≡ false
          → is_greater z ≡ false
      by_cases lt lt z f g k h i = rw (k refl refl) refl
      by_cases lt eq z f g k h i = rw (g refl) refl
      by_cases lt gt z f g k h i = cc
      by_cases eq y z f g k h i = rw (f refl) i
      by_cases gt y z f g k h i = cc
