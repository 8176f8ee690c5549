-- ===== src/Policy/Rank/Sorted.antt =====
-- The ranking of src/policy.rs: it lists every plan that it is given once, best first.
use mathlib.Core.List.{Perm}
use mathlib.Core.List.Perm
use faber_runtime.Base.{
  ◌≡◌, refl, ◌∙◌, ap, true, List, [], ◌∷◌, map, arith, All, All-map, if◌then◌else◌, Bool-cases, inl,
  inr,
}
use faber_runtime.Policy.{Objective, DeclaredConstraints, CandidatePlan}
use faber_runtime.Policy.Rank.{
  score, is_greater, insert_scored, sort_scored, number, rank_plans, cmp_scored,
}
use faber_runtime.Policy.Rank.Order.{cmp_plans, cmp_plans-reversed, NotAfter, NotAfter-trans}

module _ (c : DeclaredConstraints) (os : List Objective) where
  insert_plan : CandidatePlan → List CandidatePlan → List CandidatePlan
  insert_plan p [] = p ∷ []
  insert_plan p (q ∷ qs) =
      let later = q ∷ insert_plan p qs in
      if is_greater (cmp_plans c os p q) then later else p ∷ q ∷ qs

  sort_plans : List CandidatePlan → List CandidatePlan
  sort_plans [] = []
  sort_plans (p ∷ ps) = insert_plan p (sort_plans ps)

  insert_scored-map :
      (p : CandidatePlan) (l : List CandidatePlan)
      → insert_scored os (score os c p) (map (score os c) l) ≡ map (score os c) (insert_plan p l)
  unfolding insert_scored insert_plan cmp_plans
  insert_scored-map p [] = refl
  insert_scored-map p (q ∷ qs) =
      elim (Bool-cases (is_greater (cmp_scored os (score os c p) (score os c q)))) [
        | inl after ↦ rw after (ap (◌∷◌ (score os c q)) (insert_scored-map p qs))
        | inr before ↦ rw before refl
      ]

  sort_scored-map :
      (l : List CandidatePlan)
      → sort_scored os (map (score os c) l) ≡ map (score os c) (sort_plans l)
  unfolding sort_scored sort_plans
  sort_scored-map [] = refl
  sort_scored-map (p ∷ ps) =
      ap (insert_scored os (score os c p)) (sort_scored-map ps)
      ∙ insert_scored-map p (sort_plans ps)

  insert_plan-perm : (p : CandidatePlan) (l : List CandidatePlan) → Perm (insert_plan p l) (p ∷ l)
  unfolding insert_plan
  insert_plan-perm p [] = Perm.rfl
  insert_plan-perm p (q ∷ qs) = elim (Bool-cases (is_greater (cmp_plans c os p q))) [
    | inl after ↦ rw after (Perm.trans (Perm.cons q (insert_plan-perm p qs)) (Perm.swap p q qs))
    | inr before ↦ rw before Perm.rfl
  ]

  sort_plans-perm : (l : List CandidatePlan) → Perm (sort_plans l) l
  unfolding sort_plans
  sort_plans-perm [] = Perm.rfl
  sort_plans-perm (p ∷ ps) =
      Perm.trans (insert_plan-perm p (sort_plans ps)) (Perm.cons p (sort_plans-perm ps))

  -- No plan stands behind one that it is better than.
  abbrev pub IsRanked : List CandidatePlan → Type 0
  IsRanked [] = Unit {0}
  IsRanked (p ∷ ps) = All (NotAfter c os p) ps × IsRanked ps

  All-insert_plan :
      (P : CandidatePlan → Type 0) (p : CandidatePlan) (l : List CandidatePlan)
      → P p
      → All P l
      → All P (insert_plan p l)
  unfolding insert_plan
  All-insert_plan P p [] h a = (h, tt)
  All-insert_plan P p (q ∷ qs) h a = elim (Bool-cases (is_greater (cmp_plans c os p q))) [
    | inl after ↦ rw after (a.0, All-insert_plan P p qs h a.1)
    | inr before ↦ rw before (h, a)
  ]

  turned : (p q : CandidatePlan) → is_greater (cmp_plans c os p q) ≡ true → NotAfter c os q p
  turned p q h = ground (arith, cmp_plans-reversed c os p q)

  insert_plan-IsRanked :
      (p : CandidatePlan) (l : List CandidatePlan) → IsRanked l → IsRanked (insert_plan p l)
  unfolding insert_plan
  insert_plan-IsRanked p [] h = (tt, tt)
  insert_plan-IsRanked p (q ∷ qs) h = elim (Bool-cases (is_greater (cmp_plans c os p q))) [
    | inl after ↦ rw after (
      All-insert_plan (NotAfter c os q) p qs (turned p q after) h.0,
      insert_plan-IsRanked p qs h.1,
    )
    | inr before ↦ rw before (
      (
        before,
        All-map (NotAfter c os q) (NotAfter c os p) (λ r k. NotAfter-trans c os p q r before k) qs
            h.0,
      ),
      h,
    )
  ]

  sort_plans-IsRanked : (l : List CandidatePlan) → IsRanked (sort_plans l)
  unfolding sort_plans
  sort_plans-IsRanked [] = tt
  sort_plans-IsRanked (p ∷ ps) = insert_plan-IsRanked p (sort_plans ps) (sort_plans-IsRanked ps)

  -- The ranking numbers from 1 an order of the plans that it is given in which no plan stands behind
  -- one that it is better than.
  pub rank_plans_lem :
      (l : List CandidatePlan)
      → (ordered : List CandidatePlan) × Perm ordered l
        × IsRanked ordered
        × (rank_plans l os c ≡ number os 0 (map (score os c) ordered))
  unfolding rank_plans
  rank_plans_lem l =
      (sort_plans l, sort_plans-perm l, sort_plans-IsRanked l, ap (number os 0) (sort_scored-map l))
