-- ===== src/Intervallum/Search.antt =====
-- src/intervallum.rs: what the bounded searches of the intersection find.
use faber_runtime.Base.{
  ℕ, zero, suc, ◌+◌, ◌-◌, ◌≤◌, ◌<◌, ◌≡◌, ◌⊎◌, inl, inr, ap, ◌∙◌, Bool, true, false, ◌==◌, Option,
  none, some, leb, Bool-cases, arith,
}
use faber_runtime.Intervallum.{IntervallumNumeric, next_up}
use faber_runtime.Intervallum.Sets.{first_up, first_down}

-- What a search upwards from `v` to `bound` has found.
abbrev pub FoundUp : (ℕ → Bool) → ℕ → ℕ → Option (Option ℕ) → Type 0
FoundUp test bound v none = ⊥
FoundUp test bound v (some none) = (x : ℕ) → v ≤ x → x ≤ bound → test x ≡ false
FoundUp test bound v (some (some c)) =
    (test c ≡ true) × (v ≤ c) × ((x : ℕ) → v ≤ x → x < c → test x ≡ false)

abbrev pub FoundDown : (ℕ → Bool) → ℕ → ℕ → Option (Option ℕ) → Type 0
FoundDown test bound v none = ⊥
FoundDown test bound v (some none) = (x : ℕ) → bound ≤ x → x ≤ v → test x ≡ false
FoundDown test bound v (some (some c)) =
    (test c ≡ true) × (c ≤ v) × ((x : ℕ) → c < x → x ≤ v → test x ≡ false)

module _ (test : ℕ → Bool) (bound v : ℕ) (here : test v ≡ false) where
  same_or_later : (x : ℕ) → v ≤ x → (x ≡ v) ⊎ (v + 1 ≤ x)
  same_or_later x h = elim (Bool-cases (x == v)) [
    | inl e ↦ inl (ground arith)
    | inr n ↦ inr (ground arith)
  ]

  FoundUp-step :
      (o : Option (Option ℕ)) → v < bound → FoundUp test bound (v + 1) o → FoundUp test bound v o
  FoundUp-step none h f = f
  FoundUp-step (some none) h f =
      λ x p q. elim (same_or_later x p) [ inl e ↦ ap test e ∙ here | inr l ↦ f x l q ]
  FoundUp-step (some (some c)) h f = (
    f.0,
    omega (arith, f.1),
    λ x p q. elim (same_or_later x p) [ inl e ↦ ap test e ∙ here | inr l ↦ f.2 x l q ],
  )

  same_or_before : (x : ℕ) → x ≤ v → (x ≡ v) ⊎ (x + 1 ≤ v)
  same_or_before x h = elim (Bool-cases (x == v)) [
    | inl e ↦ inl (ground arith)
    | inr n ↦ inr (ground arith)
  ]

  FoundDown-step :
      (o : Option (Option ℕ))
      → bound < v
      → FoundDown test bound (v - 1) o
      → FoundDown test bound v o
  FoundDown-step none h f = f
  FoundDown-step (some none) h f =
      λ x p q. elim (same_or_before x q) [ inl e ↦ ap test e ∙ here | inr l ↦ f x p (omega arith) ]
  FoundDown-step (some (some c)) h f = (
    f.0,
    omega (arith, f.1),
    λ x p q. elim (same_or_before x q) [ inl e ↦ ap test e ∙ here | inr l ↦ f.2 x p (omega arith) ],
  )

pub first_up-FoundUp :
    (fuel : ℕ) (t : IntervallumNumeric) (test : ℕ → Bool) (bound v : ℕ)
    → bound ≤ t.last
    → v ≤ bound
    → bound - v < fuel
    → FoundUp test bound v (first_up fuel t test bound v)
unfolding first_up
first_up-FoundUp zero t test bound v l h f = absurd (omega arith)
first_up-FoundUp (suc fuel) t test bound v l h f = elim (Bool-cases (test v)) [
  | inl e ↦ rw e (e, omega arith, λ x p q. absurd (omega arith))
  | inr n ↦ elim (Bool-cases (leb bound v)) [
    | inl m ↦
        let last : v ≡ bound = ground arith in
        rw (n, m) (λ x p q. let same : x ≡ v = omega arith in ap test same ∙ n)
    | inr m ↦
        let step : next_up t v ≡ v + 1 = ground arith in
        let below : v < bound = ground arith in
        rw (n, m, step)
          (FoundUp-step test bound v n (first_up fuel t test bound (v + 1)) below
            (first_up-FoundUp fuel t test bound (v + 1) l (omega arith) (omega arith)))
  ]
]

pub first_down-FoundDown :
    (fuel : ℕ) (test : ℕ → Bool) (bound v : ℕ)
    → bound ≤ v
    → v - bound < fuel
    → FoundDown test bound v (first_down fuel test bound v)
unfolding first_down
first_down-FoundDown zero test bound v h f = absurd (omega arith)
first_down-FoundDown (suc fuel) test bound v h f = elim (Bool-cases (test v)) [
  | inl e ↦ rw e (e, omega arith, λ x p q. absurd (omega arith))
  | inr n ↦ elim (Bool-cases (leb v bound)) [
    | inl m ↦
        let last : v ≡ bound = ground arith in
        rw (n, m) (λ x p q. let same : x ≡ v = omega arith in ap test same ∙ n)
    | inr m ↦
        let below : bound < v = ground arith in
        rw (n, m)
          (FoundDown-step test bound v n (first_down fuel test bound (v - 1)) below
            (first_down-FoundDown fuel test bound (v - 1) (omega arith) (omega arith)))
  ]
]
