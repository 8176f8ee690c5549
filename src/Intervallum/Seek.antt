-- ===== src/Intervallum/Seek.antt =====
-- src/intervallum.rs: what the searches of the union find.
use faber_runtime.Base.{
  ℕ, zero, suc, ◌+◌, ◌-◌, ◌≤◌, ◌<◌, ◌≡◌, inl, inr, ap, ◌∙◌, Bool, true, false, ◌==◌, Option, some,
  Bool-cases, arith,
}
use faber_runtime.Intervallum.{IntervallumNumeric, next_up}
use faber_runtime.Intervallum.Sets.{seek_up, seek_down}

pub clash : {b : Bool} → b ≡ true → b ≡ false → ⊥
clash p q = ground arith

-- A value that passes the test differs from one that does not.
apart_from : (test : ℕ → Bool) (v w : ℕ) → test v ≡ false → test w ≡ true → (w == v) ≡ false
apart_from test v w f e = elim (Bool-cases (w == v)) [
  | inl m ↦ let same : w ≡ v = ground arith in absurd (clash e (ap test same ∙ f))
  | inr m ↦ m
]

-- The first value from `v` on that passes the test.
abbrev pub First : (ℕ → Bool) → ℕ → Option ℕ → Type 0
First test v o =
    (c : ℕ) × (o ≡ some c) × (test c ≡ true) × (v ≤ c) × ((x : ℕ) → v ≤ x → x < c → test x ≡ false)

-- The last value up to `v` that passes the test.
abbrev pub Last : (ℕ → Bool) → ℕ → Option ℕ → Type 0
Last test v o =
    (c : ℕ) × (o ≡ some c) × (test c ≡ true) × (c ≤ v) × ((x : ℕ) → c < x → x ≤ v → test x ≡ false)

First-step :
    (test : ℕ → Bool) (v : ℕ) (o : Option ℕ)
    → test v ≡ false
    → First test (v + 1) o
    → First test v o
First-step test v o later (c, found, holds, above, before) = (
  c,
  found,
  holds,
  omega arith,
  λ x p q. elim (Bool-cases (x == v)) [
    | inl m ↦ let same : x ≡ v = ground arith in ap test same ∙ later
    | inr m ↦ let further : v + 1 ≤ x = ground arith in before x further q
  ],
)

Last-step :
    (test : ℕ → Bool) (v : ℕ) (o : Option ℕ)
    → test v ≡ false
    → 0 < v
    → Last test (v - 1) o
    → Last test v o
Last-step test v o later h (c, found, holds, below, after) = (
  c,
  found,
  holds,
  omega arith,
  λ x p q. elim (Bool-cases (x == v)) [
    | inl m ↦ let same : x ≡ v = ground arith in ap test same ∙ later
    | inr m ↦ let further : x ≤ v - 1 = ground arith in after x p further
  ],
)

pub seek_up-First :
    (fuel : ℕ) (t : IntervallumNumeric) (test : ℕ → Bool) (v w : ℕ)
    → v ≤ w
    → w ≤ t.last
    → w - v < fuel
    → test w ≡ true
    → First test v (seek_up fuel t test v)
unfolding seek_up
seek_up-First zero t test v w h l f e = absurd (omega arith)
seek_up-First (suc fuel) t test v w h l f e = elim (Bool-cases (test v)) [
  | inl here ↦ (v, rw here, here, omega arith, λ x p q. absurd (omega arith))
  | inr later ↦
      let different = apart_from test v w later e in
      let closer : v + 1 ≤ w = ground arith in
      let step : next_up t v ≡ v + 1 = ground arith in
      rw (later, step)
        (First-step test v (seek_up fuel t test (v + 1)) later
          (seek_up-First fuel t test (v + 1) w closer l (omega arith) e))
]

pub seek_down-Last :
    (fuel : ℕ) (test : ℕ → Bool) (v w : ℕ)
    → w ≤ v
    → v - w < fuel
    → test w ≡ true
    → Last test v (seek_down fuel test v)
unfolding seek_down
seek_down-Last zero test v w h f e = absurd (omega arith)
seek_down-Last (suc fuel) test v w h f e = elim (Bool-cases (test v)) [
  | inl here ↦ (v, rw here, here, omega arith, λ x p q. absurd (omega arith))
  | inr later ↦
      let different = apart_from test v w later e in
      let closer : w ≤ v - 1 = ground arith in
      let positive : 0 < v = ground arith in
      rw later (
        Last-step test v (seek_down fuel test (v - 1)) later positive
          (seek_down-Last fuel test (v - 1) w closer (omega arith) e))
]
