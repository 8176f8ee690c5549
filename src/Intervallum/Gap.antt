-- ===== src/Intervallum/Gap.antt =====
-- src/intervallum.rs: two intervals that hold values, but neither share one nor touch, have a gap.
use faber_runtime.Base.{
  ℕ, ◌+◌, ◌<◌, ◌≤◌, ◌≡◌, ◌⊎◌, inl, inr, sym, ◌∙◌, true, false, ◌&&◌, ◌==◌, leb, Bool-cases, arith,
}
use faber_runtime.Intervallum.{Intervallum, IntervallumNumeric, continet, next_up}
use faber_runtime.Intervallum.Sets.{in_both, in_either, touches, actual_high, actual_low}
use faber_runtime.Intervallum.Lista.{IsInterval}
use faber_runtime.Intervallum.Meets.{continet-actual, actual_bounds, continet-nil}
use faber_runtime.Intervallum.Seek.{clash}

-- A value strictly between the two that neither interval holds.
abbrev pub HasGap : Intervallum → Intervallum → ℕ → ℕ → Type 0
HasGap a b v w = (g : ℕ) × (in_either a b g ≡ false) × ((v < g) × (g < w) ⊎ (w < g) × (g < v))

-- The bounds of two ranges that are more than a step apart.
apart_lem :
    (last low_a high_a low_b high_b v w : ℕ)
    → (low_a ≤ v) × (v ≤ high_a)
    → (low_b ≤ w) × (w ≤ high_b)
    → (high_a < low_b) ⊎ (high_b < low_a)
    → ¬ (low_b ≡ high_a + 1)
    → ¬ (low_a ≡ high_b + 1)
    → (g : ℕ) × ((leb low_a g && leb g high_a) ≡ false)
      × ((leb low_b g && leb g high_b) ≡ false)
      × ((v < g) × (g < w) ⊎ (w < g) × (g < v))
apart_lem last low_a high_a low_b high_b v w k l (inl o) m n =
    (high_a + 1, ground arith, ground arith, inl (omega arith, omega arith))
apart_lem last low_a high_a low_b high_b v w k l (inr o) m n =
    (high_b + 1, ground arith, ground arith, inr (omega arith, omega arith))

-- Two ranges that hold values and share none lie apart.
disjoint_lem :
    (low_a high_a low_b high_b : ℕ)
    → low_a ≤ high_a
    → low_b ≤ high_b
    → ((x : ℕ) → ((leb low_a x && leb x high_a) && (leb low_b x && leb x high_b)) ≡ false)
    → (high_a < low_b) ⊎ (high_b < low_a)
disjoint_lem low_a high_a low_b high_b k l f = elim (Bool-cases (leb low_b high_a)) [
  | inr o ↦ inl (ground arith)
  | inl m ↦ elim (Bool-cases (leb low_a high_b)) [
    | inr o ↦ inr (ground arith)
    | inl n ↦ absurd (shared (f low_a) (f low_b) m n)
  ]
]
  where
    shared :
        ((leb low_a low_a && leb low_a high_a) && (leb low_b low_a && leb low_a high_b)) ≡ false
        → ((leb low_a low_b && leb low_b high_a) && (leb low_b low_b && leb low_b high_b)) ≡ false
        → leb low_b high_a ≡ true
        → leb low_a high_b ≡ true
        → ⊥
    shared p q m n = ground arith

held_initium : (r : Intervallum) (v : ℕ) → continet r v ≡ true → continet r r.initium ≡ true
held_initium r v h = elim (Bool-cases (continet r r.initium)) [
  | inl e ↦ e
  | inr e ↦ absurd (clash h (continet-nil r v e))
]

within : (low x high : ℕ) → (leb low x && leb x high) ≡ true → (low ≤ x) × (x ≤ high)
within low x high e = (ground arith, ground arith)

-- A step up from a bound that is not the last value adds one.
untouched :
    (t : IntervallumNumeric) (high low : ℕ)
    → (next_up t high == low) ≡ false
    → low ≤ t.last
    → ¬ (low ≡ high + 1)
untouched t high low e k m = ground arith

module _ (t : IntervallumNumeric) (a b : Intervallum) (i : IsInterval t a)
    (j : IsInterval t b) where
  touches-apart :
      touches t a b ≡ false
      → ((next_up t (actual_high a) == actual_low t b) ≡ false)
        × ((next_up t (actual_high b) == actual_low t a) ≡ false)
  unfolding touches
  touches-apart e = (ground arith, ground arith)

  both_at :
      continet a a.initium ≡ true
      → continet b b.initium ≡ true
      → (x : ℕ) → in_both a b x ≡ false
      → ((leb (actual_low t a) x && leb x (actual_high a))
          && (leb (actual_low t b) x && leb x (actual_high b)))
        ≡ false
  both_at p q x n = ground (arith, continet-actual t a i x p, continet-actual t b j x q)

  either_at :
      continet a a.initium ≡ true
      → continet b b.initium ≡ true
      → (g : ℕ) → (leb (actual_low t a) g && leb g (actual_high a)) ≡ false
      → (leb (actual_low t b) g && leb g (actual_high b)) ≡ false
      → in_either a b g ≡ false
  either_at p q g m n = ground (arith, continet-actual t a i g p, continet-actual t b j g q)

  -- If the code does not count the intervals as touching and no value is common, a value of the one
  -- and a value of the other have a value between them that neither holds.
  pub touches-HasGap :
      touches t a b ≡ false
      → ((x : ℕ) → in_both a b x ≡ false)
      → (v w : ℕ) → continet a v ≡ true
      → continet b w ≡ true
      → HasGap a b v w
  touches-HasGap e f v w h k =
      let p = held_initium a v h in
      let q = held_initium b w k in
      let (la, ha, _, _, last_a) = actual_bounds t a i p in
      let (lb, hb, _, _, last_b) = actual_bounds t b j q in
      let (up_a, up_b) = touches-apart e in
      let at_v = sym (continet-actual t a i v p) ∙ h in
      let at_w = sym (continet-actual t b j w q) ∙ k in
      let (g, off_a, off_b, between) =
        apart_lem t.last (actual_low t a) (actual_high a) (actual_low t b) (actual_high b) v w
          (within (actual_low t a) v (actual_high a) at_v)
          (within (actual_low t b) w (actual_high b) at_w)
          (disjoint_lem (actual_low t a) (actual_high a) (actual_low t b) (actual_high b)
            (omega arith) (omega arith) (λ x. both_at p q x (f x)))
          (untouched t (actual_high a) (actual_low t b) up_a (omega arith))
          (untouched t (actual_high b) (actual_low t a) up_b (omega arith)) in
      (g, either_at p q g off_a off_b, between)
