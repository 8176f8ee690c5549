-- ===== src/Intervallum/Meets.antt =====
-- src/intervallum.rs: two intervals that touch or meet leave no gap.
use faber_runtime.Base.{
  ℕ, ◌+◌, ◌≤◌, ◌≡◌, ◌⊎◌, inl, inr, Bool, true, false, ◌&&◌, ◌||◌, ◌==◌, leb, Bool-cases, arith,
}
use faber_runtime.Intervallum.{Intervallum, IntervallumNumeric, continet, next_up}
use faber_runtime.Intervallum.Sets.{in_both, in_either, touches, actual_high, actual_low}
use faber_runtime.Intervallum.Lista.{IsInterval}
use faber_runtime.Intervallum.Inter.{continet-convex}

-- An interval that holds a value holds those between its actual bounds.
module _ (t : IntervallumNumeric) (r : Intervallum) (i : IsInterval t r) where
  pub continet-actual :
      (x : ℕ)
      → continet r r.initium ≡ true
      → continet r x ≡ (leb (actual_low t r) x && leb x (actual_high r))
  unfolding continet
  continet-actual x h = let first = i.initium_fits in let second = i.finis_fits in ground arith

  pub actual_bounds :
      continet r r.initium ≡ true
      → (actual_low t r ≤ r.initium)
        × (r.initium ≤ actual_high r)
        × (actual_low t r ≤ r.finis + 1)
        × (r.finis ≤ actual_high r + 1)
        × (actual_high r ≤ t.last)
  unfolding continet
  actual_bounds h = let first = i.initium_fits in let second = i.finis_fits in ground arith

-- `touches` over abstract bounds: neither side is more than a step away.
module _ (t : IntervallumNumeric)
    (finis_a initium_a finis_b initium_b low_a high_a low_b high_b : ℕ) (p q : Bool) where
  touching_bounds :
      (low_a ≤ initium_a)
        × (initium_a ≤ high_a)
        × (low_a ≤ finis_a + 1)
        × (finis_a ≤ high_a + 1)
        × (high_a ≤ t.last)
      → (low_b ≤ initium_b)
        × (initium_b ≤ high_b)
        × (low_b ≤ finis_b + 1)
        × (finis_b ≤ high_b + 1)
        × (high_b ≤ t.last)
      → (((finis_a == initium_b) && p)
          || ((finis_b == initium_a) && q)
          || (next_up t high_a == low_b)
          || (next_up t high_b == low_a))
        ≡ true
      → (low_b ≤ high_a + 1) × (low_a ≤ high_b + 1)
  touching_bounds h k e = (ground arith, ground arith)

-- Two ranges without a gap make one.
joined_bounds :
    (low_a high_a low_b high_b : ℕ)
    → (low_b ≤ high_a + 1) × (low_a ≤ high_b + 1)
    → (p q x : ℕ) (f g : ℕ → Bool) → ((y : ℕ) → f y ≡ (leb low_a y && leb y high_a))
    → ((y : ℕ) → g y ≡ (leb low_b y && leb y high_b))
    → (f p || g p) ≡ true
    → (f q || g q) ≡ true
    → p ≤ x
    → x ≤ q
    → (f x || g x) ≡ true
joined_bounds low_a high_a low_b high_b m p q x f g on_a on_b h k l u =
    ground (arith, on_a p, on_a q, on_a x, on_b p, on_b q, on_b x)

pub continet-nil : (r : Intervallum) (x : ℕ) → continet r r.initium ≡ false → continet r x ≡ false
unfolding continet
continet-nil r x h = ground arith

module _ (t : IntervallumNumeric) (a b : Intervallum) (i : IsInterval t a) (j : IsInterval t b)
    (some_a : continet a a.initium ≡ true) (some_b : continet b b.initium ≡ true) where
  -- No gap between them.
  abbrev Meets : Type 0
  Meets = (actual_low t b ≤ actual_high a + 1) × (actual_low t a ≤ actual_high b + 1)

  common-Meets : (x : ℕ) → in_both a b x ≡ true → Meets
  common-Meets x h =
      let first = continet-actual t a i x some_a in
      let second = continet-actual t b j x some_b in
      let third = actual_bounds t a i some_a in
      let fourth = actual_bounds t b j some_b in (ground arith, ground arith)

  touches-Meets : touches t a b ≡ true → Meets
  unfolding touches
  touches-Meets h =
      touching_bounds t a.finis a.initium b.finis b.initium (actual_low t a) (actual_high a)
        (actual_low t b) (actual_high b) (continet a b.initium || continet b a.finis)
        (continet b a.initium || continet a b.finis) (actual_bounds t a i some_a)
        (actual_bounds t b j some_b) h

  Meets-convex :
      Meets
      → (p q x : ℕ) → in_either a b p ≡ true
      → in_either a b q ≡ true
      → p ≤ x
      → x ≤ q
      → in_either a b x ≡ true
  Meets-convex m p q x h k l u =
      joined_bounds (actual_low t a) (actual_high a) (actual_low t b) (actual_high b) m p q x
        (continet a) (continet b) (λ y. continet-actual t a i y some_a)
        (λ y. continet-actual t b j y some_b) h k l u

-- A step of the union is reached from a common value or from bounds that touch.
pub in_either-convex :
    (t : IntervallumNumeric) (a b : Intervallum)
    → IsInterval t a
    → IsInterval t b
    → ((x : ℕ) × (in_both a b x ≡ true)) ⊎ (touches t a b ≡ true)
    → (p q x : ℕ) → in_either a b p ≡ true
    → in_either a b q ≡ true
    → p ≤ x
    → x ≤ q
    → in_either a b x ≡ true
in_either-convex t a b i j met p q x h k l u = elim (Bool-cases (continet a a.initium)) [
  | inr empty ↦
      let none_p = continet-nil a p empty in
      let none_q = continet-nil a q empty in
      let in_p : continet b p ≡ true = ground arith in
      let in_q : continet b q ≡ true = ground arith in
      let in_x = continet-convex b p q x in_p in_q l u in ground arith
  | inl some_a ↦ elim (Bool-cases (continet b b.initium)) [
    | inr empty ↦
        let none_p = continet-nil b p empty in
        let none_q = continet-nil b q empty in
        let in_p : continet a p ≡ true = ground arith in
        let in_q : continet a q ≡ true = ground arith in
        let in_x = continet-convex a p q x in_p in_q l u in ground arith
    | inl some_b ↦
        Meets-convex t a b i j some_a some_b
          (elim met [
            | inl c ↦ common-Meets t a b i j some_a some_b c.0 c.1
            | inr e ↦ touches-Meets t a b i j some_a some_b e
          ])
          p q x h k l u
  ]
]
