-- ===== src/Intervallum/Clamp.antt =====
-- src/intervallum.rs: clamping a value into an interval.
use faber_runtime.Base.{ℕ, ◌+◌, ◌-◌, ◌≤◌, ◌≡◌, true, arith}
use faber_runtime.Intervallum.{Intervallum, IntervallumNumeric, continet, coercere}
use faber_runtime.Intervallum.Lista.{IsInterval}

abbrev pub distance : ℕ → ℕ → ℕ
distance a b = (a - b) + (b - a)

module _ (t : IntervallumNumeric) (r : Intervallum) (i : IsInterval t r) (v w : ℕ) where
  coercere-continet : continet r w ≡ true → continet r (coercere t r v) ≡ true
  unfolding coercere continet
  coercere-continet h = let first = i.initium_fits in let second = i.finis_fits in ground arith

  distance-coercere : continet r w ≡ true → distance v (coercere t r v) ≤ distance v w
  unfolding coercere continet
  distance-coercere h = let first = i.initium_fits in let second = i.finis_fits in ground arith

  -- In an interval of values of the type that contains some value `w`: the clamped value is
  -- contained, and no further from the value given than `w` is.
  pub coercere_nearest :
      continet r w ≡ true
      → (continet r (coercere t r v) ≡ true) × (distance v (coercere t r v) ≤ distance v w)
  coercere_nearest h = (coercere-continet h, distance-coercere h)
