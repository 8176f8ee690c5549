-- ===== src/Intervallum/Sets.antt =====
-- src/intervallum.rs: the intersection and the union of two intervals. `none`: the loops did not end
-- within the fuel.
use faber_runtime.Base.{
  ℕ, zero, suc, Bool, not, ◌&&◌, ◌||◌, Option, none, some, ltb, leb, ◌==◌, is_some, if◌then◌else◌,
}
use faber_runtime.Intervallum.{
  IntervallumNumeric, Intervallum, inclusive, continet, max_bound, min_bound, next_up, next_down,
  ascending,
}

abbrev pub low_of : Intervallum → ℕ
low_of r = min_bound r.initium r.finis

abbrev pub high_of : Intervallum → ℕ
high_of r = max_bound r.initium r.finis

abbrev pub in_both : Intervallum → Intervallum → ℕ → Bool
in_both a b v = continet a v && continet b v

abbrev pub in_either : Intervallum → Intervallum → ℕ → Bool
in_either a b v = continet a v || continet b v

-- The first value that passes the test, up to a bound: `some none` if there is none.
unfoldable pub first_up : ℕ → IntervallumNumeric → (ℕ → Bool) → ℕ → ℕ → Option (Option ℕ)
first_up zero t test bound v = none
first_up (suc fuel) t test bound v =
    let rest = first_up fuel t test bound (next_up t v) in
    if test v then some (some v) else if leb bound v then some none else rest

unfoldable pub first_down : ℕ → (ℕ → Bool) → ℕ → ℕ → Option (Option ℕ)
first_down zero test bound v = none
first_down (suc fuel) test bound v =
    let rest = first_down fuel test bound (next_down v) in
    if test v then some (some v) else if leb v bound then some none else rest

-- In the direction of the left operand.
abbrev pub directed : Intervallum → ℕ → ℕ → Intervallum
directed a low high =
    if ascending a
    then record { initium = low; finis = high; kind = inclusive }
    else record { initium = high; finis = low; kind = inclusive }

abbrev pub inter_high :
    ℕ → Intervallum → Intervallum → ℕ → Option (Option ℕ) → Option (Option Intervallum)
inter_high fuel a b high none = none
inter_high fuel a b high (some none) = some none
inter_high fuel a b high (some (some low)) = elim (first_down fuel (in_both a b) low high) [
  | none ↦ none
  | some none ↦ some none
  | some (some top) ↦ some (some (directed a low top))
]

unfoldable pub inter :
    ℕ → IntervallumNumeric → Intervallum → Intervallum → Option (Option Intervallum)
inter fuel t a b =
    let low = max_bound (low_of a) (low_of b) in
    let high = min_bound (high_of a) (high_of b) in
    let found = inter_high fuel a b high (first_up fuel t (in_both a b) high low) in
    if ltb high low then some none else found

abbrev pub actual_high : Intervallum → ℕ
actual_high r = if continet r (high_of r) then high_of r else next_down (high_of r)

abbrev pub actual_low : IntervallumNumeric → Intervallum → ℕ
actual_low t r = if continet r (low_of r) then low_of r else next_up t (low_of r)

unfoldable pub touches : IntervallumNumeric → Intervallum → Intervallum → Bool
touches t a b =
    ((a.finis == b.initium) && (continet a b.initium || continet b a.finis))
    || ((b.finis == a.initium) && (continet b a.initium || continet a b.finis))
    || (next_up t (actual_high a) == actual_low t b)
    || (next_up t (actual_high b) == actual_low t a)

-- The loops of the union have no bound.
unfoldable pub seek_up : ℕ → IntervallumNumeric → (ℕ → Bool) → ℕ → Option ℕ
seek_up zero t test v = none
seek_up (suc fuel) t test v =
    let rest = seek_up fuel t test (next_up t v) in if test v then some v else rest

unfoldable pub seek_down : ℕ → (ℕ → Bool) → ℕ → Option ℕ
seek_down zero test v = none
seek_down (suc fuel) test v =
    let rest = seek_down fuel test (next_down v) in if test v then some v else rest

abbrev pub union_high : ℕ → Intervallum → Intervallum → ℕ → Option ℕ → Option (Option Intervallum)
union_high fuel a b high none = none
union_high fuel a b high (some low) = elim (seek_down fuel (in_either a b) high) [
  | none ↦ none
  | some top ↦ some (some (directed a low top))
]

unfoldable pub union :
    ℕ → IntervallumNumeric → Intervallum → Intervallum → Option (Option Intervallum)
unfolding touches
union fuel t a b =
    let low = min_bound (low_of a) (low_of b) in
    let high = max_bound (high_of a) (high_of b) in
    let joined = union_high fuel a b high (seek_up fuel t (in_either a b) low) in
    elim (inter fuel t a b) [
      | none ↦ none
      | some common ↦ if not (is_some common) && not (touches t a b) then some none else joined
    ]
