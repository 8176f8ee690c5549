-- ===== src/Intervallum/Lista.antt =====
-- src/intervallum.rs: the list of an interval, and its lazy walk.
use faber_runtime.Base.{
  ℕ, zero, suc, ◌+◌, ◌-◌, ◌≤◌, ◌<◌, ◌≡◌, inl, inr, refl, ap, sym, ◌∙◌, true, false, ◌&&◌, ◌||◌,
  Option, none, some, List, [], ◌∷◌, ltb, leb, length, Bool-cases, if◌then◌else◌, arith,
}
use faber_runtime.Base.Key.{nat_key}
use faber_runtime.Base.Map.{any_same}
use faber_runtime.Intervallum.{
  Intervallum, IntervallumNumeric, exclusive, inclusive, ascending, continet, in_reach, at_end,
  walk, walk_ascend, walk_descend, push_front, lista_loop, ad_lista, longitudo,
}
use faber_runtime.Intervallum.Walk.{IntervallumWalk, ambula, is_done, next, collect}

-- Values of a type: at most `last`.
pub record IsInterval (t : IntervallumNumeric) (r : Intervallum) : Type 0 where
  pub initium_fits : r.initium ≤ t.last
  pub finis_fits : r.finis ≤ t.last

unfoldable pub up : ℕ → ℕ → List ℕ
up v zero = []
up v (suc n) = v ∷ up (v + 1) n

unfoldable pub down : ℕ → ℕ → List ℕ
down v zero = []
down v (suc n) = v ∷ down (v - 1) n

-- How many values there are from the cursor on.
abbrev pub left : Intervallum → ℕ → ℕ
left r v = elim r.kind [
  | exclusive ↦ if ascending r then r.finis - v else v - r.finis
  | inclusive ↦ if ascending r then (r.finis + 1) - v else (v + 1) - r.finis
]

abbrev pub values_from : Intervallum → ℕ → ℕ → List ℕ
values_from r v n = if ascending r then up v n else down v n

-- The values of the interval, from `initium` on.
abbrev pub values : Intervallum → List ℕ
values r = values_from r r.initium (left r r.initium)

collect_exhausted :
    (fuel : ℕ) (t : IntervallumNumeric) (w : IntervallumWalk)
    → w.exhausted ≡ true
    → 0 < fuel
    → collect fuel t w ≡ some []
unfolding collect next
collect_exhausted zero t w e f = absurd (omega arith)
collect_exhausted (suc fuel) t w e f = rw e

collect-next :
    (fuel : ℕ) (t : IntervallumNumeric) (w w' : IntervallumWalk) (v : ℕ)
    → next t w ≡ (some v, w')
    → collect (suc fuel) t w ≡ push_front v (collect fuel t w')
unfolding collect
collect-next fuel t w w' v e =
    ap
      (λ p. elim p.0 as (λ x. Option (List ℕ)) [
        | none ↦ some []
        | some x ↦ push_front x (collect fuel t p.1)
      ])
      e

module _ (t : IntervallumNumeric) (r : Intervallum) (w : IsInterval t r) where
  lista_loop-up :
      (n fuel v : ℕ)
      → ascending r ≡ true
      → left r v ≡ n
      → n < fuel
      → v ≤ t.last
      → lista_loop fuel t r v ≡ some (up v n)
  unfolding lista_loop up
  lista_loop-up zero (suc fuel) v a e f l = ground arith
  lista_loop-up n zero v a e f l = absurd (omega arith)
  lista_loop-up (suc n) (suc fuel) v a e f l =
      let small = w.finis_fits in
      let reached : in_reach r v ≡ true = ground arith in
      elim (Bool-cases (at_end t r v)) [
        | inl done ↦ let last_one : n ≡ 0 = ground arith in rw (reached, done, last_one)
        | inr more ↦
            let step : walk t r v ≡ v + 1 = ground arith in
            let fewer : left r (v + 1) ≡ n = ground arith in
            let below : v + 1 ≤ t.last = ground arith in
            rw (reached, more, step, lista_loop-up n fuel (v + 1) a fewer (omega arith) below)
      ]

  lista_loop-down :
      (n fuel v : ℕ)
      → ascending r ≡ false
      → left r v ≡ n
      → n < fuel
      → v ≤ t.last
      → lista_loop fuel t r v ≡ some (down v n)
  unfolding lista_loop down
  lista_loop-down n zero v a e f l = absurd (omega arith)
  lista_loop-down zero (suc fuel) v a e f l = ground arith
  lista_loop-down (suc n) (suc fuel) v a e f l =
      let reached : in_reach r v ≡ true = ground arith in
      elim (Bool-cases (at_end t r v)) [
        | inl done ↦ let last_one : n ≡ 0 = ground arith in rw (reached, done, last_one)
        | inr more ↦
            let step : walk t r v ≡ v - 1 = ground arith in
            let fewer : left r (v - 1) ≡ n = ground arith in
            rw (
              reached,
              more,
              step,
              lista_loop-down n fuel (v - 1) a fewer (omega arith) (omega arith),
            )
      ]

  ad_lista-eq-values : ad_lista t r ≡ some (values r)
  unfolding ad_lista
  ad_lista-eq-values =
      let first = w.initium_fits in
      let second = w.finis_fits in
      let short : left r r.initium < t.last + 2 = ground arith in
      elim (Bool-cases (ascending r)) [
        | inl a ↦
            lista_loop-up (left r r.initium) (t.last + 2) r.initium a refl short first ∙ rw a refl
        | inr d ↦
            lista_loop-down (left r r.initium) (t.last + 2) r.initium d refl short first ∙ rw d refl
      ]

  -- The lazy walk, which stops a step earlier.
  collect-up :
      (n fuel v : ℕ)
      → ascending r ≡ true
      → left r v ≡ n
      → n < fuel
      → v ≤ t.last
      → collect fuel t (record { interval = r; cursor = v; exhausted = false }) ≡ some (up v n)
  unfolding collect next up
  collect-up n zero v a e f l = absurd (omega arith)
  collect-up zero (suc fuel) v a e f l =
      let over : is_done r v ≡ true = ground arith in rw (over, collect, next)
  collect-up (suc n) (suc fuel) v a e f l =
      let small = w.finis_fits in
      let going : is_done r v ≡ false = ground arith in
      let at : IntervallumWalk = record { interval = r; cursor = v; exhausted = false } in
      elim (Bool-cases (leb t.last v || leb r.finis v)) [
        | inl stop ↦
            let last_one : n ≡ 0 = ground arith in
            let over : IntervallumWalk = record { interval = r; cursor = v; exhausted = true } in
            collect-next fuel t at over v (rw (next, going, a, stop))
            ∙ ap (push_front v) (collect_exhausted fuel t over refl (omega arith))
            ∙ ap (λ k. some (v ∷ up (v + 1) k)) (sym last_one)
        | inr more ↦
            let step : walk_ascend t v ≡ v + 1 = ground arith in
            let fewer : left r (v + 1) ≡ n = ground arith in
            let below : v + 1 ≤ t.last = ground arith in
            let on : IntervallumWalk = record { interval = r; cursor = v + 1; exhausted = false } in
            collect-next fuel t at on v (rw (next, going, a, more, step))
            ∙ ap (push_front v) (collect-up n fuel (v + 1) a fewer (omega arith) below)
      ]

  collect-down :
      (n fuel v : ℕ)
      → ascending r ≡ false
      → left r v ≡ n
      → n < fuel
      → v ≤ t.last
      → collect fuel t (record { interval = r; cursor = v; exhausted = false }) ≡ some (down v n)
  unfolding collect next down
  collect-down n zero v a e f l = absurd (omega arith)
  collect-down zero (suc fuel) v a e f l =
      let over : is_done r v ≡ true = ground arith in rw (over, collect, next)
  collect-down (suc n) (suc fuel) v a e f l =
      let small = w.finis_fits in
      let going : is_done r v ≡ false = ground arith in
      let at : IntervallumWalk = record { interval = r; cursor = v; exhausted = false } in
      elim (Bool-cases (leb v 0 || leb v r.finis)) [
        | inl stop ↦
            let last_one : n ≡ 0 = ground arith in
            let over : IntervallumWalk = record { interval = r; cursor = v; exhausted = true } in
            collect-next fuel t at over v (rw (next, going, a, stop))
            ∙ ap (push_front v) (collect_exhausted fuel t over refl (omega arith))
            ∙ ap (λ k. some (v ∷ down (v - 1) k)) (sym last_one)
        | inr more ↦
            let step : walk_descend t v ≡ v - 1 = ground arith in
            let fewer : left r (v - 1) ≡ n = ground arith in
            let on : IntervallumWalk = record { interval = r; cursor = v - 1; exhausted = false } in
            collect-next fuel t at on v (rw (next, going, a, more, step))
            ∙ ap (push_front v) (collect-down n fuel (v - 1) a fewer (omega arith) (omega arith))
      ]

  pub collect-eq-values : collect (t.last + 2) t (ambula r) ≡ some (values r)
  collect-eq-values =
      let first = w.initium_fits in
      let second = w.finis_fits in
      let short : left r r.initium < t.last + 2 = ground arith in
      elim (Bool-cases (ascending r)) [
        | inl a ↦
            collect-up (left r r.initium) (t.last + 2) r.initium a refl short first ∙ rw a refl
        | inr d ↦
            collect-down (left r r.initium) (t.last + 2) r.initium d refl short first ∙ rw d refl
      ]

  pub collect-eq-ad_lista : collect (t.last + 2) t (ambula r) ≡ ad_lista t r
  collect-eq-ad_lista = collect-eq-values ∙ sym ad_lista-eq-values

any_same-up : (n v x : ℕ) → any_same x (up v n) ≡ (leb v x && ltb x (v + n))
unfolding any_same up
any_same-up zero v x = ground arith
any_same-up (suc n) v x = ground (arith, any_same-up n (v + 1) x)

any_same-down : (n v x : ℕ) → n ≤ v + 1 → any_same x (down v n) ≡ (leb x v && ltb v (x + n))
unfolding any_same down
any_same-down zero v x h = ground arith
any_same-down (suc zero) v x h = ground arith
any_same-down (suc (suc n)) v x h = ground (arith, any_same-down (suc n) (v - 1) x (omega arith))

-- A value stands in the list exactly if the interval contains it.
pub any_same-values : (r : Intervallum) (x : ℕ) → any_same x (values r) ≡ continet r x
unfolding continet
any_same-values r x = elim (Bool-cases (ascending r)) [
  | inl a ↦
      ap
        (λ b.
          any_same x
            (if b then up r.initium (left r r.initium) else down r.initium (left r r.initium)))
        a
      ∙ any_same-up (left r r.initium) r.initium x
      ∙ ground arith
  | inr d ↦
      ap
        (λ b.
          any_same x
            (if b then up r.initium (left r r.initium) else down r.initium (left r r.initium)))
        d
      ∙ any_same-down (left r r.initium) r.initium x (ground arith)
      ∙ ground arith
]

-- For an interval of values of the type: the list and the lazy walk both end, with the same values,
-- and hold a value exactly if the interval contains it.
pub ad_lista_lem :
    (t : IntervallumNumeric) (r : Intervallum)
    → IsInterval t r
    → (ad_lista t r ≡ some (values r))
      × (collect (t.last + 2) t (ambula r) ≡ ad_lista t r)
      × ((x : ℕ) → any_same x (values r) ≡ continet r x)
ad_lista_lem t r w = (ad_lista-eq-values t r w, collect-eq-ad_lista t r w, any_same-values r)

length-up : (n v : ℕ) → length (up v n) ≡ n
unfolding up
length-up zero v = refl
length-up (suc n) v = ap suc (length-up n (v + 1))

length-down : (n v : ℕ) → length (down v n) ≡ n
unfolding down
length-down zero v = refl
length-down (suc n) v = ap suc (length-down n (v - 1))

-- The difference of the bounds.
abbrev pub gap : Intervallum → ℕ
gap r = if ascending r then r.finis - r.initium else r.initium - r.finis

pub length-values : (r : Intervallum) → length (values r) ≡ left r r.initium
length-values r = elim (Bool-cases (ascending r)) [
  | inl a ↦ rw a (length-up (left r r.initium) r.initium)
  | inr d ↦ rw d (length-down (left r r.initium) r.initium)
]

pub longitudo-length :
    (t : IntervallumNumeric) (r : Intervallum)
    → gap r ≤ t.largest
    → gap r < 9223372036854775807
    → longitudo t r ≡ length (values r)
unfolding longitudo
longitudo-length t r h k = ground (arith, length-values r)
