-- ===== src/Intervallum.antt =====
-- src/intervallum.rs: intervals of machine integers. A value stands as its distance from `MIN`,
-- which keeps the order, so that signed and unsigned types are one model.
pub mod Walk
pub mod Sets
pub mod Lista
pub mod Search
pub mod Inter
pub mod Clamp
pub mod Meets
pub mod Gap
pub mod Seek
pub mod Union
use faber_runtime.Base.{
  ℕ, zero, suc, ◌+◌, ◌-◌, Bool, true, false, not, ◌&&◌, Option, none, some, List, [], ◌∷◌, ltb, leb,
  ◌==◌, if◌then◌else◌,
}
use faber_runtime.Base.Word.{u64}

pub data IntervallumKind : Type 0 where
  exclusive inclusive : IntervallumKind

pub record Intervallum : Type 0 where
  pub initium : ℕ
  pub finis : ℕ
  pub kind : IntervallumKind

-- `MAX - MIN`, and `MAX` as a number.
pub record IntervallumNumeric : Type 0 where
  pub last : ℕ
  pub largest : ℕ

abbrev pub u8 : IntervallumNumeric
u8 = record { last = 255; largest = 255 }

abbrev u16 : IntervallumNumeric
u16 = record { last = 65535; largest = 65535 }

abbrev u32 : IntervallumNumeric
u32 = record { last = 4294967295; largest = 4294967295 }

abbrev pub u64_numeric : IntervallumNumeric
u64_numeric = record { last = 18446744073709551615; largest = 18446744073709551615 }

abbrev pub i8 : IntervallumNumeric
i8 = record { last = 255; largest = 127 }

abbrev i16 : IntervallumNumeric
i16 = record { last = 65535; largest = 32767 }

abbrev i32 : IntervallumNumeric
i32 = record { last = 4294967295; largest = 2147483647 }

abbrev i64 : IntervallumNumeric
i64 = record { last = 18446744073709551615; largest = 9223372036854775807 }

-- `saturating_add(one())` and `saturating_sub(one())`.
abbrev pub next_up : IntervallumNumeric → ℕ → ℕ
next_up t v = if ltb v t.last then v + 1 else t.last

abbrev pub next_down : ℕ → ℕ
next_down v = v - 1

-- One step, which wraps.
abbrev pub walk_ascend : IntervallumNumeric → ℕ → ℕ
walk_ascend t v = if v == t.last then 0 else v + 1

abbrev pub walk_descend : IntervallumNumeric → ℕ → ℕ
walk_descend t v = if v == 0 then t.last else v - 1

-- `saturating_sub` of a value and one that is at most as large: the difference, as a number.
abbrev span_of : IntervallumNumeric → ℕ → ℕ → ℕ
span_of t high low = if leb (high - low) t.largest then high - low else t.largest

abbrev pub ascending : Intervallum → Bool
ascending r = leb r.initium r.finis

unfoldable pub continet : Intervallum → ℕ → Bool
continet r v = elim r.kind [
  | exclusive ↦
      if ascending r then leb r.initium v && ltb v r.finis else leb v r.initium && ltb r.finis v
  | inclusive ↦
      if ascending r then leb r.initium v && leb v r.finis else leb v r.initium && leb r.finis v
]

abbrev pub max_bound : ℕ → ℕ → ℕ
max_bound a b = if leb b a then a else b

abbrev pub min_bound : ℕ → ℕ → ℕ
min_bound a b = if leb a b then a else b

abbrev pub is_exclusive : IntervallumKind → Bool
is_exclusive exclusive = true
is_exclusive inclusive = false

unfoldable pub coercere : IntervallumNumeric → Intervallum → ℕ → ℕ
coercere t r v =
    let low = min_bound r.initium r.finis in
    let high = max_bound r.initium r.finis in
    let low_valid = if is_exclusive r.kind && not (ascending r) then next_up t low else low in
    let high_valid = if is_exclusive r.kind && ascending r then next_down high else high in
    if continet r v
    then v
    else if ltb v low_valid
    then low_valid
    else if ltb high_valid v
    then high_valid
    else v

coercere_intervallum : IntervallumNumeric → Intervallum → Intervallum → Intervallum
unfolding coercere
coercere_intervallum t r target = record {
  initium = coercere t target r.initium;
  finis = coercere t target r.finis;
  kind = target.kind;
}

-- The condition of the loop.
abbrev pub in_reach : Intervallum → ℕ → Bool
in_reach r cursor = elim r.kind [
  | exclusive ↦ if ascending r then ltb cursor r.finis else ltb r.finis cursor
  | inclusive ↦ if ascending r then leb cursor r.finis else leb r.finis cursor
]

abbrev pub at_end : IntervallumNumeric → Intervallum → ℕ → Bool
at_end t r cursor = if ascending r then leb t.last cursor else leb cursor 0

abbrev pub walk : IntervallumNumeric → Intervallum → ℕ → ℕ
walk t r cursor = if ascending r then walk_ascend t cursor else walk_descend t cursor

abbrev pub push_front : ℕ → Option (List ℕ) → Option (List ℕ)
push_front v none = none
push_front v (some vs) = some (v ∷ vs)

-- `none`: out of fuel.
unfoldable pub lista_loop : ℕ → IntervallumNumeric → Intervallum → ℕ → Option (List ℕ)
lista_loop zero t r cursor = none
lista_loop (suc fuel) t r cursor =
    let rest = lista_loop fuel t r (walk t r cursor) in
    if in_reach r cursor
    then (if at_end t r cursor then some (cursor ∷ []) else push_front cursor rest)
    else some []

-- A value more than the type has, and the round that ends the loop.
unfoldable pub ad_lista : IntervallumNumeric → Intervallum → Option (List ℕ)
ad_lista t r = lista_loop (t.last + 2) t r r.initium

-- `i64::saturating_add(1)` on 64 bits in two's complement.
abbrev add_one : ℕ → ℕ
add_one n = if n == 9223372036854775807 then n else u64 (n + 1)

-- The 64 bits of the answer.
unfoldable pub longitudo : IntervallumNumeric → Intervallum → ℕ
longitudo t r =
    let span = if ascending r then span_of t r.finis r.initium else span_of t r.initium r.finis in
    elim r.kind [ exclusive ↦ span | inclusive ↦ add_one span ]
