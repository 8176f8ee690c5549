-- ===== src/Intervallum/Walk.antt =====
-- src/intervallum.rs: the lazy walk over an interval.
use faber_runtime.Base.{
  ℕ, zero, suc, Bool, true, false, Option, none, some, List, [], ltb, leb, ◌||◌, if◌then◌else◌,
}
use faber_runtime.Intervallum.{
  IntervallumNumeric, Intervallum, exclusive, inclusive, ascending, walk_ascend, walk_descend,
  push_front,
}

pub record IntervallumWalk : Type 0 where
  pub interval : Intervallum
  pub cursor : ℕ
  pub exhausted : Bool

abbrev pub ambula : Intervallum → IntervallumWalk
ambula r = record { interval = r; cursor = r.initium; exhausted = false }

abbrev pub is_done : Intervallum → ℕ → Bool
is_done r cursor = elim r.kind [
  | exclusive ↦ if ascending r then leb r.finis cursor else leb cursor r.finis
  | inclusive ↦ if ascending r then ltb r.finis cursor else ltb cursor r.finis
]

abbrev pub advance : IntervallumNumeric → IntervallumWalk → IntervallumWalk
advance t w =
    if ascending w.interval
    then (if leb t.last w.cursor || leb w.interval.finis w.cursor
        then record w { exhausted = true }
        else record w { cursor = walk_ascend t w.cursor })
    else (if leb w.cursor 0 || leb w.cursor w.interval.finis
        then record w { exhausted = true }
        else record w { cursor = walk_descend t w.cursor })

unfoldable pub next : IntervallumNumeric → IntervallumWalk → Option ℕ × IntervallumWalk
next t w =
    if w.exhausted
    then (none, w)
    else if is_done w.interval w.cursor
    then (none, record w { exhausted = true })
    else (some w.cursor, advance t w)

-- What a consumer sees that calls `next` until it answers `none`. `none`: out of fuel.
unfoldable pub collect : ℕ → IntervallumNumeric → IntervallumWalk → Option (List ℕ)
collect zero t w = none
collect (suc fuel) t w =
    let rest = collect fuel t (next t w).1 in
    elim (next t w).0 [ none ↦ some [] | some v ↦ push_front v rest ]
