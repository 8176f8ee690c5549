-- ===== src/Examples/Intervals.antt =====
-- src/intervallum.rs: intervals of bytes.
use faber_runtime.Base.{ℕ, ◌≤◌, ◌≡◌, true, refl, false, none, some, [], ◌∷◌, arith}
use faber_runtime.Base.Key.{nat_key}
use faber_runtime.Base.Map.{any_same}
use faber_runtime.Intervallum.{
  Intervallum, exclusive, inclusive, u8, i8, u64_numeric, continet, coercere, ad_lista, lista_loop,
  longitudo,
}
use faber_runtime.Intervallum.Clamp.{distance, coercere_nearest}
use faber_runtime.Intervallum.Walk.{ambula, collect}
use faber_runtime.Intervallum.Sets.{
  inter, union, touches, in_either, first_up, first_down, seek_up, seek_down,
}
use faber_runtime.Intervallum.Lista.{values, IsInterval, ad_lista_lem}
use faber_runtime.Intervallum.Inter.{IsInter, inter-IsInter, union_diverges}
use faber_runtime.Intervallum.Union.{IsUnion, union-IsUnion}

abbrev low_half : Intervallum
low_half = record { initium = 2; finis = 6; kind = exclusive }

abbrev falling : Intervallum
falling = record { initium = 9; finis = 4; kind = exclusive }

abbrev to_last : Intervallum
to_last = record { initium = 253; finis = 255; kind = inclusive }

abbrev nothing : Intervallum
nothing = record { initium = 0; finis = 0; kind = exclusive }

-- The last value of the type ends the loop.
near_max : ad_lista u8 to_last ≡ some (253 ∷ 254 ∷ 255 ∷ [])
unfolding ad_lista lista_loop
near_max = refl

-- A falling walk and its neighbour share 5.
overlap :
    inter 257 u8 falling low_half
    ≡ some (some (record { initium = 5; finis = 5; kind = inclusive }))
unfolding inter first_up first_down continet
overlap = refl

adjacent :
    union 300 u8 low_half (record { initium = 6; finis = 8; kind = exclusive })
    ≡ some (some (record { initium = 2; finis = 7; kind = inclusive }))
unfolding inter first_up first_down continet union touches seek_up seek_down
adjacent = refl

apart : union 300 u8 low_half (record { initium = 7; finis = 8; kind = exclusive }) ≡ some none
unfolding inter first_up first_down continet union touches seek_up seek_down
apart = refl

-- All 256 values of `i8` are counted as 128.
short_count : longitudo i8 (record { initium = 0; finis = 255; kind = inclusive }) ≡ 128
unfolding longitudo
short_count = refl

-- 2^63 values of `u64` are counted as `i64::MIN`.
negative_count :
    longitudo u64_numeric (record { initium = 0; finis = 9223372036854775808; kind = exclusive })
    ≡ 9223372036854775808
unfolding longitudo
negative_count = refl

abbrev falling_IsInterval : IsInterval u8 falling
falling_IsInterval = record { initium_fits = omega arith; finis_fits = omega arith }

ad_lista_lem_example :
    (ad_lista u8 falling ≡ some (values falling))
    × (collect 257 u8 (ambula falling) ≡ ad_lista u8 falling)
    × ((x : ℕ) → any_same x (values falling) ≡ continet falling x)
ad_lista_lem_example = ad_lista_lem u8 falling falling_IsInterval

inter-IsInter_example : IsInter falling low_half (inter 257 u8 falling low_half)
inter-IsInter_example =
    inter-IsInter falling low_half u8 falling_IsInterval
      (record { initium_fits = omega arith; finis_fits = omega arith })

clamped : coercere u8 falling 3 ≡ 5
unfolding coercere continet
clamped = refl

holds_nothing : (x : ℕ) → in_either nothing nothing x ≡ false
unfolding continet
holds_nothing x = ground arith

-- The union of two empty intervals at 0.
union_diverges_example : union 1000000 u8 nothing nothing ≡ none
unfolding touches continet
union_diverges_example = union_diverges nothing nothing 1000000 u8 holds_nothing refl

union-IsUnion_example : IsUnion u8 falling low_half (union 257 u8 falling low_half)
unfolding continet
union-IsUnion_example =
    union-IsUnion u8 falling low_half falling_IsInterval
      (record { initium_fits = omega arith; finis_fits = omega arith }) 2 refl

coercere_nearest_example :
    (continet falling (coercere u8 falling 3) ≡ true)
    × (distance 3 (coercere u8 falling 3) ≤ distance 3 7)
unfolding continet
coercere_nearest_example = coercere_nearest u8 falling falling_IsInterval 3 7 refl
