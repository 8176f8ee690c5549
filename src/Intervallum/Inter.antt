-- ===== src/Intervallum/Inter.antt =====
-- src/intervallum.rs: the intersection holds the common values, and a union that does not end.
use faber_runtime.Base.{
  ℕ, zero, suc, ◌+◌, ◌≤◌, ◌<◌, ◌≡◌, inl, inr, refl, ◌∙◌, true, false, ◌&&◌, not, Option, none, some,
  ltb, leb, Bool-cases, is_some, both_true, leb→le, sym, if◌then◌else◌, arith,
}
use faber_runtime.Intervallum.{
  ascending, Intervallum, IntervallumNumeric, continet, max_bound, min_bound, next_up,
}
use faber_runtime.Intervallum.Sets.{
  low_of, high_of, in_both, in_either, first_up, first_down, directed, inter_high, inter, touches,
  seek_up, union_high, union,
}
use faber_runtime.Intervallum.Lista.{IsInterval}
use faber_runtime.Intervallum.Search.{FoundUp, FoundDown, first_up-FoundUp, first_down-FoundDown}

-- A search that succeeds or fails, against the values that both hold. A search without an end is
-- neither.
abbrev pub IsInter : Intervallum → Intervallum → Option (Option Intervallum) → Type 0
IsInter a b none = ⊥
IsInter a b (some none) = (x : ℕ) → in_both a b x ≡ false
IsInter a b (some (some c)) =
    (in_both a b c.initium ≡ true) × ((x : ℕ) → continet c x ≡ in_both a b x)

pub continet-convex :
    (r : Intervallum) (p q x : ℕ)
    → continet r p ≡ true
    → continet r q ≡ true
    → p ≤ x
    → x ≤ q
    → continet r x ≡ true
unfolding continet
continet-convex r p q x h k l m = ground arith

pub continet-directed :
    (a : Intervallum) (low top x : ℕ)
    → low ≤ top
    → continet (directed a low top) x ≡ (leb low x && leb x top)
unfolding continet
continet-directed a low top x h = ground arith

module _ (a b : Intervallum) where
  abbrev lowest : ℕ
  lowest = max_bound (low_of a) (low_of b)

  abbrev highest : ℕ
  highest = min_bound (high_of a) (high_of b)

  in_both-ge : (x : ℕ) → in_both a b x ≡ true → lowest ≤ x
  unfolding continet
  in_both-ge x h = ground arith

  in_both-le : (x : ℕ) → in_both a b x ≡ true → x ≤ highest
  unfolding continet
  in_both-le x h = ground arith

  in_both-convex :
      (p q x : ℕ)
      → in_both a b p ≡ true
      → in_both a b q ≡ true
      → p ≤ x
      → x ≤ q
      → in_both a b x ≡ true
  in_both-convex p q x h k l m =
      let (first, second) = both_true (continet a p) (continet b p) h in
      let (third, fourth) = both_true (continet a q) (continet b q) k in
      rw (continet-convex a p q x first third l m, continet-convex b p q x second fourth l m)

  common :
      (low top x : ℕ)
      → low ≤ top
      → FoundUp (in_both a b) highest lowest (some (some low))
      → FoundDown (in_both a b) low highest (some (some top))
      → (leb low x && leb x top) ≡ in_both a b x
  common low top x h f g = elim (Bool-cases (in_both a b x)) [
    | inl e ↦
        let above : low ≤ x = not_below x e in let below : x ≤ top = not_above x e in ground arith
    | inr e ↦ elim (Bool-cases (leb low x && leb x top)) [
      | inl i ↦
          let inside : in_both a b x ≡ true =
            in_both-convex low top x f.0 g.0 (ground arith) (ground arith) in
          absurd (cc)
      | inr o ↦ o ∙ sym e
    ]
  ]
    where
      not_below : (x : ℕ) → in_both a b x ≡ true → low ≤ x
      not_below x e = elim (Bool-cases (leb low x)) [
        | inl l ↦ leb→le low x l
        | inr l ↦ let no = f.2 x (in_both-ge x e) (ground arith) in absurd (cc)
      ]

      not_above : (x : ℕ) → in_both a b x ≡ true → x ≤ top
      not_above x e = elim (Bool-cases (leb x top)) [
        | inl l ↦ leb→le x top l
        | inr l ↦ let no = g.2 x (ground arith) (in_both-le x e) in absurd (cc)
      ]

  directed_start :
      (low top : ℕ)
      → in_both a b low ≡ true
      → in_both a b top ≡ true
      → in_both a b (directed a low top).initium ≡ true
  directed_start low top h k = elim (Bool-cases (ascending a)) [ inl e ↦ rw e h | inr e ↦ rw e k ]

  high-IsInter :
      (fuel : ℕ) (o : Option (Option ℕ))
      → highest < fuel
      → lowest ≤ highest
      → FoundUp (in_both a b) highest lowest o
      → IsInter a b (inter_high fuel a b highest o)
  high-IsInter fuel none l h f = f
  high-IsInter fuel (some none) l h f = λ x. elim (Bool-cases (in_both a b x)) [
    | inl e ↦ f x (in_both-ge x e) (in_both-le x e)
    | inr e ↦ e
  ]
  high-IsInter fuel (some (some low)) l h f =
      top-IsInter (first_down fuel (in_both a b) low highest)
        (first_down-FoundDown fuel (in_both a b) low highest (in_both-le low f.0) (omega arith))
    where
      top-IsInter :
          (o : Option (Option ℕ))
          → FoundDown (in_both a b) low highest o
          → IsInter a b (elim o as (λ x. Option (Option Intervallum)) [
            | none ↦ none
            | some none ↦ some none
            | some (some top) ↦ some (some (directed a low top))
          ])
      top-IsInter none g = g
      top-IsInter (some none) g = let no = g low (omega arith) (in_both-le low f.0) in absurd (cc)
      top-IsInter (some (some top)) g = (
        directed_start low top f.0 g.0,
        λ x. elim (Bool-cases (leb low top)) [
          | inl k ↦
              continet-directed a low top x (leb→le low top k)
              ∙ common low top x (leb→le low top k) f g
          | inr k ↦ let no = g.2 low (ground arith) (in_both-le low f.0) in absurd (cc)
        ],
      )

  highest-le : (t : IntervallumNumeric) → IsInterval t a → highest ≤ t.last
  highest-le t v = let first = v.initium_fits in let second = v.finis_fits in ground arith

  -- For intervals of values of the type: the search of the intersection ends, with an interval that
  -- starts at a common value and contains exactly the common values, or with nothing if no value is
  -- common.
  pub inter-IsInter :
      (t : IntervallumNumeric)
      → IsInterval t a
      → IsInterval t b
      → IsInter a b (inter (t.last + 2) t a b)
  unfolding inter
  inter-IsInter t v w = elim (Bool-cases (ltb highest lowest)) [
    | inl e ↦ rw e (λ x. elim (Bool-cases (in_both a b x)) [
      | inl i ↦ let first = in_both-ge x i in let second = in_both-le x i in absurd (ground arith)
      | inr o ↦ o
    ])
    | inr n ↦
        let fits : highest ≤ t.last = highest-le t v in
        let ordered : lowest ≤ highest = ground arith in
        rw n (
          high-IsInter (t.last + 2) (first_up (t.last + 2) t (in_both a b) highest lowest)
            (omega arith) ordered
            (first_up-FoundUp (t.last + 2) t (in_both a b) highest lowest fits ordered
              (omega arith)))
  ]

  seek_up_absent :
      (fuel : ℕ) (t : IntervallumNumeric) (v : ℕ)
      → ((x : ℕ) → in_either a b x ≡ false)
      → seek_up fuel t (in_either a b) v ≡ none
  unfolding seek_up
  seek_up_absent zero t v h = refl
  seek_up_absent (suc fuel) t v h = rw (h v, seek_up_absent fuel t (next_up t v) h)

  -- Two intervals without values that still count as touching: the union does not end within any
  -- number of rounds of its loops.
  pub union_diverges :
      (fuel : ℕ) (t : IntervallumNumeric)
      → ((x : ℕ) → in_either a b x ≡ false)
      → touches t a b ≡ true
      → union fuel t a b ≡ none
  unfolding union
  union_diverges fuel t h k = after (inter fuel t a b)
    where
      after :
          (o : Option (Option Intervallum))
          → (elim o as (λ x. Option (Option Intervallum)) [
            | none ↦ none
            | some common ↦
                if not (is_some common) && not (touches t a b)
                then some none
                else union_high fuel a b
                    (max_bound (high_of a) (high_of b))
                    (seek_up fuel t (in_either a b) (min_bound (low_of a) (low_of b)))
          ])
            ≡ none
      after none = refl
      after (some none) = rw (k, seek_up_absent fuel t (min_bound (low_of a) (low_of b)) h)
      after (some (some c)) = rw (seek_up_absent fuel t (min_bound (low_of a) (low_of b)) h)
