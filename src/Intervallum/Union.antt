-- ===== src/Intervallum/Union.antt =====
-- src/intervallum.rs: the union of two intervals of which one holds a value.
use faber_runtime.Base.{
  ℕ, ◌+◌, ◌≤◌, ◌<◌, ◌≡◌, ◌⊎◌, inl, inr, ap, sym, subst, ◌∙◌, true, false, ◌&&◌, not, Option, none,
  some, leb, Bool-cases, is_some, if◌then◌else◌, leb→le, arith,
}
use faber_runtime.Intervallum.{Intervallum, IntervallumNumeric, continet, max_bound, min_bound}
use faber_runtime.Intervallum.Sets.{
  low_of, high_of, in_both, in_either, directed, inter, touches, seek_up, seek_down, union_high,
  union,
}
use faber_runtime.Intervallum.Lista.{IsInterval}
use faber_runtime.Intervallum.Inter.{continet-directed, IsInter, inter-IsInter}
use faber_runtime.Intervallum.Gap.{HasGap, touches-HasGap}
use faber_runtime.Intervallum.Meets.{in_either-convex}
use faber_runtime.Intervallum.Seek.{clash, First, Last, seek_up-First, seek_down-Last}

-- A search that ends, without a gap that is closed; a refusal of two intervals that hold values has
-- a gap to show.
abbrev pub IsUnion :
    IntervallumNumeric → Intervallum → Intervallum → Option (Option Intervallum) → Type 0
IsUnion t a b none = ⊥
IsUnion t a b (some none) =
    ((x : ℕ) → in_both a b x ≡ false)
    × (touches t a b ≡ false)
    × ((v w : ℕ) → continet a v ≡ true → continet b w ≡ true → HasGap a b v w)
IsUnion t a b (some (some c)) = (x : ℕ) → continet c x ≡ in_either a b x

module _ (t : IntervallumNumeric) (a b : Intervallum) (i : IsInterval t a)
    (j : IsInterval t b) where
  abbrev lowest : ℕ
  lowest = min_bound (low_of a) (low_of b)

  abbrev highest : ℕ
  highest = max_bound (high_of a) (high_of b)

  in_either-ge : (x : ℕ) → in_either a b x ≡ true → lowest ≤ x
  unfolding continet
  in_either-ge x h = ground arith

  in_either-le : (x : ℕ) → in_either a b x ≡ true → x ≤ highest
  unfolding continet
  in_either-le x h = ground arith

  highest-le : highest ≤ t.last
  highest-le =
      let first = i.initium_fits in
      let second = i.finis_fits in
      let third = j.initium_fits in let fourth = j.finis_fits in ground arith

  spanned :
      ((x : ℕ) × (in_both a b x ≡ true)) ⊎ (touches t a b ≡ true)
      → (low top x : ℕ) → in_either a b low ≡ true
      → in_either a b top ≡ true
      → ((y : ℕ) → lowest ≤ y → y < low → in_either a b y ≡ false)
      → ((y : ℕ) → top < y → y ≤ highest → in_either a b y ≡ false)
      → (leb low x && leb x top) ≡ in_either a b x
  spanned met low top x h k f g = elim (Bool-cases (in_either a b x)) [
    | inl e ↦
        let above : low ≤ x = not_below x e in let below : x ≤ top = not_above x e in ground arith
    | inr e ↦ elim (Bool-cases (leb low x && leb x top)) [
      | inl m ↦
          let inside : in_either a b x ≡ true =
            in_either-convex t a b i j met low top x h k (ground arith) (ground arith) in
          absurd (clash inside e)
      | inr o ↦ o ∙ sym e
    ]
  ]
    where
      not_below : (x : ℕ) → in_either a b x ≡ true → low ≤ x
      not_below x e = elim (Bool-cases (leb low x)) [
        | inl l ↦ leb→le low x l
        | inr l ↦ absurd (clash e (f x (in_either-ge x e) (ground arith)))
      ]

      not_above : (x : ℕ) → in_either a b x ≡ true → x ≤ top
      not_above x e = elim (Bool-cases (leb x top)) [
        | inl l ↦ leb→le x top l
        | inr l ↦ absurd (clash e (g x (ground arith) (in_either-le x e)))
      ]

  first_le_last :
      (low top : ℕ)
      → in_either a b low ≡ true
      → in_either a b top ≡ true
      → ((y : ℕ) → lowest ≤ y → y < low → in_either a b y ≡ false)
      → low ≤ top
  first_le_last low top h k before = elim (Bool-cases (leb low top)) [
    | inl l ↦ leb→le low top l
    | inr l ↦ absurd (clash k (before top (in_either-ge top k) (ground arith)))
  ]

  joined-IsUnion :
      (w : ℕ)
      → in_either a b w ≡ true
      → ((x : ℕ) × (in_both a b x ≡ true)) ⊎ (touches t a b ≡ true)
      → IsUnion t a b
          (union_high (t.last + 2) a b highest (seek_up (t.last + 2) t (in_either a b) lowest))
  joined-IsUnion w e met =
      let fits = highest-le in
      let above = in_either-ge w e in
      let below = in_either-le w e in
      let up =
        seek_up-First (t.last + 2) t (in_either a b) lowest w above (omega arith) (omega arith) e in
      let down = seek_down-Last (t.last + 2) (in_either a b) highest w below (omega arith) e in
      from_ends up down
    where
      from_ends :
          First (in_either a b) lowest (seek_up (t.last + 2) t (in_either a b) lowest)
          → Last (in_either a b) highest (seek_down (t.last + 2) (in_either a b) highest)
          → IsUnion t a b
              (union_high (t.last + 2) a b highest (seek_up (t.last + 2) t (in_either a b) lowest))
      from_ends (low, found, holds, above, before) (top, last, ends, below, after) =
          let ordered : low ≤ top = first_le_last low top holds ends before in
          subst (IsUnion t a b)
            (sym (
              ap (union_high (t.last + 2) a b highest) found
              ∙ ap
                  (λ o. elim o as (λ y. Option (Option Intervallum)) [
                    | none ↦ none
                    | some up ↦ some (some (directed a low up))
                  ])
                  last))
            (λ x.
              continet-directed a low top x ordered ∙ spanned met low top x holds ends before after)

  inter_some :
      (w : ℕ) (o : Option (Option Intervallum))
      → in_either a b w ≡ true
      → IsInter a b o
      → IsUnion t a b (elim o as (λ x. Option (Option Intervallum)) [
        | none ↦ none
        | some common ↦
            if not (is_some common) && not (touches t a b)
            then some none
            else union_high (t.last + 2) a b highest (seek_up (t.last + 2) t (in_either a b) lowest)
      ])
  inter_some w none e f = f
  inter_some w (some none) e f = elim (Bool-cases (touches t a b)) [
    | inl k ↦ rw k (joined-IsUnion w e (inr k))
    | inr k ↦ rw k (f, k, touches-HasGap t a b i j k f)
  ]
  inter_some w (some (some c)) e f = joined-IsUnion w e (inl (c.initium, f.0))

  -- For intervals of values of the type of which one holds a value: the union ends, with an interval
  -- of exactly the values that one of them holds, or with nothing if no value is common and they do
  -- not touch; any value of the one and any of the other then have a value between them that neither
  -- holds.
  pub union-IsUnion : (w : ℕ) → in_either a b w ≡ true → IsUnion t a b (union (t.last + 2) t a b)
  unfolding union
  union-IsUnion w e = inter_some w (inter (t.last + 2) t a b) e (inter-IsInter a b t i j)
