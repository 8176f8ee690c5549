-- ===== src/Base/Map.antt =====
-- `BTreeMap` and `BTreeSet` of the standard library: entries in the order of their keys.
use Prim.Native.Nat.{Ordering, ◌≤◌}
use Prim.Native.Nat.Ordering.{lt, eq, gt}
use mathlib.Core.Path.{◌≡◌, refl}
use mathlib.Core.Logic.{◌⊎◌, inl, inr}
use mathlib.Core.Bool.{Bool, true, false, ◌&&◌, ◌||◌}
use mathlib.Core.List.{List, [], ◌∷◌, map}
use mathlib.Core.Option.{Option, none, some}
use native.Mathlib.Omega.{arith}
use faber_runtime.Base.Tests.{if◌then◌else◌, is_some, Bool-cases}
use faber_runtime.Base.Lists.{All, length}
use faber_runtime.Base.Key.{Key, same}

abbrev pub Map {ℓ κ} : Type ℓ → Type κ → Type (ℓ ⊔ κ)
Map K V = List (K × V)

abbrev pub Set {ℓ} : Type ℓ → Type ℓ
Set K = Map K (Unit {0})

module _ {K : Type 0} {V : Type 0} where
  abbrev pub keys : Map K V → List K
  keys = map (λ e. e.0)

  abbrev pub values : Map K V → List V
  values = map (λ e. e.1)

module _ {K : Type 0} {V : Type 0} ⦃k : Key K⦄ where
  unfoldable pub lookup : K → Map K V → Option V
  lookup q [] = none
  lookup q ((p, v) ∷ m) = if same p q then some v else lookup q m

  -- An entry under the same key is replaced.
  unfoldable pub insert : K → V → Map K V → Map K V
  insert q w [] = (q, w) ∷ []
  insert q w ((p, v) ∷ m) = elim (k.cmp q p) [
    | lt ↦ (q, w) ∷ (p, v) ∷ m
    | eq ↦ (q, w) ∷ m
    | gt ↦ (p, v) ∷ insert q w m
  ]

  unfoldable pub remove : K → Map K V → Map K V
  remove q [] = []
  remove q ((p, v) ∷ m) = let rest = remove q m in if same p q then rest else (p, v) ∷ rest

  pub lookup-insert :
      (q j : K) (w : V) (m : Map K V)
      → lookup j (insert q w m) ≡ (if same q j then some w else lookup j m)
  unfolding lookup insert
  lookup-insert q j w [] = refl
  lookup-insert q j w ((p, v) ∷ m) = ground (
    arith,
    k.eq_of_cmp q p,
    k.eq_of_cmp q j,
    k.eq_of_cmp p j,
    k.cmp_refl q,
    lookup-insert q j w m,
  )

  pub lookup-remove :
      (q j : K) (m : Map K V) → lookup j (remove q m) ≡ (if same q j then none else lookup j m)
  unfolding lookup remove
  lookup-remove q j [] = ground arith
  lookup-remove q j ((p, v) ∷ m) =
      ground (
        arith,
        k.eq_of_cmp q j,
        k.eq_of_cmp p j,
        k.eq_of_cmp p q,
        k.cmp_refl q,
        lookup-remove q j m,
      )

  abbrev pub contains_key : K → Map K V → Bool
  contains_key q m = is_some (lookup q m)

module _ {K : Type 0} ⦃k : Key K⦄ where
  abbrev pub contains : K → Set K → Bool
  contains q s = is_some (lookup q s)

  abbrev pub add : K → Set K → Set K
  add q s = insert q tt s

  -- `extend` of a set, and `collect` into one.
  unfoldable pub add_all : List K → Set K → Set K
  add_all [] s = s
  add_all (q ∷ qs) s = add_all qs (add q s)

  abbrev pub of_list : List K → Set K
  of_list qs = add_all qs []

  pub contains-add : (q j : K) (s : Set K) → contains j (add q s) ≡ (same q j || contains j s)
  contains-add q j s = ground (arith, lookup-insert q j tt s)

  unfoldable pub any_same : K → List K → Bool
  any_same j [] = false
  any_same j (q ∷ qs) = same q j || any_same j qs

  pub contains-add_all :
      (qs : List K) (j : K) (s : Set K)
      → contains j (add_all qs s) ≡ (any_same j qs || contains j s)
  unfolding add_all any_same
  contains-add_all [] j s = refl
  contains-add_all (q ∷ qs) j s =
      ground (arith, contains-add q j s, contains-add_all qs j (add q s))

  pub any_same-keys : (j : K) (s : Set K) → any_same j (keys s) ≡ contains j s
  unfolding any_same lookup
  any_same-keys j [] = refl
  any_same-keys j ((q, u) ∷ s) = ground (arith, any_same-keys j s)

  pub contains-of_list : (qs : List K) (j : K) → contains j (of_list qs) ≡ any_same j qs
  unfolding lookup
  contains-of_list qs j = ground (arith, contains-add_all qs j [])

  pub any_same-head_or_tail :
      (j q : K) (qs : List K)
      → any_same j (q ∷ qs) ≡ true
      → (same q j ≡ true) ⊎ (any_same j qs ≡ true)
  unfolding any_same
  any_same-head_or_tail j q qs h = elim (Bool-cases (same q j)) [
    | inl e ↦ inl e
    | inr n ↦ inr (ground arith)
  ]

  -- One step of a filter.
  pub any_same-if :
      (b : Bool) (j q : K) (qs : List K)
      → any_same j (if b then q ∷ qs else qs) ≡ (b && same q j || any_same j qs)
  unfolding any_same
  any_same-if true j q qs = refl
  any_same-if false j q qs = refl

  -- A set of at most one member.
  pub two_in_one :
      (s : Set K) (x y : K) → length s ≤ 1 → contains x s ≡ true → contains y s ≡ true → x ≡ y
  unfolding lookup
  two_in_one [] x y h p q = absurd (cc)
  two_in_one ((z, u) ∷ []) x y h p q = ground (arith, k.eq_of_cmp z x, k.eq_of_cmp z y)
  two_in_one ((z, u) ∷ w ∷ s) x y h p q = absurd (omega arith)

module _ {K : Type 0} {V : Type 0} ⦃k : Key K⦄ where
  pub insert-ne-nil : (q : K) (w : V) (m : Map K V) → insert q w m ≡ [] → ⊥
  unfolding insert
  insert-ne-nil q w [] e = cc
  insert-ne-nil q w ((p, v) ∷ m) e = ground arith

  pub any_same-map_keys : (j : K) (m : Map K V) → any_same j (keys m) ≡ contains_key j m
  unfolding any_same lookup
  any_same-map_keys j [] = refl
  any_same-map_keys j ((q, v) ∷ m) = ground (arith, any_same-map_keys j m)

  -- A property of the keys, after an insertion.
  pub All-insert :
      (P : K → Type 0) (q : K) (w : V) (m : Map K V)
      → P q
      → All P (keys m)
      → All P (keys (insert q w m))
  unfolding insert
  All-insert P q w [] h a = (h, tt)
  All-insert P q w ((p, v) ∷ m) h a = at_key (k.cmp q p) q w p v m h a (All-insert P q w m h a.1)
    where
      at_key :
          (o : Ordering) (q : K) (w : V) (p : K) (v : V) (m : Map K V)
          → P q
          → All P (keys ((p, v) ∷ m))
          → All P (keys (insert q w m))
          → All P (
              keys (elim o as (λ x. Map K V) [
                | lt ↦ (q, w) ∷ (p, v) ∷ m
                | eq ↦ (q, w) ∷ m
                | gt ↦ (p, v) ∷ insert q w m
              ]))
      at_key lt q w p v m h a rest = (h, a)
      at_key eq q w p v m h a rest = (h, a.1)
      at_key gt q w p v m h a rest = (a.0, rest)

module _ {K : Type 0} ⦃k : Key K⦄ where
  pub All-add_all :
      (P : K → Type 0) (qs : List K) (s : Set K)
      → All P qs
      → All P (keys s)
      → All P (keys (add_all qs s))
  unfolding add_all
  All-add_all P [] s h a = a
  All-add_all P (q ∷ qs) s h a = All-add_all P qs (add q s) h.1 (All-insert P q tt s h.0 a)
