-- ===== src/Arena/Chain.antt =====
-- The free list of src/arena.rs as a chain of slot indices, and the count of live slots.
use faber_runtime.Base.{
  ℕ, zero, suc, ◌+◌, ◌≤◌, ◌≡◌, ap, ◌≢◌, Option, none, some, List, [], ◌∷◌, ◌++◌, arith, length,
  get_elem?, set, get_elem?-set_ne, get_elem?-append_old, get_elem?-lt,
}
use faber_runtime.Arena.{Slot, free, live}

module _ {ℓ} {T : Type ℓ} where
  -- `is` are the indices that the free list visits from `head`.
  abbrev pub Linked : List (Slot T) → Option ℕ → List ℕ → Type ℓ
  Linked slots head [] = (head ≡ none) × Unit {ℓ}
  Linked slots head (i ∷ is) =
      (g : ℕ) × (next : Option ℕ) × (head ≡ some i)
      × (get_elem? slots i ≡ some (free g next))
      × Linked slots next is

  abbrev pub weight : Slot T → ℕ
  weight (free g next) = 0
  weight (live g v) = 1

  abbrev pub live_slots : List (Slot T) → ℕ
  live_slots [] = 0
  live_slots (s ∷ slots) = weight s + live_slots slots

-- The index does not occur.
abbrev pub Avoids : ℕ → List ℕ → Type 0
Avoids i [] = Unit
Avoids i (j ∷ is) = (i ≢ j) × Avoids i is

abbrev pub Distinct : List ℕ → Type 0
Distinct [] = Unit
Distinct (i ∷ is) = Avoids i is × Distinct is

module _ {ℓ} {T : Type ℓ} where
  pub live_slots-le : (slots : List (Slot T)) → live_slots slots ≤ length slots
  live_slots-le [] = omega arith
  live_slots-le (free g next ∷ slots) = omega (arith, live_slots-le slots)
  live_slots-le (live g v ∷ slots) = omega (arith, live_slots-le slots)

  pub live_slots-append :
      (slots : List (Slot T)) (s : Slot T)
      → live_slots (slots ++ s ∷ []) ≡ live_slots slots + weight s
  live_slots-append [] s = omega arith
  live_slots-append (t ∷ slots) s = omega (arith, live_slots-append slots s)

  pub live_slots-set :
      (slots : List (Slot T)) (i : ℕ) (old s : Slot T)
      → get_elem? slots i ≡ some old
      → live_slots (set slots i s) + weight old ≡ live_slots slots + weight s
  live_slots-set [] i old s h = absurd (cc)
  live_slots-set (t ∷ slots) zero old s h =
      omega (arith, ap {B = ℕ} (λ o. elim o [ none ↦ 0 | some x ↦ weight x ]) h)
  live_slots-set (t ∷ slots) (suc i) old s h = omega (arith, live_slots-set slots i old s h)

  pub Linked-set :
      (slots : List (Slot T)) (i : ℕ) (s : Slot T) (head : Option ℕ) (is : List ℕ)
      → Avoids i is
      → Linked slots head is
      → Linked (set slots i s) head is
  Linked-set slots i s head [] out h = h
  Linked-set slots i s head (j ∷ is) out (g, next, e, found, rest) = (
    g,
    next,
    e,
    rw (get_elem?-set_ne slots i j s out.0) found,
    Linked-set slots i s next is out.1 rest,
  )

  pub Linked-append :
      (slots : List (Slot T)) (s : Slot T) (head : Option ℕ) (is : List ℕ)
      → Linked slots head is
      → Linked (slots ++ s ∷ []) head is
  Linked-append slots s head [] h = h
  Linked-append slots s head (j ∷ is) (g, next, e, found, rest) = (
    g,
    next,
    e,
    rw (get_elem?-append_old slots j s (get_elem?-lt slots j found)) found,
    Linked-append slots s next is rest,
  )

  -- A live slot is not on the free list.
  pub live-Avoids :
      (slots : List (Slot T)) (i g : ℕ) (v : T) (head : Option ℕ) (is : List ℕ)
      → get_elem? slots i ≡ some (live g v)
      → Linked slots head is
      → Avoids i is
  live-Avoids slots i g v head [] h l = tt
  live-Avoids slots i g v head (j ∷ is) h (k, next, e, found, rest) =
      (λ same. cc (ap (get_elem? slots) same), live-Avoids slots i g v next is h rest)
