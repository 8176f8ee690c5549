-- ===== src/Arena/History/Stale.antt =====
-- A removed handle of src/arena.rs over any history of calls: the generations have 32 bits.
use faber_runtime.Base.{
  ℕ, ◌+◌, ◌-◌, ◌<◌, ◌≡◌, refl, sym, subst, inl, inr, Bool, true, false, Option, none, some, List,
  [], ◌∷◌, get_elem?, set, ◌==◌, if◌then◌else◌, get_elem?-set_self, get_elem?-lt, arith,
}
use faber_runtime.Base.Word.{u32_mod, u32}
use faber_runtime.Arena.{
  Arena, ArenaHandle, Slot, free, live, insert, fill, grow, read, get, get_mut, remove,
}
use faber_runtime.Arena.History.Aged.{Aged, Aged-set, Aged-stale, Aged-later, Aged-push}
use faber_runtime.Arena.History.{Call, inserts, removes, writes, step, run}

abbrev pub removals : {T : Type 0} → List (Call T) → ℕ
removals [] = 0
removals (removes h ∷ cs) = removals cs + 1
removals (inserts x ∷ cs) = removals cs
removals (writes h f ∷ cs) = removals cs

module _ {T : Type 0} where
  -- An arena that a call may or may not leave.
  abbrev AgedAfter : ArenaHandle → ℕ → Option (Arena T) → Type 0
  AgedAfter h most none = Unit
  AgedAfter h most (some b) = Aged h most b.slots

  abbrev arena_of : Option (Arena T × ArenaHandle) → Option (Arena T)
  arena_of none = none
  arena_of (some (b, k)) = some b

  Aged-fill :
      (h : ArenaHandle) (most : ℕ) (a : Arena T) (i : ℕ) (x : T) (o : Option (Slot T))
      → get_elem? a.slots i ≡ o
      → Aged h most a.slots
      → AgedAfter h (most + 0) (arena_of (fill a i x o))
  unfolding fill
  Aged-fill h most a i x (some (free g next)) e d =
      Aged-set h most 0 a.slots i (free g next) (live g x) e (inl refl) d
  Aged-fill h most a i x (some (live g v)) e d = tt
  Aged-fill h most a i x none e d = tt

  Aged-insert :
      (h : ArenaHandle) (most : ℕ) (a : Arena T) (x : T)
      → Aged h most a.slots
      → AgedAfter h (most + 0) (step a (inserts x))
  unfolding step insert grow
  Aged-insert h most a x d = at_head a.free_head
    where
      at_head :
          (o : Option ℕ)
          → AgedAfter h
              (most + 0)
              (elim (elim o as (λ y. Option (Arena T × ArenaHandle)) [
                | some i ↦ fill a i x (get_elem? a.slots i)
                | none ↦ some (grow a x)
              ])
                as (λ y. Option (Arena T)) [ none ↦ none | some (b, k) ↦ some b ])
      at_head none = Aged-push h most a.slots (live 0 x) d
      at_head (some i) = Aged-fill h most a i x (get_elem? a.slots i) refl d

  abbrev freed : Arena T → ArenaHandle → Option T → Option T × Arena T
  freed a k o = elim o as (λ y. Option T × Arena T) [
    | some v ↦ (
      some v,
      record {
        slots = set a.slots k.index (free (u32 (k.generation + 1)) a.free_head);
        free_head = some k.index;
        live_count = a.live_count - 1;
      },
    )
    | none ↦ (none, a)
  ]

  Aged-freed :
      (h : ArenaHandle) (most : ℕ) (a : Arena T) (k : ArenaHandle) (o : Option (Slot T))
      → get_elem? a.slots k.index ≡ o
      → Aged h most a.slots
      → Aged h (most + 1) (freed a k (read o k.generation)).1.slots
  Aged-freed h most a k none e d = Aged-later h most 1 a.slots d
  Aged-freed h most a k (some (free g next)) e d = Aged-later h most 1 a.slots d
  Aged-freed h most a k (some (live g v)) e d = at_live (g == k.generation) refl
    where
      at_live :
          (c : Bool)
          → (g == k.generation) ≡ c
          → Aged h (most + 1) (freed a k (if c then some v else none)).1.slots
      at_live false n = Aged-later h most 1 a.slots d
      at_live true y =
          let same : u32 (k.generation + 1) ≡ u32 (g + 1) = ground arith in
          Aged-set h most 1 a.slots k.index (live g v) (free (u32 (k.generation + 1)) a.free_head) e
            (inr (same, refl)) d

  Aged-remove :
      (h : ArenaHandle) (most : ℕ) (a : Arena T) (k : ArenaHandle)
      → Aged h most a.slots
      → Aged h (most + 1) (remove a k).1.slots
  unfolding remove
  Aged-remove h most a k d = Aged-freed h most a k (get_elem? a.slots k.index) refl d

  abbrev written : Arena T → ArenaHandle → (T → T) → Option T → Option T × Arena T
  written a k f o = elim o as (λ y. Option T × Arena T) [
    | some v ↦ (some v, record a { slots = set a.slots k.index (live k.generation (f v)) })
    | none ↦ (none, a)
  ]

  Aged-written :
      (h : ArenaHandle) (most : ℕ) (a : Arena T) (k : ArenaHandle) (f : T → T) (o : Option (Slot T))
      → get_elem? a.slots k.index ≡ o
      → Aged h most a.slots
      → Aged h (most + 0) (written a k f (read o k.generation)).1.slots
  Aged-written h most a k f none e d = Aged-later h most 0 a.slots d
  Aged-written h most a k f (some (free g next)) e d = Aged-later h most 0 a.slots d
  Aged-written h most a k f (some (live g v)) e d = at_live (g == k.generation) refl
    where
      at_live :
          (c : Bool)
          → (g == k.generation) ≡ c
          → Aged h (most + 0) (written a k f (if c then some v else none)).1.slots
      at_live false n = Aged-later h most 0 a.slots d
      at_live true y =
          let same : k.generation ≡ g = ground arith in
          Aged-set h most 0 a.slots k.index (live g v) (live k.generation (f v)) e (inl same) d

  Aged-get_mut :
      (h : ArenaHandle) (most : ℕ) (a : Arena T) (k : ArenaHandle) (f : T → T)
      → Aged h most a.slots
      → Aged h (most + 0) (get_mut a k f).1.slots
  unfolding get_mut
  Aged-get_mut h most a k f d = Aged-written h most a k f (get_elem? a.slots k.index) refl d

  abbrev cost : Call T → ℕ
  cost (removes k) = 1
  cost (inserts x) = 0
  cost (writes k f) = 0

  Aged-step :
      (h : ArenaHandle) (most : ℕ) (a : Arena T) (c : Call T)
      → Aged h most a.slots
      → AgedAfter h (most + cost c) (step a c)
  unfolding step
  Aged-step h most a (inserts x) d = Aged-insert h most a x d
  Aged-step h most a (removes k) d = Aged-remove h most a k d
  Aged-step h most a (writes k f) d = Aged-get_mut h most a k f d

  cost_lem :
      (most : ℕ) (c : Call T) (cs : List (Call T))
      → most + cost c + removals cs ≡ most + removals (c ∷ cs)
  cost_lem most (inserts x) cs = omega arith
  cost_lem most (removes k) cs = omega arith
  cost_lem most (writes k f) cs = omega arith

  Aged-run :
      (h : ArenaHandle) (most : ℕ) (a : Arena T) (cs : List (Call T))
      → Aged h most a.slots
      → AgedAfter h (most + removals cs) (run a cs)
  unfolding run
  Aged-run h most a [] d = Aged-later h most 0 a.slots d
  Aged-run h most a (c ∷ cs) d =
      next (step a c) (Aged-step h most a c d) (λ b k. Aged-run h (most + cost c) b cs k)
    where
      next :
          (o : Option (Arena T))
          → AgedAfter h (most + cost c) o
          → ((b : Arena T)
              → Aged h (most + cost c) b.slots
              → AgedAfter h (most + cost c + removals cs) (run b cs))
          → AgedAfter h
              (most + removals (c ∷ cs))
              (elim o as (λ y. Option (Arena T)) [ none ↦ none | some b ↦ run b cs ])
      next none k rest = tt
      next (some b) k rest = subst (λ n. AgedAfter h n (run b cs)) (cost_lem most c cs) (rest b k)

  read_present :
      (o : Option (Slot T)) (g : ℕ) (y : T) → read o g ≡ some y → (s : Slot T) × (o ≡ some s)
  read_present none g y e = absurd (cc)
  read_present (some s) g y e = (s, refl)

  -- The first turn.
  Aged-removed :
      (a : Arena T) (h : ArenaHandle) (y : T) → get a h ≡ some y → Aged h 1 (remove a h).1.slots
  unfolding get remove
  Aged-removed a h y e =
      let (s, held) = read_present (get_elem? a.slots h.index) h.generation y e in
      let gone = free (u32 (h.generation + 1)) a.free_head in
      subst (λ o. Aged h 1 (freed a h o).1.slots) (sym e)
        (record {
          slot = gone;
          turns = 1;
          found = get_elem?-set_self a.slots h.index gone (get_elem?-lt a.slots h.index held);
          some_turn = omega arith;
          few_turns = omega arith;
          aged = refl;
        })

  -- A handle that reads a value and is removed is stale after any history of calls that does not
  -- panic and has fewer than 2^32 - 1 calls of `remove`, whatever handles they name and however
  -- they are interleaved with the other calls.
  pub run_stale :
      (a b : Arena T) (h : ArenaHandle) (y : T) (cs : List (Call T))
      → get a h ≡ some y
      → h.generation < u32_mod
      → removals cs + 1 < u32_mod
      → run (remove a h).1 cs ≡ some b
      → get b h ≡ none
  run_stale a b h y cs e small few r = Aged-stale b h (1 + removals cs) small (omega arith) (
      subst (AgedAfter h (1 + removals cs)) r
        (Aged-run h 1 (remove a h).1 cs (Aged-removed a h y e)))
