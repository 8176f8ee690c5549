-- ===== src/Arena/History/Aged.antt =====
-- A slot of src/arena.rs that has moved on from the generation of a handle.
use faber_runtime.Base.{
  ℕ, ◌+◌, ◌≤◌, ◌<◌, ◌≡◌, sym, ap, ◌∙◌, subst, ◌⊎◌, inl, inr, false, none, some, List, [], ◌∷◌, ◌++◌,
  get_elem?, set, ◌==◌, Bool-cases, get_elem?-set_self, get_elem?-set_ne, get_elem?-lt,
  get_elem?-append_old, arith,
}
use faber_runtime.Base.Word.{u32_mod, u32}
use faber_runtime.Arena.{Arena, ArenaHandle, Slot, free, live, read, get}

module _ {T : Type 0} where
  some_inj : {x y : Slot T} → some x ≡ some y → x ≡ y
  some_inj e = cc

  abbrev pub generation_of : Slot T → ℕ
  generation_of (free g next) = g
  generation_of (live g v) = g

  -- The slot of the handle is between 1 and `most` generations on.
  pub record Aged (h : ArenaHandle) (most : ℕ) (slots : List (Slot T)) : Type 0 where
    pub slot : Slot T
    pub turns : ℕ
    pub found : get_elem? slots h.index ≡ some slot
    pub some_turn : 1 ≤ turns
    pub few_turns : turns ≤ most
    pub aged : generation_of slot ≡ u32 (h.generation + turns)

  -- A write that keeps the generation, or moves it on by one.
  abbrev pub Turns : Slot T → Slot T → ℕ → Type 0
  Turns old new more =
      (generation_of new ≡ generation_of old)
      ⊎ ((generation_of new ≡ u32 (generation_of old + 1)) × (more ≡ 1))

  Aged-set_self :
      (h : ArenaHandle) (most more : ℕ) (slots : List (Slot T)) (old new : Slot T)
      → get_elem? slots h.index ≡ some old
      → Turns old new more
      → Aged h most slots
      → Aged h (most + more) (set slots h.index new)
  Aged-set_self h most more slots old new at g a =
      let found = get_elem?-set_self slots h.index new (get_elem?-lt slots h.index at) in
      let same_slot : generation_of old ≡ u32 (h.generation + a.turns) =
        held old a.slot (sym at ∙ a.found) a.aged in
      let first = a.some_turn in
      let second = a.few_turns in
      elim g [
        | inl kept ↦ record {
          slot = new;
          turns = a.turns;
          found = found;
          some_turn = first;
          few_turns = omega arith;
          aged = kept ∙ same_slot;
        }
        | inr (moved, one) ↦ record {
          slot = new;
          turns = a.turns + 1;
          found = found;
          some_turn = omega arith;
          few_turns = omega arith;
          aged = omega arith;
        }
      ]
    where
      held : (x y : Slot T) {n : ℕ} → some x ≡ some y → generation_of y ≡ n → generation_of x ≡ n
      held x y e k = ap generation_of (some_inj e) ∙ k

  pub Aged-set :
      (h : ArenaHandle) (most more : ℕ) (slots : List (Slot T)) (i : ℕ) (old new : Slot T)
      → get_elem? slots i ≡ some old
      → Turns old new more
      → Aged h most slots
      → Aged h (most + more) (set slots i new)
  Aged-set h most more slots i old new at g a = elim (Bool-cases (i == h.index)) [
    | inr n ↦ record {
      slot = a.slot;
      turns = a.turns;
      found = get_elem?-set_ne slots i h.index new (λ e. ground arith) ∙ a.found;
      some_turn = a.some_turn;
      few_turns = omega (arith, a.few_turns);
      aged = a.aged;
    }
    | inl e ↦
        let at_index : i ≡ h.index = ground arith in
        subst (λ j. Aged h (most + more) (set slots j new)) (sym at_index)
          (Aged-set_self h most more slots old new (ap (get_elem? slots) (sym at_index) ∙ at) g a)
  ]

  pub Aged-stale :
      (a : Arena T) (h : ArenaHandle) (most : ℕ)
      → h.generation < u32_mod
      → most < u32_mod
      → Aged h most a.slots
      → get a h ≡ none
  unfolding get
  Aged-stale a h most small few d = stale d.slot d.found d.aged
    where
      stale :
          (s : Slot T)
          → get_elem? a.slots h.index ≡ some s
          → generation_of s ≡ u32 (h.generation + d.turns)
          → read (get_elem? a.slots h.index) h.generation ≡ none
      stale (free g next) e k = rw e
      stale (live g v) e k =
          let first = d.some_turn in
          let second = d.few_turns in
          let differ : (g == h.generation) ≡ false = ground arith in rw (e, differ)

  pub Aged-later :
      (h : ArenaHandle) (most more : ℕ) (slots : List (Slot T))
      → Aged h most slots
      → Aged h (most + more) slots
  Aged-later h most more slots a = record {
    slot = a.slot;
    turns = a.turns;
    found = a.found;
    some_turn = a.some_turn;
    few_turns = omega (arith, a.few_turns);
    aged = a.aged;
  }

  pub Aged-push :
      (h : ArenaHandle) (most : ℕ) (slots : List (Slot T)) (new : Slot T)
      → Aged h most slots
      → Aged h (most + 0) (slots ++ new ∷ [])
  Aged-push h most slots new a = record {
    slot = a.slot;
    turns = a.turns;
    found = get_elem?-append_old slots h.index new (get_elem?-lt slots h.index a.found) ∙ a.found;
    some_turn = a.some_turn;
    few_turns = omega (arith, a.few_turns);
    aged = a.aged;
  }
