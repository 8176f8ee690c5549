-- ===== src/Arena/Recycle.antt =====
-- How long a stale handle of src/arena.rs stays stale: the generations have 32 bits.
use faber_runtime.Base.{
  ℕ, zero, suc, ◌+◌, ◌-◌, ◌<◌, ◌≡◌, ap, ◌∙◌, subst, Option, none, some, arith, set,
  get_elem?-set_self, get_elem?_beyond, length-set,
}
use faber_runtime.Base.Word.{u32_mod, u32, u64}
use faber_runtime.Arena.{Arena, ArenaHandle, free, live, insert, fill, get, remove}

abbrev pub later : ArenaHandle → ℕ → ArenaHandle
later h n = record h { generation = u32 (h.generation + n) }

later_once : (h : ArenaHandle) (n : ℕ) → later (later h 1) n ≡ later h (suc n)
later_once h n = ground arith

later_zero : (h : ArenaHandle) → h.generation < u32_mod → later h 0 ≡ h
later_zero h small = ground arith

later_turn : (h : ArenaHandle) → h.generation < u32_mod → later h u32_mod ≡ h
later_turn h small = ground arith

module _ {T : Type 0} where
  -- The value under a handle is replaced `n` times: removed, and inserted anew.
  pub recycle : ℕ → Arena T → ArenaHandle → T → Option (Arena T × ArenaHandle)
  recycle zero a h x = some (a, h)
  recycle (suc n) a h x = elim (insert (remove a h).1 x) [
    | none ↦ none
    | some (b, k) ↦ recycle n b k x
  ]

  -- The slot goes to the free list and comes back at once, one generation on.
  turned : Arena T → ArenaHandle → T → Arena T
  turned a h x = record {
    slots =
        set (set a.slots h.index (free (u32 (h.generation + 1)) a.free_head)) h.index
          (live (u32 (h.generation + 1)) x);
    free_head = a.free_head;
    live_count = u64 (a.live_count - 1 + 1);
  }

  insert-remove :
      (a : Arena T) (h : ArenaHandle) (x y : T)
      → get a h ≡ some y
      → insert (remove a h).1 x ≡ some (turned a h x, later h 1)
  unfolding get insert fill remove turned
  insert-remove a h x y e = ground (
    arith,
    get_elem?_beyond a.slots h.index,
    get_elem?-set_self a.slots h.index (free (u32 (h.generation + 1)) a.free_head),
  )

  get-turned :
      (a : Arena T) (h : ArenaHandle) (x y : T)
      → get a h ≡ some y
      → get (turned a h x) (later h 1) ≡ some x
  unfolding get turned
  get-turned a h x y e = ground (
    arith,
    get_elem?_beyond a.slots h.index,
    length-set a.slots h.index (free (u32 (h.generation + 1)) a.free_head),
    get_elem?-set_self (set a.slots h.index (free (u32 (h.generation + 1)) a.free_head)) h.index
        (live (u32 (h.generation + 1)) x),
  )

  pub recycle_lem :
      (n : ℕ) (a : Arena T) (h : ArenaHandle) (x y : T)
      → get a h ≡ some y
      → h.generation < u32_mod
      → (b : Arena T) × (z : T) × (recycle n a h x ≡ some (b, later h n))
        × (get b (later h n) ≡ some z)
  unfolding recycle
  recycle_lem zero a h x y e small = (a, y, rw (later_zero h small), rw (later_zero h small) e)
  recycle_lem (suc n) a h x y e small =
      let (b, z, f, g) =
        recycle_lem n (turned a h x) (later h 1) x x (get-turned a h x y e) (omega arith) in
      (
        b,
        z,
        rw (insert-remove a h x y e, recycle) (f ∙ ap (λ k. some (b, k)) (later_once h n)),
        rw (← later_once h n) g,
      )

  -- A handle that reads a value reads one again after exactly 2^32 reuses of its slot, and is
  -- then the handle of the last reuse.
  pub recycle_revives :
      (a : Arena T) (h : ArenaHandle) (x y : T)
      → get a h ≡ some y
      → h.generation < u32_mod
      → (b : Arena T) × (z : T) × (recycle u32_mod a h x ≡ some (b, h)) × (get b h ≡ some z)
  recycle_revives a h x y e small =
      let (b, z, f, g) = recycle_lem u32_mod a h x y e small in
      (
        b,
        z,
        f ∙ ap (λ k. some (b, k)) (later_turn h small),
        subst (λ k. get b k ≡ some z) (later_turn h small) g,
      )
