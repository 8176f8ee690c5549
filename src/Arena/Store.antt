-- ===== src/Arena/Store.antt =====
-- The methods of src/arena.rs as a store of values under handles: what each changes, and that no
-- history of calls panics or breaks the invariant.
use native.Mathlib.Nat.{mod-eq_of_lt}
use faber_runtime.Base.{
  ℕ, ◌+◌, ◌≤◌, ◌<◌, ◌≡◌, refl, inl, inr, Option, none, some, List, [], ◌∷◌, arith, length,
  get_elem?, length-set, length-append, get_elem?-set_self, get_elem?-set_ne, get_elem?-lt,
  get_elem?_beyond, Option-cases, if◌then◌else◌,
}
use mathlib.Core.Option
use faber_runtime.Base.Word.{u32_mod, u32}
use faber_runtime.Arena.{
  Arena, ArenaHandle, Slot, same_handle, free, live, len, insert, fill, grow, read, get, get_mut,
  remove,
}
use faber_runtime.Arena.Chain.{
  Linked, live_slots, Distinct, live_slots-set, Linked-set, live-Avoids,
}
use faber_runtime.Arena.Invariant.{
  IsValid, Inserted, fill-IsValid, grow-IsValid, get-fill, get-grow, u64_count,
}

module _ {T : Type 0} where
  get-free :
      (a : Arena T) (h : ArenaHandle) (g : ℕ) (next : Option ℕ)
      → get_elem? a.slots h.index ≡ some (free g next)
      → get a h ≡ none
  unfolding get
  get-free a h g next found = rw found

  get_beyond : (a : Arena T) (h : ArenaHandle) → length a.slots ≤ h.index → get a h ≡ none
  unfolding get
  get_beyond a h out = rw (get_elem?_beyond a.slots h.index out)

  insert_by_chain :
      (a : Arena T) (x : T) (is : List ℕ)
      → IsValid a
      → length a.slots < u32_mod
      → Linked a.slots a.free_head is
      → Distinct is
      → length is + live_slots a.slots ≡ length a.slots
      → (b : Arena T) × (h : ArenaHandle) × (insert a x ≡ some (b, h))
        × Inserted a x b h
        × (length b.slots ≤ length a.slots + 1)
  unfolding insert fill grow len
  insert_by_chain a x [] v room (e, _) d c = (
    (grow a x).0,
    (grow a x).1,
    rw e,
    record {
      valid = grow-IsValid a x v e (omega arith);
      fresh = get_beyond a (grow a x).1 (omega (arith, mod-eq_of_lt room));
      reads = λ k. get-grow a x k room;
      counted = u64_count a v (omega arith);
    },
    omega (arith, length-append a.slots (live 0 x ∷ [])),
  )
  insert_by_chain a x (i ∷ is) v room (g, next, e, found, rest) d c = (
    _,
    record { index = i; generation = g },
    rw (e, found),
    record {
      valid = fill-IsValid a x i g next is v (omega arith) found rest d c;
      fresh = get-free a (record { index = i; generation = g }) g next found;
      reads = λ k. get-fill a x i g _ _ next k found;
      counted = u64_count a v (omega arith);
    },
    omega (arith, length-set a.slots i (live g x)),
  )

  -- On a valid arena of fewer than 2^32 slots `insert` does not panic: the arena stays valid with
  -- at most one slot more, the new handle reads the value, and every other handle reads as
  -- before.
  pub insert-Inserted :
      (a : Arena T) (x : T)
      → IsValid a
      → length a.slots < u32_mod
      → (b : Arena T) × (h : ArenaHandle) × (insert a x ≡ some (b, h))
        × Inserted a x b h
        × (length b.slots ≤ length a.slots + 1)
  insert-Inserted a x v room = insert_by_chain a x v.chain v room v.linked v.distinct v.covered

  -- `remove` hands out what `get` shows.
  pub remove-get : (a : Arena T) (h : ArenaHandle) → (remove a h).0 ≡ get a h
  unfolding remove get
  remove-get a h = ground arith

  pub remove_stale : (a : Arena T) (h : ArenaHandle) → get a h ≡ none → remove a h ≡ (none, a)
  unfolding remove get
  remove_stale a h e = ground arith

  -- After `remove` the handle is stale, and every other handle reads as before.
  pub get-remove :
      (a : Arena T) (h k : ArenaHandle)
      → get (remove a h).1 k ≡ (if same_handle k h then none else get a k)
  unfolding remove get
  get-remove a h k = ground (
    arith,
    get_elem?-set_self a.slots h.index (free (u32 (h.generation + 1)) a.free_head),
    get_elem?-set_ne a.slots h.index k.index (free (u32 (h.generation + 1)) a.free_head),
    get_elem?_beyond a.slots h.index,
  )

  get_mut_hit :
      (a : Arena T) (h k : ArenaHandle) (f : T → T) (v : T)
      → get a h ≡ some v
      → get (get_mut a h f).1 k ≡ (if same_handle k h then Option.map f (get a k) else get a k)
  unfolding get_mut get
  get_mut_hit a h k f v e = ground (
    arith,
    get_elem?-set_self a.slots h.index (live h.generation (f v)),
    get_elem?-set_ne a.slots h.index k.index (live h.generation (f v)),
    get_elem?_beyond a.slots h.index,
  )

  get_mut_miss :
      (a : Arena T) (h k : ArenaHandle) (f : T → T)
      → get a h ≡ none
      → get (get_mut a h f).1 k ≡ (if same_handle k h then Option.map f (get a k) else get a k)
  unfolding get_mut get
  get_mut_miss a h k f e = ground arith

  -- A write through `get_mut` changes what its handle reads, if it reads anything, and nothing
  -- that another handle reads.
  pub get-get_mut :
      (a : Arena T) (h k : ArenaHandle) (f : T → T)
      → get (get_mut a h f).1 k ≡ (if same_handle k h then Option.map f (get a k) else get a k)
  get-get_mut a h k f = elim (Option-cases (get a h)) [
    | inl e ↦ get_mut_miss a h k f e
    | inr (v, e) ↦ get_mut_hit a h k f v e
  ]

  live_of_get :
      (a : Arena T) (h : ArenaHandle) (v : T)
      → get a h ≡ some v
      → get_elem? a.slots h.index ≡ some (live h.generation v)
  unfolding get
  live_of_get a h v e = ground arith

  get_of_live :
      (a : Arena T) (h : ArenaHandle) (v : T)
      → get_elem? a.slots h.index ≡ some (live h.generation v)
      → read (get_elem? a.slots h.index) h.generation ≡ some v
  get_of_live a h v e = ground arith

  remove-IsValid_hit :
      (a : Arena T) (h : ArenaHandle) (x : T)
      → IsValid a
      → get_elem? a.slots h.index ≡ some (live h.generation x)
      → IsValid (remove a h).1 × (len (remove a h).1 + 1 ≡ len a)
  unfolding remove len
  remove-IsValid_hit a h x v found =
      let gone : Slot T = free (u32 (h.generation + 1)) a.free_head in
      let counts = live_slots-set a.slots h.index (live h.generation x) gone found in
      let out = live-Avoids a.slots h.index h.generation x a.free_head v.chain found v.linked in
      rw (get_of_live a h x found, remove)
        (
          record {
            chain = h.index ∷ v.chain;
            linked = (
              u32 (h.generation + 1),
              a.free_head,
              refl,
              get_elem?-set_self a.slots h.index gone (get_elem?-lt a.slots h.index found),
              Linked-set a.slots h.index gone a.free_head v.chain out v.linked,
            );
            distinct = (out, v.distinct);
            counted = omega (arith, v.counted, counts);
            covered = omega (arith, v.covered, counts, length-set a.slots h.index gone);
          },
          omega (arith, v.counted, counts),
        )

  -- `remove` keeps a valid arena valid.
  pub remove-IsValid : (a : Arena T) (h : ArenaHandle) → IsValid a → IsValid (remove a h).1
  remove-IsValid a h v = elim (Option-cases (get a h)) [
    | inl e ↦ rw (remove_stale a h e) v
    | inr (x, e) ↦ (remove-IsValid_hit a h x v (live_of_get a h x e)).0
  ]

  get_mut-IsValid_hit :
      (a : Arena T) (h : ArenaHandle) (f : T → T) (x : T)
      → IsValid a
      → get_elem? a.slots h.index ≡ some (live h.generation x)
      → IsValid (get_mut a h f).1
  unfolding get_mut
  get_mut-IsValid_hit a h f x v found =
      let next : Slot T = live h.generation (f x) in
      let counts = live_slots-set a.slots h.index (live h.generation x) next found in
      let out = live-Avoids a.slots h.index h.generation x a.free_head v.chain found v.linked in
      rw (get_of_live a h x found, get_mut)
        (record {
          chain = v.chain;
          linked = Linked-set a.slots h.index next a.free_head v.chain out v.linked;
          distinct = v.distinct;
          counted = omega (arith, v.counted, counts);
          covered = omega (arith, v.covered, counts, length-set a.slots h.index next);
        })

  get_mut_stale :
      (a : Arena T) (h : ArenaHandle) (f : T → T) → get a h ≡ none → get_mut a h f ≡ (none, a)
  unfolding get_mut get
  get_mut_stale a h f e = ground arith

  pub get_mut-IsValid :
      (a : Arena T) (h : ArenaHandle) (f : T → T) → IsValid a → IsValid (get_mut a h f).1
  get_mut-IsValid a h f v = elim (Option-cases (get a h)) [
    | inl e ↦ rw (get_mut_stale a h f e) v
    | inr (x, e) ↦ get_mut-IsValid_hit a h f x v (live_of_get a h x e)
  ]

  pub length-remove : (a : Arena T) (h : ArenaHandle) → length (remove a h).1.slots ≡ length a.slots
  unfolding remove
  length-remove a h =
      ground (arith, length-set a.slots h.index (free (u32 (h.generation + 1)) a.free_head))

  pub length-get_mut :
      (a : Arena T) (h : ArenaHandle) (f : T → T) → length (get_mut a h f).1.slots ≡ length a.slots
  unfolding get_mut
  length-get_mut a h f = elim (Option-cases (get a h)) [
    | inl e ↦ rw (get_mut_stale a h f e)
    | inr (x, e) ↦
        rw (get_of_live a h x (live_of_get a h x e), get_mut)
          (length-set a.slots h.index (live h.generation (f x)))
  ]
