-- ===== src/Arena/Invariant.antt =====
-- The representation invariant of src/arena.rs, and that every method keeps it.
use native.Mathlib.Nat.{mod-eq_of_lt}
use faber_runtime.Base.{
  ℕ, ◌+◌, ◌<◌, ◌≡◌, refl, ◌∙◌, Option, none, some, List, [], ◌∷◌, ◌++◌, arith, length, get_elem?,
  set, length-set, length-append, get_elem?-set_self, get_elem?-lt, get_elem?-append_new,
  if◌then◌else◌, get_elem?-append_old, get_elem?-set_ne, get_elem?_beyond,
}
use faber_runtime.Base.Word.{u64_mod, u64, u32_mod}
use faber_runtime.Arena.{Arena, ArenaHandle, same_handle, free, live, new, len, grow, get}
use faber_runtime.Arena.Chain.{
  Linked, live_slots, Distinct, live_slots-le, live_slots-append, live_slots-set, Linked-set,
  Linked-append,
}

-- The free list is a chain without repetition through exactly the slots that are not live.
pub record IsValid {T : Type 0} (a : Arena T) : Type 0 where
  pub chain : List ℕ
  pub linked : Linked a.slots a.free_head chain
  pub distinct : Distinct chain
  pub counted : a.live_count ≡ live_slots a.slots
  pub covered : length chain + live_slots a.slots ≡ length a.slots

module _ {T : Type 0} where
  pub new-IsValid : IsValid {T = T} new
  unfolding new
  new-IsValid = record {
    chain = [];
    linked = (refl, tt);
    distinct = tt;
    counted = refl;
    covered = refl;
  }

  pub u64_count :
      (a : Arena T)
      → IsValid a
      → length a.slots + 1 < u64_mod
      → u64 (a.live_count + 1) ≡ a.live_count + 1
  u64_count a v room = mod-eq_of_lt (omega (arith, v.counted, live_slots-le a.slots))

  pub fill-IsValid :
      (a : Arena T) (x : T) (i g : ℕ) (next : Option ℕ) (is : List ℕ)
      → IsValid a
      → length a.slots + 1 < u64_mod
      → get_elem? a.slots i ≡ some (free g next)
      → Linked a.slots next is
      → Distinct (i ∷ is)
      → length (i ∷ is) + live_slots a.slots ≡ length a.slots
      → IsValid (record {
        slots = set a.slots i (live g x);
        free_head = next;
        live_count = u64 (a.live_count + 1);
      })
  fill-IsValid a x i g next is v room found rest d c =
      let counts = live_slots-set a.slots i (free g next) (live g x) found in
      record {
        chain = is;
        linked = Linked-set a.slots i (live g x) next is d.0 rest;
        distinct = d.1;
        counted = u64_count a v room ∙ omega (arith, v.counted, counts);
        covered = omega (arith, c, counts, length-set a.slots i (live g x));
      }

  pub grow-IsValid :
      (a : Arena T) (x : T)
      → IsValid a
      → a.free_head ≡ none
      → length a.slots + 1 < u64_mod
      → IsValid (grow a x).0
  unfolding grow
  grow-IsValid a x v e room =
      let counts = live_slots-append a.slots (live 0 x) in
      record {
        chain = v.chain;
        linked = Linked-append a.slots (live 0 x) a.free_head v.chain v.linked;
        distinct = v.distinct;
        counted = u64_count a v room ∙ omega (arith, v.counted, counts);
        covered = omega (arith, v.covered, counts, length-append a.slots (live 0 x ∷ []));
      }

  -- What `insert` of `x` has done when it has returned `b` and the handle `h`.
  pub record Inserted (a : Arena T) (x : T) (b : Arena T) (h : ArenaHandle) : Type 0 where
    pub valid : IsValid b
    pub fresh : get a h ≡ none
    pub reads : (k : ArenaHandle) → get b k ≡ (if same_handle k h then some x else get a k)
    pub counted : len b ≡ len a + 1

  pub get-fill :
      (a : Arena T) (x : T) (i g n : ℕ) (head next : Option ℕ) (k : ArenaHandle)
      → get_elem? a.slots i ≡ some (free g next)
      → get (record { slots = set a.slots i (live g x); free_head = head; live_count = n }) k
        ≡ (if same_handle k (record { index = i; generation = g }) then some x else get a k)
  unfolding get
  get-fill a x i g n head next k found = ground (
    arith,
    get_elem?-set_self a.slots i (live g x) (get_elem?-lt a.slots i found),
    get_elem?-set_ne a.slots i k.index (live g x),
    found,
  )

  pub get-grow :
      (a : Arena T) (x : T) (k : ArenaHandle)
      → length a.slots < u32_mod
      → get (grow a x).0 k ≡ (if same_handle k (grow a x).1 then some x else get a k)
  unfolding get grow
  get-grow a x k room = ground (
    arith,
    get_elem?-append_new a.slots (live 0 x),
    get_elem?-append_old a.slots k.index (live 0 x),
    get_elem?_beyond a.slots k.index,
    get_elem?_beyond (a.slots ++ live 0 x ∷ []) k.index,
    length-append a.slots (live 0 x ∷ []),
    mod-eq_of_lt room,
  )
