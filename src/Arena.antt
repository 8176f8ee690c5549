-- ===== src/Arena.antt =====
-- src/arena.rs: slots with generations, and a free list threaded through the freed slots.
-- A method that mutates `self` returns the new arena. `none` from `insert` is a panic.
pub mod Chain
pub mod Invariant
pub mod Store
pub mod History
pub mod Recycle
use faber_runtime.Base.{
  ℕ, ◌+◌, ◌-◌, Bool, Option, none, some, List, [], ◌∷◌, ◌++◌, length, get_elem?, set, ◌==◌, ◌&&◌,
  if◌then◌else◌, is_some,
}
use faber_runtime.Base.Word.{u32, u64}

pub record ArenaHandle : Type 0 where
  pub index : ℕ
  pub generation : ℕ

pub data Slot {ℓ} (T : Type ℓ) : Type ℓ where
  free : ℕ → Option ℕ → Slot T
  live : ℕ → T → Slot T

pub record Arena {ℓ} (T : Type ℓ) : Type ℓ where
  pub slots : List (Slot T)
  pub free_head : Option ℕ
  pub live_count : ℕ

-- `PartialEq` of handles.
abbrev pub same_handle : ArenaHandle → ArenaHandle → Bool
same_handle h k = h.index == k.index && h.generation == k.generation

module _ {ℓ} {T : Type ℓ} where
  pub new : Arena T
  new = record { slots = []; free_head = none; live_count = 0 }

  pub len : Arena T → ℕ
  len a = a.live_count

  pub is_empty : Arena T → Bool
  is_empty a = a.live_count == 0

  -- The first half of `insert`: the slot that `free_head` names is taken over.
  unfoldable pub fill : Arena T → ℕ → T → Option (Slot T) → Option (Arena T × ArenaHandle)
  fill a i v (some (free g next)) = some (
    record {
      slots = set a.slots i (live g v);
      free_head = next;
      live_count = u64 (a.live_count + 1);
    },
    record { index = i; generation = g },
  )
  fill a i v (some (live g w)) = none
  fill a i v none = none

  -- The second half: a slot is pushed. The index is cut to 32 bits.
  pub grow : Arena T → T → Arena T × ArenaHandle
  grow a v = (
    record a { slots = a.slots ++ live 0 v ∷ []; live_count = u64 (a.live_count + 1) },
    record { index = u32 (length a.slots); generation = 0 },
  )

  unfoldable pub insert : Arena T → T → Option (Arena T × ArenaHandle)
  unfolding fill grow
  insert a v = elim a.free_head [
    | some i ↦ fill a i v (get_elem? a.slots i)
    | none ↦ some (grow a v)
  ]

  -- The `match` that `get`, `get_mut` and `remove` share.
  abbrev pub read : Option (Slot T) → ℕ → Option T
  read (some (live g v)) generation = if g == generation then some v else none
  read (some (free g next)) generation = none
  read none generation = none

  unfoldable pub get : Arena T → ArenaHandle → Option T
  get a h = read (get_elem? a.slots h.index) h.generation

  -- A write through the reference that `get_mut` returns.
  pub get_mut : Arena T → ArenaHandle → (T → T) → Option T × Arena T
  get_mut a h f = elim (read (get_elem? a.slots h.index) h.generation) [
    | some v ↦ (some v, record a { slots = set a.slots h.index (live h.generation (f v)) })
    | none ↦ (none, a)
  ]

  unfoldable pub remove : Arena T → ArenaHandle → Option T × Arena T
  remove a h = elim (read (get_elem? a.slots h.index) h.generation) [
    | some v ↦ (
      some v,
      record {
        slots = set a.slots h.index (free (u32 (h.generation + 1)) a.free_head);
        free_head = some h.index;
        live_count = a.live_count - 1;
      },
    )
    | none ↦ (none, a)
  ]

  pub contains : Arena T → ArenaHandle → Bool
  unfolding get
  contains a h = is_some (get a h)
