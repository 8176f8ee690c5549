-- ===== src/Arena/History.antt =====
-- Histories of calls on the arena of src/arena.rs.
pub mod Aged
pub mod Stale
use faber_runtime.Base.{◌+◌, ◌≤◌, ◌<◌, ◌≡◌, refl, Option, none, some, List, [], ◌∷◌, arith, length}
use faber_runtime.Base.Word.{u32_mod}
use faber_runtime.Arena.{Arena, ArenaHandle, new, insert, get_mut, remove}
use faber_runtime.Arena.Invariant.{IsValid, new-IsValid}
use faber_runtime.Arena.Store.{
  insert-Inserted, remove-IsValid, get_mut-IsValid, length-remove, length-get_mut,
}

pub data Call (T : Type 0) : Type 0 where
  inserts : T → Call T
  removes : ArenaHandle → Call T
  writes : ArenaHandle → (T → T) → Call T

module _ {T : Type 0} where
  -- `none` is a panic.
  unfoldable pub step : Arena T → Call T → Option (Arena T)
  step a (inserts x) = elim (insert a x) [ none ↦ none | some (b, h) ↦ some b ]
  step a (removes h) = some (remove a h).1
  step a (writes h f) = some (get_mut a h f).1

  unfoldable pub run : Arena T → List (Call T) → Option (Arena T)
  run a [] = some a
  run a (c ∷ cs) = elim (step a c) [ none ↦ none | some b ↦ run b cs ]

  step-IsValid :
      (a : Arena T) (c : Call T)
      → IsValid a
      → length a.slots < u32_mod
      → (b : Arena T) × (step a c ≡ some b) × IsValid b × (length b.slots ≤ length a.slots + 1)
  unfolding step
  step-IsValid a (inserts x) v room =
      let (b, h, e, done, grown) = insert-Inserted a x v room in
      (b, rw (e, step), done.valid, grown)
  step-IsValid a (removes h) v room =
      ((remove a h).1, refl, remove-IsValid a h v, omega (arith, length-remove a h))
  step-IsValid a (writes h f) v room =
      ((get_mut a h f).1, refl, get_mut-IsValid a h f v, omega (arith, length-get_mut a h f))

  pub run-IsValid :
      (a : Arena T) (cs : List (Call T))
      → IsValid a
      → length a.slots + length cs < u32_mod
      → (b : Arena T) × (run a cs ≡ some b) × IsValid b
  unfolding run
  run-IsValid a [] v room = (a, refl, v)
  run-IsValid a (c ∷ cs) v room =
      let (b, e, w, grown) = step-IsValid a c v (omega arith) in
      let (r, f, z) = run-IsValid b cs w (omega arith) in (r, rw (e, run) f, z)

  -- From an empty arena no history of fewer than 2^32 calls panics, and it ends in an arena whose
  -- free list and live count are right.
  pub run-new-IsValid :
      (cs : List (Call T)) → length cs < u32_mod → (b : Arena T) × (run new cs ≡ some b) × IsValid b
  unfolding new
  run-new-IsValid cs room = run-IsValid new cs new-IsValid (omega arith)
