-- ===== src/Bytes.antt =====
-- src/device_identity.rs, the canonical byte helpers, and that what they write can be read back
-- in one way only.
pub mod Reading
pub mod Reads
use faber_runtime.Base.{ℕ, zero, suc, ◌%◌, ◌/◌, Bool, true, false, List, [], ◌∷◌, ◌++◌, length}
use faber_runtime.Base.Key.{Text}

-- `to_le_bytes` of a word of `n` bytes.
abbrev pub to_le_bytes : ℕ → ℕ → List ℕ
to_le_bytes zero v = []
to_le_bytes (suc n) v = (v % 256) ∷ to_le_bytes n (v / 256)

pub push_u64 : List ℕ → ℕ → List ℕ
push_u64 out v = out ++ to_le_bytes 8 v

pub push_u32 : List ℕ → ℕ → List ℕ
push_u32 out v = out ++ to_le_bytes 4 v

unfoldable pub push_bool : List ℕ → Bool → List ℕ
push_bool out true = out ++ 1 ∷ []
push_bool out false = out ++ 0 ∷ []

pub push_str : List ℕ → Text → List ℕ
unfolding push_u64
push_str out s = push_u64 out (length s) ++ s

-- `out.push(tag)`.
abbrev pub push : List ℕ → ℕ → List ℕ
push out b = out ++ b ∷ []

-- A loop that pushes each text of a list.
pub push_strs : List ℕ → List Text → List ℕ
push_strs out [] = out
push_strs out (s ∷ ss) = push_strs (push_str out s) ss
