-- ===== src/Bytes/Reading.antt =====
-- What is written with the helpers of src/device_identity.rs is read back in one way: two
-- encodings that agree, whatever follows them, come from the same value.
use mathlib.Core.List.{append-nil, append_assoc}
use faber_runtime.Base.{
  ℕ, zero, suc, ◌*◌, ◌%◌, ◌/◌, ◌<◌, ◌≡◌, refl, sym, ◌∙◌, List, [], ◌∷◌, ◌++◌, arith, length, All,
}
use faber_runtime.Base.Word.{u64_mod}
use faber_runtime.Base.Key.{Text}
use faber_runtime.Bytes.{to_le_bytes, push_u64, push_str, push_strs}

-- 256 to the power `n`.
abbrev range : ℕ → ℕ
range zero = 1
range (suc n) = 256 * range n

pub cons_inv : (x y : ℕ) (xs ys : List ℕ) → x ∷ xs ≡ y ∷ ys → (x ≡ y) × (xs ≡ ys)
cons_inv x y xs ys e = (cc, cc)

le_inv :
    (n a b : ℕ) (r s : List ℕ)
    → a < range n
    → b < range n
    → to_le_bytes n a ++ r ≡ to_le_bytes n b ++ s
    → (a ≡ b) × (r ≡ s)
le_inv zero a b r s p q e = (omega arith, e)
le_inv (suc n) a b r s p q e =
    let (low, rest) = cons_inv (a % 256) (b % 256) _ _ e in
    let (high, tails) = le_inv n (a / 256) (b / 256) r s (omega arith) (omega arith) rest in
    (omega arith, tails)

append_inv : (x y r s : List ℕ) → length x ≡ length y → x ++ r ≡ y ++ s → (x ≡ y) × (r ≡ s)
append_inv [] [] r s n e = (refl, e)
append_inv [] (y ∷ ys) r s n e = absurd (omega arith)
append_inv (x ∷ xs) [] r s n e = absurd (omega arith)
append_inv (x ∷ xs) (y ∷ ys) r s n e =
    let (h, t) = cons_inv x y _ _ e in
    let (same, rest) = append_inv xs ys r s (omega arith) t in (cc, rest)

-- The bytes of one value, as they stand before what follows.
pub u64_bytes : ℕ → List ℕ
u64_bytes = to_le_bytes 8

pub str_bytes : Text → List ℕ
str_bytes s = u64_bytes (length s) ++ s

pub u64_inv :
    (a b : ℕ) (r s : List ℕ)
    → a < u64_mod
    → b < u64_mod
    → u64_bytes a ++ r ≡ u64_bytes b ++ s
    → (a ≡ b) × (r ≡ s)
unfolding u64_bytes
u64_inv a b r s p q e = le_inv 8 a b r s p q e

pub str_inv :
    (a b : Text) (r s : List ℕ)
    → length a < u64_mod
    → length b < u64_mod
    → str_bytes a ++ r ≡ str_bytes b ++ s
    → (a ≡ b) × (r ≡ s)
unfolding str_bytes
str_inv a b r s p q e =
    let (n, rest) = u64_inv (length a) (length b) (a ++ r) (b ++ s) p q (
      sym (append_assoc (u64_bytes (length a)) a r)
      ∙ e
      ∙ append_assoc (u64_bytes (length b)) b s) in
    append_inv a b r s n rest

-- A count, and that many texts.
pub strs_bytes : List Text → List ℕ
strs_bytes [] = []
strs_bytes (s ∷ ss) = str_bytes s ++ strs_bytes ss

abbrev pub Short : Text → Type 0
Short s = length s < u64_mod

pub strs_inv :
    (a b : List Text) (r s : List ℕ)
    → All Short a
    → All Short b
    → length a ≡ length b
    → strs_bytes a ++ r ≡ strs_bytes b ++ s
    → (a ≡ b) × (r ≡ s)
unfolding strs_bytes
strs_inv [] [] r s p q n e = (refl, e)
strs_inv [] (y ∷ ys) r s p q n e = absurd (omega arith)
strs_inv (x ∷ xs) [] r s p q n e = absurd (omega arith)
strs_inv (x ∷ xs) (y ∷ ys) r s p q n e =
    let (h, t) = str_inv x y (strs_bytes xs ++ r) (strs_bytes ys ++ s) p.0 q.0 (
      sym (append_assoc (str_bytes x) (strs_bytes xs) r)
      ∙ e
      ∙ append_assoc (str_bytes y) (strs_bytes ys) s) in
    let (same, rest) = strs_inv xs ys r s p.1 q.1 (omega arith) t in (cc, rest)

-- The helpers append those bytes.
pub push_u64_lem : (out : List ℕ) (v : ℕ) → push_u64 out v ≡ out ++ u64_bytes v
unfolding push_u64 u64_bytes
push_u64_lem out v = refl

pub push_str_lem : (out : List ℕ) (s : Text) → push_str out s ≡ out ++ str_bytes s
unfolding push_str push_u64 u64_bytes str_bytes
push_str_lem out s = append_assoc out (u64_bytes (length s)) s

pub push_strs_lem : (out : List ℕ) (ss : List Text) → push_strs out ss ≡ out ++ strs_bytes ss
unfolding push_strs strs_bytes
push_strs_lem out [] = sym (append-nil out)
push_strs_lem out (s ∷ ss) =
    push_strs_lem (push_str out s) ss
    ∙ (rw (push_str_lem out s) (append_assoc out (str_bytes s) (strs_bytes ss)))
