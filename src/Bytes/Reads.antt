-- ===== src/Bytes/Reads.antt =====
-- Encodings that can be read back, put together from those of src/device_identity.rs.
use mathlib.Core.List.{append_assoc}
use faber_runtime.Base.{ℕ, suc, ◌<◌, ◌≡◌, refl, sym, ap, ◌∙◌, List, [], ◌∷◌, ◌++◌, length, All}
use faber_runtime.Base.Word.{u64_mod}
use faber_runtime.Base.Key.{Text}
use faber_runtime.Base.Map.{Set, keys}
use faber_runtime.Bytes.Reading.{
  u64_bytes, u64_inv, str_bytes, str_inv, strs_bytes, strs_inv, Short,
}

-- Two encodings that are followed by anything are the same only if the values are.
abbrev pub IsReadable : {A : Type 0} → (A → Type 0) → (A → List ℕ) → Type 0
IsReadable {A} P f = (a b : A) (r s : List ℕ) → P a → P b → f a ++ r ≡ f b ++ s → (a ≡ b) × (r ≡ s)

module _ {A B : Type 0} where
  -- One encoding after the other.
  abbrev pub then_bytes : (A → List ℕ) → (B → List ℕ) → A × B → List ℕ
  then_bytes f g x = f x.0 ++ g x.1

  abbrev pub Both : (A → Type 0) → (B → Type 0) → A × B → Type 0
  Both P Q x = P x.0 × Q x.1

  pub then_bytes-IsReadable :
      (P : A → Type 0) (Q : B → Type 0) (f : A → List ℕ) (g : B → List ℕ)
      → IsReadable P f
      → IsReadable Q g
      → IsReadable (Both P Q) (then_bytes f g)
  then_bytes-IsReadable P Q f g h k a b r s p q e =
      let (first, rest) =
        h a.0 b.0 (g a.1 ++ r) (g b.1 ++ s) p.0 q.0
          (sym (append_assoc (f a.0) (g a.1) r) ∙ e ∙ append_assoc (f b.0) (g b.1) s) in
      let (second, tail) = k a.1 b.1 r s p.1 q.1 rest in
      (ap (λ y. (a.0, y)) second ∙ ap (λ x. (x, b.1)) first, tail)

  -- An encoding of what a value is made of.
  pub IsReadable-through :
      (Q : B → Type 0) (g : B → List ℕ) (parts : A → B) (whole : B → A)
      → ((a : A) → whole (parts a) ≡ a)
      → IsReadable Q g
      → IsReadable (λ a. Q (parts a)) (λ a. g (parts a))
  IsReadable-through Q g parts whole back h a b r s p q e =
      let (same_parts, rest) = h (parts a) (parts b) r s p q e in
      (sym (back a) ∙ ap whole same_parts ∙ back b, rest)

abbrev pub IsWord : ℕ → Type 0
IsWord n = n < u64_mod

pub u64_bytes-IsReadable : IsReadable IsWord u64_bytes
u64_bytes-IsReadable a b r s p q e = u64_inv a b r s p q e

pub str_bytes-IsReadable : IsReadable Short str_bytes
str_bytes-IsReadable a b r s p q e = str_inv a b r s p q e

-- A set of texts: its size, and its members in order.
abbrev pub set_bytes : Set Text → List ℕ
set_bytes s = u64_bytes (length s) ++ strs_bytes (keys s)

abbrev pub IsShortSet : Set Text → Type 0
IsShortSet s = IsWord (length s) × All Short (keys s)

pub length-keys : (s : Set Text) → length (keys s) ≡ length s
length-keys [] = refl
length-keys (x ∷ s) = ap suc (length-keys s)

abbrev of_keys : List Text → Set Text
of_keys [] = []
of_keys (x ∷ xs) = (x, tt) ∷ of_keys xs

of_keys-keys : (s : Set Text) → of_keys (keys s) ≡ s
of_keys-keys [] = refl
of_keys-keys (x ∷ s) = ap (λ y. x ∷ y) (of_keys-keys s)

pub set_bytes-IsReadable : IsReadable IsShortSet set_bytes
set_bytes-IsReadable a b r s p q e =
    let (size, rest) =
      u64_inv (length a) (length b) (strs_bytes (keys a) ++ r) (strs_bytes (keys b) ++ s) p.0 q.0 (
        sym (append_assoc (u64_bytes (length a)) (strs_bytes (keys a)) r)
        ∙ e
        ∙ append_assoc (u64_bytes (length b)) (strs_bytes (keys b)) s) in
    let (members, tail) =
      strs_inv (keys a) (keys b) r s p.1 q.1 (length-keys a ∙ size ∙ sym (length-keys b)) rest in
    (sym (of_keys-keys a) ∙ ap of_keys members ∙ of_keys-keys b, tail)
