-- ===== src/Base/Key.antt =====
-- Keys of ordered collections: Rust's derived `Ord`, with the one law that look-ups rest on.
use faber_runtime.Base.Tests.{compare-eq}
use Prim.Native.Nat.{ℕ, compare, Ordering}
use Prim.Native.Nat.Ordering.{lt, eq, gt}
use Prim.Native.String.{String}
use Prim.Native.Char.{code}
use mathlib.Core.Path.{◌≡◌, refl}
use mathlib.Core.List.{List, [], ◌∷◌}
use mathlib.Core.Bool.{Bool, true, false}
use native.Mathlib.Omega.{arith}

pub record Key {ℓ} (K : Type ℓ) : Type ℓ where
  pub cmp : K → K → Ordering
  pub cmp_refl : (a : K) → cmp a a ≡ eq
  pub eq_of_cmp : (a b : K) → cmp a b ≡ eq → a ≡ b

-- `PartialEq` of two keys.
abbrev pub same {ℓ} : {K : Type ℓ} ⦃k : Key K⦄ → K → K → Bool
same ⦃k⦄ a b = elim (k.cmp a b) [ eq ↦ true | _ ↦ false ]

pub same_refl {ℓ} : {K : Type ℓ} ⦃k : Key K⦄ (a : K) → same a a ≡ true
same_refl {K} ⦃k⦄ a = rw (k.cmp_refl a, same)

pub same→eq {ℓ} : {K : Type ℓ} ⦃k : Key K⦄ (a b : K) → same a b ≡ true → a ≡ b
same→eq {K} ⦃k⦄ a b h = k.eq_of_cmp a b (of_same (k.cmp a b) h)
  where
    of_same : (o : Ordering) → elim o as (λ x. Bool) [ eq ↦ true | _ ↦ false ] ≡ true → o ≡ eq
    of_same lt p = cc
    of_same eq p = refl
    of_same gt p = cc

abbrev pub then_with : Ordering → Ordering → Ordering
then_with eq second = second
then_with lt second = lt
then_with gt second = gt

pub nat_refl : (a : ℕ) → compare a a ≡ eq
nat_refl a = (compare-eq a a).1 refl

instance abbrev pub nat_key : Key ℕ
nat_key = record { cmp = compare; cmp_refl = nat_refl; eq_of_cmp = λ a b. (compare-eq a b).0 }

-- The derived `Ord` of a pair.
module _ {A : Type 0} {B : Type 0} ⦃k : Key A⦄ ⦃l : Key B⦄ where
  abbrev pub cmp_pair : A × B → A × B → Ordering
  cmp_pair p q = then_with (k.cmp p.0 q.0) (l.cmp p.1 q.1)

  pub cmp_pair_refl : (p : A × B) → cmp_pair p p ≡ eq
  cmp_pair_refl p = rw (k.cmp_refl p.0) (l.cmp_refl p.1)

  pub eq_of_cmp_pair : (p q : A × B) → cmp_pair p q ≡ eq → p ≡ q
  eq_of_cmp_pair p q h = ground (arith, k.eq_of_cmp p.0 q.0, l.eq_of_cmp p.1 q.1)

instance abbrev pub pair_key : {A B : Type 0} ⦃k : Key A⦄ ⦃l : Key B⦄ → Key (A × B)
pair_key = record { cmp = cmp_pair; cmp_refl = cmp_pair_refl; eq_of_cmp = eq_of_cmp_pair }

-- The bytes of a string, which is how Rust compares two strings.
abbrev pub Text : Type 0
Text = List ℕ

-- The text of an ASCII literal.
abbrev pub text : String → Text
text String.[] = []
text (String.◌∷◌ c s) = code c ∷ text s

abbrev pub cmp_text : Text → Text → Ordering
cmp_text [] [] = eq
cmp_text [] (y ∷ ys) = lt
cmp_text (x ∷ xs) [] = gt
cmp_text (x ∷ xs) (y ∷ ys) = then_with (compare x y) (cmp_text xs ys)

pub cmp_text_refl : (a : Text) → cmp_text a a ≡ eq
cmp_text_refl [] = refl
cmp_text_refl (x ∷ xs) = ground (arith, cmp_text_refl xs)

pub eq_of_cmp_text : (a b : Text) → cmp_text a b ≡ eq → a ≡ b
eq_of_cmp_text [] [] h = refl
eq_of_cmp_text [] (y ∷ ys) h = cc
eq_of_cmp_text (x ∷ xs) [] h = cc
eq_of_cmp_text (x ∷ xs) (y ∷ ys) h = ground (arith, eq_of_cmp_text xs ys)

instance abbrev pub text_key : Key Text
text_key = record { cmp = cmp_text; cmp_refl = cmp_text_refl; eq_of_cmp = eq_of_cmp_text }
