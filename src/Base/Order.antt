-- ===== src/Base/Order.antt =====
-- The order of keys: `Ord` reversed, chained by `then_with`, and the order of texts.
use Prim.Native.Nat.{ℕ, compare, Ordering}
use Prim.Native.Nat.Ordering.{lt, eq, gt}
use mathlib.Core.Path.{◌≡◌, refl}
use mathlib.Core.List.{[], ◌∷◌}
use native.Mathlib.Omega.{arith}
use faber_runtime.Base.Key.{Text, then_with, cmp_text}

-- `Ordering::reverse`.
abbrev pub reversed : Ordering → Ordering
reversed lt = gt
reversed eq = eq
reversed gt = lt

pub reversed-then_with :
    (x y x' y' : Ordering)
    → x' ≡ reversed x
    → y' ≡ reversed y
    → then_with x' y' ≡ reversed (then_with x y)
reversed-then_with lt y x' y' e f = rw e refl
reversed-then_with eq y x' y' e f = rw e f
reversed-then_with gt y x' y' e f = rw e refl

-- Three comparisons `a` with `b`, `b` with `c` and `a` with `c` chained with three others: smaller
-- and smaller again is smaller.
pub then_with_trans :
    (ab bc ac ab' bc' ac' : Ordering)
    → (ab ≡ eq → ac ≡ bc)
    → (bc ≡ eq → ac ≡ ab)
    → (ab ≡ lt → bc ≡ lt → ac ≡ lt)
    → (ab ≡ eq → bc ≡ eq → ab' ≡ lt → bc' ≡ lt → ac' ≡ lt)
    → then_with ab ab' ≡ lt
    → then_with bc bc' ≡ lt
    → then_with ac ac' ≡ lt
then_with_trans lt lt ac x y z f g h k p q = rw (h refl refl) refl
then_with_trans lt eq ac x y z f g h k p q = rw (g refl) refl
then_with_trans lt gt ac x y z f g h k p q = cc
then_with_trans eq lt ac x y z f g h k p q = rw (f refl) refl
then_with_trans eq eq ac x y z f g h k p q = rw (f refl) (k refl refl p q)
then_with_trans eq gt ac x y z f g h k p q = cc
then_with_trans gt bc ac x y z f g h k p q = cc

pub compare-reversed : (a b : ℕ) → compare b a ≡ reversed (compare a b)
compare-reversed a b = ground arith

pub compare_trans : (a b c : ℕ) → compare a b ≡ lt → compare b c ≡ lt → compare a c ≡ lt
compare_trans a b c h k = ground arith

pub cmp_text-reversed : (a b : Text) → cmp_text b a ≡ reversed (cmp_text a b)
cmp_text-reversed [] [] = refl
cmp_text-reversed [] (y ∷ ys) = refl
cmp_text-reversed (x ∷ xs) [] = refl
cmp_text-reversed (x ∷ xs) (y ∷ ys) =
    reversed-then_with (compare x y) (cmp_text xs ys) _ _ (compare-reversed x y)
      (cmp_text-reversed xs ys)

pub cmp_text_trans : (a b c : Text) → cmp_text a b ≡ lt → cmp_text b c ≡ lt → cmp_text a c ≡ lt
cmp_text_trans [] [] c h k = k
cmp_text_trans [] (y ∷ ys) [] h k = cc
cmp_text_trans [] (y ∷ ys) (z ∷ zs) h k = refl
cmp_text_trans (x ∷ xs) [] c h k = cc
cmp_text_trans (x ∷ xs) (y ∷ ys) [] h k = cc
cmp_text_trans (x ∷ xs) (y ∷ ys) (z ∷ zs) h k =
    then_with_trans (compare x y) (compare y z) (compare x z) (cmp_text xs ys) (cmp_text ys zs)
      (cmp_text xs zs) (λ e. ground arith) (λ e. ground arith) (compare_trans x y z)
      (λ e f. cmp_text_trans xs ys zs) h k
