-- ===== src/MapReduce/Order.antt =====
-- The order of texts that `sort.Strings` uses: two different texts are in one of the two orders.
use Prim.Native.Nat.compare as compare_ℕ
use Prim.Native.Nat.{ℕ, zero, suc, Ordering, compare as compare_ℕ}
use Prim.Native.Char.{code}
use Prim.Native.String.compare
use Prim.Native.String.{String, [], ◌∷◌, then, compare}
use text.Mathlib.Text.{is_eq, is_lt, ◌==◌ as str_eq}
use code2go.Prelude.{◌≡◌, refl, sym, ap, ◌∙◌, Bool, true, false}

abbrev pub less : String → String → Bool
less a b = is_lt (compare a b)

abbrev flip : Ordering → Ordering
flip Ordering.lt = Ordering.gt
flip Ordering.eq = Ordering.eq
flip Ordering.gt = Ordering.lt

flip-then : (o p : Ordering) → then (flip o) (flip p) ≡ flip (then o p)
flip-then Ordering.lt p = refl
flip-then Ordering.eq p = refl
flip-then Ordering.gt p = refl

flip_numbers : (m n : ℕ) → compare_ℕ n m ≡ flip (compare_ℕ m n)
flip_numbers zero zero = compare_ℕ.zero-zero ∙ sym (ap flip compare_ℕ.zero-zero)
flip_numbers zero (suc n) = compare_ℕ.suc-zero n ∙ sym (ap flip (compare_ℕ.zero-suc n))
flip_numbers (suc m) zero = compare_ℕ.zero-suc m ∙ sym (ap flip (compare_ℕ.suc-zero m))
flip_numbers (suc m) (suc n) =
    compare_ℕ.suc-suc n m ∙ flip_numbers m n ∙ sym (ap flip (compare_ℕ.suc-suc m n))

flip_texts : (a b : String) → compare b a ≡ flip (compare a b)
flip_texts [] [] = compare.nil-nil ∙ sym (ap flip compare.nil-nil)
flip_texts [] (d ∷ t) = compare.cons-nil d t ∙ sym (ap flip (compare.nil-cons d t))
flip_texts (c ∷ s) [] = compare.nil-cons c s ∙ sym (ap flip (compare.cons-nil c s))
flip_texts (c ∷ s) (d ∷ t) =
    compare.cons-cons d c t s
    ∙ ap (λ o. then o (compare t s)) (flip_numbers (code c) (code d))
    ∙ ap (λ o. then (flip (compare_ℕ (code c) (code d))) o) (flip_texts s t)
    ∙ flip-then (compare_ℕ (code c) (code d)) (compare s t)
    ∙ sym (ap flip (compare.cons-cons c d s t))

decide_flip : (o : Ordering) → is_eq o ≡ false → is_lt o ≡ false → is_lt (flip o) ≡ true
decide_flip Ordering.lt e l = sym l
decide_flip Ordering.eq e l = sym e
decide_flip Ordering.gt e l = refl

pub less_total : (a b : String) → str_eq a b ≡ false → less a b ≡ false → less b a ≡ true
less_total a b differ above = ap is_lt (flip_texts a b) ∙ decide_flip (compare a b) differ above
