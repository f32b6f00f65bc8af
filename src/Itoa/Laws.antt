-- ===== src/Itoa/Laws.antt =====
-- Reading back what `itoa` prints.
use Prim.Native.Char.{Char, code}
use Prim.Native.String.{String, ◌++◌ as str_append}
use Prim.Native.String.append
use code2go.Prelude.{
  ℕ, zero, suc, ◌+◌, ◌-◌, ◌*◌, ◌/◌, ◌%◌, ◌<◌, ◌≡◌, refl, ap, sym, ◌∙◌, Bool, true, ◌&&◌, ltb, leb,
  if◌then◌else◌, arith, Bool-cases, inl, inr, ltb→lt,
}
use code2go.Itoa.{digit, emit, itoa}

unfoldable pub is_digit : Char → Bool
is_digit c = leb 48 (code c) && leb (code c) 57

-- Read digits from the front, and return the number with what is left.
unfoldable pub read_num : String → ℕ → ℕ × String
read_num String.[] acc = (acc, String.[])
read_num (String.◌∷◌ c s) acc =
    if is_digit c then read_num s (acc * 10 + (code c - 48)) else (acc, String.◌∷◌ c s)

digit-is_digit : (d : ℕ) → d < 10 → (is_digit (digit d) ≡ true) × (code (digit d) - 48 ≡ d)
unfolding digit is_digit
digit-is_digit zero h = (refl, refl)
digit-is_digit (suc zero) h = (refl, refl)
digit-is_digit (suc (suc zero)) h = (refl, refl)
digit-is_digit (suc (suc (suc zero))) h = (refl, refl)
digit-is_digit (suc (suc (suc (suc zero)))) h = (refl, refl)
digit-is_digit (suc (suc (suc (suc (suc zero))))) h = (refl, refl)
digit-is_digit (suc (suc (suc (suc (suc (suc zero)))))) h = (refl, refl)
digit-is_digit (suc (suc (suc (suc (suc (suc (suc zero))))))) h = (refl, refl)
digit-is_digit (suc (suc (suc (suc (suc (suc (suc (suc zero)))))))) h = (refl, refl)
digit-is_digit (suc (suc (suc (suc (suc (suc (suc (suc (suc zero))))))))) h = (refl, refl)
digit-is_digit (suc (suc (suc (suc (suc (suc (suc (suc (suc (suc n)))))))))) h =
    absurd (omega arith)

read_num-digit :
    (d : ℕ) (out : String) (acc : ℕ)
    → d < 10
    → read_num (String.◌∷◌ (digit d) out) acc ≡ read_num out (acc * 10 + d)
unfolding read_num
read_num-digit d out acc h = let (is, val) = digit-is_digit d h in rw (is, val)

read_num-emit :
    (rounds n : ℕ) (out : String) → n < rounds → read_num (emit rounds n out) 0 ≡ read_num out n
unfolding emit
read_num-emit zero n out h = absurd (omega arith)
read_num-emit (suc rounds) n out h = elim (Bool-cases (ltb n 10)) [
  | inl small ↦
      rw small (read_num-digit n out 0 (ltb→lt _ _ small) ∙ ap (read_num out) (omega arith))
  | inr big ↦ rw big (
      read_num-emit rounds (n / 10) (String.◌∷◌ (digit (n % 10)) out) (ground arith)
      ∙ read_num-digit (n % 10) out (n / 10) (omega arith)
      ∙ ap (read_num out) (omega arith))
]

emit-append :
    (rounds n : ℕ) (s t : String) → emit rounds n (str_append s t) ≡ str_append (emit rounds n s) t
unfolding emit
emit-append zero n s t = refl
emit-append (suc rounds) n s t = elim (Bool-cases (ltb n 10)) [
  | inl small ↦ rw small (sym (append.cons (digit n) s t))
  | inr big ↦ rw big (
      ap (emit rounds (n / 10)) (sym (append.cons (digit (n % 10)) s t))
      ∙ emit-append rounds (n / 10) (String.◌∷◌ (digit (n % 10)) s) t)
]

-- Reading a printed number gives the number, and goes on behind it.
pub read_num-itoa : (n : ℕ) (t : String) → read_num (str_append (itoa n) t) 0 ≡ read_num t n
unfolding itoa
read_num-itoa n t =
    ap (λ s. read_num s 0)
      (sym (emit-append (suc n) n String.[] t) ∙ ap (emit (suc n) n) (append.nil t))
    ∙ read_num-emit (suc n) n t (omega arith)

-- Two numbers are equal if they are printed alike.
pub itoa_injective : (m n : ℕ) → itoa m ≡ itoa n → m ≡ n
unfolding itoa read_num
itoa_injective m n e =
    let back = λ (k : ℕ). read_num-emit (suc k) k String.[] (omega arith) in
    ap (λ (r : ℕ × String). r.0) (sym (back m) ∙ ap (λ s. read_num s 0) e ∙ back n)
