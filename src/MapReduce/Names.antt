-- ===== src/MapReduce/Names.antt =====
-- The names of the files of src/mapreduce/common.go.
use Prim.Native.String.{String, ◌++◌ as str_append}
use Prim.Native.String.append
use Prim.Native.Char.{Char, code}
use mathlib.Core.Path.{subst}
use text.Mathlib.TextLemmas.{append_assoc, append_cancel_left}
use code2go.Prelude.{ℕ, ◌≡◌, ◌≢◌, refl, ap, sym, ◌∙◌, arith}
use code2go.Itoa.{itoa}
use code2go.Itoa.Laws.{is_digit, read_num, read_num-itoa, itoa_injective}
use code2go.MapReduce.{reduce_name, merge_name}

abbrev stem : String → String
stem job = str_append "mrtmp." job

-- The two names, with what they share in front.
reduce_tail :
    (job : String) (m r : ℕ)
    → reduce_name job m r
      ≡ str_append (stem job) (str_append "-" (str_append (itoa m) (str_append "-" (itoa r))))
unfolding reduce_name
reduce_tail job m r =
    append_assoc (str_append (str_append (stem job) "-") (itoa m)) "-" (itoa r)
    ∙ append_assoc (str_append (stem job) "-") (itoa m) (str_append "-" (itoa r))
    ∙ append_assoc (stem job) "-" (str_append (itoa m) (str_append "-" (itoa r)))

merge_tail :
    (job : String) (r : ℕ)
    → merge_name job r ≡ str_append (stem job) (str_append "-" (str_append "res-" (itoa r)))
unfolding merge_name
merge_tail job r =
    append_assoc (stem job) "-res-" (itoa r)
    ∙ ap (str_append (stem job)) (append_assoc "-" "res-" (itoa r))

-- A text that starts with the character, which is no digit, ends a number.
read_num-dash : (t : String) (n : ℕ) → read_num (str_append "-" t) n ≡ (n, str_append "-" t)
unfolding read_num is_digit
read_num-dash t n =
    let e : str_append "-" t ≡ String.◌∷◌ "-" t =
      append.cons "-" String.[] t ∙ ap (String.◌∷◌ "-") (append.nil t) in
    subst (λ s. read_num s n ≡ (n, s)) (sym e) refl

read_num-res : (t : String) (n : ℕ) → read_num (str_append "res-" t) n ≡ (n, str_append "res-" t)
unfolding read_num is_digit
read_num-res t n = subst (λ s. read_num s n ≡ (n, s)) (sym (append.cons "r" "es-" t)) refl

read_tail :
    (m r : ℕ)
    → read_num (str_append (itoa m) (str_append "-" (itoa r))) 0 ≡ (m, str_append "-" (itoa r))
read_tail m r = read_num-itoa m (str_append "-" (itoa r)) ∙ read_num-dash (itoa r) m

head_code : String → ℕ
head_code String.[] = 0
head_code (String.◌∷◌ c s) = code c

head_code-append : (c : Char) (s t : String) → head_code (str_append (String.◌∷◌ c s) t) ≡ code c
unfolding head_code
head_code-append c s t = ap head_code (append.cons c s t)

-- Within a job the name of an intermediate file gives its map task and its reduce task, that of an output file gives
-- its reduce task, and no file is both.
pub names_distinct :
    (job : String) (m r m' r' : ℕ)
    → ((reduce_name job m r ≡ reduce_name job m' r' → (m ≡ m') × (r ≡ r'))
        × (merge_name job r ≡ merge_name job r' → r ≡ r')
        × (reduce_name job m r ≢ merge_name job r'))
names_distinct job m r m' r' = (same_reduce, same_merge, apart)
  where
    same_reduce : reduce_name job m r ≡ reduce_name job m' r' → (m ≡ m') × (r ≡ r')
    same_reduce e =
        let tails = append_cancel_left "-" _ _ (
          append_cancel_left (stem job) _ _
            (sym (reduce_tail job m r) ∙ e ∙ reduce_tail job m' r')) in
        let read = sym (read_tail m r) ∙ ap (λ s. read_num s 0) tails ∙ read_tail m' r' in
        (
          ap (λ (p : ℕ × String). p.0) read,
          itoa_injective r r' (append_cancel_left "-" _ _ (ap (λ (p : ℕ × String). p.1) read)),
        )

    same_merge : merge_name job r ≡ merge_name job r' → r ≡ r'
    same_merge e = itoa_injective r r' (
        append_cancel_left "res-" _ _ (
          append_cancel_left "-" _ _
            (append_cancel_left (stem job) _ _ (sym (merge_tail job r) ∙ e ∙ merge_tail job r'))))

    apart : reduce_name job m r ≢ merge_name job r'
    apart e =
        let tails =
          append_cancel_left "-" _ _ (
            append_cancel_left (stem job) _ _
              (sym (reduce_tail job m r) ∙ e ∙ merge_tail job r')) in
        let read = sym (read_tail m r) ∙ ap (λ s. read_num s 0) tails ∙ read_num-res (itoa r') 0 in
        let heads =
          sym (head_code-append "-" String.[] (itoa r))
          ∙ ap (λ (p : ℕ × String). head_code p.1) read
          ∙ head_code-append "r" "es-" (itoa r') in
        omega (arith, heads)
