-- ===== src/MapReduce/Merge/Values.antt =====
-- The values that `merge` of src/mapreduce/master_splitmerge.go keeps.
use Prim.Native.String.{String}
use text.Mathlib.Text.{◌==◌ as str_eq}
use text.Mathlib.TextEquality.{eq_iff}
use code2go.Prelude.{
  ℕ, zero, suc, ◌+◌, ◌≡◌, inl, inr, refl, sym, ap, ◌∙◌, Option, none, some, List, [], ◌∷◌, ◌++◌,
  if◌then◌else◌, ◌>>=◌, arith, Option-cases,
}
use code2go.MapReduce.{merge_name}
use code2go.MapReduce.Merge.{KeyValue, set_value, get_value, read_result, read_results}

-- The value that stands last under the key.
unfoldable pub last_value : String → List KeyValue → Option String
last_value k [] = none
last_value k (kv ∷ more) = elim (last_value k more) [
  | some v ↦ some v
  | none ↦ if str_eq kv.key k then some kv.value else none
]

-- The result files of a job one after the other, where all can be opened.
unfoldable pub all_results :
    (opened : String → Option (List KeyValue))
    → (job_name : String) → (i left : ℕ) → Option (List KeyValue)
all_results opened job_name i zero = some []
all_results opened job_name i (suc left) = do
  result ← opened (merge_name job_name i)
  more ← all_results opened job_name (i + 1) left
  some (result ++ more)

abbrev pub or_value : Option String → Option String → Option String
or_value (some v) w = some v
or_value none w = w

pub or_value-none : (o : Option String) → or_value o none ≡ o
or_value-none none = refl
or_value-none (some v) = refl

get_value-set_value :
    (key value : String) (kvs : List KeyValue) (k : String)
    → get_value k (set_value key value kvs) ≡ (if str_eq key k then some value else get_value k kvs)
unfolding get_value set_value
get_value-set_value key value [] k = refl
get_value-set_value key value (kv ∷ kvs) k =
    ground
      (arith, get_value-set_value key value kvs k, eq_iff kv.key key, eq_iff kv.key k, eq_iff key k)

pub get_value-read_result :
    (l kvs : List KeyValue) (k : String)
    → get_value k (read_result l kvs) ≡ or_value (last_value k l) (get_value k kvs)
unfolding read_result last_value
get_value-read_result [] kvs k = refl
get_value-read_result (kv ∷ l) kvs k = ground (
  arith,
  get_value-read_result l (set_value kv.key kv.value kvs) k,
  get_value-set_value kv.key kv.value kvs k,
)

read_result-append :
    (l r kvs : List KeyValue) → read_result (l ++ r) kvs ≡ read_result r (read_result l kvs)
unfolding read_result
read_result-append [] r kvs = refl
read_result-append (kv ∷ l) r kvs = read_result-append l r (set_value kv.key kv.value kvs)

pub read_results-all_results :
    (opened : String → Option (List KeyValue)) (job_name : String) (i left : ℕ)
    (kvs l : List KeyValue)
    → all_results opened job_name i left ≡ some l
    → read_results opened job_name i left kvs ≡ some (read_result l kvs)
unfolding read_results all_results
read_results-all_results opened job_name i zero kvs l h = ground (arith, h)
read_results-all_results opened job_name i (suc left) kvs l h =
    elim (Option-cases (opened (merge_name job_name i))) [
      | inl shut ↦ ground (arith, shut)
      | inr (result, there) ↦ elim (Option-cases (all_results opened job_name (i + 1) left)) [
        | inl shut ↦ ground (arith, there, shut)
        | inr (more, rest) ↦
            let step =
              read_results-all_results opened job_name (i + 1) left (read_result result kvs) more
                rest in
            let whole : result ++ more ≡ l = ground (arith, there, rest) in
            rw there (
              step
              ∙ ap some
                  (sym (read_result-append result more kvs) ∙ ap (λ x. read_result x kvs) whole))
      ]
    ]
