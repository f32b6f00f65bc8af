-- ===== src/MapReduce/Merge.antt =====
-- src/mapreduce/master_splitmerge.go: `merge`. What json.Decode gives for a result file until its first
-- error is an argument, `none` where the file cannot be opened; log.Fatal is `none`. A Go map is a list
-- of its pairs, each key once; `sort.Strings` sorts by insertion.
pub mod Values
pub mod Keys
pub mod Laws
use Prim.Native.String.{String, ◌++◌ as str_append}
use text.Mathlib.Text.{◌==◌ as str_eq}
use code2go.Prelude.{
  ℕ, zero, suc, ◌+◌, Bool, true, false, Option, none, some, List, [], ◌∷◌, map, if◌then◌else◌,
  ◌>>=◌,
}
use code2go.MapReduce.{Master, merge_name}
use code2go.MapReduce.Order.{less}

pub record KeyValue : Type 0 where
  pub key : String
  pub value : String

-- kvs[key] = value
unfoldable pub set_value : (key value : String) → List KeyValue → List KeyValue
set_value key value [] = record { key = key; value = value } ∷ []
set_value key value (kv ∷ kvs) =
    let rest = set_value key value kvs in
    if str_eq kv.key key then record { key = key; value = value } ∷ kvs else kv ∷ rest

-- kvs[key], where it is there
unfoldable pub get_value : String → List KeyValue → Option String
get_value key [] = none
get_value key (kv ∷ kvs) = if str_eq kv.key key then some kv.value else get_value key kvs

-- The loop over one result file.
unfoldable pub read_result : List KeyValue → List KeyValue → List KeyValue
unfolding set_value
read_result [] kvs = kvs
read_result (kv ∷ more) kvs = read_result more (set_value kv.key kv.value kvs)

-- for i := 0; i < mr.nReduce; i++, from `i` on
unfoldable pub read_results :
    (opened : String → Option (List KeyValue))
    → (job_name : String) → (i left : ℕ) → List KeyValue
    → Option (List KeyValue)
unfolding read_result
read_results opened job_name i zero kvs = some kvs
read_results opened job_name i (suc left) kvs =
    let rest = λ (kvs' : List KeyValue). read_results opened job_name (i + 1) left kvs' in
    do result ← opened (merge_name job_name i); rest (read_result result kvs)

-- sort.Strings
unfoldable pub insert_key : String → List String → List String
insert_key k [] = k ∷ []
insert_key k (j ∷ keys) =
    let rest = insert_key k keys in if less k j then k ∷ j ∷ keys else j ∷ rest

unfoldable pub sort_strings : List String → List String
unfolding insert_key
sort_strings [] = []
sort_strings (k ∷ keys) = insert_key k (sort_strings keys)

-- The pairs that are printed, in their order; a missing value would be "".
unfoldable pub with_values : List KeyValue → List String → List KeyValue
unfolding get_value
with_values kvs [] = []
with_values kvs (k ∷ keys) =
    record { key = k; value = elim (get_value k kvs) [ none ↦ "" | some v ↦ v ] }
    ∷ with_values kvs keys

-- fmt.Fprintf(w, "%s: %s\n", k, kvs[k])
unfoldable pub output_line : KeyValue → String
output_line kv = str_append (str_append (str_append kv.key ": ") kv.value) "\n"

unfoldable pub merged_pairs :
    (opened : String → Option (List KeyValue)) → Master → Option (List KeyValue)
unfolding read_results sort_strings with_values
merged_pairs opened mr = do
  kvs ← read_results opened mr.job_name 0 mr.n_reduce []
  some (with_values kvs (sort_strings (map (λ (kv : KeyValue). kv.key) kvs)))

-- The output file and its lines. `creates` says that it can be created.
unfoldable pub merge :
    (opened : String → Option (List KeyValue))
    → (creates : Bool) → Master
    → Option (String × List String)
unfolding merged_pairs output_line
merge opened creates mr = do
  pairs ← merged_pairs opened mr
  if creates then some (str_append "mrtmp." mr.job_name, map output_line pairs) else none
