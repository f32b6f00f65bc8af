-- ===== src/MapReduce/Merge/Laws.antt =====
-- What `merge` of src/mapreduce/master_splitmerge.go prints.
use Prim.Native.String.{String, ◌++◌ as str_append}
use text.Mathlib.Text.{◌==◌ as str_eq}
use text.Mathlib.TextEquality.{eq_iff}
use code2go.Prelude.{
  ◌≡◌, inl, inr, refl, sym, ap, ◌∙◌, true, Option, none, some, List, [], ◌∷◌, map, if◌then◌else◌,
  arith, Bool-cases,
}
use code2go.MapReduce.{Master}
use code2go.MapReduce.Merge.{
  KeyValue, get_value, read_result, sort_strings, with_values, output_line, merge,
}
use code2go.MapReduce.Merge.Values.{
  last_value, all_results, or_value-none, get_value-read_result, read_results-all_results,
}
use code2go.MapReduce.Merge.Keys.{
  among, keys_of, read_result-IsDistinct, among-sort_strings, IsAscending, sort_strings-IsAscending,
}

among-get_value :
    (kvs : List KeyValue) (k : String)
    → (if among k (keys_of kvs) then get_value k kvs else none) ≡ get_value k kvs
unfolding get_value
among-get_value [] k = refl
among-get_value (kv ∷ kvs) k = ground (arith, among-get_value kvs k)

among-some :
    (kvs : List KeyValue) (k : String)
    → among k (keys_of kvs) ≡ true
    → (v : String) × (get_value k kvs ≡ some v)
unfolding get_value
among-some [] k h = ground arith
among-some (kv ∷ kvs) k h = elim (Bool-cases (str_eq kv.key k)) [
  | inl same ↦ (kv.value, rw same refl)
  | inr other ↦ rw other (among-some kvs k (ground (arith, h, other)))
]

keys_of-with_values :
    (kvs : List KeyValue) (keys : List String) → keys_of (with_values kvs keys) ≡ keys
unfolding with_values
keys_of-with_values kvs [] = refl
keys_of-with_values kvs (k ∷ keys) = ap (λ l. k ∷ l) (keys_of-with_values kvs keys)

get_value-with_values :
    (kvs : List KeyValue) (keys : List String) (k : String)
    → ((j : String) → among j keys ≡ true → among j (keys_of kvs) ≡ true)
    → get_value k (with_values kvs keys) ≡ (if among k keys then get_value k kvs else none)
unfolding with_values get_value
get_value-with_values kvs [] k all = refl
get_value-with_values kvs (j ∷ keys) k all =
    let (v, there) = among-some kvs j (all j (ground (arith, eq_iff j j))) in
    let rest = get_value-with_values kvs keys k (λ i h. all i (ground (arith, h))) in
    elim (Bool-cases (str_eq j k)) [
      | inl same ↦ rw (same, there) (ground (arith, same, there, eq_iff j k))
      | inr other ↦ rw other rest
    ]

-- If every result file can be opened, the output file has one line for each key that stands in them, with the value that
-- stands last under it in the files one after the other, and the keys ascend.
pub merge-last_value :
    (opened : String → Option (List KeyValue)) (mr : Master) {l : List KeyValue}
    → all_results opened mr.job_name 0 mr.n_reduce ≡ some l
    → (pairs : List KeyValue) × (merge opened true mr
        ≡ some (str_append "mrtmp." mr.job_name, map output_line pairs))
      × IsAscending (keys_of pairs)
      × ((k : String) → get_value k pairs ≡ last_value k l)
unfolding merge get_value
merge-last_value opened mr {l} h =
    let kvs = read_result l [] in
    let keys = sort_strings (keys_of kvs) in
    let distinct = read_result-IsDistinct l [] tt in
    (
      with_values kvs keys,
      rw (read_results-all_results opened mr.job_name 0 mr.n_reduce [] l h) refl,
      rw (keys_of-with_values kvs keys) (sort_strings-IsAscending (keys_of kvs) distinct),
      λ k.
          get_value-with_values kvs keys k
            (λ j there. sym (among-sort_strings (keys_of kvs) j) ∙ there)
          ∙ ap (λ x. if x then get_value k kvs else none) (among-sort_strings (keys_of kvs) k)
          ∙ among-get_value kvs k
          ∙ get_value-read_result l [] k
          ∙ or_value-none (last_value k l),
    )
