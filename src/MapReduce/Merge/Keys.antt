-- ===== src/MapReduce/Merge/Keys.antt =====
-- The keys of `merge` of src/mapreduce/master_splitmerge.go, and their order.
use Prim.Native.String.{String}
use text.Mathlib.Text.{◌==◌ as str_eq}
use text.Mathlib.TextEquality.{eq_iff}
use code2go.Prelude.{
  ◌≡◌, inl, inr, refl, ◌∙◌, Bool, true, false, List, [], ◌∷◌, map, if◌then◌else◌, arith, Bool-cases,
}
use code2go.MapReduce.Order.{less, less_total}
use code2go.MapReduce.Merge.{KeyValue, set_value, read_result, insert_key, sort_strings}

abbrev pub among : String → List String → Bool
among k [] = false
among k (j ∷ keys) = if str_eq j k then true else among k keys

abbrev pub keys_of : List KeyValue → List String
keys_of kvs = map (λ (kv : KeyValue). kv.key) kvs

abbrev pub IsDistinct : List String → Type 0
IsDistinct [] = Unit
IsDistinct (k ∷ keys) = (among k keys ≡ false) × IsDistinct keys

-- Each key before the next one.
abbrev pub IsAbove : String → List String → Type 0
IsAbove k [] = Unit
IsAbove k (j ∷ keys) = less k j ≡ true

abbrev pub IsAscending : List String → Type 0
IsAscending [] = Unit
IsAscending (k ∷ keys) = IsAbove k keys × IsAscending keys

among-set_value :
    (key value : String) (kvs : List KeyValue) (k : String)
    → among k (keys_of (set_value key value kvs))
      ≡ (if str_eq key k then true else among k (keys_of kvs))
unfolding set_value
among-set_value key value [] k = refl
among-set_value key value (kv ∷ kvs) k =
    ground
      (arith, among-set_value key value kvs k, eq_iff kv.key key, eq_iff kv.key k, eq_iff key k)

set_value-IsDistinct :
    (key value : String) (kvs : List KeyValue)
    → IsDistinct (keys_of kvs)
    → IsDistinct (keys_of (set_value key value kvs))
unfolding set_value
set_value-IsDistinct key value [] d = (refl, tt)
set_value-IsDistinct key value (kv ∷ kvs) (fresh, d) = elim (Bool-cases (str_eq kv.key key)) [
  | inl same ↦ rw same (ground (arith, same, fresh, eq_iff kv.key key), d)
  | inr other ↦ rw other (
    ground (
      arith,
      other,
      fresh,
      among-set_value key value kvs kv.key,
      eq_iff kv.key key,
      eq_iff key kv.key,
    ),
    set_value-IsDistinct key value kvs d,
  )
]

pub read_result-IsDistinct :
    (l kvs : List KeyValue) → IsDistinct (keys_of kvs) → IsDistinct (keys_of (read_result l kvs))
unfolding read_result
read_result-IsDistinct [] kvs d = d
read_result-IsDistinct (kv ∷ l) kvs d =
    read_result-IsDistinct l (set_value kv.key kv.value kvs)
      (set_value-IsDistinct kv.key kv.value kvs d)

among-insert_key :
    (x : String) (keys : List String) (k : String)
    → among k (insert_key x keys) ≡ (if str_eq x k then true else among k keys)
unfolding insert_key
among-insert_key x [] k = refl
among-insert_key x (j ∷ keys) k = ground (arith, among-insert_key x keys k)

pub among-sort_strings :
    (keys : List String) (k : String) → among k (sort_strings keys) ≡ among k keys
unfolding sort_strings
among-sort_strings [] k = refl
among-sort_strings (j ∷ keys) k =
    ground (arith, among-insert_key j (sort_strings keys) k, among-sort_strings keys k)

insert_key-IsAbove :
    (j x : String) (keys : List String)
    → IsAbove j keys
    → less j x ≡ true
    → IsAbove j (insert_key x keys)
unfolding insert_key
insert_key-IsAbove j x [] above lt = lt
insert_key-IsAbove j x (k ∷ keys) above lt = elim (Bool-cases (less x k)) [
  | inl before ↦ rw before lt
  | inr after ↦ rw after above
]

insert_key-IsAscending :
    (x : String) (keys : List String)
    → among x keys ≡ false
    → IsAscending keys
    → IsAscending (insert_key x keys)
unfolding insert_key
insert_key-IsAscending x [] fresh s = (tt, tt)
insert_key-IsAscending x (k ∷ keys) fresh (above, s) = elim (Bool-cases (less x k)) [
  | inl before ↦ rw before (before, (above, s))
  | inr after ↦
      let differ : str_eq x k ≡ false = ground (arith, fresh, eq_iff x k, eq_iff k x) in
      let new : among x keys ≡ false = ground (arith, fresh) in
      rw after (
        insert_key-IsAbove k x keys above (less_total x k differ after),
        insert_key-IsAscending x keys new s,
      )
]

pub sort_strings-IsAscending :
    (keys : List String) → IsDistinct keys → IsAscending (sort_strings keys)
unfolding sort_strings
sort_strings-IsAscending [] d = tt
sort_strings-IsAscending (k ∷ keys) (fresh, d) =
    insert_key-IsAscending k (sort_strings keys) (among-sort_strings keys k ∙ fresh)
      (sort_strings-IsAscending keys d)
