-- ===== src/MapReduce/Tests.antt =====
-- Tests of src/mapreduce, and the theorems at concrete inputs.
use Prim.Native.String.{String, ◌++◌ as str_append}
use text.Mathlib.Text.{◌==◌ as str_eq}
use code2go.Prelude.{
  ℕ, ◌-◌, ◌^◌, ◌≡◌, ◌≢◌, refl, true, Option, some, List, [], ◌∷◌, map, if◌then◌else◌,
}
use code2go.MapReduce.Merge.{KeyValue, get_value, output_line, merge}
use code2go.MapReduce.Merge.Values.{last_value, all_results}
use code2go.MapReduce.Merge.Keys.{keys_of, IsAscending}
use code2go.MapReduce.Merge.Laws.{merge-last_value}
use code2go.MapReduce.Run.{Task, do_map, do_reduce, sequential}
use code2go.MapReduce.Worker.{Turn, new_worker, shutdown, take_task}
use code2go.Itoa.{itoa}
use code2go.MapReduce.{Master, new_master, register, cleanup_files, reduce_name, merge_name}
use code2go.MapReduce.Names.{names_distinct}

abbrev master : Master
master = record (register "w2" (register "w1" (new_master "m"))) {
  job_name = "wc";
  files = "f" ∷ "g" ∷ [];
  n_reduce = 1;
}

abbrev eleven : ℕ
eleven = 11

abbrev once : ℕ
once = 1

removed :
    cleanup_files master ≡ "mrtmp.wc-0-0" ∷ "mrtmp.wc-1-0" ∷ "mrtmp.wc-res-0" ∷ "mrtmp.wc" ∷ []
unfolding cleanup_files reduce_name merge_name itoa
removed = refl

names_distinct_example :
    ((reduce_name "wc" 1 11 ≡ reduce_name "wc" 11 1 → (once ≡ eleven) × (eleven ≡ once))
      × (merge_name "wc" 11 ≡ merge_name "wc" 1 → eleven ≡ once)
      × (reduce_name "wc" 1 11 ≢ merge_name "wc" 1))
names_distinct_example = names_distinct "wc" 1 11 11 1

-- Two result files; "b" stands in both.
abbrev opened : String → Option (List KeyValue)
opened name =
    if str_eq name "mrtmp.wc-res-0"
    then some (record { key = "b"; value = "1" } ∷ record { key = "c"; value = "2" } ∷ [])
    else some (record { key = "b"; value = "3" } ∷ record { key = "a"; value = "4" } ∷ [])

abbrev two_parts : Master
two_parts = record master { n_reduce = 2 }

abbrev results : List KeyValue
results =
    record { key = "b"; value = "1" }
    ∷ record { key = "c"; value = "2" }
    ∷ record { key = "b"; value = "3" }
    ∷ record { key = "a"; value = "4" }
    ∷ []

all_opened : all_results opened "wc" 0 2 ≡ some results
unfolding all_results merge_name itoa
all_opened = refl

merge-last_value_example :
    (pairs : List KeyValue) × (merge opened true two_parts
      ≡ some (str_append "mrtmp." "wc", map output_line pairs))
    × IsAscending (keys_of pairs)
    × ((k : String) → get_value k pairs ≡ last_value k results)
merge-last_value_example = merge-last_value opened two_parts all_opened

abbrev merged_lines : String × List String
merged_lines = ("mrtmp.wc", "a: 4\n" ∷ "b: 3\n" ∷ "c: 2\n" ∷ [])

merged : merge opened true two_parts ≡ some merged_lines
unfolding merge merge_name itoa
merged = refl

abbrev finished : Master
finished = record (new_master "master") {
  job_name = "wc";
  files = "f" ∷ [];
  n_reduce = 2;
  stats = 3 ∷ [];
}

abbrev three_tasks : List Task
three_tasks = do_map "wc" 0 "f" 2 ∷ do_reduce "wc" 0 1 ∷ do_reduce "wc" 1 1 ∷ []

ended : sequential opened true "wc" ("f" ∷ []) 2 ≡ some (finished, three_tasks, merged_lines)
unfolding sequential merge merge_name itoa new_master
ended = refl

abbrev takes : Turn
takes = record { stops = 0; accepted = true }

-- A worker without a limit that took one connection: the reply to Shutdown, which came in on it, is 1.
stopped : (shutdown (take_task takes (new_worker "w" (2 ^ 64 - 1))).0).1 ≡ 1
unfolding shutdown take_task new_worker
stopped = refl
