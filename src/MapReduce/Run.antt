-- ===== src/MapReduce/Run.antt =====
-- src/mapreduce/master.go: `run` and `Sequential`. The tasks that a schedule function does are given in
-- their order; `doMap` and `doReduce` have empty bodies in the source.
use Prim.Native.String.{String}
use code2go.Prelude.{
  ℕ, zero, suc, ◌+◌, ◌≡◌, refl, sym, ◌∙◌, ap, Bool, Option, some, List, [], ◌∷◌, ◌++◌, length,
  length-append, Option-cases, inl, inr, ◌>>=◌, arith,
}
use code2go.MapReduce.{Master, new_master}
use code2go.MapReduce.Merge.{KeyValue, merge}

pub data Phase : Type 0 where
  map_phase : Phase
  reduce_phase : Phase

pub data Task : Type 0 where
  do_map : (job_name : String) → (map_task : ℕ) → (in_file : String) → (n_reduce : ℕ) → Task
  do_reduce : (job_name : String) → (reduce_task n_map : ℕ) → Task

-- for i, f := range mr.files, from `i` on
unfoldable pub map_tasks : (job_name : String) → (n_reduce i : ℕ) → List String → List Task
map_tasks job_name n_reduce i [] = []
map_tasks job_name n_reduce i (f ∷ files) =
    do_map job_name i f n_reduce ∷ map_tasks job_name n_reduce (i + 1) files

-- for i := 0; i < mr.nReduce; i++, from `i` on
unfoldable pub reduce_tasks : (job_name : String) → (n_map i left : ℕ) → List Task
reduce_tasks job_name n_map i zero = []
reduce_tasks job_name n_map i (suc left) =
    do_reduce job_name i n_map ∷ reduce_tasks job_name n_map (i + 1) left

unfoldable pub sequential_schedule : Phase → Master → List Task
unfolding map_tasks reduce_tasks
sequential_schedule map_phase mr = map_tasks mr.job_name mr.n_reduce 0 mr.files
sequential_schedule reduce_phase mr = reduce_tasks mr.job_name (length mr.files) 0 mr.n_reduce

-- The master at the end, the tasks in their order, and the output of `merge`; `none` where it is fatal.
-- `doneChannel` is sent to only then.
unfoldable pub run :
    (job_name : String)
    → (files : List String) → (n_reduce : ℕ) → (schedule : Phase → Master → List Task)
    → (finish : Master → Master) → (output : Master → Option (String × List String)) → Master
    → Option (Master × List Task × (String × List String))
run job_name files n_reduce schedule finish output mr =
    let mr' = record mr { job_name = job_name; files = files; n_reduce = n_reduce } in
    let mr'' = finish mr' in
    do
      merged ← output mr''
      some (mr'', schedule map_phase mr' ++ schedule reduce_phase mr', merged)

unfoldable pub sequential :
    (opened : String → Option (List KeyValue))
    → (creates : Bool) → (job_name : String) → (files : List String) → (n_reduce : ℕ)
    → Option (Master × List Task × (String × List String))
unfolding run sequential_schedule
sequential opened creates job_name files n_reduce =
    run job_name files n_reduce sequential_schedule
      (λ mr. record mr { stats = (length files + n_reduce) ∷ [] }) (λ mr. merge opened creates mr)
      (new_master "master")

length-map_tasks :
    (job_name : String) (n_reduce i : ℕ) (files : List String)
    → length (map_tasks job_name n_reduce i files) ≡ length files
unfolding map_tasks
length-map_tasks job_name n_reduce i [] = refl
length-map_tasks job_name n_reduce i (f ∷ files) =
    ground (arith, length-map_tasks job_name n_reduce (i + 1) files)

length-reduce_tasks :
    (job_name : String) (n_map i left : ℕ) → length (reduce_tasks job_name n_map i left) ≡ left
unfolding reduce_tasks
length-reduce_tasks job_name n_map i zero = refl
length-reduce_tasks job_name n_map i (suc left) =
    ground (arith, length-reduce_tasks job_name n_map (i + 1) left)

-- A sequential job that ends reports in its statistics the number of tasks that were done, one for each file and each
-- partition, and it has merged the results of its own job.
pub sequential-stats :
    (opened : String → Option (List KeyValue)) (creates : Bool) (job_name : String)
    (files : List String) (n_reduce : ℕ) {mr : Master} {tasks : List Task}
    {output : String × List String}
    → sequential opened creates job_name files n_reduce ≡ some (mr, tasks, output)
    → (mr.stats ≡ length tasks ∷ [])
      × (length tasks ≡ length files + n_reduce)
      × (merge opened creates mr ≡ some output)
      × (mr.job_name ≡ job_name)
      × (mr.n_reduce ≡ n_reduce)
unfolding sequential
sequential-stats opened creates job_name files n_reduce {mr} {tasks} {output} h =
    let done : Master = record (new_master "master") {
      job_name = job_name;
      files = files;
      n_reduce = n_reduce;
      stats = (length files + n_reduce) ∷ [];
    } in
    let all =
      map_tasks job_name n_reduce 0 files ++ reduce_tasks job_name (length files) 0 n_reduce in
    let count : length all ≡ length files + n_reduce = omega (
      arith,
      length-append (map_tasks job_name n_reduce 0 files)
          (reduce_tasks job_name (length files) 0 n_reduce),
      length-map_tasks job_name n_reduce 0 files,
      length-reduce_tasks job_name (length files) 0 n_reduce,
    ) in
    elim (Option-cases (merge opened creates done)) [
      | inl fatal ↦ ground (arith, h, fatal)
      | inr (out, merged) ↦
          let who : done ≡ mr = ground (arith, h, merged) in
          let did : all ≡ tasks = ground (arith, h, merged) in
          let wrote : out ≡ output = ground (arith, h, merged) in
          (
            ap (λ m. m.stats) (sym who) ∙ ap (λ n. n ∷ []) (sym count ∙ ap (λ l. length l) did),
            sym (ap (λ l. length l) did) ∙ count,
            ap (λ m. merge opened creates m) (sym who) ∙ merged ∙ ap some wrote,
            ap (λ m. m.job_name) (sym who),
            ap (λ m. m.n_reduce) (sym who),
          )
    ]
