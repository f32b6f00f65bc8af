-- ===== src/MapReduce.antt =====
-- src/mapreduce: the files, the master and the workers. `doMap`, `doReduce` and `schedule` have empty
-- bodies in the source; they are not modelled.
pub mod Names
pub mod Order
pub mod Merge
pub mod Run
pub mod Worker
mod Tests
use Prim.Native.String.{String, ◌++◌ as str_append}
use code2go.Prelude.{
  ℕ, zero, suc, ◌+◌, ◌-◌, Bool, true, false, Option, none, some, List, [], ◌∷◌, ◌++◌, length,
}
use code2go.Itoa.{itoa}

unfoldable pub reduce_name : (job_name : String) (map_task reduce_task : ℕ) → String
reduce_name job_name map_task reduce_task =
    str_append
      (str_append (str_append (str_append (str_append "mrtmp." job_name) "-") (itoa map_task)) "-")
      (itoa reduce_task)

unfoldable pub merge_name : (job_name : String) (reduce_task : ℕ) → String
merge_name job_name reduce_task =
    str_append (str_append (str_append "mrtmp." job_name) "-res-") (itoa reduce_task)

-- for j := 0; j < mr.nReduce; j++, from `j` on
unfoldable pub reduce_names : (job_name : String) (i j left : ℕ) → List String
reduce_names job_name i j zero = []
reduce_names job_name i j (suc left) =
    reduce_name job_name i j ∷ reduce_names job_name i (j + 1) left

-- for i := range mr.files, from `i` on
unfoldable pub map_names : (job_name : String) (n_reduce i left : ℕ) → List String
unfolding reduce_names
map_names job_name n_reduce i zero = []
map_names job_name n_reduce i (suc left) =
    reduce_names job_name i 0 n_reduce ++ map_names job_name n_reduce (i + 1) left

unfoldable pub merge_names : (job_name : String) (i left : ℕ) → List String
merge_names job_name i zero = []
merge_names job_name i (suc left) = merge_name job_name i ∷ merge_names job_name (i + 1) left

pub record Master : Type 0 where
  pub address : String
  pub workers : List String
  pub job_name : String
  pub files : List String
  pub n_reduce : ℕ
  pub stats : List ℕ
  pub registered : List String  -- sent on registerChannel

unfoldable pub new_master : String → Master
new_master address = record {
  address = address;
  workers = [];
  job_name = "";
  files = [];
  n_reduce = 0;
  stats = [];
  registered = [];
}

-- The Register RPC.
unfoldable pub register : String → Master → Master
register worker mr = record mr {
  workers = mr.workers ++ worker ∷ [];
  registered = mr.registered ++ worker ∷ [];
}

-- The tasks that each worker reports, of those that answer.
unfoldable pub ask_workers : (String → Option ℕ) → List String → List ℕ
ask_workers shutdown [] = []
ask_workers shutdown (w ∷ ws) =
    let rest = ask_workers shutdown ws in elim (shutdown w) [ some n ↦ n ∷ rest | none ↦ rest ]

unfoldable pub kill_workers : (String → Option ℕ) → Master → List ℕ
unfolding ask_workers
kill_workers shutdown mr = ask_workers shutdown mr.workers

-- The files that CleanupFiles removes, in order.
unfoldable pub cleanup_files : Master → List String
unfolding map_names merge_names
cleanup_files mr =
    map_names mr.job_name mr.n_reduce 0 (length mr.files)
    ++ merge_names mr.job_name 0 mr.n_reduce
    ++ str_append "mrtmp." mr.job_name ∷ []
