-- ===== src/MapReduce/Worker.antt =====
-- src/mapreduce/worker.go: the counters of a worker, `Shutdown` and the loop of `RunWorker`. An `int` is
-- kept modulo 2^64. What Accept returns and how often `Shutdown` runs while it waits are arguments;
-- `DoTask` touches no counter.
use Prim.Native.String.{String}
use native.Mathlib.Decide.{dec_lt}
use code2go.Prelude.{
  ℕ, zero, suc, ◌+◌, ◌-◌, ◌%◌, ◌^◌, ◌<◌, ◌≤◌, ◌≡◌, refl, ◌∙◌, Bool, true, false, List, [], ◌∷◌,
  length, ◌==◌, if◌then◌else◌, arith,
}

pub record Worker : Type 0 where
  pub name : String
  pub n_rpc : ℕ
  pub n_tasks : ℕ

unfoldable pub new_worker : (me : String) → (n_rpc : ℕ) → Worker
new_worker me n_rpc = record { name = me; n_rpc = n_rpc; n_tasks = 0 }

unfoldable pub decrement : ℕ → ℕ
decrement n = (n + (2 ^ 64 - 1)) % 2 ^ 64

-- The number of tasks in the reply.
unfoldable pub shutdown : Worker → Worker × ℕ
unfolding decrement
shutdown wk = (record wk { n_rpc = 1; n_tasks = decrement wk.n_tasks }, wk.n_tasks)

unfoldable pub shutdowns : ℕ → Worker → Worker
unfolding shutdown
shutdowns zero wk = wk
shutdowns (suc n) wk = shutdowns n (shutdown wk).0

-- One Accept: how often `Shutdown` runs while it waits, and whether it returns a connection.
pub record Turn : Type 0 where
  pub stops : ℕ
  pub accepted : Bool

-- One round on a worker whose `nRPC` was not 0; false where Accept fails and the loop ends.
unfoldable pub take_task : Turn → Worker → Worker × Bool
unfolding shutdowns decrement
take_task t wk =
    let wk' = shutdowns t.stops wk in
    if t.accepted
    then (record wk' { n_rpc = decrement wk'.n_rpc; n_tasks = (wk'.n_tasks + 1) % 2 ^ 64 }, true)
    else (wk', false)

-- The worker at the end, and how many connections it took.
unfoldable pub run_worker : List Turn → Worker → Worker × ℕ
unfolding take_task
run_worker [] wk = (wk, 0)
run_worker (t ∷ turns) wk =
    let (wk', goes_on) = take_task t wk in
    let (wk'', taken) = run_worker turns wk' in
    if wk.n_rpc == 0 then (wk, 0) else if goes_on then (wk'', taken + 1) else (wk', 0)

decrement_pos : (n : ℕ) → 0 < n → n < 2 ^ 64 → decrement n ≡ n - 1
unfolding decrement
decrement_pos n pos small = omega (arith, pos, small)

below : (n : ℕ) → n < 2 ^ 64 → n % 2 ^ 64 ≡ n
below n small = omega (arith, small)

take_one :
    (t : Turn) (wk : Worker)
    → t.stops ≡ 0
    → t.accepted ≡ true
    → ((take_task t wk).0.n_rpc ≡ decrement wk.n_rpc)
      × ((take_task t wk).0.n_tasks ≡ (wk.n_tasks + 1) % 2 ^ 64)
      × ((take_task t wk).1 ≡ true)
unfolding take_task
take_one t wk stops accepted = rw (stops, accepted) (refl, refl, refl)

-- Nothing stops the worker from outside, and every Accept returns a connection.
abbrev pub AllTaken : List Turn → Type 0
AllTaken [] = Unit
AllTaken (t ∷ turns) = (t.stops ≡ 0) × (t.accepted ≡ true) × AllTaken turns

-- A worker that is to serve `n` connections, and that nobody stops, takes exactly the first `n` of them if there are as many,
-- counts each as a task, and is done: it would take no further one.
pub run_worker_takes :
    (wk : Worker) (turns : List Turn)
    → AllTaken turns
    → wk.n_rpc ≤ length turns
    → wk.n_rpc < 2 ^ 64
    → wk.n_tasks + wk.n_rpc < 2 ^ 64
    → ((run_worker turns wk).1 ≡ wk.n_rpc)
      × ((run_worker turns wk).0.n_tasks ≡ wk.n_tasks + wk.n_rpc)
      × ((run_worker turns wk).0.n_rpc ≡ 0)
unfolding run_worker
run_worker_takes wk [] all enough small fits = (omega arith, omega arith, omega arith)
run_worker_takes wk (t ∷ turns) (stops, accepted, all) enough small fits =
    let (left, tasks, goes_on) = take_one t wk stops accepted in
    let ih = run_worker_takes (take_task t wk).0 turns all in
    elim (dec_lt 0 wk.n_rpc) [
      | yes more ↦
          let left' : (take_task t wk).0.n_rpc ≡ wk.n_rpc - 1 =
            left ∙ decrement_pos wk.n_rpc more small in
          let tasks' : (take_task t wk).0.n_tasks ≡ wk.n_tasks + 1 =
            tasks ∙ below (wk.n_tasks + 1) (omega (arith, more, fits)) in
          let (taken, done, over) =
            ih (omega (arith, left', enough)) (omega (arith, left', small))
              (omega (arith, left', tasks', fits, more)) in
          let go : (wk.n_rpc == 0) ≡ false = ground (arith, more) in
          rw (go, goes_on)
            (omega (arith, taken, left', more), omega (arith, done, left', tasks', more), over)
      | no none_left ↦
          let zero_left : wk.n_rpc ≡ 0 = omega (arith, none_left) in
          rw zero_left (refl, omega arith, refl)
    ]
