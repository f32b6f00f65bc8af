-- ===== src/KvRaft/Tests.antt =====
-- Tests of src/kvraft, and the theorems at concrete inputs.
use Prim.Native.String.{String}
use code2go.Prelude.{
  ℕ, ◌<◌, ◌≤◌, ◌≡◌, ◌≢◌, ◌⊎◌, refl, true, false, ◌&&◌, Option, none, some, List, [], ◌∷◌, get_elem?,
  length, ◌==◌, if◌then◌else◌, not, arith,
}
use code2go.Raft.State.{Entry, Gob, Raft, leader}
use code2go.KvRaft.Minority.{make_partition}
use code2go.KvRaft.Store.{Op, empty_store, replay, replay_logs, write}
use code2go.KvRaft.Store.Laws.{
  seen, effective, write_all, db-replay, replay_retry, replay_logs-replay,
}
use code2go.KvRaft.Server.{
  GetArgs, GetReply, PutAppendArgs, View, get_refused, get_loop, get, put_append, put_refused,
}
use code2go.KvRaft.Server.Laws.{committed_db, put_answer, op_of, get_answers, put_append_answers}
use code2go.KvRaft.Clerk.{Clerk, uuid, GetCalls, PutCalls, clerk_get, clerk_put_append}
use code2go.KvRaft.Clerk.Laws.{IsGood, get_request, clerk_get_returns, uuid_fresh}

-- A log: "x" is put, then appended to twice under one UUID.
abbrev put_x : Op
put_x = record { opt = "Put"; key = "k"; value = "x"; uuid = "1_0" }

abbrev append_y : Op
append_y = record { opt = "Append"; key = "k"; value = "y"; uuid = "1_1" }

abbrev get_k : Op
get_k = record { opt = "Get"; key = "k"; value = ""; uuid = "1_2" }

read_back : (replay (put_x ∷ append_y ∷ append_y ∷ get_k ∷ []) empty_store).db "k" ≡ "xy"
unfolding replay write
read_back = refl

replay_retry_example :
    replay (put_x ∷ append_y ∷ append_y ∷ get_k ∷ []) empty_store
    ≡ replay (put_x ∷ append_y ∷ get_k ∷ []) empty_store
unfolding seen
replay_retry_example = replay_retry (put_x ∷ append_y ∷ []) (get_k ∷ []) append_y refl refl

db-replay_example :
    (replay (put_x ∷ append_y ∷ append_y ∷ []) empty_store).db
    ≡ write_all (effective [] (put_x ∷ append_y ∷ append_y ∷ [])) (λ k. "")
db-replay_example = db-replay (put_x ∷ append_y ∷ append_y ∷ [])

abbrev entry : Op → Entry Op
entry op = record { command = op; term = 1 }

abbrev three : List (Entry Op)
three = entry put_x ∷ entry append_y ∷ entry get_k ∷ []

replay_logs-replay_example :
    replay_logs three 1 2 empty_store ≡ some (replay (append_y ∷ get_k ∷ []) empty_store)
replay_logs-replay_example = replay_logs-replay three 1 2 empty_store (omega arith)

-- A codec that keeps the three values as they are.
abbrev Saved : Type 0
Saved = ℕ × Option ℕ × List (Entry Op)

abbrev plain_gob : Gob Op Saved
plain_gob = record {
  encode = λ t v l. (t, v, l);
  decode_term = λ s. elim s [ none ↦ none | some (t, v, l) ↦ some t ];
  decode_vote = λ s. elim s [ none ↦ none | some (t, v, l) ↦ some v ];
  decode_logs = λ s. elim s [ none ↦ none | some (t, v, l) ↦ some l ];
}

abbrev the_leader : Raft Op Saved
the_leader = record {
  npeers = 3;
  persister = record { raftstate = none; snapshot = none };
  me = 0;
  applied = [];
  current_term = 1;
  voted_for = some 0;
  logs = entry put_x ∷ entry append_y ∷ [];
  commit_index = 2;
  last_applied = 0;
  next_index = 1 ∷ 3 ∷ 3 ∷ [];
  match_index = 0 ∷ 2 ∷ 0 ∷ [];
  role = leader;
  election_timeout = 100;
  heart_beat_timeout = 50;
  last_heart = 0;
  running = true;
  counter = 0;
}

-- The third entry is committed and applied at the second poll.
abbrev views : ℕ → View
views p =
    if p == 0
    then record { current_index = 2; logs = three; commit_index = 2 }
    else record { current_index = 3; logs = three; commit_index = 3 }

abbrev get_args : GetArgs
get_args = record { key = "k"; uuid = "1_2" }

get_replies :
    (get plain_gob get_args views the_leader).1
    ≡ some (record { wrong_leader = false; value = "xy"; id = 3 })
unfolding get replay get_loop replay_logs write
get_replies = refl

views-commit : (p : ℕ) → (views p).commit_index ≤ 3
views-commit p = ground arith

get_answers_example :
    (((get plain_gob get_args views the_leader).1 ≡ some get_refused)
      × ((p : ℕ) → p < 30 → (views p).current_index ≢ 3))
    ⊎ ((p : ℕ) × (p < 30)
        × ((views p).current_index ≡ 3)
        × ((get plain_gob get_args views the_leader).1
            ≡ some (record { wrong_leader = false; value = committed_db (views p) "k"; id = 3 })))
get_answers_example = get_answers plain_gob get_args views the_leader refl (λ p. ground arith)

abbrev append_z : Op
append_z = record { opt = "Append"; key = "k"; value = "z"; uuid = "1_3" }

abbrev put_args : PutAppendArgs
put_args = record { key = "k"; value = "z"; opt = "Append"; uuid = "1_3" }

-- The entry of the request is applied at the second poll.
abbrev put_views : ℕ → View
put_views p = record {
  current_index = if p == 0 then 2 else 3;
  logs = entry put_x ∷ entry append_y ∷ entry append_z ∷ [];
  commit_index = if p == 0 then 2 else 3;
}

put_views-current : (p : ℕ) → (put_views p).current_index ≤ length (put_views p).logs
put_views-current p = ground arith

put_append_answers_example :
    (((put_append plain_gob put_args put_views the_leader).1 ≡ some put_refused)
      × ((p : ℕ) → p < 500 → (put_views p).current_index ≤ 2))
    ⊎ ((p : ℕ) × (e : Entry Op) × (p < 500)
        × ((q : ℕ) → q < p → (put_views q).current_index ≤ 2)
        × (3 ≤ (put_views p).current_index)
        × (get_elem? (put_views p).logs 2 ≡ some e)
        × ((put_append plain_gob put_args put_views the_leader).1
            ≡ some (put_answer e (op_of plain_gob put_args put_views the_leader) 3)))
put_append_answers_example =
    put_append_answers plain_gob put_args put_views the_leader refl put_views-current

abbrev ck : Clerk
ck = record { nservers = 3; id = 7; cnt = 12 }

abbrev new_ck : Clerk
new_ck = record { nservers = 3; id = 0; cnt = 0 }

-- Server 2 leads from the second round on; the others fail or refuse.
abbrev get_calls : GetCalls
get_calls round server args =
    if server == 0
    then none
    else if (server == 2) && (round == 1)
    then some (record { wrong_leader = false; value = "v"; id = 7 })
    else some (record { wrong_leader = true; value = ""; id = 0 })

abbrev put_calls : PutCalls
put_calls round server args =
    if server == 0 then none else some (record { wrong_leader = not (server == 2); id = 7 })

abbrev good : GetReply
good = record { wrong_leader = false; value = "v"; id = 7 }

clerk_get_returns_example :
    (reply : GetReply) × (r k : ℕ) × (r ≤ 1)
    × (k < 3)
    × IsGood reply (get_calls r k (get_request "k" new_ck))
    × (clerk_get get_calls 4 "k" new_ck
        ≡ some (reply.value, record { nservers = 3; id = reply.id; cnt = 1 }))
unfolding IsGood
clerk_get_returns_example =
    clerk_get_returns get_calls 4 "k" new_ck 1 2 good (omega arith) (omega arith) (refl, refl)

got : clerk_get get_calls 4 "k" new_ck ≡ some ("v", record { nservers = 3; id = 7; cnt = 1 })
unfolding clerk_get
got = refl

uuid_fresh_example :
    ((v : String) (ck' : Clerk) → clerk_get get_calls 4 "k" ck ≡ some (v, ck') → uuid ck' ≢ uuid ck)
    × ((ck' : Clerk)
        → clerk_put_append get_calls put_calls 4 "k" "v" "Put" ck ≡ some ck'
        → uuid ck' ≢ uuid ck)
uuid_fresh_example = uuid_fresh get_calls put_calls 4 "k" "v" "Put" ck

-- Five servers, led by server 2.
split_five : make_partition (λ i. i == 2) 5 ≡ some (0 ∷ 1 ∷ 3 ∷ [], 4 ∷ 2 ∷ [])
unfolding make_partition
split_five = refl

-- Four servers, led by server 3: server 0 is in both groups.
split_four : make_partition (λ i. i == 3) 4 ≡ some (0 ∷ 1 ∷ 2 ∷ [], 0 ∷ 3 ∷ [])
unfolding make_partition
split_four = refl
