-- ===== src/Raft/State.antt =====
-- src/raft/raft.go: the state of a peer, what it persists, and the operations that the service calls.
-- `C` is the type of commands (`interface{}`), `B` that of byte slices.
--
-- Terms, indices and instants are natural numbers: the code only counts them up from 0. The value -1
-- of `votedFor` is `none`. An entry of the log is a map with the keys "command" and "term": a record.
-- What is sent on `applyCh` is collected in `applied`, oldest first. The peer's locks are taken
-- around each function as a whole, so each function is one step.
use code2go.Prelude.{
  ℕ, ◌+◌, ◌≡◌, Bool, true, false, Option, none, some, List, [], ◌∷◌, ◌++◌, length, get_last?,
  if◌then◌else◌,
}
use code2go.Persister.{Persister, save_raft_state, read_raft_state}

pub data Role : Type 0 where
  follower candidate leader : Role

unfoldable pub is_leader : Role → Bool
is_leader follower = false
is_leader candidate = false
is_leader leader = true

unfoldable pub is_candidate : Role → Bool
is_candidate follower = false
is_candidate candidate = true
is_candidate leader = false

pub record Entry (C : Type 0) : Type 0 where
  pub command : C
  pub term : ℕ

pub record ApplyMsg (C : Type 0) : Type 0 where
  pub index : ℕ
  pub command : C

-- What `encoding/gob` does for this package: one buffer for three values, and what each of the three
-- calls of `Decode` finds in a buffer, `none` where it reports an error.
pub record Gob (C B : Type 0) : Type 0 where
  pub encode : ℕ → Option ℕ → List (Entry C) → B
  pub decode_term : Option B → Option ℕ
  pub decode_vote : Option B → Option (Option ℕ)
  pub decode_logs : Option B → Option (List (Entry C))

-- The documented behaviour of `encoding/gob`: what was encoded is decoded, and an empty buffer is an
-- error (`io.EOF`).
pub record IsGob {C B : Type 0} (g : Gob C B) : Type 0 where
  pub term_back :
      (t : ℕ) (v : Option ℕ) (l : List (Entry C)) → g.decode_term (some (g.encode t v l)) ≡ some t
  pub vote_back :
      (t : ℕ) (v : Option ℕ) (l : List (Entry C)) → g.decode_vote (some (g.encode t v l)) ≡ some v
  pub logs_back :
      (t : ℕ) (v : Option ℕ) (l : List (Entry C)) → g.decode_logs (some (g.encode t v l)) ≡ some l
  pub term_empty : g.decode_term none ≡ none
  pub vote_empty : g.decode_vote none ≡ none
  pub logs_empty : g.decode_logs none ≡ none

pub record Raft (C B : Type 0) : Type 0 where
  pub npeers : ℕ  -- len(peers)
  pub persister : Persister B
  pub me : ℕ
  pub applied : List (ApplyMsg C)  -- sent on applyCh
  pub current_term : ℕ
  pub voted_for : Option ℕ
  pub logs : List (Entry C)
  pub commit_index : ℕ
  pub last_applied : ℕ
  pub next_index : List ℕ
  pub match_index : List ℕ
  pub role : Role
  pub election_timeout : ℕ
  pub heart_beat_timeout : ℕ
  pub last_heart : ℕ
  pub running : Bool
  pub counter : ℕ

-- A `Decode` that fails leaves its variable as it was.
abbrev pub decoded {ℓ} : {A : Type ℓ} → Option A → A → A
decoded none old = old
decoded (some new) old = new

-- The term of the last entry, 0 for an empty log (`RequestVote`, `doVote`).
unfoldable pub last_log_term : {C : Type 0} → List (Entry C) → ℕ
last_log_term logs = elim (get_last? logs) [ none ↦ 0 | some e ↦ e.term ]

module _ {C B : Type 0} where
  unfoldable pub get_state : Raft C B → ℕ × Bool
  unfolding is_leader
  get_state rf = (rf.current_term, is_leader rf.role)

  unfoldable pub get_state2 : Raft C B → Bool × List (Entry C) × ℕ
  unfolding is_leader
  get_state2 rf = (is_leader rf.role, rf.logs, rf.commit_index)

  unfoldable pub persist : Gob C B → Raft C B → Raft C B
  unfolding save_raft_state
  persist g rf = record rf {
    persister = save_raft_state (g.encode rf.current_term rf.voted_for rf.logs) rf.persister;
  }

  unfoldable pub read_persist : Gob C B → Option B → Raft C B → Raft C B
  read_persist g saved rf = record rf {
    current_term = decoded (g.decode_term saved) rf.current_term;
    voted_for = decoded (g.decode_vote saved) rf.voted_for;
    logs = decoded (g.decode_logs saved) rf.logs;
  }

  -- Agreement on a new command: the index and term that it would have, and whether it was taken.
  unfoldable pub start : Gob C B → C → Raft C B → Raft C B × (ℕ × ℕ × Bool)
  unfolding persist is_leader
  start g command rf =
      let index = length rf.logs + 1 in
      let entry : Entry C = record { command = command; term = rf.current_term } in
      if is_leader rf.role
      then (persist g (record rf { logs = rf.logs ++ entry ∷ [] }), (index, rf.current_term, true))
      else (rf, (index, rf.current_term, false))

  unfoldable pub kill : Raft C B → Raft C B
  kill rf = record rf { running = false }

  -- The peer before its goroutine starts. The two timeouts are drawn at random by the caller's
  -- `rand`; all that `Make` does not write is the zero value, so the vote starts at server 0.
  unfoldable pub make_raft :
      Gob C B
      → (npeers me : ℕ) → Persister B
      → (election_timeout heart_beat_timeout now : ℕ) → Raft C B
  unfolding read_persist read_raft_state
  make_raft g npeers me ps election_timeout heart_beat_timeout now =
      let zero_value : Raft C B = record {
        npeers = npeers;
        persister = ps;
        me = me;
        applied = [];
        current_term = 0;
        voted_for = some 0;
        logs = [];
        commit_index = 0;
        last_applied = 0;
        next_index = [];
        match_index = [];
        role = follower;
        election_timeout = 0;
        heart_beat_timeout = 0;
        last_heart = 0;
        running = true;
        counter = 0;
      } in
      record (read_persist g (read_raft_state ps) zero_value) {
        election_timeout = election_timeout;
        heart_beat_timeout = heart_beat_timeout;
        counter = 0;
        last_heart = now;
        role = follower;
        commit_index = 0;
        last_applied = 0;
      }
