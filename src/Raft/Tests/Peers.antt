-- ===== src/Raft/Tests/Peers.antt =====
-- Concrete peers and messages of src/raft/raft.go.
use code2go.Prelude.{ℕ, refl, true, false, Option, none, some, List, [], ◌∷◌}
use code2go.Raft.State.{Role, follower, candidate, leader, Entry, Gob, IsGob, Raft}
use code2go.Raft.Vote.{RequestVoteArgs}
use code2go.Raft.Vote.Election.{Answer}
use code2go.Raft.Append.{AppendEntriesArgs}

-- A codec that keeps the three values as they are.
abbrev pub Saved : Type 0
Saved = ℕ × Option ℕ × List (Entry ℕ)

abbrev pub plain_gob : Gob ℕ Saved
plain_gob = record {
  encode = λ t v l. (t, v, l);
  decode_term = λ s. elim s [ none ↦ none | some (t, v, l) ↦ some t ];
  decode_vote = λ s. elim s [ none ↦ none | some (t, v, l) ↦ some v ];
  decode_logs = λ s. elim s [ none ↦ none | some (t, v, l) ↦ some l ];
}

pub plain_gob-IsGob : IsGob plain_gob
plain_gob-IsGob = record {
  term_back = λ t v l. refl;
  vote_back = λ t v l. refl;
  logs_back = λ t v l. refl;
  term_empty = refl;
  vote_empty = refl;
  logs_empty = refl;
}

-- A peer of a cluster of three.
abbrev pub peer : (me term : ℕ) → Option ℕ → List (Entry ℕ) → (commit : ℕ) → Role → Raft ℕ Saved
peer me term vote logs commit role = record {
  npeers = 3;
  persister = record { raftstate = none; snapshot = none };
  me = me;
  applied = [];
  current_term = term;
  voted_for = vote;
  logs = logs;
  commit_index = commit;
  last_applied = 0;
  next_index = 1 ∷ 3 ∷ 3 ∷ [];
  match_index = 0 ∷ 2 ∷ 0 ∷ [];
  role = role;
  election_timeout = 100;
  heart_beat_timeout = 50;
  last_heart = 0;
  running = true;
  counter = 0;
}

abbrev pub entry : (command term : ℕ) → Entry ℕ
entry command term = record { command = command; term = term }

abbrev pub two_entries : List (Entry ℕ)
two_entries = entry 7 1 ∷ entry 8 2 ∷ []

abbrev pub the_leader : Raft ℕ Saved
the_leader = peer 0 2 (some 0) two_entries 0 leader

abbrev pub the_follower : Raft ℕ Saved
the_follower = peer 1 1 none two_entries 0 follower

abbrev pub ask : (term candidate_id : ℕ) → RequestVoteArgs
ask term candidate_id = record {
  term = term;
  candidate_id = candidate_id;
  last_log_index = 2;
  last_log_term = 3;
}

abbrev pub request : (term prev prev_term : ℕ) → List (Entry ℕ) → (commit : ℕ) → AppendEntriesArgs ℕ
request term prev prev_term entries commit = record {
  term = term;
  leader_id = 1;
  prev_log_index = prev;
  prev_log_term = prev_term;
  entries = entries;
  leader_commit = commit;
}

abbrev pub grant : Answer
grant = (true, record { term = 2; vote_granted = true })

abbrev pub lost : Answer
lost = (false, record { term = 0; vote_granted = false })

abbrev pub the_candidate : Raft ℕ Saved
the_candidate = peer 0 2 (some 0) two_entries 0 candidate

abbrev pub saved_peer : Raft ℕ Saved
saved_peer = record the_leader {
  persister = record { raftstate = some (2, some 0, two_entries); snapshot = none };
}
