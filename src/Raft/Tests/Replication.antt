-- ===== src/Raft/Tests/Replication.antt =====
-- Replication of src/raft/raft.go at concrete inputs.
use code2go.Prelude.{
  ℕ, suc, ◌+◌, ◌*◌, ◌≤◌, ◌<◌, ◌≡◌, ◌↔◌, ◌⊎◌, refl, true, false, none, some, [], ◌∷◌, get_elem?,
  arith,
}
use code2go.Raft.State.{follower, Entry, Raft, start}
use code2go.Raft.Append.{AppendEntriesArgs, AppendEntriesReply, append_entries, accepts}
use code2go.Raft.Submit.{make_request, handle_append_reply, update_commit}
use code2go.Raft.Append.Replicate.{Matches, append_entries_panics}
use code2go.Raft.Submit.Sync.{
  append_entries-make_request, make_request-handle_append_reply, make_request-append_entries,
}
use code2go.Raft.Submit.Reorder.{append_entries-reordered}
use code2go.Raft.Submit.Commit.{update_commit_bounds}
use code2go.Raft.Submit.Majority.{recorded_holders, update_commit_total, update_commit_majority}
use code2go.Raft.Tests.Peers.{
  Saved, plain_gob, entry, two_entries, the_leader, the_follower, request,
}

the_commit :
    update_commit the_leader
    ≡ some (record the_leader {
      commit_index = 2;
      applied = record { index = 1; command = 7 } ∷ record { index = 2; command = 8 } ∷ [];
    })
unfolding update_commit
the_commit = refl

abbrev committed : Raft ℕ Saved
committed = record the_leader {
  commit_index = 2;
  applied = record { index = 1; command = 7 } ∷ record { index = 2; command = 8 } ∷ [];
}

update_commit_bounds_example : (0 ≤ committed.commit_index) × (committed.commit_index ≤ 2)
update_commit_bounds_example = update_commit_bounds the_leader committed the_commit (omega arith)

update_commit_total_example : (rf' : Raft ℕ Saved) × (update_commit the_leader ≡ some rf')
update_commit_total_example = update_commit_total the_leader refl

update_commit_majority_example :
    (◌≡◌ {A = ℕ} 2 0)
    ⊎ ((k : ℕ) × (e : Entry ℕ) × (2 ≡ suc k)
        × (get_elem? two_entries k ≡ some e)
        × (2 ≤ e.term)
        × (3 < (1 + recorded_holders 0 k 0 the_leader.match_index) * 2))
update_commit_majority_example = update_commit_majority the_leader committed refl the_commit

-- The follower takes a third entry after the two that it has.
abbrev third : AppendEntriesArgs ℕ
third = request 2 2 2 (entry 9 2 ∷ []) 1

abbrev followed : Raft ℕ Saved
followed = record the_follower {
  current_term = 2;
  voted_for = some 1;
  logs = entry 7 1 ∷ entry 8 2 ∷ entry 9 2 ∷ [];
  commit_index = 1;
  applied = record { index = 1; command = 7 } ∷ [];
  last_heart = 4;
  persister = record {
    raftstate = some (2, some 1, entry 7 1 ∷ entry 8 2 ∷ entry 9 2 ∷ []);
    snapshot = none;
  };
}

abbrev ok_reply : AppendEntriesReply
ok_reply = record { term = 2; success = true; len = 0 }

the_append : append_entries plain_gob 4 third the_follower ≡ some (followed, ok_reply)
unfolding append_entries accepts
the_append = refl

append_entries_panics_example :
    (append_entries plain_gob 4 third the_follower ≡ none)
    ↔ ((1 ≤ 2) × Matches third two_entries × (0 < 1) × (3 < 1))
append_entries_panics_example = append_entries_panics plain_gob 4 third the_follower

-- Peer 1 has both entries, and is sent none.
abbrev ping : AppendEntriesArgs ℕ
ping = record {
  term = 2;
  leader_id = 0;
  prev_log_index = 2;
  prev_log_term = 2;
  entries = [];
  leader_commit = 0;
}

the_ping : make_request 1 the_leader ≡ some (ping, the_leader)
unfolding make_request
the_ping = refl

append_entries-make_request_example :
    (f' : Raft ℕ Saved) × (reply : AppendEntriesReply) × (append_entries plain_gob 4 ping
        the_follower
      ≡ some (f', reply))
    × (reply.success ≡ true)
    × (f'.logs ≡ two_entries)
    × (f'.commit_index ≡ 0)
append_entries-make_request_example =
    append_entries-make_request plain_gob 4 1 the_leader the_follower the_ping (omega arith)
      (omega arith) refl

-- The leader takes command 9, and sends it to peer 1.
abbrev nine : AppendEntriesArgs ℕ
nine = record ping { entries = entry 9 2 ∷ [] }

abbrev sent_nine : Raft ℕ Saved
sent_nine = record (start plain_gob 9 the_leader).0 { next_index = 1 ∷ 4 ∷ 3 ∷ [] }

the_nine : make_request 1 (start plain_gob 9 the_leader).0 ≡ some (nine, sent_nine)
unfolding make_request start
the_nine = refl

append_entries-reordered_example :
    (f1 : Raft ℕ Saved) × (f2 : Raft ℕ Saved) × (l3 : Raft ℕ Saved) × (reply : AppendEntriesReply)
    × (reply' : AppendEntriesReply) × (append_entries plain_gob 4 nine the_follower
        ≡ some (f1, reply))
    × (append_entries plain_gob 5 ping f1 ≡ some (f2, reply'))
    × (reply'.success ≡ true)
    × (handle_append_reply plain_gob 1 nine true reply sent_nine ≡ some l3)
    × (l3.commit_index ≡ 3)
    × (f2.logs ≡ two_entries)
append_entries-reordered_example =
    append_entries-reordered plain_gob 4 5 1 9 the_leader the_follower refl (omega arith) refl
      (omega arith) (omega arith) (ground arith) (omega arith) refl the_ping the_nine

make_request-handle_append_reply_example :
    (rf' : Raft ℕ Saved) × (handle_append_reply plain_gob 1 ping true
        (record { term = 2; success = false; len = 1 })
        the_leader
      ≡ some rf')
    × (again : AppendEntriesArgs ℕ) × (rf'' : Raft ℕ Saved) × (make_request 1 rf'
        ≡ some (again, rf''))
    × (again.prev_log_index ≡ 0)
    × (again.entries ≡ two_entries)
make_request-handle_append_reply_example =
    make_request-handle_append_reply plain_gob 1 ping
      (record { term = 2; success = false; len = 1 }) the_leader refl (omega arith) refl
      (omega arith)

-- A new leader leaves the old one with an empty log.
abbrev cut : Raft ℕ Saved
cut = record the_leader {
  current_term = 3;
  voted_for = some 1;
  logs = [];
  role = follower;
  last_heart = 4;
  persister = record { raftstate = some (3, some 1, []); snapshot = none };
}

the_cut :
    append_entries plain_gob 4 (request 3 0 0 [] 0) the_leader
    ≡ some (cut, record { term = 3; success = true; len = 0 })
unfolding append_entries accepts
the_cut = refl

make_request-append_entries_example : make_request 1 cut ≡ none
make_request-append_entries_example =
    make_request-append_entries plain_gob 4 1 (request 3 0 0 [] 0) the_leader 2 refl the_cut refl
      (omega arith)
