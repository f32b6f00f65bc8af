-- ===== src/Raft/Cluster/Tests.antt =====
-- A cluster of three peers of src/raft/raft.go elects a leader, and the theorem of its safety there.
use code2go.Prelude.{ℕ, ◌≡◌, refl, true, none, some, [], ◌∷◌, arith}
use code2go.Persister.{make_persister}
use code2go.Raft.State.{follower, candidate, leader, last_log_term, Raft, make_raft}
use code2go.Raft.Vote.{
  vote_args, up_to_date, RequestVoteReply, request_vote, count_vote, election_round,
}
use code2go.Raft.Append.{accepts, append_entries}
use code2go.Raft.Submit.{make_request}
use code2go.Raft.Cluster.Stale.{heart_beat_steals_vote}
use code2go.Raft.Run.{timer, note_vote, note_election}
use code2go.Raft.Cluster.{
  Cluster, Election, replied, set_at, move_peer, move_election, open_election, count_reply,
  fresh_cluster, Runs, begins, then_moves, alone, opens, asks, counts,
}
use code2go.Raft.Cluster.Tally.{Won}
use code2go.Raft.Cluster.Safety.{Runs-one_leader}
use code2go.Raft.Tests.Peers.{peer, request, Saved, plain_gob, plain_gob-IsGob}

abbrev idle : Cluster ℕ Saved
idle = fresh_cluster plain_gob 3 (λ p. 100) (λ p. 50) (λ p. 0)

-- The timer of peer 0 ends.
abbrev candidate_0 : Raft ℕ Saved
candidate_0 = (election_round plain_gob 120 150 150 (idle.peer 0)).0

abbrev timed : Cluster ℕ Saved
timed = move_peer idle 0 candidate_0 (note_election (idle.peer 0) candidate_0 [])

abbrev opened : Cluster ℕ Saved
opened = move_election timed 7 (open_election (timed.peer 0))

abbrev the_election : Election
the_election = open_election (timed.peer 0)

abbrev the_reply : RequestVoteReply
the_reply = (request_vote plain_gob 160 the_election.args (opened.peer 1)).1

abbrev answered_1 : Election
answered_1 = record the_election { calls = set_at the_election.calls 1 (replied the_reply) }

abbrev voted_1 : Cluster ℕ Saved
voted_1 =
    move_election
      (move_peer opened 1 (request_vote plain_gob 160 the_election.args (opened.peer 1)).0
        (note_vote the_election.args the_reply (opened.events 1)))
      7 answered_1

abbrev elected : Cluster ℕ Saved
elected = count_reply plain_gob 7 1 answered_1 true the_reply voted_1

run : Runs plain_gob 3 elected
unfolding election_round open_election request_vote make_raft
run =
    then_moves
      (then_moves
        (then_moves
          (then_moves (begins (λ p. 100) (λ p. 50) (λ p. 0))
            (alone 0 (omega arith) (timer 120 150 150) tt))
          (opens 0 7 (omega arith) refl))
        (asks 7 1 160 (omega arith) refl refl))
      (counts 7 1 true the_reply (omega arith) refl refl)

leader_elected : (elected.peer 0).role ≡ leader
unfolding count_reply count_vote election_round open_election request_vote make_raft make_persister
leader_elected = refl

Runs-one_leader_example :
    ((p : ℕ) → (elected.peer p).role ≡ leader → Won (elected.peer p).current_term p elected.won)
    × ((t a b : ℕ) → Won t a elected.won → Won t b elected.won → a ≡ b)
    × ((p q : ℕ)
        → (elected.peer p).role ≡ leader
        → (elected.peer q).role ≡ leader
        → (elected.peer p).current_term ≡ (elected.peer q).current_term
        → p ≡ q)
Runs-one_leader_example = Runs-one_leader plain_gob plain_gob-IsGob 3 run

-- Peer 2 led an earlier term, and is now a candidate of term 1, in which peer 1 voted for peer 0.
abbrev rival : Raft ℕ Saved
rival = record (peer 2 1 (some 2) [] 0 candidate) { next_index = 1 ∷ 1 ∷ 1 ∷ [] }

abbrev voter : Raft ℕ Saved
voter = peer 1 1 (some 0) [] 0 follower

abbrev turned : Raft ℕ Saved
turned = record (peer 1 1 (some 2) [] 0 follower) {
  last_heart = 170;
  persister = record { raftstate = some (1, some 2, []); snapshot = none };
}

heart_beat_steals_vote_example :
    (turned.voted_for ≡ some 2)
    × ((request_vote plain_gob 180 (vote_args rival) turned).1.vote_granted ≡ true)
    × ((count_vote plain_gob
          (vote_args rival)
          true
          (request_vote plain_gob 180 (vote_args rival) turned).1
          1
          rival).0.role
        ≡ leader)
unfolding make_request append_entries accepts up_to_date last_log_term vote_args
heart_beat_steals_vote_example =
    heart_beat_steals_vote plain_gob 1 170 180 rival rival voter turned
      (record (request 1 0 0 [] 0) { leader_id = 2 }) (record { term = 1; success = true; len = 0 })
      refl (omega arith) refl refl refl refl
