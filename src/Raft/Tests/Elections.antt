-- ===== src/Raft/Tests/Elections.antt =====
-- Elections and runs of src/raft/raft.go at concrete inputs.
use code2go.Prelude.{
  ℕ, ◌+◌, ◌*◌, ◌<◌, ◌≡◌, ◌↔◌, ◌⊎◌, inl, inr, refl, true, false, some, List, [], ◌∷◌, arith,
}
use code2go.Persister.{make_persister}
use code2go.Raft.State.{follower, leader, Raft, make_raft, last_log_term}
use code2go.Raft.Vote.{request_vote, is_behind, step_down, start_election}
use code2go.Raft.Vote.Grants.{Deserves, request_vote-Deserves}
use code2go.Raft.Vote.Election.{collect, collect_wins, grants}
use code2go.Raft.Vote.Race.{raced, step_down_revotes}
use code2go.Raft.Append.{append_entries, accepts, deliver}
use code2go.Raft.Run.{Event, voted, heard, Reach, made, next, asked, pinged}
use code2go.Raft.Run.Inv.{Noted}
use code2go.Raft.Run.Votes.{Reach-IsDurable}
use code2go.Raft.Run.Races.{RacedReach, RacedReach-single_vote}
use code2go.Raft.Run.Races
use code2go.Raft.Durable.{IsDurable, make_raft_recovers}
use code2go.Raft.Tests.Peers.{
  Saved, plain_gob, plain_gob-IsGob, two_entries, the_follower, ask, request, grant, lost,
  the_candidate, saved_peer,
}

the_vote :
    (request_vote plain_gob 5 (ask 3 2) the_follower).1 ≡ record { term = 3; vote_granted = true }
unfolding request_vote
the_vote = refl

-- A run in which the peer votes for 2, hears of the leader 1 in the same term, and votes for 1.
two_votes :
    (rf : Raft ℕ Saved) × (tr : List Event) × Reach plain_gob 3 0 rf tr
    × Noted (voted 3 2) tr
    × Noted (voted 3 1) tr
unfolding request_vote append_entries accepts deliver make_raft make_persister
two_votes = (
  _,
  _,
  next (next (next (made 100 50 0) (asked 5 (ask 3 2))) (pinged 6 (request 3 0 0 [] 0) refl))
      (asked 7 (ask 3 1)),
  inr (inr (inl refl)),
  inl refl,
)

-- The same in a run in which the peer first starts an election of its own, and then hears of term 2 in a late reply.
raced_votes :
    (rf : Raft ℕ Saved) × (tr : List Event) × RacedReach plain_gob 3 0 rf tr false
    × Noted (voted 3 2) tr
    × Noted (voted 3 1) tr
unfolding request_vote append_entries accepts deliver make_raft make_persister is_behind step_down
    start_election
raced_votes = (
  _,
  _,
  Races.next
      (Races.next
        (Races.next (Races.steps_down 2 (Races.expires 120 (Races.made 100 50 0)))
          (asked 5 (ask 3 2)))
        (pinged 6 (request 3 0 0 [] 0) refl))
      (asked 7 (ask 3 1)),
  inr (inr (inl refl)),
  inl refl,
)

-- The theorems, each at an input that meets its hypotheses.
RacedReach-single_vote_example :
    (◌≡◌ {A = ℕ} 2 1) ⊎ (Noted (heard 3 2) raced_votes.1 ⊎ Noted (heard 3 1) raced_votes.1)
RacedReach-single_vote_example =
    RacedReach-single_vote plain_gob plain_gob-IsGob raced_votes.2 3 2 1 raced_votes.3 raced_votes.4

Reach-IsDurable_example : IsDurable plain_gob two_votes.0
Reach-IsDurable_example = Reach-IsDurable plain_gob plain_gob-IsGob two_votes.2

make_raft_recovers_example :
    ((make_raft plain_gob 3 0 saved_peer.persister 100 50 9).current_term ≡ 2)
    × ((make_raft plain_gob 3 0 saved_peer.persister 100 50 9).voted_for ≡ some 0)
    × ((make_raft plain_gob 3 0 saved_peer.persister 100 50 9).logs ≡ two_entries)
    × ((make_raft plain_gob 3 0 saved_peer.persister 100 50 9).role ≡ follower)
    × ((make_raft plain_gob 3 0 saved_peer.persister 100 50 9).commit_index ≡ 0)
make_raft_recovers_example =
    make_raft_recovers plain_gob plain_gob-IsGob 3 0 100 50 9 saved_peer (inl refl)

request_vote-Deserves_example :
    ((request_vote plain_gob 5 (ask 3 2) the_follower).1.vote_granted ≡ true)
    ↔ Deserves (ask 3 2) the_follower
request_vote-Deserves_example = request_vote-Deserves plain_gob 5 (ask 3 2) the_follower

collect_wins_example :
    ((collect plain_gob (ask 2 0) (lost ∷ grant ∷ []) 1 the_candidate).role ≡ leader)
    ↔ (3 < (1 + grants (lost ∷ grant ∷ [])) * 2)
collect_wins_example =
    collect_wins plain_gob (ask 2 0) (lost ∷ grant ∷ []) the_candidate (omega arith) refl refl
      (omega arith)

step_down_revotes_example :
    (request_vote plain_gob 7 (ask 5 0) (raced plain_gob 7 4 (ask 5 2) the_follower)).1.vote_granted
    ≡ true
unfolding request_vote is_behind last_log_term
step_down_revotes_example =
    step_down_revotes plain_gob 7 4 (ask 5 2) (ask 5 0) the_follower refl (omega arith) refl refl
      (omega arith)
