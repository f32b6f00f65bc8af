-- ===== src/Raft/Vote/Grants.antt =====
-- What `RequestVote` of src/raft/raft.go answers and how it changes the peer.
use code2go.Prelude.{ℕ, ◌≤◌, ◌<◌, ◌≡◌, ◌↔◌, ◌⊎◌, true, false, none, some, length, arith, max}
use code2go.Raft.State.{follower, Gob, Raft, last_log_term}
use code2go.Raft.Vote.{RequestVoteArgs, request_vote}

-- The rule of the election: the request is not of an old term, the peer is free to vote for the
-- candidate in the term of the request, and the candidate's log is at least as good as its own.
pub record Deserves {C B : Type 0} (args : RequestVoteArgs) (rf : Raft C B) : Type 0 where
  pub current : rf.current_term ≤ args.term
  pub free :
      (rf.current_term < args.term)
      ⊎ ((rf.voted_for ≡ none) ⊎ (rf.voted_for ≡ some args.candidate_id))
  pub log_ok :
      (last_log_term rf.logs < args.last_log_term)
      ⊎ ((last_log_term rf.logs ≡ args.last_log_term) × (length rf.logs ≤ args.last_log_index))

module _ {C B : Type 0} (g : Gob C B) (now : ℕ) (args : RequestVoteArgs) (rf : Raft C B) where
  -- A vote is granted exactly when the candidate deserves it.
  pub request_vote-Deserves :
      ((request_vote g now args rf).1.vote_granted ≡ true) ↔ Deserves args rf
  unfolding request_vote
  request_vote-Deserves = (
    λ h. record { current = ground arith; free = ground arith; log_ok = ground arith },
    λ d. ground (arith, d.free, d.log_ok),
  )

  -- The term never falls, the reply carries the term that the peer has afterwards, which is the
  -- higher of the two, and the log and the commit index stay.
  pub request_vote-term :
      ((request_vote g now args rf).0.current_term ≡ max rf.current_term args.term)
      × ((request_vote g now args rf).1.term ≡ (request_vote g now args rf).0.current_term)
      × ((request_vote g now args rf).0.logs ≡ rf.logs)
      × ((request_vote g now args rf).0.commit_index ≡ rf.commit_index)
  unfolding request_vote
  request_vote-term = (ground arith, ground arith, ground arith, ground arith)

  -- A granted vote is recorded, makes the peer a follower and restarts its timer.
  pub request_vote-granted :
      (request_vote g now args rf).1.vote_granted ≡ true
      → ((request_vote g now args rf).0.voted_for ≡ some args.candidate_id)
        × ((request_vote g now args rf).0.role ≡ follower)
        × ((request_vote g now args rf).0.last_heart ≡ now)
  unfolding request_vote
  request_vote-granted h = (ground arith, ground arith, ground arith)

  -- A refused vote in a term that is not new leaves vote, role and timer alone.
  pub request_vote-refused :
      (request_vote g now args rf).1.vote_granted ≡ false
      → args.term ≤ rf.current_term
      → ((request_vote g now args rf).0.voted_for ≡ rf.voted_for)
        × ((request_vote g now args rf).0.role ≡ rf.role)
        × ((request_vote g now args rf).0.last_heart ≡ rf.last_heart)
  unfolding request_vote
  request_vote-refused h k = (ground arith, ground arith, ground arith)
