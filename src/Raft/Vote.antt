-- ===== src/Raft/Vote.antt =====
-- src/raft/raft.go: elections. `RequestVote`, `sendRequestVote`, `doVote` and the timer of `Make`.
pub mod Grants
pub mod Race
pub mod Requests
pub mod Election
use code2go.Prelude.{
  ℕ, zero, suc, ◌+◌, ◌-◌, ◌*◌, Bool, true, false, not, ◌&&◌, ◌||◌, Option, none, some, List, [],
  ◌∷◌, length, ltb, leb, ◌==◌, if◌then◌else◌, replicate,
}
use code2go.Raft.State.{
  follower, candidate, leader, is_leader, is_candidate, Gob, Raft, persist, last_log_term,
}

pub record RequestVoteArgs : Type 0 where
  pub term : ℕ
  pub candidate_id : ℕ
  pub last_log_index : ℕ
  pub last_log_term : ℕ

pub record RequestVoteReply : Type 0 where
  pub term : ℕ
  pub vote_granted : Bool

-- rf.votedFor == -1 || rf.votedFor == args.CandidateId
unfoldable pub may_vote : Option ℕ → ℕ → Bool
may_vote none candidate_id = true
may_vote (some v) candidate_id = v == candidate_id

-- The candidate's log, given by its last term and its length, is not behind.
unfoldable pub up_to_date : (last_term len : ℕ) → RequestVoteArgs → Bool
up_to_date last_term len args =
    ltb last_term args.last_log_term
    || (last_term == args.last_log_term && leb len args.last_log_index)

-- The requests of `doVote`, from the peer with the given number of peers left to ask.
unfoldable pub vote_requests : RequestVoteArgs → (me peer left : ℕ) → List (ℕ × RequestVoteArgs)
vote_requests args me peer zero = []
vote_requests args me peer (suc left) =
    let rest = vote_requests args me (peer + 1) left in
    if peer == me then rest else (peer, args) ∷ rest

module _ {C B : Type 0} where
  -- Whatever the request, a higher term makes the peer a follower that has not voted.
  unfoldable pub observe_term : ℕ → Raft C B → Raft C B
  observe_term term rf =
      if ltb rf.current_term term
      then record rf { role = follower; voted_for = none; current_term = term }
      else rf

  -- The `else` branch of `RequestVote`, after the higher term was taken over.
  unfoldable pub decide_vote : (now : ℕ) → RequestVoteArgs → Raft C B → Raft C B × Bool
  unfolding may_vote up_to_date last_log_term
  decide_vote now args rf =
      if may_vote rf.voted_for args.candidate_id
        && up_to_date (last_log_term rf.logs) (length rf.logs) args
      then (
        record rf { role = follower; voted_for = some args.candidate_id; last_heart = now },
        true,
      )
      else (rf, false)

  unfoldable pub vote : (now : ℕ) → RequestVoteArgs → Raft C B → Raft C B × Bool
  unfolding observe_term decide_vote
  vote now args rf =
      if ltb args.term rf.current_term
      then (rf, false)
      else decide_vote now args (observe_term args.term rf)

  unfoldable pub request_vote :
      Gob C B → (now : ℕ) → RequestVoteArgs → Raft C B → Raft C B × RequestVoteReply
  unfolding vote persist
  request_vote g now args rf =
      let (rf', granted) = vote now args rf in
      (persist g rf', record { term = rf'.current_term; vote_granted = granted })

  -- `if reply.Term > rf.currentTerm`, read before the lock is taken.
  unfoldable pub is_behind : ℕ → Raft C B → Bool
  is_behind reply_term rf = ltb rf.current_term reply_term

  -- What is done with the lock held, once `is_behind` was seen.
  unfoldable pub step_down : Gob C B → ℕ → Raft C B → Raft C B
  unfolding persist
  step_down g reply_term rf =
      persist g (record rf { current_term = reply_term; role = follower; voted_for = none })

  -- The reply of `sendRequestVote`, with nothing between the test and the lock. Raft/Run/Races has the two apart.
  unfoldable pub adopt_reply_term : Gob C B → ℕ → Raft C B → Raft C B
  unfolding is_behind step_down
  adopt_reply_term g reply_term rf =
      if is_behind reply_term rf then step_down g reply_term rf else rf

  unfoldable pub vote_args : Raft C B → RequestVoteArgs
  unfolding last_log_term
  vote_args rf = record {
    term = rf.current_term;
    candidate_id = rf.me;
    last_log_index = length rf.logs;
    last_log_term = last_log_term rf.logs;
  }

  unfoldable pub do_vote : Raft C B → List (ℕ × RequestVoteArgs)
  unfolding vote_requests vote_args
  do_vote rf = vote_requests (vote_args rf) rf.me 0 rf.npeers

  unfoldable pub become_leader : Gob C B → Raft C B → Raft C B
  unfolding persist
  become_leader g rf = persist g (record rf {
    role = leader;
    next_index = replicate rf.npeers (length rf.logs + 1);
    match_index = replicate rf.npeers 0;
  })

  -- The rest of the goroutine of `doVote` for one peer: `ok` says that the call was answered. The
  -- counter `agreed` is shared by the goroutines of one election. The last part of the result says
  -- that `doSubmit` is started.
  unfoldable pub count_vote :
      Gob C B
      → RequestVoteArgs
      → (ok : Bool) → RequestVoteReply
      → (agreed : ℕ) → Raft C B
      → Raft C B × ℕ × Bool
  unfolding adopt_reply_term become_leader is_candidate
  count_vote g args ok reply agreed rf =
      let rf' = if ok then adopt_reply_term g reply.term rf else rf in
      if ok && reply.vote_granted && args.term == rf'.current_term && is_candidate rf'.role
      then (if ltb rf'.npeers ((agreed + 1) * 2)
          then (become_leader g rf', agreed + 1, true)
          else (rf', agreed + 1, false))
      else (rf', agreed, false)

  -- The timeout of `Make`'s goroutine: a new election starts. `fresh` is the new random timeout.
  unfoldable pub start_election : Gob C B → (fresh : ℕ) → Raft C B → Raft C B
  unfolding persist
  start_election g fresh rf = persist g (record rf {
    election_timeout = fresh;
    current_term = rf.current_term + 1;
    voted_for = some rf.me;
    role = candidate;
  })

  -- One round of that goroutine after its sleep. `now` and `later` are the clock at its two tests. The source makes the tests without
  -- the lock; here nothing stands between the first and the lock, and Raft/Run/Races has the parts one by one.
  unfoldable pub election_round :
      Gob C B → (fresh now later : ℕ) → Raft C B → Raft C B × List (ℕ × RequestVoteArgs)
  unfolding start_election do_vote is_leader
  election_round g fresh now later rf =
      let expired = not (is_leader rf.role) && leb rf.election_timeout (now - rf.last_heart) in
      let rf' = if expired then start_election g fresh rf else rf in
      let requests = if expired then do_vote rf' else [] in
      (
        if leb rf'.election_timeout (later - rf'.last_heart)
            then record rf' { last_heart = later }
            else rf',
        requests,
      )
