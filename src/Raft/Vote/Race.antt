-- ===== src/Raft/Vote/Race.antt =====
-- src/raft/raft.go reads `reply.Term > rf.currentTerm` before it takes the lock (`sendRequestVote`,
-- `sendAppendEntries`). Here another handler runs between the test and the assignment.
use code2go.Prelude.{ℕ, ◌<◌, ◌≡◌, inl, refl, true, arith}
use code2go.Raft.State.{Gob, Raft, last_log_term}
use code2go.Raft.Vote.{RequestVoteArgs, request_vote, is_behind, step_down}
use code2go.Raft.Vote.Grants.{request_vote-Deserves, request_vote-term}

-- The peer once the goroutine that saw a later term in a reply has waited for the request `a` and
-- gone on.
abbrev pub raced :
    {C B : Type 0} → Gob C B → (now reply_term : ℕ) → RequestVoteArgs → Raft C B → Raft C B
raced g now reply_term a rf = step_down g reply_term (request_vote g now a rf).0

module _ {C B : Type 0} (g : Gob C B) (now reply_term : ℕ) (a b : RequestVoteArgs) (rf : Raft C B)
    (behind : is_behind reply_term rf ≡ true) (later : reply_term < a.term) where
  -- The term of the peer falls: after the request it is that of the request, and the assignment that was waiting
  -- sets it back to the older term of the reply.
  pub step_down_falls :
      ((raced g now reply_term a rf).current_term ≡ reply_term)
      × ((request_vote g now a rf).0.current_term ≡ a.term)
      × ((raced g now reply_term a rf).current_term < (request_vote g now a rf).0.current_term)
  unfolding step_down is_behind
  step_down_falls =
      let (term, _, _, _) = request_vote-term g now a rf in
      (refl, ground (arith, behind), ground (arith, behind))

  -- So it grants a second vote in the term of the first one, to any candidate with a good log.
  pub step_down_revotes :
      (request_vote g now a rf).1.vote_granted ≡ true
      → b.term ≡ a.term
      → last_log_term rf.logs < b.last_log_term
      → (request_vote g now b (raced g now reply_term a rf)).1.vote_granted ≡ true
  unfolding step_down is_behind
  step_down_revotes granted same good =
      let (_, _, logs, _) = request_vote-term g now a rf in
      (request_vote-Deserves g now b (raced g now reply_term a rf)).1
        (record { current = omega arith; free = inl (omega arith); log_ok = inl (rw logs good) })
