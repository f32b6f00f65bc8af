-- ===== src/Raft/Durable.antt =====
-- What survives a crash: every operation of src/raft/raft.go leaves the term, the vote and the log in
-- the persister, and `Make` reads them back.
use code2go.Prelude.{ℕ, ◌≡◌, refl, ◌⊎◌, inl, inr, Bool, true, false, none, some, [], arith}
use code2go.Raft.State.{Gob, IsGob, Raft, follower, start, make_raft}
use code2go.Raft.Vote.{
  RequestVoteArgs, RequestVoteReply, request_vote, adopt_reply_term, count_vote, election_round,
}
use code2go.Raft.Append.{AppendEntriesArgs, AppendEntriesReply, append_entries}
use code2go.Raft.Submit.{make_request, handle_append_reply}
use code2go.Raft.Submit.Stable.{SameStable, make_request-SameStable, handle_append_reply-SameStable}

-- The persister holds the three values, or nothing was saved and they are what `Make` starts with.
abbrev pub IsDurable : {C B : Type 0} → Gob C B → Raft C B → Type 0
IsDurable g rf =
    (rf.persister.raftstate ≡ some (g.encode rf.current_term rf.voted_for rf.logs))
    ⊎ ((rf.persister.raftstate ≡ none)
        × (rf.current_term ≡ 0)
        × (rf.voted_for ≡ some 0)
        × (rf.logs ≡ []))

module _ {C B : Type 0} (g : Gob C B) where
  SameStable-IsDurable : (a b : Raft C B) → SameStable a b → IsDurable g a → IsDurable g b
  SameStable-IsDurable a b s d = ground arith

  pub request_vote-IsDurable :
      (now : ℕ) (args : RequestVoteArgs) (rf : Raft C B)
      → IsDurable g (request_vote g now args rf).0
  unfolding request_vote
  request_vote-IsDurable now args rf = ground arith

  pub adopt_reply_term-IsDurable :
      (term : ℕ) (rf : Raft C B) → IsDurable g rf → IsDurable g (adopt_reply_term g term rf)
  unfolding adopt_reply_term
  adopt_reply_term-IsDurable term rf d = ground arith

  pub count_vote-IsDurable :
      (args : RequestVoteArgs) (ok : Bool) (reply : RequestVoteReply) (agreed : ℕ) (rf : Raft C B)
      → IsDurable g rf
      → IsDurable g (count_vote g args ok reply agreed rf).0
  unfolding count_vote
  count_vote-IsDurable args ok reply agreed rf d = ground arith

  pub election_round-IsDurable :
      (fresh now later : ℕ) (rf : Raft C B)
      → IsDurable g rf
      → IsDurable g (election_round g fresh now later rf).0
  unfolding election_round
  election_round-IsDurable fresh now later rf d = ground arith

  pub append_entries-IsDurable :
      (now : ℕ) (args : AppendEntriesArgs C) (rf rf' : Raft C B) (reply : AppendEntriesReply)
      → append_entries g now args rf ≡ some (rf', reply)
      → IsDurable g rf'
  unfolding append_entries
  append_entries-IsDurable now args rf rf' reply h = ground arith

  pub start-IsDurable :
      (command : C) (rf : Raft C B) → IsDurable g rf → IsDurable g (start g command rf).0
  unfolding start
  start-IsDurable command rf d = ground arith

  pub make_request-IsDurable :
      (peer : ℕ) (a b : Raft C B) (args : AppendEntriesArgs C)
      → make_request peer a ≡ some (args, b)
      → IsDurable g a
      → IsDurable g b
  make_request-IsDurable peer a b args h d =
      SameStable-IsDurable a b (make_request-SameStable peer a b args h) d

  pub handle_append_reply-IsDurable :
      (peer : ℕ) (args : AppendEntriesArgs C) (ok : Bool) (reply : AppendEntriesReply)
      (a b : Raft C B)
      → handle_append_reply g peer args ok reply a ≡ some b
      → IsDurable g a
      → IsDurable g b
  handle_append_reply-IsDurable peer args true reply a b h d =
      SameStable-IsDurable _ b (handle_append_reply-SameStable g peer args reply true a b h)
        (adopt_reply_term-IsDurable reply.term a d)
  handle_append_reply-IsDurable peer args false reply a b h d =
      SameStable-IsDurable a b (handle_append_reply-SameStable g peer args reply false a b h) d

  pub make_raft-IsDurable :
      IsGob g
      → (n me fresh beat now : ℕ) (rf : Raft C B) → IsDurable g rf
      → IsDurable g (make_raft g n me rf.persister fresh beat now)
  unfolding make_raft
  make_raft-IsDurable ok n me fresh beat now rf (inl saved) =
      let t = ok.term_back rf.current_term rf.voted_for rf.logs in
      let v = ok.vote_back rf.current_term rf.voted_for rf.logs in
      let l = ok.logs_back rf.current_term rf.voted_for rf.logs in inl (ground arith)
  make_raft-IsDurable ok n me fresh beat now rf (inr (nothing, term, vote, logs)) = inr (
    nothing,
    ground (arith, ok.term_empty),
    ground (arith, ok.vote_empty),
    ground (arith, ok.logs_empty),
  )

  -- A peer that is made anew from the persister of a peer comes back with the term, the vote and the log that it
  -- had, as a follower with nothing committed.
  pub make_raft_recovers :
      IsGob g
      → (n me fresh beat now : ℕ) (rf : Raft C B) → IsDurable g rf
      → ((make_raft g n me rf.persister fresh beat now).current_term ≡ rf.current_term)
        × ((make_raft g n me rf.persister fresh beat now).voted_for ≡ rf.voted_for)
        × ((make_raft g n me rf.persister fresh beat now).logs ≡ rf.logs)
        × ((make_raft g n me rf.persister fresh beat now).role ≡ follower)
        × ((make_raft g n me rf.persister fresh beat now).commit_index ≡ 0)
  unfolding make_raft
  make_raft_recovers ok n me fresh beat now rf (inl saved) =
      let t = ok.term_back rf.current_term rf.voted_for rf.logs in
      let v = ok.vote_back rf.current_term rf.voted_for rf.logs in
      let l = ok.logs_back rf.current_term rf.voted_for rf.logs in
      (ground arith, ground arith, ground arith, refl, refl)
  make_raft_recovers ok n me fresh beat now rf (inr (nothing, term, vote, logs)) = (
    ground (arith, ok.term_empty),
    ground (arith, ok.vote_empty),
    ground (arith, ok.logs_empty),
    refl,
    refl,
  )
