-- ===== src/Raft/Cluster/Stale.antt =====
-- A goroutine of `doSubmit` in src/raft/raft.go that was started while its peer led, and that takes
-- the lock when the peer is a candidate of a later term.
use code2go.Prelude.{ℕ, ◌≤◌, ◌≡◌, sym, ◌∙◌, true, some, length, arith}
use mathlib.Core.Path.{subst}
use code2go.Raft.State.{candidate, leader, Gob, Raft, last_log_term}
use code2go.Raft.Vote.{RequestVoteReply, vote_args, up_to_date, request_vote, count_vote}
use code2go.Raft.Append.{AppendEntriesArgs, AppendEntriesReply, append_entries}
use code2go.Raft.Submit.{make_request}

module _ {C B : Type 0} (g : Gob C B) where
  follows_sender :
      (now : ℕ) (args : AppendEntriesArgs C) (a b : Raft C B) (reply : AppendEntriesReply)
      → a.current_term ≡ args.term
      → append_entries g now args a ≡ some (b, reply)
      → (b.voted_for ≡ some args.leader_id) × (b.current_term ≡ args.term)
  unfolding append_entries
  follows_sender now args a b reply same h = ground arith

  names_sender :
      (q : ℕ) (a b : Raft C B) (args : AppendEntriesArgs C)
      → make_request q a ≡ some (args, b)
      → (args.term ≡ a.current_term)
        × (args.leader_id ≡ a.me)
        × (b.current_term ≡ a.current_term)
        × (b.role ≡ a.role)
        × (b.npeers ≡ a.npeers)
  unfolding make_request
  names_sender q a b args h = ground arith

  grants_again :
      (later : ℕ) (a b : Raft C B)
      → a.voted_for ≡ some b.me
      → a.current_term ≡ b.current_term
      → up_to_date (last_log_term a.logs) (length a.logs) (vote_args b) ≡ true
      → ((request_vote g later (vote_args b) a).1.vote_granted ≡ true)
        × ((request_vote g later (vote_args b) a).1.term ≡ b.current_term)
  unfolding request_vote vote_args
  grants_again later a b vote term good = (ground arith, ground arith)

  counts_again :
      (b b' : Raft C B) (reply : RequestVoteReply)
      → b.role ≡ candidate
      → b.npeers ≤ 3
      → b'.current_term ≡ b.current_term
      → b'.role ≡ b.role
      → b'.npeers ≡ b.npeers
      → reply.vote_granted ≡ true
      → reply.term ≡ b.current_term
      → (count_vote g (vote_args b) true reply 1 b').0.role ≡ leader
  unfolding count_vote vote_args
  counts_again b b' reply runs small term role npeers granted same = ground arith

  -- The role is not tested again once the lock is held: a candidate of a cluster of at most three may send a request
  -- for entries in the term of its election. A peer of that term then takes the sender for its leader, and the vote
  -- that it had given, to whichever candidate, becomes one for the sender; if the sender's log is not behind,
  -- it grants the sender's `RequestVote`, and its reply makes the sender the leader.
  pub heart_beat_steals_vote :
      (q now later : ℕ) (b b' a a' : Raft C B) (args : AppendEntriesArgs C)
      (reply : AppendEntriesReply)
      → b.role ≡ candidate
      → b.npeers ≤ 3
      → make_request q b ≡ some (args, b')
      → a.current_term ≡ b.current_term
      → append_entries g now args a ≡ some (a', reply)
      → up_to_date (last_log_term a'.logs) (length a'.logs) (vote_args b) ≡ true
      → (a'.voted_for ≡ some b.me)
        × ((request_vote g later (vote_args b) a').1.vote_granted ≡ true)
        × ((count_vote g (vote_args b) true (request_vote g later (vote_args b) a').1 1 b').0.role
            ≡ leader)
  heart_beat_steals_vote q now later b b' a a' args reply runs small built same handled good =
      let (term, id, term', role', npeers') = names_sender q b b' args built in
      let (vote, now_term) = follows_sender now args a a' reply (same ∙ sym term) handled in
      let mine = subst (λ x. a'.voted_for ≡ some x) id vote in
      let (granted, answer) = grants_again later a' b mine (now_term ∙ term) good in
      (mine, granted, counts_again b b' _ runs small term' role' npeers' granted answer)
