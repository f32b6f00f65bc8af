-- ===== src/Raft/Submit/Stable.antt =====
-- The leader's half of replication leaves term, vote, log and persister alone, but for a higher term
-- in a reply.
use code2go.Prelude.{
  ℕ, ◌≡◌, true, false, Bool, some, inl, inr, set, arith, Option-cases, if◌then◌else◌, length, ◌+◌,
}
use code2go.Raft.State.{Gob, Raft}
use code2go.Raft.Vote.{adopt_reply_term}
use code2go.Raft.Append.{AppendEntriesArgs, AppendEntriesReply}
use code2go.Raft.Submit.{record_match, make_request, after_append, handle_append_reply}
use code2go.Raft.Submit.Commit.{update_commit-SameLog}

-- Two states of a peer with the same identity, role, term, vote, log and persister.
pub record SameStable {C B : Type 0} (a b : Raft C B) : Type 0 where
  pub me : b.me ≡ a.me
  pub npeers : b.npeers ≡ a.npeers
  pub role : b.role ≡ a.role
  pub term : b.current_term ≡ a.current_term
  pub vote : b.voted_for ≡ a.voted_for
  pub logs : b.logs ≡ a.logs
  pub saved : b.persister ≡ a.persister

module _ {C B : Type 0} where
  pub make_request-SameStable :
      (peer : ℕ) (a b : Raft C B) (args : AppendEntriesArgs C)
      → make_request peer a ≡ some (args, b)
      → SameStable a b
  unfolding make_request
  make_request-SameStable peer a b args h = ground arith

  pub record_match-SameStable :
      (peer upto : ℕ) (a b : Raft C B) → record_match peer upto a ≡ some b → SameStable a b
  unfolding record_match
  record_match-SameStable peer upto a b h =
      let after =
        update_commit-SameLog (record a { match_index = set a.match_index peer upto }) b in
      ground (arith, after)

module _ {C B : Type 0} (g : Gob C B) (peer : ℕ) (args : AppendEntriesArgs C)
    (reply : AppendEntriesReply) where
  after_append-SameStable :
      (ok : Bool) (a b : Raft C B)
      → after_append g peer args ok reply a ≡ some b
      → SameStable (if ok then adopt_reply_term g reply.term a else a) b
  unfolding after_append
  after_append-SameStable true a b h = ground arith
  after_append-SameStable false a b h = ground arith

  pub handle_append_reply-SameStable :
      (ok : Bool) (a b : Raft C B)
      → handle_append_reply g peer args ok reply a ≡ some b
      → SameStable (if ok then adopt_reply_term g reply.term a else a) b
  unfolding handle_append_reply
  handle_append_reply-SameStable ok a b h =
      elim (Option-cases (after_append g peer args ok reply a)) [
        | inl fault ↦ ground arith
        | inr (c, done) ↦ ground (
          arith,
          after_append-SameStable ok a c done,
          record_match-SameStable peer (args.prev_log_index + length args.entries) c b,
        )
      ]
