-- ===== src/Raft/Cluster/Handlers.antt =====
-- Each handler, timer and goroutine of a peer of src/raft/raft.go, as a step that the other peers of
-- the cluster depend on.
use code2go.Prelude.{
  ℕ, ◌≡◌, inl, inr, refl, sym, Bool, true, false, some, List, ◌∷◌, ltb, arith, Bool-cases, ltb→lt,
}
use mathlib.Core.Path.{subst}
use code2go.Raft.State.{candidate, Gob, Raft, start, kill, make_raft}
use code2go.Raft.Vote.{
  RequestVoteArgs, RequestVoteReply, request_vote, count_vote, election_round, adopt_reply_term,
}
use code2go.Raft.Append.{AppendEntriesArgs, AppendEntriesReply, append_entries}
use code2go.Raft.Submit.{make_request, handle_append_reply, enter_submit, heart_beat}
use code2go.Raft.Submit.Stable.{make_request-SameStable, handle_append_reply-SameStable}
use code2go.Raft.Run.{
  Event, voted, note_vote, note_election, note_leader, Step, asked, answered, timer, pinged, pings,
  ponged, beats, submits, called, killed, restarted,
}
use code2go.Raft.Run.Inv.{Inv}
use code2go.Raft.Run.Votes.{asked_granted}
use code2go.Raft.Cluster.{IsLocal}
use code2go.Raft.Cluster.Tally.{Won}
use code2go.Raft.Cluster.Facts.{Effect, Settles, Effect-quiet, Effect-heard, Effect-voted}

module _ {C B : Type 0} (g : Gob C B) (w : List (ℕ × ℕ)) where
  asked-Settles :
      (now : ℕ) (args : RequestVoteArgs) (a : Raft C B) → Settles a (request_vote g now args a).0
  unfolding request_vote
  asked-Settles now args a = ground arith

  -- RequestVote.
  pub asked-Effect :
      (now : ℕ) (args : RequestVoteArgs) (a : Raft C B) (tr : List Event)
      → Inv g a tr
      → Effect w a tr
          (request_vote g now args a).0
          (note_vote args (request_vote g now args a).1 tr)
  asked-Effect now args a tr inv = elim (Bool-cases (request_vote g now args a).1.vote_granted) [
    | inr refused ↦ rw refused (Effect-quiet w a b settled tr)
    | inl granted ↦
        let (term, vote, free) = asked_granted g now args a granted in
        rw granted (
          subst (λ t. Effect w a tr b (voted t args.candidate_id ∷ tr)) (sym term)
            (Effect-voted g w a b tr args.candidate_id (settled.me, settled.npeers)
              (λ own role. inr ((Effect-quiet w a b settled tr).runs own role))
              (Effect-quiet w a b settled tr).leads free inv))
  ]
    where
      b : Raft C B
      b = (request_vote g now args a).0

      settled : Settles a b
      settled = asked-Settles now args a

  timer_starts :
      (fresh now later : ℕ) (a : Raft C B)
      → ltb a.current_term (election_round g fresh now later a).0.current_term ≡ true
      → ((election_round g fresh now later a).0.me ≡ a.me)
        × ((election_round g fresh now later a).0.npeers ≡ a.npeers)
        × ((election_round g fresh now later a).0.role ≡ candidate)
  unfolding election_round
  timer_starts fresh now later a h = (ground arith, ground arith, ground arith)

  timer_waits :
      (fresh now later : ℕ) (a : Raft C B)
      → ltb a.current_term (election_round g fresh now later a).0.current_term ≡ false
      → Settles a (election_round g fresh now later a).0
  unfolding election_round
  timer_waits fresh now later a h = ground arith

  timer-Effect :
      (fresh now later : ℕ) (a : Raft C B) (tr : List Event)
      → Inv g a tr
      → Effect w a tr
          (election_round g fresh now later a).0
          (note_election a (election_round g fresh now later a).0 tr)
  timer-Effect fresh now later a tr inv = elim (Bool-cases (ltb a.current_term b.current_term)) [
    | inr kept ↦ rw kept (Effect-quiet w a b (timer_waits fresh now later a kept) tr)
    | inl raised ↦
        let (me, npeers, role) = timer_starts fresh now later a raised in
        rw raised (
          Effect-voted g w a b tr a.me (me, npeers) (λ own is. inl refl) (λ own is. ground arith)
            (inl (ltb→lt _ _ raised)) inv)
  ]
    where
      b : Raft C B
      b = (election_round g fresh now later a).0

  pub count_vote-Settles :
      (args : RequestVoteArgs) (ok : Bool) (reply : RequestVoteReply) (agreed : ℕ) (a : Raft C B)
      → (count_vote g args ok reply agreed a).2 ≡ false
      → Settles a (count_vote g args ok reply agreed a).0
  unfolding count_vote
  count_vote-Settles args ok reply agreed a h = ground arith

  count_vote_refused :
      (args : RequestVoteArgs) (ok : Bool) (reply : RequestVoteReply) (agreed : ℕ) (a : Raft C B)
      → reply.vote_granted ≡ false
      → (count_vote g args ok reply agreed a).2 ≡ false
  unfolding count_vote
  count_vote_refused args ok reply agreed a h = ground arith

  adopt-Settles : (term : ℕ) (a : Raft C B) → Settles a (adopt_reply_term g term a)
  unfolding adopt_reply_term
  adopt-Settles term a = ground arith

  ponged-Settles :
      (q : ℕ) (args : AppendEntriesArgs C) (ok : Bool) (reply : AppendEntriesReply) (a b : Raft C B)
      → handle_append_reply g q args ok reply a ≡ some b
      → Settles a b
  ponged-Settles q args true reply a b h =
      ground (
        arith,
        adopt-Settles reply.term a,
        handle_append_reply-SameStable g q args reply true a b h,
      )
  ponged-Settles q args false reply a b h =
      ground (arith, handle_append_reply-SameStable g q args reply false a b h)

  pub leads-Effect :
      (q : ℕ) (a b : Raft C B) (args : AppendEntriesArgs C) (tr : List Event)
      → make_request q a ≡ some (args, b)
      → Effect w a tr b tr
  leads-Effect q a b args tr h =
      Effect-quiet w a b (ground (arith, make_request-SameStable q a b args h)) tr

  append_entries-Settles :
      (now : ℕ) (args : AppendEntriesArgs C) (a b : Raft C B) (reply : AppendEntriesReply)
      → append_entries g now args a ≡ some (b, reply)
      → Settles a b
  unfolding append_entries
  append_entries-Settles now args a b reply h = ground arith

  -- AppendEntries from a peer that won the election of its term.
  pub hears-Effect :
      (now : ℕ) (args : AppendEntriesArgs C) (a b : Raft C B) (reply : AppendEntriesReply)
      (tr : List Event)
      → append_entries g now args a ≡ some (b, reply)
      → Won args.term args.leader_id w
      → Effect w a tr b (note_leader args a tr)
  hears-Effect now args a b reply tr h won =
      let settled = append_entries-Settles now args a b reply h in
      elim (Bool-cases (ltb args.term a.current_term)) [
        | inl old ↦ rw old (Effect-quiet w a b settled tr)
        | inr new ↦ rw new (Effect-heard w a b settled tr args.term args.leader_id won)
      ]

  beats-Settles : (a : Raft C B) → Settles a (heart_beat a).0
  unfolding heart_beat
  beats-Settles a = ground arith

  submits-Settles : (a : Raft C B) → Settles a (enter_submit a).0
  unfolding enter_submit
  submits-Settles a = ground arith

  called-Settles : (command : C) (a : Raft C B) → Settles a (start g command a).0
  unfolding start
  called-Settles command a = ground arith

  killed-Settles : (a : Raft C B) → Settles a (kill a)
  unfolding kill
  killed-Settles a = ground arith

  restarted-Settles :
      (fresh beat now : ℕ) (a : Raft C B)
      → Settles a (make_raft g a.npeers a.me a.persister fresh beat now)
  unfolding make_raft
  restarted-Settles fresh beat now a = ground arith

  pub alone-Effect :
      (a b : Raft C B) (tr tr' : List Event) (st : Step g a tr b tr')
      → IsLocal st
      → Inv g a tr
      → Effect w a tr b tr'
  alone-Effect a b tr tr' (timer fresh now later) l inv = timer-Effect fresh now later a tr inv
  alone-Effect a b tr tr' (ponged q args ok reply h) l inv =
      Effect-quiet w a b (ponged-Settles q args ok reply a b h) tr
  alone-Effect a b tr tr' beats l inv = Effect-quiet w a b (beats-Settles a) tr
  alone-Effect a b tr tr' submits l inv = Effect-quiet w a b (submits-Settles a) tr
  alone-Effect a b tr tr' (called command) l inv = Effect-quiet w a b (called-Settles command a) tr
  alone-Effect a b tr tr' killed l inv = Effect-quiet w a b (killed-Settles a) tr
  alone-Effect a b tr tr' (restarted fresh beat now) l inv =
      Effect-quiet w a b (restarted-Settles fresh beat now a) tr
  alone-Effect a b tr tr' (asked now args) l inv = absurd l
  alone-Effect a b tr tr' (answered args ok reply agreed) l inv =
      Effect-quiet w a b
        (count_vote-Settles args ok reply agreed a (count_vote_refused args ok reply agreed a l)) tr
  alone-Effect a b tr tr' (pinged now args h) l inv = absurd l
  alone-Effect a b tr tr' (pings q h) l inv = absurd l
