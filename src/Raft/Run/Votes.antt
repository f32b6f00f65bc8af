-- ===== src/Raft/Run/Votes.antt =====
-- One vote for each term, over any run of a peer of src/raft/raft.go, crashes included.
use code2go.Prelude.{
  ℕ, ◌≤◌, ◌<◌, ◌≡◌, ◌⊎◌, inl, inr, refl, Bool, true, false, some, List, [], ltb, arith, Bool-cases,
  ltb→lt,
}
use code2go.Persister.{make_persister}
use code2go.Raft.State.{Gob, IsGob, Raft, start, kill, make_raft}
use code2go.Raft.Vote.{
  RequestVoteArgs, RequestVoteReply, request_vote, count_vote, election_round, adopt_reply_term,
}
use code2go.Raft.Append.{AppendEntriesArgs, AppendEntriesReply, append_entries}
use code2go.Raft.Submit.{handle_append_reply, enter_submit, heart_beat}
use code2go.Raft.Submit.Stable.{make_request-SameStable, handle_append_reply-SameStable}
use code2go.Raft.Durable
use code2go.Raft.Durable.{IsDurable}
use code2go.Raft.Run.{
  Event, voted, heard, note_vote, note_election, note_leader, Step, Reach, made, next, asked,
  answered, timer, pinged, pings, ponged, beats, submits, called, killed, restarted,
}
use code2go.Raft.Run.Inv.{Inv, Free, Inv-quiet, Inv-heard, Inv-voted, at_term}

module _ {C B : Type 0} (g : Gob C B) where
  abbrev pub Quiet : Raft C B → Raft C B → Type 0
  Quiet a b =
      (a.current_term < b.current_term)
      ⊎ ((b.current_term ≡ a.current_term) × (b.voted_for ≡ a.voted_for))

  module _ (now : ℕ) (args : RequestVoteArgs) (a : Raft C B) where
    pub asked_granted :
        (request_vote g now args a).1.vote_granted ≡ true
        → (args.term ≡ (request_vote g now args a).0.current_term)
          × ((request_vote g now args a).0.voted_for ≡ some args.candidate_id)
          × Free g a (request_vote g now args a).0 args.candidate_id
    unfolding request_vote
    asked_granted h = (ground arith, ground arith, ground arith)

    asked_refused :
        (request_vote g now args a).1.vote_granted ≡ false → Quiet a (request_vote g now args a).0
    unfolding request_vote
    asked_refused h = ground arith

  asked-Inv :
      (now : ℕ) (args : RequestVoteArgs) (a : Raft C B) (tr : List Event)
      → Inv g a tr
      → Inv g (request_vote g now args a).0 (note_vote args (request_vote g now args a).1 tr)
  asked-Inv now args a tr inv = elim (Bool-cases (request_vote g now args a).1.vote_granted) [
    | inl granted ↦
        let (term, vote, free) = asked_granted now args a granted in
        rw granted (
          at_term g (λ t. voted t args.candidate_id) b tr term
            (Inv-voted g a b tr args.candidate_id durable vote free inv))
    | inr refused ↦ rw refused (Inv-quiet g a b tr durable (asked_refused now args a refused) inv)
  ]
    where
      b : Raft C B
      b = (request_vote g now args a).0

      durable : IsDurable g b
      durable = Durable.request_vote-IsDurable g now args a

  module _ (fresh now later : ℕ) (a : Raft C B) where
    pub timer_raised :
        ltb a.current_term (election_round g fresh now later a).0.current_term ≡ true
        → (election_round g fresh now later a).0.voted_for ≡ some a.me
    unfolding election_round
    timer_raised h = ground arith

    pub timer_kept :
        ltb a.current_term (election_round g fresh now later a).0.current_term ≡ false
        → Quiet a (election_round g fresh now later a).0
    unfolding election_round
    timer_kept h = ground arith

  timer-Inv :
      (fresh now later : ℕ) (a : Raft C B) (tr : List Event)
      → Inv g a tr
      → Inv g
          (election_round g fresh now later a).0
          (note_election a (election_round g fresh now later a).0 tr)
  timer-Inv fresh now later a tr inv = elim (Bool-cases (ltb a.current_term b.current_term)) [
    | inl raised ↦ rw raised (
        Inv-voted g a b tr a.me durable (timer_raised fresh now later a raised)
          (inl (ltb→lt _ _ raised)) inv)
    | inr kept ↦ rw kept (Inv-quiet g a b tr durable (timer_kept fresh now later a kept) inv)
  ]
    where
      b : Raft C B
      b = (election_round g fresh now later a).0

      durable : IsDurable g b
      durable = Durable.election_round-IsDurable g fresh now later a inv.durable

  module _ (now : ℕ) (args : AppendEntriesArgs C) (a b : Raft C B) (reply : AppendEntriesReply)
      (done : append_entries g now args a ≡ some (b, reply)) where
    pinged_old : ltb args.term a.current_term ≡ true → Quiet a b
    unfolding append_entries
    pinged_old old = ground arith

    pinged_new :
        ltb args.term a.current_term ≡ false
        → (a.current_term ≤ b.current_term)
          × (args.term ≡ b.current_term)
          × (b.voted_for ≡ some args.leader_id)
    unfolding append_entries
    pinged_new new = (ground arith, ground arith, ground arith)

    pinged-Inv : (tr : List Event) → Inv g a tr → Inv g b (note_leader args a tr)
    pinged-Inv tr inv = elim (Bool-cases (ltb args.term a.current_term)) [
      | inl old ↦ rw old (Inv-quiet g a b tr durable (pinged_old old) inv)
      | inr new ↦
          let (le, term, vote) = pinged_new new in
          rw new (
            at_term g (λ t. heard t args.leader_id) b tr term
              (Inv-heard g a b tr args.leader_id durable le vote inv))
    ]
      where
        durable : IsDurable g b
        durable = Durable.append_entries-IsDurable g now args a b reply done

  adopt_reply_term-Quiet : (term : ℕ) (a : Raft C B) → Quiet a (adopt_reply_term g term a)
  unfolding adopt_reply_term
  adopt_reply_term-Quiet term a = ground arith

  count_vote-Quiet :
      (args : RequestVoteArgs) (ok : Bool) (reply : RequestVoteReply) (agreed : ℕ) (a : Raft C B)
      → Quiet a (count_vote g args ok reply agreed a).0
  unfolding count_vote
  count_vote-Quiet args ok reply agreed a = ground arith

  ponged-Quiet :
      (peer : ℕ) (args : AppendEntriesArgs C) (ok : Bool) (reply : AppendEntriesReply)
      (a b : Raft C B)
      → handle_append_reply g peer args ok reply a ≡ some b
      → Quiet a b
  ponged-Quiet peer args true reply a b h = ground (
    arith,
    adopt_reply_term-Quiet reply.term a,
    handle_append_reply-SameStable g peer args reply true a b h,
  )
  ponged-Quiet peer args false reply a b h =
      ground (arith, handle_append_reply-SameStable g peer args reply false a b h)

  called-Quiet : (command : C) (a : Raft C B) → Quiet a (start g command a).0
  unfolding start
  called-Quiet command a = ground arith

  beats-Inv : (a : Raft C B) (tr : List Event) → Inv g a tr → Inv g (heart_beat a).0 tr
  unfolding heart_beat
  beats-Inv a tr inv = Inv-quiet g a _ tr (let d = inv.durable in ground arith) (ground arith) inv

  submits-Inv : (a : Raft C B) (tr : List Event) → Inv g a tr → Inv g (enter_submit a).0 tr
  unfolding enter_submit
  submits-Inv a tr inv = Inv-quiet g a _ tr (let d = inv.durable in ground arith) (ground arith) inv

  killed-Inv : (a : Raft C B) (tr : List Event) → Inv g a tr → Inv g (kill a) tr
  unfolding kill
  killed-Inv a tr inv = Inv-quiet g a _ tr inv.durable (inr (refl, refl)) inv

  pub Step-Inv :
      IsGob g
      → (a b : Raft C B) (tr tr' : List Event) → Step g a tr b tr'
      → Inv g a tr
      → Inv g b tr'
  Step-Inv ok a b tr tr' (asked now args) inv = asked-Inv now args a tr inv
  Step-Inv ok a b tr tr' (answered args r reply agreed) inv =
      Inv-quiet g a b tr (Durable.count_vote-IsDurable g args r reply agreed a inv.durable)
        (count_vote-Quiet args r reply agreed a) inv
  Step-Inv ok a b tr tr' (timer fresh now later) inv = timer-Inv fresh now later a tr inv
  Step-Inv ok a b tr tr' (pinged now args {reply = reply} done) inv =
      pinged-Inv now args a b reply done tr inv
  Step-Inv ok a b tr tr' (pings peer {args = args} done) inv =
      Inv-quiet g a b tr (Durable.make_request-IsDurable g peer a b args done inv.durable)
        (ground (arith, make_request-SameStable peer a b args done)) inv
  Step-Inv ok a b tr tr' (ponged peer args r reply done) inv =
      Inv-quiet g a b tr
        (Durable.handle_append_reply-IsDurable g peer args r reply a b done inv.durable)
        (ponged-Quiet peer args r reply a b done) inv
  Step-Inv ok a b tr tr' beats inv = beats-Inv a tr inv
  Step-Inv ok a b tr tr' submits inv = submits-Inv a tr inv
  Step-Inv ok a b tr tr' (called command) inv =
      Inv-quiet g a b tr (Durable.start-IsDurable g command a inv.durable) (called-Quiet command a)
        inv
  Step-Inv ok a b tr tr' killed inv = killed-Inv a tr inv
  Step-Inv ok a b tr tr' (restarted fresh beat now) inv =
      let (term, vote, _, _, _) =
        Durable.make_raft_recovers g ok a.npeers a.me fresh beat now a inv.durable in
      Inv-quiet g a b tr
        (Durable.make_raft-IsDurable g ok a.npeers a.me fresh beat now a inv.durable)
        (inr (term, vote)) inv

  pub made-Inv :
      IsGob g
      → (npeers me fresh beat now : ℕ)
      → Inv g (make_raft g npeers me make_persister fresh beat now) []
  unfolding make_raft make_persister
  made-Inv ok npeers me fresh beat now = record {
    durable = inr (
      refl,
      ground (arith, ok.term_empty),
      ground (arith, ok.vote_empty),
      ground (arith, ok.logs_empty),
    );
    past = λ t c n. absurd n;
    kept = λ c n. absurd n;
    single = λ t x y n. absurd n;
  }

  Reach-Inv :
      IsGob g
      → (npeers me : ℕ) (rf : Raft C B) (tr : List Event) → Reach g npeers me rf tr
      → Inv g rf tr
  Reach-Inv ok npeers me rf tr (made fresh beat now) = made-Inv ok npeers me fresh beat now
  Reach-Inv ok npeers me rf tr (next {a} {tr = before} r st) =
      Step-Inv ok a rf before tr st (Reach-Inv ok npeers me a before r)

  -- In every run the persister holds the term, the vote and the log, or nothing was saved and they
  -- are the initial ones.
  pub Reach-IsDurable :
      IsGob g
      → {npeers me : ℕ} {rf : Raft C B} {tr : List Event} → Reach g npeers me rf tr
      → IsDurable g rf
  Reach-IsDurable ok {npeers} {me} {rf} {tr} r = (Reach-Inv ok npeers me rf tr r).durable
