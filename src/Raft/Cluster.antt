-- ===== src/Raft/Cluster.antt =====
-- A cluster of `n` peers of src/raft/raft.go, interleaved in any order: each handler, timer and
-- goroutine of a peer is a step of its own, peers crash and come back, and calls are lost or late. A
-- goroutine of `doVote` makes one call to one peer, and counts the reply at most once. The heart beats
-- are built by a peer that leads when it builds them.
pub mod Tally
pub mod Facts
pub mod Inv
pub mod Effect
pub mod Handlers
pub mod Count
pub mod Goroutines
pub mod Stale
pub mod Safety
mod Tests
use code2go.Prelude.{
  ℕ, ◌<◌, ◌≡◌, ◌≢◌, ◌⊎◌, Bool, true, false, not, ◌&&◌, Option, none, some, List, [], ◌∷◌, ltb, ◌==◌,
  if◌then◌else◌,
}
use code2go.Persister.{make_persister}
use code2go.Raft.State.{leader, Gob, Raft, make_raft}
use code2go.Raft.Vote.{RequestVoteArgs, RequestVoteReply, vote_args, request_vote, count_vote}
use code2go.Raft.Append.{AppendEntriesArgs, AppendEntriesReply, append_entries}
use code2go.Raft.Submit.{make_request}
use code2go.Raft.Run.{
  Event, note_vote, note_leader, Step, asked, answered, timer, pinged, pings, ponged, beats,
  submits, called, killed, restarted,
}

abbrev pub set_at {ℓ} : {A : Type ℓ} → (ℕ → A) → ℕ → A → ℕ → A
set_at f p v q = if p == q then v else f q

-- A goroutine of `doVote`: its call is on the way, was answered, or is counted or lost.
pub data Call : Type 0 where
  calling : Call
  replied : RequestVoteReply → Call
  done : Call

-- One call of `doVote`: the arguments that it sends, its counter, and its goroutine for each peer.
pub record Election : Type 0 where
  pub args : RequestVoteArgs
  pub agreed : ℕ
  pub calls : ℕ → Call

unfoldable pub open_election : {C B : Type 0} → Raft C B → Election
unfolding vote_args
open_election rf = record {
  args = vote_args rf;
  agreed = 1;
  calls = λ q. if ltb q rf.npeers && not (q == rf.me) then calling else done;
}

-- `won` records the terms and peers whose elections ended in `go rf.doSubmit()`.
pub record Cluster (C B : Type 0) : Type 0 where
  pub peer : ℕ → Raft C B
  pub events : ℕ → List Event
  pub elections : ℕ → Option Election
  pub requests : List (AppendEntriesArgs C)
  pub won : List (ℕ × ℕ)

-- The steps of a peer that no other peer takes part in. `sendRequestVote` takes over the term of a
-- reply before its vote is counted, and gives up the lock between the two.
abbrev pub IsLocal :
    {C B : Type 0} {g : Gob C B} {a b : Raft C B} {tr tr' : List Event} → Step g a tr b tr' → Type 0
IsLocal (asked now args) = ⊥
IsLocal (answered args ok reply agreed) = reply.vote_granted ≡ false
IsLocal (timer fresh now later) = Unit
IsLocal (pinged now args h) = ⊥
IsLocal (pings q h) = ⊥
IsLocal (ponged q args ok reply h) = Unit
IsLocal beats = Unit
IsLocal submits = Unit
IsLocal (called command) = Unit
IsLocal killed = Unit
IsLocal (restarted fresh beat now) = Unit

abbrev pub Sent : {C : Type 0} → AppendEntriesArgs C → List (AppendEntriesArgs C) → Type 0
Sent args [] = ⊥
Sent args (x ∷ xs) = (args ≡ x) ⊎ Sent args xs

-- What the goroutine gets from its call: the reply, or a failure at any time before it is done.
abbrev pub Gets : Call → Bool → RequestVoteReply → Type 0
Gets call true reply = call ≡ replied reply
Gets call false reply = call ≢ done

module _ {C B : Type 0} where
  abbrev pub move_peer : Cluster C B → ℕ → Raft C B → List Event → Cluster C B
  move_peer c p rf tr = record c { peer = set_at c.peer p rf; events = set_at c.events p tr }

  abbrev pub move_election : Cluster C B → ℕ → Election → Cluster C B
  move_election c k e = record c { elections = set_at c.elections k (some e) }

  -- A reply is counted in the election `k` by its candidate.
  unfoldable pub count_reply :
      Gob C B → (k q : ℕ) → Election → (ok : Bool) → RequestVoteReply → Cluster C B → Cluster C B
  count_reply g k q e ok reply c =
      let p = e.args.candidate_id in
      let (rf', agreed, wins) = count_vote g e.args ok reply e.agreed (c.peer p) in
      let c' = record c { won = (if wins then (e.args.term, p) ∷ c.won else c.won) } in
      move_election (move_peer c' p rf' (c.events p)) k
        (record e { agreed = agreed; calls = set_at e.calls q done })

  pub data Move (g : Gob C B) (n : ℕ) (c : Cluster C B) : Cluster C B → Type 0 where
    alone :
        (p : ℕ) {rf : Raft C B} {tr : List Event}
        → p < n
        → (st : Step g (c.peer p) (c.events p) rf tr) → IsLocal st
        → Move g n c (move_peer c p rf tr)
    opens :
        (p k : ℕ)
        → p < n
        → c.elections k ≡ none
        → Move g n c (move_election c k (open_election (c.peer p)))
    asks :
        (k q now : ℕ) {e : Election}
        → q < n
        → c.elections k ≡ some e
        → e.calls q ≡ calling
        → Move g n c (
            move_election
              (move_peer c q
                (request_vote g now e.args (c.peer q)).0
                (note_vote e.args (request_vote g now e.args (c.peer q)).1 (c.events q)))
              k
              (record e {
                calls = set_at e.calls q (replied (request_vote g now e.args (c.peer q)).1);
              }))
    counts :
        (k q : ℕ) (ok : Bool) (reply : RequestVoteReply) {e : Election}
        → q < n
        → c.elections k ≡ some e
        → Gets (e.calls q) ok reply
        → Move g n c (count_reply g k q e ok reply c)
    leads :
        (p q : ℕ) {args : AppendEntriesArgs C} {rf : Raft C B}
        → p < n
        → (c.peer p).role ≡ leader
        → make_request q (c.peer p) ≡ some (args, rf)
        → Move g n c (record (move_peer c p rf (c.events p)) { requests = args ∷ c.requests })
    hears :
        (q now : ℕ) (args : AppendEntriesArgs C) {rf : Raft C B} (reply : AppendEntriesReply)
        → q < n
        → Sent args c.requests
        → append_entries g now args (c.peer q) ≡ some (rf, reply)
        → Move g n c (move_peer c q rf (note_leader args (c.peer q) (c.events q)))

  -- Peers with their own timers, before any election.
  abbrev pub fresh_cluster : Gob C B → (n : ℕ) → (election heart now : ℕ → ℕ) → Cluster C B
  fresh_cluster g n election heart now = record {
    peer = λ p. make_raft g n p make_persister (election p) (heart p) (now p);
    events = λ p. [];
    elections = λ k. none;
    requests = [];
    won = [];
  }

  pub data Runs (g : Gob C B) (n : ℕ) : Cluster C B → Type 0 where
    begins : (election heart now : ℕ → ℕ) → Runs g n (fresh_cluster g n election heart now)
    then_moves : {c c' : Cluster C B} → Runs g n c → Move g n c c' → Runs g n c'
