-- ===== src/Raft/Run.antt =====
-- Runs of one peer of src/raft/raft.go: its handlers, timers and goroutines in any order, each with
-- the lock held, and crashes that it comes back from with what the persister holds. Beside the peer
-- runs a record of the votes that it gave and of the leaders whose requests it took. A step takes what the source reads just before it
-- locks, the term of a reply, the role and the clock, together with the lock; Races has them apart.
pub mod Inv
pub mod Votes
pub mod Races
use code2go.Prelude.{ℕ, ◌≡◌, Bool, true, false, Option, some, List, [], ◌∷◌, ltb, if◌then◌else◌}
use code2go.Persister.{make_persister}
use code2go.Raft.State.{Gob, Raft, start, kill, make_raft}
use code2go.Raft.Vote.{RequestVoteArgs, RequestVoteReply, request_vote, count_vote, election_round}
use code2go.Raft.Append.{AppendEntriesArgs, AppendEntriesReply, append_entries}
use code2go.Raft.Submit.{make_request, handle_append_reply, enter_submit, heart_beat}

pub data Event : Type 0 where
  voted : (term candidate_id : ℕ) → Event
  heard : (term leader_id : ℕ) → Event

-- A granted vote is recorded with the term of the request.
abbrev pub note_vote : RequestVoteArgs → RequestVoteReply → List Event → List Event
note_vote args reply tr = if reply.vote_granted then voted args.term args.candidate_id ∷ tr else tr

-- A peer that starts an election votes for itself in the new term.
abbrev pub note_election : {C B : Type 0} → Raft C B → Raft C B → List Event → List Event
note_election rf rf' tr =
    if ltb rf.current_term rf'.current_term then voted rf'.current_term rf.me ∷ tr else tr

-- The sender of a request that is not of an old term is taken for the leader.
abbrev pub note_leader : {C B : Type 0} → AppendEntriesArgs C → Raft C B → List Event → List Event
note_leader args rf tr =
    if ltb args.term rf.current_term then tr else heard args.term args.leader_id ∷ tr

pub data Step {C B : Type 0} (g : Gob C B) (rf : Raft C B) (tr : List Event)
    : Raft C B → List Event → Type 0 where
  asked :
      (now : ℕ) (args : RequestVoteArgs)
      → Step g rf tr
          (request_vote g now args rf).0
          (note_vote args (request_vote g now args rf).1 tr)
  answered :
      (args : RequestVoteArgs) (ok : Bool) (reply : RequestVoteReply) (agreed : ℕ)
      → Step g rf tr (count_vote g args ok reply agreed rf).0 tr
  timer :
      (fresh now later : ℕ)
      → Step g rf tr
          (election_round g fresh now later rf).0
          (note_election rf (election_round g fresh now later rf).0 tr)
  pinged :
      (now : ℕ) (args : AppendEntriesArgs C) {rf' : Raft C B} {reply : AppendEntriesReply}
      → append_entries g now args rf ≡ some (rf', reply)
      → Step g rf tr rf' (note_leader args rf tr)
  pings :
      (peer : ℕ) {args : AppendEntriesArgs C} {rf' : Raft C B}
      → make_request peer rf ≡ some (args, rf')
      → Step g rf tr rf' tr
  ponged :
      (peer : ℕ) (args : AppendEntriesArgs C) (ok : Bool) (reply : AppendEntriesReply)
      {rf' : Raft C B}
      → handle_append_reply g peer args ok reply rf ≡ some rf'
      → Step g rf tr rf' tr
  beats : Step g rf tr (heart_beat rf).0 tr
  submits : Step g rf tr (enter_submit rf).0 tr
  called : (command : C) → Step g rf tr (start g command rf).0 tr
  killed : Step g rf tr (kill rf) tr
  restarted :
      (fresh beat now : ℕ)
      → Step g rf tr (make_raft g rf.npeers rf.me rf.persister fresh beat now) tr

pub data Reach {C B : Type 0} (g : Gob C B) (npeers me : ℕ) : Raft C B → List Event → Type 0 where
  made :
      (fresh beat now : ℕ)
      → Reach g npeers me (make_raft g npeers me make_persister fresh beat now) []
  next :
      {a b : Raft C B} {tr tr' : List Event}
      → Reach g npeers me a tr
      → Step g a tr b tr'
      → Reach g npeers me b tr'
