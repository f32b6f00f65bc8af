-- ===== src/Raft/Vote/Requests.antt =====
-- Whom `doVote` of src/raft/raft.go asks.
use code2go.Prelude.{
  ℕ, zero, suc, ◌+◌, ◌≡◌, ◌&&◌, List, [], ◌∷◌, length, leb, ltb, ◌==◌, if◌then◌else◌, arith,
}
use code2go.Raft.State.{Raft, last_log_term}
use code2go.Raft.Vote.{RequestVoteArgs, vote_requests, do_vote}

-- How many requests go to the peer.
pub times : ℕ → List (ℕ × RequestVoteArgs) → ℕ
times p [] = 0
times p ((q, args) ∷ requests) = if q == p then suc (times p requests) else times p requests

-- Every request has the given arguments.
abbrev pub AllAre : RequestVoteArgs → List (ℕ × RequestVoteArgs) → Type 0
AllAre args [] = Unit
AllAre args ((q, a) ∷ requests) = (a ≡ args) × AllAre args requests

times-vote_requests :
    (args : RequestVoteArgs) (me p peer left : ℕ)
    → times p (vote_requests args me peer left)
      ≡ (if leb peer p && ltb p (peer + left) then (if p == me then 0 else 1) else 0)
unfolding times vote_requests
times-vote_requests args me p peer zero = ground arith
times-vote_requests args me p peer (suc left) =
    ground (arith, times-vote_requests args me p (peer + 1) left)

from_first :
    (args : RequestVoteArgs) (me p n : ℕ)
    → times p (vote_requests args me 0 n) ≡ (if ltb p n then (if p == me then 0 else 1) else 0)
from_first args me p n = ground (arith, times-vote_requests args me p 0 n)

vote_requests-AllAre :
    (args : RequestVoteArgs) (me peer left : ℕ) → AllAre args (vote_requests args me peer left)
unfolding vote_requests
vote_requests-AllAre args me peer zero = tt
vote_requests-AllAre args me peer (suc left) =
    ground (arith, vote_requests-AllAre args me (peer + 1) left)

-- Each peer of the cluster but the candidate is asked once, and nobody else, with the candidate's
-- term, its name, and the length and the last term of its log.
pub times-do_vote :
    {C B : Type 0} (rf : Raft C B) (p : ℕ)
    → (times p (do_vote rf) ≡ (if ltb p rf.npeers then (if p == rf.me then 0 else 1) else 0))
      × AllAre
          (record {
            term = rf.current_term;
            candidate_id = rf.me;
            last_log_index = length rf.logs;
            last_log_term = last_log_term rf.logs;
          })
          (do_vote rf)
unfolding do_vote
times-do_vote rf p = (from_first _ rf.me p rf.npeers, vote_requests-AllAre _ rf.me 0 rf.npeers)
