-- ===== src/Raft/Cluster/Count.antt =====
-- What the steps of an election of src/raft/raft.go do to its count: it is opened, a peer is asked,
-- and a reply is counted.
use code2go.Prelude.{
  ℕ, suc, ◌*◌, ◌<◌, ◌≡◌, ◌≢◌, ◌⊎◌, inl, inr, refl, sym, ◌∙◌, Bool, true, false, List, ◌==◌, arith,
  ap, Bool-cases,
}
use mathlib.Core.Path.{subst}
use code2go.Raft.State.{candidate, leader, Gob, Raft}
use code2go.Raft.Vote.{RequestVoteArgs, RequestVoteReply, count_vote}
use code2go.Raft.Run.{Event, voted}
use code2go.Raft.Run.Inv.{Noted}
use code2go.Raft.Cluster.{set_at, calling, replied, done, Election, open_election}
use code2go.Raft.Cluster.Tally.{tally, tally-set_at, tally_all_false, set_at-elim}
use code2go.Raft.Cluster.Inv.{Fair}

pub open_election-Fair :
    {C B : Type 0} (n p : ℕ) (events : ℕ → List Event) (rf : Raft C B)
    → rf.me ≡ p
    → p < n
    → Fair n events (open_election rf)
unfolding open_election
open_election-Fair n p events rf me lt = record {
  inside = omega arith;
  counted = λ q. false;
  total = ap suc (sym (tally_all_false n));
  own = refl;
  silent = ground arith;
  closed = λ q h. ground arith;
  gave = λ q h. ground arith;
  grants = λ q reply at granted. ground arith;
}

-- A peer other than the candidate was asked.
pub asked-Fair :
    (n q : ℕ) (events : ℕ → List Event) (e : Election) (reply : RequestVoteReply)
    → Fair n events e
    → e.calls q ≡ calling
    → (reply.vote_granted ≡ true → Noted (voted e.args.term e.args.candidate_id) (events q))
    → Fair n events (record e { calls = set_at e.calls q (replied reply) })
asked-Fair n q events e reply f out given = record {
  inside = f.inside;
  counted = f.counted;
  total = f.total;
  own = f.own;
  silent =
      set_at-elim (λ x call. e.calls x ≡ done → call ≡ done) e.calls q (replied reply)
        (λ h. ground arith) (λ x apart h. h) e.args.candidate_id f.silent;
  closed = λ x v.
      set_at-elim (λ x call. e.calls x ≡ done → call ≡ done) e.calls q (replied reply)
        (λ h. ground arith) (λ x apart h. h) x (f.closed x v);
  gave = f.gave;
  grants = λ x r.
      set_at-elim
        (λ x call.
          call ≡ replied r
          → r.vote_granted ≡ true
          → Noted (voted e.args.term e.args.candidate_id) (events x))
        e.calls q (replied reply) (λ h. here r h) (λ x apart h. f.grants x r h) x;
}
  where
    here :
        (r : RequestVoteReply)
        → replied reply ≡ replied r
        → r.vote_granted ≡ true
        → Noted (voted e.args.term e.args.candidate_id) (events q)
    here r h granted = given (
        ap (λ (x : RequestVoteReply). x.vote_granted)
          (ap (λ c. elim c [ calling ↦ reply | replied x ↦ x | done ↦ reply ]) h)
        ∙ granted)

module _ (n q : ℕ) (events : ℕ → List Event) (e : Election) (f : Fair n events e) where
  -- The goroutine ends, and the counter stays.
  pub ended-Fair : Fair n events (record e { calls = set_at e.calls q done })
  ended-Fair = record {
    inside = f.inside;
    counted = f.counted;
    total = f.total;
    own = f.own;
    silent = still e.args.candidate_id f.silent;
    closed = λ x v. still x (f.closed x v);
    gave = f.gave;
    grants = λ x r.
        set_at-elim
          (λ x call.
            call ≡ replied r
            → r.vote_granted ≡ true
            → Noted (voted e.args.term e.args.candidate_id) (events x))
          e.calls q done (λ h. ground arith) (λ x apart h. f.grants x r h) x;
  }
    where
      still : (x : ℕ) → e.calls x ≡ done → set_at e.calls q done x ≡ done
      still =
          set_at-elim (λ x call. e.calls x ≡ done → call ≡ done) e.calls q done (λ h. refl)
            (λ x apart h. h)

  module _ (reply : RequestVoteReply) (lt : q < n) (at : e.calls q ≡ replied reply)
      (granted : reply.vote_granted ≡ true) where
    not_yet : f.counted q ≡ false
    not_yet = elim (Bool-cases (f.counted q)) [
      | inl old ↦ let closed = f.closed q old in ground arith
      | inr new ↦ new
    ]

    apart_from : q ≢ e.args.candidate_id
    apart_from same = let silent = subst (λ x. e.calls x ≡ done) (sym same) f.silent in ground arith

    more_gave :
        (x : ℕ)
        → set_at f.counted q true x ≡ true
        → Noted (voted e.args.term e.args.candidate_id) (events x)
    more_gave =
        set_at-elim (λ x v. v ≡ true → Noted (voted e.args.term e.args.candidate_id) (events x))
          f.counted q true (λ h. f.grants q reply at granted) (λ x apart h. f.gave x h)

    own_out : set_at f.counted q true e.args.candidate_id ≡ false
    own_out =
        set_at-elim (λ x v. x ≡ e.args.candidate_id → v ≡ false) f.counted q true
          (λ same. absurd (apart_from same))
          (λ x apart same. subst (λ y. f.counted y ≡ false) (sym same) f.own) e.args.candidate_id
          refl

    -- A granted vote is counted.
    pub counted-Fair :
        Fair n events (record e { agreed = suc e.agreed; calls = set_at e.calls q done })
    counted-Fair = record {
      inside = f.inside;
      counted = set_at f.counted q true;
      total = omega (arith, f.total, tally-set_at f.counted q n lt not_yet);
      own = own_out;
      silent = ended-Fair.silent;
      closed = closed;
      gave = more_gave;
      grants = ended-Fair.grants;
    }
      where
        closed : (x : ℕ) → set_at f.counted q true x ≡ true → set_at e.calls q done x ≡ done
        closed x h = elim (Bool-cases (q == x)) [
          | inl same ↦ rw same
          | inr apart ↦ rw apart (f.closed x (rw apart at h))
        ]

    -- With its own vote the candidate has one vote more than the counter said.
    pub counted_voters :
        Noted (voted e.args.term e.args.candidate_id) (events e.args.candidate_id)
        → (voters : ℕ → Bool) × (tally voters n ≡ suc e.agreed)
          × ((x : ℕ) → voters x ≡ true → Noted (voted e.args.term e.args.candidate_id) (events x))
    counted_voters mine = (
      set_at (set_at f.counted q true) e.args.candidate_id true,
      omega (
        arith,
        f.total,
        tally-set_at f.counted q n lt not_yet,
        tally-set_at (set_at f.counted q true) e.args.candidate_id n f.inside own_out,
      ),
      set_at-elim (λ x v. v ≡ true → Noted (voted e.args.term e.args.candidate_id) (events x))
          (set_at f.counted q true) e.args.candidate_id true (λ h. mine)
          (λ x apart h. more_gave x h),
    )

module _ {C B : Type 0} (g : Gob C B) (args : RequestVoteArgs) (ok : Bool)
    (reply : RequestVoteReply) (agreed : ℕ) (a : Raft C B) where
  -- The reply ends the election.
  pub count_vote_won :
      (count_vote g args ok reply agreed a).2 ≡ true
      → ((count_vote g args ok reply agreed a).1 ≡ suc agreed)
        × (ok ≡ true)
        × (reply.vote_granted ≡ true)
        × (a.npeers < suc agreed * 2)
        × (a.role ≡ candidate)
        × (args.term ≡ a.current_term)
        × ((count_vote g args ok reply agreed a).0.current_term ≡ args.term)
        × ((count_vote g args ok reply agreed a).0.role ≡ leader)
        × ((count_vote g args ok reply agreed a).0.me ≡ a.me)
        × ((count_vote g args ok reply agreed a).0.npeers ≡ a.npeers)
  unfolding count_vote
  count_vote_won h = (
    ground arith,
    ground arith,
    ground arith,
    ground arith,
    ground arith,
    ground arith,
    ground arith,
    ground arith,
    ground arith,
    ground arith,
  )

  pub count_vote_open :
      (count_vote g args ok reply agreed a).2 ≡ false
      → ((count_vote g args ok reply agreed a).1 ≡ agreed)
        ⊎ (((count_vote g args ok reply agreed a).1 ≡ suc agreed)
            × (ok ≡ true)
            × (reply.vote_granted ≡ true))
  unfolding count_vote
  count_vote_open h = ground arith
