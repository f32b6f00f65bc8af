-- ===== src/Raft/Cluster/Goroutines.antt =====
-- A goroutine of `doVote` (src/raft/raft.go) makes its call and counts the reply: what holds of the
-- cluster holds afterwards.
use code2go.Prelude.{
  ℕ, ◌<◌, ◌≡◌, inl, inr, sym, Bool, true, false, some, List, ◌∷◌, arith, Bool-cases,
}
use mathlib.Core.Path.{subst}
use code2go.Raft.State.{Gob, IsGob, Raft}
use code2go.Raft.Vote.{RequestVoteReply, request_vote, count_vote}
use code2go.Raft.Run.{Event, voted, note_vote, note_leader, answered}
use code2go.Raft.Run.Inv.{Noted, Inv}
use code2go.Raft.Run.Votes.{Step-Inv}
use code2go.Raft.Run
use code2go.Raft.Cluster.{
  set_at, calling, replied, done, Election, Gets, Cluster, count_reply, move_peer, move_election,
}
use code2go.Raft.Cluster.Facts.{Effect, Effect-quiet}
use code2go.Raft.Cluster.Handlers.{count_vote-Settles, asked-Effect}
use code2go.Raft.Cluster.Inv.{Fair, ClusterInv, ClusterInv-won}
use code2go.Raft.Cluster.Effect.{Fair-Grows, effect-Grows, ClusterInv-election, ClusterInv-effect}
use code2go.Raft.Cluster.Count.{
  asked-Fair, ended-Fair, counted-Fair, counted_voters, count_vote_won, count_vote_open,
}

module _ {C B : Type 0} (g : Gob C B) (ok : IsGob g) (n : ℕ) where
  pub asks-ClusterInv :
      (c : Cluster C B) (k q now : ℕ) (e : Election)
      → ClusterInv g n c
      → c.elections k ≡ some e
      → e.calls q ≡ calling
      → ClusterInv g n (
          move_election
            (move_peer c q
              (request_vote g now e.args (c.peer q)).0
              (note_vote e.args (request_vote g now e.args (c.peer q)).1 (c.events q)))
            k
            (record e {
              calls = set_at e.calls q (replied (request_vote g now e.args (c.peer q)).1);
            }))
  asks-ClusterInv c k q now e inv at waits = ClusterInv-election g n c' moved k _ (
      asked-Fair n q c'.events e reply
        (Fair-Grows n c.events c'.events e (effect-Grows g n c inv q b tr eff kept)
          (inv.fair k e at))
        waits given)
    where
      b : Raft C B
      b = (request_vote g now e.args (c.peer q)).0

      reply : RequestVoteReply
      reply = (request_vote g now e.args (c.peer q)).1

      tr : List Event
      tr = note_vote e.args reply (c.events q)

      kept : Inv g b tr
      kept = Step-Inv g ok (c.peer q) b (c.events q) tr (Run.asked now e.args) (inv.peers q).inv

      eff : Effect c.won (c.peer q) (c.events q) b tr
      eff = asked-Effect g c.won now e.args (c.peer q) (c.events q) (inv.peers q).inv

      c' : Cluster C B
      c' = move_peer c q b tr

      moved : ClusterInv g n c'
      moved = ClusterInv-effect g n c inv q b tr eff kept

      given :
          reply.vote_granted ≡ true → Noted (voted e.args.term e.args.candidate_id) (c'.events q)
      given granted = ground arith

  module _ (c : Cluster C B) (k q : ℕ) (r : Bool) (reply : RequestVoteReply) (e : Election)
      (inv : ClusterInv g n c) (lt : q < n) (at : c.elections k ≡ some e)
      (gets : Gets (e.calls q) r reply) where
    abbrev owner : ℕ
    owner = e.args.candidate_id

    abbrev after : Raft C B × ℕ × Bool
    after = count_vote g e.args r reply e.agreed (c.peer owner)

    abbrev e' : Election
    e' = record e { agreed = after.1; calls = set_at e.calls q done }

    counts_kept : Inv g after.0 (c.events owner)
    counts_kept =
        Step-Inv g ok (c.peer owner) after.0 (c.events owner) (c.events owner)
          (answered e.args r reply e.agreed) (inv.peers owner).inv

    got : r ≡ true → e.calls q ≡ replied reply
    got =
        elim r as (λ x. Gets (e.calls q) x reply → x ≡ true → e.calls q ≡ replied reply) [
          | true ↦ λ same h. same
          | false ↦ λ same h. ground arith
        ]
          gets

    -- The reply does not end the election.
    counts_open :
        after.2 ≡ false
        → ClusterInv g n (move_election (move_peer c owner after.0 (c.events owner)) k e')
    counts_open h =
        ClusterInv-election g n c'
          (ClusterInv-effect g n c inv owner after.0 (c.events owner) eff counts_kept) k e' fair
      where
        eff : Effect c.won (c.peer owner) (c.events owner) after.0 (c.events owner)
        eff =
            Effect-quiet c.won (c.peer owner) after.0
              (count_vote-Settles g c.won e.args r reply e.agreed (c.peer owner) h) (c.events owner)

        c' : Cluster C B
        c' = move_peer c owner after.0 (c.events owner)

        old : Fair n c'.events e
        old =
            Fair-Grows n c.events c'.events e
              (effect-Grows g n c inv owner after.0 (c.events owner) eff counts_kept)
              (inv.fair k e at)

        fair : Fair n c'.events e'
        fair = elim (count_vote_open g e.args r reply e.agreed (c.peer owner) h) [
          | inl same ↦
              subst (λ m. Fair n c'.events (record e { agreed = m; calls = set_at e.calls q done }))
                (sym same) (ended-Fair n q c'.events e old)
          | inr (more, answered_r, granted) ↦
              subst (λ m. Fair n c'.events (record e { agreed = m; calls = set_at e.calls q done }))
                (sym more) (counted-Fair n q c'.events e old reply lt (got answered_r) granted)
        ]

    -- The reply ends the election.
    counts_won :
        after.2 ≡ true
        → ClusterInv g n (
            move_election
              (move_peer
                (record c { won = (e.args.term, owner) ∷ c.won })
                owner
                after.0
                (c.events owner))
              k
              e')
    counts_won h =
        let (more, answered_r, granted, most, role, term, term', role', me, npeers) =
          count_vote_won g e.args r reply e.agreed (c.peer owner) h in
        let i = inv.peers owner in
        let mine : Noted (voted e.args.term owner) (c.events owner) =
          subst (λ t. Noted (voted t owner) (c.events owner)) (sym term) (i.runs role) in
        let (voters, total, gave) =
          counted_voters n q c.events e (inv.fair k e at) reply lt (got answered_r) granted mine in
        let inv1 : ClusterInv g n c1 =
          ClusterInv-won g n c inv e.args.term owner voters (omega (arith, total, most, i.npeers))
            gave in
        let eff : Effect c1.won (c.peer owner) (c.events owner) after.0 (c.events owner) = record {
          me = me;
          npeers = npeers;
          grows = λ x n. n;
          runs = λ own is. ground arith;
          leads = λ own is. inl (term', i.me);
          hears = λ t l n. inl n;
          votes = λ t y n. inl n;
        } in
        let inv2 = ClusterInv-effect g n c1 inv1 owner after.0 (c.events owner) eff counts_kept in
        let grown =
          Fair-Grows n c.events (set_at c.events owner (c.events owner)) e
            (effect-Grows g n c1 inv1 owner after.0 (c.events owner) eff counts_kept)
            (inv.fair k e at) in
        ClusterInv-election g n (move_peer c1 owner after.0 (c.events owner)) inv2 k e' (
          subst
            (λ m.
              Fair n (set_at c.events owner (c.events owner))
                (record e { agreed = m; calls = set_at e.calls q done }))
            (sym more)
            (counted-Fair n q (set_at c.events owner (c.events owner)) e grown reply lt
              (got answered_r) granted))
      where
        c1 : Cluster C B
        c1 = record c { won = (e.args.term, owner) ∷ c.won }

    pub counts-ClusterInv : ClusterInv g n (count_reply g k q e r reply c)
    unfolding count_reply
    counts-ClusterInv = elim (Bool-cases after.2) [
      | inl won ↦ rw won (counts_won won)
      | inr lost ↦ rw lost (counts_open lost)
    ]
