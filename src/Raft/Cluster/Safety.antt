-- ===== src/Raft/Cluster/Safety.antt =====
-- The safety of elections in a cluster of src/raft/raft.go.
use code2go.Prelude.{ℕ, ◌≡◌, refl, ◌∙◌, some, [], arith}
use mathlib.Core.Path.{subst}
use code2go.Persister.{make_persister}
use code2go.Raft.State.{leader, Gob, IsGob, Raft, make_raft}
use code2go.Raft.Append.{AppendEntriesArgs}
use code2go.Raft.Submit.{make_request}
use code2go.Raft.Run.{Event, voted, note_vote, note_leader, answered}
use code2go.Raft.Run.Votes.{Step-Inv, made-Inv}
use code2go.Raft.Run
use code2go.Raft.Cluster.{
  open_election, Cluster, move_peer, Move, alone, opens, asks, counts, leads, hears, Runs, begins,
  then_moves, fresh_cluster,
}
use code2go.Raft.Cluster.Tally.{Won}
use code2go.Raft.Cluster.Handlers.{alone-Effect, leads-Effect, hears-Effect}
use code2go.Raft.Cluster.Inv.{PeerInv, ClusterInv}
use code2go.Raft.Cluster.Effect.{ClusterInv-election, ClusterInv-sent, ClusterInv-effect}
use code2go.Raft.Cluster.Count.{open_election-Fair}
use code2go.Raft.Cluster.Goroutines.{asks-ClusterInv, counts-ClusterInv}

make_request_names :
    {C B : Type 0} (q : ℕ) (a b : Raft C B) (args : AppendEntriesArgs C)
    → make_request q a ≡ some (args, b)
    → (args.term ≡ a.current_term) × (args.leader_id ≡ a.me)
unfolding make_request
make_request_names q a b args h = ground arith

module _ {C B : Type 0} (g : Gob C B) (ok : IsGob g) (n : ℕ) where
  Move-ClusterInv : (c c' : Cluster C B) → Move g n c c' → ClusterInv g n c → ClusterInv g n c'
  Move-ClusterInv c c' (alone p {rf = rf} {tr = tr} lt st is) inv =
      ClusterInv-effect g n c inv p rf tr
        (alone-Effect g c.won (c.peer p) rf (c.events p) tr st is (inv.peers p).inv)
        (Step-Inv g ok (c.peer p) rf (c.events p) tr st (inv.peers p).inv)
  Move-ClusterInv c c' (opens p k lt none_yet) inv =
      ClusterInv-election g n c inv k (open_election (c.peer p))
        (open_election-Fair n p c.events (c.peer p) (inv.peers p).me lt)
  Move-ClusterInv c c' (asks k q now {e = e} lt at waits) inv =
      asks-ClusterInv g ok n c k q now e inv at waits
  Move-ClusterInv c c' (counts k q r reply {e = e} lt at gets) inv =
      counts-ClusterInv g ok n c k q r reply e inv lt at gets
  Move-ClusterInv c c' (leads p q {args = args} {rf = rf} lt role built) inv =
      ClusterInv-sent g n (move_peer c p rf (c.events p))
        (ClusterInv-effect g n c inv p rf (c.events p)
          (leads-Effect g c.won q (c.peer p) rf args (c.events p) built)
          (Step-Inv g ok (c.peer p) rf (c.events p) (c.events p) (Run.pings q built)
            (inv.peers p).inv))
        args (request_won p q args rf built ((inv.peers p).leads role) (inv.peers p).me)
    where
      request_won :
          (p q : ℕ) (args : AppendEntriesArgs C) (rf : Raft C B)
          → make_request q (c.peer p) ≡ some (args, rf)
          → Won (c.peer p).current_term p c.won
          → (c.peer p).me ≡ p
          → Won args.term args.leader_id c.won
      request_won p q args rf built won me =
          let (term, id) = make_request_names q (c.peer p) rf args built in rw (term, id ∙ me) won
  Move-ClusterInv c c' (hears q now args {rf = rf} reply lt sent handled) inv =
      ClusterInv-effect g n c inv q rf (note_leader args (c.peer q) (c.events q))
        (hears-Effect g c.won now args (c.peer q) rf reply (c.events q) handled
          (inv.sent args sent))
        (Step-Inv g ok (c.peer q) rf (c.events q) (note_leader args (c.peer q) (c.events q))
          (Run.pinged now args handled) (inv.peers q).inv)

  fresh_peer :
      (p fresh heart now : ℕ) → PeerInv g n [] p (make_raft g n p make_persister fresh heart now) []
  unfolding make_raft
  fresh_peer p fresh heart now = record {
    me = refl;
    npeers = refl;
    inv = made-Inv g ok n p fresh heart now;
    runs = λ role. ground arith;
    leads = λ role. ground arith;
    hears = λ t l h. absurd h;
  }

  fresh_cluster-ClusterInv :
      (election heart now : ℕ → ℕ) → ClusterInv g n (fresh_cluster g n election heart now)
  fresh_cluster-ClusterInv election heart now = record {
    peers = λ p. fresh_peer p (election p) (heart p) (now p);
    backed = λ t a h. absurd h;
    one = λ t a b h. absurd h;
    fair = λ k e h. ground arith;
    sent = λ args h. absurd h;
  }

  Runs-ClusterInv : (c : Cluster C B) → Runs g n c → ClusterInv g n c
  Runs-ClusterInv c (begins election heart now) = fresh_cluster-ClusterInv election heart now
  Runs-ClusterInv c (then_moves {c = before} r m) =
      Move-ClusterInv before c m (Runs-ClusterInv before r)

  -- Election safety. In every run of a cluster, with crashes, lost and late replies, a peer that leads has won the election of its
  -- term, and no two peers ever win the same term; so no two peers lead in one term. This rests on the heart beats being
  -- built by a peer that leads at that moment, and on replies being compared with the term under the lock.
  pub Runs-one_leader :
      {c : Cluster C B}
      → Runs g n c
      → ((p : ℕ) → (c.peer p).role ≡ leader → Won (c.peer p).current_term p c.won)
        × ((t a b : ℕ) → Won t a c.won → Won t b c.won → a ≡ b)
        × ((p q : ℕ)
            → (c.peer p).role ≡ leader
            → (c.peer q).role ≡ leader
            → (c.peer p).current_term ≡ (c.peer q).current_term
            → p ≡ q)
  Runs-one_leader {c} r =
      let inv = Runs-ClusterInv c r in
      (
        λ p role. (inv.peers p).leads role,
        inv.one,
        λ p q lp lq same.
            inv.one (c.peer q).current_term p q
              (subst (λ t. Won t p c.won) same ((inv.peers p).leads lp)) ((inv.peers q).leads lq),
      )
