-- ===== src/Raft/Cluster/Inv.antt =====
-- The invariant of a cluster of src/raft/raft.go behind the safety of its elections.
use code2go.Prelude.{
  ℕ, suc, ◌*◌, ◌<◌, ◌≡◌, ◌⊎◌, inl, inr, sym, ◌∙◌, Bool, true, false, some, List, ◌∷◌, arith,
}
use mathlib.Core.Path.{subst}
use code2go.Raft.State.{candidate, leader, Gob, Raft}
use code2go.Raft.Vote.{RequestVoteReply}
use code2go.Raft.Append.{AppendEntriesArgs}
use code2go.Raft.Run.{Event, voted, heard}
use code2go.Raft.Run.Inv.{Noted, Inv}
use code2go.Raft.Cluster.{replied, done, Election, Cluster, Sent}
use code2go.Raft.Cluster.Tally.{tally, tally_meet, Won, Won-cases}

-- More than half of the peers voted for `a` in the term `t`, and later only for peers that won the term.
pub record Backed (n : ℕ) (events : ℕ → List Event) (w : List (ℕ × ℕ)) (t a : ℕ) : Type 0 where
  pub voters : ℕ → Bool
  pub most : n < tally voters n * 2
  pub gave : (q : ℕ) → voters q ≡ true → Noted (voted t a) (events q)
  pub only :
      (q : ℕ) → voters q ≡ true → (y : ℕ) → Noted (voted t y) (events q) → (y ≡ a) ⊎ Won t y w

-- What is known of one call of `doVote`.
pub record Fair (n : ℕ) (events : ℕ → List Event) (e : Election) : Type 0 where
  pub inside : e.args.candidate_id < n
  pub counted : ℕ → Bool
  pub total : e.agreed ≡ suc (tally counted n)
  pub own : counted e.args.candidate_id ≡ false
  pub silent : e.calls e.args.candidate_id ≡ done
  pub closed : (q : ℕ) → counted q ≡ true → e.calls q ≡ done
  pub gave : (q : ℕ) → counted q ≡ true → Noted (voted e.args.term e.args.candidate_id) (events q)
  pub grants :
      (q : ℕ) (reply : RequestVoteReply)
      → e.calls q ≡ replied reply
      → reply.vote_granted ≡ true
      → Noted (voted e.args.term e.args.candidate_id) (events q)

-- What holds of each peer, by its record and the elections that were won.
pub record PeerInv {C B : Type 0} (g : Gob C B) (n : ℕ) (w : List (ℕ × ℕ)) (p : ℕ) (rf : Raft C B)
    (tr : List Event) : Type 0 where
  pub me : rf.me ≡ p
  pub npeers : rf.npeers ≡ n
  pub inv : Inv g rf tr
  pub runs : rf.role ≡ candidate → Noted (voted rf.current_term p) tr
  pub leads : rf.role ≡ leader → Won rf.current_term p w
  pub hears : (t l : ℕ) → Noted (heard t l) tr → Won t l w

pub record ClusterInv {C B : Type 0} (g : Gob C B) (n : ℕ) (c : Cluster C B) : Type 0 where
  pub peers : (p : ℕ) → PeerInv g n c.won p (c.peer p) (c.events p)
  pub backed : (t a : ℕ) → Won t a c.won → Backed n c.events c.won t a
  pub one : (t a b : ℕ) → Won t a c.won → Won t b c.won → a ≡ b
  pub fair : (k : ℕ) (e : Election) → c.elections k ≡ some e → Fair n c.events e
  pub sent :
      (args : AppendEntriesArgs C) → Sent args c.requests → Won args.term args.leader_id c.won

PeerInv-won :
    {C B : Type 0} (g : Gob C B) (n : ℕ) (w : List (ℕ × ℕ)) (win : ℕ × ℕ) (p : ℕ) (rf : Raft C B)
    (tr : List Event)
    → PeerInv g n w p rf tr
    → PeerInv g n (win ∷ w) p rf tr
PeerInv-won g n w (t, a) p rf tr i = record {
  me = i.me;
  npeers = i.npeers;
  inv = i.inv;
  runs = i.runs;
  leads = λ role. inr (i.leads role);
  hears = λ u l h. inr (i.hears u l h);
}

Backed-won :
    (n : ℕ) (events : ℕ → List Event) (w : List (ℕ × ℕ)) (win : ℕ × ℕ) (t a : ℕ)
    → Backed n events w t a
    → Backed n events (win ∷ w) t a
Backed-won n events w (u, b) t a k = record {
  voters = k.voters;
  most = k.most;
  gave = k.gave;
  only = λ q v y h. elim (k.only q v y h) [ inl same ↦ inl same | inr old ↦ inr (inr old) ];
}

module _ {C B : Type 0} (g : Gob C B) (n : ℕ) (c : Cluster C B) (inv : ClusterInv g n c) (t a : ℕ)
    (voters : ℕ → Bool) (most : n < tally voters n * 2)
    (gave : (q : ℕ) → voters q ≡ true → Noted (voted t a) (c.events q)) where
  abbrev w' : List (ℕ × ℕ)
  w' = (t, a) ∷ c.won

  -- Nobody else won the term: a common voter of two winners voted for one of them first.
  alone_in_term : (b : ℕ) → Won t b c.won → a ≡ b
  alone_in_term b won =
      let back = inv.backed t b won in
      let (q, lt, in_back, in_new) =
        tally_meet back.voters voters n (omega (arith, most, back.most)) in
      elim (back.only q in_back a (gave q in_new)) [
        | inl same ↦ same
        | inr old ↦ inv.one t a b old won
      ]

  new-Backed : ¬ Won t a c.won → Backed n c.events w' t a
  new-Backed fresh = record { voters = voters; most = most; gave = gave; only = only }
    where
      only :
          (q : ℕ)
          → voters q ≡ true
          → (y : ℕ) → Noted (voted t y) (c.events q)
          → (y ≡ a) ⊎ Won t y w'
      only q v y h = elim ((inv.peers q).inv.single t a y (gave q v) h) [
        | inl same ↦ inl (sym same)
        | inr (inl ha) ↦ absurd (fresh ((inv.peers q).hears t a ha))
        | inr (inr hy) ↦ inr (inr ((inv.peers q).hears t y hy))
      ]

  win-Backed : (u b : ℕ) → Won u b w' → Backed n c.events w' u b
  win-Backed u b (inr old) = Backed-won n c.events c.won (t, a) u b (inv.backed u b old)
  win-Backed u b (inl (term, same)) = elim (Won-cases t a c.won) [
    | inl old ↦ moved (Backed-won n c.events c.won (t, a) t a (inv.backed t a old))
    | inr fresh ↦ moved (new-Backed fresh)
  ]
    where
      moved : Backed n c.events w' t a → Backed n c.events w' u b
      moved k =
          subst (λ x. Backed n c.events w' x b) (sym term)
            (subst (λ y. Backed n c.events w' t y) (sym same) k)

  win_one : (u x y : ℕ) → Won u x w' → Won u y w' → x ≡ y
  win_one u x y (inl (tx, ex)) (inl (ty, ey)) = ex ∙ sym ey
  win_one u x y (inl (tx, ex)) (inr old) = ex ∙ alone_in_term y (subst (λ v. Won v y c.won) tx old)
  win_one u x y (inr old) (inl (ty, ey)) =
      sym (alone_in_term x (subst (λ v. Won v x c.won) ty old)) ∙ sym ey
  win_one u x y (inr old_x) (inr old_y) = inv.one u x y old_x old_y

  -- An election is won.
  pub ClusterInv-won : ClusterInv g n (record c { won = w' })
  ClusterInv-won = record {
    peers = λ p. PeerInv-won g n c.won (t, a) p (c.peer p) (c.events p) (inv.peers p);
    backed = win-Backed;
    one = win_one;
    fair = inv.fair;
    sent = λ args h. inr (inv.sent args h);
  }
