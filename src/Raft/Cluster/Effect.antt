-- ===== src/Raft/Cluster/Effect.antt =====
-- How a step of one peer, of one election or of the network keeps the invariant of the cluster.
use code2go.Prelude.{ℕ, ◌≡◌, ◌⊎◌, inl, inr, sym, ◌∙◌, Option, none, some, List, ◌∷◌, ap}
use mathlib.Core.Path.{subst}
use code2go.Raft.State.{Gob, Raft}
use code2go.Raft.Append.{AppendEntriesArgs}
use code2go.Raft.Run.{Event, voted}
use code2go.Raft.Run.Inv.{Noted, Inv}
use code2go.Raft.Cluster.{set_at, Election, Cluster, Sent, move_peer, move_election}
use code2go.Raft.Cluster.Tally.{Won, set_at-elim, set_at_elim₂}
use code2go.Raft.Cluster.Facts.{Effect}
use code2go.Raft.Cluster.Inv.{Backed, Fair, PeerInv, ClusterInv}

-- The records only grow.
pub Grows : (ℕ → List Event) → (ℕ → List Event) → Type 0
Grows events events' = (q : ℕ) (e : Event) → Noted e (events q) → Noted e (events' q)

pub Fair-Grows :
    (n : ℕ) (events events' : ℕ → List Event) (e : Election)
    → Grows events events'
    → Fair n events e
    → Fair n events' e
unfolding Grows
Fair-Grows n events events' e grows f = record {
  inside = f.inside;
  counted = f.counted;
  total = f.total;
  own = f.own;
  silent = f.silent;
  closed = f.closed;
  gave = λ q v. grows q _ (f.gave q v);
  grants = λ q reply at granted. grows q _ (f.grants q reply at granted);
}

module _ {C B : Type 0} (g : Gob C B) (n : ℕ) (c : Cluster C B) (inv : ClusterInv g n c) where
  pub ClusterInv-election :
      (k : ℕ) (e : Election) → Fair n c.events e → ClusterInv g n (move_election c k e)
  ClusterInv-election k e f = record {
    peers = inv.peers;
    backed = inv.backed;
    one = inv.one;
    fair = λ j e' at.
        set_at-elim (λ i o. o ≡ some e' → Fair n c.events e') c.elections k (some e)
          (λ same. subst (Fair n c.events) (unwrap e' same) f) (λ i apart at'. inv.fair i e' at') j
          at;
    sent = inv.sent;
  }
    where
      unwrap : (e' : Election) → some e ≡ some e' → e ≡ e'
      unwrap e' same = ap (λ (o : Option Election). elim o [ none ↦ e | some x ↦ x ]) same

  pub ClusterInv-sent :
      (args : AppendEntriesArgs C)
      → Won args.term args.leader_id c.won
      → ClusterInv g n (record c { requests = args ∷ c.requests })
  ClusterInv-sent args won = record {
    peers = inv.peers;
    backed = inv.backed;
    one = inv.one;
    fair = inv.fair;
    sent = sent;
  }
    where
      sent : (x : AppendEntriesArgs C) → Sent x (args ∷ c.requests) → Won x.term x.leader_id c.won
      sent x (inl e) = subst (λ y. Won y.term y.leader_id c.won) (sym e) won
      sent x (inr old) = inv.sent x old

  module _ (p : ℕ) (b : Raft C B) (tr : List Event)
      (eff : Effect c.won (c.peer p) (c.events p) b tr) (kept : Inv g b tr) where
    pub effect-Grows : Grows c.events (set_at c.events p tr)
    unfolding Grows
    effect-Grows =
        set_at-elim (λ q tr'. (e : Event) → Noted e (c.events q) → Noted e tr') c.events p tr
          eff.grows (λ q apart e h. h)

    moved_peer : PeerInv g n c.won p b tr
    moved_peer =
        let i = inv.peers p in
        record {
          me = eff.me ∙ i.me;
          npeers = eff.npeers ∙ i.npeers;
          inv = kept;
          runs = λ role.
              subst (λ m. Noted (voted b.current_term m) tr) i.me
                (eff.runs
                  (λ r.
                    subst (λ m. Noted (voted (c.peer p).current_term m) (c.events p)) (sym i.me)
                      (i.runs r))
                  role);
          leads = λ role.
              subst (λ m. Won b.current_term m c.won) i.me
                (eff.leads
                  (λ r. subst (λ m. Won (c.peer p).current_term m c.won) (sym i.me) (i.leads r))
                  role);
          hears = λ t l h. elim (eff.hears t l h) [ inl old ↦ i.hears t l old | inr won ↦ won ];
        }

    -- A vote after the step is an old one, or its candidate was voted for before in the term, or won it.
    abbrev Joins : ℕ → List Event → Type 0
    Joins q tr' =
        (t a y : ℕ)
        → Noted (voted t a) (c.events q)
        → Noted (voted t y) tr'
        → Noted (voted t y) (c.events q) ⊎ ((a ≡ y) ⊎ Won t y c.won)

    effect-Joins : (q : ℕ) → Joins q (set_at c.events p tr q)
    effect-Joins = set_at-elim Joins c.events p tr here (λ q apart t a y had h. inl h)
      where
        here : Joins p tr
        here t a y had h = elim (eff.votes t y h) [
          | inl old ↦ inl old
          | inr fresh ↦ elim (fresh a had) [
            | inl same ↦ inr (inl same)
            | inr heard_y ↦ inr (inr ((inv.peers p).hears t y heard_y))
          ]
        ]

    effect-Backed : (t a : ℕ) → Won t a c.won → Backed n (set_at c.events p tr) c.won t a
    unfolding Grows
    effect-Backed t a won =
        let k = inv.backed t a won in
        record {
          voters = k.voters;
          most = k.most;
          gave = λ q v. effect-Grows q _ (k.gave q v);
          only = λ q v y h. elim (effect-Joins q t a y (k.gave q v) h) [
            | inl old ↦ k.only q v y old
            | inr (inl same) ↦ inl (sym same)
            | inr (inr won_y) ↦ inr won_y
          ];
        }

    pub ClusterInv-effect : ClusterInv g n (move_peer c p b tr)
    ClusterInv-effect = record {
      peers =
          set_at_elim₂ (PeerInv g n c.won) c.peer c.events p b tr moved_peer
            (λ q apart. inv.peers q);
      backed = effect-Backed;
      one = inv.one;
      fair =
          λ k e at. Fair-Grows n c.events (set_at c.events p tr) e effect-Grows (inv.fair k e at);
      sent = inv.sent;
    }
