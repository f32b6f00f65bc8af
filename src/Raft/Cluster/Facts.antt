-- ===== src/Raft/Cluster/Facts.antt =====
-- What one step of a peer of src/raft/raft.go does to its role, its term and its record of events, as
-- far as the other peers of the cluster depend on it.
use code2go.Prelude.{ℕ, ◌≡◌, ◌⊎◌, inl, inr, sym, ◌∙◌, List, ◌∷◌, arith}
use mathlib.Core.Path.{subst}
use code2go.Raft.State.{follower, candidate, leader, Gob, Raft}
use code2go.Raft.Run.{Event, voted, heard}
use code2go.Raft.Run.Inv.{Noted, Inv, Free, earlier_vote}
use code2go.Raft.Cluster.Tally.{Won}

-- `w` holds the elections that were won.
pub record Effect {C B : Type 0} (w : List (ℕ × ℕ)) (a : Raft C B) (tr : List Event) (b : Raft C B)
    (tr' : List Event) : Type 0 where
  pub me : b.me ≡ a.me
  pub npeers : b.npeers ≡ a.npeers
  pub grows : (e : Event) → Noted e tr → Noted e tr'
  pub runs :
      (a.role ≡ candidate → Noted (voted a.current_term a.me) tr)
      → b.role ≡ candidate
      → Noted (voted b.current_term a.me) tr'
  pub leads :
      (a.role ≡ leader → Won a.current_term a.me w) → b.role ≡ leader → Won b.current_term a.me w
  pub hears : (t l : ℕ) → Noted (heard t l) tr' → Noted (heard t l) tr ⊎ Won t l w
  pub votes :
      (t y : ℕ)
      → Noted (voted t y) tr'
      → Noted (voted t y) tr ⊎ ((x : ℕ) → Noted (voted t x) tr → (x ≡ y) ⊎ Noted (heard t y) tr)

-- A step keeps role and term, or makes the peer a follower.
pub record Settles {C B : Type 0} (a b : Raft C B) : Type 0 where
  pub me : b.me ≡ a.me
  pub npeers : b.npeers ≡ a.npeers
  pub role : ((b.role ≡ a.role) × (b.current_term ≡ a.current_term)) ⊎ (b.role ≡ follower)

module _ {C B : Type 0} (w : List (ℕ × ℕ)) (a b : Raft C B) (s : Settles a b) where
  still_runs :
      (tr : List Event)
      → (a.role ≡ candidate → Noted (voted a.current_term a.me) tr)
      → b.role ≡ candidate
      → Noted (voted b.current_term a.me) tr
  still_runs tr own role = elim s.role [
    | inl (same, term) ↦ subst (λ t. Noted (voted t a.me) tr) (sym term) (own (sym same ∙ role))
    | inr down ↦ ground arith
  ]

  still_leads :
      (a.role ≡ leader → Won a.current_term a.me w) → b.role ≡ leader → Won b.current_term a.me w
  still_leads own role = elim s.role [
    | inl (same, term) ↦ subst (λ t. Won t a.me w) (sym term) (own (sym same ∙ role))
    | inr down ↦ ground arith
  ]

  -- A step that records nothing.
  pub Effect-quiet : (tr : List Event) → Effect w a tr b tr
  Effect-quiet tr = record {
    me = s.me;
    npeers = s.npeers;
    grows = λ e n. n;
    runs = still_runs tr;
    leads = still_leads;
    hears = λ t l n. inl n;
    votes = λ t y n. inl n;
  }

  pub Effect-heard : (tr : List Event) (t l : ℕ) → Won t l w → Effect w a tr b (heard t l ∷ tr)
  Effect-heard tr t l won = record {
    me = s.me;
    npeers = s.npeers;
    grows = λ e n. inr n;
    runs = λ own role. inr (still_runs tr own role);
    leads = still_leads;
    hears = hears;
    votes = votes;
  }
    where
      hears : (u x : ℕ) → Noted (heard u x) (heard t l ∷ tr) → Noted (heard u x) tr ⊎ Won u x w
      hears u x (inl e) =
          let same_term : u ≡ t = ground arith in
          let same : x ≡ l = ground arith in inr (rw (same_term, same) won)
      hears u x (inr n) = inl n

      votes :
          (u y : ℕ)
          → Noted (voted u y) (heard t l ∷ tr)
          → Noted (voted u y) tr ⊎ ((x : ℕ) → Noted (voted u x) tr → (x ≡ y) ⊎ Noted (heard u y) tr)
      votes u y (inl e) = ground arith
      votes u y (inr n) = inl n

module _ {C B : Type 0} (g : Gob C B) (w : List (ℕ × ℕ)) (a b : Raft C B) (tr : List Event)
    (c : ℕ) where
  -- A vote for `c` in the term that the step ends in.
  pub Effect-voted :
      (b.me ≡ a.me) × (b.npeers ≡ a.npeers)
      → ((a.role ≡ candidate → Noted (voted a.current_term a.me) tr)
          → b.role ≡ candidate
          → Noted (voted b.current_term a.me) (voted b.current_term c ∷ tr))
      → ((a.role ≡ leader → Won a.current_term a.me w)
          → b.role ≡ leader
          → Won b.current_term a.me w)
      → Free g a b c
      → Inv g a tr
      → Effect w a tr b (voted b.current_term c ∷ tr)
  Effect-voted (me, npeers) runs leads free inv = record {
    me = me;
    npeers = npeers;
    grows = λ e n. inr n;
    runs = runs;
    leads = leads;
    hears = hears;
    votes = votes;
  }
    where
      hears :
          (t l : ℕ)
          → Noted (heard t l) (voted b.current_term c ∷ tr)
          → Noted (heard t l) tr ⊎ Won t l w
      hears t l (inl e) = ground arith
      hears t l (inr n) = inl n

      votes :
          (t y : ℕ)
          → Noted (voted t y) (voted b.current_term c ∷ tr)
          → Noted (voted t y) tr ⊎ ((x : ℕ) → Noted (voted t x) tr → (x ≡ y) ⊎ Noted (heard t y) tr)
      votes t y (inr n) = inl n
      votes t y (inl e) =
          let term : b.current_term ≡ t = ground arith in
          let same : c ≡ y = ground arith in
          inr (λ x n.
            elim (earlier_vote g a b tr c x free inv
              (subst (λ u. Noted (voted u x) tr) (sym term) n)) [
                | inl equal ↦ inl (equal ∙ same)
                | inr h ↦ inr (
                    subst (λ u. Noted (heard u y) tr) term
                      (subst (λ z. Noted (heard b.current_term z) tr) same h))
              ])
