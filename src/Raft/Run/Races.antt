-- ===== src/Raft/Run/Races.antt =====
-- Runs of one peer of src/raft/raft.go in which what the source does before it takes the lock is apart from what it does with it.
-- `sendRequestVote` and `sendAppendEntries` compare reply.Term with rf.currentTerm first and lock then; `Make`'s goroutine reads
-- role and clock and locks then; it sets lastHeart without the lock. In between any other step may be. The rest of the goroutine that
-- had the reply is the step `answered` or `ponged` with a reply of term 0, from which nothing is adopted.
use code2go.Prelude.{
  ℕ, ◌+◌, ◌≡◌, ◌⊎◌, inl, inr, refl, Bool, true, false, not, ◌||◌, List, [], ◌∷◌, arith, Bool-cases,
}
use code2go.Persister.{make_persister}
use code2go.Raft.State.{Gob, IsGob, Raft, make_raft}
use code2go.Raft.Vote.{is_behind, step_down, start_election}
use code2go.Raft.Run.{Event, voted, heard, Step}
use code2go.Raft.Run.Inv.{Noted, Inv, Inv-quiet, Inv-voted}
use code2go.Raft.Run.Votes.{Step-Inv, made-Inv}

-- The last part says whether a step with the lock held set the term to one that was not above the peer's: the test before
-- the lock was stale.
pub data RacedReach {C B : Type 0} (g : Gob C B) (npeers me : ℕ)
    : Raft C B → List Event → Bool → Type 0 where
  made :
      (fresh beat now : ℕ)
      → RacedReach g npeers me (make_raft g npeers me make_persister fresh beat now) [] false
  next :
      {a b : Raft C B} {tr tr' : List Event} {stale : Bool}
      → RacedReach g npeers me a tr stale
      → Step g a tr b tr'
      → RacedReach g npeers me b tr' stale
  steps_down :
      (reply_term : ℕ) {a : Raft C B} {tr : List Event} {stale : Bool}
      → RacedReach g npeers me a tr stale
      → RacedReach g npeers me (step_down g reply_term a) tr (not (is_behind reply_term a) || stale)
  expires :
      (fresh : ℕ) {a : Raft C B} {tr : List Event} {stale : Bool}
      → RacedReach g npeers me a tr stale
      → RacedReach g npeers me
          (start_election g fresh a)
          (voted (a.current_term + 1) a.me ∷ tr)
          stale
  dozes :
      (later : ℕ) {a : Raft C B} {tr : List Event} {stale : Bool}
      → RacedReach g npeers me a tr stale
      → RacedReach g npeers me (record a { last_heart = later }) tr stale

module _ {C B : Type 0} (g : Gob C B) where
  steps_down-Inv :
      (reply_term : ℕ) (a : Raft C B) (tr : List Event)
      → is_behind reply_term a ≡ true
      → Inv g a tr
      → Inv g (step_down g reply_term a) tr
  unfolding step_down is_behind
  steps_down-Inv reply_term a tr behind inv =
      Inv-quiet g a (step_down g reply_term a) tr (inl refl) (inl (ground arith)) inv

  expires-Inv :
      (fresh : ℕ) (a : Raft C B) (tr : List Event)
      → Inv g a tr
      → Inv g (start_election g fresh a) (voted (a.current_term + 1) a.me ∷ tr)
  unfolding start_election
  expires-Inv fresh a tr inv =
      Inv-voted g a (start_election g fresh a) tr a.me (inl refl) refl (inl (omega arith)) inv

  RacedReach-Inv :
      IsGob g
      → (npeers me : ℕ) (rf : Raft C B) (tr : List Event) (stale : Bool)
      → RacedReach g npeers me rf tr stale
      → stale ≡ false
      → Inv g rf tr
  RacedReach-Inv ok npeers me rf tr stale (made fresh beat now) calm =
      made-Inv g ok npeers me fresh beat now
  RacedReach-Inv ok npeers me rf tr stale (next {a} {tr = before} r st) calm =
      Step-Inv g ok a rf before tr st (RacedReach-Inv ok npeers me a before stale r calm)
  RacedReach-Inv ok npeers me rf tr stale (steps_down t {a} {stale = old} r) calm =
      elim (Bool-cases (is_behind t a)) [
        | inl behind ↦
            steps_down-Inv t a tr behind
              (RacedReach-Inv ok npeers me a tr old r (ground (arith, calm, behind)))
        | inr late ↦ ground (arith, calm, late)
      ]
  RacedReach-Inv ok npeers me rf tr stale (expires fresh {a} {tr = before} r) calm =
      expires-Inv fresh a before (RacedReach-Inv ok npeers me a before stale r calm)
  RacedReach-Inv ok npeers me rf tr stale (dozes later {a} r) calm =
      let inv = RacedReach-Inv ok npeers me a tr stale r calm in
      Inv-quiet g a rf tr inv.durable (inr (refl, refl)) inv

  -- In every run, crashes included, in which no reply whose term was compared before the lock sets the peer's term to one that is not
  -- above it, two votes of the peer in one term are for the same candidate, unless the peer has heard one of the two as the
  -- leader of that term.
  pub RacedReach-single_vote :
      IsGob g
      → {npeers me : ℕ} {rf : Raft C B} {tr : List Event} → RacedReach g npeers me rf tr false
      → (t x y : ℕ) → Noted (voted t x) tr
      → Noted (voted t y) tr
      → (x ≡ y) ⊎ (Noted (heard t x) tr ⊎ Noted (heard t y) tr)
  RacedReach-single_vote ok {npeers} {me} {rf} {tr} r =
      (RacedReach-Inv ok npeers me rf tr false r refl).single
