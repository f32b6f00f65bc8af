-- ===== src/Raft/Run/Inv.antt =====
-- The invariant behind one vote for each term, and the three ways in which a step of src/raft/raft.go
-- can keep it.
use code2go.Prelude.{
  ℕ, ◌≤◌, ◌<◌, ◌≡◌, ◌⊎◌, inl, inr, refl, none, some, List, [], ◌∷◌, arith, ◌∙◌, sym,
}
use mathlib.Core.Path.{subst, subst₂}
use code2go.Raft.State.{Gob, Raft}
use code2go.Raft.Durable.{IsDurable}
use code2go.Raft.Run.{Event, voted, heard}

-- The event is in the record.
abbrev pub Noted : Event → List Event → Type 0
Noted e [] = ⊥
Noted e (x ∷ tr) = (e ≡ x) ⊎ Noted e tr

heard_at :
    {t t' x x' : ℕ} (tr : List Event)
    → t ≡ t'
    → x ≡ x'
    → Noted (heard t' x') tr
    → Noted (heard t x) tr
heard_at tr p q h = subst₂ (λ u v. Noted (heard u v) tr) (sym p) (sym q) h

-- The vote of the current term is the one recorded, unless the peer has heard of a leader since.
abbrev pub Kept : {C B : Type 0} → Raft C B → List Event → ℕ → Type 0
Kept rf tr c =
    (rf.voted_for ≡ some c)
    ⊎ ((l : ℕ) × (rf.voted_for ≡ some l) × Noted (heard rf.current_term l) tr)

pub record Inv {C B : Type 0} (g : Gob C B) (rf : Raft C B) (tr : List Event) : Type 0 where
  pub durable : IsDurable g rf
  pub past : (t c : ℕ) → Noted (voted t c) tr → t ≤ rf.current_term
  pub kept : (c : ℕ) → Noted (voted rf.current_term c) tr → Kept rf tr c
  pub single :
      (t a b : ℕ)
      → Noted (voted t a) tr
      → Noted (voted t b) tr
      → (a ≡ b) ⊎ (Noted (heard t a) tr ⊎ Noted (heard t b) tr)

-- The event is recorded under the term of the request, which is the peer's afterwards.
pub at_term :
    {C B : Type 0} (g : Gob C B) (event : ℕ → Event) (b : Raft C B) (tr : List Event) {t : ℕ}
    → t ≡ b.current_term
    → Inv g b (event b.current_term ∷ tr)
    → Inv g b (event t ∷ tr)
at_term g event b tr e inv = subst (λ u. Inv g b (event u ∷ tr)) (sym e) inv

module _ {C B : Type 0} (g : Gob C B) where
  -- A step that records nothing keeps the invariant if it keeps the vote or raises the term.
  pub Inv-quiet :
      (a b : Raft C B) (tr : List Event)
      → IsDurable g b
      → (a.current_term < b.current_term)
        ⊎ ((b.current_term ≡ a.current_term) × (b.voted_for ≡ a.voted_for))
      → Inv g a tr
      → Inv g b tr
  Inv-quiet a b tr d (inl higher) inv = record {
    durable = d;
    past = λ t c n. omega (arith, inv.past t c n);
    kept = λ c n. absurd (omega (arith, inv.past b.current_term c n));
    single = inv.single;
  }
  Inv-quiet a b tr d (inr (term, vote)) inv = record {
    durable = d;
    past = λ t c n. omega (arith, inv.past t c n);
    kept = λ c n. rw (term, vote) (inv.kept c (rw term at n));
    single = inv.single;
  }

  pub Inv-heard :
      (a b : Raft C B) (tr : List Event) (l : ℕ)
      → IsDurable g b
      → a.current_term ≤ b.current_term
      → b.voted_for ≡ some l
      → Inv g a tr
      → Inv g b (heard b.current_term l ∷ tr)
  Inv-heard a b tr l d le vote inv = record {
    durable = d;
    past = past;
    kept = λ c n. inr (l, vote, inl refl);
    single = single;
  }
    where
      past : (t c : ℕ) → Noted (voted t c) (heard b.current_term l ∷ tr) → t ≤ b.current_term
      past t c (inl e) = ground arith
      past t c (inr n) = omega (arith, inv.past t c n)

      single :
          (t x y : ℕ)
          → Noted (voted t x) (heard b.current_term l ∷ tr)
          → Noted (voted t y) (heard b.current_term l ∷ tr)
          → (x ≡ y)
            ⊎ (Noted (heard t x) (heard b.current_term l ∷ tr)
                ⊎ Noted (heard t y) (heard b.current_term l ∷ tr))
      single t x y (inl e) n = ground arith
      single t x y (inr m) (inl e) = ground arith
      single t x y (inr m) (inr n) = elim (inv.single t x y m n) [
        | inl same ↦ inl same
        | inr (inl hx) ↦ inr (inl (inr hx))
        | inr (inr hy) ↦ inr (inr (inr hy))
      ]

  -- The peer of the step is free to vote for `c`.
  abbrev pub Free : Raft C B → Raft C B → ℕ → Type 0
  Free a b c =
      (a.current_term < b.current_term)
      ⊎ ((b.current_term ≡ a.current_term) × ((a.voted_for ≡ none) ⊎ (a.voted_for ≡ some c)))

  -- An earlier vote of the same term was for the same candidate, or that one is known as leader.
  pub earlier_vote :
      (a b : Raft C B) (tr : List Event) (c y : ℕ)
      → Free a b c
      → Inv g a tr
      → Noted (voted b.current_term y) tr
      → (y ≡ c) ⊎ Noted (heard b.current_term c) tr
  earlier_vote a b tr c y (inl higher) inv n = absurd (omega (arith, inv.past b.current_term y n))
  earlier_vote a b tr c y (inr (term, free)) inv n = elim (inv.kept y (rw term at n)) [
    | inl same ↦ inl (ground arith)
    | inr (l, voted_l, h) ↦ let e : l ≡ c = ground arith in inr (rw (term, ← e) h)
  ]

  pub Inv-voted :
      (a b : Raft C B) (tr : List Event) (c : ℕ)
      → IsDurable g b
      → b.voted_for ≡ some c
      → Free a b c
      → Inv g a tr
      → Inv g b (voted b.current_term c ∷ tr)
  Inv-voted a b tr c d vote free inv = record {
    durable = d;
    past = past;
    kept = kept;
    single = single;
  }
    where
      tr' : List Event
      tr' = voted b.current_term c ∷ tr

      le : a.current_term ≤ b.current_term
      le = ground (arith, free)

      past : (t x : ℕ) → Noted (voted t x) tr' → t ≤ b.current_term
      past t x (inl e) = ground arith
      past t x (inr n) = omega (arith, le, inv.past t x n)

      kept : (x : ℕ) → Noted (voted b.current_term x) tr' → Kept b tr' x
      kept x (inl e) = inl (ground arith)
      kept x (inr n) = elim (earlier_vote a b tr c x free inv n) [
        | inl same ↦ inl (ground arith)
        | inr h ↦ inr (c, vote, inr h)
      ]

      single :
          (t x y : ℕ)
          → Noted (voted t x) tr'
          → Noted (voted t y) tr'
          → (x ≡ y) ⊎ (Noted (heard t x) tr' ⊎ Noted (heard t y) tr')
      single t x y (inl e) (inl f) = inl (ground arith)
      single t x y (inl e) (inr n) =
          let same_term : t ≡ b.current_term = ground arith in
          let same : x ≡ c = ground arith in
          elim (earlier_vote a b tr c y free inv (rw same_term at n)) [
            | inl old ↦ inl (same ∙ sym old)
            | inr h ↦ inr (inl (inr (heard_at tr same_term same h)))
          ]
      single t x y (inr n) (inl e) =
          let same_term : t ≡ b.current_term = ground arith in
          let same : y ≡ c = ground arith in
          elim (earlier_vote a b tr c x free inv (rw same_term at n)) [
            | inl old ↦ inl (old ∙ sym same)
            | inr h ↦ inr (inr (inr (heard_at tr same_term same h)))
          ]
      single t x y (inr m) (inr n) = elim (inv.single t x y m n) [
        | inl same ↦ inl same
        | inr (inl hx) ↦ inr (inl (inr hx))
        | inr (inr hy) ↦ inr (inr (inr hy))
      ]
