-- ===== src/Raft/Cluster/Tally.antt =====
-- Votes of a cluster counted as a predicate on peers, and the list of elections that were won.
use code2go.Prelude.{
  ℕ, zero, suc, ◌+◌, ◌<◌, ◌≡◌, ◌≢◌, ◌⊎◌, refl, Bool, true, false, List, [], ◌∷◌, ◌==◌,
  if◌then◌else◌, arith, Bool-cases, inl, inr,
}
use mathlib.Core.Path.{subst}
use code2go.Raft.Cluster.{set_at}

pub tally : (ℕ → Bool) → ℕ → ℕ
tally f zero = 0
tally f (suc n) = (if f n then 1 else 0) + tally f n

tally_above :
    (f : ℕ → Bool) (q : ℕ) (v : Bool) (n : ℕ) → (q < n → ⊥) → tally (set_at f q v) n ≡ tally f n
unfolding tally
tally_above f q v zero h = refl
tally_above f q v (suc n) h = ground (arith, tally_above f q v n (λ lt. h (omega arith)))

-- One more voter.
pub tally-set_at :
    (f : ℕ → Bool) (q n : ℕ) → q < n → f q ≡ false → tally (set_at f q true) n ≡ suc (tally f n)
unfolding tally
tally-set_at f q zero lt h = absurd (omega arith)
tally-set_at f q (suc n) lt h = elim (Bool-cases (q == n)) [
  | inl same ↦
      let e : q ≡ n = ground arith in
      let off : f n ≡ false = subst (λ x. f x ≡ false) e h in
      ground (arith, off, tally_above f q true n (λ lt. omega arith))
  | inr apart ↦ ground (arith, tally-set_at f q n (ground arith) h)
]

-- Two majorities have a member in common.
pub tally_meet :
    (f h : ℕ → Bool) (n : ℕ)
    → n < tally f n + tally h n
    → (i : ℕ) × (i < n) × (f i ≡ true) × (h i ≡ true)
unfolding tally
tally_meet f h zero lt = absurd (omega arith)
tally_meet f h (suc n) lt = elim (Bool-cases (f n)) [
  | inl yes_f ↦ elim (Bool-cases (h n)) [
    | inl yes_h ↦ (n, omega arith, yes_f, yes_h)
    | inr no_h ↦ deeper (tally_meet f h n (ground arith))
  ]
  | inr no_f ↦ deeper (tally_meet f h n (ground arith))
]
  where
    deeper :
        ((i : ℕ) × (i < n) × (f i ≡ true) × (h i ≡ true))
        → (i : ℕ) × (i < suc n) × (f i ≡ true) × (h i ≡ true)
    deeper (i, lt', in_f, in_h) = (i, omega arith, in_f, in_h)

pub tally_all_false : (n : ℕ) → tally (λ q. false) n ≡ 0
unfolding tally
tally_all_false zero = refl
tally_all_false (suc n) = omega (arith, tally_all_false n)

abbrev pub Won : ℕ → ℕ → List (ℕ × ℕ) → Type 0
Won t a [] = ⊥
Won t a ((u, b) ∷ w) = ((t ≡ u) × (a ≡ b)) ⊎ Won t a w

pub Won-cases : (t a : ℕ) (w : List (ℕ × ℕ)) → Won t a w ⊎ (¬ Won t a w)
Won-cases t a [] = inr (λ h. h)
Won-cases t a ((u, b) ∷ w) = elim (Won-cases t a w) [
  | inl old ↦ inl (inr old)
  | inr never ↦ elim (Bool-cases (t == u)) [
    | inr apart ↦ inr (λ h. ground arith)
    | inl same ↦ elim (Bool-cases (a == b)) [
      | inl equal ↦ inl (inl (ground arith))
      | inr apart ↦ inr (λ h. ground arith)
    ]
  ]
]

-- To show something of every value of an updated function.
pub set_at-elim {ℓ κ} :
    {A : Type ℓ} (P : ℕ → A → Type κ) (f : ℕ → A) (p : ℕ) (v : A)
    → P p v
    → ((q : ℕ) → p ≢ q → P q (f q))
    → (q : ℕ) → P q (set_at f p v q)
set_at-elim P f p v here else_where q = elim (Bool-cases (p == q)) [
  | inl same ↦ let e : p ≡ q = ground arith in rw same (subst (λ x. P x v) e here)
  | inr apart ↦ rw apart (else_where q (λ e. ground arith))
]

pub set_at_elim₂ {ℓ κ μ} :
    {A : Type ℓ} {D : Type κ} (P : ℕ → A → D → Type μ) (f : ℕ → A) (h : ℕ → D) (p : ℕ) (v : A)
    (w : D)
    → P p v w
    → ((q : ℕ) → p ≢ q → P q (f q) (h q))
    → (q : ℕ) → P q (set_at f p v q) (set_at h p w q)
set_at_elim₂ P f h p v w here else_where q = elim (Bool-cases (p == q)) [
  | inl same ↦ let e : p ≡ q = ground arith in rw same (subst (λ x. P x v w) e here)
  | inr apart ↦ rw apart (else_where q (λ e. ground arith))
]
