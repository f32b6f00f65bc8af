-- ===== src/Raft/Vote/Election.antt =====
-- An election of src/raft/raft.go: the requests of `doVote` and the replies to them, counted in the
-- order in which the goroutines take the lock.
use code2go.Prelude.{
  ℕ, suc, ◌+◌, ◌*◌, ◌≤◌, ◌<◌, ◌≡◌, ◌↔◌, refl, ap, Bool, true, false, ◌&&◌, List, [], ◌∷◌, ltb,
  if◌then◌else◌, Bool-cases, arith, inl, inr,
}
use native.Mathlib.Decide.{dec_lt}
use code2go.Raft.State.{candidate, leader, Gob, Raft}
use code2go.Raft.Vote.{RequestVoteArgs, RequestVoteReply, become_leader, count_vote}

-- An answer: whether the call was answered, and the reply.
abbrev pub Answer : Type 0
Answer = Bool × RequestVoteReply

module _ {C B : Type 0} where
  -- The goroutines of one election, one after the other, with no other step of the peer in between.
  pub collect : Gob C B → RequestVoteArgs → List Answer → (agreed : ℕ) → Raft C B → Raft C B
  collect g args [] agreed rf = rf
  collect g args ((ok, reply) ∷ answers) agreed rf =
      let (rf', agreed', _) = count_vote g args ok reply agreed rf in
      collect g args answers agreed' rf'

abbrev pub is_grant : Answer → Bool
is_grant (ok, reply) = ok && reply.vote_granted

pub grants : List Answer → ℕ
grants [] = 0
grants (a ∷ answers) = if is_grant a then suc (grants answers) else grants answers

-- No reply comes from a later term.
abbrev pub NoneLater : ℕ → List Answer → Type 0
NoneLater term [] = Unit
NoneLater term ((ok, reply) ∷ answers) = (reply.term ≤ term) × NoneLater term answers

module _ {C B : Type 0} (g : Gob C B) (args : RequestVoteArgs) (ok : Bool)
    (reply : RequestVoteReply) (agreed : ℕ) (rf : Raft C B)
    (fresh : reply.term ≤ rf.current_term) where
  count_vote_ignored :
      (ok && reply.vote_granted) ≡ false
      → count_vote g args ok reply agreed rf ≡ (rf, agreed, false)
  unfolding count_vote
  count_vote_ignored h = ground arith

  count_vote_late : rf.role ≡ leader → count_vote g args ok reply agreed rf ≡ (rf, agreed, false)
  unfolding count_vote
  count_vote_late h = ground arith

  count_vote_more :
      (ok && reply.vote_granted) ≡ true
      → rf.role ≡ candidate
      → args.term ≡ rf.current_term
      → (agreed + 1) * 2 ≤ rf.npeers
      → count_vote g args ok reply agreed rf ≡ (rf, agreed + 1, false)
  unfolding count_vote
  count_vote_more h role term few = ground arith

  count_vote_wins :
      (ok && reply.vote_granted) ≡ true
      → rf.role ≡ candidate
      → args.term ≡ rf.current_term
      → rf.npeers < (agreed + 1) * 2
      → count_vote g args ok reply agreed rf ≡ (become_leader g rf, agreed + 1, true)
  unfolding count_vote
  count_vote_wins h role term many = ground arith

module _ {C B : Type 0} (g : Gob C B) (rf : Raft C B) where
  become_leader-role : (become_leader g rf).role ≡ leader
  unfolding become_leader
  become_leader-role = refl

  become_leader-term : (become_leader g rf).current_term ≡ rf.current_term
  unfolding become_leader
  become_leader-term = refl

module _ {C B : Type 0} (g : Gob C B) (args : RequestVoteArgs) where
  collect_cons :
      (ok : Bool) (reply : RequestVoteReply) (answers : List Answer) (agreed n : ℕ)
      (rf rf' : Raft C B) (b : Bool)
      → count_vote g args ok reply agreed rf ≡ (rf', n, b)
      → collect g args ((ok, reply) ∷ answers) agreed rf ≡ collect g args answers n rf'
  unfolding collect
  collect_cons ok reply answers agreed n rf rf' b e = ap (λ r. collect g args answers r.1 r.0) e

  collect_leader :
      (answers : List Answer) (agreed : ℕ) (rf : Raft C B)
      → NoneLater rf.current_term answers
      → rf.role ≡ leader
      → collect g args answers agreed rf ≡ rf
  unfolding collect
  collect_leader [] agreed rf none_later lead = refl
  collect_leader ((ok, reply) ∷ answers) agreed rf (fresh, none_later) lead =
      rw (count_vote_late g args ok reply agreed rf fresh lead)
        (collect_leader answers agreed rf none_later lead)

  collect_role :
      (answers : List Answer) (agreed : ℕ) (rf : Raft C B)
      → NoneLater rf.current_term answers
      → rf.role ≡ candidate
      → args.term ≡ rf.current_term
      → agreed * 2 ≤ rf.npeers
      → (collect g args answers agreed rf).role
        ≡ (if ltb rf.npeers ((agreed + grants answers) * 2) then leader else candidate)
  unfolding grants
  collect_role [] agreed rf none_later role term few = unfold collect in ground arith
  collect_role ((ok, reply) ∷ answers) agreed rf (fresh, none_later) role term few =
      elim (Bool-cases (ok && reply.vote_granted)) [
        | inr no_vote ↦
            rw
              (
                step agreed rf false (count_vote_ignored g args ok reply agreed rf fresh no_vote),
                no_vote,
              )
              (collect_role answers agreed rf none_later role term few)
        | inl vote ↦ elim (dec_lt rf.npeers ((agreed + 1) * 2)) [
          | yes many ↦
              rw
                (
                  step (agreed + 1) (become_leader g rf) true
                      (count_vote_wins g args ok reply agreed rf fresh vote role term many),
                  vote,
                )
                (rw
                  (collect_leader answers (agreed + 1) (become_leader g rf)
                    (same_term answers none_later) (become_leader-role g rf))
                  (won many))
          | no not_yet ↦
              let sum : agreed + suc (grants answers) ≡ agreed + 1 + grants answers = omega arith in
              rw
                (
                  step (agreed + 1) rf false (
                      count_vote_more g args ok reply agreed rf fresh vote role term (omega arith)),
                  vote,
                  sum,
                )
                (collect_role answers (agreed + 1) rf none_later role term (omega arith))
        ]
      ]
    where
      step :
          (n : ℕ) (rf' : Raft C B) (b : Bool)
          → count_vote g args ok reply agreed rf ≡ (rf', n, b)
          → collect g args ((ok, reply) ∷ answers) agreed rf ≡ collect g args answers n rf'
      step n rf' b e = collect_cons ok reply answers agreed n rf rf' b e

      won :
          rf.npeers < (agreed + 1) * 2
          → (become_leader g rf).role
            ≡ (if ltb rf.npeers ((agreed + suc (grants answers)) * 2) then leader else candidate)
      won many = ground (arith, become_leader-role g rf)

      same_term :
          (answers : List Answer)
          → NoneLater rf.current_term answers
          → NoneLater (become_leader g rf).current_term answers
      same_term answers n = rw (become_leader-term g rf) n

  -- A candidate of a cluster of at least two peers, whose election no reply from a later term ends, becomes
  -- leader exactly when the granted votes and its own are more than half.
  pub collect_wins :
      (answers : List Answer) (rf : Raft C B)
      → NoneLater rf.current_term answers
      → rf.role ≡ candidate
      → args.term ≡ rf.current_term
      → 2 ≤ rf.npeers
      → ((collect g args answers 1 rf).role ≡ leader) ↔ (rf.npeers < (1 + grants answers) * 2)
  collect_wins answers rf none_later role term two =
      let result = collect_role answers 1 rf none_later role term (omega arith) in
      (λ won. ground arith, λ many. ground arith)
