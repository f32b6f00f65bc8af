-- ===== src/Raft/Submit/Commit.antt =====
-- What the leader commits: the loop of `doSubmit` in src/raft/raft.go that moves `commitIndex`.
use code2go.Prelude.{
  ℕ, suc, ◌+◌, ◌-◌, ◌≤◌, ◌≡◌, ◌⊎◌, inl, inr, refl, some, List, [], ◌++◌, length, append-nil,
  append_assoc, arith, ap, ◌∙◌, Option-cases,
}
use code2go.Raft.State.{ApplyMsg, Raft}
use code2go.Raft.Append.{deliver}
use code2go.Raft.Append.Deliver.{deliver-append}
use code2go.Raft.Submit.{commit_to, update_commit}
use code2go.Raft.Submit.Rule.{IsAgreed, advance_commit_rule}

-- What the loop leaves alone.
pub record SameLog {C B : Type 0} (a b : Raft C B) : Type 0 where
  pub logs : b.logs ≡ a.logs
  pub match_index : b.match_index ≡ a.match_index
  pub me : b.me ≡ a.me
  pub npeers : b.npeers ≡ a.npeers
  pub term : b.current_term ≡ a.current_term
  pub vote : b.voted_for ≡ a.voted_for
  pub saved : b.persister ≡ a.persister
  pub role : b.role ≡ a.role

-- What holds of the state `b` that the loop has reached at `iter` from `a`.
record Progress {C B : Type 0} (a : Raft C B) (iter : ℕ) (b : Raft C B) : Type 0 where
  same : SameLog a b
  grows : a.commit_index ≤ b.commit_index
  below : b.commit_index ≤ iter
  agreed : (b.commit_index ≡ a.commit_index) ⊎ ((k : ℕ) × (b.commit_index ≡ suc k) × IsAgreed k a)
  msgs : List (ApplyMsg C)
  ran : deliver a.logs a.commit_index (b.commit_index - a.commit_index) ≡ some msgs
  sent : b.applied ≡ a.applied ++ msgs

commit_to_sends :
    {C B : Type 0} (iter : ℕ) (b c : Raft C B)
    → b.commit_index ≤ iter
    → commit_to iter b ≡ some c
    → (ms : List (ApplyMsg C)) × (deliver b.logs b.commit_index (iter + 1 - b.commit_index)
        ≡ some ms)
      × (c.commit_index ≡ iter + 1)
      × (c.applied ≡ b.applied ++ ms)
      × SameLog b c
unfolding commit_to
commit_to_sends iter b c le h =
    elim (Option-cases (deliver b.logs b.commit_index (iter + 1 - b.commit_index))) [
      | inl fault ↦ ground arith
      | inr (ms, ran) ↦ (ms, ran, ground arith, ground arith, ground arith)
    ]

module _ {C B : Type 0} (a : Raft C B) where
  Progress-start : Progress a a.commit_index a
  unfolding deliver
  Progress-start = record {
    same = ground arith;
    grows = omega arith;
    below = omega arith;
    agreed = inl refl;
    msgs = [];
    ran = (let e : a.commit_index - a.commit_index ≡ 0 = omega arith in rw e);
    sent = rw append-nil;
  }

  Progress-skip : (iter : ℕ) (b : Raft C B) → Progress a iter b → Progress a (iter + 1) b
  Progress-skip iter b p = record {
    same = p.same;
    grows = p.grows;
    below = omega arith;
    agreed = p.agreed;
    msgs = p.msgs;
    ran = p.ran;
    sent = p.sent;
  }

  IsAgreed-SameLog : (iter : ℕ) (b : Raft C B) → SameLog a b → IsAgreed iter b → IsAgreed iter a
  IsAgreed-SameLog iter b s g = record {
    entry = g.entry;
    found = ground (arith, s.logs, g.found);
    own_term = ground arith;
    count = g.count;
    counted = ground (arith, s.match_index, g.counted);
    majority = ground arith;
  }

  Progress-keep :
      (iter : ℕ) (b c : Raft C B)
      → IsAgreed iter b
      → commit_to iter b ≡ some c
      → Progress a iter b
      → Progress a (iter + 1) c
  Progress-keep iter b c g h p =
      let (ms, ran, committed, sent, same) = commit_to_sends iter b c p.below h in
      record {
        same = ground arith;
        grows = omega arith;
        below = omega arith;
        agreed = inr (iter, ground arith, IsAgreed-SameLog iter b p.same g);
        msgs = p.msgs ++ ms;
        ran =
            extend b.commit_index (iter + 1) p.grows (omega arith) p.msgs ms p.ran
              (rw (← p.same.logs) ran) (omega arith);
        sent = sent ∙ ap (λ l. l ++ ms) p.sent ∙ append_assoc a.applied p.msgs ms;
      }
    where
      extend :
          (mid end : ℕ)
          → a.commit_index ≤ mid
          → mid ≤ end
          → (xs ys : List (ApplyMsg C))
          → deliver a.logs a.commit_index (mid - a.commit_index) ≡ some xs
          → deliver a.logs mid (end - mid) ≡ some ys
          → c.commit_index ≡ end
          → deliver a.logs a.commit_index (c.commit_index - a.commit_index) ≡ some (xs ++ ys)
      extend mid end le le' xs ys p q e =
          let whole : c.commit_index - a.commit_index ≡ (mid - a.commit_index) + (end - mid) =
            omega arith in
          let back : a.commit_index + (mid - a.commit_index) ≡ mid = omega arith in
          rw whole (
            deliver-append a.logs a.commit_index (mid - a.commit_index) (end - mid) xs ys p
              (rw back q))

module _ {C B : Type 0} (rf rf' : Raft C B) (h : update_commit rf ≡ some rf') where
  update_commit-Progress :
      (end : ℕ) × Progress rf end rf' × (end ≤ rf.commit_index + (length rf.logs - rf.commit_index))
  unfolding update_commit
  update_commit-Progress =
      advance_commit_rule (Progress rf) (λ i b c g e p. Progress-keep rf i b c g e p)
        (Progress-skip rf) rf.commit_index (length rf.logs - rf.commit_index) rf rf' h
        (Progress-start rf)

  -- The commit index never falls, and stays within the log if it was there.
  pub update_commit_bounds :
      rf.commit_index ≤ length rf.logs
      → (rf.commit_index ≤ rf'.commit_index) × (rf'.commit_index ≤ length rf.logs)
  update_commit_bounds le = let (end, p, top) = update_commit-Progress in (p.grows, omega arith)

  -- If it moved, the last entry that it covers is of the leader's own term or later, and is recorded in the leader's table as
  -- being on more than half of the peers.
  pub update_commit-IsAgreed :
      (rf'.commit_index ≡ rf.commit_index) ⊎ ((k : ℕ) × (rf'.commit_index ≡ suc k) × IsAgreed k rf)
  update_commit-IsAgreed = let (end, p, top) = update_commit-Progress in p.agreed

  -- Exactly the newly committed entries are sent, each once and in the order of the log.
  pub applied-update_commit :
      (msgs : List (ApplyMsg C)) × (deliver rf.logs rf.commit_index
          (rf'.commit_index - rf.commit_index)
        ≡ some msgs)
      × (rf'.applied ≡ rf.applied ++ msgs)
  applied-update_commit = let (end, p, top) = update_commit-Progress in (p.msgs, p.ran, p.sent)

  pub update_commit-SameLog : SameLog rf rf'
  update_commit-SameLog = let (end, p, top) = update_commit-Progress in p.same
