-- ===== src/Raft/Submit/Rule.antt =====
-- Induction over the commit loop of `doSubmit`: what one call of `commit_to` keeps, the loop keeps.
use code2go.Prelude.{
  ℕ, zero, suc, ◌+◌, ◌*◌, ◌≤◌, ◌<◌, ◌≡◌, inl, inr, some, ltb, ltb→lt, Bool-cases, Option-cases,
  arith, get_elem?,
}
use code2go.Raft.State.{Entry, Raft}
use code2go.Raft.Submit.{count_matches, commit_to, advance_commit}

-- The entry at `iter` may be committed: it is of the leader's term or later, and the leader's table has it
-- on more than half of the peers.
pub record IsAgreed {C B : Type 0} (iter : ℕ) (rf : Raft C B) : Type 0 where
  pub entry : Entry C
  pub found : get_elem? rf.logs iter ≡ some entry
  pub own_term : rf.current_term ≤ entry.term
  pub count : ℕ
  pub counted : count_matches rf.match_index rf.me iter 1 0 rf.npeers ≡ some count
  pub majority : rf.npeers < count * 2

module _ {C B : Type 0} (P : ℕ → Raft C B → Type 0)
    (keep : (iter : ℕ) (a b : Raft C B)
      → IsAgreed iter a
      → commit_to iter a ≡ some b
      → P iter a
      → P (iter + 1) b)
    (skip : (iter : ℕ) (a : Raft C B) → P iter a → P (iter + 1) a) where
  pub advance_commit_rule :
      (iter rounds : ℕ) (a b : Raft C B)
      → advance_commit iter rounds a ≡ some b
      → P iter a
      → (end : ℕ) × P end b × (end ≤ iter + rounds)
  unfolding advance_commit
  advance_commit_rule iter zero a b h p = (iter, ground arith, omega arith)
  advance_commit_rule iter (suc rounds) a b h p = elim (Option-cases (get_elem? a.logs iter)) [
    | inl none_there ↦ ground arith
    | inr (e, found) ↦ elim (Bool-cases (ltb e.term a.current_term)) [
      | inl old ↦
          let (end, q, le) =
            advance_commit_rule (iter + 1) rounds a b (ground arith) (skip iter a p) in
          (end, q, omega arith)
      | inr new ↦ elim (Option-cases (count_matches a.match_index a.me iter 1 0 a.npeers)) [
        | inl no_count ↦ ground arith
        | inr (count, counted) ↦ elim (Bool-cases (ltb a.npeers (count * 2))) [
          | inl many ↦ elim (Option-cases (commit_to iter a)) [
            | inl fault ↦ ground arith
            | inr (c, done) ↦
                let (end, q, le) = advance_commit_rule (iter + 1) rounds c b (ground arith) (
                  keep iter a c
                    (record {
                      entry = e;
                      found = found;
                      own_term = ground arith;
                      count = count;
                      counted = counted;
                      majority = ltb→lt _ _ many;
                    })
                    done p) in
                (end, q, omega arith)
          ]
          | inr few ↦ (iter, ground arith, omega arith)
        ]
      ]
    ]
  ]
