-- ===== src/Raft/Submit/Majority.antt =====
-- The count of `doSubmit` in src/raft/raft.go against a plain definition, and that the commit loop
-- of a leader does not panic.
use native.Mathlib.Decide.{dec_lt}
use code2go.Prelude.{
  ℕ, zero, suc, ◌+◌, ◌-◌, ◌*◌, ◌≤◌, ◌<◌, ◌≡◌, ◌⊎◌, inl, inr, refl, ap, not, ◌&&◌, some, List, [],
  ◌∷◌, ◌++◌, length, drop, get_elem?, get_elem?-some, get_elem?-drop, drop_suc, ltb, ◌==◌,
  if◌then◌else◌, Bool-cases, arith,
}
use code2go.Raft.State.{Entry, Raft}
use code2go.Raft.Append.Deliver.{deliver_total}
use code2go.Raft.Submit.{count_matches, commit_to, advance_commit, update_commit}
use code2go.Raft.Submit.Commit.{update_commit-IsAgreed}

-- How many peers but `me` hold the entry at `iter` as far as the table says, which lists for each peer, from `j` on, up to where
-- its log is known to be that of the leader. A peer may have lost entries that the table counts.
unfoldable pub recorded_holders : (me iter j : ℕ) → List ℕ → ℕ
recorded_holders me iter j [] = 0
recorded_holders me iter j (m ∷ ms) =
    (if not (j == me) && ltb iter m then 1 else 0) + recorded_holders me iter (j + 1) ms

count_matches-recorded_holders :
    (match_index : List ℕ) (me iter count j : ℕ) (rest : List ℕ)
    → drop j match_index ≡ rest
    → count_matches match_index me iter count j (length rest)
      ≡ some (count + recorded_holders me iter j rest)
unfolding count_matches recorded_holders
count_matches-recorded_holders match_index me iter count j [] e = ground arith
count_matches-recorded_holders match_index me iter count j (m ∷ ms) e =
    let found : get_elem? match_index j ≡ some m = get_elem?-drop match_index j m ms e in
    let tail : drop (j + 1) match_index ≡ ms = drop_suc match_index j m ms e in
    ground (
      arith,
      count_matches-recorded_holders match_index me iter count (j + 1) ms tail,
      count_matches-recorded_holders match_index me iter (count + 1) (j + 1) ms tail,
    )

module _ {C B : Type 0} where
  -- For a leader whose table has a place for each peer, the count is the leader and the peers that the
  -- table records as holding the entry.
  pub count_matches_total :
      (rf : Raft C B) (iter : ℕ)
      → length rf.match_index ≡ rf.npeers
      → count_matches rf.match_index rf.me iter 1 0 rf.npeers
        ≡ some (1 + recorded_holders rf.me iter 0 rf.match_index)
  count_matches_total rf iter e =
      rw (← e) (count_matches-recorded_holders rf.match_index rf.me iter 1 0 rf.match_index refl)

  commit_to_total :
      (iter : ℕ) (rf : Raft C B)
      → iter < length rf.logs
      → rf.commit_index ≤ iter
      → (c : Raft C B) × (commit_to iter rf ≡ some c)
        × (c.logs ≡ rf.logs)
        × (c.match_index ≡ rf.match_index)
        × (c.npeers ≡ rf.npeers)
        × (c.me ≡ rf.me)
        × (c.commit_index ≡ iter + 1)
  unfolding commit_to
  commit_to_total iter rf lt le =
      let (msgs, done) =
        deliver_total rf.logs rf.commit_index (iter + 1 - rf.commit_index) (omega arith) in
      (
        record rf { commit_index = iter + 1; applied = rf.applied ++ msgs },
        ground arith,
        refl,
        refl,
        refl,
        refl,
        refl,
      )

  advance_commit_total :
      (iter rounds : ℕ) (rf : Raft C B)
      → length rf.match_index ≡ rf.npeers
      → iter + rounds ≤ length rf.logs
      → rf.commit_index ≤ iter
      → (rf' : Raft C B) × (advance_commit iter rounds rf ≡ some rf')
  unfolding advance_commit
  advance_commit_total iter zero rf table fits le = (rf, refl)
  advance_commit_total iter (suc rounds) rf table fits le =
      let (e, found) = get_elem?-some rf.logs iter (omega arith) in
      let count = count_matches_total rf iter table in
      elim (Bool-cases (ltb e.term rf.current_term)) [
        | inl old ↦
            let (r, done) =
              advance_commit_total (iter + 1) rounds rf table (omega arith) (omega arith) in
            (r, ground (arith, found, done))
        | inr new ↦
            elim (Bool-cases
              (ltb rf.npeers ((1 + recorded_holders rf.me iter 0 rf.match_index) * 2))) [
                | inl many ↦
                    let (c, step, logs, match_index, npeers, me, commit) =
                      commit_to_total iter rf (omega arith) le in
                    let (r, done) =
                      advance_commit_total (iter + 1) rounds c (rw (match_index, npeers) table)
                        (omega (arith, ap (λ (es : List (Entry C)). length es) logs))
                        (omega arith) in
                    (r, ground (arith, found, count, step, done))
                | inr few ↦ (rf, ground (arith, found, count))
              ]
      ]

  -- The commit loop of a leader whose table has a place for each peer does not panic.
  pub update_commit_total :
      (rf : Raft C B)
      → length rf.match_index ≡ rf.npeers
      → (rf' : Raft C B) × (update_commit rf ≡ some rf')
  unfolding update_commit
  update_commit_total rf table = elim (dec_lt rf.commit_index (length rf.logs)) [
    | yes below ↦
        advance_commit_total rf.commit_index (length rf.logs - rf.commit_index) rf table
          (omega arith) (omega arith)
    | no past ↦
        let nothing : length rf.logs - rf.commit_index ≡ 0 = omega arith in
        (rf, rw nothing (unfold advance_commit in refl))
  ]

  -- If the commit loop of a leader whose table has a place for each peer moves the commit index, the last entry that it covers is in
  -- the leader's log, is of the leader's own term or later, and the leader with the other peers that its matchIndex table records as
  -- holding that entry are more than half. Whether those peers still hold it is not said.
  pub update_commit_majority :
      (rf rf' : Raft C B)
      → length rf.match_index ≡ rf.npeers
      → update_commit rf ≡ some rf'
      → (rf'.commit_index ≡ rf.commit_index)
        ⊎ ((k : ℕ) × (e : Entry C) × (rf'.commit_index ≡ suc k)
            × (get_elem? rf.logs k ≡ some e)
            × (rf.current_term ≤ e.term)
            × (rf.npeers < (1 + recorded_holders rf.me k 0 rf.match_index) * 2))
  update_commit_majority rf rf' table h = elim (update_commit-IsAgreed rf rf' h) [
    | inl same ↦ inl same
    | inr (k, moved, agreed) ↦
        let total = count_matches_total rf k table in
        inr (
          k,
          agreed.entry,
          moved,
          agreed.found,
          agreed.own_term,
          ground (arith, agreed.counted, agreed.majority),
        )
  ]
