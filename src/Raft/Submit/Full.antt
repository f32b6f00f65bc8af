-- ===== src/Raft/Submit/Full.antt =====
-- The commit loop of `doSubmit` in src/raft/raft.go where enough peers are recorded as holding the whole log.
use code2go.Prelude.{
  set, length-set, get_elem?-set_self, ◌∙◌, true, ℕ, zero, suc, ◌+◌, ◌-◌, ◌*◌, ◌≤◌, ◌<◌, ◌≡◌, ◌≢◌,
  inl, inr, some, List, [], ◌∷◌, ◌++◌, length, get_elem?, get_elem?-some, ltb, Bool-cases, arith,
}
use code2go.Raft.Append.{AppendEntriesArgs, AppendEntriesReply}
use code2go.Raft.Submit.Sync.{adopt_reply_term_same}
use code2go.Raft.State.{leader, Gob, Entry, ApplyMsg, Raft}
use code2go.Raft.Submit.{
  commit_to, advance_commit, update_commit, after_append, record_match, handle_append_reply, assign,
}
use code2go.Raft.Submit.Majority.{recorded_holders, count_matches_total}
use code2go.Raft.Append.Deliver.{deliver_total}

-- A peer whose place in the table is past `iter` is counted.
pub recorded_holders-one :
    (me iter j : ℕ) (ms : List ℕ) (i m : ℕ)
    → get_elem? ms i ≡ some m
    → iter < m
    → j + i ≢ me
    → 1 ≤ recorded_holders me iter j ms
unfolding recorded_holders
recorded_holders-one me iter j [] i m found past other = ground (arith, found)
recorded_holders-one me iter j (x ∷ ms) zero m found past other = ground (arith, found, past, other)
recorded_holders-one me iter j (x ∷ ms) (suc i) m found past other =
    let rest =
      recorded_holders-one me iter (j + 1) ms i m found past (λ e. other (omega (arith, e))) in
    omega (arith, rest)

module _ {C B : Type 0} where
  -- Every entry is recorded on more than half of the peers.
  abbrev pub AllRecorded : Raft C B → Type 0
  AllRecorded rf =
      (k : ℕ) → k < length rf.logs → rf.npeers < (1 + recorded_holders rf.me k 0 rf.match_index) * 2

  -- The state after one more entry is committed.
  abbrev committed : (iter : ℕ) → List (ApplyMsg C) → Raft C B → Raft C B
  committed iter msgs rf = record rf { commit_index = iter + 1; applied = rf.applied ++ msgs }

  commit_to_inside :
      (iter : ℕ) (rf : Raft C B)
      → iter < length rf.logs
      → rf.commit_index ≤ iter
      → (msgs : List (ApplyMsg C)) × (commit_to iter rf ≡ some (committed iter msgs rf))
  unfolding commit_to
  commit_to_inside iter rf lt le =
      let (msgs, done) =
        deliver_total rf.logs rf.commit_index (iter + 1 - rf.commit_index) (omega arith) in
      (msgs, ground arith)

  -- The loop does not stop before the end of the log, if the last entry is of the leader's term or later.
  advance_commit_all :
      (iter rounds : ℕ) (rf : Raft C B) (last : Entry C)
      → length rf.match_index ≡ rf.npeers
      → AllRecorded rf
      → iter + suc rounds ≡ length rf.logs
      → rf.commit_index ≤ iter
      → get_elem? rf.logs (iter + rounds) ≡ some last
      → rf.current_term ≤ last.term
      → (rf' : Raft C B) × (advance_commit iter (suc rounds) rf ≡ some rf')
        × (rf'.commit_index ≡ length rf.logs)
  unfolding advance_commit
  advance_commit_all iter zero rf last table all end le at own =
      let here : iter + 0 ≡ iter = omega arith in
      let found : get_elem? rf.logs iter ≡ some last = rw (← here) at in
      let count = count_matches_total rf iter table in
      let many = all iter (omega (arith, end)) in
      let (msgs, step) = commit_to_inside iter rf (omega (arith, end)) le in
      (committed iter msgs rf, ground (arith, found, count, step, many, own), omega (arith, end))
  advance_commit_all iter (suc rounds) rf last table all end le at own =
      let (e, found) = get_elem?-some rf.logs iter (omega (arith, end)) in
      let count = count_matches_total rf iter table in
      let many = all iter (omega (arith, end)) in
      let next : iter + suc rounds ≡ iter + 1 + rounds = omega arith in
      let at' : get_elem? rf.logs (iter + 1 + rounds) ≡ some last = rw (← next) at in
      let end' : iter + 1 + suc rounds ≡ length rf.logs = omega (arith, end) in
      elim (Bool-cases (ltb e.term rf.current_term)) [
        | inl old ↦
            let (r, done, moved) =
              advance_commit_all (iter + 1) rounds rf last table all end' (omega (arith, le)) at'
                own in
            (r, ground (arith, found, old, done), moved)
        | inr new ↦
            let (msgs, step) = commit_to_inside iter rf (omega (arith, end)) le in
            let (r, done, moved) =
              advance_commit_all (iter + 1) rounds (committed iter msgs rf) last table all end'
                (omega arith) at' own in
            (r, ground (arith, found, new, count, step, many, done), moved)
      ]

  pub update_commit_all :
      (rf : Raft C B) (n : ℕ) (last : Entry C)
      → length rf.match_index ≡ rf.npeers
      → AllRecorded rf
      → length rf.logs ≡ suc n
      → rf.commit_index ≤ n
      → get_elem? rf.logs n ≡ some last
      → rf.current_term ≤ last.term
      → (rf' : Raft C B) × (update_commit rf ≡ some rf') × (rf'.commit_index ≡ length rf.logs)
  unfolding update_commit
  update_commit_all rf n last table all size le at own =
      let left : length rf.logs - rf.commit_index ≡ suc (n - rf.commit_index) =
        omega (arith, size, le) in
      let end : rf.commit_index + (n - rf.commit_index) ≡ n = omega (arith, le) in
      rw left (
        advance_commit_all rf.commit_index (n - rf.commit_index) rf last table all
          (omega (arith, size, le)) (omega arith) (rw end at) own)

-- In a cluster of at most three, the reply to a request that was taken, and that went up to the end of a log whose last entry
-- is of the leader's term, commits the whole log.
module _ {C B : Type 0} (g : Gob C B) (peer : ℕ) (args : AppendEntriesArgs C)
    (reply : AppendEntriesReply) (rf : Raft C B) (n : ℕ) (last : Entry C) where
  pub record WholeLog : Type 0 where
    pub lead : rf.role ≡ leader
    pub own : args.term ≡ rf.current_term
    pub newer : reply.term ≤ rf.current_term
    pub taken : reply.success ≡ true
    pub table : length rf.match_index ≡ rf.npeers
    pub small : rf.npeers ≤ 3
    pub room : peer < rf.npeers
    pub other : peer ≢ rf.me
    pub size : length rf.logs ≡ suc n
    pub upto : args.prev_log_index + length args.entries ≡ suc n
    pub below : rf.commit_index ≤ n
    pub found : get_elem? rf.logs n ≡ some last
    pub of_term : rf.current_term ≤ last.term

  pub handle_append_reply-commits :
      WholeLog
      → (rf' : Raft C B) × (handle_append_reply g peer args true reply rf ≡ some rf')
        × (rf'.commit_index ≡ suc n)
  unfolding handle_append_reply after_append record_match assign
  handle_append_reply-commits w =
      let upto = args.prev_log_index + length args.entries in
      let noted : Raft C B = record rf { match_index = set rf.match_index peer upto } in
      let room : peer < length rf.match_index = omega (arith, w.room, w.table) in
      let all : AllRecorded noted = λ k lt.
        let one =
          recorded_holders-one rf.me k 0 noted.match_index peer upto
            (get_elem?-set_self rf.match_index peer upto room) (omega (arith, lt, w.upto, w.size))
            (λ e. w.other (omega (arith, e))) in
        omega (arith, one, w.small) in
      let (rf', done, moved) =
        update_commit_all noted n last (length-set rf.match_index peer upto ∙ w.table) all w.size
          w.below w.found w.of_term in
      (
        rf',
        ground (
          arith,
          adopt_reply_term_same g reply.term rf w.newer,
          done,
          room,
          w.lead,
          w.own,
          w.taken,
        ),
        moved ∙ w.size,
      )
