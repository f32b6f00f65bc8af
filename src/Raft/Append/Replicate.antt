-- ===== src/Raft/Append/Replicate.antt =====
-- What `AppendEntries` of src/raft/raft.go does to a follower, on every branch.
use code2go.Prelude.{
  ℕ, ◌+◌, ◌-◌, ◌≤◌, ◌<◌, ◌≡◌, ◌↔◌, ◌⊎◌, inl, inr, true, false, Option, none, some, List, ◌++◌,
  length, take, get_elem?, get_elem?-lt, length-append, length-take, max, arith, Option-cases,
  Bool-cases, ltb, ltb→lt,
}
use native.Mathlib.Decide.{dec_lt}
use code2go.Raft.State.{Entry, ApplyMsg, Gob, Raft}
use code2go.Raft.Append.{AppendEntriesArgs, AppendEntriesReply, accepts, deliver, append_entries}
use code2go.Raft.Append.Deliver.{deliver_total, deliver_none, deliver_fault}

-- The follower's log has, at the place before the new entries, an entry of the given term.
abbrev pub Matches : {C : Type 0} → AppendEntriesArgs C → List (Entry C) → Type 0
Matches {C} args logs =
    (args.prev_log_index ≡ 0)
    ⊎ ((e : Entry C) × (get_elem? logs (args.prev_log_index - 1) ≡ some e)
        × (e.term ≡ args.prev_log_term)
        × (0 < args.prev_log_index))

module _ {C : Type 0} (args : AppendEntriesArgs C) (logs : List (Entry C)) where
  pub accepts-Matches : (accepts args logs ≡ true) ↔ Matches args logs
  unfolding accepts
  accepts-Matches = (to, from)
    where
      to : accepts args logs ≡ true → Matches args logs
      to h = elim (Bool-cases (ltb 0 args.prev_log_index)) [
        | inl pos ↦ elim (Option-cases (get_elem? logs (args.prev_log_index - 1))) [
          | inl none_there ↦ ground arith
          | inr (e, found) ↦ inr (e, found, ground arith, ltb→lt _ _ pos)
        ]
        | inr start ↦ inl (ground arith)
      ]

      from : Matches args logs → accepts args logs ≡ true
      from (inl start) = ground arith
      from (inr (e, found, same, pos)) =
          ground (arith, get_elem?-lt logs (args.prev_log_index - 1) found)

  pub accepts-le : accepts args logs ≡ true → args.prev_log_index ≤ length logs
  unfolding accepts
  accepts-le h = ground arith

module _ {C B : Type 0} (g : Gob C B) (now : ℕ) (args : AppendEntriesArgs C) (rf : Raft C B) where
  -- A request of an old term is refused, and nothing of the peer but the persister changes.
  pub append_entries-old_term :
      {rf' : Raft C B} {reply : AppendEntriesReply}
      → args.term < rf.current_term
      → append_entries g now args rf ≡ some (rf', reply)
      → (reply.success ≡ false)
        × (reply.term ≡ rf.current_term)
        × (record rf' { persister = rf.persister } ≡ rf)
  unfolding append_entries
  append_entries-old_term lt h = (ground arith, ground arith, ground arith)

  -- The request succeeds exactly when its term is not old and the follower's log matches.
  pub append_entries-success :
      {rf' : Raft C B} {reply : AppendEntriesReply}
      → append_entries g now args rf ≡ some (rf', reply)
      → (reply.success ≡ true) ↔ ((rf.current_term ≤ args.term) × Matches args rf.logs)
  unfolding append_entries
  append_entries-success h = (
    λ s. (ground arith, (accepts-Matches args rf.logs).0 (ground arith)),
    λ k. ground (arith, (accepts-Matches args rf.logs).1 k.1),
  )

  -- After a success the log is the old one up to the place of the request, then the new entries, and
  -- nothing else.
  pub logs-append_entries :
      {rf' : Raft C B} {reply : AppendEntriesReply}
      → append_entries g now args rf ≡ some (rf', reply)
      → reply.success ≡ true
      → (rf'.logs ≡ take args.prev_log_index rf.logs ++ args.entries)
        × (rf'.commit_index ≡ args.leader_commit)
        × (rf'.voted_for ≡ some args.leader_id)
        × (rf'.current_term ≡ args.term)
  unfolding append_entries
  logs-append_entries h s = (ground arith, ground arith, ground arith, ground arith)

  -- A refused request changes neither log nor commit index.
  pub append_entries-refused :
      {rf' : Raft C B} {reply : AppendEntriesReply}
      → append_entries g now args rf ≡ some (rf', reply)
      → reply.success ≡ false
      → (rf'.logs ≡ rf.logs) × (rf'.commit_index ≡ rf.commit_index) × (rf'.applied ≡ rf.applied)
  unfolding append_entries
  append_entries-refused h s = (ground arith, ground arith, ground arith)

  pub append_entries-term :
      {rf' : Raft C B} {reply : AppendEntriesReply}
      → append_entries g now args rf ≡ some (rf', reply)
      → (rf'.current_term ≡ max rf.current_term args.term) × (reply.term ≡ rf'.current_term)
  unfolding append_entries
  append_entries-term h = (ground arith, ground arith)

  abbrev new_logs : List (Entry C)
  new_logs = take args.prev_log_index rf.logs ++ args.entries

  -- The commit loop of this request.
  abbrev run : Option (List (ApplyMsg C))
  run = deliver new_logs rf.commit_index (args.leader_commit - rf.commit_index)

  length_synced :
      accepts args rf.logs ≡ true → length new_logs ≡ args.prev_log_index + length args.entries
  length_synced h = omega (
    arith,
    length-append (take args.prev_log_index rf.logs) args.entries,
    length-take args.prev_log_index rf.logs,
    accepts-le args rf.logs h,
  )

  -- A success sends the messages from the old commit index up to the one of the leader.
  pub applied-append_entries :
      {rf' : Raft C B} {reply : AppendEntriesReply}
      → append_entries g now args rf ≡ some (rf', reply)
      → reply.success ≡ true
      → (msgs : List (ApplyMsg C)) × (deliver rf'.logs rf.commit_index
            (args.leader_commit - rf.commit_index)
          ≡ some msgs)
        × (rf'.applied ≡ rf.applied ++ msgs)
  unfolding append_entries
  applied-append_entries h s = elim (Option-cases run) [
    | inl fault ↦ ground arith
    | inr (msgs, done) ↦ (msgs, ground arith, ground arith)
  ]

  -- The handler panics exactly when it takes the entries and the leader's commit index is past both
  -- the follower's and the end of the new log.
  pub append_entries_panics : (append_entries g now args rf ≡ none) ↔ (
      (rf.current_term ≤ args.term)
      × Matches args rf.logs
      × (rf.commit_index < args.leader_commit)
      × (args.prev_log_index + length args.entries < args.leader_commit))
  unfolding append_entries
  append_entries_panics = (to, from)
    where
      to :
          append_entries g now args rf ≡ none
          → (rf.current_term ≤ args.term)
            × Matches args rf.logs
            × (rf.commit_index < args.leader_commit)
            × (args.prev_log_index + length args.entries < args.leader_commit)
      to h =
          let taken : accepts args rf.logs ≡ true = ground arith in
          elim (dec_lt rf.commit_index args.leader_commit) [
            | yes more ↦
                elim (dec_lt (args.prev_log_index + length args.entries) args.leader_commit) [
                  | yes past ↦ (ground arith, (accepts-Matches args rf.logs).0 taken, more, past)
                  | no fits ↦
                      let (msgs, done) =
                        deliver_total new_logs rf.commit_index
                          (args.leader_commit - rf.commit_index)
                          (omega (arith, length_synced taken)) in
                      ground arith
                ]
            | no less ↦
                let (msgs, done) =
                  deliver_none new_logs rf.commit_index (args.leader_commit - rf.commit_index)
                    (omega arith) in
                ground arith
          ]

      from :
          (rf.current_term ≤ args.term)
            × Matches args rf.logs
            × (rf.commit_index < args.leader_commit)
            × (args.prev_log_index + length args.entries < args.leader_commit)
          → append_entries g now args rf ≡ none
      from (new, m, more, past) =
          let taken = (accepts-Matches args rf.logs).1 m in
          ground (
            arith,
            taken,
            deliver_fault new_logs rf.commit_index (args.leader_commit - rf.commit_index)
                (omega arith) (omega (arith, length_synced taken)),
          )
