-- ===== src/Raft/Append.antt =====
-- src/raft/raft.go: the follower's half of replication, `AppendEntries`. A panic is `none`.
pub mod Deliver
pub mod Replicate
use code2go.Prelude.{
  ℕ, zero, suc, ◌+◌, ◌-◌, Bool, true, false, ◌&&◌, Option, none, some, List, [], ◌∷◌, ◌++◌, length,
  take, get_elem?, ltb, leb, ◌==◌, if◌then◌else◌, ◌>>=◌,
}
use code2go.Raft.State.{follower, Entry, ApplyMsg, Gob, Raft, persist}

pub record AppendEntriesArgs (C : Type 0) : Type 0 where
  pub term : ℕ
  pub leader_id : ℕ
  pub prev_log_index : ℕ
  pub prev_log_term : ℕ
  pub entries : List (Entry C)
  pub leader_commit : ℕ

pub record AppendEntriesReply : Type 0 where
  pub term : ℕ
  pub success : Bool
  pub len : ℕ  -- 0 where it is not set

module _ {C : Type 0} where
  -- logs[i]["term"] == term, where `i` was found to be in range
  unfoldable pub has_term : List (Entry C) → ℕ → ℕ → Bool
  has_term logs i term = elim (get_elem? logs i) [ none ↦ false | some e ↦ e.term == term ]

  -- The log holds the entry before the new ones.
  unfoldable pub accepts : AppendEntriesArgs C → List (Entry C) → Bool
  unfolding has_term
  accepts args logs =
      if ltb 0 args.prev_log_index
      then leb args.prev_log_index (length logs)
        && has_term logs (args.prev_log_index - 1) args.prev_log_term
      else true

  unfoldable pub apply_msg : ℕ → Entry C → ApplyMsg C
  apply_msg iter e = record { index = iter + 1; command = e.command }

  -- What the commit loop sends on `applyCh` for the given number of rounds from `iter` on. Reading
  -- past the end of the log is a panic.
  unfoldable pub deliver : List (Entry C) → (iter rounds : ℕ) → Option (List (ApplyMsg C))
  unfolding apply_msg
  deliver logs iter zero = some []
  deliver logs iter (suc rounds) =
      let rest = deliver logs (iter + 1) rounds in
      do e ← get_elem? logs iter; msgs ← rest; some (apply_msg iter e ∷ msgs)

module _ {C B : Type 0} where
  -- The log is cut after the entry before the new ones, and these are put in its place.
  unfoldable pub sync_logs : (now : ℕ) → AppendEntriesArgs C → Raft C B → Option (Raft C B)
  unfolding deliver
  sync_logs now args rf = do
    let logs = take args.prev_log_index rf.logs ++ args.entries
    msgs ← deliver logs rf.commit_index (args.leader_commit - rf.commit_index)
    some (record rf {
      logs = logs;
      applied = rf.applied ++ msgs;
      commit_index = args.leader_commit;
      last_heart = now;
    })

  -- The sender is taken for the leader of its term.
  unfoldable pub follow : AppendEntriesArgs C → Raft C B → Raft C B
  follow args rf = record rf {
    current_term = args.term;
    role = follower;
    voted_for = some args.leader_id;
  }

  unfoldable pub append_entries :
      Gob C B → (now : ℕ) → AppendEntriesArgs C → Raft C B → Option (Raft C B × AppendEntriesReply)
  unfolding sync_logs follow persist
  append_entries g now args rf =
      let behind : AppendEntriesReply = record {
        term = rf.current_term;
        success = false;
        len = 0;
      } in
      let refused : AppendEntriesReply = record {
        term = args.term;
        success = false;
        len = length rf.logs;
      } in
      let taken : AppendEntriesReply = record { term = args.term; success = true; len = 0 } in
      if ltb args.term rf.current_term
      then some (persist g rf, behind)
      else if accepts args rf.logs
      then (do rf' ← sync_logs now args (follow args rf); some (persist g rf', taken))
      else some (persist g (record (follow args rf) { last_heart = now }), refused)
