-- ===== src/Raft/Submit.antt =====
-- src/raft/raft.go: the leader's half of replication, `doSubmit` and `sendAppendEntries`. A panic is
-- `none`. Each goroutine of `doSubmit` takes the lock twice: `make_request` is what it does before
-- the call, `handle_append_reply` what it does with the answer.
pub mod Rule
pub mod Majority
pub mod Stable
pub mod Sync
pub mod Reorder
pub mod Full
pub mod Request
pub mod Commit
use code2go.Prelude.{
  ℕ, zero, suc, ◌+◌, ◌-◌, ◌*◌, Bool, true, false, not, ◌&&◌, Option, none, some, List, [], ◌∷◌,
  ◌++◌, length, drop, get_elem?, set, ltb, leb, ◌==◌, if◌then◌else◌, ◌>>=◌,
}
use code2go.Raft.State.{is_leader, Entry, Gob, Raft}
use code2go.Raft.Vote.{adopt_reply_term}
use code2go.Raft.Append.{AppendEntriesArgs, AppendEntriesReply, deliver}

-- xs[i] = v
unfoldable pub assign : List ℕ → (i v : ℕ) → Option (List ℕ)
assign xs i v = if ltb i (length xs) then some (set xs i v) else none

-- logs[index-1:], taken where len(logs) >= index
unfoldable pub entries_from : {C : Type 0} → List (Entry C) → (index : ℕ) → Option (List (Entry C))
entries_from logs zero = none
entries_from logs (suc prev) =
    if leb (suc prev) (length logs) then some (drop prev logs) else some []

-- logs[index-2]["term"] if index > 1, else 0
unfoldable pub prev_term : {C : Type 0} → List (Entry C) → (index : ℕ) → Option ℕ
prev_term logs index =
    if ltb 1 index then (do e ← get_elem? logs (index - 2); some e.term) else some 0

-- The peers but `me`, from `peer` on.
unfoldable pub others : (me peer left : ℕ) → List ℕ
others me peer zero = []
others me peer (suc left) =
    let rest = others me (peer + 1) left in if peer == me then rest else peer ∷ rest

-- One more than the number of peers but `me`, from `j` on, that are known to hold the entry at `iter`.
unfoldable pub count_matches : (match_index : List ℕ) → (me iter count j left : ℕ) → Option ℕ
count_matches match_index me iter count j zero = some count
count_matches match_index me iter count j (suc left) =
    let rest = λ (c : ℕ). count_matches match_index me iter c (j + 1) left in
    if j == me
    then rest count
    else (do m ← get_elem? match_index j; rest (if ltb iter m then count + 1 else count))

module _ {C B : Type 0} where
  unfoldable pub make_request : (peer : ℕ) → Raft C B → Option (AppendEntriesArgs C × Raft C B)
  unfolding entries_from prev_term assign
  make_request peer rf = do
    index ← get_elem? rf.next_index peer
    entries ← entries_from rf.logs index
    term ← prev_term rf.logs index
    next_index ← assign rf.next_index peer (index - 1 + length entries + 1)
    some (
      record {
        term = rf.current_term;
        leader_id = rf.me;
        prev_log_index = index - 1;
        prev_log_term = term;
        entries = entries;
        leader_commit = rf.commit_index;
      },
      record rf { next_index = next_index },
    )

  -- A refused request: three assignments, of which the last one stays.
  unfoldable pub back_up : (server prev len : ℕ) → Raft C B → Option (Raft C B)
  unfolding assign
  back_up server prev len rf = do
    next ← assign rf.next_index server prev
    next' ← (if ltb len prev then assign next server (len + 1) else some next)
    next'' ← assign next' server 1
    some (record rf { next_index = next'' })

  -- The rest of `sendAppendEntries` after the call.
  unfoldable pub after_append :
      Gob C B
      → (server : ℕ) → AppendEntriesArgs C
      → (ok : Bool) → AppendEntriesReply
      → Raft C B
      → Option (Raft C B)
  unfolding adopt_reply_term back_up is_leader
  after_append g server args ok reply rf =
      let rf' = adopt_reply_term g reply.term rf in
      if ok
      then (if is_leader rf'.role && not reply.success
          then back_up server args.prev_log_index reply.len rf'
          else some rf')
      else some rf

  -- for i:=rf.commitIndex; i<=iter; i++
  unfoldable pub commit_to : (iter : ℕ) → Raft C B → Option (Raft C B)
  unfolding deliver
  commit_to iter rf = do
    msgs ← deliver rf.logs rf.commit_index (iter + 1 - rf.commit_index)
    some (record rf {
      commit_index = (if leb rf.commit_index iter then iter + 1 else rf.commit_index);
      applied = rf.applied ++ msgs;
    })

  -- for iter:=rf.commitIndex; iter<len(rf.logs); iter++
  unfoldable pub advance_commit : (iter rounds : ℕ) → Raft C B → Option (Raft C B)
  unfolding count_matches commit_to
  advance_commit iter zero rf = some rf
  advance_commit iter (suc rounds) rf =
      let rest = λ (rf' : Raft C B). advance_commit (iter + 1) rounds rf' in
      do
        e ← get_elem? rf.logs iter
        if ltb e.term rf.current_term then rest rf else do
          count ← count_matches rf.match_index rf.me iter 1 0 rf.npeers
          if ltb rf.npeers (count * 2) then (do rf' ← commit_to iter rf; rest rf') else some rf

  unfoldable pub update_commit : Raft C B → Option (Raft C B)
  unfolding advance_commit
  update_commit rf = advance_commit rf.commit_index (length rf.logs - rf.commit_index) rf

  -- A success: the peer is known to hold the log up to the given index.
  unfoldable pub record_match : (peer upto : ℕ) → Raft C B → Option (Raft C B)
  unfolding assign update_commit
  record_match peer upto rf = do
    match_index ← assign rf.match_index peer upto
    update_commit (record rf { match_index = match_index })

  unfoldable pub handle_append_reply :
      Gob C B
      → (peer : ℕ) → AppendEntriesArgs C
      → (ok : Bool) → AppendEntriesReply
      → Raft C B
      → Option (Raft C B)
  unfolding is_leader
  handle_append_reply g peer args ok reply rf = do
    rf' ← after_append g peer args ok reply rf
    if ok && reply.success && args.term == rf'.current_term && is_leader rf'.role
        then record_match peer (args.prev_log_index + length args.entries) rf'
        else some rf'

  -- The counter lets one `doSubmit` run at a time.
  unfoldable pub enter_submit : Raft C B → Raft C B × Bool
  enter_submit rf =
      if ltb 1 (rf.counter + 1) then (rf, false) else (record rf { counter = rf.counter + 1 }, true)

  -- One tick of the heart beat: the peers to contact, or `none` where the loop ends.
  unfoldable pub heart_beat : Raft C B → Raft C B × Option (List ℕ)
  unfolding is_leader others
  heart_beat rf =
      if rf.running && is_leader rf.role
      then (rf, some (others rf.me 0 rf.npeers))
      else (record rf { counter = rf.counter - 1 }, none)
