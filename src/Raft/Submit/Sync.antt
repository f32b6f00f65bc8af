-- ===== src/Raft/Submit/Sync.antt =====
-- Leader and follower of src/raft/raft.go together: one request, its handling, and the retry after a
-- refusal.
use code2go.Prelude.{
  ℕ, suc, ◌+◌, ◌-◌, ◌≤◌, ◌<◌, ◌≡◌, inl, inr, refl, true, false, none, some, List, length, take, set,
  get_elem?, get_elem?-set_self, length-set, length-drop, length-append, length-take,
  take-append-drop, arith, ltb, Bool-cases, get_elem?-take, ap, sym, ◌∙◌, Option-cases,
}
use code2go.Raft.State.{leader, Entry, Gob, Raft}
use code2go.Raft.Vote.{adopt_reply_term}
use code2go.Raft.Append.{AppendEntriesArgs, AppendEntriesReply, append_entries}
use code2go.Raft.Append.Replicate.{
  append_entries-success, logs-append_entries, append_entries_panics, Matches,
}
use code2go.Raft.Submit.{make_request, back_up, after_append, handle_append_reply, prev_term}
use code2go.Raft.Submit.Request.{
  make_request_fault_past, prev_term_found, make_request_sends, make_request_at,
}

module _ {C B : Type 0} (g : Gob C B) (now peer : ℕ) (l f : Raft C B) where
  -- A leader whose commit index lies in its log sends a request to a follower that is not in a later term, whose
  -- log agrees with the leader's up to the place of the request. The handler does not panic,
  -- reports success, and the two logs and commit indices are then the same.
  pub append_entries-make_request :
      {args : AppendEntriesArgs C} {l' : Raft C B}
      → make_request peer l ≡ some (args, l')
      → l.commit_index ≤ length l.logs
      → f.current_term ≤ l.current_term
      → take args.prev_log_index f.logs ≡ take args.prev_log_index l.logs
      → (f' : Raft C B) × (reply : AppendEntriesReply) × (append_entries g now args f
          ≡ some (f', reply))
        × (reply.success ≡ true)
        × (f'.logs ≡ l.logs)
        × (f'.commit_index ≡ l.commit_index)
  append_entries-make_request {args} {l'} h committed newer same =
      elim (Option-cases (append_entries g now args f)) [
        | inl fault ↦
            let (_, _, more, past) = (append_entries_panics g now args f).0 fault in
            absurd (
              omega (
                arith,
                length-drop args.prev_log_index l.logs,
                ap (λ (es : List (Entry C)). length es) entries,
                sent_commit,
                inside,
              ))
        | inr ((f', reply), done) ↦
            let success =
              (append_entries-success g now args f done).1 (omega (arith, sent_term), matching) in
            let (logs, commit, _, _) = logs-append_entries g now args f done success in
            (
              f',
              reply,
              done,
              success,
              logs ∙ (rw (same, entries) (take-append-drop args.prev_log_index l.logs)),
              commit ∙ sent_commit,
            )
      ]
    where
      open (make_request_sends peer l h) use {
        0 as entries, 2 as inside, 4 as sent_commit, 5 as sent_term, 6 as known,
      }

      matching : Matches args f.logs
      matching = elim (prev_term_found l.logs args.prev_log_index args.prev_log_term known) [
        | inl start ↦ inl start
        | inr (e, found, term, pos) ↦ inr (
          e,
          sym (get_elem?-take args.prev_log_index f.logs (args.prev_log_index - 1) (omega arith))
              ∙ ap (λ (es : List (Entry C)). get_elem? es (args.prev_log_index - 1)) same
              ∙ get_elem?-take args.prev_log_index l.logs (args.prev_log_index - 1) (omega arith)
              ∙ found,
          term,
          pos,
        )
      ]

-- The last of the three assignments stays.
back_up_total :
    {C B : Type 0} (server prev len : ℕ) (rf : Raft C B)
    → server < length rf.next_index
    → (next : List ℕ) × (back_up server prev len rf ≡ some (record rf { next_index = next }))
      × (get_elem? next server ≡ some 1)
unfolding back_up
back_up_total server prev len rf room = elim (Bool-cases (ltb len prev)) [
  | inl short ↦
      let first = set rf.next_index server prev in
      let second = set first server (len + 1) in
      let l1 = length-set rf.next_index server prev in
      let l2 = length-set first server (len + 1) in
      (set second server 1, ground arith, get_elem?-set_self second server 1 (omega arith))
  | inr long ↦
      let first = set rf.next_index server prev in
      let l1 = length-set rf.next_index server prev in
      (set first server 1, ground arith, get_elem?-set_self first server 1 (omega arith))
]

pub adopt_reply_term_same :
    {C B : Type 0} (g : Gob C B) (term : ℕ) (rf : Raft C B)
    → term ≤ rf.current_term
    → adopt_reply_term g term rf ≡ rf
unfolding adopt_reply_term
adopt_reply_term_same g term rf h = ground arith

module _ {C B : Type 0} (g : Gob C B) (peer : ℕ) (args : AppendEntriesArgs C)
    (reply : AppendEntriesReply) (rf : Raft C B) where
  -- After a refusal by a follower that is not in a later term, a leader starts again from the first entry: the next
  -- request for that follower carries the whole log and no previous entry.
  pub make_request-handle_append_reply :
      rf.role ≡ leader
      → reply.term ≤ rf.current_term
      → reply.success ≡ false
      → peer < length rf.next_index
      → (rf' : Raft C B) × (handle_append_reply g peer args true reply rf ≡ some rf')
        × (again : AppendEntriesArgs C) × (rf'' : Raft C B) × (make_request peer rf'
            ≡ some (again, rf''))
        × (again.prev_log_index ≡ 0)
        × (again.entries ≡ rf.logs)
  unfolding handle_append_reply after_append
  make_request-handle_append_reply lead newer refused room =
      let (next, backed, one) = back_up_total peer args.prev_log_index reply.len rf room in
      let again =
        make_request_at peer (record rf { next_index = next }) 0 0 one (omega arith)
          (unfold prev_term in refl) in
      (
        record rf { next_index = next },
        ground (arith, adopt_reply_term_same g reply.term rf newer),
        _,
        _,
        again,
        refl,
        refl,
      )

-- The goroutine of `doSubmit` does not look at the role when it takes the lock. If the peer was made
-- a follower in between, by a request that left its log shorter than the place of the next index,
-- the goroutine panics.
module _ {C B : Type 0} (g : Gob C B) (now peer : ℕ) (args : AppendEntriesArgs C)
    (rf : Raft C B) where
  next_index-append_entries :
      {rf' : Raft C B} {reply : AppendEntriesReply}
      → append_entries g now args rf ≡ some (rf', reply)
      → rf'.next_index ≡ rf.next_index
  unfolding append_entries
  next_index-append_entries h = ground arith

  pub make_request-append_entries :
      (prev : ℕ) {rf' : Raft C B} {reply : AppendEntriesReply}
      → get_elem? rf.next_index peer ≡ some (suc prev)
      → append_entries g now args rf ≡ some (rf', reply)
      → reply.success ≡ true
      → args.prev_log_index + length args.entries < prev
      → make_request peer rf' ≡ none
  make_request-append_entries prev {rf'} found done success short =
      let (logs, _, _, _) = logs-append_entries g now args rf done success in
      make_request_fault_past peer rf' prev (rw (next_index-append_entries done) found) (
        omega (
          arith,
          ap (λ (es : List (Entry C)). length es) logs,
          length-append (take args.prev_log_index rf.logs) args.entries,
          length-take args.prev_log_index rf.logs,
        ))
