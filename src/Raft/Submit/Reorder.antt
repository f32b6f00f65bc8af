-- ===== src/Raft/Submit/Reorder.antt =====
-- A request of `doSubmit` in src/raft/raft.go that arrives after a later one of the same leader.
use code2go.Prelude.{
  ℕ, ◌+◌, ◌≤◌, ◌<◌, ◌≡◌, ◌≢◌, refl, true, some, List, [], ◌∷◌, ◌++◌, length, take, take_within,
  take-length, get_elem?, get_elem?-append_end, length-append, length-drop, ap, sym, ◌∙◌, arith,
}
use code2go.Raft.State.{leader, Entry, Gob, Raft, start}
use code2go.Raft.Append.{AppendEntriesArgs, AppendEntriesReply, append_entries}
use code2go.Raft.Append.Replicate.{append_entries-term}
use code2go.Raft.Submit.{make_request, handle_append_reply}
use code2go.Raft.Submit.Request.{make_request_sends}
use code2go.Raft.Submit.Full.{WholeLog, handle_append_reply-commits}
use code2go.Raft.Submit.Sync.{append_entries-make_request}

-- What building a request leaves alone.
record SameLeader {C B : Type 0} (a b : Raft C B) : Type 0 where
  npeers : b.npeers ≡ a.npeers
  me : b.me ≡ a.me
  role : b.role ≡ a.role
  term : b.current_term ≡ a.current_term
  logs : b.logs ≡ a.logs
  commit_index : b.commit_index ≡ a.commit_index
  match_index : b.match_index ≡ a.match_index

module _ {C B : Type 0} where
  make_request-SameLeader :
      (peer : ℕ) (a b : Raft C B) (args : AppendEntriesArgs C)
      → make_request peer a ≡ some (args, b)
      → SameLeader a b
  unfolding make_request
  make_request-SameLeader peer a b args h = ground arith

  -- On a leader, `Start` adds an entry of its term at the end of the log.
  start_leader :
      (g : Gob C B) (command : C) (a : Raft C B)
      → a.role ≡ leader
      → (e : Entry C) × (e.term ≡ a.current_term)
        × SameLeader (record a { logs = a.logs ++ e ∷ [] }) (start g command a).0
        × ((start g command a).0.next_index ≡ a.next_index)
  unfolding start
  start_leader g command a lead =
      (record { command = command; term = a.current_term }, refl, ground arith, ground arith)

-- The state `s` after the command, and the request for a peer that was built in it, against the leader `l` before the first request.
record Next {C B : Type 0} (l s l2 : Raft C B) (second : AppendEntriesArgs C) : Type 0 where
  e : Entry C
  own : e.term ≡ l.current_term
  found : get_elem? s.logs (length l.logs) ≡ some e
  grown : s.logs ≡ l.logs ++ e ∷ []
  long : length s.logs ≡ length l.logs + 1
  before : SameLeader (record l { logs = s.logs }) s
  after : SameLeader s l2
  sent_term : second.term ≡ s.current_term
  place : second.prev_log_index ≡ length l.logs
  upto : second.prev_log_index + length second.entries ≡ length l.logs + 1

make_request-Next :
    {C B : Type 0} (g : Gob C B) (peer : ℕ) (command : C) (l l1 l2 : Raft C B)
    (first second : AppendEntriesArgs C)
    → l.role ≡ leader
    → make_request peer l ≡ some (first, l1)
    → make_request peer (start g command l1).0 ≡ some (second, l2)
    → Next l (start g command l1).0 l2 second
make_request-Next {C} g peer command l l1 l2 first second lead h1 h2 =
    let same1 = make_request-SameLeader peer l l1 first h1 in
    let (_, _, _, next1, _, _, _) = make_request_sends peer l h1 in
    let (e, own, same2, next2) = start_leader g command l1 (same1.role ∙ lead) in
    let (sent, next3, _, _, _, sent_term, _) = make_request_sends peer (start g command l1).0 h2 in
    let grown : (start g command l1).0.logs ≡ l.logs ++ e ∷ [] =
      same2.logs ∙ ap (λ (es : List (Entry C)). es ++ e ∷ []) same1.logs in
    let place : second.prev_log_index ≡ length l.logs = ground (arith, next1, next2, next3) in
    let long : length (start g command l1).0.logs ≡ length l.logs + 1 =
      ap (λ (es : List (Entry C)). length es) grown ∙ length-append l.logs (e ∷ []) in
    record {
      e = e;
      own = own ∙ same1.term;
      found =
          ap (λ (es : List (Entry C)). get_elem? es (length l.logs)) grown
          ∙ get_elem?-append_end l.logs e;
      grown = grown;
      long = long;
      before = ground (arith, same1, same2);
      after = make_request-SameLeader peer (start g command l1).0 l2 second h2;
      sent_term = sent_term;
      place = place;
      upto = omega (
        arith,
        place,
        long,
        ap (λ (es : List (Entry C)). length es) sent,
        length-drop second.prev_log_index (start g command l1).0.logs,
      );
    }

module _ {C B : Type 0} (g : Gob C B) (now later peer : ℕ) (command : C) (l f : Raft C B) where
  -- A leader builds a request for another peer, then takes a command by `Start`, and builds the next request. The cluster has
  -- at most three peers; the leader's commit index lies within its log, and its table has a place for each peer. The follower is not in
  -- a later term and holds the log that the leader had before the command. If the second request arrives first, both are
  -- reported as taken. With the reply to the second the leader commits the new entry, but the first request has cut that entry
  -- off: the follower's log is the one from before the command. Nothing panics.
  pub append_entries-reordered :
      {first second : AppendEntriesArgs C} {l1 l2 : Raft C B}
      → l.role ≡ leader
      → l.commit_index ≤ length l.logs
      → length l.match_index ≡ l.npeers
      → l.npeers ≤ 3
      → peer < l.npeers
      → peer ≢ l.me
      → f.current_term ≤ l.current_term
      → take (length l.logs) f.logs ≡ l.logs
      → make_request peer l ≡ some (first, l1)
      → make_request peer (start g command l1).0 ≡ some (second, l2)
      → (f1 : Raft C B) × (f2 : Raft C B) × (l3 : Raft C B) × (reply : AppendEntriesReply)
        × (reply' : AppendEntriesReply) × (append_entries g now second f ≡ some (f1, reply))
        × (append_entries g later first f1 ≡ some (f2, reply'))
        × (reply'.success ≡ true)
        × (handle_append_reply g peer second true reply l2 ≡ some l3)
        × (l3.commit_index ≡ length l.logs + 1)
        × (f2.logs ≡ l.logs)
  append_entries-reordered {first} {second} {l1} {l2} lead committed table small room other newer
        holds h1 h2 =
      let n = make_request-Next g peer command l l1 l2 first second lead h1 h2 in
      let (_, _, inside, _, _, sent_term, _) = make_request_sends peer l h1 in
      let (f1, reply, took, success, logs1, _) =
        append_entries-make_request g now peer (start g command l1).0 f h2
          (omega (arith, n.long, n.before.commit_index)) (omega (arith, n.before.term))
          (rw (n.place, n.grown)
            (holds ∙ sym (within n.e (length l.logs) (omega arith) ∙ take-length l.logs))) in
      let (term1, reply_term) = append_entries-term g now second f took in
      let (f2, reply', took', success', logs2, _) =
        append_entries-make_request g later peer l f1 h1 committed
          (omega (arith, n.sent_term, n.before.term))
          (ap (λ (es : List (Entry C)). take first.prev_log_index es) (logs1 ∙ n.grown)
            ∙ within n.e first.prev_log_index inside) in
      let (l3, handled, moved) =
        handle_append_reply-commits g peer second reply l2 (length l.logs) n.e
          (whole n reply success (omega (arith, reply_term, term1, n.sent_term, n.before.term))) in
      (f1, f2, l3, reply, reply', took, took', success', handled, moved ∙ omega arith, logs2)
    where
      within : (e : Entry C) (k : ℕ) → k ≤ length l.logs → take k (l.logs ++ e ∷ []) ≡ take k l.logs
      within e k h = take_within k l.logs (e ∷ []) h

      whole :
          (n : Next l (start g command l1).0 l2 second) (reply : AppendEntriesReply)
          → reply.success ≡ true
          → reply.term ≤ l.current_term
          → WholeLog g peer second reply l2 (length l.logs) n.e
      whole n reply success term = record {
        lead = n.after.role ∙ n.before.role ∙ lead;
        own = n.sent_term ∙ sym n.after.term;
        newer = omega (arith, term, n.after.term, n.before.term);
        taken = success;
        table =
            ap (λ (xs : List ℕ). length xs) (n.after.match_index ∙ n.before.match_index)
            ∙ table
            ∙ sym (n.after.npeers ∙ n.before.npeers);
        small = omega (arith, small, n.after.npeers, n.before.npeers);
        room = omega (arith, room, n.after.npeers, n.before.npeers);
        other = λ e. other (e ∙ n.after.me ∙ n.before.me);
        size = ap (λ (es : List (Entry C)). length es) n.after.logs ∙ n.long ∙ omega arith;
        upto = n.upto ∙ omega arith;
        below = omega (arith, committed, n.after.commit_index, n.before.commit_index);
        found = ap (λ (es : List (Entry C)). get_elem? es (length l.logs)) n.after.logs ∙ n.found;
        of_term = omega (arith, n.own, n.after.term, n.before.term);
      }
