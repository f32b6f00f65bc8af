-- ===== src/Raft/Submit/Request.antt =====
-- The requests that the leader of src/raft/raft.go sends, and when building one panics.
use code2go.Prelude.{
  ℕ, zero, suc, ◌+◌, ◌-◌, ◌≤◌, ◌<◌, ◌≡◌, ◌⊎◌, ◌↔◌, inl, inr, refl, Option, none, some, List, length,
  drop, set, get_elem?, get_elem?-some, get_elem?-none, get_elem?-lt, drop_all, get_elem?-set_self,
  length-drop, arith, Option-cases,
}
use native.Mathlib.Decide.{dec_lt, dec_le}
use code2go.Raft.State.{Entry, Raft}
use code2go.Raft.Append.{AppendEntriesArgs}
use code2go.Raft.Submit.{entries_from, prev_term, make_request}

-- The next index of the peer is there and points into the log or just behind it.
abbrev pub HasNext : {C B : Type 0} → ℕ → Raft C B → Type 0
HasNext peer rf =
    (index : ℕ) × (get_elem? rf.next_index peer ≡ some index)
    × (1 ≤ index)
    × (index ≤ length rf.logs + 1)

module _ {C : Type 0} (logs : List (Entry C)) where
  entries_from-drop : (prev : ℕ) → entries_from logs (suc prev) ≡ some (drop prev logs)
  unfolding entries_from
  entries_from-drop prev = elim (dec_lt prev (length logs)) [
    | yes inside ↦ ground arith
    | no past ↦ rw (drop_all prev logs (omega arith)) (ground arith)
  ]

  prev_term_total : (prev : ℕ) → prev ≤ length logs → (t : ℕ) × (prev_term logs (suc prev) ≡ some t)
  unfolding prev_term
  prev_term_total zero le = (0, refl)
  prev_term_total (suc prev) le =
      let (e, found) = get_elem?-some logs prev (omega arith) in
      let at : suc (suc prev) - 2 ≡ prev = omega arith in (e.term, rw at (rw found (ground arith)))

  -- The term sent is the one of the entry before the new ones.
  pub prev_term_found :
      (prev term : ℕ)
      → prev_term logs (suc prev) ≡ some term
      → (prev ≡ 0)
        ⊎ ((e : Entry C) × (get_elem? logs (prev - 1) ≡ some e) × (e.term ≡ term) × (0 < prev))
  unfolding prev_term
  prev_term_found zero term h = inl refl
  prev_term_found (suc prev) term h = elim (Option-cases (get_elem? logs (suc prev - 1))) [
    | inl none_there ↦ ground arith
    | inr (e, found) ↦ inr (e, found, ground arith, omega arith)
  ]

  prev_term_fault : (prev : ℕ) → length logs < prev → prev_term logs (suc prev) ≡ none
  unfolding prev_term
  prev_term_fault zero lt = absurd (omega arith)
  prev_term_fault (suc prev) lt =
      let at : suc (suc prev) - 2 ≡ prev = omega arith in
      rw at (ground (arith, get_elem?-none logs prev (omega arith)))

module _ {C B : Type 0} (peer : ℕ) (rf : Raft C B) where
  -- The request for a peer whose next index is `prev + 1`.
  abbrev pub request_at : (prev term : ℕ) → AppendEntriesArgs C
  request_at prev term = record {
    term = rf.current_term;
    leader_id = rf.me;
    prev_log_index = prev;
    prev_log_term = term;
    entries = drop prev rf.logs;
    leader_commit = rf.commit_index;
  }

  pub make_request_at :
      (prev term : ℕ)
      → get_elem? rf.next_index peer ≡ some (suc prev)
      → prev ≤ length rf.logs
      → prev_term rf.logs (suc prev) ≡ some term
      → make_request peer rf
        ≡ some (
          request_at prev term,
          record rf { next_index = set rf.next_index peer (length rf.logs + 1) },
        )
  unfolding make_request
  make_request_at prev term found le known =
      let past : suc prev - 1 ≡ prev = omega arith in
      let behind : prev + length (drop prev rf.logs) + 1 ≡ length rf.logs + 1 =
        omega (arith, length-drop prev rf.logs) in
      let room = get_elem?-lt rf.next_index peer found in
      rw found (rw (entries_from-drop rf.logs prev) (rw known (rw past (rw behind (ground arith)))))

  -- Without a proper next index the request cannot be built.
  make_request_fault_none : get_elem? rf.next_index peer ≡ none → make_request peer rf ≡ none
  unfolding make_request
  make_request_fault_none missing = rw missing refl

  make_request_fault_zero : get_elem? rf.next_index peer ≡ some 0 → make_request peer rf ≡ none
  unfolding make_request
  make_request_fault_zero found = rw found (unfold entries_from in refl)

  pub make_request_fault_past :
      (prev : ℕ)
      → get_elem? rf.next_index peer ≡ some (suc prev)
      → length rf.logs < prev
      → make_request peer rf ≡ none
  unfolding make_request
  make_request_fault_past prev found past =
      rw found (rw (entries_from-drop rf.logs prev) (rw (prev_term_fault rf.logs prev past) refl))

  -- Either there is a proper next index, or building the request panics.
  make_request-cases :
      ((prev : ℕ) × (get_elem? rf.next_index peer ≡ some (suc prev)) × (prev ≤ length rf.logs))
      ⊎ (make_request peer rf ≡ none)
  make_request-cases = by_index (get_elem? rf.next_index peer) refl
    where
      by_index :
          (found : Option ℕ)
          → get_elem? rf.next_index peer ≡ found
          → ((prev : ℕ) × (get_elem? rf.next_index peer ≡ some (suc prev))
              × (prev ≤ length rf.logs))
            ⊎ (make_request peer rf ≡ none)
      by_index none e = inr (make_request_fault_none e)
      by_index (some zero) e = inr (make_request_fault_zero e)
      by_index (some (suc prev)) e = elim (dec_le prev (length rf.logs)) [
        | yes le ↦ inl (prev, e, le)
        | no past ↦ inr (make_request_fault_past prev e (omega arith))
      ]

  -- Building the request panics exactly when the peer has no proper next index.
  pub make_request_panics : (make_request peer rf ≡ none) ↔ (¬ HasNext peer rf)
  make_request_panics = (to, from)
    where
      to : make_request peer rf ≡ none → ¬ HasNext peer rf
      to fault (zero, found, pos, le) = absurd (omega arith)
      to fault (suc prev, found, pos, le) =
          let (term, known) = prev_term_total rf.logs prev (omega arith) in
          cc (fault, make_request_at prev term found (omega arith) known)

      from : ¬ HasNext peer rf → make_request peer rf ≡ none
      from improper = elim make_request-cases [
        | inl (prev, found, le) ↦ absurd (improper (suc prev, found, omega arith, omega arith))
        | inr fault ↦ fault
      ]

  -- What is sent is the log from the next index on, with the commit index of the leader, and the
  -- next index then points just behind the log.
  pub make_request_sends :
      {args : AppendEntriesArgs C} {rf' : Raft C B}
      → make_request peer rf ≡ some (args, rf')
      → (args.entries ≡ drop args.prev_log_index rf.logs)
        × (get_elem? rf.next_index peer ≡ some (suc args.prev_log_index))
        × (args.prev_log_index ≤ length rf.logs)
        × (get_elem? rf'.next_index peer ≡ some (length rf.logs + 1))
        × (args.leader_commit ≡ rf.commit_index)
        × (args.term ≡ rf.current_term)
        × (prev_term rf.logs (suc args.prev_log_index) ≡ some args.prev_log_term)
  make_request_sends {args} {rf'} h = elim make_request-cases [
    | inl (prev, found, le) ↦
        let (term, known) = prev_term_total rf.logs prev le in
        let sent = make_request_at prev term found le known in
        let room =
          get_elem?-set_self rf.next_index peer (length rf.logs + 1)
            (get_elem?-lt rf.next_index peer found) in
        (
          ground arith,
          ground arith,
          ground arith,
          ground arith,
          ground arith,
          ground arith,
          ground (arith, known),
        )
    | inr fault ↦ cc
  ]
