-- ===== src/Labrpc/Replies.antt =====
-- The replies of `ProcessReq` of src/labrpc/labrpc.go.
use code2go.Prelude.{
  ℕ, ◌%◌, ◌<◌, ◌≡◌, ◌≢◌, ◌⊎◌, refl, ap, sym, ◌∙◌, true, false, not, ◌&&◌, Option, none, some, ltb,
  if◌then◌else◌, arith, Option-cases, Bool-cases, inl, inr,
}
use code2go.Labrpc.{
  Network, Draws, Sent, read_endname_info, connected_server, is_server_dead, wait_reply, answer_req,
  no_reply, reach_server, process_req,
}
use code2go.Labrpc.Request.{
  IsUp, alive-IsUp, IsUp-alive, wait_reply-found, wait_reply-first, wait_reply-ends,
  answer_req-some,
}

module _ {R : Type 0} (d : Draws) (start : Network) (e : ℕ) (selects : ℕ → Option R)
    (nets : ℕ → Network) (last : Network) (fuel : ℕ) where
  -- The end is enabled and connected to a server that is there.
  abbrev Reaches : ℕ → ℕ → Type 0
  Reaches n a = (start.connections e ≡ some n) × IsUp e n a start

  info_server :
      (n : ℕ) → start.connections e ≡ some n → (read_endname_info e start).server ≡ start.servers n
  unfolding read_endname_info connected_server
  info_server n to = ap (λ c. connected_server c start) to

  info_to : (read_endname_info e start).servername ≡ start.connections e
  unfolding read_endname_info
  info_to = refl

  info_on : (read_endname_info e start).enabled ≡ start.enabled e
  unfolding read_endname_info
  info_on = refl

  process_req-up :
      (n a : ℕ)
      → Reaches n a
      → process_req d start e selects nets last fuel
        ≡ reach_server d (read_endname_info e start) e n a selects nets last fuel
  unfolding process_req
  process_req-up n a (to, (on, at)) = rw (info_on ∙ on, info_to ∙ to, info_server n to ∙ at) refl

  process_req-cases :
      ((n a : ℕ) × Reaches n a)
      ⊎ ((process_req d start e selects nets last fuel ≡ some (no_reply d last))
          × ((n a : ℕ) → ¬ Reaches n a))
  unfolding process_req
  process_req-cases = elim (Bool-cases (start.enabled e)) [
    | inr off ↦ inr (rw (info_on ∙ off) refl, λ n a (to, (on, at)). ground (arith, off, on))
    | inl on ↦ elim (Option-cases (start.connections e)) [
      | inl unconnected ↦ inr (
        rw (info_on ∙ on, info_to ∙ unconnected) refl,
        λ n a (to, (on, at)). ground (arith, to, unconnected),
      )
      | inr (n, to) ↦ elim (Option-cases (start.servers n)) [
        | inl deleted ↦ inr (
          rw (info_on ∙ on, info_to ∙ to, info_server n to ∙ deleted) refl,
          λ m a (to2, (on2, at)). cc,
        )
        | inr (a, at) ↦ inl (n, a, (to, (on, at)))
      ]
    ]
  ]

  -- With the request not dropped, the answer is that to the wait.
  reach_server-kept :
      (n a : ℕ) (got : Option R)
      → (not start.reliable && ltb (d.drop_request % 1000) 100) ≡ false
      → wait_reply e n a selects nets 0 fuel ≡ some got
      → reach_server d (read_endname_info e start) e n a selects nets last fuel
        ≡ some (
            answer_req d start.reliable start.long_reordering
              (is_server_dead e n a last)
              (if start.reliable then 0 else d.short_delay % 27)
              got)
  unfolding reach_server read_endname_info
  reach_server-kept n a got kept found = ground (arith, kept, found)

  reach_server-some :
      (n a : ℕ) (sent : Sent R) (r : R)
      → reach_server d (read_endname_info e start) e n a selects nets last fuel ≡ some sent
      → sent.reply ≡ some r
      → (wait_reply e n a selects nets 0 fuel ≡ some (some r)) × IsUp e n a last
  unfolding reach_server read_endname_info
  reach_server-some n a sent r h replied =
      elim (Bool-cases (not start.reliable && ltb (d.drop_request % 1000) 100)) [
        | inl dropped ↦ ground (arith, dropped)
        | inr kept ↦ elim (Option-cases (wait_reply e n a selects nets 0 fuel)) [
          | inl out ↦ ground (arith, kept, out)
          | inr (got, found) ↦
              let eq = reach_server-kept n a got kept found in
              let sent_eq =
                ap (λ (o : Option (Sent R)). elim o [ none ↦ sent | some s ↦ s ]) (sym eq ∙ h) in
              let (same, alive) =
                answer_req-some d start.reliable start.long_reordering (is_server_dead e n a last) _
                  got r (ap (λ s. s.reply) sent_eq ∙ replied) in
              (found ∙ ap some same, alive-IsUp e n a last alive)
        ]
      ]

  reach_server-ends :
      (n a : ℕ) (got : Option R)
      → wait_reply e n a selects nets 0 fuel ≡ some got
      → (sent : Sent R) × (reach_server d (read_endname_info e start) e n a selects nets last fuel
          ≡ some sent)
  unfolding reach_server read_endname_info
  reach_server-ends n a got found =
      elim (Bool-cases (not start.reliable && ltb (d.drop_request % 1000) 100)) [
        | inl dropped ↦ (
          record {
            called = false;
            delay = (if start.reliable then 0 else d.short_delay % 27);
            reply = none;
          },
          ground (arith, dropped),
        )
        | inr kept ↦ (_, reach_server-kept n a got kept found)
      ]

  -- A reply is one that the handler gave; the end was enabled and connected to the server at the start, and at the last test it was
  -- enabled and the name stood for the same server: nothing comes from a server that was deleted or replaced by then.
  pub process_req_replies :
      (sent : Sent R) (r : R)
      → process_req d start e selects nets last fuel ≡ some sent
      → sent.reply ≡ some r
      → (n a : ℕ) × (start.connections e ≡ some n)
        × IsUp e n a start
        × IsUp e n a last
        × (k : ℕ) × (selects k ≡ some r)
  unfolding no_reply
  process_req_replies sent r h replied = elim process_req-cases [
    | inl (n, a, reaches) ↦
        let (found, up) =
          reach_server-some n a sent r (sym (process_req-up n a reaches) ∙ h) replied in
        let (k, got) = wait_reply-found e n a selects nets 0 fuel r found in
        (n, a, reaches.0, reaches.1, up, k, got)
    | inr (failed, never) ↦ ground (arith, failed)
  ]

  -- On a network that is reliable and does not reorder, the first reply of the handler arrives at once, if the server is up at the start,
  -- at each test before and at the last one.
  pub process_req_delivers :
      (n a k : ℕ) (r : R)
      → start.reliable ≡ true
      → start.long_reordering ≡ false
      → start.connections e ≡ some n
      → IsUp e n a start
      → selects k ≡ some r
      → ((j : ℕ) → j < k → (selects j ≡ none) × IsUp e n a (nets j))
      → IsUp e n a last
      → k < fuel
      → process_req d start e selects nets last fuel
        ≡ some (record { called = true; delay = 0; reply = some r })
  unfolding reach_server answer_req read_endname_info
  process_req_delivers n a k r reliable ordered to up got before still lt =
      let found =
        wait_reply-first e n a selects nets 0 fuel k r (omega arith) (omega arith) got before in
      process_req-up n a (to, up) ∙ rw (reliable, ordered, found, IsUp-alive e n a last still) refl

  -- ProcessReq ends once a poll that the fuel covers finds a reply, or the server dead.
  pub process_req_ends :
      (k : ℕ)
      → k < fuel
      → (selects k ≢ none)
        ⊎ ((n a : ℕ)
            → start.connections e ≡ some n
            → start.servers n ≡ some a
            → is_server_dead e n a (nets k) ≡ true)
      → (sent : Sent R) × (process_req d start e selects nets last fuel ≡ some sent)
  process_req_ends k lt h = elim process_req-cases [
    | inr (failed, never) ↦ (no_reply d last, failed)
    | inl (n, a, reaches) ↦
        let (got, found) =
          wait_reply-ends e n a selects nets 0 fuel k (omega arith) (omega arith)
            (dead_or n a reaches h) in
        let (sent, eq) = reach_server-ends n a got found in (sent, process_req-up n a reaches ∙ eq)
  ]
    where
      dead_or :
          (n a : ℕ)
          → Reaches n a
          → (selects k ≢ none)
            ⊎ ((n a : ℕ)
                → start.connections e ≡ some n
                → start.servers n ≡ some a
                → is_server_dead e n a (nets k) ≡ true)
          → (selects k ≢ none) ⊎ (is_server_dead e n a (nets k) ≡ true)
      dead_or n a (to, (on, at)) (inl got) = inl got
      dead_or n a (to, (on, at)) (inr dead) = inr (dead n a to at)

  -- An end that is disabled, not connected or connected to no server fails without a call, in less than 7 seconds, and in less
  -- than 100 milliseconds where no long delays are asked for.
  pub process_req_unreachable :
      (¬ ((n a : ℕ) × (start.connections e ≡ some n) × IsUp e n a start))
      → (sent : Sent R) × (process_req d start e selects nets last fuel ≡ some sent)
        × (sent.reply ≡ none)
        × (sent.called ≡ false)
        × (sent.delay < 7000)
        × (last.long_delays ≡ false → sent.delay < 100)
  unfolding no_reply
  process_req_unreachable h = elim process_req-cases [
    | inl (n, a, reaches) ↦ absurd (h (n, a, reaches.0, reaches.1))
    | inr (failed, never) ↦
        (no_reply d last, failed, refl, refl, ground arith, λ short. ground arith)
  ]
