-- ===== src/Accept/Counts.antt =====
-- The counters of the servers that take connections.
use code2go.Prelude.{
  ℕ, suc, ◌+◌, ◌%◌, ◌^◌, ◌<◌, ◌≡◌, inl, inr, refl, ◌∙◌, Bool, not, ◌&&◌, List, [], ◌∷◌,
  if◌then◌else◌, arith, ap, Bool-cases,
}
use code2go.Accept.{
  Outcome, Action, kills, sets_unreliable, Host, Turn, take_connection, is_processed, acts, round,
  accept_loop,
}
use code2go.Accept.Loop.{loop_dead, loop_nil, loop_alive}

-- How many requests reach a handler.
unfoldable pub processed : List Outcome → ℕ
processed [] = 0
processed (o ∷ more) = if is_processed o then suc (processed more) else processed more

-- A 32-bit counter that nothing but `count_rpc` moves.
pub record IsCounter {S : Type 0} (h : Host S) (counter : S → ℕ) : Type 0 where
  pub counts : (s : S) → counter (h.count_rpc s) ≡ (counter s + 1) % 2 ^ 32
  pub kill_keeps : (s : S) → counter (h.kill s) ≡ counter s
  pub set_keeps : (what : Bool) (s : S) → counter (h.set_unreliable what s) ≡ counter s
  pub error_keeps : (s : S) → counter (h.on_error s) ≡ counter s

module _ {S : Type 0} (h : Host S) (counter : S → ℕ) (ok : IsCounter h counter) where
  acts_keep : (l : List Action) (s : S) → counter (acts h l s) ≡ counter s
  unfolding acts
  acts_keep [] s = refl
  acts_keep (kills ∷ l) s = acts_keep l (h.kill s) ∙ ok.kill_keeps s
  acts_keep (sets_unreliable what ∷ l) s =
      acts_keep l (h.set_unreliable what s) ∙ ok.set_keeps what s

  round_counts :
      (t : Turn) (s : S)
      → counter (round h t s).0
        ≡ (if is_processed (round h t s).1 then (counter s + 1) % 2 ^ 32 else counter s)
  unfolding round
  round_counts t s =
      let s' = acts h t.meanwhile s in
      let o = take_connection (h.is_dead s') (h.is_unreliable s') t in
      let kept = acts_keep t.meanwhile s in
      elim (Bool-cases (is_processed o)) [
        | inl there ↦ rw there (ok.counts s' ∙ ap (λ n. (n + 1) % 2 ^ 32) kept)
        | inr gone ↦ rw gone (elim (Bool-cases (not t.accepted && not (h.is_dead s'))) [
          | inl wrong ↦ rw wrong (ok.error_keeps s' ∙ kept)
          | inr fine ↦ rw fine kept
        ])
      ]

  -- The counter of a server is what it was plus the number of requests that reached a handler, modulo 2^32.
  pub accept_loop_counts :
      (turns : List Turn) (s : S)
      → counter s < 2 ^ 32
      → counter (accept_loop h turns s).0
        ≡ (counter s + processed (accept_loop h turns s).1) % 2 ^ 32
  unfolding processed
  accept_loop_counts [] s lt = rw (loop_nil h s) (omega (arith, lt))
  accept_loop_counts (t ∷ turns) s lt = elim (Bool-cases (h.is_dead s)) [
    | inl dead ↦ rw (loop_dead h (t ∷ turns) s dead) (omega (arith, lt))
    | inr alive ↦
        let counted = round_counts t s in
        let more = accept_loop_counts turns (round h t s).0 in
        rw (loop_alive h t turns s alive) (ground (arith, counted, more))
  ]
