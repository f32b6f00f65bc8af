-- ===== src/Accept/Keeps.antt =====
-- What the loop in which a server takes connections keeps.
use code2go.Prelude.{inl, inr, Bool, not, ◌&&◌, List, [], ◌∷◌, Bool-cases}
use code2go.Accept.{
  Action, kills, sets_unreliable, Host, Turn, take_connection, is_processed, acts, round,
  accept_loop,
}
use code2go.Accept.Loop.{loop_dead, loop_nil, loop_alive}

-- What each call of the package keeps, the loop keeps.
pub record Keeps {S : Type 0} (h : Host S) (P : S → Type 0) : Type 0 where
  pub by_kill : (s : S) → P s → P (h.kill s)
  pub by_set : (what : Bool) (s : S) → P s → P (h.set_unreliable what s)
  pub by_count : (s : S) → P s → P (h.count_rpc s)
  pub by_error : (s : S) → P s → P (h.on_error s)

module _ {S : Type 0} (h : Host S) (P : S → Type 0) (ok : Keeps h P) where
  acts_keeps : (l : List Action) (s : S) → P s → P (acts h l s)
  unfolding acts
  acts_keeps [] s p = p
  acts_keeps (kills ∷ l) s p = acts_keeps l (h.kill s) (ok.by_kill s p)
  acts_keeps (sets_unreliable what ∷ l) s p =
      acts_keeps l (h.set_unreliable what s) (ok.by_set what s p)

  round_keeps : (t : Turn) (s : S) → P s → P (round h t s).0
  unfolding round
  round_keeps t s p =
      let s' = acts h t.meanwhile s in
      let o = take_connection (h.is_dead s') (h.is_unreliable s') t in
      let kept = acts_keeps t.meanwhile s p in
      elim (Bool-cases (is_processed o)) [
        | inl there ↦ rw there (ok.by_count s' kept)
        | inr gone ↦ rw gone (elim (Bool-cases (not t.accepted && not (h.is_dead s'))) [
          | inl wrong ↦ rw wrong (ok.by_error s' kept)
          | inr fine ↦ rw fine kept
        ])
      ]

  pub accept_loop_keeps : (turns : List Turn) (s : S) → P s → P (accept_loop h turns s).0
  accept_loop_keeps [] s p = rw (loop_nil h s) p
  accept_loop_keeps (t ∷ turns) s p = elim (Bool-cases (h.is_dead s)) [
    | inl dead ↦ rw (loop_dead h (t ∷ turns) s dead) p
    | inr alive ↦
        rw (loop_alive h t turns s alive)
          (accept_loop_keeps turns (round h t s).0 (round_keeps t s p))
  ]
