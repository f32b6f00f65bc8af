-- ===== src/Accept/Laws.antt =====
-- What the loop in which a server takes connections promises, for every server that keeps its flags.
use code2go.Prelude.{
  ◌≡◌, ◌⊎◌, inl, inr, refl, ◌∙◌, Bool, true, List, [], ◌∷◌, ◌++◌, if◌then◌else◌, arith, ap,
  Bool-cases,
}
use code2go.Accept.{
  closed, failed, Action, kills, sets_unreliable, Host, Turn, take_connection, is_processed, acts,
  round, accept_loop,
}
use code2go.Accept.Loop.{loop_dead, loop_nil, loop_alive}

-- A killed server stays dead, whatever is done to it.
pub record IsHost {S : Type 0} (h : Host S) : Type 0 where
  pub kill_dead : (s : S) → h.is_dead (h.kill s) ≡ true
  pub set_dead : (what : Bool) (s : S) → h.is_dead (h.set_unreliable what s) ≡ h.is_dead s
  pub count_dead : (s : S) → h.is_dead (h.count_rpc s) ≡ h.is_dead s

-- Someone kills the server while this Accept waits.
abbrev pub Kills : List Action → Type 0
Kills [] = ⊥
Kills (kills ∷ more) = Unit
Kills (sets_unreliable what ∷ more) = Kills more

module _ {S : Type 0} (h : Host S) (ok : IsHost h) where
  acts_dead : (l : List Action) (s : S) → h.is_dead s ≡ true → h.is_dead (acts h l s) ≡ true
  unfolding acts
  acts_dead [] s d = d
  acts_dead (kills ∷ l) s d = acts_dead l (h.kill s) (ok.kill_dead s)
  acts_dead (sets_unreliable what ∷ l) s d =
      acts_dead l (h.set_unreliable what s) (ok.set_dead what s ∙ d)

  acts_killed : (l : List Action) (s : S) → Kills l → h.is_dead (acts h l s) ≡ true
  unfolding acts
  acts_killed [] s k = absurd k
  acts_killed (kills ∷ l) s k = acts_dead l (h.kill s) (ok.kill_dead s)
  acts_killed (sets_unreliable what ∷ l) s k = acts_killed l (h.set_unreliable what s) k

  take_dead :
      (dead u : Bool) (t : Turn)
      → dead ≡ true
      → take_connection dead u t ≡ (if t.accepted then closed else failed)
  unfolding take_connection
  take_dead dead u t d = ground arith

  round_killed :
      (t : Turn) (s : S)
      → Kills t.meanwhile
      → (h.is_dead (round h t s).0 ≡ true)
        × ((round h t s).1 ≡ (if t.accepted then closed else failed))
  unfolding round is_processed
  round_killed t s k =
      let d = acts_killed t.meanwhile s k in
      rw (take_dead _ (h.is_unreliable (acts h t.meanwhile s)) t d, d)
        (elim (Bool-cases t.accepted) [
          | inl it ↦ rw it (d, refl)
          | inr not_it ↦ rw not_it (d, refl)
        ])

  -- A round in which the server is killed is the last one: it serves nobody, what comes after it is never looked at,
  -- and the server is dead at its end. What came before is answered as if nothing had happened.
  pub accept_loop_killed :
      (before after : List Turn) (t : Turn) (s : S)
      → Kills t.meanwhile
      → (accept_loop h (before ++ t ∷ after) s ≡ accept_loop h (before ++ t ∷ []) s)
        × (h.is_dead (accept_loop h (before ++ t ∷ after) s).0 ≡ true)
        × (((accept_loop h (before ++ t ∷ after) s).1 ≡ (accept_loop h before s).1)
            ⊎ ((accept_loop h (before ++ t ∷ after) s).1
                ≡ (accept_loop h before s).1 ++ (if t.accepted then closed else failed) ∷ []))
  accept_loop_killed [] after t s k = elim (Bool-cases (h.is_dead s)) [
    | inl dead ↦
        rw (loop_dead h (t ∷ after) s dead, loop_dead h (t ∷ []) s dead, loop_nil h s)
          (refl, dead, inl refl)
    | inr alive ↦
        let (dead, o) = round_killed t s k in
        rw
          (
            loop_alive h t after s alive,
            loop_alive h t [] s alive,
            loop_dead h after _ dead,
            loop_nil h _,
            loop_nil h s,
            o,
          )
          (refl, dead, inr refl)
  ]
  accept_loop_killed (u ∷ before) after t s k = elim (Bool-cases (h.is_dead s)) [
    | inl dead ↦
        rw
          (
            loop_dead h (u ∷ before ++ t ∷ after) s dead,
            loop_dead h (u ∷ before ++ t ∷ []) s dead,
            loop_dead h (u ∷ before) s dead,
          )
          (refl, dead, inl refl)
    | inr alive ↦
        let (same, dead, outcomes) = accept_loop_killed before after t (round h u s).0 k in
        rw
          (
            loop_alive h u (before ++ t ∷ after) s alive,
            loop_alive h u (before ++ t ∷ []) s alive,
            loop_alive h u before s alive,
          )
          (
            ap (λ r. (r.0, (round h u s).1 ∷ r.1)) same,
            dead,
            elim outcomes [
              | inl e ↦ inl (ap (λ r. (round h u s).1 ∷ r) e)
              | inr e ↦ inr (ap (λ r. (round h u s).1 ∷ r) e)
            ],
          )
  ]
