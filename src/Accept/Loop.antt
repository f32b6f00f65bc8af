-- ===== src/Accept/Loop.antt =====
-- How the loop in which a server takes connections goes on.
use code2go.Prelude.{◌≡◌, refl, true, false, List, [], ◌∷◌}
use code2go.Accept.{Host, Turn, round, accept_loop}

module _ {S : Type 0} (h : Host S) where
  pub loop_dead : (turns : List Turn) (s : S) → h.is_dead s ≡ true → accept_loop h turns s ≡ (s, [])
  unfolding accept_loop
  loop_dead [] s d = refl
  loop_dead (t ∷ turns) s d = rw d refl

  pub loop_nil : (s : S) → accept_loop h [] s ≡ (s, [])
  unfolding accept_loop
  loop_nil s = refl

  pub loop_alive :
      (t : Turn) (turns : List Turn) (s : S)
      → h.is_dead s ≡ false
      → accept_loop h (t ∷ turns) s ≡ (
        (accept_loop h turns (round h t s).0).0,
        (round h t s).1 ∷ (accept_loop h turns (round h t s).0).1,
      )
  unfolding accept_loop
  loop_alive t turns s d = rw d refl
