-- ===== src/ShardMaster/Retry.antt =====
-- The loops of the clerk of src/shardmaster/client.go.
use mathlib.Core.Path.{subst}
use native.Mathlib.Decide.{dec_lt}
use code2go.Prelude.{ℕ, zero, suc, ◌+◌, ◌<◌, ◌≤◌, ◌≡◌, refl, Option, none, some, arith}
use code2go.ShardMaster.{or_else, first_result, retry}

module _ {A : Type 0} (calls : ℕ → Option A) where
  pub first_result-none :
      (i left : ℕ) → ((j : ℕ) → j < i + left → calls j ≡ none) → first_result calls i left ≡ none
  unfolding first_result or_else
  first_result-none i zero h = refl
  first_result-none i (suc left) h =
      rw (h i (omega arith)) (first_result-none (i + 1) left (λ j lt. h j (omega arith)))

  pub first_result-some :
      (i left k : ℕ) (a : A)
      → i ≤ k
      → k < i + left
      → ((j : ℕ) → j < k → calls j ≡ none)
      → calls k ≡ some a
      → first_result calls i left ≡ some a
  unfolding first_result or_else
  first_result-some i zero k a le lt before here = absurd (omega arith)
  first_result-some i (suc left) k a le lt before here = elim (dec_lt i k) [
    | yes more ↦
        rw (before i more)
          (first_result-some (i + 1) left k a (omega arith) (omega arith) before here)
    | no same ↦ let at : k ≡ i = omega arith in rw (subst (λ j. calls j ≡ some a) at here) refl
  ]

module _ {A : Type 0} (calls : ℕ → ℕ → Option A) (servers : ℕ) where
  -- The result of a loop is the first one that a call gives, round by round and in each round server by server, if
  -- the fuel covers its round.
  pub retry_first :
      (from fuel round server : ℕ) (a : A)
      → from ≤ round
      → round < from + fuel
      → server < servers
      → ((r k : ℕ) → r < round → k < servers → calls r k ≡ none)
      → ((k : ℕ) → k < server → calls round k ≡ none)
      → calls round server ≡ some a
      → retry calls servers from fuel ≡ some a
  unfolding retry or_else
  retry_first from zero round server a le lt lts rounds before here = absurd (omega arith)
  retry_first from (suc fuel) round server a le lt lts rounds before here =
      elim (dec_lt from round) [
        | yes more ↦
            rw
              (first_result-none (calls from) 0 servers (λ k klt. rounds from k more (omega arith)))
              (retry_first (from + 1) fuel round server a (omega arith) (omega arith) lts rounds
                before here)
        | no same ↦
            let at : round ≡ from = omega arith in
            let found =
              first_result-some (calls round) 0 servers server a (omega arith) (omega arith) before
                here in
            rw (subst (λ r. first_result (calls r) 0 servers ≡ some a) at found) refl
      ]
