-- ===== src/Labrpc/Request.antt =====
-- What `ProcessReq` of src/labrpc/labrpc.go sends.
use mathlib.Core.Path.{subst}
use native.Mathlib.Decide.{dec_lt}
use code2go.Prelude.{
  ℕ, zero, suc, ◌+◌, ◌<◌, ◌≤◌, ◌≡◌, ◌≢◌, ◌⊎◌, ap, sym, ◌∙◌, Bool, true, false, Option, none, some,
  arith, Option-cases, Bool-cases, inl, inr,
}
use code2go.Labrpc.{Network, Draws, same_server, is_server_dead, wait_reply, answer_req}

same_server_iff : (s : Option ℕ) (a : ℕ) → same_server s a ≡ true → s ≡ some a
unfolding same_server
same_server_iff none a h = ground arith
same_server_iff (some b) a h = ap some (ground arith)

-- The end is enabled and the name still stands for the server at the address.
abbrev pub IsUp : (endname servername server : ℕ) → Network → Type 0
IsUp endname servername server rn =
    (rn.enabled endname ≡ true) × (rn.servers servername ≡ some server)

pub alive-IsUp : (e n a : ℕ) (rn : Network) → is_server_dead e n a rn ≡ false → IsUp e n a rn
unfolding is_server_dead
alive-IsUp e n a rn h = (ground arith, same_server_iff (rn.servers n) a (ground arith))

pub IsUp-alive : (e n a : ℕ) (rn : Network) → IsUp e n a rn → is_server_dead e n a rn ≡ false
unfolding is_server_dead same_server
IsUp-alive e n a rn (on, at) = rw (on, at) (ground arith)

module _ {R : Type 0} (e n a : ℕ) (selects : ℕ → Option R) (nets : ℕ → Network) where
  wait_reply-got :
      (poll fuel : ℕ) (r : R)
      → selects poll ≡ some r
      → wait_reply e n a selects nets poll (suc fuel) ≡ some (some r)
  unfolding wait_reply
  wait_reply-got poll fuel r got = ground (arith, got)

  wait_reply-dead :
      (poll fuel : ℕ)
      → selects poll ≡ none
      → is_server_dead e n a (nets poll) ≡ true
      → wait_reply e n a selects nets poll (suc fuel) ≡ some none
  unfolding wait_reply
  wait_reply-dead poll fuel later dead = ground (arith, later, dead)

  wait_reply-up :
      (poll fuel : ℕ)
      → selects poll ≡ none
      → is_server_dead e n a (nets poll) ≡ false
      → wait_reply e n a selects nets poll (suc fuel)
        ≡ wait_reply e n a selects nets (poll + 1) fuel
  unfolding wait_reply
  wait_reply-up poll fuel later up = ground (arith, later, up)

  pub wait_reply-found :
      (poll fuel : ℕ) (r : R)
      → wait_reply e n a selects nets poll fuel ≡ some (some r)
      → (k : ℕ) × (selects k ≡ some r)
  unfolding wait_reply
  wait_reply-found poll zero r h = ground arith
  wait_reply-found poll (suc fuel) r h = elim (Option-cases (selects poll)) [
    | inl later ↦ elim (Bool-cases (is_server_dead e n a (nets poll))) [
      | inl dead ↦ ground (arith, wait_reply-dead poll fuel later dead)
      | inr up ↦ wait_reply-found (poll + 1) fuel r (sym (wait_reply-up poll fuel later up) ∙ h)
    ]
    | inr (reply, got) ↦ (poll, ground (arith, got, wait_reply-got poll fuel reply got))
  ]

  pub wait_reply-first :
      (poll fuel k : ℕ) (r : R)
      → poll ≤ k
      → k < poll + fuel
      → selects k ≡ some r
      → ((j : ℕ) → j < k → (selects j ≡ none) × IsUp e n a (nets j))
      → wait_reply e n a selects nets poll fuel ≡ some (some r)
  wait_reply-first poll zero k r le lt got before = absurd (omega arith)
  wait_reply-first poll (suc fuel) k r le lt got before = elim (dec_lt poll k) [
    | yes more ↦
        let (later, up) = before poll more in
        wait_reply-up poll fuel later (IsUp-alive e n a (nets poll) up)
        ∙ wait_reply-first (poll + 1) fuel k r (omega arith) (omega arith) got before
    | no same ↦
        let at : k ≡ poll = omega arith in
        wait_reply-got poll fuel r (subst (λ j. selects j ≡ some r) at got)
  ]

  -- The wait ends at a poll that finds a reply or a dead server.
  pub wait_reply-ends :
      (poll fuel k : ℕ)
      → poll ≤ k
      → k < poll + fuel
      → (selects k ≢ none) ⊎ (is_server_dead e n a (nets k) ≡ true)
      → (got : Option R) × (wait_reply e n a selects nets poll fuel ≡ some got)
  wait_reply-ends poll zero k le lt h = absurd (omega arith)
  wait_reply-ends poll (suc fuel) k le lt h = elim (Option-cases (selects poll)) [
    | inr (reply, got) ↦ (some reply, wait_reply-got poll fuel reply got)
    | inl later ↦ elim (Bool-cases (is_server_dead e n a (nets poll))) [
      | inl dead ↦ (none, wait_reply-dead poll fuel later dead)
      | inr up ↦ elim (dec_lt poll k) [
        | yes more ↦
            let (got, found) = wait_reply-ends (poll + 1) fuel k (omega arith) (omega arith) h in
            (got, wait_reply-up poll fuel later up ∙ found)
        | no same ↦
            let at : k ≡ poll = omega arith in
            let here =
              subst (λ j. (selects j ≢ none) ⊎ (is_server_dead e n a (nets j) ≡ true)) at h in
            absurd (ground (arith, here, later, up))
      ]
    ]
  ]

-- What an answer says about the last test.
pub answer_req-some :
    {R : Type 0} (d : Draws) (reliable reordering dead : Bool) (slept : ℕ) (got : Option R) (r : R)
    → (answer_req d reliable reordering dead slept got).reply ≡ some r
    → (got ≡ some r) × (dead ≡ false)
unfolding answer_req
answer_req-some d reliable reordering dead slept none r h = ground arith
answer_req-some d reliable reordering dead slept (some reply) r h = ground arith
