-- ===== src/Harness/Applier/History.antt =====
-- What the goroutines of `start1` in src/raft/config.go have kept of each message that they took.
use code2go.Prelude.{
  ℕ, ◌+◌, ◌-◌, ◌<◌, ◌≡◌, ◌⊎◌, inl, inr, refl, Bool, true, false, not, ◌&&◌, ◌||◌, Option, none,
  some, List, [], ◌∷◌, ◌++◌, ltb, ◌==◌, arith, Bool-cases, Option-cases,
}
use mathlib.Core.Path.{subst}
use code2go.Harness.Applier.{
  Applied, Logs, conflicts, conflicts-none, put, is_there, apply_message, apply_messages,
  IsConsistent, apply_message-IsConsistent, no_logs, no_logs-IsConsistent,
}

abbrev is_command : Option ℕ → ℕ → Bool
is_command none v = false
is_command (some w) v = w == v

-- The message hands the server `i` the command `v` for the index `k`.
abbrev pub applies : (i k v : ℕ) → ℕ × Applied → Bool
applies i k v (s, m) = i == s && not m.use_snapshot && m.index == k && is_command m.command v

-- Some message of the list did.
unfoldable pub was_applied : (i k v : ℕ) → List (ℕ × Applied) → Bool
was_applied i k v [] = false
was_applied i k v (x ∷ messages) = applies i k v x || was_applied i k v messages

-- Every message is one of the servers.
abbrev pub AllBelow : ℕ → List (ℕ × Applied) → Type 0
AllBelow n [] = Unit
AllBelow n ((i, m) ∷ messages) = (i < n) × AllBelow n messages

-- The servers applied the same command wherever two applied one at the same index, or one of them did twice; and
-- a server applied a command at an index past 1 only after one at the index before.
pub record Agreed (messages : List (ℕ × Applied)) : Type 0 where
  pub same :
      (i j k a b : ℕ)
      → was_applied i k a messages ≡ true
      → was_applied j k b messages ≡ true
      → a ≡ b
  pub in_order :
      (i k v : ℕ) (before after : List (ℕ × Applied)) (x : ℕ × Applied)
      → messages ≡ before ++ x ∷ after
      → applies i (k + 2) v x ≡ true
      → (w : ℕ) × (was_applied i (k + 1) w before ≡ true)

-- What one message does to the kept logs.
record Kept (n i : ℕ) (m : Applied) (logs logs' : Logs) : Type 0 where
  stays : (j k a : ℕ) → j < n → logs j k ≡ some a → logs' j k ≡ some a
  noted : (j k v : ℕ) → applies j k v (i, m) ≡ true → logs' j k ≡ some v
  only : (j k v : ℕ) → logs' j k ≡ some v → (logs j k ≡ some v) ⊎ (applies j k v (i, m) ≡ true)
  prev : (j k v : ℕ) → applies j (k + 2) v (i, m) ≡ true → (w : ℕ) × (logs j (k + 1) ≡ some w)

put_stays :
    (n i index v : ℕ) (logs : Logs)
    → ((p old : ℕ) → p < n → logs p index ≡ some old → old ≡ v)
    → (j k a : ℕ) → j < n
    → logs j k ≡ some a
    → put i index v logs j k ≡ some a
put_stays n i index v logs fits j k a lt there = elim (Bool-cases (i == j && index == k)) [
  | inl new ↦
      let at : k ≡ index = ground (arith, new) in
      let same : a ≡ v = fits j a lt (subst (λ x. logs j x ≡ some a) at there) in
      ground (arith, new, same)
  | inr old ↦ ground (arith, old, there)
]

apply_message-Kept :
    (n i : ℕ) (m : Applied) (logs logs' : Logs)
    → apply_message n i m logs ≡ some logs'
    → Kept n i m logs logs'
unfolding apply_message
apply_message-Kept n i m logs logs' h = elim (Bool-cases m.use_snapshot) [
  | inl snap ↦
      let same : logs ≡ logs' = ground (arith, h, snap) in
      subst (Kept n i m logs) same (record {
        stays = λ j k a lt there. there;
        noted = λ j k v at. ground (arith, at, snap);
        only = λ j k v there. inl there;
        prev = λ j k v at. ground (arith, at, snap);
      })
  | inr plain ↦ elim (Option-cases m.command) [
    | inl odd ↦ ground (arith, h, plain, odd)
    | inr (v, int) ↦
        let apart : conflicts logs m.index v 0 n ≡ false = ground (arith, h, plain, int) in
        let before : (ltb 1 m.index && not (is_there (logs i (m.index - 1)))) ≡ false =
          ground (arith, h, plain, int) in
        let same : put i m.index v logs ≡ logs' = ground (arith, h, plain, int, apart, before) in
        subst (Kept n i m logs) same (record {
          stays = put_stays n i m.index v logs (λ p old lt there.
              conflicts-none logs m.index v 0 n apart p old (omega arith) (omega (arith, lt))
                there);
          noted = λ j k w at. ground (arith, at, int);
          only = λ j k w there. elim (Bool-cases (i == j && m.index == k)) [
            | inl new ↦ inr (ground (arith, new, there, plain, int))
            | inr old ↦ inl (ground (arith, old, there))
          ];
          prev = λ j k w at. elim (Option-cases (logs j (k + 1))) [
            | inl gap ↦
                let who : i ≡ j = ground (arith, at) in
                let place : m.index - 1 ≡ k + 1 = ground (arith, at) in
                let gone : logs i (m.index - 1) ≡ none = rw (who, place) gap in
                ground (arith, before, gone, at)
            | inr there ↦ there
          ];
        })
  ]
]

-- One message, then the others.
apply_messages-cons :
    (n i : ℕ) (m : Applied) (messages : List (ℕ × Applied)) (logs logs' : Logs)
    → apply_messages n ((i, m) ∷ messages) logs ≡ some logs'
    → (mid : Logs) × (apply_message n i m logs ≡ some mid)
      × (apply_messages n messages mid ≡ some logs')
unfolding apply_messages
apply_messages-cons n i m messages logs logs' h = elim (Option-cases (apply_message n i m logs)) [
  | inl fatal ↦ ground (arith, h, fatal)
  | inr (mid, done) ↦ (mid, done, ground (arith, h, done))
]

apply_messages-append :
    (n : ℕ) (before after : List (ℕ × Applied)) (logs logs' : Logs)
    → apply_messages n (before ++ after) logs ≡ some logs'
    → (mid : Logs) × (apply_messages n before logs ≡ some mid)
      × (apply_messages n after mid ≡ some logs')
unfolding apply_messages
apply_messages-append n [] after logs logs' h = (logs, refl, h)
apply_messages-append n ((i, m) ∷ before) after logs logs' h =
    let (next, one, more) = apply_messages-cons n i m (before ++ after) logs logs' h in
    let (mid, first, second) = apply_messages-append n before after next logs' more in
    (mid, rw one first, second)

-- Nothing that was kept is lost or changed.
apply_messages-stays :
    (n : ℕ) (messages : List (ℕ × Applied)) (logs logs' : Logs)
    → apply_messages n messages logs ≡ some logs'
    → (j k a : ℕ) → j < n
    → logs j k ≡ some a
    → logs' j k ≡ some a
unfolding apply_messages
apply_messages-stays n [] logs logs' h j k a lt there = ground (arith, h, there)
apply_messages-stays n ((i, m) ∷ messages) logs logs' h j k a lt there =
    let (mid, one, more) = apply_messages-cons n i m messages logs logs' h in
    apply_messages-stays n messages mid logs' more j k a lt
      ((apply_message-Kept n i m logs mid one).stays j k a lt there)

-- What was applied is kept.
apply_messages-noted :
    (n : ℕ) (messages : List (ℕ × Applied)) (logs logs' : Logs)
    → AllBelow n messages
    → apply_messages n messages logs ≡ some logs'
    → (j k v : ℕ) → was_applied j k v messages ≡ true
    → (j < n) × (logs' j k ≡ some v)
unfolding was_applied
apply_messages-noted n [] logs logs' below h j k v was = ground (arith, was)
apply_messages-noted n ((i, m) ∷ messages) logs logs' (lt, below) h j k v was =
    let (mid, one, more) = apply_messages-cons n i m messages logs logs' h in
    elim (Bool-cases (applies j k v (i, m))) [
      | inl now ↦
          let who : j < n = ground (arith, now, lt) in
          (
            who,
            apply_messages-stays n messages mid logs' more j k v who
                ((apply_message-Kept n i m logs mid one).noted j k v now),
          )
      | inr other ↦
          apply_messages-noted n messages mid logs' below more j k v (ground (arith, was, other))
    ]

-- What is kept was there or was applied.
apply_messages-only :
    (n : ℕ) (messages : List (ℕ × Applied)) (logs logs' : Logs)
    → apply_messages n messages logs ≡ some logs'
    → (j k v : ℕ) → logs' j k ≡ some v
    → (logs j k ≡ some v) ⊎ (was_applied j k v messages ≡ true)
unfolding apply_messages was_applied
apply_messages-only n [] logs logs' h j k v there = inl (ground (arith, h, there))
apply_messages-only n ((i, m) ∷ messages) logs logs' h j k v there =
    let (mid, one, more) = apply_messages-cons n i m messages logs logs' h in
    elim (apply_messages-only n messages mid logs' more j k v there) [
      | inr later ↦ inr (ground (arith, later))
      | inl old ↦ elim ((apply_message-Kept n i m logs mid one).only j k v old) [
        | inl older ↦ inl older
        | inr now ↦ inr (ground (arith, now))
      ]
    ]

apply_messages-IsConsistent :
    (n : ℕ) (messages : List (ℕ × Applied)) (logs logs' : Logs)
    → IsConsistent n logs
    → apply_messages n messages logs ≡ some logs'
    → IsConsistent n logs'
unfolding apply_messages
apply_messages-IsConsistent n [] logs logs' ok h =
    let same : logs ≡ logs' = ground (arith, h) in subst (IsConsistent n) same ok
apply_messages-IsConsistent n ((i, m) ∷ messages) logs logs' ok h =
    let (mid, one, more) = apply_messages-cons n i m messages logs logs' h in
    apply_messages-IsConsistent n messages mid logs'
      (apply_message-IsConsistent n i m logs mid one ok) more

module _ (n : ℕ) (messages : List (ℕ × Applied)) (logs' : Logs) (below : AllBelow n messages)
    (h : apply_messages n messages no_logs ≡ some logs') where
  applied_same :
      (i j k a b : ℕ)
      → was_applied i k a messages ≡ true
      → was_applied j k b messages ≡ true
      → a ≡ b
  applied_same i j k a b one other =
      let (li, at) = apply_messages-noted n messages no_logs logs' below h i k a one in
      let (lj, bt) = apply_messages-noted n messages no_logs logs' below h j k b other in
      (apply_messages-IsConsistent n messages no_logs logs' (no_logs-IsConsistent n) h).same i j k a
        b li lj at bt

  applied_in_order :
      (i k v : ℕ) (before after : List (ℕ × Applied)) (x : ℕ × Applied)
      → messages ≡ before ++ x ∷ after
      → applies i (k + 2) v x ≡ true
      → (w : ℕ) × (was_applied i (k + 1) w before ≡ true)
  applied_in_order i k v before after (s, m) split at =
      let whole : apply_messages n (before ++ (s, m) ∷ after) no_logs ≡ some logs' =
        subst (λ ms. apply_messages n ms no_logs ≡ some logs') split h in
      let (mid, first, second) =
        apply_messages-append n before ((s, m) ∷ after) no_logs logs' whole in
      let (next, one, more) = apply_messages-cons n s m after mid logs' second in
      let (w, there) = (apply_message-Kept n s m mid next one).prev i k v at in
      elim (apply_messages-only n before no_logs mid first i (k + 1) w there) [
        | inl none_there ↦ ground (arith, none_there)
        | inr was ↦ (w, was)
      ]

  -- If the goroutines of a cluster of `n` servers that has applied nothing report no error for a sequence of their messages, then
  -- any two applications of a command at one index, by whatever servers, are of the same command, and each at an index past 1 comes
  -- after one of the same server at the index before. Snapshots count as no application.
  pub apply_messages-Agreed : Agreed messages
  apply_messages-Agreed = record { same = applied_same; in_order = applied_in_order }
