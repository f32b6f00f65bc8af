-- ===== src/Harness/Tests.antt =====
-- Tests of src/raft/config.go, and the theorem at a concrete input.
use code2go.Prelude.{
  arith, ℕ, ◌≡◌, refl, Bool, true, false, Option, none, some, List, [], ◌∷◌, ◌==◌, if◌then◌else◌,
}
use code2go.Harness.{Seen, check_terms, check_one_leader, n_committed}
use code2go.Harness.Applier.{Applied, Logs, apply_messages, no_logs}
use code2go.Harness.Applier.History.{Agreed, apply_messages-Agreed, was_applied}
use code2go.Harness.Links.{
  Links, Change, connects, disconnects, restarts, changes, IsLinked, changes-IsLinked,
}

abbrev server : (connected leads : Bool) → (term : ℕ) → Seen
server connected leads term = record {
  connected = connected;
  term = term;
  leads = leads;
  failed = false;
  log = λ i. if i == 1 then some 42 else none;
}

abbrev three : List Seen
three = server true false 4 ∷ server false true 3 ∷ server true true 4 ∷ []

leader_found : check_one_leader (λ iters. three) 0 10 ≡ some 2
unfolding check_one_leader
leader_found = refl

two_leaders : check_one_leader (λ iters. server true true 4 ∷ three) 0 10 ≡ none
unfolding check_one_leader
two_leaders = refl

committed : n_committed 1 three 0 none ≡ some (3, some 42)
unfolding n_committed
committed = refl

term_agreed : check_terms three none ≡ some (some 4)
unfolding check_terms
term_agreed = refl

-- Servers 0 and 1 apply two entries each.
abbrev applied : (index command : ℕ) → Applied
applied index command = record { index = index; command = some command; use_snapshot = false }

abbrev messages : List (ℕ × Applied)
messages = (0, applied 1 7) ∷ (1, applied 1 7) ∷ (1, applied 2 8) ∷ (0, applied 2 8) ∷ []

abbrev the_logs : Option Logs → Logs
the_logs none = no_logs
the_logs (some logs) = logs

abbrev logs_kept : Logs
logs_kept = the_logs (apply_messages 2 messages no_logs)

apply_messages-Agreed_example : Agreed messages
unfolding apply_messages
apply_messages-Agreed_example =
    apply_messages-Agreed 2 messages logs_kept
      (omega arith, (omega arith, (omega arith, (omega arith, tt)))) refl

second_applied : was_applied 1 2 8 messages ≡ true
unfolding was_applied
second_applied = refl

two_in_one : apply_messages 2 ((0, applied 1 7) ∷ (0, applied 1 8) ∷ []) no_logs ≡ none
unfolding apply_messages
two_in_one = refl

conflict : apply_messages 2 ((0, applied 1 7) ∷ (1, applied 1 9) ∷ []) no_logs ≡ none
unfolding apply_messages
conflict = refl

gap : apply_messages 2 ((0, applied 2 7) ∷ []) no_logs ≡ none
unfolding apply_messages
gap = refl

abbrev no_links : Links
no_links = record { connected = λ s. false; enabled = λ a b. false }

abbrev some_changes : List Change
some_changes = connects 0 ∷ connects 1 ∷ connects 2 ∷ restarts 1 ∷ disconnects 0 ∷ connects 1 ∷ []

changes-IsLinked_example : IsLinked 3 (changes 3 some_changes no_links)
changes-IsLinked_example = changes-IsLinked 3 some_changes no_links (λ a b la lb. refl)
