-- ===== src/Harness.antt =====
-- src/raft/config.go: what the tests of Raft check about a cluster. A `Fatalf` is `none`, and the
-- values -1 for "none yet" are `none` too.
pub mod Agree
pub mod Applier
pub mod Links
pub mod Wait
mod Tests
use code2go.Prelude.{
  ℕ, zero, suc, ◌+◌, Bool, true, false, ◌&&◌, not, Option, none, some, List, [], ◌∷◌, ◌++◌, length,
  ltb, ◌==◌, if◌then◌else◌, ◌>>=◌,
}

-- What the harness sees of a server: whether it is connected, its `GetState`, and what it applied by index.
pub record Seen : Type 0 where
  pub connected : Bool
  pub term : ℕ
  pub leads : Bool
  pub failed : Bool  -- applyErr is not empty
  pub log : ℕ → Option ℕ

unfoldable pub check_terms : List Seen → (term : Option ℕ) → Option (Option ℕ)
check_terms [] term = some term
check_terms (s ∷ servers) term =
    let rest = λ (t : Option ℕ). check_terms servers t in
    if s.connected
    then elim term [
      | none ↦ rest (some s.term)
      | some t ↦ if t == s.term then rest (some t) else none
    ]
    else rest term

-- The test passes.
unfoldable pub check_no_leader : List Seen → Bool
check_no_leader [] = true
check_no_leader (s ∷ servers) = not (s.connected && s.leads) && check_no_leader servers

-- leaders[t] = append(leaders[t], i)
unfoldable pub add_leader : (t i : ℕ) → List (ℕ × List ℕ) → List (ℕ × List ℕ)
add_leader t i [] = (t, i ∷ []) ∷ []
add_leader t i ((t', is) ∷ leaders) =
    let rest = add_leader t i leaders in
    if t' == t then (t', is ++ i ∷ []) ∷ leaders else (t', is) ∷ rest

unfoldable pub find_leaders : List Seen → (i : ℕ) → List (ℕ × List ℕ) → List (ℕ × List ℕ)
unfolding add_leader
find_leaders [] i leaders = leaders
find_leaders (s ∷ servers) i leaders =
    find_leaders servers (i + 1)
      (if s.connected && s.leads then add_leader s.term i leaders else leaders)

-- The leader of the last term, if each term has one; `some none` if there is no leader.
unfoldable pub last_leader : List (ℕ × List ℕ) → (last : Option (ℕ × ℕ)) → Option (Option (ℕ × ℕ))
last_leader [] last = some last
last_leader ((t, []) ∷ leaders) last = none
last_leader ((t, i ∷ j ∷ is) ∷ leaders) last = none
last_leader ((t, i ∷ []) ∷ leaders) none = last_leader leaders (some (t, i))
last_leader ((t, i ∷ []) ∷ leaders) (some (t', i')) =
    last_leader leaders (if ltb t' t then some (t, i) else some (t', i'))

-- The attempts of `checkOneLeader`: the cluster as it is at each of them.
unfoldable pub check_one_leader : (cluster : ℕ → List Seen) → (iters left : ℕ) → Option ℕ
unfolding find_leaders last_leader
check_one_leader cluster iters zero = none
check_one_leader cluster iters (suc left) =
    let rest = check_one_leader cluster (iters + 1) left in
    do
      found ← last_leader (find_leaders (cluster iters) 0 []) none
      elim found [ some (t, i) ↦ some i | none ↦ rest ]

-- The number of servers that applied an entry at the index, and its command; `none` if two differ.
unfoldable pub n_committed :
    (index : ℕ) → List Seen → (count : ℕ) (cmd : Option ℕ) → Option (ℕ × Option ℕ)
n_committed index [] count cmd = some (count, cmd)
n_committed index (s ∷ servers) count cmd =
    let rest = n_committed index servers in
    if s.failed then none else elim (s.log index) [
      | none ↦ rest count cmd
      | some cmd1 ↦ elim cmd [
        | none ↦ rest (count + 1) (some cmd1)
        | some c ↦ if ltb 0 count && not (c == cmd1) then none else rest (count + 1) (some cmd1)
      ]
    ]
