-- ===== src/Harness/Wait.antt =====
-- src/raft/config.go: `wait` and `one`. The servers as they are at each look, and the answers of `Start`,
-- are arguments; the fuel of `one` is the number of rounds and of looks that its clock leaves time for.
use mathlib.Core.Path.{subst}
use code2go.Prelude.{
  ℕ, zero, suc, ◌+◌, ◌%◌, ◌<◌, ◌≤◌, ◌≡◌, sym, ◌∙◌, Bool, true, false, ◌&&◌, Option, none, some,
  List, [], ◌∷◌, ltb, leb, ◌==◌, if◌then◌else◌, ◌>>=◌, ap, ==_iff, arith, Option-cases, Bool-cases,
  inl, inr,
}
use code2go.Harness.{Seen, n_committed}

-- Some server is in a later term than the given one, where one is given.
unfoldable pub moved_on : Option ℕ → List Seen → Bool
moved_on none servers = false
moved_on (some start_term) [] = false
moved_on (some start_term) (s ∷ servers) =
    if ltb start_term s.term then true else moved_on (some start_term) servers

-- The loop of `wait`: false where somebody has moved on.
unfoldable pub wait_loop :
    (index n : ℕ)
    → (start_term : Option ℕ) → (looks later : ℕ → List Seen) → (iters left : ℕ) → Option Bool
unfolding moved_on
wait_loop index n start_term looks later iters zero = some true
wait_loop index n start_term looks later iters (suc left) =
    let rest = wait_loop index n start_term looks later (iters + 1) left in
    do
      (nd, cmd) ← n_committed index (looks iters) 0 none
      if leb n nd then some true else if moved_on start_term (later iters) then some false else rest

-- The command; -1 is `none` inside the result.
unfoldable pub wait :
    (index n : ℕ)
    → (start_term : Option ℕ) → (looks later : ℕ → List Seen) → (last : List Seen)
    → Option (Option ℕ)
unfolding wait_loop
wait index n start_term looks later last = do
  settled ← wait_loop index n start_term looks later 0 30
  if settled
      then (do (nd, cmd) ← n_committed index last 0 none; if ltb nd n then none else some cmd)
      else some none

-- The servers in turn, from the one after `starts` on: where the search ends, and the index that `Start`
-- gives there. A server that is not connected or no leader answers `none`.
unfoldable pub try_servers : (answers : ℕ → Option ℕ) → (n starts left : ℕ) → ℕ × Option ℕ
try_servers answers n starts zero = (starts, none)
try_servers answers n starts (suc left) =
    let next = (starts + 1) % n in
    let rest = try_servers answers n next left in
    elim (answers next) [ some index ↦ (next, some index) | none ↦ rest ]

-- The looks of one round of `one`: true where the command was committed.
unfoldable pub await_commit :
    (cmd expected index : ℕ) → (looks : ℕ → List Seen) → (look left : ℕ) → Option Bool
await_commit cmd expected index looks look zero = some false
await_commit cmd expected index looks look (suc left) =
    let rest = await_commit cmd expected index looks (look + 1) left in
    do
      (nd, cmd1) ← n_committed index (looks look) 0 none
      if ltb 0 nd && leb expected nd
          then elim cmd1 [ some c ↦ if c == cmd then some true else rest | none ↦ rest ]
          else rest

unfoldable pub one :
    (cmd expected n : ℕ)
    → (answers : (round server : ℕ) → Option ℕ) → (looks : (round look : ℕ) → List Seen)
    → (n_looks : ℕ) → (starts round left : ℕ) → Option ℕ
unfolding try_servers await_commit
one cmd expected n answers looks n_looks starts round zero = none
one cmd expected n answers looks n_looks starts round (suc left) =
    let (starts', found) = try_servers (answers round) n starts n in
    let rest = one cmd expected n answers looks n_looks starts' (round + 1) left in
    elim found [
      | none ↦ rest
      | some index ↦ do
        done ← await_commit cmd expected index (looks round) 0 n_looks
        if done then some index else rest
    ]

-- How many of the servers applied an entry at the index.
unfoldable pub holders : (index : ℕ) → List Seen → ℕ
holders index [] = 0
holders index (s ∷ servers) =
    let rest = holders index servers in elim (s.log index) [ none ↦ rest | some c ↦ suc rest ]

-- Every server that applied an entry at the index applied this command.
abbrev pub AllHold : (index : ℕ) → Option ℕ → List Seen → Type 0
AllHold index cmd [] = Unit
AllHold index cmd (s ∷ servers) =
    ((c : ℕ) → s.log index ≡ some c → cmd ≡ some c) × AllHold index cmd servers

n_committed-some :
    (index : ℕ) (servers : List Seen) (count c : ℕ) {nd : ℕ} {cmd : Option ℕ}
    → 0 < count
    → n_committed index servers count (some c) ≡ some (nd, cmd)
    → (nd ≡ count + holders index servers) × (cmd ≡ some c) × AllHold index (some c) servers
unfolding n_committed holders
n_committed-some index [] count c pos h = (ground (arith, h), ground (arith, h), tt)
n_committed-some index (s ∷ servers) count c {nd = m} {cmd = k} pos h =
    elim (Option-cases (s.log index)) [
      | inl gone ↦
          let (nd, cmd, all) =
            n_committed-some index servers count c {nd = m} {cmd = k} pos
              (ground (arith, h, gone)) in
          (ground (arith, nd, gone), cmd, (λ x there. ground (arith, gone, there), all))
      | inr (d, there) ↦
          let same : d ≡ c = ground (arith, h, there, pos) in
          let (nd, cmd, all) =
            n_committed-some index servers (count + 1) c {nd = m} {cmd = k} (omega (arith, pos))
              (ground (arith, h, there, same, pos)) in
          (ground (arith, nd, there), cmd, (λ x at. ground (arith, there, at, same), all))
    ]

n_committed-holders :
    (index : ℕ) (servers : List Seen) {nd : ℕ} {cmd : Option ℕ}
    → n_committed index servers 0 none ≡ some (nd, cmd)
    → (nd ≡ holders index servers) × AllHold index cmd servers
unfolding n_committed holders
n_committed-holders index [] h = (ground (arith, h), tt)
n_committed-holders index (s ∷ servers) {nd = m} {cmd = k} h = elim (Option-cases (s.log index)) [
  | inl gone ↦
      let (nd, all) =
        n_committed-holders index servers {nd = m} {cmd = k} (ground (arith, h, gone)) in
      (ground (arith, nd, gone), (λ x there. ground (arith, gone, there), all))
  | inr (d, there) ↦
      let (nd, cmd, all) =
        n_committed-some index servers 1 d {nd = m} {cmd = k} (omega arith)
          (ground (arith, h, there)) in
      (
        ground (arith, nd, there),
        (
          λ x at. ground (arith, there, at, cmd),
          subst (λ c. AllHold index c servers) (sym cmd) all,
        ),
      )
]

-- A command that `wait` returns was applied at the index by at least `n` servers at its last look, and no server had
-- applied another one there.
pub wait-holders :
    (index n : ℕ) (start_term : Option ℕ) (looks later : ℕ → List Seen) (last : List Seen) {cmd : ℕ}
    → wait index n start_term looks later last ≡ some (some cmd)
    → (n ≤ holders index last) × AllHold index (some cmd) last
unfolding wait
wait-holders index n start_term looks later last {cmd} h =
    elim (Option-cases (wait_loop index n start_term looks later 0 30)) [
      | inl fatal ↦ ground (arith, h, fatal)
      | inr (settled, looped) ↦ elim (Option-cases (n_committed index last 0 none)) [
        | inl fatal ↦ ground (arith, h, looped, fatal)
        | inr ((nd, found), counted) ↦
            let (number, all) = n_committed-holders index last counted in
            let same : found ≡ some cmd = ground (arith, h, looped, counted) in
            let enough : n ≤ nd = ground (arith, h, looped, counted) in
            (omega (arith, number, enough), subst (λ c. AllHold index c last) same all)
      ]
    ]

await_commit-holders :
    (cmd expected index : ℕ) (looks : ℕ → List Seen) (look left : ℕ)
    → await_commit cmd expected index looks look left ≡ some true
    → (at : ℕ) × (0 < holders index (looks at))
      × (expected ≤ holders index (looks at))
      × AllHold index (some cmd) (looks at)
unfolding await_commit
await_commit-holders cmd expected index looks look zero h = ground (arith, h)
await_commit-holders cmd expected index looks look (suc left) h =
    elim (Option-cases (n_committed index (looks look) 0 none)) [
      | inl fatal ↦ ground (arith, h, fatal)
      | inr ((nd, found), counted) ↦
          let (number, all) = n_committed-holders index (looks look) counted in
          elim (Bool-cases (ltb 0 nd && leb expected nd)) [
            | inr few ↦
                await_commit-holders cmd expected index looks (look + 1) left
                  (ground (arith, h, counted, few))
            | inl many ↦ elim (Option-cases found) [
              | inl odd ↦
                  await_commit-holders cmd expected index looks (look + 1) left
                    (ground (arith, h, counted, many, odd))
              | inr (c, is) ↦ elim (Bool-cases (c == cmd)) [
                | inr other ↦
                    await_commit-holders cmd expected index looks (look + 1) left
                      (ground (arith, h, counted, many, is, other))
                | inl same ↦
                    let equal : found ≡ some cmd = is ∙ ap some ((==_iff c cmd).0 same) in
                    (
                      look,
                      ground (arith, many, number),
                      ground (arith, many, number),
                      subst (λ x. AllHold index x (looks look)) equal all,
                    )
              ]
            ]
          ]
    ]

-- An index that `one` returns was, at one of its looks, applied by at least one and at least the expected number of
-- servers, all with the command that was to be agreed on.
pub one-holders :
    (cmd expected n : ℕ) (answers : (round server : ℕ) → Option ℕ)
    (looks : (round look : ℕ) → List Seen) (n_looks starts round left : ℕ) {index : ℕ}
    → one cmd expected n answers looks n_looks starts round left ≡ some index
    → (r at : ℕ) × (0 < holders index (looks r at))
      × (expected ≤ holders index (looks r at))
      × AllHold index (some cmd) (looks r at)
unfolding one
one-holders cmd expected n answers looks n_looks starts round zero h = ground (arith, h)
one-holders cmd expected n answers looks n_looks starts round (suc left) {index} h =
    let (starts', found) = try_servers (answers round) n starts n in
    elim (Option-cases found) [
      | inl nobody ↦
          one-holders cmd expected n answers looks n_looks starts' (round + 1) left
            (ground (arith, h, nobody))
      | inr (i, there) ↦ elim (Option-cases (await_commit cmd expected i (looks round) 0 n_looks)) [
        | inl fatal ↦ ground (arith, h, there, fatal)
        | inr (done, waited) ↦ elim (Bool-cases done) [
          | inr not_yet ↦
              one-holders cmd expected n answers looks n_looks starts' (round + 1) left
                (ground (arith, h, there, waited, not_yet))
          | inl it_is ↦
              let same : i ≡ index = ground (arith, h, there, waited, it_is) in
              let (at, some_hold, enough, all) =
                await_commit-holders cmd expected i (looks round) 0 n_looks
                  (waited ∙ ap some it_is) in
              (
                round,
                at,
                subst (λ x. 0 < holders x (looks round at)) same some_hold,
                subst (λ x. expected ≤ holders x (looks round at)) same enough,
                subst (λ x. AllHold x (some cmd) (looks round at)) same all,
              )
        ]
      ]
    ]
