-- ===== src/Harness/Applier.antt =====
-- src/raft/config.go, `start1`: the goroutine that reads what a server applies. An error message ends the
-- test (log.Fatalf): it is `none`. The mutex makes the handling of one message one step.
pub mod History
use mathlib.Core.Path.{subst}
use code2go.Prelude.{
  ℕ, zero, suc, ◌+◌, ◌-◌, ◌<◌, ◌≤◌, ◌≡◌, ◌≢◌, inl, inr, sym, ◌∙◌, Bool, true, false, not, ◌&&◌,
  Option, none, some, List, [], ◌∷◌, ltb, ◌==◌, if◌then◌else◌, ◌>>=◌, arith, ==_iff, Bool-cases,
  Option-cases,
}

-- A command that is not an int is `none`.
pub record Applied : Type 0 where
  pub index : ℕ
  pub command : Option ℕ
  pub use_snapshot : Bool

-- cfg.logs: the server, the index, and the command.
abbrev pub Logs : Type 0
Logs = ℕ → ℕ → Option ℕ

-- for j := 0; j < len(cfg.logs); j++, from `j` on: some server has another command there.
unfoldable pub conflicts : Logs → (index v j left : ℕ) → Bool
conflicts logs index v j zero = false
conflicts logs index v j (suc left) =
    let rest = conflicts logs index v (j + 1) left in
    elim (logs j index) [ none ↦ rest | some old ↦ if old == v then rest else true ]

abbrev pub is_there : Option ℕ → Bool
is_there none = false
is_there (some v) = true

-- The message `m` of the server `i`, of `n` servers.
unfoldable pub apply_message : (n i : ℕ) → Applied → Logs → Option Logs
unfolding conflicts
apply_message n i m logs = if m.use_snapshot then some logs else elim m.command [
  | none ↦ none
  | some v ↦
      let prevok = is_there (logs i (m.index - 1)) in
      let logs' : Logs = λ s k. if i == s && m.index == k then some v else logs s k in
      if conflicts logs m.index v 0 n
      then none
      else if ltb 1 m.index && not prevok
      then none
      else some logs'
]

-- Messages of the servers in the order in which they are handled.
unfoldable pub apply_messages : (n : ℕ) → List (ℕ × Applied) → Logs → Option Logs
unfolding apply_message
apply_messages n [] logs = some logs
apply_messages n ((i, m) ∷ messages) logs =
    let rest = λ (l : Logs). apply_messages n messages l in
    do logs' ← apply_message n i m logs; rest logs'

-- In the kept logs no two servers have different commands at an index, and no server has a gap.
pub record IsConsistent (n : ℕ) (logs : Logs) : Type 0 where
  pub same : (i j k a b : ℕ) → i < n → j < n → logs i k ≡ some a → logs j k ≡ some b → a ≡ b
  pub no_gap : (i k : ℕ) → logs i (k + 2) ≢ none → logs i (k + 1) ≢ none

pub conflicts-none :
    (logs : Logs) (index v j left : ℕ)
    → conflicts logs index v j left ≡ false
    → (p old : ℕ) → j ≤ p
    → p < j + left
    → logs p index ≡ some old
    → old ≡ v
unfolding conflicts
conflicts-none logs index v j zero h p old from to there = absurd (omega (arith, from, to))
conflicts-none logs index v j (suc left) h p old from to there = elim (Bool-cases (j == p)) [
  | inl here ↦
      let at = (==_iff j p).0 here in
      let found : logs j index ≡ some old = rw at there in ground (arith, h, found)
  | inr later ↦
      let past : j + 1 ≤ p = ground (arith, later, from) in
      conflicts-none logs index v (j + 1) left (ground (arith, h)) p old past (omega (arith, to))
        there
]

abbrev pub put : (i index v : ℕ) → Logs → Logs
put i index v logs s k = if i == s && index == k then some v else logs s k

not_none : {x : Option ℕ} → is_there x ≡ true → x ≢ none
not_none {x} h e = ground (arith, h, e)

module _ (n i index v : ℕ) (logs : Logs) (ok : IsConsistent n logs) where
  put_same :
      ((p old : ℕ) → p < n → logs p index ≡ some old → old ≡ v)
      → (p q k a b : ℕ) → p < n
      → q < n
      → put i index v logs p k ≡ some a
      → put i index v logs q k ≡ some b
      → a ≡ b
  put_same fits p q k a b lp lq hp hq = elim (Bool-cases (index == k)) [
    | inl here ↦
        let at = (==_iff index k).0 here in
        let of_one : (r c : ℕ) → r < n → put i index v logs r k ≡ some c → c ≡ v =
          λ r c lr h. one_there r c lr (subst (λ x. put i index v logs r x ≡ some c) (sym at) h) in
        of_one p a lp hp ∙ sym (of_one q b lq hq)
    | inr other ↦ ok.same p q k a b lp lq (ground (arith, hp, other)) (ground (arith, hq, other))
  ]
    where
      one_there : (r c : ℕ) → r < n → put i index v logs r index ≡ some c → c ≡ v
      one_there r c lr h = elim (Bool-cases (i == r)) [
        | inl mine ↦ ground (arith, h, mine)
        | inr theirs ↦ fits r c lr (ground (arith, h, theirs))
      ]

  put_no_gap :
      (1 < index → logs i (index - 1) ≢ none)
      → (p k : ℕ) → put i index v logs p (k + 2) ≢ none
      → put i index v logs p (k + 1) ≢ none
  put_no_gap prev p k there gone = elim (Bool-cases (i == p && index == k + 2)) [
    | inl new ↦
        let at : index - 1 ≡ k + 1 = ground (arith, new) in
        let who : i ≡ p = ground (arith, new) in
        let old : logs p (k + 1) ≡ none = ground (arith, gone) in
        prev (ground (arith, new)) (rw (at, who) old)
    | inr kept ↦ ok.no_gap p k (λ e. there (ground (arith, kept, e))) (ground (arith, gone))
  ]

pub apply_message-IsConsistent :
    (n i : ℕ) (m : Applied) (logs logs' : Logs)
    → apply_message n i m logs ≡ some logs'
    → IsConsistent n logs
    → IsConsistent n logs'
unfolding apply_message
apply_message-IsConsistent n i m logs logs' h ok = elim (Bool-cases m.use_snapshot) [
  | inl snap ↦ let same : logs ≡ logs' = ground (arith, h, snap) in subst (IsConsistent n) same ok
  | inr plain ↦ elim (Option-cases m.command) [
    | inl odd ↦ ground (arith, h, plain, odd)
    | inr (v, int) ↦
        let apart : conflicts logs m.index v 0 n ≡ false = ground (arith, h, plain, int) in
        let prev : (ltb 1 m.index && not (is_there (logs i (m.index - 1)))) ≡ false =
          ground (arith, h, plain, int) in
        let same : put i m.index v logs ≡ logs' = ground (arith, h, plain, int, apart, prev) in
        subst (IsConsistent n) same (record {
          same = put_same n i m.index v logs ok (λ p old lt there.
              conflicts-none logs m.index v 0 n apart p old (omega arith) (omega (arith, lt))
                there);
          no_gap = put_no_gap n i m.index v logs ok (λ past. not_none (ground (arith, prev, past)));
        })
  ]
]

-- A cluster that has applied nothing.
abbrev pub no_logs : Logs
no_logs s k = none

pub no_logs-IsConsistent : (n : ℕ) → IsConsistent n no_logs
no_logs-IsConsistent n = record {
  same = λ i j k a b li lj ha hb. ground (arith, ha);
  no_gap = λ i k h. h;
}
