-- ===== src/KvRaft/Minority.antt =====
-- src/kvraft/config.go: `LogSize`, `Leader` and `make_partition`, which puts the leader into the smaller of
-- two groups. An index out of range is `none`.
use code2go.Prelude.{
  ℕ, zero, suc, ◌+◌, ◌-◌, ◌*◌, ◌/◌, ◌<◌, ◌≤◌, ◌≡◌, refl, Bool, true, false, Option, none, some,
  List, [], ◌∷◌, length, replicate, set, length-set, get_elem?, get_elem?-set_self, ltb, ◌==◌,
  if◌then◌else◌, ◌>>=◌, arith, Bool-cases, Option-cases, inl, inr,
}

-- The largest of the sizes of the saved states.
unfoldable pub log_size : List ℕ → (logsize : ℕ) → ℕ
log_size [] logsize = logsize
log_size (n ∷ sizes) logsize = log_size sizes (if ltb logsize n then n else logsize)

-- The first server from `i` on that says it leads; 0 where none does.
unfoldable pub leader_of : (leads : ℕ → Bool) → (i left : ℕ) → Bool × ℕ
leader_of leads i zero = (false, 0)
leader_of leads i (suc left) =
    let rest = leader_of leads (i + 1) left in if leads i then (true, i) else rest

-- xs[i] = v
unfoldable pub put_at : List ℕ → (i v : ℕ) → Option (List ℕ)
put_at xs i v = if ltb i (length xs) then some (set xs i v) else none

-- for i := 0; i < cfg.n; i++, from `i` on
unfoldable pub deal : (l i j left : ℕ) → (p1 p2 : List ℕ) → Option (List ℕ × List ℕ)
unfolding put_at
deal l i j zero p1 p2 = some (p1, p2)
deal l i j (suc left) p1 p2 =
    let rest = λ (k : ℕ) (q1 q2 : List ℕ). deal l (i + 1) k left q1 q2 in
    if i == l
    then rest j p1 p2
    else if ltb j (length p1)
    then (do q ← put_at p1 j i; rest (j + 1) q p2)
    else (do q ← put_at p2 (j - length p1) i; rest (j + 1) p1 q)

unfoldable pub make_partition : (leads : ℕ → Bool) → (n : ℕ) → Option (List ℕ × List ℕ)
unfolding leader_of deal put_at
make_partition leads n = do
  let (found, l) = leader_of leads 0 n
  (p1, p2) ← deal l 0 0 n (replicate (n / 2 + 1) 0) (replicate (n / 2) 0)
  if ltb 0 (length p2) then (do q ← put_at p2 (length p2 - 1) l; some (p1, q)) else none

deal_lengths :
    (l i j left : ℕ) (p1 p2 : List ℕ) {q1 q2 : List ℕ}
    → deal l i j left p1 p2 ≡ some (q1, q2)
    → (length q1 ≡ length p1) × (length q2 ≡ length p2)
unfolding deal put_at
deal_lengths l i j zero p1 p2 h = (ground (arith, h), ground (arith, h))
deal_lengths l i j (suc left) p1 p2 {q1} {q2} h = elim (Bool-cases (i == l)) [
  | inl here ↦ deal_lengths l (i + 1) j left p1 p2 {q1 = q1} {q2 = q2} (ground (arith, h, here))
  | inr other ↦ elim (Bool-cases (ltb j (length p1))) [
    | inl first ↦
        let (one, two) =
          deal_lengths l (i + 1) (j + 1) left (set p1 j i) p2 {q1 = q1} {q2 = q2}
            (ground (arith, h, other, first)) in
        (ground (arith, one, length-set p1 j i), two)
    | inr second ↦ elim (Bool-cases (ltb (j - length p1) (length p2))) [
      | inl fits ↦
          let (one, two) =
            deal_lengths l (i + 1) (j + 1) left p1 (set p2 (j - length p1) i) {q1 = q1} {q2 = q2}
              (ground (arith, h, other, second, fits)) in
          (one, ground (arith, two, length-set p2 (j - length p1) i))
      | inr past ↦ ground (arith, h, other, second, past)
    ]
  ]
]

length-replicate : (n v : ℕ) → length (replicate n v) ≡ n
length-replicate zero v = refl
length-replicate (suc n) v = ground (arith, length-replicate n v)

-- If `make_partition` does not fail, the first group has more than half of the places, the second the rest of them, and the
-- last place of the second is the server that `Leader` gives.
pub make_partition_minority :
    (leads : ℕ → Bool) (n : ℕ) {p1 p2 : List ℕ}
    → make_partition leads n ≡ some (p1, p2)
    → (n < length p1 * 2)
      × (length p2 * 2 ≤ n)
      × (get_elem? p2 (length p2 - 1) ≡ some (leader_of leads 0 n).1)
unfolding make_partition put_at
make_partition_minority leads n {p1} {p2} h =
    let l = (leader_of leads 0 n).1 in
    elim (Option-cases (deal l 0 0 n (replicate (n / 2 + 1) 0) (replicate (n / 2) 0))) [
      | inl fault ↦ ground (arith, h, fault)
      | inr ((q1, q2), dealt) ↦
          let (one, two) =
            deal_lengths l 0 0 n (replicate (n / 2 + 1) 0) (replicate (n / 2) 0) dealt in
          let len1 = length-replicate (n / 2 + 1) 0 in
          let len2 = length-replicate (n / 2) 0 in
          let same1 : q1 ≡ p1 = ground (arith, h, dealt) in
          let some_place : 0 < length q2 = ground (arith, h, dealt) in
          let same2 : set q2 (length q2 - 1) l ≡ p2 = ground (arith, h, dealt) in
          let size = length-set q2 (length q2 - 1) l in
          let last = get_elem?-set_self q2 (length q2 - 1) l (omega (arith, some_place)) in
          (
            ground (arith, one, len1, same1),
            ground (arith, two, len2, same2, size),
            ground (arith, same2, size, last),
          )
    ]
