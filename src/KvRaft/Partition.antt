-- ===== src/KvRaft/Partition.antt =====
-- src/kvraft/config.go: the links between the servers of a test cluster, and `partition`. An index out of
-- range is `none`; `ends` says which servers have their ends.
use code2go.Prelude.{
  ℕ, ◌+◌, ◌≡◌, refl, Bool, true, false, ◌&&◌, ◌||◌, Option, none, some, List, [], ◌∷◌, ◌==◌,
  if◌then◌else◌, ◌>>=◌, arith,
}

-- Whether the end of a server to another one is enabled.
abbrev pub Ends : Type 0
Ends = (from to : ℕ) → Bool

abbrev pub put_end : (from to : ℕ) → Bool → Ends → Ends
put_end from to on l a b = if from == a && to == b then on else l a b

-- The two loops of `connectUnlocked`.
unfoldable pub connect_out : (i : ℕ) → List ℕ → Ends → Ends
connect_out i [] l = l
connect_out i (t ∷ to) l = connect_out i to (put_end i t true l)

unfoldable pub connect_in : (i : ℕ) → List ℕ → Ends → Ends
connect_in i [] l = l
connect_in i (t ∷ to) l = connect_in i to (put_end t i true l)

unfoldable pub connect_unlocked : (i : ℕ) → List ℕ → Ends → Ends
unfolding connect_out connect_in
connect_unlocked i to l = connect_in i to (connect_out i to l)

-- The two loops of `disconnectUnlocked`. The second one asks whether the server `j` has ends, where `j`
-- counts the list, and not whether the server of the list has them.
unfoldable pub disconnect_out : (ends : ℕ → Bool) → (i : ℕ) → List ℕ → Ends → Ends
disconnect_out ends i [] l = l
disconnect_out ends i (f ∷ from) l =
    disconnect_out ends i from (if ends i then put_end i f false l else l)

unfoldable pub disconnect_in : (ends : ℕ → Bool) → (i j : ℕ) → List ℕ → Ends → Option Ends
disconnect_in ends i j [] l = some l
disconnect_in ends i j (f ∷ from) l =
    let rest = λ (l' : Ends). disconnect_in ends i (j + 1) from l' in
    if ends j then if ends f then rest (put_end f i false l) else none else rest l

unfoldable pub disconnect_unlocked : (ends : ℕ → Bool) → (i : ℕ) → List ℕ → Ends → Option Ends
unfolding disconnect_out disconnect_in
disconnect_unlocked ends i from l = disconnect_in ends i 0 from (disconnect_out ends i from l)

-- One of the two loops of `partition`: the servers of `p`, which are among `own`.
unfoldable pub part : (ends : ℕ → Bool) → (p own other : List ℕ) → Ends → Option Ends
unfolding disconnect_unlocked connect_unlocked
part ends [] own other l = some l
part ends (i ∷ p) own other l =
    let rest = λ (l' : Ends). part ends p own other l' in
    do l' ← disconnect_unlocked ends i other l; rest (connect_unlocked i own l')

unfoldable pub partition : (ends : ℕ → Bool) → (p1 p2 : List ℕ) → Ends → Option Ends
unfolding part
partition ends p1 p2 l = do l' ← part ends p1 p1 p2 l; part ends p2 p2 p1 l'

abbrev pub member : ℕ → List ℕ → Bool
member a [] = false
member a (b ∷ l) = if b == a then true else member a l

swap : (x y : Bool) → (x && y) ≡ false → (y && x) ≡ false
swap x y h = ground (arith, h)

connect_out_all :
    (i : ℕ) (to : List ℕ) (l : Ends) (a b : ℕ)
    → connect_out i to l a b ≡ (if i == a && member b to then true else l a b)
unfolding connect_out
connect_out_all i [] l a b = ground arith
connect_out_all i (t ∷ to) l a b = ground (arith, connect_out_all i to (put_end i t true l) a b)

connect_in_all :
    (i : ℕ) (to : List ℕ) (l : Ends) (a b : ℕ)
    → connect_in i to l a b ≡ (if i == b && member a to then true else l a b)
unfolding connect_in
connect_in_all i [] l a b = ground arith
connect_in_all i (t ∷ to) l a b = ground (arith, connect_in_all i to (put_end t i true l) a b)

module _ (ends : ℕ → Bool) (made : (s : ℕ) → ends s ≡ true) where
  disconnect_out_all :
      (i : ℕ) (from : List ℕ) (l : Ends) (a b : ℕ)
      → disconnect_out ends i from l a b ≡ (if i == a && member b from then false else l a b)
  unfolding disconnect_out
  disconnect_out_all i [] l a b = ground arith
  disconnect_out_all i (f ∷ from) l a b =
      ground (arith, made i, disconnect_out_all i from (put_end i f false l) a b)

  disconnect_in_all :
      (i j : ℕ) (from : List ℕ) (l : Ends)
      → (l' : Ends) × (disconnect_in ends i j from l ≡ some l')
        × ((a b : ℕ) → l' a b ≡ (if i == b && member a from then false else l a b))
  unfolding disconnect_in
  disconnect_in_all i j [] l = (l, refl, λ a b. ground arith)
  disconnect_in_all i j (f ∷ from) l =
      let (l', done, off) = disconnect_in_all i (j + 1) from (put_end f i false l) in
      (l', rw (made j, made f) done, λ a b. ground (arith, off a b))

  -- One round of `partition` for the server `i`.
  part_one :
      (i : ℕ) (own other : List ℕ) (l : Ends)
      → (l' : Ends) × (disconnect_unlocked ends i other l ≡ some l')
        × ((a b : ℕ)
            → connect_unlocked i own l' a b ≡ (
                if (i == a && member b own) || (i == b && member a own)
                then true
                else if (i == a && member b other) || (i == b && member a other)
                then false
                else l a b))
  unfolding disconnect_unlocked connect_unlocked
  part_one i own other l =
      let cut = disconnect_out ends i other l in
      let (l', done, off) = disconnect_in_all i 0 other cut in
      (
        l',
        done,
        λ a b. ground (
          arith,
          connect_in_all i own (connect_out i own l') a b,
          connect_out_all i own l' a b,
          off a b,
          disconnect_out_all i other l a b,
        ),
      )

  part_all :
      (p own other : List ℕ) (l : Ends)
      → ((s : ℕ) → member s p ≡ true → member s own ≡ true)
      → (l' : Ends) × (part ends p own other l ≡ some l')
        × ((a b : ℕ)
            → (member a own && member a other) ≡ false
            → (member b own && member b other) ≡ false
            → l' a b ≡ (
                if (member a p && member b own) || (member b p && member a own)
                then true
                else if (member a p && member b other) || (member b p && member a other)
                then false
                else l a b))
  unfolding part
  part_all [] own other l sub = (l, refl, λ a b ha hb. ground arith)
  part_all (i ∷ p) own other l sub =
      let (l1, cut, one) = part_one i own other l in
      let (l', done, rest) =
        part_all p own other (connect_unlocked i own l1) (λ s h. sub s (ground (arith, h))) in
      (l', rw cut done, λ a b ha hb. ground (arith, rest a b ha hb, one a b, ha, hb, sub a, sub b))

  -- Once all servers have their ends, `partition` into two groups without a common server does not fail; the end of
  -- a server to another is then enabled if both are in one group, disabled if they are in different ones, and
  -- as before if one of them is in neither.
  pub partition_splits :
      (p1 p2 : List ℕ) (l : Ends)
      → (l' : Ends) × (partition ends p1 p2 l ≡ some l')
        × ((a b : ℕ)
            → (member a p1 && member a p2) ≡ false
            → (member b p1 && member b p2) ≡ false
            → l' a b ≡ (
                if (member a p1 && member b p1) || (member a p2 && member b p2)
                then true
                else if (member a p1 && member b p2) || (member a p2 && member b p1)
                then false
                else l a b))
  unfolding partition
  partition_splits p1 p2 l =
      let (l1, first, one) = part_all p1 p1 p2 l (λ s h. h) in
      let (l', second, two) = part_all p2 p2 p1 l1 (λ s h. h) in
      (
        l',
        rw (first, second) refl,
        λ a b ha hb. ground (
          arith,
          one a b ha hb,
          two a b (swap (member a p1) (member a p2) ha) (swap (member b p1) (member b p2) hb),
          ha,
          hb,
        ),
      )
