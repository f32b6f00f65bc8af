-- ===== src/Harness/Links.antt =====
-- src/raft/config.go: `connect`, `disconnect`, and what `crash1` and `start1` do to the links and to the
-- saved state. The link of a server to another is the end that the one calls the other through;
-- labrpc makes it disabled.
use code2go.Prelude.{
  ℕ, zero, suc, ◌+◌, ◌<◌, ◌≡◌, refl, ap, Bool, true, false, ◌&&◌, Option, none, some, List, [], ◌∷◌,
  ltb, leb, ◌==◌, if◌then◌else◌, arith, ==_iff, Bool-cases, inl, inr,
}
use code2go.Persister.{Persister, make_persister, copy, read_raft_state}

pub record Links : Type 0 where
  pub connected : ℕ → Bool
  pub enabled : (from to : ℕ) → Bool

-- cfg.net.Enable(endname, on), for the end of `from` to `to`
abbrev pub enable : (from to : ℕ) → Bool → Links → Links
enable from to on l = record l {
  enabled = λ a b. if a == from && b == to then on else l.enabled a b;
}

-- for j := 0; j < cfg.n; j++, from `j` on: outgoing ends to the servers that are connected
unfoldable pub enable_outgoing : (i j left : ℕ) → Links → Links
enable_outgoing i j zero l = l
enable_outgoing i j (suc left) l =
    enable_outgoing i (j + 1) left (if l.connected j then enable i j true l else l)

unfoldable pub enable_incoming : (i j left : ℕ) → Links → Links
enable_incoming i j zero l = l
enable_incoming i j (suc left) l =
    enable_incoming i (j + 1) left (if l.connected j then enable j i true l else l)

unfoldable pub disable_outgoing : (i j left : ℕ) → Links → Links
disable_outgoing i j zero l = l
disable_outgoing i j (suc left) l = disable_outgoing i (j + 1) left (enable i j false l)

unfoldable pub disable_incoming : (i j left : ℕ) → Links → Links
disable_incoming i j zero l = l
disable_incoming i j (suc left) l = disable_incoming i (j + 1) left (enable j i false l)

abbrev pub set_connected : (i : ℕ) → Bool → Links → Links
set_connected i on l = record l { connected = λ s. if s == i then on else l.connected s }

unfoldable pub connect : (n i : ℕ) → Links → Links
unfolding enable_outgoing enable_incoming
connect n i l = enable_incoming i 0 n (enable_outgoing i 0 n (set_connected i true l))

unfoldable pub disconnect : (n i : ℕ) → Links → Links
unfolding disable_outgoing disable_incoming
disconnect n i l = disable_incoming i 0 n (disable_outgoing i 0 n (set_connected i false l))

-- The state that a peer finds after a crash: only what `ReadRaftState` gives, in a new persister.
unfoldable pub crash_saved : {B : Type 0} → Option (Persister B) → Option (Persister B)
unfolding copy make_persister read_raft_state
crash_saved none = none
crash_saved (some saved) = some (record make_persister { raftstate = read_raft_state (copy saved) })

-- The state that `Make` is given.
unfoldable pub start_saved : {B : Type 0} → Option (Persister B) → Persister B
unfolding crash_saved copy make_persister
start_saved saved = elim (crash_saved saved) [ none ↦ make_persister | some kept ↦ copy kept ]

-- The links once a server was crashed and given new ends.
unfoldable pub restart : (n i : ℕ) → Links → Links
unfolding disconnect disable_outgoing
restart n i l = disable_outgoing i 0 n (disconnect n i l)

pub data Change : Type 0 where
  connects : ℕ → Change
  disconnects : ℕ → Change
  restarts : ℕ → Change

unfoldable pub change : (n : ℕ) → Change → Links → Links
unfolding connect disconnect restart
change n (connects i) l = connect n i l
change n (disconnects i) l = disconnect n i l
change n (restarts i) l = restart n i l

unfoldable pub changes : (n : ℕ) → List Change → Links → Links
unfolding change
changes n [] l = l
changes n (c ∷ cs) l = changes n cs (change n c l)

at_same : (l : Links) (j s : ℕ) → (j == s) ≡ true → l.connected j ≡ l.connected s
at_same l j s h = ap l.connected ((==_iff j s).0 h)

enable_outgoing_all :
    (i j left : ℕ) (l : Links)
    → ((s : ℕ) → (enable_outgoing i j left l).connected s ≡ l.connected s)
      × ((a b : ℕ)
          → (enable_outgoing i j left l).enabled a b ≡ (
              if a == i && leb j b && ltb b (j + left) && l.connected b
              then true
              else l.enabled a b))
unfolding enable_outgoing
enable_outgoing_all i j zero l = (λ s. refl, λ a b. ground arith)
enable_outgoing_all i j (suc left) l = elim (Bool-cases (l.connected j)) [
  | inl up ↦
      let (same, on) = enable_outgoing_all i (j + 1) left (enable i j true l) in
      (λ s. ground (arith, up, same s), λ a b. ground (arith, on a b, up, at_same l j b))
  | inr down ↦
      let (same, on) = enable_outgoing_all i (j + 1) left l in
      (λ s. ground (arith, down, same s), λ a b. ground (arith, on a b, down, at_same l j b))
]

enable_incoming_all :
    (i j left : ℕ) (l : Links)
    → ((s : ℕ) → (enable_incoming i j left l).connected s ≡ l.connected s)
      × ((a b : ℕ)
          → (enable_incoming i j left l).enabled a b ≡ (
              if b == i && leb j a && ltb a (j + left) && l.connected a
              then true
              else l.enabled a b))
unfolding enable_incoming
enable_incoming_all i j zero l = (λ s. refl, λ a b. ground arith)
enable_incoming_all i j (suc left) l = elim (Bool-cases (l.connected j)) [
  | inl up ↦
      let (same, on) = enable_incoming_all i (j + 1) left (enable j i true l) in
      (λ s. ground (arith, up, same s), λ a b. ground (arith, on a b, up, at_same l j a))
  | inr down ↦
      let (same, on) = enable_incoming_all i (j + 1) left l in
      (λ s. ground (arith, down, same s), λ a b. ground (arith, on a b, down, at_same l j a))
]

disable_outgoing_all :
    (i j left : ℕ) (l : Links)
    → ((s : ℕ) → (disable_outgoing i j left l).connected s ≡ l.connected s)
      × ((a b : ℕ)
          → (disable_outgoing i j left l).enabled a b
            ≡ (if a == i && leb j b && ltb b (j + left) then false else l.enabled a b))
unfolding disable_outgoing
disable_outgoing_all i j zero l = (λ s. refl, λ a b. ground arith)
disable_outgoing_all i j (suc left) l =
    let (same, off) = disable_outgoing_all i (j + 1) left (enable i j false l) in
    (same, λ a b. ground (arith, off a b))

disable_incoming_all :
    (i j left : ℕ) (l : Links)
    → ((s : ℕ) → (disable_incoming i j left l).connected s ≡ l.connected s)
      × ((a b : ℕ)
          → (disable_incoming i j left l).enabled a b
            ≡ (if b == i && leb j a && ltb a (j + left) then false else l.enabled a b))
unfolding disable_incoming
disable_incoming_all i j zero l = (λ s. refl, λ a b. ground arith)
disable_incoming_all i j (suc left) l =
    let (same, off) = disable_incoming_all i (j + 1) left (enable j i false l) in
    (same, λ a b. ground (arith, off a b))

-- A link between two of the servers is enabled exactly when both are connected.
abbrev pub IsLinked : ℕ → Links → Type 0
IsLinked n l = (a b : ℕ) → a < n → b < n → l.enabled a b ≡ (l.connected a && l.connected b)

connect-IsLinked : (n i : ℕ) (l : Links) → IsLinked n l → IsLinked n (connect n i l)
unfolding connect
connect-IsLinked n i l ok a b la lb =
    let joined = set_connected i true l in
    let (same1, on1) = enable_outgoing_all i 0 n joined in
    let (same2, on2) = enable_incoming_all i 0 n (enable_outgoing i 0 n joined) in
    ground (arith, same1 a, same1 b, same2 a, same2 b, on1 a b, on2 a b, ok a b la lb)

disconnect-IsLinked : (n i : ℕ) (l : Links) → IsLinked n l → IsLinked n (disconnect n i l)
unfolding disconnect
disconnect-IsLinked n i l ok a b la lb =
    let (same1, off1) = disable_outgoing_all i 0 n (set_connected i false l) in
    let (same2, off2) =
      disable_incoming_all i 0 n (disable_outgoing i 0 n (set_connected i false l)) in
    ground (arith, same1 a, same1 b, same2 a, same2 b, off1 a b, off2 a b, ok a b la lb)

disconnect-connected : (n i : ℕ) (l : Links) → (disconnect n i l).connected i ≡ false
unfolding disconnect
disconnect-connected n i l =
    let (same1, off1) = disable_outgoing_all i 0 n (set_connected i false l) in
    let (same2, off2) =
      disable_incoming_all i 0 n (disable_outgoing i 0 n (set_connected i false l)) in
    ground (arith, same1 i, same2 i)

restart-IsLinked : (n i : ℕ) (l : Links) → IsLinked n l → IsLinked n (restart n i l)
unfolding restart
restart-IsLinked n i l ok a b la lb =
    let off = disconnect n i l in
    let (same, cut) = disable_outgoing_all i 0 n off in
    ground (
      arith,
      same a,
      same b,
      cut a b,
      disconnect-IsLinked n i l ok a b la lb,
      disconnect-connected n i l,
      at_same off i a,
    )

-- Whatever order servers are connected, disconnected and restarted in, the link of one to another is enabled exactly when
-- both are connected.
pub changes-IsLinked :
    (n : ℕ) (cs : List Change) (l : Links) → IsLinked n l → IsLinked n (changes n cs l)
unfolding changes
changes-IsLinked n [] l ok = ok
changes-IsLinked n (connects i ∷ cs) l ok =
    changes-IsLinked n cs (connect n i l) (connect-IsLinked n i l ok)
changes-IsLinked n (disconnects i ∷ cs) l ok =
    changes-IsLinked n cs (disconnect n i l) (disconnect-IsLinked n i l ok)
changes-IsLinked n (restarts i ∷ cs) l ok =
    changes-IsLinked n cs (restart n i l) (restart-IsLinked n i l ok)

-- A restarted peer finds the state that was saved last, and no snapshot.
pub start_saved-keeps :
    {B : Type 0} (saved : Persister B)
    → start_saved (some saved) ≡ record { raftstate = saved.raftstate; snapshot = none }
unfolding start_saved crash_saved
start_saved-keeps saved = refl
