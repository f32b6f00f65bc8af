-- ===== src/Labrpc.antt =====
-- src/labrpc/labrpc.go: a network between client ends and servers that loses, delays and reorders.
-- The names of ends and servers are compared only with `==`: they are natural numbers here, and a
-- missing key of a map is what Go reads there. A `*Server` is an address, `none` is nil.
pub mod Dispatch
pub mod Request
mod Replies
mod Tests
use code2go.Prelude.{
  ℕ, zero, suc, ◌+◌, ◌*◌, ◌%◌, Bool, true, false, not, ◌&&◌, ◌||◌, Option, none, some, ltb, ◌==◌,
  if◌then◌else◌, ◌>>=◌,
}

abbrev pub assign_at {ℓ} : {A : Type ℓ} → (ℕ → A) → ℕ → A → ℕ → A
assign_at m k v j = if k == j then v else m j

pub record Network : Type 0 where
  pub reliable : Bool
  pub long_delays : Bool
  pub long_reordering : Bool
  pub ends : ℕ → Bool
  pub enabled : ℕ → Bool
  pub servers : ℕ → Option ℕ
  pub connections : ℕ → Option ℕ

unfoldable pub make_network : Network
make_network = record {
  reliable = true;
  long_delays = false;
  long_reordering = false;
  ends = λ e. false;
  enabled = λ e. false;
  servers = λ s. none;
  connections = λ e. none;
}

unfoldable pub set_reliable : Bool → Network → Network
set_reliable on rn = record rn { reliable = on }

unfoldable pub set_long_reordering : Bool → Network → Network
set_long_reordering on rn = record rn { long_reordering = on }

unfoldable pub set_long_delays : Bool → Network → Network
set_long_delays on rn = record rn { long_delays = on }

-- An end that exists already is fatal.
unfoldable pub make_end : (endname : ℕ) → Network → Option Network
make_end endname rn =
    if rn.ends endname
    then none
    else some (record rn {
      ends = assign_at rn.ends endname true;
      enabled = assign_at rn.enabled endname false;
      connections = assign_at rn.connections endname none;
    })

unfoldable pub add_server : (servername address : ℕ) → Network → Network
add_server servername address rn = record rn {
  servers = assign_at rn.servers servername (some address);
}

unfoldable pub delete_server : (servername : ℕ) → Network → Network
delete_server servername rn = record rn { servers = assign_at rn.servers servername none }

unfoldable pub connect : (endname servername : ℕ) → Network → Network
connect endname servername rn = record rn {
  connections = assign_at rn.connections endname (some servername);
}

unfoldable pub enable : (endname : ℕ) → Bool → Network → Network
enable endname enabled rn = record rn { enabled = assign_at rn.enabled endname enabled }

pub record EndnameInfo : Type 0 where
  pub enabled : Bool
  pub servername : Option ℕ
  pub server : Option ℕ
  pub reliable : Bool
  pub longreordering : Bool

unfoldable pub connected_server : (servername : Option ℕ) → Network → Option ℕ
connected_server none rn = none
connected_server (some servername) rn = rn.servers servername

unfoldable pub read_endname_info : (endname : ℕ) → Network → EndnameInfo
unfolding connected_server
read_endname_info endname rn = record {
  enabled = rn.enabled endname;
  servername = rn.connections endname;
  server = connected_server (rn.connections endname) rn;
  reliable = rn.reliable;
  longreordering = rn.long_reordering;
}

-- p == q for two pointers, of which the second is not nil
unfoldable pub same_server : Option ℕ → ℕ → Bool
same_server none address = false
same_server (some a) address = a == address

unfoldable pub is_server_dead : (endname servername server : ℕ) → Network → Bool
unfolding same_server
is_server_dead endname servername server rn =
    not (rn.enabled endname) || not (same_server (rn.servers servername) server)

-- What `math/rand` returns at the places of `ProcessReq` that ask it: `Int()` is any number that is not negative,
-- `Intn(n)` is one below n.
pub record Draws : Type 0 where
  pub short_delay : ℕ  -- rand.Int() % 27
  pub drop_request : ℕ  -- rand.Int() % 1000
  pub drop_reply : ℕ  -- rand.Int() % 1000
  pub reorder : ℕ  -- rand.Intn(900)
  pub late : ℕ  -- rand.Intn(1 + rand.Intn(2000))
  pub idle : ℕ  -- rand.Int()

-- What `ProcessReq` sends to `replyCh`, `none` for a failure, how long it slept itself before, and whether the
-- handler of the server was started.
pub record Sent (R : Type 0) : Type 0 where
  pub called : Bool
  pub delay : ℕ
  pub reply : Option R

module _ {R : Type 0} where
  -- The loop that waits for the handler. `selects` says what each `select` gets, `none` where the time is over, and `nets` is
  -- the network at each test that follows. The result is `some none` for a dead server.
  unfoldable pub wait_reply :
      (endname servername server : ℕ)
      → (selects : ℕ → Option R) → (nets : ℕ → Network) → (poll fuel : ℕ) → Option (Option R)
  unfolding is_server_dead
  wait_reply endname servername server selects nets poll zero = none
  wait_reply endname servername server selects nets poll (suc fuel) =
      let rest = wait_reply endname servername server selects nets (poll + 1) fuel in
      elim (selects poll) [
        | some reply ↦ some (some reply)
        | none ↦ if is_server_dead endname servername server (nets poll) then some none else rest
      ]

  -- What is sent once the wait is over: `dead` is the last test.
  unfoldable pub answer_req :
      Draws → (reliable longreordering dead : Bool) → (slept : ℕ) → Option R → Sent R
  answer_req d reliable longreordering dead slept none = record {
    called = true;
    delay = slept;
    reply = none;
  }
  answer_req d reliable longreordering dead slept (some reply) =
      if dead
      then record { called = true; delay = slept; reply = none }
      else if not reliable && ltb (d.drop_reply % 1000) 100
      then record { called = true; delay = slept; reply = none }
      else if longreordering && ltb d.reorder 600
      then record { called = true; delay = slept + (200 + d.late); reply = some reply }
      else record { called = true; delay = slept; reply = some reply }

  -- No server: the time that passes before the failure.
  unfoldable pub no_reply : Draws → Network → Sent R
  no_reply d rn = record {
    called = false;
    delay = (if rn.long_delays then d.idle % 7000 else d.idle % 100);
    reply = none;
  }

  unfoldable pub reach_server :
      Draws
      → EndnameInfo
      → (endname servername server : ℕ) → (selects : ℕ → Option R) → (nets : ℕ → Network)
      → (last : Network) → (fuel : ℕ) → Option (Sent R)
  unfolding wait_reply answer_req
  reach_server d info endname servername server selects nets last fuel =
      let slept = if info.reliable then 0 else d.short_delay % 27 in
      if not info.reliable && ltb (d.drop_request % 1000) 100
      then some (record { called = false; delay = slept; reply = none })
      else do
        got ← wait_reply endname servername server selects nets 0 fuel
        some (
            answer_req d info.reliable info.longreordering
              (is_server_dead endname servername server last) slept got)

  -- `start` and `last` are the network at the first and the last look at it.
  unfoldable pub process_req :
      Draws
      → (start : Network) → (endname : ℕ) → (selects : ℕ → Option R) → (nets : ℕ → Network)
      → (last : Network) → (fuel : ℕ) → Option (Sent R)
  unfolding read_endname_info reach_server no_reply
  process_req d start endname selects nets last fuel =
      let info = read_endname_info endname start in
      if not info.enabled then some (no_reply d last) else elim info.servername [
        | none ↦ some (no_reply d last)
        | some servername ↦ elim info.server [
          | none ↦ some (no_reply d last)
          | some server ↦ reach_server d info endname servername server selects nets last fuel
        ]
      ]
