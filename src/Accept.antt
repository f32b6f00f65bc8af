-- ===== src/Accept.antt =====
-- The loop in which a server takes connections. It is the same in src/kvpaxos/server.go,
-- src/paxos-shardkv/server.go, src/paxos-shardmaster/server.go, src/diskv/server.go,
-- src/pbservice/server.go and src/paxos/paxos.go, up to what the server counts and does when Accept
-- fails. What Accept returns, the random numbers and what other goroutines do while it waits are
-- arguments; the flags are then read at one moment.
pub mod Loop
pub mod Laws
pub mod Counts
pub mod Keeps
mod Tests
use code2go.Prelude.{
  ℕ, ◌%◌, Bool, true, false, not, ◌&&◌, Option, none, some, List, [], ◌∷◌, ltb, if◌then◌else◌,
}

pub data Outcome : Type 0 where
  discarded : Outcome
  muted : Outcome  -- processed, with its reply cut off
  served : Outcome
  closed : Outcome
  failed : Outcome

-- What another goroutine does to a server.
pub data Action : Type 0 where
  kills : Action
  sets_unreliable : Bool → Action

-- What a package gives to its loop.
pub record Host (S : Type 0) : Type 0 where
  pub is_dead : S → Bool
  pub is_unreliable : S → Bool
  pub kill : S → S
  pub set_unreliable : Bool → S → S
  pub count_rpc : S → S
  pub on_error : S → S

-- One round: the goroutines that run while Accept waits, whether it returns a connection, and the
-- two random numbers.
pub record Turn : Type 0 where
  pub meanwhile : List Action
  pub accepted : Bool
  pub draw : ℕ
  pub draw' : ℕ

unfoldable pub take_connection : (dead unreliable : Bool) → Turn → Outcome
take_connection dead unreliable t =
    if t.accepted && not dead
    then (if unreliable && ltb (t.draw % 1000) 100
        then discarded
        else if unreliable && ltb (t.draw' % 1000) 200
        then muted
        else served)
    else if t.accepted
    then closed
    else failed

-- Whether the request reaches a handler.
unfoldable pub is_processed : Outcome → Bool
is_processed discarded = false
is_processed muted = true
is_processed served = true
is_processed closed = false
is_processed failed = false

module _ {S : Type 0} (h : Host S) where
  unfoldable pub act : Action → S → S
  act kills s = h.kill s
  act (sets_unreliable what) s = h.set_unreliable what s

  unfoldable pub acts : List Action → S → S
  unfolding act
  acts [] s = s
  acts (a ∷ more) s = acts more (act a s)

  -- The body of the loop on a server that was found alive.
  unfoldable pub round : Turn → S → S × Outcome
  unfolding acts take_connection is_processed
  round t s =
      let s' = acts t.meanwhile s in
      let o = take_connection (h.is_dead s') (h.is_unreliable s') t in
      (
        if is_processed o
            then h.count_rpc s'
            else if not t.accepted && not (h.is_dead s')
            then h.on_error s'
            else s',
        o,
      )

  unfoldable pub accept_loop : List Turn → S → S × List Outcome
  unfolding round
  accept_loop [] s = (s, [])
  accept_loop (t ∷ turns) s =
      let (s', o) = round t s in
      let (s'', more) = accept_loop turns s' in if h.is_dead s then (s, []) else (s'', o ∷ more)
