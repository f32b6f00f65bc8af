-- ===== src/LockService/Server.antt =====
-- src/lockservice/server.go: `StartServer`'s loop of connections with the flag `dying`, under which one more
-- request is processed and its reply discarded (`DeafConn`). What Accept returns, and whether a test sets
-- the flag while it waits, are arguments.
use code2go.Prelude.{◌≡◌, refl, Bool, true, false, not, ◌&&◌, List, [], ◌∷◌, if◌then◌else◌, arith}
use code2go.Accept.{Outcome, muted, served, closed, failed}
use code2go.Paxos.{Listener, shut}

pub record Flags : Type 0 where
  pub l : Listener
  pub dead : Bool
  pub dying : Bool

pub record LockTurn : Type 0 where
  pub dies : Bool  -- `dying` is set meanwhile
  pub killed : Bool
  pub accepted : Bool

unfoldable pub kill : Flags → Flags
kill ls = record ls { dead = true; l = shut }

-- What the other goroutines do while Accept waits.
unfoldable pub meanwhile : LockTurn → Flags → Flags
unfolding kill
meanwhile t ls =
    let ls' = record ls { dying = (if t.dies then true else ls.dying) } in
    if t.killed then kill ls' else ls'

unfoldable pub lock_round : LockTurn → Flags → Flags × Outcome
unfolding meanwhile kill
lock_round t ls =
    let ls' = meanwhile t ls in
    if t.accepted && not ls'.dead
    then (if ls'.dying then (record ls' { l = shut; dead = true }, muted) else (ls', served))
    else if t.accepted
    then (ls', closed)
    else (if not ls'.dead then kill ls' else ls', failed)

unfoldable pub lock_serve : List LockTurn → Flags → Flags × List Outcome
unfolding lock_round
lock_serve [] ls = (ls, [])
lock_serve (t ∷ turns) ls =
    let (ls', o) = lock_round t ls in
    let (ls'', more) = lock_serve turns ls' in if ls.dead then (ls, []) else (ls'', o ∷ more)

dead_ends : (turns : List LockTurn) (ls : Flags) → ls.dead ≡ true → lock_serve turns ls ≡ (ls, [])
unfolding lock_serve
dead_ends [] ls dead = refl
dead_ends (t ∷ turns) ls dead = rw dead refl

one_more :
    (t : LockTurn) (turns : List LockTurn) (ls : Flags)
    → ls.dead ≡ false
    → lock_serve (t ∷ turns) ls ≡ (
      (lock_serve turns (lock_round t ls).0).0,
      (lock_round t ls).1 ∷ (lock_serve turns (lock_round t ls).0).1,
    )
unfolding lock_serve
one_more t turns ls alive = ground (arith, alive)

last_round :
    (t : LockTurn) (ls : Flags)
    → ls.dead ≡ false
    → ls.dying ≡ true
    → ((lock_round t ls).0.dead ≡ true)
      × ((lock_round t ls).1 ≡ (if t.accepted then if t.killed then closed else muted else failed))
unfolding lock_round
last_round t ls alive dying = (ground (arith, alive, dying), ground (arith, alive, dying))

-- Once `dying` is set, a server that is alive takes one more connection at most: it processes that request, discards the
-- reply and is dead, and whatever comes after it is not looked at.
pub dying_ends :
    (t : LockTurn) (turns : List LockTurn) (ls : Flags)
    → ls.dead ≡ false
    → ls.dying ≡ true
    → ((lock_serve (t ∷ turns) ls).0.dead ≡ true)
      × ((lock_serve (t ∷ turns) ls).1
          ≡ (if t.accepted then if t.killed then closed else muted else failed) ∷ [])
dying_ends t turns ls alive dying =
    let (dead, o) = last_round t ls alive dying in
    rw (one_more t turns ls alive, dead_ends turns (lock_round t ls).0 dead, o) (dead, refl)
