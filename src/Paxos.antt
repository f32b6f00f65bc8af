-- ===== src/Paxos.antt =====
-- src/paxos/paxos.go: a peer with its flags, its counter and the loop that takes connections. The
-- functions of the agreement itself have bodies that return constants. The 32-bit counter is kept
-- modulo 2^32.
use Prim.Native.String.{String}
use code2go.Prelude.{
  ℕ, ◌+◌, ◌%◌, ◌^◌, ◌≡◌, refl, Bool, true, false, Option, none, some, List, get_elem?,
  if◌then◌else◌, ◌>>=◌, arith,
}
use code2go.Accept.{Outcome, Host, Turn, accept_loop}
use code2go.Accept.Laws.{IsHost}
use code2go.Accept.Counts.{IsCounter, processed, accept_loop_counts}

pub data Fate : Type 0 where
  decided : Fate
  pending : Fate
  forgotten : Fate

pub data Listener : Type 0 where
  missing : Listener
  listening : Listener
  shut : Listener

pub record Paxos : Type 0 where
  pub l : Listener
  pub dead : Bool
  pub unreliable : Bool
  pub rpc_count : ℕ
  pub peers : List String
  pub me : ℕ

unfoldable pub start : {A : Type 0} → (seq : ℕ) → A → Paxos → Paxos
start seq v px = px

unfoldable pub done : (seq : ℕ) → Paxos → Paxos
done seq px = px

unfoldable pub max_seq : Paxos → ℕ
max_seq px = 0

unfoldable pub min_seq : Paxos → ℕ
min_seq px = 0

-- The value is nil.
unfoldable pub status : (seq : ℕ) → Paxos → Fate
status seq px = pending

-- if px.l != nil { px.l.Close() }
unfoldable pub close : Listener → Listener
close missing = missing
close listening = shut
close shut = shut

unfoldable pub kill : Paxos → Paxos
unfolding close
kill px = record px { dead = true; l = close px.l }

unfoldable pub set_unreliable : Bool → Paxos → Paxos
set_unreliable what px = record px { unreliable = what }

-- A peer of a server of its own, or one without; `listens` says that net.Listen succeeds. A panic and
-- log.Fatal are `none`.
unfoldable pub make : (peers : List String) → (me : ℕ) → (with_rpcs listens : Bool) → Option Paxos
make peers me with_rpcs listens =
    let px : Paxos = record {
      l = missing;
      dead = false;
      unreliable = false;
      rpc_count = 0;
      peers = peers;
      me = me;
    } in
    if with_rpcs
    then some px
    else do port ← get_elem? peers me; if listens then some (record px { l = listening }) else none

unfoldable pub count_rpc : Paxos → Paxos
count_rpc px = record px { rpc_count = (px.rpc_count + 1) % 2 ^ 32 }

-- A failed Accept is only printed.
abbrev pub paxos_host : Host Paxos
paxos_host = record {
  is_dead = λ px. px.dead;
  is_unreliable = λ px. px.unreliable;
  kill = kill;
  set_unreliable = set_unreliable;
  count_rpc = count_rpc;
  on_error = λ px. px;
}

unfoldable pub serve : List Turn → Paxos → Paxos × List Outcome
unfolding accept_loop
serve turns px = accept_loop paxos_host turns px

pub paxos_host-IsHost : IsHost paxos_host
unfolding kill set_unreliable count_rpc
paxos_host-IsHost = record {
  kill_dead = λ px. refl;
  set_dead = λ what px. refl;
  count_dead = λ px. refl;
}

paxos_host-IsCounter : IsCounter paxos_host (λ px. px.rpc_count)
unfolding kill set_unreliable count_rpc
paxos_host-IsCounter = record {
  counts = λ px. refl;
  kill_keeps = λ px. refl;
  set_keeps = λ what px. refl;
  error_keeps = λ px. refl;
}

-- After the loop has run, whatever happened to the peer meanwhile, the counter of a new peer is the number of requests
-- that reached a handler, those with a reply that was cut off among them, modulo 2^32.
pub serve_counts :
    (peers : List String) (me : ℕ) (with_rpcs listens : Bool) (turns : List Turn) {px : Paxos}
    → make peers me with_rpcs listens ≡ some px
    → (serve turns px).0.rpc_count ≡ processed (serve turns px).1 % 2 ^ 32
unfolding make serve
serve_counts peers me with_rpcs listens turns {px} made =
    let zero_count : px.rpc_count ≡ 0 = ground arith in
    let counted =
      accept_loop_counts paxos_host (λ p. p.rpc_count) paxos_host-IsCounter turns px
        (ground (arith, zero_count)) in
    ground (arith, counted, zero_count)
