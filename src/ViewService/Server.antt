-- ===== src/ViewService/Server.antt =====
-- src/viewservice/server.go: the server, its counter of calls and its loop, which is never unreliable.
-- `Ping`, `Get` and `tick` have empty bodies in the source. The 32-bit counter is kept modulo 2^32.
use Prim.Native.String.{String}
use code2go.Prelude.{
  ℕ, ◌+◌, ◌%◌, ◌^◌, ◌≡◌, refl, Bool, true, false, Option, none, some, List, if◌then◌else◌, arith,
}
use code2go.Accept.{Outcome, Host, Turn, accept_loop}
use code2go.Accept.Laws.{IsHost}
use code2go.Accept.Counts.{IsCounter, processed, accept_loop_counts}
use code2go.Paxos.{Listener, listening, shut}

pub record ViewServer : Type 0 where
  pub l : Listener
  pub dead : Bool
  pub rpccount : ℕ
  pub me : String

unfoldable pub kill : ViewServer → ViewServer
kill vs = record vs { dead = true; l = shut }

unfoldable pub get_rpc_count : ViewServer → ℕ
get_rpc_count vs = vs.rpccount

-- `listens` says that net.Listen succeeds; log.Fatal is `none`.
unfoldable pub start_server : (me : String) → (listens : Bool) → Option ViewServer
start_server me listens =
    if listens then some (record { l = listening; dead = false; rpccount = 0; me = me }) else none

unfoldable pub count_rpc : ViewServer → ViewServer
count_rpc vs = record vs { rpccount = (vs.rpccount + 1) % 2 ^ 32 }

abbrev pub view_host : Host ViewServer
view_host = record {
  is_dead = λ vs. vs.dead;
  is_unreliable = λ vs. false;
  kill = kill;
  set_unreliable = λ what vs. vs;
  count_rpc = count_rpc;
  on_error = kill;
}

unfoldable pub serve : List Turn → ViewServer → ViewServer × List Outcome
unfolding accept_loop
serve turns vs = accept_loop view_host turns vs

pub view_host-IsHost : IsHost view_host
unfolding kill count_rpc
view_host-IsHost = record {
  kill_dead = λ vs. refl;
  set_dead = λ what vs. refl;
  count_dead = λ vs. refl;
}

view_host-IsCounter : IsCounter view_host (λ vs. vs.rpccount)
unfolding kill count_rpc
view_host-IsCounter = record {
  counts = λ vs. refl;
  kill_keeps = λ vs. refl;
  set_keeps = λ what vs. refl;
  error_keeps = λ vs. refl;
}

-- `GetRPCCount` of a server that was started gives the number of requests that reached a handler, modulo 2^32.
pub get_rpc_count-serve :
    (me : String) (listens : Bool) (turns : List Turn) {vs : ViewServer}
    → start_server me listens ≡ some vs
    → get_rpc_count (serve turns vs).0 ≡ processed (serve turns vs).1 % 2 ^ 32
unfolding start_server serve get_rpc_count
get_rpc_count-serve me listens turns {vs} made =
    let zero_count : vs.rpccount ≡ 0 = ground arith in
    let counted =
      accept_loop_counts view_host (λ s. s.rpccount) view_host-IsCounter turns vs
        (ground (arith, zero_count)) in
    ground (arith, counted, zero_count)
