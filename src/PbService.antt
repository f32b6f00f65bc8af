-- ===== src/PbService.antt =====
-- src/pbservice/server.go: the server and its loop. Its handlers, `tick` and the clerk of client.go have
-- empty bodies in the source.
use Prim.Native.String.{String}
use code2go.Prelude.{refl, Bool, true, false, Option, none, some, List, if◌then◌else◌}
use code2go.Accept.{Outcome, Host, Turn, accept_loop}
use code2go.Accept.Laws.{IsHost}
use code2go.Paxos.{Listener, listening, shut}
use code2go.ViewService.{ViewClerk, make_view_clerk}

pub record PbServer : Type 0 where
  pub l : Listener
  pub dead : Bool
  pub unreliable : Bool
  pub me : String
  pub vs : ViewClerk

unfoldable pub kill : PbServer → PbServer
kill pb = record pb { dead = true; l = shut }

unfoldable pub set_unreliable : Bool → PbServer → PbServer
set_unreliable what pb = record pb { unreliable = what }

-- `listens` says that net.Listen succeeds; log.Fatal is `none`.
unfoldable pub start_server : (vshost me : String) → (listens : Bool) → Option PbServer
unfolding make_view_clerk
start_server vshost me listens =
    if listens
    then some (record {
      l = listening;
      dead = false;
      unreliable = false;
      me = me;
      vs = make_view_clerk me vshost;
    })
    else none

abbrev pub pb_host : Host PbServer
pb_host = record {
  is_dead = λ pb. pb.dead;
  is_unreliable = λ pb. pb.unreliable;
  kill = kill;
  set_unreliable = set_unreliable;
  count_rpc = λ pb. pb;
  on_error = kill;
}

unfoldable pub serve : List Turn → PbServer → PbServer × List Outcome
unfolding accept_loop
serve turns pb = accept_loop pb_host turns pb

pub pb_host-IsHost : IsHost pb_host
unfolding kill set_unreliable
pb_host-IsHost = record {
  kill_dead = λ pb. refl;
  set_dead = λ what pb. refl;
  count_dead = λ pb. refl;
}
