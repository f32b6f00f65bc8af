-- ===== src/DiskKv/Server.antt =====
-- src/diskv/server.go: the server with its Paxos peer. Its handlers and `tick` have empty
-- bodies in the source. The clerk of the shard master is given by its servers.
use Prim.Native.String.{String}
use code2go.Prelude.{
  ℕ, ◌≡◌, refl, Bool, true, false, Option, none, some, List, get_elem?, if◌then◌else◌, ◌>>=◌, arith,
}
use code2go.Paxos.{Paxos, Listener, listening, shut}
use code2go.Paxos
use code2go.Accept.{Outcome, Host, Turn, accept_loop}
use code2go.Accept.Laws.{IsHost}
use code2go.Accept.Keeps.{accept_loop_keeps}

pub record DiskServer : Type 0 where
  pub l : Listener
  pub me : ℕ
  pub dead : Bool
  pub unreliable : Bool
  pub px : Paxos
  pub sm : List String
  pub gid : ℕ
  pub dir : String

unfoldable pub kill : DiskServer → DiskServer
unfolding Paxos.kill
kill kv = record kv { dead = true; l = shut; px = Paxos.kill kv.px }

unfoldable pub set_unreliable : Bool → DiskServer → DiskServer
set_unreliable what kv = record kv { unreliable = what }

-- `listens` says that net.Listen succeeds. A panic and log.Fatal are `none`.
unfoldable pub start_server :
    (gid : ℕ)
    → (shardmasters servers : List String) → (me : ℕ) → (dir : String) → (listens : Bool)
    → Option DiskServer
unfolding Paxos.make
start_server gid shardmasters servers me dir listens = do
  px ← Paxos.make servers me true true
  port ← get_elem? servers me
  if listens
      then some (record {
        l = listening;
        me = me;
        dead = false;
        unreliable = false;
        px = px;
        sm = shardmasters;
        gid = gid;
        dir = dir;
      })
      else none

-- A failed Accept of a server that is alive kills it.
abbrev pub disk_kv_host : Host DiskServer
disk_kv_host = record {
  is_dead = λ kv. kv.dead;
  is_unreliable = λ kv. kv.unreliable;
  kill = kill;
  set_unreliable = set_unreliable;
  count_rpc = λ kv. kv;
  on_error = kill;
}

unfoldable pub serve : List Turn → DiskServer → DiskServer × List Outcome
unfolding accept_loop
serve turns kv = accept_loop disk_kv_host turns kv

pub disk_kv_host-IsHost : IsHost disk_kv_host
unfolding kill set_unreliable
disk_kv_host-IsHost = record {
  kill_dead = λ kv. refl;
  set_dead = λ what kv. refl;
  count_dead = λ kv. refl;
}

-- The Paxos peer of a server that was started is dead exactly when the server is, whatever its connections do and
-- whoever kills it.
pub serve_kills_paxos :
    (gid : ℕ) (shardmasters servers : List String) (me : ℕ) (dir : String) (listens : Bool)
    (turns : List Turn) {kv : DiskServer}
    → start_server gid shardmasters servers me dir listens ≡ some kv
    → (serve turns kv).0.px.dead ≡ (serve turns kv).0.dead
unfolding start_server serve kill set_unreliable
serve_kills_paxos gid shardmasters servers me dir listens turns {kv} made =
    accept_loop_keeps disk_kv_host (λ kv. kv.px.dead ≡ kv.dead)
      (record {
        by_kill = λ kv same. refl;
        by_set = λ what kv same. same;
        by_count = λ kv same. same;
        by_error = λ kv same. refl;
      })
      turns kv (ground arith)
