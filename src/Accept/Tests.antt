-- ===== src/Accept/Tests.antt =====
-- Servers of src/paxos and src/kvpaxos that are killed while they wait for a connection.
use code2go.Prelude.{ℕ, ◌%◌, ◌^◌, ◌≡◌, ◌⊎◌, refl, true, false, some, List, [], ◌∷◌, ◌++◌}
use code2go.Accept.{discarded, muted, served, closed, kills, sets_unreliable, Turn, accept_loop}
use code2go.Accept.Counts.{processed}
use code2go.Accept.Laws.{accept_loop_killed}
use code2go.Paxos.{Paxos, missing, listening, make, serve, serve_counts}
use code2go.KvPaxos.{KvPaxos, kvpaxos_host, kvpaxos_host-IsHost, start_server, serve_kills_paxos}
use code2go.KvPaxos

abbrev turn : (draw draw' : ℕ) → Turn
turn draw draw' = record { meanwhile = []; accepted = true; draw = draw; draw' = draw' }

abbrev unreliable_turn : Turn
unreliable_turn = record (turn 1050 3) { meanwhile = sets_unreliable true ∷ [] }

abbrev killed_turn : Turn
killed_turn = record (turn 500 500) { meanwhile = kills ∷ [] }

abbrev some_turns : List Turn
some_turns = turn 5 5 ∷ unreliable_turn ∷ turn 500 1199 ∷ turn 500 500 ∷ []

abbrev a_paxos : Paxos
a_paxos = record {
  l = missing;
  dead = false;
  unreliable = false;
  rpc_count = 0;
  peers = "a" ∷ "b" ∷ [];
  me = 1;
}

abbrev a_server : KvPaxos
a_server = record { l = listening; me = 1; dead = false; unreliable = false; px = a_paxos }

outcomes :
    (accept_loop kvpaxos_host (some_turns ++ killed_turn ∷ turn 5 5 ∷ []) a_server).1
    ≡ served ∷ discarded ∷ muted ∷ served ∷ closed ∷ []
unfolding accept_loop KvPaxos.kill KvPaxos.set_unreliable
outcomes = refl

accept_loop_killed_example :
    (accept_loop kvpaxos_host (some_turns ++ killed_turn ∷ turn 5 5 ∷ []) a_server
      ≡ accept_loop kvpaxos_host (some_turns ++ killed_turn ∷ []) a_server)
    × ((accept_loop kvpaxos_host (some_turns ++ killed_turn ∷ turn 5 5 ∷ []) a_server).0.dead
        ≡ true)
    × (((accept_loop kvpaxos_host (some_turns ++ killed_turn ∷ turn 5 5 ∷ []) a_server).1
          ≡ (accept_loop kvpaxos_host some_turns a_server).1)
        ⊎ ((accept_loop kvpaxos_host (some_turns ++ killed_turn ∷ turn 5 5 ∷ []) a_server).1
            ≡ (accept_loop kvpaxos_host some_turns a_server).1 ++ closed ∷ []))
accept_loop_killed_example =
    accept_loop_killed kvpaxos_host kvpaxos_host-IsHost some_turns (turn 5 5 ∷ []) killed_turn
      a_server tt

made : make ("a" ∷ "b" ∷ []) 1 true true ≡ some a_paxos
unfolding make
made = refl

serve_counts_example :
    (serve some_turns a_paxos).0.rpc_count ≡ processed (serve some_turns a_paxos).1 % 2 ^ 32
serve_counts_example = serve_counts ("a" ∷ "b" ∷ []) 1 true true some_turns made

started : start_server ("a" ∷ "b" ∷ []) 1 true ≡ some a_server
unfolding start_server make
started = refl
