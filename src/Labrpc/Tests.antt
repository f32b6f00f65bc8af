-- ===== src/Labrpc/Tests.antt =====
-- Tests of src/labrpc/labrpc.go, and the theorems at concrete inputs.
use Prim.Native.String.{◌++◌ as str_append}
use code2go.Prelude.{
  ℕ, ◌+◌, ◌<◌, ◌≡◌, refl, true, false, Option, none, some, ltb, ◌==◌, if◌then◌else◌, ◌>>=◌, arith,
  inl,
}
use code2go.Labrpc.{
  Network, Draws, Sent, make_network, make_end, add_server, delete_server, connect, enable,
  is_server_dead, process_req,
}
use code2go.Labrpc.Request.{IsUp}
use code2go.Labrpc.Replies.{
  process_req_replies, process_req_delivers, process_req_ends, process_req_unreachable,
}
use code2go.Labrpc.Dispatch.{Service, make_server, add_service, dispatch}
use code2go.Labrpc.Dispatch.Laws.{has_dot, dispatch_calls}

-- End 5 is connected to server 1, which is at address 10.
wired : Option Network
wired = do rn ← make_end 5 make_network; some (enable 5 true (connect 5 1 (add_server 1 10 rn)))

abbrev lan : Network
lan = record {
  reliable = true;
  long_delays = false;
  long_reordering = false;
  ends = λ e. e == 5;
  enabled = λ e. e == 5;
  servers = λ s. if s == 1 then some 10 else none;
  connections = λ e. if e == 5 then some 1 else none;
}

wired_up : (do rn ← wired; some (is_server_dead 5 1 10 rn)) ≡ some false
unfolding wired make_end is_server_dead enable connect add_server make_network
wired_up = refl

deleted_down : (do rn ← wired; some (is_server_dead 5 1 10 (delete_server 1 rn))) ≡ some true
unfolding wired make_end is_server_dead enable connect add_server make_network delete_server
deleted_down = refl

abbrev draws : Draws
draws = record {
  short_delay = 40;
  drop_request = 500;
  drop_reply = 99;
  reorder = 3;
  late = 7;
  idle = 7150;
}

-- The handler takes until the third select.
abbrev selects : ℕ → Option ℕ
selects k = if ltb k 2 then none else some 77

sent_late :
    process_req draws lan 5 selects (λ k. lan) lan 9
    ≡ some (record { called = true; delay = 0; reply = some 77 })
unfolding process_req
sent_late = refl

reordered :
    process_req draws (record lan { long_reordering = true }) 5 selects (λ k. lan) lan 9
    ≡ some (record { called = true; delay = 207; reply = some 77 })
unfolding process_req
reordered = refl

process_req_replies_example :
    (n a : ℕ) × (lan.connections 5 ≡ some n)
    × IsUp 5 n a lan
    × IsUp 5 n a lan
    × (k : ℕ) × (selects k ≡ some 77)
process_req_replies_example =
    process_req_replies draws lan 5 selects (λ k. lan) lan 9
      (record { called = true; delay = 0; reply = some 77 }) 77 sent_late refl

process_req_delivers_example :
    process_req draws lan 5 selects (λ k. lan) lan 9
    ≡ some (record { called = true; delay = 0; reply = some 77 })
process_req_delivers_example =
    process_req_delivers draws lan 5 selects (λ k. lan) lan 9 1 10 2 77 refl refl refl (refl, refl)
      refl (λ j lt. (ground arith, (refl, refl))) (refl, refl) (omega arith)

process_req_ends_example :
    (sent : Sent ℕ) × (process_req draws lan 5 selects (λ k. lan) lan 9 ≡ some sent)
process_req_ends_example =
    process_req_ends draws lan 5 selects (λ k. lan) lan 9 2 (omega arith) (inl (λ e. ground arith))

process_req_unreachable_example :
    (sent : Sent ℕ) × (process_req draws lan 6 selects (λ k. lan) lan 9 ≡ some sent)
    × (sent.reply ≡ none)
    × (sent.called ≡ false)
    × (sent.delay < 7000)
    × (false ≡ false → sent.delay < 100)
process_req_unreachable_example =
    process_req_unreachable draws lan 6 selects (λ k. lan) lan 9 (λ (n, a, to, up). ground arith)

-- A service that counts what it is sent.
abbrev tally : Service ℕ ℕ
tally = record { name = "Raft"; methods = λ m. some (λ args state. (state + args, state)) }

dispatch_calls_example :
    dispatch (str_append "Raft" ".Add") 3 (add_service tally make_server) 4
    ≡ some (record (add_service tally make_server) { count = 1 }, 7, 4)
unfolding has_dot make_server
dispatch_calls_example =
    dispatch_calls tally make_server "Add" (λ args state. (state + args, state)) 3 4 refl refl
