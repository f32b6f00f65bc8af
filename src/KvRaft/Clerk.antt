-- ===== src/KvRaft/Clerk.antt =====
-- src/kvraft/client.go: the clerk. What a call of a server returns is an argument, a function of the
-- round, the server and the request, `none` where the call fails. The loops go on until an answer
-- comes: they take the number of rounds as fuel, and `none` is that it ran out.
pub mod Laws
use Prim.Native.String.{String, ◌++◌ as str_append}
use code2go.Prelude.{
  ℕ, zero, suc, ◌+◌, Bool, true, false, not, ◌||◌, Option, none, some, ◌==◌, if◌then◌else◌, ◌>>=◌,
}
use code2go.Itoa.{itoa}
use code2go.KvRaft.Server.{GetArgs, GetReply, PutAppendArgs, PutAppendReply}

pub record Clerk : Type 0 where
  pub nservers : ℕ  -- len(servers)
  pub id : ℕ
  pub cnt : ℕ

unfoldable pub make_clerk : ℕ → Clerk
make_clerk nservers = record { nservers = nservers; id = 0; cnt = 0 }

-- strconv.Itoa(ck.id) + "_" + strconv.Itoa(ck.cnt)
unfoldable pub uuid : Clerk → String
uuid ck = str_append (str_append (itoa ck.id) "_") (itoa ck.cnt)

abbrev pub GetCalls : Type 0
GetCalls = (round server : ℕ) → GetArgs → Option GetReply

abbrev pub PutCalls : Type 0
PutCalls = (round server : ℕ) → PutAppendArgs → Option PutAppendReply

-- ok && !reply.WrongLeader
unfoldable pub good_get : Option GetReply → Option GetReply
good_get none = none
good_get (some reply) = if reply.wrong_leader then none else some reply

-- `break` at a good reply, else what comes after.
unfoldable pub first_of : Option GetReply → Option GetReply → Option GetReply
first_of none rest = rest
first_of (some reply) rest = some reply

-- One round: the servers from `i` on, up to the first good reply.
unfoldable pub get_servers : GetCalls → GetArgs → (round i left : ℕ) → Option GetReply
unfolding good_get first_of
get_servers calls args round i zero = none
get_servers calls args round i (suc left) =
    first_of (good_get (calls round i args)) (get_servers calls args round (i + 1) left)

-- for !success
unfoldable pub get_rounds : GetCalls → GetArgs → (servers round fuel : ℕ) → Option GetReply
unfolding get_servers
get_rounds calls args servers round zero = none
get_rounds calls args servers round (suc fuel) =
    first_of (get_servers calls args round 0 servers)
      (get_rounds calls args servers (round + 1) fuel)

-- The id is kept once it is not 0; the count goes up with each operation.
unfoldable pub clerk_get : GetCalls → (fuel : ℕ) → String → Clerk → Option (String × Clerk)
unfolding get_rounds
clerk_get calls fuel key ck = do
  reply ← get_rounds calls (record { key = key; uuid = uuid ck }) ck.nservers 0 fuel
  some (reply.value, record ck { id = (if ck.id == 0 then reply.id else ck.id); cnt = ck.cnt + 1 })

unfoldable pub good_put : Option PutAppendReply → Bool
good_put none = false
good_put (some reply) = not reply.wrong_leader

-- One round of `PutAppend`: every server is called, also after a success.
unfoldable pub put_servers : PutCalls → PutAppendArgs → (round i left : ℕ) → (success : Bool) → Bool
unfolding good_put
put_servers calls args round i zero success = success
put_servers calls args round i (suc left) success =
    put_servers calls args round (i + 1) left (success || good_put (calls round i args))

-- The number of rounds up to the first one that succeeds.
unfoldable pub put_rounds : PutCalls → PutAppendArgs → (servers round fuel : ℕ) → Option ℕ
unfolding put_servers
put_rounds calls args servers round zero = none
put_rounds calls args servers round (suc fuel) =
    let rest = put_rounds calls args servers (round + 1) fuel in
    if put_servers calls args round 0 servers false then some (round + 1) else rest

-- A clerk without an id gets one from a Get of "nobody" first.
unfoldable pub clerk_register : GetCalls → (fuel : ℕ) → Clerk → Option Clerk
unfolding clerk_get
clerk_register calls fuel ck =
    if ck.id == 0 then (do r ← clerk_get calls fuel "nobody" ck; some r.1) else some ck

unfoldable pub clerk_put_append :
    GetCalls → PutCalls → (fuel : ℕ) → (key value opt : String) → Clerk → Option Clerk
unfolding clerk_register put_rounds
clerk_put_append gets puts fuel key value opt ck = do
  ck' ← clerk_register gets fuel ck
  rounds ←
      put_rounds puts (record { key = key; value = value; opt = opt; uuid = uuid ck' }) ck'.nservers
        0 fuel
  some (record ck' { cnt = ck'.cnt + 1 })

unfoldable pub clerk_put :
    GetCalls → PutCalls → (fuel : ℕ) → (key value : String) → Clerk → Option Clerk
unfolding clerk_put_append
clerk_put gets puts fuel key value = clerk_put_append gets puts fuel key value "Put"

unfoldable pub clerk_append :
    GetCalls → PutCalls → (fuel : ℕ) → (key value : String) → Clerk → Option Clerk
unfolding clerk_put_append
clerk_append gets puts fuel key value = clerk_put_append gets puts fuel key value "Append"
