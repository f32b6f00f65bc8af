-- ===== src/KvRaft/Server.antt =====
-- src/kvraft/server.go and common.go: the handlers of the server. While a handler sleeps, the peer
-- below and the goroutine that reads `applyCh` go on: what the handler sees at each of its polls is
-- an argument, a function from the number of the poll.
pub mod Laws
use text.Mathlib.Text.{◌==◌ as str_eq}
use Prim.Native.String.{String}
use code2go.Prelude.{
  ℕ, zero, suc, ◌+◌, ◌-◌, Bool, true, false, ◌&&◌, Option, none, some, List, [], ◌∷◌, get_elem?,
  ltb, leb, ◌==◌, if◌then◌else◌, ◌>>=◌,
}
use code2go.Raft.State.{Entry, ApplyMsg, Gob, Raft, start}
use code2go.KvRaft.Store.{Op, Store, empty_store, replay_logs}

pub record GetArgs : Type 0 where
  pub key : String
  pub uuid : String

pub record GetReply : Type 0 where
  pub wrong_leader : Bool
  pub value : String
  pub id : ℕ

pub record PutAppendArgs : Type 0 where
  pub key : String
  pub value : String
  pub opt : String
  pub uuid : String

pub record PutAppendReply : Type 0 where
  pub wrong_leader : Bool
  pub id : ℕ

-- What a poll sees: the index of the last message from Raft, and `GetState2`.
pub record View : Type 0 where
  pub current_index : ℕ
  pub logs : List (Entry Op)
  pub commit_index : ℕ

abbrev pub get_refused : GetReply
get_refused = record { wrong_leader = true; value = ""; id = 0 }

abbrev pub put_refused : PutAppendReply
put_refused = record { wrong_leader = true; id = 0 }

-- The database is rebuilt from the committed part of the log; a panic is `none`.
unfoldable pub answer_get : (key : String) (index : ℕ) → View → Option GetReply
answer_get key index v = do
  s ← replay_logs v.logs 0 v.commit_index empty_store
  some (record { wrong_leader = false; value = s.db key; id = index })

-- The loop of `Get`, from the given poll with the given number of polls left.
unfoldable pub get_loop :
    (key : String) (index : ℕ) → (ℕ → View) → (poll left : ℕ) → Option GetReply
unfolding answer_get
get_loop key index views poll zero = some get_refused
get_loop key index views poll (suc left) =
    let rest = get_loop key index views (poll + 1) left in
    if (views poll).current_index == index then answer_get key index (views poll) else rest

abbrev pub get_polls : ℕ
get_polls = 30

unfoldable pub get :
    {B : Type 0} → Gob Op B → GetArgs → (ℕ → View) → Raft Op B → Raft Op B × Option GetReply
unfolding start
get g args views rf =
    let op : Op = record { opt = "Get"; key = args.key; value = ""; uuid = args.uuid } in
    let (rf', (index, _, is_leader)) = start g op rf in
    (rf', if is_leader then get_loop args.key index views 0 get_polls else some get_refused)

-- The entry at the index of the operation is compared with it, but not by its UUID.
unfoldable pub answer_put : Op → (index : ℕ) → View → Option PutAppendReply
answer_put op index v = do
  e ← get_elem? v.logs (index - 1)
  some (
      if str_eq e.command.opt op.opt
        && str_eq e.command.key op.key
        && str_eq e.command.value op.value
      then record { wrong_leader = false; id = index }
      else put_refused)

unfoldable pub put_loop : Op → (index : ℕ) → (ℕ → View) → (poll left : ℕ) → Option PutAppendReply
unfolding answer_put
put_loop op index views poll zero = some put_refused
put_loop op index views poll (suc left) =
    let rest = put_loop op index views (poll + 1) left in
    if leb index (views poll).current_index then answer_put op index (views poll) else rest

abbrev pub put_polls : ℕ
put_polls = 500

unfoldable pub put_append :
    {B : Type 0}
    → Gob Op B
    → PutAppendArgs
    → (ℕ → View)
    → Raft Op B
    → Raft Op B × Option PutAppendReply
unfolding start
put_append g args views rf =
    let op : Op = record { opt = args.opt; key = args.key; value = args.value; uuid = args.uuid } in
    let (rf', (index, _, is_leader)) = start g op rf in
    (rf', if is_leader then put_loop op index views 0 put_polls else some put_refused)

-- The goroutine of `StartKVServer`: the index of the last message from Raft.
unfoldable pub on_apply : ApplyMsg Op → ℕ → ℕ
on_apply msg current_index = if ltb current_index msg.index then msg.index else current_index

unfoldable pub on_applies : List (ApplyMsg Op) → ℕ → ℕ
unfolding on_apply
on_applies [] current_index = current_index
on_applies (msg ∷ msgs) current_index = on_applies msgs (on_apply msg current_index)
