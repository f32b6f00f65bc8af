-- ===== src/KvRaft/Store.antt =====
-- src/kvraft/server.go: the database that `Get` rebuilds from the log, duplicates left out.
pub mod Laws
use text.Mathlib.Text.{◌==◌ as str_eq}
use Prim.Native.String.{String, ◌++◌ as str_append}
use code2go.Prelude.{
  ℕ, zero, suc, ◌+◌, Bool, true, false, not, ◌&&◌, Option, none, some, List, [], ◌∷◌, get_elem?,
  ltb, if◌then◌else◌, ◌>>=◌,
}
use code2go.Raft.State.{Entry}

pub record Op : Type 0 where
  pub opt : String
  pub key : String
  pub value : String
  pub uuid : String

-- The two maps of `Get`. A missing key reads as the zero value, "" or 0.
pub record Store : Type 0 where
  pub db : String → String
  pub uuids : String → ℕ

abbrev pub empty_store : Store
empty_store = record { db = λ k. ""; uuids = λ u. 0 }

abbrev pub update {ℓ} : {A : Type ℓ} → (String → A) → String → A → String → A
update m k v j = if str_eq k j then v else m j

-- The switch over `op.Opt`; other kinds do nothing.
unfoldable pub write : Op → (String → String) → String → String
write op db =
    if str_eq op.opt "Get"
    then db
    else if str_eq op.opt "Put"
    then update db op.key op.value
    else if str_eq op.opt "Append"
    then update db op.key (str_append (db op.key) op.value)
    else db

-- An operation other than Get whose UUID was seen before is skipped.
unfoldable pub is_duplicate : Op → Store → Bool
is_duplicate op s = not (str_eq op.opt "Get") && ltb 0 (s.uuids op.uuid)

unfoldable pub apply_op : Op → Store → Store
unfolding is_duplicate
apply_op op s =
    if is_duplicate op s
    then s
    else record { db = write op s.db; uuids = update s.uuids op.uuid (s.uuids op.uuid + 1) }

unfoldable pub replay : List Op → Store → Store
unfolding apply_op
replay [] s = s
replay (op ∷ ops) s = replay ops (apply_op op s)

-- for i:=0;i<commitIndex;i++, from `i` on; reading past the end of the log is a panic.
unfoldable pub replay_logs : List (Entry Op) → (i left : ℕ) → Store → Option Store
unfolding apply_op
replay_logs logs i zero s = some s
replay_logs logs i (suc left) s =
    let rest = λ (s' : Store). replay_logs logs (i + 1) left s' in
    do e ← get_elem? logs i; rest (apply_op e.command s)
