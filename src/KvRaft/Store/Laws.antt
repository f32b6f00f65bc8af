-- ===== src/KvRaft/Store/Laws.antt =====
-- What the rebuilt database of src/kvraft/server.go holds.
use text.Mathlib.Text.{◌==◌ as str_eq}
use text.Mathlib.TextEquality.{eq_iff}
use Prim.Native.String.{String, ◌++◌ as str_append}
use code2go.Prelude.{
  ℕ, zero, suc, ◌+◌, ◌≤◌, ◌≡◌, ◌≢◌, refl, ap, ◌∙◌, sym, Bool, true, false, not, ◌&&◌, ◌||◌, some,
  List, [], ◌∷◌, ◌++◌, get_elem?-some, take, drop, drop-get_elem?, length, map, ltb, if◌then◌else◌,
  arith,
}
use code2go.Raft.State.{Entry}
use code2go.KvRaft.Store.{Op, Store, empty_store, write, apply_op, replay, replay_logs}

-- The UUID stands in the list of operations.
unfoldable pub seen : String → List Op → Bool
seen u [] = false
seen u (op ∷ ops) = str_eq op.uuid u || seen u ops

-- The operations that take effect, given those before: every Get, and of the others the ones whose UUID did
-- not occur before.
pub effective : (before : List Op) → List Op → List Op
effective before [] = []
effective before (op ∷ ops) =
    let rest = effective (op ∷ before) ops in
    if not (str_eq op.opt "Get") && seen op.uuid before then rest else op ∷ rest

-- All the writes, one after the other.
pub write_all : List Op → (String → String) → String → String
write_all [] db = db
write_all (op ∷ ops) db = write_all ops (write op db)

replay-append : (xs ys : List Op) (s : Store) → replay (xs ++ ys) s ≡ replay ys (replay xs s)
unfolding replay
replay-append [] ys s = refl
replay-append (x ∷ xs) ys s = replay-append xs ys (apply_op x s)

-- The counters of the store say which UUIDs occurred.
abbrev Counts : Store → List Op → Type 0
Counts s before = (u : String) → ltb 0 (s.uuids u) ≡ seen u before

apply_op-Counts :
    (op : Op) (s : Store) (before : List Op)
    → Counts s before
    → Counts (apply_op op s) (op ∷ before)
unfolding apply_op seen
apply_op-Counts op s before c u = ground (arith, c u, c op.uuid, eq_iff op.uuid u)

db-apply_op :
    (op : Op) (s : Store) (before : List Op)
    → Counts s before
    → (apply_op op s).db
      ≡ (if not (str_eq op.opt "Get") && seen op.uuid before then s.db else write op s.db)
unfolding apply_op
db-apply_op op s before c = ground (arith, c op.uuid)

write_all-if :
    (b : Bool) (op : Op) (rest : List Op) (db : String → String)
    → write_all rest (if b then db else write op db) ≡ write_all (if b then rest else op ∷ rest) db
unfolding write_all
write_all-if true op rest db = refl
write_all-if false op rest db = refl

replay-effective :
    (ops before : List Op) (s : Store)
    → Counts s before
    → (replay ops s).db ≡ write_all (effective before ops) s.db
unfolding replay effective
replay-effective [] before s c = unfold write_all in refl
replay-effective (op ∷ ops) before s c =
    replay-effective ops (op ∷ before) (apply_op op s) (apply_op-Counts op s before c)
    ∙ ap (write_all (effective (op ∷ before) ops)) (db-apply_op op s before c)
    ∙ write_all-if _ op (effective (op ∷ before) ops) s.db

-- The database is what the effective operations alone write, in the order of the log: a retried operation counts
-- once.
pub db-replay :
    (ops : List Op) → (replay ops empty_store).db ≡ write_all (effective [] ops) (λ k. "")
unfolding seen
db-replay ops = replay-effective ops [] empty_store (λ u. refl)

replay-Counts :
    (ops before : List Op) (s : Store)
    → Counts s before
    → (u : String) → ltb 0 ((replay ops s).uuids u) ≡ (seen u before || seen u ops)
unfolding replay seen
replay-Counts [] before s c u = ground (arith, c u)
replay-Counts (op ∷ ops) before s c u =
    ground
      (arith, replay-Counts ops (op ∷ before) (apply_op op s) (apply_op-Counts op s before c) u)

apply_op_duplicate :
    (op : Op) (s : Store)
    → str_eq op.opt "Get" ≡ false
    → ltb 0 (s.uuids op.uuid) ≡ true
    → apply_op op s ≡ s
unfolding apply_op
apply_op_duplicate op s kind old = ground arith

-- An operation other than Get, with a UUID that stands earlier in the log, changes nothing, wherever it stands
-- and whatever follows.
pub replay_retry :
    (xs ys : List Op) (op : Op)
    → str_eq op.opt "Get" ≡ false
    → seen op.uuid xs ≡ true
    → replay (xs ++ op ∷ ys) empty_store ≡ replay (xs ++ ys) empty_store
unfolding seen replay
replay_retry xs ys op kind old =
    replay-append xs (op ∷ ys) empty_store
    ∙ ap (replay ys) (
        apply_op_duplicate op (replay xs empty_store) kind
          (replay-Counts xs [] empty_store (λ u. refl) op.uuid ∙ old))
    ∙ sym (replay-append xs ys empty_store)

Get≢Put : ◌≢◌ {A = String} "Get" "Put"
Get≢Put p = cc ((eq_iff "Get" "Put").1 p)

Get≢Append : ◌≢◌ {A = String} "Get" "Append"
Get≢Append p = cc ((eq_iff "Get" "Append").1 p)

Put≢Append : ◌≢◌ {A = String} "Put" "Append"
Put≢Append p = cc ((eq_iff "Put" "Append").1 p)

new_write :
    (op : Op) (s : Store) (j : String)
    → ltb 0 (s.uuids op.uuid) ≡ false
    → (apply_op op s).db j ≡ (
        if str_eq op.key j && str_eq op.opt "Put"
        then op.value
        else if str_eq op.key j && str_eq op.opt "Append"
        then str_append (s.db j) op.value
        else s.db j)
unfolding apply_op write
new_write op s j fresh = ground (
  arith,
  eq_iff op.key j,
  eq_iff op.opt "Get",
  eq_iff op.opt "Put",
  eq_iff op.opt "Append",
  Get≢Put,
  Get≢Append,
  Put≢Append,
)

-- What a new operation at the end of the log does to the database, by its kind: a Put sets its key to its value, an
-- Append adds its value to what the key held, another kind changes nothing, and no other key changes.
pub db-replay_new :
    (xs : List Op) (op : Op) (j : String)
    → seen op.uuid xs ≡ false
    → (replay (xs ++ op ∷ []) empty_store).db j ≡ (
        if str_eq op.key j && str_eq op.opt "Put"
        then op.value
        else if str_eq op.key j && str_eq op.opt "Append"
        then str_append ((replay xs empty_store).db j) op.value
        else (replay xs empty_store).db j)
unfolding seen replay
db-replay_new xs op j new = rw (replay-append xs (op ∷ []) empty_store) (
    new_write op (replay xs empty_store) j
      (replay-Counts xs [] empty_store (λ u. refl) op.uuid ∙ new))

-- Replaying a stretch of the log that lies within it is replaying its commands.
pub replay_logs-replay :
    (logs : List (Entry Op)) (i left : ℕ) (s : Store)
    → i + left ≤ length logs
    → replay_logs logs i left s ≡ some (replay (map (λ e. e.command) (take left (drop i logs))) s)
unfolding replay_logs replay
replay_logs-replay logs i zero s le = refl
replay_logs-replay logs i (suc left) s le =
    let (e, found) = get_elem?-some logs i (omega arith) in
    rw (drop-get_elem? logs i e found) (
      ground
        (arith, found, replay_logs-replay logs (i + 1) left (apply_op e.command s) (omega arith)))
