-- ===== src/KvRaft/Server/Laws.antt =====
-- What the handlers of src/kvraft/server.go answer.
use text.Mathlib.Text.{◌==◌ as str_eq}
use Prim.Native.String.{String}
use code2go.Prelude.{
  ℕ, zero, suc, ◌+◌, ◌-◌, ◌<◌, ◌≤◌, ◌≡◌, ◌≢◌, ◌⊎◌, refl, ◌∙◌, Bool, false, ◌&&◌, some, List, [],
  ◌∷◌, get_elem?, get_elem?-some, take, length, map, leb, ◌==◌, max, if◌then◌else◌, arith,
  Bool-cases, inl, inr, leb→le,
}
use native.Mathlib.Decide.{dec_lt}
use mathlib.Core.Path.{subst}
use code2go.Raft.State.{Entry, ApplyMsg, Gob, Raft, leader}
use code2go.Raft.Append.{deliver, apply_msg}
use code2go.Raft.Append.Deliver.{deliver_cons}
use code2go.KvRaft.Store.{Op, empty_store, replay}
use code2go.KvRaft.Store.Laws.{replay_logs-replay}
use code2go.KvRaft.Server.{
  GetArgs, GetReply, PutAppendArgs, PutAppendReply, View, get_loop, get_polls, get_refused, get,
  answer_get, answer_put, put_loop, put_append, put_refused, put_polls, on_applies,
}

-- The database of the committed part of the log.
abbrev pub committed_db : View → String → String
committed_db v = (replay (map (λ e. e.command) (take v.commit_index v.logs)) empty_store).db

-- The reply of `Get` at the poll that ends its loop.
abbrev found_at : String → ℕ → View → GetReply
found_at key index v = record { wrong_leader = false; value = committed_db v key; id = index }

answer_get_lem :
    (key : String) (index : ℕ) (v : View)
    → v.commit_index ≤ length v.logs
    → answer_get key index v ≡ some (found_at key index v)
unfolding answer_get
answer_get_lem key index v le =
    ground (arith, replay_logs-replay v.logs 0 v.commit_index empty_store (omega arith))

module _ (key : String) (index : ℕ) (views : ℕ → View)
    (sound : (p : ℕ) → (views p).commit_index ≤ length (views p).logs) where
  not_now :
      (poll p : ℕ)
      → ((views poll).current_index == index) ≡ false
      → p ≡ poll
      → (views p).current_index ≢ index
  not_now poll p later q e =
      let at : (views poll).current_index ≡ index =
        subst (λ r. (views r).current_index ≡ index) q e in
      ground arith

  -- Either no poll saw the index and the reply is a refusal, or the first one that did gave the value.
  get_loop-cases :
      (poll left : ℕ)
      → ((get_loop key index views poll left ≡ some get_refused)
          × ((p : ℕ) → poll ≤ p → p < poll + left → (views p).current_index ≢ index))
        ⊎ ((p : ℕ) × (poll ≤ p)
            × (p < poll + left)
            × ((views p).current_index ≡ index)
            × (get_loop key index views poll left ≡ some (found_at key index (views p))))
  unfolding get_loop
  get_loop-cases poll zero = inl (refl, λ p le lt. absurd (omega arith))
  get_loop-cases poll (suc left) = elim (Bool-cases ((views poll).current_index == index)) [
    | inl now ↦ inr (
      poll,
      omega arith,
      omega arith,
      ground arith,
      rw now (answer_get_lem key index (views poll) (sound poll)),
    )
    | inr later ↦ elim (get_loop-cases (poll + 1) left) [
      | inl (refused, never) ↦ inl (
        rw later refused,
        λ p le lt e. elim (dec_lt poll p) [
          | yes more ↦ never p (omega arith) (omega arith) e
          | no same ↦ not_now poll p later (omega arith) e
        ],
      )
      | inr (p, le, lt, at, found) ↦ inr (p, omega arith, omega arith, at, rw later found)
    ]
  ]

module _ {B : Type 0} (g : Gob Op B) (args : GetArgs) (views : ℕ → View) (rf : Raft Op B) where
  -- A server that does not lead refuses and leaves the peer below alone.
  get_follower : rf.role ≢ leader → get g args views rf ≡ (rf, some get_refused)
  unfolding get
  get_follower h = ground arith

  get_leads :
      rf.role ≡ leader
      → (get g args views rf).1 ≡ get_loop args.key (length rf.logs + 1) views 0 get_polls
  unfolding get
  get_leads h = ground arith

  -- On a leader whose commit index always lies within its log, Get does not panic. It refuses if none of its 30 polls sees
  -- the index of its own entry as the last applied one. Else it answers with what the committed log at such a poll gives its key.
  pub get_answers :
      rf.role ≡ leader
      → ((p : ℕ) → (views p).commit_index ≤ length (views p).logs)
      → (((get g args views rf).1 ≡ some get_refused)
          × ((p : ℕ) → p < 30 → (views p).current_index ≢ length rf.logs + 1))
        ⊎ ((p : ℕ) × (p < 30)
            × ((views p).current_index ≡ length rf.logs + 1)
            × ((get g args views rf).1
                ≡ some (record {
                  wrong_leader = false;
                  value = committed_db (views p) args.key;
                  id = length rf.logs + 1;
                })))
  get_answers lead sound = elim (get_loop-cases args.key (length rf.logs + 1) views sound 0 30) [
    | inl (refused, never) ↦
        inl (get_leads lead ∙ refused, λ p lt. never p (omega arith) (omega arith))
    | inr (p, le, lt, at, found) ↦ inr (p, omega arith, at, get_leads lead ∙ found)
  ]

-- The entry is the operation as far as the server compares them.
abbrev pub looks_like : Entry Op → Op → Bool
looks_like e op =
    str_eq e.command.opt op.opt && str_eq e.command.key op.key && str_eq e.command.value op.value

abbrev pub put_answer : Entry Op → Op → ℕ → PutAppendReply
put_answer e op index =
    if looks_like e op then record { wrong_leader = false; id = index } else put_refused

module _ (op : Op) (prev : ℕ) (views : ℕ → View)
    (sound : (p : ℕ) → (views p).current_index ≤ length (views p).logs) where
  answer_put_lem :
      (p : ℕ)
      → prev + 1 ≤ (views p).current_index
      → (e : Entry Op) × (get_elem? (views p).logs prev ≡ some e)
        × (answer_put op (prev + 1) (views p) ≡ some (put_answer e op (prev + 1)))
  unfolding answer_put
  answer_put_lem p reached =
      let (e, found) = get_elem?-some (views p).logs prev (omega (arith, sound p)) in
      let at : prev + 1 - 1 ≡ prev = omega arith in (e, found, rw at (ground (arith, found)))

  put_loop-cases :
      (poll left : ℕ)
      → ((put_loop op (prev + 1) views poll left ≡ some put_refused)
          × ((p : ℕ) → poll ≤ p → p < poll + left → (views p).current_index ≤ prev))
        ⊎ ((p : ℕ) × (e : Entry Op) × (poll ≤ p)
            × (p < poll + left)
            × ((q : ℕ) → poll ≤ q → q < p → (views q).current_index ≤ prev)
            × (prev + 1 ≤ (views p).current_index)
            × (get_elem? (views p).logs prev ≡ some e)
            × (put_loop op (prev + 1) views poll left ≡ some (put_answer e op (prev + 1))))
  unfolding put_loop
  put_loop-cases poll zero = inl (refl, λ p le lt. absurd (omega arith))
  put_loop-cases poll (suc left) = elim (Bool-cases (leb (prev + 1) (views poll).current_index)) [
    | inl now ↦
        let reached = leb→le _ _ now in
        let (e, found, answer) = answer_put_lem poll reached in
        let none_before : (q : ℕ) → poll ≤ q → q < poll → (views q).current_index ≤ prev =
          λ q le lt. absurd (omega arith) in
        inr (
          poll,
          e,
          omega arith,
          omega arith,
          none_before,
          omega (arith, reached),
          found,
          rw now answer,
        )
    | inr later ↦ elim (put_loop-cases (poll + 1) left) [
      | inl (refused, never) ↦
          inl (
            rw later refused,
            λ p le lt. before poll p later le (λ past. never p past (omega arith)),
          )
      | inr (p, e, le, lt, none_before, reached, found, answer) ↦ inr (
        p,
        e,
        omega arith,
        omega arith,
        λ q from to. before poll q later from (λ past. none_before q past to),
        reached,
        found,
        rw later answer,
      )
    ]
  ]
    where
      before :
          (poll q : ℕ)
          → leb (prev + 1) (views poll).current_index ≡ false
          → poll ≤ q
          → (poll + 1 ≤ q → (views q).current_index ≤ prev)
          → (views q).current_index ≤ prev
      before poll q later from rest = elim (dec_lt poll q) [
        | yes more ↦ rest (omega arith)
        | no same ↦
            let at : poll ≡ q = omega arith in
            subst (λ r. (views r).current_index ≤ prev) at (ground arith)
      ]

-- The first message, where the rest of the stretch is dealt with.
on_first :
    (i n c : ℕ) (msg : ApplyMsg Op) (rest : List (ApplyMsg Op))
    → msg.index ≡ i + 1
    → ((c' : ℕ) → on_applies rest c' ≡ (if n == 0 then c' else max c' (i + 1 + n)))
    → on_applies (msg ∷ rest) c ≡ (if suc n == 0 then c else max c (i + suc n))
unfolding on_applies
on_first i n c msg rest e ih = ground (arith, ih c, ih msg.index)

module _ {B : Type 0} (g : Gob Op B) (args : PutAppendArgs) (views : ℕ → View)
    (rf : Raft Op B) where
  abbrev pub op_of : Op
  op_of = record { opt = args.opt; key = args.key; value = args.value; uuid = args.uuid }

  put_append_leads :
      rf.role ≡ leader
      → (put_append g args views rf).1 ≡ put_loop op_of (length rf.logs + 1) views 0 put_polls
  unfolding put_append
  put_append_leads h = ground arith

  -- On a leader whose applied index always lies within its log, PutAppend does not panic. It refuses if none of its 500 polls sees
  -- the index of its entry reached. Else it answers at the first poll that does, by the entry that stands at that index in the log
  -- of that poll: it reports success exactly if kind, key and value are those of the request.
  pub put_append_answers :
      rf.role ≡ leader
      → ((p : ℕ) → (views p).current_index ≤ length (views p).logs)
      → (((put_append g args views rf).1 ≡ some put_refused)
          × ((p : ℕ) → p < 500 → (views p).current_index ≤ length rf.logs))
        ⊎ ((p : ℕ) × (e : Entry Op) × (p < 500)
            × ((q : ℕ) → q < p → (views q).current_index ≤ length rf.logs)
            × (length rf.logs + 1 ≤ (views p).current_index)
            × (get_elem? (views p).logs (length rf.logs) ≡ some e)
            × ((put_append g args views rf).1 ≡ some (put_answer e op_of (length rf.logs + 1))))
  put_append_answers lead sound = elim (put_loop-cases op_of (length rf.logs) views sound 0 500) [
    | inl (refused, never) ↦
        inl (put_append_leads lead ∙ refused, λ p lt. never p (omega arith) (omega arith))
    | inr (p, e, le, lt, none_before, reached, found, answer) ↦ inr (
      p,
      e,
      omega arith,
      λ q to. none_before q (omega arith) to,
      reached,
      found,
      put_append_leads lead ∙ answer,
    )
  ]

-- The goroutine that reads `applyCh`: a stretch of messages of the commit loop raises the index to the end of the stretch,
-- if it is not there already.
pub on_applies-deliver :
    (logs : List (Entry Op)) (i n : ℕ) (msgs : List (ApplyMsg Op)) (current_index : ℕ)
    → deliver logs i n ≡ some msgs
    → on_applies msgs current_index ≡ (if n == 0 then current_index else max current_index (i + n))
unfolding on_applies deliver
on_applies-deliver logs i zero msgs c h = let e : msgs ≡ [] = ground arith in rw e
on_applies-deliver logs i (suc n) msgs c h =
    let (e, rest, found, done, eq) = deliver_cons logs i n msgs h in
    rw eq (
      on_first i n c (apply_msg i e) rest refl
        (λ c'. on_applies-deliver logs (i + 1) n rest c' done))
