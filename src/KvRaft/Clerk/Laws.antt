-- ===== src/KvRaft/Clerk/Laws.antt =====
-- Identifiers and retries of the clerk in src/kvraft/client.go.
use Prim.Native.String.{String, ◌++◌ as str_append}
use Prim.Native.String.append
use text.Mathlib.TextLemmas.{append_assoc, append_cancel_left}
use code2go.Prelude.{
  ℕ, zero, suc, ◌+◌, ◌≤◌, ◌<◌, ◌≡◌, ◌≢◌, ◌⊎◌, refl, ap, sym, ◌∙◌, Bool, true, false, ◌||◌, Option,
  none, some, ◌==◌, if◌then◌else◌, arith, Option-cases, Bool-cases, inl, inr,
}
use code2go.Itoa.{itoa}
use mathlib.Core.Path.{subst}
use native.Mathlib.Decide.{dec_lt}
use code2go.Itoa.Laws.{is_digit, read_num, read_num-itoa, itoa_injective}
use code2go.KvRaft.Server.{GetArgs, GetReply, PutAppendArgs}
use code2go.KvRaft.Clerk.{
  Clerk, uuid, GetCalls, PutCalls, good_get, get_servers, get_rounds, clerk_get, first_of, good_put,
  put_servers, put_rounds, clerk_register, clerk_put_append,
}

read_num-separator : (t : String) (n : ℕ) → read_num (str_append "_" t) n ≡ (n, str_append "_" t)
unfolding read_num is_digit
read_num-separator t n =
    let e : str_append "_" t ≡ String.◌∷◌ "_" t =
      append.cons "_" String.[] t ∙ ap (String.◌∷◌ "_") (append.nil t) in
    subst (λ s. read_num s n ≡ (n, s)) (sym e) refl

read_uuid : (ck : Clerk) → read_num (uuid ck) 0 ≡ (ck.id, str_append "_" (itoa ck.cnt))
unfolding uuid
read_uuid ck =
    ap (λ s. read_num s 0) (append_assoc (itoa ck.id) "_" (itoa ck.cnt))
    ∙ read_num-itoa ck.id (str_append "_" (itoa ck.cnt))
    ∙ read_num-separator (itoa ck.cnt) ck.id

-- Two clerks build the same UUID only if both their ids and their counts are equal.
pub uuid_injective : (a b : Clerk) → uuid a ≡ uuid b → (a.id ≡ b.id) × (a.cnt ≡ b.cnt)
uuid_injective a b e =
    let read = sym (read_uuid a) ∙ ap (λ s. read_num s 0) e ∙ read_uuid b in
    (
      ap (λ (r : ℕ × String). r.0) read,
      itoa_injective a.cnt b.cnt
          (append_cancel_left "_" (itoa a.cnt) (itoa b.cnt) (ap (λ (r : ℕ × String). r.1) read)),
    )

-- A call that the clerk takes for an answer.
unfoldable pub IsGood : GetReply → Option GetReply → Type 0
IsGood reply call = (call ≡ some reply) × (reply.wrong_leader ≡ false)

good_get-cases :
    (call : Option GetReply)
    → ((good_get call ≡ none) × ((reply : GetReply) → ¬ IsGood reply call))
      ⊎ ((reply : GetReply) × IsGood reply call × (good_get call ≡ some reply))
unfolding good_get IsGood
good_get-cases none = inl (refl, λ reply (e, _). ground arith)
good_get-cases (some reply) = elim (Bool-cases reply.wrong_leader) [
  | inl wrong ↦ inl (ground arith, λ r (e, right). ground arith)
  | inr right ↦ inr (reply, (refl, right), ground arith)
]

module _ (calls : GetCalls) (args : GetArgs) where
  get_servers-cases :
      (round i left : ℕ)
      → ((get_servers calls args round i left ≡ none)
          × ((j : ℕ)
              → i ≤ j
              → j < i + left
              → (good : GetReply) → ¬ IsGood good (calls round j args)))
        ⊎ ((reply : GetReply) × (k : ℕ) × (k < i + left)
            × IsGood reply (calls round k args)
            × (get_servers calls args round i left ≡ some reply))
  unfolding get_servers first_of
  get_servers-cases round i zero = inl (refl, λ j le lt. absurd (omega arith))
  get_servers-cases round i (suc left) = elim (good_get-cases (calls round i args)) [
    | inr (reply, is, found) ↦ inr (reply, i, omega arith, is, rw found refl)
    | inl (bad, never) ↦ elim (get_servers-cases round (i + 1) left) [
      | inr (reply, k, lt, is, found) ↦ inr (reply, k, omega arith, is, rw bad found)
      | inl (failed, later) ↦ inl (
        rw bad failed,
        λ j le lt good. elim (dec_lt i j) [
          | yes more ↦ later j (omega arith) (omega arith) good
          | no same ↦ subst (λ j. ¬ IsGood good (calls round j args)) (at i j le same) (never good)
        ],
      )
    ]
  ]
    where
      at : (i j : ℕ) → i ≤ j → ¬ (i < j) → i ≡ j
      at i j le same = omega arith

  get_rounds-some :
      (servers from fuel round server : ℕ)
      → from ≤ round
      → round < from + fuel
      → server < servers
      → (good : GetReply) → IsGood good (calls round server args)
      → (reply : GetReply) × (r k : ℕ) × (r ≤ round)
        × (k < servers)
        × IsGood reply (calls r k args)
        × (get_rounds calls args servers from fuel ≡ some reply)
  unfolding get_rounds first_of
  get_rounds-some servers from zero round server le lt lts good h = absurd (omega arith)
  get_rounds-some servers from (suc fuel) round server le lt lts good h =
      elim (get_servers-cases from 0 servers) [
        | inr (reply, k, klt, is, found) ↦ (reply, from, k, le, omega arith, is, rw found refl)
        | inl (failed, never) ↦ elim (dec_lt from round) [
          | yes more ↦
              let (reply, r, k, rle, klt, is, found) =
                get_rounds-some servers (from + 1) fuel round server (omega arith) (omega arith) lts
                  good h in
              (reply, r, k, rle, klt, is, rw failed found)
          | no same ↦
              let e : round ≡ from = omega arith in
              absurd (
                never server (omega arith) (omega arith) good
                  (subst (λ r. IsGood good (calls r server args)) e h))
        ]
      ]

-- The request that a clerk sends for a key.
abbrev pub get_request : String → Clerk → GetArgs
get_request key ck = record { key = key; uuid = uuid ck }

-- If some server answers well in a round that the fuel covers, then Get of a clerk returns. Its value is from such an
-- answer, in that round or an earlier one. The clerk has the same servers and one operation more, and its id is
-- that of the answer if it had none.
pub clerk_get_returns :
    (calls : GetCalls) (fuel : ℕ) (key : String) (ck : Clerk) (round server : ℕ) (good : GetReply)
    → round < fuel
    → server < ck.nservers
    → IsGood good (calls round server (get_request key ck))
    → (reply : GetReply) × (r k : ℕ) × (r ≤ round)
      × (k < ck.nservers)
      × IsGood reply (calls r k (get_request key ck))
      × (clerk_get calls fuel key ck
          ≡ some (
            reply.value,
            record {
              nservers = ck.nservers;
              id = (if ck.id == 0 then reply.id else ck.id);
              cnt = ck.cnt + 1;
            },
          ))
unfolding clerk_get
clerk_get_returns calls fuel key ck round server good lt lts h =
    let (reply, r, k, rle, klt, is, found) =
      get_rounds-some calls (get_request key ck) ck.nservers 0 fuel round server (omega arith)
        (omega arith) lts good h in
    (reply, r, k, rle, klt, is, rw found refl)

clerk_get-cnt :
    (calls : GetCalls) (fuel : ℕ) (key : String) (ck ck' : Clerk) (value : String)
    → clerk_get calls fuel key ck ≡ some (value, ck')
    → ck'.cnt ≡ ck.cnt + 1
unfolding clerk_get
clerk_get-cnt calls fuel key ck ck' value h =
    elim (Option-cases (get_rounds calls (get_request key ck) ck.nservers 0 fuel)) [
      | inl e ↦ ground (arith, e)
      | inr (reply, e) ↦ ground (arith, e)
    ]

clerk_register-cnt :
    (calls : GetCalls) (fuel : ℕ) (ck ck' : Clerk)
    → clerk_register calls fuel ck ≡ some ck'
    → ck.cnt ≤ ck'.cnt
unfolding clerk_register
clerk_register-cnt calls fuel ck ck' h = elim (Option-cases (clerk_get calls fuel "nobody" ck)) [
  | inl e ↦ ground (arith, e)
  | inr ((value, registered), e) ↦
      ground (arith, e, clerk_get-cnt calls fuel "nobody" ck registered value e)
]

put_append-cnt :
    (gets : GetCalls) (puts : PutCalls) (fuel : ℕ) (key value opt : String) (ck ck' : Clerk)
    → clerk_put_append gets puts fuel key value opt ck ≡ some ck'
    → ck.cnt < ck'.cnt
unfolding clerk_put_append
put_append-cnt gets puts fuel key value opt ck ck' h =
    elim (Option-cases (clerk_register gets fuel ck)) [
      | inl e ↦ ground (arith, e)
      | inr (reg, e) ↦ ground (
        arith,
        e,
        clerk_register-cnt gets fuel ck reg e,
        Option-cases (
            put_rounds puts (record { key = key; value = value; opt = opt; uuid = uuid reg })
              reg.nservers 0 fuel),
      )
    ]

-- An operation that returns leaves the clerk with a UUID that it did not have before: so the next operation of the
-- clerk never carries the UUID that this one started with.
pub uuid_fresh :
    (gets : GetCalls) (puts : PutCalls) (fuel : ℕ) (key value opt : String) (ck : Clerk)
    → ((v : String) (ck' : Clerk) → clerk_get gets fuel key ck ≡ some (v, ck') → uuid ck' ≢ uuid ck)
      × ((ck' : Clerk)
          → clerk_put_append gets puts fuel key value opt ck ≡ some ck'
          → uuid ck' ≢ uuid ck)
uuid_fresh gets puts fuel key value opt ck = (
  λ v ck' h same.
      let counts = clerk_get-cnt gets fuel key ck ck' v h in
      let equal = (uuid_injective ck' ck same).1 in omega arith,
  λ ck' h same.
      let counts = put_append-cnt gets puts fuel key value opt ck ck' h in
      let equal = (uuid_injective ck' ck same).1 in omega arith,
)

module _ (calls : PutCalls) (args : PutAppendArgs) where
  put_servers-true : (round i left : ℕ) → put_servers calls args round i left true ≡ true
  unfolding put_servers
  put_servers-true round i zero = refl
  put_servers-true round i (suc left) = put_servers-true round (i + 1) left

  put_servers-good :
      (round i left j : ℕ) (success : Bool)
      → i ≤ j
      → j < i + left
      → good_put (calls round j args) ≡ true
      → put_servers calls args round i left success ≡ true
  unfolding put_servers
  put_servers-good round i zero j success le lt h = absurd (omega arith)
  put_servers-good round i (suc left) j success le lt h = elim (dec_lt i j) [
    | yes more ↦
        put_servers-good round (i + 1) left j (success || good_put (calls round i args))
          (omega arith) (omega arith) h
    | no same ↦
        let at : j ≡ i = omega arith in
        let e : (success || good_put (calls round i args)) ≡ true =
          ground (arith, subst (λ k. good_put (calls round k args) ≡ true) at h) in
        rw e (put_servers-true round (i + 1) left)
  ]

  put_rounds-some :
      (servers from fuel round server : ℕ)
      → from ≤ round
      → round < from + fuel
      → server < servers
      → good_put (calls round server args) ≡ true
      → put_rounds calls args servers from fuel ≢ none
  unfolding put_rounds
  put_rounds-some servers from zero round server le lt lts h = absurd (omega arith)
  put_rounds-some servers from (suc fuel) round server le lt lts h =
      elim (Bool-cases (put_servers calls args from 0 servers false)) [
        | inl won ↦ rw won (λ e. ground arith)
        | inr lost ↦ elim (dec_lt from round) [
          | yes more ↦ rw lost (
              put_rounds-some servers (from + 1) fuel round server (omega arith) (omega arith) lts
                h)
          | no same ↦
              let e : round ≡ from = omega arith in
              let h' = subst (λ r. good_put (calls r server args) ≡ true) e h in
              let won =
                put_servers-good from 0 servers server false (omega arith) (omega arith) h' in
              absurd (ground (arith, won, lost))
        ]
      ]

-- A clerk with an id returns from PutAppend if some server accepts the request in a round that the fuel covers, and
-- only its count has changed.
pub put_append_returns :
    (gets : GetCalls) (puts : PutCalls) (fuel : ℕ) (key value opt : String) (ck : Clerk)
    (round server : ℕ)
    → ck.id ≢ 0
    → round < fuel
    → server < ck.nservers
    → good_put (puts round server (record { key = key; value = value; opt = opt; uuid = uuid ck }))
      ≡ true
    → clerk_put_append gets puts fuel key value opt ck ≡ some (record ck { cnt = ck.cnt + 1 })
unfolding clerk_put_append clerk_register
put_append_returns gets puts fuel key value opt ck round server id lt lts h =
    let args : PutAppendArgs = record { key = key; value = value; opt = opt; uuid = uuid ck } in
    let some_rounds =
      put_rounds-some puts args ck.nservers 0 fuel round server (omega arith) (omega arith) lts h in
    let reg : (ck.id == 0) ≡ false = ground arith in
    ground (arith, Option-cases (put_rounds puts args ck.nservers 0 fuel))
