-- ===== src/ShardKv/Answers.antt =====
-- The answers of the clerk of src/shardkv/client.go.
use Prim.Native.String.{String}
use text.Mathlib.Text.{◌==◌ as str_eq}
use code2go.Prelude.{
  ℕ, zero, suc, ◌+◌, ◌<◌, ◌≡◌, ◌⊎◌, refl, ap, sym, ◌∙◌, true, false, ◌||◌, Option, none, some, List,
  [], ◌∷◌, get_elem?, arith, Option-cases, inl, inr,
}
use mathlib.Core.Path.{subst}
use code2go.ShardMaster.{n_shards, Config, query}
use code2go.ShardKv.{GetReply, key2shard, get_verdict, Masters, get_loop, shard_get}
use code2go.ShardKv.Group.{Verdict, served, wrong_group, go_on, decide, ask_group, ask_config}

key2shard_bound : (key : String) → key2shard key < n_shards
unfolding key2shard
key2shard_bound String.[] = omega arith
key2shard_bound (String.◌∷◌ c key) = omega arith

decide-some :
    {A : Type 0} (v : Verdict A) (rest : Option A) (a : A)
    → decide v rest ≡ some a
    → (v ≡ served a) ⊎ (rest ≡ some a)
unfolding decide
decide-some (served b) rest a h = inl (ap (λ o. elim o [ none ↦ go_on | some x ↦ served x ]) h)
decide-some wrong_group rest a h = ground arith
decide-some go_on rest a h = inr h

-- What a group gives comes from one of its servers.
ask_group-some :
    {A : Type 0} (ask : String → Verdict A) (servers : List String) (a : A)
    → ask_group ask servers ≡ some a
    → (i : ℕ) × (srv : String) × (get_elem? servers i ≡ some srv) × (ask srv ≡ served a)
unfolding ask_group
ask_group-some ask [] a h = ground arith
ask_group-some ask (srv ∷ servers) a h = elim (decide-some (ask srv) (ask_group ask servers) a h) [
  | inl here ↦ (0, srv, refl, here)
  | inr later ↦ let (i, s, at, is) = ask_group-some ask servers a later in (suc i, s, at, is)
]

ask_config-some :
    {A : Type 0} (ask : String → Verdict A) (shard : ℕ) (config : Config) (a : A)
    → ask_config ask shard config ≡ some a
    → (servers : List String) × (i : ℕ) × (srv : String) × (config.groups (config.shards shard)
        ≡ some servers)
      × (get_elem? servers i ≡ some srv)
      × (ask srv ≡ served a)
unfolding ask_config
ask_config-some ask shard config a h = elim (Option-cases (config.groups (config.shards shard))) [
  | inl missing ↦ ground (arith, missing)
  | inr (servers, found) ↦
      let (i, srv, at, is) = ask_group-some ask servers a (ground (arith, found)) in
      (servers, i, srv, found, at, is)
]

-- The reply is good: it is from a leader, and its value was found or is missing.
unfoldable pub IsGood : GetReply → String → Type 0
IsGood reply value =
    (reply.wrong_leader ≡ false)
    × ((str_eq reply.err "OK" || str_eq reply.err "ErrNoKey") ≡ true)
    × (reply.value ≡ value)

get_verdict-served :
    (call : Option GetReply) (value : String)
    → get_verdict call ≡ served value
    → (reply : GetReply) × (call ≡ some reply) × IsGood reply value
unfolding get_verdict IsGood
get_verdict-served none value h = ground arith
get_verdict-served (some reply) value h = (reply, refl, ground arith)

module _ (calls : ℕ → String → Option GetReply) (ask : Masters) (masters tries : ℕ) where
  abbrev pub asked : (shard round : ℕ) → Config → Option String
  asked shard round config = ask_config (λ srv. get_verdict (calls round srv)) shard config

  get_loop-served :
      (shard round fuel : ℕ) (config : Config) (v : String)
      → asked shard round config ≡ some v
      → get_loop calls ask masters tries shard round (suc fuel) config ≡ some (v, config)
  unfolding get_loop
  get_loop-served shard round fuel config v found = ground (arith, found)

  get_loop-out :
      (shard round fuel : ℕ) (config : Config)
      → asked shard round config ≡ none
      → query (ask round) masters tries none ≡ none
      → get_loop calls ask masters tries shard round (suc fuel) config ≡ none
  unfolding get_loop
  get_loop-out shard round fuel config failed out = ground (arith, failed, out)

  get_loop-next :
      (shard round fuel : ℕ) (config next : Config)
      → asked shard round config ≡ none
      → query (ask round) masters tries none ≡ some next
      → get_loop calls ask masters tries shard round (suc fuel) config
        ≡ get_loop calls ask masters tries shard (round + 1) fuel next
  unfolding get_loop
  get_loop-next shard round fuel config next failed e = ground (arith, failed, e)

  -- The answer to a Get: some server of the group of the shard gave it.
  abbrev pub Answered : (shard : ℕ) → String × Config → Type 0
  Answered shard (value, config) =
      (servers : List String) × (i : ℕ) × (srv : String) × (config.groups (config.shards shard)
        ≡ some servers)
      × (get_elem? servers i ≡ some srv)
      × (r : ℕ) × (reply : GetReply) × (calls r srv ≡ some reply)
      × IsGood reply value

  served_Answered :
      (shard round : ℕ) (config : Config) (v : String)
      → asked shard round config ≡ some v
      → Answered shard (v, config)
  served_Answered shard round config v found =
      let (servers, i, srv, group, at, is) =
        ask_config-some (λ srv. get_verdict (calls round srv)) shard config v found in
      let (reply, called, good) = get_verdict-served (calls round srv) v is in
      (servers, i, srv, group, at, round, reply, called, good)

  get_loop-some :
      (shard round fuel : ℕ) (config : Config) (result : String × Config)
      → get_loop calls ask masters tries shard round fuel config ≡ some result
      → Answered shard result
  unfolding get_loop
  get_loop-some shard round zero config result h = ground arith
  get_loop-some shard round (suc fuel) config result h =
      elim (Option-cases (asked shard round config)) [
        | inl failed ↦ elim (Option-cases (query (ask round) masters tries none)) [
          | inl out ↦ ground (arith, get_loop-out shard round fuel config failed out)
          | inr (next, e) ↦
              get_loop-some shard (round + 1) fuel next result
                (sym (get_loop-next shard round fuel config next failed e) ∙ h)
        ]
        | inr (v, found) ↦
            let same : (v, config) ≡ result =
              ap (λ (o : Option (String × Config)). elim o [ none ↦ result | some x ↦ x ])
                (sym (get_loop-served shard round fuel config v found) ∙ h) in
            subst (Answered shard) same (served_Answered shard round config v found)
      ]

  -- If Get returns a value, then a server gave it in a good reply, and that server is in the group to which the configuration
  -- that the clerk holds then assigns the shard of the key, which is one of the ten.
  pub shard_get_answers :
      (fuel : ℕ) (key : String) (config : Config) (result : String × Config)
      → shard_get calls ask masters tries fuel key config ≡ some result
      → (key2shard key < n_shards) × Answered (key2shard key) result
  unfolding shard_get
  shard_get_answers fuel key config result h =
      (key2shard_bound key, get_loop-some (key2shard key) 0 fuel config result h)

  get_loop-reaches :
      (shard : ℕ) (configs : ℕ → Config) (n round fuel : ℕ) (v : String)
      → n < fuel
      → ((j : ℕ)
          → j < round + n
          → (asked shard j (configs j) ≡ none)
            × (query (ask j) masters tries none ≡ some (configs (j + 1))))
      → asked shard (round + n) (configs (round + n)) ≡ some v
      → get_loop calls ask masters tries shard round fuel (configs round)
        ≡ some (v, configs (round + n))
  get_loop-reaches shard configs n round zero v lt before here = absurd (omega arith)
  get_loop-reaches shard configs zero round (suc fuel) v lt before here =
      let at : round + 0 ≡ round = omega arith in
      get_loop-served shard round fuel (configs round) v
        (subst (λ r. asked shard r (configs r) ≡ some v) at here)
      ∙ ap (λ r. some (v, configs r)) (sym at)
  get_loop-reaches shard configs (suc n) round (suc fuel) v lt before here =
      let at : round + suc n ≡ round + 1 + n = omega arith in
      let (failed, e) = before round (omega arith) in
      get_loop-next shard round fuel (configs round) (configs (round + 1)) failed e
      ∙ get_loop-reaches shard configs n (round + 1) fuel v (omega arith)
          (λ j lt. before j (omega arith)) (subst (λ r. asked shard r (configs r) ≡ some v) at here)
      ∙ ap (λ r. some (v, configs r)) (sym at)

  -- If each round up to some one fails and the shard master then answers with a configuration, and in that round a server of the
  -- group of the key gives a value before any other ends the round, then Get returns that value, and the clerk keeps the
  -- configuration of the round.
  pub shard_get_returns :
      (configs : ℕ → Config) (round fuel : ℕ) (key v : String)
      → round < fuel
      → ((j : ℕ)
          → j < round
          → (asked (key2shard key) j (configs j) ≡ none)
            × (query (ask j) masters tries none ≡ some (configs (j + 1))))
      → asked (key2shard key) round (configs round) ≡ some v
      → shard_get calls ask masters tries fuel key (configs 0) ≡ some (v, configs round)
  unfolding shard_get
  shard_get_returns configs round fuel key v lt before here =
      let at : round ≡ 0 + round = omega arith in
      get_loop-reaches (key2shard key) configs round 0 fuel v lt (λ j lt. before j (omega arith))
        (subst (λ r. asked (key2shard key) r (configs r) ≡ some v) at here)
      ∙ ap (λ r. some (v, configs r)) (sym at)
