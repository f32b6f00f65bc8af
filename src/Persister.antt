-- ===== src/Persister.antt =====
-- src/raft/persister.go: what a Raft peer keeps across a crash. `B` is the type of byte slices, so
-- that what is saved is the business of the client alone.
use code2go.Prelude.{Option, none, some, ℕ}

pub record Persister (B : Type 0) : Type 0 where
  pub raftstate : Option B  -- a nil slice is `none`
  pub snapshot : Option B

module _ {B : Type 0} where
  unfoldable pub make_persister : Persister B
  make_persister = record { raftstate = none; snapshot = none }

  unfoldable pub copy : Persister B → Persister B
  unfolding make_persister
  copy ps = record make_persister { raftstate = ps.raftstate; snapshot = ps.snapshot }

  unfoldable pub save_raft_state : B → Persister B → Persister B
  save_raft_state d ps = record ps { raftstate = some d }

  unfoldable pub read_raft_state : Persister B → Option B
  read_raft_state ps = ps.raftstate

  -- `len` of a nil slice is 0.
  unfoldable pub raft_state_size : (B → ℕ) → Persister B → ℕ
  raft_state_size len ps = elim ps.raftstate [ none ↦ 0 | some d ↦ len d ]

  unfoldable pub save_snapshot : B → Persister B → Persister B
  save_snapshot d ps = record ps { snapshot = some d }

  unfoldable pub read_snapshot : Persister B → Option B
  read_snapshot ps = ps.snapshot
