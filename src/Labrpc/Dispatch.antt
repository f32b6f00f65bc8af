-- ===== src/Labrpc/Dispatch.antt =====
-- src/labrpc/labrpc.go: servers and their services. `S` is the state of the receivers, `B` that of
-- byte slices. Reflection and encoding/gob are not modelled: a method takes the encoded argument to
-- the encoded reply.
pub mod Laws
use Prim.Native.String.{String}
use Prim.Native.Char.{Char}
use text.Mathlib.Text.{◌==◌ as str_eq}
use code2go.Prelude.{ℕ, ◌+◌, Bool, true, false, Option, none, some, ◌==◌, if◌then◌else◌, ◌>>=◌}
use Prim.Native.Char.{code}

pub record Service (S B : Type 0) : Type 0 where
  pub name : String
  pub methods : String → Option (B → S → S × B)

pub record Server (S B : Type 0) : Type 0 where
  pub services : String → Option (Service S B)
  pub count : ℕ

-- The text before and behind the last dot (`strings.LastIndex`).
unfoldable pub split_last_dot : String → Option (String × String)
split_last_dot String.[] = none
split_last_dot (String.◌∷◌ c s) = elim (split_last_dot s) [
  | some (before, behind) ↦ some (String.◌∷◌ c before, behind)
  | none ↦ if code c == 46 then some (String.[], s) else none
]

module _ {S B : Type 0} where
  unfoldable pub make_server : Server S B
  make_server = record { services = λ n. none; count = 0 }

  unfoldable pub add_service : Service S B → Server S B → Server S B
  add_service svc rs = record rs {
    services = λ n. if str_eq svc.name n then some svc else rs.services n;
  }

  unfoldable pub service_dispatch :
      Service S B → (methname : String) → (args : B) → S → Option (S × B)
  service_dispatch svc methname args state = do
    method ← svc.methods methname
    some (method args state)

  -- A name without a dot is a panic, an unknown service or method is fatal.
  unfoldable pub dispatch :
      (svc_meth : String) (args : B) → Server S B → S → Option (Server S B × S × B)
  unfolding split_last_dot service_dispatch
  dispatch svc_meth args rs state = do
    (service_name, method_name) ← split_last_dot svc_meth
    service ← rs.services service_name
    (state', reply) ← service_dispatch service method_name args state
    some (record rs { count = rs.count + 1 }, state', reply)

  unfoldable pub get_count : Server S B → ℕ
  get_count rs = rs.count
