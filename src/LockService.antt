-- ===== src/LockService.antt =====
-- src/lockservice: Lock of the server and of the clerk. Unlock has an empty body in the source. The
-- state of a server is its map from names to whether they are locked.
pub mod Laws
pub mod Server
mod Tests
use Prim.Native.String.{String}
use text.Mathlib.Text.{◌==◌ as str_eq}
use code2go.Prelude.{Bool, true, false, not, Option, none, some, List, [], ◌∷◌, if◌then◌else◌}

pub record LockServer : Type 0 where
  pub am_primary : Bool
  pub backup : String
  pub locks : String → Bool

unfoldable pub start_server : (backup : String) → (am_primary : Bool) → LockServer
start_server backup am_primary = record {
  am_primary = am_primary;
  backup = backup;
  locks = λ n. false;
}

-- The Lock RPC, with the OK of its reply.
unfoldable pub lock : String → LockServer → LockServer × Bool
lock name ls =
    if ls.locks name
    then (ls, false)
    else (record ls { locks = λ n. if str_eq name n then true else ls.locks n }, true)

-- The clerk: false where the call of the primary fails.
unfoldable pub clerk_lock : Option Bool → Bool
clerk_lock none = false
clerk_lock (some ok) = ok

-- The replies to a sequence of Lock requests.
unfoldable pub lock_all : List String → LockServer → List Bool
unfolding lock
lock_all [] ls = []
lock_all (name ∷ names) ls = let (ls', ok) = lock name ls in ok ∷ lock_all names ls'
