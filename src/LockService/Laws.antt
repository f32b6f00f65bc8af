-- ===== src/LockService/Laws.antt =====
-- What a server of src/lockservice/server.go promises of its locks.
use Prim.Native.String.{String}
use text.Mathlib.Text.{◌==◌ as str_eq}
use text.Mathlib.TextEquality.{eq_iff}
use code2go.Prelude.{ℕ, suc, ◌≡◌, Bool, true, false, ◌&&◌, List, [], ◌∷◌, if◌then◌else◌, arith}
use code2go.LockService.{LockServer, lock, lock_all}

-- How many of the requests for the name were granted.
unfoldable pub granted : String → List String → List Bool → ℕ
granted name (n ∷ names) (ok ∷ replies) =
    let rest = granted name names replies in if str_eq n name && ok then suc rest else rest
granted name _ _ = 0

unfoldable pub asked : String → List String → Bool
asked name [] = false
asked name (n ∷ names) = if str_eq n name then true else asked name names

-- Of all requests for a name, one is granted if it was free and somebody asks, and none otherwise, whatever other
-- names are asked for in between.
pub granted-lock_all :
    (name : String) (names : List String) (ls : LockServer)
    → granted name names (lock_all names ls)
      ≡ (if ls.locks name then 0 else if asked name names then 1 else 0)
unfolding granted asked lock_all
granted-lock_all name [] ls = ground arith
granted-lock_all name (n ∷ names) ls =
    ground (arith, granted-lock_all name names (lock n ls).0, eq_iff n name)
