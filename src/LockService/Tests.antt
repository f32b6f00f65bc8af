-- ===== src/LockService/Tests.antt =====
-- Tests of src/lockservice.
use code2go.Prelude.{◌≡◌, refl, true, false, [], ◌∷◌, if◌then◌else◌}
use code2go.LockService.{start_server, lock_all}
use code2go.LockService.Laws.{granted, asked, granted-lock_all}

granted_once :
    lock_all ("a" ∷ "b" ∷ "a" ∷ "b" ∷ "c" ∷ []) (start_server "s" true)
    ≡ true ∷ true ∷ false ∷ false ∷ true ∷ []
unfolding lock_all start_server
granted_once = refl

granted-lock_all_example :
    granted "a" ("a" ∷ "b" ∷ "a" ∷ []) (lock_all ("a" ∷ "b" ∷ "a" ∷ []) (start_server "s" true)) ≡ (
      if (start_server "s" true).locks "a"
      then 0
      else if asked "a" ("a" ∷ "b" ∷ "a" ∷ [])
      then 1
      else 0)
granted-lock_all_example = granted-lock_all "a" ("a" ∷ "b" ∷ "a" ∷ []) (start_server "s" true)
