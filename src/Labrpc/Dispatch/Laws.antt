-- ===== src/Labrpc/Dispatch/Laws.antt =====
-- Which method a server of src/labrpc/labrpc.go calls.
use Prim.Native.String.{String, ◌++◌ as str_append}
use Prim.Native.String.append
use Prim.Native.Char.{code}
use text.Mathlib.Text.{◌==◌ as str_eq}
use text.Mathlib.TextEquality.{eq_iff}
use code2go.Prelude.{◌+◌, ◌≡◌, refl, ap, ◌∙◌, Bool, true, false, ◌||◌, none, some, ◌==◌, arith}
use code2go.Labrpc.Dispatch.{Service, Server, split_last_dot, add_service, dispatch}

unfoldable pub has_dot : String → Bool
has_dot String.[] = false
has_dot (String.◌∷◌ c s) = (code c == 46) || has_dot s

split_last_dot-none : (s : String) → has_dot s ≡ false → split_last_dot s ≡ none
unfolding split_last_dot has_dot
split_last_dot-none String.[] h = refl
split_last_dot-none (String.◌∷◌ c s) h = ground (arith, split_last_dot-none s (ground arith))

split_last_dot-join :
    (before behind : String)
    → has_dot behind ≡ false
    → split_last_dot (str_append before (String.◌∷◌ "." behind)) ≡ some (before, behind)
unfolding split_last_dot
split_last_dot-join String.[] behind h =
    ap split_last_dot (append.nil (String.◌∷◌ "." behind)) ∙ rw (split_last_dot-none behind h) refl
split_last_dot-join (String.◌∷◌ c s) behind h =
    ap split_last_dot (append.cons c s (String.◌∷◌ "." behind))
    ∙ ground (arith, split_last_dot-join s behind h)

-- A request for a service that was added and a method of it without a dot in its name calls that method, with the
-- arguments of the request, and counts the request. The name of the service may have dots.
pub dispatch_calls :
    {S B : Type 0} (svc : Service S B) (rs : Server S B) (m : String) (method : B → S → S × B)
    (args : B) (state : S)
    → has_dot m ≡ false
    → svc.methods m ≡ some method
    → dispatch (str_append svc.name (String.◌∷◌ "." m)) args (add_service svc rs) state
      ≡ some (
        record (add_service svc rs) { count = rs.count + 1 },
        (method args state).0,
        (method args state).1,
      )
unfolding dispatch add_service
dispatch_calls svc rs m method args state h found =
    let same : str_eq svc.name svc.name ≡ true = (eq_iff svc.name svc.name).1 refl in
    rw (split_last_dot-join svc.name m h) (ground (arith, same, found))
