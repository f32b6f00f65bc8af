-- ===== src/ViewService.antt =====
-- src/viewservice/client.go: the clerk. What a call returns is an argument, `none` where it fails.
pub mod Server
mod Tests
use Prim.Native.String.{String}
use code2go.Prelude.{ℕ, Option, none, some}

pub record View : Type 0 where
  pub viewnum : ℕ
  pub primary : String
  pub backup : String

pub record PingArgs : Type 0 where
  pub me : String
  pub viewnum : ℕ

pub record ViewClerk : Type 0 where
  pub me : String
  pub server : String

unfoldable pub make_view_clerk : (me server : String) → ViewClerk
make_view_clerk me server = record { me = me; server = server }

-- An error is `none`.
unfoldable pub ping :
    (calls : String → PingArgs → Option View) → (viewnum : ℕ) → ViewClerk → Option View
ping calls viewnum ck = calls ck.server (record { me = ck.me; viewnum = viewnum })

unfoldable pub get_view : (calls : String → Option View) → ViewClerk → Option View
get_view calls ck = calls ck.server

-- "" where the service does not answer.
unfoldable pub primary : (calls : String → Option View) → ViewClerk → String
unfolding get_view
primary calls ck = elim (get_view calls ck) [ some v ↦ v.primary | none ↦ "" ]
