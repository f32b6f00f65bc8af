-- ===== src/ViewService/Tests.antt =====
-- Tests of src/viewservice/client.go.
use code2go.Prelude.{◌≡◌, refl, none, some}
use code2go.ViewService.{make_view_clerk, primary}

primary_found :
    primary
      (λ server. some (record { viewnum = 2; primary = "p"; backup = "b" }))
      (make_view_clerk "c" "v")
    ≡ "p"
unfolding primary
primary_found = refl

primary_lost : primary (λ server. none) (make_view_clerk "c" "v") ≡ ""
unfolding primary
primary_lost = refl
