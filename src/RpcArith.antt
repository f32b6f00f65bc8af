-- ===== src/RpcArith.antt =====
-- src/rpc/server/server.go and src/rpc/client/client.go: `Multiply` and `Divide` on 64-bit integers. A number
-- is the value below 2^64 that has its bits; the sign is the highest one. Division drops the fraction, so that the
-- remainder has the sign of the dividend.
mod Tests
use code2go.Prelude.{
  ℕ, ◌+◌, ◌-◌, ◌*◌, ◌/◌, ◌%◌, ◌^◌, ◌<◌, ◌≡◌, Bool, true, false, not, Option, none, some, leb, ◌==◌,
  if◌then◌else◌, arith, Bool-cases, inl, inr, ==_iff,
}

pub record Args : Type 0 where
  pub a : ℕ
  pub b : ℕ

pub record Quotient : Type 0 where
  pub quo : ℕ
  pub rem : ℕ

abbrev pub is_negative : ℕ → Bool
is_negative x = leb (2 ^ 63) x

abbrev pub negate : ℕ → ℕ
negate x = (2 ^ 64 - x) % 2 ^ 64

abbrev pub magnitude : ℕ → ℕ
magnitude x = if is_negative x then 2 ^ 64 - x else x

unfoldable pub multiply : Args → ℕ
multiply args = (args.a * args.b) % 2 ^ 64

-- "divide by zero" is `none`.
unfoldable pub divide : Args → Option Quotient
divide args =
    let q = magnitude args.a / magnitude args.b in
    let r = magnitude args.a % magnitude args.b in
    if args.b == 0
    then none
    else some (record {
      quo =
          (if is_negative args.a
            then if is_negative args.b then q % 2 ^ 64 else negate q
            else if is_negative args.b
            then negate q
            else q);
      rem = (if is_negative args.a then negate r else r);
    })
