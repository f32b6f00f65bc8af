-- ===== src/RpcArith/Tests.antt =====
-- Tests of src/rpc.
use code2go.Prelude.{ℕ, ◌-◌, ◌^◌, ◌≡◌, refl, none, some}
use code2go.RpcArith.{multiply, divide}

-- A negative number by its magnitude.
abbrev minus : ℕ → ℕ
minus x = 2 ^ 64 - x

seven_by_minus_two :
    divide (record { a = 7; b = minus 2 }) ≡ some (record { quo = minus 3; rem = 1 })
unfolding divide
seven_by_minus_two = refl

minus_seven_by_two :
    divide (record { a = minus 7; b = 2 }) ≡ some (record { quo = minus 3; rem = minus 1 })
unfolding divide
minus_seven_by_two = refl

by_zero : divide (record { a = 7; b = 0 }) ≡ none
unfolding divide
by_zero = refl

-- The quotient of the least number by -1 wraps around.
least_by_minus_one :
    divide (record { a = 2 ^ 63; b = minus 1 }) ≡ some (record { quo = 2 ^ 63; rem = 0 })
unfolding divide
least_by_minus_one = refl

wraps : multiply (record { a = 2 ^ 32; b = 2 ^ 32 }) ≡ 0
unfolding multiply
wraps = refl
