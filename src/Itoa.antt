-- ===== src/Itoa.antt =====
-- `strconv.Itoa` of the Go standard library on numbers that are not negative, which the packages use
-- for names: src/kvraft/client.go and src/mapreduce/common.go.
pub mod Laws
use Prim.Native.Char.{Char}
use Prim.Native.String.{String}
use code2go.Prelude.{ℕ, zero, suc, ◌/◌, ◌%◌, ltb, if◌then◌else◌}

unfoldable pub digit : ℕ → Char
digit zero = "0"
digit (suc zero) = "1"
digit (suc (suc zero)) = "2"
digit (suc (suc (suc zero))) = "3"
digit (suc (suc (suc (suc zero)))) = "4"
digit (suc (suc (suc (suc (suc zero))))) = "5"
digit (suc (suc (suc (suc (suc (suc zero)))))) = "6"
digit (suc (suc (suc (suc (suc (suc (suc zero))))))) = "7"
digit (suc (suc (suc (suc (suc (suc (suc (suc zero)))))))) = "8"
digit (suc (suc (suc (suc (suc (suc (suc (suc (suc n))))))))) = "9"

-- The digits in front of `out`. Each round divides by ten, so `suc n` rounds are enough for `n`.
unfoldable pub emit : (rounds n : ℕ) → String → String
unfolding digit
emit zero n out = out
emit (suc rounds) n out =
    let rest = emit rounds (n / 10) (String.◌∷◌ (digit (n % 10)) out) in
    if ltb n 10 then String.◌∷◌ (digit n) out else rest

unfoldable pub itoa : ℕ → String
unfolding emit
itoa n = emit (suc n) n String.[]
