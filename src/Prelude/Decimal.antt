-- ===== src/Prelude/Decimal.antt =====
-- Numbers in decimal, as Python's format writes them.
use Prim.Native.Nat.{◌/◌, ◌%◌}
use desktop_worker.Prelude.{ℕ, zero, suc, String, ◌<>◌, ltb, if◌then◌else◌}

abbrev digit : ℕ → String
digit zero = "0"
digit (suc zero) = "1"
digit (suc (suc zero)) = "2"
digit (suc (suc (suc zero))) = "3"
digit (suc (suc (suc (suc zero)))) = "4"
digit (suc (suc (suc (suc (suc zero))))) = "5"
digit (suc (suc (suc (suc (suc (suc zero)))))) = "6"
digit (suc (suc (suc (suc (suc (suc (suc zero))))))) = "7"
digit (suc (suc (suc (suc (suc (suc (suc (suc zero)))))))) = "8"
digit _ = "9"

-- A number has at most as many digits as one more than itself.
digits : ℕ → ℕ → String
digits zero n = ""
digits (suc fuel) n =
    let front = digits fuel (n / 10) in if ltb n 10 then digit n else front <> digit (n % 10)

-- `f"{n}"`
unfoldable pub decimal : ℕ → String
unfolding digits
decimal n = digits (suc n) n

-- `f"{n:04d}"`
unfoldable pub padded : ℕ → String
unfolding decimal
padded n =
    if ltb n 10
    then "000" <> decimal n
    else if ltb n 100
    then "00" <> decimal n
    else if ltb n 1000
    then "0" <> decimal n
    else decimal n
