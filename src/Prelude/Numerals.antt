-- ===== src/Prelude/Numerals.antt =====
-- Python's `str(n)` of a number, and the trimming of texts.
use Prim.Native.Nat.{ℕ, zero, suc, ◌/◌, ◌%◌}
use Prim.Native.Char.{code}
use Prim.Native.String.{String}
use mathlib.Core.Bool.{Bool, true, false, ◌&&◌, ◌||◌}
use sbc_mcu_dut_controller.Prelude.Tests.{if◌then◌else◌, ltb, leb, ◌==◌}
use sbc_mcu_dut_controller.Prelude.Text.{◌<>◌}

-- `str(n)` for a number below 10
abbrev pub digit : ℕ → String
digit n =
    if n == 0
    then "0"
    else if n == 1
    then "1"
    else if n == 2
    then "2"
    else if n == 3
    then "3"
    else if n == 4
    then "4"
    else if n == 5
    then "5"
    else if n == 6
    then "6"
    else if n == 7
    then "7"
    else if n == 8
    then "8"
    else "9"

abbrev pub decimal : ℕ → ℕ → String
decimal zero n = ""
decimal (suc fuel) n =
    let high : String = decimal fuel (n / 10) in
    if ltb n 10 then digit n else high <> digit (n % 10)

-- `str(n)`; a number has at most as many digits as its successor counts.
abbrev pub str_of : ℕ → String
str_of n = decimal (suc n) n

abbrev pub is_space : ℕ → Bool
is_space c = c == 32 || (leb 9 c && leb c 13)

abbrev pub is_empty : String → Bool
is_empty String.[] = true
is_empty (String.◌∷◌ c s) = false

abbrev pub lstrip : String → String
lstrip String.[] = String.[]
lstrip (String.◌∷◌ c s) = let rest = lstrip s in if is_space (code c) then rest else String.◌∷◌ c s

-- `s.rstrip(chars)`, for the characters that the test accepts
abbrev pub rstrip_of : (ℕ → Bool) → String → String
rstrip_of p String.[] = String.[]
rstrip_of p (String.◌∷◌ c s) =
    let rest = rstrip_of p s in if p (code c) && is_empty rest then String.[] else String.◌∷◌ c rest

-- `s.strip()`
abbrev pub strip : String → String
strip s = rstrip_of is_space (lstrip s)
