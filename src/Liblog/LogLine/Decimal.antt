-- ===== src/Liblog/LogLine/Decimal.antt =====
-- What the formats of src/lib/liblog/logprint.c use of printf.
use cdroid.Prelude.{
  ℕ, zero, suc, ◌+◌, ◌-◌, ◌/◌, ◌%◌, List, [], ◌∷◌, ◌++◌, ltb, if◌then◌else◌, length, replicate,
}

-- The decimal digits, of which there are at most the fuel and one.
abbrev digits : ℕ → ℕ → List ℕ
digits zero n = (48 + n % 10) ∷ []
digits (suc fuel) n =
    let rest = digits fuel (n / 10) in
    if ltb n 10 then (48 + n) ∷ [] else rest ++ (48 + n % 10) ∷ []

-- %d of a number below 2^64
abbrev pub decimal : ℕ → List ℕ
decimal n = digits 20 n

-- %-8s, %5d, %03ld for their widths
abbrev pub pad_right : ℕ → List ℕ → List ℕ
pad_right width s = s ++ replicate (width - length s) 32

abbrev pub pad_left : ℕ → List ℕ → List ℕ
pad_left width s = replicate (width - length s) 32 ++ s

abbrev pub pad_zero : ℕ → List ℕ → List ℕ
pad_zero width s = replicate (width - length s) 48 ++ s
