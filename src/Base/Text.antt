-- ===== src/Base/Text.antt =====
-- Texts that the program joins, and the decimal texts of strconv.
use Prim.Native.Char.{code}
use Prim.Native.Nat.{ℕ, zero, suc, ◌+◌, ◌*◌, ◌-◌, ◌/◌, ◌%◌, ◌^◌}
use mathlib.Core.Bool.{◌&&◌}
use mathlib.Core.Option.{Option, none, some}
use Prim.Native.String.{String}
use Prim.Native.String
use mathlib.Core.Path.{◌≡◌, refl}
use mathlib.Core.List.{List, [], ◌∷◌}
use price_scount.Base.Tests.{ltb, leb, ◌==◌, max_int64, if◌then◌else◌}
use price_scount.Base.Lists.{get_or}

-- fmt.Sprintf over texts: the pieces in order.
unfoldable pub join : List String → String
join [] = ""
join (s ∷ rest) = String.◌++◌ s (join rest)

abbrev pub digits : List String
digits = "0" ∷ "1" ∷ "2" ∷ "3" ∷ "4" ∷ "5" ∷ "6" ∷ "7" ∷ "8" ∷ "9" ∷ []

unfoldable pub digit : ℕ → String
digit d = get_or digits d "9"

unfoldable pub decimal : ℕ → ℕ → String
unfolding digit
decimal zero n = ""
decimal (suc fuel) n =
    let rest = decimal fuel (n / 10) in
    if ltb n 10 then digit n else String.◌++◌ rest (digit (n % 10))

-- strconv.FormatInt(n, 10) of an int64 that is held as its 64-bit pattern; 20 digits are enough.
unfoldable pub format_int : ℕ → String
unfolding decimal
format_int n = if ltb n (2 ^ 63) then decimal 20 n else String.◌++◌ "-" (decimal 20 (2 ^ 64 - n))

format_int_small : format_int 120 ≡ "120"
unfolding format_int
format_int_small = refl

format_int_negative : format_int (2 ^ 64 - 45) ≡ "-45"
unfolding format_int
format_int_negative = refl

-- The number of a text of decimal digits, after those that were read.
abbrev pub digits_value : ℕ → String → Option ℕ
digits_value acc String.[] = some acc
digits_value acc (String.◌∷◌ c s) =
    let rest = digits_value (acc * 10 + (code c - b'0')) s in
    if leb b'0' (code c) && leb (code c) b'9' then rest else none

-- The same, where at least one digit is needed and the number is at most a bound.
abbrev pub bounded : ℕ → String → Option ℕ
bounded limit String.[] = none
bounded limit (String.◌∷◌ c s) = elim (digits_value 0 (String.◌∷◌ c s)) [
  | none ↦ none
  | some n ↦ if leb n limit then some n else none
]

-- The pattern of -n.
abbrev pub negate64 : ℕ → ℕ
negate64 n = (2 ^ 64 - n) % 2 ^ 64

-- strconv.ParseInt(s, 10, 64), as a 64-bit pattern.
unfoldable pub parse_int : String → Option ℕ
parse_int String.[] = none
parse_int (String.◌∷◌ c s) =
    if code c == b'-'
    then (elim (bounded (max_int64 + 1) s) [ none ↦ none | some n ↦ some (negate64 n) ])
    else if code c == b'+'
    then bounded max_int64 s
    else bounded max_int64 (String.◌∷◌ c s)
