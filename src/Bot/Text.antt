-- ===== src/Bot/Text.antt =====
-- services/bot/internal/bot: texts for Telegram, which counts UTF-16 units (mylist.go, search.go,
-- bot.go), and the prices that a user types (helpers.go).
pub mod Units
use Prim.Native.Char.{Char, code}
use Prim.Native.String
use price_scount.Base.{
  ℕ, zero, suc, ◌+◌, ◌-◌, String, Bool, true, false, ◌||◌, Option, none, some, ltb, leb, ◌==◌,
  if◌then◌else◌,
}
use price_scount.Base.Text.{join}
use price_scount.Base.Int.{Float64, float_le, float_zero}

-- The units of a code point.
abbrev pub units : Char → ℕ
units c = if ltb 65535 (code c) then 2 else 1

-- utf16Units.
unfoldable pub utf16_units : String → ℕ
utf16_units String.[] = 0
utf16_units (String.◌∷◌ c s) = units c + utf16_units s

-- The code points until one does not fit, given the units so far.
unfoldable pub fitting : ℕ → ℕ → String → String
fitting limit used String.[] = ""
fitting limit used (String.◌∷◌ c s) =
    let rest = fitting limit (used + units c) s in
    if ltb limit (used + units c) then "" else String.◌∷◌ c rest

-- truncateUTF16. A limit that is negative in Go counts as 0.
unfoldable pub truncate_utf16 : String → ℕ → String
truncate_utf16 s zero = ""
truncate_utf16 s (suc limit) =
    if leb (utf16_units s) (suc limit) then s else String.◌++◌ (fitting limit 0 s) "…"

-- The number of code points, and the first ones.
abbrev pub runes : String → ℕ
runes String.[] = 0
runes (String.◌∷◌ c s) = suc (runes s)

abbrev pub take_runes : ℕ → String → String
take_runes zero s = ""
take_runes (suc n) String.[] = ""
take_runes (suc n) (String.◌∷◌ c s) = String.◌∷◌ c (take_runes n s)

-- truncate.
unfoldable pub truncate : String → ℕ → String
truncate s max = if leb (runes s) max then s else String.◌++◌ (take_runes max s) "…"

-- The two replacements of parsePrice: no spaces, and a point for a comma.
abbrev pub point : Char
point = "."

abbrev pub normalize_price : String → String
normalize_price String.[] = ""
normalize_price (String.◌∷◌ c s) =
    let rest = normalize_price s in
    if code c == b' '
    then rest
    else if code c == b','
    then String.◌∷◌ point rest
    else String.◌∷◌ c rest

module _ (parse_float : String → Option Float64) where
  -- parsePrice; strconv.ParseFloat is an argument.
  unfoldable pub parse_price : String → Option Float64
  parse_price text = elim (parse_float (normalize_price text)) [
    | none ↦ none
    | some price ↦ if float_le price float_zero then none else some price
  ]
