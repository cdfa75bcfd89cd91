-- ===== src/Marketplace/Price.antt =====
-- shared/pkg/marketplace/wb.go: which digits parseWBPrice reads.
use Prim.Native.Char.{Char}
use Prim.Native.String
use price_scount.Base.{String, true, false, ◌≡◌, ◌⊎◌, if◌then◌else◌, arith, Bool-cases, inl, inr}
use text.Mathlib.TextLemmas.{nil-append, cons-append}
use price_scount.Marketplace.{is_digit, is_gap, price_digits}

-- A text without digits, and a text of digits and gaps.
abbrev pub NoDigits : String → Type 0
NoDigits String.[] = Unit
NoDigits (String.◌∷◌ c s) = (is_digit c ≡ false) × NoDigits s

abbrev pub DigitsAndGaps : String → Type 0
DigitsAndGaps String.[] = Unit
DigitsAndGaps (String.◌∷◌ c s) = ((is_digit c ≡ true) ⊎ (is_gap c ≡ true)) × DigitsAndGaps s

-- The digits of a text.
abbrev pub digits_of : String → String
digits_of String.[] = ""
digits_of (String.◌∷◌ c s) =
    let rest = digits_of s in if is_digit c then String.◌∷◌ c rest else rest

digit-no-gap : (c : Char) → is_digit c ≡ true → is_gap c ≡ false
digit-no-gap c h = ground (arith, h)

-- The number that has begun, up to a character that ends it.
price_digits-rest :
    (group tail : String) (stop : Char)
    → DigitsAndGaps group
    → is_digit stop ≡ false
    → is_gap stop ≡ false
    → price_digits true (String.◌++◌ group (String.◌∷◌ stop tail)) ≡ digits_of group
unfolding price_digits
price_digits-rest String.[] tail stop g d s =
    rw (nil-append (String.◌∷◌ stop tail)) (ground (arith, d, s))
price_digits-rest (String.◌∷◌ c group) tail stop g d s =
    let rest : price_digits true (String.◌++◌ group (String.◌∷◌ stop tail)) ≡ digits_of group =
      price_digits-rest group tail stop g.1 d s in
    rw (cons-append c group (String.◌∷◌ stop tail)) (elim g.0 [
      | inl digit ↦ ground (arith, digit, rest)
      | inr gap ↦ elim (Bool-cases (is_digit c)) [
        | inl digit ↦ ground (arith, digit, rest)
        | inr other ↦ ground (arith, other, gap, rest)
      ]
    ])

-- Whatever stands before the first digit, and whatever follows the first character that is neither a
-- digit nor a gap, the price that is read is that of the first group: its digits without the gaps.
pub price_digits-first :
    (lead group tail : String) (first stop : Char)
    → NoDigits lead
    → is_digit first ≡ true
    → DigitsAndGaps group
    → is_digit stop ≡ false
    → is_gap stop ≡ false
    → price_digits false
        (String.◌++◌ lead (String.◌∷◌ first (String.◌++◌ group (String.◌∷◌ stop tail))))
      ≡ String.◌∷◌ first (digits_of group)
unfolding price_digits
price_digits-first String.[] group tail first stop n f g d s =
    let rest : price_digits true (String.◌++◌ group (String.◌∷◌ stop tail)) ≡ digits_of group =
      price_digits-rest group tail stop g d s in
    rw (nil-append (String.◌∷◌ first (String.◌++◌ group (String.◌∷◌ stop tail))))
      (ground (arith, f, rest))
price_digits-first (String.◌∷◌ c lead) group tail first stop n f g d s =
    let rest : price_digits false
          (String.◌++◌ lead (String.◌∷◌ first (String.◌++◌ group (String.◌∷◌ stop tail))))
        ≡ String.◌∷◌ first (digits_of group) =
      price_digits-first lead group tail first stop n.1 f g d s in
    rw (cons-append c lead (String.◌∷◌ first (String.◌++◌ group (String.◌∷◌ stop tail))))
      (ground (arith, n.0, rest))
