-- ===== src/Bot/Pages/Sizes.antt =====
-- services/bot/internal/bot/mylist.go: how long the header and the entries of the list are.
use Prim.Native.String
use price_scount.Base.{
  ℕ, zero, suc, ◌+◌, ◌-◌, ◌/◌, ◌%◌, ◌^◌, ◌≤◌, ◌<◌, ◌≡◌, refl, String, true, false, List, [], ◌∷◌,
  ltb, get_or, All, arith, Bool-cases, inl, inr,
}
use price_scount.Base.Text.{join, digit, digits, decimal, format_int}
use price_scount.Bot.Text.{utf16_units}
use price_scount.Bot.Text.Units.{utf16_units-append}
use price_scount.Bot.Pages.{my_list_header}

abbrev pub total_units : List String → ℕ
total_units [] = 0
total_units (s ∷ rest) = utf16_units s + total_units rest

pub utf16_units-join : (xs : List String) → utf16_units (join xs) ≡ total_units xs
unfolding join
utf16_units-join [] = unfold utf16_units in refl
utf16_units-join (s ∷ rest) = omega (arith, utf16_units-append s (join rest), utf16_units-join rest)

pub get_or-All :
    (P : String → Type 0) (xs : List String) (i : ℕ) (d : String)
    → All P xs
    → P d
    → P (get_or xs i d)
get_or-All P [] i d h e = e
get_or-All P (x ∷ xs) zero d h e = h.0
get_or-All P (x ∷ xs) (suc i) d h e = get_or-All P xs i d h.1 e

IsOne : String → Type 0
IsOne s = utf16_units s ≡ 1

digit-units : (d : ℕ) → utf16_units (digit d) ≡ 1
unfolding digit utf16_units IsOne
digit-units d = get_or-All IsOne digits d "9" all refl
  where
    all : All IsOne digits
    all = (refl, (refl, (refl, (refl, (refl, (refl, (refl, (refl, (refl, (refl, tt))))))))))

module _ (fuel k : ℕ) where
  decimal-short : ltb k 10 ≡ true → utf16_units (decimal (suc fuel) k) ≡ 1
  decimal-short h =
      let step : decimal (suc fuel) k ≡ digit k = unfold decimal in ground (arith, h) in
      rw step (digit-units k)

  decimal-more :
      ltb k 10 ≡ false
      → utf16_units (decimal (suc fuel) k) ≡ utf16_units (decimal fuel (k / 10)) + 1
  decimal-more h =
      let step : decimal (suc fuel) k ≡ String.◌++◌ (decimal fuel (k / 10)) (digit (k % 10)) =
        unfold decimal in ground (arith, h) in
      rw step (
        omega (
          arith,
          utf16_units-append (decimal fuel (k / 10)) (digit (k % 10)),
          digit-units (k % 10),
        ))

-- The decimal text of a number has at most as many units as the fuel, and grows with the number.
decimal-long : (fuel n : ℕ) → utf16_units (decimal fuel n) ≤ fuel
decimal-long zero n = unfold decimal utf16_units in omega arith
decimal-long (suc fuel) n = elim (Bool-cases (ltb n 10)) [
  | inl few ↦ rw (decimal-short fuel n few) (omega arith)
  | inr many ↦ rw (decimal-more fuel n many) (omega (arith, decimal-long fuel (n / 10)))
]

decimal_mono : (fuel n m : ℕ) → n ≤ m → utf16_units (decimal fuel n) ≤ utf16_units (decimal fuel m)
decimal_mono zero n m h = unfold decimal in omega arith
decimal_mono (suc fuel) n m h = elim (Bool-cases (ltb n 10)) [
  | inl few ↦ elim (Bool-cases (ltb m 10)) [
    | inl small ↦ rw (decimal-short fuel n few, decimal-short fuel m small) (omega arith)
    | inr large ↦ rw (decimal-short fuel n few, decimal-more fuel m large) (omega arith)
  ]
  | inr many ↦
      let large : ltb m 10 ≡ false = ground (arith, many, h) in
      rw (decimal-more fuel n many, decimal-more fuel m large)
        (omega (arith, decimal_mono fuel (n / 10) (m / 10) (omega (arith, h))))
]

ltb-true : (a b : ℕ) → a < b → ltb a b ≡ true
ltb-true a b h = ground arith

pub format_int-units : (n : ℕ) → utf16_units (format_int n) ≤ 21
format_int-units n = elim (Bool-cases (ltb n (2 ^ 63))) [
  | inl small ↦
      let step : format_int n ≡ decimal 20 n = unfold format_int in ground (arith, small) in
      rw step (omega (arith, decimal-long 20 n))
  | inr large ↦
      let step : format_int n ≡ String.◌++◌ "-" (decimal 20 (2 ^ 64 - n)) =
        unfold format_int in ground (arith, large) in
      let sign : utf16_units "-" ≡ 1 = unfold utf16_units in refl in
      rw step (
        omega (
          arith,
          sign,
          utf16_units-append "-" (decimal 20 (2 ^ 64 - n)),
          decimal-long 20 (2 ^ 64 - n),
        ))
]

format_int_mono :
    (n m : ℕ) → n ≤ m → m < 2 ^ 63 → utf16_units (format_int n) ≤ utf16_units (format_int m)
format_int_mono n m h lt =
    let low : format_int n ≡ decimal 20 n =
      unfold format_int in rw (ltb-true n (2 ^ 63) (omega (arith, h, lt))) in
    let high : format_int m ≡ decimal 20 m = unfold format_int in rw (ltb-true m (2 ^ 63) lt) in
    rw (low, high) (decimal_mono 20 n m h)

-- The header of a page: at most 80 units, and at most those of a later page.
pub header-units : (total page : ℕ) → utf16_units (my_list_header total page) ≤ 80
unfolding my_list_header
header-units total page = omega (
  arith,
  utf16_units-join
      ("📋 Твои товары (" ∷ format_int total ∷ ") — страница " ∷ format_int page ∷ "):\n" ∷ []),
  format_int-units total,
  format_int-units page,
  texts.0,
  texts.1,
  texts.2,
)
  where
    texts :
        (utf16_units "📋 Твои товары (" ≡ 16)
        × (utf16_units ") — страница " ≡ 13)
        × (utf16_units "):\n" ≡ 3)
    texts = unfold utf16_units in (refl, refl, refl)

pub header_mono :
    (total page last : ℕ)
    → page ≤ last
    → last < 2 ^ 63
    → utf16_units (my_list_header total page) ≤ utf16_units (my_list_header total last)
unfolding my_list_header
header_mono total page last h lt = omega (
  arith,
  utf16_units-join
      ("📋 Твои товары (" ∷ format_int total ∷ ") — страница " ∷ format_int page ∷ "):\n" ∷ []),
  utf16_units-join
      ("📋 Твои товары (" ∷ format_int total ∷ ") — страница " ∷ format_int last ∷ "):\n" ∷ []),
  format_int_mono page last h lt,
)
