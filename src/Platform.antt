-- ===== src/Platform.antt =====
-- shared/pkg/platform/platform.go: which URLs are products, and their canonical form.
use Prim.Native.Char.{Char, code}
use Prim.Native.String.{String}
use mathlib.Core.Path.{subst}
use price_scount.Base.{
  ℕ, ◌+◌, Bool, true, false, ◌&&◌, ◌||◌, Option, none, some, ◌==◌, leb, ◌≡◌, refl, arith,
  if◌then◌else◌, Bool-cases, Option-cases, inl, inr, ap, ◌∙◌,
}

abbrev is_digit : Char → Bool
is_digit c = leb b'0' (code c) && leb (code c) b'9'

-- s + t, by the characters of s.
abbrev append : String → String → String
append String.[] t = t
append (String.◌∷◌ c s) t = String.◌∷◌ c (append s t)

-- The rest of a text behind a prefix.
unfoldable pub strip_prefix : String → String → Option String
strip_prefix String.[] s = some s
strip_prefix (String.◌∷◌ p ps) String.[] = none
strip_prefix (String.◌∷◌ p ps) (String.◌∷◌ c s) =
    let rest = strip_prefix ps s in if code p == code c then rest else none

unfoldable pub take_digits : String → String
take_digits String.[] = ""
take_digits (String.◌∷◌ c s) = if is_digit c then String.◌∷◌ c (take_digits s) else ""

-- The text, where a repetition must match at least once.
abbrev non_empty : String → Option String
non_empty String.[] = none
non_empty (String.◌∷◌ c s) = some (String.◌∷◌ c s)

-- One match of wildberries\.ru/catalog/(\d+) that begins here: its digits.
unfoldable pub match_here : String → Option String
unfolding strip_prefix take_digits
match_here s = elim (strip_prefix "wildberries.ru/catalog/" s) [
  | none ↦ none
  | some rest ↦ non_empty (take_digits rest)
]

-- FindStringSubmatch: the leftmost match.
unfoldable pub find_product_id : String → Option String
find_product_id String.[] = none
find_product_id (String.◌∷◌ c s) = elim (match_here (String.◌∷◌ c s)) [
  | some id ↦ some id
  | none ↦ find_product_id s
]

abbrev canonical : String → String
canonical id = append "https://www.wildberries.ru/catalog/" (append id "/detail.aspx")

-- NormalizeWB, with its error as `none`.
unfoldable pub normalize_wb : String → Option String
unfolding find_product_id
normalize_wb url = elim (find_product_id url) [ none ↦ none | some id ↦ some (canonical id) ]

-- The code of strings.ToLower at a character, as far as it is that of an ASCII letter or digit: the
-- two other characters with an ASCII lower case are U+0130 and U+212A.
abbrev pub lower_code : Char → ℕ
lower_code c =
    if leb b'A' (code c) && leb (code c) b'Z'
    then code c + 32
    else if code c == 304
    then b'i'
    else if code c == 8490
    then b'k'
    else code c

unfoldable pub starts_lower : String → String → Bool
starts_lower String.[] s = true
starts_lower (String.◌∷◌ p ps) String.[] = false
starts_lower (String.◌∷◌ p ps) (String.◌∷◌ c s) = code p == lower_code c && starts_lower ps s

-- strings.Contains(strings.ToLower(s), p).
unfoldable pub contains_lower : String → String → Bool
unfolding starts_lower
contains_lower p String.[] = starts_lower p ""
contains_lower p (String.◌∷◌ c s) = starts_lower p (String.◌∷◌ c s) || contains_lower p s

-- Detect, with its error as `none`.
unfoldable pub detect : String → Option String
detect url = if contains_lower "wildberries.ru" url then some "wb" else none

-- A text of digits.
abbrev Digits : String → Type 0
Digits String.[] = Unit
Digits (String.◌∷◌ c s) = (is_digit c ≡ true) × Digits s

take_digits-Digits : (s : String) → Digits (take_digits s)
unfolding take_digits
take_digits-Digits String.[] = tt
take_digits-Digits (String.◌∷◌ c s) = elim (Bool-cases (is_digit c)) [
  | inl digit ↦ rw (digit, take_digits) (digit, take_digits-Digits s)
  | inr other ↦ rw (other, take_digits) tt
]

-- The digits before the fixed end of a canonical URL.
take_digits-end : (id : String) → Digits id → take_digits (append id "/detail.aspx") ≡ id
unfolding take_digits
take_digits-end String.[] d = refl
take_digits-end (String.◌∷◌ c s) d = ground (arith, d.0, take_digits-end s d.1)

-- A number that the pattern captures.
abbrev Number : String → Type 0
Number String.[] = ⊥
Number (String.◌∷◌ c s) = Digits (String.◌∷◌ c s)

captured : (d id : String) → Digits d → non_empty d ≡ some id → Number id
captured String.[] id h e = absurd (ground arith)
captured (String.◌∷◌ c s) id h e =
    let same : String.◌∷◌ c s ≡ id = ground arith in subst Number same h

match_here-Number : (s id : String) → match_here s ≡ some id → Number id
unfolding match_here
match_here-Number s id e = elim (Option-cases (strip_prefix "wildberries.ru/catalog/" s)) [
  | inl short ↦ absurd (ground arith)
  | inr (rest, found) ↦ captured (take_digits rest) id (take_digits-Digits rest) (ground arith)
]

find_product_id-Number : (url id : String) → find_product_id url ≡ some id → Number id
unfolding find_product_id
find_product_id-Number String.[] id e = absurd (ground arith)
find_product_id-Number (String.◌∷◌ c s) id e = elim (Option-cases (match_here (String.◌∷◌ c s))) [
  | inl later ↦ find_product_id-Number s id (ground arith)
  | inr (d, here) ↦ match_here-Number (String.◌∷◌ c s) id (ground arith)
]

-- In a canonical URL the pattern matches no earlier than at the host.
match_host :
    (t : String) → match_here (append "wildberries.ru/catalog/" t) ≡ non_empty (take_digits t)
unfolding match_here strip_prefix
match_host t = refl

first_match :
    (t : String)
    → find_product_id (append "https://www.wildberries.ru/catalog/" t)
      ≡ find_product_id (append "wildberries.ru/catalog/" t)
unfolding find_product_id match_here strip_prefix
first_match t = refl

find_hit :
    (c : Char) (s id : String)
    → match_here (String.◌∷◌ c s) ≡ some id
    → find_product_id (String.◌∷◌ c s) ≡ some id
unfolding find_product_id
find_hit c s id e = rw (find_product_id, e) refl

here_first :
    (t id : String)
    → match_here (append "wildberries.ru/catalog/" t) ≡ some id
    → find_product_id (append "wildberries.ru/catalog/" t) ≡ some id
here_first t id e = find_hit _ _ id e

non_empty-Number : (id : String) → Number id → non_empty id ≡ some id
non_empty-Number String.[] h = absurd h
non_empty-Number (String.◌∷◌ c s) h = refl

Number-Digits : (id : String) → Number id → Digits id
Number-Digits String.[] h = tt
Number-Digits (String.◌∷◌ c s) h = h

canonical_found : (id : String) → Number id → find_product_id (canonical id) ≡ some id
canonical_found id h =
    let tail = append id "/detail.aspx" in
    let same : match_here (append "wildberries.ru/catalog/" tail) ≡ some id =
      match_host tail
      ∙ ap non_empty (take_digits-end id (Number-Digits id h))
      ∙ non_empty-Number id h in
    first_match tail ∙ here_first tail id same

-- A URL that NormalizeWB returns is its own normal form: normalising it again succeeds and
-- returns the same text.
pub normalize_wb-idempotent : (url t : String) → normalize_wb url ≡ some t → normalize_wb t ≡ some t
unfolding normalize_wb
normalize_wb-idempotent url t e = elim (Option-cases (find_product_id url)) [
  | inl none_found ↦ absurd (ground arith)
  | inr (id, found) ↦
      let same : canonical id ≡ t = ground arith in
      let again : find_product_id (canonical id) ≡ some id =
        canonical_found id (find_product_id-Number url id found) in
      subst (λ u. (elim (find_product_id u) [ none ↦ none | some i ↦ some (canonical i) ]) ≡ some u)
        same (rw again refl)
]
