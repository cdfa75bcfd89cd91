-- ===== src/Strings.antt =====
-- What the services use of Go's package strings, over the characters of a text.
use Prim.Native.Char.{Char, code}
use price_scount.Base.{
  String, Bool, true, false, ◌&&◌, ◌||◌, Option, none, some, ◌==◌, leb, if◌then◌else◌,
}
use price_scount.Platform.{strip_prefix}

abbrev pub is_some : Option String → Bool
is_some none = false
is_some (some s) = true

-- strings.HasPrefix.
abbrev pub has_prefix : String → String → Bool
has_prefix p s = is_some (strip_prefix p s)

-- strings.Contains(s, p).
unfoldable pub contains : String → String → Bool
contains p String.[] = has_prefix p ""
contains p (String.◌∷◌ c s) = has_prefix p (String.◌∷◌ c s) || contains p s

-- s[:strings.Index(s, p)], and `none` where the index is -1.
unfoldable pub before : String → String → Option String
before p String.[] = if has_prefix p "" then some "" else none
before p (String.◌∷◌ c s) =
    let rest = before p s in
    if has_prefix p (String.◌∷◌ c s)
    then some ""
    else (elim rest [ none ↦ none | some t ↦ some (String.◌∷◌ c t) ])

abbrev pub is_empty : String → Bool
is_empty String.[] = true
is_empty (String.◌∷◌ c s) = false

-- unicode.IsSpace.
abbrev pub is_space : Char → Bool
is_space c =
    (leb 9 (code c) && leb (code c) 13)
    || code c == 32
    || code c == 133
    || code c == 160
    || code c == 5760
    || (leb 8192 (code c) && leb (code c) 8202)
    || code c == 8232
    || code c == 8233
    || code c == 8239
    || code c == 8287
    || code c == 12288

-- strings.TrimSpace.
unfoldable pub trim_left : String → String
trim_left String.[] = ""
trim_left (String.◌∷◌ c s) = let rest = trim_left s in if is_space c then rest else String.◌∷◌ c s

unfoldable pub trim_right : String → String
trim_right String.[] = ""
trim_right (String.◌∷◌ c s) =
    let rest = trim_right s in if is_space c && is_empty rest then "" else String.◌∷◌ c rest

unfoldable pub trim_space : String → String
trim_space s = trim_right (trim_left s)
