-- ===== src/Bot/Text/Units.antt =====
-- services/bot/internal/bot/mylist.go: how long a truncated text is.
use Prim.Native.Char.{Char}
use Prim.Native.String
use text.Mathlib.TextLemmas.{nil-append, cons-append}
use price_scount.Base.{
  ℕ, zero, suc, ◌+◌, ◌≤◌, ◌<◌, ◌≡◌, refl, sym, ap, ◌∙◌, ◌⊎◌, String, ltb, leb, arith, Bool-cases,
  inl, inr,
}
use price_scount.Bot.Text.{units, utf16_units, fitting, truncate_utf16}

pub utf16_units-append :
    (s t : String) → utf16_units (String.◌++◌ s t) ≡ utf16_units s + utf16_units t
unfolding utf16_units
utf16_units-append String.[] t = rw (nil-append t) (omega arith)
utf16_units-append (String.◌∷◌ c s) t =
    rw (cons-append c s t) (omega (arith, utf16_units-append s t))

-- What is left of a text, and that its first code point would go beyond the limit.
abbrev Stops : ℕ → ℕ → String → String → Type 0
Stops limit used s kept =
    (used + utf16_units kept ≤ limit)
    × ((s ≡ kept)
        ⊎ ((c : Char) × (rest : String) × (s ≡ String.◌++◌ kept (String.◌∷◌ c rest))
            × (limit < used + utf16_units kept + units c)))

fitting-Stops :
    (limit used : ℕ) (s : String) → used ≤ limit → Stops limit used s (fitting limit used s)
fitting-Stops limit used String.[] h = unfold fitting utf16_units in (omega arith, inl refl)
fitting-Stops limit used (String.◌∷◌ c s) h = elim (Bool-cases (ltb limit (used + units c))) [
  | inl beyond ↦
      let step : fitting limit used (String.◌∷◌ c s) ≡ "" =
        unfold fitting in ground (arith, beyond) in
      rw step (
        unfold utf16_units in
        (omega arith, inr (c, s, sym (nil-append (String.◌∷◌ c s)), ground (arith, beyond))))
  | inr within ↦
      let kept : String = fitting limit (used + units c) s in
      let step : fitting limit used (String.◌∷◌ c s) ≡ String.◌∷◌ c kept =
        unfold fitting in ground (arith, within) in
      let longer : utf16_units (String.◌∷◌ c kept) ≡ units c + utf16_units kept =
        unfold utf16_units in refl in
      let more : Stops limit (used + units c) s kept =
        fitting-Stops limit (used + units c) s (ground (arith, within)) in
      rw step (
        ground (arith, longer, more.0),
        elim more.1 [
          | inl whole ↦ inl (ap (λ t. String.◌∷◌ c t) whole)
          | inr (d, rest, split, next) ↦ inr (
            d,
            rest,
            ap (λ t. String.◌∷◌ c t) split ∙ sym (cons-append c kept (String.◌∷◌ d rest)),
            ground (arith, longer, next),
          )
        ],
      )
]

utf16_units-zero : (s : String) → utf16_units s ≤ 0 → s ≡ ""
utf16_units-zero String.[] h = refl
utf16_units-zero (String.◌∷◌ c s) h = absurd (unfold utf16_units in ground (arith, h))

abbrev pub dots : String
dots = "…"

-- The ways in which a text is truncated: it fits and is kept; nothing fits; or the longest part that
-- leaves a unit for the dots is kept, and the dots follow it.
abbrev pub Longest : String → ℕ → String → Type 0
Longest s limit t =
    ((utf16_units s ≤ limit) × (t ≡ s))
    ⊎ ((limit ≡ 0) × (t ≡ ""))
    ⊎ ((limit < utf16_units s)
        × (kept : String) × (c : Char) × (rest : String) × (s
            ≡ String.◌++◌ kept (String.◌∷◌ c rest))
        × (t ≡ String.◌++◌ kept dots)
        × (limit < utf16_units kept + units c + 1))

-- A truncated text has at most the units that it may have. A text that fits is kept; of any other,
-- the longest part that leaves a unit for the dots is kept, which follow it, or nothing where there is
-- no room at all.
pub truncate_utf16-Longest :
    (s : String) (limit : ℕ)
    → (utf16_units (truncate_utf16 s limit) ≤ limit) × Longest s limit (truncate_utf16 s limit)
truncate_utf16-Longest s zero =
    let step : truncate_utf16 s zero ≡ "" = unfold truncate_utf16 in refl in
    rw step (unfold utf16_units in omega arith, inr (inl (refl, refl)))
truncate_utf16-Longest s (suc limit) = elim (Bool-cases (leb (utf16_units s) (suc limit))) [
  | inl fits ↦
      let step : truncate_utf16 s (suc limit) ≡ s = unfold truncate_utf16 in ground (arith, fits) in
      let small : utf16_units s ≤ suc limit = ground (arith, fits) in
      (rw step small, inl (small, step))
  | inr over ↦
      let kept : String = fitting limit 0 s in
      let step : truncate_utf16 s (suc limit) ≡ String.◌++◌ kept dots =
        unfold truncate_utf16 in ground (arith, over) in
      let size : utf16_units (String.◌++◌ kept dots) ≡ utf16_units kept + 1 =
        utf16_units-append kept dots ∙ (unfold utf16_units in refl) in
      let stopped : Stops limit 0 s kept = fitting-Stops limit 0 s (omega arith) in
      let more : suc limit < utf16_units s = ground (arith, over) in
      (
        rw step (omega (arith, size, stopped.0)),
        elim stopped.1 [
          | inl whole ↦
              let same : utf16_units s ≡ utf16_units kept = ap utf16_units whole in
              absurd (omega (arith, same, stopped.0, more))
          | inr (c, rest, split, next) ↦
              inr (inr (more, kept, c, rest, split, step, omega (arith, next)))
        ],
      )
]
