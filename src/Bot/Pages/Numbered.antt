-- ===== src/Bot/Pages/Numbered.antt =====
-- services/bot/internal/bot/mylist.go: how the entries of the list begin.
use Prim.Native.String
use text.Mathlib.TextLemmas.{append_assoc as text_assoc, nil-append}
use price_scount.Base.{
  ℕ, ◌+◌, ◌-◌, ◌≡◌, sym, ap, ◌∙◌, String, true, false, List, [], ◌∷◌, ◌++◌, str_eq, if◌then◌else◌,
  Bool-cases, inl, inr,
}
use price_scount.Base.Text.{join, format_int}
use price_scount.Env.{Env}
use price_scount.Bot.Text.{utf16_units, truncate_utf16}
use price_scount.Bot.Pages.{Listed, price_line, entry_head, bullet, my_list_entry, entries_from}

join-append : (a b : List String) → join (a ++ b) ≡ String.◌++◌ (join a) (join b)
unfolding join
join-append [] b = sym (nil-append (join b))
join-append (s ∷ a) b =
    ap (λ t. String.◌++◌ s t) (join-append a b) ∙ sym (text_assoc s (join a) (join b))

-- The beginning of an entry: its number and the name of the product.
abbrev pub beginning : ℕ → Listed → String
beginning index s = join ("\n" ∷ format_int index ∷ ". " ∷ truncate_utf16 s.product_name 200 ∷ [])

-- A text for each subscription, which begins with its number and name.
abbrev pub Numbered : ℕ → List Listed → List String → Type 0
Numbered index [] [] = Unit
Numbered index [] (t ∷ texts) = true ≡ false
Numbered index (s ∷ subs) [] = true ≡ false
Numbered index (s ∷ subs) (t ∷ texts) =
    ((rest : String) × (t ≡ String.◌++◌ (beginning index s) rest)) × Numbered (index + 1) subs texts

module _ (env : Env) where
  entry_head-beginning :
      (s : Listed) (index : ℕ)
      → (rest : String) × (entry_head env s index ≡ String.◌++◌ (beginning index s) rest)
  entry_head-beginning s index =
      let mark : List String = (if s.paused then " ⏸" else "") ∷ "\n" ∷ [] in
      let prices = price_line env s.min_price s.max_price in
      (
        String.◌++◌ (join mark) prices,
        ap (λ t. String.◌++◌ t prices)
              (join-append ("\n" ∷ format_int index ∷ ". " ∷ truncate_utf16 s.product_name 200 ∷ [])
                mark)
            ∙ text_assoc (beginning index s) (join mark) prices,
      )

  my_list_entry-beginning :
      (s : Listed) (index room : ℕ)
      → (rest : String) × (my_list_entry env s index room ≡ String.◌++◌ (beginning index s) rest)
  unfolding my_list_entry
  my_list_entry-beginning s index room =
      let (rest, h) = entry_head-beginning s index in
      let head = entry_head env s index in
      let remaining = room - utf16_units head - utf16_units bullet - 1 in
      let address = join (bullet ∷ truncate_utf16 s.product_url remaining ∷ "\n" ∷ []) in
      elim (Bool-cases (str_eq s.product_url "")) [
        | inl e ↦ (rest, rw e h)
        | inr e ↦ (
          String.◌++◌ rest address,
          rw e (ap (λ t. String.◌++◌ t address) h ∙ text_assoc (beginning index s) rest address),
        )
      ]

  pub entries_from-Numbered :
      (room index : ℕ) (subs : List Listed) → Numbered index subs (entries_from env room index subs)
  entries_from-Numbered room index [] = tt
  entries_from-Numbered room index (s ∷ subs) =
      (my_list_entry-beginning s index room, entries_from-Numbered room (index + 1) subs)
