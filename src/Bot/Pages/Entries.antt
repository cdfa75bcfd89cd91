-- ===== src/Bot/Pages/Entries.antt =====
-- services/bot/internal/bot/mylist.go: how long the entries of the list are.
use Prim.Native.String
use price_scount.Base.{
  ℕ, ◌+◌, ◌-◌, ◌^◌, ◌≤◌, ◌<◌, ◌≡◌, refl, String, Bool, true, false, Option, none, some, List, [],
  ◌∷◌, length, get_or, All, str_eq, if◌then◌else◌, arith, Bool-cases, inl, inr,
}
use price_scount.Base.Int.{Float64}
use price_scount.Base.Text.{join, format_int}
use price_scount.Env.{Env}
use price_scount.Bot.Text.{utf16_units, truncate_utf16}
use price_scount.Bot.Text.Units.{utf16_units-append, truncate_utf16-Longest}
use price_scount.Bot.Pages.{
  Listed, text_limit, my_list_header, max_int, price_line, entry_head, bullet, my_list_entry,
  entries_from, entries,
}
use price_scount.Bot.Pages.Sizes.{
  utf16_units-join, get_or-All, format_int-units, header-units, header_mono,
}

module _ (env : Env) (narrow : (x : Float64) → utf16_units (env.format_price x) ≤ 320) where
  price_line-units : (low high : Option Float64) → utf16_units (price_line env low high) ≤ 660
  price_line-units none high = unfold utf16_units in omega arith
  price_line-units (some low) none = unfold utf16_units in omega arith
  price_line-units (some low) (some high) = omega (
    arith,
    utf16_units-join ("   " ∷ env.format_price low ∷ " — " ∷ env.format_price high ∷ " ₽\n" ∷ []),
    narrow low,
    narrow high,
    texts.0,
    texts.1,
    texts.2,
  )
    where
      texts : (utf16_units "   " ≡ 3) × (utf16_units " — " ≡ 3) × (utf16_units " ₽\n" ≡ 3)
      texts = unfold utf16_units in (refl, refl, refl)

  pause_mark-units : (b : Bool) → utf16_units (if b then " ⏸" else "") ≤ 2
  pause_mark-units true = unfold utf16_units in omega arith
  pause_mark-units false = unfold utf16_units in omega arith

  entry_head-units : (s : Listed) (index : ℕ) → utf16_units (entry_head env s index) ≤ 900
  entry_head-units s index =
      let first : String = join (
        "\n"
        ∷ format_int index
        ∷ ". "
        ∷ truncate_utf16 s.product_name 200
        ∷ (if s.paused then " ⏸" else "")
        ∷ "\n"
        ∷ []) in
      omega (
        arith,
        utf16_units-append first (price_line env s.min_price s.max_price),
        utf16_units-join (
            "\n"
            ∷ format_int index
            ∷ ". "
            ∷ truncate_utf16 s.product_name 200
            ∷ (if s.paused then " ⏸" else "")
            ∷ "\n"
            ∷ []),
        format_int-units index,
        (truncate_utf16-Longest s.product_name 200).0,
        pause_mark-units s.paused,
        price_line-units s.min_price s.max_price,
        texts.0,
        texts.1,
      )
    where
      texts : (utf16_units "\n" ≡ 1) × (utf16_units ". " ≡ 2)
      texts = unfold utf16_units in (refl, refl)

  my_list_entry-units :
      (s : Listed) (index max_units : ℕ)
      → 1000 ≤ max_units
      → utf16_units (my_list_entry env s index max_units) ≤ max_units
  my_list_entry-units s index max_units h =
      let head : String = entry_head env s index in
      let remaining : ℕ = max_units - utf16_units head - utf16_units bullet - 1 in
      let address : String = truncate_utf16 s.product_url remaining in
      elim (Bool-cases (str_eq s.product_url "")) [
        | inl no_address ↦
            let step : my_list_entry env s index max_units ≡ head =
              unfold my_list_entry in ground (arith, no_address) in
            rw step (omega (arith, entry_head-units s index, h))
        | inr addressed ↦
            let step : my_list_entry env s index max_units
                ≡ String.◌++◌ head (join (bullet ∷ address ∷ "\n" ∷ [])) =
              unfold my_list_entry in ground (arith, addressed) in
            rw step (
              omega (
                arith,
                utf16_units-append head (join (bullet ∷ address ∷ "\n" ∷ [])),
                utf16_units-join (bullet ∷ address ∷ "\n" ∷ []),
                entry_head-units s index,
                (truncate_utf16-Longest s.product_url remaining).0,
                texts.0,
                texts.1,
                h,
              ))
      ]
    where
      texts : (utf16_units "   • " ≡ 5) × (utf16_units "\n" ≡ 1)
      texts = unfold utf16_units in (refl, refl)

  IsShort : ℕ → String → Type 0
  IsShort bound s = utf16_units s ≤ bound

  entries_from-IsShort :
      (max_units index : ℕ) (subs : List Listed)
      → 1000 ≤ max_units
      → All (IsShort max_units) (entries_from env max_units index subs)
  unfolding IsShort
  entries_from-IsShort max_units index [] h = tt
  entries_from-IsShort max_units index (s ∷ subs) h =
      (my_list_entry-units s index max_units h, entries_from-IsShort max_units (index + 1) subs h)

  pub length-entries_from :
      (max_units index : ℕ) (subs : List Listed)
      → length (entries_from env max_units index subs) ≡ length subs
  length-entries_from max_units index [] = refl
  length-entries_from max_units index (s ∷ subs) =
      omega (arith, length-entries_from max_units (index + 1) subs)

  -- An entry fits with the header of any page.
  pub entries-fit :
      (subs : List Listed) (k i : ℕ)
      → 0 < length subs
      → length subs < 2 ^ 63
      → k ≤ length subs
      → utf16_units (my_list_header (length subs) k) + utf16_units (get_or (entries env subs) i "")
        ≤ text_limit
  entries-fit subs k i some_sub short h =
      let total : ℕ = length subs in
      let widest : max_int 1 total ≡ total = ground (arith, some_sub) in
      let budget : ℕ = text_limit - utf16_units (my_list_header total total) in
      let step : entries env subs ≡ entries_from env budget 1 subs = unfold entries in rw widest in
      let wide : 1000 ≤ budget = omega (arith, header-units total total) in
      let entry : utf16_units (get_or (entries_from env budget 1 subs) i "") ≤ budget =
        unfold IsShort in
        get_or-All (IsShort budget) (entries_from env budget 1 subs) i ""
          (entries_from-IsShort budget 1 subs wide) (unfold utf16_units in omega arith) in
      rw step (omega (arith, entry, header_mono total k total h short, header-units total total))
