-- ===== src/Bot/Pages/Shown.antt =====
-- services/bot/internal/bot/mylist.go: buildMyListPage as a whole.
use Prim.Native.String
use price_scount.Base.{
  ℕ, zero, suc, ◌+◌, ◌-◌, ◌^◌, ◌≤◌, ◌<◌, ◌≡◌, refl, ◌∙◌, String, List, [], ◌∷◌, length, get_or,
  arith,
}
use price_scount.Base.Int.{Float64}
use price_scount.Env.{Env}
use price_scount.Bot.Text.{utf16_units}
use price_scount.Bot.Text.Units.{utf16_units-append}
use price_scount.Bot.Pages.{
  Listed, text_limit, page_items, my_list_header, entries, pages_of, clamp_page, page_text, max_int,
  build_my_list_page,
}
use price_scount.Bot.Pages.Order.{concat, range_from, concat-pages_of}
use price_scount.Bot.Pages.Fit.{page_units, AllFit, AllFit-get, Fits, pages_of-AllFit}
use price_scount.Bot.Pages.Entries.{entries-fit, length-entries_from}

page_text-units :
    (texts : List String) (page : List ℕ)
    → utf16_units (page_text texts page) ≡ page_units texts page
page_text-units texts [] = unfold utf16_units in refl
page_text-units texts (i ∷ page) = omega (
  arith,
  utf16_units-append (get_or texts i "") (page_text texts page),
  page_text-units texts page,
)

clamp_page-bounds :
    (page pages : ℕ) → 0 < pages → (1 ≤ clamp_page page pages) × (clamp_page page pages ≤ pages)
clamp_page-bounds page pages h = ground arith

-- Some page is there, since every entry is on one.
pub concat-length :
    (ps : List (List ℕ)) (n : ℕ) → concat ps ≡ range_from 0 n → 0 < n → 0 < length ps
concat-length [] zero e h = absurd (omega (arith, h))
concat-length [] (suc n) e h = absurd (ground (arith, e))
concat-length (p ∷ ps) n e h = omega arith

module _ (env : Env) (narrow : (x : Float64) → utf16_units (env.format_price x) ≤ 320) where
  length-entries : (subs : List Listed) → length (entries env subs) ≡ length subs
  unfolding entries
  length-entries subs =
      length-entries_from env narrow
        (text_limit - utf16_units (my_list_header (length subs) (max_int 1 (length subs)))) 1 subs

  -- The page that is shown, whichever is asked for: it is one of the pages, it has at least one entry
  -- and at most ten, and its text is within the limit of a message.
  pub page-fits :
      (subs : List Listed) (page : ℕ)
      → 0 < length subs
      → length subs < 2 ^ 63
      → (concat (pages_of (entries env subs)) ≡ range_from 0 (length subs))
        × (1 ≤ (build_my_list_page env subs page).actual_page)
        × ((build_my_list_page env subs page).actual_page ≤ length (pages_of (entries env subs)))
        × (length (
              get_or
                (pages_of (entries env subs))
                ((build_my_list_page env subs page).actual_page - 1)
                [])
            ≤ page_items)
        × (1
            ≤ length (
                get_or
                  (pages_of (entries env subs))
                  ((build_my_list_page env subs page).actual_page - 1)
                  []))
        × (utf16_units (build_my_list_page env subs page).text ≤ text_limit)
  page-fits subs page some_sub short =
      let texts : List String = entries env subs in
      let pages : List (List ℕ) = pages_of texts in
      let count : length texts ≡ length subs = length-entries subs in
      let order : concat pages ≡ range_from 0 (length subs) =
        concat-pages_of texts ∙ (rw count refl) in
      let some_page : 0 < length pages = concat-length pages (length subs) order some_sub in
      let actual : ℕ = clamp_page page (length pages) in
      let range : (1 ≤ actual) × (actual ≤ length pages) =
        clamp_page-bounds page (length pages) some_page in
      let shown : List ℕ = get_or pages (actual - 1) [] in
      let number : 1 + (actual - 1) ≡ actual = omega (arith, range.0) in
      let small : (k i : ℕ)
          → k ≤ length texts
          → utf16_units (my_list_header (length texts) k) + utf16_units (get_or texts i "")
            ≤ text_limit =
        λ k i h.
          rw count (entries-fit env narrow subs k i some_sub short (omega (arith, count, h))) in
      let all : AllFit texts 1 pages =
        pages_of-AllFit texts small (omega (arith, count, some_sub)) in
      let fits : Fits texts (1 + (actual - 1)) shown =
        AllFit-get texts 1 (actual - 1) pages all (omega (arith, range.0, range.1)) in
      let head : String = my_list_header (length subs) actual in
      let header_size : utf16_units (my_list_header (length texts) (1 + (actual - 1)))
          ≡ utf16_units head =
        rw (number, count) refl in
      let size : utf16_units (String.◌++◌ head (page_text texts shown)) ≤ text_limit = omega (
        arith,
        utf16_units-append head (page_text texts shown),
        page_text-units texts shown,
        fits.2,
        header_size,
      ) in
      unfold build_my_list_page in (order, range.0, range.1, fits.1, fits.0, size)
