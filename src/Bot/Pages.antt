-- ===== src/Bot/Pages.antt =====
-- services/bot/internal/bot/mylist.go: the list of the subscriptions, page by page.
pub mod Order
pub mod Fit
pub mod Sizes
pub mod Entries
pub mod Shown
pub mod Displayed
pub mod Numbered
pub mod Whole
use Prim.Native.String
use price_scount.Base.{
  ℕ, zero, suc, ◌+◌, ◌-◌, String, Bool, true, false, ◌&&◌, ◌||◌, Option, none, some, List, [], ◌∷◌,
  ◌++◌, map, ◌==◌, ltb, leb, str_eq, if◌then◌else◌, length, get_or,
}
use price_scount.Base.Text.{join, format_int}
use price_scount.Base.Int.{Float64}
use price_scount.Env.{Env}
use price_scount.Bot.Text.{utf16_units, truncate_utf16, truncate}

-- gateway.Subscription, as the list reads it.
pub record Listed : Type 0 where
  pub id : String
  pub product_name : String
  pub product_url : String
  pub min_price : Option Float64
  pub max_price : Option Float64
  pub paused : Bool

abbrev pub page_items : ℕ
page_items = 10

abbrev pub text_limit : ℕ
text_limit = 4096

-- myListHeader.
unfoldable pub my_list_header : ℕ → ℕ → String
my_list_header total page =
    join ("📋 Твои товары (" ∷ format_int total ∷ ") — страница " ∷ format_int page ∷ "):\n" ∷ [])

abbrev pub max_int : ℕ → ℕ → ℕ
max_int a b = if ltb b a then a else b

-- A button with its callback data, and a keyboard by rows.
abbrev pub Button : Type 0
Button = String × String

abbrev pub Keyboard : Type 0
Keyboard = List (List Button)

abbrev pub bullet : String
bullet = "   • "

module _ (env : Env) where
  -- The line with the prices, if both are there.
  abbrev pub price_line : Option Float64 → Option Float64 → String
  price_line (some low) (some high) =
      join ("   " ∷ env.format_price low ∷ " — " ∷ env.format_price high ∷ " ₽\n" ∷ [])
  price_line none high = ""
  price_line (some low) none = ""

  -- The number and the name, and the prices.
  abbrev pub entry_head : Listed → ℕ → String
  entry_head s index =
      String.◌++◌
        (join (
          "\n"
          ∷ format_int index
          ∷ ". "
          ∷ truncate_utf16 s.product_name 200
          ∷ (if s.paused then " ⏸" else "")
          ∷ "\n"
          ∷ []))
        (price_line s.min_price s.max_price)

  -- myListEntry. The address gets what is left of the units.
  unfoldable pub my_list_entry : Listed → ℕ → ℕ → String
  my_list_entry s index max_units =
      let head = entry_head s index in
      if str_eq s.product_url ""
      then head
      else (let remaining = max_units - utf16_units head - utf16_units bullet - 1 in
          String.◌++◌ head (join (bullet ∷ truncate_utf16 s.product_url remaining ∷ "\n" ∷ [])))

  -- The entries of a list, numbered from `index` on.
  abbrev pub entries_from : ℕ → ℕ → List Listed → List String
  entries_from max_units index [] = []
  entries_from max_units index (s ∷ subs) =
      my_list_entry s index max_units ∷ entries_from max_units (index + 1) subs

  unfoldable pub entries : List Listed → List String
  entries subs =
      let total = length subs in
      entries_from (text_limit - utf16_units (my_list_header total (max_int 1 total))) 1 subs

-- The pages as lists of positions. The loop has the position of the next entry, the pages so far, the
-- current one and the units of its text.
unfoldable pub paginate : ℕ → List String → ℕ → List (List ℕ) → List ℕ → ℕ → List (List ℕ)
paginate total [] i pages current text_units =
    if leb 1 (length current) || length pages == 0 then pages ++ current ∷ [] else pages
paginate total (entry ∷ rest) i pages current text_units =
    let units = utf16_units entry in
    let full =
      leb 1 (length current)
      && (length current == page_items || ltb text_limit (text_units + units)) in
    let started = pages ++ current ∷ [] in
    let same_page = paginate total rest (i + 1) pages (current ++ i ∷ []) (text_units + units) in
    let header = utf16_units (my_list_header total (length started + 1)) in
    let next_page = paginate total rest (i + 1) started (i ∷ []) (header + units) in
    if full then next_page else same_page

-- The page that is shown, for the one that is asked for.
abbrev pub clamp_page : ℕ → ℕ → ℕ
clamp_page page pages =
    let at_least = if ltb page 1 then 1 else page in if ltb pages at_least then pages else at_least

-- The buttons of one subscription.
abbrev pub item_rows : Listed → Keyboard
item_rows s =
    ((String.◌++◌ "✏\u{fe0f} " (truncate s.product_name 22), String.◌++◌ "edit_sub:" s.id)
      ∷ (if s.paused
          then ("▶", String.◌++◌ "resume_sub:" s.id)
          else ("⏸", String.◌++◌ "pause_sub:" s.id))
      ∷ [])
    ∷ (("📊 История", String.◌++◌ "history_sub:" s.id)
        ∷ ("🔄 Проверить", String.◌++◌ "check_sub:" s.id)
        ∷ [])
    ∷ ((join ("🗑 Удалить «" ∷ truncate s.product_name 20 ∷ "»" ∷ []), String.◌++◌ "del_sub:" s.id)
        ∷ [])
    ∷ []

-- The buttons to the page before and the page after.
abbrev pub navigation : ℕ → ℕ → List Button
navigation page pages =
    (if ltb 1 page then ("← Назад", String.◌++◌ "page:" (format_int (page - 1))) ∷ [] else [])
    ++ (if ltb page pages
        then ("Дальше →", String.◌++◌ "page:" (format_int (page + 1))) ∷ []
        else [])

abbrev pub navigation_rows : ℕ → ℕ → Keyboard
navigation_rows page pages = if ltb 1 page || ltb page pages then navigation page pages ∷ [] else []

-- The text and the buttons of the positions of a page.
abbrev pub page_text : List String → List ℕ → String
page_text texts [] = ""
page_text texts (i ∷ page) = String.◌++◌ (get_or texts i "") (page_text texts page)

-- Stands for a position that is not in the list.
abbrev pub no_listed : Listed
no_listed = record {
  id = "";
  product_name = "";
  product_url = "";
  min_price = none;
  max_price = none;
  paused = false;
}

abbrev pub page_rows : List Listed → List ℕ → Keyboard
page_rows subs [] = []
page_rows subs (i ∷ page) = item_rows (get_or subs i no_listed) ++ page_rows subs page

pub record ListPage : Type 0 where
  pub text : String
  pub keyboard : Keyboard
  pub actual_page : ℕ

-- The loop from its start.
unfoldable pub pages_of : List String → List (List ℕ)
pages_of texts =
    paginate (length texts) texts 0 [] [] (utf16_units (my_list_header (length texts) 1))

module _ (env : Env) where
  -- buildMyListPage.
  unfoldable pub build_my_list_page : List Listed → ℕ → ListPage
  build_my_list_page subs page =
      let texts = entries env subs in
      let pages = pages_of texts in
      let actual = clamp_page page (length pages) in
      let shown = get_or pages (actual - 1) [] in
      record {
        text = String.◌++◌ (my_list_header (length subs) actual) (page_text texts shown);
        keyboard = page_rows subs shown ++ navigation_rows actual (length pages);
        actual_page = actual;
      }
