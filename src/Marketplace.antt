-- ===== src/Marketplace.antt =====
-- shared/pkg/marketplace/wb.go: from a page of Wildberries to a product. The browser is an argument:
-- what it makes of an address.
pub mod Price
pub mod Page
use Prim.Native.Char.{Char, code}
use Prim.Native.String
use price_scount.Base.{
  ℕ, String, Bool, true, false, not, ◌&&◌, ◌||◌, Option, none, some, [], ◌∷◌, ◌==◌, leb,
  if◌then◌else◌,
}
use price_scount.Base.Int.{Float64, float_eq, float_zero}
use price_scount.Base.Text.{join}
use price_scount.Platform.{find_product_id}
use price_scount.Extractor.{Product, Fetched, product, fetch_error}
use price_scount.Strings.{contains, before, is_empty, trim_space}

-- What the script on the page reports.
pub record PageData : Type 0 where
  pub price : String
  pub name : String
  pub title : String
  pub url : String

-- A page load: the error of the context or of the browser, or the text of the script as
-- encoding/json reads it, with its error.
pub data Load : Type 0 where
  cancelled : String → Load
  load_failed : String → Load
  unreadable : String → Load
  loaded : PageData → Load

abbrev pub is_digit : Char → Bool
is_digit c = leb b'0' (code c) && leb (code c) b'9'

-- A space or a no-break space.
abbrev pub is_gap : Char → Bool
is_gap c = code c == 32 || code c == 160

-- The digits that parseWBPrice collects, up to what ends the number.
unfoldable pub price_digits : Bool → String → String
price_digits has_digits String.[] = ""
price_digits has_digits (String.◌∷◌ c s) =
    let more = price_digits true s in
    let same = price_digits has_digits s in
    if is_digit c
    then String.◌∷◌ c more
    else if is_gap c
    then same
    else if has_digits
    then ""
    else same

-- The browser, strconv.ParseFloat of a text of digits without its error, and fmt's %q.
pub record WbClient : Type 0 where
  pub load : String → Load
  pub float_of_digits : String → Float64
  pub quoted : String → String

-- The text before a mark, if there is one and it is not at the start.
abbrev pub name_before : String → String → Option String
name_before mark title = elim (before mark title) [
  | none ↦ none
  | some head ↦ if is_empty head then none else some (trim_space head)
]

-- extractWBName.
unfoldable pub extract_wb_name : String → String → String
extract_wb_name title id = elim (name_before (join (" " ∷ id ∷ [])) title) [
  | some name ↦ name
  | none ↦ elim (name_before " купить за " title) [ some name ↦ name | none ↦ "" ]
]

abbrev pub or_else : String → String → String
or_else s t = if is_empty s then t else s

-- The name in the title, else the one on the page, else a fixed one.
unfoldable pub page_name : PageData → String → String
page_name page id =
    or_else (or_else (extract_wb_name page.title id) (trim_space page.name)) "WB товар"

-- Whether the page is that of a product, and not the main page.
abbrev pub is_product_page : PageData → String → Bool
is_product_page page id = contains id page.title || contains "купить за" page.title

module _ (c : WbClient) where
  -- parseWBPrice.
  unfoldable pub parse_wb_price : String → Float64
  parse_wb_price s =
      let digits = price_digits false s in
      if is_empty digits then float_zero else c.float_of_digits digits

  unfoldable pub read_page : PageData → String → Fetched
  read_page page id =
      let price = parse_wb_price page.price in
      if not (is_product_page page id)
      then fetch_error (
          join (
            "product page not found, got main page (nmID="
            ∷ id
            ∷ " title="
            ∷ c.quoted page.title
            ∷ ")"
            ∷ []))
      else if float_eq price float_zero
      then fetch_error (
          join (
            "price not found on page (title="
            ∷ c.quoted page.title
            ∷ " url="
            ∷ c.quoted page.url
            ∷ ")"
            ∷ []))
      else product (record { name = page_name page id; price = price; currency = "RUB" })

  -- fetchPage.
  unfoldable pub fetch_page : String → String → Fetched
  fetch_page url id = elim (c.load url) [
    | cancelled text ↦ fetch_error text
    | load_failed text ↦ fetch_error (join ("wb fetch: " ∷ text ∷ []))
    | unreadable text ↦ fetch_error (join ("parse wb result: " ∷ text ∷ []))
    | loaded page ↦ read_page page id
  ]

  -- FetchProduct.
  unfoldable pub fetch_product : String → Fetched
  fetch_product raw_url = elim (find_product_id raw_url) [
    | none ↦ fetch_error "invalid wildberries url"
    | some id ↦
        fetch_page (join ("https://www.wildberries.ru/catalog/" ∷ id ∷ "/detail.aspx" ∷ [])) id
  ]
