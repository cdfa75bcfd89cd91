-- ===== src/Marketplace/Page.antt =====
-- shared/pkg/marketplace/wb.go: the products that FetchProduct returns, and what becomes of them in
-- the extractor and in the gateway.
use price_scount.Base.{
  String, true, false, some, [], ◌∷◌, ◌≡◌, ◌⊎◌, refl, arith, Bool-cases, Option-cases, inl, inr,
}
use price_scount.Base.Int.{float_eq, float_zero}
use price_scount.Base.Text.{join}
use price_scount.Platform.{find_product_id}
use price_scount.Extractor.{Product, product}
use price_scount.Strings.{is_empty, trim_space}
use price_scount.Marketplace.{
  PageData, Load, cancelled, load_failed, unreadable, loaded, WbClient, parse_wb_price,
  extract_wb_name, or_else, page_name, is_product_page, read_page, fetch_page, fetch_product,
}

Load-cases :
    (l : Load)
    → ((page : PageData) × (l ≡ loaded page))
      ⊎ ((text : String) × ((l ≡ cancelled text) ⊎ (l ≡ load_failed text) ⊎ (l ≡ unreadable text)))
Load-cases (cancelled text) = inr (text, inl refl)
Load-cases (load_failed text) = inr (text, inr (inl refl))
Load-cases (unreadable text) = inr (text, inr (inr refl))
Load-cases (loaded page) = inl (page, refl)

or_else-named : (s t : String) → is_empty t ≡ false → is_empty (or_else s t) ≡ false
or_else-named s t h = elim (Bool-cases (is_empty s)) [ inl e ↦ rw e h | inr e ↦ rw e e ]

page_name-named : (page : PageData) (id : String) → is_empty (page_name page id) ≡ false
unfolding page_name
page_name-named page id =
    or_else-named (or_else (extract_wb_name page.title id) (trim_space page.name)) "WB товар" refl

module _ (c : WbClient) where
  -- A product of a page: the page is that of the product, and the price is read from it.
  abbrev pub OfPage : Product → PageData → String → Type 0
  OfPage p page id =
      (is_product_page page id ≡ true)
      × (p.price ≡ parse_wb_price c page.price)
      × (float_eq p.price float_zero ≡ false)
      × (is_empty p.name ≡ false)
      × (p.currency ≡ "RUB")

  read_page-OfPage :
      (page : PageData) (id : String) (p : Product)
      → read_page c page id ≡ product p
      → OfPage p page id
  read_page-OfPage page id p h = elim (Bool-cases (is_product_page page id)) [
    | inr other ↦ absurd (unfold read_page in ground (arith, h, other))
    | inl found ↦ elim (Bool-cases (float_eq (parse_wb_price c page.price) float_zero)) [
      | inl zero_price ↦ absurd (unfold read_page in ground (arith, h, found, zero_price))
      | inr priced ↦ unfold read_page in ground (arith, h, found, priced, page_name-named page id)
    ]
  ]

  abbrev pub page_url : String → String
  page_url id = join ("https://www.wildberries.ru/catalog/" ∷ id ∷ "/detail.aspx" ∷ [])

  -- FetchProduct returns a product only for an address with a product number, from the page of that
  -- number that the browser loaded, which names the number or offers the product. The price is that
  -- of the page and not zero, the name is not empty, and the currency is the rouble.
  pub fetch_product-OfPage :
      (raw_url : String) (p : Product)
      → fetch_product c raw_url ≡ product p
      → (id : String) × (page : PageData) × (find_product_id raw_url ≡ some id)
        × (c.load (page_url id) ≡ loaded page)
        × OfPage p page id
  fetch_product-OfPage raw_url p h = elim (Option-cases (find_product_id raw_url)) [
    | inl none_found ↦ absurd (unfold fetch_product in ground (arith, h, none_found))
    | inr (id, found) ↦
        let fetched : fetch_page c (page_url id) id ≡ product p =
          unfold fetch_product in ground (arith, h, found) in
        elim (Load-cases (c.load (page_url id))) [
          | inl (page, e) ↦ (
            id,
            page,
            found,
            e,
            read_page-OfPage page id p (unfold fetch_page in ground (arith, fetched, e)),
          )
          | inr (text, e) ↦ absurd (
              unfold fetch_page in
              elim e [
                | inl a ↦ ground (arith, fetched, a)
                | inr (inl a) ↦ ground (arith, fetched, a)
                | inr (inr a) ↦ ground (arith, fetched, a)
              ])
        ]
  ]
