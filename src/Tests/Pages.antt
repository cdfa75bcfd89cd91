-- ===== src/Tests/Pages.antt =====
-- Runs of the pages of Wildberries.

use Prim.Native.String
use price_scount.Base.{String, false, ◌≡◌, inl, inr, refl, some, str_eq, if◌then◌else◌}
use price_scount.Base.Int.{float_zero}
use price_scount.Base.Text.{join}
use price_scount.Platform.{find_product_id, match_here, strip_prefix, take_digits}
use price_scount.Extractor.{product}
use price_scount.Strings.{contains, before, trim_space, trim_left, trim_right}
use price_scount.Marketplace.{
  PageData, loaded, WbClient, price_digits, parse_wb_price, extract_wb_name, page_name, read_page,
  fetch_page, fetch_product,
}
use price_scount.Marketplace.Price.{digits_of, price_digits-first}
use price_scount.Marketplace.Page.{OfPage, page_url, fetch_product-OfPage}
use price_scount.Tests.Samples.{price}

abbrev page : PageData
page = record {
  price = "5 690 ₽\n7 000 ₽";
  name = "";
  title = "Чайник 12345 купить за 5 690 ₽";
  url = "https://www.wildberries.ru/catalog/12345/detail.aspx";
}

abbrev client : WbClient
client = record {
  load = λ url. loaded page;
  float_of_digits = λ s. if str_eq s "5690" then price 5690 else float_zero;
  quoted = λ s. s;
}

abbrev address : String
address = "https://www.wildberries.ru/catalog/12345/detail.aspx?targetUrl=X"

fetched :
    fetch_product client address
    ≡ product (record { name = "Чайник"; price = price 5690; currency = "RUB" })
unfolding fetch_product fetch_page read_page parse_wb_price price_digits page_name extract_wb_name
    contains before trim_space trim_left trim_right find_product_id match_here strip_prefix
    take_digits join
fetched = refl

price_digits-first_example :
    price_digits false
      (String.◌++◌ "от " (String.◌∷◌ "5" (String.◌++◌ " 690 " (String.◌∷◌ "₽" "\n7 000 ₽"))))
    ≡ String.◌∷◌ "5" (digits_of " 690 ")
price_digits-first_example =
    price_digits-first "от " " 690 " "\n7 000 ₽" "5" "₽" (refl, (refl, (refl, tt))) refl
      (inr refl, (inl refl, (inl refl, (inl refl, (inr refl, tt))))) refl refl

fetch_product-OfPage_example :
    (id : String) × (q : PageData) × (find_product_id address ≡ some id)
    × (client.load (page_url client id) ≡ loaded q)
    × OfPage client (record { name = "Чайник"; price = price 5690; currency = "RUB" }) q id
fetch_product-OfPage_example =
    fetch_product-OfPage client address
      (record { name = "Чайник"; price = price 5690; currency = "RUB" }) fetched
