-- ===== src/Tests/Samples.antt =====
-- A small environment and database for the tests.
use price_scount.Base.{
  ℕ, String, Option, none, some, [], ◌∷◌, str_eq, ◌==◌, if◌then◌else◌, true, false,
}
use price_scount.Base.Int.{Float64, finite, pos}
use price_scount.Env.{Env, Uuid}
use price_scount.Contracts.{PriceResult}
use price_scount.Gateway.Db.{Db, User, Product, Subscription, ForceRequest, calm}

-- The UUIDs 1 to 9 as their digits.
abbrev pub read_digit : String → Option Uuid
read_digit s =
    if str_eq s "1"
    then some 1
    else if str_eq s "3"
    then some 3
    else if str_eq s "9"
    then some 9
    else none

abbrev pub write_digit : Uuid → String
write_digit u = if u == 1 then "1" else if u == 3 then "3" else "9"

abbrev pub sample_env : Env
sample_env = record {
  uuid_parse = read_digit;
  pg_uuid = read_digit;
  uuid_string = write_digit;
  new_task_id = λ id version. "task";
  numeric = some;
  url_parse = λ s. some (record { scheme = "https"; host = "www.wildberries.ru" });
  format_price = λ x. "100";
}

abbrev pub user : User
user = record { id = 5; chat_id = 77 }

abbrev pub product : Product
product = record {
  id = 1;
  name = "Kettle";
  url = "https://www.wildberries.ru/catalog/1/detail.aspx";
  platform = "wb";
  monitor_version = 0;
  latest_result_at = none;
}

abbrev pub price : ℕ → Float64
price n = finite (pos n)

abbrev pub subscription : Subscription
subscription = record {
  id = 3;
  user_id = 5;
  product_id = 1;
  min_price = some (price 200);
  max_price = some (price 900);
  paused = false;
  active = true;
  alert_state = calm;
  alert_version = 0;
}

-- A product that nobody watches.
abbrev pub empty_db : Db
empty_db = record {
  users = user ∷ [];
  products = product ∷ [];
  subscriptions = [];
  price_history = [];
  processed = [];
  force_requests = [];
  lookups = [];
  outbox = [];
}

-- A watched product.
abbrev pub watched_db : Db
watched_db = record empty_db { subscriptions = subscription ∷ [] }

abbrev pub force_request : ForceRequest
force_request = record { task_id = 9; product_id = 1; user_id = 5; chat_id = 77 }

-- A price below the threshold of the subscription.
abbrev pub low_result : PriceResult
low_result = record {
  task_id = "9";
  lookup_id = "";
  product_id = "1";
  url = "https://www.wildberries.ru/catalog/1/detail.aspx";
  name = "Kettle";
  price = price 150;
  currency = "RUB";
  scraped_at = 50;
  success = true;
  error = "";
  force = false;
  chat_id = 0;
}
