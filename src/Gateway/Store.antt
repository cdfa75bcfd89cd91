-- ===== src/Gateway/Store.antt =====
-- services/gateway/internal/store/store.go: lookups, users, products and the price history.
use price_scount.Base.{
  ℕ, ◌-◌, ◌*◌, String, Bool, true, false, not, ◌&&◌, Option, none, some, List, [], ◌∷◌, ◌++◌, map,
  ◌==◌, str_eq, ltb, leb, take, find, exists, select, update, count_if, insert_by, if◌then◌else◌,
  Tx, gets, or_raise, ok, err, ◌>>=◌, not_found, database,
}
use price_scount.Base.Int.{Float64, float_zero}
use price_scount.Env.{Env, Uuid}
use price_scount.Gateway.Db.{
  Db, PricePoint, Lookup, LookupStatus, pending, done, failed, find_product, read_uuid,
}

pub record LookupResult : Type 0 where
  pub id : Uuid
  pub url : String
  pub status : LookupStatus
  pub name : String
  pub price : Float64
  pub error : String

abbrev pub or_empty : Option String → String
or_empty none = ""
or_empty (some s) = s

abbrev pub or_none : Option Float64 → Float64
or_none none = float_zero
or_none (some x) = x

abbrev pub lookup_result : Lookup → LookupResult
lookup_result l = record {
  id = l.id;
  url = l.url;
  status = l.status;
  name = or_empty l.name;
  price = or_none l.price;
  error = or_empty l.error;
}

abbrev pub is_pending : LookupStatus → Bool
is_pending pending = true
is_pending done = false
is_pending failed = false

-- PendingLookupCount.
unfoldable pub pending_lookup_count : Db → ℕ
pending_lookup_count db = count_if (λ l. is_pending l.status) db.lookups

-- One point of a price history, as its reader sees it.
pub record HistoryPoint : Type 0 where
  pub price : Float64
  pub currency : String
  pub scraped_at : ℕ

-- ORDER BY scraped_at DESC.
abbrev pub insert_point : PricePoint → List PricePoint → List PricePoint
insert_point p [] = p ∷ []
insert_point p (q ∷ rest) =
    if leb q.scraped_at p.scraped_at then p ∷ q ∷ rest else q ∷ insert_point p rest

abbrev pub newest_first : List PricePoint → List PricePoint
newest_first [] = []
newest_first (p ∷ rest) = insert_point p (newest_first rest)

abbrev pub history_point : PricePoint → HistoryPoint
history_point p = record { price = p.price; currency = p.currency; scraped_at = p.scraped_at }

module _ (env : Env) (now : ℕ) where
  -- GetLookup.
  unfoldable pub get_lookup : String → Tx Db LookupResult
  get_lookup id = do
    key ← read_uuid env id
    found ← gets (λ db. find (λ l. l.id == key) db.lookups)
    l ← or_raise not_found found
    gets (λ db. lookup_result l)

  -- DeleteExpiredLookups: the number of rows.
  unfoldable pub delete_expired_lookups : Tx Db ℕ
  delete_expired_lookups db = ok (
    count_if (λ l. ltb l.expires_at now) db.lookups,
    record db { lookups = select (λ l. not (ltb l.expires_at now)) db.lookups },
  )

  -- DeleteOldPriceHistory, with the window in seconds.
  unfoldable pub delete_old_price_history : ℕ → Tx Db ℕ
  delete_old_price_history older_than db = ok (
    count_if (λ p. ltb p.scraped_at (now - older_than * 1000000)) db.price_history,
    record db {
      price_history =
          select (λ p. not (ltb p.scraped_at (now - older_than * 1000000))) db.price_history;
    },
  )

  -- UpsertUser; `new_id` is the id that the database draws for a new row.
  unfoldable pub upsert_user : Uuid → ℕ → Tx Db Uuid
  upsert_user new_id chat db = elim (find (λ u. u.chat_id == chat) db.users) [
    | some u ↦ ok (u.id, db)
    | none ↦
        if exists (λ u. u.id == new_id) db.users
        then err database
        else ok
            (new_id, record db { users = db.users ++ record { id = new_id; chat_id = chat } ∷ [] })
  ]

  -- UserIDByChatID.
  unfoldable pub user_id_by_chat_id : ℕ → Tx Db Uuid
  user_id_by_chat_id chat db = elim (find (λ u. u.chat_id == chat) db.users) [
    | some u ↦ ok (u.id, db)
    | none ↦ err not_found
  ]

  -- EnsureProduct.
  unfoldable pub ensure_product : Uuid → String → String → String → Tx Db Uuid
  ensure_product candidate name url platform db = elim (find (λ p. str_eq p.url url) db.products) [
    | some p ↦ ok (
      p.id,
      record db {
        products = update (λ q. str_eq q.url url) (λ q. record q { name = name }) db.products;
      },
    )
    | none ↦
        if exists (λ p. p.id == candidate) db.products
        then err database
        else ok (
          candidate,
          record db {
            products =
                insert_by (λ p. p.id)
                  (record {
                    id = candidate;
                    name = name;
                    url = url;
                    platform = platform;
                    monitor_version = 0;
                    latest_result_at = none;
                  })
                  db.products;
          },
        )
  ]

  -- GetSubscription, whose product is the only part that a caller reads.
  unfoldable pub get_subscription : String → Uuid → Tx Db Uuid
  get_subscription sub_id user = do
    id ← read_uuid env sub_id
    found ← gets (λ db. find (λ s. s.id == id && s.user_id == user && s.active) db.subscriptions)
    s ← or_raise not_found found
    product ← gets (λ db. find_product s.product_id db.products)
    p ← or_raise not_found product
    gets (λ db. s.product_id)

  -- PriceHistory.
  unfoldable pub price_history : Uuid → ℕ → Tx Db (List HistoryPoint)
  price_history product limit = gets (λ db.
      map history_point
        (take limit (newest_first (select (λ p. p.product_id == product) db.price_history))))
