-- ===== src/Gateway/Results/Effects.antt =====
-- What one result of a monitored product does to the database, by its kind.
use Prim.Native.String.{count}
use price_scount.Base.{
  ℕ, true, false, not, ◌&&◌, ◌||◌, Option, none, some, [], ◌∷◌, ◌++◌, map, ◌==◌, ◌≡◌, sym, ◌∙◌,
  arith, find, exists, ltb, ok,
}
use price_scount.Base.Int.{Float64}
use price_scount.Env.{Env, Uuid}
use price_scount.Contracts.{PriceResult}
use price_scount.Gateway.Db.{Db, Product, PricePoint, ForceRequest, find_product}
use price_scount.Gateway.Alerts.{alert_rows, send_alerts}
use price_scount.Gateway.Alerts.Frame.{send_alerts-SameOutside}
use price_scount.Gateway.Alerts.Exact.{HasUsers, Distinct, alerted, send_alerts-eq-map}
use price_scount.Gateway.Alerts.Events.{KeysFresh, alert_events, send_alerts-outbox}
use price_scount.Gateway.Results.{
  is_empty, has_bad_price, insert_history, store_history, touch_latest, is_stale, announce,
  record_result, save_result, drop_unknown, check_force, process_product, process_price_result,
  touch_product,
}
use price_scount.Gateway.Results.Marked.{with_mark, mark_new}

-- A well-formed result of a known product that arrives for the first time.
pub record Arrives (env : Env) (r : PriceResult) (db : Db) (p : Product) (task : Uuid)
    : Type 0 where
  pub parsed_task : Uuid
  pub parses_task : env.uuid_parse r.task_id ≡ some parsed_task
  pub parsed_product : Uuid
  pub parses_product : env.uuid_parse r.product_id ≡ some parsed_product
  pub no_lookup : is_empty r.lookup_id ≡ true
  pub sound_price : has_bad_price r ≡ false
  pub product_id : Uuid
  pub reads_product : env.pg_uuid r.product_id ≡ some product_id
  pub found : find_product product_id db.products ≡ some p
  pub reads_task : env.pg_uuid r.task_id ≡ some task
  pub unseen : exists (λ u. u == task) db.processed ≡ false
  pub dated : (r.success && r.scraped_at == 0) ≡ false

-- The price and the currency fit their columns, and the history has no row of the task.
pub record Fits (env : Env) (r : PriceResult) (db : Db) (task : Uuid) (price : Float64)
    : Type 0 where
  pub stored : env.numeric r.price ≡ some price
  pub short_currency : ltb 3 (count r.currency) ≡ false
  pub new_task : exists (λ h. h.task_id == task) db.price_history ≡ false

abbrev pub requested : Uuid → Db → Option ForceRequest
requested task db = find (λ f. f.task_id == task) db.force_requests

abbrev pub point : PriceResult → Product → Uuid → Float64 → PricePoint
point r p task price = record {
  product_id = p.id;
  price = price;
  currency = r.currency;
  scraped_at = r.scraped_at;
  task_id = task;
}

module _ (env : Env) (now : ℕ) (r : PriceResult) (db : Db) (p : Product) (task : Uuid) where
  pub to_check_force :
      Arrives env r db p task → process_price_result env now r db ≡ check_force env now r p task db
  unfolding process_price_result process_product
  to_check_force a = ground arith

  -- A forced result that no user asked for is marked as seen and has no other effect.
  pub unrequested_force :
      Arrives env r db p task
      → r.force ≡ true
      → requested task db ≡ none
      → process_price_result env now r db ≡ ok (tt, with_mark task db)
  unfolding check_force drop_unknown
  unrequested_force a forced none_asked =
      to_check_force a ∙ ground (arith, mark_new task db a.unseen)

  pub to_record :
      (chat : Option ℕ)
      → Arrives env r db p task
      → save_result env now r p task chat db
        ≡ record_result env now r p task chat (with_mark task db)
  unfolding save_result
  to_record chat a = ground (arith, mark_new task db a.unseen)

  unforced :
      Arrives env r db p task
      → r.force ≡ false
      → requested task db ≡ none
      → process_price_result env now r db ≡ record_result env now r p task none (with_mark task db)
  unfolding check_force
  unforced a plain none_asked = to_check_force a ∙ ground (arith, to_record none a)

  -- A failed or stale result that was not forced adds at most its history point: subscriptions,
  -- products and outbox stay as they were.
  pub quiet_result :
      (db' : Db)
      → Arrives env r db p task
      → r.force ≡ false
      → requested task db ≡ none
      → (not r.success || is_stale r p.latest_result_at) ≡ true
      → process_price_result env now r db ≡ ok (tt, db')
      → (db'.subscriptions ≡ db.subscriptions)
        × (db'.products ≡ db.products)
        × (db'.outbox ≡ db.outbox)
  quiet_result db' a plain none_asked quiet done =
      let run : record_result env now r p task none (with_mark task db) ≡ ok (tt, db') =
        sym (unforced a plain none_asked) ∙ done in
      unfold record_result store_history insert_history touch_latest announce in ground arith

  unfoldable pub with_point : Float64 → Db
  with_point price = record (with_mark task db) {
    price_history = db.price_history ++ point r p task price ∷ [];
  }

  pub fresh_history :
      (price : Float64)
      → Fits env r db task price
      → r.success ≡ true
      → store_history env now r p task (with_mark task db) ≡ ok (tt, with_point price)
  unfolding store_history insert_history with_point
  fresh_history price f success = ground arith

  after_fresh : Float64 → Db
  after_fresh price =
      send_alerts env now r p (alert_rows p.id db.users db.subscriptions)
        (touch_product p.id r.scraped_at (with_point price))

  -- A successful result that is neither stale nor forced, is well formed, arrives for the first time
  -- and fits its columns is accepted, where every user exists, no subscription id stands twice and no
  -- coming alert key is in the outbox. It appends one history point and its task, moves the product's
  -- newest time, moves each watched subscription to the state of the price, and appends one
  -- notification for each change into an alert.
  pub fresh_result :
      (price : Float64)
      → Arrives env r db p task
      → Fits env r db task price
      → r.force ≡ false
      → requested task db ≡ none
      → r.success ≡ true
      → is_stale r p.latest_result_at ≡ false
      → HasUsers db.users db.subscriptions
      → Distinct db.subscriptions
      → KeysFresh db.outbox db.subscriptions
      → (db' : Db) × (process_price_result env now r db ≡ ok (tt, db'))
        × (db'.subscriptions ≡ map (alerted r.price p.id) db.subscriptions)
        × (db'.outbox ≡ db.outbox ++ alert_events env now r p db.users db.subscriptions)
        × (db'.products ≡ (touch_product p.id r.scraped_at db).products)
        × (db'.price_history ≡ db.price_history ++ point r p task price ∷ [])
        × (db'.processed ≡ db.processed ++ task ∷ [])
  unfolding with_point after_fresh
  fresh_result price a f plain none_asked success fresh users distinct keys =
      let before = touch_product p.id r.scraped_at (with_point price) in
      let frame =
        send_alerts-SameOutside env now r p (alert_rows p.id db.users db.subscriptions) before in
      (
        after_fresh price,
        unforced a plain none_asked
            ∙ unfold record_result touch_latest announce in
              ground (arith, fresh_history price f success),
        send_alerts-eq-map env now r p before users distinct,
        send_alerts-outbox env now r p before users distinct keys,
        frame.products,
        frame.price_history,
        frame.processed,
      )
