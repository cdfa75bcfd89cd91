-- ===== src/Gateway/Consumer.antt =====
-- services/gateway/internal/consumer/consumer.go: what becomes of a price result. A delivery is what
-- encoding/json reads, `none` when it is malformed.
pub mod Again
use price_scount.Base.{
  ℕ, Option, none, some, Result, ok, err, Fault, not_found, invalid_result, invalid_request,
  database, settle,
}
use price_scount.Env.{Env}
use price_scount.Contracts.{PriceResult}
use price_scount.Delivery.{Verdict, ack, drop, requeue}
use price_scount.Gateway.Db.{Db}
use price_scount.Gateway.Results.{process_price_result}

-- The answer to the broker by the store's error.
abbrev pub verdict : Result (Unit {0}) → Verdict
verdict (ok _) = ack
verdict (err invalid_result) = drop
verdict (err not_found) = requeue
verdict (err invalid_request) = requeue
verdict (err database) = requeue

-- handle.
unfoldable pub handle : Env → ℕ → Option PriceResult → Db → Verdict × Db
handle env now none db = (drop, db)
handle env now (some r) db =
    let (result, db') = settle (process_price_result env now r) db in (verdict result, db')
