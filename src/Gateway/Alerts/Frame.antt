-- ===== src/Gateway/Alerts/Frame.antt =====
-- What the alert loop of ProcessPriceResult leaves alone.
use price_scount.Base.{ℕ, List, [], ◌∷◌, ◌≡◌, arith}
use price_scount.Env.{Env}
use price_scount.Contracts.{PriceResult}
use price_scount.Gateway.Db.{Db, Product}
use price_scount.Gateway.Alerts.{AlertRow, send_alert, send_alerts}

pub record SameOutside (a b : Db) : Type 0 where
  pub users : a.users ≡ b.users
  pub products : a.products ≡ b.products
  pub price_history : a.price_history ≡ b.price_history
  pub processed : a.processed ≡ b.processed
  pub force_requests : a.force_requests ≡ b.force_requests
  pub lookups : a.lookups ≡ b.lookups

SameOutside-trans : {a b c : Db} → SameOutside a b → SameOutside b c → SameOutside a c
SameOutside-trans h k = ground arith

module _ (env : Env) (now : ℕ) (r : PriceResult) (p : Product) where
  send_alert-SameOutside : (a : AlertRow) (db : Db) → SameOutside (send_alert env now r p a db) db
  unfolding send_alert
  send_alert-SameOutside a db = ground arith

  pub send_alerts-SameOutside :
      (rows : List AlertRow) (db : Db) → SameOutside (send_alerts env now r p rows db) db
  unfolding send_alerts
  send_alerts-SameOutside [] db = ground arith
  send_alerts-SameOutside (a ∷ rest) db =
      SameOutside-trans (send_alerts-SameOutside rest (send_alert env now r p a db))
        (send_alert-SameOutside a db)
