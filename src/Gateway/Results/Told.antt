-- ===== src/Gateway/Results/Told.antt =====
-- services/gateway/internal/store/results.go: what a fresh price comes to for the users.
use mathlib.Core.Path.{subst}
use price_scount.Base.{ℕ, true, false, none, List, ◌++◌, ◌≡◌, sym, ok}
use price_scount.Base.Int.{Float64}
use price_scount.Env.{Env, Uuid}
use price_scount.Contracts.{PriceResult}
use price_scount.Outbox.Table.{Row}
use price_scount.Gateway.Db.{Db, Product}
use price_scount.Gateway.Alerts.Exact.{HasUsers, Distinct}
use price_scount.Gateway.Alerts.Events.{KeysFresh, alert_events}
use price_scount.Gateway.Alerts.Story.{Story}
use price_scount.Gateway.Alerts.Judged.{alert_events-Story}
use price_scount.Gateway.Results.{is_stale, process_price_result}
use price_scount.Gateway.Results.Effects.{Arrives, Fits, requested, fresh_result}

-- A successful result that is neither stale nor forced, arrives for the first time and fits its
-- columns, where users exist, ids are distinct and no coming alert key is used: a subscription that is
-- of another product, deleted or paused stays as it is. Any other stands below its minimum, above its
-- maximum, or between them, where a threshold that is not set is never passed. If it stood there
-- before, it stays as it is. If not, it takes this state with the next version, and unless the price is
-- between the thresholds one notification goes to the chat of its user, which says in which direction
-- the price went. The outbox gets these notifications, in the order of the subscriptions, and no other.
pub fresh_alerts :
    (env : Env) (now : ℕ) (r : PriceResult) (db : Db) (p : Product) (task : Uuid) (price : Float64)
    → Arrives env r db p task
    → Fits env r db task price
    → r.force ≡ false
    → requested task db ≡ none
    → r.success ≡ true
    → is_stale r p.latest_result_at ≡ false
    → HasUsers db.users db.subscriptions
    → Distinct db.subscriptions
    → KeysFresh db.outbox db.subscriptions
    → (db' : Db) × (rows : List Row) × (process_price_result env now r db ≡ ok (tt, db'))
      × (db'.outbox ≡ db.outbox ++ rows)
      × Story env now r p db.users db.subscriptions db'.subscriptions rows
fresh_alerts env now r db p task price a f plain none_asked success fresh users distinct keys =
    let (db', done, subscriptions, outbox, _, _, _) =
      fresh_result env now r db p task price a f plain none_asked success fresh users distinct
        keys in
    let rows = alert_events env now r p db.users db.subscriptions in
    (
      db',
      rows,
      done,
      outbox,
      subst (λ t. Story env now r p db.users db.subscriptions t rows) (sym subscriptions)
          (alert_events-Story env now r p db.users db.subscriptions users),
    )
