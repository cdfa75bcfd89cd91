-- ===== src/Gateway/Alerts.antt =====
-- services/gateway/internal/store/results.go: the alert part of ProcessPriceResult. A subscription
-- holds the direction of its last alert, and a change of direction makes one event.

pub mod Frame
pub mod Exact
pub mod Events
pub mod Story
pub mod Judged
use price_scount.Base.{
  ℕ, String, Bool, not, ◌&&◌, Option, none, some, List, [], ◌∷◌, ◌==◌, find, update, if◌then◌else◌,
  incr64,
}
use price_scount.Base.Int.{Float64, float_lt, float_zero}
use price_scount.Base.Text.{join, format_int}
use price_scount.Env.{Env, Uuid}
use price_scount.Contracts.{PriceResult, NotifyTask, notify_task, queue_notify_tasks}
use price_scount.Outbox.Table.{EventKey, insert_event}
use price_scount.Gateway.Db.{
  Db, User, Product, AlertState, calm, up, down, state_text, state_eq, Subscription,
}

-- The three-way test of a price against the thresholds; a threshold of 0 is none.
unfoldable pub classify : Float64 → Float64 → Float64 → AlertState
classify price min max =
    if float_lt float_zero min && float_lt price min
    then down
    else if float_lt float_zero max && float_lt max price
    then up
    else calm

pub record AlertRow : Type 0 where
  pub id : Uuid
  pub chat : ℕ
  pub min : Float64
  pub max : Float64
  pub state : AlertState
  pub version : ℕ

-- A subscription that an active watch of the product selects.
unfoldable pub watches : Uuid → Subscription → Bool
watches product s = s.product_id == product && s.active && not s.paused

abbrev pub or_zero : Option Float64 → Float64
or_zero none = float_zero
or_zero (some x) = x

-- The joined row of a subscription and the chat of its user.
abbrev pub alert_row : Subscription → User → AlertRow
alert_row s u = record {
  id = s.id;
  chat = u.chat_id;
  min = or_zero s.min_price;
  max = or_zero s.max_price;
  state = s.alert_state;
  version = s.alert_version;
}

-- SELECT ... FROM subscriptions s JOIN users u ... WHERE ... ORDER BY s.id.
unfoldable pub alert_rows : Uuid → List User → List Subscription → List AlertRow
unfolding watches
alert_rows product users [] = []
alert_rows product users (s ∷ rest) =
    let others = alert_rows product users rest in
    if watches product s
    then elim (find (λ u. u.id == s.user_id) users) [
      | none ↦ others
      | some u ↦ alert_row s u ∷ others
    ]
    else others

unfoldable pub set_alert : Uuid → AlertState → ℕ → List Subscription → List Subscription
set_alert id state version =
    update (λ s. s.id == id) (λ s. record s { alert_state = state; alert_version = version })

module _ (env : Env) (now : ℕ) where
  unfoldable pub alert_text : PriceResult → Product → AlertState → AlertRow → String
  alert_text r p direction a =
      if state_eq direction down
      then join (
          "📉 Цена упала!\n\n"
          ∷ p.name
          ∷ "\n"
          ∷ p.url
          ∷ "\n\nЦена: "
          ∷ env.format_price r.price
          ∷ " "
          ∷ r.currency
          ∷ "\nВаш минимум: "
          ∷ env.format_price a.min
          ∷ " "
          ∷ r.currency
          ∷ [])
      else join (
          "📈 Цена выросла!\n\n"
          ∷ p.name
          ∷ "\n"
          ∷ p.url
          ∷ "\n\nЦена: "
          ∷ env.format_price r.price
          ∷ " "
          ∷ r.currency
          ∷ "\nВаш максимум: "
          ∷ env.format_price a.max
          ∷ " "
          ∷ r.currency
          ∷ [])

  unfoldable pub alert_task : PriceResult → Product → AlertState → AlertRow → ℕ → NotifyTask
  alert_task r p next a version = record {
    task_id = env.new_task_id a.id version;
    channel = "telegram";
    target = format_int a.chat;
    text = alert_text r p next a;
    direction = state_text next;
    not_before = 0;
  }

  -- The body of the loop over the rows.
  unfoldable pub send_alert : PriceResult → Product → AlertRow → Db → Db
  unfolding set_alert
  send_alert r p a db =
      let next = classify r.price a.min a.max in
      let version = incr64 a.version in
      let moved = record db { subscriptions = set_alert a.id next version db.subscriptions } in
      if state_eq next a.state then db else if state_eq next calm then moved else record moved {
        outbox =
            insert_event now (EventKey.alert a.id version) queue_notify_tasks
              (notify_task (alert_task r p next a version)) moved.outbox;
      }

  unfoldable pub send_alerts : PriceResult → Product → List AlertRow → Db → Db
  send_alerts r p [] db = db
  send_alerts r p (a ∷ rest) db = send_alerts r p rest (send_alert r p a db)
