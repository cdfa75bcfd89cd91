-- ===== src/Gateway/Alerts/Story.antt =====
-- services/gateway/internal/store/results.go: what a fresh price makes of each subscription and sends
-- to its user, in terms of the thresholds.
use price_scount.Base.{
  ℕ, String, Bool, true, false, ◌&&◌, none, some, List, [], ◌∷◌, ◌++◌, ◌==◌, ◌≡◌, ◌≢◌, ◌⊎◌, find,
  incr64,
}
use Prim.Native.String
use price_scount.Base.Int.{Float64, float_lt, float_zero}
use price_scount.Base.Text.{format_int}
use price_scount.Env.{Env, Uuid}
use price_scount.Contracts.{PriceResult, notify_task}
use price_scount.Outbox.Table.{Row, EventKey}
use price_scount.Gateway.Db.{Product, User, Subscription, AlertState, calm, up, down}
use price_scount.Gateway.Alerts.{or_zero}

-- A threshold that is set, and the price beyond it.
abbrev pub is_below : Float64 → Subscription → Bool
is_below price s = float_lt float_zero (or_zero s.min_price) && float_lt price (or_zero s.min_price)

abbrev pub is_above : Float64 → Subscription → Bool
is_above price s = float_lt float_zero (or_zero s.max_price) && float_lt (or_zero s.max_price) price

-- Where the price stands: below the minimum, else above the maximum, or between them.
abbrev pub Stands : Float64 → Subscription → AlertState → Type 0
Stands price s state =
    ((is_below price s ≡ true) × (state ≡ down))
    ⊎ ((is_below price s ≡ false) × (is_above price s ≡ true) × (state ≡ up))
    ⊎ ((is_below price s ≡ false) × (is_above price s ≡ false) × (state ≡ calm))

-- The subscription is of another product, deleted or paused.
abbrev pub Idle : Uuid → Subscription → Type 0
Idle product s = ((s.product_id == product) ≡ false) ⊎ (s.active ≡ false) ⊎ (s.paused ≡ true)

abbrev pub Watched : Uuid → Subscription → Type 0
Watched product s = ((s.product_id == product) ≡ true) × (s.active ≡ true) × (s.paused ≡ false)

-- How a text to the user begins, and the direction that it is sent with.
abbrev pub Says : AlertState → String → String → Type 0
Says down direction text =
    (direction ≡ "down") × ((rest : String) × (text ≡ String.◌++◌ "📉 Цена упала!\n\n" rest))
Says up direction text =
    (direction ≡ "up") × ((rest : String) × (text ≡ String.◌++◌ "📈 Цена выросла!\n\n" rest))
Says calm direction text = true ≡ false

module _ (env : Env) (now : ℕ) (r : PriceResult) (p : Product) (users : List User) where
  -- The one notification of an alert, to the chat of the user of the subscription.
  abbrev pub Told : Subscription → AlertState → List Row → Type 0
  Told s state rows =
      (u : User) × (direction : String) × (text : String) × (find (λ x. x.id == s.user_id) users
        ≡ some u)
      × Says state direction text
      × (rows
          ≡ record {
            event_key = EventKey.alert s.id (incr64 s.alert_version);
            queue = "notify.tasks";
            payload = notify_task (record {
              task_id = env.new_task_id s.id (incr64 s.alert_version);
              channel = "telegram";
              target = format_int u.chat_id;
              text = text;
              direction = direction;
              not_before = 0;
            });
            created_at = now;
            available_at = now;
            attempts = 0;
            lease_token = none;
            locked_until = none;
            published_at = none;
            last_error = none;
          }
            ∷ [])

  -- What becomes of one subscription, and the rows that it adds to the outbox.
  abbrev pub Judged : Subscription → Subscription → List Row → Type 0
  Judged s s' rows =
      (Idle p.id s × (s' ≡ s) × (rows ≡ []))
      ⊎ (Watched p.id s
          × (state : AlertState) × Stands r.price s state
          × (((s.alert_state ≡ state) × (s' ≡ s) × (rows ≡ []))
              ⊎ ((s.alert_state ≢ state)
                  × (s' ≡ record s { alert_state = state; alert_version = incr64 s.alert_version })
                  × (((state ≡ calm) × (rows ≡ [])) ⊎ Told s state rows))))

  -- Every subscription, in order.
  abbrev pub Story : List Subscription → List Subscription → List Row → Type 0
  Story [] [] rows = rows ≡ []
  Story [] (s' ∷ subs') rows = true ≡ false
  Story (s ∷ subs) [] rows = true ≡ false
  Story (s ∷ subs) (s' ∷ subs') rows =
      (mine : List Row) × (others : List Row) × (rows ≡ mine ++ others)
      × Judged s s' mine
      × Story subs subs' others
