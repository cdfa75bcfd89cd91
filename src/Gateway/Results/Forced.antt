-- ===== src/Gateway/Results/Forced.antt =====
-- services/gateway/internal/store/results.go: what the result of a force request does to the database.
use price_scount.Base.{
  ℕ, String, true, false, none, some, [], ◌∷◌, ◌++◌, ◌≡◌, ◌⊎◌, inl, inr, refl, ◌∙◌, arith, str_eq,
  ok, Bool-cases,
}
use price_scount.Base.Int.{Float64}
use price_scount.Base.Text.{join, format_int}
use price_scount.Env.{Env, Uuid}
use price_scount.Contracts.{PriceResult, notify_task}
use price_scount.Outbox.Table.{Row, EventKey, has_key, insert_event}
use price_scount.Gateway.Db.{Db, Product, ForceRequest}
use price_scount.Gateway.Results.{
  store_history, touch_latest, announce, force_text, notify_force, record_result, check_force,
  process_price_result,
}
use price_scount.Gateway.Results.Marked.{with_mark}
use price_scount.Gateway.Results.Effects.{
  Arrives, Fits, requested, point, to_check_force, to_record, with_point, fresh_history,
}

-- The row of the reply, for the notifier at once.
abbrev pub reply_row : ℕ → PriceResult → ℕ → String → Row
reply_row now r chat text = record {
  event_key = EventKey.force_result r.task_id;
  queue = "notify.tasks";
  payload = notify_task (record {
    task_id = r.task_id;
    channel = "telegram";
    target = format_int chat;
    text = text;
    direction = "";
    not_before = 0;
  });
  created_at = now;
  available_at = now;
  attempts = 0;
  lease_token = none;
  locked_until = none;
  published_at = none;
  last_error = none;
}

module _ (env : Env) (now : ℕ) (r : PriceResult) (db : Db) (p : Product) (task : Uuid) where
  -- A check that failed says so, with its error; one that did not names the price.
  abbrev pub Reports : String → Type 0
  Reports text =
      ((r.success ≡ true)
        × (text
            ≡ join (
                "📊 Текущая цена\n\n"
                ∷ p.name
                ∷ "\n"
                ∷ p.url
                ∷ "\n\nЦена: "
                ∷ env.format_price r.price
                ∷ " "
                ∷ r.currency
                ∷ [])))
      ⊎ ((r.success ≡ false)
          × (text
              ≡ join (
                  "⚠ Не удалось проверить цену\n\n" ∷ p.name ∷ "\n" ∷ p.url ∷ "\n\n" ∷ r.error
                  ∷ [])))

  force_text-Reports : Reports (force_text env now r p)
  force_text-Reports = elim (Bool-cases r.success) [
    | inl e ↦ inl (e, unfold force_text in rw e refl)
    | inr e ↦ inr (e, unfold force_text in rw e refl)
  ]

  -- A failed check leaves the history alone; another adds its point.
  abbrev pub Kept : Db → Type 0
  Kept db' =
      ((r.success ≡ false) × (db'.price_history ≡ db.price_history))
      ⊎ ((price : Float64) × (env.numeric r.price ≡ some price)
          × (db'.price_history ≡ db.price_history ++ point r p task price ∷ []))

  -- The reply is sent from the database with the point.
  reply : ℕ → Db → Db
  reply chat db' = notify_force env now r p chat (touch_latest env now r p db')

  reply-outbox :
      (chat : ℕ) (db' : Db)
      → has_key (EventKey.force_result r.task_id) db'.outbox ≡ false
      → (reply chat db').outbox ≡ db'.outbox ++ reply_row now r chat (force_text env now r p) ∷ []
  unfolding reply notify_force touch_latest insert_event
  reply-outbox chat db' fresh = ground (arith, fresh)

  reply-rest :
      (chat : ℕ) (db' : Db)
      → ((reply chat db').subscriptions ≡ db'.subscriptions)
        × ((reply chat db').processed ≡ db'.processed)
        × ((reply chat db').price_history ≡ db'.price_history)
  unfolding reply notify_force touch_latest
  reply-rest chat db' = (ground arith, ground arith, ground arith)

  recorded :
      (chat : ℕ) (before after : Db)
      → store_history env now r p task before ≡ ok (tt, after)
      → record_result env now r p task (some chat) before ≡ ok (tt, reply chat after)
  unfolding reply record_result announce notify_force
  recorded chat before after h = ground (arith, h)

  -- The result of a force request, which arrives for the first time and whose price can be stored
  -- if the check succeeded, is accepted and recorded. One notification is appended, to the chat that
  -- asked: it names the price, or says that the check failed, with its error. No subscription changes.
  -- There is no reply to the task before.
  pub forced_reply :
      (f : ForceRequest)
      → Arrives env r db p task
      → (r.success ≡ false) ⊎ ((price : Float64) × Fits env r db task price)
      → requested task db ≡ some f
      → str_eq (env.uuid_string f.product_id) r.product_id ≡ true
      → has_key (EventKey.force_result r.task_id) db.outbox ≡ false
      → (db' : Db) × (text : String) × (process_price_result env now r db ≡ ok (tt, db'))
        × Reports text
        × (db'.outbox ≡ db.outbox ++ reply_row now r f.chat_id text ∷ [])
        × (db'.subscriptions ≡ db.subscriptions)
        × (db'.processed ≡ db.processed ++ task ∷ [])
        × Kept db'
  forced_reply f a stored asked same fresh =
      let run : process_price_result env now r db
          ≡ record_result env now r p task (some f.chat_id) (with_mark task db) =
        to_check_force env now r db p task a
        ∙ unfold check_force in
          ground (arith, to_record env now r db p task (some f.chat_id) a, asked, same) in
      let answered : (after : Db)
          → store_history env now r p task (with_mark task db) ≡ ok (tt, after)
          → process_price_result env now r db ≡ ok (tt, reply f.chat_id after) =
        λ after h. run ∙ recorded f.chat_id (with_mark task db) after h in
      elim (Bool-cases r.success) [
        | inr e ↦
            let after = with_mark task db in
            let rest = reply-rest f.chat_id after in
            let h : store_history env now r p task after ≡ ok (tt, after) =
              unfold store_history in ground (arith, e) in
            (
              reply f.chat_id after,
              force_text env now r p,
              answered after h,
              force_text-Reports,
              reply-outbox f.chat_id after fresh,
              rest.0,
              rest.1,
              inl (e, rest.2),
            )
        | inl e ↦ elim stored [
          | inl failed ↦ absurd (ground (arith, e, failed))
          | inr (price, fits) ↦
              let after = with_point env now r db p task price in
              let rest = reply-rest f.chat_id after in
              (
                reply f.chat_id after,
                force_text env now r p,
                answered after (fresh_history env now r db p task price fits e),
                force_text-Reports,
                unfold with_point in reply-outbox f.chat_id after fresh,
                unfold with_point in rest.0,
                unfold with_point in rest.1,
                inr (price, fits.stored, unfold with_point in rest.2),
              )
        ]
      ]
