-- ===== src/Gateway/Results/Calm.antt =====
-- The part of ProcessPriceResult behind the checks, and the monitoring snapshots.
use price_scount.Base.{
  ℕ, not, ◌||◌, Option, none, some, List, [], ◌∷◌, ◌≡◌, refl, ◌∙◌, arith, ok, incr64, Bool-cases,
  inl, inr, bind-eq-ok,
}
use price_scount.Env.{Env, Uuid}
use price_scount.Contracts.{PriceResult, notify_task, queue_notify_tasks}
use price_scount.Outbox.Table.{EventKey, has_key}
use price_scount.Gateway.Db.{Db, Product, Subscription, AlertState}
use price_scount.Gateway.Alerts.{
  AlertRow, classify, alert_task, watches, alert_rows, set_alert, send_alert, send_alerts,
}
use price_scount.Gateway.Monitoring.{is_watched}
use price_scount.Gateway.Monitoring.Sync.{says, says-other, has_key-other}
use price_scount.Gateway.Results.{
  is_stale, store_history, insert_history, touch_latest, announce, notify_force, record_result,
}

-- Neither the watches nor the snapshots differ.
pub record Calm (db db' : Db) : Type 0 where
  pub watched : (i : Uuid) → is_watched i db'.subscriptions ≡ is_watched i db.subscriptions
  pub said : (i v : ℕ) → says i v db'.outbox ≡ says i v db.outbox
  pub keys :
      (i v : ℕ) → has_key (EventKey.track i v) db'.outbox ≡ has_key (EventKey.track i v) db.outbox

pub Calm-trans : (a b c : Db) → Calm a b → Calm b c → Calm a c
Calm-trans a b c h k = record {
  watched = λ i. k.watched i ∙ h.watched i;
  said = λ i v. k.said i v ∙ h.said i v;
  keys = λ i v. k.keys i v ∙ h.keys i v;
}

-- The same subscriptions and the same outbox.
pub Calm-same :
    (db db' : Db) → db'.subscriptions ≡ db.subscriptions → db'.outbox ≡ db.outbox → Calm db db'
Calm-same db db' s o = record {
  watched = λ i. rw s refl;
  said = λ i v. rw o refl;
  keys = λ i v. rw o refl;
}

is_watched-set_alert :
    (i id : Uuid) (state : AlertState) (v : ℕ) (rows : List Subscription)
    → is_watched i (set_alert id state v rows) ≡ is_watched i rows
unfolding set_alert watches
is_watched-set_alert i id state v [] = refl
is_watched-set_alert i id state v (s ∷ rows) =
    ground (arith, is_watched-set_alert i id state v rows)

module _ (env : Env) (now : ℕ) (r : PriceResult) where
  send_alert-Calm : (p : Product) (a : AlertRow) (db : Db) → Calm db (send_alert env now r p a db)
  unfolding send_alert
  send_alert-Calm p a db =
      let next = classify r.price a.min a.max in
      let version = incr64 a.version in
      let key = EventKey.alert a.id version in
      let note = notify_task (alert_task env now r p next a version) in
      record {
        watched = λ i. ground (arith, is_watched-set_alert i a.id next version db.subscriptions);
        said = λ i v. ground (arith, says-other i v now key queue_notify_tasks note db.outbox refl);
        keys = λ i v. ground (
          arith,
          has_key-other (EventKey.track i v) key now queue_notify_tasks note db.outbox refl,
        );
      }

  send_alerts-Calm :
      (p : Product) (rows : List AlertRow) (db : Db) → Calm db (send_alerts env now r p rows db)
  unfolding send_alerts
  send_alerts-Calm p [] db = Calm-same db db refl refl
  send_alerts-Calm p (a ∷ rest) db =
      let mid = send_alert env now r p a db in
      Calm-trans db mid (send_alerts env now r p rest mid) (send_alert-Calm p a db)
        (send_alerts-Calm p rest mid)

  announce-Calm : (p : Product) (chat : Option ℕ) (db : Db) → Calm db (announce env now r p chat db)
  unfolding announce notify_force
  announce-Calm p (some chat) db = record {
    watched = λ i. refl;
    said = λ i v.
        says-other i v now (EventKey.force_result r.task_id) queue_notify_tasks _ db.outbox refl;
    keys = λ i v.
        has_key-other (EventKey.track i v) (EventKey.force_result r.task_id) now queue_notify_tasks
          _ db.outbox refl;
  }
  announce-Calm p none db = elim (Bool-cases (not r.success || is_stale r p.latest_result_at)) [
    | inl quiet ↦ rw quiet (Calm-same db db refl refl)
    | inr loud ↦ rw loud (send_alerts-Calm p (alert_rows p.id db.users db.subscriptions) db)
  ]

  store_history_same :
      (p : Product) (task : Uuid) (db db' : Db)
      → store_history env now r p task db ≡ ok (tt, db')
      → (db'.subscriptions ≡ db.subscriptions) × (db'.outbox ≡ db.outbox)
  unfolding store_history insert_history
  store_history_same p task db db' e = ground (arith, e)

  pub record_result-Calm :
      (p : Product) (task : Uuid) (chat : Option ℕ) (db db' : Db)
      → record_result env now r p task chat db ≡ ok (tt, db')
      → Calm db db'
  unfolding record_result
  record_result-Calm p task chat db db' e =
      let (u, mid, stored, rest) = bind-eq-ok (store_history env now r p task) _ db e in
      let same = store_history_same p task db mid stored in
      let touched = touch_latest env now r p mid in
      let end : db' ≡ announce env now r p chat touched = ground (arith, rest) in
      let still : touched.subscriptions ≡ mid.subscriptions = unfold touch_latest in ground arith in
      let quiet : touched.outbox ≡ mid.outbox = unfold touch_latest in ground arith in
      rw end (
        Calm-trans db touched (announce env now r p chat touched)
          (Calm-same db touched (still ∙ same.0) (quiet ∙ same.1)) (announce-Calm p chat touched))
