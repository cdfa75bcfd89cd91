-- ===== src/Gateway/Alerts/Events.antt =====
-- The events of the alert loop of ProcessPriceResult.
use mathlib.Core.List.{append_assoc, append-nil}
use mathlib.Core.Path.{subst}
use price_scount.Base.{
  ℕ, true, false, not, ◌&&◌, none, some, List, [], ◌∷◌, ◌++◌, ◌==◌, ◌≡◌, sym, ◌∙◌, ap, arith, All,
  find, exists-append, incr64, if◌then◌else◌, Bool-cases, inl, inr,
}
use price_scount.Env.{Env}
use price_scount.Contracts.{PriceResult, notify_task, queue_notify_tasks}
use price_scount.Outbox.Table.{Row, EventKey, has_key, key_eq, new_row, insert_event}
use price_scount.Gateway.Db.{Db, Product, User, Subscription, state_eq, calm}
use price_scount.Gateway.Alerts.{
  alert_row, alert_rows, alert_task, send_alert, send_alerts, watches,
}
use price_scount.Gateway.Alerts.Exact.{
  Absent, Distinct, HasUsers, next_state, alert_rows-watched, alert_rows-unwatched,
}

abbrev pub alert_key : Subscription → EventKey
alert_key s = EventKey.alert s.id (incr64 s.alert_version)

-- No event of a coming alert is in the outbox yet.
abbrev pub KeysFresh : List Row → List Subscription → Type 0
KeysFresh rows = All (λ s. has_key (alert_key s) rows ≡ false)

module _ (env : Env) (now : ℕ) (r : PriceResult) (p : Product) where
  -- The event that the new price makes of one subscription.
  unfoldable pub alert_event : List User → Subscription → List Row
  alert_event us s =
      let next = next_state r.price s in
      if watches p.id s && not (state_eq next s.alert_state) && not (state_eq next calm)
      then elim (find (λ u. u.id == s.user_id) us) [
        | none ↦ []
        | some u ↦
            new_row now (alert_key s) queue_notify_tasks
              (notify_task (alert_task env now r p next (alert_row s u) (incr64 s.alert_version)))
            ∷ []
      ]
      else []

  unfoldable pub alert_events : List User → List Subscription → List Row
  alert_events us [] = []
  alert_events us (s ∷ rest) = alert_event us s ++ alert_events us rest

  send_alert-outbox :
      (us : List User) (s : Subscription) (u : User) (db : Db)
      → watches p.id s ≡ true
      → find (λ x. x.id == s.user_id) us ≡ some u
      → has_key (alert_key s) db.outbox ≡ false
      → (send_alert env now r p (alert_row s u) db).outbox ≡ db.outbox ++ alert_event us s
  unfolding send_alert alert_event insert_event
  send_alert-outbox us s u db w f k = ground (arith, append-nil db.outbox)

  alert_event-unwatched :
      (us : List User) (s : Subscription) → watches p.id s ≡ false → alert_event us s ≡ []
  unfolding alert_event
  alert_event-unwatched us s w = ground arith

  -- The event of one subscription has the key of no other.
  alert_event-key :
      (us : List User) (s t : Subscription)
      → (t.id == s.id) ≡ false
      → has_key (alert_key t) (alert_event us s) ≡ false
  unfolding alert_event
  alert_event-key us s t h = ground arith

  KeysFresh-step :
      (us : List User) (rest : List Subscription) (rows : List Row) (s : Subscription)
      → Absent s.id rest
      → KeysFresh rows rest
      → KeysFresh (rows ++ alert_event us s) rest
  KeysFresh-step us [] rows s a k = tt
  KeysFresh-step us (t ∷ rest) rows s a k = (
    ground (
      arith,
      exists-append (λ x. key_eq (alert_key t) x.event_key) rows (alert_event us s),
      alert_event-key us s t a.0,
    ),
    KeysFresh-step us rest rows s a.1 k.1,
  )

  loop_outbox :
      (us : List User) (rest : List Subscription) (db : Db)
      → HasUsers us rest
      → Distinct rest
      → KeysFresh db.outbox rest
      → (send_alerts env now r p (alert_rows p.id us rest) db).outbox
        ≡ db.outbox ++ alert_events us rest
  unfolding send_alerts alert_events
  loop_outbox us [] db users distinct fresh = unfold alert_rows in sym (append-nil db.outbox)
  loop_outbox us (s ∷ rest) db users distinct fresh = elim (Bool-cases (watches p.id s)) [
    | inl watched ↦
        let (u, known) = users.0 in
        let db' = send_alert env now r p (alert_row s u) db in
        let sent = send_alert-outbox us s u db watched known fresh.0 in
        let later = loop_outbox us rest db' users.1 distinct.1 (
          subst (λ rows. KeysFresh rows rest) (sym sent)
            (KeysFresh-step us rest db.outbox s distinct.0 fresh.1)) in
        rw (alert_rows-watched p.id us s u rest watched known) (
          later
          ∙ ap (λ rows. rows ++ alert_events us rest) sent
          ∙ append_assoc db.outbox (alert_event us s) (alert_events us rest))
    | inr unwatched ↦
        rw (alert_rows-unwatched p.id us s rest unwatched, alert_event-unwatched us s unwatched)
          (loop_outbox us rest db users.1 distinct.1 fresh.1)
  ]

  -- Where ids are distinct, users exist and no coming alert key is used yet, the loop appends to the
  -- outbox, in the order of the subscriptions, one notification for each watched subscription whose
  -- state the new price turns into another one that is an alert, and nothing else.
  pub send_alerts-outbox :
      (db : Db)
      → HasUsers db.users db.subscriptions
      → Distinct db.subscriptions
      → KeysFresh db.outbox db.subscriptions
      → (send_alerts env now r p (alert_rows p.id db.users db.subscriptions) db).outbox
        ≡ db.outbox ++ alert_events db.users db.subscriptions
  send_alerts-outbox db = loop_outbox db.users db.subscriptions db
