-- ===== src/Gateway/Results/Sync.antt =====
-- ProcessPriceResult and the monitoring snapshots.
use price_scount.Base.{
  ℕ, Option, none, some, ◌≡◌, refl, ◌∙◌, arith, ok, find-update-none, Bool-cases, Option-cases, inl,
  inr,
}
use price_scount.Env.{Env, Uuid}
use price_scount.Contracts.{PriceResult}
use price_scount.Gateway.Db.{Db, Product, find_product}
use price_scount.Gateway.Monitoring.Sync.{InSync}
use price_scount.Gateway.Results.{
  is_empty, touch_latest, record_result, save_result, drop_unknown, check_force, process_product,
  process_lookup, finish_lookup, process_price_result,
}
use price_scount.Gateway.Results.Marked.{is_processed, with_mark, mark_old, mark_new, force_of}
use price_scount.Gateway.Results.Latest.{
  process_price_result-products, process_price_result-Advances,
}
use price_scount.Gateway.Results.Calm.{Calm, Calm-trans, Calm-same, record_result-Calm}

module _ (env : Env) (now : ℕ) (r : PriceResult) where
  save_result-Calm :
      (p : Product) (task : Uuid) (chat : Option ℕ) (db db' : Db)
      → save_result env now r p task chat db ≡ ok (tt, db')
      → Calm db db'
  save_result-Calm p task chat db db' e = elim (Bool-cases (is_processed task db)) [
    | inl old ↦
        let kept : db' ≡ db = unfold save_result in ground (arith, mark_old task db old) in
        rw kept (Calm-same db db refl refl)
    | inr new ↦
        let run : record_result env now r p task chat (with_mark task db) ≡ ok (tt, db') =
          unfold save_result in ground (arith, mark_new task db new) in
        Calm-trans db (with_mark task db) db' (Calm-same db (with_mark task db) refl refl)
          (record_result-Calm env now r p task chat (with_mark task db) db' run)
  ]

  drop_unknown-Calm :
      (task : Uuid) (db db' : Db) → drop_unknown env now task db ≡ ok (tt, db') → Calm db db'
  drop_unknown-Calm task db db' e = elim (Bool-cases (is_processed task db)) [
    | inl old ↦
        let kept : db' ≡ db = unfold drop_unknown in ground (arith, mark_old task db old) in
        rw kept (Calm-same db db refl refl)
    | inr new ↦
        let marked : db' ≡ with_mark task db =
          unfold drop_unknown in ground (arith, mark_new task db new) in
        rw marked (Calm-same db (with_mark task db) refl refl)
  ]

  check_force-Calm :
      (p : Product) (task : Uuid) (db db' : Db)
      → check_force env now r p task db ≡ ok (tt, db')
      → Calm db db'
  unfolding check_force
  check_force-Calm p task db db' e = elim (Option-cases (force_of task db)) [
    | inl unknown ↦ elim (Bool-cases r.force) [
      | inl forced ↦ drop_unknown-Calm task db db' (ground arith)
      | inr plain ↦ save_result-Calm p task none db db' (ground arith)
    ]
    | inr (f, known) ↦ save_result-Calm p task (some f.chat_id) db db' (ground arith)
  ]

  process_product-Calm : (db db' : Db) → process_product env now r db ≡ ok (tt, db') → Calm db db'
  unfolding process_product
  process_product-Calm db db' e = elim (Option-cases (env.pg_uuid r.product_id)) [
    | inl unread ↦ absurd (ground arith)
    | inr (id, read) ↦ elim (Option-cases (find_product id db.products)) [
      | inl missing ↦ absurd (ground arith)
      | inr (p, found) ↦ elim (Option-cases (env.pg_uuid r.task_id)) [
        | inl unread ↦ absurd (ground arith)
        | inr (task, named) ↦ check_force-Calm p task db db' (ground arith)
      ]
    ]
  ]

  finish_lookup_same :
      (id : Uuid) (db db' : Db)
      → finish_lookup env now r id db ≡ ok (tt, db')
      → (db'.subscriptions ≡ db.subscriptions) × (db'.outbox ≡ db.outbox)
  unfolding finish_lookup
  finish_lookup_same id db db' e = ground (arith, e)

  process_lookup_same :
      (db db' : Db)
      → process_lookup env now r db ≡ ok (tt, db')
      → (db'.subscriptions ≡ db.subscriptions) × (db'.outbox ≡ db.outbox)
  unfolding process_lookup
  process_lookup_same db db' e = elim (Option-cases (env.pg_uuid r.task_id)) [
    | inl unread ↦ absurd (ground arith)
    | inr (task, named) ↦ elim (Bool-cases (is_processed task db)) [
      | inl old ↦ ground (arith, mark_old task db old)
      | inr new ↦ elim (Option-cases (env.pg_uuid r.lookup_id)) [
        | inl unread ↦ absurd (ground (arith, mark_new task db new))
        | inr (id, read) ↦
            ground (arith, mark_new task db new, finish_lookup_same id (with_mark task db) db')
      ]
    ]
  ]

  process_price_result-Calm :
      (db db' : Db) → process_price_result env now r db ≡ ok (tt, db') → Calm db db'
  unfolding process_price_result
  process_price_result-Calm db db' e = elim (Bool-cases (is_empty r.lookup_id)) [
    | inl plain ↦ process_product-Calm db db' (ground arith)
    | inr lookup ↦
        let same = process_lookup_same db db' (ground arith) in Calm-same db db' same.0 same.1
  ]

  -- A product that is found afterwards was there before, with the same version.
  product_before :
      (db db' : Db) (i : Uuid) (q' : Product)
      → process_price_result env now r db ≡ ok (tt, db')
      → find_product i db'.products ≡ some q'
      → (q : Product) × (find_product i db.products ≡ some q)
        × (q.monitor_version ≡ q'.monitor_version)
  product_before db db' i q' e found = elim (Option-cases (find_product i db.products)) [
    | inr (q, had) ↦
        let (x, there, a) = process_price_result-Advances env now r db db' i q e had in
        (q, had, ground (arith, there, found, a.monitor_version))
    | inl missing ↦ absurd (elim (process_price_result-products env now r db db' e) [
      | inl same ↦ ground (arith, same, missing, found)
      | inr (pid, p, known, moved) ↦
          unfold touch_latest in
          ground (
            arith,
            moved,
            missing,
            found,
            find-update-none (λ x. x.id) (λ x. record x { latest_result_at = some r.scraped_at }) i
                p.id db.products (λ x. refl) missing,
          )
    ])
  ]

  -- From a database in step, an accepted result leaves every product in step.
  pub process_price_result-InSync :
      (db db' : Db) → InSync db → process_price_result env now r db ≡ ok (tt, db') → InSync db'
  process_price_result-InSync db db' sync e =
      let c = process_price_result-Calm db db' e in
      record {
        none_ahead = λ i v q' f lt.
            let (q, had, same) = product_before db db' i q' e f in
            c.keys i v ∙ sync.none_ahead i v q had (omega (arith, same, lt));
        current = λ i q' f.
            let (q, had, same) = product_before db db' i q' e f in
            ground (arith, same, c.said i q.monitor_version, c.watched i, sync.current i q had);
      }
