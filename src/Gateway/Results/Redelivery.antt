-- ===== src/Gateway/Results/Redelivery.antt =====
-- ProcessPriceResult when a result is delivered again.
use price_scount.Base.{
  ℕ, true, Option, none, some, List, [], ◌∷◌, ◌==◌, ◌≡◌, ◌≢◌, refl, inl, inr, arith, update, ◌>>=◌,
  ◌>>◌, ok, bind-eq-ok, Bool-cases, Option-cases,
}
use price_scount.Env.{Env, Uuid}
use price_scount.Contracts.{PriceResult}
use price_scount.Gateway.Db.{Db, Product, find_product}
use price_scount.Gateway.Alerts.{alert_rows}
use price_scount.Gateway.Alerts.Frame.{SameOutside, send_alerts-SameOutside}
use price_scount.Gateway.Results.{
  finish_lookup, process_lookup, insert_history, record_result, store_history, touch_latest,
  announce, save_result, drop_unknown, check_force, process_product, process_price_result,
}
use price_scount.Gateway.Results.Marked.{
  force_of, is_processed, with_mark, mark_old, mark_new, with_mark_lem,
}

-- `update` keeps the ids, so a row is found as before.
find-touch :
    (id pid : Uuid) (at : ℕ) (rows : List Product)
    → find_product id rows ≢ none
    → find_product id
        (update (λ p. p.id == pid) (λ p. record p { latest_result_at = some at }) rows)
      ≢ none
find-touch id pid at [] h = h
find-touch id pid at (p ∷ rows) h = ground (arith, find-touch id pid at rows)

-- What a first delivery leaves for the second.
record Settled (task : Uuid) (db db' : Db) : Type 0 where
  processed : is_processed task db' ≡ true
  force_requests : db'.force_requests ≡ db.force_requests
  products : (id : Uuid) → find_product id db.products ≢ none → find_product id db'.products ≢ none

Settled-old :
    (task : Uuid) (db db' : Db) → is_processed task db ≡ true → db' ≡ db → Settled task db db'
Settled-old task db db' h e = record {
  processed = ground arith;
  force_requests = ground arith;
  products = λ id f. ground arith;
}

Settled-marked : (task : Uuid) (db : Db) → Settled task db (with_mark task db)
Settled-marked task db = record {
  processed = with_mark_lem task db;
  force_requests = refl;
  products = λ id f. f;
}

module _ (env : Env) (now later : ℕ) (r : PriceResult) where
  history_frame :
      (product task : Uuid) (db db' : Db)
      → insert_history env now r product task db ≡ ok (tt, db')
      → (db'.processed ≡ db.processed)
        × (db'.force_requests ≡ db.force_requests)
        × (db'.products ≡ db.products)
  unfolding insert_history
  history_frame product task db db' e = ground arith

  announce-SameOutside :
      (p : Product) (chat : Option ℕ) (db : Db) → SameOutside (announce env now r p chat db) db
  unfolding announce
  announce-SameOutside p (some chat) db = ground arith
  announce-SameOutside p none db =
      ground
        (arith, send_alerts-SameOutside env now r p (alert_rows p.id db.users db.subscriptions) db)

  store_history_frame :
      (p : Product) (task : Uuid) (db db' : Db)
      → store_history env now r p task db ≡ ok (tt, db')
      → (db'.processed ≡ db.processed)
        × (db'.force_requests ≡ db.force_requests)
        × (db'.products ≡ db.products)
  unfolding store_history
  store_history_frame p task db db' e = ground (arith, history_frame p.id task db db')

  -- A recorded result keeps the force requests, and every product that was found.
  pub record_result_frame :
      (p : Product) (task : Uuid) (chat : Option ℕ) (db db' : Db)
      → record_result env now r p task chat db ≡ ok (tt, db')
      → (db'.processed ≡ db.processed)
        × (db'.force_requests ≡ db.force_requests)
        × (db'.products ≡ (touch_latest env now r p db).products)
  unfolding record_result touch_latest
  record_result_frame p task chat db db' e =
      let (u, mid, stored, rest) = bind-eq-ok (store_history env now r p task) _ db e in
      ground (
        arith,
        store_history_frame p task db mid stored,
        announce-SameOutside p chat (touch_latest env now r p mid),
      )

  record_result-Settled :
      (p : Product) (task : Uuid) (chat : Option ℕ) (db db' : Db)
      → record_result env now r p task chat (with_mark task db) ≡ ok (tt, db')
      → Settled task db db'
  unfolding touch_latest
  record_result-Settled p task chat db db' e =
      let frame = record_result_frame p task chat (with_mark task db) db' e in
      record {
        processed = ground (arith, frame, with_mark_lem task db);
        force_requests = ground (arith, frame);
        products = λ id f. ground (arith, frame, find-touch id p.id r.scraped_at db.products f);
      }

  save_result-Settled :
      (p : Product) (task : Uuid) (chat : Option ℕ) (db db' : Db)
      → save_result env now r p task chat db ≡ ok (tt, db')
      → Settled task db db'
  save_result-Settled p task chat db db' e = elim (Bool-cases (is_processed task db)) [
    | inl old ↦
        Settled-old task db db' old (unfold save_result in ground (arith, mark_old task db old))
    | inr new ↦
        record_result-Settled p task chat db db'
          (unfold save_result in ground (arith, mark_new task db new))
  ]

  save_result_again :
      (p : Product) (task : Uuid) (chat : Option ℕ) (db : Db)
      → is_processed task db ≡ true
      → save_result env later r p task chat db ≡ ok (tt, db)
  unfolding save_result
  save_result_again p task chat db h = rw (mark_old task db h, save_result, ◌>>=◌)

  drop_unknown-Settled :
      (task : Uuid) (db db' : Db)
      → drop_unknown env now task db ≡ ok (tt, db')
      → Settled task db db'
  drop_unknown-Settled task db db' e = elim (Bool-cases (is_processed task db)) [
    | inl old ↦
        Settled-old task db db' old (unfold drop_unknown in ground (arith, mark_old task db old))
    | inr new ↦
        let same : db' ≡ with_mark task db =
          unfold drop_unknown in ground (arith, mark_new task db new) in
        rw same (Settled-marked task db)
  ]

  drop_unknown_again :
      (task : Uuid) (db : Db)
      → is_processed task db ≡ true
      → drop_unknown env later task db ≡ ok (tt, db)
  unfolding drop_unknown
  drop_unknown_again task db h = rw (mark_old task db h, drop_unknown, ◌>>◌, ◌>>=◌)

  check_force-Settled :
      (p : Product) (task : Uuid) (db db' : Db)
      → check_force env now r p task db ≡ ok (tt, db')
      → Settled task db db' × ((p' : Product) → check_force env later r p' task db' ≡ ok (tt, db'))
  check_force-Settled p task db db' e = elim (Option-cases (force_of task db)) [
    | inl unknown ↦ elim (Bool-cases r.force) [
      | inl forced ↦
          let done : drop_unknown env now task db ≡ ok (tt, db') =
            unfold check_force in ground arith in
          (
            drop_unknown-Settled task db db' done,
            λ p'.
                unfold check_force in
                let settled = drop_unknown-Settled task db db' done in
                ground (arith, drop_unknown_again task db' settled.processed),
          )
      | inr plain ↦
          let done : save_result env now r p task none db ≡ ok (tt, db') =
            unfold check_force in ground arith in
          let settled = save_result-Settled p task none db db' done in
          (
            settled,
            λ p'.
                unfold check_force in
                ground (arith, save_result_again p' task none db' settled.processed),
          )
    ]
    | inr (f, known) ↦
        let done : save_result env now r p task (some f.chat_id) db ≡ ok (tt, db') =
          unfold check_force in ground arith in
        let settled = save_result-Settled p task (some f.chat_id) db db' done in
        (
          settled,
          λ p'.
              unfold check_force in
              ground (arith, save_result_again p' task (some f.chat_id) db' settled.processed),
        )
  ]

  process_product_again :
      (db db' : Db)
      → process_product env now r db ≡ ok (tt, db')
      → process_product env later r db' ≡ ok (tt, db')
  process_product_again db db' e = elim (Option-cases (env.pg_uuid r.product_id)) [
    | inl unread ↦ absurd (unfold process_product in ground arith)
    | inr (id, read) ↦ elim (Option-cases (find_product id db.products)) [
      | inl missing ↦ absurd (unfold process_product in ground arith)
      | inr (p, found) ↦ elim (Option-cases (env.pg_uuid r.task_id)) [
        | inl unread ↦ absurd (unfold process_product in ground arith)
        | inr (task, named) ↦
            let done : check_force env now r p task db ≡ ok (tt, db') =
              unfold process_product in ground arith in
            let (settled, again) = check_force-Settled p task db db' done in
            elim (Option-cases (find_product id db'.products)) [
              | inl gone ↦ absurd (settled.products id (λ n. cc) gone)
              | inr (p', kept) ↦ unfold process_product in ground (arith, again p')
            ]
      ]
    ]
  ]

  finish_lookup_again :
      (id task : Uuid) (db db' : Db)
      → finish_lookup env now r id db ≡ ok (tt, db')
      → db'.processed ≡ db.processed
  unfolding finish_lookup
  finish_lookup_again id task db db' e = ground arith

  process_lookup-processed :
      (task : Uuid) (db db' : Db)
      → env.pg_uuid r.task_id ≡ some task
      → process_lookup env now r db ≡ ok (tt, db')
      → is_processed task db' ≡ true
  process_lookup-processed task db db' named e = elim (Bool-cases (is_processed task db)) [
    | inl old ↦ unfold process_lookup in ground (arith, mark_old task db old)
    | inr new ↦ elim (Option-cases (env.pg_uuid r.lookup_id)) [
      | inl unread ↦ absurd (unfold process_lookup in ground (arith, mark_new task db new))
      | inr (id, read) ↦
          unfold process_lookup in
          ground (
            arith,
            mark_new task db new,
            with_mark_lem task db,
            finish_lookup_again id task (with_mark task db) db',
          )
    ]
  ]

  process_lookup_again :
      (db db' : Db)
      → process_lookup env now r db ≡ ok (tt, db')
      → process_lookup env later r db' ≡ ok (tt, db')
  process_lookup_again db db' e = elim (Option-cases (env.pg_uuid r.task_id)) [
    | inl unread ↦ absurd (unfold process_lookup in ground arith)
    | inr (task, named) ↦
        let old = process_lookup-processed task db db' named e in
        unfold process_lookup in ground (arith, mark_old task db' old)
  ]

  -- If a result was processed and is delivered again later, the second delivery succeeds and leaves the
  -- database as the first one left it.
  pub process_price_result_again :
      (db db' : Db)
      → process_price_result env now r db ≡ ok (tt, db')
      → process_price_result env later r db' ≡ ok (tt, db')
  unfolding process_price_result
  process_price_result_again db db' e =
      ground (arith, process_lookup_again db db', process_product_again db db')
