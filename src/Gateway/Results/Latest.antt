-- ===== src/Gateway/Results/Latest.antt =====
-- The newest result time of a product.
use price_scount.Base.{
  ℕ, true, false, not, ◌&&◌, Option, none, some, List, [], ◌∷◌, ◌==◌, ◌≡◌, ◌≤◌, refl, inl, inr,
  arith, ok, ◌⊎◌, ==_iff, sym, ◌∙◌, update, find-passes, Bool-cases, Option-cases, if◌then◌else◌,
}
use price_scount.Env.{Env, Uuid}
use price_scount.Contracts.{PriceResult}
use price_scount.Gateway.Db.{Db, Product, find_product}
use mathlib.Core.Path.{subst}
use price_scount.Gateway.Results.{
  touch_latest, is_stale, process_price_result, is_empty, finish_lookup, process_lookup,
  record_result, save_result, drop_unknown, check_force, process_product,
}
use price_scount.Gateway.Results.Marked.{is_processed, with_mark, mark_old, mark_new, force_of}
use price_scount.Gateway.Results.Redelivery.{record_result_frame}

-- A later time, or a first one.
abbrev pub NotEarlier : Option ℕ → Option ℕ → Type 0
NotEarlier none b = Unit
NotEarlier (some a) none = ⊥
NotEarlier (some a) (some b) = a ≤ b

-- The same product, with a newest time that is not earlier.
pub record Advances (p q : Product) : Type 0 where
  pub id : q.id ≡ p.id
  pub name : q.name ≡ p.name
  pub url : q.url ≡ p.url
  pub platform : q.platform ≡ p.platform
  pub monitor_version : q.monitor_version ≡ p.monitor_version
  pub latest : NotEarlier p.latest_result_at q.latest_result_at

NotEarlier-refl : (o : Option ℕ) → NotEarlier o o
NotEarlier-refl none = tt
NotEarlier-refl (some a) = omega arith

Advances-refl : (p : Product) → Advances p p
Advances-refl p = record {
  id = refl;
  name = refl;
  url = refl;
  platform = refl;
  monitor_version = refl;
  latest = NotEarlier-refl p.latest_result_at;
}

find-touched :
    (i pid at : ℕ) (rows : List Product) (q : Product)
    → find_product i rows ≡ some q
    → find_product i (update (λ p. p.id == pid) (λ p. record p { latest_result_at = some at }) rows)
      ≡ some (if i == pid then record q { latest_result_at = some at } else q)
find-touched i pid at [] q h = ground arith
find-touched i pid at (p ∷ rows) q h = ground (arith, find-touched i pid at rows q)

fresh-NotEarlier :
    (r : PriceResult) (o : Option ℕ)
    → r.success ≡ true
    → is_stale r o ≡ false
    → NotEarlier o (some r.scraped_at)
unfolding is_stale
fresh-NotEarlier r none s f = tt
fresh-NotEarlier r (some a) s f = ground arith

module _ (env : Env) (now : ℕ) (r : PriceResult) where
  abbrev touched : Product → Db → Db
  touched p db = touch_latest env now r p db

  -- A row that is touched, when the newest time of its product is not later than the result.
  touched-Advances :
      (q : Product)
      → NotEarlier q.latest_result_at (some r.scraped_at)
      → Advances q (record q { latest_result_at = some r.scraped_at })
  touched-Advances q h = record {
    id = refl;
    name = refl;
    url = refl;
    platform = refl;
    monitor_version = refl;
    latest = h;
  }

  touch-Advances :
      (db : Db) (pid : Uuid) (p : Product) (i : Uuid) (q : Product)
      → find_product pid db.products ≡ some p
      → find_product i db.products ≡ some q
      → (q' : Product) × (find_product i (touched p db).products ≡ some q') × Advances q q'
  touch-Advances db pid p i q found asked =
      elim (Bool-cases (r.success && not (is_stale r p.latest_result_at))) [
        | inr same ↦ (q, unfold touch_latest in ground arith, Advances-refl q)
        | inl moved ↦
            let row = find-touched i p.id r.scraped_at db.products q asked in
            elim (Bool-cases (i == p.id)) [
              | inr other ↦ (q, unfold touch_latest in ground (arith, row), Advances-refl q)
              | inl hit ↦
                  let at_pid : p.id ≡ pid =
                    (==_iff p.id pid).0 (find-passes (λ x. x.id == pid) db.products p found) in
                  let same : i ≡ pid = (==_iff i p.id).0 hit ∙ at_pid in
                  let one : q ≡ p = ground (arith, same) in
                  (
                    record q { latest_result_at = some r.scraped_at },
                    unfold touch_latest in ground (arith, row),
                    touched-Advances q (
                        subst (λ x. NotEarlier x.latest_result_at (some r.scraped_at)) (sym one)
                          (fresh-NotEarlier r p.latest_result_at (ground arith) (ground arith))),
                  )
            ]
      ]

  -- The products of an accepted result: as before, or with the product of the result touched.
  abbrev pub TouchesOne : Db → Db → Type 0
  TouchesOne db db' =
      (db'.products ≡ db.products)
      ⊎ ((pid : Uuid) × (p : Product) × (find_product pid db.products ≡ some p)
          × (db'.products ≡ (touched p db).products))

  save_result-products :
      (p : Product) (task : Uuid) (chat : Option ℕ) (db db' : Db)
      → save_result env now r p task chat db ≡ ok (tt, db')
      → (db'.products ≡ db.products) ⊎ (db'.products ≡ (touched p db).products)
  unfolding touch_latest
  save_result-products p task chat db db' e = elim (Bool-cases (is_processed task db)) [
    | inl old ↦ inl (unfold save_result in ground (arith, mark_old task db old))
    | inr new ↦
        let run : record_result env now r p task chat (with_mark task db) ≡ ok (tt, db') =
          unfold save_result in ground (arith, mark_new task db new) in
        inr (
          ground (arith, record_result_frame env now now r p task chat (with_mark task db) db' run))
  ]

  drop_unknown-products :
      (task : Uuid) (db db' : Db)
      → drop_unknown env now task db ≡ ok (tt, db')
      → db'.products ≡ db.products
  unfolding drop_unknown
  drop_unknown-products task db db' e = elim (Bool-cases (is_processed task db)) [
    | inl old ↦ ground (arith, mark_old task db old)
    | inr new ↦ ground (arith, mark_new task db new)
  ]

  check_force-products :
      (p : Product) (task : Uuid) (db db' : Db)
      → check_force env now r p task db ≡ ok (tt, db')
      → (db'.products ≡ db.products) ⊎ (db'.products ≡ (touched p db).products)
  unfolding check_force
  check_force-products p task db db' e = elim (Option-cases (force_of task db)) [
    | inl unknown ↦ elim (Bool-cases r.force) [
      | inl forced ↦ inl (drop_unknown-products task db db' (ground arith))
      | inr plain ↦ save_result-products p task none db db' (ground arith)
    ]
    | inr (f, known) ↦ save_result-products p task (some f.chat_id) db db' (ground arith)
  ]

  finish_lookup-products :
      (id : Uuid) (db db' : Db)
      → finish_lookup env now r id db ≡ ok (tt, db')
      → db'.products ≡ db.products
  unfolding finish_lookup
  finish_lookup-products id db db' e = ground arith

  process_lookup-products :
      (db db' : Db) → process_lookup env now r db ≡ ok (tt, db') → db'.products ≡ db.products
  unfolding process_lookup
  process_lookup-products db db' e = elim (Option-cases (env.pg_uuid r.task_id)) [
    | inl unread ↦ absurd (ground arith)
    | inr (task, named) ↦ elim (Bool-cases (is_processed task db)) [
      | inl old ↦ ground (arith, mark_old task db old)
      | inr new ↦ elim (Option-cases (env.pg_uuid r.lookup_id)) [
        | inl unread ↦ absurd (ground (arith, mark_new task db new))
        | inr (id, read) ↦
            ground (arith, mark_new task db new, finish_lookup-products id (with_mark task db) db')
      ]
    ]
  ]

  process_product-products :
      (db db' : Db) → process_product env now r db ≡ ok (tt, db') → TouchesOne db db'
  unfolding process_product
  process_product-products db db' e = elim (Option-cases (env.pg_uuid r.product_id)) [
    | inl unread ↦ absurd (ground arith)
    | inr (id, read) ↦ elim (Option-cases (find_product id db.products)) [
      | inl missing ↦ absurd (ground arith)
      | inr (p, found) ↦ elim (Option-cases (env.pg_uuid r.task_id)) [
        | inl unread ↦ absurd (ground arith)
        | inr (task, named) ↦ elim (check_force-products p task db db' (ground arith)) [
          | inl same ↦ inl same
          | inr moved ↦ inr (id, p, found, moved)
        ]
      ]
    ]
  ]

  TouchesOne-Advances :
      (db db' : Db) (i : Uuid) (q : Product)
      → TouchesOne db db'
      → find_product i db.products ≡ some q
      → (q' : Product) × (find_product i db'.products ≡ some q') × Advances q q'
  TouchesOne-Advances db db' i q (inl same) asked = (q, rw same asked, Advances-refl q)
  TouchesOne-Advances db db' i q (inr (pid, p, found, moved)) asked =
      rw moved (touch-Advances db pid p i q found asked)

  pub process_price_result-products :
      (db db' : Db) → process_price_result env now r db ≡ ok (tt, db') → TouchesOne db db'
  unfolding process_price_result
  process_price_result-products db db' e = elim (Bool-cases (is_empty r.lookup_id)) [
    | inl plain ↦ process_product-products db db' (ground arith)
    | inr lookup ↦ inl (process_lookup-products db db' (ground arith))
  ]

  -- An accepted result keeps every product and all its columns but the newest result time, which
  -- never goes back.
  pub process_price_result-Advances :
      (db db' : Db) (i : Uuid) (q : Product)
      → process_price_result env now r db ≡ ok (tt, db')
      → find_product i db.products ≡ some q
      → (q' : Product) × (find_product i db'.products ≡ some q') × Advances q q'
  process_price_result-Advances db db' i q e asked =
      TouchesOne-Advances db db' i q (process_price_result-products db db' e) asked
