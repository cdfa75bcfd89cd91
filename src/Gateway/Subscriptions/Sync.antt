-- ===== src/Gateway/Subscriptions/Sync.antt =====
-- mutateSubscription and the snapshot of its product.
use price_scount.Base.{
  ℕ, String, ◌<◌, Bool, true, false, ◌&&◌, ◌||◌, some, ◌==◌, ◌≡◌, refl, sym, arith, find, update,
  try_update, max_int64, ok, Bool-cases, Option-cases, inl, inr, find-passes, ==_iff, Result-cases,
  ◌∙◌,
}
use mathlib.Core.Path.{subst}
use price_scount.Base.Int.{Float64}
use price_scount.Env.{Env, Uuid}
use price_scount.Gateway.Db.{Db, Product, Subscription, find_product, find_subscription, read_uuid}
use price_scount.Gateway.Alerts.Exact.{Distinct}
use price_scount.Gateway.Monitoring.{is_watched, owned_by, lock_product, bump}
use price_scount.Gateway.Monitoring.Sync.{InSync, bump-InSync}
use price_scount.Gateway.Subscriptions.{
  Mutation, pause, resume, delete, thresholds, with_thresholds, apply_mutation, read_owned,
  mutate_subscription, is_distinct, set_subscriptions,
}
use price_scount.Gateway.Subscriptions.Watch.{
  find-OfProduct, is_watched-update, is_watched-try_update,
}

-- No version is at the largest int64.
abbrev pub HasRoom : Db → Type 0
HasRoom db =
    (i : Uuid) (p : Product) → find_product i db.products ≡ some p → p.monitor_version < max_int64

-- Only the subscriptions differ, and only in the watch of one product.
pub record Rewatches (product : Uuid) (db db' : Db) : Type 0 where
  pub products : db'.products ≡ db.products
  pub outbox : db'.outbox ≡ db.outbox
  pub watched :
      (j : Uuid)
      → (j == product) ≡ false
      → is_watched j db'.subscriptions ≡ is_watched j db.subscriptions

abbrev active_of : Uuid → Uuid → Subscription → Bool
active_of id user x = owned_by id user x && x.active

abbrev moved : Uuid → Uuid → Float64 → Float64 → Subscription → Bool
moved id user min max x =
    owned_by id user x && (is_distinct x.min_price min || is_distinct x.max_price max)

module _ (env : Env) (now : ℕ) where
  pub bump-Rewatches :
      (p : Product) (db db' : Db)
      → InSync db
      → find_product p.id db.products ≡ some p
      → p.monitor_version < max_int64
      → Rewatches p.id db db'
      → InSync (bump env now p db')
  bump-Rewatches p db db' sync known room w =
      bump-InSync env now p db' (rw (w.products) known) room
        (λ i v q e lt. ground (arith, w.products, w.outbox, sync.none_ahead i v q))
        (λ i miss q e. ground (arith, w.products, w.outbox, w.watched i miss, sync.current i q))

  at_id : (id user : Uuid) (x : Subscription) → owned_by id user x ≡ true → (x.id == id) ≡ true
  at_id id user x h = ground arith

  -- An UPDATE of rows with the id of an owned subscription.
  update-Rewatches :
      (id user : Uuid) (P : Subscription → Bool) (g : Subscription → Subscription)
      (s : Subscription) (db db' : Db)
      → ((x : Subscription) → P x ≡ true → (x.id == id) ≡ true)
      → ((x : Subscription) → (g x).product_id ≡ x.product_id)
      → Distinct db.subscriptions
      → find (owned_by id user) db.subscriptions ≡ some s
      → db' ≡ set_subscriptions env now (update P g db.subscriptions) db
      → Rewatches s.product_id db db'
  update-Rewatches id user P g s db db' of_id keeps d f e =
      let rows =
        find-OfProduct P (owned_by id user) id db.subscriptions s of_id (at_id id user) d f in
      record {
        products = ground arith;
        outbox = ground arith;
        watched = λ j n.
            ground (arith, is_watched-update P g s.product_id j db.subscriptions keeps rows n);
      }

  with_thresholds-product :
      (min max : Float64) (x y : Subscription)
      → with_thresholds env now min max x ≡ some y
      → y.product_id ≡ x.product_id
  unfolding with_thresholds
  with_thresholds-product min max x y e = ground arith

  apply_mutation-Rewatches :
      (id user : Uuid) (op : Mutation) (s : Subscription) (db db' : Db)
      → Distinct db.subscriptions
      → find (owned_by id user) db.subscriptions ≡ some s
      → apply_mutation env now id user op db ≡ ok (true, db')
      → Rewatches s.product_id db db'
  unfolding apply_mutation
  apply_mutation-Rewatches id user pause s db db' d f e =
      update-Rewatches id user (active_of id user) (λ x. record x { paused = true }) s db db'
        (λ x h. ground arith) (λ x. refl) d f (ground arith)
  apply_mutation-Rewatches id user resume s db db' d f e =
      update-Rewatches id user (active_of id user) (λ x. record x { paused = false }) s db db'
        (λ x h. ground arith) (λ x. refl) d f (ground arith)
  apply_mutation-Rewatches id user (thresholds min max) s db db' d f e =
      elim (Option-cases
        (try_update (moved id user min max) (with_thresholds env now min max) db.subscriptions)) [
          | inl refused ↦ absurd (ground arith)
          | inr (rows, done) ↦ record {
            products = ground arith;
            outbox = ground arith;
            watched = λ j n. ground (
              arith,
              is_watched-try_update (moved id user min max) (with_thresholds env now min max)
                  s.product_id j db.subscriptions rows (with_thresholds-product min max)
                  (find-OfProduct (moved id user min max) (owned_by id user) id db.subscriptions s
                    (λ x h. ground arith) (at_id id user) d f)
                  n done,
            );
          }
        ]
  apply_mutation-Rewatches id user delete s db db' d f e =
      elim (Option-cases (find_subscription id db.subscriptions)) [
        | inl missing ↦ absurd (ground arith)
        | inr (x, found) ↦
            update-Rewatches id user (λ y. y.id == id) (λ y. record y { active = false }) s db db'
              (λ y h. h) (λ y. refl) d f (ground arith)
      ]

  apply_mutation-kept :
      (id user : Uuid) (op : Mutation) (db db' : Db)
      → apply_mutation env now id user op db ≡ ok (false, db')
      → db' ≡ db
  unfolding apply_mutation
  apply_mutation-kept id user pause db db' e = ground arith
  apply_mutation-kept id user resume db db' e = ground arith
  apply_mutation-kept id user (thresholds min max) db db' e = ground arith
  apply_mutation-kept id user delete db db' e = ground arith

  pub mutate_subscription-InSync :
      (sub_id : String) (user : Uuid) (op : Mutation) (db db' : Db)
      → InSync db
      → HasRoom db
      → Distinct db.subscriptions
      → mutate_subscription env now sub_id user op db ≡ ok (tt, db')
      → InSync db'
  mutate_subscription-InSync sub_id user op db db' sync room d e =
      elim (Option-cases (env.pg_uuid sub_id)) [
        | inl unread ↦ absurd (unfold mutate_subscription read_uuid in ground arith)
        | inr (id, named) ↦ elim (Option-cases (find (owned_by id user) db.subscriptions)) [
          | inl missing ↦ absurd (unfold mutate_subscription read_uuid read_owned in ground arith)
          | inr (s, owned) ↦ elim (Option-cases (find_product s.product_id db.products)) [
            | inl gone ↦
                absurd
                  (unfold mutate_subscription read_uuid read_owned lock_product in ground arith)
            | inr (p, known) ↦
                let at : p.id ≡ s.product_id =
                  (==_iff p.id s.product_id).0
                    (find-passes (λ x. x.id == s.product_id) db.products p known) in
                elim (Result-cases (apply_mutation env now id user op db)) [
                  | inr (failed, refused) ↦
                      absurd (
                        unfold mutate_subscription read_uuid read_owned lock_product in
                        ground arith)
                  | inl ((changed, mid), applied) ↦ elim (Bool-cases changed) [
                    | inl bumped ↦
                        let run : apply_mutation env now id user op db ≡ ok (true, mid) =
                          ground arith in
                        let after : db' ≡ bump env now p mid =
                          unfold mutate_subscription read_uuid read_owned lock_product in
                          ground arith in
                        rw after (
                          bump-Rewatches p db mid sync (ground (arith, known, at))
                            (room s.product_id p known)
                            (subst (λ i. Rewatches i db mid) (sym at)
                              (apply_mutation-Rewatches id user op s db mid d owned run)))
                    | inr kept ↦
                        let run : apply_mutation env now id user op db ≡ ok (false, mid) =
                          ground arith in
                        let after : db' ≡ mid =
                          unfold mutate_subscription read_uuid read_owned lock_product in
                          ground arith in
                        rw (after ∙ apply_mutation-kept id user op db mid run) sync
                  ]
                ]
          ]
        ]
      ]
