-- ===== src/Gateway/Subscriptions/Create.antt =====
-- CreateSubscription and the snapshot of its product.
use mathlib.Core.Path.{subst}
use price_scount.Base.{
  ℕ, Bool, true, false, none, some, ◌==◌, ◌≡◌, sym, ◌∙◌, arith, find, try_update, ok, Bool-cases,
  Option-cases, Result-cases, inl, inr, find-passes, ==_iff, ==_refl,
}
use price_scount.Base.Int.{Float64}
use price_scount.Env.{Env, Uuid}
use price_scount.Gateway.Db.{Db, Subscription, find_product}
use price_scount.Gateway.Alerts.{watches}
use price_scount.Gateway.Alerts.Exact.{Distinct}
use price_scount.Gateway.Monitoring.{is_watched, lock_product, bump}
use price_scount.Gateway.Monitoring.Sync.{InSync}
use price_scount.Gateway.Subscriptions.{
  new_subscription, renewed, upsert_subscription, create_subscription, of_pair, resets_alert,
}
use price_scount.Gateway.Subscriptions.Watch.{
  find-Only, Only-OfProduct, is_watched-try_update, is_watched-insert, is_watched-same,
  is_watched-written, written-row, is_watched-inserted,
}
use price_scount.Gateway.Subscriptions.Sync.{HasRoom, Rewatches, bump-Rewatches}

module _ (env : Env) (now : ℕ) (new_id user product : Uuid) (min max : Float64) where
  new_subscription-fields :
      (t : Subscription)
      → new_subscription env now new_id user product min max ≡ some t
      → (t.product_id ≡ product) × (watches product t ≡ true)
  unfolding new_subscription watches
  new_subscription-fields t e = ground arith

  renewed-fields :
      (reset : Bool) (s t : Subscription)
      → renewed env now min max reset s ≡ some t
      → (t.product_id ≡ s.product_id) × (t.active ≡ true) × (t.paused ≡ false)
  unfolding renewed
  renewed-fields reset s t e = ground arith

  -- What the INSERT or UPDATE does to the watches.
  record Upserted (db : Db) (changed : Bool) (db' : Db) : Type 0 where
    rewatches : Rewatches product db db'
    watched : is_watched product db'.subscriptions ≡ true
    unchanged :
        changed ≡ false → is_watched product db'.subscriptions ≡ is_watched product db.subscriptions

  upsert_insert :
      (db db' : Db) (id : Uuid) (changed : Bool)
      → find (of_pair env now user product) db.subscriptions ≡ none
      → upsert_subscription env now new_id user product min max db ≡ ok ((id, changed), db')
      → Upserted db changed db'
  upsert_insert db db' id changed f e =
      elim (Option-cases (new_subscription env now new_id user product min max)) [
        | inl refused ↦ absurd (unfold upsert_subscription in ground arith)
        | inr (s, made) ↦
            let (of, seen) = new_subscription-fields s made in
            unfold upsert_subscription in
            record {
              rewatches = record {
                products = ground arith;
                outbox = ground arith;
                watched = λ j n. ground (arith, of, is_watched-insert s j db.subscriptions);
              };
              watched = ground (arith, is_watched-inserted s product db.subscriptions seen);
              unchanged = λ k. absurd (ground arith);
            }
      ]

  upsert_update :
      (db db' : Db) (id : Uuid) (changed : Bool) (s : Subscription)
      → Distinct db.subscriptions
      → find (of_pair env now user product) db.subscriptions ≡ some s
      → upsert_subscription env now new_id user product min max db ≡ ok ((id, changed), db')
      → Upserted db changed db'
  upsert_update db db' id changed s d f e =
      let reset = resets_alert env now s min max in
      let row = λ (x : Subscription). renewed env now min max reset x in
      let at_s = λ (x : Subscription). x.id == s.id in
      let of : s.product_id ≡ product =
        unfold watches in
        ground (arith, find-passes (of_pair env now user product) db.subscriptions s f) in
      elim (Option-cases (try_update at_s row db.subscriptions)) [
        | inl refused ↦ absurd (unfold upsert_subscription in ground arith)
        | inr (rows, done) ↦
            let (t, made) =
              written-row (of_pair env now user product) at_s row s db.subscriptions rows f
                (==_refl s.id) done in
            let (same, active, running) = renewed-fields reset s t made in
            let only = find-Only (of_pair env now user product) db.subscriptions s d f in
            let seen : watches product t ≡ true =
              unfold watches in ground (arith, same, of, active, running) in
            unfold upsert_subscription in
            record {
              rewatches = record {
                products = ground arith;
                outbox = ground arith;
                watched = λ j n. ground (
                  arith,
                  is_watched-try_update at_s row s.product_id j db.subscriptions rows
                      (λ x y h. (renewed-fields reset x y h).0)
                      (Only-OfProduct at_s s db.subscriptions only) (ground (arith, of)) done,
                );
              };
              watched = ground (
                arith,
                is_watched-written (of_pair env now user product) at_s row s t product
                    db.subscriptions rows f (==_refl s.id) made seen done,
              );
              unchanged = λ k.
                  let before : watches product s ≡ true = unfold watches in ground (arith, of) in
                  ground (
                    arith,
                    is_watched-same at_s row s t product db.subscriptions rows only made
                        (seen ∙ sym before) done,
                  );
            }
      ]

  upsert-Upserted :
      (db db' : Db) (id : Uuid) (changed : Bool)
      → Distinct db.subscriptions
      → upsert_subscription env now new_id user product min max db ≡ ok ((id, changed), db')
      → Upserted db changed db'
  upsert-Upserted db db' id changed d e =
      elim (Option-cases (find (of_pair env now user product) db.subscriptions)) [
        | inl new ↦ upsert_insert db db' id changed new e
        | inr (s, old) ↦ upsert_update db db' id changed s d old e
      ]

  -- Where the watches are as before, the products stay in step.
  same-InSync :
      (db db' : Db)
      → InSync db
      → Rewatches product db db'
      → is_watched product db'.subscriptions ≡ is_watched product db.subscriptions
      → InSync db'
  same-InSync db db' sync w same = record {
    none_ahead = λ i v q e lt. ground (arith, w.products, w.outbox, sync.none_ahead i v q);
    current = λ i q e. elim (Bool-cases (i == product)) [
      | inl hit ↦
          let at : i ≡ product = ground arith in
          ground (arith, at, same, w.products, w.outbox, sync.current product q)
      | inr miss ↦ ground (arith, w.products, w.outbox, w.watched i miss, sync.current i q)
    ];
  }

  -- From a database in step, where ids are distinct and no version is at the largest int64, an
  -- accepted subscription leaves every product in step, and its own product watched.
  pub create_subscription-InSync :
      (id : Uuid) (db db' : Db)
      → InSync db
      → HasRoom db
      → Distinct db.subscriptions
      → create_subscription env now new_id user product min max db ≡ ok (id, db')
      → InSync db' × (is_watched product db'.subscriptions ≡ true)
  create_subscription-InSync id db db' sync room d e =
      elim (Option-cases (find_product product db.products)) [
        | inl missing ↦ absurd (unfold create_subscription lock_product in ground arith)
        | inr (p, known) ↦
            let at : p.id ≡ product =
              (==_iff p.id product).0 (find-passes (λ x. x.id == product) db.products p known) in
            elim (Result-cases (upsert_subscription env now new_id user product min max db)) [
              | inr (failed, refused) ↦
                  absurd (unfold create_subscription lock_product in ground arith)
              | inl (((made, changed), mid), done) ↦
                  let u = upsert-Upserted db mid made changed d done in
                  elim (Bool-cases changed) [
                    | inl bumped ↦
                        let after : db' ≡ bump env now p mid =
                          unfold create_subscription lock_product in ground arith in
                        (
                          rw after (
                              bump-Rewatches env now p db mid sync (ground (arith, known, at))
                                (room product p known)
                                (subst (λ i. Rewatches i db mid) (sym at) u.rewatches)),
                          unfold bump in ground (arith, u.watched),
                        )
                    | inr kept ↦
                        let after : db' ≡ mid =
                          unfold create_subscription lock_product in ground arith in
                        (
                          rw after (same-InSync db mid sync u.rewatches (u.unchanged kept)),
                          ground (arith, u.watched),
                        )
                  ]
            ]
      ]
