-- ===== src/Gateway/Subscriptions.antt =====
-- services/gateway/internal/store/monitoring.go: mutateSubscription and CreateSubscription, each one
-- transaction that ends in a snapshot when the state changed.
pub mod Watch
pub mod Sync
pub mod Create
use price_scount.Base.{
  ℕ, ◌+◌, String, Bool, true, false, not, ◌&&◌, ◌||◌, Option, none, some, List, ◌==◌, exists, find,
  update, try_update, insert_by, if◌then◌else◌, max_int64, Tx, pure, modify, ok, err, ◌>>=◌, ◌>>◌,
  not_found, database,
}
use price_scount.Base.Int.{Float64, float_eq, is_nan}
use price_scount.Env.{Env, Uuid}
use price_scount.Gateway.Db.{Db, calm, Subscription, find_subscription, read_uuid}
use price_scount.Gateway.Monitoring.{owned_by, lock_product, bump}

-- bigint + 1 in SQL, which fails where Go would wrap.
abbrev pub sql_incr : ℕ → Option ℕ
sql_incr v = if v == max_int64 then none else some (v + 1)

-- x = y of two numerics, where NaN equals itself.
abbrev pub numeric_eq : Float64 → Float64 → Bool
numeric_eq x y = (is_nan x && is_nan y) || float_eq x y

-- stored IS DISTINCT FROM x.
abbrev pub is_distinct : Option Float64 → Float64 → Bool
is_distinct none x = true
is_distinct (some y) x = not (numeric_eq y x)

-- oldMin == nil || *oldMin != minPrice.
abbrev pub differs : Option Float64 → Float64 → Bool
differs none x = true
differs (some y) x = not (float_eq y x)

-- The operation of mutateSubscription, with the prices of "thresholds".
pub data Mutation : Type 0 where
  pause resume delete : Mutation
  thresholds : Float64 → Float64 → Mutation

abbrev pub is_delete : Mutation → Bool
is_delete delete = true
is_delete _ = false

module _ (env : Env) (now : ℕ) where
  -- The row that the "thresholds" UPDATE writes; `none` when a column refuses a value.
  unfoldable pub with_thresholds : Float64 → Float64 → Subscription → Option Subscription
  with_thresholds min max s = elim (env.numeric min) [
    | none ↦ none
    | some low ↦ elim (env.numeric max) [
      | none ↦ none
      | some high ↦ elim (sql_incr s.alert_version) [
        | none ↦ none
        | some v ↦ some (record s {
          min_price = some low;
          max_price = some high;
          alert_state = calm;
          alert_version = v;
        })
      ]
    ]
  ]

  abbrev pub set_subscriptions : List Subscription → Db → Db
  set_subscriptions rows db = record db { subscriptions = rows }

  -- The switch of mutateSubscription; false for the delete of an inactive row, which ends the call.
  unfoldable pub apply_mutation : Uuid → Uuid → Mutation → Tx Db Bool
  apply_mutation id user pause db = ok (
    true,
    set_subscriptions
        (update (λ s. owned_by id user s && s.active) (λ s. record s { paused = true })
          db.subscriptions)
        db,
  )
  apply_mutation id user resume db = ok (
    true,
    set_subscriptions
        (update (λ s. owned_by id user s && s.active) (λ s. record s { paused = false })
          db.subscriptions)
        db,
  )
  apply_mutation id user (thresholds min max) db =
      elim (try_update
        (λ s. owned_by id user s && (is_distinct s.min_price min || is_distinct s.max_price max))
        (with_thresholds min max) db.subscriptions) [
          | none ↦ err database
          | some rows ↦ ok (true, set_subscriptions rows db)
        ]
  apply_mutation id user delete db = elim (find_subscription id db.subscriptions) [
    | none ↦ err not_found
    | some s ↦
        if not (s.user_id == user)
        then err not_found
        else if not s.active
        then ok (false, db)
        else ok (
          true,
          set_subscriptions
              (update (λ x. x.id == id) (λ x. record x { active = false }) db.subscriptions) db,
        )
  ]

  -- One read of the row with the test that every operation but "delete" needs it active.
  unfoldable pub read_owned : Uuid → Uuid → Mutation → Tx Db Subscription
  read_owned id user op db = elim (find (owned_by id user) db.subscriptions) [
    | none ↦ err not_found
    | some s ↦ if not (is_delete op) && not s.active then err not_found else ok (s, db)
  ]

  unfoldable pub mutate_subscription : String → Uuid → Mutation → Tx Db (Unit {0})
  mutate_subscription sub_id user op = do
    id ← read_uuid env sub_id
    s ← read_owned id user op
    p ← lock_product env now s.product_id
    again ← read_owned id user op
    changed ← apply_mutation id user op
    if changed then modify (bump env now p) else pure tt

  -- The row that a new subscription inserts.
  unfoldable pub new_subscription : Uuid → Uuid → Uuid → Float64 → Float64 → Option Subscription
  new_subscription id user product min max = elim (env.numeric min) [
    | none ↦ none
    | some low ↦ elim (env.numeric max) [
      | none ↦ none
      | some high ↦ some (record {
        id = id;
        user_id = user;
        product_id = product;
        min_price = some low;
        max_price = some high;
        paused = false;
        active = true;
        alert_state = calm;
        alert_version = 0;
      })
    ]
  ]

  abbrev pub resets_alert : Subscription → Float64 → Float64 → Bool
  resets_alert s min max = not s.active || differs s.min_price min || differs s.max_price max

  -- The row that an existing subscription becomes.
  unfoldable pub renewed : Float64 → Float64 → Bool → Subscription → Option Subscription
  renewed min max reset s = elim (env.numeric min) [
    | none ↦ none
    | some low ↦ elim (env.numeric max) [
      | none ↦ none
      | some high ↦ elim (if reset then sql_incr s.alert_version else some s.alert_version) [
        | none ↦ none
        | some v ↦ some (record s {
          min_price = some low;
          max_price = some high;
          paused = false;
          active = true;
          alert_state = if reset then calm else s.alert_state;
          alert_version = v;
        })
      ]
    ]
  ]

  abbrev pub of_pair : Uuid → Uuid → Subscription → Bool
  of_pair user product s = s.user_id == user && s.product_id == product

  -- The INSERT or the UPDATE of CreateSubscription: the id, and whether the state changed.
  unfoldable pub upsert_subscription : Uuid → Uuid → Uuid → Float64 → Float64 → Tx Db (Uuid × Bool)
  upsert_subscription new_id user product min max db =
      elim (find (of_pair user product) db.subscriptions) [
        | none ↦ elim (new_subscription new_id user product min max) [
          | none ↦ err database
          | some s ↦
              if exists (λ x. x.id == new_id) db.subscriptions
              then err database
              else ok
                  ((new_id, true), set_subscriptions (insert_by (λ x. x.id) s db.subscriptions) db)
        ]
        | some s ↦
            let reset = resets_alert s min max in
            elim (try_update (λ x. x.id == s.id) (renewed min max reset) db.subscriptions) [
              | none ↦ err database
              | some rows ↦ ok ((s.id, reset || s.paused), set_subscriptions rows db)
            ]
      ]

  unfoldable pub create_subscription : Uuid → Uuid → Uuid → Float64 → Float64 → Tx Db Uuid
  create_subscription new_id user product min max = do
    p ← lock_product env now product
    made ← upsert_subscription new_id user product min max
    (if made.1 then modify (bump env now p) else pure tt)
    pure made.0
