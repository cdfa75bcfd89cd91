-- ===== src/Gateway/Handler/Effects.antt =====
-- What the routes change, and what they tell about chats.
use price_scount.Base.{
  ℕ, ◌≤◌, ◌<◌, String, false, Option, none, some, [], ◌∷◌, ◌≡◌, ◌==◌, arith, find, leb,
  Result-cases, Option-cases, Bool-cases, inl, inr, count_if-append, exists, suc, str_eq,
}
use price_scount.Base.Int.{Float64}
use price_scount.Env.{Env, Uuid}
use price_scount.Gateway.Db.{Db, enqueue}
use price_scount.Gateway.Alerts.Exact.{Distinct}
use price_scount.Gateway.Monitoring.{create_lookup, new_lookup}
use price_scount.Gateway.Monitoring.Sync.{InSync}
use price_scount.Gateway.Subscriptions.{
  Mutation, pause, resume, delete, thresholds, mutate_subscription,
}
use price_scount.Gateway.Subscriptions.Sync.{HasRoom, mutate_subscription-InSync}
use price_scount.Gateway.Store.{user_id_by_chat_id, pending_lookup_count, is_pending}
use price_scount.Gateway.Handler.{
  PatchRequest, bad_prices, no_subscription, post_lookup, accept_lookup, mutate_route, edit_route,
  patch_action, patch_subscription, delete_subscription, get_history, post_check, with_user,
  normalize_url,
}
use price_scount.Platform.{detect}

module _ (env : Env) (now : ℕ) where
  -- A chat other than 0 without a user gets the same answer, 404 "subscription not found", from PATCH,
  -- DELETE, the history and the check of every subscription, and the database stays as it is.
  pub unknown_chat :
      (sub_id : String) (task : Uuid) (r : PatchRequest) (db : Db)
      → find (λ u. u.chat_id == r.chat_id) db.users ≡ none
      → (r.chat_id == 0) ≡ false
      → (patch_subscription env now sub_id (some r) db ≡ (no_subscription, db))
        × (delete_subscription env now sub_id (some r.chat_id) db ≡ (no_subscription, db))
        × (get_history env now sub_id (some r.chat_id) db ≡ (no_subscription, db))
        × (post_check env now task sub_id (some r.chat_id) db ≡ (no_subscription, db))
  unfolding patch_subscription delete_subscription get_history post_check with_user
      user_id_by_chat_id
  unknown_chat sub_id task r db missing named =
      (ground arith, ground arith, ground arith, ground arith)

  -- What a mutation of the store leaves, by its route.
  mutate_route-InSync :
      (sub_id : String) (user : Uuid) (op : Mutation) (db : Db)
      → InSync db
      → HasRoom db
      → Distinct db.subscriptions
      → InSync (mutate_route env now sub_id user op db).1
  mutate_route-InSync sub_id user op db sync room d =
      elim (Result-cases (mutate_subscription env now sub_id user op db)) [
        | inr (e, failed) ↦
            let kept : (mutate_route env now sub_id user op db).1 ≡ db =
              unfold mutate_route in ground (arith, failed) in
            rw kept sync
        | inl ((t, db'), done) ↦
            let moved : (mutate_route env now sub_id user op db).1 ≡ db' =
              unfold mutate_route in ground (arith, done) in
            rw moved (mutate_subscription-InSync env now sub_id user op db db' sync room d done)
      ]

  edit_route-InSync :
      (sub_id : String) (user : Uuid) (min max : Option Float64) (db : Db)
      → InSync db
      → HasRoom db
      → Distinct db.subscriptions
      → InSync (edit_route env now sub_id user min max db).1
  edit_route-InSync sub_id user none max db sync room d = sync
  edit_route-InSync sub_id user (some min) none db sync room d = sync
  edit_route-InSync sub_id user (some min) (some max) db sync room d =
      elim (Bool-cases (bad_prices min max)) [
        | inl bad ↦ rw bad sync
        | inr good ↦ rw good (mutate_route-InSync sub_id user (thresholds min max) db sync room d)
      ]

  patch_action-InSync :
      (sub_id : String) (r : PatchRequest) (user : Uuid) (db : Db)
      → InSync db
      → HasRoom db
      → Distinct db.subscriptions
      → InSync (patch_action env now sub_id r user db).1
  unfolding patch_action
  patch_action-InSync sub_id r user db sync room d = elim (Bool-cases (str_eq r.action "pause")) [
    | inl stop ↦ rw stop (mutate_route-InSync sub_id user pause db sync room d)
    | inr on ↦ elim (Bool-cases (str_eq r.action "resume")) [
      | inl start ↦ rw (on, start) (mutate_route-InSync sub_id user resume db sync room d)
      | inr other ↦ elim (Bool-cases (str_eq r.action "edit")) [
        | inl edit ↦
            rw (on, other, edit)
              (edit_route-InSync sub_id user r.min_price r.max_price db sync room d)
        | inr unknown ↦ rw (on, other, unknown) sync
      ]
    ]
  ]

  -- From a database in step, where ids are distinct and no version is at the largest int64, every
  -- PATCH and DELETE of a subscription, answered with whatever status, leaves every product in step.
  pub change-InSync :
      (sub_id : String) (r : PatchRequest) (db : Db)
      → InSync db
      → HasRoom db
      → Distinct db.subscriptions
      → InSync (patch_subscription env now sub_id (some r) db).1
        × InSync (delete_subscription env now sub_id (some r.chat_id) db).1
  change-InSync sub_id r db sync room d =
      elim (Option-cases (find (λ u. u.chat_id == r.chat_id) db.users)) [
        | inl unknown ↦
            let patched : (patch_subscription env now sub_id (some r) db).1 ≡ db =
              unfold patch_subscription with_user user_id_by_chat_id in ground (arith, unknown) in
            let deleted : (delete_subscription env now sub_id (some r.chat_id) db).1 ≡ db =
              unfold delete_subscription with_user user_id_by_chat_id in ground (arith, unknown) in
            (rw patched sync, rw deleted sync)
        | inr (u, known) ↦
            let patched : (patch_subscription env now sub_id (some r) db).1
                ≡ (patch_action env now sub_id r u.id db).1 =
              unfold patch_subscription with_user user_id_by_chat_id in ground (arith, known) in
            let deleted : (delete_subscription env now sub_id (some r.chat_id) db).1
                ≡ (mutate_route env now sub_id u.id delete db).1 =
              unfold delete_subscription with_user user_id_by_chat_id in ground (arith, known) in
            (
              rw patched (patch_action-InSync sub_id r u.id db sync room d),
              rw deleted (mutate_route-InSync sub_id u.id delete db sync room d),
            )
      ]

  accept_lookup-count :
      (id : Uuid) (task_id url : String) (db : Db)
      → pending_lookup_count (accept_lookup env now id task_id url db).1
        ≤ suc (pending_lookup_count db)
  unfolding accept_lookup create_lookup enqueue pending_lookup_count
  accept_lookup-count id task_id url db = elim (Bool-cases (exists (λ l. l.id == id) db.lookups)) [
    | inl taken ↦ ground (arith, taken)
    | inr free ↦ ground (
      arith,
      free,
      count_if-append (λ l. is_pending l.status) db.lookups (new_lookup env now id url ∷ []),
    )
  ]

  -- A request for a lookup never raises the number of pending lookups above 25.
  pub post_lookup-bound :
      (id : Uuid) (task_id : String) (url : Option String) (db : Db)
      → pending_lookup_count db ≤ 25
      → pending_lookup_count (post_lookup env now id task_id url db).1 ≤ 25
  post_lookup-bound id task_id none db h = unfold post_lookup in h
  post_lookup-bound id task_id (some url) db h =
      elim (Bool-cases (leb 25 (pending_lookup_count db))) [
        | inl full ↦ unfold post_lookup in ground (arith, full, h)
        | inr room ↦ elim (Option-cases (detect url)) [
          | inl unsupported ↦ unfold post_lookup in ground (arith, room, unsupported, h)
          | inr (plat, found) ↦ elim (Option-cases (normalize_url plat url)) [
            | inl unparsed ↦ unfold post_lookup in ground (arith, room, found, unparsed, h)
            | inr (normal, parsed) ↦
                let run : (post_lookup env now id task_id (some url) db).1
                    ≡ (accept_lookup env now id task_id normal db).1 =
                  unfold post_lookup in ground (arith, room, found, parsed) in
                let one = accept_lookup-count id task_id normal db in
                let space : pending_lookup_count db < 25 = ground (arith, room) in
                rw run (omega (arith, one, space))
          ]
        ]
      ]
