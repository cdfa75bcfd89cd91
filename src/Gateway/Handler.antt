-- ===== src/Gateway/Handler.antt =====
-- services/gateway/internal/handler/handler.go: the routes. A request is what gin binds, `none` when
-- binding fails; each store call is a transaction of its own, and no other runs in between.
pub mod Effects
use price_scount.Base.{
  ℕ, String, Bool, true, false, not, ◌&&◌, ◌||◌, Option, none, some, List, [], ◌∷◌, ◌==◌, str_eq,
  leb, if◌then◌else◌, Tx, ok, err, Fault, not_found, invalid_result, invalid_request, database,
}
use price_scount.Base.Int.{Float64, float_lt, float_le, float_zero}
use price_scount.Env.{Env, Uuid}
use price_scount.Platform.{detect, normalize_wb}
use price_scount.Gateway.Db.{Db, LookupStatus, pending, done, failed}
use price_scount.Gateway.Monitoring.{create_lookup, queue_force}
use price_scount.Gateway.Subscriptions.{
  Mutation, pause, resume, delete, thresholds, mutate_subscription, create_subscription,
}
use price_scount.Gateway.Store.{
  LookupResult, HistoryPoint, get_lookup, pending_lookup_count, upsert_user, user_id_by_chat_id,
  ensure_product, get_subscription, price_history,
}

-- The JSON of a response, by its fields.
pub data Body : Type 0 where
  nothing status_pending scheduled : Body
  failure : String → Body
  lookup_id : String → Body
  status_done : String → Float64 → String → Body
  status_failed : String → Body
  subscription : String → String → Body
  history : List HistoryPoint → Body

pub record Response : Type 0 where
  pub status : ℕ
  pub body : Body

abbrev pub failing : ℕ → String → Response
failing code message = record { status = code; body = failure message }

abbrev pub internal_error : Response
internal_error = failing 500 "internal error"

abbrev pub no_subscription : Response
no_subscription = failing 404 "subscription not found"

abbrev pub no_content : Response
no_content = record { status = 204; body = nothing }

-- An error of an operation on a subscription.
abbrev pub subscription_fault : Fault → Response
subscription_fault not_found = no_subscription
subscription_fault invalid_result = internal_error
subscription_fault invalid_request = internal_error
subscription_fault database = internal_error

abbrev pub any_fault : Fault → Response
any_fault e = internal_error

-- A store call: its error as a response, or what follows.
abbrev pub call :
    {A : Type 0} → Tx Db A → (Fault → Response) → (A → Db → Response × Db) → Db → Response × Db
call m fault next db = elim (m db) [ err e ↦ (fault e, db) | ok (a, db') ↦ next a db' ]

abbrev pub finish : {A : Type 0} → Response → A → Db → Response × Db
finish r a db = (r, db)

abbrev pub max_pending_lookups : ℕ
max_pending_lookups = 25

abbrev pub normalize_url : String → String → Option String
normalize_url plat url = if str_eq plat "wb" then normalize_wb url else none

pub record SubscriptionRequest : Type 0 where
  pub chat_id : ℕ
  pub lookup_id : String
  pub min_price : Float64
  pub max_price : Float64

pub record PatchRequest : Type 0 where
  pub chat_id : ℕ
  pub action : String
  pub min_price : Option Float64
  pub max_price : Option Float64

-- req.MinPrice < 0 || req.MaxPrice <= req.MinPrice.
abbrev pub bad_prices : Float64 → Float64 → Bool
bad_prices min max = float_lt min float_zero || float_le max min

abbrev pub price_message : String
price_message = "prices must be non-negative and max_price greater than min_price"

module _ (env : Env) (now : ℕ) where
  -- The part of postLookup behind the checks of the URL.
  unfoldable pub accept_lookup : Uuid → String → String → Db → Response × Db
  accept_lookup id task_id url =
      call (create_lookup env now id url task_id) any_fault
        (finish (record { status = 202; body = lookup_id (env.uuid_string id) }))

  unfoldable pub post_lookup : Uuid → String → Option String → Db → Response × Db
  post_lookup id task_id none db = (failing 400 "url is required", db)
  post_lookup id task_id (some url) db =
      if leb max_pending_lookups (pending_lookup_count db)
      then (failing 429 "too many lookups in progress, try again later", db)
      else elim (detect url) [
        | none ↦ (failing 400 "unsupported platform: must be wildberries.ru", db)
        | some plat ↦ elim (normalize_url plat url) [
          | none ↦ (failing 400 "cannot parse product url", db)
          | some normal ↦ accept_lookup id task_id normal db
        ]
      ]

  abbrev pub lookup_response : LookupStatus → LookupResult → Response
  lookup_response pending r = record { status = 202; body = status_pending }
  lookup_response done r = record { status = 200; body = status_done r.name r.price r.url }
  lookup_response failed r = record { status = 200; body = status_failed r.error }

  abbrev pub lookup_fault : Fault → Response
  lookup_fault not_found = failing 404 "lookup not found"
  lookup_fault invalid_result = internal_error
  lookup_fault invalid_request = internal_error
  lookup_fault database = internal_error

  unfoldable pub get_lookup_route : String → Db → Response × Db
  get_lookup_route id =
      call (get_lookup env now id) lookup_fault (λ r db. (lookup_response r.status r, db))

  abbrev pub unfinished_fault : Fault → Response
  unfinished_fault not_found = failing 400 "lookup not found or not completed"
  unfinished_fault invalid_result = internal_error
  unfinished_fault invalid_request = internal_error
  unfinished_fault database = internal_error

  abbrev pub or_no_platform : Option String → String
  or_no_platform none = ""
  or_no_platform (some p) = p

  -- postSubscription behind a lookup that is done; the three ids are drawn for new rows.
  unfoldable pub subscribe :
      Uuid → Uuid → Uuid → SubscriptionRequest → LookupResult → Db → Response × Db
  subscribe new_user candidate new_sub r lookup =
      call (upsert_user env now new_user r.chat_id) any_fault (λ user.
        call
          (ensure_product env now candidate lookup.name lookup.url
            (or_no_platform (detect lookup.url)))
          any_fault
          (λ product.
            call (create_subscription env now new_sub user product r.min_price r.max_price)
              any_fault
              (λ sub.
                finish
                  (record {
                    status = 200;
                    body = subscription (env.uuid_string sub) (env.uuid_string product);
                  })
                  sub)))

  abbrev pub subscribe_done :
      Uuid → Uuid → Uuid → SubscriptionRequest → LookupStatus → LookupResult → Db → Response × Db
  subscribe_done a b c r done l db = subscribe a b c r l db
  subscribe_done a b c r pending l db = (failing 400 "lookup not found or not completed", db)
  subscribe_done a b c r failed l db = (failing 400 "lookup not found or not completed", db)

  unfoldable pub post_subscription :
      Uuid → Uuid → Uuid → Option SubscriptionRequest → Db → Response × Db
  post_subscription new_user candidate new_sub none db =
      (failing 400 "chat_id and lookup_id are required", db)
  post_subscription new_user candidate new_sub (some r) db =
      if bad_prices r.min_price r.max_price
      then (failing 400 price_message, db)
      else call (get_lookup env now r.lookup_id) unfinished_fault
          (λ l. subscribe_done new_user candidate new_sub r l.status l) db

  -- userIDOr404, and what follows it.
  unfoldable pub with_user : ℕ → (Uuid → Db → Response × Db) → Db → Response × Db
  with_user chat next = call (user_id_by_chat_id env now chat) subscription_fault next

  unfoldable pub mutate_route : String → Uuid → Mutation → Db → Response × Db
  mutate_route sub_id user op =
      call (mutate_subscription env now sub_id user op) subscription_fault (finish no_content)

  abbrev pub edit_route : String → Uuid → Option Float64 → Option Float64 → Db → Response × Db
  edit_route sub_id user (some min) (some max) db =
      if bad_prices min max
      then (failing 400 price_message, db)
      else mutate_route sub_id user (thresholds min max) db
  edit_route sub_id user none max db =
      (failing 400 "min_price and max_price are required for edit", db)
  edit_route sub_id user (some min) none db =
      (failing 400 "min_price and max_price are required for edit", db)

  unfoldable pub patch_action : String → PatchRequest → Uuid → Db → Response × Db
  patch_action sub_id r user db =
      if str_eq r.action "pause"
      then mutate_route sub_id user pause db
      else if str_eq r.action "resume"
      then mutate_route sub_id user resume db
      else if str_eq r.action "edit"
      then edit_route sub_id user r.min_price r.max_price db
      else (failing 400 "action must be pause, resume, or edit", db)

  unfoldable pub patch_subscription : String → Option PatchRequest → Db → Response × Db
  patch_subscription sub_id none db = (failing 400 "chat_id and action are required", db)
  patch_subscription sub_id (some r) db = with_user r.chat_id (patch_action sub_id r) db

  unfoldable pub delete_subscription : String → Option ℕ → Db → Response × Db
  delete_subscription sub_id none db = (failing 400 "chat_id is required", db)
  delete_subscription sub_id (some chat) db =
      with_user chat (λ user. mutate_route sub_id user delete) db

  -- getHistory; the chat is what strconv.ParseInt reads.
  unfoldable pub get_history : String → Option ℕ → Db → Response × Db
  get_history sub_id none db = (failing 400 "invalid chat_id", db)
  get_history sub_id (some chat) db =
      if chat == 0
      then (failing 400 "invalid chat_id", db)
      else with_user chat
          (λ user. call (get_subscription env now sub_id user) subscription_fault (λ product.
            call (price_history env now product 50) any_fault
              (λ points. finish (record { status = 200; body = history points }) points)))
          db

  -- postCheck; the task is the UUID that QueueForce draws.
  unfoldable pub post_check : Uuid → String → Option ℕ → Db → Response × Db
  post_check task sub_id none db = (failing 400 "chat_id is required", db)
  post_check task sub_id (some chat) db =
      with_user chat
        (λ user.
          call (queue_force env now task sub_id user chat) subscription_fault
            (finish (record { status = 202; body = scheduled })))
        db
