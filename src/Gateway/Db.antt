-- ===== src/Gateway/Db.antt =====
-- The gateway's tables (migrations/init.sql) and the reads and writes that its store shares.
use price_scount.Base.{ℕ, String, Bool, Option, List, ◌==◌, find, Tx, or_raise, modify, database}
use price_scount.Base.Int.{Float64}
use price_scount.Env.{Env, Uuid}
use price_scount.Contracts.{Payload}
use price_scount.Outbox.Table.{Row, EventKey, insert_event}

pub record User : Type 0 where
  pub id : Uuid
  pub chat_id : ℕ

pub record Product : Type 0 where
  pub id : Uuid
  pub name : String
  pub url : String
  pub platform : String
  pub monitor_version : ℕ
  pub latest_result_at : Option ℕ

-- The alert_state column: '' , 'up' or 'down'.
pub data AlertState : Type 0 where
  calm up down : AlertState

-- The Go string that stands for an alert state.
abbrev pub state_text : AlertState → String
state_text calm = ""
state_text up = "up"
state_text down = "down"

abbrev pub state_eq : AlertState → AlertState → Bool
state_eq calm calm = Bool.true
state_eq up up = Bool.true
state_eq down down = Bool.true
state_eq _ _ = Bool.false

pub record Subscription : Type 0 where
  pub id : Uuid
  pub user_id : Uuid
  pub product_id : Uuid
  pub min_price : Option Float64
  pub max_price : Option Float64
  pub paused : Bool
  pub active : Bool
  pub alert_state : AlertState
  pub alert_version : ℕ

pub record PricePoint : Type 0 where
  pub product_id : Uuid
  pub price : Float64
  pub currency : String
  pub scraped_at : ℕ
  pub task_id : Uuid

pub record ForceRequest : Type 0 where
  pub task_id : Uuid
  pub product_id : Uuid
  pub user_id : Uuid
  pub chat_id : ℕ

pub data LookupStatus : Type 0 where
  pending done failed : LookupStatus

pub record Lookup : Type 0 where
  pub id : Uuid
  pub url : String
  pub status : LookupStatus
  pub name : Option String
  pub price : Option Float64
  pub error : Option String
  pub expires_at : ℕ

-- Products and subscriptions stand in the order of their ids, the other tables in the order of
-- insertion.
pub record Db : Type 0 where
  pub users : List User
  pub products : List Product
  pub subscriptions : List Subscription
  pub price_history : List PricePoint
  pub processed : List Uuid
  pub force_requests : List ForceRequest
  pub lookups : List Lookup
  pub outbox : List Row

abbrev pub find_product : Uuid → List Product → Option Product
find_product id rows = find (λ p. p.id == id) rows

abbrev pub find_subscription : Uuid → List Subscription → Option Subscription
find_subscription id rows = find (λ s. s.id == id) rows

-- A text parameter of a UUID column; the statement fails on a text that is none.
unfoldable pub read_uuid : Env → String → Tx Db Uuid
read_uuid env s = or_raise database (env.pg_uuid s)

-- enqueue of internal/store/outbox.go: one event in the caller's transaction, once per key.
unfoldable pub enqueue : ℕ → EventKey → String → Payload → Tx Db (Unit {0})
enqueue now k queue payload =
    modify (λ db. record db { outbox = insert_event now k queue payload db.outbox })
