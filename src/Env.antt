-- ===== src/Env.antt =====
-- What the services use and this repository does not contain: google/uuid, PostgreSQL and the
-- float formatting of fmt. Every definition that needs one of them takes an `Env`.
use price_scount.Base.{ℕ, String, Option}
use price_scount.Base.Int.{Float64}

-- A UUID column holds a 128-bit number.
abbrev pub Uuid : Type 0
Uuid = ℕ

-- What net/url reads of an address.
pub record Url : Type 0 where
  pub scheme : String
  pub host : String

pub record Env : Type 0 where
  -- uuid.Parse, with its error as `none`
  pub uuid_parse : String → Option Uuid
  -- how PostgreSQL reads a text parameter of a UUID column
  pub pg_uuid : String → Option Uuid
  -- the canonical text of a UUID
  pub uuid_string : Uuid → String
  -- uuid.NewString() for the event of a task, a subscription and its alert version
  pub new_task_id : ℕ → ℕ → String
  -- a float64 stored in a NUMERIC(12,2) column and read back; `none` when the column refuses it
  pub numeric : Float64 → Option Float64
  -- url.Parse, with its error as `none`
  pub url_parse : String → Option Url
  -- fmt's %.0f
  pub format_price : Float64 → String
