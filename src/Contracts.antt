-- ===== src/Contracts.antt =====
-- shared/pkg/contracts/messages.go: the messages of the queues. An int64 is its 64-bit pattern, a
-- time.Time counts microseconds (the resolution of the database) and zero is Go's zero time.
use price_scount.Base.{ℕ, String, Bool}
use price_scount.Base.Int.{Float64}

pub record LookupTask : Type 0 where
  pub task_id : String
  pub lookup_id : String
  pub url : String
  pub platform : String

pub record ScraperTask : Type 0 where
  pub task_id : String
  pub product_id : String
  pub url : String
  pub platform : String
  pub scheduled_at : ℕ
  pub force : Bool
  pub chat_id : ℕ

pub record PriceResult : Type 0 where
  pub task_id : String
  pub lookup_id : String
  pub product_id : String
  pub url : String
  pub name : String
  pub price : Float64
  pub currency : String
  pub scraped_at : ℕ
  pub success : Bool
  pub error : String
  pub force : Bool
  pub chat_id : ℕ

pub record TrackRequest : Type 0 where
  pub task_id : String
  pub action : String
  pub version : ℕ
  pub active : Bool
  pub product_id : String
  pub url : String
  pub platform : String
  pub interval_hours : ℕ
  pub chat_id : ℕ

pub record NotifyTask : Type 0 where
  pub task_id : String
  pub channel : String
  pub target : String
  pub text : String
  pub direction : String
  pub not_before : ℕ

-- What an outbox row or a queue carries; its JSON text is left to encoding/json.
pub data Payload : Type 0 where
  lookup_task : LookupTask → Payload
  scraper_task : ScraperTask → Payload
  price_result : PriceResult → Payload
  track_request : TrackRequest → Payload
  notify_task : NotifyTask → Payload

-- The queue names of shared/pkg/broker/rabbitmq.go.
abbrev pub queue_lookup_tasks : String
queue_lookup_tasks = "lookup.tasks"

abbrev pub queue_scraper_tasks : String
queue_scraper_tasks = "scraper.tasks"

abbrev pub queue_price_results : String
queue_price_results = "price.results"

abbrev pub queue_track_requests : String
queue_track_requests = "track.requests"

abbrev pub queue_notify_tasks : String
queue_notify_tasks = "notify.tasks"

abbrev pub queue_notify_retry : String
queue_notify_retry = "notify.retry"

abbrev pub queue_notify_dead : String
queue_notify_dead = "notify.dead"
