-- ===== src/Scheduler/Db.antt =====
-- The scheduler's tables (migrations/init.sql) and the identity check of its store.
use price_scount.Base.{
  ℕ, String, Bool, false, not, ◌&&◌, ◌||◌, none, some, List, str_eq, if◌then◌else◌,
}
use price_scount.Env.{Env, Uuid}
use price_scount.Outbox.Table.{Row}
use price_scount.Platform.{normalize_wb}

pub record ScheduledUrl : Type 0 where
  pub id : Uuid
  pub product_id : Uuid
  pub url : String
  pub platform : String
  pub next_check_at : ℕ
  pub check_interval_hours : ℕ
  pub active : Bool
  pub monitor_version : ℕ

pub record ForceCommand : Type 0 where
  pub task_id : Uuid
  pub product_id : Uuid

pub record SchedulerDb : Type 0 where
  pub scheduled_urls : List ScheduledUrl
  pub processed_force : List ForceCommand
  pub outbox : List Row

abbrev pub is_normal : String → Bool
is_normal url = elim (normalize_wb url) [ none ↦ false | some t ↦ str_eq t url ]

-- validWBIdentity.
unfoldable pub valid_wb_identity : Env → String → String → Bool
valid_wb_identity env url platform = elim (env.url_parse url) [
  | none ↦ false
  | some u ↦
      if not (str_eq platform "wb")
        || not (str_eq u.scheme "https")
        || (not (str_eq u.host "www.wildberries.ru") && not (str_eq u.host "wildberries.ru"))
      then false
      else is_normal url
]
