-- ===== src/Scheduler/Force.antt =====
-- services/scheduler/internal/store/dispatch.go: EnqueueForce, the checks that a user asks for.
pub mod Once
use price_scount.Base.{
  ℕ, String, Bool, true, false, not, ◌&&◌, ◌||◌, none, some, [], ◌∷◌, ◌++◌, ◌==◌, str_eq, exists,
  find, if◌then◌else◌, Tx, raise, guard, or_raise, ok, err, ◌>>=◌, ◌>>◌, invalid_request, database,
}
use price_scount.Env.{Env, Uuid}
use price_scount.Contracts.{TrackRequest, ScraperTask, scraper_task, queue_scraper_tasks}
use price_scount.Outbox.Table.{Row, EventKey, has_key, new_row}
use price_scount.Scheduler.Db.{SchedulerDb, valid_wb_identity}
use price_scount.Scheduler.Snapshot.{moves_product}

module _ (env : Env) (now : ℕ) where
  -- The product of the URL's row differs from the request's.
  abbrev pub moves_url : Uuid → TrackRequest → SchedulerDb → Bool
  moves_url product r db = elim (find (λ u. str_eq u.url r.url) db.scheduled_urls) [
    | none ↦ false
    | some u ↦ not (u.product_id == product)
  ]

  abbrev pub force_task : Uuid → Uuid → TrackRequest → ScraperTask
  force_task task product r = record {
    task_id = env.uuid_string task;
    product_id = env.uuid_string product;
    url = r.url;
    platform = r.platform;
    scheduled_at = now;
    force = true;
    chat_id = r.chat_id;
  }

  abbrev pub force_row : Uuid → Uuid → TrackRequest → Row
  force_row task product r =
      new_row now (EventKey.force (env.uuid_string task)) queue_scraper_tasks
        (scraper_task (force_task task product r))

  -- The INSERT of the command, which ends the call when it was there, and the one of its event.
  unfoldable pub record_force : Uuid → Uuid → TrackRequest → Tx SchedulerDb (Unit {0})
  record_force task product r db =
      if exists (λ c. c.task_id == task) db.processed_force
      then ok (tt, db)
      else if has_key (EventKey.force (env.uuid_string task)) db.outbox
      then err database
      else ok (
        tt,
        record db {
          processed_force =
              db.processed_force ++ record { task_id = task; product_id = product } ∷ [];
          outbox = db.outbox ++ force_row task product r ∷ [];
        },
      )

  unfoldable pub write_force : Uuid → Uuid → TrackRequest → Tx SchedulerDb (Unit {0})
  write_force task product r db =
      if moves_product env now product r db || moves_url product r db
      then raise invalid_request db
      else record_force task product r db

  -- EnqueueForce.
  unfoldable pub enqueue_force : TrackRequest → Tx SchedulerDb (Unit {0})
  enqueue_force r = do
    guard
        (str_eq r.action "force"
          && not (str_eq r.product_id "")
          && valid_wb_identity env r.url r.platform)
        invalid_request
    product ← or_raise invalid_request (env.uuid_parse r.product_id)
    task ← or_raise invalid_request (env.uuid_parse r.task_id)
    write_force task product r
