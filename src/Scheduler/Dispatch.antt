-- ===== src/Scheduler/Dispatch.antt =====
-- services/scheduler/internal/store/dispatch.go: EnqueueDue, the periodic checks.
pub mod Exact
pub mod Drained
use price_scount.Base.{
  ℕ, ◌+◌, ◌*◌, String, Bool, false, ◌&&◌, ◌||◌, List, [], ◌∷◌, ◌++◌, ◌==◌, ltb, leb, length, take,
  select, update, if◌then◌else◌, Tx, pure, ok, err, ◌>>=◌, ◌>>◌, database,
}
use price_scount.Env.{Env, Uuid}
use price_scount.Contracts.{ScraperTask, scraper_task, queue_scraper_tasks}
use price_scount.Outbox.Table.{Row, EventKey, has_key, new_row}
use price_scount.Scheduler.Db.{ScheduledUrl, SchedulerDb}

abbrev pub due_batch_size : ℕ
due_batch_size = 100

abbrev pub hour : ℕ
hour = 3600000000

-- WHERE active AND next_check_at<=NOW().
abbrev pub is_due : ℕ → ScheduledUrl → Bool
is_due now u = u.active && leb u.next_check_at now

-- ORDER BY next_check_at,id.
abbrev pub comes_before : ScheduledUrl → ScheduledUrl → Bool
comes_before u v =
    ltb u.next_check_at v.next_check_at || (u.next_check_at == v.next_check_at && ltb u.id v.id)

abbrev pub insert_due : ScheduledUrl → List ScheduledUrl → List ScheduledUrl
insert_due u [] = u ∷ []
insert_due u (v ∷ rest) = if comes_before u v then u ∷ v ∷ rest else v ∷ insert_due u rest

abbrev pub sort_due : List ScheduledUrl → List ScheduledUrl
sort_due [] = []
sort_due (u ∷ rest) = insert_due u (sort_due rest)

-- The rows of one tick, at most 100 of them.
unfoldable pub due_batch : ℕ → List ScheduledUrl → List ScheduledUrl
due_batch now rows = take due_batch_size (sort_due (select (is_due now) rows))

-- The next check is the row's interval after this one.
abbrev pub advance : ℕ → ScheduledUrl → ScheduledUrl
advance now u = record u { next_check_at = now + u.check_interval_hours * hour }

-- `draw` gives the UUID that is drawn for the task of a row.
module _ (env : Env) (now : ℕ) (draw : Uuid → String) where
  abbrev pub due_task : ScheduledUrl → ScraperTask
  due_task u = record {
    task_id = draw u.id;
    product_id = env.uuid_string u.product_id;
    url = u.url;
    platform = u.platform;
    scheduled_at = now;
    force = false;
    chat_id = 0;
  }

  abbrev pub due_row : ScheduledUrl → Row
  due_row u =
      new_row now (EventKey.periodic (draw u.id)) queue_scraper_tasks (scraper_task (due_task u))

  -- The body of the loop: one event and the next check of its row. A taken key is an error.
  unfoldable pub enqueue_one : ScheduledUrl → Tx SchedulerDb (Unit {0})
  enqueue_one u db =
      if has_key (EventKey.periodic (draw u.id)) db.outbox
      then err database
      else ok (
        tt,
        record db {
          scheduled_urls = update (λ x. x.id == u.id) (advance now) db.scheduled_urls;
          outbox = db.outbox ++ due_row u ∷ [];
        },
      )

  unfoldable pub enqueue_all : List ScheduledUrl → Tx SchedulerDb (Unit {0})
  enqueue_all [] = pure tt
  enqueue_all (u ∷ rest) = enqueue_one u >> enqueue_all rest

  -- EnqueueDue: the number of tasks.
  unfoldable pub enqueue_due : Tx SchedulerDb ℕ
  enqueue_due db =
      let batch = due_batch now db.scheduled_urls in (enqueue_all batch >> pure (length batch)) db
