-- ===== src/Tests/Dispatch.antt =====
-- Runs of the scheduler's store.
use price_scount.Base.{
  ℕ, String, ◌≤◌, true, false, some, [], ◌∷◌, ◌++◌, map, ◌≡◌, refl, arith, ok, settle, length, All,
  select,
}
use price_scount.Contracts.{TrackRequest}
use price_scount.Env.{Uuid}
use price_scount.Platform.{
  normalize_wb, normalize_wb-idempotent, find_product_id, match_here, strip_prefix, take_digits,
}
use price_scount.Scheduler.Db.{ScheduledUrl, SchedulerDb, valid_wb_identity}
use price_scount.Scheduler.Snapshot.{apply_snapshot, write_snapshot, upsert_url}
use price_scount.Scheduler.Snapshot.Order.{apply_snapshot-commute, find_url}
use price_scount.Scheduler.Snapshot.Latest.{apply_snapshot-Continues, Continues}
use price_scount.Scheduler.Dispatch.{
  enqueue_due, enqueue_all, enqueue_one, due_batch, due_row, is_due,
}
use price_scount.Scheduler.Dispatch.Exact.{enqueue_due-exact, advanced}
use price_scount.Scheduler.Dispatch.Drained.{enqueue_due-drained}
use price_scount.Scheduler.Force.{enqueue_force, write_force, record_force}
use price_scount.Scheduler.Force.Once.{enqueue_force-Done, Done}
use price_scount.Tests.Samples.{sample_env}

abbrev kettle_url : String
kettle_url = "https://www.wildberries.ru/catalog/1/detail.aspx"

normalize_wb-idempotent_example : normalize_wb kettle_url ≡ some kettle_url
unfolding normalize_wb find_product_id match_here strip_prefix take_digits
normalize_wb-idempotent_example =
    normalize_wb-idempotent "http://m.wildberries.ru/catalog/1/feedbacks?x=2" kettle_url refl

abbrev snapshot : ℕ → TrackRequest
snapshot version = record {
  task_id = "9";
  action = "set_state";
  version = version;
  active = true;
  product_id = "1";
  url = kettle_url;
  platform = "wb";
  interval_hours = 1;
  chat_id = 0;
}

abbrev newer : TrackRequest
newer = record (snapshot 3) { active = false }

abbrev scheduled : ScheduledUrl
scheduled = record {
  id = 4;
  product_id = 1;
  url = kettle_url;
  platform = "wb";
  next_check_at = 50;
  check_interval_hours = 1;
  active = true;
  monitor_version = 1;
}

abbrev schedule : SchedulerDb
schedule = record { scheduled_urls = scheduled ∷ []; processed_force = []; outbox = [] }

abbrev first_then : TrackRequest → SchedulerDb → SchedulerDb
first_then r db = (settle (apply_snapshot sample_env 100 7 r) db).1

apply_snapshot-commute_example :
    (mid' : SchedulerDb) × (apply_snapshot sample_env 100 7 newer schedule ≡ ok (tt, mid'))
    × (apply_snapshot sample_env 100 7 (snapshot 2) mid'
        ≡ ok (tt, first_then newer (first_then (snapshot 2) schedule)))
unfolding apply_snapshot write_snapshot upsert_url valid_wb_identity normalize_wb find_product_id
    match_here strip_prefix take_digits
apply_snapshot-commute_example =
    apply_snapshot-commute sample_env 100 7 (snapshot 2) newer schedule
      (first_then (snapshot 2) schedule) (first_then newer (first_then (snapshot 2) schedule))
      scheduled refl (ground arith) refl refl refl

apply_snapshot-Continues_example :
    (y : ScheduledUrl) × (find_url kettle_url (first_then newer schedule).scheduled_urls ≡ some y)
    × Continues scheduled y
unfolding apply_snapshot write_snapshot upsert_url valid_wb_identity normalize_wb find_product_id
    match_here strip_prefix take_digits
apply_snapshot-Continues_example =
    apply_snapshot-Continues sample_env 100 7 newer schedule (first_then newer schedule) kettle_url
      scheduled refl refl

abbrev draw : Uuid → String
draw id = "task"

abbrev ticked : SchedulerDb
ticked = (settle (enqueue_due sample_env 100 draw) schedule).1

enqueue_due-exact_example :
    (1 ≡ length (due_batch 100 schedule.scheduled_urls))
    × (1 ≤ 100)
    × All (λ u. is_due 100 u ≡ true) (due_batch 100 schedule.scheduled_urls)
    × (ticked.outbox
        ≡ [] ++ map (due_row sample_env 100 draw) (due_batch 100 schedule.scheduled_urls))
    × (ticked.scheduled_urls
        ≡ advanced 100 (due_batch 100 schedule.scheduled_urls) schedule.scheduled_urls)
    × (ticked.processed_force ≡ [])
unfolding enqueue_due enqueue_all enqueue_one due_batch
enqueue_due-exact_example = enqueue_due-exact sample_env 100 draw 1 schedule ticked refl

enqueue_due-drained_example : select (is_due 100) ticked.scheduled_urls ≡ []
unfolding enqueue_due enqueue_all enqueue_one due_batch
enqueue_due-drained_example =
    enqueue_due-drained sample_env 100 draw 1 schedule ticked (omega arith) (omega arith, tt) refl

abbrev force : TrackRequest
force = record (snapshot 0) { action = "force"; chat_id = 77 }

abbrev forced : SchedulerDb
forced = (settle (enqueue_force sample_env 100 force) schedule).1

enqueue_force-Done_example :
    (task : Uuid) × (product : Uuid) × (sample_env.uuid_parse "9" ≡ some task)
    × (sample_env.uuid_parse "1" ≡ some product)
    × Done sample_env 100 force task product schedule forced
unfolding enqueue_force write_force record_force valid_wb_identity normalize_wb find_product_id
    match_here strip_prefix take_digits
enqueue_force-Done_example = enqueue_force-Done sample_env 100 force schedule forced refl
