-- ===== src/Scheduler/Consumer.antt =====
-- services/scheduler/internal/consumer/consumer.go: what becomes of a track request. A delivery is
-- what encoding/json reads, `none` when it is malformed.
pub mod Again
use price_scount.Base.{
  ℕ, Option, none, some, str_eq, if◌then◌else◌, Result, ok, err, Fault, not_found, invalid_result,
  invalid_request, database, settle, Tx, raise,
}
use price_scount.Env.{Env, Uuid}
use price_scount.Contracts.{TrackRequest}
use price_scount.Delivery.{Verdict, ack, drop, requeue}
use price_scount.Scheduler.Db.{SchedulerDb}
use price_scount.Scheduler.Snapshot.{apply_snapshot}
use price_scount.Scheduler.Force.{enqueue_force}

abbrev pub verdict : Result (Unit {0}) → Verdict
verdict (ok _) = ack
verdict (err invalid_request) = drop
verdict (err not_found) = requeue
verdict (err invalid_result) = requeue
verdict (err database) = requeue

-- The switch on the action; `new_id` is drawn for a new row.
unfoldable pub route : Env → ℕ → Uuid → TrackRequest → Tx SchedulerDb (Unit {0})
route env now new_id r db =
    if str_eq r.action "set_state"
    then apply_snapshot env now new_id r db
    else if str_eq r.action "force"
    then enqueue_force env now r db
    else raise invalid_request db

-- handle.
unfoldable pub handle : Env → ℕ → Uuid → Option TrackRequest → SchedulerDb → Verdict × SchedulerDb
handle env now new_id none db = (drop, db)
handle env now new_id (some r) db =
    let (result, db') = settle (route env now new_id r) db in (verdict result, db')
