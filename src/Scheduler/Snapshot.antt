-- ===== src/Scheduler/Snapshot.antt =====
-- services/scheduler/internal/store/dispatch.go: ApplySnapshot. A stored version is never negative,
-- since only positive ones are written, so it is compared as a number.
pub mod Order
pub mod Latest
use price_scount.Base.{
  List, ℕ, Bool, false, not, ◌&&◌, ◌||◌, none, some, [], ◌∷◌, ◌++◌, ◌==◌, str_eq, ltb, leb, exists,
  find, update, if◌then◌else◌, is_positive64, Tx, raise, guard, or_raise, ok, err, ◌>>=◌, ◌>>◌,
  invalid_request, database,
}
use price_scount.Env.{Env, Uuid}
use price_scount.Contracts.{TrackRequest}
use price_scount.Scheduler.Db.{ScheduledUrl, SchedulerDb, valid_wb_identity}

abbrev pub set_urls : List ScheduledUrl → SchedulerDb → SchedulerDb
set_urls rows db = record db { scheduled_urls = rows }

-- What the upsert writes over a row.
abbrev pub overwrite : TrackRequest → ScheduledUrl → ScheduledUrl
overwrite r u = record u {
  platform = r.platform;
  check_interval_hours = r.interval_hours;
  active = r.active;
  monitor_version = r.version;
}

-- The WHERE clause of the upsert.
abbrev pub is_newer : TrackRequest → Uuid → ScheduledUrl → Bool
is_newer r product u = ltb u.monitor_version r.version && u.product_id == product

-- An INT column refuses a number above 2^31 - 1.
abbrev pub fits_int : ℕ → Bool
fits_int n = leb n 2147483647

module _ (env : Env) (now : ℕ) where
  abbrev pub new_url : Uuid → Uuid → TrackRequest → ScheduledUrl
  new_url id product r = record {
    id = id;
    product_id = product;
    url = r.url;
    platform = r.platform;
    next_check_at = now;
    check_interval_hours = r.interval_hours;
    active = r.active;
    monitor_version = r.version;
  }

  -- INSERT ... ON CONFLICT(url) DO UPDATE ... WHERE; a unique violation is an invalid request. With
  -- no row affected, the product of the URL is compared.
  unfoldable pub upsert_url : Uuid → Uuid → TrackRequest → Tx SchedulerDb (Unit {0})
  upsert_url new_id product r db = elim (find (λ u. str_eq u.url r.url) db.scheduled_urls) [
    | none ↦
        if exists (λ u. u.product_id == product || u.id == new_id) db.scheduled_urls
        then err invalid_request
        else ok (tt, set_urls (db.scheduled_urls ++ new_url new_id product r ∷ []) db)
    | some u ↦
        if is_newer r product u
        then ok (tt, set_urls (update (λ x. str_eq x.url r.url) (overwrite r) db.scheduled_urls) db)
        else if u.product_id == product
        then ok (tt, db)
        else err invalid_request
  ]

  -- The URL of the product's row differs from the request's.
  abbrev pub moves_product : Uuid → TrackRequest → SchedulerDb → Bool
  moves_product product r db = elim (find (λ u. u.product_id == product) db.scheduled_urls) [
    | none ↦ false
    | some u ↦ not (str_eq u.url r.url)
  ]

  unfoldable pub write_snapshot : Uuid → Uuid → TrackRequest → Tx SchedulerDb (Unit {0})
  write_snapshot new_id product r db =
      if moves_product product r db
      then raise invalid_request db
      else if not (fits_int r.interval_hours)
      then raise database db
      else upsert_url new_id product r db

  -- ApplySnapshot; `new_id` is the id that the database draws for a new row.
  unfoldable pub apply_snapshot : Uuid → TrackRequest → Tx SchedulerDb (Unit {0})
  apply_snapshot new_id r = do
    guard (str_eq r.action "set_state" && is_positive64 r.version && is_positive64 r.interval_hours)
        invalid_request
    product ← or_raise invalid_request (env.uuid_parse r.product_id)
    task ← or_raise invalid_request (env.uuid_parse r.task_id)
    guard (valid_wb_identity env r.url r.platform) invalid_request
    write_snapshot new_id product r
