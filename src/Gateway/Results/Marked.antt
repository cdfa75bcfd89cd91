-- ===== src/Gateway/Results/Marked.antt =====
-- The marks of the results that were seen.
use price_scount.Base.{
  Bool, true, false, Option, [], ◌∷◌, ◌++◌, ◌==◌, ◌≡◌, arith, exists, exists-append, find, ok,
}
use price_scount.Env.{Uuid}
use price_scount.Gateway.Db.{Db, ForceRequest}
use price_scount.Gateway.Results.{mark_processed}

-- The force request of a task.
abbrev pub force_of : Uuid → Db → Option ForceRequest
force_of task db = find (λ f. f.task_id == task) db.force_requests

abbrev pub is_processed : Uuid → Db → Bool
is_processed task db = exists (λ u. u == task) db.processed

abbrev pub with_mark : Uuid → Db → Db
with_mark task db = record db { processed = db.processed ++ task ∷ [] }

pub mark_old :
    (task : Uuid) (db : Db) → is_processed task db ≡ true → mark_processed task db ≡ ok (false, db)
unfolding mark_processed
mark_old task db h = rw h

pub mark_new :
    (task : Uuid) (db : Db)
    → is_processed task db ≡ false
    → mark_processed task db ≡ ok (true, with_mark task db)
unfolding mark_processed
mark_new task db h = rw h

pub with_mark_lem : (task : Uuid) (db : Db) → is_processed task (with_mark task db) ≡ true
with_mark_lem task db = ground (arith, exists-append (λ u. u == task) db.processed (task ∷ []))
