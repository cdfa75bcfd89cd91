-- ===== src/Scheduler/Dispatch/Drained.antt =====
-- EnqueueDue when one batch takes every due row.
use price_scount.Base.{
  ℕ, zero, suc, ◌≤◌, ◌<◌, String, true, ◌||◌, List, [], ◌∷◌, ◌≡◌, ◌==◌, refl, ◌∙◌, arith, length,
  All, select, take, ok,
}
use price_scount.Env.{Env, Uuid}
use price_scount.Scheduler.Db.{ScheduledUrl, SchedulerDb}
use price_scount.Scheduler.Dispatch.{is_due, insert_due, sort_due, due_batch, enqueue_due}
use price_scount.Scheduler.Dispatch.Exact.{is_in, advanced, enqueue_due-exact}

-- Every row is checked at least once an hour: no interval is 0.
abbrev pub Repeats : List ScheduledUrl → Type 0
Repeats = All (λ u. 0 < u.check_interval_hours)

insert_due-is_in :
    (u x : ScheduledUrl) (rows : List ScheduledUrl)
    → is_in (insert_due u rows) x ≡ (x.id == u.id || is_in rows x)
insert_due-is_in u x [] = ground arith
insert_due-is_in u x (v ∷ rows) = ground (arith, insert_due-is_in u x rows)

sort_due-is_in :
    (x : ScheduledUrl) (rows : List ScheduledUrl) → is_in (sort_due rows) x ≡ is_in rows x
sort_due-is_in x [] = refl
sort_due-is_in x (u ∷ rows) =
    ground (arith, insert_due-is_in u x (sort_due rows), sort_due-is_in x rows)

insert_due-length :
    (u : ScheduledUrl) (rows : List ScheduledUrl) → length (insert_due u rows) ≡ suc (length rows)
insert_due-length u [] = refl
insert_due-length u (v ∷ rows) = ground (arith, insert_due-length u rows)

sort_due-length : (rows : List ScheduledUrl) → length (sort_due rows) ≡ length rows
sort_due-length [] = refl
sort_due-length (u ∷ rows) =
    ground (arith, insert_due-length u (sort_due rows), sort_due-length rows)

take_all : (n : ℕ) (rows : List ScheduledUrl) → length rows ≤ n → take n rows ≡ rows
take_all zero [] h = refl
take_all zero (x ∷ rows) h = absurd (omega (arith, h))
take_all (suc n) [] h = refl
take_all (suc n) (x ∷ rows) h = ground (arith, take_all n rows (omega (arith, h)))

select_cons :
    (now : ℕ) (x u : ScheduledUrl) (rows : List ScheduledUrl)
    → is_in (select (is_due now) rows) x ≡ true
    → is_in (select (is_due now) (u ∷ rows)) x ≡ true
select_cons now x u rows h = ground (arith, h)

-- The rows of a batch that has every due row are due no more.
drained :
    (now : ℕ) (batch rows : List ScheduledUrl)
    → Repeats rows
    → All (λ u. is_due now u ≡ true → is_in batch u ≡ true) rows
    → select (is_due now) (advanced now batch rows) ≡ []
drained now batch [] positive covers = refl
drained now batch (u ∷ rows) positive covers =
    ground (arith, positive.0, covers.0, drained now batch rows positive.1 covers.1)

covered :
    (now : ℕ) (batch rows : List ScheduledUrl)
    → ((x : ScheduledUrl) → is_in (select (is_due now) rows) x ≡ true → is_in batch x ≡ true)
    → All (λ u. is_due now u ≡ true → is_in batch u ≡ true) rows
covered now batch [] h = tt
covered now batch (u ∷ rows) h = (
  λ due. h u (ground arith),
  covered now batch rows (λ x there. h x (select_cons now x u rows there)),
)

module _ (env : Env) (now : ℕ) (draw : Uuid → String) where
  -- If at most 100 rows are due and no interval is 0, then no row is due after a tick that succeeds.
  pub enqueue_due-drained :
      (n : ℕ) (db db' : SchedulerDb)
      → length (select (is_due now) db.scheduled_urls) ≤ 100
      → Repeats db.scheduled_urls
      → enqueue_due env now draw db ≡ ok (n, db')
      → select (is_due now) db'.scheduled_urls ≡ []
  enqueue_due-drained n db db' few positive e =
      let rows = db.scheduled_urls in
      let whole : due_batch now rows ≡ sort_due (select (is_due now) rows) =
        unfold due_batch in
        take_all 100 (sort_due (select (is_due now) rows))
          (omega (arith, few, sort_due-length (select (is_due now) rows))) in
      let urls = (enqueue_due-exact env now draw n db db' e).4 in
      rw (urls, whole)
        (drained now (sort_due (select (is_due now) rows)) rows positive (
          covered now (sort_due (select (is_due now) rows)) rows
            (λ x there. sort_due-is_in x (select (is_due now) rows) ∙ there)))
