-- ===== src/Scheduler/Dispatch/Exact.antt =====
-- One tick of the scheduler against a description of its batch.
use mathlib.Core.List.{append_assoc, append-nil}
use price_scount.Base.{
  ℕ, zero, suc, ◌≤◌, String, Bool, true, List, [], ◌∷◌, ◌++◌, map, ◌==◌, ◌≡◌, refl, ◌∙◌, arith,
  length, length-take, exists, update, All, select, take, ok, Bool-cases, Result-cases, inl, inr,
}
use price_scount.Env.{Env, Uuid}
use price_scount.Outbox.Table.{EventKey, has_key}
use price_scount.Scheduler.Db.{ScheduledUrl, SchedulerDb}
use price_scount.Scheduler.Dispatch.{
  is_due, insert_due, sort_due, due_batch, advance, due_row, enqueue_one, enqueue_all, enqueue_due,
  comes_before,
}

-- The row is one of the batch.
abbrev pub is_in : List ScheduledUrl → ScheduledUrl → Bool
is_in batch x = exists (λ u. x.id == u.id) batch

abbrev pub advanced : ℕ → List ScheduledUrl → List ScheduledUrl → List ScheduledUrl
advanced now batch rows = update (is_in batch) (advance now) rows

advanced_nil : (now : ℕ) (rows : List ScheduledUrl) → advanced now [] rows ≡ rows
advanced_nil now [] = refl
advanced_nil now (x ∷ rows) = ground (arith, advanced_nil now rows)

advanced_cons :
    (now : ℕ) (u : ScheduledUrl) (rest rows : List ScheduledUrl)
    → advanced now rest (update (λ x. x.id == u.id) (advance now) rows)
      ≡ advanced now (u ∷ rest) rows
advanced_cons now u rest [] = refl
advanced_cons now u rest (x ∷ rows) = ground (arith, advanced_cons now u rest rows)

All-take :
    (P : ScheduledUrl → Type 0) (n : ℕ) (rows : List ScheduledUrl)
    → All P rows
    → All P (take n rows)
All-take P zero rows h = tt
All-take P (suc n) [] h = tt
All-take P (suc n) (x ∷ rows) h = (h.0, All-take P n rows h.1)

insert_due-All :
    (P : ScheduledUrl → Type 0) (u : ScheduledUrl) (rows : List ScheduledUrl)
    → P u
    → All P rows
    → All P (insert_due u rows)
insert_due-All P u [] hu h = (hu, tt)
insert_due-All P u (v ∷ rows) hu h = elim (Bool-cases (comes_before u v)) [
  | inl first ↦ rw first (hu, h)
  | inr later ↦ rw later (h.0, insert_due-All P u rows hu h.1)
]

abbrev Due : ℕ → ScheduledUrl → Type 0
Due now u = is_due now u ≡ true

sort_due-Due :
    (now : ℕ) (rows : List ScheduledUrl) → All (Due now) (sort_due (select (is_due now) rows))
sort_due-Due now [] = tt
sort_due-Due now (u ∷ rows) = elim (Bool-cases (is_due now u)) [
  | inl due ↦
      rw due (
        insert_due-All (Due now) u (sort_due (select (is_due now) rows)) due
          (sort_due-Due now rows))
  | inr idle ↦ rw idle (sort_due-Due now rows)
]

module _ (env : Env) (now : ℕ) (draw : Uuid → String) where
  enqueue_all-exact :
      (batch : List ScheduledUrl) (db db' : SchedulerDb)
      → enqueue_all env now draw batch db ≡ ok (tt, db')
      → (db'.outbox ≡ db.outbox ++ map (due_row env now draw) batch)
        × (db'.scheduled_urls ≡ advanced now batch db.scheduled_urls)
        × (db'.processed_force ≡ db.processed_force)
  unfolding enqueue_all
  enqueue_all-exact [] db db' e = (
    ground (arith, append-nil db.outbox),
    ground (arith, advanced_nil now db.scheduled_urls),
    ground arith,
  )
  enqueue_all-exact (u ∷ rest) db db' e =
      elim (Bool-cases (has_key (EventKey.periodic (draw u.id)) db.outbox)) [
        | inl taken ↦ absurd (unfold enqueue_one in ground arith)
        | inr fresh ↦
            let mid = record db {
              scheduled_urls = update (λ x. x.id == u.id) (advance now) db.scheduled_urls;
              outbox = db.outbox ++ due_row env now draw u ∷ [];
            } in
            let later = enqueue_all-exact rest mid db' (unfold enqueue_one in ground arith) in
            (
              later.0
                  ∙ append_assoc db.outbox (due_row env now draw u ∷ [])
                      (map (due_row env now draw) rest),
              later.1 ∙ advanced_cons now u rest db.scheduled_urls,
              later.2,
            )
      ]

  -- A tick that succeeds reports the size of its batch, at most 100, and every row of the batch is
  -- due. It appends the task of each row of the batch in the batch's order, moves the next check of
  -- exactly these rows to their interval from now, and does nothing else.
  pub enqueue_due-exact :
      (n : ℕ) (db db' : SchedulerDb)
      → enqueue_due env now draw db ≡ ok (n, db')
      → (n ≡ length (due_batch now db.scheduled_urls))
        × (n ≤ 100)
        × All (λ u. is_due now u ≡ true) (due_batch now db.scheduled_urls)
        × (db'.outbox ≡ db.outbox ++ map (due_row env now draw) (due_batch now db.scheduled_urls))
        × (db'.scheduled_urls ≡ advanced now (due_batch now db.scheduled_urls) db.scheduled_urls)
        × (db'.processed_force ≡ db.processed_force)
  enqueue_due-exact n db db' e =
      let batch = due_batch now db.scheduled_urls in
      let small : length batch ≤ 100 =
        unfold due_batch in length-take 100 (sort_due (select (is_due now) db.scheduled_urls)) in
      elim (Result-cases (enqueue_all env now draw batch db)) [
        | inr (f, failed) ↦ absurd (unfold enqueue_due in ground arith)
        | inl ((t, mid), done) ↦
            let run : enqueue_all env now draw batch db ≡ ok (tt, db') =
              unfold enqueue_due in ground arith in
            let ran = enqueue_all-exact batch db db' run in
            let size : n ≡ length batch = unfold enqueue_due in ground arith in
            (
              size,
              ground (arith, small, size),
              unfold due_batch in
                  All-take (λ u. is_due now u ≡ true) 100
                    (sort_due (select (is_due now) db.scheduled_urls))
                    (sort_due-Due now db.scheduled_urls),
              ran.0,
              ran.1,
              ran.2,
            )
      ]
