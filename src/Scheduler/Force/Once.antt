-- ===== src/Scheduler/Force/Once.antt =====
-- EnqueueForce for a command that arrives once or more.
use price_scount.Base.{
  ℕ, Bool, true, false, not, ◌&&◌, ◌||◌, some, [], ◌∷◌, ◌++◌, ◌==◌, ◌≡◌, str_eq, sym, ◌∙◌, arith,
  exists, exists-append, if◌then◌else◌, ok, Bool-cases, Option-cases, inl, inr,
}
use price_scount.Env.{Env, Uuid}
use price_scount.Contracts.{TrackRequest}
use price_scount.Scheduler.Db.{SchedulerDb, valid_wb_identity}
use price_scount.Scheduler.Snapshot.{moves_product}
use price_scount.Scheduler.Force.{moves_url, force_row, record_force, write_force, enqueue_force}

abbrev pub is_known : Uuid → SchedulerDb → Bool
is_known task db = exists (λ c. c.task_id == task) db.processed_force

module _ (env : Env) (now : ℕ) (r : TrackRequest) where
  -- What an accepted command did: nothing if it was known, or else one event.
  pub record Done (task product : Uuid) (db db' : SchedulerDb) : Type 0 where
    pub urls : db'.scheduled_urls ≡ db.scheduled_urls
    pub known : is_known task db' ≡ true
    pub outbox : db'.outbox ≡ (
        if is_known task db then db.outbox else db.outbox ++ force_row env now task product r ∷ [])

  record_force-Done :
      (task product : Uuid) (db db' : SchedulerDb)
      → record_force env now task product r db ≡ ok (tt, db')
      → Done task product db db'
  record_force-Done task product db db' e = elim (Bool-cases (is_known task db)) [
    | inl old ↦
        unfold record_force in
        record { urls = ground arith; known = ground arith; outbox = ground arith }
    | inr new ↦
        unfold record_force in
        record {
          urls = ground arith;
          known = ground (
            arith,
            exists-append (λ c. c.task_id == task) db.processed_force
                (record { task_id = task; product_id = product } ∷ []),
          );
          outbox = ground arith;
        }
  ]

  -- The checks of a command that is accepted.
  pub record Accepted (task product : Uuid) (db : SchedulerDb) : Type 0 where
    pub fields :
        (str_eq r.action "force"
          && not (str_eq r.product_id "")
          && valid_wb_identity env r.url r.platform)
        ≡ true
    pub parses_product : env.uuid_parse r.product_id ≡ some product
    pub parses_task : env.uuid_parse r.task_id ≡ some task
    pub stays : (moves_product env now product r db || moves_url env now product r db) ≡ false

  to_record :
      (task product : Uuid) (db : SchedulerDb)
      → Accepted task product db
      → enqueue_force env now r db ≡ record_force env now task product r db
  unfolding enqueue_force write_force
  to_record task product db a = ground (arith, a.fields, a.parses_product, a.parses_task, a.stays)

  enqueue_force-Accepted :
      (db db' : SchedulerDb)
      → enqueue_force env now r db ≡ ok (tt, db')
      → (task : Uuid) × (product : Uuid) × Accepted task product db
  unfolding enqueue_force write_force
  enqueue_force-Accepted db db' e = elim (Option-cases (env.uuid_parse r.product_id)) [
    | inl unread ↦ absurd (ground arith)
    | inr (product, read) ↦ elim (Option-cases (env.uuid_parse r.task_id)) [
      | inl untold ↦ absurd (ground arith)
      | inr (task, told) ↦ (
        task,
        product,
        record {
          fields = ground arith;
          parses_product = read;
          parses_task = told;
          stays = ground arith;
        },
      )
    ]
  ]

  -- An accepted force command leaves the schedule as it is, is known afterwards, and appends its one
  -- forced scraper task exactly when it was not known before.
  pub enqueue_force-Done :
      (db db' : SchedulerDb)
      → enqueue_force env now r db ≡ ok (tt, db')
      → (task : Uuid) × (product : Uuid) × (env.uuid_parse r.task_id ≡ some task)
        × (env.uuid_parse r.product_id ≡ some product)
        × Done task product db db'
  enqueue_force-Done db db' e =
      let (task, product, a) = enqueue_force-Accepted db db' e in
      (
        task,
        product,
        a.parses_task,
        a.parses_product,
        record_force-Done task product db db' (sym (to_record task product db a) ∙ e),
      )

module _ (env : Env) (now later : ℕ) (r : TrackRequest) where
  record_again :
      (task product : Uuid) (db : SchedulerDb)
      → is_known task db ≡ true
      → record_force env later task product r db ≡ ok (tt, db)
  unfolding record_force
  record_again task product db known = ground (arith, known)

  -- If a force command was accepted and is delivered again later, the second delivery succeeds and
  -- changes nothing.
  pub enqueue_force_again :
      (db db' : SchedulerDb)
      → enqueue_force env now r db ≡ ok (tt, db')
      → enqueue_force env later r db' ≡ ok (tt, db')
  enqueue_force_again db db' e =
      let (task, product, a) = enqueue_force-Accepted env now r db db' e in
      let d =
        record_force-Done env now r task product db db'
          (sym (to_record env now r task product db a) ∙ e) in
      to_record env later r task product db' (record {
        fields = a.fields;
        parses_product = a.parses_product;
        parses_task = a.parses_task;
        stays = rw (d.urls) (a.stays);
      })
      ∙ record_again task product db' d.known
