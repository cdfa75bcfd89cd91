-- ===== src/Scheduler/Snapshot/Order.antt =====
-- Snapshots that arrive again or in another order.
use mathlib.Core.Path.{subst}
use price_scount.Base.{
  ℕ, String, true, false, ◌&&◌, Option, some, List, [], ◌∷◌, ◌==◌, ◌≡◌, ◌≢◌, str_eq, ltb, refl, sym,
  ◌∙◌, arith, find, update, if◌then◌else◌, is_positive64, ok, Option-cases, inl, inr,
}
use price_scount.Env.{Env, Uuid}
use price_scount.Contracts.{TrackRequest}
use price_scount.Scheduler.Db.{ScheduledUrl, SchedulerDb, valid_wb_identity}
use price_scount.Scheduler.Snapshot.{
  set_urls, overwrite, fits_int, upsert_url, moves_product, write_snapshot, apply_snapshot,
}

abbrev pub find_url : String → List ScheduledUrl → Option ScheduledUrl
find_url url rows = find (λ u. str_eq u.url url) rows

-- The table after a newer snapshot of a URL.
abbrev pub overwritten : TrackRequest → List ScheduledUrl → List ScheduledUrl
overwritten r rows = update (λ x. str_eq x.url r.url) (overwrite r) rows

pub find_url-overwritten :
    (r : TrackRequest) (url : String) (rows : List ScheduledUrl) (u : ScheduledUrl)
    → r.url ≡ url
    → find_url url rows ≡ some u
    → find_url url (overwritten r rows) ≡ some (overwrite r u)
find_url-overwritten r url [] u same e = ground arith
find_url-overwritten r url (x ∷ rows) u same e =
    ground (arith, find_url-overwritten r url rows u same)

overwritten-overwritten :
    (a b : TrackRequest) (rows : List ScheduledUrl)
    → a.url ≡ b.url
    → overwritten b (overwritten a rows) ≡ overwritten b rows
overwritten-overwritten a b [] same = refl
overwritten-overwritten a b (x ∷ rows) same = ground (arith, overwritten-overwritten a b rows same)

module _ (env : Env) (now : ℕ) (product : Uuid) where
  moves_product-overwritten :
      (a b : TrackRequest) (rows : List ScheduledUrl) (db : SchedulerDb)
      → moves_product env now product b (set_urls (overwritten a rows) db)
        ≡ moves_product env now product b (set_urls rows db)
  moves_product-overwritten a b [] db = refl
  moves_product-overwritten a b (x ∷ rows) db =
      ground (arith, moves_product-overwritten a b rows db)

  -- The checks of write_snapshot on a row that is there.
  pub record Matches (r : TrackRequest) (db : SchedulerDb) (u : ScheduledUrl) : Type 0 where
    pub stays : moves_product env now product r db ≡ false
    pub fits : fits_int r.interval_hours ≡ true
    pub found : find_url r.url db.scheduled_urls ≡ some u
    pub owns : (u.product_id == product) ≡ true

  pub write-Matches :
      (id : Uuid) (r : TrackRequest) (db db' : SchedulerDb) (u : ScheduledUrl)
      → find_url r.url db.scheduled_urls ≡ some u
      → write_snapshot env now id product r db ≡ ok (tt, db')
      → Matches r db u
  unfolding write_snapshot upsert_url
  write-Matches id r db db' u found e = record {
    stays = ground arith;
    fits = ground arith;
    found = found;
    owns = ground arith;
  }

-- What one delivery does to the row of its URL, and to the database.
abbrev pub next : TrackRequest → ScheduledUrl → ScheduledUrl
next r u = if ltb u.monitor_version r.version then overwrite r u else u

abbrev pub after : TrackRequest → ScheduledUrl → SchedulerDb → SchedulerDb
after r u db =
    if ltb u.monitor_version r.version then set_urls (overwritten r db.scheduled_urls) db else db

after-commute :
    (a b : TrackRequest) (u : ScheduledUrl) (db : SchedulerDb)
    → a.url ≡ b.url
    → a.version ≢ b.version
    → after b (next a u) (after a u db) ≡ after a (next b u) (after b u db)
after-commute a b u db same other = ground (
  arith,
  overwritten-overwritten a b db.scheduled_urls same,
  overwritten-overwritten b a db.scheduled_urls (sym same),
)

module _ (env : Env) (now : ℕ) where
  pub write-after :
      (id product : Uuid) (r : TrackRequest) (db : SchedulerDb) (u : ScheduledUrl)
      → Matches env now product r db u
      → write_snapshot env now id product r db ≡ ok (tt, after r u db)
  unfolding write_snapshot upsert_url
  write-after id product r db u m = ground (arith, m.stays, m.fits, m.found, m.owns)

  pub Matches-after :
      (pa pb : Uuid) (a b : TrackRequest) (db : SchedulerDb) (u : ScheduledUrl)
      → a.url ≡ b.url
      → Matches env now pa a db u
      → Matches env now pb b db u
      → Matches env now pb b (after a u db) (next a u)
  Matches-after pa pb a b db u same ma mb = record {
    stays = ground (arith, moves_product-overwritten env now pb a b db.scheduled_urls db, mb.stays);
    fits = mb.fits;
    found =
        ground (arith, find_url-overwritten a b.url db.scheduled_urls u same mb.found, mb.found);
    owns = ground (arith, mb.owns);
  }

  Matches-before :
      (pa pb : Uuid) (a b : TrackRequest) (db : SchedulerDb) (u : ScheduledUrl)
      → a.url ≡ b.url
      → Matches env now pa a db u
      → Matches env now pb b (after a u db) (next a u)
      → Matches env now pb b db u
  Matches-before pa pb a b db u same ma mb = record {
    stays = ground (arith, moves_product-overwritten env now pb a b db.scheduled_urls db, mb.stays);
    fits = mb.fits;
    found = ground (arith, same, ma.found);
    owns = ground (arith, mb.owns);
  }

  -- The checks that need no database.
  pub record Sound (r : TrackRequest) (product : Uuid) : Type 0 where
    pub task : Uuid
    pub fields :
        (str_eq r.action "set_state" && is_positive64 r.version && is_positive64 r.interval_hours)
        ≡ true
    pub parses_product : env.uuid_parse r.product_id ≡ some product
    pub parses_task : env.uuid_parse r.task_id ≡ some task
    pub valid : valid_wb_identity env r.url r.platform ≡ true

  pub to_write :
      (id product : Uuid) (r : TrackRequest) (db : SchedulerDb)
      → Sound r product
      → apply_snapshot env now id r db ≡ write_snapshot env now id product r db
  unfolding apply_snapshot
  to_write id product r db s = ground (arith, s.fields, s.parses_product, s.parses_task, s.valid)

  pub apply-Sound :
      (id : Uuid) (r : TrackRequest) (db db' : SchedulerDb)
      → apply_snapshot env now id r db ≡ ok (tt, db')
      → (product : Uuid) × Sound r product
  unfolding apply_snapshot
  apply-Sound id r db db' e = elim (Option-cases (env.uuid_parse r.product_id)) [
    | inl unread ↦ absurd (ground arith)
    | inr (product, read) ↦ elim (Option-cases (env.uuid_parse r.task_id)) [
      | inl untold ↦ absurd (ground arith)
      | inr (task, told) ↦ (
        product,
        record {
          task = task;
          fields = ground arith;
          parses_product = read;
          parses_task = told;
          valid = ground arith;
        },
      )
    ]
  ]

  -- Two snapshots of a URL that has a row, with different versions: if they are accepted in one
  -- order, they are accepted in the other order too, and the database is then the same.
  pub apply_snapshot-commute :
      (id : Uuid) (a b : TrackRequest) (db mid db' : SchedulerDb) (u : ScheduledUrl)
      → a.url ≡ b.url
      → a.version ≢ b.version
      → find_url a.url db.scheduled_urls ≡ some u
      → apply_snapshot env now id a db ≡ ok (tt, mid)
      → apply_snapshot env now id b mid ≡ ok (tt, db')
      → (mid' : SchedulerDb) × (apply_snapshot env now id b db ≡ ok (tt, mid'))
        × (apply_snapshot env now id a mid' ≡ ok (tt, db'))
  apply_snapshot-commute id a b db mid db' u same other found ea eb =
      let (pa, sa) = apply-Sound id a db mid ea in
      let (pb, sb) = apply-Sound id b mid db' eb in
      let wa = sym (to_write id pa a db sa) ∙ ea in
      let wb = sym (to_write id pb b mid sb) ∙ eb in
      let ma = write-Matches env now pa id a db mid u found wa in
      let at : mid ≡ after a u db = ground (arith, wa, write-after id pa a db u ma) in
      let there : find_url b.url (after a u db).scheduled_urls ≡ some (next a u) =
        ground (arith, same, found, find_url-overwritten a b.url db.scheduled_urls u same) in
      let mb' =
        write-Matches env now pb id b (after a u db) db' (next a u) there
          (subst (λ m. write_snapshot env now id pb b m ≡ ok (tt, db')) at wb) in
      let mb = Matches-before pa pb a b db u same ma mb' in
      let end : db' ≡ after b (next a u) (after a u db) =
        ground (arith, at, wb, write-after id pb b (after a u db) (next a u) mb') in
      (
        after b u db,
        to_write id pb b db sb ∙ write-after id pb b db u mb,
        to_write id pa a (after b u db) sa
            ∙ write-after id pa a (after b u db) (next b u)
                (Matches-after pb pa b a db u (sym same) mb ma)
            ∙ rw (end, after-commute a b u db same other) refl,
      )
