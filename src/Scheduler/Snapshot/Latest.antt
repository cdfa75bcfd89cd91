-- ===== src/Scheduler/Snapshot/Latest.antt =====
-- What an accepted snapshot leaves in the schedule.
use price_scount.Base.{
  ℕ, ◌≤◌, String, true, false, ◌||◌, none, some, List, [], ◌∷◌, ◌++◌, ◌==◌, ◌≡◌, str_eq, eq_refl,
  eq_iff, ltb, refl, sym, ◌∙◌, arith, exists, find, ok, Bool-cases, Option-cases, inl, inr,
}
use price_scount.Env.{Env, Uuid}
use price_scount.Contracts.{TrackRequest}
use price_scount.Scheduler.Db.{ScheduledUrl, SchedulerDb}
use price_scount.Scheduler.Snapshot.{
  set_urls, overwrite, new_url, upsert_url, write_snapshot, apply_snapshot,
}
use price_scount.Scheduler.Snapshot.Order.{
  find_url, overwritten, find_url-overwritten, Matches, write-Matches, write-after, Matches-after,
  next, after, to_write, apply-Sound,
}

-- The same schedule entry, whose version does not go back.
pub record Continues (u v : ScheduledUrl) : Type 0 where
  pub id : v.id ≡ u.id
  pub product_id : v.product_id ≡ u.product_id
  pub url : v.url ≡ u.url
  pub next_check_at : v.next_check_at ≡ u.next_check_at
  pub monitor_version : u.monitor_version ≤ v.monitor_version

Continues-refl : (u : ScheduledUrl) → Continues u u
Continues-refl u = record {
  id = refl;
  product_id = refl;
  url = refl;
  next_check_at = refl;
  monitor_version = omega arith;
}

find_url-append :
    (url : String) (rows : List ScheduledUrl) (y x : ScheduledUrl)
    → find_url url rows ≡ some x
    → find_url url (rows ++ y ∷ []) ≡ some x
find_url-append url [] y x h = absurd (ground arith)
find_url-append url (z ∷ rows) y x h = ground (arith, find_url-append url rows y x)

find_url-new :
    (url : String) (rows : List ScheduledUrl) (y : ScheduledUrl)
    → str_eq y.url url ≡ true
    → find_url url rows ≡ none
    → find_url url (rows ++ y ∷ []) ≡ some y
find_url-new url [] y same h = ground arith
find_url-new url (z ∷ rows) y same h = ground (arith, find_url-new url rows y same)

find_product-new :
    (product id : Uuid) (rows : List ScheduledUrl) (y : ScheduledUrl)
    → y.product_id ≡ product
    → exists (λ u. u.product_id == product || u.id == id) rows ≡ false
    → find (λ u. u.product_id == product) (rows ++ y ∷ []) ≡ some y
find_product-new product id [] y same h = ground arith
find_product-new product id (z ∷ rows) y same h =
    ground (arith, find_product-new product id rows y same)

-- A snapshot of another URL does not reach a row.
find_url-other :
    (r : TrackRequest) (url : String) (rows : List ScheduledUrl)
    → (r.url ≡ url → ⊥)
    → find_url url (overwritten r rows) ≡ find_url url rows
find_url-other r url [] n = refl
find_url-other r url (z ∷ rows) n =
    ground (arith, find_url-other r url rows n, eq_iff z.url url, eq_iff z.url r.url)

overwritten-Continues :
    (r : TrackRequest) (url : String) (rows : List ScheduledUrl) (x w : ScheduledUrl)
    → find_url url rows ≡ some x
    → find_url r.url rows ≡ some w
    → ltb w.monitor_version r.version ≡ true
    → (y : ScheduledUrl) × (find_url url (overwritten r rows) ≡ some y) × Continues x y
overwritten-Continues r url rows x w asked found newer = elim (Bool-cases (str_eq r.url url)) [
  | inl hit ↦
      let same : r.url ≡ url = (eq_iff r.url url).0 hit in
      let at : x ≡ w = ground (arith, same) in
      (
        overwrite r x,
        find_url-overwritten r url rows x same asked,
        record {
          id = refl;
          product_id = refl;
          url = refl;
          next_check_at = refl;
          monitor_version = ground (arith, at);
        },
      )
  | inr miss ↦
      let other : r.url ≡ url → ⊥ = λ h. ground (arith, (eq_iff r.url url).1 h) in
      (x, find_url-other r url rows other ∙ asked, Continues-refl x)
]

module _ (env : Env) (now : ℕ) where
  write-settled :
      (id product : Uuid) (r : TrackRequest) (db db' : SchedulerDb)
      → write_snapshot env now id product r db ≡ ok (tt, db')
      → (u : ScheduledUrl) × Matches env now product r db' u
        × (ltb u.monitor_version r.version ≡ false)
  write-settled id product r db db' e = elim (Option-cases (find_url r.url db.scheduled_urls)) [
    | inl new ↦
        let y = new_url env now id product r in
        let fresh : exists (λ u. u.product_id == product || u.id == id) db.scheduled_urls ≡ false =
          unfold write_snapshot upsert_url in ground arith in
        let done : db' ≡ set_urls (db.scheduled_urls ++ y ∷ []) db =
          unfold write_snapshot upsert_url in ground arith in
        (
          y,
          rw done (record {
            stays =
                ground (
                  arith,
                  find_product-new product id db.scheduled_urls y refl fresh,
                  eq_refl r.url,
                );
            fits = unfold write_snapshot upsert_url in ground arith;
            found = find_url-new r.url db.scheduled_urls y (eq_refl r.url) new;
            owns = ground arith;
          }),
          ground arith,
        )
    | inr (u, found) ↦
        let m = write-Matches env now product id r db db' u found e in
        let done : db' ≡ after r u db = ground (arith, write-after env now id product r db u m) in
        (next r u, rw done (Matches-after env now product product r r db u refl m m), ground arith)
  ]

  write-Continues :
      (id product : Uuid) (r : TrackRequest) (db db' : SchedulerDb) (url : String)
      (x : ScheduledUrl)
      → write_snapshot env now id product r db ≡ ok (tt, db')
      → find_url url db.scheduled_urls ≡ some x
      → (y : ScheduledUrl) × (find_url url db'.scheduled_urls ≡ some y) × Continues x y
  write-Continues id product r db db' url x e asked =
      elim (Option-cases (find_url r.url db.scheduled_urls)) [
        | inl new ↦
            let row = new_url env now id product r in
            let done : db' ≡ set_urls (db.scheduled_urls ++ row ∷ []) db =
              unfold write_snapshot upsert_url in ground arith in
            (x, rw done (find_url-append url db.scheduled_urls row x asked), Continues-refl x)
        | inr (u, found) ↦
            let m = write-Matches env now product id r db db' u found e in
            let done : db' ≡ after r u db =
              ground (arith, write-after env now id product r db u m) in
            elim (Bool-cases (ltb u.monitor_version r.version)) [
              | inl newer ↦
                  let moved : db' ≡ set_urls (overwritten r db.scheduled_urls) db = ground arith in
                  rw moved (overwritten-Continues r url db.scheduled_urls x u asked found newer)
              | inr older ↦
                  let kept : db' ≡ db = ground arith in rw kept (x, asked, Continues-refl x)
            ]
      ]

  -- An accepted snapshot keeps every row of the schedule, with its id, product, URL and next check,
  -- and no version goes back.
  pub apply_snapshot-Continues :
      (id : Uuid) (r : TrackRequest) (db db' : SchedulerDb) (url : String) (x : ScheduledUrl)
      → apply_snapshot env now id r db ≡ ok (tt, db')
      → find_url url db.scheduled_urls ≡ some x
      → (y : ScheduledUrl) × (find_url url db'.scheduled_urls ≡ some y) × Continues x y
  apply_snapshot-Continues id r db db' url x e asked =
      let (product, s) = apply-Sound env now id r db db' e in
      write-Continues id product r db db' url x (sym (to_write env now id product r db s) ∙ e) asked

module _ (env : Env) (now later : ℕ) where
  -- If a snapshot was accepted and is delivered again later, the second delivery succeeds and leaves
  -- the database as the first one left it.
  pub apply_snapshot_again :
      (id id' : Uuid) (r : TrackRequest) (db db' : SchedulerDb)
      → apply_snapshot env now id r db ≡ ok (tt, db')
      → apply_snapshot env later id' r db' ≡ ok (tt, db')
  apply_snapshot_again id id' r db db' e =
      let (product, s) = apply-Sound env now id r db db' e in
      let (u, m, old) =
        write-settled env now id product r db db' (sym (to_write env now id product r db s) ∙ e) in
      to_write env later id' product r db' (record {
        task = s.task;
        fields = s.fields;
        parses_product = s.parses_product;
        parses_task = s.parses_task;
        valid = s.valid;
      })
      ∙ write-after env later id' product r db' u
          (record { stays = m.stays; fits = m.fits; found = m.found; owns = m.owns })
      ∙ ground (arith, old)
