-- ===== src/Gateway/Monitoring/Sync.antt =====
-- The snapshots of monitoring.go against the subscriptions that they speak of.
use price_scount.Base.{
  ℕ, ◌<◌, ◌+◌, Bool, true, false, Option, none, some, List, [], ◌∷◌, ◌==◌, ◌≡◌, ◌⊎◌, String, refl,
  arith, find, find-update, find-update-none, find-append_new, find-append_miss, exists-append,
  incr64, max_int64, Bool-cases, Option-cases, inl, inr,
}
use price_scount.Env.{Env, Uuid}
use price_scount.Contracts.{
  Payload, lookup_task, scraper_task, price_result, track_request, notify_task,
  queue_track_requests,
}
use price_scount.Outbox.Table.{Row, EventKey, key_eq, has_key, insert_event, new_row, key_eq_refl}
use price_scount.Gateway.Db.{Db, Product, find_product}
use price_scount.Gateway.Monitoring.{is_watched, bump, snapshot_request}

abbrev active_of : Payload → Bool
active_of (track_request q) = q.active
active_of (lookup_task _) = false
active_of (scraper_task _) = false
active_of (price_result _) = false
active_of (notify_task _) = false

abbrev announced : Option Row → Bool
announced none = false
announced (some row) = active_of row.payload

-- What the outbox says of a version of a product; without a snapshot, that nobody watches it.
abbrev pub says : Uuid → ℕ → List Row → Bool
says i v rows = announced (find (λ r. key_eq (EventKey.track i v) r.event_key) rows)

-- No snapshot is ahead of its product.
abbrev pub NoneAhead : Db → Type 0
NoneAhead db =
    (i v : ℕ) (p : Product)
    → find_product i db.products ≡ some p
    → p.monitor_version < v
    → has_key (EventKey.track i v) db.outbox ≡ false

abbrev pub InSyncAt : Uuid → Db → Type 0
InSyncAt i db =
    (p : Product)
    → find_product i db.products ≡ some p
    → says i p.monitor_version db.outbox ≡ is_watched i db.subscriptions

pub record InSync (db : Db) : Type 0 where
  pub none_ahead : NoneAhead db
  pub current : (i : Uuid) → InSyncAt i db

-- A row of another key is not the one that is looked for.
pub says-other :
    (i v now : ℕ) (k : EventKey) (queue : String) (payload : Payload) (rows : List Row)
    → key_eq (EventKey.track i v) k ≡ false
    → says i v (insert_event now k queue payload rows) ≡ says i v rows
unfolding insert_event
says-other i v now k queue payload rows h = elim (Bool-cases (has_key k rows)) [
  | inl old ↦ ground arith
  | inr new ↦ ground (
    arith,
    find-append_miss (λ r. key_eq (EventKey.track i v) r.event_key) rows
        (new_row now k queue payload) h,
  )
]

pub has_key-other :
    (j k : EventKey) (now : ℕ) (queue : String) (payload : Payload) (rows : List Row)
    → key_eq j k ≡ false
    → has_key j (insert_event now k queue payload rows) ≡ has_key j rows
unfolding insert_event
has_key-other j k now queue payload rows h =
    ground
      (arith, exists-append (λ r. key_eq j r.event_key) rows (new_row now k queue payload ∷ []))

says-new :
    (i v now : ℕ) (queue : String) (payload : Payload) (rows : List Row)
    → has_key (EventKey.track i v) rows ≡ false
    → says i v (insert_event now (EventKey.track i v) queue payload rows) ≡ active_of payload
unfolding insert_event
says-new i v now queue payload rows h = ground (
  arith,
  key_eq_refl (EventKey.track i v),
  find-append_new (λ r. key_eq (EventKey.track i v) r.event_key) rows
      (new_row now (EventKey.track i v) queue payload) h,
)

module _ (env : Env) (now : ℕ) (p : Product) (db : Db)
    (known : find_product p.id db.products ≡ some p) (room : p.monitor_version < max_int64) where
  next : Product
  next = record p { monitor_version = p.monitor_version + 1 }

  abbrev note : Product → Db → Payload
  note q d =
      track_request
        (snapshot_request env now q (incr64 q.monitor_version) (is_watched q.id d.subscriptions))

  -- A product of the new table is the bumped one, or one of the old table.
  versions :
      (i : ℕ) (q : Product)
      → find_product i (bump env now p db).products ≡ some q
      → (((i == p.id) ≡ true) × (q ≡ next))
        ⊎ (((i == p.id) ≡ false) × (find_product i db.products ≡ some q))
  unfolding bump next
  versions i q e =
      let f = λ (x : Product). record x { monitor_version = incr64 p.monitor_version } in
      let key = λ (x : Product). x.id in
      elim (Option-cases (find_product i db.products)) [
        | inl missing ↦
            absurd (ground (arith, find-update-none key f i p.id db.products (λ x. refl) missing))
        | inr (o, had) ↦
            let found = find-update key f i p.id db.products o (λ x. refl) had in
            elim (Bool-cases (i == p.id)) [
              | inl hit ↦ let at : i ≡ p.id = ground arith in inl (hit, ground (arith, found, at))
              | inr miss ↦ inr (miss, ground (arith, found))
            ]
      ]

  pub bump-NoneAhead : NoneAhead db → NoneAhead (bump env now p db)
  bump-NoneAhead ahead i v q e lt = elim (versions i q e) [
    | inl (hit, same) ↦
        let at : i ≡ p.id = ground arith in
        unfold bump next in
        ground (
          arith,
          at,
          same,
          ahead p.id v p known,
          has_key-other (EventKey.track i v) (EventKey.track p.id (incr64 p.monitor_version)) now
              queue_track_requests (note p db) db.outbox,
        )
    | inr (miss, old) ↦
        unfold bump in
        ground (
          arith,
          ahead i v q old lt,
          has_key-other (EventKey.track i v) (EventKey.track p.id (incr64 p.monitor_version)) now
              queue_track_requests (note p db) db.outbox,
        )
  ]

  pub bump-InSyncAt :
      (i : Uuid)
      → NoneAhead db
      → ((i == p.id) ≡ false → InSyncAt i db)
      → InSyncAt i (bump env now p db)
  bump-InSyncAt i ahead others q e = elim (versions i q e) [
    | inl (hit, same) ↦
        let at : i ≡ p.id = ground arith in
        unfold bump next in
        ground (
          arith,
          at,
          same,
          ahead p.id (incr64 p.monitor_version) p known,
          says-new p.id (incr64 p.monitor_version) now queue_track_requests (note p db) db.outbox,
        )
    | inr (miss, old) ↦
        unfold bump in
        ground (
          arith,
          others miss q old,
          says-other i q.monitor_version now (EventKey.track p.id (incr64 p.monitor_version))
              queue_track_requests (note p db) db.outbox,
        )
  ]

  -- A bump brings its product into step, whatever changed for it before.
  pub bump-InSync :
      NoneAhead db → ((i : Uuid) → (i == p.id) ≡ false → InSyncAt i db) → InSync (bump env now p db)
  bump-InSync ahead others = record {
    none_ahead = bump-NoneAhead ahead;
    current = λ i. bump-InSyncAt i ahead (others i);
  }
