-- ===== src/Outbox/Worker/Turn.antt =====
-- What one turn of the worker does to the row that it takes.
use price_scount.Base.{
  some, none, Bool, false, ◌<◌, ◌≤◌, ◌^◌, ◌⊎◌, ap, ◌∙◌, All-map, ℕ, ◌+◌, true, List, [], ◌∷◌, ◌≡◌,
  refl, arith, update, All, if◌then◌else◌, Bool-cases, inl, inr, ==_refl,
}
use mathlib.Core.Path.{subst}
use price_scount.Env.{Uuid}
use price_scount.Outbox.Table.{has_key, Row, EventKey, key_eq, key_eq_refl, key_eq_sound}
use price_scount.Outbox.Lease.{
  gateway, scheduler, Owner, Event, is_none, can_claim, picked, is_among, leased, event_of, claim,
  owns, published, released, mark_published, retry,
}
use price_scount.Outbox.Worker.{
  lease_duration, backoff, Delivery, delivered, refused, invalid_json, deliver, deliver_all, turn,
}
use price_scount.Outbox.Worker.Delays.{table, backoff-table}
use price_scount.Outbox.Lease.Picked.{picked-All, picked_one}

-- No other row has the key of this one: event_key is unique.
abbrev pub OnlyOne : Row → List Row → Type 0
OnlyOne r = All (λ s. is_among (r ∷ []) s ≡ true → s ≡ r)

owned :
    (owner : Owner) (now : ℕ) (draw : EventKey → Uuid) (r s : Row)
    → is_none r.published_at ≡ true
    → (is_among (r ∷ []) s ≡ true → s ≡ r)
    → owns r.event_key
        (draw r.event_key)
        (if is_among (r ∷ []) s then leased now lease_duration draw s else s)
      ≡ is_among (r ∷ []) s
owned owner now draw r s fresh only = elim (Bool-cases (is_among (r ∷ []) s)) [
  | inl hit ↦
      let same : s ≡ r = only hit in
      rw (same) (ground (arith, key_eq_refl r.event_key, ==_refl (draw r.event_key), fresh))
  | inr miss ↦ elim (Bool-cases (key_eq r.event_key s.event_key)) [
    | inl equal ↦
        let at : r.event_key ≡ s.event_key = key_eq_sound r.event_key s.event_key equal in
        absurd (ground (arith, at, miss, key_eq_refl r.event_key))
    | inr apart ↦ ground (arith, miss, apart)
  ]
]

finish_row :
    (owner : Owner) (now : ℕ) (draw : EventKey → Uuid) (f : Row → Row) (r : Row) (rows : List Row)
    → is_none r.published_at ≡ true
    → OnlyOne r rows
    → update
        (owns r.event_key (draw r.event_key))
        f
        (update (is_among (r ∷ [])) (leased now lease_duration draw) rows)
      ≡ update (is_among (r ∷ [])) (λ s. f (leased now lease_duration draw s)) rows
finish_row owner now draw f r [] fresh only = refl
finish_row owner now draw f r (s ∷ rows) fresh only =
    ground (
      arith,
      owned owner now draw r s fresh only.0,
      finish_row owner now draw f r rows fresh only.1,
    )

-- What is left of a claimed row: a delivered one is published, and any other is free again for a try
-- after its delay, with its error. The gateway forgets the error of a row that it published.
abbrev pub settled : Owner → ℕ → Delivery → Row → Row
settled gateway later delivered s = record s {
  attempts = s.attempts + 1;
  published_at = some later;
  lease_token = none;
  locked_until = none;
  last_error = none;
}
settled scheduler later delivered s = record s {
  attempts = s.attempts + 1;
  published_at = some later;
  lease_token = none;
  locked_until = none;
}
settled owner later (refused error) s = record s {
  attempts = s.attempts + 1;
  available_at = later + table (s.attempts + 1);
  lease_token = none;
  locked_until = none;
  last_error = some error;
}
settled owner later invalid_json s = record s {
  attempts = s.attempts + 1;
  available_at = later + table (s.attempts + 1);
  lease_token = none;
  locked_until = none;
  last_error = some "invalid JSON payload";
}

update-cong :
    (p : Row → Bool) (f g : Row → Row) (rows : List Row)
    → All (λ s. p s ≡ true → f s ≡ g s) rows
    → update p f rows ≡ update p g rows
update-cong p f g [] h = refl
update-cong p f g (r ∷ rows) h = elim (Bool-cases (p r)) [
  | inl e ↦ rw (e, h.0 e) (ap (λ t. g r ∷ t) (update-cong p f g rows h.1))
  | inr e ↦ rw e (ap (λ t. r ∷ t) (update-cong p f g rows h.1))
]

update-none : (f : Row → Row) (rows : List Row) → update (is_among []) f rows ≡ rows
update-none f [] = refl
update-none f (r ∷ rows) = ap (λ t. r ∷ t) (update-none f rows)

-- What the worker does to a row that it holds.
abbrev handled_row : Owner → ℕ → Delivery → ℕ → Row → Row
handled_row owner later delivered n s = published owner later s
handled_row owner later (refused error) n s = released later (backoff n) error s
handled_row owner later invalid_json n s = released later (backoff n) "invalid JSON payload" s

handled-settled :
    (owner : Owner) (now later : ℕ) (draw : EventKey → Uuid) (d : Delivery) (s : Row)
    → s.attempts < 2 ^ 31
    → handled_row owner later d (s.attempts + 1) (leased now lease_duration draw s)
      ≡ settled owner later d s
handled-settled gateway now later draw delivered s h = refl
handled-settled scheduler now later draw delivered s h = refl
handled-settled owner now later draw (refused error) s h =
    let delay : backoff (s.attempts + 1) ≡ table (s.attempts + 1) =
      backoff-table (s.attempts + 1) (omega (arith, h)) in
    rw delay refl
handled-settled owner now later draw invalid_json s h =
    let delay : backoff (s.attempts + 1) ≡ table (s.attempts + 1) =
      backoff-table (s.attempts + 1) (omega (arith, h)) in
    rw delay refl

-- The row is in the table, no other row has its key, and its attempts are below the bound.
abbrev Sole : List Row → Row → Type 0
Sole rows r = (has_key r.event_key rows ≡ true) × OnlyOne r rows × (r.attempts < 2 ^ 31)

module _ (owner : Owner) (now later : ℕ) (draw : EventKey → Uuid) (outcome : Event → Delivery)
    (rows : List Row) where
  deliver-update :
      (d : Delivery) (r : Row) (held : List Row)
      → deliver owner later d (event_of draw r) held
        ≡ update
            (owns r.event_key (draw r.event_key))
            (handled_row owner later d (r.attempts + 1))
            held
  unfolding deliver mark_published retry
  deliver-update delivered r held = refl
  deliver-update (refused error) r held = refl
  deliver-update invalid_json r held = refl

  turn-none :
      picked owner now 1 rows ≡ []
      → turn owner now later draw outcome rows
        ≡ update (is_among []) (leased now lease_duration draw) rows
  turn-none chosen = unfold turn claim deliver_all in ground (arith, chosen)

  turn-row :
      (r : Row)
      → picked owner now 1 rows ≡ r ∷ []
      → is_none r.published_at ≡ true
      → Sole rows r
      → turn owner now later draw outcome rows
        ≡ update (is_among (r ∷ [])) (settled owner later (outcome (event_of draw r))) rows
  turn-row r chosen fresh (there, only, few) =
      let d = outcome (event_of draw r) in
      let held = update (is_among (r ∷ [])) (leased now lease_duration draw) rows in
      let step : turn owner now later draw outcome rows
          ≡ deliver owner later d (event_of draw r) held =
        unfold turn claim deliver_all in ground (arith, chosen) in
      let same : All
          (λ s.
            is_among (r ∷ []) s ≡ true
            → handled_row owner later d (r.attempts + 1) (leased now lease_duration draw s)
              ≡ settled owner later d s)
          rows =
        All-map (λ s. is_among (r ∷ []) s ≡ true → s ≡ r)
          (λ s.
            is_among (r ∷ []) s ≡ true
            → handled_row owner later d (r.attempts + 1) (leased now lease_duration draw s)
              ≡ settled owner later d s)
          rows (λ s equal hit. rw (equal hit) (handled-settled owner now later draw d r few))
          only in
      step
      ∙ deliver-update d r held
      ∙ finish_row owner now draw (handled_row owner later d (r.attempts + 1)) r rows fresh only
      ∙ update-cong (is_among (r ∷ []))
          (λ s. handled_row owner later d (r.attempts + 1) (leased now lease_duration draw s))
          (settled owner later d) rows same

  -- In a table without two rows of one key, whose attempts are below 2^31, a turn of the worker
  -- changes nothing if no row can be claimed. Otherwise it takes a row that can be claimed, of those
  -- the one that was made first, and changes this row only: its attempts grow by one and its lease
  -- ends; if the broker took its event it is published now, and else it is to be tried again, with
  -- the error, after 2, 4, 8, 16, 32 and from then on 60 seconds.
  pub turn-exact :
      All (Sole rows) rows
      → ((turn owner now later draw outcome rows ≡ rows)
          × All (λ s. can_claim owner now s ≡ false) rows)
        ⊎ ((r : Row) × (has_key r.event_key rows ≡ true)
            × (can_claim owner now r ≡ true)
            × All (λ s. (can_claim owner now s ≡ false) ⊎ (r.created_at ≤ s.created_at)) rows
            × (turn owner now later draw outcome rows
                ≡ update
                    (is_among (r ∷ []))
                    (settled owner later (outcome (event_of draw r)))
                    rows))
  turn-exact sole = elim (picked_one owner now rows) [
    | inl (chosen, free) ↦
        inl (turn-none chosen ∙ update-none (leased now lease_duration draw) rows, free)
    | inr (r, chosen, oldest) ↦
        let all : All (λ s. Sole rows s × (can_claim owner now s ≡ true))
            (picked owner now 1 rows) =
          picked-All (Sole rows) (λ s. Sole rows s × (can_claim owner now s ≡ true)) owner now 1
            rows (λ s h claimable. (h, claimable)) sole in
        let (here, claimable) =
          (subst (All (λ s. Sole rows s × (can_claim owner now s ≡ true))) chosen all).0 in
        inr (r, here.0, claimable, oldest, turn-row r chosen (ground (arith, claimable)) here)
  ]
