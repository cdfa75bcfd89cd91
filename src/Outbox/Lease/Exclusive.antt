-- ===== src/Outbox/Lease/Exclusive.antt =====
-- Claims and the holders of their leases.
use price_scount.Base.{
  map, ℕ, ◌+◌, ◌<◌, String, true, false, List, [], ◌∷◌, ◌≡◌, ◌==◌, refl, arith, exists, update, All,
  Bool-cases, inl, inr,
}
use price_scount.Env.{Uuid}
use price_scount.Outbox.Table.{Row, EventKey, key_eq, key_eq_sound}
use price_scount.Outbox.Lease.{
  Owner, gateway, scheduler, can_claim, picked, is_among, leased, event_of, claim, owns,
  mark_published, retry, published, released,
}
use price_scount.Outbox.Lease.Picked.{picked-All}

-- The row cannot be claimed.
abbrev pub Withheld : Owner → ℕ → Row → Type 0
Withheld owner at r = can_claim owner at r ≡ false

leased-Withheld :
    (owner : Owner) (now lease at : ℕ) (draw : EventKey → Uuid) (r : Row)
    → at < now + lease
    → Withheld owner at (leased now lease draw r)
leased-Withheld gateway now lease at draw r h = ground (arith, h)
leased-Withheld scheduler now lease at draw r h = ground (arith, h)

update-Withheld :
    (owner : Owner) (now lease at : ℕ) (draw : EventKey → Uuid) (chosen rows : List Row)
    → at < now + lease
    → All
        (λ r. is_among chosen r ≡ true → Withheld owner at r)
        (update (is_among chosen) (leased now lease draw) rows)
update-Withheld owner now lease at draw chosen [] h = tt
update-Withheld owner now lease at draw chosen (r ∷ rows) h = (
  elim (Bool-cases (is_among chosen r)) [
    | inl hit ↦ rw hit (λ e. leased-Withheld owner now lease at draw r h)
    | inr miss ↦ rw miss (λ e. absurd (ground (arith, e, miss)))
  ],
  update-Withheld owner now lease at draw chosen rows h,
)

-- The events of a claim have the keys of the rows that it picked.
exists-events :
    (draw : EventKey → Uuid) (k : EventKey) (chosen : List Row)
    → exists (λ e. key_eq k e.id) (map (event_of draw) chosen)
      ≡ exists (λ s. key_eq k s.event_key) chosen
exists-events draw k [] = refl
exists-events draw k (r ∷ chosen) = ground (arith, exists-events draw k chosen)

events-All :
    (draw : EventKey → Uuid) (P : EventKey → Type 0) (chosen : List Row)
    → All (λ r. P r.event_key) chosen
    → All (λ e. P e.id) (map (event_of draw) chosen)
events-All draw P [] h = tt
events-All draw P (r ∷ chosen) h = (h.0, events-All draw P chosen h.1)

-- Until the lease of a claim ends, no other claim hands out an event that the first one handed out.
pub claim-exclusive :
    (owner : Owner) (now limit lease at limit' lease' : ℕ) (draw draw' : EventKey → Uuid)
    (rows : List Row)
    → at < now + lease
    → All
        (λ e. exists (λ f. key_eq e.id f.id) (claim owner now limit lease draw rows).0 ≡ false)
        (claim owner at limit' lease' draw' (claim owner now limit lease draw rows).1).0
unfolding claim
claim-exclusive owner now limit lease at limit' lease' draw draw' rows h =
    let chosen = picked owner now limit rows in
    let held = update (is_among chosen) (leased now lease draw) rows in
    events-All draw' (λ k. exists (λ f. key_eq k f.id) (map (event_of draw) chosen) ≡ false)
      (picked owner at limit' held)
      (picked-All (λ r. is_among chosen r ≡ true → Withheld owner at r)
        (λ r. exists (λ f. key_eq r.event_key f.id) (map (event_of draw) chosen) ≡ false) owner at
        limit' held
        (λ r withheld free.
          rw (exists-events draw r.event_key chosen) (elim (Bool-cases (is_among chosen r)) [
            | inl hit ↦ absurd (ground (arith, withheld hit, free))
            | inr miss ↦ miss
          ]))
        (update-Withheld owner now lease at draw chosen rows h))

-- No row of the id has the token.
abbrev pub Lost : EventKey → Uuid → List Row → Type 0
Lost id token = All (λ r. owns id token r ≡ false)

update-Lost :
    (id : EventKey) (token : Uuid) (f : Row → Row) (rows : List Row)
    → Lost id token rows
    → update (owns id token) f rows ≡ rows
update-Lost id token f [] h = refl
update-Lost id token f (r ∷ rows) h = ground (arith, h.0, update-Lost id token f rows h.1)

claimed-Lost :
    (id : EventKey) (token : Uuid) (now lease : ℕ) (draw : EventKey → Uuid) (chosen rows : List Row)
    → exists (λ s. key_eq id s.event_key) chosen ≡ true
    → ((k : EventKey) → (draw k == token) ≡ false)
    → Lost id token (update (is_among chosen) (leased now lease draw) rows)
claimed-Lost id token now lease draw chosen [] there other = tt
claimed-Lost id token now lease draw chosen (r ∷ rows) there other = (
  elim (Bool-cases (is_among chosen r)) [
    | inl hit ↦ rw hit (ground (arith, other r.event_key))
    | inr miss ↦ elim (Bool-cases (key_eq id r.event_key)) [
      | inl same ↦
          let at : id ≡ r.event_key = key_eq_sound id r.event_key same in
          absurd (ground (arith, at, miss, there))
      | inr apart ↦ rw miss (ground (arith, apart))
    ]
  ],
  claimed-Lost id token now lease draw chosen rows there other,
)

module _ (owner : Owner) (now limit lease at : ℕ) (draw : EventKey → Uuid) (rows : List Row)
    (id : EventKey) (token : Uuid) where
  abbrev reclaimed : List Row
  reclaimed = (claim owner now limit lease draw rows).1

  -- When an event is claimed and no drawn token is the old one, whoever holds the old one can
  -- neither mark the event as published nor release it: the table stays as it is.
  pub stale_lease :
      (last_error : String) (delay : ℕ)
      → exists (λ s. key_eq id s.event_key) (picked owner now limit rows) ≡ true
      → ((k : EventKey) → (draw k == token) ≡ false)
      → ((mark_published owner at id token (claim owner now limit lease draw rows).1).1
          ≡ (claim owner now limit lease draw rows).1)
        × ((retry owner at id token last_error delay (claim owner now limit lease draw rows).1).1
            ≡ (claim owner now limit lease draw rows).1)
  unfolding claim mark_published retry
  stale_lease last_error delay there other =
      let lost =
        claimed-Lost id token now lease draw (picked owner now limit rows) rows there other in
      (
        update-Lost id token (published owner at) reclaimed lost,
        update-Lost id token (released at delay last_error) reclaimed lost,
      )
