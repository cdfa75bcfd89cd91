-- ===== src/Outbox/Lease.antt =====
-- internal/store/outbox.go of services/gateway and of services/scheduler: the leases of outbox
-- rows. The two differ in a lease that ends now, in last_error, and in a row that is not there. A row
-- is named by its event key, which is as unique as its id.
pub mod Picked
pub mod Exclusive
use price_scount.Base.{
  ℕ, ◌+◌, String, Bool, true, false, not, ◌&&◌, ◌||◌, Option, none, some, List, [], ◌∷◌, map, ◌==◌,
  ltb, leb, exists, take, select, update, if◌then◌else◌, Fault, not_found, Result, ok, err,
}
use price_scount.Env.{Uuid}
use price_scount.Contracts.{Payload}
use price_scount.Outbox.Table.{Row, EventKey, key_eq}

pub data Owner : Type 0 where
  gateway scheduler : Owner

pub record Event : Type 0 where
  pub id : EventKey
  pub lease_token : Uuid
  pub queue : String
  pub payload : Payload
  pub attempts : ℕ

abbrev pub is_none : {A : Type 0} → Option A → Bool
is_none none = true
is_none (some _) = false

-- locked_until IS NULL OR locked_until<NOW(), where the scheduler has <=.
abbrev pub is_unlocked : Owner → ℕ → Option ℕ → Bool
is_unlocked _ now none = true
is_unlocked gateway now (some until) = ltb until now
is_unlocked scheduler now (some until) = leb until now

-- The WHERE clause of Claim.
abbrev pub can_claim : Owner → ℕ → Row → Bool
can_claim owner now r =
    is_none r.published_at && leb r.available_at now && is_unlocked owner now r.locked_until

-- ORDER BY created_at. Of rows of one time the gateway leaves the order open and the scheduler takes
-- that of their random ids; here it is the order in which they were inserted.
abbrev pub insert_row : Row → List Row → List Row
insert_row r [] = r ∷ []
insert_row r (s ∷ rest) =
    if leb r.created_at s.created_at then r ∷ s ∷ rest else s ∷ insert_row r rest

abbrev pub sort_rows : List Row → List Row
sort_rows [] = []
sort_rows (r ∷ rest) = insert_row r (sort_rows rest)

abbrev pub picked : Owner → ℕ → ℕ → List Row → List Row
picked owner now limit rows = take limit (sort_rows (select (can_claim owner now) rows))

abbrev pub is_among : List Row → Row → Bool
is_among rows r = exists (λ s. key_eq r.event_key s.event_key) rows

-- The SET clause of Claim, with the token that the database draws.
abbrev pub leased : ℕ → ℕ → (EventKey → Uuid) → Row → Row
leased now lease draw r = record r {
  lease_token = some (draw r.event_key);
  locked_until = some (now + lease);
  attempts = r.attempts + 1;
}

abbrev pub event_of : (EventKey → Uuid) → Row → Event
event_of draw r = record {
  id = r.event_key;
  lease_token = draw r.event_key;
  queue = r.queue;
  payload = r.payload;
  attempts = r.attempts + 1;
}

-- Claim: the events, and the table with their leases.
unfoldable pub claim : Owner → ℕ → ℕ → ℕ → (EventKey → Uuid) → List Row → List Event × List Row
claim owner now limit lease draw rows =
    let chosen = picked owner now limit rows in
    (map (event_of draw) chosen, update (is_among chosen) (leased now lease draw) rows)

abbrev pub has_token : Uuid → Option Uuid → Bool
has_token token none = false
has_token token (some t) = t == token

-- WHERE id=$1 AND lease_token=$2 AND published_at IS NULL.
abbrev pub owns : EventKey → Uuid → Row → Bool
owns id token r = key_eq id r.event_key && has_token token r.lease_token && is_none r.published_at

-- What the caller hears of an UPDATE that reached no row.
abbrev pub reached : Owner → Bool → Result (Unit {0})
reached gateway hit = ok tt
reached scheduler hit = if hit then ok tt else err not_found

-- The gateway clears the last error of a row that it published.
abbrev pub published : Owner → ℕ → Row → Row
published gateway now r = record r {
  published_at = some now;
  lease_token = none;
  locked_until = none;
  last_error = none;
}
published scheduler now r = record r {
  published_at = some now;
  lease_token = none;
  locked_until = none;
}

unfoldable pub mark_published :
    Owner → ℕ → EventKey → Uuid → List Row → Result (Unit {0}) × List Row
mark_published owner now id token rows =
    (reached owner (exists (owns id token) rows), update (owns id token) (published owner now) rows)

abbrev pub released : ℕ → ℕ → String → Row → Row
released now delay last_error r = record r {
  available_at = now + delay;
  lease_token = none;
  locked_until = none;
  last_error = some last_error;
}

unfoldable pub retry :
    Owner → ℕ → EventKey → Uuid → String → ℕ → List Row → Result (Unit {0}) × List Row
retry owner now id token last_error delay rows = (
  reached owner (exists (owns id token) rows),
  update (owns id token) (released now delay last_error) rows,
)
