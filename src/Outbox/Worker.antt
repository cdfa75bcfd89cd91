-- ===== src/Outbox/Worker.antt =====
-- shared/pkg/outbox/worker.go: one turn of the worker's loop. Durations count microseconds. The
-- store's own faults, which the loop logs, and its waits are left out.
pub mod Delays
pub mod Turn
use price_scount.Base.{
  ℕ, ◌*◌, ◌^◌, String, Bool, true, false, Option, none, some, List, [], ◌∷◌, ltb, leb,
  if◌then◌else◌, max_int64,
}
use price_scount.Env.{Uuid}
use price_scount.Outbox.Table.{Row, EventKey}
use price_scount.Outbox.Lease.{Owner, Event, claim, mark_published, retry}

abbrev pub second : ℕ
second = 1000000

abbrev pub claim_limit : ℕ
claim_limit = 1

abbrev pub lease_duration : ℕ
lease_duration = 60 * second

abbrev pub min_backoff : ℕ
min_backoff = second

abbrev pub max_backoff : ℕ
max_backoff = 60 * second

-- math.Min(float64(attempts), 6) of an int that is not negative.
abbrev pub at_most_six : ℕ → ℕ
at_most_six n = if ltb n 6 then n else 6

-- backoff, with the attempts as a 64-bit pattern.
unfoldable pub backoff : ℕ → ℕ
backoff attempts =
    let n = at_most_six (if leb attempts max_int64 then attempts else 0) in
    let d = min_backoff * 2 ^ n in if ltb max_backoff d then max_backoff else d

-- What becomes of the event of a turn.
pub data Delivery : Type 0 where
  invalid_json delivered : Delivery
  refused : String → Delivery

unfoldable pub deliver : Owner → ℕ → Delivery → Event → List Row → List Row
deliver owner now invalid_json e rows =
    (retry owner now e.id e.lease_token "invalid JSON payload" (backoff e.attempts) rows).1
deliver owner now (refused error) e rows =
    (retry owner now e.id e.lease_token error (backoff e.attempts) rows).1
deliver owner now delivered e rows = (mark_published owner now e.id e.lease_token rows).1

unfoldable pub deliver_all : Owner → ℕ → (Event → Delivery) → List Event → List Row → List Row
deliver_all owner now outcome [] rows = rows
deliver_all owner now outcome (e ∷ rest) rows =
    deliver_all owner now outcome rest (deliver owner now (outcome e) e rows)

-- A turn: the claim at one time, and what follows at a later one.
unfoldable pub turn : Owner → ℕ → ℕ → (EventKey → Uuid) → (Event → Delivery) → List Row → List Row
turn owner now later draw outcome rows =
    let (events, held) = claim owner now claim_limit lease_duration draw rows in
    deliver_all owner later outcome events held
