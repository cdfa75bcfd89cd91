-- ===== src/Notifier/Alert.antt =====
-- services/notifier/internal/alert/alert.go: Send, and what it makes of a response. Delays count
-- microseconds. Cancellation is left out, and with it the error of the context. An error that is
-- neither ErrPermanent nor a RetryError counts as a RetryError with no After, which is treated alike.
pub mod Retries
use price_scount.Base.{
  ℕ, suc, ◌+◌, ◌-◌, ◌*◌, String, Bool, true, false, not, ◌&&◌, ◌||◌, Option, none, some, List, [],
  ◌∷◌, ◌==◌, ltb, leb, if◌then◌else◌,
}

abbrev pub seconds : ℕ → ℕ
seconds n = n * 1000000

-- An error of one request: none, ErrPermanent, or a RetryError with its After.
pub data Outcome : Type 0 where
  sent permanent : Outcome
  transient : ℕ → Outcome

-- What one request meets: no response, an unreadable body, a body that is no JSON, or the API's
-- answer with its ok and retry_after.
pub data Reply : Type 0 where
  no_response unreadable : Reply
  no_json : ℕ → Reply
  answer : ℕ → Bool → ℕ → Reply

-- sendOnce; a status is a number, and retry_after counts seconds. It is what Telegram sends, so not
-- negative and short enough for a Duration.
unfoldable pub send_once : Reply → Outcome
send_once no_response = transient 0
send_once unreadable = transient 0
send_once (no_json status) =
    if leb 400 status && ltb status 500 && not (status == 429) then permanent else transient 0
send_once (answer status is_ok retry_after) =
    if status == 200 && is_ok
    then sent
    else if status == 429
    then transient (seconds retry_after)
    else if leb 500 status || ltb status 400
    then transient 0
    else permanent

abbrev pub delays : List ℕ
delays = seconds 0 ∷ seconds 3 ∷ seconds 6 ∷ seconds 12 ∷ []

pub record Attempt : Type 0 where
  pub outcome : Outcome
  pub requests : ℕ
  pub waited : ℕ

-- The wait that After asks for beyond the delay of the next attempt; none after the last one.
abbrev pub extra_wait : ℕ → List ℕ → ℕ
extra_wait after [] = 0
extra_wait after (next ∷ rest) = after - next

-- One more request after a wait.
abbrev pub after_wait : ℕ → Attempt → Attempt
after_wait delay a = record {
  outcome = a.outcome;
  requests = suc a.requests;
  waited = delay + a.waited;
}

abbrev pub stop_at : Outcome → Attempt
stop_at o = record { outcome = o; requests = 0; waited = 0 }

-- The loop of Send: `reply` gives the reply of each request, the first one at 0.
unfoldable pub send_loop : (ℕ → Reply) → ℕ → Outcome → List ℕ → Attempt
send_loop reply attempt last [] = stop_at last
send_loop reply attempt last (delay ∷ rest) =
    let got = send_once (reply attempt) in
    let more = send_loop reply (suc attempt) got rest in
    after_wait delay (elim got [
      | sent ↦ stop_at sent
      | permanent ↦ stop_at permanent
      | transient after ↦
          if ltb (seconds 30) after
          then stop_at (transient after)
          else record more { waited = extra_wait after rest + more.waited }
    ])

unfoldable pub send : (ℕ → Reply) → Attempt
send reply = send_loop reply 0 sent delays
