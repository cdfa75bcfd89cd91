-- ===== src/Outbox/Table.antt =====
-- The columns of gateway_outbox and scheduler_outbox, and the insertion of an event.
use price_scount.Base.{
  ℕ, String, Bool, false, ◌&&◌, ◌≡◌, true, Option, none, List, [], ◌∷◌, ◌++◌, arith, ◌==◌, str_eq,
  eq_refl, eq_iff, ap, exists, if◌then◌else◌,
}
use price_scount.Env.{Uuid}
use price_scount.Contracts.{Payload}

-- The event_key column: the constructors are the prefixes that the code formats.
pub data EventKey : Type 0 where
  lookup : String → EventKey
  track : Uuid → ℕ → EventKey
  force : String → EventKey
  force_result : String → EventKey
  alert : Uuid → ℕ → EventKey
  periodic : String → EventKey

abbrev pub key_eq : EventKey → EventKey → Bool
key_eq (lookup s) (lookup t) = str_eq s t
key_eq (track p v) (track q w) = p == q && v == w
key_eq (force s) (force t) = str_eq s t
key_eq (force_result s) (force_result t) = str_eq s t
key_eq (alert p v) (alert q w) = p == q && v == w
key_eq (periodic s) (periodic t) = str_eq s t
key_eq _ _ = false

pub key_eq_refl : (k : EventKey) → key_eq k k ≡ true
key_eq_refl (lookup s) = eq_refl s
key_eq_refl (track p v) = ground arith
key_eq_refl (force s) = eq_refl s
key_eq_refl (force_result s) = eq_refl s
key_eq_refl (alert p v) = ground arith
key_eq_refl (periodic s) = eq_refl s

pub key_eq_sound : (j k : EventKey) → key_eq j k ≡ true → j ≡ k
key_eq_sound (lookup s) (lookup t) h = ap lookup ((eq_iff s t).0 h)
key_eq_sound (track p v) (track q w) h = ground arith
key_eq_sound (force s) (force t) h = ap force ((eq_iff s t).0 h)
key_eq_sound (force_result s) (force_result t) h = ap force_result ((eq_iff s t).0 h)
key_eq_sound (alert p v) (alert q w) h = ground arith
key_eq_sound (periodic s) (periodic t) h = ap periodic ((eq_iff s t).0 h)
key_eq_sound _ _ h = absurd (ground arith)

pub record Row : Type 0 where
  pub event_key : EventKey
  pub queue : String
  pub payload : Payload
  pub created_at : ℕ
  pub available_at : ℕ
  pub attempts : ℕ
  pub lease_token : Option Uuid
  pub locked_until : Option ℕ
  pub published_at : Option ℕ
  pub last_error : Option String

abbrev pub has_key : EventKey → List Row → Bool
has_key k rows = exists (λ r. key_eq k r.event_key) rows

-- The row of an INSERT that names the key, the queue and the payload.
abbrev pub new_row : ℕ → EventKey → String → Payload → Row
new_row now k queue payload = record {
  event_key = k;
  queue = queue;
  payload = payload;
  created_at = now;
  available_at = now;
  attempts = 0;
  lease_token = none;
  locked_until = none;
  published_at = none;
  last_error = none;
}

-- INSERT ... ON CONFLICT(event_key) DO NOTHING.
unfoldable pub insert_event : ℕ → EventKey → String → Payload → List Row → List Row
insert_event now k queue payload rows =
    if has_key k rows then rows else rows ++ new_row now k queue payload ∷ []
