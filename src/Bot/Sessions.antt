-- ===== src/Bot/Sessions.antt =====
-- services/bot/internal/state/state.go: the sessions of the chats. The lock makes each operation one
-- step, and a session is a value, as the store copies it.
pub mod Dialog
use price_scount.Base.{
  ℕ, String, Bool, true, false, not, ◌&&◌, ◌||◌, Option, none, some, ◌==◌, str_eq, if◌then◌else◌,
}
use price_scount.Base.Int.{Float64, float_zero}

pub data Step : Type 0 where
  idle waiting_lookup waiting_min_price waiting_max_price editing_min_price editing_max_price : Step

pub record Session : Type 0 where
  pub step : Step
  pub lookup_id : String
  pub product_name : String
  pub product_url : String
  pub current_price : Float64
  pub min_price : Float64
  pub editing_sub_id : String
  pub old_min_price : Float64
  pub old_max_price : Float64
  pub page : ℕ

-- map[int64]Session.
abbrev pub Sessions : Type 0
Sessions = ℕ → Option Session

abbrev pub idle_session : Session
idle_session = record {
  step = idle;
  lookup_id = "";
  product_name = "";
  product_url = "";
  current_price = float_zero;
  min_price = float_zero;
  editing_sub_id = "";
  old_min_price = float_zero;
  old_max_price = float_zero;
  page = 0;
}

abbrev pub is_idle : Step → Bool
is_idle idle = true
is_idle waiting_lookup = false
is_idle waiting_min_price = false
is_idle waiting_max_price = false
is_idle editing_min_price = false
is_idle editing_max_price = false

abbrev pub is_waiting_lookup : Step → Bool
is_waiting_lookup waiting_lookup = true
is_waiting_lookup idle = false
is_waiting_lookup waiting_min_price = false
is_waiting_lookup waiting_max_price = false
is_waiting_lookup editing_min_price = false
is_waiting_lookup editing_max_price = false

-- An assignment to a key of the map, or its deletion.
abbrev pub store : ℕ → Option Session → Sessions → Sessions
store chat s m c = if c == chat then s else m c

abbrev pub or_idle : Option Session → Session
or_idle none = idle_session
or_idle (some s) = s

unfoldable pub get : Sessions → ℕ → Session
get m chat = or_idle (m chat)

-- Set, where nil deletes.
unfoldable pub set : ℕ → Option Session → Sessions → Sessions
set chat s m = store chat s m

-- The test of Update for a session that needs no entry.
unfoldable pub is_blank : Session → Bool
is_blank s = is_idle s.step && str_eq s.lookup_id "" && str_eq s.editing_sub_id "" && s.page == 0

unfoldable pub modify_session : ℕ → (Session → Session) → Sessions → Sessions
modify_session chat f m =
    let s = f (or_idle (m chat)) in if is_blank s then store chat none m else store chat (some s) m

-- CompleteLookup: whether the session was waiting for this lookup, and the map.
unfoldable pub complete_lookup : ℕ → String → Session → Sessions → Bool × Sessions
complete_lookup chat id result m = elim (m chat) [
  | none ↦ (false, m)
  | some s ↦
      if not (is_waiting_lookup s.step) || not (str_eq s.lookup_id id)
      then (false, m)
      else (true, store chat (some (record result { page = s.page })) m)
]

unfoldable pub clear : ℕ → Sessions → Sessions
clear chat m = store chat none m
