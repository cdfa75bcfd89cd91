-- ===== src/Bot/Dialog.antt =====
-- services/bot/internal/bot/bot.go, search.go, edit.go and mylist.go: the dialog of a chat. Telegram
-- and the gateway are arguments, by what they answer; what the bot sends is written to a list, newest
-- first. A lookup runs beside the dialog: it starts with the message, and ends in steps of its own.
pub mod Lookup
pub mod MyList
pub mod Edit
pub mod Handlers
pub mod Safety
use price_scount.Base.{
  ℕ, suc, ◌+◌, String, Bool, true, false, Option, none, some, List, [], ◌∷◌, ◌==◌, str_eq,
  if◌then◌else◌,
}
use price_scount.Base.Int.{Float64}
use price_scount.Bot.Sessions.{Session, Sessions}
use price_scount.Bot.Pages.{Listed, ListPage}
use price_scount.Bot.Client.{CreateSubscriptionRequest}

-- What the bot does: a message, a page of the list, or the list in the place of a message, the list
-- that became empty, and the calls of Telegram without a text.
pub data Act : Type 0 where
  said : ℕ → String → Act
  listed : ℕ → ListPage → Act
  relisted : ℕ → ℕ → ListPage → Act
  emptied deleted_message : ℕ → ℕ → Act
  typing welcomed : ℕ → Act
  answered : String → Act
  -- A request that changes something at the gateway.
  created : CreateSubscriptionRequest → Act
  edited : ℕ → String → Float64 → Float64 → Act
  paused resumed deleted checked : ℕ → String → Act

-- gateway.PricePoint.
pub record Point : Type 0 where
  pub price : Float64
  pub currency : String
  pub scraped_at : ℕ

-- What the gateway answers; an error is `none` or `false`.
pub record Gateway : Type 0 where
  pub list_subscriptions : ℕ → Option (List Listed)
  pub create_subscription : CreateSubscriptionRequest → Bool
  pub edit_subscription : ℕ → String → Float64 → Float64 → Bool
  pub pause_subscription : ℕ → String → Bool
  pub resume_subscription : ℕ → String → Bool
  pub delete_subscription : ℕ → String → Bool
  pub force_check : ℕ → String → Bool
  pub get_history : ℕ → String → Option (List Point)

-- What the bot uses of strconv, fmt and time: ParseFloat, %q, a product with 0.9 or 1.1, and the
-- local time of a price.
pub record Formats : Type 0 where
  pub parse_float : String → Option Float64
  pub quoted : String → String
  pub nine_tenths : Float64 → Float64
  pub eleven_tenths : Float64 → Float64
  pub clock : ℕ → String

pub record BotState : Type 0 where
  pub sessions : Sessions
  -- activeLookups, by the local id of the lookup.
  pub active : ℕ → Option String
  -- The lookups that hold a slot, with their chat, and those whose context was cancelled.
  pub running : List (ℕ × String)
  pub cancelled : List String
  pub lookup_sequence : ℕ
  pub acts : List Act

abbrev pub act : Act → BotState → BotState
act a st = record st { acts = a ∷ st.acts }

abbrev pub say : ℕ → String → BotState → BotState
say chat text st = act (said chat text) st

abbrev pub with_sessions : (Sessions → Sessions) → BotState → BotState
with_sessions f st = record st { sessions = f st.sessions }

-- The entry of a chat, or its deletion.
abbrev pub put : ℕ → Option String → (ℕ → Option String) → ℕ → Option String
put chat id m c = if c == chat then id else m c
