-- ===== src/Bot/Dialog/Safety.antt =====
-- services/bot/internal/bot: the prices that the sessions hold and the bot sends, and the lookups that
-- run, through every operation of the dialog.
pub mod Kept
pub mod Listing
pub mod Prices
pub mod Reached
use price_scount.Base.{
  ℕ, suc, ◌≤◌, ◌≡◌, ◌⊎◌, refl, String, Bool, true, false, ◌&&◌, ◌||◌, not, Option, none, some, List,
  [], ◌∷◌, ◌==◌, str_eq, length, All, if◌then◌else◌, arith, Bool-cases, Option-cases, inl, inr,
}
use price_scount.Base.Int.{Float64, float_zero, float_le}
use price_scount.Gateway.Handler.{bad_prices}
use price_scount.Bot.Sessions.{
  Step, idle, waiting_lookup, waiting_min_price, waiting_max_price, editing_min_price,
  editing_max_price, Session, Sessions, idle_session, is_blank, or_idle, get, set, clear,
  modify_session, complete_lookup, is_waiting_lookup,
}
use price_scount.Bot.Dialog.{
  Act, said, listed, relisted, emptied, welcomed, deleted_message, typing, answered, created,
  edited, paused, resumed, deleted, checked, BotState, act, say, with_sessions,
}
use price_scount.Bot.Dialog.Lookup.{lookup_slots}
use price_scount.Bot.Dialog.MyList.{set_page}

abbrev pub asks_maximum : Step → Bool
asks_maximum waiting_max_price = true
asks_maximum editing_max_price = true
asks_maximum idle = false
asks_maximum waiting_lookup = false
asks_maximum waiting_min_price = false
asks_maximum editing_min_price = false

-- A session that asks for the maximum has a minimum that is not at most 0.
abbrev pub Priced : Session → Type 0
Priced s = asks_maximum s.step ≡ true → float_le s.min_price float_zero ≡ false

abbrev pub AllPriced : Sessions → Type 0
AllPriced m = (c : ℕ) → Priced (get m c)

-- A request with prices is one whose prices the gateway accepts.
abbrev pub Sound : Act → Type 0
Sound (created r) = bad_prices r.min_price r.max_price ≡ false
Sound (edited chat id low high) = bad_prices low high ≡ false
Sound _ = Unit

abbrev pub IsSound : BotState → Type 0
IsSound st = AllPriced st.sessions × All Sound st.acts × (length st.running ≤ lookup_slots)

-- The gateway's check of the prices is weaker than the bot's.
pub good_prices :
    (low high : Float64)
    → float_le low float_zero ≡ false
    → float_le high low ≡ false
    → bad_prices low high ≡ false
good_prices low high p q = ground (arith, p, q)

idle-Priced : Priced idle_session
idle-Priced h = absurd (ground (arith, h))

pub set-AllPriced :
    (chat : ℕ) (s : Session) (m : Sessions)
    → AllPriced m
    → Priced s
    → AllPriced (set chat (some s) m)
unfolding set get
set-AllPriced chat s m all p c = elim (Bool-cases (c == chat)) [
  | inl same ↦ rw same p
  | inr other ↦ rw other (all c)
]

pub clear-AllPriced : (chat : ℕ) (m : Sessions) → AllPriced m → AllPriced (clear chat m)
unfolding clear get
clear-AllPriced chat m all c = elim (Bool-cases (c == chat)) [
  | inl same ↦ rw same idle-Priced
  | inr other ↦ rw other (all c)
]

pub modify-AllPriced :
    (chat page : ℕ) (m : Sessions) → AllPriced m → AllPriced (modify_session chat (set_page page) m)
unfolding get
modify-AllPriced chat page m all = elim (Bool-cases (is_blank (set_page page (or_idle (m chat))))) [
  | inl blank ↦
      unfold modify_session in
      rw blank (λ c. elim (Bool-cases (c == chat)) [
        | inl same ↦ rw same idle-Priced
        | inr other ↦ rw other (all c)
      ])
  | inr kept ↦
      unfold modify_session in
      rw kept (λ c. elim (Bool-cases (c == chat)) [
        | inl same ↦ rw same (all chat)
        | inr other ↦ rw other (all c)
      ])
]

complete-cases :
    (chat : ℕ) (id : String) (result : Session) (m : Sessions)
    → ((complete_lookup chat id result m).1 ≡ m)
      ⊎ ((page : ℕ) × ((complete_lookup chat id result m).1
            ≡ set chat (some (record result { page = page })) m))
unfolding complete_lookup set
complete-cases chat id result m = elim (Option-cases (m chat)) [
  | inl gone ↦ inl (rw (complete_lookup, gone) refl)
  | inr (s, found) ↦
      elim (Bool-cases (not (is_waiting_lookup s.step) || not (str_eq s.lookup_id id))) [
        | inl other ↦ inl (rw (complete_lookup, found, other) refl)
        | inr waiting ↦ inr (s.page, rw (complete_lookup, found, waiting) refl)
      ]
]

pub complete-AllPriced :
    (chat : ℕ) (id : String) (result : Session) (m : Sessions)
    → AllPriced m
    → Priced result
    → AllPriced (complete_lookup chat id result m).1
complete-AllPriced chat id result m all p = elim (complete-cases chat id result m) [
  | inl same ↦ rw same all
  | inr (page, step) ↦ rw step (set-AllPriced chat (record result { page = page }) m all p)
]

pub act-IsSound : (a : Act) (st : BotState) → Sound a → IsSound st → IsSound (act a st)
act-IsSound a st s h = (h.0, (s, h.1), h.2)

pub say-IsSound :
    (chat : ℕ) (text : String) (st : BotState) → IsSound st → IsSound (say chat text st)
say-IsSound chat text st h = (h.0, (tt, h.1), h.2)

pub sessions-IsSound :
    (f : Sessions → Sessions) (st : BotState)
    → AllPriced (f st.sessions)
    → IsSound st
    → IsSound (with_sessions f st)
sessions-IsSound f st p h = (p, h.1, h.2)
