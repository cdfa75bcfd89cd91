-- ===== src/Bot/Dialog/Safety/Reached.antt =====
-- services/bot/internal/bot: the states that a bot reaches by the messages, the buttons and the ends
-- of the lookups, in any order.
use mathlib.Core.Path.{subst}
use price_scount.Base.{
  ℕ, ◌≡◌, sym, refl, String, Bool, ◌||◌, Option, none, some, List, [], ◌∷◌, str_eq, arith,
  is_positive64, Bool-cases, Option-cases, inl, inr,
}
use price_scount.Base.Text.{parse_int}
use price_scount.Env.{Env}
use price_scount.Platform.{strip_prefix}
use price_scount.Bot.Sessions.{
  Step, idle, waiting_lookup, waiting_min_price, waiting_max_price, editing_min_price,
  editing_max_price, Session, get, clear, modify_session,
}
use price_scount.Bot.Dialog.{
  welcomed, deleted_message, answered, Gateway, Formats, BotState, act, with_sessions,
}
use price_scount.Bot.Dialog.Lookup.{cancel_lookup, LookupEnd, finish_lookup, release_lookup}
use price_scount.Bot.Dialog.MyList.{set_page, handle_my_list, refresh_my_list}
use price_scount.Bot.Dialog.Handlers.{
  answer_step, handle_message, open_page, commands, run_command, handle_callback,
}
use price_scount.Bot.Dialog.Safety.{
  Priced, IsSound, clear-AllPriced, modify-AllPriced, act-IsSound, say-IsSound, sessions-IsSound,
}
use price_scount.Bot.Dialog.Safety.Kept.{
  cancel_lookup-IsSound, handle_url_submit-IsSound, finish_lookup-IsSound, release_lookup-IsSound,
}
use price_scount.Bot.Dialog.Safety.Listing.{
  handle_my_list-IsSound, refresh_my_list-IsSound, pause_subscription-IsSound,
  resume_subscription-IsSound, delete_subscription-IsSound, handle_history-IsSound,
  handle_force_check-IsSound,
}
use price_scount.Bot.Dialog.Safety.Prices.{
  handle_min_price-IsSound, handle_max_price-IsSound, handle_edit_min_price-IsSound,
  handle_edit_max_price-IsSound, start_edit_subscription-IsSound,
}

module _ (env : Env) (f : Formats) (gw : Gateway) where
  answer_step-IsSound :
      (step : Step) (chat : ℕ) (s : Session) (text : String) (st : BotState)
      → s.step ≡ step
      → Priced s
      → IsSound st
      → IsSound (answer_step env f gw step chat s text st)
  answer_step-IsSound idle chat s text st e p h = handle_url_submit-IsSound chat text st h
  answer_step-IsSound waiting_lookup chat s text st e p h =
      say-IsSound chat "Подожди, загружаю товар..." st h
  answer_step-IsSound waiting_min_price chat s text st e p h =
      handle_min_price-IsSound env f chat s text st h
  answer_step-IsSound waiting_max_price chat s text st e p h =
      handle_max_price-IsSound env f gw chat s text st h (p (rw e refl))
  answer_step-IsSound editing_min_price chat s text st e p h =
      handle_edit_min_price-IsSound env f chat s text st h
  answer_step-IsSound editing_max_price chat s text st e p h =
      handle_edit_max_price-IsSound env f gw chat s text st h (p (rw e refl))

  handle_message-IsSound :
      (chat : ℕ) (text : String) (st : BotState)
      → IsSound st
      → IsSound (handle_message env f gw chat text st)
  handle_message-IsSound chat text st h =
      elim (Bool-cases (str_eq text "/start" || str_eq text "/cancel")) [
        | inl start ↦
            let st' : BotState = cancel_lookup chat st in
            let cleared : BotState = with_sessions (clear chat) st' in
            let h' : IsSound st' = cancel_lookup-IsSound chat st h in
            let step : handle_message env f gw chat text st ≡ act (welcomed chat) cleared =
              unfold handle_message in rw start refl in
            subst IsSound (sym step) (
              act-IsSound (welcomed chat) cleared tt
                (sessions-IsSound (clear chat) st' (clear-AllPriced chat st'.sessions h'.0) h'))
        | inr other ↦ elim (Bool-cases (str_eq text "/mylist" || str_eq text "📋 Мои товары")) [
          | inl list ↦
              let step : handle_message env f gw chat text st ≡ handle_my_list env gw chat st =
                unfold handle_message in rw (other, list) refl in
              subst IsSound (sym step) (handle_my_list-IsSound env gw chat st h)
          | inr plain ↦
              let s : Session = get st.sessions chat in
              let step : handle_message env f gw chat text st
                  ≡ answer_step env f gw s.step chat s text st =
                unfold handle_message in rw (other, plain) refl in
              subst IsSound (sym step) (answer_step-IsSound s.step chat s text st refl (h.0 chat) h)
        ]
      ]

  open_page-IsSound :
      (chat message : ℕ) (number : String) (st : BotState)
      → IsSound st
      → IsSound (open_page env f gw chat message number st)
  open_page-IsSound chat message number st h = elim (Option-cases (parse_int number)) [
    | inl bad ↦
        let step : open_page env f gw chat message number st ≡ st = ground (arith, bad) in
        subst IsSound (sym step) h
    | inr (page, e) ↦ elim (Bool-cases (is_positive64 page)) [
      | inr low ↦
          let step : open_page env f gw chat message number st ≡ st = ground (arith, e, low) in
          subst IsSound (sym step) h
      | inl high ↦
          let turned : BotState = with_sessions (modify_session chat (set_page page)) st in
          let step : open_page env f gw chat message number st
              ≡ refresh_my_list env gw chat message turned =
            rw (open_page, e, high) refl in
          subst IsSound (sym step) (
            refresh_my_list-IsSound env gw chat message turned (
              sessions-IsSound (modify_session chat (set_page page)) st
                (modify-AllPriced chat page st.sessions h.0) h))
    ]
  ]

  -- Every command of a list keeps the state sound.
  AllKeep : List (String × (ℕ → ℕ → String → BotState → BotState)) → Type 0
  AllKeep [] = Unit
  AllKeep ((prefix, command) ∷ rest) =
      ((chat message : ℕ) (id : String) (st : BotState)
        → IsSound st
        → IsSound (command chat message id st))
      × AllKeep rest

  commands-AllKeep : AllKeep (commands env f gw)
  unfolding AllKeep
  commands-AllKeep = (
    open_page-IsSound,
    (
      λ chat message id st h.
          start_edit_subscription-IsSound env f gw chat id (act (deleted_message chat message) st)
            (act-IsSound (deleted_message chat message) st tt h),
      (
        pause_subscription-IsSound env gw,
        (
          resume_subscription-IsSound env gw,
          (
            delete_subscription-IsSound env gw,
            (
              λ chat message id st h. handle_history-IsSound env gw chat message id st h f,
              (handle_force_check-IsSound env gw, tt),
            ),
          ),
        ),
      ),
    ),
  )

  run_command-IsSound :
      (table : List (String × (ℕ → ℕ → String → BotState → BotState))) (chat message : ℕ)
      (text : String) (st : BotState)
      → AllKeep table
      → IsSound st
      → IsSound (run_command env f gw table chat message text st)
  unfolding AllKeep
  run_command-IsSound [] chat message text st k h = h
  run_command-IsSound ((prefix, command) ∷ rest) chat message text st k h =
      let other_result : BotState = run_command env f gw rest chat message text st in
      let other : IsSound other_result = run_command-IsSound rest chat message text st k.1 h in
      elim (Option-cases (strip_prefix prefix text)) [
        | inl miss ↦
            let step : run_command env f gw ((prefix, command) ∷ rest) chat message text st
                ≡ other_result =
              rw (run_command, miss) refl in
            subst IsSound (sym step) other
        | inr (id, found) ↦
            let step : run_command env f gw ((prefix, command) ∷ rest) chat message text st
                ≡ command chat message id st =
              rw (run_command, found) refl in
            subst IsSound (sym step) (k.0 chat message id st h)
      ]

  handle_callback-IsSound :
      (id : String) (below : Option (ℕ × ℕ)) (text : String) (st : BotState)
      → IsSound st
      → IsSound (handle_callback env f gw id below text st)
  unfolding handle_callback
  handle_callback-IsSound id none text st h = act-IsSound (answered id) st tt h
  handle_callback-IsSound id (some (chat, message)) text st h =
      run_command-IsSound (commands env f gw) chat message text (act (answered id) st)
        commands-AllKeep (act-IsSound (answered id) st tt h)

-- The bot before the first update.
abbrev pub new_bot : BotState
new_bot = record {
  sessions = λ c. none;
  active = λ c. none;
  running = [];
  cancelled = [];
  lookup_sequence = 0;
  acts = [];
}

-- The states of a bot. The gateway may answer otherwise each time, and a lookup may end whenever it
-- does, with whatever result.
pub data Reach (env : Env) (f : Formats) : BotState → Type 0 where
  started : Reach env f new_bot
  messaged :
      {st : BotState} (gw : Gateway) (chat : ℕ) (text : String)
      → Reach env f st
      → Reach env f (handle_message env f gw chat text st)
  pressed :
      {st : BotState} (gw : Gateway) (id : String) (below : Option (ℕ × ℕ)) (text : String)
      → Reach env f st
      → Reach env f (handle_callback env f gw id below text st)
  finished :
      {st : BotState} (end : LookupEnd) (expired : Bool) (page chat : ℕ) (id : String)
      → Reach env f st
      → Reach env f (finish_lookup env f end expired page chat id st)
  released :
      {st : BotState} (chat : ℕ) (id : String)
      → Reach env f st
      → Reach env f (release_lookup chat id st)

-- Whatever is written, pressed and found in whatever order, every subscription that the bot asks the
-- gateway to create or to edit has prices that the gateway's own check accepts, every session that
-- asks for a maximum holds a minimum above 0 or one that is not a number, and no more than eight
-- lookups hold a slot.
pub Reach-IsSound : (env : Env) (f : Formats) {st : BotState} → Reach env f st → IsSound st
Reach-IsSound env f started =
    (λ c asks. absurd (unfold get in ground (arith, asks)), tt, omega arith)
Reach-IsSound env f (messaged {st} gw chat text r) =
    handle_message-IsSound env f gw chat text st (Reach-IsSound env f r)
Reach-IsSound env f (pressed {st} gw id below text r) =
    handle_callback-IsSound env f gw id below text st (Reach-IsSound env f r)
Reach-IsSound env f (finished {st} end expired page chat id r) =
    finish_lookup-IsSound env f expired page chat id st (Reach-IsSound env f r) end
Reach-IsSound env f (released {st} chat id r) =
    release_lookup-IsSound chat id st (Reach-IsSound env f r)
