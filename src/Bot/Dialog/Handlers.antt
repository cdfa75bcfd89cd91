-- ===== src/Bot/Dialog/Handlers.antt =====
-- services/bot/internal/bot/bot.go: what a message or a button does, and the retries of a message.
use price_scount.Base.{
  ℕ, suc, ◌+◌, String, Bool, ◌||◌, Option, none, some, List, [], ◌∷◌, ◌==◌, str_eq, if◌then◌else◌,
  is_positive64,
}
use price_scount.Base.Text.{parse_int}
use price_scount.Env.{Env}
use price_scount.Platform.{strip_prefix}
use price_scount.Bot.Sessions.{
  Step, idle, waiting_lookup, waiting_min_price, waiting_max_price, editing_min_price,
  editing_max_price, Session, get, clear, modify_session,
}
use price_scount.Bot.Dialog.{
  welcomed, deleted_message, answered, Gateway, Formats, BotState, act, say, with_sessions,
}
use price_scount.Bot.Dialog.Lookup.{cancel_lookup, handle_url_submit}
use price_scount.Bot.Dialog.MyList.{
  set_page, handle_my_list, refresh_my_list, pause_subscription, resume_subscription,
  delete_subscription, handle_force_check, handle_history,
}
use price_scount.Bot.Dialog.Edit.{
  handle_min_price, handle_max_price, handle_edit_min_price, handle_edit_max_price,
  start_edit_subscription,
}

module _ (env : Env) (f : Formats) (gw : Gateway) where
  -- The answer that the session asks for, by its step.
  abbrev pub answer_step : Step → ℕ → Session → String → BotState → BotState
  answer_step idle chat s text st = handle_url_submit chat text st
  answer_step waiting_lookup chat s text st = say chat "Подожди, загружаю товар..." st
  answer_step waiting_min_price chat s text st = handle_min_price env f chat s text st
  answer_step waiting_max_price chat s text st = handle_max_price env f gw chat s text st
  answer_step editing_min_price chat s text st = handle_edit_min_price env f chat s text st
  answer_step editing_max_price chat s text st = handle_edit_max_price env f gw chat s text st

  -- handleMessage.
  unfoldable pub handle_message : ℕ → String → BotState → BotState
  handle_message chat text st =
      if str_eq text "/start" || str_eq text "/cancel"
      then act (welcomed chat) (with_sessions (clear chat) (cancel_lookup chat st))
      else if str_eq text "/mylist" || str_eq text "📋 Мои товары"
      then handle_my_list env gw chat st
      else (let s = get st.sessions chat in answer_step s.step chat s text st)

  -- A page that is asked for; strconv.Atoi is that of a 64-bit int.
  abbrev pub open_page : ℕ → ℕ → String → BotState → BotState
  open_page chat message number st = elim (parse_int number) [
    | none ↦ st
    | some page ↦
        if is_positive64 page
        then refresh_my_list env gw chat message
            (with_sessions (modify_session chat (set_page page)) st)
        else st
  ]

  -- The commands of the buttons, in the order in which their prefixes are tried.
  abbrev pub commands : List (String × (ℕ → ℕ → String → BotState → BotState))
  commands =
      ("page:", open_page)
      ∷ (
        "edit_sub:",
        λ chat message id st.
            start_edit_subscription env f gw chat id (act (deleted_message chat message) st),
      )
      ∷ ("pause_sub:", pause_subscription env gw)
      ∷ ("resume_sub:", resume_subscription env gw)
      ∷ ("del_sub:", delete_subscription env gw)
      ∷ ("history_sub:", λ chat message id st. handle_history env f gw chat id st)
      ∷ ("check_sub:", λ chat message id st. handle_force_check env gw chat id st)
      ∷ []

  abbrev pub run_command :
      List (String × (ℕ → ℕ → String → BotState → BotState)) → ℕ → ℕ → String → BotState → BotState
  run_command [] chat message text st = st
  run_command ((prefix, command) ∷ rest) chat message text st =
      let other = run_command rest chat message text st in
      elim (strip_prefix prefix text) [ some id ↦ command chat message id st | none ↦ other ]

  -- handleCallback, of a button below a message, if that is there.
  unfoldable pub handle_callback : String → Option (ℕ × ℕ) → String → BotState → BotState
  handle_callback id none text st = act (answered id) st
  handle_callback id (some (chat, message)) text st =
      run_command commands chat message text (act (answered id) st)

-- The retries of send, with the seconds before each attempt.
abbrev pub send_delays : List ℕ
send_delays = 0 ∷ 3 ∷ 6 ∷ 12 ∷ []

-- The attempts that are made: `is_sent` says which are accepted, `waits` whether the wait before one
-- ends before the context.
unfoldable pub send_attempts : (ℕ → Bool) → (ℕ → Bool) → ℕ → List ℕ → ℕ
send_attempts is_sent waits i [] = 0
send_attempts is_sent waits i (delay ∷ rest) =
    let more = send_attempts is_sent waits (i + 1) rest in
    if delay == 0 || waits i then (if is_sent i then 1 else suc more) else 0
