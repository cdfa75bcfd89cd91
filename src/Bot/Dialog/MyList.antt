-- ===== src/Bot/Dialog/MyList.antt =====
-- services/bot/internal/bot/mylist.go: the commands around the list of the subscriptions.
use price_scount.Base.{
  ℕ, String, Bool, Option, none, some, List, [], ◌∷◌, str_eq, if◌then◌else◌, find,
}
use price_scount.Base.Text.{join}
use price_scount.Env.{Env}
use price_scount.Bot.Sessions.{Session, get, modify_session}
use price_scount.Bot.Pages.{Listed, ListPage, build_my_list_page}
use price_scount.Bot.Dialog.{
  Act, listed, relisted, emptied, paused, resumed, deleted, checked, Point, Gateway, Formats,
  BotState, act, say, with_sessions,
}

abbrev pub no_list_text : String
no_list_text = "Не удалось загрузить список."

abbrev pub empty_list_text : String
empty_list_text =
    "У тебя пока нет отслеживаемых товаров.\n\nПришли ссылку на товар с Wildberries чтобы начать."

abbrev pub forced_text : String
forced_text = "🔄 Проверка запущена.\n\nРезультат придёт в течение минуты."

abbrev pub not_forced_text : String
not_forced_text = "Не удалось запустить проверку. Попробуй снова."

abbrev pub not_found_text : String
not_found_text = "Подписка не найдена."

abbrev pub no_history_text : String
no_history_text = "Не удалось загрузить историю."

abbrev pub set_page : ℕ → Session → Session
set_page page s = record s { page = page }

module _ (env : Env) (gw : Gateway) where
  -- The page that is shown, and its number kept in the session.
  abbrev pub show_page : ℕ → (ListPage → Act) → List Listed → BotState → BotState
  show_page chat how subs st =
      let shown = build_my_list_page env subs (get st.sessions chat).page in
      act (how shown) (with_sessions (modify_session chat (set_page shown.actual_page)) st)

  -- handleMyList.
  unfoldable pub handle_my_list : ℕ → BotState → BotState
  handle_my_list chat st = elim (gw.list_subscriptions chat) [
    | none ↦ say chat no_list_text st
    | some [] ↦ say chat empty_list_text st
    | some (s ∷ subs) ↦ show_page chat (listed chat) (s ∷ subs) st
  ]

  -- refreshMyList.
  unfoldable pub refresh_my_list : ℕ → ℕ → BotState → BotState
  refresh_my_list chat message st = elim (gw.list_subscriptions chat) [
    | none ↦ st
    | some [] ↦ with_sessions (modify_session chat (set_page 0)) (act (emptied chat message) st)
    | some (s ∷ subs) ↦ show_page chat (relisted chat message) (s ∷ subs) st
  ]

  -- findSubscription, with its error as `none`.
  unfoldable pub find_subscription : ℕ → String → Option Listed
  find_subscription chat sub_id = elim (gw.list_subscriptions chat) [
    | none ↦ none
    | some subs ↦ find (λ s. str_eq s.id sub_id) subs
  ]

  -- pauseSubscription, resumeSubscription and deleteSubscription: the request, and the list anew if
  -- it is accepted.
  abbrev pub then_refresh : ℕ → ℕ → Act → Bool → String → BotState → BotState
  then_refresh chat message request is_ok failure st =
      let asked = act request st in
      if is_ok then refresh_my_list chat message asked else say chat failure asked

  unfoldable pub pause_subscription : ℕ → ℕ → String → BotState → BotState
  pause_subscription chat message id st =
      then_refresh chat message (paused chat id) (gw.pause_subscription chat id)
        "Ошибка. Попробуй снова." st

  unfoldable pub resume_subscription : ℕ → ℕ → String → BotState → BotState
  resume_subscription chat message id st =
      then_refresh chat message (resumed chat id) (gw.resume_subscription chat id)
        "Ошибка. Попробуй снова." st

  unfoldable pub delete_subscription : ℕ → ℕ → String → BotState → BotState
  delete_subscription chat message id st =
      then_refresh chat message (deleted chat id) (gw.delete_subscription chat id)
        "Ошибка удаления." st

  -- handleForceCheck.
  unfoldable pub handle_force_check : ℕ → String → BotState → BotState
  handle_force_check chat id st =
      let asked = act (checked chat id) st in
      if gw.force_check chat id then say chat forced_text asked else say chat not_forced_text asked

module _ (env : Env) (f : Formats) (gw : Gateway) where
  abbrev pub point_lines : List Point → List String
  point_lines [] = []
  point_lines (p ∷ points) =
      env.format_price p.price
      ∷ " "
      ∷ p.currency
      ∷ "  "
      ∷ f.clock p.scraped_at
      ∷ "\n"
      ∷ point_lines points

  abbrev pub history_text : String → List Point → String
  history_text name [] = join (
      "📊 " ∷ name ∷ "\n\nИстория цен пока пуста — нажми 🔄 Проверить чтобы получить первые данные."
      ∷ [])
  history_text name (p ∷ points) =
      join ("📊 История цен: " ∷ name ∷ "\n\n" ∷ point_lines (p ∷ points))

  -- handleHistory.
  unfoldable pub handle_history : ℕ → String → BotState → BotState
  handle_history chat id st = elim (find_subscription env gw chat id) [
    | none ↦ say chat not_found_text st
    | some s ↦ elim (gw.get_history chat id) [
      | none ↦ say chat no_history_text st
      | some points ↦ say chat (history_text s.product_name points) st
    ]
  ]
