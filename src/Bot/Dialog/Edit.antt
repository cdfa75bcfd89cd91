-- ===== src/Bot/Dialog/Edit.antt =====
-- services/bot/internal/bot/search.go and edit.go: the questions for the two prices, of a new
-- subscription and of one that is edited.
use price_scount.Base.{ℕ, String, Option, none, some, [], ◌∷◌, if◌then◌else◌}
use price_scount.Base.Text.{join}
use price_scount.Base.Int.{Float64, float_zero, float_lt, float_le}
use price_scount.Env.{Env}
use price_scount.Bot.Sessions.{
  Session, waiting_max_price, editing_min_price, editing_max_price, idle_session, get, set,
}
use price_scount.Bot.Text.{parse_price}
use price_scount.Bot.Pages.{Listed}
use price_scount.Bot.Client.{CreateSubscriptionRequest}
use price_scount.Bot.Dialog.{created, edited, Gateway, Formats, BotState, act, say, with_sessions}
use price_scount.Bot.Dialog.Lookup.{idle_at}
use price_scount.Bot.Dialog.MyList.{find_subscription, not_found_text}

abbrev pub or_zero : Option Float64 → Float64
or_zero none = float_zero
or_zero (some p) = p

abbrev pub store_session : ℕ → Session → BotState → BotState
store_session chat s st = with_sessions (set chat (some s)) st

abbrev pub number_text : String → String
number_text example = join ("Введи число. Например: " ∷ example ∷ [])

abbrev pub retry_create : String
retry_create = "Ошибка сохранения подписки. Попробуй снова."

abbrev pub retry_edit : String
retry_edit = "Ошибка обновления. Попробуй снова."

module _ (env : Env) where
  abbrev pub ask_more_text : Session → String
  ask_more_text s = join (
      "Максимум должен быть больше минимума ("
      ∷ env.format_price s.min_price
      ∷ "). Попробуй снова:"
      ∷ [])

  abbrev pub current_hint : Session → String
  current_hint s =
      if float_lt float_zero s.current_price
      then (join ("Текущая цена: " ∷ env.format_price s.current_price ∷ " ₽\n\n" ∷ []))
      else ""

  abbrev pub edit_min_text : Session → String
  edit_min_text s = join (
      "Теперь укажи новую максимальную цену (сейчас: "
      ∷ env.format_price s.old_max_price
      ∷ " ₽):"
      ∷ [])

  abbrev pub created_text : Session → Float64 → String
  created_text s price = join (
      "Готово! Слежу за «"
      ∷ s.product_name
      ∷ "»\n\n"
      ∷ s.product_url
      ∷ "\n\nДиапазон: "
      ∷ env.format_price s.min_price
      ∷ " — "
      ∷ env.format_price price
      ∷ " ₽\n\nУведомлю если цена выйдет за границы."
      ∷ [])

  abbrev pub edited_text : Session → Float64 → String
  edited_text s price = join (
      "Готово! Новый диапазон: "
      ∷ env.format_price s.min_price
      ∷ " — "
      ∷ env.format_price price
      ∷ " ₽\n\n/mylist — посмотреть все товары"
      ∷ [])

module _ (env : Env) (f : Formats) where
  abbrev pub min_text : Session → String
  min_text s = join (
      current_hint env s
      ∷ "Теперь укажи максимальную цену — уведомлю если цена вырастет выше.\n\nПример: "
      ∷ env.format_price (f.eleven_tenths s.current_price)
      ∷ [])

  abbrev pub editing_text : Listed → String
  editing_text sub = join (
      "Редактирую "
      ∷ f.quoted sub.product_name
      ∷ "\n\nУкажи новую минимальную цену (сейчас: "
      ∷ env.format_price (or_zero sub.min_price)
      ∷ " ₽):"
      ∷ [])

  -- handleMinPrice; `s` is the session of the chat.
  unfoldable pub handle_min_price : ℕ → Session → String → BotState → BotState
  handle_min_price chat s text st = elim (parse_price f.parse_float text) [
    | none ↦ say chat (number_text "80000") st
    | some price ↦
        say chat (min_text s)
          (store_session chat (record s { min_price = price; step = waiting_max_price }) st)
  ]

  -- handleEditMinPrice.
  unfoldable pub handle_edit_min_price : ℕ → Session → String → BotState → BotState
  handle_edit_min_price chat s text st = elim (parse_price f.parse_float text) [
    | none ↦ say chat (number_text "80000") st
    | some price ↦
        say chat (edit_min_text env s)
          (store_session chat (record s { min_price = price; step = editing_max_price }) st)
  ]

abbrev pub request_of : ℕ → Session → Float64 → CreateSubscriptionRequest
request_of chat s price = record {
  chat_id = chat;
  lookup_id = s.lookup_id;
  min_price = s.min_price;
  max_price = price;
}

abbrev pub editing_session : String → Listed → ℕ → Session
editing_session sub_id sub page = record idle_session {
  step = editing_min_price;
  editing_sub_id = sub_id;
  old_min_price = or_zero sub.min_price;
  old_max_price = or_zero sub.max_price;
  page = page;
}

module _ (env : Env) (f : Formats) (gw : Gateway) where
  abbrev pub finish_create : ℕ → Session → Float64 → BotState → BotState
  finish_create chat s price st =
      if gw.create_subscription (request_of chat s price)
      then say chat (created_text env s price) (store_session chat (idle_at s.page) st)
      else say chat retry_create st

  -- handleMaxPrice.
  unfoldable pub handle_max_price : ℕ → Session → String → BotState → BotState
  handle_max_price chat s text st = elim (parse_price f.parse_float text) [
    | none ↦ say chat (number_text "150000") st
    | some price ↦
        if float_le price s.min_price
        then say chat (ask_more_text env s) st
        else finish_create chat s price (act (created (request_of chat s price)) st)
  ]

  abbrev pub finish_edit : ℕ → Session → Float64 → BotState → BotState
  finish_edit chat s price st =
      if gw.edit_subscription chat s.editing_sub_id s.min_price price
      then say chat (edited_text env s price) (store_session chat (idle_at s.page) st)
      else say chat retry_edit st

  -- handleEditMaxPrice.
  unfoldable pub handle_edit_max_price : ℕ → Session → String → BotState → BotState
  handle_edit_max_price chat s text st = elim (parse_price f.parse_float text) [
    | none ↦ say chat (number_text "150000") st
    | some price ↦
        if float_le price s.min_price
        then say chat (ask_more_text env s) st
        else finish_edit chat s price (act (edited chat s.editing_sub_id s.min_price price) st)
  ]

  -- startEditSubscription.
  unfoldable pub start_edit_subscription : ℕ → String → BotState → BotState
  start_edit_subscription chat sub_id st = elim (find_subscription env gw chat sub_id) [
    | none ↦ say chat not_found_text st
    | some sub ↦
        say chat (editing_text env f sub)
          (store_session chat (editing_session sub_id sub (get st.sessions chat).page) st)
  ]
