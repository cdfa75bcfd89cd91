-- ===== src/Bot/Dialog/Lookup.antt =====
-- services/bot/internal/bot/search.go: a lookup from the message with the address to its result.
use Prim.Native.String
use price_scount.Base.{
  ℕ, ◌+◌, String, Bool, not, ◌||◌, Option, none, some, List, [], ◌∷◌, ltb, str_eq, if◌then◌else◌,
  length, exists,
}
use price_scount.Base.Text.{join, decimal}
use price_scount.Env.{Env}
use price_scount.Strings.{contains}
use price_scount.Bot.Sessions.{
  Session, waiting_lookup, waiting_min_price, idle_session, get, set, complete_lookup,
}
use price_scount.Bot.Client.{LookupResult}
use price_scount.Bot.Dialog.{typing, Formats, BotState, act, say, with_sessions, put}

abbrev pub lookup_slots : ℕ
lookup_slots = 8

-- cancelLookup: the active lookup of a chat is forgotten, and its context cancelled.
unfoldable pub cancel_lookup : ℕ → BotState → BotState
cancel_lookup chat st = elim (st.active chat) [
  | none ↦ st
  | some id ↦ record st { active = put chat none st.active; cancelled = id ∷ st.cancelled }
]

abbrev pub local_id : ℕ → String
local_id n = String.◌++◌ "bot-" (decimal 20 n)

-- The session that waits for a lookup, and an idle one.
abbrev pub waiting_session : String → ℕ → Session
waiting_session id page = record idle_session { step = waiting_lookup; lookup_id = id; page = page }

abbrev pub idle_at : ℕ → Session
idle_at page = record idle_session { page = page }

-- CompleteLookup on the state: whether the session was waiting for this lookup.
abbrev pub complete : ℕ → String → Session → BotState → Bool × BotState
complete chat id result st =
    let (is_done, m) = complete_lookup chat id result st.sessions in
    (is_done, record st { sessions = m })

-- A text for the user, if the lookup was still awaited.
abbrev pub complete_and_say : ℕ → String → Session → String → BotState → BotState
complete_and_say chat id result text st =
    let (is_done, st') = complete chat id result st in if is_done then say chat text st' else st'

abbrev pub busy_text : String
busy_text = "Сейчас слишком много активных поисков. Попробуй ещё раз через минуту."

abbrev pub loading_text : String
loading_text = "Загружаю информацию о товаре..."

abbrev pub link_text : String
link_text =
    "Пришли ссылку на товар с Wildberries.\n\nПример:\nhttps://www.wildberries.ru/catalog/12345678/detail.aspx"

-- The part of handleURLSubmit that takes a slot, or finds none.
abbrev pub take_slot : ℕ → String → ℕ → BotState → BotState
take_slot chat id page st =
    if ltb (length st.running) lookup_slots
    then record st { active = put chat (some id) st.active; running = (chat, id) ∷ st.running }
    else (say chat busy_text (complete chat id (idle_at page) st).1)

-- handleURLSubmit, up to the start of the goroutine.
unfoldable pub handle_url_submit : ℕ → String → BotState → BotState
handle_url_submit chat text st =
    if not (contains "wildberries.ru" text)
    then say chat link_text st
    else (let id = local_id (st.lookup_sequence + 1) in
        let st' = cancel_lookup chat (record st { lookup_sequence = st.lookup_sequence + 1 }) in
        let page = (get st'.sessions chat).page in
        take_slot chat id page (
          say chat loading_text
            (act (typing chat) (with_sessions (set chat (some (waiting_session id page))) st'))))

-- What a lookup comes to: StartLookup fails, or PollLookup fails or returns a result.
pub data LookupEnd : Type 0 where
  not_started : LookupEnd
  poll_failed : String → LookupEnd
  polled : String → LookupResult → LookupEnd

abbrev pub is_cancelled : String → BotState → Bool
is_cancelled id st = exists (λ j. str_eq j id) st.cancelled

abbrev pub failed_text : String
failed_text = "Не удалось получить информацию о товаре. Проверь ссылку и попробуй снова."

abbrev pub not_started_text : String
not_started_text = "Не удалось запустить поиск товара. Проверь ссылку и попробуй снова."

abbrev pub poll_failed_text : String
poll_failed_text = "Не удалось получить информацию о товаре. Попробуй снова."

-- The session that asks for the minimum.
abbrev pub priced_session : String → LookupResult → Session
priced_session lookup_id r = record idle_session {
  step = waiting_min_price;
  lookup_id = lookup_id;
  product_name = r.name;
  product_url = r.url;
  current_price = r.price;
}

module _ (env : Env) (f : Formats) where
  abbrev pub price_text : LookupResult → String
  price_text r = join (
      "📦 "
      ∷ r.name
      ∷ "\nТекущая цена: "
      ∷ env.format_price r.price
      ∷ " ₽\n\nУкажи минимальную цену — уведомлю если цена упадёт ниже.\n\nПример: "
      ∷ env.format_price (f.nine_tenths r.price)
      ∷ [])

  -- The part of pollLookup behind PollLookup, for a context that is not cancelled.
  abbrev pub show_result : ℕ → String → String → LookupResult → BotState → BotState
  show_result chat id lookup_id r st =
      if str_eq r.status "failed"
      then complete_and_say chat id idle_session failed_text st
      else complete_and_say chat id (priced_session lookup_id r) (price_text r) st

  -- The goroutine of handleURLSubmit with pollLookup, up to where it reports. `page` is the page of
  -- the list when the lookup began, and `expired` says that the bot's own context is done.
  unfoldable pub finish_lookup : LookupEnd → Bool → ℕ → ℕ → String → BotState → BotState
  finish_lookup end expired page chat id st =
      if expired || is_cancelled id st then st else (elim end [
        | not_started ↦ complete_and_say chat id (idle_at page) not_started_text st
        | poll_failed lookup_id ↦ complete_and_say chat id idle_session poll_failed_text st
        | polled lookup_id r ↦ show_result chat id lookup_id r st
      ])

-- Its deferred end: the slot is given back, and the lookup is forgotten if it is still the active one.
abbrev pub remove_one : String → List (ℕ × String) → List (ℕ × String)
remove_one id [] = []
remove_one id ((c, j) ∷ rest) =
    let more = remove_one id rest in if str_eq j id then rest else (c, j) ∷ more

abbrev pub forget : ℕ → String → Option String → (ℕ → Option String) → ℕ → Option String
forget chat id none m = m
forget chat id (some j) m = if str_eq j id then put chat none m else m

unfoldable pub release_lookup : ℕ → String → BotState → BotState
release_lookup chat id st = record st {
  running = remove_one id st.running;
  active = forget chat id (st.active chat) st.active;
}
