-- ===== src/Bot/Dialog/Safety/Prices.antt =====
-- services/bot/internal/bot/search.go and edit.go: the answers to the questions for prices.
use mathlib.Core.Path.{subst}
use price_scount.Base.{
  ℕ, ◌≡◌, sym, refl, String, false, Option, some, arith, Bool-cases, Option-cases, inl, inr,
}
use price_scount.Base.Int.{Float64, float_zero, float_le}
use price_scount.Env.{Env}
use price_scount.Bot.Text.{normalize_price, parse_price}
use price_scount.Bot.Sessions.{Session, get, waiting_max_price, editing_max_price}
use price_scount.Bot.Dialog.{created, edited, Gateway, Formats, BotState, act, say}
use price_scount.Bot.Dialog.Lookup.{idle_at}
use price_scount.Bot.Dialog.MyList.{find_subscription, not_found_text}
use price_scount.Bot.Dialog.Edit.{
  store_session, request_of, finish_create, finish_edit, editing_session, min_text, edit_min_text,
  created_text, edited_text, editing_text, retry_create, retry_edit, handle_min_price,
  handle_max_price, handle_edit_min_price, handle_edit_max_price, start_edit_subscription,
  ask_more_text, number_text,
}
use price_scount.Bot.Dialog.Safety.{
  Priced, IsSound, good_prices, set-AllPriced, act-IsSound, say-IsSound,
}

-- A price that is accepted is not at most 0.
pub parse_price-positive :
    (parse_float : String → Option Float64) (text : String) (p : Float64)
    → parse_price parse_float text ≡ some p
    → float_le p float_zero ≡ false
unfolding parse_price
parse_price-positive parse_float text p h =
    elim (Option-cases (parse_float (normalize_price text))) [
      | inl bad ↦ absurd (ground (arith, h, bad))
      | inr (q, e) ↦ elim (Bool-cases (float_le q float_zero)) [
        | inl low ↦ absurd (ground (arith, h, e, low))
        | inr high ↦
            let same : q ≡ p = ground (arith, h, e, high) in
            subst (λ x. float_le x float_zero ≡ false) same high
      ]
    ]

store_session-IsSound :
    (chat : ℕ) (s : Session) (st : BotState)
    → Priced s
    → IsSound st
    → IsSound (store_session chat s st)
store_session-IsSound chat s st p h = (set-AllPriced chat s st.sessions h.0 p, h.1, h.2)

idle_at-Priced : (page : ℕ) → Priced (idle_at page)
idle_at-Priced page asks = absurd (ground (arith, asks))

module _ (env : Env) (f : Formats) where
  module _ (chat : ℕ) (s : Session) (text : String) (st : BotState) (h : IsSound st) where
    pub handle_min_price-IsSound : IsSound (handle_min_price env f chat s text st)
    handle_min_price-IsSound = elim (Option-cases (parse_price f.parse_float text)) [
      | inl e ↦
          let step : handle_min_price env f chat s text st ≡ say chat (number_text "80000") st =
            unfold handle_min_price in ground (arith, e) in
          subst IsSound (sym step) (say-IsSound chat (number_text "80000") st h)
      | inr (price, e) ↦
          let next : Session = record s { min_price = price; step = waiting_max_price } in
          let stored : BotState = store_session chat next st in
          let step : handle_min_price env f chat s text st ≡ say chat (min_text env f s) stored =
            unfold handle_min_price in ground (arith, e) in
          subst IsSound (sym step) (
            say-IsSound chat (min_text env f s) stored (
              store_session-IsSound chat next st
                (λ asks. parse_price-positive f.parse_float text price e) h))
    ]

    pub handle_edit_min_price-IsSound : IsSound (handle_edit_min_price env f chat s text st)
    handle_edit_min_price-IsSound = elim (Option-cases (parse_price f.parse_float text)) [
      | inl e ↦
          let step : handle_edit_min_price env f chat s text st
              ≡ say chat (number_text "80000") st =
            unfold handle_edit_min_price in ground (arith, e) in
          subst IsSound (sym step) (say-IsSound chat (number_text "80000") st h)
      | inr (price, e) ↦
          let next : Session = record s { min_price = price; step = editing_max_price } in
          let stored : BotState = store_session chat next st in
          let step : handle_edit_min_price env f chat s text st
              ≡ say chat (edit_min_text env s) stored =
            unfold handle_edit_min_price in ground (arith, e) in
          subst IsSound (sym step) (
            say-IsSound chat (edit_min_text env s) stored (
              store_session-IsSound chat next st
                (λ asks. parse_price-positive f.parse_float text price e) h))
    ]

module _ (env : Env) (f : Formats) (gw : Gateway) where
  module _ (chat : ℕ) (s : Session) (text : String) (st : BotState) (h : IsSound st) where
    idle_again-IsSound :
        (said_text : String) (asked : BotState)
        → IsSound asked
        → IsSound (say chat said_text (store_session chat (idle_at s.page) asked))
    idle_again-IsSound said_text asked k =
        say-IsSound chat said_text (store_session chat (idle_at s.page) asked)
          (store_session-IsSound chat (idle_at s.page) asked (idle_at-Priced s.page) k)

    finish_create-IsSound :
        (price : Float64) (asked : BotState)
        → IsSound asked
        → IsSound (finish_create env f gw chat s price asked)
    finish_create-IsSound price asked k =
        elim (Bool-cases (gw.create_subscription (request_of chat s price))) [
          | inl e ↦ rw e (idle_again-IsSound (created_text env s price) asked k)
          | inr e ↦ rw e (say-IsSound chat retry_create asked k)
        ]

    pub handle_max_price-IsSound :
        float_le s.min_price float_zero ≡ false → IsSound (handle_max_price env f gw chat s text st)
    handle_max_price-IsSound low = elim (Option-cases (parse_price f.parse_float text)) [
      | inl e ↦
          let step : handle_max_price env f gw chat s text st ≡ say chat (number_text "150000") st =
            unfold handle_max_price in ground (arith, e) in
          subst IsSound (sym step) (say-IsSound chat (number_text "150000") st h)
      | inr (price, e) ↦ elim (Bool-cases (float_le price s.min_price)) [
        | inl small ↦
            let step : handle_max_price env f gw chat s text st
                ≡ say chat (ask_more_text env s) st =
              unfold handle_max_price in rw (handle_max_price, e, small) refl in
            subst IsSound (sym step) (say-IsSound chat (ask_more_text env s) st h)
        | inr more ↦
            let asked : BotState = act (created (request_of chat s price)) st in
            let step : handle_max_price env f gw chat s text st
                ≡ finish_create env f gw chat s price asked =
              unfold handle_max_price in rw (handle_max_price, e, more) refl in
            subst IsSound (sym step) (
              finish_create-IsSound price asked (
                act-IsSound (created (request_of chat s price)) st
                  (good_prices s.min_price price low more) h))
      ]
    ]

    finish_edit-IsSound :
        (price : Float64) (asked : BotState)
        → IsSound asked
        → IsSound (finish_edit env f gw chat s price asked)
    finish_edit-IsSound price asked k =
        elim (Bool-cases (gw.edit_subscription chat s.editing_sub_id s.min_price price)) [
          | inl e ↦ rw e (idle_again-IsSound (edited_text env s price) asked k)
          | inr e ↦ rw e (say-IsSound chat retry_edit asked k)
        ]

    pub handle_edit_max_price-IsSound :
        float_le s.min_price float_zero ≡ false
        → IsSound (handle_edit_max_price env f gw chat s text st)
    handle_edit_max_price-IsSound low = elim (Option-cases (parse_price f.parse_float text)) [
      | inl e ↦
          let step : handle_edit_max_price env f gw chat s text st
              ≡ say chat (number_text "150000") st =
            unfold handle_edit_max_price in ground (arith, e) in
          subst IsSound (sym step) (say-IsSound chat (number_text "150000") st h)
      | inr (price, e) ↦ elim (Bool-cases (float_le price s.min_price)) [
        | inl small ↦
            let step : handle_edit_max_price env f gw chat s text st
                ≡ say chat (ask_more_text env s) st =
              unfold handle_edit_max_price in rw (handle_edit_max_price, e, small) refl in
            subst IsSound (sym step) (say-IsSound chat (ask_more_text env s) st h)
        | inr more ↦
            let asked : BotState = act (edited chat s.editing_sub_id s.min_price price) st in
            let step : handle_edit_max_price env f gw chat s text st
                ≡ finish_edit env f gw chat s price asked =
              unfold handle_edit_max_price in rw (handle_edit_max_price, e, more) refl in
            subst IsSound (sym step) (
              finish_edit-IsSound price asked (
                act-IsSound (edited chat s.editing_sub_id s.min_price price) st
                  (good_prices s.min_price price low more) h))
      ]
    ]

  pub start_edit_subscription-IsSound :
      (chat : ℕ) (sub_id : String) (st : BotState)
      → IsSound st
      → IsSound (start_edit_subscription env f gw chat sub_id st)
  start_edit_subscription-IsSound chat sub_id st h =
      elim (Option-cases (find_subscription env gw chat sub_id)) [
        | inl e ↦
            let step : start_edit_subscription env f gw chat sub_id st
                ≡ say chat not_found_text st =
              unfold start_edit_subscription in ground (arith, e) in
            subst IsSound (sym step) (say-IsSound chat not_found_text st h)
        | inr (sub, e) ↦
            let next : Session = editing_session sub_id sub (get st.sessions chat).page in
            let stored : BotState = store_session chat next st in
            let step : start_edit_subscription env f gw chat sub_id st
                ≡ say chat (editing_text env f sub) stored =
              unfold start_edit_subscription in ground (arith, e) in
            subst IsSound (sym step) (
              say-IsSound chat (editing_text env f sub) stored
                (store_session-IsSound chat next st (λ asks. absurd (ground (arith, asks))) h))
      ]
