-- ===== src/Bot/Dialog/Safety/Listing.antt =====
-- services/bot/internal/bot/mylist.go: the commands of the list.
use mathlib.Core.Path.{subst}
use price_scount.Base.{
  ℕ, ◌≡◌, sym, refl, String, Bool, true, false, List, [], ◌∷◌, arith, Bool-cases, Option-cases, inl,
  inr,
}
use price_scount.Env.{Env}
use price_scount.Bot.Pages.{Listed, ListPage, build_my_list_page}
use price_scount.Bot.Sessions.{get, modify_session}
use price_scount.Bot.Dialog.{
  Act, listed, relisted, emptied, paused, resumed, deleted, checked, Gateway, Formats, BotState,
  act, say, with_sessions,
}
use price_scount.Bot.Dialog.MyList.{
  set_page, show_page, handle_my_list, refresh_my_list, find_subscription, then_refresh,
  pause_subscription, resume_subscription, delete_subscription, handle_force_check, handle_history,
  history_text, no_list_text, empty_list_text, forced_text, not_forced_text, not_found_text,
  no_history_text,
}
use price_scount.Bot.Dialog.Safety.{
  Sound, IsSound, modify-AllPriced, act-IsSound, say-IsSound, sessions-IsSound,
}

module _ (env : Env) (gw : Gateway) where
  show_page-IsSound :
      (chat : ℕ) (how : ListPage → Act) (subs : List Listed) (st : BotState)
      → ((p : ListPage) → Sound (how p))
      → IsSound st
      → IsSound (show_page env gw chat how subs st)
  show_page-IsSound chat how subs st quiet h =
      let shown : ListPage = build_my_list_page env subs (get st.sessions chat).page in
      let turned : BotState = with_sessions (modify_session chat (set_page shown.actual_page)) st in
      act-IsSound (how shown) turned (quiet shown) (
        sessions-IsSound (modify_session chat (set_page shown.actual_page)) st
          (modify-AllPriced chat shown.actual_page st.sessions h.0) h)

  pub handle_my_list-IsSound :
      (chat : ℕ) (st : BotState) → IsSound st → IsSound (handle_my_list env gw chat st)
  handle_my_list-IsSound chat st h = elim (Option-cases (gw.list_subscriptions chat)) [
    | inl e ↦
        let step : handle_my_list env gw chat st ≡ say chat no_list_text st =
          unfold handle_my_list in ground (arith, e) in
        subst IsSound (sym step) (say-IsSound chat no_list_text st h)
    | inr ([], e) ↦
        let step : handle_my_list env gw chat st ≡ say chat empty_list_text st =
          unfold handle_my_list in ground (arith, e) in
        subst IsSound (sym step) (say-IsSound chat empty_list_text st h)
    | inr (s ∷ subs, e) ↦
        let step : handle_my_list env gw chat st
            ≡ show_page env gw chat (listed chat) (s ∷ subs) st =
          unfold handle_my_list in ground (arith, e) in
        subst IsSound (sym step) (show_page-IsSound chat (listed chat) (s ∷ subs) st (λ p. tt) h)
  ]

  pub refresh_my_list-IsSound :
      (chat message : ℕ) (st : BotState)
      → IsSound st
      → IsSound (refresh_my_list env gw chat message st)
  refresh_my_list-IsSound chat message st h = elim (Option-cases (gw.list_subscriptions chat)) [
    | inl e ↦
        let step : refresh_my_list env gw chat message st ≡ st =
          unfold refresh_my_list in ground (arith, e) in
        subst IsSound (sym step) h
    | inr ([], e) ↦
        let told : BotState = act (emptied chat message) st in
        let step : refresh_my_list env gw chat message st
            ≡ with_sessions (modify_session chat (set_page 0)) told =
          unfold refresh_my_list in ground (arith, e) in
        subst IsSound (sym step) (
          sessions-IsSound (modify_session chat (set_page 0)) told
            (modify-AllPriced chat 0 st.sessions h.0) (act-IsSound (emptied chat message) st tt h))
    | inr (s ∷ subs, e) ↦
        let step : refresh_my_list env gw chat message st
            ≡ show_page env gw chat (relisted chat message) (s ∷ subs) st =
          unfold refresh_my_list in ground (arith, e) in
        subst IsSound (sym step)
          (show_page-IsSound chat (relisted chat message) (s ∷ subs) st (λ p. tt) h)
  ]

  then_refresh-IsSound :
      (chat message : ℕ) (request : Act) (is_ok : Bool) (failure : String) (st : BotState)
      → Sound request
      → IsSound st
      → IsSound (then_refresh env gw chat message request is_ok failure st)
  then_refresh-IsSound chat message request true failure st q h =
      refresh_my_list-IsSound chat message (act request st) (act-IsSound request st q h)
  then_refresh-IsSound chat message request false failure st q h =
      say-IsSound chat failure (act request st) (act-IsSound request st q h)

  module _ (chat message : ℕ) (id : String) (st : BotState) (h : IsSound st) where
    pub pause_subscription-IsSound : IsSound (pause_subscription env gw chat message id st)
    unfolding pause_subscription
    pause_subscription-IsSound =
        then_refresh-IsSound chat message (paused chat id) (gw.pause_subscription chat id)
          "Ошибка. Попробуй снова." st tt h

    pub resume_subscription-IsSound : IsSound (resume_subscription env gw chat message id st)
    unfolding resume_subscription
    resume_subscription-IsSound =
        then_refresh-IsSound chat message (resumed chat id) (gw.resume_subscription chat id)
          "Ошибка. Попробуй снова." st tt h

    pub delete_subscription-IsSound : IsSound (delete_subscription env gw chat message id st)
    unfolding delete_subscription
    delete_subscription-IsSound =
        then_refresh-IsSound chat message (deleted chat id) (gw.delete_subscription chat id)
          "Ошибка удаления." st tt h

    pub handle_force_check-IsSound : IsSound (handle_force_check env gw chat id st)
    handle_force_check-IsSound =
        let asked : BotState = act (checked chat id) st in
        let sound : IsSound asked = act-IsSound (checked chat id) st tt h in
        elim (Bool-cases (gw.force_check chat id)) [
          | inl e ↦
              let step : handle_force_check env gw chat id st ≡ say chat forced_text asked =
                unfold handle_force_check in rw e refl in
              subst IsSound (sym step) (say-IsSound chat forced_text asked sound)
          | inr e ↦
              let step : handle_force_check env gw chat id st ≡ say chat not_forced_text asked =
                unfold handle_force_check in rw e refl in
              subst IsSound (sym step) (say-IsSound chat not_forced_text asked sound)
        ]

    pub handle_history-IsSound : (f : Formats) → IsSound (handle_history env f gw chat id st)
    handle_history-IsSound f = elim (Option-cases (find_subscription env gw chat id)) [
      | inl e ↦
          let step : handle_history env f gw chat id st ≡ say chat not_found_text st =
            unfold handle_history in ground (arith, e) in
          subst IsSound (sym step) (say-IsSound chat not_found_text st h)
      | inr (s, e) ↦ elim (Option-cases (gw.get_history chat id)) [
        | inl n ↦
            let step : handle_history env f gw chat id st ≡ say chat no_history_text st =
              unfold handle_history in ground (arith, e, n) in
            subst IsSound (sym step) (say-IsSound chat no_history_text st h)
        | inr (points, n) ↦
            let text : String = history_text env f gw s.product_name points in
            let step : handle_history env f gw chat id st ≡ say chat text st =
              unfold handle_history in ground (arith, e, n) in
            subst IsSound (sym step) (say-IsSound chat text st h)
      ]
    ]
