-- ===== src/Bot/Dialog/Safety/Kept.antt =====
-- services/bot/internal/bot: every operation of the dialog, and the states that a bot reaches.
use mathlib.Core.Path.{subst}
use price_scount.Base.{
  ℕ, ◌+◌, ◌≤◌, ◌≡◌, sym, refl, String, Bool, false, ◌||◌, none, some, List, [], ◌∷◌, str_eq, ltb,
  length, arith, Bool-cases, Option-cases, inl, inr,
}
use price_scount.Env.{Env}
use price_scount.Strings.{contains}
use price_scount.Bot.Client.{LookupResult}
use price_scount.Bot.Sessions.{Session, idle_session, get, set}
use price_scount.Bot.Dialog.{typing, Formats, BotState, act, say, with_sessions, put}
use price_scount.Bot.Dialog.Lookup.{
  lookup_slots, cancel_lookup, local_id, waiting_session, idle_at, complete, complete_and_say,
  busy_text, link_text, loading_text, take_slot, handle_url_submit, LookupEnd, not_started,
  poll_failed, polled, is_cancelled, priced_session, failed_text, not_started_text,
  poll_failed_text, price_text, show_result, finish_lookup, remove_one, release_lookup,
}
use price_scount.Bot.Dialog.Safety.{
  Priced, IsSound, set-AllPriced, complete-AllPriced, act-IsSound, say-IsSound, sessions-IsSound,
}

pub cancel_lookup-IsSound :
    (chat : ℕ) (st : BotState) → IsSound st → IsSound (cancel_lookup chat st)
cancel_lookup-IsSound chat st h = elim (Option-cases (st.active chat)) [
  | inl gone ↦
      let step : cancel_lookup chat st ≡ st = unfold cancel_lookup in ground (arith, gone) in
      subst IsSound (sym step) h
  | inr (id, found) ↦
      let step : cancel_lookup chat st
          ≡ record st { active = put chat none st.active; cancelled = id ∷ st.cancelled } =
        unfold cancel_lookup in ground (arith, found) in
      subst IsSound (sym step) h
]

complete-IsSound :
    (chat : ℕ) (id : String) (result : Session) (st : BotState)
    → Priced result
    → IsSound st
    → IsSound (complete chat id result st).1
complete-IsSound chat id result st p h =
    (complete-AllPriced chat id result st.sessions h.0 p, h.1, h.2)

complete_and_say-IsSound :
    (chat : ℕ) (id : String) (result : Session) (text : String) (st : BotState)
    → Priced result
    → IsSound st
    → IsSound (complete_and_say chat id result text st)
complete_and_say-IsSound chat id result text st p h =
    let after : IsSound (complete chat id result st).1 = complete-IsSound chat id result st p h in
    elim (Bool-cases (complete chat id result st).0) [
      | inl is_done ↦ rw is_done (say-IsSound chat text (complete chat id result st).1 after)
      | inr late ↦ rw late after
    ]

waits-Priced : (id : String) (page : ℕ) → Priced (waiting_session id page)
waits-Priced id page h = absurd (ground (arith, h))

idles-Priced : (page : ℕ) → Priced (idle_at page)
idles-Priced page h = absurd (ground (arith, h))

take_slot-IsSound :
    (chat : ℕ) (id : String) (page : ℕ) (st : BotState)
    → IsSound st
    → IsSound (take_slot chat id page st)
take_slot-IsSound chat id page st h = elim (Bool-cases (ltb (length st.running) lookup_slots)) [
  | inl free ↦ rw free (h.0, h.1, ground (arith, free))
  | inr full ↦ rw full (
      say-IsSound chat busy_text (complete chat id (idle_at page) st).1
        (complete-IsSound chat id (idle_at page) st (idles-Priced page) h))
]

pub handle_url_submit-IsSound :
    (chat : ℕ) (text : String) (st : BotState)
    → IsSound st
    → IsSound (handle_url_submit chat text st)
handle_url_submit-IsSound chat text st h = elim (Bool-cases (contains "wildberries.ru" text)) [
  | inr other ↦
      let step : handle_url_submit chat text st ≡ say chat link_text st =
        unfold handle_url_submit in rw other refl in
      subst IsSound (sym step) (say-IsSound chat link_text st h)
  | inl link ↦
      let id : String = local_id (st.lookup_sequence + 1) in
      let counted : BotState = record st { lookup_sequence = st.lookup_sequence + 1 } in
      let st' : BotState = cancel_lookup chat counted in
      let page : ℕ = (get st'.sessions chat).page in
      let waiting : BotState = with_sessions (set chat (some (waiting_session id page))) st' in
      let told : BotState = say chat loading_text (act (typing chat) waiting) in
      let step : handle_url_submit chat text st ≡ take_slot chat id page told =
        unfold handle_url_submit in rw link refl in
      let h' : IsSound st' = cancel_lookup-IsSound chat counted h in
      let kept : IsSound waiting =
        sessions-IsSound (set chat (some (waiting_session id page))) st'
          (set-AllPriced chat (waiting_session id page) st'.sessions h'.0 (waits-Priced id page))
          h' in
      subst IsSound (sym step) (
        take_slot-IsSound chat id page told (
          say-IsSound chat loading_text (act (typing chat) waiting)
            (act-IsSound (typing chat) waiting tt kept)))
]

module _ (env : Env) (f : Formats) where
  show_result-IsSound :
      (chat : ℕ) (id lookup_id : String) (r : LookupResult) (st : BotState)
      → IsSound st
      → IsSound (show_result env f chat id lookup_id r st)
  show_result-IsSound chat id lookup_id r st h = elim (Bool-cases (str_eq r.status "failed")) [
    | inl e ↦ rw e (complete_and_say-IsSound chat id idle_session failed_text st (idles-Priced 0) h)
    | inr e ↦ rw e (
        complete_and_say-IsSound chat id (priced_session lookup_id r) (price_text env f r) st
          (λ asks. absurd (ground (arith, asks))) h)
  ]

  module _ (expired : Bool) (page chat : ℕ) (id : String) (st : BotState) (h : IsSound st) where
    live_lookup-IsSound :
        (end : LookupEnd)
        → (expired || is_cancelled id st) ≡ false
        → IsSound (finish_lookup env f end expired page chat id st)
    live_lookup-IsSound not_started live =
        let step : finish_lookup env f not_started expired page chat id st
            ≡ complete_and_say chat id (idle_at page) not_started_text st =
          unfold finish_lookup in rw live refl in
        subst IsSound (sym step) (
          complete_and_say-IsSound chat id (idle_at page) not_started_text st (idles-Priced page) h)
    live_lookup-IsSound (poll_failed lookup_id) live =
        let step : finish_lookup env f (poll_failed lookup_id) expired page chat id st
            ≡ complete_and_say chat id idle_session poll_failed_text st =
          unfold finish_lookup in rw live refl in
        subst IsSound (sym step)
          (complete_and_say-IsSound chat id idle_session poll_failed_text st (idles-Priced 0) h)
    live_lookup-IsSound (polled lookup_id r) live =
        let step : finish_lookup env f (polled lookup_id r) expired page chat id st
            ≡ show_result env f chat id lookup_id r st =
          unfold finish_lookup in rw live refl in
        subst IsSound (sym step) (show_result-IsSound chat id lookup_id r st h)

    pub finish_lookup-IsSound :
        (end : LookupEnd) → IsSound (finish_lookup env f end expired page chat id st)
    finish_lookup-IsSound end = elim (Bool-cases (expired || is_cancelled id st)) [
      | inl gone ↦
          let step : finish_lookup env f end expired page chat id st ≡ st =
            unfold finish_lookup in rw gone refl in
          subst IsSound (sym step) h
      | inr live ↦ live_lookup-IsSound end live
    ]

length-remove_one : (id : String) (xs : List (ℕ × String)) → length (remove_one id xs) ≤ length xs
length-remove_one id [] = omega arith
length-remove_one id ((c, j) ∷ xs) = ground (arith, length-remove_one id xs)

pub release_lookup-IsSound :
    (chat : ℕ) (id : String) (st : BotState) → IsSound st → IsSound (release_lookup chat id st)
unfolding release_lookup
release_lookup-IsSound chat id st h =
    (h.0, h.1, omega (arith, h.2, length-remove_one id st.running))
