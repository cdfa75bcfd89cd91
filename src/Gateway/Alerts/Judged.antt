-- ===== src/Gateway/Alerts/Judged.antt =====
-- services/gateway/internal/store/results.go: the alert loop against its description in terms of the
-- thresholds.
use price_scount.Base.{
  ℕ, true, false, some, List, [], ◌∷◌, map, ◌==◌, ◌≡◌, ◌≢◌, inl, inr, refl, sym, arith, find,
  incr64, Bool-cases,
}
use price_scount.Base.Text.{join}
use price_scount.Env.{Env}
use price_scount.Contracts.{PriceResult}
use price_scount.Gateway.Db.{
  Product, User, Subscription, AlertState, calm, up, down, state_eq, state_text,
}
use price_scount.Gateway.Alerts.{classify, or_zero, watches, alert_row, alert_text, alert_task}
use price_scount.Gateway.Alerts.Exact.{HasUsers, next_state, alerted}
use price_scount.Gateway.Alerts.Events.{alert_event, alert_events}
use price_scount.Gateway.Alerts.Story.{
  is_below, is_above, Stands, Idle, Watched, Says, Told, Judged, Story,
}

state_eq_sound : (a b : AlertState) → state_eq a b ≡ true → b ≡ a
state_eq_sound calm calm h = refl
state_eq_sound up up h = refl
state_eq_sound down down h = refl
state_eq_sound _ _ h = absurd (ground (arith, h))

state_eq-apart : (a b : AlertState) → state_eq a b ≡ false → b ≢ a
state_eq-apart calm calm h e = ground (arith, h)
state_eq-apart up up h e = ground (arith, h)
state_eq-apart down down h e = ground (arith, h)
state_eq-apart _ _ h e = ground (arith, e)

module _ (env : Env) (now : ℕ) (r : PriceResult) (p : Product) (users : List User) where
  next_state-Stands : (s : Subscription) → Stands r.price s (next_state r.price s)
  unfolding classify
  next_state-Stands s = elim (Bool-cases (is_below r.price s)) [
    | inl e ↦ inl (e, rw e refl)
    | inr e ↦ elim (Bool-cases (is_above r.price s)) [
      | inl t ↦ inr (inl (e, t, rw (e, t) refl))
      | inr t ↦ inr (inr (e, t, rw (e, t) refl))
    ]
  ]

  unwatched-Idle : (s : Subscription) → watches p.id s ≡ false → Idle p.id s
  unfolding watches
  unwatched-Idle s h = elim (Bool-cases (s.product_id == p.id)) [
    | inr other ↦ inl other
    | inl same ↦ elim (Bool-cases s.active) [
      | inr gone ↦ inr (inl gone)
      | inl active ↦ inr (inr (ground (arith, h, same, active)))
    ]
  ]

  watches-Watched : (s : Subscription) → watches p.id s ≡ true → Watched p.id s
  unfolding watches
  watches-Watched s h = (ground (arith, h), ground (arith, h), ground (arith, h))

  alert_text-Says :
      (state : AlertState) (s : Subscription) (u : User)
      → state_eq state calm ≡ false
      → Says state (state_text state) (alert_text env now r p state (alert_row s u))
  alert_text-Says calm s u h = absurd (ground (arith, h))
  alert_text-Says down s u h = (
    refl,
    (
      join (
          p.name
          ∷ "\n"
          ∷ p.url
          ∷ "\n\nЦена: "
          ∷ env.format_price r.price
          ∷ " "
          ∷ r.currency
          ∷ "\nВаш минимум: "
          ∷ env.format_price (or_zero s.min_price)
          ∷ " "
          ∷ r.currency
          ∷ []),
      unfold alert_text join in refl,
    ),
  )
  alert_text-Says up s u h = (
    refl,
    (
      join (
          p.name
          ∷ "\n"
          ∷ p.url
          ∷ "\n\nЦена: "
          ∷ env.format_price r.price
          ∷ " "
          ∷ r.currency
          ∷ "\nВаш максимум: "
          ∷ env.format_price (or_zero s.max_price)
          ∷ " "
          ∷ r.currency
          ∷ []),
      unfold alert_text join in refl,
    ),
  )

  alert_event-Told :
      (s : Subscription) (u : User)
      → watches p.id s ≡ true
      → state_eq (next_state r.price s) s.alert_state ≡ false
      → state_eq (next_state r.price s) calm ≡ false
      → find (λ x. x.id == s.user_id) users ≡ some u
      → Told env now r p users s (next_state r.price s) (alert_event env now r p users s)
  alert_event-Told s u w changed alarmed known =
      let state = next_state r.price s in
      (
        u,
        state_text state,
        alert_text env now r p state (alert_row s u),
        known,
        alert_text-Says state s u alarmed,
        unfold alert_event alert_task in ground (arith, w, changed, alarmed, known),
      )

  judged :
      (s : Subscription)
      → ((u : User) × (find (λ x. x.id == s.user_id) users ≡ some u))
      → Judged env now r p users s (alerted r.price p.id s) (alert_event env now r p users s)
  judged s (u, known) = elim (Bool-cases (watches p.id s)) [
    | inr w ↦ inl (
      unwatched-Idle s w,
      unfold alerted in ground (arith, w),
      unfold alert_event in ground (arith, w),
    )
    | inl w ↦
        let state = next_state r.price s in
        let here : Watched p.id s = watches-Watched s w in
        let stands : Stands r.price s state = next_state-Stands s in
        elim (Bool-cases (state_eq state s.alert_state)) [
          | inl same ↦ inr (
            here,
            state,
            stands,
            inl (
              state_eq_sound state s.alert_state same,
              unfold alerted in ground (arith, w, same),
              unfold alert_event in ground (arith, w, same),
            ),
          )
          | inr changed ↦
              let moved : alerted r.price p.id s
                  ≡ record s { alert_state = state; alert_version = incr64 s.alert_version } =
                unfold alerted in ground (arith, w, changed) in
              elim (Bool-cases (state_eq state calm)) [
                | inl quiet ↦ inr (
                  here,
                  state,
                  stands,
                  inr (
                    state_eq-apart state s.alert_state changed,
                    moved,
                    inl (
                      sym (state_eq_sound state calm quiet),
                      unfold alert_event in ground (arith, w, changed, quiet),
                    ),
                  ),
                )
                | inr alarmed ↦ inr (
                  here,
                  state,
                  stands,
                  inr (
                    state_eq-apart state s.alert_state changed,
                    moved,
                    inr (alert_event-Told s u w changed alarmed known),
                  ),
                )
              ]
        ]
  ]

  pub alert_events-Story :
      (subs : List Subscription)
      → HasUsers users subs
      → Story env now r p users subs
          (map (alerted r.price p.id) subs)
          (alert_events env now r p users subs)
  unfolding alert_events
  alert_events-Story [] h = refl
  alert_events-Story (s ∷ subs) h = (
    alert_event env now r p users s,
    alert_events env now r p users subs,
    refl,
    judged s h.0,
    alert_events-Story subs h.1,
  )
