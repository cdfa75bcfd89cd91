-- ===== src/Gateway/Alerts/Exact.antt =====
-- The alert loop of ProcessPriceResult against a description of each subscription by itself.
use price_scount.Base.{
  ℕ, true, false, not, ◌&&◌, some, List, [], ◌∷◌, ◌++◌, map, ◌==◌, ◌≡◌, refl, ap, arith, All,
  All-append, sym, ◌∙◌, find, incr64, if◌then◌else◌, Bool-cases, inl, inr,
}
use mathlib.Core.List.{append_assoc}
use mathlib.Core.Path.{subst}
use price_scount.Base.Int.{Float64}
use price_scount.Env.{Env, Uuid}
use price_scount.Contracts.{PriceResult}
use price_scount.Gateway.Db.{Db, Product, User, Subscription, AlertState, state_eq}
use price_scount.Gateway.Alerts.{
  alert_row, alert_rows, classify, or_zero, send_alert, send_alerts, set_alert, watches,
}

abbrev pub Absent : Uuid → List Subscription → Type 0
Absent id = All (λ s. (s.id == id) ≡ false)

-- No id stands twice: the primary key of the table.
abbrev pub Distinct : List Subscription → Type 0
Distinct [] = Unit
Distinct (s ∷ rest) = Absent s.id rest × Distinct rest

-- Every user of a subscription is there: the foreign key of the table.
abbrev pub HasUsers : List User → List Subscription → Type 0
HasUsers users = All (λ s. (u : User) × (find (λ u. u.id == s.user_id) users ≡ some u))

abbrev pub next_state : Float64 → Subscription → AlertState
next_state price s = classify price (or_zero s.min_price) (or_zero s.max_price)

-- What a fresh price of a product makes of one subscription.
unfoldable pub alerted : Float64 → Uuid → Subscription → Subscription
alerted price product s =
    if watches product s && not (state_eq (next_state price s) s.alert_state)
    then record s { alert_state = next_state price s; alert_version = incr64 s.alert_version }
    else s

set_alert-Absent :
    (id : Uuid) (state : AlertState) (v : ℕ) (rows : List Subscription)
    → Absent id rows
    → set_alert id state v rows ≡ rows
unfolding set_alert
set_alert-Absent id state v [] h = refl
set_alert-Absent id state v (s ∷ rows) h = ground (arith, set_alert-Absent id state v rows h.1)

set_alert-middle :
    (state : AlertState) (v : ℕ) (pre : List Subscription) (s : Subscription)
    (rest : List Subscription)
    → Absent s.id pre
    → Absent s.id rest
    → set_alert s.id state v (pre ++ s ∷ rest)
      ≡ pre ++ record s { alert_state = state; alert_version = v } ∷ rest
unfolding set_alert
set_alert-middle state v [] s rest hp hr = ground (arith, set_alert-Absent s.id state v rest hr)
set_alert-middle state v (x ∷ pre) s rest hp hr =
    ground (arith, set_alert-middle state v pre s rest hp.1 hr)

All-nil : (rest : List Subscription) → All (λ t. Absent t.id []) rest
All-nil [] = tt
All-nil (s ∷ rest) = (tt, All-nil rest)

Absent-snoc :
    (rest pre : List Subscription) (s : Subscription)
    → All (λ t. Absent t.id pre) rest
    → Absent s.id rest
    → All (λ t. Absent t.id (pre ++ s ∷ [])) rest
Absent-snoc [] pre s hp hs = tt
Absent-snoc (t ∷ rest) pre s hp hs = (
  All-append (λ x. (x.id == t.id) ≡ false) pre (s ∷ []) hp.0 (ground arith, tt),
  Absent-snoc rest pre s hp.1 hs.1,
)

alerted-id :
    (price : Float64) (product : Uuid) (s : Subscription) → (alerted price product s).id ≡ s.id
unfolding alerted
alerted-id price product s = ground arith

alerted-unwatched :
    (price : Float64) (product : Uuid) (s : Subscription)
    → watches product s ≡ false
    → alerted price product s ≡ s
unfolding alerted
alerted-unwatched price product s h = ground arith

snoc_shift :
    (pre : List Subscription) (s : Subscription) (rest : List Subscription)
    → pre ++ s ∷ rest ≡ (pre ++ s ∷ []) ++ rest
snoc_shift pre s rest = sym (append_assoc pre (s ∷ []) rest)

pub alert_rows-watched :
    (product : Uuid) (us : List User) (s : Subscription) (u : User) (rest : List Subscription)
    → watches product s ≡ true
    → find (λ x. x.id == s.user_id) us ≡ some u
    → alert_rows product us (s ∷ rest) ≡ alert_row s u ∷ alert_rows product us rest
unfolding alert_rows
alert_rows-watched product us s u rest w f = ground arith

pub alert_rows-unwatched :
    (product : Uuid) (us : List User) (s : Subscription) (rest : List Subscription)
    → watches product s ≡ false
    → alert_rows product us (s ∷ rest) ≡ alert_rows product us rest
unfolding alert_rows
alert_rows-unwatched product us s rest w = ground arith

module _ (env : Env) (now : ℕ) (r : PriceResult) (p : Product) where
  send_alert-subscriptions :
      (s : Subscription) (u : User) (pre rest : List Subscription) (db : Db)
      → watches p.id s ≡ true
      → Absent s.id pre
      → Absent s.id rest
      → db.subscriptions ≡ pre ++ s ∷ rest
      → (send_alert env now r p (alert_row s u) db).subscriptions
        ≡ pre ++ alerted r.price p.id s ∷ rest
  unfolding send_alert alerted
  send_alert-subscriptions s u pre rest db w hp hr e =
      ground
        (arith, set_alert-middle (next_state r.price s) (incr64 s.alert_version) pre s rest hp hr)

  loop_subscriptions :
      (us : List User) (rest pre : List Subscription) (db : Db)
      → HasUsers us rest
      → Distinct rest
      → All (λ t. Absent t.id pre) rest
      → db.subscriptions ≡ pre ++ rest
      → (send_alerts env now r p (alert_rows p.id us rest) db).subscriptions
        ≡ pre ++ map (alerted r.price p.id) rest
  unfolding send_alerts
  loop_subscriptions us [] pre db users distinct absent e = unfold send_alerts alert_rows in e
  loop_subscriptions us (s ∷ rest) pre db users distinct absent e =
      elim (Bool-cases (watches p.id s)) [
        | inl watched ↦
            let (u, known) = users.0 in
            let db' = send_alert env now r p (alert_row s u) db in
            let moved = send_alert-subscriptions s u pre rest db watched absent.0 distinct.0 e in
            let later =
              loop_subscriptions us rest (pre ++ s' ∷ []) db' users.1 distinct.1 ready
                (moved ∙ snoc_shift pre s' rest) in
            rw (alert_rows-watched p.id us s u rest watched known, send_alerts)
              (later ∙ sym (snoc_shift pre s' (map (alerted r.price p.id) rest)))
        | inr unwatched ↦
            let later = loop_subscriptions us rest (pre ++ s' ∷ []) db users.1 distinct.1 ready (
              e
              ∙ ap (λ x. pre ++ x ∷ rest) (sym (alerted-unwatched r.price p.id s unwatched))
              ∙ snoc_shift pre s' rest) in
            rw (alert_rows-unwatched p.id us s rest unwatched)
              (later ∙ sym (snoc_shift pre s' (map (alerted r.price p.id) rest)))
      ]
    where
      s' : Subscription
      s' = alerted r.price p.id s

      ready : All (λ t. Absent t.id (pre ++ s' ∷ [])) rest
      ready =
          Absent-snoc rest pre s' absent.1
            (subst (λ i. Absent i rest) (sym (alerted-id r.price p.id s)) distinct.0)

  -- Where ids are distinct and users exist, the loop over the alert rows moves each watched
  -- subscription to the state of the new price, with one more on its alert version if that state is
  -- another, and leaves every other subscription alone.
  pub send_alerts-eq-map :
      (db : Db)
      → HasUsers db.users db.subscriptions
      → Distinct db.subscriptions
      → (send_alerts env now r p (alert_rows p.id db.users db.subscriptions) db).subscriptions
        ≡ map (alerted r.price p.id) db.subscriptions
  send_alerts-eq-map db users distinct =
      loop_subscriptions db.users db.subscriptions [] db users distinct (All-nil db.subscriptions)
        refl
