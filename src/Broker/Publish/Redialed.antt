-- ===== src/Broker/Publish/Redialed.antt =====
-- shared/pkg/broker/rabbitmq.go: a publisher that is replaced, and the outstanding confirmations.
use mathlib.Core.Path.{subst}
use price_scount.Base.{ℕ, ◌≡◌, sym, ◌⊎◌, inl, inr, Bool, true, false, none, some, arith, Bool-cases}
use price_scount.Broker.{Connection, close, closing, lacks_publisher}
use price_scount.Broker.Publisher.{open_publisher}
use price_scount.Broker.Publisher.Frame.{
  pending, close-idle, open_publisher-idle, open_publisher-made,
}
use price_scount.Broker.Publish.{Redial, adopt, abandon, replace_publisher, redial}
use price_scount.Broker.Publish.Attempts.{Answer-cases}
use price_scount.Broker.Publish.Settled.{IsSettled, idle-IsSettled}

closing-idle : (b : Bool) (c : Connection) → c.publish_ch ≡ none → (closing b c).publish_ch ≡ none
closing-idle true c h = close-idle c h
closing-idle false c h = h

adopt-IsSettled :
    (made : ℕ × ℕ) (c : Connection)
    → c.publish_ch ≡ none
    → c.confirms ≡ some made.1
    → c.returns ≡ some made.1
    → pending made.1 c.trace ≡ 0
    → IsSettled (adopt made c).1
unfolding adopt
adopt-IsSettled made c idle confirms returns rest k e = elim (Bool-cases c.closed) [
  | inl shut ↦ absurd (ground (arith, shut, idle, e))
  | inr open_still ↦ ground (arith, open_still, confirms, returns, rest, e)
]

-- A close that comes before the adoption makes it fail.
adopt_closed-IsSettled :
    (made : ℕ × ℕ) (c : Connection) → c.publish_ch ≡ none → IsSettled (adopt made (close c)).1
unfolding adopt close
adopt_closed-IsSettled made c idle k e = absurd (ground (arith, idle, e))

replace-IsSettled :
    (r : Redial) (c : Connection) → c.publish_ch ≡ none → IsSettled (replace_publisher r c).1
replace-IsSettled r c idle =
    let c' : Connection = (open_publisher r.setup c).1 in
    let idle' : c'.publish_ch ≡ none = (open_publisher-idle r.setup c idle).0 in
    elim (Bool-cases r.expired) [
      | inl e ↦
          let step : (replace_publisher r c).1 ≡ c =
            unfold replace_publisher in ground (arith, e) in
          subst IsSettled (sym step) (idle-IsSettled c idle)
      | inr e ↦ elim (Answer-cases (open_publisher r.setup c).0) [
        | inr (x, f) ↦
            let step : (replace_publisher r c).1 ≡ c' =
              unfold replace_publisher in ground (arith, e, f) in
            subst IsSettled (sym step) (idle-IsSettled c' idle')
        | inl (made, f) ↦
            let step : (replace_publisher r c).1 ≡ (adopt made (closing r.closes_late c')).1 =
              unfold replace_publisher in ground (arith, e, f) in
            let facts : (c'.confirms ≡ some made.1)
                × (c'.returns ≡ some made.1)
                × (pending made.1 c'.trace ≡ 0) =
              open_publisher-made r.setup c made idle f in
            subst IsSettled (sym step) (elim (Bool-cases r.closes_late) [
              | inl late ↦
                  let shut : closing r.closes_late c' ≡ close c' = ground (arith, late) in
                  subst (λ x. IsSettled (adopt made x).1) (sym shut)
                    (adopt_closed-IsSettled made c' idle')
              | inr calm ↦
                  let same : closing r.closes_late c' ≡ c' = ground (arith, calm) in
                  subst (λ x. IsSettled (adopt made x).1) (sym same)
                    (adopt-IsSettled made c' idle' facts.0 facts.1 facts.2)
            ])
      ]
    ]

redial-cases :
    (r : Redial) (c : Connection)
    → ((redial r c).1 ≡ c)
      ⊎ ((redial r c).1 ≡ (replace_publisher r (closing r.closes_early (abandon c))).1)
unfolding redial
redial-cases r c = elim (Bool-cases r.gate) [
  | inr shut ↦ inl (ground (arith, shut))
  | inl entered ↦ elim (Bool-cases c.closed) [
    | inl closed ↦ inl (ground (arith, entered, closed))
    | inr usable ↦ elim (Bool-cases (lacks_publisher r.health c)) [
      | inr healthy ↦ inl (ground (arith, entered, usable, healthy))
      | inl lost ↦ inr (ground (arith, entered, usable, lost))
    ]
  ]
]

pub redial-IsSettled : (r : Redial) (c : Connection) → IsSettled c → IsSettled (redial r c).1
redial-IsSettled r c h = elim (redial-cases r c) [
  | inl same ↦ subst IsSettled (sym same) h
  | inr step ↦
      let left : Connection = abandon c in
      let gone : left.publish_ch ≡ none = ground arith in
      subst IsSettled (sym step)
        (replace-IsSettled r (closing r.closes_early left) (closing-idle r.closes_early left gone))
]
