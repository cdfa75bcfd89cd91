-- ===== src/Broker/Publish/Attempts.antt =====
-- shared/pkg/broker/rabbitmq.go: publishOn and redial, and the messages that the library accepts.
use price_scount.Base.{
  ℕ, ◌≡◌, refl, ◌⊎◌, inl, inr, String, Bool, true, false, some, ◌∷◌, ap, ◌∙◌, ◌||◌, arith,
  Bool-cases, Option-cases,
}
use price_scount.Broker.{
  BrokerError, deadline_failed, publish_failed, cancelled, unavailable, Answer, done, failed,
  published, Connection, retire_publisher, closing, clear_deadline, limited, io_deadline, note,
}
use price_scount.Broker.Publisher.{open_publisher}
use price_scount.Broker.Publisher.Frame.{
  publications, close-publications, open_publisher-publications,
}
use price_scount.Broker.Publish.{
  Wait, confirm, confirms_closed, context_done, then_returned, then_returns_closed, await_confirm,
  taken, Attempt, conclude, send_on, publish_on, Redial, adopt, replace_publisher, redial, abandon,
  Call, publish_again,
}

retire-publications :
    (k : ℕ) (c : Connection) → publications (retire_publisher k c) ≡ publications c
unfolding retire_publisher
retire-publications k c = ground arith

closing-publications : (b : Bool) (c : Connection) → publications (closing b c) ≡ publications c
closing-publications true c = close-publications c
closing-publications false c = refl

taken-publications :
    (k : ℕ) (w : Wait) (c : Connection) → publications (taken k w c) ≡ publications c
taken-publications k (confirm a r) c = refl
taken-publications k confirms_closed c = refl
taken-publications k context_done c = refl
taken-publications k (then_returned t w) c = taken-publications k w c
taken-publications k (then_returns_closed w) c = taken-publications k w c

conclude-publications :
    (a : Attempt) (k : ℕ) (c : Connection) → publications (conclude a k c).1 ≡ publications c
unfolding conclude
conclude-publications a k c =
    let cleared : Connection = clear_deadline c.pub_net_conn c in
    let waited : Connection = taken k a.wait (closing a.closes_late cleared) in
    ground (
      arith,
      taken-publications k a.wait (closing a.closes_late cleared),
      closing-publications a.closes_late cleared,
      retire-publications k waited,
    )

conclude-answer : (a : Attempt) (k : ℕ) (c : Connection) → (conclude a k c).0 ≡ await_confirm a.wait
unfolding conclude
conclude-answer a k c = refl

replace-publications :
    (r : Redial) (c : Connection) → publications (replace_publisher r c).1 ≡ publications c
unfolding replace_publisher adopt
replace-publications r c =
    let c' : Connection = (open_publisher r.setup c).1 in
    ground (arith, open_publisher-publications r.setup c, closing-publications r.closes_late c')

redial-publications : (r : Redial) (c : Connection) → publications (redial r c).1 ≡ publications c
unfolding redial
redial-publications r c =
    let left : Connection = abandon c in
    ground (
      arith,
      closing-publications r.closes_early left,
      replace-publications r (closing r.closes_early left),
    )

pub Answer-cases :
    {A : Type 0} (r : Answer A) → ((a : A) × (r ≡ done a)) ⊎ ((e : BrokerError) × (r ≡ failed e))
Answer-cases (done a) = inl (a, refl)
Answer-cases (failed e) = inr (e, refl)

-- An attempt that fails publishes nothing, or the wait decides on the one message it published.
abbrev pub Tried : String × String → Attempt → Connection → Answer (Unit {0}) × Connection → Type 0
Tried m a c r =
    ((e : BrokerError) × (r.0 ≡ failed e) × (publications r.1 ≡ publications c))
    ⊎ ((r.0 ≡ await_confirm a.wait) × (publications r.1 ≡ m ∷ publications c))

pub publish_on-cases :
    (queue body : String) (a : Attempt) (c : Connection)
    → ((e : BrokerError) × (publish_on queue body a c ≡ (failed e, c)))
      ⊎ ((k : ℕ) × (c.publish_ch ≡ some k)
          × (publish_on queue body a c ≡ send_on queue body a k (closing a.closes_early c)))
unfolding publish_on
publish_on-cases queue body a c = elim (Bool-cases a.gate) [
  | inr shut ↦ inl (cancelled, ground (arith, shut))
  | inl entered ↦ elim (Option-cases c.publish_ch) [
    | inl gone ↦ inl (unavailable, ground (arith, entered, gone))
    | inr (k, held) ↦ elim (Bool-cases (c.closed || a.channel_is_closed)) [
      | inl lost ↦ inl (unavailable, ground (arith, entered, held, lost))
      | inr usable ↦ inr (k, held, ground (arith, entered, held, usable))
    ]
  ]
]

module _ (queue : String) (body : String) where
  send_on-Tried :
      (a : Attempt) (k : ℕ) (c : Connection) → Tried (queue, body) a c (send_on queue body a k c)
  send_on-Tried a k c = elim (Option-cases c.pub_net_conn) [
    | inl gone ↦
        let step : send_on queue body a k c ≡ (failed deadline_failed, retire_publisher k c) =
          unfold send_on in ground (arith, gone) in
        rw step (inl (deadline_failed, refl, retire-publications k c))
    | inr (socket, held) ↦
        let set : Connection = note (limited socket (io_deadline a.now a.limit)) c in
        let sent : Connection = note (published k queue body) set in
        elim (Bool-cases a.is_set) [
          | inr e ↦
              let step : send_on queue body a k c ≡ (failed deadline_failed, retire_publisher k c) =
                unfold send_on in ground (arith, held, e) in
              rw step (inl (deadline_failed, refl, retire-publications k c))
          | inl e ↦ elim (Bool-cases a.accepted) [
            | inr f ↦
                let step : send_on queue body a k c
                    ≡ (failed publish_failed, retire_publisher k set) =
                  unfold send_on in ground (arith, held, e, f) in
                rw step (inl (publish_failed, refl, retire-publications k set))
            | inl f ↦
                let step : send_on queue body a k c ≡ conclude a k sent =
                  unfold send_on in ground (arith, held, e, f) in
                rw step (inr (conclude-answer a k sent, conclude-publications a k sent))
          ]
        ]
  ]

  pub publish_on-Tried :
      (a : Attempt) (c : Connection) → Tried (queue, body) a c (publish_on queue body a c)
  publish_on-Tried a c = elim (publish_on-cases queue body a c) [
    | inl (e, step) ↦ rw step (inl (e, refl, refl))
    | inr (k, _, step) ↦
        let c' : Connection = closing a.closes_early c in
        let same : publications c' ≡ publications c = closing-publications a.closes_early c in
        rw step (elim (send_on-Tried a k c') [
          | inl (e, h, n) ↦ inl (e, h, n ∙ same)
          | inr (h, n) ↦ inr (h, n ∙ ap (λ t. (queue, body) ∷ t) same)
        ])
  ]

  pub publish_again-Tried :
      (p : Call) (c : Connection) → Tried (queue, body) p.second c (publish_again p queue body c)
  publish_again-Tried p c =
      let c' : Connection = (redial p.redialing c).1 in
      let same : publications c' ≡ publications c = redial-publications p.redialing c in
      elim (Answer-cases (redial p.redialing c).0) [
        | inr (e, h) ↦
            let step : publish_again p queue body c ≡ (failed e, c') =
              unfold publish_again in ground (arith, h) in
            rw step (inl (e, refl, same))
        | inl (_, h) ↦
            let step : publish_again p queue body c ≡ publish_on queue body p.second c' =
              unfold publish_again in ground (arith, h) in
            rw step (elim (publish_on-Tried p.second c') [
              | inl (e, g, n) ↦ inl (e, g, n ∙ same)
              | inr (g, n) ↦ inr (g, n ∙ ap (λ t. (queue, body) ∷ t) same)
            ])
      ]
