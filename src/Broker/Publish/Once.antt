-- ===== src/Broker/Publish/Once.antt =====
-- shared/pkg/broker/rabbitmq.go: Publish as a whole.
use price_scount.Base.{
  ◌≡◌, refl, ◌⊎◌, inl, inr, String, some, ◌∷◌, ap, ◌∙◌, not, ◌||◌, arith, Bool-cases,
}
use price_scount.Broker.{BrokerError, Answer, done, failed, Connection, is_dead}
use price_scount.Broker.Publisher.Frame.{publications}
use price_scount.Broker.Publish.{await_confirm, publish_on, Call, publish_again, publish}
use price_scount.Broker.Publish.Confirmed.{Acked, await_confirm-eq-done}
use price_scount.Broker.Publish.Attempts.{Answer-cases, publish_on-Tried, publish_again-Tried}

-- The outcome of a call, for either attempt: the messages that were accepted, and on success the
-- attempt whose message is acknowledged.
abbrev pub Outcome : String → String → Call → Connection → Answer (Unit {0}) × Connection → Type 0
Outcome queue body p c r =
    ((r.0 ≡ done tt) × Acked p.first.wait × (publications r.1 ≡ (queue, body) ∷ publications c))
    ⊎ ((r.0 ≡ done tt)
        × Acked p.second.wait
        × ((publications r.1 ≡ (queue, body) ∷ publications c)
            ⊎ (publications r.1 ≡ (queue, body) ∷ (queue, body) ∷ publications c)))
    ⊎ ((e : BrokerError) × (r.0 ≡ failed e)
        × ((publications r.1 ≡ publications c)
            ⊎ (publications r.1 ≡ (queue, body) ∷ publications c)
            ⊎ (publications r.1 ≡ (queue, body) ∷ (queue, body) ∷ publications c)))

failed-Outcome :
    (queue body : String) (p : Call) (c c' : Connection) (e : BrokerError)
    → (publications c' ≡ publications c) ⊎ (publications c' ≡ (queue, body) ∷ publications c)
    → Outcome queue body p c (failed e, c')
failed-Outcome queue body p c c' e (inl n) = inr (inr (e, refl, inl n))
failed-Outcome queue body p c c' e (inr n) = inr (inr (e, refl, inr (inl n)))

-- From the state after a failed first attempt.
again-Outcome :
    (queue body : String) (p : Call) (c c' : Connection)
    → (publications c' ≡ publications c) ⊎ (publications c' ≡ (queue, body) ∷ publications c)
    → Outcome queue body p c (publish_again p queue body c')
again-Outcome queue body p c c' before = elim (publish_again-Tried queue body p c') [
  | inl (e, h, n) ↦
      inr (inr (e, h, elim before [ inl b ↦ inl (n ∙ b) | inr b ↦ inr (inl (n ∙ b)) ]))
  | inr (h, n) ↦
      let total : (publications (publish_again p queue body c').1 ≡ (queue, body) ∷ publications c)
          ⊎ (publications (publish_again p queue body c').1
              ≡ (queue, body) ∷ (queue, body) ∷ publications c) =
        elim before [
          | inl b ↦ inl (n ∙ ap (λ t. (queue, body) ∷ t) b)
          | inr b ↦ inr (n ∙ ap (λ t. (queue, body) ∷ t) b)
        ] in
      elim (Answer-cases (await_confirm p.second.wait)) [
        | inl (_, g) ↦ inr (inl (h ∙ g, (await_confirm-eq-done p.second.wait).0 g, total))
        | inr (e, g) ↦ inr (inr (e, h ∙ g, inr total))
      ]
]

-- From a failed first attempt.
retry-Outcome :
    (p : Call) (queue body : String) (c : Connection) (e : BrokerError)
    → (publish_on queue body p.first c).0 ≡ failed e
    → (publications (publish_on queue body p.first c).1 ≡ publications c)
      ⊎ (publications (publish_on queue body p.first c).1 ≡ (queue, body) ∷ publications c)
    → Outcome queue body p c (publish p queue (some body) c)
retry-Outcome p queue body c e h before =
    let c' : Connection = (publish_on queue body p.first c).1 in
    elim (Bool-cases (p.expired || not (is_dead p.health c'))) [
      | inl kept ↦
          let step : publish p queue (some body) c ≡ (failed e, c') =
            unfold publish in ground (arith, h, kept) in
          rw step (failed-Outcome queue body p c c' e before)
      | inr dead ↦
          let step : publish p queue (some body) c ≡ publish_again p queue body c' =
            unfold publish in ground (arith, h, dead) in
          rw step (again-Outcome queue body p c c' before)
    ]

-- Publish returns without an error only if the message that one of its attempts published was
-- confirmed and did not come back; the first attempt publishes it once, and where the second one
-- succeeds it was published once or twice. With an error it was published twice at most. No other
-- message is ever published.
pub publish-Outcome :
    (p : Call) (queue body : String) (c : Connection)
    → Outcome queue body p c (publish p queue (some body) c)
publish-Outcome p queue body c = elim (publish_on-Tried queue body p.first c) [
  | inl (e, h, n) ↦ retry-Outcome p queue body c e h (inl n)
  | inr (h, n) ↦ elim (Answer-cases (await_confirm p.first.wait)) [
    | inr (e, g) ↦ retry-Outcome p queue body c e (h ∙ g) (inr n)
    | inl (_, g) ↦
        let c' : Connection = (publish_on queue body p.first c).1 in
        let step : publish p queue (some body) c ≡ (done tt, c') =
          unfold publish in ground (arith, h, g) in
        rw step (inl (refl, (await_confirm-eq-done p.first.wait).0 g, n))
  ]
]
