-- ===== src/Notifier/Consumer/Kept.antt =====
-- Where a notification is after handle.
use price_scount.Base.{
  ℕ, String, Bool, true, false, some, str_eq, ◌≡◌, inl, inr, refl, sym, ◌∙◌, ◌+◌, arith, ltb,
  Bool-cases, Option-cases,
}
use price_scount.Base.Text.{parse_int}
use price_scount.Contracts.{NotifyTask}
use price_scount.Notifier.Alert.{Outcome, sent, permanent, transient}
use price_scount.Notifier.Consumer.{
  Message, dead_malformed, dead_task, retry_task, Fate, delivered, requeued, moved, transfer,
  notify_retry_delay, deliver, conclude, is_early, handle,
}

-- The message still has the notification, to be sent later at most.
abbrev pub Carries : NotifyTask → Message → Type 0
Carries task dead_malformed = ⊥
Carries task (dead_task t) = t ≡ task
Carries task (retry_task t) = (at : ℕ) × (t ≡ record task { not_before = at })

abbrev pub Kept : NotifyTask → Fate → Type 0
Kept task delivered = Unit
Kept task requeued = Unit
Kept task (moved m) = Carries task m

transfer-Kept :
    (publishes : Message → Bool) (task : NotifyTask) (m : Message)
    → Carries task m
    → Kept task (transfer publishes m)
transfer-Kept publishes task m c = elim (Bool-cases (publishes m)) [
  | inl taken ↦ rw taken c
  | inr refused ↦ rw refused tt
]

conclude-Kept :
    (later : ℕ) (publishes : Message → Bool) (task : NotifyTask) (o : Outcome)
    → Kept task (conclude later publishes task o)
conclude-Kept later publishes task sent = tt
conclude-Kept later publishes task permanent = transfer-Kept publishes task (dead_task task) refl
conclude-Kept later publishes task (transient after) =
    elim (Bool-cases (ltb notify_retry_delay after)) [
      | inl long ↦ rw long (
          transfer-Kept publishes task (retry_task (record task { not_before = later + after }))
            (later + after, refl))
      | inr short ↦
          rw short (transfer-Kept publishes task (retry_task task) (task.not_before, refl))
    ]

transfer-delivered :
    (publishes : Message → Bool) (m : Message) → transfer publishes m ≡ delivered → ⊥
transfer-delivered publishes m e = ground (arith, e)

conclude-delivered :
    (later : ℕ) (publishes : Message → Bool) (task : NotifyTask) (o : Outcome)
    → conclude later publishes task o ≡ delivered
    → o ≡ sent
conclude-delivered later publishes task sent e = refl
conclude-delivered later publishes task permanent e = absurd (ground (arith, e))
conclude-delivered later publishes task (transient after) e = absurd (ground (arith, e))

deliver-sent :
    (send : ℕ → String → Outcome) (task : NotifyTask)
    → deliver send task ≡ sent
    → (str_eq task.channel "telegram" ≡ true)
      × (chat : ℕ) × (parse_int task.target ≡ some chat)
      × (send chat task.text ≡ sent)
unfolding deliver
deliver-sent send task e = elim (Option-cases (parse_int task.target)) [
  | inl unread ↦ absurd (ground (arith, unread, e))
  | inr (chat, read) ↦ (ground (arith, e), chat, read, ground (arith, read, e))
]

-- A well-formed notification is delivered only when it is not too early, its channel is Telegram and
-- Send accepted its text for the chat of its target; otherwise it goes back to its queue, or moves
-- to another one with everything but its earliest time unchanged.
pub handle-Kept :
    (now later : ℕ) (send : ℕ → String → Outcome) (publishes : Message → Bool) (task : NotifyTask)
    → Kept task (handle now later send publishes (some task))
      × (handle now later send publishes (some task) ≡ delivered
          → (is_early now task ≡ false)
            × (str_eq task.channel "telegram" ≡ true)
            × (chat : ℕ) × (parse_int task.target ≡ some chat)
            × (send chat task.text ≡ sent))
handle-Kept now later send publishes task = elim (Bool-cases (is_early now task)) [
  | inl early ↦
      let run : handle now later send publishes (some task) ≡ transfer publishes (retry_task task) =
        unfold handle in ground (arith, early) in
      (
        rw run (transfer-Kept publishes task (retry_task task) (task.not_before, refl)),
        λ e. absurd (transfer-delivered publishes (retry_task task) (sym run ∙ e)),
      )
  | inr due ↦
      let run : handle now later send publishes (some task)
          ≡ conclude later publishes task (deliver send task) =
        unfold handle in ground (arith, due) in
      (
        rw run (conclude-Kept later publishes task (deliver send task)),
        λ e.
            let got = conclude-delivered later publishes task (deliver send task) (sym run ∙ e) in
            let (channel, chat, read, accepted) = deliver-sent send task got in
            (due, channel, chat, read, accepted),
      )
]
