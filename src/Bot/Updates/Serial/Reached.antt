-- ===== src/Bot/Updates/Serial/Reached.antt =====
-- services/bot/internal/bot/dispatch.go: every order of the steps.
use mathlib.Core.Path.{subst}
use mathlib.Core.List.{append-nil}
use price_scount.Base.{
  ℕ, ◌≤◌, ◌≡◌, refl, sym, ap, ◌∙◌, true, Option, none, some, [], ◌∷◌, ◌++◌, ◌==◌, ltb, length,
  arith, Bool-cases, Option-cases, inl, inr, ◌⊎◌,
}
use price_scount.Bot.Updates.{
  Update, update_chat_id, System, queue_index, queue_capacity, accept, receive, enqueue_at, enqueue,
  stop, cancel, new_dispatcher, Reach, started, received, enqueued, stopped, cancelled_by, worked,
}
use price_scount.Bot.Updates.Serial.{
  of_chat, held, pending_updates, waiting, Free, IsSerial, of_chat-append, of_chat-none, joins,
}
use price_scount.Bot.Updates.Serial.Kept.{work-IsSerial}
use price_scount.Bot.Updates.Serial.Queued.{queued, queue-IsSerial}

-- An update without a chat.
pass-IsSerial :
    (u : Update) (s : System)
    → update_chat_id u ≡ none
    → IsSerial s
    → IsSerial (record s { arrived = s.arrived ++ u ∷ [] })
pass-IsSerial u s e (order, places, chats, bound) = (
  λ chat.
      of_chat-append chat s.arrived (u ∷ [])
      ∙ ap (λ t. of_chat chat s.arrived ++ t) (of_chat-none chat u e)
      ∙ append-nil (of_chat chat s.arrived)
      ∙ order chat,
  places,
  chats,
  bound,
)

-- An update with a chat, where none is pending.
hold-IsSerial :
    (u : Update) (chat : ℕ) (s : System)
    → s.pending ≡ none
    → update_chat_id u ≡ some chat
    → IsSerial s
    → IsSerial (record s { arrived = s.arrived ++ u ∷ []; pending = some (u, chat) })
hold-IsSerial u chat s empty e (order, places, _, bound) = (
  λ c.
      of_chat-append c s.arrived (u ∷ [])
      ∙ joins (of_chat c s.arrived) (of_chat c s.handled)
          (of_chat c (held (s.workers (queue_index c)))) (of_chat c (s.queues (queue_index c)))
          (of_chat c (pending_updates s.pending)) (of_chat c (u ∷ [])) (order c)
          (ap (λ t. of_chat c (pending_updates t)) empty ∙ unfold of_chat in refl),
  places,
  λ v d same. ground (arith, e, same),
  bound,
)

accept-IsSerial :
    (update : Option Update) (s : System)
    → s.pending ≡ none
    → IsSerial s
    → IsSerial (accept update s)
accept-IsSerial none s empty h = unfold accept in h
accept-IsSerial (some u) s empty h = elim (Option-cases (update_chat_id u)) [
  | inl e ↦
      let step : accept (some u) s ≡ record s { arrived = s.arrived ++ u ∷ [] } =
        unfold accept in ground (arith, e) in
      subst IsSerial (sym step) (pass-IsSerial u s e h)
  | inr (chat, e) ↦
      let step : accept (some u) s
          ≡ record s { arrived = s.arrived ++ u ∷ []; pending = some (u, chat) } =
        unfold accept in ground (arith, e) in
      subst IsSerial (sym step) (hold-IsSerial u chat s empty e h)
]

receive-IsSerial : (update : Option Update) (s : System) → IsSerial s → IsSerial (receive update s)
receive-IsSerial update s h = elim (Bool-cases s.ended) [
  | inl e ↦
      let step : receive update s ≡ s = unfold receive in ground (arith, e) in
      subst IsSerial (sym step) h
  | inr e ↦ elim (Option-cases s.pending) [
    | inl n ↦
        let step : receive update s ≡ accept update s = unfold receive in ground (arith, e, n) in
        subst IsSerial (sym step) (accept-IsSerial update s n h)
    | inr (_, n) ↦
        let step : receive update s ≡ s = unfold receive in ground (arith, e, n) in
        subst IsSerial (sym step) h
  ]
]

enqueue-IsSerial : (s : System) → IsSerial s → IsSerial (enqueue s)
enqueue-IsSerial s h = elim (Bool-cases s.ended) [
  | inl e ↦
      let step : enqueue s ≡ s = unfold enqueue in ground (arith, e) in subst IsSerial (sym step) h
  | inr e ↦ elim (Option-cases s.pending) [
    | inl n ↦
        let step : enqueue s ≡ s = unfold enqueue in ground (arith, e, n) in
        subst IsSerial (sym step) h
    | inr ((u, chat), n) ↦
        elim (Bool-cases (ltb (length (s.queues (queue_index chat))) queue_capacity)) [
          | inl t ↦
              let step : enqueue s ≡ record s { pending = none; queues = queued u chat s.queues } =
                unfold enqueue enqueue_at in ground (arith, e, n, t) in
              subst IsSerial (sym step) (queue-IsSerial u chat s n (ground (arith, t)) h)
          | inr t ↦
              let step : enqueue s ≡ s = unfold enqueue enqueue_at in ground (arith, e, n, t) in
              subst IsSerial (sym step) h
        ]
  ]
]

stop-IsSerial : (s : System) → IsSerial s → IsSerial (stop s)
stop-IsSerial s h = elim (Bool-cases s.cancelled) [
  | inl e ↦
      let step : stop s ≡ record s { ended = true } = unfold stop in ground (arith, e) in
      subst IsSerial (sym step) h
  | inr e ↦ let step : stop s ≡ s = unfold stop in ground (arith, e) in subst IsSerial (sym step) h
]

cancel-IsSerial : (s : System) → IsSerial s → IsSerial (cancel s)
cancel-IsSerial s h = unfold cancel in h

new-IsSerial : IsSerial new_dispatcher
unfolding of_chat
new-IsSerial = (
  λ chat. refl,
  λ chat j d. (refl, refl),
  λ u chat e. absurd (ground (arith, e)),
  λ j. omega arith,
)

Reach-IsSerial : {s : System} → Reach s → IsSerial s
Reach-IsSerial started = new-IsSerial
Reach-IsSerial (received {s} update r) = receive-IsSerial update s (Reach-IsSerial r)
Reach-IsSerial (enqueued {s} r) = enqueue-IsSerial s (Reach-IsSerial r)
Reach-IsSerial (stopped {s} r) = stop-IsSerial s (Reach-IsSerial r)
Reach-IsSerial (cancelled_by {s} r) = cancel-IsSerial s (Reach-IsSerial r)
Reach-IsSerial (worked {s} i r) = work-IsSerial i s (Reach-IsSerial r)

-- What holds of every chat: the updates of the chat that were received are those that were given to the
-- handler, and after them, in the order in which they came, those that wait with its worker, in its
-- queue and before it; and a worker is the chat's own or has no update of the chat, in its hands or in
-- its queue.
abbrev pub IsServed : System → ℕ → Type 0
IsServed s chat =
    (of_chat chat s.arrived ≡ of_chat chat s.handled ++ waiting chat s)
    × ((j : ℕ) → (j ≡ queue_index chat) ⊎ Free chat j s)
    × (length (s.queues (queue_index chat)) ≤ queue_capacity)

-- In whatever order the dispatcher receives, sends and stops, the context is cancelled and the workers
-- make their steps: the updates of a chat are given to the handler in the order in which they came,
-- none twice and none left out before a later one; what was received and not handled is with the
-- worker of the chat, in its queue or still to be sent there; no other worker has an update of the
-- chat, so that no two are handled at once; and the queue holds at most 32.
pub Reach-IsServed : {s : System} → Reach s → (chat : ℕ) → IsServed s chat
Reach-IsServed {s} r chat =
    let h = Reach-IsSerial r in
    (
      h.0 chat,
      λ j. elim (Bool-cases (j == queue_index chat)) [
        | inl t ↦ inl (ground (arith, t))
        | inr d ↦ inr (h.1 chat j d)
      ],
      h.3 (queue_index chat),
    )
