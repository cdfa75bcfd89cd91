-- ===== src/Notifier/Consumer.antt =====
-- services/notifier/internal/consumer/consumer.go: what becomes of a notification. A delivery is what
-- encoding/json reads, `none` when it is malformed. Cancellation is left out.
pub mod Kept
use price_scount.Base.{
  ℕ, ◌+◌, String, Bool, true, false, not, ◌&&◌, Option, none, some, str_eq, ◌==◌, ltb,
  if◌then◌else◌,
}
use price_scount.Base.Text.{parse_int}
use price_scount.Contracts.{NotifyTask}
use price_scount.Notifier.Alert.{Outcome, sent, permanent, transient, seconds}

-- broker.NotifyRetryDelay.
abbrev pub notify_retry_delay : ℕ
notify_retry_delay = seconds 30

-- The message that a delivery is moved to, by its queue: notify.dead or notify.retry.
pub data Message : Type 0 where
  dead_malformed : Message
  dead_task : NotifyTask → Message
  retry_task : NotifyTask → Message

-- An acknowledgement after a delivery or a move, or a requeue where the move failed.
pub data Fate : Type 0 where
  delivered requeued : Fate
  moved : Message → Fate

-- transfer, by whether the broker takes the message.
abbrev pub transfer : (Message → Bool) → Message → Fate
transfer publishes m = if publishes m then moved m else requeued

-- The error of sendTelegram, or of another channel; `send` is Send for a chat and a text.
unfoldable pub deliver : (ℕ → String → Outcome) → NotifyTask → Outcome
deliver send task =
    if str_eq task.channel "telegram"
    then elim (parse_int task.target) [ none ↦ permanent | some chat ↦ send chat task.text ]
    else permanent

-- The branches of handle behind the delivery.
abbrev pub conclude : ℕ → (Message → Bool) → NotifyTask → Outcome → Fate
conclude now publishes task sent = delivered
conclude now publishes task permanent = transfer publishes (dead_task task)
conclude now publishes task (transient after) =
    if ltb notify_retry_delay after
    then transfer publishes (retry_task (record task { not_before = now + after }))
    else transfer publishes (retry_task task)

-- !task.NotBefore.IsZero() && time.Now().Before(task.NotBefore).
abbrev pub is_early : ℕ → NotifyTask → Bool
is_early now task = not (task.not_before == 0) && ltb now task.not_before

-- handle; `later` is the time after the delivery.
unfoldable pub handle : ℕ → ℕ → (ℕ → String → Outcome) → (Message → Bool) → Option NotifyTask → Fate
handle now later send publishes none = transfer publishes dead_malformed
handle now later send publishes (some task) =
    if is_early now task
    then transfer publishes (retry_task task)
    else conclude later publishes task (deliver send task)
