-- ===== src/Bot/Updates.antt =====
-- services/bot/internal/bot: updates from Telegram to the workers that handle them (dispatch.go, and Run
-- of bot.go). The dispatcher, the eight workers and the context are interleaved step by step; a step
-- that would block changes nothing.
pub mod Serial
pub mod Offsets
use Prim.Native.Char.{code}
use Prim.Native.String
use price_scount.Base.{
  ℕ, zero, suc, ◌+◌, ◌*◌, ◌/◌, ◌%◌, ◌^◌, String, Bool, true, false, Option, none, some, List, [],
  ◌∷◌, ◌++◌, ◌==◌, ltb, if◌then◌else◌, length,
}
use price_scount.Base.Text.{format_int}

-- tgbotapi's types, as far as they are read: the chat of a message, the message of a callback.
pub record Message : Type 0 where
  pub chat : Option ℕ
  pub text : String

pub record CallbackQuery : Type 0 where
  pub message : Option Message
  pub callback_data : String

pub record Update : Type 0 where
  pub update_id : ℕ
  pub message : Option Message
  pub callback_query : Option CallbackQuery

abbrev pub chat_of : Option Message → Option ℕ
chat_of none = none
chat_of (some m) = m.chat

abbrev pub callback_chat : Option CallbackQuery → Option ℕ
callback_chat none = none
callback_chat (some q) = chat_of q.message

-- updateChatID.
unfoldable pub update_chat_id : Update → Option ℕ
update_chat_id u = elim (chat_of u.message) [
  | some chat ↦ some chat
  | none ↦ callback_chat u.callback_query
]

-- The exclusive or of the low bits, by their number.
abbrev pub xor_bits : ℕ → ℕ → ℕ → ℕ
xor_bits zero a b = 0
xor_bits (suc n) a b = (if a % 2 == b % 2 then 0 else 1) + 2 * xor_bits n (a / 2) (b / 2)

-- hash/fnv: New32a over the bytes of an ASCII text.
unfoldable pub fnv32a : ℕ → String → ℕ
fnv32a h String.[] = h
fnv32a h (String.◌∷◌ c s) = fnv32a (xor_bits 32 h (code c) * 16777619 % 2 ^ 32) s

abbrev pub dispatcher_workers : ℕ
dispatcher_workers = 8

abbrev pub queue_capacity : ℕ
queue_capacity = 32

-- The queue of a chat.
unfoldable pub queue_index : ℕ → ℕ
queue_index chat = fnv32a 2166136261 (format_int chat) % dispatcher_workers

-- Where a worker is in its loop: before the first test of the context, at its queue, before the second
-- test, in the handler, or gone, with the update that it dropped.
pub data Worker : Type 0 where
  at_check at_queue : Worker
  holding handling : Update → Worker
  returned : List Update → Worker

pub record System : Type 0 where
  pub cancelled : Bool
  -- The dispatcher has returned and closed the queues.
  pub ended : Bool
  -- An update that was received and not yet sent to its queue, with its chat.
  pub pending : Option (Update × ℕ)
  pub queues : ℕ → List Update
  pub workers : ℕ → Worker
  -- What was received, and what was given to the handler, oldest first.
  pub arrived : List Update
  pub handled : List Update

abbrev pub assign {ℓ} : {A : Type ℓ} → ℕ → A → (ℕ → A) → ℕ → A
assign i x f j = if j == i then x else f j

-- What was received: the end of the channel, or an update. One without a chat is passed over.
unfoldable pub accept : Option Update → System → System
accept none s = record s { ended = true }
accept (some u) s = elim (update_chat_id u) [
  | none ↦ record s { arrived = s.arrived ++ u ∷ [] }
  | some chat ↦ record s { arrived = s.arrived ++ u ∷ []; pending = some (u, chat) }
]

-- The outer select receives from the updates.
unfoldable pub receive : Option Update → System → System
receive update s = if s.ended then s else (elim s.pending [ some _ ↦ s | none ↦ accept update s ])

-- The inner select sends to the queue of the chat, which has room.
unfoldable pub enqueue_at : Update → ℕ → System → System
enqueue_at u i s =
    if ltb (length (s.queues i)) queue_capacity
    then record s { pending = none; queues = assign i (s.queues i ++ u ∷ []) s.queues }
    else s

unfoldable pub enqueue : System → System
enqueue s =
    if s.ended
    then s
    else (elim s.pending [ none ↦ s | some (u, chat) ↦ enqueue_at u (queue_index chat) s ])

-- Either select finds the context done.
unfoldable pub stop : System → System
stop s = if s.cancelled then record s { ended = true } else s

unfoldable pub cancel : System → System
cancel s = record s { cancelled = true }

-- A worker at its queue: it takes the oldest update, or finds the queue closed.
abbrev pub take_update : ℕ → List Update → System → System
take_update i (u ∷ rest) s = record s {
  queues = assign i rest s.queues;
  workers = assign i (holding u) s.workers;
}
take_update i [] s = if s.ended then record s { workers = assign i (returned []) s.workers } else s

-- The next step of a worker.
abbrev pub work_at : ℕ → Worker → System → System
work_at i at_check s = record s {
  workers = assign i (if s.cancelled then returned [] else at_queue) s.workers;
}
work_at i at_queue s = take_update i (s.queues i) s
work_at i (holding u) s =
    if s.cancelled
    then record s { workers = assign i (returned (u ∷ [])) s.workers }
    else record s { workers = assign i (handling u) s.workers; handled = s.handled ++ u ∷ [] }
work_at i (handling u) s = record s { workers = assign i at_check s.workers }
work_at i (returned us) s = s

unfoldable pub work : ℕ → System → System
work i s = work_at i (s.workers i) s

-- The dispatcher as it starts.
abbrev pub new_dispatcher : System
new_dispatcher = record {
  cancelled = false;
  ended = false;
  pending = none;
  queues = λ i. [];
  workers = λ i. at_check;
  arrived = [];
  handled = [];
}

-- The states of the dispatcher: any order of what it receives, sends, and of what its workers do.
pub data Reach : System → Type 0 where
  started : Reach new_dispatcher
  received : {s : System} (update : Option Update) → Reach s → Reach (receive update s)
  enqueued : {s : System} → Reach s → Reach (enqueue s)
  stopped : {s : System} → Reach s → Reach (stop s)
  cancelled_by : {s : System} → Reach s → Reach (cancel s)
  worked : {s : System} (i : ℕ) → Reach s → Reach (work i s)
