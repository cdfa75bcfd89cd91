-- ===== src/Bot/Updates/Serial.antt =====
-- services/bot/internal/bot/dispatch.go: the order in which the updates of a chat are handled.
pub mod Worked
pub mod Kept
pub mod Queued
pub mod Reached
use mathlib.Core.Path.{subst}
use mathlib.Core.List.{append_assoc, append-nil}
use price_scount.Base.{
  ℕ, ◌≤◌, ◌≡◌, refl, sym, ap, ◌∙◌, Bool, true, false, Option, none, some, List, [], ◌∷◌, ◌++◌, ◌==◌,
  length, select, if◌then◌else◌, arith, Bool-cases, inl, inr,
}
use price_scount.Bot.Updates.{
  Update, update_chat_id, Worker, at_check, at_queue, holding, handling, returned, System,
  queue_index, queue_capacity,
}

abbrev pub is_chat : ℕ → Option ℕ → Bool
is_chat chat none = false
is_chat chat (some other) = other == chat

-- The updates of a chat among others, in their order.
unfoldable pub of_chat : ℕ → List Update → List Update
of_chat chat us = select (λ u. is_chat chat (update_chat_id u)) us

-- What a worker has taken and not given to the handler, and all that it has.
abbrev pub held : Worker → List Update
held at_check = []
held at_queue = []
held (holding u) = u ∷ []
held (handling u) = []
held (returned us) = us

abbrev pub busy : Worker → List Update
busy at_check = []
busy at_queue = []
busy (holding u) = u ∷ []
busy (handling u) = u ∷ []
busy (returned us) = us

abbrev pub pending_updates : Option (Update × ℕ) → List Update
pending_updates none = []
pending_updates (some (u, chat)) = u ∷ []

-- The updates of a chat that wait: with its worker, in its queue and before it, oldest first.
abbrev pub waiting : ℕ → System → List Update
waiting chat s =
    of_chat chat (held (s.workers (queue_index chat)))
    ++ (of_chat chat (s.queues (queue_index chat)) ++ of_chat chat (pending_updates s.pending))

abbrev pub InOrder : ℕ → System → Type 0
InOrder chat s = of_chat chat s.arrived ≡ of_chat chat s.handled ++ waiting chat s

-- A worker and its queue have nothing of a chat.
abbrev pub Free : ℕ → ℕ → System → Type 0
Free chat j s = (of_chat chat (busy (s.workers j)) ≡ []) × (of_chat chat (s.queues j) ≡ [])

-- All that the steps keep: the order, the place of every update, and the size of the queues.
abbrev pub IsSerial : System → Type 0
IsSerial s =
    ((chat : ℕ) → InOrder chat s)
    × ((chat j : ℕ) → (j == queue_index chat) ≡ false → Free chat j s)
    × ((u : Update) (chat : ℕ) → s.pending ≡ some (u, chat) → update_chat_id u ≡ some chat)
    × ((j : ℕ) → length (s.queues j) ≤ queue_capacity)

pub of_chat-append :
    (chat : ℕ) (us vs : List Update) → of_chat chat (us ++ vs) ≡ of_chat chat us ++ of_chat chat vs
unfolding of_chat
of_chat-append chat [] vs = refl
of_chat-append chat (u ∷ us) vs = elim (Bool-cases (is_chat chat (update_chat_id u))) [
  | inl e ↦ rw e (ap (λ t. u ∷ t) (of_chat-append chat us vs))
  | inr e ↦ rw e (of_chat-append chat us vs)
]

-- An update of another chat is not among those of this one.
pub of_chat-other :
    (chat other : ℕ) (u : Update)
    → update_chat_id u ≡ some other
    → (other == chat) ≡ false
    → of_chat chat (u ∷ []) ≡ []
unfolding of_chat
of_chat-other chat other u e d = rw (e, d) refl

pub of_chat-none : (chat : ℕ) (u : Update) → update_chat_id u ≡ none → of_chat chat (u ∷ []) ≡ []
unfolding of_chat
of_chat-none chat u e = rw e refl

pub of_chat-one :
    (chat : ℕ) (u : Update) → update_chat_id u ≡ some chat → of_chat chat (u ∷ []) ≡ u ∷ []
unfolding of_chat
of_chat-one chat u e = ground (arith, e)

-- A line of updates at whose end one is added.
pub joins :
    (line handled waits queue last new : List Update)
    → line ≡ handled ++ (waits ++ (queue ++ last))
    → last ≡ []
    → line ++ new ≡ handled ++ (waits ++ (queue ++ new))
joins line handled waits queue last new h e =
    ap (λ t. t ++ new)
      (h
        ∙ ap (λ t. handled ++ (waits ++ (queue ++ t))) e
        ∙ ap (λ t. handled ++ (waits ++ t)) (append-nil queue))
    ∙ append_assoc handled (waits ++ queue) new
    ∙ ap (λ t. handled ++ t) (append_assoc waits queue new)

-- A line whose front is given to the handler.
pub serves :
    (handled front before queue after queue' last : List Update)
    → before ++ queue ≡ front ++ (after ++ queue')
    → handled ++ (before ++ (queue ++ last)) ≡ (handled ++ front) ++ (after ++ (queue' ++ last))
serves handled front before queue after queue' last e =
    ap (λ t. handled ++ t)
      (sym (append_assoc before queue last)
        ∙ ap (λ t. t ++ last) e
        ∙ append_assoc front (after ++ queue') last
        ∙ ap (λ t. front ++ t) (append_assoc after queue' last))
    ∙ sym (append_assoc handled front (after ++ (queue' ++ last)))
