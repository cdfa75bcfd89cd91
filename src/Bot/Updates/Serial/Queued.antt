-- ===== src/Bot/Updates/Serial/Queued.antt =====
-- services/bot/internal/bot/dispatch.go: an update is sent to the queue of its chat.
use mathlib.Core.Path.{subst}
use mathlib.Core.List.{append-nil}
use price_scount.Base.{
  ℕ, ◌≤◌, ◌<◌, ◌≡◌, refl, sym, ap, ◌∙◌, true, false, none, some, List, [], ◌∷◌, ◌++◌, ◌==◌, length,
  length-append, arith, Bool-cases, inl, inr,
}
use price_scount.Bot.Updates.{Update, update_chat_id, System, queue_index, queue_capacity, assign}
use price_scount.Bot.Updates.Serial.{
  of_chat, held, pending_updates, IsSerial, of_chat-append, of_chat-other,
}

-- Chats with different queues are different.
apart : (chat c : ℕ) → (queue_index c == queue_index chat) ≡ false → (chat == c) ≡ false
apart chat c d = elim (Bool-cases (chat == c)) [
  | inl e ↦
      let same : chat ≡ c = ground (arith, e) in
      absurd (ground (arith, d, ap (λ t. queue_index t) same))
  | inr e ↦ e
]

-- The queues after an update was sent to that of its chat.
abbrev pub queued : Update → ℕ → (ℕ → List Update) → ℕ → List Update
queued u chat queues = assign (queue_index chat) (queues (queue_index chat) ++ u ∷ []) queues

queued-own :
    (u : Update) (chat j : ℕ) (queues : ℕ → List Update)
    → (j == queue_index chat) ≡ true
    → queued u chat queues j ≡ queues j ++ u ∷ []
queued-own u chat j queues e =
    let same : queue_index chat ≡ j = ground (arith, e) in rw e (ap (λ t. queues t ++ u ∷ []) same)

queued-other :
    (u : Update) (chat j : ℕ) (queues : ℕ → List Update)
    → (j == queue_index chat) ≡ false
    → queued u chat queues j ≡ queues j
queued-other u chat j queues d = rw d refl

queued-line :
    (u : Update) (chat c : ℕ) (queues : ℕ → List Update)
    → update_chat_id u ≡ some chat
    → of_chat c (queued u chat queues (queue_index c))
      ≡ of_chat c (queues (queue_index c)) ++ of_chat c (u ∷ [])
queued-line u chat c queues e = elim (Bool-cases (queue_index c == queue_index chat)) [
  | inl t ↦
      ap (λ v. of_chat c v) (queued-own u chat (queue_index c) queues t)
      ∙ of_chat-append c (queues (queue_index c)) (u ∷ [])
  | inr d ↦
      ap (λ v. of_chat c v) (queued-other u chat (queue_index c) queues d)
      ∙ sym (append-nil (of_chat c (queues (queue_index c))))
      ∙ ap (λ v. of_chat c (queues (queue_index c)) ++ v)
          (sym (of_chat-other c chat u e (apart chat c d)))
]

queued-free :
    (u : Update) (chat c j : ℕ) (queues : ℕ → List Update)
    → update_chat_id u ≡ some chat
    → (j == queue_index c) ≡ false
    → of_chat c (queues j) ≡ []
    → of_chat c (queued u chat queues j) ≡ []
queued-free u chat c j queues e far free = elim (Bool-cases (j == queue_index chat)) [
  | inl t ↦
      let d : (queue_index c == queue_index chat) ≡ false = ground (arith, t, far) in
      ap (λ v. of_chat c v) (queued-own u chat j queues t)
      ∙ of_chat-append c (queues j) (u ∷ [])
      ∙ ap (λ v. v ++ of_chat c (u ∷ [])) free
      ∙ of_chat-other c chat u e (apart chat c d)
  | inr d ↦ ap (λ v. of_chat c v) (queued-other u chat j queues d) ∙ free
]

queued-bound :
    (u : Update) (chat j : ℕ) (queues : ℕ → List Update)
    → length (queues (queue_index chat)) < queue_capacity
    → length (queues j) ≤ queue_capacity
    → length (queued u chat queues j) ≤ queue_capacity
queued-bound u chat j queues room h = elim (Bool-cases (j == queue_index chat)) [
  | inl t ↦
      let same : queue_index chat ≡ j = ground (arith, t) in
      let room' : length (queues j) < queue_capacity =
        subst (λ k. length (queues k) < queue_capacity) same room in
      rw (queued-own u chat j queues t, length-append (queues j) (u ∷ [])) (omega (arith, room'))
  | inr d ↦ rw (queued-other u chat j queues d) h
]

pub queue-IsSerial :
    (u : Update) (chat : ℕ) (s : System)
    → s.pending ≡ some (u, chat)
    → length (s.queues (queue_index chat)) < queue_capacity
    → IsSerial s
    → IsSerial (record s { pending = none; queues = queued u chat s.queues })
queue-IsSerial u chat s held_back room (order, places, chats, bound) =
    let e : update_chat_id u ≡ some chat = chats u chat held_back in
    (
      λ c.
          order c
          ∙ ap (λ t. of_chat c s.handled ++ (of_chat c (held (s.workers (queue_index c))) ++ t))
              (ap (λ t. of_chat c (s.queues (queue_index c)) ++ of_chat c (pending_updates t))
                  held_back
                ∙ sym (queued-line u chat c s.queues e)
                ∙ sym (append-nil (of_chat c (queued u chat s.queues (queue_index c))))
                ∙ ap (λ t. of_chat c (queued u chat s.queues (queue_index c)) ++ t)
                    (unfold of_chat in refl)),
      λ c j far. ((places c j far).0, queued-free u chat c j s.queues e far (places c j far).1),
      λ v d same. absurd (ground (arith, same)),
      λ j. queued-bound u chat j s.queues room (bound j),
    )
