-- ===== src/Bot/Updates/Serial/Kept.antt =====
-- services/bot/internal/bot/dispatch.go: what a step of a worker leaves as it was.
use mathlib.Core.Path.{subst}
use mathlib.Core.List.{append-nil}
use price_scount.Base.{
  ℕ, ◌≤◌, ◌≡◌, refl, sym, ap, ◌∙◌, false, List, [], ◌++◌, ◌==◌, length, arith, Bool-cases, inl, inr,
}
use price_scount.Bot.Updates.{Update, queue_capacity, System, queue_index, work_at, work}
use price_scount.Bot.Updates.Serial.{
  of_chat, held, busy, pending_updates, waiting, InOrder, Free, IsSerial, of_chat-append, serves,
}
use price_scount.Bot.Updates.Serial.Worked.{Moves, work_at-Moved}

-- What a step adds to the updates of a chat that were handled.
logged :
    (chat : ℕ) (new : List Update) (s s' : System)
    → s'.handled ≡ s.handled ++ new
    → of_chat chat s.handled ++ of_chat chat new ≡ of_chat chat s'.handled
logged chat new s s' e = sym (ap (λ t. of_chat chat t) e ∙ of_chat-append chat s.handled new)

-- The worker of the chat itself.
own-InOrder :
    (new : List Update) (s s' : System) (chat : ℕ)
    → Moves (queue_index chat) new s s'
    → InOrder chat s
    → InOrder chat s'
own-InOrder new s s' chat (arrived, pending, handled, line, _, _, _) order =
    let q = queue_index chat in
    let split : of_chat chat (held (s.workers q)) ++ of_chat chat (s.queues q)
        ≡ of_chat chat new ++ (of_chat chat (held (s'.workers q)) ++ of_chat chat (s'.queues q)) =
      sym (of_chat-append chat (held (s.workers q)) (s.queues q))
      ∙ ap (λ t. of_chat chat t) line
      ∙ of_chat-append chat new (held (s'.workers q) ++ s'.queues q)
      ∙ ap (λ t. of_chat chat new ++ t) (of_chat-append chat (held (s'.workers q)) (s'.queues q)) in
    ap (λ t. of_chat chat t) arrived
    ∙ order
    ∙ serves (of_chat chat s.handled) (of_chat chat new) (of_chat chat (held (s.workers q)))
        (of_chat chat (s.queues q)) (of_chat chat (held (s'.workers q)))
        (of_chat chat (s'.queues q)) (of_chat chat (pending_updates s.pending)) split
    ∙ ap
        (λ t.
          t
          ++ (of_chat chat (held (s'.workers q))
              ++ (of_chat chat (s'.queues q) ++ of_chat chat (pending_updates s.pending))))
        (logged chat new s s' handled)
    ∙ ap
        (λ t.
          of_chat chat s'.handled
          ++ (of_chat chat (held (s'.workers q))
              ++ (of_chat chat (s'.queues q) ++ of_chat chat (pending_updates t))))
        (sym pending)

-- Another worker.
other-InOrder :
    (i : ℕ) (new : List Update) (s s' : System) (chat : ℕ)
    → Moves i new s s'
    → InOrder chat s
    → (queue_index chat == i) ≡ false
    → of_chat chat new ≡ []
    → InOrder chat s'
other-InOrder i new s s' chat (arrived, pending, handled, _, _, _, others) order d none_new =
    let q = queue_index chat in
    let (workers, queues) = others q d in
    let waits : waiting chat s ≡ waiting chat s' =
      ap
        (λ t.
          of_chat chat (held t)
          ++ (of_chat chat (s.queues q) ++ of_chat chat (pending_updates s.pending)))
        (sym workers)
      ∙ ap
          (λ t.
            of_chat chat (held (s'.workers q))
            ++ (of_chat chat t ++ of_chat chat (pending_updates s.pending)))
          (sym queues)
      ∙ ap
          (λ t.
            of_chat chat (held (s'.workers q))
            ++ (of_chat chat (s'.queues q) ++ of_chat chat (pending_updates t)))
          (sym pending) in
    ap (λ t. of_chat chat t) arrived
    ∙ order
    ∙ ap (λ t. of_chat chat s.handled ++ t) waits
    ∙ ap (λ t. t ++ waiting chat s')
        (sym (append-nil (of_chat chat s.handled))
          ∙ ap (λ t. of_chat chat s.handled ++ t) (sym none_new)
          ∙ logged chat new s s' handled)

Moves-InOrder :
    (i : ℕ) (new : List Update) (s s' : System) (chat : ℕ)
    → Moves i new s s'
    → IsSerial s
    → InOrder chat s'
Moves-InOrder i new s s' chat m (order, places, _, _) = elim (Bool-cases (queue_index chat == i)) [
  | inl e ↦
      let same : i ≡ queue_index chat = ground (arith, e) in
      own-InOrder new s s' chat (subst (λ j. Moves j new s s') same m) (order chat)
  | inr d ↦
      let (_, _, _, _, frees, _, _) = m in
      other-InOrder i new s s' chat m (order chat) d
        (frees chat (places chat i (ground (arith, d)))).1
]

Moves-Free :
    (i : ℕ) (new : List Update) (s s' : System) (chat j : ℕ)
    → Moves i new s s'
    → Free chat j s
    → Free chat j s'
Moves-Free i new s s' chat j (_, _, _, _, frees, _, others) free = elim (Bool-cases (j == i)) [
  | inl e ↦
      let same : i ≡ j = ground (arith, e) in
      subst (λ k. Free chat k s') same (frees chat (subst (λ k. Free chat k s) (sym same) free)).0
  | inr d ↦
      let (workers, queues) = others j d in
      (ap (λ t. of_chat chat (busy t)) workers ∙ free.0, ap (λ t. of_chat chat t) queues ∙ free.1)
]

Moves-bound :
    (i : ℕ) (new : List Update) (s s' : System) (j : ℕ)
    → Moves i new s s'
    → length (s.queues j) ≤ queue_capacity
    → length (s'.queues j) ≤ queue_capacity
Moves-bound i new s s' j (_, _, _, _, _, shorter, others) h = elim (Bool-cases (j == i)) [
  | inl e ↦
      let same : i ≡ j = ground (arith, e) in
      let shorter' : length (s'.queues j) ≤ length (s.queues j) =
        subst (λ k. length (s'.queues k) ≤ length (s.queues k)) same shorter in
      omega (arith, shorter', h)
  | inr d ↦ subst (λ t. length t ≤ queue_capacity) (sym (others j d).1) h
]

Moves-IsSerial :
    (i : ℕ) (new : List Update) (s s' : System) → Moves i new s s' → IsSerial s → IsSerial s'
Moves-IsSerial i new s s' m h = (
  λ chat. Moves-InOrder i new s s' chat m h,
  λ chat j d. Moves-Free i new s s' chat j m (h.1 chat j d),
  λ u chat e. h.2 u chat (sym m.1 ∙ e),
  λ j. Moves-bound i new s s' j m (h.3 j),
)

pub work-IsSerial : (i : ℕ) (s : System) → IsSerial s → IsSerial (work i s)
work-IsSerial i s h =
    let (new, m) = work_at-Moved i (s.workers i) s refl in
    let step : work i s ≡ work_at i (s.workers i) s = unfold work in refl in
    subst IsSerial (sym step) (Moves-IsSerial i new s (work_at i (s.workers i) s) m h)
