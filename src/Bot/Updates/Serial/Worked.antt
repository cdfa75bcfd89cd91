-- ===== src/Bot/Updates/Serial/Worked.antt =====
-- services/bot/internal/bot/dispatch.go: the steps of the workers.

use mathlib.Core.List.{append_assoc, append-nil}
use price_scount.Base.{
  ℕ, ◌≤◌, ◌≡◌, refl, sym, ap, ◌∙◌, false, List, [], ◌∷◌, ◌++◌, ◌==◌, length, arith, Bool-cases, inl,
  inr,
}
use price_scount.Bot.Updates.{
  Update, update_chat_id, Worker, at_check, at_queue, holding, handling, returned, System, assign,
  take_update, work_at,
}
use price_scount.Bot.Updates.Serial.{is_chat, of_chat, held, busy, Free}

-- A step of one worker: it gives some updates to the handler, and what it and its queue have after it
-- is what they had before, in the same order.
abbrev pub Moves : ℕ → List Update → System → System → Type 0
Moves i new s s' =
    (s'.arrived ≡ s.arrived)
    × (s'.pending ≡ s.pending)
    × (s'.handled ≡ s.handled ++ new)
    × (held (s.workers i) ++ s.queues i ≡ new ++ (held (s'.workers i) ++ s'.queues i))
    × ((chat : ℕ) → Free chat i s → Free chat i s' × (of_chat chat new ≡ []))
    × (length (s'.queues i) ≤ length (s.queues i))
    × ((j : ℕ) → (j == i) ≡ false → (s'.workers j ≡ s.workers j) × (s'.queues j ≡ s.queues j))

assign-same {ℓ} : {A : Type ℓ} (i : ℕ) (x : A) (f : ℕ → A) → assign i x f i ≡ x
assign-same i x f = ground arith

assign-other {ℓ} :
    {A : Type ℓ} (i j : ℕ) (x : A) (f : ℕ → A) → (j == i) ≡ false → assign i x f j ≡ f j
assign-other i j x f d = rw d refl

-- A step that leaves the queues alone.
worker-Moves :
    (i : ℕ) (new h : List Update) (w w' : Worker) (s : System)
    → s.workers i ≡ w
    → h ≡ s.handled ++ new
    → held w ≡ new ++ held w'
    → ((chat : ℕ)
        → of_chat chat (busy w) ≡ []
        → (of_chat chat (busy w') ≡ []) × (of_chat chat new ≡ []))
    → Moves i new s (record s { workers = assign i w' s.workers; handled = h })
worker-Moves i new h w w' s at logged line frees =
    let after : assign i w' s.workers i ≡ w' = assign-same i w' s.workers in
    (
      refl,
      refl,
      logged,
      ap (λ t. held t ++ s.queues i) at
          ∙ ap (λ t. t ++ s.queues i) line
          ∙ append_assoc new (held w') (s.queues i)
          ∙ ap (λ t. new ++ (held t ++ s.queues i)) (sym after),
      λ chat free.
          let (kept, gone) = frees chat (ap (λ t. of_chat chat (busy t)) (sym at) ∙ free.0) in
          ((ap (λ t. of_chat chat (busy t)) after ∙ kept, free.1), gone),
      omega arith,
      λ j d. (assign-other i j w' s.workers d, refl),
    )

-- A step that changes nothing.
still-Moves : (i : ℕ) (s : System) → Moves i [] s s
still-Moves i s = (
  refl,
  refl,
  sym (append-nil s.handled),
  refl,
  λ chat free. (free, unfold of_chat in refl),
  omega arith,
  λ j d. (refl, refl),
)

of_chat-head :
    (chat : ℕ) (u : Update) (us : List Update)
    → of_chat chat (u ∷ us) ≡ []
    → (of_chat chat (u ∷ []) ≡ []) × (of_chat chat us ≡ [])
unfolding of_chat
of_chat-head chat u us e = elim (Bool-cases (is_chat chat (update_chat_id u))) [
  | inl t ↦ absurd (ground (arith, e, t))
  | inr t ↦ (ground (arith, t), ground (arith, e, t))
]

-- The worker takes the oldest update of its queue.
take-Moves :
    (i : ℕ) (u : Update) (rest : List Update) (s : System)
    → s.workers i ≡ at_queue
    → s.queues i ≡ u ∷ rest
    → Moves i [] s (take_update i (u ∷ rest) s)
take-Moves i u rest s at queue =
    let after = assign-same i (holding u) s.workers in
    let left = assign-same i rest s.queues in
    (
      refl,
      refl,
      sym (append-nil s.handled),
      ap (λ t. held t ++ s.queues i) at
          ∙ queue
          ∙ ap (λ t. u ∷ t) (sym left)
          ∙ ap (λ t. held t ++ assign i rest s.queues i) (sym after),
      λ chat free.
          let (first, others) =
            of_chat-head chat u rest (ap (λ t. of_chat chat t) (sym queue) ∙ free.1) in
          (
            (ap (λ t. of_chat chat (busy t)) after ∙ first, ap (λ t. of_chat chat t) left ∙ others),
            unfold of_chat in refl,
          ),
      ground (arith, queue, left),
      λ j d. (assign-other i j (holding u) s.workers d, assign-other i j rest s.queues d),
    )

-- What a step of a worker gives to the handler.
abbrev pub Moved : ℕ → System → System → Type 0
Moved i s s' = (new : List Update) × Moves i new s s'

unworked : (i : ℕ) (s : System) → Moved i s s
unworked i s = ([], still-Moves i s)

-- A worker that gives nothing to the handler.
quiet :
    (i : ℕ) (w w' : Worker) (s : System)
    → s.workers i ≡ w
    → held w ≡ held w'
    → ((chat : ℕ) → of_chat chat (busy w) ≡ [] → of_chat chat (busy w') ≡ [])
    → Moved i s (record s { workers = assign i w' s.workers })
quiet i w w' s at line frees = (
  [],
  worker-Moves i [] s.handled w w' s at (sym (append-nil s.handled)) line
      (λ chat free. (frees chat free, unfold of_chat in refl)),
)

take_update-Moved :
    (i : ℕ) (us : List Update) (s : System)
    → s.workers i ≡ at_queue
    → s.queues i ≡ us
    → Moved i s (take_update i us s)
take_update-Moved i (u ∷ rest) s at queue = ([], take-Moves i u rest s at queue)
take_update-Moved i [] s at queue = elim (Bool-cases s.ended) [
  | inl e ↦ rw e (quiet i at_queue (returned []) s at refl (λ chat free. free))
  | inr e ↦ rw e (unworked i s)
]

pub work_at-Moved : (i : ℕ) (w : Worker) (s : System) → s.workers i ≡ w → Moved i s (work_at i w s)
work_at-Moved i at_check s at = elim (Bool-cases s.cancelled) [
  | inl e ↦ rw e (quiet i at_check (returned []) s at refl (λ chat free. free))
  | inr e ↦ rw e (quiet i at_check at_queue s at refl (λ chat free. free))
]
work_at-Moved i at_queue s at = take_update-Moved i (s.queues i) s at refl
work_at-Moved i (holding u) s at = elim (Bool-cases s.cancelled) [
  | inl e ↦ rw e (quiet i (holding u) (returned (u ∷ [])) s at refl (λ chat free. free))
  | inr e ↦ rw e (
    u ∷ [],
    worker-Moves i (u ∷ []) (s.handled ++ u ∷ []) (holding u) (handling u) s at refl refl
        (λ chat free. (free, free)),
  )
]
work_at-Moved i (handling u) s at =
    quiet i (handling u) at_check s at refl (λ chat free. unfold of_chat in refl)
work_at-Moved i (returned us) s at = unworked i s
