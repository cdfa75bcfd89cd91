-- ===== src/Bot/Updates/Offsets.antt =====
-- services/bot/internal/bot/bot.go, Run: the polls of Telegram and their offset. Update ids are those
-- of Telegram, far below the bound of an int.
use price_scount.Base.{
  ℕ, zero, suc, ◌+◌, ◌≤◌, ◌≡◌, refl, ap, Bool, true, false, Option, none, some, List, [], ◌∷◌, ◌++◌,
  leb, if◌then◌else◌, All, arith, Bool-cases, Option-cases, inl, inr,
}
use price_scount.Bot.Updates.{Update}

-- A round of the loop: whether the context is done at its start, what Telegram answers for an offset,
-- whether the pause after an error ends before the context is done, and after how many updates of the
-- batch the context is done, if it is.
pub record Round : Type 0 where
  pub is_done : Bool
  pub answer : ℕ → Option (List Update)
  pub waits : Bool
  pub cut : Option ℕ

-- The offset after an update.
abbrev pub advance : ℕ → Update → ℕ
advance offset u = if leb offset u.update_id then u.update_id + 1 else offset

-- A batch: the new offset, what was passed on, and whether the loop goes on.
unfoldable pub forward : ℕ → List Update → Option ℕ → ℕ × List Update × Bool
forward offset [] cut = (offset, [], true)
forward offset (u ∷ us) none =
    let (offset', sent, goes_on) = forward (advance offset u) us none in
    (offset', u ∷ sent, goes_on)
forward offset (u ∷ us) (some zero) = (advance offset u, [], false)
forward offset (u ∷ us) (some (suc n)) =
    let (offset', sent, goes_on) = forward (advance offset u) us (some n) in
    (offset', u ∷ sent, goes_on)

-- The goroutine of Run, over its rounds: the last offset and what was passed on.
unfoldable pub poll_updates : ℕ → List Round → ℕ × List Update
poll_updates offset [] = (offset, [])
poll_updates offset (r ∷ rest) = if r.is_done then (offset, []) else (elim (r.answer offset) [
  | none ↦ if r.waits then poll_updates offset rest else (offset, [])
  | some us ↦
      let (offset', sent, goes_on) = forward offset us r.cut in
      let (last, later) = poll_updates offset' rest in
      if goes_on then (last, sent ++ later) else (offset', sent)
])

-- Updates with ascending ids, from a first one on and below another.
abbrev pub Within : ℕ → List Update → ℕ → Type 0
Within low [] high = low ≤ high
Within low (u ∷ us) high = (low ≤ u.update_id) × Within (u.update_id + 1) us high

-- One past the last id.
abbrev pub past : ℕ → List Update → ℕ
past low [] = low
past low (u ∷ us) = past (u.update_id + 1) us

-- What Telegram documents of getUpdates: the updates from the offset on, in ascending order.
abbrev pub Ascending : Round → Type 0
Ascending r =
    (offset : ℕ) (us : List Update) → r.answer offset ≡ some us → Within offset us (past offset us)

-- A round that is not disturbed by the context.
abbrev pub is_calm : Round → Bool
is_calm r =
    if r.is_done
    then false
    else if r.waits
    then (elim r.cut [ none ↦ true | some _ ↦ false ])
    else false

-- What there is to pass on: the answers one after the other, each from one past the one before.
abbrev pub answered : ℕ → List Round → List Update
answered low [] = []
answered low (r ∷ rest) = elim (r.answer low) [
  | none ↦ answered low rest
  | some us ↦ us ++ answered (past low us) rest
]

Within-append :
    (low middle high : ℕ) (us vs : List Update)
    → Within low us middle
    → Within middle vs high
    → Within low (us ++ vs) high
Within-append low middle high [] [] h k = omega (arith, h, k)
Within-append low middle high [] (v ∷ vs) h (k, k') = (omega (arith, h, k), k')
Within-append low middle high (u ∷ us) vs (h, h') k =
    (h, Within-append (u.update_id + 1) middle high us vs h' k)

advance-next : (offset : ℕ) (u : Update) → offset ≤ u.update_id → advance offset u ≡ u.update_id + 1
advance-next offset u h = ground (arith, h)

forward-Within :
    (offset high : ℕ) (us : List Update) (cut : Option ℕ)
    → Within offset us high
    → Within offset (forward offset us cut).1 (forward offset us cut).0
unfolding forward
forward-Within offset high [] cut h = omega arith
forward-Within offset high (u ∷ us) none (h, h') =
    (h, rw (advance-next offset u h) (forward-Within (u.update_id + 1) high us none h'))
forward-Within offset high (u ∷ us) (some zero) (h, h') =
    rw (advance-next offset u h) (omega (arith, h))
forward-Within offset high (u ∷ us) (some (suc n)) (h, h') =
    (h, rw (advance-next offset u h) (forward-Within (u.update_id + 1) high us (some n) h'))

-- A batch that is passed on as a whole.
forward-past :
    (offset high : ℕ) (us : List Update)
    → Within offset us high
    → forward offset us none ≡ (past offset us, us, true)
unfolding forward
forward-past offset high [] h = refl
forward-past offset high (u ∷ us) (h, h') =
    let next = advance-next offset u h in
    let rest = forward-past (u.update_id + 1) high us h' in rw (next, rest) refl

-- Where Telegram answers as it documents, with the updates from the offset on in ascending order, the
-- updates that the polls pass on have ascending ids, from the first offset on and below the last one,
-- so that none is passed on twice, whenever the context is done.
pub poll_updates-Within :
    (offset : ℕ) (rounds : List Round)
    → All Ascending rounds
    → Within offset (poll_updates offset rounds).1 (poll_updates offset rounds).0
unfolding poll_updates
poll_updates-Within offset [] h = omega arith
poll_updates-Within offset (r ∷ rest) (h, h') = elim (Bool-cases r.is_done) [
  | inl e ↦ rw e (omega arith)
  | inr e ↦ elim (Option-cases (r.answer offset)) [
    | inl n ↦ elim (Bool-cases r.waits) [
      | inl t ↦ rw (e, n, t) (poll_updates-Within offset rest h')
      | inr t ↦ rw (e, n, t) (omega arith)
    ]
    | inr (us, n) ↦
        let sent = forward-Within offset (past offset us) us r.cut (h offset us n) in
        elim (Bool-cases (forward offset us r.cut).2) [
          | inl t ↦
              rw (e, n, t)
                (Within-append offset (forward offset us r.cut).0
                  (poll_updates (forward offset us r.cut).0 rest).0 (forward offset us r.cut).1
                  (poll_updates (forward offset us r.cut).0 rest).1 sent
                  (poll_updates-Within (forward offset us r.cut).0 rest h'))
          | inr t ↦ rw (e, n, t) sent
        ]
  ]
]

calm-cases :
    (r : Round) → is_calm r ≡ true → (r.is_done ≡ false) × (r.waits ≡ true) × (r.cut ≡ none)
calm-cases r h = elim (Option-cases r.cut) [
  | inl n ↦ (ground (arith, h), ground (arith, h), n)
  | inr (k, n) ↦ absurd (ground (arith, h, n))
]

-- Where Telegram answers as it documents and the context is not done, the polls pass on all that
-- Telegram answers, in order, each poll asking from one past the last update before it.
pub poll_updates-answered :
    (offset : ℕ) (rounds : List Round)
    → All Ascending rounds
    → All (λ r. is_calm r ≡ true) rounds
    → (poll_updates offset rounds).1 ≡ answered offset rounds
unfolding poll_updates
poll_updates-answered offset [] h calm = refl
poll_updates-answered offset (r ∷ rest) (h, h') (calm, calm') =
    let (e, t, k) = calm-cases r calm in
    elim (Option-cases (r.answer offset)) [
      | inl n ↦ rw (e, n, t) (poll_updates-answered offset rest h' calm')
      | inr (us, n) ↦
          rw (e, n, k, forward-past offset (past offset us) us (h offset us n))
            (ap (λ v. us ++ v) (poll_updates-answered (past offset us) rest h' calm'))
    ]
