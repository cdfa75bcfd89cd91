-- ===== src/Notifier/Alert/Retries.antt =====
-- How often and how long Send tries.
use mathlib.Core.Path.{subst}
use price_scount.Base.{
  ◌⊎◌, ℕ, zero, suc, ◌+◌, ◌≤◌, ◌<◌, Bool, true, false, not, List, [], ◌∷◌, ◌≡◌, refl, ap, ◌∙◌,
  arith, length, ltb, Bool-cases, inl, inr,
}
use price_scount.Notifier.Alert.{
  Outcome, sent, permanent, transient, Reply, send_once, seconds, delays, Attempt, extra_wait,
  after_wait, stop_at, send_loop, send,
}

-- The outcome lets Send try again.
abbrev pub is_retried : Outcome → Bool
is_retried sent = false
is_retried permanent = false
is_retried (transient after) = not (ltb (seconds 30) after)

-- The longest wait for a list of delays.
abbrev budget : List ℕ → ℕ
budget [] = 0
budget (delay ∷ rest) = delay + (extra_wait (seconds 30) rest + budget rest)

loop-bound :
    (reply : ℕ → Reply) (n : ℕ) (last : Outcome) (ds : List ℕ)
    → (send_loop reply n last ds).waited ≤ budget ds
unfolding send_loop
loop-bound reply n last [] = omega arith
loop-bound reply n last (d ∷ []) = ground arith
loop-bound reply n last (d ∷ e ∷ ds) =
    ground (arith, loop-bound reply (suc n) (send_once (reply n)) (e ∷ ds))

-- What a run of the loop from one request on looks like.
record Run (reply : ℕ → Reply) (n : ℕ) (rest : List ℕ) (a : Attempt) : Type 0 where
  k : ℕ
  requests : a.requests ≡ suc k
  few : k ≤ length rest
  outcome : a.outcome ≡ send_once (reply (n + k))
  before : (j : ℕ) → j < k → is_retried (send_once (reply (n + j))) ≡ true
  final : k < length rest → is_retried (send_once (reply (n + k))) ≡ false

loop_stop :
    (reply : ℕ → Reply) (n : ℕ) (last : Outcome) (d : ℕ) (rest : List ℕ)
    → is_retried (send_once (reply n)) ≡ false
    → send_loop reply n last (d ∷ rest) ≡ after_wait d (stop_at (send_once (reply n)))
unfolding send_loop
loop_stop reply n last d rest h = ground (arith, h)

loop_go :
    (reply : ℕ → Reply) (n : ℕ) (last : Outcome) (d : ℕ) (rest : List ℕ)
    → is_retried (send_once (reply n)) ≡ true
    → ((send_loop reply n last (d ∷ rest)).requests
        ≡ suc (send_loop reply (suc n) (send_once (reply n)) rest).requests)
      × ((send_loop reply n last (d ∷ rest)).outcome
          ≡ (send_loop reply (suc n) (send_once (reply n)) rest).outcome)
unfolding send_loop
loop_go reply n last d rest h = ground (arith, h)

-- A run that ends with its first request.
first-Run :
    (reply : ℕ → Reply) (n : ℕ) (rest : List ℕ) (a : Attempt)
    → a.requests ≡ 1
    → a.outcome ≡ send_once (reply n)
    → (0 < length rest → is_retried (send_once (reply n)) ≡ false)
    → Run reply n rest a
first-Run reply n rest a one got end =
    let here : n ≡ n + 0 = omega arith in
    record {
      k = 0;
      requests = one;
      few = omega arith;
      outcome = got ∙ ap (λ i. send_once (reply i)) here;
      before = λ j lt. absurd (omega (arith, lt));
      final = λ lt. subst (λ i. is_retried (send_once (reply i)) ≡ false) here (end lt);
    }

retried_before :
    (reply : ℕ → Reply) (n k : ℕ)
    → is_retried (send_once (reply n)) ≡ true
    → ((j : ℕ) → j < k → is_retried (send_once (reply (suc n + j))) ≡ true)
    → (j : ℕ) → j < suc k
    → is_retried (send_once (reply (n + j))) ≡ true
retried_before reply n k first later zero lt =
    let here : n ≡ n + 0 = omega arith in
    subst (λ i. is_retried (send_once (reply i)) ≡ true) here first
retried_before reply n k first later (suc j) lt =
    let shift : suc n + j ≡ n + suc j = omega arith in
    subst (λ i. is_retried (send_once (reply i)) ≡ true) shift (later j (omega (arith, lt)))

-- A run that goes on after its first request.
later-Run :
    (reply : ℕ → Reply) (n e : ℕ) (rest : List ℕ) (a b : Attempt)
    → is_retried (send_once (reply n)) ≡ true
    → a.requests ≡ suc b.requests
    → a.outcome ≡ b.outcome
    → Run reply (suc n) rest b
    → Run reply n (e ∷ rest) a
later-Run reply n e rest a b again more same r =
    let shift : (j : ℕ) → suc n + j ≡ n + suc j = λ j. omega arith in
    record {
      k = suc r.k;
      requests = ground (arith, more, r.requests);
      few = omega (arith, r.few);
      outcome = same ∙ r.outcome ∙ ap (λ i. send_once (reply i)) (shift r.k);
      before = retried_before reply n r.k again r.before;
      final = λ lt.
          subst (λ i. is_retried (send_once (reply i)) ≡ false) (shift r.k)
            (r.final (omega (arith, lt)));
    }

loop-Run :
    (reply : ℕ → Reply) (n : ℕ) (last : Outcome) (d : ℕ) (rest : List ℕ)
    → Run reply n rest (send_loop reply n last (d ∷ rest))
loop-Run reply n last d [] = elim (Bool-cases (is_retried (send_once (reply n)))) [
  | inl again ↦
      let step = loop_go reply n last d [] again in
      first-Run reply n [] (send_loop reply n last (d ∷ []))
        (unfold send_loop in ground (arith, step.0)) (unfold send_loop in ground (arith, step.1))
        (λ lt. absurd (omega (arith, lt)))
  | inr stop ↦
      rw (loop_stop reply n last d [] stop)
        (first-Run reply n [] (after_wait d (stop_at (send_once (reply n)))) refl refl (λ lt. stop))
]
loop-Run reply n last d (e ∷ rest) = elim (Bool-cases (is_retried (send_once (reply n)))) [
  | inl again ↦
      let step = loop_go reply n last d (e ∷ rest) again in
      later-Run reply n e rest (send_loop reply n last (d ∷ e ∷ rest))
        (send_loop reply (suc n) (send_once (reply n)) (e ∷ rest)) again step.0 step.1
        (loop-Run reply (suc n) (send_once (reply n)) e rest)
  | inr stop ↦ rw (loop_stop reply n last d (e ∷ rest) stop) (
      first-Run reply n (e ∷ rest) (after_wait d (stop_at (send_once (reply n)))) refl refl
        (λ lt. stop))
]

-- Send makes between one and four requests and waits at most 90 seconds between them. Every request
-- before the last one may be tried again, the last one decides the outcome, and if fewer than four
-- are made, the last one may not be tried again.
pub send-exact :
    (reply : ℕ → Reply)
    → (k : ℕ) × ((send reply).requests ≡ suc k)
      × (k ≤ 3)
      × ((send reply).outcome ≡ send_once (reply k))
      × ((j : ℕ) → j < k → is_retried (send_once (reply j)) ≡ true)
      × ((k ≡ 3) ⊎ (is_retried (send_once (reply k)) ≡ false))
      × ((send reply).waited ≤ seconds 90)
send-exact reply =
    let r = loop-Run reply 0 sent (seconds 0) (seconds 3 ∷ seconds 6 ∷ seconds 12 ∷ []) in
    let shift : (i : ℕ) → 0 + i ≡ i = λ i. omega arith in
    (
      r.k,
      unfold send in r.requests,
      r.few,
      unfold send in r.outcome ∙ ap (λ i. send_once (reply i)) (shift r.k),
      λ j lt. subst (λ i. is_retried (send_once (reply i)) ≡ true) (shift j) (r.before j lt),
      elim (Bool-cases (ltb r.k 3)) [
        | inl t ↦ inr (
            subst (λ i. is_retried (send_once (reply i)) ≡ false) (shift r.k)
              (r.final (ground (arith, t))))
        | inr t ↦ inl (ground (arith, t, r.few))
      ],
      unfold send in loop-bound reply 0 sent delays,
    )
