-- ===== src/Broker/Connect/Retry.antt =====
-- shared/pkg/broker/rabbitmq.go: the loop of ConnectWithRetry.
use price_scount.Base.{
  ℕ, zero, suc, ◌+◌, ◌*◌, ◌<◌, ◌≡◌, refl, ◌⊎◌, inl, inr, Option, none, some, arith,
}
use price_scount.Broker.{BrokerError, done, failed, Connection}
use price_scount.Broker.Connect.{
  Dialing, new_connection, Connected, give_up, connect_from, connect_with_retry, after_sleep,
}
use price_scount.Broker.Publish.Attempts.{Answer-cases}

module _ (dialing : ℕ → Dialing) where
  -- The first `k` attempts from the i-th one fail.
  abbrev pub Fails : ℕ → ℕ → Type 0
  Fails i k = (j : ℕ) → j < k → (e : BrokerError) × (new_connection (dialing (i + j)) ≡ failed e)

  -- After `k` failures the loop has slept for 2 (i + ... + (i + k - 1)) seconds.
  abbrev Ends : ℕ → ℕ → Connected → Type 0
  Ends left i r =
      ((k : ℕ) × (c : Connection) × (k < left)
        × Fails i k
        × (new_connection (dialing (i + k)) ≡ done c)
        × (r.answer ≡ done c)
        × (r.attempts ≡ suc k)
        × (r.slept + k ≡ k * (2 * i + k)))
      ⊎ ((e : BrokerError) × Fails i left
          × (r.answer ≡ failed e)
          × (r.attempts ≡ left)
          × (r.slept + left ≡ left * (2 * i + left)))

  Fails-suc :
      (i k : ℕ) (e : BrokerError)
      → new_connection (dialing i) ≡ failed e
      → Fails (i + 1) k
      → Fails i (suc k)
  Fails-suc i k e h f zero lt = (e, let here : i + 0 ≡ i = omega arith in rw here h)
  Fails-suc i k e h f (suc j) lt =
      let there : i + suc j ≡ i + 1 + j = omega arith in rw there (f j (omega arith))

  connect_from-Ends :
      (left i : ℕ) (last : Option BrokerError) → Ends left i (connect_from dialing left i last)
  connect_from-Ends zero i last =
      let step : connect_from dialing zero i last
          ≡ record { answer = failed (give_up last); attempts = 0; slept = 0 } =
        unfold connect_from in refl in
      rw step (inr (give_up last, λ j lt. absurd (omega arith), refl, refl, omega arith))
  connect_from-Ends (suc left) i last = elim (Answer-cases (new_connection (dialing i))) [
    | inl (c, e) ↦
        let step : connect_from dialing (suc left) i last
            ≡ record { answer = done c; attempts = 1; slept = 0 } =
          unfold connect_from in ground (arith, e) in
        let here : i + 0 ≡ i = omega arith in
        rw step (
          inl (0, c, omega arith, λ j lt. absurd (omega arith), rw here e, refl, refl, omega arith))
    | inr (x, e) ↦
        let step : connect_from dialing (suc left) i last
            ≡ after_sleep (i * 2) (connect_from dialing left (i + 1) (some x)) =
          unfold connect_from in ground (arith, e) in
        let there : (k : ℕ) → i + suc k ≡ i + 1 + k = λ k. omega arith in
        rw step (elim (connect_from-Ends left (i + 1) (some x)) [
          | inl (k, c, lt, f, made, answer, attempts, slept) ↦ inl (
            suc k,
            c,
            omega arith,
            Fails-suc i k x e f,
            rw (there k) made,
            answer,
            omega (arith, attempts),
            grind (arith, slept),
          )
          | inr (y, f, answer, attempts, slept) ↦
              inr (y, Fails-suc i left x e f, answer, omega (arith, attempts), grind (arith, slept))
        ])
  ]

  -- The two ends of ConnectWithRetry, in seconds of sleep.
  abbrev pub Exact : ℕ → Connected → Type 0
  Exact max_attempts r =
      ((k : ℕ) × (c : Connection) × (k < max_attempts)
        × Fails 1 k
        × (new_connection (dialing (1 + k)) ≡ done c)
        × (r.answer ≡ done c)
        × (r.attempts ≡ suc k)
        × (r.slept ≡ k * (k + 1)))
      ⊎ ((e : BrokerError) × Fails 1 max_attempts
          × (r.answer ≡ failed e)
          × (r.attempts ≡ max_attempts)
          × (r.slept ≡ max_attempts * (max_attempts + 1)))

  -- ConnectWithRetry ends after at most the given number of attempts. Either it returns the
  -- connection of the first attempt that succeeds, after k failures and k (k + 1) seconds of sleep,
  -- or every attempt fails, and it returns an error after sleeping once more.
  pub connect_with_retry-Exact :
      (max_attempts : ℕ) → Exact max_attempts (connect_with_retry dialing max_attempts)
  unfolding connect_with_retry
  connect_with_retry-Exact n = elim (connect_from-Ends n 1 none) [
    | inl (k, c, lt, f, made, answer, attempts, slept) ↦
        inl (k, c, lt, f, made, answer, attempts, grind (arith, slept))
    | inr (e, f, answer, attempts, slept) ↦ inr (e, f, answer, attempts, grind (arith, slept))
  ]
