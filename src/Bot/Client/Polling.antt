-- ===== src/Bot/Client/Polling.antt =====
-- services/bot/internal/gateway/client.go: how long PollLookup polls, and what it returns.
use price_scount.Base.{
  ℕ, zero, suc, ◌+◌, ◌<◌, ◌≡◌, refl, sym, ap, ◌∙◌, ◌⊎◌, inl, inr, String, true, false, arith,
  Bool-cases,
}
use price_scount.Bot.Client.{
  ClientError, timed_out, Got, got, client_error, Exchange, perform, poll_request, LookupResult,
  blank_lookup, is_final, Polled, one_more, poll_lookup,
}

Got-cases :
    {A : Type 0} (g : Got A) → ((a : A) × (g ≡ got a)) ⊎ ((e : ClientError) × (g ≡ client_error e))
Got-cases (got a) = inl (a, refl)
Got-cases (client_error e) = inr (e, refl)

module _ (exchange : ℕ → Exchange LookupResult) (lookup_id : String) where
  abbrev pub answer : ℕ → Got LookupResult
  answer i = perform (poll_request lookup_id) blank_lookup (exchange i)

  -- The first `n` answers, from the i-th one, say that the lookup is pending.
  abbrev pub Pending : ℕ → ℕ → Type 0
  Pending i n =
      (j : ℕ) → j < n → (r : LookupResult) × (answer (i + j) ≡ got r) × (is_final r ≡ false)

  Pending-suc :
      (i n : ℕ) (r : LookupResult)
      → answer i ≡ got r
      → is_final r ≡ false
      → Pending (i + 1) n
      → Pending i (suc n)
  Pending-suc i n r a f h zero lt = let e : i + 0 ≡ i = omega arith in (r, rw e a, f)
  Pending-suc i n r a f h (suc j) lt =
      let e : i + suc j ≡ i + 1 + j = omega arith in rw e (h j (omega arith))

  first : (i : ℕ) → answer (i + 0) ≡ answer i
  first i = let e : i + 0 ≡ i = omega arith in ap answer e

  next : (i n : ℕ) → answer (i + suc n) ≡ answer (i + 1 + n)
  next i n = let e : i + suc n ≡ i + 1 + n = omega arith in ap answer e

  -- A final answer or an error.
  abbrev pub Ended : ℕ → Type 0
  Ended k =
      ((r : LookupResult) × (answer k ≡ got r) × (is_final r ≡ true))
      ⊎ ((e : ClientError) × (answer k ≡ client_error e))

  ended : (i n : ℕ) → Ended (i + 1 + n) → Ended (i + suc n)
  ended i n (inl (r, a, f)) = inl (r, next i n ∙ a, f)
  ended i n (inr (e, a)) = inr (e, next i n ∙ a)

  -- PollLookup stopped after pending answers: with the first answer that is final or an error, or
  -- because the context is done.
  abbrev pub Stopped : ℕ → ℕ → Polled → Type 0
  Stopped ticks i p =
      ((n : ℕ) × (n < ticks)
        × (p.requests ≡ suc n)
        × Pending i n
        × (p.result ≡ answer (i + n))
        × Ended (i + n))
      ⊎ ((p.requests ≡ ticks) × Pending i ticks × (p.result ≡ client_error timed_out))

  -- PollLookup ends after at most one request for each tick that comes before the context is done.
  -- It returns the first answer that is done, failed or an error, every answer before it being
  -- pending, and times out if all are pending.
  pub poll_lookup-Stopped : (ticks i : ℕ) → Stopped ticks i (poll_lookup exchange lookup_id ticks i)
  poll_lookup-Stopped zero i =
      let step : poll_lookup exchange lookup_id zero i
          ≡ record { result = client_error timed_out; requests = 0 } =
        unfold poll_lookup in refl in
      rw step (inr (refl, λ j lt. absurd (omega arith), refl))
  poll_lookup-Stopped (suc ticks) i = elim (Got-cases (answer i)) [
    | inr (e, a) ↦
        let step : poll_lookup exchange lookup_id (suc ticks) i
            ≡ record { result = client_error e; requests = 1 } =
          unfold poll_lookup in ground (arith, a) in
        rw step (
          inl (
            0,
            omega arith,
            refl,
            λ j lt. absurd (omega arith),
            sym (first i ∙ a),
            inr (e, first i ∙ a),
          ))
    | inl (r, a) ↦ elim (Bool-cases (is_final r)) [
      | inl over ↦
          let step : poll_lookup exchange lookup_id (suc ticks) i
              ≡ record { result = got r; requests = 1 } =
            unfold poll_lookup in ground (arith, a, over) in
          rw step (
            inl (
              0,
              omega arith,
              refl,
              λ j lt. absurd (omega arith),
              sym (first i ∙ a),
              inl (r, first i ∙ a, over),
            ))
      | inr pending ↦
          let step : poll_lookup exchange lookup_id (suc ticks) i
              ≡ one_more (poll_lookup exchange lookup_id ticks (i + 1)) =
            unfold poll_lookup in ground (arith, a, pending) in
          rw step (elim (poll_lookup-Stopped ticks (i + 1)) [
            | inl (n, lt, count, before, result, end) ↦ inl (
              suc n,
              omega arith,
              omega (arith, count),
              Pending-suc i n r a pending before,
              result ∙ sym (next i n),
              ended i n end,
            )
            | inr (count, before, result) ↦
                inr (omega (arith, count), Pending-suc i ticks r a pending before, result)
          ])
    ]
  ]
