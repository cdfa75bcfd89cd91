-- ===== src/Gateway/Consumer/Again.antt =====
-- The answers to deliveries of price results.
use price_scount.Base.{
  ◌⊎◌, ok, err, Fault, invalid_result, not_found, invalid_request, database, ℕ, Option, none, some,
  ◌≡◌, ◌≢◌, refl, arith, Result-cases, inl, inr,
}
use price_scount.Env.{Env}
use price_scount.Contracts.{PriceResult}
use price_scount.Delivery.{Verdict, ack, drop, requeue}
use price_scount.Gateway.Db.{Db}
use price_scount.Gateway.Results.{process_price_result}
use price_scount.Gateway.Results.Redelivery.{process_price_result_again}
use price_scount.Gateway.Consumer.{handle}

module _ (env : Env) (now later : ℕ) where
  -- What a delivery comes to, and the answer that it gets.
  abbrev pub Answered : Option PriceResult → Db → Verdict × Db → Type 0
  Answered d db answer =
      ((d ≡ none) × (answer ≡ (drop, db)))
      ⊎ ((r : PriceResult) × (db' : Db) × (d ≡ some r)
          × (process_price_result env now r db ≡ ok (tt, db'))
          × (answer ≡ (ack, db'))
          × (handle env later d db' ≡ (ack, db')))
      ⊎ ((r : PriceResult) × (d ≡ some r)
          × (process_price_result env now r db ≡ err invalid_result)
          × (answer ≡ (drop, db)))
      ⊎ ((r : PriceResult) × (e : Fault) × (d ≡ some r)
          × (process_price_result env now r db ≡ err e)
          × (e ≢ invalid_result)
          × (answer ≡ (requeue, db)))

  -- A delivery is dropped only if it is malformed or the store calls the result invalid. After any
  -- other fault it goes back to the queue. In both cases the database stays as it was. Otherwise the
  -- result is stored and the delivery acknowledged, and if it comes again later it is acknowledged
  -- again and changes nothing.
  pub handle_answers : (d : Option PriceResult) (db : Db) → Answered d db (handle env now d db)
  handle_answers none db = unfold handle in inl (refl, refl)
  handle_answers (some r) db = elim (Result-cases (process_price_result env now r db)) [
    | inl ((t, db'), done) ↦
        let again = process_price_result_again env now later r db db' done in
        inr (
          inl (
            r,
            db',
            refl,
            done,
            unfold handle in ground (arith, done),
            unfold handle in ground (arith, again),
          ))
    | inr (invalid_result, failed) ↦
        inr (inr (inl (r, refl, failed, unfold handle in ground (arith, failed))))
    | inr (not_found, failed) ↦ inr (
        inr (
          inr (
            r,
            not_found,
            refl,
            failed,
            λ e. ground (arith, e),
            unfold handle in ground (arith, failed),
          )))
    | inr (invalid_request, failed) ↦ inr (
        inr (
          inr (
            r,
            invalid_request,
            refl,
            failed,
            λ e. ground (arith, e),
            unfold handle in ground (arith, failed),
          )))
    | inr (database, failed) ↦ inr (
        inr (
          inr (
            r,
            database,
            refl,
            failed,
            λ e. ground (arith, e),
            unfold handle in ground (arith, failed),
          )))
  ]
