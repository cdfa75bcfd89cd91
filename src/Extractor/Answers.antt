-- ===== src/Extractor/Answers.antt =====
-- The results that the extractor publishes.
use price_scount.Base.{ℕ, String, Bool, some, ◌≡◌, refl, arith, Bool-cases, inl, inr}
use price_scount.Contracts.{LookupTask, ScraperTask, PriceResult}
use price_scount.Delivery.{requeue}
use price_scount.Extractor.{
  Fetched, product, fetch_error, lookup_result, scraper_result, fetch, handle_lookup,
  handle_scraper,
}

module _ (now : ℕ) (fetch_product : String → Fetched) (publishes : PriceResult → Bool) where
  lookup_result-ids :
      (t : LookupTask) (f : Fetched)
      → ((lookup_result now fetch_product publishes t f).task_id ≡ t.task_id)
        × ((lookup_result now fetch_product publishes t f).lookup_id ≡ t.lookup_id)
        × ((lookup_result now fetch_product publishes t f).product_id ≡ "")
  lookup_result-ids t (product p) = (refl, refl, refl)
  lookup_result-ids t (fetch_error e) = (refl, refl, refl)

  scraper_result-ids :
      (t : ScraperTask) (f : Fetched)
      → ((scraper_result now fetch_product publishes t f).task_id ≡ t.task_id)
        × ((scraper_result now fetch_product publishes t f).product_id ≡ t.product_id)
        × ((scraper_result now fetch_product publishes t f).lookup_id ≡ "")
        × ((scraper_result now fetch_product publishes t f).force ≡ t.force)
  scraper_result-ids t (product p) = (refl, refl, refl, refl)
  scraper_result-ids t (fetch_error e) = (refl, refl, refl, refl)

  -- A well-formed task of either queue that is not requeued has a result at the broker with the id of
  -- its task. The result of a lookup has the id of the lookup and no product; that of a scraper task
  -- has the product, no lookup, and the task's force flag.
  pub tasks_answered :
      (l : LookupTask) (s : ScraperTask)
      → (((handle_lookup now fetch_product publishes (some l)).verdict ≡ requeue → ⊥)
          → (r : PriceResult) × ((handle_lookup now fetch_product publishes (some l)).published
              ≡ some r)
            × (r.task_id ≡ l.task_id)
            × (r.lookup_id ≡ l.lookup_id)
            × (r.product_id ≡ ""))
        × (((handle_scraper now fetch_product publishes (some s)).verdict ≡ requeue → ⊥)
            → (r : PriceResult) × ((handle_scraper now fetch_product publishes (some s)).published
                ≡ some r)
              × (r.task_id ≡ s.task_id)
              × (r.product_id ≡ s.product_id)
              × (r.lookup_id ≡ "")
              × (r.force ≡ s.force))
  tasks_answered l s =
      let fl = fetch now fetch_product publishes l.platform l.url in
      let fs = fetch now fetch_product publishes s.platform s.url in
      let rl = lookup_result now fetch_product publishes l fl in
      let rs = scraper_result now fetch_product publishes s fs in
      let il = lookup_result-ids l fl in
      let is = scraper_result-ids s fs in
      (
        λ n. elim (Bool-cases (publishes rl)) [
          | inl taken ↦ (rl, unfold handle_lookup in ground (arith, taken), il.0, il.1, il.2)
          | inr refused ↦ absurd (n (unfold handle_lookup in ground (arith, refused)))
        ],
        λ n. elim (Bool-cases (publishes rs)) [
          | inl taken ↦ (rs, unfold handle_scraper in ground (arith, taken), is.0, is.1, is.2, is.3)
          | inr refused ↦ absurd (n (unfold handle_scraper in ground (arith, refused)))
        ],
      )
