-- ===== src/Gateway/Cleaner.antt =====
-- services/gateway/internal/cleaner: the rows that a tick of the cleaner deletes.
use price_scount.Base.{
  ℕ, ◌-◌, ◌*◌, ◌≡◌, refl, Bool, true, false, not, List, [], ◌∷◌, Tx, ok, err, exists, select, ltb,
  if◌then◌else◌, Bool-cases, inl, inr,
}
use price_scount.Env.{Env}
use price_scount.Gateway.Db.{Db}
use price_scount.Gateway.Store.{delete_expired_lookups, delete_old_price_history}

-- What a statement of the tick leaves, where the database may refuse it; an error is only logged.
abbrev pub after_statement : Bool → Tx Db ℕ → Db → Db
after_statement is_refused statement db =
    if is_refused then db else (elim (statement db) [ ok (_, db') ↦ db' | err _ ↦ db ])

-- A tick of Run; `retention` is in seconds.
unfoldable pub clean : Env → ℕ → ℕ → Bool → Bool → Db → Db
clean env now retention lookups_refused history_refused db =
    after_statement history_refused (delete_old_price_history env now retention)
      (after_statement lookups_refused (delete_expired_lookups env now) db)

select-exists :
    {A : Type 0} (p : A → Bool) (xs : List A) → exists p (select (λ x. not (p x)) xs) ≡ false
select-exists p [] = refl
select-exists p (x ∷ xs) = elim (Bool-cases (p x)) [
  | inl e ↦ rw e (select-exists p xs)
  | inr e ↦ rw (e, e) (select-exists p xs)
]

-- A tick whose statements the database accepts leaves no expired lookup and no point of a price that
-- is older than the window; one whose statements it refuses changes nothing.
clean_lem :
    (env : Env) (now retention : ℕ) (db : Db)
    → (exists (λ l. ltb l.expires_at now) (clean env now retention false false db).lookups ≡ false)
      × (exists
            (λ p. ltb p.scraped_at (now - retention * 1000000))
            (clean env now retention false false db).price_history
          ≡ false)
      × (clean env now retention true true db ≡ db)
unfolding clean delete_expired_lookups delete_old_price_history
clean_lem env now retention db = (
  select-exists (λ l. ltb l.expires_at now) db.lookups,
  select-exists (λ p. ltb p.scraped_at (now - retention * 1000000)) db.price_history,
  refl,
)
