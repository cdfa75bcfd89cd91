-- ===== src/Outbox/Lease/Picked.antt =====
-- internal/store/outbox.go of services/gateway and of services/scheduler: the rows that Claim picks.
use mathlib.Core.Path.{subst}
use price_scount.Base.{
  ℕ, zero, suc, ◌≤◌, Bool, true, false, List, [], ◌∷◌, ◌≡◌, ◌⊎◌, inl, inr, refl, arith, take,
  select, leb, All, Bool-cases,
}
use price_scount.Outbox.Table.{Row}
use price_scount.Outbox.Lease.{Owner, can_claim, insert_row, sort_rows, picked}

-- What holds of every row that a WHERE clause keeps.
select-All :
    (P Q : Row → Type 0) (p : Row → Bool) (rows : List Row)
    → ((r : Row) → P r → p r ≡ true → Q r)
    → All P rows
    → All Q (select p rows)
select-All P Q p [] f h = tt
select-All P Q p (r ∷ rows) f h = elim (Bool-cases (p r)) [
  | inl e ↦ rw e (f r h.0 e, select-All P Q p rows f h.1)
  | inr e ↦ rw e (select-All P Q p rows f h.1)
]

insert_row-All :
    (P : Row → Type 0) (r : Row) (rows : List Row) → P r → All P rows → All P (insert_row r rows)
insert_row-All P r [] h k = (h, tt)
insert_row-All P r (s ∷ rows) h k = elim (Bool-cases (leb r.created_at s.created_at)) [
  | inl first ↦ rw first (h, k)
  | inr later ↦ rw later (k.0, insert_row-All P r rows h k.1)
]

sort_rows-All : (P : Row → Type 0) (rows : List Row) → All P rows → All P (sort_rows rows)
sort_rows-All P [] h = tt
sort_rows-All P (r ∷ rows) h = insert_row-All P r (sort_rows rows) h.0 (sort_rows-All P rows h.1)

take-All : (P : Row → Type 0) (n : ℕ) (rows : List Row) → All P rows → All P (take n rows)
take-All P zero rows h = tt
take-All P (suc n) [] h = tt
take-All P (suc n) (r ∷ rows) h = (h.0, take-All P n rows h.1)

-- A picked row is one of the table that can be claimed.
pub picked-All :
    (P Q : Row → Type 0) (owner : Owner) (now limit : ℕ) (rows : List Row)
    → ((r : Row) → P r → can_claim owner now r ≡ true → Q r)
    → All P rows
    → All Q (picked owner now limit rows)
picked-All P Q owner now limit rows f h =
    let kept = select-All P Q (can_claim owner now) rows f h in
    take-All Q limit (sort_rows (select (can_claim owner now) rows))
      (sort_rows-All Q (select (can_claim owner now) rows) kept)

-- No row was made before this one.
abbrev Oldest : Row → List Row → Type 0
Oldest r = All (λ s. r.created_at ≤ s.created_at)

Oldest-trans :
    (r s : Row) (rows : List Row) → r.created_at ≤ s.created_at → Oldest s rows → Oldest r rows
Oldest-trans r s [] h k = tt
Oldest-trans r s (t ∷ rows) h k = (omega (arith, h, k.0), Oldest-trans r s rows h k.1)

sort_rows-cases :
    (rows : List Row)
    → (rows ≡ []) ⊎ ((r : Row) × (rest : List Row) × (sort_rows rows ≡ r ∷ rest) × Oldest r rows)
sort_rows-cases [] = inl refl
sort_rows-cases (x ∷ rows) = elim (sort_rows-cases rows) [
  | inl none ↦ rw none (inr (x, [], refl, (omega arith, tt)))
  | inr (r, rest, sorted, oldest) ↦ elim (Bool-cases (leb x.created_at r.created_at)) [
    | inl first ↦ inr (
      x,
      r ∷ rest,
      rw (sorted, first) refl,
      (omega arith, Oldest-trans x r rows (ground (arith, first)) oldest),
    )
    | inr later ↦
        inr (r, insert_row x rest, rw (sorted, later) refl, (ground (arith, later), oldest))
  ]
]

none-selected :
    (p : Row → Bool) (rows : List Row) → select p rows ≡ [] → All (λ r. p r ≡ false) rows
none-selected p [] h = tt
none-selected p (r ∷ rows) h = elim (Bool-cases (p r)) [
  | inl e ↦ absurd (ground (arith, h, e))
  | inr e ↦ (e, none-selected p rows (ground (arith, h, e)))
]

Oldest-selected :
    (p : Row → Bool) (r : Row) (rows : List Row)
    → Oldest r (select p rows)
    → All (λ s. (p s ≡ false) ⊎ (r.created_at ≤ s.created_at)) rows
Oldest-selected p r [] h = tt
Oldest-selected p r (s ∷ rows) h = elim (Bool-cases (p s)) [
  | inl e ↦
      let kept : select p (s ∷ rows) ≡ s ∷ select p rows = rw e refl in
      let k : Oldest r (s ∷ select p rows) = subst (Oldest r) kept h in
      (inr k.0, Oldest-selected p r rows k.1)
  | inr e ↦
      let kept : select p (s ∷ rows) ≡ select p rows = rw e refl in
      let k : Oldest r (select p rows) = subst (Oldest r) kept h in
      (inl e, Oldest-selected p r rows k)
]

-- A claim of one row picks none where none can be claimed, and else the one that was made first.
pub picked_one :
    (owner : Owner) (now : ℕ) (rows : List Row)
    → ((picked owner now 1 rows ≡ []) × All (λ s. can_claim owner now s ≡ false) rows)
      ⊎ ((r : Row) × (picked owner now 1 rows ≡ r ∷ [])
          × All (λ s. (can_claim owner now s ≡ false) ⊎ (r.created_at ≤ s.created_at)) rows)
picked_one owner now rows = elim (sort_rows-cases (select (can_claim owner now) rows)) [
  | inl none ↦ inl (rw none refl, none-selected (can_claim owner now) rows none)
  | inr (r, rest, sorted, oldest) ↦
      inr (r, rw sorted refl, Oldest-selected (can_claim owner now) r rows oldest)
]
