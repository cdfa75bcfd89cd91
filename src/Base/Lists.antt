-- ===== src/Base/Lists.antt =====
-- Tables as lists: search, selection and update by a Boolean test.
use Prim.Native.Nat.{ℕ, zero, suc, ◌+◌, ◌≤◌}
use mathlib.Core.Path.{◌≡◌, refl, subst}
use mathlib.Core.Logic.{inl, inr}
use mathlib.Core.Bool.{Bool, true, false, ◌||◌}
use mathlib.Core.Option.{Option, none, some}
use mathlib.Core.List.{List, [], ◌∷◌, ◌++◌}
use native.Mathlib.Omega.{arith}
use price_scount.Base.Tests.{if◌then◌else◌, Bool-cases, ltb, ◌==◌}

module _ {ℓ} {A : Type ℓ} where
  abbrev pub length : List A → ℕ
  length [] = 0
  length (x ∷ xs) = suc (length xs)

  abbrev pub take : ℕ → List A → List A
  take zero xs = []
  take (suc n) [] = []
  take (suc n) (x ∷ xs) = x ∷ take n xs

  abbrev pub get_or : List A → ℕ → A → A
  get_or [] i d = d
  get_or (x ∷ xs) zero d = x
  get_or (x ∷ xs) (suc i) d = get_or xs i d

  -- SELECT ... LIMIT 1 of a table.
  abbrev pub find : (A → Bool) → List A → Option A
  find p [] = none
  find p (x ∷ xs) = if p x then some x else find p xs

  -- SELECT EXISTS(...).
  abbrev pub exists : (A → Bool) → List A → Bool
  exists p [] = false
  exists p (x ∷ xs) = p x || exists p xs

  -- The rows that a WHERE clause selects.
  abbrev pub select : (A → Bool) → List A → List A
  select p [] = []
  select p (x ∷ xs) = let rest = select p xs in if p x then x ∷ rest else rest

  -- UPDATE ... SET ... WHERE.
  abbrev pub update : (A → Bool) → (A → A) → List A → List A
  update p f [] = []
  update p f (x ∷ xs) = (if p x then f x else x) ∷ update p f xs

  -- Number of rows of a WHERE clause.
  abbrev pub count_if : (A → Bool) → List A → ℕ
  count_if p [] = 0
  count_if p (x ∷ xs) = let rest = count_if p xs in if p x then suc rest else rest

  pub count_if-append :
      (p : A → Bool) (xs ys : List A) → count_if p (xs ++ ys) ≡ count_if p xs + count_if p ys
  count_if-append p [] ys = omega arith
  count_if-append p (x ∷ xs) ys = ground (arith, count_if-append p xs ys)

  abbrev pub All {κ} : (A → Type κ) → List A → Type κ
  All P [] = Unit
  All P (x ∷ xs) = P x × All P xs

  pub length-append : (xs ys : List A) → length (xs ++ ys) ≡ length xs + length ys
  length-append [] ys = omega arith
  length-append (x ∷ xs) ys = omega (arith, length-append xs ys)

  pub length-take : (n : ℕ) (xs : List A) → length (take n xs) ≤ n
  length-take zero xs = omega arith
  length-take (suc n) [] = omega arith
  length-take (suc n) (x ∷ xs) = omega (arith, length-take n xs)

  pub exists-append :
      (p : A → Bool) (xs ys : List A) → exists p (xs ++ ys) ≡ (exists p xs || exists p ys)
  exists-append p [] ys = refl
  exists-append p (x ∷ xs) ys = ground (arith, exists-append p xs ys)

  pub All-append {κ} : (P : A → Type κ) (xs ys : List A) → All P xs → All P ys → All P (xs ++ ys)
  All-append P [] ys hx hy = hy
  All-append P (x ∷ xs) ys hx hy = (hx.0, All-append P xs ys hx.1 hy)

  pub All-map {κ μ} :
      (P : A → Type κ) (Q : A → Type μ) (xs : List A) → ((x : A) → P x → Q x) → All P xs → All Q xs
  All-map P Q [] f h = tt
  All-map P Q (x ∷ xs) f h = (f x h.0, All-map P Q xs f h.1)

  -- What `find` returns passes the test and every predicate of the table.
  pub find-passes : (p : A → Bool) (xs : List A) (x : A) → find p xs ≡ some x → p x ≡ true
  find-passes p [] x h = ground arith
  find-passes p (y ∷ xs) x h = ground (arith, find-passes p xs x)

  pub find-All {κ} :
      (P : A → Type κ) (p : A → Bool) (xs : List A) (x : A) → All P xs → find p xs ≡ some x → P x
  find-All P p [] x a h = absurd (ground arith)
  find-All P p (y ∷ xs) x a h = elim (Bool-cases (p y)) [
    | inl e ↦ let same : y ≡ x = ground arith in subst P same a.0
    | inr e ↦ find-All P p xs x a.1 (ground arith)
  ]

  -- An UPDATE whose new row a column may refuse.
  abbrev pub try_update : (A → Bool) → (A → Option A) → List A → Option (List A)
  try_update p f [] = some []
  try_update p f (x ∷ xs) =
      let rest = try_update p f xs in
      elim (if p x then f x else some x) [
        | none ↦ none
        | some y ↦ elim rest [ none ↦ none | some ys ↦ some (y ∷ ys) ]
      ]

  -- An INSERT into a table that is kept in the order of its key.
  abbrev pub insert_by : (A → ℕ) → A → List A → List A
  insert_by key a [] = a ∷ []
  insert_by key a (x ∷ xs) = if ltb (key a) (key x) then a ∷ x ∷ xs else x ∷ insert_by key a xs

  pub find-append_new :
      (p : A → Bool) (xs : List A) (y : A)
      → exists p xs ≡ false
      → find p (xs ++ y ∷ []) ≡ (if p y then some y else none)
  find-append_new p [] y h = refl
  find-append_new p (x ∷ xs) y h = ground (arith, find-append_new p xs y)

  pub find-append_miss :
      (p : A → Bool) (xs : List A) (y : A) → p y ≡ false → find p (xs ++ y ∷ []) ≡ find p xs
  find-append_miss p [] y h = ground arith
  find-append_miss p (x ∷ xs) y h = ground (arith, find-append_miss p xs y h)

  -- A row is found by a key that the update keeps.
  pub find-update :
      (key : A → ℕ) (f : A → A) (i k : ℕ) (rows : List A) (q : A)
      → ((x : A) → key (f x) ≡ key x)
      → find (λ x. key x == i) rows ≡ some q
      → find (λ x. key x == i) (update (λ x. key x == k) f rows) ≡ some (if i == k then f q else q)
  find-update key f i k [] q h e = ground arith
  find-update key f i k (x ∷ rows) q h e = ground (arith, h x, find-update key f i k rows q h)

  pub find-update-none :
      (key : A → ℕ) (f : A → A) (i k : ℕ) (rows : List A)
      → ((x : A) → key (f x) ≡ key x)
      → find (λ x. key x == i) rows ≡ none
      → find (λ x. key x == i) (update (λ x. key x == k) f rows) ≡ none
  find-update-none key f i k [] h e = refl
  find-update-none key f i k (x ∷ rows) h e = ground (arith, h x, find-update-none key f i k rows h)
