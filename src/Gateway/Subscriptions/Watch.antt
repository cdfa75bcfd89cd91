-- ===== src/Gateway/Subscriptions/Watch.antt =====
-- Which products are watched, before and after an update of the subscriptions.
use price_scount.Base.{
  Bool, true, false, Option, none, some, List, [], ◌∷◌, ◌==◌, ◌≡◌, refl, arith, find, update,
  try_update, insert_by, All, find-All, Bool-cases, Option-cases, inl, inr, ap, ==_iff,
}
use mathlib.Core.Path.{subst}
use price_scount.Env.{Uuid}
use price_scount.Gateway.Db.{Subscription}
use price_scount.Gateway.Alerts.{watches}
use price_scount.Gateway.Alerts.Exact.{Absent, Distinct}
use price_scount.Gateway.Monitoring.{is_watched}

-- The rows that a test selects are all of one product.
abbrev pub OfProduct : (Subscription → Bool) → Uuid → List Subscription → Type 0
OfProduct P product = All (λ s. P s ≡ true → s.product_id ≡ product)

OfProduct-Absent :
    (P : Subscription → Bool) (id product : Uuid) (rows : List Subscription)
    → ((s : Subscription) → P s ≡ true → (s.id == id) ≡ true)
    → Absent id rows
    → OfProduct P product rows
OfProduct-Absent P id product [] h a = tt
OfProduct-Absent P id product (s ∷ rows) h a =
    (λ e. absurd (ground (arith, h s e, a.0)), OfProduct-Absent P id product rows h a.1)

find-Absent :
    (P : Subscription → Bool) (id : Uuid) (rows : List Subscription)
    → ((s : Subscription) → P s ≡ true → (s.id == id) ≡ true)
    → Absent id rows
    → find P rows ≡ none
find-Absent P id [] h a = refl
find-Absent P id (s ∷ rows) h a = elim (Bool-cases (P s)) [
  | inl fits ↦ absurd (ground (arith, h s fits, a.0))
  | inr fails ↦ ground (arith, find-Absent P id rows h a.1)
]

-- Two tests of one key: where the finer one finds a row, all rows of the key are of its product.
pub find-OfProduct :
    (P Q : Subscription → Bool) (id : Uuid) (rows : List Subscription) (s : Subscription)
    → ((x : Subscription) → P x ≡ true → (x.id == id) ≡ true)
    → ((x : Subscription) → Q x ≡ true → (x.id == id) ≡ true)
    → Distinct rows
    → find Q rows ≡ some s
    → OfProduct P s.product_id rows
find-OfProduct P Q id [] s hp hq d e = tt
find-OfProduct P Q id (x ∷ rows) s hp hq d e = elim (Bool-cases (x.id == id)) [
  | inl hit ↦
      let at : x.id ≡ id = (==_iff x.id id).0 hit in
      let gone : Absent id rows = subst (λ i. Absent i rows) at d.0 in
      elim (Bool-cases (Q x)) [
        | inl first ↦
            let same : x ≡ s = ground arith in
            (λ _. ap (λ y. y.product_id) same, OfProduct-Absent P id s.product_id rows hp gone)
        | inr later ↦ absurd (ground (arith, find-Absent Q id rows hq gone))
      ]
  | inr miss ↦ (
    λ k. absurd (ground (arith, hp x k)),
    find-OfProduct P Q id rows s hp hq d.1 (ground (arith, hq x)),
  )
]

-- An update of the rows of one product leaves the watch on every other as it was.
pub is_watched-update :
    (P : Subscription → Bool) (f : Subscription → Subscription) (product j : Uuid)
    (rows : List Subscription)
    → ((s : Subscription) → (f s).product_id ≡ s.product_id)
    → OfProduct P product rows
    → (j == product) ≡ false
    → is_watched j (update P f rows) ≡ is_watched j rows
unfolding watches
is_watched-update P f product j [] h o n = refl
is_watched-update P f product j (s ∷ rows) h o n = elim (Bool-cases (P s)) [
  | inl hit ↦ ground (arith, h s, o.0 hit, is_watched-update P f product j rows h o.1 n)
  | inr miss ↦ ground (arith, is_watched-update P f product j rows h o.1 n)
]

pub is_watched-try_update :
    (P : Subscription → Bool) (f : Subscription → Option Subscription) (product j : Uuid)
    (rows rows' : List Subscription)
    → ((s t : Subscription) → f s ≡ some t → t.product_id ≡ s.product_id)
    → OfProduct P product rows
    → (j == product) ≡ false
    → try_update P f rows ≡ some rows'
    → is_watched j rows' ≡ is_watched j rows
unfolding watches
is_watched-try_update P f product j [] rows' h o n e = ground arith
is_watched-try_update P f product j (s ∷ rows) rows' h o n e =
    elim (Option-cases (try_update P f rows)) [
      | inl refused ↦ absurd (ground arith)
      | inr (rest, done) ↦
          let tail = is_watched-try_update P f product j rows rest h o.1 n done in
          elim (Bool-cases (P s)) [
            | inr miss ↦ ground (arith, tail)
            | inl hit ↦ elim (Option-cases (f s)) [
              | inl refused ↦ absurd (ground arith)
              | inr (t, new) ↦ ground (arith, tail, h s t new, o.0 hit)
            ]
          ]
    ]

pub is_watched-insert :
    (s : Subscription) (j : Uuid) (rows : List Subscription)
    → (j == s.product_id) ≡ false
    → is_watched j (insert_by (λ x. x.id) s rows) ≡ is_watched j rows
unfolding watches
is_watched-insert s j [] n = ground arith
is_watched-insert s j (x ∷ rows) n = ground (arith, is_watched-insert s j rows n)

-- The rows that a test selects are all one row.
abbrev pub Only : (Subscription → Bool) → Subscription → List Subscription → Type 0
Only P s = All (λ x. P x ≡ true → x ≡ s)

Only-Absent :
    (id : Uuid) (s : Subscription) (rows : List Subscription)
    → Absent id rows
    → Only (λ x. x.id == id) s rows
Only-Absent id s [] a = tt
Only-Absent id s (x ∷ rows) a = (λ e. absurd (ground (arith, a.0)), Only-Absent id s rows a.1)

-- Whatever test found it, a row is the only one of its id.
pub find-Only :
    (Q : Subscription → Bool) (rows : List Subscription) (s : Subscription)
    → Distinct rows
    → find Q rows ≡ some s
    → Only (λ x. x.id == s.id) s rows
find-Only Q [] s d e = tt
find-Only Q (x ∷ rows) s d e = elim (Bool-cases (Q x)) [
  | inl first ↦
      let same : x ≡ s = ground arith in
      (λ _. same, Only-Absent s.id s rows (subst (λ i. Absent i rows) (ap (λ y. y.id) same) d.0))
  | inr later ↦
      let rest : find Q rows ≡ some s = ground arith in
      let other = find-All (λ y. (y.id == x.id) ≡ false) Q rows s d.0 rest in
      (λ k. absurd (ground (arith, other)), find-Only Q rows s d.1 rest)
]

pub Only-OfProduct :
    (P : Subscription → Bool) (s : Subscription) (rows : List Subscription)
    → Only P s rows
    → OfProduct P s.product_id rows
Only-OfProduct P s [] o = tt
Only-OfProduct P s (x ∷ rows) o = (λ e. ap (λ y. y.product_id) (o.0 e), Only-OfProduct P s rows o.1)

-- A new row that is watched like the old one changes no watch.
pub is_watched-same :
    (P : Subscription → Bool) (f : Subscription → Option Subscription) (s t : Subscription)
    (j : Uuid) (rows rows' : List Subscription)
    → Only P s rows
    → f s ≡ some t
    → watches j t ≡ watches j s
    → try_update P f rows ≡ some rows'
    → is_watched j rows' ≡ is_watched j rows
is_watched-same P f s t j [] rows' o fs w e = ground arith
is_watched-same P f s t j (x ∷ rows) rows' o fs w e = elim (Option-cases (try_update P f rows)) [
  | inl refused ↦ absurd (ground arith)
  | inr (rest, done) ↦
      let tail = is_watched-same P f s t j rows rest o.1 fs w done in
      elim (Bool-cases (P x)) [
        | inr miss ↦ ground (arith, tail)
        | inl hit ↦ let same : x ≡ s = o.0 hit in ground (arith, tail, same)
      ]
]

-- The row that a test found was written, so its new value was accepted.
pub written-row :
    (Q P : Subscription → Bool) (f : Subscription → Option Subscription) (s : Subscription)
    (rows rows' : List Subscription)
    → find Q rows ≡ some s
    → P s ≡ true
    → try_update P f rows ≡ some rows'
    → (t : Subscription) × (f s ≡ some t)
written-row Q P f s [] rows' q p e = absurd (ground arith)
written-row Q P f s (x ∷ rows) rows' q p e = elim (Option-cases (try_update P f rows)) [
  | inl refused ↦ absurd (ground arith)
  | inr (rest, done) ↦ elim (Bool-cases (Q x)) [
    | inr later ↦ written-row Q P f s rows rest (ground arith) p done
    | inl first ↦
        let same : x ≡ s = ground arith in
        elim (Option-cases (f s)) [
          | inl no_row ↦ absurd (ground (arith, same))
          | inr (t, made) ↦ (t, made)
        ]
  ]
]

-- A row that is watched is found by `is_watched` after it is written.
pub is_watched-written :
    (Q P : Subscription → Bool) (f : Subscription → Option Subscription) (s t : Subscription)
    (j : Uuid) (rows rows' : List Subscription)
    → find Q rows ≡ some s
    → P s ≡ true
    → f s ≡ some t
    → watches j t ≡ true
    → try_update P f rows ≡ some rows'
    → is_watched j rows' ≡ true
is_watched-written Q P f s t j [] rows' q p fs w e = absurd (ground arith)
is_watched-written Q P f s t j (x ∷ rows) rows' q p fs w e =
    elim (Option-cases (try_update P f rows)) [
      | inl refused ↦ absurd (ground arith)
      | inr (rest, done) ↦ elim (Bool-cases (Q x)) [
        | inl first ↦ let same : x ≡ s = ground arith in ground (arith, same)
        | inr later ↦
            let tail = is_watched-written Q P f s t j rows rest (ground arith) p fs w done in
            ground (arith, tail)
      ]
    ]

pub is_watched-inserted :
    (s : Subscription) (j : Uuid) (rows : List Subscription)
    → watches j s ≡ true
    → is_watched j (insert_by (λ x. x.id) s rows) ≡ true
is_watched-inserted s j [] w = ground arith
is_watched-inserted s j (x ∷ rows) w = ground (arith, is_watched-inserted s j rows w)
