-- ===== src/Bot/Pages/Displayed.antt =====
-- services/bot/internal/bot/mylist.go: what the pages show of the subscriptions.
use Prim.Native.String
use mathlib.Core.List.{append_assoc}
use price_scount.Base.{
  ℕ, zero, suc, ◌+◌, ◌-◌, ◌≡◌, refl, sym, ap, ◌∙◌, String, List, [], ◌∷◌, ◌++◌, length,
  length-append, get_or, ltb, if◌then◌else◌, arith, Bool-cases, inl, inr,
}
use price_scount.Base.Text.{join, format_int}
use price_scount.Env.{Env}
use price_scount.Bot.Pages.{
  Listed, no_listed, Button, Keyboard, item_rows, navigation_rows, page_text, page_rows,
  my_list_entry, entries_from,
}
use price_scount.Bot.Pages.Order.{range_from}

-- The callback data of the buttons, row by row.
abbrev pub data_of_row : List Button → List String
data_of_row [] = []
data_of_row ((label, callback) ∷ row) = callback ∷ data_of_row row

abbrev pub data_of : Keyboard → List String
data_of [] = []
data_of (row ∷ rows) = data_of_row row ++ data_of rows

-- The callbacks that a subscription has to have: edit, resume or pause, history, check and delete.
abbrev pub callbacks : Listed → List String
callbacks s =
    String.◌++◌ "edit_sub:" s.id
    ∷ String.◌++◌ (if s.paused then "resume_sub:" else "pause_sub:") s.id
    ∷ String.◌++◌ "history_sub:" s.id
    ∷ String.◌++◌ "check_sub:" s.id
    ∷ String.◌++◌ "del_sub:" s.id
    ∷ []

abbrev pub all_callbacks : List Listed → List String
all_callbacks [] = []
all_callbacks (s ∷ subs) = callbacks s ++ all_callbacks subs

-- The links to the page before and the page after.
abbrev pub links : ℕ → ℕ → List String
links page pages =
    (if ltb 1 page then String.◌++◌ "page:" (format_int (page - 1)) ∷ [] else [])
    ++ (if ltb page pages then String.◌++◌ "page:" (format_int (page + 1)) ∷ [] else [])

data_of_row-append : (a b : List Button) → data_of_row (a ++ b) ≡ data_of_row a ++ data_of_row b
data_of_row-append [] b = refl
data_of_row-append (x ∷ a) b = ap (λ t. x.1 ∷ t) (data_of_row-append a b)

pub data_of-append : (a b : Keyboard) → data_of (a ++ b) ≡ data_of a ++ data_of b
data_of-append [] b = refl
data_of-append (row ∷ a) b =
    ap (λ t. data_of_row row ++ t) (data_of-append a b)
    ∙ sym (append_assoc (data_of_row row) (data_of a) (data_of b))

pub data_of-navigation_rows :
    (page pages : ℕ) → data_of (navigation_rows page pages) ≡ links page pages
data_of-navigation_rows page pages = elim (Bool-cases (ltb 1 page)) [
  | inl e ↦ elim (Bool-cases (ltb page pages)) [ inl t ↦ rw (e, t) refl | inr t ↦ rw (e, t) refl ]
  | inr e ↦ elim (Bool-cases (ltb page pages)) [ inl t ↦ rw (e, t) refl | inr t ↦ rw (e, t) refl ]
]

data_of-item_rows : (s : Listed) → data_of (item_rows s) ≡ callbacks s
data_of-item_rows s = elim (Bool-cases s.paused) [ inl e ↦ rw e refl | inr e ↦ rw e refl ]

pub get_or-append :
    {A : Type 0} (xs : List A) (y : A) (ys : List A) (d : A)
    → get_or (xs ++ y ∷ ys) (length xs) d ≡ y
get_or-append [] y ys d = refl
get_or-append (x ∷ xs) y ys d = get_or-append xs y ys d

-- The element after a part of a list.
pub get_or_at :
    {A : Type 0} (all xs : List A) (y : A) (ys : List A) (n : ℕ) (d : A)
    → all ≡ xs ++ y ∷ ys
    → n ≡ length xs
    → get_or all n d ≡ y
get_or_at all xs y ys n d e k =
    ap (λ t. get_or t n d) e ∙ ap (λ t. get_or (xs ++ y ∷ ys) t d) k ∙ get_or-append xs y ys d

next_length :
    {A : Type 0} (xs : List A) (y : A) (n : ℕ) → n ≡ length xs → n + 1 ≡ length (xs ++ y ∷ [])
next_length xs y n k = omega (arith, k, length-append xs (y ∷ []))

-- The subscriptions of a page stand in the list after those of the pages before it.
pub data_of-page_rows :
    (all before these after : List Listed) (n : ℕ)
    → all ≡ before ++ (these ++ after)
    → n ≡ length before
    → data_of (page_rows all (range_from n (length these))) ≡ all_callbacks these
data_of-page_rows all before [] after n e k = refl
data_of-page_rows all before (s ∷ these) after n e k =
    data_of-append (item_rows (get_or all n no_listed))
      (page_rows all (range_from (n + 1) (length these)))
    ∙ ap (λ t. t ++ data_of (page_rows all (range_from (n + 1) (length these))))
        (ap (λ t. data_of (item_rows t)) (get_or_at all before s (these ++ after) n no_listed e k)
          ∙ data_of-item_rows s)
    ∙ ap (λ t. callbacks s ++ t)
        (data_of-page_rows all (before ++ s ∷ []) these after (n + 1)
          (e ∙ sym (append_assoc before (s ∷ []) (these ++ after))) (next_length before s n k))

module _ (env : Env) (room : ℕ) where
  length-entries_from :
      (first : ℕ) (subs : List Listed) → length (entries_from env room first subs) ≡ length subs
  length-entries_from first [] = refl
  length-entries_from first (s ∷ subs) = ap suc (length-entries_from (first + 1) subs)

  entries_from-append :
      (first : ℕ) (a b : List Listed)
      → entries_from env room first (a ++ b)
        ≡ entries_from env room first a ++ entries_from env room (first + length a) b
  entries_from-append first [] b =
      let e : first ≡ first + 0 = omega arith in ap (λ t. entries_from env room t b) e
  entries_from-append first (s ∷ a) b =
      let e : first + 1 + length a ≡ first + suc (length a) = omega arith in
      ap (λ t. my_list_entry env s first room ∷ t)
        (entries_from-append (first + 1) a b
          ∙ ap (λ t. entries_from env room (first + 1) a ++ entries_from env room t b) e)

  pub page_text-chunk :
      (all before these after : List Listed) (n : ℕ)
      → all ≡ before ++ (these ++ after)
      → n ≡ length before
      → page_text (entries_from env room 1 all) (range_from n (length these))
        ≡ join (entries_from env room (1 + n) these)
  page_text-chunk all before [] after n e k = unfold join in refl
  page_text-chunk all before (s ∷ these) after n e k =
      let texts = entries_from env room 1 all in
      let split : texts
          ≡ entries_from env room 1 before
            ++ (my_list_entry env s (1 + length before) room
                ∷ entries_from env room (1 + length before + 1) (these ++ after)) =
        ap (λ t. entries_from env room 1 t) e ∙ entries_from-append 1 before (s ∷ these ++ after) in
      let one : get_or texts n "" ≡ my_list_entry env s (1 + n) room =
        get_or_at texts (entries_from env room 1 before)
          (my_list_entry env s (1 + length before) room)
          (entries_from env room (1 + length before + 1) (these ++ after)) n "" split
          (k ∙ sym (length-entries_from 1 before))
        ∙ ap (λ t. my_list_entry env s (1 + t) room) (sym k) in
      let number : 1 + (n + 1) ≡ 1 + n + 1 = omega arith in
      let others =
        page_text-chunk all (before ++ s ∷ []) these after (n + 1)
          (e ∙ sym (append_assoc before (s ∷ []) (these ++ after))) (next_length before s n k) in
      ap (λ t. String.◌++◌ t (page_text texts (range_from (n + 1) (length these)))) one
      ∙ ap (λ t. String.◌++◌ (my_list_entry env s (1 + n) room) t)
          (others ∙ ap (λ t. join (entries_from env room t these)) number)
      ∙ (unfold join in refl)

-- The first positions of a range, and those after them.
pub range_from-split :
    (p later : List ℕ) (i n : ℕ)
    → p ++ later ≡ range_from i n
    → (m : ℕ) × (n ≡ length p + m)
      × (p ≡ range_from i (length p))
      × (later ≡ range_from (i + length p) m)
range_from-split [] later i n e =
    let k : i ≡ i + 0 = omega arith in (n, omega arith, refl, e ∙ ap (λ t. range_from t n) k)
range_from-split (x ∷ p) later i zero e = absurd (ground (arith, e))
range_from-split (x ∷ p) later i (suc n) e =
    let here : x ≡ i = ground (arith, e) in
    let there : p ++ later ≡ range_from (i + 1) n = ground (arith, e) in
    let (m, count, first, rest) = range_from-split p later (i + 1) n there in
    let k : i + 1 + length p ≡ i + suc (length p) = omega arith in
    (
      m,
      omega (arith, count),
      ap (λ t. t ∷ p) here ∙ ap (λ t. i ∷ t) first,
      rest ∙ ap (λ t. range_from t m) k,
    )

-- A list cut after a number of elements.
pub cut :
    {A : Type 0} (k m : ℕ) (xs : List A)
    → length xs ≡ k + m
    → (a : List A) × (b : List A) × (xs ≡ a ++ b) × (length a ≡ k) × (length b ≡ m)
cut zero m xs e = ([], xs, refl, refl, omega (arith, e))
cut (suc k) m [] e = absurd (omega (arith, e))
cut (suc k) m (x ∷ xs) e =
    let (a, b, split, la, lb) = cut k m xs (omega (arith, e)) in
    (x ∷ a, b, ap (λ t. x ∷ t) split, omega (arith, la), lb)
