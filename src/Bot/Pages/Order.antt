-- ===== src/Bot/Pages/Order.antt =====
-- services/bot/internal/bot/mylist.go: which entries the pages show.
use mathlib.Core.List.{append_assoc, append-nil}
use price_scount.Base.{
  ℕ, zero, suc, ◌+◌, ◌≡◌, refl, sym, ap, ◌∙◌, String, Bool, true, false, ◌&&◌, ◌||◌, List, [], ◌∷◌,
  ◌++◌, ltb, leb, ◌==◌, length, arith, Bool-cases, inl, inr,
}
use price_scount.Bot.Text.{utf16_units}
use price_scount.Bot.Pages.{page_items, text_limit, my_list_header, paginate, pages_of}

abbrev pub concat : List (List ℕ) → List ℕ
concat [] = []
concat (p ∷ ps) = p ++ concat ps

-- The positions from `i` on.
abbrev pub range_from : ℕ → ℕ → List ℕ
range_from i zero = []
range_from i (suc n) = i ∷ range_from (i + 1) n

concat-append : (ps : List (List ℕ)) (p : List ℕ) → concat (ps ++ p ∷ []) ≡ concat ps ++ p
concat-append [] p = append-nil p
concat-append (q ∷ ps) p =
    ap (λ t. q ++ t) (concat-append ps p) ∙ sym (append_assoc q (concat ps) p)

-- Whether the next entry starts a page.
abbrev pub is_full : List ℕ → ℕ → String → Bool
is_full current text_units entry =
    leb 1 (length current)
    && (length current == page_items || ltb text_limit (text_units + utf16_units entry))

module _ (total : ℕ) (entry : String) (rest : List String) (i : ℕ) (pages : List (List ℕ))
    (current : List ℕ) (text_units : ℕ) where
  abbrev pub started : List (List ℕ)
  started = pages ++ current ∷ []

  pub paginate-next :
      is_full current text_units entry ≡ true
      → paginate total (entry ∷ rest) i pages current text_units
        ≡ paginate total rest
            (i + 1)
            started
            (i ∷ [])
            (utf16_units (my_list_header total (length started + 1)) + utf16_units entry)
  unfolding paginate
  paginate-next h = ground (arith, h)

  pub paginate-same :
      is_full current text_units entry ≡ false
      → paginate total (entry ∷ rest) i pages current text_units
        ≡ paginate total rest (i + 1) pages (current ++ i ∷ []) (text_units + utf16_units entry)
  unfolding paginate
  paginate-same h = ground (arith, h)

concat-paginate :
    (total : ℕ) (rest : List String) (i : ℕ) (pages : List (List ℕ)) (current : List ℕ)
    (text_units : ℕ)
    → concat (paginate total rest i pages current text_units)
      ≡ concat pages ++ (current ++ range_from i (length rest))
concat-paginate total [] i [] [] tu = unfold paginate in refl
concat-paginate total [] i (p ∷ pages) [] tu =
    let step : paginate total [] i (p ∷ pages) [] tu ≡ p ∷ pages =
      unfold paginate in ground arith in
    rw step (sym (append-nil (concat (p ∷ pages))))
concat-paginate total [] i pages (x ∷ current) tu =
    let step : paginate total [] i pages (x ∷ current) tu ≡ pages ++ (x ∷ current) ∷ [] =
      unfold paginate in ground arith in
    rw step (
      concat-append pages (x ∷ current)
      ∙ ap (λ t. concat pages ++ t) (sym (append-nil (x ∷ current))))
concat-paginate total (entry ∷ rest) i pages current tu =
    elim (Bool-cases (is_full current tu entry)) [
      | inl full ↦ rw (paginate-next total entry rest i pages current tu full) (
          concat-paginate total rest (i + 1) (pages ++ current ∷ []) (i ∷ []) (
            utf16_units (my_list_header total (length (pages ++ current ∷ []) + 1))
            + utf16_units entry)
          ∙ ap (λ t. t ++ i ∷ range_from (i + 1) (length rest)) (concat-append pages current)
          ∙ append_assoc (concat pages) current (i ∷ range_from (i + 1) (length rest)))
      | inr room ↦ rw (paginate-same total entry rest i pages current tu room) (
          concat-paginate total rest (i + 1) pages (current ++ i ∷ []) (tu + utf16_units entry)
          ∙ ap (λ t. concat pages ++ t)
              (append_assoc current (i ∷ []) (range_from (i + 1) (length rest))))
    ]

-- Every entry is on one page, in order.
pub concat-pages_of : (texts : List String) → concat (pages_of texts) ≡ range_from 0 (length texts)
unfolding pages_of
concat-pages_of texts =
    concat-paginate (length texts) texts 0 [] [] (utf16_units (my_list_header (length texts) 1))
