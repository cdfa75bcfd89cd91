-- ===== src/Bot/Pages/Fit.antt =====
-- services/bot/internal/bot/mylist.go: how large the pages are.
use price_scount.Base.{
  ℕ, zero, suc, ◌+◌, ◌≤◌, ◌<◌, ◌≡◌, refl, sym, ap, ◌∙◌, String, false, List, [], ◌∷◌, ◌++◌, length,
  length-append, get_or, arith, Bool-cases, inl, inr,
}
use price_scount.Bot.Text.{utf16_units}
use price_scount.Bot.Pages.{page_items, text_limit, my_list_header, paginate, pages_of}
use price_scount.Bot.Pages.Order.{is_full, paginate-next, paginate-same}

-- The units of the header of a page, and of the entries at the positions of a page.
abbrev pub header_units : ℕ → ℕ → ℕ
header_units total page = utf16_units (my_list_header total page)

room_left :
    (current : List ℕ) (tu : ℕ) (entry : String)
    → 1 ≤ length current
    → length current ≤ page_items
    → is_full current tu entry ≡ false
    → (length current + 1 ≤ page_items) × (tu + utf16_units entry ≤ text_limit)
room_left current tu entry some_entry ten h = ground (arith, h)

module _ (texts : List String) where
  abbrev pub units_at : ℕ → ℕ
  units_at i = utf16_units (get_or texts i "")

  abbrev pub page_units : List ℕ → ℕ
  page_units [] = 0
  page_units (i ∷ page) = units_at i + page_units page

  page_units-append : (p : List ℕ) (i : ℕ) → page_units (p ++ i ∷ []) ≡ page_units p + units_at i
  page_units-append [] i = omega arith
  page_units-append (j ∷ p) i = omega (arith, page_units-append p i)

  -- A page has an entry, has at most ten, and its text with the header of its number fits.
  abbrev pub Fits : ℕ → List ℕ → Type 0
  Fits k p =
      (1 ≤ length p)
      × (length p ≤ page_items)
      × (header_units (length texts) k + page_units p ≤ text_limit)

  -- The pages from number `k` on.
  abbrev pub AllFit : ℕ → List (List ℕ) → Type 0
  AllFit k [] = Unit
  AllFit k (p ∷ ps) = Fits k p × AllFit (suc k) ps

  AllFit-append :
      (k : ℕ) (ps : List (List ℕ)) (p : List ℕ)
      → AllFit k ps
      → Fits (k + length ps) p
      → AllFit k (ps ++ p ∷ [])
  AllFit-append k [] p h f = let e : k + 0 ≡ k = omega arith in (rw (sym e) f, tt)
  AllFit-append k (q ∷ ps) p h f =
      let e : k + suc (length ps) ≡ suc k + length ps = omega arith in
      (h.0, AllFit-append (suc k) ps p h.1 (rw (sym e) f))

  pub AllFit-get :
      (k i : ℕ) (ps : List (List ℕ)) → AllFit k ps → i < length ps → Fits (k + i) (get_or ps i [])
  AllFit-get k i [] h lt = absurd (omega (arith, lt))
  AllFit-get k zero (p ∷ ps) h lt = let e : k + 0 ≡ k = omega arith in rw e h.0
  AllFit-get k (suc i) (p ∷ ps) h lt =
      let e : k + suc i ≡ suc k + i = omega arith in
      rw e (AllFit-get (suc k) i ps h.1 (omega (arith, lt)))

  -- The rest of the entries that the loop still has.
  abbrev Rest : ℕ → List String → Type 0
  Rest i rest = (j : ℕ) → get_or rest j "" ≡ get_or texts (i + j) ""

  Rest-next :
      (i : ℕ) (entry : String) (rest : List String) → Rest i (entry ∷ rest) → Rest (i + 1) rest
  Rest-next i entry rest h j = let e : i + 1 + j ≡ i + suc j = omega arith in rw e (h (suc j))

  Rest-head :
      (i : ℕ) (entry : String) (rest : List String)
      → Rest i (entry ∷ rest)
      → utf16_units entry ≡ units_at i
  Rest-head i entry rest h = let e : i + 0 ≡ i = omega arith in ap utf16_units (h 0) ∙ ap units_at e

  module _
      (small : (k i : ℕ)
        → k ≤ length texts
        → header_units (length texts) k + units_at i ≤ text_limit) where
    paginate-AllFit :
        (rest : List String) (i : ℕ) (pages : List (List ℕ)) (current : List ℕ) (tu : ℕ)
        → Rest i rest
        → length pages + 1 + length rest ≤ length texts
        → AllFit 1 pages
        → Fits (1 + length pages) current
        → tu ≡ header_units (length texts) (1 + length pages) + page_units current
        → AllFit 1 (paginate (length texts) rest i pages current tu)
    paginate-AllFit [] i pages current tu at room done_pages fit units =
        let step : paginate (length texts) [] i pages current tu ≡ pages ++ current ∷ [] =
          unfold paginate in ground (arith, fit.0) in
        rw step (AllFit-append 1 pages current done_pages fit)
    paginate-AllFit (entry ∷ rest) i pages current tu at room done_pages fit units =
        elim (Bool-cases (is_full current tu entry)) [
          | inl full ↦
              let before : List (List ℕ) = pages ++ current ∷ [] in
              let count : length before ≡ length pages + 1 = length-append pages (current ∷ []) in
              let number : length before + 1 ≡ 1 + length before = omega arith in
              rw (paginate-next (length texts) entry rest i pages current tu full) (
                paginate-AllFit rest (i + 1) before (i ∷ [])
                  (header_units (length texts) (length before + 1) + utf16_units entry)
                  (Rest-next i entry rest at) (omega (arith, count, room))
                  (AllFit-append 1 pages current done_pages fit)
                  (
                    omega arith,
                    omega arith,
                    omega (arith, small (1 + length before) i (omega (arith, count, room))),
                  )
                  (rw number (omega (arith, Rest-head i entry rest at))))
          | inr open_still ↦
              rw (paginate-same (length texts) entry rest i pages current tu open_still) (
                paginate-AllFit rest (i + 1) pages (current ++ i ∷ []) (tu + utf16_units entry)
                  (Rest-next i entry rest at) (omega (arith, room)) done_pages
                  (
                    ground (arith, length-append current (i ∷ [])),
                    omega (
                      arith,
                      length-append current (i ∷ []),
                      (room_left current tu entry fit.0 fit.1 open_still).0,
                    ),
                    omega (
                      arith,
                      units,
                      page_units-append current i,
                      Rest-head i entry rest at,
                      (room_left current tu entry fit.0 fit.1 open_still).1,
                    ),
                  )
                  (omega (arith, units, page_units-append current i, Rest-head i entry rest at)))
        ]

    first-AllFit :
        (rest : List String)
        → Rest 0 rest
        → length rest ≡ length texts
        → 0 < length rest
        → AllFit 1 (paginate (length texts) rest 0 [] [] (header_units (length texts) 1))
    first-AllFit [] at e lt = absurd (omega (arith, lt))
    first-AllFit (entry ∷ rest) at e lt =
        let head : utf16_units entry ≡ units_at 0 = Rest-head 0 entry rest at in
        rw (paginate-same (length texts) entry rest 0 [] [] (header_units (length texts) 1) refl) (
          paginate-AllFit rest (0 + 1) [] (0 ∷ [])
            (header_units (length texts) 1 + utf16_units entry) (Rest-next 0 entry rest at)
            (omega (arith, e)) tt
            (omega arith, omega arith, omega (arith, small 1 0 (omega (arith, e))))
            (omega (arith, head)))

    pub pages_of-AllFit : 0 < length texts → AllFit 1 (pages_of texts)
    unfolding pages_of
    pages_of-AllFit h =
        first-AllFit texts (λ j. let e : 0 + j ≡ j = omega arith in rw e refl) refl h
