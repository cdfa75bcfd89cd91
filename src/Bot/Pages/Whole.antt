-- ===== src/Bot/Pages/Whole.antt =====
-- services/bot/internal/bot/mylist.go: the pages of the list, all of them together.
use Prim.Native.String
use mathlib.Core.List.{append_assoc}
use mathlib.Core.Path.{subst}
use price_scount.Base.{
  ℕ, suc, ◌+◌, ◌-◌, ◌^◌, ◌≤◌, ◌<◌, ◌≡◌, ◌⊎◌, refl, sym, ap, ◌∙◌, String, List, [], ◌∷◌, ◌++◌,
  length, length-append, get_or, ltb, arith, Bool-cases, inl, inr,
}
use price_scount.Base.Int.{Float64}
use price_scount.Base.Text.{join}
use price_scount.Env.{Env}
use price_scount.Bot.Text.{utf16_units}
use price_scount.Bot.Pages.{
  Listed, ListPage, text_limit, page_items, my_list_header, max_int, entries_from, entries,
  pages_of, clamp_page, page_text, page_rows, navigation_rows, build_my_list_page,
}
use price_scount.Bot.Pages.Order.{concat, range_from}
use price_scount.Bot.Pages.Shown.{page-fits, concat-length}
use price_scount.Bot.Pages.Numbered.{Numbered, entries_from-Numbered}
use price_scount.Bot.Pages.Displayed.{
  data_of, all_callbacks, links, data_of-append, data_of-navigation_rows, get_or_at,
  data_of-page_rows, page_text-chunk, range_from-split, cut,
}

-- The page that is shown for a page that is asked for: it, or the nearest that there is.
abbrev pub Nearest : ℕ → ℕ → ℕ → Type 0
Nearest pages page k =
    (1 ≤ k) × (k ≤ pages) × ((k ≡ page) ⊎ ((page ≡ 0) × (k ≡ 1)) ⊎ ((pages < page) × (k ≡ pages)))

module _ (env : Env) where
  -- A page shows some subscriptions, the first of which is the one after position `n`: their texts
  -- under the header, and below them their buttons and the links to the pages beside it.
  abbrev pub Shows : List Listed → ℕ → ℕ → ℕ → List Listed → Type 0
  Shows subs pages page n these =
      ((build_my_list_page env subs page).actual_page ≡ page)
      × (1 ≤ length these)
      × (length these ≤ page_items)
      × ((texts : List String) × Numbered (1 + n) these texts
          × ((build_my_list_page env subs page).text
              ≡ String.◌++◌ (my_list_header (length subs) page) (join texts)))
      × (data_of (build_my_list_page env subs page).keyboard
          ≡ all_callbacks these ++ links page pages)
      × (utf16_units (build_my_list_page env subs page).text ≤ text_limit)

  -- The pages from a number on show these subscriptions, part by part.
  abbrev pub AllShown : List Listed → ℕ → ℕ → ℕ → List (List Listed) → Type 0
  AllShown subs pages page n [] = Unit
  AllShown subs pages page n (these ∷ parts) =
      Shows subs pages page n these × AllShown subs pages (page + 1) (n + length these) parts

  -- The parts one after the other.
  abbrev pub joined : List (List Listed) → List Listed
  joined [] = []
  joined (these ∷ parts) = these ++ joined parts

  module _ (narrow : (x : Float64) → utf16_units (env.format_price x) ≤ 320) (subs : List Listed)
      (some_sub : 0 < length subs) (short : length subs < 2 ^ 63) where
    abbrev room : ℕ
    room = text_limit - utf16_units (my_list_header (length subs) (max_int 1 (length subs)))

    abbrev all_pages : List (List ℕ)
    all_pages = pages_of (entries env subs)

    page-Shows :
        (before these after : List Listed) (done later : List (List ℕ)) (p : List ℕ)
        → all_pages ≡ done ++ p ∷ later
        → subs ≡ before ++ (these ++ after)
        → p ≡ range_from (length before) (length these)
        → length these ≡ length p
        → Shows subs (length all_pages) (suc (length done)) (length before) these
    page-Shows before these after done later p split part positions size =
        let n = suc (length done) in
        let here : n ≤ length all_pages =
          rw split (omega (arith, length-append done (p ∷ later))) in
        let actual : clamp_page n (length all_pages) ≡ n = ground (arith, here) in
        let at : get_or all_pages (n - 1) [] ≡ p =
          get_or_at all_pages done p later (n - 1) [] split (omega arith) in
        let page_is : (build_my_list_page env subs n).actual_page ≡ n =
          unfold build_my_list_page in actual in
        let listed : entries env subs ≡ entries_from env room 1 subs = unfold entries in refl in
        let shown_is : get_or all_pages ((build_my_list_page env subs n).actual_page - 1) [] ≡ p =
          ap (λ k. get_or all_pages (k - 1) []) page_is ∙ at in
        let fits = page-fits env narrow subs n some_sub short in
        let some_shown : 1 ≤ length p = subst (λ q. 1 ≤ length q) shown_is fits.4 in
        let few_shown : length p ≤ page_items =
          subst (λ q. length q ≤ page_items) shown_is fits.3 in
        (
          page_is,
          rw size some_shown,
          rw size few_shown,
          (
            entries_from env room (1 + length before) these,
            entries_from-Numbered env room (1 + length before) these,
            unfold build_my_list_page in
                (ap
                    (λ k.
                      String.◌++◌ (my_list_header (length subs) k)
                        (page_text (entries env subs) (get_or all_pages (k - 1) [])))
                    actual
                  ∙ ap
                      (λ q.
                        String.◌++◌ (my_list_header (length subs) n)
                          (page_text (entries env subs) q))
                      (at ∙ positions)
                  ∙ ap (λ t. String.◌++◌ (my_list_header (length subs) n) t)
                      (ap (λ t. page_text t (range_from (length before) (length these))) listed
                        ∙ page_text-chunk env room subs before these after (length before) part
                            refl)),
          ),
          unfold build_my_list_page in
              (ap
                  (λ k. data_of (
                    page_rows subs (get_or all_pages (k - 1) [])
                    ++ navigation_rows k (length all_pages)))
                  actual
                ∙ ap (λ q. data_of (page_rows subs q ++ navigation_rows n (length all_pages)))
                    (at ∙ positions)
                ∙ data_of-append (page_rows subs (range_from (length before) (length these)))
                    (navigation_rows n (length all_pages))
                ∙ ap (λ t. t ++ data_of (navigation_rows n (length all_pages)))
                    (data_of-page_rows subs before these after (length before) part refl)
                ∙ ap (λ t. all_callbacks these ++ t)
                    (data_of-navigation_rows n (length all_pages))),
          fits.5,
        )

    pages-AllShown :
        (later : List (List ℕ)) (done : List (List ℕ)) (before after : List Listed)
        → all_pages ≡ done ++ later
        → subs ≡ before ++ after
        → concat later ≡ range_from (length before) (length after)
        → (parts : List (List Listed)) × (joined parts ≡ after)
          × (length parts ≡ length later)
          × AllShown subs (length all_pages) (suc (length done)) (length before) parts
    pages-AllShown [] done before [] split part order = ([], refl, refl, tt)
    pages-AllShown [] done before (s ∷ after) split part order = absurd (ground (arith, order))
    pages-AllShown (p ∷ later) done before after split part order =
        let (m, count, here, there) =
          range_from-split p (concat later) (length before) (length after) order in
        let (these, rest, cut_at, size, left) = cut (length p) m after count in
        let parted : subs ≡ before ++ (these ++ rest) = part ∙ ap (λ t. before ++ t) cut_at in
        let positions : p ≡ range_from (length before) (length these) =
          here ∙ ap (λ k. range_from (length before) k) (sym size) in
        let shown = page-Shows before these rest done later p split parted positions size in
        let next : length (before ++ these) ≡ length before + length these =
          length-append before these in
        let page : length (done ++ p ∷ []) ≡ length done + 1 = length-append done (p ∷ []) in
        let order' : concat later ≡ range_from (length (before ++ these)) (length rest) =
          there
          ∙ ap (λ k. range_from k m) (ap (λ k. length before + k) (sym size) ∙ sym next)
          ∙ ap (λ k. range_from (length (before ++ these)) k) (sym left) in
        let (parts, all, number, others) =
          pages-AllShown later (done ++ p ∷ []) (before ++ these) rest
            (split ∙ sym (append_assoc done (p ∷ []) later))
            (parted ∙ sym (append_assoc before these rest)) order' in
        let one_more : suc (length (done ++ p ∷ [])) ≡ suc (length done) + 1 =
          omega (arith, page) in
        (
          these ∷ parts,
          ap (λ t. these ++ t) all ∙ sym cut_at,
          omega (arith, number),
          (
            shown,
            subst (λ n. AllShown subs (length all_pages) n (length before + length these) parts)
                one_more
                (subst
                  (λ k. AllShown subs (length all_pages) (suc (length (done ++ p ∷ []))) k parts)
                  next others),
          ),
        )

    clamp_page-Nearest : (page pages : ℕ) → 0 < pages → Nearest pages page (clamp_page page pages)
    clamp_page-Nearest page pages h = elim (Bool-cases (ltb page 1)) [
      | inl low ↦
          let one : clamp_page page pages ≡ 1 = ground (arith, low, h) in
          (omega (arith, one), omega (arith, one, h), inr (inl (ground (arith, low), one)))
      | inr some_page ↦ elim (Bool-cases (ltb pages page)) [
        | inl high ↦
            let last : clamp_page page pages ≡ pages = ground (arith, some_page, high) in
            (omega (arith, last, h), omega (arith, last), inr (inr (ground (arith, high), last)))
        | inr there ↦
            let same : clamp_page page pages ≡ page = ground (arith, some_page, there) in
            (ground (arith, same, some_page), ground (arith, same, there), inl same)
      ]
    ]

    clamped :
        (page : ℕ)
        → 0 < length all_pages
        → build_my_list_page env subs page
          ≡ build_my_list_page env subs (clamp_page page (length all_pages))
    clamped page h =
        let near = clamp_page-Nearest page (length all_pages) h in
        let again : clamp_page (clamp_page page (length all_pages)) (length all_pages)
            ≡ clamp_page page (length all_pages) =
          ground (arith, near.0, near.1) in
        unfold build_my_list_page in
        ap
          (λ k.
            let made : ListPage = record {
              text =
                  String.◌++◌ (my_list_header (length subs) k)
                    (page_text (entries env subs) (get_or all_pages (k - 1) []));
              keyboard =
                  page_rows subs (get_or all_pages (k - 1) [])
                  ++ navigation_rows k (length all_pages);
              actual_page = k;
            } in
            made)
          (sym again)

    -- The pages of a list that is not empty divide its subscriptions, in order, into parts of one to
    -- ten. Page by page, the text has, under the header of the page, an entry for each subscription
    -- of its part that begins with its number in the list and its name; the buttons are those of
    -- these subscriptions, in order, to edit, resume or pause, see the history, check and delete
    -- each by its id, and below them the links to the pages before and after; and the text is within
    -- the 4096 units of a message. Whatever page is asked for, it is shown, or the first in place of
    -- page 0, or the last in place of a later one. No price is written with more than 320 units, and
    -- the list is shorter than 2^63.
    pub build_my_list_page-shows :
        (page : ℕ)
        → (parts : List (List Listed)) × (joined parts ≡ subs)
          × AllShown subs (length parts) 1 0 parts
          × ((k : ℕ) × Nearest (length parts) page k
              × (build_my_list_page env subs page ≡ build_my_list_page env subs k))
    build_my_list_page-shows page =
        let order = (page-fits env narrow subs page some_sub short).0 in
        let some_page : 0 < length all_pages =
          concat-length all_pages (length subs) order some_sub in
        let (parts, all, number, shown) = pages-AllShown all_pages [] [] subs refl refl order in
        (
          parts,
          all,
          subst (λ n. AllShown subs n 1 0 parts) (sym number) shown,
          (
            clamp_page page (length all_pages),
            subst (λ n. Nearest n page (clamp_page page (length all_pages))) (sym number)
                (clamp_page-Nearest page (length all_pages) some_page),
            clamped page some_page,
          ),
        )
