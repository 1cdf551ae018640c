-- ===== src/Database/Pages/Folding.antt =====
-- database/src/pgs_db/etl.py: what `_fold_duplicate` makes of the pages.
use pgs_search_engine.Base.{
  ℕ, ◌<◌, ◌≡◌, refl, sym, ap, subst, ◌∙◌, Bool, true, false, ◌&&◌, Option, none, some, List, [],
  ◌∷◌, ◌++◌, arith, ltb, lt→ltb, ◌==◌, nat_eq, keep, any, All, find, update_if, All-keep, All-map,
}
use pgs_search_engine.Base.Text.{text_eq}
use pgs_search_engine.Base.Partial.{◌>>=◌, WhenSome, from_gives}
use pgs_search_engine.Base.Sort.{sort_by}
use pgs_search_engine.Database.Pages.{Page}
use pgs_search_engine.Database.Pages.Duplicates.{
  by_id, first, is_same_content, find_exact_duplicate, original_of, has_id, set_duplicate,
  mark_duplicate_of, fold_duplicate, fold_into,
}
use pgs_search_engine.Database.Pages.Originals.{
  AllPointDown, IsBelow, first-sort_by, first-IsBelow, All-keep_self, any-keep,
  fold_duplicate-WhenSome,
}

module _ {ℓ} {Body : Type ℓ} where
  -- Folding a page keeps every duplicate one of a page with a smaller id, so that no chain of
  -- duplicates comes back to its start.
  pub fold_duplicate-points_down :
      (page_id : ℕ) (pages : List (Page Body)) (result : Bool × List (Page Body))
      → AllPointDown pages
      → fold_duplicate page_id pages ≡ some result
      → AllPointDown result.1
  fold_duplicate-points_down page_id pages result all_down folds =
      from_gives result (fold_duplicate-WhenSome page_id pages all_down) folds

  -- The page is one of the table.
  abbrev pub IsRow : List (Page Body) → Page Body → Type ℓ
  IsRow pages page =
      (before : List (Page Body)) × (after : List (Page Body)) × (pages ≡ before ++ page ∷ after)

  All-IsRow : (pages : List (Page Body)) → All (IsRow pages) pages
  All-IsRow [] = tt
  All-IsRow (p ∷ pages) = (
    ([], pages, refl),
    All-map (λ q (before, after, e). (p ∷ before, after, ap (λ l. p ∷ l) e)) pages
        (All-IsRow pages),
  )

  -- The oldest page with the same content is older than the page, if any is.
  find_exact_duplicate-older :
      (page : Page Body) (pages : List (Page Body))
      → any
          (λ (p : Page Body). is_same_content page.content_hash page.id p && ltb p.id page.id)
          pages
        ≡ true
      → (original : Page Body) × (find_exact_duplicate page.content_hash page.id pages
          ≡ some original)
        × (original.id < page.id)
        × (is_same_content page.content_hash page.id original ≡ true)
        × IsRow pages original
  unfolding find_exact_duplicate
  find_exact_duplicate-older page pages h =
      both (first (sort_by by_id same)) refl
        (first-IsBelow page.id same (any-keep p (λ (q : Page Body). ltb q.id page.id) pages h))
        (first-sort_by same (All-keep_self p pages))
        (first-sort_by same (All-keep (IsRow pages) p pages (All-IsRow pages)))
    where
      p : Page Body → Bool
      p q = is_same_content page.content_hash page.id q

      same : List (Page Body)
      same = keep (is_same_content page.content_hash page.id) pages

      both :
          (o : Option (Page Body))
          → first (sort_by by_id same) ≡ o
          → IsBelow page.id o
          → WhenSome (λ (q : Page Body). p q ≡ true) o
          → WhenSome (IsRow pages) o
          → (original : Page Body) × (find_exact_duplicate page.content_hash page.id pages
              ≡ some original)
            × (original.id < page.id)
            × (p original ≡ true)
            × IsRow pages original
      both none e below here row = absurd below
      both (some original) e below here row =
          (original, e, below, from_gives original here refl, from_gives original row refl)

  original_of-exact :
      (page original : Page Body) (pages : List (Page Body))
      → find_exact_duplicate page.content_hash page.id pages ≡ some original
      → original.id < page.id
      → original_of page pages ≡ some original
  unfolding original_of
  original_of-exact page original pages e older =
      rw (original_of, e, not_ltb page.id original.id older) refl
    where
      not_ltb : (a b : ℕ) → b < a → ltb a b ≡ false
      not_ltb a b h = ground arith

  mark_duplicate_of-found :
      (page : Page Body) (original_id : ℕ) (pages : List (Page Body))
      → find (has_id page.id) pages ≡ some page
      → original_id < page.id
      → mark_duplicate_of page.id original_id pages
        ≡ some (update_if (has_id page.id) (set_duplicate (some original_id)) pages)
  unfolding mark_duplicate_of
  mark_duplicate_of-found page original_id pages found older =
      rw (mark_duplicate_of, differ page.id original_id older, found) refl
    where
      differ : (a b : ℕ) → b < a → (a == b) ≡ false
      differ a b h = ground arith

  -- A page of the table for which an older page that is no duplicate has the same content is folded
  -- into such a page of the table, and only the `duplicate_of_id` of pages with its id is written.
  pub fold_duplicate-original :
      (page : Page Body) (pages : List (Page Body))
      → find (has_id page.id) pages ≡ some page
      → any
          (λ (p : Page Body). is_same_content page.content_hash page.id p && ltb p.id page.id)
          pages
        ≡ true
      → (original : Page Body) × (fold_duplicate page.id pages
          ≡ some (true, update_if (has_id page.id) (set_duplicate (some original.id)) pages))
        × (original.id < page.id)
        × (is_same_content page.content_hash page.id original ≡ true)
        × IsRow pages original
  unfolding fold_duplicate
  fold_duplicate-original page pages found copy =
      let (original, exact, older, same, row) = find_exact_duplicate-older page pages copy in
      (original, into original exact older, older, same, row)
    where
      into :
          (original : Page Body)
          → find_exact_duplicate page.content_hash page.id pages ≡ some original
          → original.id < page.id
          → fold_duplicate page.id pages
            ≡ some (true, update_if (has_id page.id) (set_duplicate (some original.id)) pages)
      into original exact older =
          subst
            (λ o.
              (o >>= λ p. fold_into p pages (original_of p pages))
              ≡ some (true, update_if (has_id page.id) (set_duplicate (some original.id)) pages))
            (sym found)
            (ap (fold_into page pages) (original_of-exact page original pages exact older)
              ∙ rw
                  (
                    fold_into,
                    lt→ltb original.id page.id older,
                    mark_duplicate_of-found page original.id pages found older,
                  )
                  refl)
