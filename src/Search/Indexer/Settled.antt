-- ===== src/Search/Indexer/Settled.antt =====
-- search-engine/src/pgs_search/indexing/indexer.py: the queue after a run of the indexer.
use pgs_search_engine.Base.{
  ℕ, ◌≤◌, ◌≡◌, refl, ◌∙◌, inl, inr, Bool, true, false, not, ◌&&◌, Option, none, some, List, [], ◌∷◌,
  arith, Bool-cases, Option-cases, ◌==◌, nat_eq, length, take, keep, any, elem, update_if,
}
use pgs_search_engine.Database.Queue.{processing}
use pgs_search_engine.Search.Indexer.{
  waits, changed_before, page_ids, claim_for_indexing, run_once, failures_of, BulkError, Page,
  in_progress, smaller, mark_page, mark_all, release, outcome, or_same_pages,
}
use pgs_search_engine.Base.Sort.{sort_by, place}
use pgs_search_engine.Base.Text.{Text, text_eq}
use pgs_search_engine.Base.Dict.{Dict, lookup}

-- A page with this id is in progress.
abbrev pub busy : ℕ → List Page → Bool
busy id pages = any (λ (page : Page). (page.id == id) && in_progress page) pages

elem-place : (id x : ℕ) (ys : List ℕ) → elem id (place smaller x ys) ≡ elem id (x ∷ ys)
elem-place id x [] = refl
elem-place id x (y ∷ ys) = ground (arith, elem-place id x ys)

elem-sort_by : (id : ℕ) (xs : List ℕ) → elem id (sort_by smaller xs) ≡ elem id xs
elem-sort_by id [] = refl
elem-sort_by id (x ∷ xs) = ground (arith, elem-place id x (sort_by smaller xs), elem-sort_by id xs)

-- Only what was claimed can have come into progress.
busy-claimed :
    (ids : List ℕ) (now id : ℕ) (pages : List Page)
    → busy id pages ≡ false
    → busy id (
        update_if
          (λ (page : Page). elem page.id ids)
          (λ page. record page { processing_status = processing; updated_at = now })
          pages)
      ≡ true
    → elem id ids ≡ true
busy-claimed ids now id [] h k = absurd (ground arith)
busy-claimed ids now id (page ∷ pages) h k = elim (Bool-cases (page.id == id)) [
  | inl same ↦ elim (Bool-cases (elem page.id ids)) [
    | inl chosen ↦ ground arith
    | inr left ↦ ground (arith, busy-claimed ids now id pages)
  ]
  | inr different ↦ ground (arith, busy-claimed ids now id pages)
]

outcome-settled :
    (error : Option Text) (page : Page)
    → in_progress (record page { processing_status = outcome error }) ≡ false
outcome-settled none page = refl
outcome-settled (some error) page = ground arith

mark_page-busy :
    (page_id now id : ℕ) (error : Option Text) (pages : List Page)
    → busy id (or_same_pages pages (mark_page page_id error now pages))
      ≡ (busy id pages && not (id == page_id))
unfolding mark_page
mark_page-busy page_id now id error pages =
    elim (Bool-cases (any (λ (page : Page). page.id == page_id) pages)) [
      | inl there ↦ ground (arith, marked pages)
      | inr gone ↦ ground (arith, unmarked pages gone)
    ]
  where
    marked :
        (rows : List Page)
        → busy id (
            update_if
              (λ (page : Page). page.id == page_id)
              (λ page. record page {
                processing_status = outcome error;
                processing_error = error;
                updated_at = now;
              })
              rows)
          ≡ (busy id rows && not (id == page_id))
    marked [] = refl
    marked (r ∷ rows) = ground (
      arith,
      marked rows,
      outcome-settled error (record r { processing_error = error; updated_at = now }),
    )

    unmarked :
        (rows : List Page)
        → any (λ (page : Page). page.id == page_id) rows ≡ false
        → (busy id rows && not (id == page_id)) ≡ busy id rows
    unmarked [] h = refl
    unmarked (r ∷ rows) h = ground (arith, unmarked rows)

mark_all-busy :
    (ids : List ℕ) (failures : Dict ℕ Text) (now id : ℕ) (pages : List Page)
    → busy id (mark_all ids failures now pages) ≡ (busy id pages && not (elem id ids))
unfolding mark_all
mark_all-busy [] failures now id pages = ground arith
mark_all-busy (page_id ∷ ids) failures now id pages = ground (
  arith,
  mark_all-busy ids failures now id
      (or_same_pages pages (mark_page page_id (lookup page_id failures) now pages)),
  mark_page-busy page_id now id (lookup page_id failures) pages,
)

release-busy :
    (ids : List ℕ) (id : ℕ) (pages : List Page)
    → elem id ids ≡ true
    → busy id (release ids pages) ≡ false
unfolding release
release-busy ids id [] h = refl
release-busy ids id (page ∷ pages) h = elim (Bool-cases (page.id == id)) [
  | inl same ↦ ground (arith, release-busy ids id pages)
  | inr different ↦ ground (arith, release-busy ids id pages)
]

release-idle :
    (ids : List ℕ) (id : ℕ) (pages : List Page)
    → busy id pages ≡ false
    → busy id (release ids pages) ≡ false
unfolding release
release-idle ids id [] h = refl
release-idle ids id (page ∷ pages) h = ground (arith, release-idle ids id pages)

-- A page that was not in progress before a run of the indexer is not in progress after it, whether
-- OpenSearch took the batch, rejected some of it, or did not answer.
pub run_once-settles :
    (batch_size now id : ℕ) (locked : List ℕ) (bulk : List ℕ → Option (List BulkError))
    (pages : List Page)
    → busy id pages ≡ false
    → busy id (run_once batch_size now locked bulk pages).1 ≡ false
unfolding run_once claim_for_indexing
run_once-settles batch_size now id locked bulk pages h =
    let waiting = keep (λ page. waits page && not (elem page.id locked)) pages in
    let chosen = page_ids (take batch_size (sort_by changed_before waiting)) in
    let ids = sort_by smaller chosen in
    let after =
      update_if (λ (page : Page). elem page.id chosen)
        (λ page. record page { processing_status = processing; updated_at = now }) pages in
    elim (Bool-cases (busy id after)) [
      | inr idle ↦ elim (Option-cases (bulk ids)) [
        | inl no_answer ↦ ground (arith, release-idle ids id after idle)
        | inr (errors, answered) ↦
            ground (arith, mark_all-busy ids (failures_of errors []) now id after)
      ]
      | inl taken ↦
          let mine : elem id ids ≡ true =
            elem-sort_by id chosen ∙ busy-claimed chosen now id pages h taken in
          let some_ids : (length ids == 0) ≡ false = ground (arith, elem_length id ids mine) in
          elim (Option-cases (bulk ids)) [
            | inl no_answer ↦ ground (arith, some_ids, release-busy ids id after mine)
            | inr (errors, answered) ↦
                ground (arith, some_ids, mark_all-busy ids (failures_of errors []) now id after)
          ]
    ]
  where
    elem_length : (n : ℕ) (xs : List ℕ) → elem n xs ≡ true → 1 ≤ length xs
    elem_length n [] e = absurd (ground arith)
    elem_length n (x ∷ xs) e = omega arith
