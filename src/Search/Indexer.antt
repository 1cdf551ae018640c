-- ===== src/Search/Indexer.antt =====
-- `Indexer` of search-engine/src/pgs_search/indexing/indexer.py, over the index queue of
-- database/src/pgs_db/repositories/search.py and `mark_processed` of repositories/silver.py. A page
-- is what the queue reads of it. What OpenSearch answers to the bulk request is an argument.
pub mod Settled
mod Tests
use pgs_search_engine.Base.{
  ℕ, zero, suc, ◌+◌, ◌-◌, ◌*◌, ◌/◌, ◌%◌, ◌^◌, ◌≤◌, ◌<◌, min, max, ◌≡◌, refl, sym, ap, subst, ◌∙◌,
  ◌≢◌, ◌↔◌, ◌⊎◌, inl, inr, Bool, true, false, not, ◌&&◌, ◌||◌, Option, none, some, List, [], ◌∷◌,
  ◌++◌, map, arith, String, ⊤, ltb, leb, nat_beq, if◌then◌else◌, if_ind, ltb→lt, lt→ltb, leb→le,
  le→leb, nat_beq_iff, Bool-cases, Option-cases, PyEq, ◌==◌, nat_eq, beq_self, beq-ne, beq→eq,
  length, take, drop, keep, any, all, All, length-append, take-append-drop, length-take,
  length-drop, length-keep, length-map, elem, distinct, elem-append, elem-keep, find, update_if,
  count_if, find-some, All-keep, All-map, All-append, All-update_if, any_mono, length-update_if,
  length-keep-count,
}
use pgs_search_engine.Base.Text.{
  Text, text_eq, codes, is_empty, between, is_space, strip, strip_left, strip_right, put_back,
  is_blank, starts_with, ends_with, drop_end, words, join,
}
use pgs_search_engine.Base.Dict.{
  Dict, lookup, contains, insert, set_default, get_or, keys, lookup-insert, lookup-insert_self,
  contains-insert, contains-eq-elem, keys-insert,
}
use pgs_search_engine.Base.Sort.{
  IsOrder, place, sort_by, IsSorted, sort_by-perm, length-sort_by, sort_by-stable, sort_by-IsSorted,
}
use pgs_search_engine.Database.Queue.{
  ProcessingStatus, unprocessed, processing, processed, failed, quarantined,
}

pub record Page : Type 0 where
  pub id : ℕ
  pub updated_at : ℕ
  pub processing_status : ProcessingStatus
  pub processing_error : Option Text
  pub duplicate_of_id : Option ℕ

pub record BatchResult : Type 0 where
  pub claimed : ℕ
  pub indexed : ℕ
  pub rejected : ℕ
  pub released : ℕ

-- An entry of the errors that `helpers.bulk` returns: an item with its id and reason, or something
-- else.
pub data BulkError : Type 0 where
  item : ℕ → Option Text → BulkError
  other_error : BulkError

abbrev pub waits : Page → Bool
waits page = elim page.processing_status [
  | unprocessed ↦ elim page.duplicate_of_id [ none ↦ true | some _ ↦ false ]
  | processing ↦ false
  | processed ↦ false
  | failed ↦ false
  | quarantined ↦ false
]

abbrev pub in_progress : Page → Bool
in_progress page = elim page.processing_status [
  | unprocessed ↦ false
  | processing ↦ true
  | processed ↦ false
  | failed ↦ false
  | quarantined ↦ false
]

-- `ORDER BY updated_at, id`
abbrev pub changed_before : Page → Page → Bool
changed_before x y =
    ltb x.updated_at y.updated_at || ((x.updated_at == y.updated_at) && ltb x.id y.id)

abbrev pub page_ids : List Page → List ℕ
page_ids pages = map (λ (page : Page). page.id) pages

abbrev pub smaller : ℕ → ℕ → Bool
smaller x y = ltb x y

-- The ids of the claimed pages, sorted, and the table.
unfoldable pub claim_for_indexing : ℕ → ℕ → List ℕ → List Page → List ℕ × List Page
claim_for_indexing limit now locked pages =
    let waiting = keep (λ page. waits page && not (elem page.id locked)) pages in
    let ids = page_ids (take limit (sort_by changed_before waiting)) in
    (
      sort_by smaller ids,
      update_if (λ (page : Page). elem page.id ids)
          (λ page. record page { processing_status = processing; updated_at = now }) pages,
    )

unfoldable pub release_stale_indexing : ℕ → ℕ → List Page → ℕ × List Page
release_stale_indexing older_than now pages =
    let is_stale : Page → Bool =
      λ page. in_progress page && ltb (page.updated_at + older_than) now in
    (
      count_if is_stale pages,
      update_if is_stale (λ page. record page { processing_status = unprocessed }) pages,
    )

abbrev pub outcome : Option Text → ProcessingStatus
outcome none = processed
outcome (some error) = if is_empty error then processed else failed

-- `SilverRepository.mark_processed`; `none` is the `LookupError`.
unfoldable pub mark_page : ℕ → Option Text → ℕ → List Page → Option (List Page)
mark_page page_id error now pages =
    if any (λ (page : Page). page.id == page_id) pages
    then some (
        update_if (λ (page : Page). page.id == page_id)
          (λ page. record page {
            processing_status = outcome error;
            processing_error = error;
            updated_at = now;
          })
          pages)
    else none

abbrev pub reason_of : Option Text → Text
reason_of none = codes "rejected by OpenSearch"
reason_of (some reason) =
    if is_empty reason then codes "rejected by OpenSearch" else take 1000 reason

unfoldable pub failures_of : List BulkError → Dict ℕ Text → Dict ℕ Text
failures_of [] failures = failures
failures_of (item page_id reason ∷ errors) failures =
    failures_of errors (insert page_id (reason_of reason) failures)
failures_of (other_error ∷ errors) failures = failures_of errors failures

abbrev pub or_same_pages : List Page → Option (List Page) → List Page
or_same_pages pages none = pages
or_same_pages pages (some after) = after

-- `_mark`: a page that has been deleted since the claim is passed over.
unfoldable pub mark_all : List ℕ → Dict ℕ Text → ℕ → List Page → List Page
unfolding mark_page
mark_all [] failures now pages = pages
mark_all (page_id ∷ ids) failures now pages =
    mark_all ids failures now
      (or_same_pages pages (mark_page page_id (lookup page_id failures) now pages))

unfoldable pub release : List ℕ → List Page → List Page
release ids pages =
    update_if (λ (page : Page). elem page.id ids && in_progress page)
      (λ page. record page { processing_status = unprocessed }) pages

-- `none` is an answer that raises: `run_once` raises it again after the release. OpenSearch rejects
-- only pages that were sent, so `indexed` is not negative.
unfoldable pub run_once :
    ℕ → ℕ → List ℕ → (List ℕ → Option (List BulkError)) → List Page → Option BatchResult × List Page
unfolding claim_for_indexing mark_all release failures_of
run_once batch_size now locked bulk pages =
    let (ids, claimed_pages) = claim_for_indexing batch_size now locked pages in
    if length ids == 0
    then (some (record { claimed = 0; indexed = 0; rejected = 0; released = 0 }), claimed_pages)
    else elim (bulk ids) [
      | none ↦ (none, release ids claimed_pages)
      | some errors ↦
          let failures = failures_of errors [] in
          (
            some (record {
              claimed = length ids;
              indexed = length ids - length failures;
              rejected = length failures;
              released = 0;
            }),
            mark_all ids failures now claimed_pages,
          )
    ]
