-- ===== src/Search/Indexer/Tests.antt =====
-- A batch of two pages, one of which OpenSearch rejects.
use pgs_search_engine.Base.{
  ℕ, ◌-◌, ◌≡◌, refl, false, Option, none, some, List, [], ◌∷◌, map, nat_eq,
}
use pgs_search_engine.Base.Text.{text_eq, codes}
use pgs_search_engine.Database.Queue.{unprocessed, processed, failed}
use pgs_search_engine.Search.Indexer.{Page, BulkError, item, run_once}
use pgs_search_engine.Search.Indexer.Settled.{busy, run_once-settles}

abbrev page_with : ℕ → Option ℕ → Page
page_with id duplicate_of_id = record {
  id = id;
  updated_at = 100 - id;
  processing_status = unprocessed;
  processing_error = none;
  duplicate_of_id = duplicate_of_id;
}

abbrev pages : List Page
pages = page_with 1 none ∷ page_with 2 none ∷ page_with 3 (some 1) ∷ []

abbrev rejects_second : List ℕ → Option (List BulkError)
rejects_second ids = some (item 2 (some (codes "mapper")) ∷ [])

run_once-settles_example : busy 2 (run_once 10 500 [] rejects_second pages).1 ≡ false
run_once-settles_example = run_once-settles 10 500 2 [] rejects_second pages refl

-- The first page is indexed, the second has failed, and the duplicate waits for nothing.
statuses :
    map (λ (page : Page). page.processing_status) (run_once 10 500 [] rejects_second pages).1
    ≡ processed ∷ failed ∷ unprocessed ∷ []
unfolding run_once
statuses = refl
