-- ===== src/Database/Pages/Duplicates.antt =====
-- database/src/pgs_db/etl.py: `_fold_duplicate`, with the queries of silver.py for pages that have the
-- same content hash or a near fingerprint.
use pgs_search_engine.Base.{
  ℕ, zero, suc, ◌+◌, ◌-◌, ◌/◌, ◌%◌, ◌^◌, Bool, true, false, not, ◌&&◌, ◌||◌, Option, none, some,
  List, [], ◌∷◌, ltb, leb, if◌then◌else◌, ◌==◌, nat_eq, take, keep, find, update_if,
}
use pgs_search_engine.Base.Text.{Text, text_eq}
use pgs_search_engine.Base.Sort.{sort_by}
use pgs_search_engine.Base.Int.{ℤ, pos, negsuc}
use pgs_search_engine.Base.Partial.{◌>>=◌}
use pgs_search_engine.Database.Pages.{Page}

abbrev pub is_null {ℓ} : {A : Type ℓ} → Option A → Bool
is_null none = true
is_null (some _) = false

-- The number of the `width` lowest bits in which two numbers differ.
abbrev pub differing_bits : ℕ → ℕ → ℕ → ℕ
differing_bits zero a b = 0
differing_bits (suc width) a b =
    (if a % 2 == b % 2 then 0 else 1) + differing_bits width (a / 2) (b / 2)

-- The bits of a column of 64 bits, as a number.
abbrev pub column_bits : ℤ → ℕ
column_bits (pos n) = n
column_bits (negsuc n) = 2 ^ 64 - (n + 1)

-- `bit_count(sim_hash # other)`
unfoldable pub hamming : ℤ → ℤ → ℕ
hamming a b = differing_bits 64 (column_bits a) (column_bits b)

abbrev pub max_distance : ℕ
max_distance = 3

abbrev pub near_limit : ℕ
near_limit = 10

module _ {ℓ} {Body : Type ℓ} where
  abbrev pub by_id : Page Body → Page Body → Bool
  by_id x y = ltb x.id y.id

  abbrev pub first : List (Page Body) → Option (Page Body)
  first [] = none
  first (page ∷ _) = some page

  abbrev pub is_same_content : Text → ℕ → Page Body → Bool
  is_same_content content_hash page_id page =
      (page.content_hash == content_hash)
      && is_null page.duplicate_of_id
      && not (page.id == page_id)

  -- `exclude_page_id` is given wherever the ETL asks.
  unfoldable pub find_exact_duplicate : Text → ℕ → List (Page Body) → Option (Page Body)
  find_exact_duplicate content_hash page_id pages =
      first (sort_by by_id (keep (is_same_content content_hash page_id) pages))

  abbrev pub distance_to : ℤ → Page Body → ℕ
  distance_to sim_hash page = elim page.sim_hash [ none ↦ 65 | some other ↦ hamming other sim_hash ]

  abbrev pub is_near : ℤ → ℕ → Page Body → Bool
  is_near sim_hash page_id page =
      not (is_null page.sim_hash)
      && is_null page.duplicate_of_id
      && leb (distance_to sim_hash page) max_distance
      && not (page.id == page_id)

  -- `ORDER BY distance, id`
  abbrev pub by_distance : ℤ → Page Body → Page Body → Bool
  by_distance sim_hash x y =
      ltb (distance_to sim_hash x) (distance_to sim_hash y)
      || ((distance_to sim_hash x == distance_to sim_hash y) && ltb x.id y.id)

  unfoldable pub find_near_duplicates : ℤ → ℕ → List (Page Body) → List (Page Body)
  unfolding hamming
  find_near_duplicates sim_hash page_id pages =
      take near_limit (sort_by (by_distance sim_hash) (keep (is_near sim_hash page_id) pages))

  abbrev pub set_duplicate : Option ℕ → Page Body → Page Body
  set_duplicate original page = record {
    id = page.id;
    crawled_document_id = page.crawled_document_id;
    stored_file_id = page.stored_file_id;
    canonical_url = page.canonical_url;
    content_hash = page.content_hash;
    sim_hash = page.sim_hash;
    body = page.body;
    version = page.version;
    first_seen_at = page.first_seen_at;
    last_seen_at = page.last_seen_at;
    duplicate_of_id = original;
    processing_status = page.processing_status;
    processing_error = page.processing_error;
  }

  abbrev pub has_id : ℕ → Page Body → Bool
  has_id page_id page = page.id == page_id

  -- None is the ValueError or the LookupError.
  unfoldable pub mark_duplicate_of : ℕ → ℕ → List (Page Body) → Option (List (Page Body))
  mark_duplicate_of page_id canonical_page_id pages =
      if page_id == canonical_page_id then none else elim (find (has_id page_id) pages) [
        | none ↦ none
        | some _ ↦ some (update_if (has_id page_id) (set_duplicate (some canonical_page_id)) pages)
      ]

  -- The older page that stands for a page, by content or by fingerprint.
  abbrev pub near_original : Page Body → List (Page Body) → Option (Page Body)
  near_original page pages = elim page.sim_hash [
    | none ↦ find_exact_duplicate page.content_hash page.id pages
    | some sim_hash ↦
        first
          (keep (λ (p : Page Body). ltb p.id page.id) (find_near_duplicates sim_hash page.id pages))
  ]

  unfoldable pub original_of : Page Body → List (Page Body) → Option (Page Body)
  unfolding find_exact_duplicate find_near_duplicates
  original_of page pages = elim (find_exact_duplicate page.content_hash page.id pages) [
    | none ↦ near_original page pages
    | some exact ↦ if ltb page.id exact.id then near_original page pages else some exact
  ]

  -- The write of `_fold_duplicate`, for the original that was found.
  abbrev pub fold_into :
      Page Body → List (Page Body) → Option (Page Body) → Option (Bool × List (Page Body))
  fold_into page pages none = some (false, update_if (has_id page.id) (set_duplicate none) pages)
  fold_into page pages (some original) =
      if ltb original.id page.id
      then (do marked ← mark_duplicate_of page.id original.id pages; some (true, marked))
      else some (false, update_if (has_id page.id) (set_duplicate none) pages)

  -- `_fold_duplicate`; None is an exception.
  unfoldable pub fold_duplicate : ℕ → List (Page Body) → Option (Bool × List (Page Body))
  unfolding original_of mark_duplicate_of
  fold_duplicate page_id pages = do
    page ← find (has_id page_id) pages
    fold_into page pages (original_of page pages)
