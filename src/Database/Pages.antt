-- ===== src/Database/Pages.antt =====
-- database/src/pgs_db/repositories/silver.py: the pages of Silver, saved by canonical URL, with the
-- history of their sources. The columns and child rows that no decision here reads are `Body` and
-- `Children`; what replacing the child rows of a page makes of them is an argument. Bronze is read
-- only. Times are microseconds.
mod Tests
pub mod Simhash
pub mod Duplicates
pub mod Originals
pub mod Folding
pub mod Items
pub mod Entities
pub mod Save
pub mod Newest
pub mod History
use pgs_search_engine.Base.{
  ℕ, zero, suc, ◌+◌, ◌-◌, ◌*◌, ◌/◌, ◌%◌, ◌^◌, ◌≤◌, ◌<◌, min, max, ◌≡◌, refl, sym, ap, subst, ◌∙◌,
  ◌≢◌, ◌↔◌, ◌⊎◌, inl, inr, Bool, true, false, not, ◌&&◌, ◌||◌, Option, none, some, List, [], ◌∷◌,
  ◌++◌, map, arith, String, ⊤, ltb, leb, nat_beq, if◌then◌else◌, if_ind, ltb→lt, lt→ltb, leb→le,
  le→leb, nat_beq_iff, Bool-cases, Option-cases, PyEq, ◌==◌, nat_eq, beq_self, beq-ne, beq→eq,
  length, take, drop, keep, any, all, All, length-append, take-append-drop, length-take,
  length-drop, length-keep, length-map, elem, distinct, elem-append, elem-keep, find, update_if,
  count_if, find-some, All-keep, All-map, All-append, All-update_if, any_mono, length-update_if,
  length-keep-count,
}
use pgs_search_engine.Base.Text.{
  Text, text_eq, codes, is_empty, between, is_space, strip, strip_left, strip_right, put_back,
  is_blank, starts_with, ends_with, drop_end, words, join,
}
use pgs_search_engine.Base.Dict.{
  Dict, lookup, contains, insert, set_default, get_or, keys, lookup-insert, lookup-insert_self,
  contains-insert, contains-eq-elem, keys-insert,
}
use pgs_search_engine.Base.Partial.{◌>>=◌, ◌or_else◌}
use pgs_search_engine.Base.Int.{ℤ, pos, negsuc}
use pgs_search_engine.Database.Queue.{ProcessingStatus, unprocessed, processed, failed}

-- `blank_to_none`, of a text or None
unfoldable pub blank_to_none : Option Text → Option Text
blank_to_none none = none
blank_to_none (some s) = if is_blank s then none else some s

-- What `crawled_documents` and `stored_files` say of a row: its URL and its time.
pub record Bronze : Type 0 where
  pub crawled_documents : Dict ℕ (Text × ℕ)
  pub stored_files : Dict ℕ (Option Text × ℕ)

pub record Page {ℓ} (Body : Type ℓ) : Type ℓ where
  pub id : ℕ
  pub crawled_document_id : Option ℕ
  pub stored_file_id : Option ℕ
  pub canonical_url : Text
  pub content_hash : Text
  pub sim_hash : Option ℤ
  pub body : Body
  pub version : ℕ
  pub first_seen_at : ℕ
  pub last_seen_at : ℕ
  pub duplicate_of_id : Option ℕ
  pub processing_status : ProcessingStatus
  pub processing_error : Option Text

-- The column values of `_page_row`.
pub record PageRow {ℓ} (Body : Type ℓ) : Type ℓ where
  pub crawled_document_id : Option ℕ
  pub stored_file_id : Option ℕ
  pub canonical_url : Text
  pub content_hash : Text
  pub sim_hash : Option ℤ
  pub body : Body

pub record PageSource : Type 0 where
  pub page_id : ℕ
  pub crawled_document_id : Option ℕ
  pub stored_file_id : Option ℕ
  pub fetched_at : ℕ
  pub content_changed : Bool

pub record Silver {ℓ} (Body Children : Type ℓ) : Type ℓ where
  pub pages : List (Page Body)
  pub next_page_id : ℕ
  pub sources : List PageSource
  pub children : Dict ℕ Children

-- `body` and `children` are None when one of their fields is refused, and so is `sim_hash`.
pub record Payload {ℓ} (Body Children : Type ℓ) : Type ℓ where
  pub canonical_url : Option Text
  pub source_url : Option Text
  pub body_text : Option Text
  pub searchable_text : Option Text
  pub content_hash : Option Text
  pub sim_hash : Option (Option ℤ)
  pub body : Option Body
  pub children : Option Children

abbrev pub option_beq : Option ℕ → Option ℕ → Bool
option_beq none none = true
option_beq (some a) (some b) = a == b
option_beq _ _ = false

-- `_is_not_older`'s four cases, of the two columns of the page and of the incoming row.
abbrev pub both_and_le : Option ℕ → Option ℕ → Bool
both_and_le (some a) (some b) = leb a b
both_and_le _ _ = false

abbrev pub newly_set : Option ℕ → Option ℕ → Bool
newly_set none (some _) = true
newly_set _ _ = false

-- `_source_info`
unfoldable pub source_info : Bronze → Option ℕ → Option ℕ → Option (Option Text × ℕ)
source_info bronze (some document) _ = elim (lookup document bronze.crawled_documents) [
  | none ↦ none
  | some (url, fetched_at) ↦ some (some url, fetched_at)
]
source_info bronze none (some file) = lookup file bronze.stored_files
source_info bronze none none = none

module _ {ℓ} {Body : Type ℓ} where
  unfoldable pub is_not_older : Page Body → PageRow Body → Bool
  is_not_older page row =
      both_and_le page.crawled_document_id row.crawled_document_id
      || both_and_le page.stored_file_id row.stored_file_id
      || newly_set page.crawled_document_id row.crawled_document_id
      || newly_set page.stored_file_id row.stored_file_id

  -- The row that INSERT makes.
  abbrev pub new_page : ℕ → ℕ → PageRow Body → Page Body
  new_page now id row = record {
    id = id;
    crawled_document_id = row.crawled_document_id;
    stored_file_id = row.stored_file_id;
    canonical_url = row.canonical_url;
    content_hash = row.content_hash;
    sim_hash = row.sim_hash;
    body = row.body;
    version = 1;
    first_seen_at = now;
    last_seen_at = now;
    duplicate_of_id = none;
    processing_status = unprocessed;
    processing_error = none;
  }

  -- The row that ON CONFLICT DO UPDATE makes of a page.
  abbrev pub updated_page : ℕ → PageRow Body → Page Body → Page Body
  updated_page now row page = record {
    id = page.id;
    crawled_document_id = row.crawled_document_id;
    stored_file_id = row.stored_file_id;
    canonical_url = page.canonical_url;
    content_hash = row.content_hash;
    sim_hash = row.sim_hash;
    body = row.body;
    version = if page.content_hash == row.content_hash then page.version else suc page.version;
    first_seen_at = page.first_seen_at;
    last_seen_at = now;
    duplicate_of_id = page.duplicate_of_id;
    processing_status = unprocessed;
    processing_error = none;
  }

  abbrev pub has_url : Text → Page Body → Bool
  has_url url page = page.canonical_url == url

  -- `_record_source`
  unfoldable pub record_source :
      ℕ → PageRow Body → ℕ → Option Text → List PageSource → List PageSource
  record_source page_id row seen_at previous_hash sources =
      if any
        (λ (s : PageSource).
          (s.page_id == page_id)
          && option_beq s.crawled_document_id row.crawled_document_id
          && option_beq s.stored_file_id row.stored_file_id)
        sources
      then sources
      else sources
        ++ record {
          page_id = page_id;
          crawled_document_id = row.crawled_document_id;
          stored_file_id = row.stored_file_id;
          fetched_at = seen_at;
          content_changed = elim previous_hash [
            | none ↦ true
            | some hash ↦ not (hash == row.content_hash)
          ];
        }
          ∷ []

module _ {ℓ} {Body Children : Type ℓ} where
  -- `_page_row`; None is its ValueError.
  unfoldable pub page_row :
      Payload Body Children
      → Option ℕ
      → Option ℕ
      → Option Text
      → Option Text
      → Option ℤ
      → Option (PageRow Body)
  unfolding blank_to_none
  page_row payload document file fallback_url content_hash sim_hash = do
    url ←
        blank_to_none payload.canonical_url
        or_else blank_to_none payload.source_url
        or_else fallback_url
    text ← blank_to_none payload.body_text or_else blank_to_none payload.searchable_text
    hash ← blank_to_none content_hash or_else blank_to_none payload.content_hash
    body ← payload.body
    stored_hash ← elim sim_hash [ none ↦ payload.sim_hash | some z ↦ some (some z) ]
    some (record {
      crawled_document_id = document;
      stored_file_id = file;
      canonical_url = url;
      content_hash = hash;
      sim_hash = stored_hash;
      body = body;
    })
