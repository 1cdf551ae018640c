-- ===== src/Database/Batch.antt =====
-- database/src/pgs_db/etl.py: `process_bronze_batch` with `_save_one`, over the queue and the pages of
-- Silver. The transform is the caller's; each row has one transaction, and what it raises leaves the
-- tables as they were.
pub mod Known
pub mod Stored
pub mod Settled
pub mod Returns
mod Tests
use pgs_search_engine.Base.{
  ℕ, zero, suc, ◌+◌, ◌-◌, ◌*◌, ◌/◌, ◌%◌, ◌^◌, ◌≤◌, ◌<◌, min, max, ◌≡◌, refl, sym, ap, subst, ◌∙◌,
  ◌≢◌, ◌↔◌, ◌⊎◌, inl, inr, Bool, true, false, not, ◌&&◌, ◌||◌, Option, none, some, List, [], ◌∷◌,
  ◌++◌, map, arith, String, ⊤, ltb, leb, nat_beq, if◌then◌else◌, if_ind, ltb→lt, lt→ltb, leb→le,
  le→leb, nat_beq_iff, Bool-cases, Option-cases, PyEq, ◌==◌, nat_eq, beq_self, beq-ne, beq→eq,
  length, take, drop, keep, any, all, All, length-append, take-append-drop, length-take,
  length-drop, length-keep, length-map, elem, distinct, elem-append, elem-keep, find, update_if,
  count_if, find-some, All-keep, All-map, All-append, All-update_if, any_mono, length-update_if,
  length-keep-count,
}
use pgs_search_engine.Base.Text.{
  Text, text_eq, codes, is_empty, between, is_space, strip, strip_left, strip_right, put_back,
  is_blank, starts_with, ends_with, drop_end, words, join,
}
use pgs_search_engine.Base.Dict.{
  Dict, lookup, contains, insert, set_default, get_or, keys, lookup-insert, lookup-insert_self,
  contains-insert, contains-eq-elem, keys-insert,
}
use pgs_search_engine.Base.Int.{ℤ}
use pgs_search_engine.Base.Partial.{◌>>=◌, ◌or_else◌}
use pgs_search_engine.Database.Queue.{QueueRow, claim, mark_processed, mark_failed, quarantine_row}
use pgs_search_engine.Database.Pages.{blank_to_none, Bronze, Page, PageSource, Silver, Payload}
use pgs_search_engine.Database.Pages.Save.{SaveResult, save_page}
use pgs_search_engine.Database.Pages.Duplicates.{set_duplicate, fold_duplicate}

-- The columns of `crawled_documents` that the batch reads, the queue's aside.
pub record Document : Type 0 where
  pub url : Text
  pub minio_path : Option Text
  pub content_hash : Text
  pub sim_hash : Option ℤ
  pub domain_id : Option ℕ

pub record LocalBody : Type 0 where
  pub code : Text
  pub district_code : Text
  pub province_code : Text

pub record GeoLocation : Type 0 where
  pub province_code : Text
  pub district_code : Text
  pub municipality_id : Text

pub record Infected : Type 0 where
  pub threat_signature : Text
  pub quarantine_path : Text
  pub scanner_version : Option Text

-- The columns that are the same for every file that a batch quarantines are left out.
pub record QuarantinedFile : Type 0 where
  pub crawled_document_id : ℕ
  pub document_url : Text
  pub original_path : Option Text
  pub sha256 : Text
  pub domain_id : Option ℕ
  pub quarantine_path : Text
  pub threat_signature : Text
  pub scanner_version : Option Text
  pub scanned_at : ℕ

-- The payload of a transform, as far as the batch reads it: `read` is what `save_page` reads of it,
-- given its geo block. A `sim_hash` of None is a key that is not there.
pub record Transformed (Body Children : Type 0) : Type 0 where
  pub geo_location : Option GeoLocation
  pub content_hash : Option Text
  pub sim_hash : Option (Option ℤ)
  pub read : Option GeoLocation → Payload Body Children

pub data Transform (Body Children : Type 0) : Type 0 where
  gives_page : Transformed Body Children → Transform Body Children
  finds_threat : Infected → Transform Body Children
  raises : Text → Transform Body Children

pub record Etl (Body Children : Type 0) : Type 0 where
  pub queue : List QueueRow
  pub silver : Silver Body Children
  pub quarantined_files : List QuarantinedFile

pub record BatchResult : Type 0 where
  pub claimed : ℕ
  pub saved : ℕ
  pub duplicates : ℕ
  pub quarantined : ℕ
  pub failed : ℕ
  pub errors : Dict ℕ Text

-- The tables that a batch only reads.
pub record Tables : Type 0 where
  pub bronze : Bronze
  pub documents : Dict ℕ Document
  pub local_body_of : Dict ℕ LocalBody

-- `geo_for_domain`, where `local_body_of` joins the domains to their local bodies.
unfoldable pub geo_for_domain : Dict ℕ LocalBody → Option ℕ → Option GeoLocation
geo_for_domain local_body_of domain_id = do
  id ← domain_id
  body ← lookup id local_body_of
  some (record {
    province_code = body.province_code;
    district_code = body.district_code;
    municipality_id = body.code;
  })

-- The text, where it is true in Python.
abbrev pub truthy : Option Text → Option Text
truthy none = none
truthy (some s) = if is_empty s then none else some s

-- The unique key of `quarantined_files`.
abbrev pub is_same_file : QuarantinedFile → QuarantinedFile → Bool
is_same_file x y = (x.document_url == y.document_url) && (x.sha256 == y.sha256)

abbrev pub upsert_file : QuarantinedFile → List QuarantinedFile → List QuarantinedFile
upsert_file file files =
    if any (is_same_file file) files
    then update_if (is_same_file file) (λ _. file) files
    else files ++ file ∷ []

abbrev pub is_id : Option ℕ → ℕ → Bool
is_id none id = false
is_id (some a) id = a == id

abbrev pub is_one_of : List ℕ → Option ℕ → Bool
is_one_of ids none = false
is_one_of ids (some a) = elem a ids

module _ {Body Children : Type 0} where
  -- `delete(Page).where(crawled_document_id == row_id)`, with what the foreign keys do to the rows
  -- that point to those pages.
  unfoldable pub delete_pages_of : ℕ → Silver Body Children → Silver Body Children
  delete_pages_of row_id db =
      let gone : List ℕ =
        map (λ (p : Page Body). p.id)
          (keep (λ (p : Page Body). is_id p.crawled_document_id row_id) db.pages) in
      record db {
        pages =
            update_if (λ (p : Page Body). is_one_of gone p.duplicate_of_id) (set_duplicate none)
              (keep (λ (p : Page Body). not (is_id p.crawled_document_id row_id)) db.pages);
        sources = keep (λ (s : PageSource). not (elem s.page_id gone)) db.sources;
        children = keep (λ (entry : ℕ × Children). not (elem entry.0 gone)) db.children;
      }

  -- `quarantine`, of a crawled document; None is an exception.
  unfoldable pub quarantine :
      Tables → ℕ → ℕ → Infected → Etl Body Children → Option (Etl Body Children)
  unfolding blank_to_none quarantine_row delete_pages_of
  quarantine tables now row_id threat db = do
    signature ← blank_to_none (some threat.threat_signature)
    path ← blank_to_none (some threat.quarantine_path)
    document ← lookup row_id tables.documents
    some (record {
      queue = quarantine_row row_id threat.threat_signature db.queue;
      silver = delete_pages_of row_id db.silver;
      quarantined_files =
          upsert_file
            (record {
              crawled_document_id = row_id;
              document_url = document.url;
              original_path = document.minio_path;
              sha256 = document.content_hash;
              domain_id = document.domain_id;
              quarantine_path = threat.quarantine_path;
              threat_signature = threat.threat_signature;
              scanner_version = threat.scanner_version;
              scanned_at = now;
            })
            db.quarantined_files;
    })

-- The arguments of a batch.
pub record Options : Type 0 where
  pub limit : ℕ
  pub dedup : Bool
  pub domain_geo : Bool

abbrev pub max_error_length : ℕ
max_error_length = 2000

-- How PostgreSQL takes the transaction that saves a row: it commits, or refuses one of its writes, or
-- refuses its commit.
pub data Answer : Type 0 where
  commits refuses_write refuses_commit : Answer

-- What PostgreSQL answers to the transactions of a batch, given the tables that they would leave: the
-- claim, the saving of a row, and the transaction of an except handler.
pub record Postgres (Body Children : Type 0) : Type 0 where
  pub claims : Etl Body Children → Bool
  pub saves : ℕ → Etl Body Children → Answer
  pub settles : ℕ → Etl Body Children → Bool

-- How the `try` block of a row ends; an error says whether the row was counted as a duplicate.
pub data Attempt (Body Children : Type 0) : Type 0 where
  stored : Bool → Etl Body Children → Attempt Body Children
  threat : Infected → Attempt Body Children
  error : Bool → Text → Attempt Body Children

-- `refusal` is the message of an exception of the database or of a check.
module _ {Body Children : Type 0} (replace_children : Option Children → Children → Children)
    (transform : ℕ → Transform Body Children) (refusal : Text) (tables : Tables) (options : Options)
    (postgres : Postgres Body Children) where
  -- The closure `save` of the batch, with the geo block that `_save_one` may add.
  unfoldable pub save_row :
      ℕ → ℕ → Transformed Body Children → Etl Body Children → Option (ℕ × Etl Body Children)
  unfolding geo_for_domain save_page mark_processed
  save_row now row_id payload db = do
    document ← lookup row_id tables.documents
    (saved, silver) ←
        save_page replace_children tables.bronze now
          (payload.read (
            if options.domain_geo
            then payload.geo_location or_else geo_for_domain tables.local_body_of document.domain_id
            else payload.geo_location))
          (some row_id) none (truthy payload.content_hash or_else some document.content_hash)
          (elim payload.sim_hash [ none ↦ document.sim_hash | some given ↦ given ]) true db.silver
    some
        (saved.id, record db { queue = (mark_processed (row_id ∷ []) db.queue).1; silver = silver })

  abbrev pub fold_page : ℕ × Etl Body Children → Option (Bool × Etl Body Children)
  fold_page (page_id, db) =
      if options.dedup
      then (do
        (folded, pages) ← fold_duplicate page_id db.silver.pages
        some (folded, record db { silver = record db.silver { pages = pages } }))
      else some (false, db)

  abbrev pub attempt_of : ℕ → Option (Bool × Etl Body Children) → Attempt Body Children
  attempt_of row_id none = error false refusal
  attempt_of row_id (some (folded, db)) = elim (postgres.saves row_id db) [
    | commits ↦ stored folded db
    | refuses_write ↦ error false refusal
    | refuses_commit ↦ error folded refusal
  ]

  -- The `try` block of `_save_one`.
  unfoldable pub attempt : ℕ → ℕ → Etl Body Children → Attempt Body Children
  unfolding save_row fold_duplicate
  attempt now row_id db = elim (transform row_id) [
    | gives_page payload ↦ attempt_of row_id (save_row now row_id payload db >>= fold_page)
    | finds_threat infected ↦ threat infected
    | raises message ↦ error false message
  ]

  -- The end of an except handler's transaction.
  abbrev pub if_settled :
      ℕ → Etl Body Children × BatchResult → Option (Etl Body Children × BatchResult)
  if_settled row_id (after, result) =
      if postgres.settles row_id after then some (after, result) else none

  -- What `_save_one` does with it; None is an exception that ends the batch.
  unfoldable pub settle :
      ℕ
      → ℕ
      → Attempt Body Children
      → Etl Body Children
      → BatchResult
      → Option (Etl Body Children × BatchResult)
  unfolding quarantine mark_failed
  settle now row_id (stored folded after) db result = some (
    after,
    record result {
      saved = suc result.saved;
      duplicates = (if folded then 1 else 0) + result.duplicates;
    },
  )
  settle now row_id (threat infected) db result = do
    after ← quarantine tables now row_id infected db
    if_settled row_id (after, record result { quarantined = suc result.quarantined })
  settle now row_id (error counted message) db result = do
    queue ← mark_failed row_id (take max_error_length message) db.queue
    if_settled row_id (
      record db { queue = queue },
      record result {
        duplicates = (if counted then 1 else 0) + result.duplicates;
        failed = suc result.failed;
        errors = insert row_id (take max_error_length message) result.errors;
      },
    )

  unfoldable pub save_rows :
      ℕ → List ℕ → Etl Body Children → BatchResult → Option (Etl Body Children × BatchResult)
  unfolding attempt settle
  save_rows now [] db result = some (db, result)
  save_rows now (row_id ∷ ids) db result = do
    (after, counted) ← settle now row_id (attempt now row_id db) db result
    save_rows now ids after counted

  abbrev pub new_result : ℕ → BatchResult
  new_result claimed = record {
    claimed = claimed;
    saved = 0;
    duplicates = 0;
    quarantined = 0;
    failed = 0;
    errors = [];
  }

  -- `locked` are the rows that another worker holds when the claim runs.
  unfoldable pub process_bronze_batch :
      ℕ → List ℕ → Etl Body Children → Option (Etl Body Children × BatchResult)
  unfolding save_rows claim
  process_bronze_batch now locked db =
      let (rows, queue) = claim options.limit now locked db.queue in
      let claimed = record db { queue = queue } in
      if postgres.claims claimed
      then save_rows now (map (λ (row : QueueRow). row.id) rows) claimed (new_result (length rows))
      else none
