-- ===== src/Database/Batch/Tests.antt =====
-- A batch of five rows: a page, its copy, an infected row, a row that the transform refuses and one
-- that `save_page` refuses.
use pgs_search_engine.Base.{
  ℕ, ◌+◌, ◌≤◌, ◌≡◌, refl, subst, true, not, ◌&&◌, Option, none, some, [], ◌∷◌, map, arith, ⊤,
  if◌then◌else◌, if_ind, ◌==◌, nat_eq, length, elem,
}
use pgs_search_engine.Database.Batch.{
  Postgres, commits, refuses_commit, Document, Transform, gives_page, finds_threat, raises, Etl,
  BatchResult, Tables, Options, process_bronze_batch,
}
use pgs_search_engine.Database.Batch.Known.{known}
use pgs_search_engine.Database.Batch.Returns.{NamesThreat, process_bronze_batch-returns}
use pgs_search_engine.Base.Dict.{contains}
use pgs_search_engine.Database.Batch.Settled.{busy, process_bronze_batch-settles}
use pgs_search_engine.Database.Queue.{QueueRow, claim, unprocessed}
use pgs_search_engine.Base.Text.{Text, text_eq, codes, strip}

abbrev waiting : ℕ → QueueRow
waiting id = record {
  id = id;
  order_at = id;
  processing_status = unprocessed;
  processing_error = none;
  updated_at = 0;
}

abbrev crawled : Text → Document
crawled url = record {
  url = url;
  minio_path = none;
  content_hash = codes "c";
  sim_hash = none;
  domain_id = some 7;
}

abbrev payload : Text → Option ⊤ → Transform ⊤ ⊤
payload url body = gives_page (record {
  geo_location = none;
  content_hash = none;
  sim_hash = none;
  read = λ _. record {
    canonical_url = some url;
    source_url = none;
    body_text = some (codes "t");
    searchable_text = none;
    content_hash = none;
    sim_hash = some none;
    body = body;
    children = some tt;
  };
})

abbrev transform : ℕ → Transform ⊤ ⊤
transform id =
    if id == 1
    then payload (codes "a") (some tt)
    else if id == 2
    then payload (codes "b") (some tt)
    else if id == 3
    then finds_threat (record {
      threat_signature = codes "eicar";
      quarantine_path = codes "q/3";
      scanner_version = none;
    })
    else if id == 4
    then raises (codes "no text")
    else payload (codes "e") none

abbrev tables : Tables
tables = record {
  bronze = record {
    crawled_documents =
        (1, (codes "a", 11))
        ∷ (2, (codes "b", 12))
        ∷ (3, (codes "c", 13))
        ∷ (4, (codes "d", 14))
        ∷ (5, (codes "e", 15))
        ∷ [];
    stored_files = [];
  };
  documents =
      (1, crawled (codes "a"))
      ∷ (2, crawled (codes "b"))
      ∷ (3, crawled (codes "c"))
      ∷ (4, crawled (codes "d"))
      ∷ (5, crawled (codes "e"))
      ∷ (6, crawled (codes "f"))
      ∷ [];
  local_body_of = [];
}

abbrev options : Options
options = record { limit = 10; dedup = true; domain_geo = true }

-- PostgreSQL takes every transaction.
abbrev postgres : Postgres ⊤ ⊤
postgres = record { claims = λ _. true; saves = λ _ _. commits; settles = λ _ _. true }

abbrev db : Etl ⊤ ⊤
db = record {
  queue = waiting 1 ∷ waiting 2 ∷ waiting 3 ∷ waiting 4 ∷ waiting 5 ∷ waiting 6 ∷ [];
  silver = record { pages = []; next_page_id = 1; sources = []; children = [] };
  quarantined_files = [];
}

abbrev run : Option (Etl ⊤ ⊤ × BatchResult)
run =
    process_bronze_batch (λ _ rows. rows) transform (codes "refused") tables options postgres 99
      (6 ∷ []) db

abbrev result_of : Option (Etl ⊤ ⊤ × BatchResult) → Option BatchResult
result_of none = none
result_of (some (_, result)) = some result

run_test :
    result_of run
    ≡ some (record {
      claimed = 5;
      saved = 2;
      duplicates = 1;
      quarantined = 1;
      failed = 2;
      errors = (4, codes "no text") ∷ (5, codes "refused") ∷ [];
    })
unfolding process_bronze_batch strip
run_test = refl

abbrev or_start : Option (Etl ⊤ ⊤ × BatchResult) → Etl ⊤ ⊤ × BatchResult
or_start none = (
  db,
  record { claimed = 0; saved = 0; duplicates = 0; quarantined = 0; failed = 0; errors = [] },
)
or_start (some r) = r

abbrev after : Etl ⊤ ⊤ × BatchResult
after = or_start run

runs : run ≡ some after
unfolding process_bronze_batch strip
runs = refl

process_bronze_batch-settles_example :
    let (rows, queue) = claim 10 99 (6 ∷ []) db.queue in
    (busy 3 after.0.queue ≡ (busy 3 queue && not (elem 3 (map (λ (row : QueueRow). row.id) rows))))
    × (after.1.saved + after.1.quarantined + after.1.failed ≡ length rows)
    × (after.1.duplicates ≤ after.1.saved + after.1.failed)
    × (after.1.claimed ≡ length rows)
process_bronze_batch-settles_example =
    process_bronze_batch-settles (λ _ rows. rows) transform (codes "refused") tables options
      postgres 3 99 (6 ∷ []) db after.0 after.1 runs

abbrev Fine : Transform ⊤ ⊤ → Type 0
Fine (gives_page page) = ⊤
Fine (finds_threat infected) = NamesThreat infected
Fine (raises message) = ⊤

transform-Fine : (id : ℕ) → Fine (transform id)
unfolding strip
transform-Fine id =
    if_ind Fine (id == 1) (λ _. tt)
      (λ _.
        if_ind Fine (id == 2) (λ _. tt)
          (λ _.
            if_ind Fine (id == 3) (λ _. record { signature = refl; path = refl })
              (λ _. if_ind Fine (id == 4) (λ _. tt) (λ _. tt))))

has_document : (id : ℕ) → known id db.queue ≡ true → contains id tables.documents ≡ true
has_document id h = ground (arith, h)

process_bronze_batch-returns_example :
    (r : Etl ⊤ ⊤ × BatchResult) × (process_bronze_batch
        (λ _ rows. rows)
        transform
        (codes "refused")
        tables
        options
        postgres
        99
        (6 ∷ [])
        db
      ≡ some r)
process_bronze_batch-returns_example =
    process_bronze_batch-returns (λ _ rows. rows) transform (codes "refused") tables options
      postgres 99 (6 ∷ []) db (λ id infected e. subst Fine e (transform-Fine id))
      (record { claiming = λ _. refl; handlers = λ _ _. refl }) has_document

-- PostgreSQL refuses the commit that saves row 2, a copy of row 1.
abbrev losing : Postgres ⊤ ⊤
losing = record postgres { saves = λ row_id _. if row_id == 2 then refuses_commit else commits }

-- The copy is counted as failed, and as a duplicate too.
lost_commit_test :
    result_of (
      process_bronze_batch
        (λ _ rows. rows)
        transform
        (codes "refused")
        tables
        options
        losing
        99
        (6 ∷ [])
        db)
    ≡ some (record {
      claimed = 5;
      saved = 1;
      duplicates = 1;
      quarantined = 1;
      failed = 3;
      errors = (2, codes "refused") ∷ (4, codes "no text") ∷ (5, codes "refused") ∷ [];
    })
unfolding process_bronze_batch strip
lost_commit_test = refl

-- With the first row's page in the table already, the one row that fails is the one duplicate.
abbrev only_copy : Option (Etl ⊤ ⊤ × BatchResult)
only_copy =
    process_bronze_batch (λ _ rows. rows) transform (codes "refused") tables
      (record options { limit = 1 }) losing 99 []
      (or_start (
        process_bronze_batch (λ _ rows. rows) transform (codes "refused") tables
          (record options { limit = 1 }) postgres 99 [] db)).0

duplicate_not_saved :
    result_of only_copy
    ≡ some (record {
      claimed = 1;
      saved = 0;
      duplicates = 1;
      quarantined = 0;
      failed = 1;
      errors = (2, codes "refused") ∷ [];
    })
unfolding process_bronze_batch strip
duplicate_not_saved = refl
