-- ===== src/Database/Ingest/Tests.antt =====
-- Passes over a run of three objects, in chunks of two.
use pgs_search_engine.Base.{
  ℕ, ◌+◌, ◌≡◌, refl, ◌⊎◌, true, false, none, some, List, [], ◌∷◌, ◌++◌, arith, if◌then◌else◌, ◌==◌,
  nat_eq, length,
}
use pgs_search_engine.Base.Text.{Text, text_eq, codes}
use pgs_search_engine.Database.Ingest.Progress.{
  newest_of, load_all, AllDue, ingest_run-retries, ingest_run-loads,
}
use pgs_search_engine.Database.Ingest.{
  SourceObject, saved, broken, Tables, Source, IngestReport, Manifest, is_terminal, run_status,
  state_of, pending_of, ingest_run,
}

abbrev same : Text → Text
same s = s

abbrev object_at : ℕ → ℕ → SourceObject
object_at name at = record { key = name ∷ []; last_modified = at }

abbrev ended : Manifest
ended = record {
  status = codes "COMPLETED";
  started_at = some 1;
  updated_at = some 9;
  seed_count = none;
  max_depth = none;
  max_pages = none;
  fetched = 3;
  succeeded = 3;
  failed = 0;
  skipped = 0;
  unique_urls = 3;
  domain_capped = 0;
  error = none;
}

-- An object loads unless its key is `bad`; Bronze is the list of the loaded keys.
abbrev source_with : ℕ → List SourceObject → Source (List Text)
source_with bad objs = record {
  name = codes "file";
  run_ids = 1 ∷ [];
  manifest = λ _. some ended;
  documents = λ _. objs;
  load = λ run_id obj bronze.
      if obj.key == bad ∷ [] then broken (codes "no JSON") else saved (bronze ++ obj.key ∷ []);
}

abbrev in_order : List SourceObject
in_order = object_at b'a' 10 ∷ object_at b'b' 20 ∷ object_at b'c' 30 ∷ []

abbrev no_tables : Tables (List Text)
no_tables = record { bronze = []; runs = []; states = []; error_logs = [] }

abbrev empty_report : IngestReport
empty_report = record {
  runs_seen = 1;
  runs_finished = 0;
  documents_loaded = 0;
  documents_failed = 0;
  errors = [];
}

ingest_run-retries_example :
    let source = source_with b'c' in_order in
    let pending = pending_of same 2 source 1 no_tables.states in
    let (finished, _, after) = ingest_run same 2 source 1 50 empty_report no_tables in
    (done : List SourceObject) × (rest : List SourceObject) × (pending ≡ done ++ rest)
    × ((middle : List Text) × (load_all source 1 done no_tables.bronze ≡ some middle))
    × ((state_of 1 source.name after.states).last_modified ≡ newest_of source 1 none done)
    × AllDue source 1 (state_of 1 source.name after.states).last_modified rest
    × ((finished ≡ false)
        ⊎ ((rest ≡ []) × (load_all source 1 pending no_tables.bronze ≡ some after.bronze)))
ingest_run-retries_example =
    ingest_run-retries same 2 (source_with b'c' in_order) 1 50 empty_report no_tables (omega arith)
      (refl, (refl, (refl, tt)))

ingest_run-loads_example :
    let source = source_with b'z' in_order in
    let pending = pending_of same 2 source 1 no_tables.states in
    let (finished, counted, after) = ingest_run same 2 source 1 50 empty_report no_tables in
    (finished ≡ is_terminal (run_status same (source.manifest 1)))
    × (after.bronze ≡ codes "a" ∷ codes "b" ∷ codes "c" ∷ [])
    × (counted.documents_loaded ≡ 0 + length pending)
    × (counted.documents_failed ≡ 0)
    × (counted.errors ≡ [])
    × (after.error_logs ≡ [])
ingest_run-loads_example =
    ingest_run-loads same 2 (source_with b'z' in_order) 1 50 empty_report no_tables
      (codes "a" ∷ codes "b" ∷ codes "c" ∷ []) (omega arith) refl

-- The objects are listed by key, and `c` is older than the first chunk: when it fails, the watermark
-- stands behind it.
abbrev out_of_order : List SourceObject
out_of_order = object_at b'a' 40 ∷ object_at b'b' 20 ∷ object_at b'c' 30 ∷ []

abbrev after_failure : Tables (List Text)
after_failure = (ingest_run same 2 (source_with b'c' out_of_order) 1 50 empty_report no_tables).2

-- The next pass does not try `c` again, and finishes the run without it.
older_failure_lost :
    let second =
      ingest_run same 2 (source_with b'z' out_of_order) 1 60 empty_report after_failure in
    (second.0 ≡ true) × (second.2.bronze ≡ codes "a" ∷ codes "b" ∷ codes "a" ∷ [])
unfolding ingest_run
older_failure_lost = (refl, refl)
