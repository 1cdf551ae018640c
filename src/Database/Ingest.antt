-- ===== src/Database/Ingest.antt =====
-- database/src/pgs_db/ingest.py: loading the scraper's objects into Bronze, run by run, in chunks of one
-- transaction each. Reading an object, parsing it and `save_document`, which stand in one savepoint,
-- are an argument, `load`; so are `str.upper` and the chunk's size, which is 200 in the code. Times are
-- microseconds.
pub mod Progress
mod Tests
use pgs_search_engine.Base.{
  ℕ, zero, suc, ◌+◌, ◌-◌, ◌*◌, ◌/◌, ◌%◌, ◌^◌, ◌≤◌, ◌<◌, min, max, ◌≡◌, refl, sym, ap, subst, ◌∙◌,
  ◌≢◌, ◌↔◌, ◌⊎◌, inl, inr, Bool, true, false, not, ◌&&◌, ◌||◌, Option, none, some, List, [], ◌∷◌,
  ◌++◌, map, arith, String, ⊤, ltb, leb, nat_beq, if◌then◌else◌, if_ind, ltb→lt, lt→ltb, leb→le,
  le→leb, nat_beq_iff, Bool-cases, Option-cases, PyEq, ◌==◌, nat_eq, beq_self, beq-ne, beq→eq,
  length, take, drop, keep, any, all, All, length-append, take-append-drop, length-take,
  length-drop, length-keep, length-map, elem, distinct, elem-append, elem-keep, find, update_if,
  count_if, find-some, All-keep, All-map, All-append, All-update_if, any_mono, length-update_if,
  length-keep-count,
}
use pgs_search_engine.Base.Text.{
  Text, text_eq, codes, is_empty, between, is_space, strip, strip_left, strip_right, put_back,
  is_blank, starts_with, ends_with, drop_end, words, join,
}
use pgs_search_engine.Base.Dict.{
  Dict, lookup, contains, insert, set_default, get_or, keys, lookup-insert, lookup-insert_self,
  contains-insert, contains-eq-elem, keys-insert,
}

pub record SourceObject : Type 0 where
  pub key : Text
  pub last_modified : ℕ

pub record Manifest : Type 0 where
  pub status : Text
  pub started_at : Option ℕ
  pub updated_at : Option ℕ
  pub seed_count : Option ℕ
  pub max_depth : Option ℕ
  pub max_pages : Option ℕ
  pub fetched : ℕ
  pub succeeded : ℕ
  pub failed : ℕ
  pub skipped : ℕ
  pub unique_urls : ℕ
  pub domain_capped : ℕ
  pub error : Option Text

pub record CrawlRun : Type 0 where
  pub id : ℕ
  pub status : Text
  pub started_at : ℕ
  pub finished_at : Option ℕ
  pub seed_count : Option ℕ
  pub max_depth : Option ℕ
  pub max_pages : Option ℕ
  pub fetched_count : ℕ
  pub succeeded_count : ℕ
  pub failed_count : ℕ
  pub skipped_count : ℕ
  pub unique_url_count : ℕ
  pub domain_capped_count : ℕ
  pub error : Option Text

pub record IngestState : Type 0 where
  pub crawl_run_id : ℕ
  pub source : Text
  pub last_modified : Option ℕ
  pub objects_loaded : ℕ
  pub objects_failed : ℕ
  pub finished : Bool

pub record IngestReport : Type 0 where
  pub runs_seen : ℕ
  pub runs_finished : ℕ
  pub documents_loaded : ℕ
  pub documents_failed : ℕ
  pub errors : Dict Text Text

-- What loading an object into the tables `B` gives; a failure is rolled back to the savepoint.
pub data Loading (B : Type 0) : Type 0 where
  saved : B → Loading B
  broken : Text → Loading B

pub record Tables (B : Type 0) : Type 0 where
  pub bronze : B
  pub runs : List CrawlRun
  pub states : List IngestState
  -- The messages in `error_logs`, by the object's key.
  pub error_logs : List (Text × Text)

-- `Source`: what it lists and reads.
pub record Source (B : Type 0) : Type 0 where
  pub name : Text
  pub run_ids : List ℕ
  pub manifest : ℕ → Option Manifest
  pub documents : ℕ → List SourceObject
  pub load : ℕ → SourceObject → B → Loading B

abbrev pub is_terminal : Text → Bool
is_terminal status = elem status (codes "COMPLETED" ∷ codes "FAILED" ∷ [])

-- `xs[start : start + size]` for `start` in steps of `size`, with fuel for the steps.
abbrev pub chunks_of : {A : Type 0} → ℕ → ℕ → List A → List (List A)
chunks_of zero size xs = []
chunks_of (suc fuel) size [] = []
chunks_of (suc fuel) size (x ∷ xs) = take size (x ∷ xs) ∷ chunks_of fuel size (drop size (x ∷ xs))

module _ (upper : Text → Text) where
  abbrev pub run_status : Option Manifest → Text
  run_status none = codes "RUNNING"
  run_status (some m) = if is_empty m.status then codes "RUNNING" else upper m.status

  -- `values` of `upsert_run`, for a manifest that is there.
  abbrev pub run_row : ℕ → Manifest → ℕ → CrawlRun
  run_row run_id m now =
      let status = run_status (some m) in
      record {
        id = run_id;
        status = status;
        started_at = elim m.started_at [ none ↦ now | some at ↦ at ];
        finished_at = if is_terminal status then m.updated_at else none;
        seed_count = m.seed_count;
        max_depth = m.max_depth;
        max_pages = m.max_pages;
        fetched_count = m.fetched;
        succeeded_count = m.succeeded;
        failed_count = m.failed;
        skipped_count = m.skipped;
        unique_url_count = m.unique_urls;
        domain_capped_count = m.domain_capped;
        error = m.error;
      }

  abbrev pub placeholder : ℕ → ℕ → CrawlRun
  placeholder run_id now = record {
    id = run_id;
    status = codes "RUNNING";
    started_at = now;
    finished_at = none;
    seed_count = none;
    max_depth = none;
    max_pages = none;
    fetched_count = 0;
    succeeded_count = 0;
    failed_count = 0;
    skipped_count = 0;
    unique_url_count = 0;
    domain_capped_count = 0;
    error = none;
  }

  -- A manifest's row replaces what is there; a placeholder does not.
  unfoldable pub upsert_run : ℕ → Option Manifest → ℕ → List CrawlRun → List CrawlRun
  upsert_run run_id manifest now runs =
      let known = any (λ r. r.id == run_id) runs in
      elim manifest [
        | none ↦ if known then runs else runs ++ placeholder run_id now ∷ []
        | some m ↦
            if known
            then update_if (λ r. r.id == run_id) (λ _. run_row run_id m now) runs
            else runs ++ run_row run_id m now ∷ []
      ]

abbrev pub new_state : ℕ → Text → IngestState
new_state run_id source = record {
  crawl_run_id = run_id;
  source = source;
  last_modified = none;
  objects_loaded = 0;
  objects_failed = 0;
  finished = false;
}

-- `_state`: the run's row, made if it is not there; then a write to it.
abbrev pub state_of : ℕ → Text → List IngestState → IngestState
state_of run_id source states = elim (find (λ s. s.crawl_run_id == run_id) states) [
  | none ↦ new_state run_id source
  | some s ↦ s
]

abbrev pub put_state : IngestState → List IngestState → List IngestState
put_state state states =
    if any (λ s. s.crawl_run_id == state.crawl_run_id) states
    then update_if (λ s. s.crawl_run_id == state.crawl_run_id) (λ _. state) states
    else states ++ state ∷ []

-- `if newest is None or obj.last_modified > newest`
abbrev pub newer : Option ℕ → ℕ → Option ℕ
newer none at = some at
newer (some newest) at = if ltb newest at then some at else some newest

-- `watermark is None or o.last_modified >= watermark`
abbrev pub is_due : Option ℕ → SourceObject → Bool
is_due none obj = true
is_due (some watermark) obj = leb watermark obj.last_modified

module _ {B : Type 0} (source : Source B) (run_id : ℕ) where
  -- What the loop over a chunk keeps.
  pub record Chunk : Type 0 where
    pub bronze : B
    pub newest : Option ℕ
    pub loaded : ℕ
    pub failed : ℕ
    pub log : List (Text × Text)

  abbrev pub count_saved : SourceObject → B → Chunk → Chunk
  count_saved obj bronze c = record c {
    bronze = bronze;
    newest = newer c.newest obj.last_modified;
    loaded = c.loaded + 1;
  }

  abbrev pub count_broken : SourceObject → Text → Chunk → Chunk
  count_broken obj message c = record c {
    newest = newer c.newest obj.last_modified;
    failed = c.failed + 1;
    log = c.log ++ (obj.key, take 2000 message) ∷ [];
  }

  unfoldable pub load_chunk : List SourceObject → Chunk → Chunk
  load_chunk [] c = c
  load_chunk (obj ∷ objs) c = load_chunk objs (elim (source.load run_id obj c.bronze) [
    | saved bronze ↦ count_saved obj bronze c
    | broken message ↦ count_broken obj message c
  ])

  -- The run's state row and the rest, between two chunks.
  pub record Pass : Type 0 where
    pub bronze : B
    pub state : IngestState
    pub newest : Option ℕ
    pub log : List (Text × Text)
    pub loaded : ℕ
    pub failed : ℕ

  abbrev pub start_chunk : Pass → Chunk
  start_chunk p = record { bronze = p.bronze; newest = p.newest; loaded = 0; failed = 0; log = [] }

  -- The writes that end a chunk's transaction.
  abbrev pub end_chunk : Pass → Chunk → Pass
  end_chunk p c = record {
    bronze = c.bronze;
    state = record p.state {
      last_modified = if c.failed == 0 then c.newest else p.state.last_modified;
      objects_loaded = p.state.objects_loaded + c.loaded;
      objects_failed = p.state.objects_failed + c.failed;
    };
    newest = c.newest;
    log = p.log ++ c.log;
    loaded = p.loaded + c.loaded;
    failed = p.failed + c.failed;
  }

  -- The loop over the chunks, with its `break`; whether there were failures.
  unfoldable pub load_chunks : List (List SourceObject) → Pass → Bool × Pass
  unfolding load_chunk
  load_chunks [] p = (false, p)
  load_chunks (chunk ∷ chunks) p =
      let c = load_chunk chunk (start_chunk p) in
      let next = end_chunk p c in
      let rest = load_chunks chunks next in if c.failed == 0 then rest else (true, next)

abbrev pub add_errors : List (Text × Text) → Dict Text Text → Dict Text Text
add_errors [] errors = errors
add_errors ((key, message) ∷ log) errors = add_errors log (insert key message errors)

module _ {B : Type 0} (upper : Text → Text) (size : ℕ) (source : Source B) where
  abbrev pub pending_of : ℕ → List IngestState → List SourceObject
  pending_of run_id states =
      keep (is_due (state_of run_id source.name states).last_modified) (source.documents run_id)

  abbrev pub start_pass : (run_id : ℕ) → Tables B → Pass source run_id
  start_pass run_id tables =
      let state = state_of run_id source.name tables.states in
      record {
        bronze = tables.bronze;
        state = state;
        newest = state.last_modified;
        log = [];
        loaded = 0;
        failed = 0;
      }

  abbrev pub pass_of : (run_id : ℕ) → Tables B → Bool × Pass source run_id
  pass_of run_id tables =
      let pending = pending_of run_id tables.states in
      load_chunks source run_id (chunks_of (length pending) size pending) (start_pass run_id tables)

  -- `_ingest_run`: whether the run is finished, with the report and the tables after it.
  unfoldable pub ingest_run : ℕ → ℕ → IngestReport → Tables B → Bool × IngestReport × Tables B
  unfolding upsert_run load_chunks
  ingest_run run_id now report tables =
      let manifest = source.manifest run_id in
      let (has_failures, pass) = pass_of run_id tables in
      let finished = is_terminal (run_status upper manifest) && not has_failures in
      (
        finished,
        record report {
          documents_loaded = report.documents_loaded + pass.loaded;
          documents_failed = report.documents_failed + pass.failed;
          errors = add_errors pass.log report.errors;
        },
        record {
          bronze = pass.bronze;
          runs = upsert_run upper run_id manifest now tables.runs;
          states =
              put_state (record pass.state { finished = pass.state.finished || finished })
                tables.states;
          error_logs = tables.error_logs ++ pass.log;
        },
      )

  -- The loop of `ingest` over the runs that are not finished.
  unfoldable pub ingest_runs :
      List ℕ → List ℕ → ℕ → IngestReport → Tables B → IngestReport × Tables B
  unfolding ingest_run
  ingest_runs [] finished now report tables = (report, tables)
  ingest_runs (run_id ∷ run_ids) finished now report tables =
      let seen = record report { runs_seen = report.runs_seen + 1 } in
      let (complete, report2, tables2) = ingest_run run_id now seen tables in
      let counted =
        if complete
        then record report2 { runs_finished = report2.runs_finished + 1 }
        else report2 in
      if elem run_id finished
      then ingest_runs run_ids finished now report tables
      else ingest_runs run_ids finished now counted tables2

  abbrev pub finished_ids : List IngestState → List ℕ
  finished_ids [] = []
  finished_ids (s ∷ states) =
      let rest = finished_ids states in
      if s.finished && (s.source == source.name) then s.crawl_run_id ∷ rest else rest

  unfoldable pub ingest : ℕ → Tables B → IngestReport × Tables B
  unfolding ingest_runs
  ingest now tables =
      let report : IngestReport = record {
        runs_seen = 0;
        runs_finished = 0;
        documents_loaded = 0;
        documents_failed = 0;
        errors = [];
      } in
      ingest_runs source.run_ids (finished_ids tables.states) now report tables
