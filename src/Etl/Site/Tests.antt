-- ===== src/Etl/Site/Tests.antt =====
-- ETL/spark/site_pipeline.py: runs, and the theorems at concrete inputs.
use pgs_search_engine.Etl.Site.Tally.{IsAccounted, run_site_pipeline-IsAccounted}
use pgs_search_engine.Etl.Site.Run.{already_processed, finished, run_site_pipeline}
use pgs_search_engine.Etl.Site.Trust.{IsTrusted, process_page-IsTrusted}
use pgs_search_engine.Etl.Site.Totals.{joined, FitsGroup, groups-joined}
use pgs_search_engine.Etl.Site.Marked.{run_site_pipeline-again}
use pgs_search_engine.Etl.Site.Driver.{
  groups, Summary, Services, Marker, undecodable, marker, pipeline_version, stored,
}
use pgs_search_engine.Etl.Site.Pages.{PageResult, skipped, process_page, fetch_failed}
use pgs_search_engine.Etl.Site.{
  Result, returned, raised, Json, integer, text, object, no_fields, field, Fetched, content,
  missing, Event, Python,
}
use pgs_search_engine.Base.{
  ℕ, ◌≡◌, refl, ap, true, false, Option, none, some, List, [], ◌∷◌, ◌++◌, map, arith, ⊤,
  if◌then◌else◌, ◌==◌, nat_eq, length, take, drop, All,
}
use pgs_search_engine.Api.Account.Decimal.{decimal}
use pgs_search_engine.Base.Text.{Text, text_eq, codes, between}
use pgs_search_engine.Base.Dict.{Dict, lookup, insert, lookup-insert_self}
use pgs_search_engine.Etl.Transform.{Unicode}

abbrev toy_unicode : Unicode
toy_unicode = record {
  lower = λ t. t;
  is_alpha = λ c. between 97 122 c;
  nfc = λ t. t;
  find_words = λ t. t ∷ [];
  feed = λ t. [];
  encode = λ t. t;
  sha256_hex = λ bytes. bytes;
  sha256_low64 = length;
}

-- A page of the scraper, and one whose fetch failed.
abbrev good_document : Json
good_document = object (
    field (codes "url") (text (codes "http://a"))
      (field (codes "text") (text (codes "hello")) no_fields))

abbrev failed_document : Json
failed_document = object (
    field (codes "url") (text (codes "http://b"))
      (field (codes "status_code") (integer 404) no_fields))

abbrev loads : List ℕ → Option Json
loads [] = none
loads (b ∷ _) = if b == 1 then some good_document else if b == 2 then some failed_document else none

abbrev toy_python : Python
toy_python = record {
  unicode = toy_unicode;
  decode_utf8 = λ bytes. bytes;
  loads = loads;
  decode_html = λ bytes _. returned bytes;
  iso_time = λ _. none;
}

abbrev event : Event
event = record {
  crawl_run_id = 7;
  target_domain = codes "a";
  bucket = codes "b";
  documents_prefix = codes "d/";
  key_prefix = none;
  status = some (codes "done");
}

-- The bucket: two documents, and the objects that were put.
abbrev State : Type 0
State = Dict Text (List ℕ)

abbrev fixed_object : Text → Fetched
fixed_object key =
    if key == codes "d/1.json"
    then content (1 ∷ [])
    else if key == codes "d/2.json"
    then content (2 ∷ [])
    else missing

abbrev read_object : State → Text → Text → Fetched
read_object s bucket key = elim (lookup key s) [
  | none ↦ fixed_object key
  | some bytes ↦ content bytes
]

-- Every object is clean.
abbrev all_clean : List ℕ → Option (Text × Text)
all_clean _ = some (codes "OK", [])

-- A summary as the numbers of its fields; the domain ends where its length says.
abbrev dumps : Summary → List ℕ
dumps summary =
    let status = summary.crawl_status in
    summary.crawl_run_id
      ∷ summary.documents
      ∷ summary.saved
      ∷ summary.duplicates
      ∷ summary.rejected
      ∷ summary.infected
      ∷ summary.skipped
      ∷ summary.failed
      ∷ length summary.target_domain
      ∷ summary.target_domain
    ++ (elim status [ none ↦ [] | some t ↦ 0 ∷ t ])

abbrev status_of : List ℕ → Option Text
status_of [] = none
status_of (_ ∷ t) = some t

abbrev load_marker : List ℕ → Marker
load_marker (r ∷ d ∷ sa ∷ du ∷ re ∷ i ∷ sk ∷ f ∷ n ∷ rest) = marker pipeline_version (record {
  crawl_run_id = r;
  target_domain = take n rest;
  crawl_status = status_of (drop n rest);
  documents = d;
  saved = sa;
  duplicates = du;
  rejected = re;
  infected = i;
  skipped = sk;
  failed = f;
})
load_marker _ = undecodable

abbrev toy_services : Services State ⊤
toy_services = record {
  read = read_object;
  put = λ bucket key bytes s. some (insert key bytes s);
  list_pages =
      λ bucket prefix s. some ((codes "d/1.json" ∷ codes "d/2.json" ∷ codes "d/x" ∷ []) ∷ []);
  dumps = dumps;
  load_marker = load_marker;
  instream = all_clean;
  ping_clamav = λ s. true;
  check = λ s. true;
  save = λ page vector document s. (stored false, s);
  log_rejection = λ result s. some s;
  log_page_error = λ error s. some s;
  embed = λ texts. returned (map (λ t. none) texts);
}

take-length : (xs ys : List ℕ) → take (length xs) (xs ++ ys) ≡ xs
take-length [] ys = refl
take-length (x ∷ xs) ys = ap (λ l. x ∷ l) (take-length xs ys)

drop-length : (xs ys : List ℕ) → drop (length xs) (xs ++ ys) ≡ ys
drop-length [] ys = refl
drop-length (x ∷ xs) ys = drop-length xs ys

load_marker-dumps :
    (summary : Summary) → load_marker (dumps summary) ≡ marker pipeline_version summary
load_marker-dumps summary = with_status summary.crawl_status
  where
    with_status :
        (status : Option Text)
        → load_marker (dumps (record summary { crawl_status = status }))
          ≡ marker pipeline_version (record summary { crawl_status = status })
    with_status none =
        rw (take-length summary.target_domain [], drop-length summary.target_domain []) refl
    with_status (some t) =
        rw (take-length summary.target_domain (0 ∷ t), drop-length summary.target_domain (0 ∷ t))
          refl

put-Stores :
    (key : Text) (bytes : List ℕ) (s : State)
    → (s' : State) × (toy_services.put event.bucket key bytes s ≡ some s')
      × (toy_services.read s' event.bucket key ≡ content bytes)
put-Stores key bytes s =
    (insert key bytes s, refl, rw (read_object, lookup-insert_self key bytes s) refl)

abbrev summary : Summary
summary = record {
  crawl_run_id = 7;
  target_domain = codes "a";
  crawl_status = some (codes "done");
  documents = 2;
  saved = 1;
  duplicates = 0;
  rejected = 0;
  infected = 0;
  skipped = 1;
  failed = 0;
}

fetch_failed_test :
    process_page toy_python (read_object []) all_clean event (codes "d/2.json")
    ≡ returned (skipped (codes "d/2.json") fetch_failed)
unfolding process_page
fetch_failed_test = refl

abbrev after : State
after = insert (codes "_etl/7/a.json") (dumps summary) []

runs :
    run_site_pipeline toy_services toy_python event 1 true [] ≡ (returned (finished summary), after)
unfolding run_site_pipeline decimal
runs = refl

-- A run that finds its marker writes nothing.
run_site_pipeline-again_example :
    run_site_pipeline toy_services toy_python event 200 false after
    ≡ (returned (already_processed summary), after)
run_site_pipeline-again_example =
    run_site_pipeline-again toy_services toy_python event put-Stores load_marker-dumps 1 200 true
      false [] after summary runs

run_site_pipeline-IsAccounted_example : IsAccounted toy_services toy_python event (finished summary)
run_site_pipeline-IsAccounted_example =
    run_site_pipeline-IsAccounted toy_services toy_python event 1 true [] after (finished summary)
      (omega arith) runs

groups-joined_example :
    (joined (groups 2 (codes "a" ∷ codes "b" ∷ codes "c" ∷ []))
      ≡ codes "a" ∷ codes "b" ∷ codes "c" ∷ [])
    × All (FitsGroup 2) (groups 2 (codes "a" ∷ codes "b" ∷ codes "c" ∷ []))
groups-joined_example = groups-joined 2 (codes "a" ∷ codes "b" ∷ codes "c" ∷ []) (omega arith)

-- The first document's page, transformed.
abbrev result_of : Result PageResult → PageResult
result_of (returned result) = result
result_of (raised _) = skipped [] fetch_failed

abbrev page : PageResult
page = result_of (process_page toy_python (read_object []) all_clean event (codes "d/1.json"))

page_returns :
    process_page toy_python (read_object []) all_clean event (codes "d/1.json") ≡ returned page
unfolding process_page
page_returns = refl

process_page-IsTrusted_example :
    IsTrusted toy_python (read_object []) all_clean event (codes "d/1.json") page
process_page-IsTrusted_example =
    process_page-IsTrusted toy_python (read_object []) all_clean event (codes "d/1.json") page
      page_returns
