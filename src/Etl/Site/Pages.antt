-- ===== src/Etl/Site/Pages.antt =====
-- ETL/spark/site_pipeline.py: `process_page`, on the executors. The bucket and ClamAV are arguments.
use pgs_search_engine.Base.{
  ℕ, Bool, false, not, ◌&&◌, ◌||◌, Option, none, some, List, [], ◌∷◌, ◌++◌, map, ltb, leb,
  if◌then◌else◌, ◌==◌, nat_eq,
}
use pgs_search_engine.Etl.Site.{
  scanner_unavailable, Json, null, truth, integer, negative, real, text, array, object, Elements,
  no_elements, element, Fields, no_fields, field, get, is_true, ◌or_json◌, type_error, s3_error,
  Result, returned, raised, ◌>>=◌, Fetched, content, missing, unreachable, Event, join_key,
  basename, remove_suffix, Python,
}
use pgs_search_engine.Etl.Transform.{normalize_text, extract_html_text}
use pgs_search_engine.Base.Text.{ends_with, Text, text_eq, codes, strip, is_blank}
use pgs_search_engine.Etl.Scanner.{
  clean, found, scan_error, skipped_scan, inspect_bytes, Inspection, Verdict, ClamavResult,
}
use pgs_search_engine.Etl.Transform.Fingerprint.{transform_document, PageRecord}

pub record SiteRecord : Type 0 where
  pub page : PageRecord Json
  pub crawl_run_id : ℕ
  pub fetched_at : Json
  pub category : Json
  pub keywords : List Text
  pub published_at : Option Text
  pub verdict : Verdict
  pub clamav : ClamavResult
  pub sha256 : Text

pub data Problem : Type 0 where
  document_missing invalid_json not_an_object no_url html_missing : Problem

pub data Reason : Type 0 where
  fetch_failed no_text : Reason

-- The results by status.
pub data PageResult : Type 0 where
  transformed : Text → SiteRecord → Fields → PageResult
  rejected : Text → Text → Json → Inspection → Fields → PageResult
  skipped : Text → Reason → PageResult
  page_failed : Text → Problem → PageResult

abbrev pub as_text : Json → Result Text
as_text (text t) = returned t
as_text _ = raised type_error

-- `isinstance(code, int) and 200 <= code < 300`; a Boolean is 0 or 1.
abbrev pub is_success : Json → Bool
is_success (integer n) = leb 200 n && ltb n 300
is_success _ = false

abbrev pub texts_of : Elements → List Text
texts_of no_elements = []
texts_of (element (text t) es) = t ∷ texts_of es
texts_of (element _ es) = texts_of es

abbrev pub keys_of : Fields → List Text
keys_of no_fields = []
keys_of (field key _ fs) = key ∷ keys_of fs

-- `[k for k in value or [] if isinstance(k, str)]`, of any value of JSON
abbrev pub strings_of : Json → Result (List Text)
strings_of (array es) = returned (texts_of es)
strings_of (text t) = returned (map (λ c. c ∷ []) t)
strings_of (object fs) = returned (keys_of fs)
strings_of value = if is_true value then raised type_error else returned []

-- `value.replace("Z", "+00:00")`
abbrev pub replace_z : Text → Text
replace_z [] = []
replace_z (c ∷ t) = (if c == b'Z' then codes "+00:00" else c ∷ []) ++ replace_z t

abbrev pub time_names : List Text
time_names =
    codes "article:published_time" ∷ codes "og:published_time" ∷ codes "article:modified_time" ∷ []

abbrev pub first_time : (Text → Option Text) → List Text → Fields → Option Text
first_time iso_time [] graph = none
first_time iso_time (name ∷ names) graph =
    let later = first_time iso_time names graph in
    elim (get name graph) [
      | text t ↦
          if is_blank t
          then later
          else elim (iso_time (replace_z (strip t))) [ none ↦ later | some time ↦ some time ]
      | null ↦ later
      | truth _ ↦ later
      | integer _ ↦ later
      | negative _ ↦ later
      | real _ ↦ later
      | array _ ↦ later
      | object _ ↦ later
    ]

unfoldable pub published_at : (Text → Option Text) → Fields → Option Text
published_at iso_time document = elim (get (codes "open_graph") document) [
  | object graph ↦ first_time iso_time time_names graph
  | text _ ↦ none
  | null ↦ none
  | truth _ ↦ none
  | integer _ ↦ none
  | negative _ ↦ none
  | real _ ↦ none
  | array _ ↦ none
]

-- The value of `content`: which object it is, its name, and its bytes.
pub record Source : Type 0 where
  pub object_key : Text
  pub filename : Text
  pub bytes : List ℕ

-- The content, or the result that ends the page.
pub data Loaded (A : Type 0) : Type 0 where
  loaded : A → Loaded A
  ended : PageResult → Loaded A

abbrev pub source_url_of : Fields → Json
source_url_of document =
    get (codes "normalized_url") document
    or_json get (codes "final_url") document
    or_json get (codes "url") document
    or_json text []

abbrev pub html_key_of : Fields → Json
html_key_of document =
    get (codes "rendered_html_key") document or_json get (codes "html_key") document

-- The rest of a page, unless it has ended.
abbrev pub unless_ended : {A : Type 0} → Loaded A → (A → Result PageResult) → Result PageResult
unless_ended (loaded a) f = f a
unless_ended (ended result) f = returned result

-- `json.loads`'s value, which must be a JSON object.
abbrev pub parsed : Text → Option Json → Loaded Fields
parsed key none = ended (page_failed key invalid_json)
parsed key (some (object document)) = loaded document
parsed key (some _) = ended (page_failed key not_an_object)

abbrev pub document_from : (List ℕ → Option Json) → Text → Fetched → Result (Loaded Fields)
document_from loads key missing = returned (ended (page_failed key document_missing))
document_from loads key unreachable = raised s3_error
document_from loads key (content bytes) = returned (parsed key (loads bytes))

abbrev pub html_from : Text → Text → Text → Fetched → Result (Loaded Source)
html_from key html_key object_key missing = returned (ended (page_failed key html_missing))
html_from key html_key object_key unreachable = raised s3_error
html_from key html_key object_key (content bytes) =
    returned
      (loaded (record { object_key = object_key; filename = basename html_key; bytes = bytes }))

module _ (py : Python) (read : Text → Text → Fetched) (instream : List ℕ → Option (Text × Text))
    (event : Event) where
  -- The document of a key.
  abbrev pub load_document : Text → Result (Loaded Fields)
  load_document key = document_from py.loads key (read event.bucket key)

  -- The stored HTML, or the scraper's text where no HTML is stored.
  abbrev pub load_source : Text → Fields → Result (Loaded Source)
  load_source key document =
      if is_true (html_key_of document)
      then (do
        html_key ← as_text (html_key_of document)
        object_key ← join_key event.key_prefix html_key
        html_from key html_key object_key (read event.bucket object_key))
      else (do
        own_text ← as_text (get (codes "text") document or_json text [])
        returned (
            loaded (record {
              object_key = key;
              filename = remove_suffix (codes ".json") (basename key) ++ codes ".txt";
              bytes = py.unicode.encode own_text;
            })))

  abbrev pub s3_uri : Text → Text
  s3_uri object_key = codes "s3://" ++ event.bucket ++ codes "/" ++ object_key

  -- The text of an accepted object.
  abbrev pub text_of : Fields → Source → Result Text
  text_of document source =
      if ends_with (codes ".html") source.filename || ends_with (codes ".htm") source.filename
      then (do
        html ← py.decode_html source.bytes (get (codes "content_type") document)
        returned (extract_html_text py.unicode html))
      else returned (normalize_text py.unicode (py.decode_utf8 source.bytes))

  -- The record of an accepted page with text.
  abbrev pub make_record : Fields → Text → Text → Inspection → Result SiteRecord
  make_record document object_key body scan = do
    title ← as_text (get (codes "title") document or_json text [])
    description ← as_text (get (codes "meta_description") document or_json text [])
    keywords ← strings_of (get (codes "meta_keywords") document)
    returned (record {
      page =
          transform_document py.unicode (source_url_of document) body title description
            event.target_domain (s3_uri object_key);
      crawl_run_id = event.crawl_run_id;
      fetched_at = get (codes "fetched_at") document;
      category = get (codes "category") document or_json null;
      keywords = keywords;
      published_at = published_at py.iso_time document;
      verdict = scan.verdict;
      clamav = scan.clamav;
      sha256 = scan.scanned.sha256;
    })

  -- A page with its text.
  abbrev pub keep_page : Text → Fields → Source → Inspection → Text → Result PageResult
  keep_page key document source scan [] = returned (skipped key no_text)
  keep_page key document source scan (c ∷ body) = do
    result ← make_record document source.object_key (c ∷ body) scan
    returned (transformed key result document)

  -- The page, once its content has been scanned.
  abbrev pub finish_page : Text → Fields → Source → Inspection → Result PageResult
  finish_page key document source scan =
      if not scan.accepted
      then returned (rejected key (s3_uri source.object_key) (source_url_of document) scan document)
      else text_of document source >>= λ body. keep_page key document source scan body

  -- "Cannot scan" ends the run.
  abbrev pub after_scan : Text → Fields → Source → Inspection → Result PageResult
  after_scan key document source scan = elim scan.clamav [
    | scan_error ↦ raised scanner_unavailable
    | clean ↦ finish_page key document source scan
    | found _ ↦ finish_page key document source scan
    | skipped_scan ↦ finish_page key document source scan
  ]

  abbrev pub scan_source : Source → Inspection
  scan_source source =
      inspect_bytes py.unicode.lower py.unicode.sha256_hex instream source.filename source.bytes

  -- `process_page`, for a document that is a JSON object
  abbrev pub process_document : Text → Fields → Result PageResult
  process_document key document =
      if not (is_true (source_url_of document))
      then returned (page_failed key no_url)
      else if is_true (get (codes "error") document)
          || not (is_success (get (codes "status_code") document or_json integer 200))
      then returned (skipped key fetch_failed)
      else load_source key document >>= λ source.
          unless_ended source (λ stored. after_scan key document stored (scan_source stored))

  unfoldable pub process_page : Text → Result PageResult
  unfolding join_key inspect_bytes published_at extract_html_text normalize_text transform_document
  process_page key = do document ← load_document key; unless_ended document (process_document key)

  -- `_run_group` with `_process_partition`: the results in the order of the keys. A page that raises
  -- ends the run.
  unfoldable pub run_group : List Text → Result (List PageResult)
  unfolding process_page
  run_group [] = returned []
  run_group (key ∷ keys) = do
    result ← process_page key
    results ← run_group keys
    returned (result ∷ results)
