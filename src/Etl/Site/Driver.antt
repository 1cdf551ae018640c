-- ===== src/Etl/Site/Driver.antt =====
-- ETL/spark/site_pipeline.py: the driver of one site's run. What the database, the bucket, ClamAV and
-- the embedding service do is a field of `Services`; `State` is what the writes change, and a write
-- that was made stays when a later call raises. `GEO_CONFIDENCE` and the log lines are left out.
use pgs_search_engine.Base.{
  ℕ, zero, suc, ◌≡◌, subst, Bool, true, false, ◌&&◌, ◌||◌, Option, none, some, List, [], ◌∷◌, ◌++◌,
  ltb, ◌==◌, nat_eq, length, take, drop, keep,
}
use pgs_search_engine.Api.Account.Decimal.{decimal}
use pgs_search_engine.Base.Text.{Text, text_eq, codes, ends_with}
use pgs_search_engine.Etl.Scanner.{ClamavResult, clean, found, scan_error, skipped_scan}
use pgs_search_engine.Etl.Site.{Fields, Raised, Result, returned, raised, Fetched, Event, join_key}
use pgs_search_engine.Etl.Site.Pages.{
  SiteRecord, PageResult, transformed, rejected, skipped, page_failed, Problem,
}

abbrev pub pipeline_version : ℕ
pipeline_version = 2

pub record Summary : Type 0 where
  pub crawl_run_id : ℕ
  pub target_domain : Text
  pub crawl_status : Option Text
  pub documents : ℕ
  pub saved : ℕ
  pub duplicates : ℕ
  pub rejected : ℕ
  pub infected : ℕ
  pub skipped : ℕ
  pub failed : ℕ

unfoldable pub new_summary : Event → ℕ → Summary
new_summary event documents = record {
  crawl_run_id = event.crawl_run_id;
  target_domain = event.target_domain;
  crawl_status = event.status;
  documents = documents;
  saved = 0;
  duplicates = 0;
  rejected = 0;
  infected = 0;
  skipped = 0;
  failed = 0;
}

-- `writer.save`: True for a duplicate, an error that `_transient_db_error` recognises, or another
-- SQLAlchemyError, ValueError or LookupError.
pub data Saved : Type 0 where
  stored : Bool → Saved
  transient refused : Saved

-- What `json.loads` makes of a marker: an error, no object or one without a version, or a version with
-- a summary.
pub data Marker : Type 0 where
  undecodable unversioned : Marker
  marker : ℕ → Summary → Marker

-- What `log_page_error` is told of a page.
pub data PageError : Type 0 where
  page_invalid : Text → Problem → PageError
  not_saved : SiteRecord → PageError

-- None is an error of the service: a ClientError or BotoCoreError, an SQLAlchemyError, or no answer.
pub record Services (State Vector : Type 0) : Type 0 where
  pub read : State → Text → Text → Fetched
  pub put : Text → Text → List ℕ → State → Option State
  pub list_pages : Text → Text → State → Option (List (List Text))
  pub dumps : Summary → List ℕ
  pub load_marker : List ℕ → Marker
  pub instream : List ℕ → Option (Text × Text)
  pub ping_clamav : State → Bool
  pub check : State → Bool
  pub save : SiteRecord → Option Vector → Fields → State → Saved × State
  pub log_rejection : PageResult → State → Option State
  pub log_page_error : PageError → State → Option State
  pub embed : List Text → Result (List (Option Vector))

infixl 5 ◌>>>◌
-- The next step, unless this one raised.
abbrev pub ◌>>>◌ : {S A B : Type 0} → Result A × S → (A → S → Result B × S) → Result B × S
(returned a, s) >>> f = f a s
(raised e, s) >>> f = (raised e, s)

-- A write, or the exception that its failure raises.
abbrev pub written : {S A : Type 0} → Raised → A → S → Option S → Result A × S
written error a s none = (raised error, s)
written error a s (some s') = (returned a, s')

abbrev pub is_infected : ClamavResult → Bool
is_infected (found _) = true
is_infected clean = false
is_infected scan_error = false
is_infected skipped_scan = false

-- `list_document_keys`, before its sort
abbrev pub json_keys : List (List Text) → List Text
json_keys [] = []
json_keys (page ∷ pages) = keep (ends_with (codes ".json")) page ++ json_keys pages

-- `a < b` on str
abbrev pub text_before : Text → Text → Bool
text_before [] [] = false
text_before [] (_ ∷ _) = true
text_before (_ ∷ _) [] = false
text_before (c ∷ s) (d ∷ t) = ltb c d || ((c == d) && text_before s t)

-- `range(0, len(keys), size)` with the slices; a group takes at least one key of those that are left.
unfoldable pub groups_from : ℕ → ℕ → List Text → List (List Text)
groups_from zero size keys = []
groups_from (suc fuel) size [] = []
groups_from (suc fuel) size (key ∷ keys) =
    take size (key ∷ keys) ∷ groups_from fuel size (drop size (key ∷ keys))

unfoldable pub groups : ℕ → List Text → List (List Text)
unfolding groups_from
groups size keys = groups_from (length keys) size keys

abbrev pub marker_key : Event → Result Text
marker_key event = join_key event.key_prefix (
    codes "_etl/"
    ++ decimal event.crawl_run_id
    ++ codes "/"
    ++ event.target_domain
    ++ codes ".json")

-- The transformed results, in order.
abbrev pub records_of : List PageResult → List (SiteRecord × Fields)
records_of [] = []
records_of (transformed _ r document ∷ results) = (r, document) ∷ records_of results
records_of (rejected _ _ _ _ _ ∷ results) = records_of results
records_of (skipped _ _ ∷ results) = records_of results
records_of (page_failed _ _ ∷ results) = records_of results

-- What holds of the end of a step, unless it raised.
pub data Ends {S A : Type 0} (P : A → S → Type 0) : Result A × S → Type 0 where
  raises : {e : Raised} {s : S} → Ends P (raised e, s)
  returns : {a : A} {s : S} → P a s → Ends P (returned a, s)

module _ {S A B : Type 0} {Q : A → S → Type 0} {P : B → S → Type 0} where
  pub Ends-bind :
      {m : Result A × S} {f : A → S → Result B × S}
      → Ends Q m
      → ((a : A) (s : S) → Q a s → Ends P (f a s))
      → Ends P (m >>> f)
  Ends-bind raises h = raises
  Ends-bind (returns {a} {s} q) h = h a s q

module _ {S A : Type 0} {Q : A → S → Type 0} where
  pub Ends-map :
      {P : A → S → Type 0} {m : Result A × S}
      → Ends Q m
      → ((a : A) (s : S) → Q a s → P a s)
      → Ends P m
  Ends-map raises h = raises
  Ends-map (returns {a} {s} q) h = returns (h a s q)

-- Every step ends.
pub some_end : {S A : Type 0} (m : Result A × S) → Ends (λ _ _. Unit) m
some_end (returned a, s) = returns tt
some_end (raised e, s) = raises

what_holds : {S A : Type 0} {P : A → S → Type 0} {a : A} {s : S} → Ends P (returned a, s) → P a s
what_holds (returns p) = p

pub from_ends :
    {S A : Type 0} {P : A → S → Type 0} {m : Result A × S} (a : A) (s : S)
    → Ends P m
    → m ≡ (returned a, s)
    → P a s
from_ends {P} a s h e = what_holds (subst (λ m. Ends P m) e h)
