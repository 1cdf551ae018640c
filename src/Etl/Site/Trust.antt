-- ===== src/Etl/Site/Trust.antt =====
-- ETL/spark/site_pipeline.py: which pages get past the scan.
use pgs_search_engine.Base.{
  ℕ, ◌≡◌, refl, ap, ◌∙◌, ◌≢◌, Bool, true, false, not, ◌||◌, Option, none, some, List, [], ◌∷◌,
  arith, if_ind, nat_eq,
}
use pgs_search_engine.Etl.Site.{
  raised, Json, null, truth, integer, negative, real, text, array, object, Result, get, ◌or_json◌,
  is_true, Fetched, missing, unreachable, content, join_key, from_returns, returned, Fields, Event,
  Python, WhenReturned, raises, returns, WhenReturned-bind, WhenReturned-bind_with,
}
use pgs_search_engine.Etl.Site.Pages.{
  load_document, load_source, source_url_of, Loaded, loaded, ended, parsed, document_from,
  html_from, unless_ended, html_key_of, is_success, process_page, process_document, PageResult,
  transformed, rejected, skipped, page_failed, SiteRecord, Source, text_of, make_record, keep_page,
  finish_page, after_scan, scan_source, strings_of, as_text,
}
use pgs_search_engine.Base.Text.{Text, text_eq, codes}
use pgs_search_engine.Etl.Scanner.{
  Inspection, safe, ClamavResult, clean, found, scan_error, skipped_scan, inspect_bytes, scan_file,
  scan_with_clamav,
}
use pgs_search_engine.Etl.Scanner.Verdicts.{inspect_bytes_accepts, inspect_bytes_verdict}

pub self_returned : {A : Type 0} (m : Result A) → WhenReturned (λ (a : A). m ≡ returned a) m
self_returned (returned a) = returns refl
self_returned (raised e) = raises

with_self :
    {A : Type 0} {P : A → Type 0} {m : Result A}
    → WhenReturned P m
    → WhenReturned (λ (a : A). P a × (m ≡ returned a)) m
with_self raises = raises
with_self (returns p) = returns (p, refl)

module _ (py : Python) (read : Text → Text → Fetched) (instream : List ℕ → Option (Text × Text))
    (event : Event) where
  -- The page of a key that was read and let in as far as its scan: its document, and its content.
  abbrev pub IsContentOf : Text → Fields → Source → Type 0
  IsContentOf key document source =
      (load_document py read instream event key ≡ returned (loaded document))
      × (load_source py read instream event key document ≡ returned (loaded source))

  -- A record is made of the content of its key, all of whose bytes both layers let in under its name,
  -- and of the text of that content; the scan is kept with it. A page is rejected only for a scan of
  -- its content that took place and did not accept it.
  abbrev pub IsTrusted : Text → PageResult → Type 0
  IsTrusted key (transformed page_key record_ document) =
      (source : Source) × (body : Text) × (page_key ≡ key)
      × IsContentOf key document source
      × (scan_with_clamav instream source.bytes ≡ clean)
      × ((scan_file py.unicode.lower py.unicode.sha256_hex source.filename source.bytes).verdict
          ≡ safe)
      × (record_.verdict ≡ safe)
      × (record_.sha256 ≡ py.unicode.sha256_hex source.bytes)
      × (text_of py read instream event document source ≡ returned body)
      × (make_record py read instream event document source.object_key body
            (scan_source py read instream event source)
          ≡ returned record_)
  IsTrusted key (rejected page_key _ _ scan document) =
      (source : Source) × (page_key ≡ key)
      × IsContentOf key document source
      × (scan ≡ scan_source py read instream event source)
      × (scan.accepted ≡ false)
      × (scan.clamav ≢ scan_error)
  IsTrusted key (skipped _ _) = Unit
  IsTrusted key (page_failed _ _) = Unit

  make_record-scan :
      (document : Fields) (object_key body : Text) (scan : Inspection)
      → WhenReturned
          (λ (r : SiteRecord). (r.verdict ≡ scan.verdict) × (r.sha256 ≡ scan.scanned.sha256))
          (make_record py read instream event document object_key body scan)
  make_record-scan document object_key body scan =
      WhenReturned-bind (as_text (get (codes "title") document or_json text [])) (λ title.
        WhenReturned-bind (as_text (get (codes "meta_description") document or_json text []))
          (λ description.
            WhenReturned-bind (strings_of (get (codes "meta_keywords") document))
              (λ keywords. returns (refl, refl))))

  scanned_digest :
      (source : Source)
      → (scan_source py read instream event source).scanned.sha256
        ≡ py.unicode.sha256_hex source.bytes
  unfolding inspect_bytes scan_file
  scanned_digest source = refl

  accepted-IsTrusted :
      (key : Text) (document : Fields) (source : Source) (body : Text)
      → IsContentOf key document source
      → text_of py read instream event document source ≡ returned body
      → (scan_source py read instream event source).accepted ≡ true
      → WhenReturned (IsTrusted key) (
          keep_page py read instream event key document source
            (scan_source py read instream event source)
            body)
  accepted-IsTrusted key document source [] its_content its_text accepted = returns tt
  accepted-IsTrusted key document source (c ∷ body) its_content its_text accepted =
      let (is_safe, is_clean) =
        (inspect_bytes_accepts py.unicode.lower py.unicode.sha256_hex instream source.filename
            source.bytes).0
          accepted in
      let verdict =
        (inspect_bytes_verdict py.unicode.lower py.unicode.sha256_hex instream source.filename
            source.bytes).1
          accepted in
      WhenReturned-bind_with
        (with_self (
          make_record-scan document source.object_key (c ∷ body)
            (scan_source py read instream event source)))
        (λ r (kept, made). returns (
          source,
          c ∷ body,
          refl,
          its_content,
          is_clean,
          is_safe,
          kept.0 ∙ verdict,
          kept.1 ∙ scanned_digest source,
          its_text,
          made,
        ))

  finish_page-IsTrusted :
      (key : Text) (document : Fields) (source : Source)
      → IsContentOf key document source
      → (scan_source py read instream event source).clamav ≢ scan_error
      → WhenReturned (IsTrusted key) (
          finish_page py read instream event key document source
            (scan_source py read instream event source))
  finish_page-IsTrusted key document source its_content answered =
      let scan = scan_source py read instream event source in
      if_ind (WhenReturned (IsTrusted key)) (not scan.accepted)
        (λ refused.
          returns (source, refl, its_content, refl, of_not scan.accepted refused, answered))
        (λ accepted.
          WhenReturned-bind_with (self_returned (text_of py read instream event document source))
            (λ body its_text.
              accepted-IsTrusted key document source body its_content its_text
                (of_not_false scan.accepted accepted)))
    where
      of_not : (b : Bool) → not b ≡ true → b ≡ false
      of_not b h = ground arith

      of_not_false : (b : Bool) → not b ≡ false → b ≡ true
      of_not_false b h = ground arith

  after_scan-IsTrusted :
      (key : Text) (document : Fields) (source : Source)
      → IsContentOf key document source
      → WhenReturned (IsTrusted key) (
          after_scan py read instream event key document source
            (scan_source py read instream event source))
  after_scan-IsTrusted key document source its_content =
      judged (scan_source py read instream event source).clamav refl
    where
      answer : ClamavResult
      answer = (scan_source py read instream event source).clamav

      judged :
          (c : ClamavResult)
          → answer ≡ c
          → WhenReturned (IsTrusted key) (
              after_scan py read instream event key document source
                (scan_source py read instream event source))
      judged scan_error e = rw (after_scan, e) raises
      judged clean e =
          rw (after_scan, e) (finish_page-IsTrusted key document source its_content (λ p. cc))
      judged (found t) e =
          rw (after_scan, e) (finish_page-IsTrusted key document source its_content (λ p. cc))
      judged skipped_scan e =
          rw (after_scan, e) (finish_page-IsTrusted key document source its_content (λ p. cc))

  abbrev HasEnd : {A : Type 0} → Text → Loaded A → Type 0
  HasEnd key (loaded _) = Unit
  HasEnd key (ended result) = IsTrusted key result

  parsed-HasEnd : (key : Text) (value : Option Json) → HasEnd key (parsed key value)
  parsed-HasEnd key none = tt
  parsed-HasEnd key (some null) = tt
  parsed-HasEnd key (some (truth _)) = tt
  parsed-HasEnd key (some (integer _)) = tt
  parsed-HasEnd key (some (negative _)) = tt
  parsed-HasEnd key (some (real _)) = tt
  parsed-HasEnd key (some (text _)) = tt
  parsed-HasEnd key (some (array _)) = tt
  parsed-HasEnd key (some (object _)) = tt

  document_from-HasEnd :
      (key : Text) (fetched : Fetched)
      → WhenReturned (HasEnd key) (document_from py.loads key fetched)
  document_from-HasEnd key missing = returns tt
  document_from-HasEnd key unreachable = raises
  document_from-HasEnd key (content bytes) = returns (parsed-HasEnd key (py.loads bytes))

  html_from-HasEnd :
      (key html_key object_key : Text) (fetched : Fetched)
      → WhenReturned (HasEnd key) (html_from key html_key object_key fetched)
  html_from-HasEnd key html_key object_key missing = returns tt
  html_from-HasEnd key html_key object_key unreachable = raises
  html_from-HasEnd key html_key object_key (content bytes) = returns tt

  unless_ended-IsTrusted :
      {A : Type 0} (key : Text) (l : Loaded A) (f : A → Result PageResult)
      → HasEnd key l
      → ((a : A) → l ≡ loaded a → WhenReturned (IsTrusted key) (f a))
      → WhenReturned (IsTrusted key) (unless_ended l f)
  unless_ended-IsTrusted key (loaded a) f h k = k a refl
  unless_ended-IsTrusted key (ended result) f h k = returns h

  load_source-HasEnd :
      (key : Text) (document : Fields)
      → WhenReturned (HasEnd key) (load_source py read instream event key document)
  load_source-HasEnd key document =
      if_ind (WhenReturned (HasEnd key)) (is_true (html_key_of document))
        (λ _. WhenReturned-bind (as_text (html_key_of document)) (λ html_key.
          WhenReturned-bind (join_key event.key_prefix html_key) (λ object_key.
            html_from-HasEnd key html_key object_key (read event.bucket object_key))))
        (λ _.
          WhenReturned-bind (as_text (get (codes "text") document or_json text []))
            (λ own_text. returns tt))

  process_document-IsTrusted :
      (key : Text) (document : Fields)
      → load_document py read instream event key ≡ returned (loaded document)
      → WhenReturned (IsTrusted key) (process_document py read instream event key document)
  process_document-IsTrusted key document read_ =
      if_ind (WhenReturned (IsTrusted key)) (not (is_true (source_url_of document)))
        (λ _. returns tt)
        (λ _.
          if_ind (WhenReturned (IsTrusted key))
            (is_true (get (codes "error") document)
              || not (is_success (get (codes "status_code") document or_json integer 200)))
            (λ _. returns tt)
            (λ _.
              WhenReturned-bind_with (with_self (load_source-HasEnd key document))
                (λ source (has_end, found_source).
                  unless_ended-IsTrusted key source _ has_end (λ stored e.
                    after_scan-IsTrusted key document stored
                      (read_, found_source ∙ ap returned e)))))

  process_page-WhenReturned :
      (key : Text) → WhenReturned (IsTrusted key) (process_page py read instream event key)
  unfolding process_page
  process_page-WhenReturned key =
      WhenReturned-bind_with (with_self (document_from-HasEnd key (read event.bucket key)))
        (λ document (has_end, found_document).
          unless_ended-IsTrusted key document _ has_end
            (λ fields e. process_document-IsTrusted key fields (found_document ∙ ap returned e)))

  -- A page that `process_page` transforms is of the document under its key and of the content that the
  -- document names: the first layer of the scan finds all bytes of that content safe under its name
  -- and ClamAV answers that they are clean, and the record is made of the content's text, with that
  -- verdict and the digest of those bytes. A page that it rejects had its content scanned and not
  -- accepted.
  pub process_page-IsTrusted :
      (key : Text) (result : PageResult)
      → process_page py read instream event key ≡ returned result
      → IsTrusted key result
  process_page-IsTrusted key result e = from_returns result (process_page-WhenReturned key) e
