-- ===== src/Etl/Transform.antt =====
-- ETL/spark/transform.py: the visible text of a page, its normal form, its language, and its record.
-- The events of HTMLParser, NFC, `str.lower`, `str.isalpha`, the matches of WORD_RE and SHA-256 are
-- fields of `Unicode`, which is Python's.
pub mod Fingerprint
pub mod Majority
pub mod Stored
mod Tests
use pgs_search_engine.Base.{
  ℕ, zero, suc, ◌+◌, ◌-◌, ◌*◌, ◌/◌, ◌%◌, ◌^◌, ◌≤◌, ◌<◌, min, max, ◌≡◌, refl, sym, ap, subst, ◌∙◌,
  ◌≢◌, ◌↔◌, ◌⊎◌, inl, inr, Bool, true, false, not, ◌&&◌, ◌||◌, Option, none, some, List, [], ◌∷◌,
  ◌++◌, map, arith, String, ⊤, ltb, leb, nat_beq, if◌then◌else◌, if_ind, ltb→lt, lt→ltb, leb→le,
  le→leb, nat_beq_iff, Bool-cases, Option-cases, PyEq, ◌==◌, nat_eq, beq_self, beq-ne, beq→eq,
  length, take, drop, keep, any, all, All, length-append, take-append-drop, length-take,
  length-drop, length-keep, length-map, elem, distinct, elem-append, elem-keep, find, update_if,
  count_if, find-some, All-keep, All-map, All-append, All-update_if, any_mono, length-update_if,
  length-keep-count,
}
use pgs_search_engine.Base.Text.{
  Text, text_eq, codes, is_empty, between, is_space, strip, strip_left, strip_right, put_back,
  is_blank, starts_with, ends_with, drop_end, words, join,
}

pub data MarkupEvent : Type 0 where
  start_tag start_end_tag end_tag data_run : Text → MarkupEvent

pub record Unicode : Type 0 where
  pub lower : Text → Text
  pub is_alpha : ℕ → Bool
  pub nfc : Text → Text
  -- The matches of `[\w\u0900-\u097f]+`, in order.
  pub find_words : Text → List Text
  -- What HTMLParser reports of a page.
  pub feed : Text → List MarkupEvent
  -- The bytes of a text, its SHA-256 in hexadecimal, and the last eight bytes of the SHA-256 of a
  -- text as a number.
  pub encode : Text → List ℕ
  pub sha256_hex : List ℕ → Text
  pub sha256_low64 : List ℕ → ℕ

abbrev pub skip_tags : List Text
skip_tags =
    codes "script"
    ∷ codes "style"
    ∷ codes "noscript"
    ∷ codes "template"
    ∷ codes "svg"
    ∷ codes "title"
    ∷ []

abbrev pub boilerplate_tags : List Text
boilerplate_tags = codes "nav" ∷ codes "header" ∷ codes "footer" ∷ codes "aside" ∷ []

abbrev pub block_tags : List Text
block_tags = map codes (
    "address" ∷ "article" ∷ "blockquote" ∷ "br" ∷ "caption" ∷ "dd" ∷ "div" ∷ "dl" ∷ "dt"
    ∷ "figcaption" ∷ "form" ∷ "h1" ∷ "h2" ∷ "h3" ∷ "h4" ∷ "h5" ∷ "h6" ∷ "hr" ∷ "li" ∷ "main" ∷ "ol"
    ∷ "option" ∷ "p" ∷ "pre" ∷ "section" ∷ "table" ∷ "td" ∷ "th" ∷ "tr" ∷ "ul" ∷ [])

abbrev pub min_main_content_words : ℕ
min_main_content_words = 40

pub record Extractor : Type 0 where
  pub all_parts : List Text
  pub main_parts : List Text
  pub skip_depth : ℕ
  pub boilerplate_depth : ℕ

abbrev pub new_extractor : Extractor
new_extractor = record { all_parts = []; main_parts = []; skip_depth = 0; boilerplate_depth = 0 }

-- `_separate`
unfoldable pub separate : Extractor → Extractor
separate x = record {
  all_parts = x.all_parts ++ (10 ∷ []) ∷ [];
  main_parts = x.main_parts ++ (10 ∷ []) ∷ [];
  skip_depth = x.skip_depth;
  boilerplate_depth = x.boilerplate_depth;
}

unfoldable pub separate_block : Text → Extractor → Extractor
unfolding separate
separate_block tag x = if elem tag block_tags then separate x else x

abbrev pub set_depths : ℕ → ℕ → Extractor → Extractor
set_depths skip boilerplate x = record {
  all_parts = x.all_parts;
  main_parts = x.main_parts;
  skip_depth = skip;
  boilerplate_depth = boilerplate;
}

unfoldable pub handle_starttag : (Text → Text) → Text → Extractor → Extractor
unfolding separate_block
handle_starttag lower raw x =
    let tag = lower raw in
    separate_block tag (
      if elem tag skip_tags
      then set_depths (suc x.skip_depth) x.boilerplate_depth x
      else if elem tag boilerplate_tags
      then set_depths x.skip_depth (suc x.boilerplate_depth) x
      else x)

unfoldable pub handle_startendtag : (Text → Text) → Text → Extractor → Extractor
unfolding separate_block
handle_startendtag lower raw x = separate_block (lower raw) x

-- A depth that is 0 stays there. A skipped tag at depth 0 is no boilerplate tag either.
unfoldable pub handle_endtag : (Text → Text) → Text → Extractor → Extractor
unfolding separate_block
handle_endtag lower raw x =
    let tag = lower raw in
    separate_block tag (
      if elem tag skip_tags && ltb 0 x.skip_depth
      then set_depths (x.skip_depth - 1) x.boilerplate_depth x
      else if elem tag boilerplate_tags && ltb 0 x.boilerplate_depth
      then set_depths x.skip_depth (x.boilerplate_depth - 1) x
      else x)

unfoldable pub handle_data : Text → Extractor → Extractor
handle_data text x = if ltb 0 x.skip_depth || is_blank text then x else record {
  all_parts = x.all_parts ++ text ∷ [];
  main_parts = if ltb 0 x.boilerplate_depth then x.main_parts else x.main_parts ++ text ∷ [];
  skip_depth = x.skip_depth;
  boilerplate_depth = x.boilerplate_depth;
}

-- HTMLParser's call of the method of an event.
unfoldable pub handle : (Text → Text) → MarkupEvent → Extractor → Extractor
unfolding handle_starttag handle_startendtag handle_endtag handle_data
handle lower (start_tag tag) x = handle_starttag lower tag x
handle lower (start_end_tag tag) x = handle_startendtag lower tag x
handle lower (end_tag tag) x = handle_endtag lower tag x
handle lower (data_run text) x = handle_data text x

unfoldable pub handle_all : (Text → Text) → List MarkupEvent → Extractor → Extractor
unfolding handle
handle_all lower [] x = x
handle_all lower (event ∷ events) x = handle_all lower events (handle lower event x)

-- CONTROL_RE
abbrev pub is_control : ℕ → Bool
is_control c = leb c 8 || (c == 11) || (c == 12) || between 14 31 c || between 0x7f 0x9f c

-- `CONTROL_RE.sub(" ", text)`
abbrev pub blank_controls : Text → Text
blank_controls [] = []
blank_controls (c ∷ s) = (if is_control c then 32 else c) ∷ blank_controls s

-- `SPACE_RE.sub(" ", text)`: the flag says that the run of white space has begun.
unfoldable pub collapse : Bool → Text → Text
collapse in_run [] = []
collapse in_run (c ∷ s) =
    let rest = collapse (is_space c) s in
    if is_space c then (if in_run then rest else 32 ∷ rest) else c ∷ rest

module _ (py : Unicode) where
  unfoldable pub normalize_text : Text → Text
  unfolding collapse strip
  normalize_text text = strip (collapse false (blank_controls (py.nfc text)))

  unfoldable pub tokenize : Text → List Text
  tokenize text = map py.lower (py.find_words text)

  unfoldable pub extract_html_text : Text → Text
  unfolding handle_all normalize_text tokenize
  extract_html_text raw_html =
      let parser = handle_all py.lower (py.feed raw_html) new_extractor in
      let main = normalize_text (join [] parser.main_parts) in
      if leb min_main_content_words (length (tokenize main))
      then main
      else normalize_text (join [] parser.all_parts)

pub data LanguageCode : Type 0 where
  ne en mixed unknown : LanguageCode

-- `x / letters >= 0.8`, in whole numbers.
abbrev pub dominates : ℕ → ℕ → Bool
dominates x letters = leb (8 * letters) (10 * x)

unfoldable pub language_of : ℕ → ℕ → LanguageCode
language_of devanagari latin =
    let letters = devanagari + latin in
    if letters == 0
    then unknown
    else if dominates devanagari letters
    then ne
    else if dominates latin letters
    then en
    else mixed

unfoldable pub detect_language : (ℕ → Bool) → Text → LanguageCode
unfolding language_of
detect_language is_alpha text =
    language_of (count_if (λ c. between 0x900 0x97f c && is_alpha c) text)
      (count_if (λ c. leb c 127 && is_alpha c) text)
