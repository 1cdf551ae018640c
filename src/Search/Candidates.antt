-- ===== src/Search/Candidates.antt =====
-- A candidate of search-engine/src/pgs_search/pipeline.py: a dict from field names to values, what
-- the request's filters are, and how the data of several sources become one candidate.
use pgs_search_engine.Base.Int.{ℤ, positive}
use pgs_search_engine.Base.{
  ℕ, ◌-◌, Bool, true, false, not, ◌&&◌, Option, none, some, List, [], ◌∷◌, ◌++◌, leb, if◌then◌else◌,
  ◌==◌, nat_eq, length, take, elem,
}
use pgs_search_engine.Base.Text.{
  is_space, Text, text_eq, codes, is_empty, strip, strip_right, words, join,
}
use pgs_search_engine.Base.Dict.{Dict, lookup, contains, insert}
use pgs_search_engine.Search.Fusion.{Floats}

pub record SearchInput : Type 0 where
  pub query : Text
  pub province_code : Text
  pub district_code : Text
  pub municipality_id : Text
  pub ward_number : ℤ
  pub content_type : Text
  pub language : Text
  pub page : ℤ
  pub limit : ℤ

pub data FilterValue : Type 0 where
  code : Text → FilterValue
  ward : ℕ → FilterValue

module _ (lower : Text → Text) where
  -- `value.lower() in ALL_SENTINELS`
  abbrev pub is_sentinel : Text → Bool
  is_sentinel value = elem (lower value) (codes "" ∷ codes "all" ∷ codes "auto" ∷ [])

  unfoldable pub active : Text → Text
  active value = if is_sentinel (strip value) then [] else strip value

-- One round of the loop over the three codes.
abbrev pub constrain : Text → Text → Dict Text FilterValue → Dict Text FilterValue
constrain name value constraints =
    if is_empty (strip value) then constraints else insert name (code (strip value)) constraints

unfoldable pub geo_constraints : SearchInput → Dict Text FilterValue
geo_constraints input =
    let codes_of = constrain (codes "municipality_id") input.municipality_id (
      constrain (codes "district_code") input.district_code
        (constrain (codes "province_code") input.province_code [])) in
    if leb 1 (positive input.ward_number)
    then insert (codes "ward_number") (ward (positive input.ward_number)) codes_of
    else codes_of

-- A `term` filter on a field.
abbrev pub geo_terms : Dict Text FilterValue → List (Text × FilterValue)
geo_terms [] = []
geo_terms ((name, value) ∷ constraints) = (codes "geo_tags." ++ name, value) ∷ geo_terms constraints

module _ (lower : Text → Text) where
  unfoldable pub build_filter_clauses : SearchInput → List (Text × FilterValue)
  unfolding geo_constraints active
  build_filter_clauses input =
      let content_type = active lower input.content_type in
      let language = active lower input.language in
      geo_terms (geo_constraints input)
      ++ (if is_empty content_type then [] else (codes "content_type", code content_type) ∷ [])
      ++ (if is_empty language then [] else (codes "language", code (lower language)) ∷ [])

module _ (fl : Floats) where
  pub data Field : Type 0 where
    none_value : Field
    text : Text → Field
    score : fl.Score → Field
    number : ℕ → Field
    flag : Bool → Field
    texts : List Text → Field
    sources : List Text → Field
    mapping : List (Text × Text) → Field

  abbrev pub Candidate : Type 0
  Candidate = Dict Text Field

  -- `value in (None, "", [], {})`
  abbrev pub is_blank_value : Field → Bool
  is_blank_value none_value = true
  is_blank_value (text s) = is_empty s
  is_blank_value (texts []) = true
  is_blank_value (mapping []) = true
  is_blank_value _ = false

  abbrev pub is_missing : Text → Candidate → Bool
  is_missing key candidate = elim (lookup key candidate) [
    | none ↦ true
    | some value ↦ is_blank_value value
  ]

  -- `candidate.get("indexed")`, which only the index's own data set.
  abbrev pub indexed : Candidate → Bool
  indexed candidate = elim (lookup (codes "indexed") candidate) [ some (flag b) ↦ b | _ ↦ false ]

  abbrev pub score_keys : List Text
  score_keys =
      codes "bm25_score" ∷ codes "vector_score" ∷ codes "fusion_score" ∷ codes "rerank_score" ∷ []

  -- `_safe_float`, on what a score field holds.
  abbrev pub safe_float : Option Field → fl.Score
  safe_float (some (score s)) = s
  safe_float _ = fl.zero_score

  -- `max`: its first argument, unless the second is greater.
  abbrev pub max_score : fl.Score → fl.Score → fl.Score
  max_score x y = if fl.less x y then y else x

  abbrev pub add_source : List Text → List Text → List Text
  add_source found [] = found
  add_source found (s ∷ names) = add_source (if elem s found then found else found ++ s ∷ []) names

  abbrev pub sources_of : Option Field → List Text
  sources_of (some (sources names)) = names
  sources_of _ = []

  abbrev pub merge_field : Text → Field → Candidate → Candidate
  merge_field key value target =
      if key == codes "retrieval_sources"
      then insert key
          (sources (add_source (sources_of (lookup key target)) (sources_of (some value)))) target
      else if elem key score_keys
      then insert key (score (max_score (safe_float (lookup key target)) (safe_float (some value))))
          target
      else if not (is_blank_value value) && is_missing key target
      then insert key value target
      else target

  unfoldable pub merge_candidate_data : Candidate → Candidate → Candidate
  merge_candidate_data target [] = target
  merge_candidate_data target ((key, value) ∷ incoming) =
      merge_candidate_data (merge_field key value target) incoming

  abbrev pub text_of : Text → Candidate → Text
  text_of key candidate = elim (lookup key candidate) [ some (text s) ↦ s | _ ↦ [] ]

  -- `value or other`
  abbrev pub or_text : Text → Text → Text
  or_text value other = if is_empty value then other else value

  unfoldable pub shorten : ℕ → Text → Text
  shorten limit value =
      let line = join (codes " ") (words value) in
      if leb (length line) limit
      then line
      else strip_right is_space (take (limit - 3) line) ++ codes "..."

  unfoldable pub relevance : Candidate → fl.Score
  relevance candidate =
      first_of (
        codes "rerank_score"
        ∷ codes "fusion_score"
        ∷ codes "bm25_score"
        ∷ codes "vector_score"
        ∷ [])
    where
      first_of : List Text → fl.Score
      first_of [] = fl.zero_score
      first_of (key ∷ names) =
          let rest = first_of names in
          if contains key candidate then safe_float (lookup key candidate) else rest

  pub record PipelineHit : Type 0 where
    pub id : Text
    pub result_type : Text
    pub title : Text
    pub url : Text
    pub domain : Text
    pub snippet : Text
    pub relevance_score : fl.Score
    pub language : Text
    pub published_at : Text

  -- The hit without its file size and place names.
  unfoldable pub candidate_to_hit : Candidate → PipelineHit
  unfolding shorten relevance
  candidate_to_hit c =
      let snippet =
        or_text (text_of (codes "highlight") c)
          (or_text (text_of (codes "description") c) (shorten 240 (text_of (codes "summary") c))) in
      record {
        id = text_of (codes "document_id") c;
        result_type = or_text (text_of (codes "content_type") c) (codes "web_page");
        title = or_text (text_of (codes "title") c) (text_of (codes "source_url") c);
        url = text_of (codes "source_url") c;
        domain = text_of (codes "domain") c;
        snippet = shorten 240 snippet;
        relevance_score = relevance c;
        language = text_of (codes "language") c;
        published_at = text_of (codes "published_at") c;
      }
