-- ===== src/Search/Pipeline.antt =====
-- `FinalSearchPipeline` of search-engine/src/pgs_search/pipeline.py: the checks of a request and the
-- stages of a search, the optional ones with their failures. What the stages call is an argument:
-- the query expansion, the translator, pgvector, OpenSearch, the reranker and its features, and the
-- clock. Times are milliseconds.
pub mod Results
use pgs_search_engine.Base.{
  ℕ, zero, suc, ◌+◌, ◌-◌, ◌*◌, ◌/◌, ◌%◌, ◌^◌, ◌≤◌, ◌<◌, min, max, ◌≡◌, refl, sym, ap, subst, ◌∙◌,
  ◌≢◌, ◌↔◌, ◌⊎◌, inl, inr, Bool, true, false, not, ◌&&◌, ◌||◌, Option, none, some, List, [], ◌∷◌,
  ◌++◌, map, arith, String, ⊤, ltb, leb, nat_beq, if◌then◌else◌, if_ind, ltb→lt, lt→ltb, leb→le,
  le→leb, nat_beq_iff, Bool-cases, Option-cases, PyEq, ◌==◌, nat_eq, beq_self, beq-ne, beq→eq,
  length, take, drop, keep, any, all, All, length-append, take-append-drop, length-take,
  length-drop, length-keep, length-map, elem, distinct, elem-append, elem-keep, find, update_if,
  count_if, find-some, All-keep, All-map, All-append, All-update_if, any_mono, length-update_if,
  length-keep-count,
}
use pgs_search_engine.Search.Hits.{Hit, Doc, hydrated_docs, normalize_bm25_hit}
use pgs_search_engine.Base.Text.{
  Text, text_eq, codes, is_empty, between, is_space, strip, strip_left, strip_right, put_back,
  is_blank, starts_with, ends_with, drop_end, words, join,
}
use pgs_search_engine.Base.Dict.{
  Dict, lookup, contains, insert, set_default, get_or, keys, lookup-insert, lookup-insert_self,
  contains-insert, contains-eq-elem, keys-insert,
}
use pgs_search_engine.Base.Int.{ℤ, pos, negsuc, positive}
use pgs_search_engine.Search.Fusion.{Floats, reciprocal_rank_fusion}
use pgs_search_engine.Search.Candidates.{
  sources, SearchInput, FilterValue, build_filter_clauses, Field, text, score, flag, Candidate,
  indexed, text_of, merge_candidate_data, PipelineHit, candidate_to_hit,
}

pub record Settings : Type 0 where
  pub max_query_chars : ℕ
  pub max_limit : ℕ
  pub max_result_window : ℕ
  pub candidate_pool : ℕ
  pub translation_enabled : Bool
  pub translation_wait : ℕ
  pub opensearch_timeout : ℕ
  pub rerank_enabled : Bool

pub record QueryExpansion : Type 0 where
  pub normalized : Text
  pub language : Text
  pub variants : List Text
  pub translation_failed : Bool

-- A stage's entry in `stages`: the texts `ok`, `skipped: ...` and `failed...`.
pub data Status : Type 0 where
  ok : Status
  skipped failed : Text → Status

abbrev pub Stages : Type 0
Stages = Dict Text Status

pub data SearchFailure : Type 0 where
  -- `InvalidSearchRequest`, `SearchTimeout`, `SearchBackendUnavailable`, and a `TransportError` that is
  -- raised again.
  invalid timeout unavailable rejected : SearchFailure
  -- The `KeyError` of an id, and an exception of the metadata request that `_merge` does not catch.
  key_error uncaught : SearchFailure

pub data Result (A : Type 0) : Type 0 where
  value : A → Result A
  raise : SearchFailure → Result A

infixl 5 ◌>>=◌
abbrev pub ◌>>=◌ : {A B : Type 0} → Result A → (A → Result B) → Result B
value a >>= f = f a
raise e >>= f = raise e

-- What a `future.result(timeout=wait)` gives.
pub data Translation : Type 0 where
  translated : Text → Bool → Translation
  too_slow raised : Translation

-- What OpenSearch answers to a search.
pub data Answer (A : Type 0) : Type 0 where
  hits : A → Answer A
  no_answer unreachable : Answer A
  status_code : ℕ → Answer A

-- What the request for metadata gives: documents, an exception that `_merge` catches, or another.
pub data Metadata (A : Type 0) : Type 0 where
  documents : A → Metadata A
  not_loaded raises : Metadata A

pub record Clock : Type 0 where
  pub deadline : Option ℕ
  -- The readings of `time.monotonic()` before the dense stage, the wait, and BM25.
  pub at_dense : ℕ
  pub at_translation : ℕ
  pub at_bm25 : ℕ

module _ (fl : Floats) where
  -- `none` is a stage that raises, or one that is not configured.
  pub record Engine : Type 0 where
    pub config : Settings
    pub lower : Text → Text
    pub expand : Text → QueryExpansion
    pub translator : Option (Text → Text → ℕ → Translation)
    pub dense_search : Option (Text → SearchInput → ℕ → Option (List (Candidate fl)))
    pub opensearch : List Text → ℕ → List (Text × FilterValue) → ℕ → Answer (List (Hit fl))
    pub mget : List Text → Metadata (List (Doc fl))
    pub features : SearchInput → QueryExpansion → Candidate fl → Candidate fl
    pub reranker : Option (List (Candidate fl) → ℕ → Option (List (Candidate fl)))

  pub record PipelineOutput : Type 0 where
    pub total_hits : ℕ
    pub results : List (PipelineHit fl)
    pub query_language : Text
    pub degraded : Bool
    pub stages : Stages

abbrev pub max_variants : ℕ
max_variants = 4

abbrev pub is_empty_list : List Text → Bool
is_empty_list [] = true
is_empty_list (_ ∷ _) = false

-- `list(dict.fromkeys(xs))`
abbrev pub from_keys : List Text → List Text → List Text
from_keys seen [] = []
from_keys seen (x ∷ xs) = if elem x seen then from_keys seen xs else x ∷ from_keys (x ∷ seen) xs

unfoldable pub validate : Settings → SearchInput → Result ℕ
validate config input =
    let query = strip input.query in
    let page = positive input.page in
    let limit = positive input.limit in
    if is_empty query
    then raise invalid
    else if ltb config.max_query_chars (length query)
    then raise invalid
    else if ltb page 1 || not (leb 1 limit && leb limit config.max_limit)
    then raise invalid
    else if ltb config.max_result_window (page * limit)
    then raise invalid
    else value (page * limit)

-- `_remaining`: the time for OpenSearch.
unfoldable pub remaining : Settings → Option ℕ → ℕ → Result ℕ
remaining config none now = value config.opensearch_timeout
remaining config (some deadline) now =
    if leb deadline now
    then raise timeout
    else value (min config.opensearch_timeout (deadline - now))

module _ (fl : Floats) (engine : Engine fl) where
  -- Whether a translation is under way.
  unfoldable pub start_translation : QueryExpansion → Option (Text → Text → ℕ → Translation)
  start_translation expansion = elim engine.translator [
    | none ↦ none
    | some translate ↦
        if not engine.config.translation_enabled
        then none
        else if not (elem expansion.language (codes "en" ∷ codes "ne" ∷ []))
        then none
        else some translate
  ]

  -- `min(wait, max(deadline - now, 0.0))`
  abbrev pub wait_budget : Clock → ℕ
  wait_budget clock = elim clock.deadline [
    | none ↦ engine.config.translation_wait
    | some deadline ↦ min engine.config.translation_wait (deadline - clock.at_translation)
  ]

  abbrev pub note : Text → Status → Stages → Stages
  note stage status stages = insert stage status stages

  abbrev pub add_variant : Text → QueryExpansion → QueryExpansion
  add_variant answer expansion = record expansion {
    variants = take max_variants (from_keys [] (expansion.variants ++ answer ∷ []));
  }

  unfoldable pub finish_translation :
      Text → QueryExpansion → Clock → Stages → QueryExpansion × Stages
  unfolding start_translation
  finish_translation query expansion clock stages = elim (start_translation expansion) [
    | none ↦ (
      expansion,
      note (codes "translation")
          (elim engine.translator [
            | none ↦ if expansion.translation_failed then failed [] else ok
            | some _ ↦ skipped (codes "not applicable")
          ])
          stages,
    )
    | some translate ↦ elim (translate query expansion.language (wait_budget clock)) [
      | too_slow ↦ (expansion, note (codes "translation") (skipped (codes "too slow")) stages)
      | raised ↦ (expansion, note (codes "translation") (failed []) stages)
      | translated answer bad ↦ (
        if is_empty answer then expansion else add_variant answer expansion,
        note (codes "translation") (if bad then failed [] else ok) stages,
      )
    ]
  ]

  -- `deadline - time.monotonic() < MIN_SECONDS_FOR_DENSE`
  abbrev pub too_late : Clock → Bool
  too_late clock = elim clock.deadline [
    | none ↦ false
    | some deadline ↦ ltb deadline (clock.at_dense + 500)
  ]

  unfoldable pub dense : Text → SearchInput → ℕ → Clock → Stages → List (Candidate fl) × Stages
  dense query input size clock stages = elim engine.dense_search [
    | none ↦ ([], note (codes "dense") (skipped (codes "not configured")) stages)
    | some search_dense ↦
        if too_late clock
        then ([], note (codes "dense") (failed (codes "no time left")) stages)
        else elim (search_dense query input size) [
          | none ↦ ([], note (codes "dense") (failed (codes "exception")) stages)
          | some results ↦ (
            map (insert (codes "retrieval_sources") (sources (codes "dense" ∷ []))) results,
            note (codes "dense") ok stages,
          )
        ]
  ]

  -- `search_bm25`: variants that are blank are not sent.
  unfoldable pub search_bm25 :
      List Text → ℕ → List (Text × FilterValue) → ℕ → Answer (List (Hit fl))
  search_bm25 variants size filters time =
      let sent = keep (λ v. not (is_blank v)) variants in
      if is_empty_list sent || ltb size 1 then hits [] else engine.opensearch sent size filters time

  unfoldable pub bm25 : List Text → ℕ → List (Text × FilterValue) → Clock → Result (List (Hit fl))
  unfolding remaining search_bm25
  bm25 variants size filters clock = do
    time ← remaining engine.config clock.deadline clock.at_bm25
    elim (search_bm25 variants size filters time) [
      | hits found ↦ value found
      | no_answer ↦ raise timeout
      | unreachable ↦ raise unavailable
      | status_code status ↦ if leb 500 status then raise unavailable else raise rejected
    ]

  abbrev pub document_id : Candidate fl → Text
  document_id candidate = text_of fl (codes "document_id") candidate

  abbrev pub candidate_at : Text → Dict Text (Candidate fl) → Candidate fl
  candidate_at id by_id = get_or id [] by_id

  -- `merge_candidate_data(by_id.setdefault(id, {}), candidate)`
  abbrev pub collect : List (Candidate fl) → Dict Text (Candidate fl) → Dict Text (Candidate fl)
  collect [] by_id = by_id
  collect (candidate ∷ candidates) by_id =
      let id = document_id candidate in
      collect candidates
        (insert id (merge_candidate_data fl (candidate_at id by_id) candidate) by_id)

  -- `by_id[document_id]` is a `KeyError` for an id that was not collected.
  abbrev pub add_metadata :
      Dict Text (Candidate fl) → Dict Text (Candidate fl) → Result (Dict Text (Candidate fl))
  add_metadata [] by_id = value by_id
  add_metadata ((id, metadata) ∷ hydrated) by_id =
      let rest =
        add_metadata hydrated
          (insert id (merge_candidate_data fl (candidate_at id by_id) metadata) by_id) in
      if contains id by_id then rest else raise key_error

  abbrev pub missing_ids : List (Text × fl.Score) → Dict Text (Candidate fl) → List Text
  missing_ids [] by_id = []
  missing_ids ((id, _) ∷ fused) by_id =
      let rest = missing_ids fused by_id in
      if indexed fl (candidate_at id by_id) then rest else id ∷ rest

  -- `hydrate_candidates` and the merge of what it gives; without an id to ask for there is no request.
  abbrev pub hydrate_ids :
      List Text → Dict Text (Candidate fl) → Stages → Result (Dict Text (Candidate fl) × Stages)
  hydrate_ids [] by_id stages = value (by_id, stages)
  hydrate_ids (id ∷ ids) by_id stages = elim (engine.mget (id ∷ ids)) [
    | not_loaded ↦ value (by_id, note (codes "hydrate") (failed (codes "exception")) stages)
    | raises ↦ raise uncaught
    | documents docs ↦
        add_metadata (hydrated_docs fl docs []) by_id >>= λ whole. value (whole, stages)
  ]

  unfoldable pub hydrate :
      List Text → Dict Text (Candidate fl) → Stages → Result (Dict Text (Candidate fl) × Stages)
  hydrate missing by_id stages =
      hydrate_ids (from_keys [] (keep (λ id. not (is_empty id)) missing)) by_id stages

  -- The last loop of `_merge`: pages that are not in the index are left out.
  unfoldable pub keep_indexed :
      List (Text × fl.Score) → Dict Text (Candidate fl) → List (Candidate fl)
  keep_indexed [] by_id = []
  keep_indexed ((id, fusion_score) ∷ fused) by_id =
      let rest = keep_indexed fused by_id in
      let candidate = candidate_at id by_id in
      if indexed fl candidate
      then insert (codes "fusion_score") (score fusion_score) candidate ∷ rest
      else rest

  unfoldable pub merge :
      List (Text × fl.Score)
      → List (Candidate fl)
      → List (Candidate fl)
      → Stages
      → Result (List (Candidate fl) × Stages)
  unfolding hydrate keep_indexed
  merge fused from_bm25 from_dense stages =
      let by_id = collect (from_bm25 ++ from_dense) [] in
      hydrate (missing_ids fused by_id) by_id stages >>= λ (whole, stages2).
      value (keep_indexed fused whole, stages2)

  unfoldable pub rerank : List (Candidate fl) → Stages → List (Candidate fl) × Stages
  rerank [] stages = ([], stages)
  rerank (c ∷ candidates) stages =
      let all_of = c ∷ candidates in
      let disabled : List (Candidate fl) × Stages =
        (all_of, note (codes "rerank") (skipped (codes "disabled")) stages) in
      elim engine.reranker [
        | none ↦ disabled
        | some order ↦
            if not engine.config.rerank_enabled
            then disabled
            else elim (order all_of (length all_of)) [
              | none ↦ (all_of, note (codes "rerank") (failed (codes "exception")) stages)
              | some ranked ↦ (ranked, note (codes "rerank") ok stages)
            ]
      ]

  abbrev pub is_failed : Text × Status → Bool
  is_failed (_, failed _) = true
  is_failed _ = false

  abbrev pub pool_size : ℕ → ℕ
  pool_size window = min (max window engine.config.candidate_pool) engine.config.max_result_window

  -- The features, the reranker, and the page of the request.
  abbrev pub page_of :
      SearchInput → QueryExpansion → List (Candidate fl) × Stages → PipelineOutput fl
  page_of input expansion (candidates, stages) =
      let (ranked, stages2) = rerank (map (engine.features input expansion) candidates) stages in
      let page = positive input.page in
      let limit = positive input.limit in
      record {
        total_hits = length ranked;
        results = map (candidate_to_hit fl) (take limit (drop ((page - 1) * limit) ranked));
        query_language = expansion.language;
        degraded = any is_failed stages2;
        stages = stages2;
      }

  abbrev pub has_id : Candidate fl → Bool
  has_id candidate = contains (codes "document_id") candidate

  -- The stages after BM25. The fusion reads `document_id` of every result.
  unfoldable pub rank_and_page :
      SearchInput
      → ℕ
      → QueryExpansion
      → List (Candidate fl)
      → List (Candidate fl)
      → Stages
      → Result (PipelineOutput fl)
  unfolding merge rerank
  rank_and_page input pool expansion from_bm25 from_dense stages =
      if all has_id (from_bm25 ++ from_dense)
      then merge
          (take pool (
            reciprocal_rank_fusion fl 60
              (map document_id from_bm25 ∷ map document_id from_dense ∷ [])))
          from_bm25 from_dense stages
        >>= (λ merged. value (page_of input expansion merged))
      else raise key_error

  -- A search whose expansion is `first`.
  unfoldable pub run_stages : SearchInput → ℕ → QueryExpansion → Clock → Result (PipelineOutput fl)
  unfolding dense finish_translation bm25 rank_and_page
  run_stages input pool first clock =
      let (from_dense, stages1) = dense first.normalized input pool clock [] in
      let (expansion, stages2) = finish_translation input.query first clock stages1 in
      bm25 expansion.variants pool (build_filter_clauses engine.lower input) clock >>= λ found.
      rank_and_page input pool expansion (map (normalize_bm25_hit fl) found) from_dense
        (note (codes "bm25") ok stages2)

  unfoldable pub search : SearchInput → Clock → Result (PipelineOutput fl)
  unfolding validate run_stages
  search input clock = validate engine.config input >>= λ window.
      let first = engine.expand input.query in
      if is_empty first.normalized
      then raise invalid
      else run_stages input (pool_size window) first clock
