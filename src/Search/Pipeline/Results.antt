-- ===== src/Search/Pipeline/Results.antt =====
-- search-engine/src/pgs_search/pipeline.py: the results of `search`, and the error paths of its stages.
use pgs_search_engine.Base.{
  ℕ, ◌-◌, ◌*◌, ◌≤◌, ◌≡◌, refl, subst, ◌↔◌, inl, inr, Bool, true, false, Option, none, some, List,
  [], ◌∷◌, ◌++◌, map, arith, ltb, Bool-cases, Option-cases, nat_eq, length, take, drop, all, All,
  length-take, length-map,
}
use pgs_search_engine.Search.Pipeline.{
  keep_indexed, missing_ids, collect, Result, raise, key_error, uncaught, page_of, has_id, ◌>>=◌,
  Status, dense, finish_translation, document_id, Settings, QueryExpansion, Stages, value, Clock,
  Engine, PipelineOutput, validate, bm25, merge, hydrate, rerank, rank_and_page, pool_size,
  run_stages, search, candidate_at,
}
use pgs_search_engine.Base.Dict.{Dict, insert, lookup-insert}
use pgs_search_engine.Search.Hits.{normalize_bm25_hit}
use pgs_search_engine.Search.Candidates.{
  SearchInput, build_filter_clauses, score, Candidate, indexed, candidate_to_hit,
}
use pgs_search_engine.Base.Text.{Text, text_eq, codes, is_empty, strip}
use pgs_search_engine.Base.Int.{positive}
use pgs_search_engine.Search.Fusion.{Floats, reciprocal_rank_fusion}

-- A request passes exactly if its query has characters, but not too many, its page and its limit are
-- in their ranges, and the window does not reach too deep; then the window is page * limit.
pub validate_lem :
    (config : Settings) (input : SearchInput) (window : ℕ)
    → (validate config input ≡ value window) ↔ (
        (is_empty (strip input.query) ≡ false)
        × (length (strip input.query) ≤ config.max_query_chars)
        × (1 ≤ positive input.page)
        × (1 ≤ positive input.limit)
        × (positive input.limit ≤ config.max_limit)
        × (window ≡ positive input.page * positive input.limit)
        × (window ≤ config.max_result_window))
unfolding validate
validate_lem config input window = (
  λ e. ground arith,
  λ h. let (some_text, not_long, page, limit, small, same, shallow) = h in ground arith,
)

bind-value :
    {A B : Type 0} (m : Result A) (f : A → Result B) (b : B)
    → (m >>= f) ≡ value b
    → (a : A) × (m ≡ value a) × (f a ≡ value b)
bind-value (value a) f b e = (a, refl, e)
bind-value (raise x) f b e = absurd (ground arith)

-- An answer, or a failure of the ids and metadata of the results.
abbrev pub IsAnswered : {A : Type 0} → Result A → Type 0
IsAnswered (value _) = Unit
IsAnswered (raise key_error) = Unit
IsAnswered (raise uncaught) = Unit
IsAnswered (raise _) = ⊥

-- BM25 starts before the deadline.
abbrev pub has_time : Clock → Bool
has_time clock = elim clock.deadline [ none ↦ true | some deadline ↦ ltb clock.at_bm25 deadline ]

module _ (fl : Floats) (engine : Engine fl) where
  length-keep_indexed :
      (fused : List (Text × fl.Score)) (by_id : Dict Text (Candidate fl))
      → length (keep_indexed fl engine fused by_id) ≤ length fused
  unfolding keep_indexed
  length-keep_indexed [] by_id = omega arith
  length-keep_indexed ((id, s) ∷ fused) by_id = ground (arith, length-keep_indexed fused by_id)

  indexed-insert_score :
      (s : fl.Score) (c : Candidate fl)
      → indexed fl (insert (codes "fusion_score") (score s) c) ≡ indexed fl c
  indexed-insert_score s c =
      ground (arith, lookup-insert (codes "indexed") (codes "fusion_score") (score s) c)

  keep_indexed-All :
      (fused : List (Text × fl.Score)) (by_id : Dict Text (Candidate fl))
      → All (λ c. indexed fl c ≡ true) (keep_indexed fl engine fused by_id)
  unfolding keep_indexed
  keep_indexed-All [] by_id = tt
  keep_indexed-All ((id, s) ∷ fused) by_id = ground (
    arith,
    keep_indexed-All fused by_id,
    indexed-insert_score s (candidate_at fl engine id by_id),
  )

  abbrev IsKept : List (Text × fl.Score) → Result (List (Candidate fl) × Stages) → Type 0
  IsKept fused (value (candidates, _)) =
      All (λ c. indexed fl c ≡ true) candidates × (length candidates ≤ length fused)
  IsKept fused (raise _) = Unit

  -- What `_merge` hands on is in the index, and is no more than what was fused.
  pub merge_lem :
      (fused : List (Text × fl.Score)) (from_bm25 from_dense : List (Candidate fl))
      (stages : Stages) (merged : List (Candidate fl) × Stages)
      → merge fl engine fused from_bm25 from_dense stages ≡ value merged
      → All (λ c. indexed fl c ≡ true) merged.0 × (length merged.0 ≤ length fused)
  unfolding merge
  merge_lem fused from_bm25 from_dense stages merged e =
      let by_id = collect fl engine (from_bm25 ++ from_dense) [] in
      let ((whole, later), hydrated, kept) =
        bind-value (hydrate fl engine (missing_ids fl engine fused by_id) by_id stages) _ merged
          e in
      subst (λ (m : Result (List (Candidate fl) × Stages)). IsKept fused m) kept
        (keep_indexed-All fused whole, length-keep_indexed fused whole)

  -- What the pipeline relies on of its reranker: `reranker(candidates, n)` gives at most `n`.
  abbrev pub KeepsTop : Type 0
  KeepsTop =
      (order : List (Candidate fl) → ℕ → Option (List (Candidate fl)))
      (cs ranked : List (Candidate fl)) (n : ℕ)
      → engine.reranker ≡ some order
      → order cs n ≡ some ranked
      → length ranked ≤ n

  length-rerank :
      (candidates : List (Candidate fl)) (stages : Stages)
      → KeepsTop
      → length (rerank fl engine candidates stages).0 ≤ length candidates
  unfolding rerank
  length-rerank [] stages h = omega arith
  length-rerank (c ∷ candidates) stages h = elim (Option-cases engine.reranker) [
    | inl nothing ↦ ground arith
    | inr (order, set) ↦ elim (Option-cases (order (c ∷ candidates) (length (c ∷ candidates)))) [
      | inl broken ↦ ground arith
      | inr (ranked, done) ↦
          ground (arith, h order (c ∷ candidates) ranked (length (c ∷ candidates)) set done)
    ]
  ]

  page_of-le :
      (input : SearchInput) (pool : ℕ) (expansion : QueryExpansion)
      (merged : List (Candidate fl) × Stages)
      → KeepsTop
      → length merged.0 ≤ pool
      → let out = page_of fl engine input expansion merged in
        (out.total_hits ≤ pool) × (length out.results ≤ positive input.limit)
  page_of-le input pool expansion (candidates, stages) keeps few =
      let featured = map (engine.features input expansion) candidates in
      let ranked = (rerank fl engine featured stages).0 in
      let page = drop ((positive input.page - 1) * positive input.limit) ranked in
      (
        omega (
          arith,
          length-rerank featured stages keeps,
          length-map (engine.features input expansion) candidates,
        ),
        omega (
          arith,
          length-map (candidate_to_hit fl) (take (positive input.limit) page),
          length-take (positive input.limit) page,
        ),
      )

  value-same : {A : Type 0} {a b : A} → ◌≡◌ {A = Result A} (value a) (value b) → a ≡ b
  value-same {A} {a} {b} e = cc

  total_hits-le :
      (input : SearchInput) (pool : ℕ) (expansion : QueryExpansion)
      (from_bm25 from_dense : List (Candidate fl)) (stages : Stages) (out : PipelineOutput fl)
      → KeepsTop
      → rank_and_page fl engine input pool expansion from_bm25 from_dense stages ≡ value out
      → (out.total_hits ≤ pool) × (length out.results ≤ positive input.limit)
  unfolding rank_and_page
  total_hits-le input pool expansion from_bm25 from_dense stages out keeps e =
      elim (Bool-cases (all (has_id fl engine) (from_bm25 ++ from_dense))) [
        | inr nameless ↦ absurd (ground arith)
        | inl named ↦
            let fusion = reciprocal_rank_fusion fl 60 (
              map (document_id fl engine) from_bm25
              ∷ map (document_id fl engine) from_dense
              ∷ []) in
            let (merged, done, paged) =
              bind-value (merge fl engine (take pool fusion) from_bm25 from_dense stages)
                (λ m. value (page_of fl engine input expansion m)) out (ground arith) in
            let kept = merge_lem (take pool fusion) from_bm25 from_dense stages merged done in
            subst
              (λ (o : PipelineOutput fl).
                (o.total_hits ≤ pool) × (length o.results ≤ positive input.limit))
              (value-same paged)
              (page_of-le input pool expansion merged keeps
                (omega (arith, kept.1, length-take pool fusion)))
      ]

  run_stages-value :
      (input : SearchInput) (pool : ℕ) (first : QueryExpansion) (clock : Clock)
      (out : PipelineOutput fl)
      → run_stages fl engine input pool first clock ≡ value out
      → KeepsTop
      → (out.total_hits ≤ pool) × (length out.results ≤ positive input.limit)
  unfolding run_stages
  run_stages-value input pool first clock out e keeps =
      let (from_dense, stages1) = dense fl engine first.normalized input pool clock [] in
      let (expansion, stages2) = finish_translation fl engine input.query first clock stages1 in
      let (from_bm25, found, paged) =
        bind-value
          (bm25 fl engine expansion.variants pool (build_filter_clauses engine.lower input) clock) _
          out e in
      total_hits-le input pool expansion (map (normalize_bm25_hit fl) from_bm25) from_dense
        (insert (codes "bm25") Status.ok stages2) out keeps paged

  -- A search that answers gives a page of at most `limit` hits, no more than the server allows, out of
  -- no more hits than the result window. The reranker keeps to the number it is asked for.
  pub search-bounds :
      (input : SearchInput) (clock : Clock) (out : PipelineOutput fl)
      → search fl engine input clock ≡ value out
      → KeepsTop
      → (length out.results ≤ positive input.limit)
        × (positive input.limit ≤ engine.config.max_limit)
        × (out.total_hits ≤ engine.config.max_result_window)
  unfolding search
  search-bounds input clock out e keeps =
      let (window, valid, rest) = bind-value (validate engine.config input) _ out e in
      let (nonempty, short, from_one, some_limit, small, same, shallow) =
        (validate_lem engine.config input window).0 valid in
      let first = engine.expand input.query in
      let run : run_stages fl engine input (pool_size fl engine window) first clock ≡ value out =
        ground arith in
      let (few, page) =
        run_stages-value input (pool_size fl engine window) first clock out run keeps in
      (page, small, omega arith)
