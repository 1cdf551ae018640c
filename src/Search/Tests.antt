-- ===== src/Search/Tests.antt =====
-- The search at whole-number scores and small indexes.
use pgs_search_engine.Search.Hits.{hydrated_docs, normalize_bm25_hit, Hit}
use pgs_search_engine.Search.Fusion.{
  reciprocal_rank_fusion, Floats, better, total_credit, reciprocal_rank_fusion_lem,
}
use pgs_search_engine.Search.Candidates.{
  merge_candidate_data, score, text_of, SearchInput, text, flag, Candidate,
}
use pgs_search_engine.Search.Pipeline.{
  key_error, Result, value, raise, not_loaded, documents, Settings, Clock, Engine, PipelineOutput,
  hits, search,
}
use pgs_search_engine.Base.{
  ℕ, ◌+◌, ◌/◌, ◌≤◌, min, ◌≡◌, refl, ap, ◌∙◌, true, false, Option, none, some, List, [], ◌∷◌, ◌++◌,
  map, arith, ltb, nat_eq, length,
}
use pgs_search_engine.Search.Pipeline.Results.{KeepsTop, search-bounds}
use mathlib.Core.List.{Perm}
use pgs_search_engine.Search.Rerank.{IsScored, rerank_results, ranked_before, rerank_results_lem}
use pgs_search_engine.Base.Dict.{lookup, insert}
use pgs_search_engine.Base.Text.{Text, text_eq, codes, strip}
use pgs_search_engine.Base.Distinct.{once}
use pgs_search_engine.Base.Sort.{IsOrder, IsSorted}
use pgs_search_engine.Base.Int.{pos}

-- Scores in thousandths.
abbrev thousandths : Floats
thousandths = record {
  Score = ℕ;
  zero_score = 0;
  add = λ x y. x + y;
  recip = λ n. 1000 / n;
  less = λ x y. ltb x y;
}

thousandths-IsOrder : IsOrder (better thousandths 60)
thousandths-IsOrder = record {
  asymmetric = λ x y h. ground arith;
  not_before_trans = λ x y z h k. ground arith;
}

abbrev two_lists : List (List Text)
two_lists = (codes "a" ∷ codes "b" ∷ codes "a" ∷ []) ∷ (codes "c" ∷ codes "a" ∷ []) ∷ []

-- `a` is counted once per list, and stands first.
fused_ids :
    map (λ (e : Text × ℕ). e.0) (reciprocal_rank_fusion thousandths 60 two_lists)
    ≡ codes "a" ∷ codes "b" ∷ codes "c" ∷ []
unfolding reciprocal_rank_fusion
fused_ids = refl

reciprocal_rank_fusion_lem_example :
    let fused = reciprocal_rank_fusion thousandths 60 two_lists in
    (once (λ (e : Text × ℕ). e.0) fused ≡ true)
    × (lookup (codes "a") fused ≡ total_credit thousandths 60 (codes "a") two_lists none)
    × IsSorted (better thousandths 60) fused
reciprocal_rank_fusion_lem_example =
    reciprocal_rank_fusion_lem thousandths 60 two_lists (codes "a") thousandths-IsOrder

abbrev settings : Settings
settings = record {
  max_query_chars = 50;
  max_limit = 5;
  max_result_window = 20;
  candidate_pool = 10;
  translation_enabled = true;
  translation_wait = 100;
  opensearch_timeout = 3000;
  rerank_enabled = true;
}

abbrev input : SearchInput
input = record {
  query = codes " ward ";
  province_code = [];
  district_code = [];
  municipality_id = [];
  ward_number = pos 0;
  content_type = [];
  language = [];
  page = pos 1;
  limit = pos 2;
}

abbrev page_of : Text → Candidate thousandths
page_of id = (codes "document_id", text id) ∷ (codes "indexed", flag true) ∷ []

abbrev hit_of : Text → Hit thousandths
hit_of id = record { hit_id = id; source = []; fragment = none; hit_score = 5 }

-- A page that pgvector has and the index does not.
abbrev stale_page : Text → Candidate thousandths
stale_page id = (codes "document_id", text id) ∷ []

-- Everything optional fails: the dense search, the metadata, and the reranker.
abbrev engine : Engine thousandths
engine = record {
  config = settings;
  lower = λ s. s;
  expand = λ query. record {
    normalized = strip query;
    language = codes "en";
    variants = strip query ∷ [];
    translation_failed = false;
  };
  translator = none;
  dense_search = some (λ query input size. none);
  opensearch = λ variants size filters time.
      hits (hit_of (codes "a") ∷ hit_of (codes "b") ∷ hit_of (codes "c") ∷ []);
  mget = λ ids. not_loaded;
  features = λ input expansion candidate. candidate;
  reranker = some (λ candidates n. none);
}

abbrev clock : Clock
clock = record { deadline = some 2000; at_dense = 100; at_translation = 200; at_bm25 = 300 }

abbrev no_output : PipelineOutput thousandths
no_output = record {
  total_hits = 0;
  results = [];
  query_language = [];
  degraded = false;
  stages = [];
}

abbrev output_of : Result (PipelineOutput thousandths) → PipelineOutput thousandths
output_of (value out) = out
output_of (raise _) = no_output

abbrev output : PipelineOutput thousandths
output = output_of (search thousandths engine input clock)

answers : search thousandths engine input clock ≡ value output
unfolding search strip normalize_bm25_hit reciprocal_rank_fusion merge_candidate_data
answers = refl

keeps_top : KeepsTop thousandths engine
keeps_top order cs ranked n set done =
    let none_of : none ≡ some ranked =
      ap (λ r. elim r [ none ↦ none | some f ↦ f cs n ]) set ∙ done in
    absurd (ground arith)

-- The model scores a candidate by the length of its id.
abbrev by_length : List (Candidate thousandths) → Option (List ℕ)
by_length candidates =
    some
      (map (λ candidate. length (text_of thousandths (codes "document_id") candidate)) candidates)

abbrev three_pages : List (Candidate thousandths)
three_pages = page_of (codes "a") ∷ page_of (codes "ccc") ∷ page_of (codes "bb") ∷ []

abbrev best_two : List (Candidate thousandths)
best_two =
    insert (codes "rerank_score") (score 3) (page_of (codes "ccc"))
    ∷ insert (codes "rerank_score") (score 2) (page_of (codes "bb"))
    ∷ []

reranked : rerank_results thousandths (λ s. s) by_length three_pages (some 2) ≡ some best_two
unfolding rerank_results
reranked = refl

by_rank-IsOrder : IsOrder (ranked_before thousandths (λ s. s) by_length)
by_rank-IsOrder = record {
  asymmetric = λ x y h. ground arith;
  not_before_trans = λ x y z h k. ground arith;
}

rerank_results_lem_example :
    (scored : List (Candidate thousandths)) × (others : List (Candidate thousandths)) × IsScored
      thousandths
      (λ s. s)
      by_length
      three_pages
      scored
    × Perm (best_two ++ others) scored
    × IsSorted (ranked_before thousandths (λ s. s) by_length) (best_two ++ others)
    × (length best_two ≡ min 2 3)
rerank_results_lem_example =
    rerank_results_lem thousandths (λ s. s) by_length three_pages best_two 2 by_rank-IsOrder
      reranked

search-bounds_example : (length output.results ≤ 2) × (2 ≤ 5) × (output.total_hits ≤ 20)
search-bounds_example = search-bounds thousandths engine input clock output answers keeps_top

-- Metadata of a page that was not asked for.
abbrev odd_engine : Engine thousandths
odd_engine = record engine {
  dense_search = some (λ query input size. some (stale_page (codes "z") ∷ []));
  mget = λ ids. documents (record { doc_id = codes "y"; found = true; source = [] } ∷ []);
}

key_error_test : search thousandths odd_engine input clock ≡ raise key_error
unfolding search strip normalize_bm25_hit reciprocal_rank_fusion merge_candidate_data hydrated_docs
key_error_test = refl
