-- ===== src/Search/Hits.antt =====
-- What OpenSearch returns, in the candidate shape of search-engine/src/pgs_search/pipeline.py. The
-- source of a document is a dict of fields, each of the kind that the index maps it to.
use pgs_search_engine.Base.{Bool, true, Option, none, some, List, [], ◌∷◌, if◌then◌else◌, nat_eq}
use pgs_search_engine.Base.Text.{Text, text_eq, codes}
use pgs_search_engine.Base.Dict.{Dict, lookup, insert}
use pgs_search_engine.Search.Fusion.{Floats}
use pgs_search_engine.Search.Candidates.{
  Field, text, score, number, flag, texts, sources, mapping, Candidate, is_blank_value,
}

module _ (fl : Floats) where
  -- A hit of a search: the first highlighted fragment, if there is one, and the score.
  pub record Hit : Type 0 where
    pub hit_id : Text
    pub source : Dict Text (Field fl)
    pub fragment : Option Text
    pub hit_score : fl.Score

  -- A document of an `mget` answer.
  pub record Doc : Type 0 where
    pub doc_id : Text
    pub found : Bool
    pub source : Dict Text (Field fl)

  -- `source.get(name) or default`
  abbrev pub field_or : Text → Field fl → Dict Text (Field fl) → Field fl
  field_or name default source = elim (lookup name source) [
    | none ↦ default
    | some value ↦ if is_blank_value fl value then default else value
  ]

  abbrev pub empty_text : Field fl
  empty_text = text []

  unfoldable pub source_candidate : Text → Dict Text (Field fl) → Candidate fl
  source_candidate document_id source =
      (codes "document_id", field_or (codes "document_id") (text document_id) source)
      ∷ (codes "indexed", flag true)
      ∷ (codes "title", field_or (codes "title") empty_text source)
      ∷ (codes "description", field_or (codes "description") empty_text source)
      ∷ (codes "summary", field_or (codes "summary") empty_text source)
      ∷ (codes "source_url", field_or (codes "source_url") empty_text source)
      ∷ (codes "domain", field_or (codes "domain") empty_text source)
      ∷ (codes "language", field_or (codes "language") empty_text source)
      ∷ (codes "content_type", field_or (codes "content_type") empty_text source)
      ∷ (codes "keywords", field_or (codes "keywords") (texts []) source)
      ∷ (codes "geo", field_or (codes "geo") (mapping []) source)
      ∷ (codes "published_at", field_or (codes "published_at") empty_text source)
      ∷ (codes "content_length", field_or (codes "content_length") (number 0) source)
      ∷ (codes "file_info", field_or (codes "file_info") (mapping []) source)
      ∷ []

  unfoldable pub normalize_bm25_hit : Hit → Candidate fl
  unfolding source_candidate
  normalize_bm25_hit hit =
      let candidate = source_candidate hit.hit_id hit.source in
      let highlighted : Candidate fl = elim hit.fragment [
        | none ↦ candidate
        | some fragment ↦ insert (codes "highlight") (text fragment) candidate
      ] in
      insert (codes "retrieval_sources") (sources (codes "bm25" ∷ []))
        (insert (codes "bm25_score") (score hit.hit_score) highlighted)

  abbrev pub id_field : Candidate fl → Text
  id_field candidate = elim (lookup (codes "document_id") candidate) [ some (text s) ↦ s | _ ↦ [] ]

  -- The loop of `hydrate_candidates` over the documents of the answer.
  unfoldable pub hydrated_docs : List Doc → Dict Text (Candidate fl) → Dict Text (Candidate fl)
  unfolding source_candidate
  hydrated_docs [] hydrated = hydrated
  hydrated_docs (doc ∷ docs) hydrated =
      let candidate = source_candidate doc.doc_id doc.source in
      let next = insert (id_field candidate) candidate hydrated in
      if doc.found then hydrated_docs docs next else hydrated_docs docs hydrated
