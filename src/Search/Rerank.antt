-- ===== src/Search/Rerank.antt =====
-- search-engine/src/pgs_search/ranking/lightgbm_reranker.py: candidates in the order of a model's
-- scores. The model is an argument; `none` is a model that cannot be loaded or that fails.
use pgs_search_engine.Base.{
  ℕ, min, ◌≡◌, refl, sym, ap, subst, ◌∙◌, ◌⊎◌, inl, inr, Bool, false, Option, none, some, List, [],
  ◌∷◌, ◌++◌, arith, if◌then◌else◌, Option-cases, ◌==◌, nat_eq, length, take, drop, take-append-drop,
  length-take,
}
use mathlib.Core.List.Perm
use mathlib.Core.List.{Perm}
use pgs_search_engine.Base.Text.{text_eq, codes}
use pgs_search_engine.Base.Dict.{lookup, insert}
use pgs_search_engine.Base.Sort.{
  sort_by-perm, IsOrder, sort_by, IsSorted, length-sort_by, sort_by-IsSorted,
}
use pgs_search_engine.Search.Fusion.{Floats}
use pgs_search_engine.Search.Candidates.{score, Candidate, safe_float}

module _ (fl : Floats) (feature_value : fl.Score → fl.Score)
    (predict : List (Candidate fl) → Option (List fl.Score)) where
  -- `zip(results, scores, strict=True)`, with the score set on each; `none` is the `ValueError`.
  unfoldable pub with_scores : List (Candidate fl) → List fl.Score → Option (List (Candidate fl))
  with_scores [] [] = some []
  with_scores (result ∷ results) (s ∷ scores) = elim (with_scores results scores) [
    | none ↦ none
    | some rest ↦ some (insert (codes "rerank_score") (score (feature_value s)) result ∷ rest)
  ]
  with_scores _ _ = none

  abbrev pub rerank_score : Candidate fl → fl.Score
  rerank_score candidate = safe_float fl (lookup (codes "rerank_score") candidate)

  abbrev pub ranked_before : Candidate fl → Candidate fl → Bool
  ranked_before x y = fl.less (rerank_score y) (rerank_score x)

  abbrev pub top_of : Option ℕ → List (Candidate fl) → List (Candidate fl)
  top_of none ranked = ranked
  top_of (some top_k) ranked = take top_k ranked

  unfoldable pub rerank_results : List (Candidate fl) → Option ℕ → Option (List (Candidate fl))
  unfolding with_scores
  rerank_results [] top_k = some []
  rerank_results (result ∷ results) top_k =
      if elim top_k [ none ↦ false | some n ↦ n == 0 ]
      then none
      else elim (predict (result ∷ results)) [
        | none ↦ none
        | some scores ↦ elim (with_scores (result ∷ results) scores) [
          | none ↦ none
          | some scored ↦ some (top_of top_k (sort_by ranked_before scored))
        ]
      ]

module _ (fl : Floats) (feature_value : fl.Score → fl.Score)
    (predict : List (Candidate fl) → Option (List fl.Score)) where
  length-with_scores :
      (results scored : List (Candidate fl)) (scores : List fl.Score)
      → with_scores fl feature_value predict results scores ≡ some scored
      → length scored ≡ length results
  unfolding with_scores
  length-with_scores [] scored [] h = ground arith
  length-with_scores [] scored (s ∷ scores) h = absurd (ground arith)
  length-with_scores (r ∷ results) scored [] h = absurd (ground arith)
  length-with_scores (r ∷ results) scored (s ∷ scores) h =
      elim (Option-cases (with_scores fl feature_value predict results scores)) [
        | inl short ↦ absurd (ground arith)
        | inr (rest, done) ↦ ground (arith, length-with_scores results rest scores)
      ]

  -- The candidates, in their order, with the scores that the model gave them. It is not asked about
  -- none.
  abbrev pub IsScored : List (Candidate fl) → List (Candidate fl) → Type 0
  IsScored results scored =
      (scores : List fl.Score) × (with_scores fl feature_value predict results scores ≡ some scored)
      × ((results ≡ []) ⊎ (predict results ≡ some scores))

  -- What the reranker returns for `top_k` is the start of an arrangement of all the candidates with
  -- the model's scores set on them, the greatest scores first, and as many of them as `top_k` allows. The
  -- order on the scores is a strict weak order.
  pub rerank_results_lem :
      (results ranked : List (Candidate fl)) (top_k : ℕ)
      → IsOrder (ranked_before fl feature_value predict)
      → rerank_results fl feature_value predict results (some top_k) ≡ some ranked
      → (scored : List (Candidate fl)) × (others : List (Candidate fl)) × IsScored results scored
        × Perm (ranked ++ others) scored
        × IsSorted (ranked_before fl feature_value predict) (ranked ++ others)
        × (length ranked ≡ min top_k (length results))
  unfolding rerank_results
  rerank_results_lem [] ranked top_k order h =
      let same : [] ≡ ranked = ground arith in
      let (arranged, sorted, many) = start_of same in
      ([], [], ([], refl, inl refl), arranged, sorted, many)
    where
      start_of :
          [] ≡ ranked
          → Perm (ranked ++ []) []
            × IsSorted (ranked_before fl feature_value predict) (ranked ++ [])
            × (length ranked ≡ min top_k 0)
      start_of same =
          subst
            (λ l.
              Perm (l ++ []) []
              × IsSorted (ranked_before fl feature_value predict) (l ++ [])
              × (length l ≡ min top_k 0))
            same (Perm.refl [], tt, omega arith)
  rerank_results_lem (r ∷ results) ranked top_k order h =
      let given = r ∷ results in
      elim (Option-cases (predict given)) [
        | inl no_model ↦ absurd (ground arith)
        | inr (scores, predicted) ↦
            elim (Option-cases (with_scores fl feature_value predict given scores)) [
              | inl odd ↦ absurd (ground arith)
              | inr (scored, zipped) ↦
                  let before = ranked_before fl feature_value predict in
                  let sorted = sort_by before scored in
                  let same : take top_k sorted ≡ ranked = ground arith in
                  let whole : ranked ++ drop top_k sorted ≡ sorted =
                    ap (λ l. l ++ drop top_k sorted) (sym same) ∙ take-append-drop top_k sorted in
                  (
                    scored,
                    drop top_k sorted,
                    (scores, zipped, inr predicted),
                    subst (λ l. Perm l scored) (sym whole) (sort_by-perm before scored),
                    subst (IsSorted before) (sym whole) (sort_by-IsSorted before order scored),
                    omega (
                      arith,
                      ap (λ l. length l) same,
                      length-take top_k sorted,
                      length-sort_by before scored,
                      length-with_scores given scored scores zipped,
                    ),
                  )
            ]
      ]
