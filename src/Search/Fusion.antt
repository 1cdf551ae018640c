-- ===== src/Search/Fusion.antt =====
-- Reciprocal Rank Fusion: search-engine/src/pgs_search/ranking/fusion.py. A result list is the list
-- of its document ids. The arithmetic of Python's floats is a parameter.
use pgs_search_engine.Base.{
  ℕ, suc, ◌+◌, ◌≡◌, refl, ap, ◌∙◌, inl, inr, Bool, true, false, ◌||◌, Option, none, some, List, [],
  ◌∷◌, arith, if◌then◌else◌, Bool-cases, ◌==◌, nat_eq, beq_self, beq→eq, elem,
}
use pgs_search_engine.Base.Text.{Text, text_eq}
use pgs_search_engine.Base.Dict.{Dict, lookup, insert, get_or, lookup-insert}
use pgs_search_engine.Base.Distinct.{has_key, once}
use pgs_search_engine.Base.Sort.{IsOrder, place, sort_by, IsSorted, sort_by-IsSorted}

-- What fusion uses of `float`: 0.0, addition, `1.0 / n` and `<`.
pub record Floats : Type 1 where
  pub Score : Type 0
  pub zero_score : Score
  pub add : Score → Score → Score
  pub recip : ℕ → Score
  pub less : Score → Score → Bool

module _ (fl : Floats) (k : ℕ) where
  -- The inner loop, from the rank `rank` on.
  unfoldable pub fuse_list : ℕ → List Text → List Text → Dict Text fl.Score → Dict Text fl.Score
  fuse_list rank seen [] scores = scores
  fuse_list rank seen (document_id ∷ results) scores =
      if elem document_id seen
      then fuse_list (suc rank) seen results scores
      else fuse_list (suc rank) (document_id ∷ seen) results (
          insert document_id
            (fl.add (get_or document_id fl.zero_score scores) (fl.recip (k + rank))) scores)

  unfoldable pub fuse_lists : List (List Text) → Dict Text fl.Score → Dict Text fl.Score
  unfolding fuse_list
  fuse_lists [] scores = scores
  fuse_lists (results ∷ result_lists) scores =
      fuse_lists result_lists (fuse_list 1 [] results scores)

  -- `reverse=True`: the greater score stands before, ties keep their order.
  abbrev pub better : Text × fl.Score → Text × fl.Score → Bool
  better x y = fl.less y.1 x.1

  unfoldable pub reciprocal_rank_fusion : List (List Text) → List (Text × fl.Score)
  unfolding fuse_lists
  reciprocal_rank_fusion result_lists = sort_by better (fuse_lists result_lists [])

module _ (fl : Floats) (k : ℕ) where
  -- The first rank of a document in a list whose first element has the rank `rank`.
  abbrev pub first_rank : Text → ℕ → List Text → Option ℕ
  first_rank d rank [] = none
  first_rank d rank (e ∷ results) = if d == e then some rank else first_rank d (suc rank) results

  abbrev pub credit : Option ℕ → Option fl.Score → Option fl.Score
  credit none score = score
  credit (some rank) none = some (fl.add fl.zero_score (fl.recip (k + rank)))
  credit (some rank) (some score) = some (fl.add score (fl.recip (k + rank)))

  -- The sum over the lists of `1 / (k + rank of d in that list)`; `none` if it is in no list.
  abbrev pub total_credit : Text → List (List Text) → Option fl.Score → Option fl.Score
  total_credit d [] score = score
  total_credit d (results ∷ result_lists) score =
      total_credit d result_lists (credit (first_rank d 1 results) score)

  lookup-fuse_list :
      (d : Text) (rank : ℕ) (seen results : List Text) (scores : Dict Text fl.Score)
      → lookup d (fuse_list fl k rank seen results scores) ≡ (
          if elem d seen
          then lookup d scores
          else credit (first_rank d rank results) (lookup d scores))
  unfolding fuse_list
  lookup-fuse_list d rank seen [] scores = ground arith
  lookup-fuse_list d rank seen (e ∷ results) scores =
      let score = fl.add (get_or e fl.zero_score scores) (fl.recip (k + rank)) in
      ground (
        arith,
        lookup-fuse_list d (suc rank) seen results scores,
        lookup-fuse_list d (suc rank) (e ∷ seen) results (insert e score scores),
        lookup-insert d e score scores,
        beq→eq d e,
        beq_self d,
      )

  lookup-fuse_lists :
      (d : Text) (result_lists : List (List Text)) (scores : Dict Text fl.Score)
      → lookup d (fuse_lists fl k result_lists scores)
        ≡ total_credit d result_lists (lookup d scores)
  unfolding fuse_lists
  lookup-fuse_lists d [] scores = refl
  lookup-fuse_lists d (results ∷ result_lists) scores =
      lookup-fuse_lists d result_lists (fuse_list fl k 1 [] results scores)
      ∙ ap (total_credit d result_lists) (lookup-fuse_list d 1 [] results scores)

module _ {V : Type 0} where
  abbrev id_of : Text × V → Text
  id_of entry = entry.0

  has_key-insert :
      (j d : Text) (v : V) (scores : Dict Text V)
      → has_key id_of j (insert d v scores) ≡ ((d == j) || has_key id_of j scores)
  has_key-insert j d v [] = refl
  has_key-insert j d v ((e, w) ∷ scores) = ground (arith, has_key-insert j d v scores, beq→eq d e)

  once-insert :
      (d : Text) (v : V) (scores : Dict Text V)
      → once id_of scores ≡ true
      → once id_of (insert d v scores) ≡ true
  once-insert d v [] h = refl
  once-insert d v ((e, w) ∷ scores) h = elim (Bool-cases (d == e)) [
    | inl same ↦ ground (arith, beq→eq d e)
    | inr other ↦ ground (arith, has_key-insert e d v scores, once-insert d v scores)
  ]

  module _ (before : Text × V → Text × V → Bool) where
    has_key-place :
        (j : Text) (x : Text × V) (ys : Dict Text V)
        → has_key id_of j (place before x ys) ≡ has_key id_of j (x ∷ ys)
    has_key-place j x [] = refl
    has_key-place j x (y ∷ ys) = ground (arith, has_key-place j x ys)

    has_key-sort_by :
        (j : Text) (xs : Dict Text V) → has_key id_of j (sort_by before xs) ≡ has_key id_of j xs
    has_key-sort_by j [] = refl
    has_key-sort_by j (x ∷ xs) =
        ground (arith, has_key-place j x (sort_by before xs), has_key-sort_by j xs)

    once-place :
        (x : Text × V) (ys : Dict Text V)
        → has_key id_of x.0 ys ≡ false
        → once id_of ys ≡ true
        → once id_of (place before x ys) ≡ true
    once-place x [] new h = refl
    once-place x (y ∷ ys) new h = elim (Bool-cases (before y x)) [
      | inl later ↦
          ground (arith, has_key-place y.0 x ys, beq_self y.0, beq→eq x.0 y.0, once-place x ys)
      | inr now ↦ ground arith
    ]

    lookup-place :
        (d : Text) (x : Text × V) (ys : Dict Text V)
        → has_key id_of x.0 ys ≡ false
        → lookup d (place before x ys) ≡ lookup d (x ∷ ys)
    lookup-place d x [] new = refl
    lookup-place d x (y ∷ ys) new =
        ground (arith, beq→eq d x.0, beq→eq d y.0, beq_self d, lookup-place d x ys)

    -- Sorting a dict's items loses none and doubles none.
    sort_by-items :
        (d : Text) (xs : Dict Text V)
        → once id_of xs ≡ true
        → (once id_of (sort_by before xs) ≡ true) × (lookup d (sort_by before xs) ≡ lookup d xs)
    sort_by-items d [] h = (refl, refl)
    sort_by-items d (x ∷ xs) h =
        let rest = sort_by before xs in
        let new : has_key id_of x.0 rest ≡ false = ground (arith, has_key-sort_by x.0 xs) in
        let (apart, same) = sort_by-items d xs (ground arith) in
        (once-place x rest new apart, ground (arith, lookup-place d x rest new, same))

module _ (fl : Floats) (k : ℕ) where
  once-fuse_list :
      (rank : ℕ) (seen results : List Text) (scores : Dict Text fl.Score)
      → once id_of scores ≡ true
      → once id_of (fuse_list fl k rank seen results scores) ≡ true
  unfolding fuse_list
  once-fuse_list rank seen [] scores h = h
  once-fuse_list rank seen (d ∷ results) scores h =
      let score = fl.add (get_or d fl.zero_score scores) (fl.recip (k + rank)) in
      ground (
        arith,
        once-fuse_list (suc rank) seen results scores,
        once-fuse_list (suc rank) (d ∷ seen) results (insert d score scores),
        once-insert d score scores,
      )

  once-fuse_lists :
      (result_lists : List (List Text)) (scores : Dict Text fl.Score)
      → once id_of scores ≡ true
      → once id_of (fuse_lists fl k result_lists scores) ≡ true
  unfolding fuse_lists
  once-fuse_lists [] scores h = h
  once-fuse_lists (results ∷ result_lists) scores h =
      once-fuse_lists result_lists _ (once-fuse_list 1 [] results scores h)

  -- Every document of the lists stands in the result once, with the sum over the lists of
  -- 1 / (k + its first rank there), and no other document does; the greater scores stand first.
  -- The order on the scores is a strict weak order.
  pub reciprocal_rank_fusion_lem :
      (result_lists : List (List Text)) (d : Text)
      → IsOrder (better fl k)
      → let fused = reciprocal_rank_fusion fl k result_lists in
        (once (λ (e : Text × fl.Score). e.0) fused ≡ true)
        × (lookup d fused ≡ total_credit fl k d result_lists none)
        × IsSorted (better fl k) fused
  unfolding reciprocal_rank_fusion
  reciprocal_rank_fusion_lem result_lists d order =
      let scores = fuse_lists fl k result_lists [] in
      let (apart, same) =
        sort_by-items (better fl k) d scores (once-fuse_lists result_lists [] refl) in
      (
        apart,
        same ∙ lookup-fuse_lists fl k d result_lists [],
        sort_by-IsSorted (better fl k) order scores,
      )
