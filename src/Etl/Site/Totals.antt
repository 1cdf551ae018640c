-- ===== src/Etl/Site/Totals.antt =====
-- ETL/spark/site_pipeline.py: the groups of a site's keys.
use pgs_search_engine.Base.{
  ℕ, zero, suc, ◌≤◌, ◌≡◌, refl, ap, ◌∙◌, List, [], ◌∷◌, ◌++◌, arith, nat_eq, length, take, drop,
  All, take-append-drop, length-take, length-drop,
}
use pgs_search_engine.Etl.Site.Driver.{groups, groups_from}
use pgs_search_engine.Base.Text.{Text, text_eq}

-- The keys of some groups, in order.
abbrev pub joined : List (List Text) → List Text
joined [] = []
joined (group ∷ rest) = group ++ joined rest

-- A group has at least one key and at most `size`.
abbrev pub FitsGroup : ℕ → List Text → Type 0
FitsGroup size group = (1 ≤ length group) × (length group ≤ size)

groups_from-joined :
    (fuel size : ℕ) (keys : List Text)
    → 1 ≤ size
    → length keys ≤ fuel
    → (joined (groups_from fuel size keys) ≡ keys)
      × All (FitsGroup size) (groups_from fuel size keys)
unfolding groups_from
groups_from-joined zero size [] h enough = (refl, tt)
groups_from-joined zero size (key ∷ keys) h enough = absurd (omega arith)
groups_from-joined (suc fuel) size [] h enough = (refl, tt)
groups_from-joined (suc fuel) size (key ∷ keys) h enough =
    let (all_keys, fit) =
      groups_from-joined fuel size (drop size (key ∷ keys)) h
        (omega (arith, length-drop size (key ∷ keys))) in
    (
      ap (λ ks. take size (key ∷ keys) ++ ks) all_keys ∙ take-append-drop size (key ∷ keys),
      (
        (
          omega (arith, length-take size (key ∷ keys)),
          omega (arith, length-take size (key ∷ keys)),
        ),
        fit,
      ),
    )

-- The loop over `range(0, len(keys), size)` ends with every key in one group, in order: joined, the
-- groups are the keys, and no group is empty or larger than `size`, which is at least 1.
pub groups-joined :
    (size : ℕ) (keys : List Text)
    → 1 ≤ size
    → (joined (groups size keys) ≡ keys) × All (FitsGroup size) (groups size keys)
unfolding groups
groups-joined size keys h = groups_from-joined (length keys) size keys h (omega arith)
