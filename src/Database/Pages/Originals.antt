-- ===== src/Database/Pages/Originals.antt =====
-- database/src/pgs_db/etl.py: where the duplicates of pages point.
use pgs_search_engine.Base.{
  ℕ, ◌<◌, ◌≡◌, refl, inl, inr, Bool, true, false, ◌&&◌, Option, none, some, List, [], ◌∷◌, arith,
  ltb, if◌then◌else◌, if_ind, ltb→lt, nat_beq_iff, Bool-cases, ◌==◌, nat_eq, keep, any, All, find,
  update_if,
}
use pgs_search_engine.Base.Text.{text_eq}
use pgs_search_engine.Base.Sort.{place, sort_by}
use pgs_search_engine.Base.Partial.{WhenSome, refused, gives, WhenSome-bind, WhenSome-bind_with}
use pgs_search_engine.Database.Pages.{Page}
use pgs_search_engine.Database.Pages.Duplicates.{
  by_id, first, original_of, has_id, set_duplicate, mark_duplicate_of, fold_duplicate, fold_into,
}

false_ne_true : ¬ (◌≡◌ {A = Bool} false true)
false_ne_true q = cc

-- A page that is a duplicate is one of a page with a smaller id.
abbrev pub points_down {ℓ} : {Body : Type ℓ} → Page Body → Bool
points_down page = elim page.duplicate_of_id [ none ↦ true | some d ↦ ltb d page.id ]

module _ {ℓ} {Body : Type ℓ} where
  first-place :
      (x : Page Body) (ys : List (Page Body))
      → first (place by_id x ys)
        ≡ (elim (first ys) [ none ↦ some x | some y ↦ if by_id y x then some y else some x ])
  first-place x [] = refl
  first-place x (y ∷ ys) = ground arith

  -- The first of a sort is one of the list.
  pub first-sort_by {κ} :
      {P : Page Body → Type κ} (xs : List (Page Body))
      → All P xs
      → WhenSome P (first (sort_by by_id xs))
  first-sort_by [] h = refused
  first-sort_by {P} (x ∷ xs) h =
      rw (first-place x (sort_by by_id xs))
        (choose (first (sort_by by_id xs)) (first-sort_by xs h.1))
    where
      choose :
          (o : Option (Page Body))
          → WhenSome P o
          → WhenSome P (elim o [ none ↦ some x | some y ↦ if by_id y x then some y else some x ])
      choose none k = gives h.0
      choose (some y) k = if_ind (WhenSome P) (by_id y x) (λ _. k) (λ _. gives h.0)

  abbrev pub IsBelow : ℕ → Option (Page Body) → Type 0
  IsBelow n none = ⊥
  IsBelow n (some y) = y.id < n

  -- If one of the list has an id below `n`, the first of the sort has.
  pub first-IsBelow :
      (n : ℕ) (xs : List (Page Body))
      → any (λ (p : Page Body). ltb p.id n) xs ≡ true
      → IsBelow n (first (sort_by by_id xs))
  first-IsBelow n [] h = absurd (false_ne_true h)
  first-IsBelow n (x ∷ xs) h =
      rw (first-place x (sort_by by_id xs)) (choose (first (sort_by by_id xs)) (first-IsBelow n xs))
    where
      choose :
          (o : Option (Page Body))
          → (any (λ (p : Page Body). ltb p.id n) xs ≡ true → IsBelow n o)
          → IsBelow n (elim o [ none ↦ some x | some y ↦ if by_id y x then some y else some x ])
      choose none k = elim (Bool-cases (any (λ (p : Page Body). ltb p.id n) xs)) [
        | inl later ↦ absurd (k later)
        | inr here ↦ ground arith
      ]
      choose (some y) k = elim (Bool-cases (any (λ (p : Page Body). ltb p.id n) xs)) [
        | inl later ↦
            if_ind (IsBelow n) (by_id y x) (λ _. k later) (λ small. at_most y small (k later))
        | inr here ↦
            if_ind (IsBelow n) (by_id y x) (λ small. below y small (x_below here))
              (λ _. x_below here)
      ]
        where
          x_below : any (λ (p : Page Body). ltb p.id n) xs ≡ false → x.id < n
          x_below here = ground arith

          at_most : (z : Page Body) → by_id z x ≡ false → z.id < n → x.id < n
          at_most z small b = ground arith

          below : (z : Page Body) → by_id z x ≡ true → x.id < n → z.id < n
          below z small b = ground arith

  pub All-keep_self :
      (p : Page Body → Bool) (xs : List (Page Body)) → All (λ x. p x ≡ true) (keep p xs)
  All-keep_self p [] = tt
  All-keep_self p (x ∷ xs) = elim (Bool-cases (p x)) [
    | inl here ↦ rw (here, keep) (here, All-keep_self p xs)
    | inr other ↦ rw (other, keep) (All-keep_self p xs)
  ]

  pub any-keep :
      (p q : Page Body → Bool) (xs : List (Page Body))
      → any (λ x. p x && q x) xs ≡ true
      → any q (keep p xs) ≡ true
  any-keep p q [] h = cc
  any-keep p q (x ∷ xs) h = ground (arith, any-keep p q xs)

  All-update_when :
      (p : Page Body → Bool) (f : Page Body → Page Body)
      → ((x : Page Body) → p x ≡ true → points_down (f x) ≡ true)
      → (xs : List (Page Body)) → All (λ x. points_down x ≡ true) xs
      → All (λ x. points_down x ≡ true) (update_if p f xs)
  All-update_when p f keeps [] h = tt
  All-update_when p f keeps (x ∷ xs) h = elim (Bool-cases (p x)) [
    | inl here ↦ rw (here, update_if) (keeps x here, All-update_when p f keeps xs h.1)
    | inr other ↦ rw (other, update_if) (h.0, All-update_when p f keeps xs h.1)
  ]

  abbrev pub AllPointDown : List (Page Body) → Type 0
  AllPointDown pages = All (λ (p : Page Body). points_down p ≡ true) pages

  mark_duplicate_of-points_down :
      (page_id original_id : ℕ) (pages : List (Page Body))
      → original_id < page_id
      → AllPointDown pages
      → WhenSome AllPointDown (mark_duplicate_of page_id original_id pages)
  unfolding mark_duplicate_of
  mark_duplicate_of-points_down page_id original_id pages down all_down =
      if_ind (WhenSome AllPointDown) (page_id == original_id) (λ _. refused)
        (λ _. marked (find (has_id page_id) pages))
    where
      marked :
          (o : Option (Page Body))
          → WhenSome AllPointDown (elim o [
            | none ↦ none
            | some _ ↦ some (update_if (has_id page_id) (set_duplicate (some original_id)) pages)
          ])
      marked none = refused
      marked (some _) = gives (
          All-update_when (has_id page_id) (set_duplicate (some original_id))
            (λ x same. ground (arith, nat_beq_iff x.id page_id)) pages all_down)

  pub fold_duplicate-WhenSome :
      (page_id : ℕ) (pages : List (Page Body))
      → AllPointDown pages
      → WhenSome (λ (r : Bool × List (Page Body)). AllPointDown r.1) (fold_duplicate page_id pages)
  unfolding fold_duplicate
  fold_duplicate-WhenSome page_id pages all_down =
      WhenSome-bind (find (has_id page_id) pages) (λ page. folded page (original_of page pages))
    where
      unfolded :
          (page : Page Body)
          → WhenSome
              (λ (r : Bool × List (Page Body)). AllPointDown r.1)
              (some (false, update_if (has_id page.id) (set_duplicate none) pages))
      unfolded page =
          gives (All-update_when (has_id page.id) (set_duplicate none) (λ x _. refl) pages all_down)

      folded :
          (page : Page Body) (o : Option (Page Body))
          → WhenSome (λ (r : Bool × List (Page Body)). AllPointDown r.1) (fold_into page pages o)
      folded page none = unfolded page
      folded page (some original) =
          if_ind (WhenSome (λ (r : Bool × List (Page Body)). AllPointDown r.1))
            (ltb original.id page.id)
            (λ older.
              WhenSome-bind_with
                (mark_duplicate_of-points_down page.id original.id pages
                  (ltb→lt original.id page.id older) all_down)
                (λ marked down. gives down))
            (λ _. unfolded page)
