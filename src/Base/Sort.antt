-- ===== src/Base/Sort.antt =====
-- Python's `sorted` with a key: a stable sort, by a Boolean test "stands strictly before".
use mathlib.Core.List.Perm
use mathlib.Core.List.{Perm}
use pgs_search_engine.Base.Names.{
  suc, ◌≡◌, refl, Bool, true, false, List, [], ◌∷◌, arith, ap, ◌∙◌, inl, inr,
}
use pgs_search_engine.Base.Tests.{if◌then◌else◌, Bool-cases}
use pgs_search_engine.Base.Lists.{length, keep, All}

-- What a key comparison has to satisfy for a sort to be one.
pub record IsOrder {ℓ} {A : Type ℓ} (before : A → A → Bool) : Type ℓ where
  pub asymmetric : (x y : A) → before x y ≡ true → before y x ≡ false
  pub not_before_trans : (x y z : A) → before y x ≡ false → before z y ≡ false → before z x ≡ false

module _ {ℓ} {A : Type ℓ} (before : A → A → Bool) where
  abbrev pub place : A → List A → List A
  place x [] = x ∷ []
  place x (y ∷ ys) = if before y x then y ∷ place x ys else x ∷ y ∷ ys

  abbrev pub sort_by : List A → List A
  sort_by [] = []
  sort_by (x ∷ xs) = place x (sort_by xs)

  -- No element stands before one that is left of it.
  abbrev pub IsSorted : List A → Type 0
  IsSorted [] = Unit
  IsSorted (x ∷ xs) = All (λ y. before y x ≡ false) xs × IsSorted xs

  pub place-perm : (x : A) (ys : List A) → Perm (place x ys) (x ∷ ys)
  place-perm x [] = Perm.refl (x ∷ [])
  place-perm x (y ∷ ys) = elim (Bool-cases (before y x)) [
    | inl later ↦ rw (later, place) (Perm.trans (Perm.cons y (place-perm x ys)) (Perm.swap x y ys))
    | inr now ↦ rw (now, place) (Perm.refl (x ∷ y ∷ ys))
  ]

  -- A sort keeps the elements, each as often as it was there.
  pub sort_by-perm : (xs : List A) → Perm (sort_by xs) xs
  sort_by-perm [] = Perm.refl []
  sort_by-perm (x ∷ xs) = Perm.trans (place-perm x (sort_by xs)) (Perm.cons x (sort_by-perm xs))

  length-place : (x : A) (ys : List A) → length (place x ys) ≡ suc (length ys)
  length-place x [] = refl
  length-place x (y ∷ ys) = ground (arith, length-place x ys)

  pub length-sort_by : (xs : List A) → length (sort_by xs) ≡ length xs
  length-sort_by [] = refl
  length-sort_by (x ∷ xs) = length-place x (sort_by xs) ∙ ap suc (length-sort_by xs)

  -- Elements of a class that the key does not tell apart keep their order.
  keep-place :
      (p : A → Bool) (alike : (a b : A) → p a ≡ true → p b ≡ true → before a b ≡ false) (x : A)
      (ys : List A)
      → keep p (place x ys) ≡ keep p (x ∷ ys)
  keep-place p alike x [] = refl
  keep-place p alike x (y ∷ ys) = ground (arith, alike y x, keep-place p alike x ys)

  pub sort_by-stable :
      (p : A → Bool) (alike : (a b : A) → p a ≡ true → p b ≡ true → before a b ≡ false)
      (xs : List A)
      → keep p (sort_by xs) ≡ keep p xs
  sort_by-stable p alike [] = refl
  sort_by-stable p alike (x ∷ xs) =
      keep-place p alike x (sort_by xs) ∙ keep-cons (sort_by xs) xs (sort_by-stable p alike xs)
    where
      keep-cons : (l m : List A) → keep p l ≡ keep p m → keep p (x ∷ l) ≡ keep p (x ∷ m)
      keep-cons l m e = ground arith

module _ {ℓ} {A : Type ℓ} (before : A → A → Bool) (order : IsOrder before) where
  All-place :
      (z x : A) (ys : List A)
      → before x z ≡ false
      → All (λ y. before y z ≡ false) ys
      → All (λ y. before y z ≡ false) (place before x ys)
  All-place z x [] h k = (h, tt)
  All-place z x (y ∷ ys) h k = ground (arith, All-place z x ys h k.1)

  All-trans :
      (x y : A) (ys : List A)
      → before y x ≡ false
      → All (λ w. before w y ≡ false) ys
      → All (λ w. before w x ≡ false) ys
  All-trans x y [] h k = tt
  All-trans x y (w ∷ ys) h k = (order.not_before_trans x y w h k.0, All-trans x y ys h k.1)

  place-IsSorted : (x : A) (ys : List A) → IsSorted before ys → IsSorted before (place before x ys)
  place-IsSorted x [] h = (tt, tt)
  place-IsSorted x (y ∷ ys) h = elim (Bool-cases (before y x)) [
    | inl later ↦
        ground (arith, All-place y x ys (order.asymmetric y x later) h.0, place-IsSorted x ys h.1)
    | inr now ↦ ground (arith, All-trans x y ys now h.0)
  ]

  -- A sort leaves nothing before an element left of it.
  pub sort_by-IsSorted : (xs : List A) → IsSorted before (sort_by before xs)
  sort_by-IsSorted [] = tt
  sort_by-IsSorted (x ∷ xs) = place-IsSorted x (sort_by before xs) (sort_by-IsSorted xs)
