-- ===== src/Base/Distinct.antt =====
-- Keys that stand once in a list of rows, under the writes that a table sees.
use pgs_search_engine.Base.{
  ◌≡◌, refl, sym, ◌∙◌, inl, inr, Bool, true, false, not, ◌&&◌, ◌||◌, List, [], ◌∷◌, ◌++◌, arith,
  Bool-cases, PyEq, ◌==◌, nat_eq, beq-ne, keep, any, update_if,
}

module _ {ℓ κ} {A : Type ℓ} {K : Type κ} ⦃e : PyEq K⦄ (key : A → K) where
  -- Whether a row has this key.
  abbrev pub has_key : K → List A → Bool
  has_key k xs = any (λ x. key x == k) xs

  abbrev pub once : List A → Bool
  once [] = true
  once (x ∷ xs) = not (has_key (key x) xs) && once xs

module _ {ℓ κ} {A : Type ℓ} {K : Type κ} ⦃e : PyEq K⦄ (key : A → K) where
  pub has_key-append :
      (k : K) (xs ys : List A) → has_key key k (xs ++ ys) ≡ (has_key key k xs || has_key key k ys)
  has_key-append k [] ys = refl
  has_key-append k (x ∷ xs) ys = ground (arith, has_key-append k xs ys)

  -- A row with a new key may be added.
  pub once-append_new :
      (xs : List A) (x : A)
      → once key xs ≡ true
      → has_key key (key x) xs ≡ false
      → once key (xs ++ x ∷ []) ≡ true
  once-append_new [] x h new = refl
  once-append_new (y ∷ xs) x h new =
      let other : (key y == key x) ≡ false = ground arith in
      let back : (key x == key y) ≡ false =
        beq-ne (key x) (key y) (λ p. false_ne_true (sym other ∙ beq_of p)) in
      ground (arith, back, has_key-append (key y) xs (x ∷ []), once-append_new xs x)
    where
      beq_of : key x ≡ key y → (key y == key x) ≡ true
      beq_of p = (e.beq_iff (key y) (key x)).1 (sym p)

      false_ne_true : ¬ (◌≡◌ {A = Bool} false true)
      false_ne_true q = cc

  pub has_key-keep :
      (p : A → Bool) (k : K) (xs : List A)
      → has_key key k xs ≡ false
      → has_key key k (keep p xs) ≡ false
  has_key-keep p k [] h = refl
  has_key-keep p k (x ∷ xs) h = ground (arith, has_key-keep p k xs)

  -- Deleting rows keeps the keys apart.
  pub once-keep : (p : A → Bool) (xs : List A) → once key xs ≡ true → once key (keep p xs) ≡ true
  once-keep p [] h = refl
  once-keep p (x ∷ xs) h = elim (Bool-cases (has_key key (key x) xs)) [
    | inl twice ↦ ground arith
    | inr single ↦ ground (arith, has_key-keep p (key x) xs single, once-keep p xs)
  ]

  module _ (p : A → Bool) (f : A → A) (same : (x : A) → key (f x) ≡ key x) where
    pub has_key-update_if :
        (k : K) (xs : List A) → has_key key k (update_if p f xs) ≡ has_key key k xs
    has_key-update_if k [] = refl
    has_key-update_if k (x ∷ xs) = ground (arith, same x, has_key-update_if k xs)

    -- An update that leaves the key alone keeps the keys apart.
    pub once-update_if : (xs : List A) → once key (update_if p f xs) ≡ once key xs
    once-update_if [] = refl
    once-update_if (x ∷ xs) =
        ground (arith, same x, has_key-update_if (key x) xs, once-update_if xs)

module _ {ℓ κ} {A : Type ℓ} {K : Type κ} ⦃e : PyEq K⦄ (key : A → K) where
  -- Deleting the rows of one key leaves every other key as it was.
  pub has_key-keep_ne :
      (d k : K) (xs : List A)
      → (k == d) ≡ false
      → has_key key k (keep (λ x. not (key x == d)) xs) ≡ has_key key k xs
  has_key-keep_ne d k [] h = refl
  has_key-keep_ne d k (x ∷ xs) h =
      ground
        (arith, e.beq_iff k d, e.beq_iff (key x) d, e.beq_iff (key x) k, has_key-keep_ne d k xs h)

  -- And that key is gone.
  pub has_key-keep_self :
      (d : K) (xs : List A) → has_key key d (keep (λ x. not (key x == d)) xs) ≡ false
  has_key-keep_self d [] = refl
  has_key-keep_self d (x ∷ xs) = ground (arith, has_key-keep_self d xs)
