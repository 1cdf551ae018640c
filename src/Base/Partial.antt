-- ===== src/Base/Partial.antt =====
-- Functions that may refuse: the chain of `Option` results, and what holds of the result that they give.
use pgs_search_engine.Base.Names.{subst, ◌≡◌, Option, none, some}

infixl 5 ◌>>=◌
-- What is refused stops the rest.
abbrev pub ◌>>=◌ {ℓ κ} : {A : Type ℓ} {B : Type κ} → Option A → (A → Option B) → Option B
none >>= f = none
some a >>= f = f a

infixr 20 ◌or_else◌
-- `a or b`, of texts that are not empty
abbrev pub ◌or_else◌ {ℓ} : {A : Type ℓ} → Option A → Option A → Option A
none or_else b = b
(some a) or_else b = some a

-- What holds of a result, if there is one.
pub data WhenSome {ℓ κ} {A : Type ℓ} (P : A → Type κ) : Option A → Type (ℓ ⊔ κ) where
  refused : WhenSome P none
  gives : {a : A} → P a → WhenSome P (some a)

module _ {ℓ κ μ} {A : Type ℓ} {B : Type κ} {P : B → Type μ} {f : A → Option B} where
  pub WhenSome-bind : (o : Option A) → ((a : A) → WhenSome P (f a)) → WhenSome P (o >>= f)
  WhenSome-bind none h = refused
  WhenSome-bind (some a) h = h a

  pub WhenSome-bind_with {ν} :
      {Q : A → Type ν} {o : Option A}
      → WhenSome Q o
      → ((a : A) → Q a → WhenSome P (f a))
      → WhenSome P (o >>= f)
  WhenSome-bind_with refused h = refused
  WhenSome-bind_with (gives {a} q) h = h a q

what_holds {ℓ κ} : {A : Type ℓ} {P : A → Type κ} {a : A} → WhenSome P (some a) → P a
what_holds (gives p) = p

pub from_gives {ℓ κ} :
    {A : Type ℓ} {P : A → Type κ} {o : Option A} (a : A) → WhenSome P o → o ≡ some a → P a
from_gives {P} a h e = what_holds (subst (λ o. WhenSome P o) e h)
