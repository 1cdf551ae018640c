-- ===== src/Api/Tokens/Segments.antt =====
-- Splitting a token at its dots, and what encoded segments are made of.
use pgs_search_engine.Base.{
  ℕ, ◌≡◌, refl, inl, inr, Bool, true, not, List, [], ◌∷◌, ◌++◌, arith, ltb, nat_beq, Bool-cases,
  nat_eq, all, All,
}
use pgs_search_engine.Base.Text.{Text, text_eq}
use pgs_search_engine.Api.Base64.{Bytes, b64encode, is_symbol}
use pgs_search_engine.Api.Base64.RoundTrip.{IsByte, plain, b64encode-eq_plain, all_symbols}
use pgs_search_engine.Api.Tokens.{dot, add_front, split_dots}

abbrev pub no_dot : Text → Bool
no_dot s = all (λ c. not (nat_beq c dot)) s

pub split_dots-no_dot : (s : Text) → no_dot s ≡ true → split_dots s ≡ s ∷ []
unfolding split_dots
split_dots-no_dot [] h = refl
split_dots-no_dot (c ∷ s) h = ground (arith, split_dots-no_dot s)

pub split_dots-dot :
    (s rest : Text) → no_dot s ≡ true → split_dots (s ++ dot ∷ rest) ≡ s ∷ split_dots rest
unfolding split_dots
split_dots-dot [] rest h = refl
split_dots-dot (c ∷ s) rest h = ground (arith, split_dots-dot s rest)

abbrev pub is_ascii : Text → Bool
is_ascii s = all (λ c. ltb c 128) s

all-symbol_no_dot : (s : Text) → all is_symbol s ≡ true → no_dot s ≡ true
all-symbol_no_dot [] h = refl
all-symbol_no_dot (c ∷ s) h = ground (arith, all-symbol_no_dot s)

all-symbol_ascii : (s : Text) → all is_symbol s ≡ true → is_ascii s ≡ true
all-symbol_ascii [] h = refl
all-symbol_ascii (c ∷ s) h = ground (arith, all-symbol_ascii s)

pub encoded_no_dot : (bytes : Bytes) → All IsByte bytes → no_dot (b64encode bytes) ≡ true
encoded_no_dot bytes h =
    rw (b64encode-eq_plain bytes h) (all-symbol_no_dot (plain bytes) (all_symbols bytes h))

pub encoded_ascii : (bytes : Bytes) → All IsByte bytes → is_ascii (b64encode bytes) ≡ true
encoded_ascii bytes h =
    rw (b64encode-eq_plain bytes h) (all-symbol_ascii (plain bytes) (all_symbols bytes h))

pub is_ascii-join :
    (s t : Text) → is_ascii s ≡ true → is_ascii t ≡ true → is_ascii (s ++ dot ∷ t) ≡ true
is_ascii-join [] t h k = k
is_ascii-join (c ∷ s) t h k = ground (arith, is_ascii-join s t)

-- Splitting loses no character: a text is ASCII if it is so between the dots.
pub is_ascii-split :
    (s : Text) → is_ascii s ≡ true → All (λ part. is_ascii part ≡ true) (split_dots s)
unfolding split_dots
is_ascii-split [] h = (refl, tt)
is_ascii-split (c ∷ s) h = elim (Bool-cases (nat_beq c dot)) [
  | inl d ↦ ground (arith, is_ascii-split s)
  | inr other ↦
      rw (other, split_dots)
        (front c (split_dots s) (ground arith) (is_ascii-split s (ground arith)))
]
  where
    front :
        (d : ℕ) (parts : List Text)
        → ltb d 128 ≡ true
        → All (λ part. is_ascii part ≡ true) parts
        → All (λ part. is_ascii part ≡ true) (add_front d parts)
    front d [] small ps = (ground arith, tt)
    front d (p ∷ ps) small a = (ground arith, a.1)
