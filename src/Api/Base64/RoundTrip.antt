-- ===== src/Api/Base64/RoundTrip.antt =====
-- `_b64encode` and `_b64decode` of api/src/pgs_api/auth/tokens.py against each other.
use pgs_search_engine.Base.{
  ℕ, ◌+◌, ◌*◌, ◌/◌, ◌%◌, ◌<◌, ◌≡◌, refl, ap, ◌≢◌, Bool, true, false, some, [], ◌∷◌, arith, leb,
  nat_beq, nat_eq, length, all, All,
}
use pgs_search_engine.Base.Text.{Text, text_eq, is_empty, strip_right, put_back}
use pgs_search_engine.Api.Base64.{
  Bytes, symbol, is_symbol, symbol_value, pad, urlsafe_b64encode, b64encode, chop_newline,
  decode_symbols, padding, b64decode,
}

symbol_value-symbol : (v : ℕ) → v < 64 → symbol_value (symbol v) ≡ v
unfolding symbol symbol_value
symbol_value-symbol v h = ground arith

is_symbol-symbol : (v : ℕ) → v < 64 → is_symbol (symbol v) ≡ true
unfolding symbol
is_symbol-symbol v h = ground arith

abbrev pub IsByte : ℕ → Type 0
IsByte b = b < 256

-- The symbols of the encoding, with no padding.
pub plain : Bytes → Text
plain [] = []
plain (a ∷ []) = symbol (a / 4) ∷ symbol (a % 4 * 16) ∷ []
plain (a ∷ b ∷ []) = symbol (a / 4) ∷ symbol (a % 4 * 16 + b / 16) ∷ symbol (b % 16 * 4) ∷ []
plain (a ∷ b ∷ c ∷ rest) =
    symbol (a / 4)
    ∷ symbol (a % 4 * 16 + b / 16)
    ∷ symbol (b % 16 * 4 + c / 64)
    ∷ symbol (c % 64)
    ∷ plain rest

abbrev not_pad : ℕ → Bool
not_pad c = nat_beq c pad

symbol-ne-pad : (v : ℕ) → v < 64 → not_pad (symbol v) ≡ false
unfolding symbol
symbol-ne-pad v h = ground arith

put_back-ne : (c : ℕ) (s : Text) → not_pad c ≡ false → put_back not_pad c s ≡ c ∷ s
put_back-ne c [] h = ground arith
put_back-ne c (d ∷ s) h = refl

put_back-symbol : (v : ℕ) (s : Text) → v < 64 → put_back not_pad (symbol v) s ≡ symbol v ∷ s
put_back-symbol v s h = put_back-ne (symbol v) s (symbol-ne-pad v h)

strip-encode :
    (bytes : Bytes) → All IsByte bytes → strip_right not_pad (urlsafe_b64encode bytes) ≡ plain bytes
unfolding urlsafe_b64encode plain
strip-encode [] h = refl
strip-encode (a ∷ []) h =
    rw (put_back-symbol (a % 4 * 16) [] (omega arith)) (put_back-symbol (a / 4) _ (omega arith))
strip-encode (a ∷ b ∷ []) h = rw (put_back-symbol (b % 16 * 4) [] (omega arith))
strip-encode (a ∷ b ∷ c ∷ rest) h =
    rw (strip-encode rest h.1.1.1, put_back-symbol (c % 64) (plain rest) (omega arith))

pub b64encode-eq_plain : (bytes : Bytes) → All IsByte bytes → b64encode bytes ≡ plain bytes
unfolding b64encode
b64encode-eq_plain bytes h = strip-encode bytes h

pub all_symbols : (bytes : Bytes) → All IsByte bytes → all is_symbol (plain bytes) ≡ true
unfolding plain
all_symbols [] h = refl
all_symbols (a ∷ []) h =
    simp (is_symbol-symbol (a / 4) (omega arith), is_symbol-symbol (a % 4 * 16) (omega arith))
all_symbols (a ∷ b ∷ []) h = simp (
  is_symbol-symbol (a / 4) (omega arith),
  is_symbol-symbol (a % 4 * 16 + b / 16) (omega arith),
  is_symbol-symbol (b % 16 * 4) (omega arith),
)
all_symbols (a ∷ b ∷ c ∷ rest) h = simp (
  is_symbol-symbol (a / 4) (omega arith),
  is_symbol-symbol (a % 4 * 16 + b / 16) (omega arith),
  is_symbol-symbol (b % 16 * 4 + c / 64) (omega arith),
  is_symbol-symbol (c % 64) (omega arith),
  all_symbols rest h.1.1.1,
)

decode-plain :
    (bytes : Bytes) (pads : ℕ)
    → All IsByte bytes
    → pads ≡ padding (length (plain bytes))
    → decode_symbols (plain bytes) pads ≡ some bytes
unfolding plain decode_symbols
decode-plain [] pads h e = refl
decode-plain (a ∷ []) pads h e =
    let two : leb 2 pads ≡ true = ground arith in
    rw
      (
        two,
        symbol_value-symbol (a / 4) (omega arith),
        symbol_value-symbol (a % 4 * 16) (omega arith),
      )
      (ap (λ x. some (x ∷ [])) (omega arith))
decode-plain (a ∷ b ∷ []) pads h e =
    let one : leb 1 pads ≡ true = ground arith in
    rw
      (
        one,
        symbol_value-symbol (a / 4) (omega arith),
        symbol_value-symbol (a % 4 * 16 + b / 16) (omega arith),
        symbol_value-symbol (b % 16 * 4) (omega arith),
      )
      (ground arith)
decode-plain (a ∷ b ∷ c ∷ rest) pads h e =
    rw
      (
        decode-plain rest pads h.1.1.1 (omega arith),
        symbol_value-symbol (a / 4) (omega arith),
        symbol_value-symbol (a % 4 * 16 + b / 16) (omega arith),
        symbol_value-symbol (b % 16 * 4 + c / 64) (omega arith),
        symbol_value-symbol (c % 64) (omega arith),
      )
      (ground arith)

-- No symbol is a newline, so there is none to chop.
chop-symbols : (s : Text) → all is_symbol s ≡ true → chop_newline s ≡ s
unfolding chop_newline
chop-symbols [] h = refl
chop-symbols (c ∷ []) h = ground arith
chop-symbols (c ∷ d ∷ s) h = ap (λ r. c ∷ r) (chop-symbols (d ∷ s) (ground arith))

plain-ne-nil : (bytes : Bytes) → bytes ≢ [] → is_empty (plain bytes) ≡ false
unfolding plain
plain-ne-nil [] h = absurd (h refl)
plain-ne-nil (a ∷ []) h = refl
plain-ne-nil (a ∷ b ∷ []) h = refl
plain-ne-nil (a ∷ b ∷ c ∷ rest) h = refl

-- `_b64decode(_b64encode(data))` is `data`, for every byte string that is not empty.
pub b64decode-b64encode :
    (bytes : Bytes) → All IsByte bytes → bytes ≢ [] → b64decode (b64encode bytes) ≡ some bytes
unfolding b64decode
b64decode-b64encode bytes h ne =
    let s = plain bytes in
    rw
      (
        b64encode-eq_plain bytes h,
        chop-symbols s (all_symbols bytes h),
        plain-ne-nil bytes ne,
        all_symbols bytes h,
      )
      (decode-plain bytes _ h refl)
