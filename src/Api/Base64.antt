-- ===== src/Api/Base64.antt =====
-- `_b64encode` and `_b64decode` of api/src/pgs_api/auth/tokens.py, over Python's URL-safe base64
-- alphabet. A byte string is the list of its bytes.
pub mod RoundTrip
mod Tests
use pgs_search_engine.Base.{
  ℕ, zero, suc, ◌+◌, ◌-◌, ◌*◌, ◌/◌, ◌%◌, ◌^◌, ◌≤◌, ◌<◌, min, max, ◌≡◌, refl, sym, ap, subst, ◌∙◌,
  ◌≢◌, ◌↔◌, ◌⊎◌, inl, inr, Bool, true, false, not, ◌&&◌, ◌||◌, Option, none, some, List, [], ◌∷◌,
  ◌++◌, map, arith, String, ⊤, ltb, leb, nat_beq, if◌then◌else◌, ltb→lt, lt→ltb, leb→le, le→leb,
  nat_beq_iff, Bool-cases, Option-cases, PyEq, ◌==◌, nat_eq, beq_self, beq-ne, beq→eq, length, take,
  drop, keep, any, all, All, length-append, take-append-drop, length-take, length-drop, length-keep,
  length-map, elem, distinct, elem-append, elem-keep,
}
use pgs_search_engine.Base.Text.{
  Text, text_eq, codes, is_empty, between, is_space, strip, strip_left, strip_right, put_back,
  is_blank, starts_with, ends_with, drop_end, words, join,
}

abbrev pub Bytes : Type 0
Bytes = List ℕ

-- The character of a 6-bit value.
unfoldable pub symbol : ℕ → ℕ
symbol v =
    if ltb v 26
    then v + 65
    else if ltb v 52
    then v + 71
    else if ltb v 62
    then v - 4
    else if nat_beq v 62
    then 45
    else 95

abbrev pub is_symbol : ℕ → Bool
is_symbol c =
    between b'A' b'Z' c
    || between b'a' b'z' c
    || between b'0' b'9' c
    || nat_beq c b'-'
    || nat_beq c b'_'

unfoldable pub symbol_value : ℕ → ℕ
symbol_value c =
    if between b'A' b'Z' c
    then c - 65
    else if between b'a' b'z' c
    then c - 71
    else if between b'0' b'9' c
    then c + 4
    else if nat_beq c b'-'
    then 62
    else 63

abbrev pub pad : ℕ
pad = b'='

-- `base64.urlsafe_b64encode`
unfoldable pub urlsafe_b64encode : Bytes → Text
unfolding symbol
urlsafe_b64encode [] = []
urlsafe_b64encode (a ∷ []) = symbol (a / 4) ∷ symbol (a % 4 * 16) ∷ pad ∷ pad ∷ []
urlsafe_b64encode (a ∷ b ∷ []) =
    symbol (a / 4) ∷ symbol (a % 4 * 16 + b / 16) ∷ symbol (b % 16 * 4) ∷ pad ∷ []
urlsafe_b64encode (a ∷ b ∷ c ∷ rest) =
    symbol (a / 4)
    ∷ symbol (a % 4 * 16 + b / 16)
    ∷ symbol (b % 16 * 4 + c / 64)
    ∷ symbol (c % 64)
    ∷ urlsafe_b64encode rest

unfoldable pub b64encode : Bytes → Text
unfolding urlsafe_b64encode
b64encode bytes = strip_right (λ c. nat_beq c pad) (urlsafe_b64encode bytes)

-- A trailing newline: `$` of the pattern matches in front of it.
abbrev pub newline : ℕ
newline = 10

unfoldable pub chop_newline : Text → Text
chop_newline [] = []
chop_newline (c ∷ []) = if nat_beq c newline then [] else c ∷ []
chop_newline (c ∷ d ∷ s) = c ∷ chop_newline (d ∷ s)

-- `_SEGMENT.match(segment)`, with the pattern `^[A-Za-z0-9_-]+$`
unfoldable pub is_segment : Text → Bool
unfolding chop_newline
is_segment segment = not (is_empty (chop_newline segment)) && all is_symbol (chop_newline segment)

-- `binascii.a2b_base64` on symbols followed by `pads` padding characters: `none` is its error.
unfoldable pub decode_symbols : Text → ℕ → Option Bytes
unfolding symbol_value
decode_symbols [] pads = some []
decode_symbols (p ∷ []) pads = none
decode_symbols (p ∷ q ∷ []) pads =
    if leb 2 pads then some ((symbol_value p * 4 + symbol_value q / 16) ∷ []) else none
decode_symbols (p ∷ q ∷ r ∷ []) pads =
    if leb 1 pads
    then some (
        (symbol_value p * 4 + symbol_value q / 16)
        ∷ (symbol_value q % 16 * 16 + symbol_value r / 4)
        ∷ [])
    else none
decode_symbols (p ∷ q ∷ r ∷ s ∷ rest) pads = elim (decode_symbols rest pads) [
  | none ↦ none
  | some bytes ↦ some (
      (symbol_value p * 4 + symbol_value q / 16)
      ∷ (symbol_value q % 16 * 16 + symbol_value r / 4)
      ∷ (symbol_value r % 4 * 64 + symbol_value s)
      ∷ bytes)
]

-- `-n % 4`
abbrev pub padding : ℕ → ℕ
padding n = (4 - n % 4) % 4

-- `none` is the `TokenError("malformed token")`.
unfoldable pub b64decode : Text → Option Bytes
unfolding is_segment decode_symbols chop_newline
b64decode segment =
    if is_segment segment
    then decode_symbols (chop_newline segment) (padding (length segment))
    else none
