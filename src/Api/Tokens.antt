-- ===== src/Api/Tokens.antt =====
-- Access tokens: `TokenCodec` of api/src/pgs_api/auth/tokens.py. Python's `json` and the keyed hash
-- `hmac.new(key, ·, sha256).digest()` are parameters; base64 is that of Api/Base64. A JSON value
-- other than a string, an integer or a Boolean has no constructor of its own, since the code only
-- refuses it.
pub mod Segments
pub mod Verify
pub mod Outcomes
mod Tests
use pgs_search_engine.Base.{
  refl, inr, inl, ◌⊎◌, ◌≡◌, ℕ, ◌+◌, Bool, true, false, not, ◌&&◌, Option, none, some, List, [], ◌∷◌,
  ◌++◌, ⊤, ltb, leb, nat_beq, if◌then◌else◌, ◌==◌, nat_eq, length, all,
}
use pgs_search_engine.Base.Int.{ℤ, pos, negsuc}
use pgs_search_engine.Base.Dict.{Dict, lookup}
use pgs_search_engine.Base.Text.{Text, text_eq, codes, is_empty}
use pgs_search_engine.Api.Base64.{Bytes, b64encode, b64decode}

pub data Value : Type 0 where
  text : Text → Value
  int : ℤ → Value
  boolean : Bool → Value
  other : Value

abbrev pub Object : Type 0
Object = Dict Text Value

-- What `json.loads` makes of a byte string; `too_deep` is the `RecursionError` of nested arrays.
pub data Loaded : Type 0 where
  bad_json : Loaded
  not_object : Loaded
  too_deep : Loaded
  object : Object → Loaded

pub record TokenClaims : Type 0 where
  pub subject : Text
  pub user_id : ℤ
  pub token_id : Text
  pub audience : Text
  pub role : Text
  pub issued_at : ℤ
  pub expires_at : ℤ

-- The `TokenError`s by their messages, and two exceptions that are none: the `UnicodeEncodeError` of
-- `signing_input.encode("ascii")`, and the `RecursionError` of `json.loads`.
pub data TokenFailure : Type 0 where
  too_long malformed bad_signature unsupported_header wrong_issuer wrong_audience expired :
      TokenFailure
  not_integer missing : Text → TokenFailure
  not_ascii too_nested : TokenFailure

pub data Result (A : Type 0) : Type 0 where
  ok : A → Result A
  err : TokenFailure → Result A

infixl 5 ◌>>=◌ ◌>>◌
abbrev pub ◌>>=◌ : {A B : Type 0} → Result A → (A → Result B) → Result B
ok a >>= f = f a
err e >>= f = err e

abbrev pub ◌>>◌ : {B : Type 0} → Result ⊤ → Result B → Result B
m >> k = m >>= λ _. k

pub Result-cases :
    {A : Type 0} (r : Result A) → ((a : A) × (r ≡ ok a)) ⊎ ((e : TokenFailure) × (r ≡ err e))
Result-cases (ok a) = inl (a, refl)
Result-cases (err e) = inr (e, refl)

abbrev pub raise_if : Bool → TokenFailure → Result ⊤
raise_if c e = if c then err e else ok tt

abbrev pub issuer : Text
issuer = codes "pgs-api"

abbrev pub max_token_length : ℕ
max_token_length = 4096

abbrev pub header : Object
header = (codes "alg", text (codes "HS256")) ∷ (codes "typ", text (codes "JWT")) ∷ []

abbrev pub value_beq : Value → Value → Bool
value_beq (text s) (text t) = s == t
value_beq (int (pos m)) (int (pos n)) = m == n
value_beq (int (negsuc m)) (int (negsuc n)) = m == n
value_beq (boolean true) (boolean b) = b
value_beq (boolean false) (boolean b) = not b
value_beq _ _ = false

-- `claims.get(name) == value`
abbrev pub has_value : Text → Value → Object → Bool
has_value name value claims = elim (lookup name claims) [
  | none ↦ false
  | some found ↦ value_beq found value
]

-- `value == _HEADER`, for dicts of any key order.
abbrev pub is_header : Object → Bool
is_header claims =
    (length claims == 2)
    && has_value (codes "alg") (text (codes "HS256")) claims
    && has_value (codes "typ") (text (codes "JWT")) claims

unfoldable pub int_claim : Object → Text → Result ℤ
int_claim claims name = elim (lookup name claims) [
  | none ↦ err (not_integer name)
  | some (text _) ↦ err (not_integer name)
  | some (int value) ↦ ok value
  | some (boolean _) ↦ err (not_integer name)
  | some other ↦ err (not_integer name)
]

unfoldable pub str_claim : Object → Text → Result Text
str_claim claims name = elim (lookup name claims) [
  | none ↦ err (missing name)
  | some (text value) ↦ if is_empty value then err (missing name) else ok value
  | some (int _) ↦ err (missing name)
  | some (boolean _) ↦ err (missing name)
  | some other ↦ err (missing name)
]

-- `expires_at <= now`
abbrev pub at_most : ℤ → ℕ → Bool
at_most (pos n) now = leb n now
at_most (negsuc n) now = true

abbrev pub dot : ℕ
dot = b'.'

-- `token.split(".")`: the part that is being read, then the rest.
abbrev pub add_front : ℕ → List Text → List Text
add_front c [] = (c ∷ []) ∷ []
add_front c (part ∷ parts) = (c ∷ part) ∷ parts

unfoldable pub split_dots : Text → List Text
split_dots [] = [] ∷ []
split_dots (c ∷ s) = if nat_beq c dot then [] ∷ split_dots s else add_front c (split_dots s)

-- What the token codec takes from outside: JSON and the keyed hash of the server's secret.
pub record Codec : Type 0 where
  pub dumps : Object → Bytes
  pub loads : Bytes → Loaded
  pub sign : Text → Bytes
  pub ttl_seconds : ℕ

module _ (codec : Codec) where
  abbrev pub json_segment : Object → Text
  json_segment value = b64encode (codec.dumps value)

  unfoldable pub decode_object : Text → Result Object
  decode_object segment = elim (b64decode segment) [
    | none ↦ err malformed
    | some bytes ↦ elim (codec.loads bytes) [
      | bad_json ↦ err malformed
      | not_object ↦ err malformed
      | too_deep ↦ err too_nested
      | object claims ↦ ok claims
    ]
  ]

  -- `_sign`, with its `encode("ascii")`.
  unfoldable pub sign_text : Text → Result Bytes
  sign_text input = if all (λ c. ltb c 128) input then ok (codec.sign input) else err not_ascii

  abbrev pub lifetime : Option ℕ → ℕ
  lifetime none = codec.ttl_seconds
  lifetime (some ttl) = if ttl == 0 then codec.ttl_seconds else ttl

  abbrev pub issued_claims : Text → ℕ → Text → Text → Option ℕ → Text → ℕ → Object
  issued_claims subject user_id role audience ttl token_id now =
      (codes "iss", text issuer)
      ∷ (codes "aud", text audience)
      ∷ (codes "jti", text token_id)
      ∷ (codes "sub", text subject)
      ∷ (codes "uid", int (pos user_id))
      ∷ (codes "role", text role)
      ∷ (codes "iat", int (pos now))
      ∷ (codes "exp", int (pos (now + lifetime ttl)))
      ∷ []

  abbrev pub signing_input : Object → Text
  signing_input claims = json_segment header ++ dot ∷ json_segment claims

  -- `token_id` is what `secrets.token_urlsafe(16)` gives.
  unfoldable pub issue : Text → ℕ → Text → Text → Option ℕ → Text → ℕ → Result Text
  unfolding sign_text
  issue subject user_id role audience ttl token_id now = do
    let input = signing_input (issued_claims subject user_id role audience ttl token_id now)
    signature ← sign_text input
    ok (input ++ dot ∷ b64encode signature)

  -- The claims, once the signature has been found to be ours.
  unfoldable pub read_claims : Text → ℕ → Object → Result TokenClaims
  read_claims audience now claims = do
    raise_if (not (has_value (codes "iss") (text issuer) claims)) wrong_issuer
    raise_if (not (has_value (codes "aud") (text audience) claims)) wrong_audience
    expires_at ← int_claim claims (codes "exp")
    raise_if (at_most expires_at now) expired
    subject ← str_claim claims (codes "sub")
    user_id ← int_claim claims (codes "uid")
    token_id ← str_claim claims (codes "jti")
    role ← str_claim claims (codes "role")
    issued_at ← int_claim claims (codes "iat")
    ok (record {
      subject = subject;
      user_id = user_id;
      token_id = token_id;
      audience = audience;
      role = role;
      issued_at = issued_at;
      expires_at = expires_at;
    })

  unfoldable pub verify_parts : Text → ℕ → Text → Text → Text → Result TokenClaims
  verify_parts audience now header_segment claims_segment signature_segment = do
    signature ← elim (b64decode signature_segment) [ none ↦ err malformed | some s ↦ ok s ]
    expected ← sign_text (header_segment ++ dot ∷ claims_segment)
    raise_if (not (signature == expected)) bad_signature
    found ← decode_object header_segment
    raise_if (not (is_header found)) unsupported_header
    claims ← decode_object claims_segment
    read_claims audience now claims

  -- `parts = token.split(".")` and the check that there are three.
  unfoldable pub verify_split : Text → ℕ → List Text → Result TokenClaims
  unfolding verify_parts
  verify_split audience now (h ∷ c ∷ s ∷ []) = verify_parts audience now h c s
  verify_split audience now _ = err malformed

  unfoldable pub verify : Text → Text → ℕ → Result TokenClaims
  unfolding verify_split split_dots
  verify token audience now =
      if ltb max_token_length (length token)
      then err too_long
      else verify_split audience now (split_dots token)
