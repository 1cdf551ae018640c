-- ===== src/Api/Tokens/Outcomes.antt =====
-- api/src/pgs_api/auth/tokens.py: the outcomes of `verify` beside the claims.
use pgs_search_engine.Base.{
  ℕ, ◌≤◌, ◌≡◌, refl, ◌≢◌, ◌↔◌, inl, inr, true, false, some, List, [], ◌∷◌, ◌++◌, arith, ltb,
  Bool-cases, Option-cases, nat_eq, length,
}
use pgs_search_engine.Base.Text.{Text, text_eq}
use pgs_search_engine.Api.Base64.{Bytes, b64decode}
use pgs_search_engine.Api.Tokens.{
  Object, TokenClaims, ok, err, not_ascii, int_claim, str_claim, dot, split_dots, Codec,
  decode_object, sign_text, read_claims, verify_parts, verify_split, verify, Result-cases,
  max_token_length,
}
use pgs_search_engine.Api.Tokens.Segments.{is_ascii}

read_claims_same :
    (codec : Codec) (audience : Text) (now later : ℕ) (found : Object) (c d : TokenClaims)
    → read_claims codec audience now found ≡ ok c
    → read_claims codec audience later found ≡ ok d
    → c ≡ d
unfolding read_claims
read_claims_same codec audience now later found c d h k = ground arith

verify_parts_same :
    (codec : Codec) (audience : Text) (now later : ℕ) (h c s : Text) (x y : TokenClaims)
    → verify_parts codec audience now h c s ≡ ok x
    → verify_parts codec audience later h c s ≡ ok y
    → x ≡ y
unfolding verify_parts
verify_parts_same codec audience now later h c s x y e f = elim (Option-cases (b64decode s)) [
  | inl nothing ↦ ground arith
  | inr (signature, decoded) ↦ elim (Result-cases (sign_text codec (h ++ dot ∷ c))) [
    | inr (bad, failed) ↦ ground arith
    | inl (expected, signed) ↦ elim (Result-cases (decode_object codec c)) [
      | inr (bad, failed) ↦ ground arith
      | inl (found, loaded) ↦ ground (arith, read_claims_same codec audience now later found x y)
    ]
  ]
]

verify_split_same :
    (codec : Codec) (audience : Text) (now later : ℕ) (parts : List Text) (x y : TokenClaims)
    → verify_split codec audience now parts ≡ ok x
    → verify_split codec audience later parts ≡ ok y
    → x ≡ y
unfolding verify_split
verify_split_same codec audience now later (h ∷ c ∷ s ∷ []) x y e f =
    verify_parts_same codec audience now later h c s x y e f
verify_split_same codec audience now later _ x y e f = absurd (ground arith)

-- Two checks of one token that accept it read the same claims, at any times.
pub verify_same :
    (codec : Codec) (token audience : Text) (now later : ℕ) (x y : TokenClaims)
    → verify codec token audience now ≡ ok x
    → verify codec token audience later ≡ ok y
    → x ≡ y
unfolding verify
verify_same codec token audience now later x y e f =
    verify_split_same codec audience now later (split_dots token) x y (ground arith) (ground arith)

sign_text_ascii :
    (codec : Codec) (input : Text)
    → is_ascii input ≡ true
    → sign_text codec input ≡ ok (codec.sign input)
unfolding sign_text
sign_text_ascii codec input h = ground arith

decode_object_failure :
    (codec : Codec) (segment : Text) → decode_object codec segment ≢ err not_ascii
unfolding decode_object
decode_object_failure codec segment e = ground arith

read_claims_failure :
    (codec : Codec) (audience : Text) (now : ℕ) (found : Object)
    → read_claims codec audience now found ≢ err not_ascii
unfolding read_claims int_claim str_claim
read_claims_failure codec audience now found e = ground arith

verify_parts_ascii :
    (codec : Codec) (audience : Text) (now : ℕ) (h c s : Text)
    → is_ascii (h ++ dot ∷ c) ≡ true
    → verify_parts codec audience now h c s ≢ err not_ascii
unfolding verify_parts
verify_parts_ascii codec audience now h c s ascii e = elim (Option-cases (b64decode s)) [
  | inl nothing ↦ ground arith
  | inr (signature, decoded) ↦ elim (Result-cases (decode_object codec c)) [
    | inr (bad, failed) ↦ ground (
      arith,
      sign_text_ascii codec (h ++ dot ∷ c) ascii,
      decode_object_failure codec h,
      decode_object_failure codec c,
    )
    | inl (found, loaded) ↦ ground (
      arith,
      sign_text_ascii codec (h ++ dot ∷ c) ascii,
      decode_object_failure codec h,
      read_claims_failure codec audience now found,
    )
  ]
]

-- The token is cut in three, and its last part decodes, but the rest is not ASCII.
abbrev pub IsOutsideAscii : List Text → Type 0
IsOutsideAscii parts =
    (h : Text) × (c : Text) × (s : Text) × (signature : Bytes) × (parts ≡ h ∷ c ∷ s ∷ [])
    × (b64decode s ≡ some signature)
    × (is_ascii (h ++ dot ∷ c) ≡ false)

verify_split_not_ascii :
    (codec : Codec) (audience : Text) (now : ℕ) (parts : List Text)
    → verify_split codec audience now parts ≡ err not_ascii
    → IsOutsideAscii parts
unfolding verify_split verify_parts
verify_split_not_ascii codec audience now (h ∷ c ∷ s ∷ []) e = elim (Option-cases (b64decode s)) [
  | inl nothing ↦ absurd (ground arith)
  | inr (signature, decoded) ↦ elim (Bool-cases (is_ascii (h ++ dot ∷ c))) [
    | inl ascii ↦ absurd (verify_parts_ascii codec audience now h c s ascii e)
    | inr strange ↦ (h, c, s, signature, refl, decoded, strange)
  ]
]
verify_split_not_ascii codec audience now _ e = absurd (ground arith)

not_ascii_raised :
    (codec : Codec) (token audience h c s : Text) (signature : Bytes) (now : ℕ)
    → length token ≤ max_token_length
    → split_dots token ≡ h ∷ c ∷ s ∷ []
    → b64decode s ≡ some signature
    → is_ascii (h ++ dot ∷ c) ≡ false
    → verify codec token audience now ≡ err not_ascii
unfolding verify verify_split verify_parts sign_text
not_ascii_raised codec token audience h c s signature now short split decoded strange =
    ground (arith, split)

-- `verify` lets a `UnicodeEncodeError` through for exactly the tokens of at most 4096 characters that
-- have three segments, of which the last decodes and the other two, with the dot between them, are not
-- ASCII, whatever the clock, the audience, the server's secret and `json` are.
pub verify-not_ascii :
    (codec : Codec) (token audience : Text) (now : ℕ)
    → (verify codec token audience now ≡ err not_ascii)
      ↔ ((length token ≤ max_token_length) × IsOutsideAscii (split_dots token))
unfolding verify
verify-not_ascii codec token audience now = (
  λ e. elim (Bool-cases (ltb max_token_length (length token))) [
    | inl long ↦ absurd (ground arith)
    | inr short ↦
        (ground arith, verify_split_not_ascii codec audience now (split_dots token) (ground arith))
  ],
  λ (short, (h, c, s, signature, split, decoded, strange)).
      not_ascii_raised codec token audience h c s signature now short split decoded strange,
)
