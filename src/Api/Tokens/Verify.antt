-- ===== src/Api/Tokens/Verify.antt =====
-- What `verify` accepts, and what it makes of the tokens that `issue` writes.
use pgs_search_engine.Base.{
  ℕ, ◌+◌, ◌≤◌, ◌≡◌, refl, sym, ap, ◌∙◌, ◌≢◌, inl, inr, true, false, Option, none, some, List, [],
  ◌∷◌, ◌++◌, arith, ltb, leb, if◌then◌else◌, Option-cases, ◌==◌, nat_eq, beq_self, beq→eq, length,
  All,
}
use pgs_search_engine.Api.Tokens.{
  Value, text, int, boolean, other, has_value, issuer, missing, not_integer, max_token_length,
  issue, is_header, Result-cases, Object, object, TokenClaims, wrong_audience, expired, ok, err,
  header, int_claim, str_claim, at_most, dot, split_dots, Codec, json_segment, decode_object,
  sign_text, lifetime, issued_claims, signing_input, read_claims, verify_parts, verify_split,
  verify,
}
use pgs_search_engine.Base.Int.{ℤ, pos}
use pgs_search_engine.Base.Text.{is_empty, Text, text_eq, codes}
use pgs_search_engine.Api.Tokens.Segments.{
  encoded_no_dot, split_dots-no_dot, split_dots-dot, no_dot, encoded_ascii, is_ascii-join,
}
use pgs_search_engine.Api.Base64.{b64encode, Bytes, b64decode}
use mathlib.Core.List.{append_assoc}
use pgs_search_engine.Base.Dict.{lookup}
use pgs_search_engine.Api.Base64.RoundTrip.{IsByte, b64decode-b64encode}

-- The claims are what the token's object says, which names this server and the audience, and they have
-- not expired.
abbrev pub IsReadFrom : Text → ℕ → TokenClaims → Object → Type 0
IsReadFrom audience now claims found =
    (has_value (codes "iss") (text issuer) found ≡ true)
    × (has_value (codes "aud") (text audience) found ≡ true)
    × (lookup (codes "uid") found ≡ some (int claims.user_id))
    × (lookup (codes "sub") found ≡ some (text claims.subject))
    × (lookup (codes "jti") found ≡ some (text claims.token_id))
    × (lookup (codes "exp") found ≡ some (int claims.expires_at))
    × (at_most claims.expires_at now ≡ false)

-- What an accepted token is made of.
pub record IsSigned (codec : Codec) (token audience : Text) (now : ℕ) (claims : TokenClaims)
    : Type 0 where
  pub header_segment : Text
  pub claims_segment : Text
  pub signature_segment : Text
  pub split : split_dots token ≡ header_segment ∷ claims_segment ∷ signature_segment ∷ []
  pub signature :
      b64decode signature_segment ≡ some (codec.sign (header_segment ++ dot ∷ claims_segment))
  pub header_found : Object
  pub header_read : decode_object codec header_segment ≡ ok header_found
  pub hs256 : is_header header_found ≡ true
  pub found : Object
  pub claims_read : decode_object codec claims_segment ≡ ok found
  pub read_from : IsReadFrom audience now claims found

int_claim-ok :
    (name : Text) (claims : Object) (value : ℤ)
    → int_claim claims name ≡ ok value
    → lookup name claims ≡ some (int value)
unfolding int_claim
int_claim-ok name claims value h = read (lookup name claims) h
  where
    read :
        (o : Option Value)
        → (elim o [
          | none ↦ err (not_integer name)
          | some (text _) ↦ err (not_integer name)
          | some (int value) ↦ ok value
          | some (boolean _) ↦ err (not_integer name)
          | some other ↦ err (not_integer name)
        ])
          ≡ ok value
        → o ≡ some (int value)
    read none e = absurd (ground arith)
    read (some (text t)) e = absurd (ground arith)
    read (some (int n)) e = ground arith
    read (some (boolean b)) e = absurd (ground arith)
    read (some other) e = absurd (ground arith)

str_claim-ok :
    (name : Text) (claims : Object) (value : Text)
    → str_claim claims name ≡ ok value
    → lookup name claims ≡ some (text value)
unfolding str_claim
str_claim-ok name claims value h = read (lookup name claims) h
  where
    read :
        (o : Option Value)
        → (elim o [
          | none ↦ err (missing name)
          | some (text value) ↦ if is_empty value then err (missing name) else ok value
          | some (int _) ↦ err (missing name)
          | some (boolean _) ↦ err (missing name)
          | some other ↦ err (missing name)
        ])
          ≡ ok value
        → o ≡ some (text value)
    read none e = absurd (ground arith)
    read (some (text t)) e = ground arith
    read (some (int n)) e = absurd (ground arith)
    read (some (boolean b)) e = absurd (ground arith)
    read (some other) e = absurd (ground arith)

read_claims_sound :
    (codec : Codec) (audience : Text) (now : ℕ) (found : Object) (claims : TokenClaims)
    → read_claims codec audience now found ≡ ok claims
    → IsReadFrom audience now claims found
unfolding read_claims
read_claims_sound codec audience now found claims h =
    elim (Result-cases (int_claim found (codes "exp"))) [
      | inr (failure, failed) ↦ absurd (ground arith)
      | inl (expires_at, exp) ↦ elim (Result-cases (str_claim found (codes "sub"))) [
        | inr (failure, failed) ↦ absurd (ground arith)
        | inl (subject, sub) ↦ elim (Result-cases (int_claim found (codes "uid"))) [
          | inr (failure, failed) ↦ absurd (ground arith)
          | inl (user_id, uid) ↦ elim (Result-cases (str_claim found (codes "jti"))) [
            | inr (failure, failed) ↦ absurd (ground arith)
            | inl (token_id, jti) ↦
                let found_exp = int_claim-ok (codes "exp") found expires_at exp in
                let found_sub = str_claim-ok (codes "sub") found subject sub in
                let found_uid = int_claim-ok (codes "uid") found user_id uid in
                let found_jti = str_claim-ok (codes "jti") found token_id jti in
                (
                  ground arith,
                  ground arith,
                  ground arith,
                  ground arith,
                  ground arith,
                  ground arith,
                  ground arith,
                )
          ]
        ]
      ]
    ]

sign_text-ok :
    (codec : Codec) (input : Text) (signature : Bytes)
    → sign_text codec input ≡ ok signature
    → signature ≡ codec.sign input
unfolding sign_text
sign_text-ok codec input signature h = ground arith

-- What the three parts of an accepted token are.
abbrev AreSigned : Codec → Text → ℕ → Text → Text → Text → TokenClaims → Type 0
AreSigned codec audience now h c s claims =
    (b64decode s ≡ some (codec.sign (h ++ dot ∷ c)))
    × ((header_found : Object) × (decode_object codec h ≡ ok header_found)
        × (is_header header_found ≡ true))
    × ((found : Object) × (decode_object codec c ≡ ok found) × IsReadFrom audience now claims found)

verify_parts_sound :
    (codec : Codec) (audience : Text) (now : ℕ) (h c s : Text) (claims : TokenClaims)
    → verify_parts codec audience now h c s ≡ ok claims
    → AreSigned codec audience now h c s claims
unfolding verify_parts
verify_parts_sound codec audience now h c s claims e = elim (Option-cases (b64decode s)) [
  | inl nothing ↦ absurd (ground arith)
  | inr (signature, decoded) ↦ elim (Result-cases (sign_text codec (h ++ dot ∷ c))) [
    | inr (bad, failed) ↦ absurd (ground arith)
    | inl (expected, signed) ↦ elim (Result-cases (decode_object codec h)) [
      | inr (bad, failed) ↦ absurd (ground arith)
      | inl (header_found, header_read) ↦ elim (Result-cases (decode_object codec c)) [
        | inr (bad, failed) ↦ absurd (ground arith)
        | inl (found, loaded) ↦ (
          ground
              (arith, sign_text-ok codec (h ++ dot ∷ c) expected signed, beq→eq signature expected),
          (header_found, header_read, ground arith),
          (found, loaded, read_claims_sound codec audience now found claims (ground arith)),
        )
      ]
    ]
  ]
]

verify_split_sound :
    (codec : Codec) (token audience : Text) (now : ℕ) (parts : List Text) (claims : TokenClaims)
    → split_dots token ≡ parts
    → verify_split codec audience now parts ≡ ok claims
    → IsSigned codec token audience now claims
unfolding verify_split
verify_split_sound codec token audience now (h ∷ c ∷ s ∷ []) claims p e =
    let (signed, (header_found, header_read, hs256), (found, claims_read, read_from)) =
      verify_parts_sound codec audience now h c s claims e in
    record {
      header_segment = h;
      claims_segment = c;
      signature_segment = s;
      split = p;
      signature = signed;
      header_found = header_found;
      header_read = header_read;
      hs256 = hs256;
      found = found;
      claims_read = claims_read;
      read_from = read_from;
    }
verify_split_sound codec token audience now _ claims p e = absurd (ground arith)

-- An accepted token has three parts, the last of which decodes to the server's signature of the
-- other two. The first is the HS256 header; the second is an object that names this server as its
-- issuer and the audience that was asked for, from which the user, subject, token id and expiry are
-- read, and it has not expired.
pub verify-IsSigned :
    (codec : Codec) (token audience : Text) (now : ℕ) (claims : TokenClaims)
    → verify codec token audience now ≡ ok claims
    → IsSigned codec token audience now claims
unfolding verify
verify-IsSigned codec token audience now claims e =
    verify_split_sound codec token audience now (split_dots token) claims refl (ground arith)

-- What the code relies on of `json`: loading a dumped dict gives its entries back.
pub record RoundTrips (codec : Codec) (value : Object) : Type 0 where
  pub again : Object
  pub dumped : All IsByte (codec.dumps value)
  pub not_empty : codec.dumps value ≢ []
  pub loaded : codec.loads (codec.dumps value) ≡ object again
  pub count : length again ≡ length value
  pub entries : (name : Text) → lookup name again ≡ lookup name value

-- A signature is a byte string that is not empty.
pub record IsSignature (signature : Bytes) : Type 0 where
  pub bytes : All IsByte signature
  pub not_empty : signature ≢ []

decode_object-segment :
    (codec : Codec) (value : Object) (r : RoundTrips codec value)
    → decode_object codec (json_segment codec value) ≡ ok r.again
unfolding decode_object
decode_object-segment codec value r =
    ground (arith, r.loaded, b64decode-b64encode (codec.dumps value) r.dumped r.not_empty)

is_header-again : (codec : Codec) (r : RoundTrips codec header) → is_header r.again ≡ true
is_header-again codec r = ground (arith, r.count, r.entries (codes "alg"), r.entries (codes "typ"))

-- `verify_parts` on the three segments that `issue` joins.
verify_parts-issued :
    (codec : Codec) (claims : Object) (wanted : Text) (later : ℕ) (rh : RoundTrips codec header)
    (rc : RoundTrips codec claims)
    → IsSignature (codec.sign (signing_input codec claims))
    → verify_parts codec wanted later
        (json_segment codec header)
        (json_segment codec claims)
        (b64encode (codec.sign (signing_input codec claims)))
      ≡ read_claims codec wanted later rc.again
unfolding verify_parts sign_text
verify_parts-issued codec claims wanted later rh rc rs =
    let input = signing_input codec claims in
    let ascii =
      is_ascii-join (json_segment codec header) (json_segment codec claims)
        (encoded_ascii (codec.dumps header) rh.dumped)
        (encoded_ascii (codec.dumps claims) rc.dumped) in
    ground (
      arith,
      ascii,
      b64decode-b64encode (codec.sign input) rs.bytes rs.not_empty,
      beq_self (codec.sign input),
      decode_object-segment codec header rh,
      is_header-again codec rh,
      decode_object-segment codec claims rc,
    )

-- `issue` succeeds, and its token splits into the three segments.
issue-eq_ok :
    (codec : Codec) (subject role audience token_id : Text) (user_id now : ℕ) (ttl : Option ℕ)
    → let claims = issued_claims codec subject user_id role audience ttl token_id now in
      (rh : RoundTrips codec header) (rc : RoundTrips codec claims)
      → let signature = b64encode (codec.sign (signing_input codec claims)) in
        issue codec subject user_id role audience ttl token_id now
        ≡ ok (signing_input codec claims ++ dot ∷ signature)
unfolding issue sign_text
issue-eq_ok codec subject role audience token_id user_id now ttl rh rc =
    let claims = issued_claims codec subject user_id role audience ttl token_id now in
    ground (
      arith,
      is_ascii-join (json_segment codec header) (json_segment codec claims)
          (encoded_ascii (codec.dumps header) rh.dumped)
          (encoded_ascii (codec.dumps claims) rc.dumped),
    )

split_dots-issued :
    (h c s : Text)
    → no_dot h ≡ true
    → no_dot c ≡ true
    → no_dot s ≡ true
    → split_dots ((h ++ dot ∷ c) ++ dot ∷ s) ≡ h ∷ c ∷ s ∷ []
split_dots-issued h c s nh nc ns = rw (
  append_assoc h (dot ∷ c) (dot ∷ s),
  split_dots-dot h (c ++ dot ∷ s) nh,
  split_dots-dot c s nc,
  split_dots-no_dot s ns,
)

-- Reading back the claims that `issue` wrote, whatever the order of their keys.
read_claims-issued :
    (codec : Codec) (again : Object) (subject role wanted audience token_id : Text)
    (user_id now later : ℕ) (ttl : Option ℕ)
    → subject ≢ []
    → role ≢ []
    → token_id ≢ []
    → ((name : Text)
        → lookup name again
          ≡ lookup name (issued_claims codec subject user_id role audience ttl token_id now))
    → read_claims codec wanted later again ≡ (
        if audience == wanted
        then if leb (now + lifetime codec ttl) later
          then err expired
          else ok (record {
            subject = subject;
            user_id = pos user_id;
            token_id = token_id;
            audience = wanted;
            role = role;
            issued_at = pos now;
            expires_at = pos (now + lifetime codec ttl);
          })
        else err wrong_audience)
unfolding read_claims int_claim str_claim
read_claims-issued codec again subject role wanted audience token_id user_id now later ttl hs hr ht
      e =
    ground (
      arith,
      e (codes "iss"),
      e (codes "aud"),
      e (codes "exp"),
      e (codes "sub"),
      e (codes "uid"),
      e (codes "jti"),
      e (codes "role"),
      e (codes "iat"),
    )

-- A token that `issue` wrote, of at most 4096 characters, is accepted with the claims it was issued
-- with, for its own audience and until it expires; after that it is refused as expired, and for
-- another audience it is refused at any time. Subject, role and token id are not empty.
pub verify-issue :
    (codec : Codec) (subject role audience wanted token_id : Text) (user_id now later : ℕ)
    (ttl : Option ℕ) (token : Text)
    → RoundTrips codec header
    → RoundTrips codec (issued_claims codec subject user_id role audience ttl token_id now)
    → IsSignature (
        codec.sign (
          signing_input codec (issued_claims codec subject user_id role audience ttl token_id now)))
    → subject ≢ []
    → role ≢ []
    → token_id ≢ []
    → issue codec subject user_id role audience ttl token_id now ≡ ok token
    → length token ≤ max_token_length
    → verify codec token wanted later ≡ (
        if audience == wanted
        then if leb (now + lifetime codec ttl) later
          then err expired
          else ok (record {
            subject = subject;
            user_id = pos user_id;
            token_id = token_id;
            audience = wanted;
            role = role;
            issued_at = pos now;
            expires_at = pos (now + lifetime codec ttl);
          })
        else err wrong_audience)
unfolding verify verify_split
verify-issue codec subject role audience wanted token_id user_id now later ttl token rh rc rs hs hr
      ht e short =
    let claims = issued_claims codec subject user_id role audience ttl token_id now in
    let signature = codec.sign (signing_input codec claims) in
    let split =
      split_dots-issued (json_segment codec header) (json_segment codec claims)
        (b64encode signature) (encoded_no_dot (codec.dumps header) rh.dumped)
        (encoded_no_dot (codec.dumps claims) rc.dumped) (encoded_no_dot signature rs.bytes) in
    let whole : ok (signing_input codec claims ++ dot ∷ b64encode signature) ≡ ok token =
      sym (issue-eq_ok codec subject role audience token_id user_id now ttl rh rc) ∙ e in
    let same : token ≡ signing_input codec claims ++ dot ∷ b64encode signature = cc in
    let fits : ltb max_token_length (length token) ≡ false = ground arith in
    ground (
      arith,
      fits,
      ap split_dots same,
      split,
      verify_parts-issued codec claims wanted later rh rc rs,
      read_claims-issued codec rc.again subject role wanted audience token_id user_id now later ttl
          hs hr ht rc.entries,
    )
