-- ===== src/Api/Tokens/Tests.antt =====
-- The token theorems at a codec whose JSON knows the header and one dict of claims, and whose
-- signatures are all alike.
use pgs_search_engine.Base.{
  ◌≤◌, ◌≡◌, refl, ◌↔◌, none, some, [], ◌∷◌, arith, if◌then◌else◌, ◌==◌, nat_eq, length,
}
use pgs_search_engine.Api.Tokens.Outcomes.{IsOutsideAscii, verify-not_ascii}
use pgs_search_engine.Base.Text.{Text, text_eq, codes}
use pgs_search_engine.Base.Int.{pos}
use pgs_search_engine.Api.Base64.{b64encode, b64decode}
use pgs_search_engine.Api.Tokens.{
  Object, Loaded, object, bad_json, TokenClaims, Codec, header, issued_claims, signing_input,
  is_header, issue, verify, dot, ok, err, not_ascii, split_dots, json_segment, max_token_length,
}
use pgs_search_engine.Api.Tokens
use pgs_search_engine.Api.Tokens.Verify.{
  IsSigned, RoundTrips, IsSignature, verify-IsSigned, verify-issue,
}

abbrev audience : Text
audience = codes "user"

abbrev sample_claims : Object
sample_claims =
    (codes "iss", Tokens.text (codes "pgs-api"))
    ∷ (codes "aud", Tokens.text audience)
    ∷ (codes "jti", Tokens.text (codes "t"))
    ∷ (codes "sub", Tokens.text (codes "a"))
    ∷ (codes "uid", Tokens.int (pos 7))
    ∷ (codes "role", Tokens.text (codes "USER"))
    ∷ (codes "iat", Tokens.int (pos 100))
    ∷ (codes "exp", Tokens.int (pos 160))
    ∷ []

abbrev small_codec : Codec
small_codec = record {
  dumps = λ o. if is_header o then 1 ∷ [] else 2 ∷ [];
  loads = λ bytes.
      if bytes == 1 ∷ []
      then object header
      else if bytes == 2 ∷ []
      then object sample_claims
      else bad_json;
  sign = λ input. 7 ∷ [];
  ttl_seconds = 60;
}

abbrev token : Text
token = codes "AQ.Ag.Bw"

abbrev expected : TokenClaims
expected = record {
  subject = codes "a";
  user_id = pos 7;
  token_id = codes "t";
  audience = audience;
  role = codes "USER";
  issued_at = pos 100;
  expires_at = pos 160;
}

header_again : RoundTrips small_codec header
header_again = record {
  again = header;
  dumped = (omega arith, tt);
  not_empty = λ e. cc;
  loaded = refl;
  count = refl;
  entries = λ name. refl;
}

claims_again : RoundTrips small_codec sample_claims
claims_again = record {
  again = sample_claims;
  dumped = (omega arith, tt);
  not_empty = λ e. cc;
  loaded = refl;
  count = refl;
  entries = λ name. refl;
}

seven-IsSignature : IsSignature (7 ∷ [])
seven-IsSignature = record { bytes = (omega arith, tt); not_empty = λ e. cc }

issued : issue small_codec (codes "a") 7 (codes "USER") audience none (codes "t") 100 ≡ ok token
unfolding issue b64encode
issued = refl

accepted : verify small_codec token audience 120 ≡ ok expected
unfolding verify b64decode Tokens.sign_text Tokens.decode_object Tokens.read_claims Tokens.int_claim
    Tokens.str_claim
accepted = refl

verify-IsSigned_example : IsSigned small_codec token audience 120 expected
verify-IsSigned_example = verify-IsSigned small_codec token audience 120 expected accepted

verify-issue_example : verify small_codec token audience 120 ≡ ok expected
verify-issue_example =
    verify-issue small_codec (codes "a") (codes "USER") audience audience (codes "t") 7 100 120 none
      token header_again claims_again seven-IsSignature (λ e. cc) (λ e. cc) (λ e. cc) issued
      (omega arith)

-- Two characters outside ASCII where the header and the claims should be.
abbrev strange_token : Text
strange_token = 233 ∷ dot ∷ 233 ∷ dot ∷ codes "Bw"

strange_parts : split_dots strange_token ≡ (233 ∷ []) ∷ (233 ∷ []) ∷ codes "Bw" ∷ []
unfolding split_dots
strange_parts = refl

strange_signature : b64decode (codes "Bw") ≡ some (7 ∷ [])
unfolding b64decode
strange_signature = refl

verify-not_ascii_example :
    (verify small_codec strange_token audience 120 ≡ err not_ascii)
    ↔ ((length strange_token ≤ max_token_length) × IsOutsideAscii (split_dots strange_token))
verify-not_ascii_example = verify-not_ascii small_codec strange_token audience 120

strange_test : verify small_codec strange_token audience 120 ≡ err not_ascii
strange_test =
    (verify-not_ascii small_codec strange_token audience 120).1 (
      omega arith,
      (233 ∷ [], 233 ∷ [], codes "Bw", 7 ∷ [], strange_parts, strange_signature, refl),
    )
