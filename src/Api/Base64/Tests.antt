-- ===== src/Api/Base64/Tests.antt =====
-- The round trip at three bytes.
use pgs_search_engine.Base.{◌≡◌, some, [], ◌∷◌, arith, nat_eq}
use pgs_search_engine.Api.Base64.{b64encode, b64decode}
use pgs_search_engine.Api.Base64.RoundTrip.{b64decode-b64encode}

b64decode-b64encode_example :
    b64decode (b64encode (0 ∷ 255 ∷ 16 ∷ 7 ∷ [])) ≡ some (0 ∷ 255 ∷ 16 ∷ 7 ∷ [])
b64decode-b64encode_example =
    b64decode-b64encode (0 ∷ 255 ∷ 16 ∷ 7 ∷ [])
      (omega arith, (omega arith, (omega arith, (omega arith, tt)))) (λ e. cc)
