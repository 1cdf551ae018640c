-- ===== src/Etl/Transform/Fingerprint.antt =====
-- ETL/spark/transform.py: the SimHash of a text, and the record of a page.
use pgs_search_engine.Base.{
  ℕ, zero, suc, ◌+◌, ◌*◌, ◌/◌, ◌%◌, Bool, true, false, Option, none, some, List, [], ◌∷◌, ◌++◌, map,
  ltb, if◌then◌else◌, ◌==◌, nat_eq, length,
}
use pgs_search_engine.Base.Text.{Text, text_eq}
use pgs_search_engine.Base.Int.{ℤ, pos, negsuc}
use pgs_search_engine.Etl.Transform.{
  Unicode, LanguageCode, normalize_text, tokenize, detect_language,
}

-- `w += 1` and `w += -1`
abbrev pub up : ℤ → ℤ
up (pos n) = pos (suc n)
up (negsuc zero) = pos 0
up (negsuc (suc n)) = negsuc n

abbrev pub down : ℤ → ℤ
down (pos zero) = negsuc 0
down (pos (suc n)) = pos n
down (negsuc n) = negsuc (suc n)

abbrev pub is_positive : ℤ → Bool
is_positive (pos (suc _)) = true
is_positive _ = false

-- `[0] * bits`
abbrev pub zeros : ℕ → List ℤ
zeros zero = []
zeros (suc n) = pos 0 ∷ zeros n

-- The loop on the indices, for one token. `digest & (1 << index)` is the lowest bit of the digest
-- that has been halved `index` times.
unfoldable pub vote : ℕ → List ℤ → List ℤ
vote digest [] = []
vote digest (w ∷ weights) = (if digest % 2 == 1 then up w else down w) ∷ vote (digest / 2) weights

-- The loop on the tokens, by their digests.
unfoldable pub tally : List ℕ → List ℤ → List ℤ
unfolding vote
tally [] weights = weights
tally (digest ∷ digests) weights = tally digests (vote digest weights)

-- The bits `1 << index` of the weights above 0. They differ, so that `|=` adds them.
unfoldable pub fingerprint : List ℤ → ℕ
fingerprint [] = 0
fingerprint (w ∷ weights) = (if is_positive w then 1 else 0) + 2 * fingerprint weights

abbrev pub simhash_bits : ℕ
simhash_bits = 64

unfoldable pub simhash_of : ℕ → List ℕ → ℕ
unfolding tally fingerprint
simhash_of bits [] = 0
simhash_of bits (d ∷ ds) = fingerprint (tally (d ∷ ds) (zeros bits))

pub record PageRecord {ℓ} (Link : Type ℓ) : Type ℓ where
  pub source_url : Link
  pub object_key : Text
  pub target_domain : Text
  pub title : Text
  pub description : Option Text
  pub language_detected : LanguageCode
  pub searchable_text : Text
  pub word_count : ℕ
  pub char_count : ℕ
  pub content_sha256 : Text
  pub simhash : Text

-- `s or None`
abbrev pub or_none : Text → Option Text
or_none [] = none
or_none (c ∷ s) = some (c ∷ s)

-- One hexadecimal digit.
abbrev pub hex_digit : ℕ → ℕ
hex_digit d = if ltb d 10 then 48 + d else 87 + d

-- `f"{n:016x}"` of a number below 2 ** 64: its sixteen digits.
unfoldable pub hex : ℕ → ℕ → Text
hex zero n = []
hex (suc width) n = hex width (n / 16) ++ hex_digit (n % 16) ∷ []

module _ (py : Unicode) where
  unfoldable pub simhash_text : Text → ℕ
  unfolding tokenize simhash_of
  simhash_text text = simhash_of simhash_bits (map py.sha256_low64 (tokenize py text))

  unfoldable pub sha256_text : Text → Text
  unfolding normalize_text
  sha256_text text = py.sha256_hex (py.encode (normalize_text py text))

  module _ {ℓ} {Link : Type ℓ} where
    unfoldable pub transform_document : Link → Text → Text → Text → Text → Text → PageRecord Link
    unfolding normalize_text tokenize detect_language simhash_text sha256_text hex
    transform_document source_url text title description target_domain object_key =
        let normalized = normalize_text py text in
        record {
          source_url = source_url;
          object_key = object_key;
          target_domain = target_domain;
          title = normalize_text py title;
          description = or_none (normalize_text py description);
          language_detected = detect_language py.is_alpha normalized;
          searchable_text = normalized;
          word_count = length (tokenize py normalized);
          char_count = length normalized;
          content_sha256 = sha256_text normalized;
          simhash = hex 16 (simhash_text normalized);
        }
