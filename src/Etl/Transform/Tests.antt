-- ===== src/Etl/Transform/Tests.antt =====
-- ETL/spark/transform.py: runs, and the theorems at concrete inputs.
use mathlib.Core.List.{append_assoc, append-nil}
use pgs_search_engine.Base.{
  ℕ, zero, suc, ◌+◌, ◌-◌, ◌*◌, ◌/◌, ◌%◌, ◌^◌, ◌<◌, ◌≡◌, refl, sym, ap, ◌∙◌, true, ◌||◌, Option,
  none, some, [], ◌∷◌, ◌++◌, map, arith, ltb, if◌then◌else◌, nat_eq, length, count_if,
}
use pgs_search_engine.Base.Text.{Text, text_eq, codes, between, words}
use pgs_search_engine.Base.Int.{ℤ, pos}
use pgs_search_engine.Etl.Transform.{
  Unicode, start_tag, end_tag, data_run, normalize_text, tokenize, extract_html_text, ne, mixed,
  unknown, language_of,
}
use pgs_search_engine.Etl.Transform.Fingerprint.{hex, hex_digit, simhash_text, transform_document}
use pgs_search_engine.Etl.Transform.Majority.{bit, simhash_text-bit}
use pgs_search_engine.Etl.Transform.Stored.{payload_simhash-transform_document}
use pgs_search_engine.Database.Pages.Simhash.{
  signed_simhash, unsigned_simhash, fits_int64, payload_simhash, in_hex,
}

-- Words between spaces, markup that is one run of text, and digests by length.
abbrev toy : Unicode
toy = record {
  lower = λ t. t;
  is_alpha = λ c. between 97 122 c || between 0x900 0x97f c;
  nfc = λ t. t;
  find_words = words;
  feed = λ t.
      start_tag (codes "nav") ∷ data_run (codes "menu") ∷ end_tag (codes "nav") ∷ data_run t ∷ [];
  encode = λ t. t;
  sha256_hex = λ bytes. bytes;
  sha256_low64 = length;
}

normalize_text_test : normalize_text toy (codes "  one\n two ") ≡ codes "one two"
unfolding normalize_text
normalize_text_test = refl

extract_html_text_test : extract_html_text toy (codes "one") ≡ codes "menuone"
unfolding extract_html_text words
extract_html_text_test = refl

-- The digests are 3, 3 and 5: the bits 0 and 1 have a majority.
simhash_text_test : simhash_text toy (codes "one two three") ≡ 3
unfolding simhash_text words
simhash_text_test = refl

hex_test : hex 16 (simhash_text toy (codes "one two three")) ≡ codes "0000000000000003"
unfolding simhash_text hex words
hex_test = refl

detect_language_test :
    (language_of 8 2 ≡ ne) × (language_of 1 2 ≡ mixed) × (language_of 0 0 ≡ unknown)
unfolding language_of
detect_language_test = (refl, refl, refl)

-- `int(raw, 16)`, of the digits that `hex` prints.
abbrev digit_of : ℕ → ℕ
digit_of c = if ltb c 87 then c - 48 else c - 87

abbrev read_hex : ℕ → Text → ℕ
read_hex n [] = n
read_hex n (c ∷ t) = read_hex (n * 16 + digit_of c) t

digit_of-hex_digit : (d : ℕ) → d < 16 → digit_of (hex_digit d) ≡ d
digit_of-hex_digit d h = ground arith

read_hex-hex : (w n : ℕ) (t : Text) → n < 16 ^ w → read_hex 0 (hex w n ++ t) ≡ read_hex n t
unfolding hex
read_hex-hex zero n t h = ap (λ m. read_hex m t) (omega arith)
read_hex-hex (suc w) n t h =
    ap (λ u. read_hex 0 u) (append_assoc (hex w (n / 16)) (hex_digit (n % 16) ∷ []) t)
    ∙ read_hex-hex w (n / 16) (hex_digit (n % 16) ∷ t) (omega arith)
    ∙ ap (λ m. read_hex m t) (last_digit)
  where
    last_digit : (n / 16) * 16 + digit_of (hex_digit (n % 16)) ≡ n
    last_digit = rw (digit_of-hex_digit (n % 16) (omega arith)) (omega arith)

abbrev int16 : Text → Option ℤ
int16 t = some (pos (read_hex 0 t))

int16-hex : (n : ℕ) → n < 2 ^ 64 → int16 (hex 16 n) ≡ some (pos n)
int16-hex n h =
    ap (λ m. some (pos m))
      (ap (λ u. read_hex 0 u) (sym (append-nil (hex 16 n))) ∙ read_hex-hex 16 n [] h)

payload_simhash-transform_document_example :
    (payload_simhash int16 none (
        some
          (in_hex (transform_document toy (codes "u") (codes "one two three") [] [] [] []).simhash))
      ≡ some (
          some
            (signed_simhash (pos (simhash_text toy (normalize_text toy (codes "one two three")))))))
    × (fits_int64
          (signed_simhash (pos (simhash_text toy (normalize_text toy (codes "one two three")))))
        ≡ true)
    × (unsigned_simhash
          (signed_simhash (pos (simhash_text toy (normalize_text toy (codes "one two three")))))
        ≡ pos (simhash_text toy (normalize_text toy (codes "one two three"))))
payload_simhash-transform_document_example =
    payload_simhash-transform_document int16 int16-hex toy (codes "u") (codes "one two three") [] []
      [] []

simhash_text-bit_example :
    bit 1 (simhash_text toy (codes "one two three"))
    ≡ ltb
        (length (tokenize toy (codes "one two three")))
        (2 * count_if (bit 1) (map toy.sha256_low64 (tokenize toy (codes "one two three"))))
simhash_text-bit_example = simhash_text-bit toy (codes "one two three") 1 (omega arith)
