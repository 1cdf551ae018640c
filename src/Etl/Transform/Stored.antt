-- ===== src/Etl/Transform/Stored.antt =====
-- From ETL/spark/transform.py to the pages of Silver: a page's fingerprint on its way through text.
use pgs_search_engine.Base.{
  ℕ, suc, ◌/◌, ◌%◌, ◌^◌, ◌<◌, ◌≡◌, refl, true, false, Option, none, some, [], ◌∷◌, ◌++◌, lt→ltb,
  nat_eq,
}
use pgs_search_engine.Base.Text.{Text, text_eq, is_empty}
use pgs_search_engine.Base.Int.{ℤ, pos}
use pgs_search_engine.Etl.Transform.{Unicode, normalize_text}
use pgs_search_engine.Etl.Transform.Fingerprint.{hex, hex_digit, simhash_text, transform_document}
use pgs_search_engine.Etl.Transform.Majority.{simhash_text-bound}
use pgs_search_engine.Database.Pages.Simhash.{
  signed_simhash, unsigned_simhash, fits_int64, payload_simhash, in_hex, checked_simhash,
  unsigned_simhash-signed_simhash,
}

payload_simhash-text :
    (int16 : Text → Option ℤ) (t : Text) (n : ℕ)
    → is_empty t ≡ false
    → int16 t ≡ some (pos n)
    → n < 2 ^ 64
    → payload_simhash int16 none (some (in_hex t)) ≡ some (some (signed_simhash (pos n)))
unfolding payload_simhash
payload_simhash-text int16 [] n full reads h = cc
payload_simhash-text int16 (c ∷ t) n full reads h =
    rw (payload_simhash, reads, checked_simhash, lt→ltb n (2 ^ 64) h) refl

is_empty-snoc : (t : Text) (c : ℕ) → is_empty (t ++ c ∷ []) ≡ false
is_empty-snoc [] c = refl
is_empty-snoc (d ∷ t) c = refl

hex-full : (w n : ℕ) → is_empty (hex (suc w) n) ≡ false
unfolding hex
hex-full w n = is_empty-snoc (hex w (n / 16)) (hex_digit (n % 16))

module _ (int16 : Text → Option ℤ)
    -- `int(raw, 16)` of a number's sixteen digits is the number.
    (int16-hex : (n : ℕ) → n < 2 ^ 64 → int16 (hex 16 n) ≡ some (pos n)) where
  payload_simhash-hex :
      (n : ℕ)
      → n < 2 ^ 64
      → payload_simhash int16 none (some (in_hex (hex 16 n))) ≡ some (some (signed_simhash (pos n)))
  payload_simhash-hex n h = payload_simhash-text int16 (hex 16 n) n is_full (int16-hex n h) h
    where
      is_full : is_empty (hex 16 n) ≡ false
      is_full = hex-full 15 n

  -- The sixteen digits that a page's record has for its SimHash are stored as one signed number of
  -- 64 bits, and reading that number as an unsigned one gives the SimHash of the page's text.
  pub payload_simhash-transform_document :
      {Link : Type 0} (py : Unicode) (url : Link) (text title description domain object_key : Text)
      → (payload_simhash int16 none (
            some
              (in_hex (transform_document py url text title description domain object_key).simhash))
          ≡ some (some (signed_simhash (pos (simhash_text py (normalize_text py text))))))
        × (fits_int64 (signed_simhash (pos (simhash_text py (normalize_text py text)))) ≡ true)
        × (unsigned_simhash (signed_simhash (pos (simhash_text py (normalize_text py text))))
            ≡ pos (simhash_text py (normalize_text py text)))
  unfolding transform_document
  payload_simhash-transform_document py url text title description domain object_key =
      let h = simhash_text-bound py (normalize_text py text) in
      let n = simhash_text py (normalize_text py text) in
      let (back, fits) = unsigned_simhash-signed_simhash n h in
      (payload_simhash-hex n h, fits, back)
