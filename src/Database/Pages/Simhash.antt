-- ===== src/Database/Pages/Simhash.antt =====
-- database/src/pgs_db/repositories/_mapping.py and silver.py: fingerprints of 64 bits in a signed
-- column, and how a payload's fingerprint is read. `int(raw, 16)` is an argument.
use pgs_search_engine.Base.{
  ℕ, ◌+◌, ◌-◌, ◌^◌, ◌<◌, ◌≡◌, refl, ap, ◌∙◌, inl, inr, Bool, true, Option, none, some, [], ◌∷◌,
  arith, ltb, leb, if◌then◌else◌, ltb→lt, lt→ltb, le→leb, Bool-cases, nat_eq,
}
use pgs_search_engine.Base.Text.{Text, text_eq}
use pgs_search_engine.Base.Int.{ℤ, pos, negsuc}

abbrev pub uint64_wrap : ℕ
uint64_wrap = 2 ^ 64

abbrev pub int64_max : ℕ
int64_max = 2 ^ 63 - 1

-- `value - UINT64_WRAP` and `value + UINT64_WRAP`
abbrev pub minus_wrap : ℕ → ℤ
minus_wrap n = if ltb n uint64_wrap then negsuc (uint64_wrap - n - 1) else pos (n - uint64_wrap)

abbrev pub plus_wrap : ℕ → ℤ
plus_wrap n = if ltb n uint64_wrap then pos (uint64_wrap - (n + 1)) else negsuc (n - uint64_wrap)

unfoldable pub signed_simhash : ℤ → ℤ
signed_simhash (pos n) = if ltb int64_max n then minus_wrap n else pos n
signed_simhash (negsuc n) = negsuc n

unfoldable pub unsigned_simhash : ℤ → ℤ
unsigned_simhash (pos n) = pos n
unsigned_simhash (negsuc n) = plus_wrap n

-- The value of a payload's key: None, a text or a number.
pub data RawFingerprint : Type 0 where
  no_value : RawFingerprint
  in_hex : Text → RawFingerprint
  as_number : ℤ → RawFingerprint

-- `payload.get("sim_hash", payload.get("simhash"))`
abbrev pub raw_fingerprint : Option RawFingerprint → Option RawFingerprint → RawFingerprint
raw_fingerprint (some raw) _ = raw
raw_fingerprint none (some raw) = raw
raw_fingerprint none none = no_value

-- `-(2**63) <= value < 2**64`
abbrev pub is_64_bit : ℤ → Bool
is_64_bit (pos n) = ltb n (2 ^ 64)
is_64_bit (negsuc n) = ltb n (2 ^ 63)

-- `_payload_simhash` of a number
abbrev pub checked_simhash : ℤ → Option (Option ℤ)
checked_simhash value = if is_64_bit value then some (some (signed_simhash value)) else none

-- None is a ValueError; the fingerprint itself may be None.
unfoldable pub payload_simhash :
    (Text → Option ℤ) → Option RawFingerprint → Option RawFingerprint → Option (Option ℤ)
unfolding signed_simhash
payload_simhash int16 sim_hash simhash = elim (raw_fingerprint sim_hash simhash) [
  | no_value ↦ some none
  | in_hex [] ↦ some none
  | in_hex (c ∷ s) ↦ elim (int16 (c ∷ s)) [ none ↦ none | some value ↦ checked_simhash value ]
  | as_number value ↦ checked_simhash value
]

-- What a signed column of 64 bits can hold.
abbrev pub fits_int64 : ℤ → Bool
fits_int64 (pos n) = leb n int64_max
fits_int64 (negsuc n) = leb n int64_max

minus_wrap-small : (n : ℕ) → n < uint64_wrap → minus_wrap n ≡ negsuc (uint64_wrap - n - 1)
minus_wrap-small n h = rw (minus_wrap, lt→ltb n uint64_wrap h) refl

plus_wrap-small : (n : ℕ) → n < uint64_wrap → plus_wrap n ≡ pos (uint64_wrap - (n + 1))
plus_wrap-small n h = rw (plus_wrap, lt→ltb n uint64_wrap h) refl

-- An unsigned number of 64 bits comes back from the column, and fits it.
pub unsigned_simhash-signed_simhash :
    (n : ℕ)
    → n < uint64_wrap
    → (unsigned_simhash (signed_simhash (pos n)) ≡ pos n)
      × (fits_int64 (signed_simhash (pos n)) ≡ true)
unfolding unsigned_simhash signed_simhash
unsigned_simhash-signed_simhash n h = elim (Bool-cases (ltb int64_max n)) [
  | inl wraps ↦
      let above : int64_max < n = ltb→lt int64_max n wraps in
      rw (signed_simhash, wraps, minus_wrap-small n h)
        (
          plus_wrap-small (uint64_wrap - n - 1) (omega arith) ∙ ap pos (omega arith),
          le→leb (uint64_wrap - n - 1) int64_max (omega arith),
        )
  | inr stays ↦ rw (signed_simhash, stays) (refl, ground arith)
]
