-- ===== src/Etl/Transform/Majority.antt =====
-- ETL/spark/transform.py: what a SimHash says of the tokens it was made from.
use pgs_search_engine.Base.{
  ℕ, zero, suc, ◌+◌, ◌*◌, ◌/◌, ◌%◌, ◌^◌, ◌<◌, ◌≡◌, refl, ap, subst, ◌∙◌, inl, inr, Bool, false,
  List, [], ◌∷◌, map, arith, ltb, if◌then◌else◌, Bool-cases, ◌==◌, nat_eq, length, length-map,
  count_if,
}
use pgs_search_engine.Base.Text.{Text, text_eq}
use pgs_search_engine.Base.Int.{ℤ, pos, negsuc}
use pgs_search_engine.Etl.Transform.{Unicode, tokenize}
use pgs_search_engine.Etl.Transform.Fingerprint.{
  up, down, is_positive, zeros, vote, tally, fingerprint, simhash_bits, simhash_of, simhash_text,
}

-- `(n >> i) & 1`
abbrev pub bit : ℕ → ℕ → Bool
bit zero n = n % 2 == 1
bit (suc i) n = bit i (n / 2)

weight : ℕ → List ℤ → ℤ
weight i [] = pos 0
weight zero (w ∷ ws) = w
weight (suc i) (w ∷ ws) = weight i ws

-- `a - b`
difference : ℕ → ℕ → ℤ
difference a zero = pos a
difference zero (suc b) = negsuc b
difference (suc a) (suc b) = difference a b

up-difference : (a b : ℕ) → up (difference a b) ≡ difference (suc a) b
unfolding difference
up-difference a zero = refl
up-difference zero (suc zero) = refl
up-difference zero (suc (suc b)) = refl
up-difference (suc a) (suc b) = up-difference a b

down-difference : (a b : ℕ) → down (difference a b) ≡ difference a (suc b)
unfolding difference
down-difference zero zero = refl
down-difference (suc a) zero = refl
down-difference zero (suc b) = refl
down-difference (suc a) (suc b) = down-difference a b

is_positive-difference : (a b : ℕ) → is_positive (difference a b) ≡ ltb b a
unfolding difference
is_positive-difference zero zero = refl
is_positive-difference (suc a) zero = ground arith
is_positive-difference zero (suc b) = ground arith
is_positive-difference (suc a) (suc b) = ground (arith, is_positive-difference a b)

bit-zero : (i : ℕ) → bit i 0 ≡ false
bit-zero zero = refl
bit-zero (suc i) = bit-zero i

bit-fingerprint : (i : ℕ) (ws : List ℤ) → bit i (fingerprint ws) ≡ is_positive (weight i ws)
unfolding fingerprint weight
bit-fingerprint i [] = bit-zero i
bit-fingerprint zero (w ∷ ws) = ground arith
bit-fingerprint (suc i) (w ∷ ws) = ground (arith, bit-fingerprint i ws)

weight-vote :
    (i d : ℕ) (ws : List ℤ)
    → i < length ws
    → weight i (vote d ws) ≡ (if bit i d then up (weight i ws) else down (weight i ws))
unfolding vote weight
weight-vote i d [] h = absurd (omega arith)
weight-vote zero d (w ∷ ws) h = refl
weight-vote (suc i) d (w ∷ ws) h = weight-vote i (d / 2) ws (omega arith)

length-vote : (d : ℕ) (ws : List ℤ) → length (vote d ws) ≡ length ws
unfolding vote
length-vote d [] = refl
length-vote d (w ∷ ws) = ap suc (length-vote (d / 2) ws)

weight-tally :
    (i a b : ℕ) (ds : List ℕ) (ws : List ℤ)
    → i < length ws
    → weight i ws ≡ difference a b
    → is_positive (weight i (tally ds ws)) ≡ ltb (b + length ds) (a + 2 * count_if (bit i) ds)
unfolding tally
weight-tally i a b [] ws h start = rw (start, is_positive-difference a b) (ground arith)
weight-tally i a b (d ∷ ds) ws h start = elim (Bool-cases (bit i d)) [
  | inl set ↦ ground (
    arith,
    weight-tally i (suc a) b ds (vote d ws) (rw (length-vote d ws) h)
        (rw (weight-vote i d ws h, set, start, up-difference a b) refl),
    set,
  )
  | inr clear ↦ ground (
    arith,
    weight-tally i a (suc b) ds (vote d ws) (rw (length-vote d ws) h)
        (rw (weight-vote i d ws h, clear, start, down-difference a b) refl),
    clear,
  )
]

length-zeros : (n : ℕ) → length (zeros n) ≡ n
length-zeros zero = refl
length-zeros (suc n) = ap suc (length-zeros n)

weight-zeros : (i n : ℕ) → weight i (zeros n) ≡ pos 0
unfolding weight
weight-zeros i zero = refl
weight-zeros zero (suc n) = refl
weight-zeros (suc i) (suc n) = weight-zeros i n

fingerprint-bound : (ws : List ℤ) → fingerprint ws < 2 ^ length ws
unfolding fingerprint
fingerprint-bound [] = omega arith
fingerprint-bound (w ∷ ws) = ground (arith, fingerprint-bound ws)

length-tally : (ds : List ℕ) (ws : List ℤ) → length (tally ds ws) ≡ length ws
unfolding tally
length-tally [] ws = refl
length-tally (d ∷ ds) ws = length-tally ds (vote d ws) ∙ length-vote d ws

bit-simhash_of :
    (bits i : ℕ) (ds : List ℕ)
    → i < bits
    → bit i (simhash_of bits ds) ≡ ltb (length ds) (2 * count_if (bit i) ds)
unfolding simhash_of difference
bit-simhash_of bits i [] h = rw (bit-zero i) (ground arith)
bit-simhash_of bits i (d ∷ ds) h = ground (
  arith,
  bit-fingerprint i (tally (d ∷ ds) (zeros bits)),
  weight-tally i 0 0 (d ∷ ds) (zeros bits) (rw (length-zeros bits) h) (weight-zeros i bits),
)

two-power-positive : (n : ℕ) → 0 < 2 ^ n
two-power-positive zero = omega arith
two-power-positive (suc n) = omega (arith, two-power-positive n)

simhash_of-bound : (bits : ℕ) (ds : List ℕ) → simhash_of bits ds < 2 ^ bits
unfolding simhash_of
simhash_of-bound bits [] = two-power-positive bits
simhash_of-bound bits (d ∷ ds) =
    subst (λ n. fingerprint (tally (d ∷ ds) (zeros bits)) < 2 ^ n)
      (length-tally (d ∷ ds) (zeros bits) ∙ length-zeros bits)
      (fingerprint-bound (tally (d ∷ ds) (zeros bits)))

-- Each of the 64 bits of a SimHash is set when more than half of the text's tokens have that bit in
-- their digests, and only then.
pub simhash_text-bit :
    (py : Unicode) (text : Text) (i : ℕ)
    → i < simhash_bits
    → bit i (simhash_text py text)
      ≡ ltb
          (length (tokenize py text))
          (2 * count_if (bit i) (map py.sha256_low64 (tokenize py text)))
unfolding simhash_text
simhash_text-bit py text i h =
    bit-simhash_of simhash_bits i (map py.sha256_low64 (tokenize py text)) h
    ∙ ap (λ n. ltb n (2 * count_if (bit i) (map py.sha256_low64 (tokenize py text))))
        (length-map py.sha256_low64 (tokenize py text))

pub simhash_text-bound : (py : Unicode) (text : Text) → simhash_text py text < 2 ^ simhash_bits
unfolding simhash_text
simhash_text-bound py text = simhash_of-bound simhash_bits (map py.sha256_low64 (tokenize py text))
