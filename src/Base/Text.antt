-- ===== src/Base/Text.antt =====
-- Python's `str` as the list of its code points, with the methods that the program calls.
use Prim.Native.Char.{code}
use Prim.Native.String.{String}
use pgs_search_engine.Base.Names.{ℕ, ◌-◌, Bool, true, false, ◌&&◌, ◌||◌, List, [], ◌∷◌, ◌++◌}
use pgs_search_engine.Base.Tests.{if◌then◌else◌, PyEq, nat_eq, leb, list_beq, list_beq_iff, nat_beq}
use pgs_search_engine.Base.Lists.{length, take, drop}

abbrev pub Text : Type 0
Text = List ℕ

instance abbrev pub text_eq : PyEq Text
text_eq = record { beq = list_beq; beq_iff = list_beq_iff }

-- A literal.
abbrev pub codes : String → Text
codes String.[] = []
codes (String.◌∷◌ c s) = code c ∷ codes s

abbrev pub is_empty : Text → Bool
is_empty [] = true
is_empty (_ ∷ _) = false

-- `str.isspace` of one character: the code points that `strip` and `split` take for white space.
abbrev pub between : ℕ → ℕ → ℕ → Bool
between lo hi c = leb lo c && leb c hi

pub is_space : ℕ → Bool
is_space c =
    between 9 13 c
    || between 28 32 c
    || nat_beq c 0x85
    || nat_beq c 0xa0
    || nat_beq c 0x1680
    || between 0x2000 0x200a c
    || between 0x2028 0x2029 c
    || nat_beq c 0x202f
    || nat_beq c 0x205f
    || nat_beq c 0x3000

module _ (p : ℕ → Bool) where
  -- `s.lstrip(chars)` and `s.rstrip(chars)`
  abbrev pub strip_left : Text → Text
  strip_left [] = []
  strip_left (c ∷ s) = if p c then strip_left s else c ∷ s

  abbrev pub put_back : ℕ → Text → Text
  put_back d [] = if p d then [] else d ∷ []
  put_back d (c ∷ r) = d ∷ c ∷ r

  abbrev pub strip_right : Text → Text
  strip_right [] = []
  strip_right (c ∷ s) = put_back c (strip_right s)

-- `s.strip()`
unfoldable pub strip : Text → Text
unfolding is_space
strip s = strip_right is_space (strip_left is_space s)

abbrev pub is_blank : Text → Bool
is_blank s = is_empty (strip s)

-- `s.startswith(t)`, with `t` first
abbrev pub starts_with : Text → Text → Bool
starts_with [] s = true
starts_with (c ∷ t) [] = false
starts_with (c ∷ t) (d ∷ s) = nat_beq c d && starts_with t s

-- `s.endswith(t)`, with `t` first
abbrev pub ends_with : Text → Text → Bool
ends_with t s = leb (length t) (length s) && list_beq t (drop (length s - length t) s)

-- `s[:n]` is `take n s`, and `s[:-n]` for `n` of at least 1 is this.
abbrev pub drop_end : ℕ → Text → Text
drop_end n s = take (length s - n) s

-- The words of `s.split()`: `word` holds the letters of the word that is being read, reversed.
abbrev pub snoc_rev : Text → Text → Text
snoc_rev [] t = t
snoc_rev (c ∷ r) t = snoc_rev r (c ∷ t)

abbrev pub close_word : Text → List Text → List Text
close_word [] ws = ws
close_word (c ∷ r) ws = snoc_rev (c ∷ r) [] ∷ ws

words_from : Text → Text → List Text
unfolding is_space
words_from word [] = close_word word []
words_from word (c ∷ s) =
    let stop = close_word word (words_from [] s) in
    let more = words_from (c ∷ word) s in if is_space c then stop else more

unfoldable pub words : Text → List Text
unfolding words_from
words s = words_from [] s

-- `sep.join(parts)`
abbrev pub join : Text → List Text → Text
join sep [] = []
join sep (w ∷ []) = w
join sep (w ∷ v ∷ ws) = w ++ sep ++ join sep (v ∷ ws)
