-- ===== src/Etl/Scanner/Tests.antt =====
-- A small PDF and an empty script.
use pgs_search_engine.Base.{
  ℕ, ◌≡◌, refl, ◌↔◌, true, false, Option, none, some, List, [], ◌∷◌, nat_eq,
}
use pgs_search_engine.Base.Text.{Text, text_eq, codes}
use pgs_search_engine.Etl.Scanner.{
  safe, suspicious, clean, scan_file, scan_with_clamav, inspect_bytes,
}
use pgs_search_engine.Etl.Scanner.Verdicts.{inspect_bytes_accepts}

abbrev same : Text → Text
same s = s

abbrev no_digest : List ℕ → Text
no_digest content = []

abbrev answers_ok : List ℕ → Option (Text × Text)
answers_ok content = some (codes "OK", [])

abbrev unreachable : List ℕ → Option (Text × Text)
unreachable content = none

pdf_accepted :
    (inspect_bytes same no_digest answers_ok (codes "notice.pdf") (37 ∷ 80 ∷ [])).accepted ≡ true
unfolding inspect_bytes
pdf_accepted = refl

outage_refused :
    (inspect_bytes same no_digest unreachable (codes "notice.pdf") (37 ∷ 80 ∷ [])).accepted ≡ false
unfolding inspect_bytes
outage_refused = refl

empty_script_suspicious :
    (inspect_bytes same no_digest answers_ok (codes "run.sh") []).verdict ≡ suspicious
unfolding inspect_bytes
empty_script_suspicious = refl

inspect_bytes_accepts_example :
    ((inspect_bytes same no_digest answers_ok (codes "notice.pdf") (37 ∷ 80 ∷ [])).accepted ≡ true)
    ↔ (((scan_file same no_digest (codes "notice.pdf") (37 ∷ 80 ∷ [])).verdict ≡ safe)
        × (scan_with_clamav answers_ok (37 ∷ 80 ∷ []) ≡ clean))
inspect_bytes_accepts_example =
    inspect_bytes_accepts same no_digest answers_ok (codes "notice.pdf") (37 ∷ 80 ∷ [])
