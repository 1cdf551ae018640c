-- ===== src/Etl/Scanner/Verdicts.antt =====
-- ETL/spark/security_scanner.py: what the two layers decide together.
use pgs_search_engine.Base.{
  ℕ, ◌≡◌, refl, sym, ap, ◌∙◌, ◌≢◌, ◌↔◌, ◌⊎◌, inl, inr, Bool, true, false, ◌||◌, Option, List, [],
  ◌∷◌, arith, ltb, if◌then◌else◌, ◌==◌, nat_eq, length, elem,
}
use pgs_search_engine.Base.Text.{Text, text_eq, is_empty}
use pgs_search_engine.Etl.Scanner.{
  get_extension, suspicious_extensions, expected_extensions, max_safe_size, max_filename_length,
  has_double_extension, safe, scan_file, ClamavResult, clean, found, scan_error, skipped_scan,
  scan_with_clamav, inspect_bytes, first_layer, first_findings, Finding, conclude, is_accepted,
}

-- The two layers' tests agree on what is safe, since an expected extension is not empty.
layers_agree :
    (risky no_ext expected many_dots too_long : Bool) (size : ℕ)
    → (expected ≡ true → no_ext ≡ false)
    → ((first_layer risky no_ext expected many_dots size too_long).0 ≡ safe)
      ↔ (first_findings risky expected size too_long many_dots ≡ [])
layers_agree risky no_ext expected many_dots too_long size h = ground arith

-- A file without findings is scanned.
no_findings_scanned :
    (risky expected too_long many_dots : Bool) (size : ℕ)
    → first_findings risky expected size too_long many_dots ≡ []
    → ((size == 0) || ltb max_safe_size size) ≡ false
no_findings_scanned risky expected too_long many_dots size h = ground arith

accepted_lem :
    (answer : ClamavResult) (first : List Finding)
    → (is_accepted answer (conclude answer first).1 ≡ true) ↔ ((answer ≡ clean) × (first ≡ []))
accepted_lem clean [] = ground arith
accepted_lem clean (f ∷ fs) = ground arith
accepted_lem (found signature) first = ground arith
accepted_lem scan_error first = ground arith
accepted_lem skipped_scan first = ground arith

verdict_lem :
    (answer : ClamavResult) (first : List Finding)
    → ((conclude answer first).0 ≡ safe)
      ↔ (((answer ≡ clean) ⊎ (answer ≡ skipped_scan)) × (first ≡ []))
verdict_lem clean [] = ground arith
verdict_lem clean (f ∷ fs) = ground arith
verdict_lem (found signature) first = ground arith
verdict_lem scan_error first = ground arith
verdict_lem skipped_scan [] = ground arith
verdict_lem skipped_scan (f ∷ fs) = ground arith

expected_not_empty : (ext : Text) → elem ext expected_extensions ≡ true → is_empty ext ≡ false
expected_not_empty [] h = absurd (ground arith)
expected_not_empty (c ∷ ext) h = refl

module _ (lower : Text → Text) (digest : List ℕ → Text)
    (instream : List ℕ → Option (Text × Text)) where
  -- A file is accepted exactly if the first layer finds it safe and ClamAV has scanned it and found it
  -- clean.
  pub inspect_bytes_accepts :
      (filename : Text) (content : List ℕ)
      → ((inspect_bytes lower digest instream filename content).accepted ≡ true) ↔ (
          ((scan_file lower digest filename content).verdict ≡ safe)
          × (scan_with_clamav instream content ≡ clean))
  unfolding inspect_bytes scan_file
  inspect_bytes_accepts filename content =
      let ext = get_extension lower filename in
      let risky = elem ext suspicious_extensions in
      let expected = elem ext expected_extensions in
      let many_dots = has_double_extension filename in
      let size = length content in
      let too_long = ltb max_filename_length (length filename) in
      let first = first_findings risky expected size too_long many_dots in
      let out_of_range = (size == 0) || ltb max_safe_size size in
      let answer = if out_of_range then skipped_scan else scan_with_clamav instream content in
      let (to_findings, to_safe) =
        layers_agree risky (is_empty ext) expected many_dots too_long size
          (expected_not_empty ext) in
      let scanned : first ≡ [] → answer ≡ scan_with_clamav instream content = λ e.
        ap (λ b. if b then skipped_scan else scan_with_clamav instream content)
          (no_findings_scanned risky expected too_long many_dots size e) in
      let (to_parts, to_accepted) = accepted_lem answer first in
      (
        λ a.
            let (is_clean, nothing) = to_parts a in
            (to_safe nothing, sym (scanned nothing) ∙ is_clean),
        λ parts.
            let nothing = to_findings parts.0 in to_accepted (scanned nothing ∙ parts.1, nothing),
      )

  -- The verdict is safe exactly if the file is accepted.
  pub inspect_bytes_verdict :
      (filename : Text) (content : List ℕ)
      → let inspection = inspect_bytes lower digest instream filename content in
        (inspection.verdict ≡ safe) ↔ (inspection.accepted ≡ true)
  unfolding inspect_bytes scan_file
  inspect_bytes_verdict filename content =
      let ext = get_extension lower filename in
      let risky = elem ext suspicious_extensions in
      let expected = elem ext expected_extensions in
      let many_dots = has_double_extension filename in
      let size = length content in
      let too_long = ltb max_filename_length (length filename) in
      let first = first_findings risky expected size too_long many_dots in
      let out_of_range = (size == 0) || ltb max_safe_size size in
      let answer = if out_of_range then skipped_scan else scan_with_clamav instream content in
      let (to_parts, to_safe) = verdict_lem answer first in
      let (of_accepted, to_accepted) = accepted_lem answer first in
      let scanned : first ≡ [] → answer ≡ scan_with_clamav instream content = λ e.
        ap (λ b. if b then skipped_scan else scan_with_clamav instream content)
          (no_findings_scanned risky expected too_long many_dots size e) in
      (
        λ v.
            let (clean_or_skipped, nothing) = to_parts v in
            elim clean_or_skipped [
              | inl is_clean ↦ to_accepted (is_clean, nothing)
              | inr skipped ↦ absurd (never_skipped (sym (scanned nothing) ∙ skipped))
            ],
        λ a. let (is_clean, nothing) = of_accepted a in to_safe (inl is_clean, nothing),
      )
    where
      never_skipped : scan_with_clamav instream content ≢ skipped_scan
      never_skipped e = ground arith
