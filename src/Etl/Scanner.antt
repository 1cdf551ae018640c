-- ===== src/Etl/Scanner.antt =====
-- ETL/spark/security_scanner.py: the checks of a file's name and size, ClamAV's answer, and what of the
-- two lets a file in. The connection to ClamAV, `str.lower` and SHA-256 are arguments.
pub mod Verdicts
mod Tests
use pgs_search_engine.Base.{
  ℕ, zero, suc, ◌+◌, ◌-◌, ◌*◌, ◌/◌, ◌%◌, ◌^◌, ◌≤◌, ◌<◌, min, max, ◌≡◌, refl, sym, ap, subst, ◌∙◌,
  ◌≢◌, ◌↔◌, ◌⊎◌, inl, inr, Bool, true, false, not, ◌&&◌, ◌||◌, Option, none, some, List, [], ◌∷◌,
  ◌++◌, map, arith, String, ⊤, ltb, leb, nat_beq, if◌then◌else◌, if_ind, ltb→lt, lt→ltb, leb→le,
  le→leb, nat_beq_iff, Bool-cases, Option-cases, PyEq, ◌==◌, nat_eq, beq_self, beq-ne, beq→eq,
  length, take, drop, keep, any, all, All, length-append, take-append-drop, length-take,
  length-drop, length-keep, length-map, elem, distinct, elem-append, elem-keep, find, update_if,
  count_if, find-some, All-keep, All-map, All-append, All-update_if, any_mono, length-update_if,
  length-keep-count,
}
use pgs_search_engine.Base.Text.{
  Text, text_eq, codes, is_empty, between, is_space, strip, strip_left, strip_right, put_back,
  is_blank, starts_with, ends_with, drop_end, words, join,
}

abbrev pub suspicious_extensions : List Text
suspicious_extensions =
    codes "exe"
    ∷ codes "bat"
    ∷ codes "cmd"
    ∷ codes "com"
    ∷ codes "scr"
    ∷ codes "msi"
    ∷ codes "vbs"
    ∷ codes "js"
    ∷ codes "jar"
    ∷ codes "ps1"
    ∷ codes "sh"
    ∷ []

abbrev pub expected_extensions : List Text
expected_extensions =
    codes "html"
    ∷ codes "htm"
    ∷ codes "pdf"
    ∷ codes "txt"
    ∷ codes "json"
    ∷ codes "png"
    ∷ codes "jpg"
    ∷ codes "jpeg"
    ∷ codes "gif"
    ∷ codes "docx"
    ∷ codes "csv"
    ∷ []

abbrev pub max_safe_size : ℕ
max_safe_size = 10 * 1024 * 1024

abbrev pub max_filename_length : ℕ
max_filename_length = 100

-- `filename.lstrip(".")`
abbrev pub strip_dots : Text → Text
strip_dots [] = []
strip_dots (c ∷ s) = let rest = strip_dots s in if c == b'.' then rest else c ∷ s

-- `name.rsplit(".", 1)[-1]`, of a name with a dot in it.
abbrev pub after_last_dot : Text → Text → Text
after_last_dot found [] = found
after_last_dot found (c ∷ s) =
    let here = after_last_dot s s in
    let later = after_last_dot found s in if c == b'.' then here else later

unfoldable pub get_extension : (Text → Text) → Text → Text
get_extension lower filename =
    let name = strip_dots filename in if elem b'.' name then lower (after_last_dot [] name) else []

-- `len(filename.split(".")) > 2`
unfoldable pub has_double_extension : Text → Bool
has_double_extension filename = ltb 1 (count_if (λ c. c == b'.') filename)

pub data Verdict : Type 0 where
  safe suspicious unknown infected : Verdict

pub data Reason : Type 0 where
  risky_extension no_extension unrecognized_extension : Reason
  many_extensions file_empty file_large name_long no_issues : Reason

pub record ScanResult : Type 0 where
  pub filename : Text
  pub extension : Text
  pub size_bytes : ℕ
  pub sha256 : Text
  pub verdict : Verdict
  pub reasons : List Reason

abbrev pub when : {A : Type 0} → Bool → A → List A
when c a = if c then a ∷ [] else []

abbrev pub judge : List Reason → List Reason → Verdict × List Reason
judge [] [] = (safe, no_issues ∷ [])
judge [] (r ∷ rs) = (unknown, r ∷ rs)
judge (r ∷ rs) _ = (suspicious, r ∷ rs)

-- The verdict of the first layer, by what its tests say of the extension (risky, none, expected), of
-- the dots, of the size, and of the name's length.
abbrev pub first_layer : Bool → Bool → Bool → Bool → ℕ → Bool → Verdict × List Reason
first_layer risky no_ext expected many_dots size too_long =
    judge
      (when risky risky_extension
        ++ when many_dots many_extensions
        ++ (if size == 0 then file_empty ∷ [] else when (ltb max_safe_size size) file_large)
        ++ when too_long name_long)
      (if risky
        then []
        else if no_ext
        then no_extension ∷ []
        else when (not expected) unrecognized_extension)

unfoldable pub scan_file : (Text → Text) → (List ℕ → Text) → Text → List ℕ → ScanResult
unfolding get_extension has_double_extension
scan_file lower digest filename content =
    let ext = get_extension lower filename in
    let (verdict, reasons) =
      first_layer (elem ext suspicious_extensions) (is_empty ext) (elem ext expected_extensions)
        (has_double_extension filename) (length content)
        (ltb max_filename_length (length filename)) in
    record {
      filename = filename;
      extension = ext;
      size_bytes = length content;
      sha256 = digest content;
      verdict = verdict;
      reasons = reasons;
    }

pub data ClamavResult : Type 0 where
  clean : ClamavResult
  found : Text → ClamavResult
  scan_error : ClamavResult
  skipped_scan : ClamavResult

-- `none` is an exception: no connection, a timeout, an answer of another shape.
unfoldable pub scan_with_clamav : (List ℕ → Option (Text × Text)) → List ℕ → ClamavResult
scan_with_clamav instream content = elim (instream content) [
  | none ↦ scan_error
  | some (status, signature) ↦
      if status == codes "OK"
      then clean
      else if status == codes "FOUND"
      then found signature
      else scan_error
]

pub data Finding : Type 0 where
  suspicious_extension unexpected_extension empty_file file_too_large : Finding
  filename_too_long multiple_extensions clamav_unavailable : Finding
  clamav_infected : Text → Finding

pub record Inspection : Type 0 where
  pub accepted : Bool
  pub scanned : ScanResult
  pub findings : List Finding
  pub verdict : Verdict
  pub clamav : ClamavResult

-- The findings before the scan, by the same tests.
abbrev pub first_findings : Bool → Bool → ℕ → Bool → Bool → List Finding
first_findings risky expected size too_long many_dots =
    when risky suspicious_extension
    ++ when (not expected) unexpected_extension
    ++ (if size == 0 then empty_file ∷ [] else when (ltb max_safe_size size) file_too_large)
    ++ when too_long filename_too_long
    ++ when many_dots multiple_extensions

-- `verdict` and `findings`, by ClamAV's answer.
abbrev pub conclude : ClamavResult → List Finding → Verdict × List Finding
conclude (found signature) findings = (infected, findings ++ clamav_infected signature ∷ [])
conclude scan_error findings = (unknown, findings ++ clamav_unavailable ∷ [])
conclude clean [] = (safe, [])
conclude clean (f ∷ fs) = (suspicious, f ∷ fs)
conclude skipped_scan [] = (safe, [])
conclude skipped_scan (f ∷ fs) = (suspicious, f ∷ fs)

abbrev pub is_accepted : ClamavResult → List Finding → Bool
is_accepted clean [] = true
is_accepted _ _ = false

module _ (lower : Text → Text) (digest : List ℕ → Text)
    (instream : List ℕ → Option (Text × Text)) where
  unfoldable pub inspect_bytes : Text → List ℕ → Inspection
  unfolding scan_file scan_with_clamav
  inspect_bytes filename content =
      let result = scan_file lower digest filename content in
      let first =
        first_findings (elem result.extension suspicious_extensions)
          (elem result.extension expected_extensions) result.size_bytes
          (ltb max_filename_length (length filename)) (has_double_extension filename) in
      let answer =
        if (result.size_bytes == 0) || ltb max_safe_size result.size_bytes
        then skipped_scan
        else scan_with_clamav instream content in
      let (verdict, findings) = conclude answer first in
      record {
        accepted = is_accepted answer findings;
        scanned = result;
        findings = findings;
        verdict = verdict;
        clamav = answer;
      }
