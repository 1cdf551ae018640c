-- ===== src/Etl/Site/Adding.antt =====
-- ETL/spark/site_pipeline.py: what the results of a group add to a summary.
use pgs_search_engine.Base.{
  ℕ, suc, ◌+◌, ◌≤◌, ◌≡◌, refl, ap, subst, ◌∙◌, inl, inr, Bool, true, false, Option, none, some,
  List, [], ◌∷◌, ◌++◌, map, arith, if◌then◌else◌, Bool-cases, nat_eq, length, count_if,
}
use pgs_search_engine.Etl.Site.Driver.{
  some_end, Ends-map, Summary, Services, Saved, stored, transient, refused, page_invalid, not_saved,
  written, is_infected, records_of, Ends, raises, returns, Ends-bind,
}
use pgs_search_engine.Base.Text.{text_eq}
use pgs_search_engine.Etl.Site.{Fields, Raised, database_error}
use pgs_search_engine.Etl.Site.Pages.{
  SiteRecord, PageResult, transformed, rejected, skipped, page_failed,
}
use pgs_search_engine.Etl.Site.Run.{report_results, after_save, save_pages, finish_group}

abbrev pub is_transformed : PageResult → Bool
is_transformed (transformed _ _ _) = true
is_transformed (rejected _ _ _ _ _) = false
is_transformed (skipped _ _) = false
is_transformed (page_failed _ _) = false

abbrev pub is_rejected : PageResult → Bool
is_rejected (transformed _ _ _) = false
is_rejected (rejected _ _ _ _ _) = true
is_rejected (skipped _ _) = false
is_rejected (page_failed _ _) = false

abbrev pub is_virus : PageResult → Bool
is_virus (transformed _ _ _) = false
is_virus (rejected _ _ _ scan _) = is_infected scan.clamav
is_virus (skipped _ _) = false
is_virus (page_failed _ _) = false

abbrev pub is_skipped : PageResult → Bool
is_skipped (transformed _ _ _) = false
is_skipped (rejected _ _ _ _ _) = false
is_skipped (skipped _ _) = true
is_skipped (page_failed _ _) = false

abbrev pub is_page_failed : PageResult → Bool
is_page_failed (transformed _ _ _) = false
is_page_failed (rejected _ _ _ _ _) = false
is_page_failed (skipped _ _) = false
is_page_failed (page_failed _ _) = true

-- What a summary has more than before: these results, and `kept` pages that were to be saved.
abbrev pub Adds : List PageResult → ℕ → Summary → Summary → Type 0
Adds results kept a b =
    (b.rejected ≡ a.rejected + count_if is_rejected results)
    × (b.infected ≡ a.infected + count_if is_virus results)
    × (b.skipped ≡ a.skipped + count_if is_skipped results)
    × (b.saved + b.failed ≡ a.saved + a.failed + count_if is_page_failed results + kept)
    × (a.failed + count_if is_page_failed results ≤ b.failed)
    × (b.duplicates + a.saved ≤ a.duplicates + b.saved)
    × (b.documents ≡ a.documents)

pub count_if-append :
    {A : Type 0} (p : A → Bool) (xs ys : List A)
    → count_if p (xs ++ ys) ≡ count_if p xs + count_if p ys
count_if-append p [] ys = omega arith
count_if-append p (x ∷ xs) ys = elim (Bool-cases (p x)) [
  | inl here ↦ rw here (omega (arith, count_if-append p xs ys))
  | inr other ↦ rw other (count_if-append p xs ys)
]

-- One summary after another.
pub Adds-append :
    (xs ys : List PageResult) (j k n : ℕ) (a b c : Summary)
    → j + k ≡ n
    → Adds xs j a b
    → Adds ys k b c
    → Adds (xs ++ ys) n a c
Adds-append xs ys j k n a b c h (r1, i1, s1, f1, l1, d1, n1) (r2, i2, s2, f2, l2, d2, n2) = (
  omega (arith, r1, r2, count_if-append is_rejected xs ys),
  omega (arith, i1, i2, count_if-append is_virus xs ys),
  omega (arith, s1, s2, count_if-append is_skipped xs ys),
  omega (arith, h, f1, f2, count_if-append is_page_failed xs ys),
  omega (arith, l1, l2, count_if-append is_page_failed xs ys),
  omega (arith, d1, d2),
  n2 ∙ n1,
)

written-Ends :
    {S A : Type 0} {P : A → S → Type 0} (e : Raised) (a : A) (s : S) (o : Option S)
    → ((s' : S) → P a s')
    → Ends P (written e a s o)
written-Ends e a s none h = raises
written-Ends e a s (some s') h = returns (h s')

one_more : (b : Bool) (n : ℕ) → (if b then suc n else n) ≡ n + (if b then 1 else 0)
one_more b n = ground arith

module _ {State Vector : Type 0} (services : Services State Vector) where
  report_results-Adds :
      (results : List PageResult) (a : Summary) (s : State)
      → Ends (λ b _. Adds results 0 a b) (report_results services results a s)
  unfolding report_results
  report_results-Adds [] a s =
      returns (omega arith, omega arith, omega arith, omega arith, omega arith, omega arith, refl)
  report_results-Adds (transformed key r document ∷ results) a s = report_results-Adds results a s
  report_results-Adds (rejected key object_key url scan document ∷ results) a s =
      let page = rejected key object_key url scan document in
      Ends-bind {Q = λ b _. Adds (page ∷ []) 0 a b}
        (written-Ends database_error _ s (services.log_rejection page s) (λ _. (
          omega arith,
          one_more (is_infected scan.clamav) a.infected,
          omega arith,
          omega arith,
          omega arith,
          omega arith,
          refl,
        )))
        (λ b s' q.
          Ends-map (report_results-Adds results b s')
            (λ c _ r. Adds-append (page ∷ []) results 0 0 0 a b c refl q r))
  report_results-Adds (skipped key reason ∷ results) a s =
      Ends-map (report_results-Adds results (record a { skipped = suc a.skipped }) s) (λ c _ r.
        Adds-append (skipped key reason ∷ []) results 0 0 0 a (record a { skipped = suc a.skipped })
          c refl
          (omega arith, omega arith, omega arith, omega arith, omega arith, omega arith, refl) r)
  report_results-Adds (page_failed key problem ∷ results) a s =
      Ends-bind {Q = λ b _. Adds (page_failed key problem ∷ []) 0 a b}
        (written-Ends database_error _ s (services.log_page_error (page_invalid key problem) s)
          (λ _.
            (omega arith, omega arith, omega arith, omega arith, omega arith, omega arith, refl)))
        (λ b s' q.
          Ends-map (report_results-Adds results b s')
            (λ c _ r. Adds-append (page_failed key problem ∷ []) results 0 0 0 a b c refl q r))

  after_save-Adds :
      (page : SiteRecord) (a : Summary) (outcome : Saved) (s : State)
      → Ends (λ b _. Adds [] 1 a b) (after_save services page a outcome s)
  after_save-Adds page a transient s = raises
  after_save-Adds page a refused s =
      written-Ends database_error _ s (services.log_page_error (not_saved page) s)
        (λ _. (omega arith, omega arith, omega arith, omega arith, omega arith, omega arith, refl))
  after_save-Adds page a (stored true) s =
      returns (omega arith, omega arith, omega arith, omega arith, omega arith, omega arith, refl)
  after_save-Adds page a (stored false) s =
      returns (omega arith, omega arith, omega arith, omega arith, omega arith, omega arith, refl)

  save_pages-Adds :
      (pages : List (SiteRecord × Fields)) (vectors : List (Option Vector)) (a : Summary)
      (s : State)
      → Ends (λ b _. Adds [] (length pages) a b) (save_pages services pages vectors a s)
  unfolding save_pages
  save_pages-Adds [] [] a s =
      returns (omega arith, omega arith, omega arith, omega arith, omega arith, omega arith, refl)
  save_pages-Adds [] (_ ∷ _) a s = raises
  save_pages-Adds (_ ∷ _) [] a s = raises
  save_pages-Adds ((page, document) ∷ pages) (vector ∷ vectors) a s =
      let (outcome, after) = services.save page vector document s in
      Ends-bind (after_save-Adds page a outcome after) (λ b s' q.
        Ends-map (save_pages-Adds pages vectors b s') (λ c _ r.
          Adds-append [] [] 1 (length pages) (length ((page, document) ∷ pages)) a b c (omega arith)
            q r))

  length-records_of :
      (results : List PageResult) → length (records_of results) ≡ count_if is_transformed results
  length-records_of [] = refl
  length-records_of (transformed _ _ _ ∷ results) = ap suc (length-records_of results)
  length-records_of (rejected _ _ _ _ _ ∷ results) = length-records_of results
  length-records_of (skipped _ _ ∷ results) = length-records_of results
  length-records_of (page_failed _ _ ∷ results) = length-records_of results

  pub append-nil : (xs : List PageResult) → xs ++ [] ≡ xs
  append-nil [] = refl
  append-nil (x ∷ xs) = ap (λ l. x ∷ l) (append-nil xs)

  pub finish_group-Adds :
      (results : List PageResult) (a : Summary) (s : State)
      → Ends
          (λ b _. Adds results (count_if is_transformed results) a b)
          (finish_group services results a s)
  unfolding finish_group
  finish_group-Adds results a s = Ends-bind (report_results-Adds results a s) (λ b after q.
      Ends-bind {Q = λ _ _. Unit}
        (some_end (
          services.embed
              (map (λ (p : SiteRecord × Fields). p.0.page.searchable_text) (records_of results)),
          after,
        ))
        (λ vectors later _.
          Ends-map (save_pages-Adds (records_of results) vectors b later) (λ c _ r.
            subst (λ l. Adds l (count_if is_transformed results) a c) (append-nil results)
              (subst (λ k. Adds (results ++ []) k a c) (length-records_of results)
                (Adds-append results [] 0 (length (records_of results))
                  (length (records_of results)) a b c (omega arith) q r)))))
