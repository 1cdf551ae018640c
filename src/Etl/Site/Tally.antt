-- ===== src/Etl/Site/Tally.antt =====
-- ETL/spark/site_pipeline.py: a run's summary against the results of the pages, key by key.
use pgs_search_engine.Base.{
  ℕ, ◌+◌, ◌≤◌, ◌≡◌, refl, sym, ap, subst, Bool, Option, none, some, List, [], ◌∷◌, ◌++◌, arith,
  nat_eq, length, count_if,
}
use pgs_search_engine.Base.Sort.{sort_by}
use pgs_search_engine.Etl.Site.{
  WhenReturned, Result, returned, Event, Python, WhenReturned-bind_with, raises as page_raises,
  returns as page_returns,
}
use pgs_search_engine.Etl.Site.Pages.{run_group, process_page, PageResult}
use pgs_search_engine.Etl.Site.Trust.{self_returned}
use pgs_search_engine.Etl.Site.Driver.{
  from_ends, some_end, groups, marker_key, json_keys, text_before, new_summary, Ends-map, Summary,
  Services, Ends, raises, returns, Ends-bind,
}
use pgs_search_engine.Etl.Site.Run.{
  SiteRun, already_processed, finished, run_groups, listed, process_site, unless_marked,
  run_site_pipeline, write_marker, read_marker,
}
use pgs_search_engine.Etl.Site.Totals.{joined, groups-joined}
use pgs_search_engine.Base.Text.{Text, text_eq}
use pgs_search_engine.Etl.Site.Adding.{
  Adds, Adds-append, count_if-append, finish_group-Adds, append-nil, is_transformed, is_rejected,
  is_virus, is_skipped, is_page_failed,
}

module _ {State Vector : Type 0} (services : Services State Vector) (py : Python)
    (event : Event) where
  -- Each key has one result, which `process_page` gave for it at some state of the bucket.
  abbrev pub IsTrace : List Text → List PageResult → Type 0
  IsTrace [] [] = Unit
  IsTrace [] (_ ∷ _) = ⊥
  IsTrace (_ ∷ _) [] = ⊥
  IsTrace (key ∷ keys) (result ∷ results) =
      ((s : State) × (process_page py (services.read s) services.instream event key
          ≡ returned result))
      × IsTrace keys results

  IsTrace-append :
      (keys more : List Text) (xs ys : List PageResult)
      → IsTrace keys xs
      → IsTrace more ys
      → IsTrace (keys ++ more) (xs ++ ys)
  IsTrace-append [] more [] ys t u = u
  IsTrace-append [] more (_ ∷ _) ys t u = absurd t
  IsTrace-append (_ ∷ _) more [] ys t u = absurd t
  IsTrace-append (key ∷ keys) more (x ∷ xs) ys t u = (t.0, IsTrace-append keys more xs ys t.1 u)

  run_group-IsTrace :
      (s : State) (keys : List Text)
      → WhenReturned (IsTrace keys) (run_group py (services.read s) services.instream event keys)
  unfolding run_group
  run_group-IsTrace s [] = page_returns tt
  run_group-IsTrace s (key ∷ keys) =
      WhenReturned-bind_with
        (self_returned (process_page py (services.read s) services.instream event key))
        (λ result e.
          WhenReturned-bind_with (run_group-IsTrace s keys) (λ results t. page_returns ((s, e), t)))

  keeping_state :
      {A : Type 0} {P : A → Type 0} {m : Result A} (s : State)
      → WhenReturned P m
      → Ends (λ (a : A) (_ : State). P a) (m, s)
  keeping_state s page_raises = raises
  keeping_state s (page_returns h) = returns h

  abbrev GroupsAdd : List (List Text) → Summary → Summary → Type 0
  GroupsAdd rest a b =
      (results : List PageResult) × IsTrace (joined rest) results
      × Adds results (count_if is_transformed results) a b

  run_groups-Adds :
      (rest : List (List Text)) (a : Summary) (s : State)
      → Ends (λ b _. GroupsAdd rest a b) (run_groups services py event rest a s)
  unfolding run_groups
  run_groups-Adds [] a s =
      returns (
        [],
        tt,
        (omega arith, omega arith, omega arith, omega arith, omega arith, omega arith, refl),
      )
  run_groups-Adds (group ∷ rest) a s =
      Ends-bind {Q = λ b _. GroupsAdd (group ∷ []) a b}
        (Ends-bind (keeping_state s (run_group-IsTrace s group)) (λ results after t.
          Ends-map (finish_group-Adds services results a after) (λ b _ q. (
            results ++ [],
            IsTrace-append group [] results [] t tt,
            subst (λ l. Adds l (count_if is_transformed l) a b) (sym (append-nil services results))
                q,
          ))))
        (λ b s' (xs, t, q). Ends-map (run_groups-Adds rest b s') (λ c _ (ys, u, r). (
          xs ++ ys,
          subst (λ ks. IsTrace ks (xs ++ ys)) (flat group rest)
              (IsTrace-append (group ++ []) (joined rest) xs ys t u),
          Adds-append xs ys (count_if is_transformed xs) (count_if is_transformed ys)
              (count_if is_transformed (xs ++ ys)) a b c
              (sym (count_if-append is_transformed xs ys)) q r,
        )))
    where
      flat : (g : List Text) (more : List (List Text)) → (g ++ []) ++ joined more ≡ g ++ joined more
      flat [] more = refl
      flat (key ∷ g) more = ap (λ l. key ∷ l) (flat g more)

  -- The keys that were listed, a result of each, and the summary of those results.
  abbrev pub IsAccounted : SiteRun → Type 0
  IsAccounted (already_processed _) = Unit
  IsAccounted (finished summary) =
      (s : State) × (pages : List (List Text)) × (results : List PageResult) × (services.list_pages
          event.bucket event.documents_prefix s
        ≡ some pages)
      × IsTrace (sort_by text_before (json_keys pages)) results
      × (summary.documents ≡ length (sort_by text_before (json_keys pages)))
      × (summary.rejected ≡ count_if is_rejected results)
      × (summary.infected ≡ count_if is_virus results)
      × (summary.skipped ≡ count_if is_skipped results)
      × (summary.saved + summary.failed
          ≡ count_if is_page_failed results + count_if is_transformed results)
      × (count_if is_page_failed results ≤ summary.failed)
      × (summary.duplicates ≤ summary.saved)

  run_groups-IsAccounted :
      (size : ℕ) (pages : List (List Text)) (listed_at s : State)
      → 1 ≤ size
      → services.list_pages event.bucket event.documents_prefix listed_at ≡ some pages
      → let keys = sort_by text_before (json_keys pages) in
        Ends
          (λ summary _. IsAccounted (finished summary))
          (run_groups services py event (groups size keys) (new_summary event (length keys)) s)
  unfolding new_summary
  run_groups-IsAccounted size pages listed_at s h at =
      let keys = sort_by text_before (json_keys pages) in
      Ends-map (run_groups-Adds (groups size keys) (new_summary event (length keys)) s)
        (λ summary _ (results, t, (r, i, k, f, l, d, n)). (
          listed_at,
          pages,
          results,
          at,
          subst (λ ks. IsTrace ks results) (groups-joined size keys h).0 t,
          n,
          omega (arith, r),
          omega (arith, i),
          omega (arith, k),
          omega (arith, f),
          omega (arith, l),
          omega (arith, d),
        ))

  -- The keys of the listing at some state.
  abbrev IsListing : List Text → State → Type 0
  IsListing keys _ =
      (s : State) × (pages : List (List Text)) × (services.list_pages event.bucket
          event.documents_prefix s
        ≡ some pages)
      × (keys ≡ sort_by text_before (json_keys pages))

  listed-Ends :
      (o : Option (List (List Text))) (s : State)
      → services.list_pages event.bucket event.documents_prefix s ≡ o
      → Ends IsListing (listed services py event o, s)
  listed-Ends none s e = raises
  listed-Ends (some pages) s e = returns (s, pages, e, refl)

  process_site-IsAccounted :
      (size : ℕ) (check_scanner : Bool) (s : State)
      → 1 ≤ size
      → Ends (λ run _. IsAccounted run) (process_site services py event size check_scanner s)
  unfolding write_marker
  process_site-IsAccounted size check_scanner s h =
      Ends-bind {Q = λ summary _. IsAccounted (finished summary)}
        (Ends-bind {Q = IsListing}
          (Ends-bind (some_end _) (λ _ s1 _.
            listed-Ends (services.list_pages event.bucket event.documents_prefix s1) s1 refl))
          (λ keys s2 (s1, pages, at, same).
            subst
              (λ ks.
                Ends (λ summary _. IsAccounted (finished summary))
                  (run_groups services py event (groups size ks) (new_summary event (length ks))
                    s2))
              (sym same) (run_groups-IsAccounted size pages s1 s2 h at)))
        (λ summary s' c. Ends-bind (some_end (marker_key event, s')) (λ key later _. returns c))

  unless_marked-IsAccounted :
      (size : ℕ) (check_scanner : Bool) (mark : Option Summary) (s : State)
      → 1 ≤ size
      → Ends (λ run _. IsAccounted run) (unless_marked services py event size check_scanner mark s)
  unless_marked-IsAccounted size check_scanner none s h =
      process_site-IsAccounted size check_scanner s h
  unless_marked-IsAccounted size check_scanner (some summary) s h = returns tt

  run_site_pipeline-Ends :
      (size : ℕ) (check_scanner : Bool) (s : State)
      → 1 ≤ size
      → Ends (λ run _. IsAccounted run) (run_site_pipeline services py event size check_scanner s)
  unfolding run_site_pipeline
  run_site_pipeline-Ends size check_scanner s h =
      Ends-bind (some_end (read_marker services py event s, s))
        (λ mark s' _. unless_marked-IsAccounted size check_scanner mark s' h)

  -- A run that ends with a new summary has, for every key of the listing and in its order, one result,
  -- which `process_page` gave for that key at some state. The summary counts them: as rejected those
  -- that were rejected, as infected those of them with a virus, as skipped those that were skipped, and
  -- as saved or failed the others, no page that failed being among the saved, and no more duplicates
  -- than saved pages. A group takes at least one key.
  pub run_site_pipeline-IsAccounted :
      (size : ℕ) (check_scanner : Bool) (s s' : State) (run : SiteRun)
      → 1 ≤ size
      → run_site_pipeline services py event size check_scanner s ≡ (returned run, s')
      → IsAccounted run
  run_site_pipeline-IsAccounted size check_scanner s s' run h e =
      from_ends run s' (run_site_pipeline-Ends size check_scanner s h) e
