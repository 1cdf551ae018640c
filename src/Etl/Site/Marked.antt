-- ===== src/Etl/Site/Marked.antt =====
-- ETL/spark/site_pipeline.py: a site that is marked as done, and a second run of it.
use pgs_search_engine.Base.{
  ℕ, ◌≡◌, refl, sym, ap, subst, ◌∙◌, Bool, Option, none, some, List, nat_eq,
}
use pgs_search_engine.Base.Text.{Text, text_eq}
use pgs_search_engine.Etl.Site.{content, Event, Python, Result, returned, raised, ◌>>=◌}
use pgs_search_engine.Etl.Site.Driver.{
  Summary, Services, marker, pipeline_version, marker_key, Ends, raises, returns, Ends-bind,
  from_ends, some_end, ◌>>>◌,
}
use pgs_search_engine.Etl.Site.Run.{
  SiteRun, already_processed, finished, read_marker, write_marker, marker_of, marker_from, kept,
  unless_marked, run_site_pipeline,
}

module _ {State Vector : Type 0} (services : Services State Vector) (py : Python) (event : Event)
    -- The bucket takes a write, and a read after a write gives what was written.
    (put-Stores : (key : Text) (bytes : List ℕ) (s : State)
      → (s' : State) × (services.put event.bucket key bytes s ≡ some s')
        × (services.read s' event.bucket key ≡ content bytes))
    -- Reading a marker's JSON gives the version and the summary that it was made of.
    (load_marker-dumps : (summary : Summary)
      → services.load_marker (services.dumps summary) ≡ marker pipeline_version summary) where
  -- The state has the summary's marker.
  abbrev IsMarked : SiteRun → State → Type 0
  IsMarked (already_processed summary) s = Unit
  IsMarked (finished summary) s = read_marker services py event s ≡ returned (some summary)

  read_marker-content :
      (summary : Summary) (key : Text) (s : State)
      → marker_key event ≡ returned key
      → services.read s event.bucket key ≡ content (services.dumps summary)
      → read_marker services py event s ≡ returned (some summary)
  unfolding read_marker
  read_marker-content summary key s h reads =
      ap (λ k. k >>= λ key. marker_of services py event (services.read s event.bucket key)) h
      ∙ ap (marker_of services py event) reads
      ∙ ap (marker_from services py event) (load_marker-dumps summary)

  write_marker-IsMarked :
      (summary : Summary) (s : State) → Ends IsMarked (write_marker services py event summary s)
  unfolding write_marker
  write_marker-IsMarked summary s = at_key (marker_key event) refl
    where
      write_at : Result Text → Result SiteRun × State
      write_at k = (k, s) >>> (λ key later. (
        returned (finished summary),
        kept services py event later (services.put event.bucket key (services.dumps summary) later),
      ))

      at_key : (k : Result Text) → marker_key event ≡ k → Ends IsMarked (write_at k)
      at_key (raised e) h = raises
      at_key (returned key) h =
          let (s', written, reads) = put-Stores key (services.dumps summary) s in
          returns (
            subst
              (λ o.
                read_marker services py event (kept services py event s o)
                ≡ returned (some summary))
              (sym written) (read_marker-content summary key s' h reads))

  run_site_pipeline-IsMarked :
      (size : ℕ) (check_scanner : Bool) (s : State)
      → Ends IsMarked (run_site_pipeline services py event size check_scanner s)
  unfolding run_site_pipeline
  run_site_pipeline-IsMarked size check_scanner s =
      Ends-bind (some_end (read_marker services py event s, s)) (λ mark s' _. after mark s')
    where
      after :
          (mark : Option Summary) (s' : State)
          → Ends IsMarked (unless_marked services py event size check_scanner mark s')
      after (some summary) s' = returns tt
      after none s' =
          Ends-bind (some_end _) (λ summary later _. write_marker-IsMarked summary later)

  -- Where the bucket takes writes and reads back what it took, a site whose run has finished is not
  -- run again: a second run, with whatever size of groups and with or without a check of the
  -- scanner, gives the first one's summary as already processed and changes nothing.
  pub run_site_pipeline-again :
      (size size' : ℕ) (check_scanner check_scanner' : Bool) (s s' : State) (summary : Summary)
      → run_site_pipeline services py event size check_scanner s ≡ (returned (finished summary), s')
      → run_site_pipeline services py event size' check_scanner' s'
        ≡ (returned (already_processed summary), s')
  unfolding run_site_pipeline
  run_site_pipeline-again size size' check_scanner check_scanner' s s' summary h =
      let marked =
        from_ends (finished summary) s' (run_site_pipeline-IsMarked size check_scanner s) h in
      ap (λ m. (m, s') >>> unless_marked services py event size' check_scanner') marked
