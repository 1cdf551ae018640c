-- ===== src/Etl/Site/Run.antt =====
-- ETL/spark/site_pipeline.py: `finish_group` and `run_site_pipeline`.
use pgs_search_engine.Base.{
  ℕ, suc, Bool, true, false, not, ◌||◌, Option, none, some, List, [], ◌∷◌, map, ⊤, if◌then◌else◌,
  ◌==◌, nat_eq, length,
}
use pgs_search_engine.Base.Text.{Text, text_eq}
use pgs_search_engine.Base.Sort.{sort_by}
use pgs_search_engine.Etl.Site.{
  Fields, Raised, value_error, database_error, scanner_unavailable, dependency_unavailable, Result,
  returned, raised, ◌>>=◌, Fetched, content, missing, unreachable, Event, join_key, Python,
}
use pgs_search_engine.Etl.Site.Pages.{
  SiteRecord, PageResult, transformed, rejected, skipped, page_failed, run_group,
}
use pgs_search_engine.Etl.Site.Driver.{
  Summary, new_summary, pipeline_version, Services, Saved, stored, transient, refused, Marker,
  undecodable, unversioned, marker, page_invalid, not_saved, ◌>>>◌, written, is_infected, json_keys,
  text_before, groups, marker_key, records_of,
}

pub data SiteRun : Type 0 where
  already_processed finished : Summary → SiteRun

module _ {State Vector : Type 0} (services : Services State Vector) where
  -- The first loop of `finish_group`: the results that are not to be saved.
  unfoldable pub report_results : List PageResult → Summary → State → Result Summary × State
  report_results [] summary s = (returned summary, s)
  report_results (transformed key r document ∷ results) summary s = report_results results summary s
  report_results (rejected key object_key url scan document ∷ results) summary s =
      written database_error
        (record summary {
          rejected = suc summary.rejected;
          infected = if is_infected scan.clamav then suc summary.infected else summary.infected;
        })
        s (services.log_rejection (rejected key object_key url scan document) s)
      >>> report_results results
  report_results (skipped key reason ∷ results) summary s =
      report_results results (record summary { skipped = suc summary.skipped }) s
  report_results (page_failed key problem ∷ results) summary s =
      written database_error (record summary { failed = suc summary.failed }) s
        (services.log_page_error (page_invalid key problem) s)
      >>> report_results results

  -- One page of the second loop, by what saving it gave.
  abbrev pub after_save : SiteRecord → Summary → Saved → State → Result Summary × State
  after_save page summary transient s = (raised dependency_unavailable, s)
  after_save page summary refused s =
      written database_error (record summary { failed = suc summary.failed }) s
        (services.log_page_error (not_saved page) s)
  after_save page summary (stored duplicate) s = (
    returned (record summary {
      saved = suc summary.saved;
      duplicates = if duplicate then suc summary.duplicates else summary.duplicates;
    }),
    s,
  )

  -- The second loop; `zip(strict=True)` raises where one list ends before the other.
  unfoldable pub save_pages :
      List (SiteRecord × Fields) → List (Option Vector) → Summary → State → Result Summary × State
  save_pages [] [] summary s = (returned summary, s)
  save_pages [] (_ ∷ _) summary s = (raised value_error, s)
  save_pages (_ ∷ _) [] summary s = (raised value_error, s)
  save_pages ((page, document) ∷ pages) (vector ∷ vectors) summary s =
      let (outcome, after) = services.save page vector document s in
      after_save page summary outcome after >>> save_pages pages vectors

  unfoldable pub finish_group : List PageResult → Summary → State → Result Summary × State
  unfolding report_results save_pages
  finish_group results summary s = report_results results summary s >>> (λ reported after.
      (
        services.embed
            (map (λ (p : SiteRecord × Fields). p.0.page.searchable_text) (records_of results)),
        after,
      )
      >>> (λ vectors later. save_pages (records_of results) vectors reported later))

  module _ (py : Python) (event : Event) where
    -- The loop on the groups.
    unfoldable pub run_groups : List (List Text) → Summary → State → Result Summary × State
    unfolding finish_group run_group
    run_groups [] summary s = (returned summary, s)
    run_groups (group ∷ rest) summary s =
        (run_group py (services.read s) services.instream event group, s)
        >>> (λ results after. finish_group results summary after)
        >>> run_groups rest

    -- A marker's bytes: the summary of a finished run of this version.
    abbrev pub marker_from : Marker → Result (Option Summary)
    marker_from undecodable = raised value_error
    marker_from unversioned = returned none
    marker_from (marker version summary) =
        returned (if version == pipeline_version then some summary else none)

    -- An error of the bucket is a dependency that is down.
    abbrev pub marker_of : Fetched → Result (Option Summary)
    marker_of missing = returned none
    marker_of unreachable = raised dependency_unavailable
    marker_of (content bytes) = marker_from (services.load_marker bytes)

    unfoldable pub read_marker : State → Result (Option Summary)
    unfolding join_key
    read_marker s = do key ← marker_key event; marker_of (services.read s event.bucket key)

    -- The marker is written, or the failure to write it is only logged.
    abbrev pub kept : State → Option State → State
    kept s none = s
    kept s (some s') = s'

    unfoldable pub write_marker : Summary → State → Result SiteRun × State
    unfolding join_key
    write_marker summary s = (marker_key event, s) >>> (λ key later. (
      returned (finished summary),
      kept later (services.put event.bucket key (services.dumps summary) later),
    ))

    abbrev pub checked : Bool → Raised → Result ⊤
    checked true error = returned tt
    checked false error = raised error

    abbrev pub listed : Option (List (List Text)) → Result (List Text)
    listed none = raised dependency_unavailable
    listed (some pages) = returned (sort_by text_before (json_keys pages))

    -- The rest of a run of a site that has no marker.
    abbrev pub process_site : ℕ → Bool → State → Result SiteRun × State
    process_site size check_scanner s =
        (checked (not check_scanner || services.ping_clamav s) scanner_unavailable, s)
        >>> (λ _ s'. (checked (services.check s') dependency_unavailable, s'))
        >>> (λ _ s'. (listed (services.list_pages event.bucket event.documents_prefix s'), s'))
        >>> (λ keys s'. run_groups (groups size keys) (new_summary event (length keys)) s')
        >>> write_marker

    abbrev pub unless_marked : ℕ → Bool → Option Summary → State → Result SiteRun × State
    unless_marked size check_scanner (some summary) s = (returned (already_processed summary), s)
    unless_marked size check_scanner none s = process_site size check_scanner s

    -- `run_site_pipeline`, for an event that `validate_event` lets through; `size` is
    -- PAGE_GROUP_SIZE, which is at least 1.
    unfoldable pub run_site_pipeline : ℕ → Bool → State → Result SiteRun × State
    unfolding new_summary groups run_groups read_marker write_marker
    run_site_pipeline size check_scanner s = (read_marker s, s) >>> unless_marked size check_scanner
