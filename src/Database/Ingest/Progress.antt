-- ===== src/Database/Ingest/Progress.antt =====
-- What a pass over a run has done when it ends.
use pgs_search_engine.Base.{
  ℕ, zero, suc, ◌+◌, ◌≤◌, ◌≡◌, refl, sym, ap, subst, ◌∙◌, ◌⊎◌, inl, inr, Bool, true, false, not,
  ◌&&◌, ◌||◌, Option, none, some, List, [], ◌∷◌, ◌++◌, arith, if_ind, Bool-cases, Option-cases,
  ◌==◌, nat_eq, length, take, drop, any, All, length-append, take-append-drop, length-drop, find,
  update_if, find-some, All-map,
}
use pgs_search_engine.Database.Ingest.{
  add_errors, IngestState, IngestReport, Tables, state_of, put_state, ingest_run, pending_of,
  start_pass, is_terminal, run_status, count_saved, count_broken, end_chunk, load_chunks, Pass,
  start_chunk, is_due, chunks_of, SourceObject, Loading, saved, broken, Source, newer, Chunk,
  load_chunk,
}
use mathlib.Core.List.{append_assoc}
use pgs_search_engine.Base.Text.{Text, text_eq}

Loading-cases :
    {B : Type 0} (l : Loading B) → ((b : B) × (l ≡ saved b)) ⊎ ((m : Text) × (l ≡ broken m))
Loading-cases (saved b) = inl (b, refl)
Loading-cases (broken m) = inr (m, refl)

module _ {B : Type 0} (source : Source B) (run_id : ℕ) where
  -- Loading objects one after the other, when none fails.
  abbrev pub load_all : List SourceObject → B → Option B
  load_all [] bronze = some bronze
  load_all (obj ∷ objs) bronze = elim (source.load run_id obj bronze) [
    | broken _ ↦ none
    | saved after ↦ load_all objs after
  ]

  abbrev pub newest_of : Option ℕ → List SourceObject → Option ℕ
  newest_of newest [] = newest
  newest_of newest (obj ∷ objs) = newest_of (newer newest obj.last_modified) objs

  load_chunk-lem :
      (objs : List SourceObject) (c : Chunk source run_id)
      → let after = load_chunk source run_id objs c in
        (after.newest ≡ newest_of c.newest objs)
        × (after.loaded + after.failed ≡ c.loaded + c.failed + length objs)
        × (c.failed ≤ after.failed)
        × (after.failed ≡ c.failed → load_all objs c.bronze ≡ some after.bronze)
  unfolding load_chunk
  load_chunk-lem [] c = (refl, omega arith, omega arith, λ _. refl)
  load_chunk-lem (obj ∷ objs) c = elim (Loading-cases (source.load run_id obj c.bronze)) [
    | inl (after, done) ↦
        let (newest, counted, more, all_of) =
          load_chunk-lem objs (count_saved source run_id obj after c) in
        rw (load_chunk, done)
          (
            newest,
            omega (arith, counted),
            omega (arith, more),
            λ e. ground (arith, done, all_of (omega arith)),
          )
    | inr (message, failed) ↦
        let (newest, counted, more, all_of) =
          load_chunk-lem objs (count_broken source run_id obj message c) in
        rw (load_chunk, failed)
          (newest, omega (arith, counted), omega (arith, more), λ e. absurd (omega (arith, more)))
  ]

  -- What `rest` would still be due under a watermark.
  abbrev pub AllDue : Option ℕ → List SourceObject → Type 0
  AllDue watermark objs = All (λ o. is_due watermark o ≡ true) objs

  -- No object is older than one that is listed before it.
  abbrev pub InTimeOrder : Option ℕ → List SourceObject → Type 0
  InTimeOrder since [] = Unit
  InTimeOrder since (obj ∷ objs) =
      (is_due since obj ≡ true) × InTimeOrder (newer since obj.last_modified) objs

  due_later :
      (since : Option ℕ) (at : ℕ) (obj : SourceObject)
      → is_due (newer since at) obj ≡ true
      → is_due since obj ≡ true
  due_later none at obj h = refl
  due_later (some t) at obj h = ground arith

  InTimeOrder-AllDue :
      (since : Option ℕ) (objs : List SourceObject) → InTimeOrder since objs → AllDue since objs
  InTimeOrder-AllDue since [] h = tt
  InTimeOrder-AllDue since (obj ∷ objs) h = (
    h.0,
    All-map (λ o d. due_later since obj.last_modified o d) objs
        (InTimeOrder-AllDue (newer since obj.last_modified) objs h.1),
  )

  InTimeOrder-append :
      (since : Option ℕ) (xs ys : List SourceObject)
      → InTimeOrder since (xs ++ ys)
      → InTimeOrder (newest_of since xs) ys
  InTimeOrder-append since [] ys h = h
  InTimeOrder-append since (x ∷ xs) ys h =
      InTimeOrder-append (newer since x.last_modified) xs ys h.1

  abbrev pub concat : List (List SourceObject) → List SourceObject
  concat [] = []
  concat (chunk ∷ chunks) = chunk ++ concat chunks

  load_all-append :
      (xs ys : List SourceObject) (b middle : B)
      → load_all xs b ≡ some middle
      → load_all (xs ++ ys) b ≡ load_all ys middle
  load_all-append [] ys b middle h = ground arith
  load_all-append (x ∷ xs) ys b middle h = elim (Loading-cases (source.load run_id x b)) [
    | inl (after, done) ↦ ground (arith, load_all-append xs ys after middle)
    | inr (message, failed) ↦ absurd (ground arith)
  ]

  append-nil : (xs : List SourceObject) → xs ++ [] ≡ xs
  append-nil [] = refl
  append-nil (x ∷ xs) = ap (λ l. x ∷ l) (append-nil xs)

  newest_of-append :
      (since : Option ℕ) (xs ys : List SourceObject)
      → newest_of since (xs ++ ys) ≡ newest_of (newest_of since xs) ys
  newest_of-append since [] ys = refl
  newest_of-append since (x ∷ xs) ys = newest_of-append (newer since x.last_modified) xs ys

  -- How far a pass over `chunks` got: `done` is behind the watermark, `rest` is not.
  abbrev Reached : List SourceObject → Pass source run_id → Bool × Pass source run_id → Type 0
  Reached objs p (has_failures, after) =
      (done : List SourceObject) × (rest : List SourceObject) × (objs ≡ done ++ rest)
      × (after.state.last_modified ≡ newest_of p.newest done)
      × ((middle : B) × (load_all done p.bronze ≡ some middle))
      × (after.state.crawl_run_id ≡ p.state.crawl_run_id)
      × (has_failures ≡ false → (rest ≡ []) × (load_all done p.bronze ≡ some after.bronze))

  load_chunks-lem :
      (chunks : List (List SourceObject)) (p : Pass source run_id)
      → p.state.last_modified ≡ p.newest
      → Reached (concat chunks) p (load_chunks source run_id chunks p)
  unfolding load_chunks
  load_chunks-lem [] p h = ([], [], refl, h, (p.bronze, refl), refl, λ _. (refl, refl))
  load_chunks-lem (chunk ∷ chunks) p h =
      let c = load_chunk source run_id chunk (start_chunk source run_id p) in
      let next = end_chunk source run_id p c in
      let (newest, counted, more, all_of) = load_chunk-lem chunk (start_chunk source run_id p) in
      if_ind {A = Bool × Pass source run_id} (Reached (chunk ++ concat chunks) p) (c.failed == 0)
        (λ fine.
          let (done, rest, split, mark, (middle, got), same_run, complete) =
            load_chunks-lem chunks next (ground (arith, fine)) in
          (
            chunk ++ done,
            rest,
            ap (λ l. chunk ++ l) split ∙ sym (append_assoc chunk done rest),
            ground (arith, mark, newest, newest_of-append p.newest chunk done),
            (
              middle,
              load_all-append chunk done p.bronze c.bronze (all_of (ground (arith, fine))) ∙ got,
            ),
            same_run,
            λ none_failed.
                let (nothing, loaded) = complete none_failed in
                (
                  nothing,
                  load_all-append chunk done p.bronze c.bronze (all_of (ground (arith, fine)))
                      ∙ loaded,
                ),
          ))
        λ bad. (
          [],
          chunk ++ concat chunks,
          refl,
          ground (arith, bad),
          (p.bronze, refl),
          refl,
          λ e. absurd (ground arith),
        )

  concat-chunks_of :
      (fuel size : ℕ) (objs : List SourceObject)
      → 1 ≤ size
      → length objs ≤ fuel
      → concat (chunks_of fuel size objs) ≡ objs
  concat-chunks_of zero size [] h k = refl
  concat-chunks_of zero size (o ∷ objs) h k = absurd (omega arith)
  concat-chunks_of (suc fuel) size [] h k = refl
  concat-chunks_of (suc fuel) size (o ∷ objs) h k =
      ap (λ l. take size (o ∷ objs) ++ l)
        (concat-chunks_of fuel size (drop size (o ∷ objs)) h
          (omega (arith, length-drop size (o ∷ objs))))
      ∙ take-append-drop size (o ∷ objs)

module _ {B : Type 0} (source : Source B) (run_id : ℕ) where
  load_chunk-Fine :
      (objs : List SourceObject) (c : Chunk source run_id) (bronze : B)
      → load_all source run_id objs c.bronze ≡ some bronze
      → let after = load_chunk source run_id objs c in
        (after.bronze ≡ bronze)
        × (after.loaded ≡ c.loaded + length objs)
        × (after.failed ≡ c.failed)
        × (after.log ≡ c.log)
  unfolding load_chunk
  load_chunk-Fine [] c bronze h = (ground arith, omega arith, refl, refl)
  load_chunk-Fine (obj ∷ objs) c bronze h = elim (Loading-cases (source.load run_id obj c.bronze)) [
    | inl (after, done) ↦
        let (same, loaded, failed, log) =
          load_chunk-Fine objs (count_saved source run_id obj after c) bronze (ground arith) in
        rw (load_chunk, done) (same, omega (arith, loaded), failed, log)
    | inr (message, failed) ↦ absurd (ground arith)
  ]

  load_all-split :
      (xs ys : List SourceObject) (b bronze : B)
      → load_all source run_id (xs ++ ys) b ≡ some bronze
      → (middle : B) × (load_all source run_id xs b ≡ some middle)
        × (load_all source run_id ys middle ≡ some bronze)
  load_all-split [] ys b bronze h = (b, refl, h)
  load_all-split (x ∷ xs) ys b bronze h = elim (Loading-cases (source.load run_id x b)) [
    | inl (after, done) ↦
        let (middle, first, second) = load_all-split xs ys after bronze (ground arith) in
        (middle, ground arith, second)
    | inr (message, failed) ↦ absurd (ground arith)
  ]

  -- A pass without a failure.
  abbrev Fine : List SourceObject → Pass source run_id → B → Bool × Pass source run_id → Type 0
  Fine objs p bronze (has_failures, after) =
      (has_failures ≡ false)
      × (after.bronze ≡ bronze)
      × (after.loaded ≡ p.loaded + length objs)
      × (after.failed ≡ p.failed)
      × (after.log ≡ p.log)

  load_chunks-Fine :
      (chunks : List (List SourceObject)) (p : Pass source run_id) (bronze : B)
      → load_all source run_id (concat source run_id chunks) p.bronze ≡ some bronze
      → Fine (concat source run_id chunks) p bronze (load_chunks source run_id chunks p)
  unfolding load_chunks
  load_chunks-Fine [] p bronze h = (refl, ground arith, omega arith, refl, refl)
  load_chunks-Fine (chunk ∷ chunks) p bronze h =
      let (middle, first, second) =
        load_all-split chunk (concat source run_id chunks) p.bronze bronze h in
      let c = load_chunk source run_id chunk (start_chunk source run_id p) in
      let (same, loaded, failed, log) =
        load_chunk-Fine chunk (start_chunk source run_id p) middle first in
      let zero_failed : (c.failed == 0) ≡ true = ground (arith, failed) in
      let next = end_chunk source run_id p c in
      let (fine, done, counted, still, logs) =
        load_chunks-Fine chunks next bronze
          (ap (load_all source run_id (concat source run_id chunks)) same ∙ second) in
      if_ind {A = Bool × Pass source run_id} (Fine (chunk ++ concat source run_id chunks) p bronze)
        (c.failed == 0)
        (λ _. (
          fine,
          done,
          omega (arith, counted, loaded, length-append chunk (concat source run_id chunks)),
          omega (arith, still, failed),
          logs ∙ ap (λ l. p.log ++ l) log ∙ no_log p.log,
        ))
        λ bad. absurd (ground arith)
    where
      no_log : (xs : List (Text × Text)) → xs ++ [] ≡ xs
      no_log [] = refl
      no_log (x ∷ xs) = ap (λ l. x ∷ l) (no_log xs)

put_state_same :
    (run_id : ℕ) (source : Text) (s : IngestState) (states : List IngestState)
    → s.crawl_run_id ≡ run_id
    → state_of run_id source (put_state s states) ≡ s
put_state_same run_id source s states same =
    elim (Bool-cases (any (λ r. r.crawl_run_id == s.crawl_run_id) states)) [
      | inl known ↦ rw known (ground (arith, replaced states known))
      | inr new ↦ rw new (ground (arith, added states new))
    ]
  where
    replaced :
        (rows : List IngestState)
        → any (λ r. r.crawl_run_id == s.crawl_run_id) rows ≡ true
        → find
            (λ r. r.crawl_run_id == run_id)
            (update_if (λ r. r.crawl_run_id == s.crawl_run_id) (λ _. s) rows)
          ≡ some s
    replaced [] h = ground arith
    replaced (r ∷ rows) h = ground (arith, replaced rows)

    added :
        (rows : List IngestState)
        → any (λ r. r.crawl_run_id == s.crawl_run_id) rows ≡ false
        → find (λ r. r.crawl_run_id == run_id) (rows ++ s ∷ []) ≡ some s
    added [] h = ground arith
    added (r ∷ rows) h = ground (arith, added rows)

state_of_run :
    (run_id : ℕ) (source : Text) (states : List IngestState)
    → (state_of run_id source states).crawl_run_id ≡ run_id
state_of_run run_id source states =
    elim (Option-cases (find (λ (s : IngestState). s.crawl_run_id == run_id) states)) [
      | inl unknown ↦ ground arith
      | inr (s, found) ↦
          ground (arith, find-some (λ (s : IngestState). s.crawl_run_id == run_id) states s found)
    ]

module _ {B : Type 0} (upper : Text → Text) (size : ℕ) (source : Source B) where
  -- A pass over a run whose due objects are listed in the order of their times splits them in two: those
  -- before some point all load, one after the other, and the watermark that the pass leaves is the
  -- newest of them and of the watermark before; those after that point are still due under it. A pass
  -- that finishes the run leaves none of them, and its tables are those after loading all.
  pub ingest_run-retries :
      (run_id now : ℕ) (report : IngestReport) (tables : Tables B)
      → 1 ≤ size
      → InTimeOrder source run_id
          (state_of run_id source.name tables.states).last_modified
          (pending_of upper size source run_id tables.states)
      → let pending = pending_of upper size source run_id tables.states in
        let (finished, _, after) = ingest_run upper size source run_id now report tables in
        (done : List SourceObject) × (rest : List SourceObject) × (pending ≡ done ++ rest)
        × ((middle : B) × (load_all source run_id done tables.bronze ≡ some middle))
        × ((state_of run_id source.name after.states).last_modified
            ≡ newest_of source run_id
                (state_of run_id source.name tables.states).last_modified
                done)
        × AllDue source run_id (state_of run_id source.name after.states).last_modified rest
        × ((finished ≡ false)
            ⊎ ((rest ≡ []) × (load_all source run_id pending tables.bronze ≡ some after.bronze)))
  unfolding ingest_run
  ingest_run-retries run_id now report tables h ordered =
      let pending = pending_of upper size source run_id tables.states in
      let chunks = chunks_of (length pending) size pending in
      let start = start_pass upper size source run_id tables in
      let (done, rest, split, mark, got, same_run, complete) =
        load_chunks-lem source run_id chunks start refl in
      let (has_failures, pass) = load_chunks source run_id chunks start in
      let whole : pending ≡ done ++ rest =
        sym (concat-chunks_of source run_id (length pending) size pending h (omega arith))
        ∙ split in
      let finished = is_terminal (run_status upper (source.manifest run_id)) && not has_failures in
      let state : IngestState = record pass.state { finished = pass.state.finished || finished } in
      let kept =
        put_state_same run_id source.name state tables.states
          (same_run ∙ state_of_run run_id source.name tables.states) in
      let later : InTimeOrder source run_id (newest_of source run_id start.newest done) rest =
        InTimeOrder-append source run_id start.newest done rest
          (subst (InTimeOrder source run_id start.newest) whole ordered) in
      (
        done,
        rest,
        whole,
        got,
        ap (λ (s : IngestState). s.last_modified) kept ∙ mark,
        subst (λ w. AllDue source run_id w rest)
            (sym (ap (λ (s : IngestState). s.last_modified) kept ∙ mark))
            (InTimeOrder-AllDue source run_id _ rest later),
        elim (Bool-cases finished) [
          | inr unfinished ↦ inl unfinished
          | inl e ↦
              let (nothing, loaded) = complete (ground arith) in
              inr (
                nothing,
                ap (λ l. load_all source run_id l tables.bronze)
                      (whole ∙ ap (λ l. done ++ l) nothing ∙ append-nil source run_id done)
                    ∙ loaded,
              )
        ],
      )

  -- If all due objects of a run load, one pass loads them all in the order of the listing, counts each
  -- of them, and finishes the run exactly if its manifest says that it has ended.
  pub ingest_run-loads :
      (run_id now : ℕ) (report : IngestReport) (tables : Tables B) (bronze : B)
      → 1 ≤ size
      → load_all source run_id (pending_of upper size source run_id tables.states) tables.bronze
        ≡ some bronze
      → let pending = pending_of upper size source run_id tables.states in
        let (finished, counted, after) = ingest_run upper size source run_id now report tables in
        (finished ≡ is_terminal (run_status upper (source.manifest run_id)))
        × (after.bronze ≡ bronze)
        × (counted.documents_loaded ≡ report.documents_loaded + length pending)
        × (counted.documents_failed ≡ report.documents_failed)
        × (counted.errors ≡ report.errors)
        × (after.error_logs ≡ tables.error_logs)
  unfolding ingest_run
  ingest_run-loads run_id now report tables bronze h loads =
      let pending = pending_of upper size source run_id tables.states in
      let start = start_pass upper size source run_id tables in
      let whole = concat-chunks_of source run_id (length pending) size pending h (omega arith) in
      let (fine, same, loaded, failed, log) =
        load_chunks-Fine source run_id (chunks_of (length pending) size pending) start bronze
          (ap (λ l. load_all source run_id l tables.bronze) whole ∙ loads) in
      (
        ground (arith, fine),
        same,
        omega (arith, loaded, ap (λ l. length l) whole),
        omega (arith, failed),
        ap (λ l. add_errors l report.errors) log,
        ap (λ l. tables.error_logs ++ l) log ∙ ap_nil tables.error_logs,
      )
    where
      ap_nil : (xs : List (Text × Text)) → xs ++ [] ≡ xs
      ap_nil [] = refl
      ap_nil (x ∷ xs) = ap (λ l. x ∷ l) (ap_nil xs)
