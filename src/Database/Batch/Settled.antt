-- ===== src/Database/Batch/Settled.antt =====
-- database/src/pgs_db/etl.py: the rows of the queue and the counts after a batch.
use pgs_search_engine.Base.{
  ℕ, suc, ◌+◌, ◌≤◌, ◌≡◌, refl, ap, ◌∙◌, inl, inr, Bool, true, false, not, ◌&&◌, Option, none, some,
  List, [], ◌∷◌, map, arith, if_ind, Bool-cases, ◌==◌, nat_eq, length, take, any, length-map, elem,
  update_if,
}
use pgs_search_engine.Database.Batch.{
  Postgres, if_settled, new_result, save_rows, process_bronze_batch, Infected, Transform, Etl,
  BatchResult, Tables, Options, Attempt, stored, threat, error, quarantine, attempt, settle,
}
use pgs_search_engine.Database.Batch.Stored.{IsStored, attempt-IsStored}
use pgs_search_engine.Database.Queue.{
  claim, processed, QueueRow, is_processing, mark_processed, mark_failed, quarantine_row,
}
use pgs_search_engine.Base.Partial.{
  from_gives, WhenSome, refused, gives, WhenSome-bind, WhenSome-bind_with,
}
use pgs_search_engine.Base.Text.{Text, text_eq}
use pgs_search_engine.Base.Dict.{lookup}
use pgs_search_engine.Database.Pages.{blank_to_none}
use pgs_search_engine.Database.Queue.Claims.{has_row}

-- The row with this id is in progress.
abbrev pub busy : ℕ → List QueueRow → Bool
busy id rows = has_row is_processing id rows

busy-update_if :
    (q : ℕ → Bool) (f : QueueRow → QueueRow) (id : ℕ)
    → ((r : QueueRow) → (f r).id ≡ r.id)
    → ((r : QueueRow) → is_processing (f r) ≡ false)
    → (rows : List QueueRow)
    → busy id (update_if (λ (r : QueueRow). q r.id) f rows) ≡ (busy id rows && not (q id))
busy-update_if q f id same settled [] = refl
busy-update_if q f id same settled (r ∷ rows) = elim (Bool-cases (r.id == id)) [
  | inl here ↦ ground (arith, same r, settled r, busy-update_if q f id same settled rows)
  | inr other ↦ ground (arith, same r, settled r, busy-update_if q f id same settled rows)
]

mark_processed-busy :
    (row_id id : ℕ) (rows : List QueueRow)
    → busy id (mark_processed (row_id ∷ []) rows).1 ≡ (busy id rows && not (id == row_id))
unfolding mark_processed
mark_processed-busy row_id id rows = ground (
  arith,
  busy-update_if (λ n. elem n (row_id ∷ []))
      (λ (row : QueueRow). record row { processing_status = processed; processing_error = none }) id
      (λ r. refl) (λ r. refl) rows,
)

mark_failed-busy :
    (row_id id : ℕ) (message : Text) (rows : List QueueRow)
    → WhenSome
        (λ after. busy id after ≡ (busy id rows && not (id == row_id)))
        (mark_failed row_id message rows)
unfolding mark_failed
mark_failed-busy row_id id message rows =
    if_ind
      (λ (o : Option (List QueueRow)).
        WhenSome (λ after. busy id after ≡ (busy id rows && not (id == row_id))) o)
      (any (λ (row : QueueRow). row.id == row_id) rows)
      (λ there. gives (busy-update_if (λ n. n == row_id) _ id (λ r. refl) (λ r. refl) rows))
      (λ gone. refused)

quarantine_row-busy :
    (row_id id : ℕ) (signature : Text) (rows : List QueueRow)
    → busy id (quarantine_row row_id signature rows) ≡ (busy id rows && not (id == row_id))
unfolding quarantine_row
quarantine_row-busy row_id id signature rows =
    busy-update_if (λ n. n == row_id) _ id (λ r. refl) (λ r. refl) rows

-- How many of the claimed rows a batch has counted.
abbrev pub counted_rows : BatchResult → ℕ
counted_rows result = result.saved + result.quarantined + result.failed

module _ {Body Children : Type 0} (replace_children : Option Children → Children → Children)
    (transform : ℕ → Transform Body Children) (refusal : Text) (tables : Tables) (options : Options)
    (postgres : Postgres Body Children) (id : ℕ) where
  quarantine-busy :
      (now row_id : ℕ) (infected : Infected) (db : Etl Body Children)
      → WhenSome
          (λ after. busy id after.queue ≡ (busy id db.queue && not (id == row_id)))
          (quarantine tables now row_id infected db)
  unfolding quarantine
  quarantine-busy now row_id infected db =
      WhenSome-bind (blank_to_none (some infected.threat_signature)) (λ signature.
        WhenSome-bind (blank_to_none (some infected.quarantine_path)) (λ path.
          WhenSome-bind (lookup row_id tables.documents)
            (λ document. gives (quarantine_row-busy row_id id infected.threat_signature db.queue))))

  -- What a batch that got this far leaves: which rows are in progress, and its counts.
  abbrev pub Settles : Bool → ℕ → BatchResult → Etl Body Children × BatchResult → Type 0
  Settles still n before (after, result) =
      (busy id after.queue ≡ still)
      × (counted_rows result ≡ counted_rows before + n)
      × (result.duplicates + before.saved + before.failed
          ≤ before.duplicates + result.saved + result.failed)
      × (result.claimed ≡ before.claimed)

  settled-Settles :
      (row_id : ℕ) (still : Bool) (n : ℕ) (before : BatchResult)
      (r : Etl Body Children × BatchResult)
      → Settles still n before r
      → WhenSome
          (Settles still n before)
          (if_settled replace_children transform refusal tables options postgres row_id r)
  settled-Settles row_id still n before (after, result) h =
      if_ind (WhenSome (Settles still n before)) (postgres.settles row_id after) (λ _. gives h)
        (λ _. refused)

  settle-Settles :
      (now row_id : ℕ) (a : Attempt Body Children) (db : Etl Body Children) (result : BatchResult)
      → IsStored replace_children transform refusal tables options postgres row_id db a
      → WhenSome
          (Settles (busy id db.queue && not (id == row_id)) 1 result)
          (settle replace_children transform refusal tables options postgres now row_id a db result)
  unfolding settle
  settle-Settles now row_id (stored true after) db result h = gives (
    ap (λ rows. busy id rows) h ∙ mark_processed-busy row_id id db.queue,
    omega arith,
    omega arith,
    refl,
  )
  settle-Settles now row_id (stored false after) db result h = gives (
    ap (λ rows. busy id rows) h ∙ mark_processed-busy row_id id db.queue,
    omega arith,
    omega arith,
    refl,
  )
  settle-Settles now row_id (threat infected) db result h =
      WhenSome-bind_with (quarantine-busy now row_id infected db)
        (λ after e. settled-Settles row_id _ 1 result _ (e, omega arith, omega arith, refl))
  settle-Settles now row_id (error true message) db result h =
      WhenSome-bind_with (mark_failed-busy row_id id (take 2000 message) db.queue)
        (λ after e. settled-Settles row_id _ 1 result _ (e, omega arith, omega arith, refl))
  settle-Settles now row_id (error false message) db result h =
      WhenSome-bind_with (mark_failed-busy row_id id (take 2000 message) db.queue)
        (λ after e. settled-Settles row_id _ 1 result _ (e, omega arith, omega arith, refl))

  save_rows-Settles :
      (now : ℕ) (ids : List ℕ) (db : Etl Body Children) (result : BatchResult)
      → WhenSome
          (Settles (busy id db.queue && not (elem id ids)) (length ids) result)
          (save_rows replace_children transform refusal tables options postgres now ids db result)
  unfolding save_rows
  save_rows-Settles now [] db result = gives (ground arith, omega arith, omega arith, refl)
  save_rows-Settles now (row_id ∷ ids) db result =
      WhenSome-bind_with
        (settle-Settles now row_id
          (attempt replace_children transform refusal tables options postgres now row_id db) db
          result
          (attempt-IsStored replace_children transform refusal tables options postgres now row_id
            db))
        (λ (after, counted) (still, one_more, folds, claimed).
          weaken after counted still one_more folds claimed
            (save_rows-Settles now ids after counted))
    where
      weaken :
          (after : Etl Body Children) (counted : BatchResult)
          → busy id after.queue ≡ (busy id db.queue && not (id == row_id))
          → counted_rows counted ≡ counted_rows result + 1
          → counted.duplicates + result.saved + result.failed
            ≤ result.duplicates + counted.saved + counted.failed
          → counted.claimed ≡ result.claimed
          → {o : Option (Etl Body Children × BatchResult)}
          → WhenSome (Settles (busy id after.queue && not (elem id ids)) (length ids) counted) o
          → WhenSome
              (Settles (busy id db.queue && not (elem id (row_id ∷ ids))) (suc (length ids)) result)
              o
      weaken after counted a b c d refused = refused
      weaken after counted a b c d (gives (e, f, g, h)) =
          gives (ground (arith, a, e), omega arith, omega arith, h ∙ d)

  -- When a batch returns, a row is in progress exactly if the claim left it so and did not claim it. The
  -- batch has saved, quarantined or failed as many rows as it claimed, and has counted at most as many
  -- duplicates as rows that it saved or failed. PostgreSQL may refuse any transaction.
  pub process_bronze_batch-settles :
      (now : ℕ) (locked : List ℕ) (db after : Etl Body Children) (result : BatchResult)
      → process_bronze_batch replace_children transform refusal tables options postgres now locked
          db
        ≡ some (after, result)
      → let (rows, queue) = claim options.limit now locked db.queue in
        (busy id after.queue
          ≡ (busy id queue && not (elem id (map (λ (row : QueueRow). row.id) rows))))
        × (result.saved + result.quarantined + result.failed ≡ length rows)
        × (result.duplicates ≤ result.saved + result.failed)
        × (result.claimed ≡ length rows)
  unfolding process_bronze_batch
  process_bronze_batch-settles now locked db after result h =
      let (rows, queue) = claim options.limit now locked db.queue in
      let claimed_db : Etl Body Children = record db { queue = queue } in
      let (still, counts, folds, claimed) =
        from_gives (after, result)
          (if_ind
            (WhenSome (
              Settles (busy id queue && not (elem id (map (λ (row : QueueRow). row.id) rows)))
                (length (map (λ (row : QueueRow). row.id) rows))
                (new_result replace_children transform refusal tables options postgres
                  (length rows))))
            (postgres.claims claimed_db)
            (λ _.
              save_rows-Settles now (map (λ (row : QueueRow). row.id) rows) claimed_db (
                new_result replace_children transform refusal tables options postgres
                  (length rows)))
            (λ _. refused))
          h in
      (
        still,
        omega (arith, counts, length-map (λ (row : QueueRow). row.id) rows),
        omega (arith, folds),
        claimed,
      )
