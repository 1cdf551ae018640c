-- ===== src/Database/Batch/Returns.antt =====
-- database/src/pgs_db/etl.py: what `process_bronze_batch` returns, and when.
use pgs_search_engine.Base.{
  ℕ, ◌≡◌, refl, sym, ap, ◌∙◌, Bool, true, false, Option, none, some, List, [], ◌∷◌, map, arith, ⊤,
  if_ind, nat_eq, beq_self, length, take, elem,
}
use pgs_search_engine.Database.Batch.{
  Postgres, Answer, commits, refuses_write, refuses_commit, if_settled, new_result,
  process_bronze_batch, Infected, Transform, gives_page, finds_threat, raises, Etl, BatchResult,
  Tables, Options, Attempt, stored, threat, error, quarantine, attempt_of, attempt, settle,
  save_rows, save_row, fold_page,
}
use pgs_search_engine.Database.Queue.{QueueRow, claim}
use pgs_search_engine.Base.Text.{Text, text_eq, is_blank}
use pgs_search_engine.Base.Dict.{contains}
use pgs_search_engine.Base.Partial.{◌>>=◌}
use pgs_search_engine.Database.Batch.Stored.{IsStored, attempt-IsStored}
use pgs_search_engine.Database.Batch.Known.{
  Returns, returns, Returns-bind, the_result, known, SameIds, mark_processed-SameIds,
  quarantine_row-SameIds, mark_failed-Returns, blank_to_none-Returns, lookup-Returns, claim-SameIds,
  claim-known,
}

-- What `quarantine` asks of the exception.
pub record NamesThreat (infected : Infected) : Type 0 where
  pub signature : is_blank infected.threat_signature ≡ false
  pub path : is_blank infected.quarantine_path ≡ false

-- PostgreSQL takes the transaction that claims rows, and those that quarantine a row or mark it as
-- failed.
pub record Settling {Body Children : Type 0} (postgres : Postgres Body Children) : Type 0 where
  pub claiming : (db : Etl Body Children) → postgres.claims db ≡ true
  pub handlers : (row_id : ℕ) (db : Etl Body Children) → postgres.settles row_id db ≡ true

abbrev pub AllNamed : {Body Children : Type 0} → (ℕ → Transform Body Children) → Type 0
AllNamed transform =
    (id : ℕ) (infected : Infected) → transform id ≡ finds_threat infected → NamesThreat infected

module _ {Body Children : Type 0} (replace_children : Option Children → Children → Children)
    (transform : ℕ → Transform Body Children) (refusal : Text) (tables : Tables) (options : Options)
    (postgres : Postgres Body Children) where
  quarantine-Returns :
      (now row_id : ℕ) (infected : Infected) (db : Etl Body Children)
      → NamesThreat infected
      → contains row_id tables.documents ≡ true
      → Returns
          (λ (after : Etl Body Children). SameIds db.queue after.queue)
          (quarantine tables now row_id infected db)
  unfolding quarantine
  quarantine-Returns now row_id infected db named h =
      Returns-bind (blank_to_none-Returns infected.threat_signature named.signature) (λ s a.
        Returns-bind (blank_to_none-Returns infected.quarantine_path named.path) (λ p b.
          Returns-bind (lookup-Returns row_id tables.documents h)
            (λ d c. returns (quarantine_row-SameIds row_id infected.threat_signature db.queue))))

  -- A threat that an attempt meets is one that quarantine accepts.
  abbrev IsAccepted : Attempt Body Children → Type 0
  IsAccepted (stored folded after) = ⊤
  IsAccepted (threat infected) = NamesThreat infected
  IsAccepted (error counted message) = ⊤

  any_outcome :
      (row_id : ℕ) (o : Option (Bool × Etl Body Children))
      → IsAccepted (attempt_of replace_children transform refusal tables options postgres row_id o)
  any_outcome row_id none = tt
  any_outcome row_id (some (folded, after)) = answered (postgres.saves row_id after)
    where
      answered :
          (a : Answer)
          → IsAccepted (elim a [
            | commits ↦ stored folded after
            | refuses_write ↦ error false refusal
            | refuses_commit ↦ error folded refusal
          ])
      answered commits = tt
      answered refuses_write = tt
      answered refuses_commit = tt

  attempt-IsAccepted :
      AllNamed transform
      → (now row_id : ℕ) (db : Etl Body Children)
      → IsAccepted
          (attempt replace_children transform refusal tables options postgres now row_id db)
  unfolding attempt
  attempt-IsAccepted named now row_id db = by_transform (transform row_id) refl
    where
      by_transform :
          (t : Transform Body Children)
          → transform row_id ≡ t
          → IsAccepted (elim t [
            | gives_page payload ↦
                attempt_of replace_children transform refusal tables options postgres row_id (
                  save_row replace_children transform refusal tables options postgres now row_id
                    payload db
                  >>= fold_page replace_children transform refusal tables options postgres)
            | finds_threat infected ↦ threat infected
            | raises message ↦ error false message
          ])
      by_transform (gives_page payload) e = any_outcome row_id (
          save_row replace_children transform refusal tables options postgres now row_id payload db
          >>= fold_page replace_children transform refusal tables options postgres)
      by_transform (finds_threat infected) e = named row_id infected e
      by_transform (raises message) e = tt

  settled-Returns :
      Settling postgres
      → (row_id : ℕ) (queue : List QueueRow) (after : Etl Body Children) (result : BatchResult)
      → SameIds queue after.queue
      → Returns
          (λ (r : Etl Body Children × BatchResult). SameIds queue r.0.queue)
          (if_settled replace_children transform refusal tables options postgres row_id
            (after, result))
  settled-Returns settling row_id queue after result same =
      rw (if_settled, settling.handlers row_id after) (returns same)

  settle-Returns :
      Settling postgres
      → (now row_id : ℕ) (a : Attempt Body Children) (db : Etl Body Children) (result : BatchResult)
      → IsStored replace_children transform refusal tables options postgres row_id db a
      → IsAccepted a
      → contains row_id tables.documents ≡ true
      → known row_id db.queue ≡ true
      → Returns
          (λ (r : Etl Body Children × BatchResult). SameIds db.queue r.0.queue)
          (settle replace_children transform refusal tables options postgres now row_id a db result)
  unfolding settle
  settle-Returns settling now row_id (stored folded after) db result e named h k =
      returns
        (λ id. ap (λ rows. known id rows) e ∙ mark_processed-SameIds (row_id ∷ []) db.queue id)
  settle-Returns settling now row_id (threat infected) db result e named h k =
      Returns-bind (quarantine-Returns now row_id infected db named h)
        (λ after same. settled-Returns settling row_id db.queue after _ same)
  settle-Returns settling now row_id (error counted message) db result e named h k =
      Returns-bind (mark_failed-Returns row_id (take 2000 message) db.queue k) (λ after same.
        settled-Returns settling row_id db.queue (record db { queue = after }) _ same)

  -- Rows of the queue, of documents that Bronze has.
  abbrev AllThere : List ℕ → List QueueRow → Type 0
  AllThere ids rows =
      (id : ℕ) → elem id ids ≡ true → (contains id tables.documents ≡ true) × (known id rows ≡ true)

  save_rows-Returns :
      AllNamed transform
      → Settling postgres
      → (now : ℕ) (ids : List ℕ) (db : Etl Body Children) (result : BatchResult)
      → AllThere ids db.queue
      → Returns
          (λ (r : Etl Body Children × BatchResult). ⊤)
          (save_rows replace_children transform refusal tables options postgres now ids db result)
  unfolding save_rows
  save_rows-Returns named settling now [] db result there = returns tt
  save_rows-Returns named settling now (row_id ∷ ids) db result there =
      let (has_document, is_known) = there row_id (ground (arith, beq_self row_id)) in
      Returns-bind
        (settle-Returns settling now row_id
          (attempt replace_children transform refusal tables options postgres now row_id db) db
          result
          (attempt-IsStored replace_children transform refusal tables options postgres now row_id
            db)
          (attempt-IsAccepted named now row_id db) has_document is_known)
        (λ (after, counted) same.
          save_rows-Returns named settling now ids after counted (λ id member.
            let (document, row) = there id (ground (arith, member)) in (document, same id ∙ row)))

module _ {Body Children : Type 0} (replace_children : Option Children → Children → Children)
    (transform : ℕ → Transform Body Children) (refusal : Text) (tables : Tables) (options : Options)
    (postgres : Postgres Body Children) where
  -- A batch returns, where every row of the queue has its document, every threat that the transform
  -- finds has a signature and a path that are not blank, and PostgreSQL takes the transactions of the
  -- claim and of the except handlers: whatever the transform raises, and however the transaction that
  -- saves a row ends, no exception ends the batch.
  pub process_bronze_batch-returns :
      (now : ℕ) (locked : List ℕ) (db : Etl Body Children)
      → AllNamed transform
      → Settling postgres
      → ((id : ℕ) → known id db.queue ≡ true → contains id tables.documents ≡ true)
      → (r : Etl Body Children × BatchResult) × (process_bronze_batch replace_children transform
            refusal tables options postgres now locked db
          ≡ some r)
  unfolding process_bronze_batch
  process_bronze_batch-returns now locked db named settling has_document =
      let (rows, queue) = claim options.limit now locked db.queue in
      let claimed_db : Etl Body Children = record db { queue = queue } in
      the_result (
        if_ind (Returns (λ (r : Etl Body Children × BatchResult). ⊤)) (postgres.claims claimed_db)
          (λ _.
            save_rows-Returns replace_children transform refusal tables options postgres named
              settling now (map (λ (row : QueueRow). row.id) rows) claimed_db
              (new_result replace_children transform refusal tables options postgres (length rows))
              (λ id member.
                let row = claim-known options.limit now locked db.queue id member in
                (
                  has_document id (sym (claim-SameIds options.limit now locked db.queue id) ∙ row),
                  row,
                )))
          (λ refused. absurd (ground (arith, settling.claiming claimed_db, refused))))
