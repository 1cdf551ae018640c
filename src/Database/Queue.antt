-- ===== src/Database/Queue.antt =====
-- The queues of database/src/pgs_db/repositories/silver.py: rows of Bronze that wait for the ETL, with
-- the claims of its workers. A table is a list of rows in order of id; what the queue does not read
-- of a row is left out. Rows that another open transaction has locked are an argument. Times are
-- microseconds.
pub mod Claims
mod Tests
use pgs_search_engine.Base.{
  ℕ, zero, suc, ◌+◌, ◌-◌, ◌*◌, ◌/◌, ◌%◌, ◌^◌, ◌≤◌, ◌<◌, min, max, ◌≡◌, refl, sym, ap, subst, ◌∙◌,
  ◌≢◌, ◌↔◌, ◌⊎◌, inl, inr, Bool, true, false, not, ◌&&◌, ◌||◌, Option, none, some, List, [], ◌∷◌,
  ◌++◌, map, arith, String, ⊤, ltb, leb, nat_beq, if◌then◌else◌, if_ind, ltb→lt, lt→ltb, leb→le,
  le→leb, nat_beq_iff, Bool-cases, Option-cases, PyEq, ◌==◌, nat_eq, beq_self, beq-ne, beq→eq,
  length, take, drop, keep, any, all, All, length-append, take-append-drop, length-take,
  length-drop, length-keep, length-map, elem, distinct, elem-append, elem-keep, find, update_if,
  count_if, find-some, All-keep, All-map, All-append, All-update_if, any_mono, length-update_if,
  length-keep-count,
}
use pgs_search_engine.Base.Text.{
  Text, text_eq, codes, is_empty, between, is_space, strip, strip_left, strip_right, put_back,
  is_blank, starts_with, ends_with, drop_end, words, join,
}
use pgs_search_engine.Base.Sort.{
  IsOrder, place, sort_by, IsSorted, sort_by-perm, length-sort_by, sort_by-stable, sort_by-IsSorted,
}

pub data ProcessingStatus : Type 0 where
  unprocessed processing processed failed quarantined : ProcessingStatus

-- `order_at` is the column that the queue is served by: `fetched_at`, `stored_at` or `crawled_at`.
pub record QueueRow : Type 0 where
  pub id : ℕ
  pub order_at : ℕ
  pub processing_status : ProcessingStatus
  pub processing_error : Option Text
  pub updated_at : ℕ

abbrev pub is_unprocessed : QueueRow → Bool
is_unprocessed row = elim row.processing_status [
  | unprocessed ↦ true
  | processing ↦ false
  | processed ↦ false
  | failed ↦ false
  | quarantined ↦ false
]

abbrev pub is_processing : QueueRow → Bool
is_processing row = elim row.processing_status [
  | unprocessed ↦ false
  | processing ↦ true
  | processed ↦ false
  | failed ↦ false
  | quarantined ↦ false
]

-- `ORDER BY order, id`
abbrev pub served_before : QueueRow → QueueRow → Bool
served_before x y = ltb x.order_at y.order_at || ((x.order_at == y.order_at) && ltb x.id y.id)

abbrev pub ids_of : List QueueRow → List ℕ
ids_of rows = map (λ (row : QueueRow). row.id) rows

abbrev pub claim_row : ℕ → QueueRow → QueueRow
claim_row now row = record row {
  processing_status = processing;
  processing_error = none;
  updated_at = now;
}

-- The rows that the claim's query finds.
unfoldable pub candidates : ℕ → List ℕ → List QueueRow → List QueueRow
candidates limit locked rows =
    take limit
      (sort_by served_before (keep (λ row. is_unprocessed row && not (elem row.id locked)) rows))

-- The claimed rows in the order of the queue, and the table.
unfoldable pub claim : ℕ → ℕ → List ℕ → List QueueRow → List QueueRow × List QueueRow
unfolding candidates
claim limit now locked rows =
    let ids = ids_of (candidates limit locked rows) in
    let after = update_if (λ (row : QueueRow). elem row.id ids) (claim_row now) rows in
    (sort_by served_before (keep (λ (row : QueueRow). elem row.id ids) after), after)

unfoldable pub mark_processed : List ℕ → List QueueRow → ℕ × List QueueRow
mark_processed ids rows = (
  count_if (λ (row : QueueRow). elem row.id ids) rows,
  update_if (λ (row : QueueRow). elem row.id ids)
      (λ row. record row { processing_status = processed; processing_error = none }) rows,
)

-- `none` is the `LookupError`.
unfoldable pub mark_failed : ℕ → Text → List QueueRow → Option (List QueueRow)
mark_failed row_id error rows =
    if any (λ (row : QueueRow). row.id == row_id) rows
    then some (
        update_if (λ (row : QueueRow). row.id == row_id)
          (λ row. record row { processing_status = failed; processing_error = some error }) rows)
    else none

unfoldable pub release_stale : ℕ → ℕ → List QueueRow → ℕ × List QueueRow
release_stale older_than now rows =
    let is_stale : QueueRow → Bool =
      λ row. is_processing row && ltb (row.updated_at + older_than) now in
    (
      count_if is_stale rows,
      update_if is_stale (λ row. record row { processing_status = unprocessed }) rows,
    )

-- The write of `quarantine` to the row of the payload.
unfoldable pub quarantine_row : ℕ → Text → List QueueRow → List QueueRow
quarantine_row row_id threat_signature rows =
    update_if (λ (row : QueueRow). row.id == row_id)
      (λ row. record row {
        processing_status = quarantined;
        processing_error = some (codes "quarantined: " ++ threat_signature);
      })
      rows
