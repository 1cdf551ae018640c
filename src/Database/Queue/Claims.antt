-- ===== src/Database/Queue/Claims.antt =====
-- database/src/pgs_db/repositories/silver.py: the claims of the workers, and the terminal statuses.
use pgs_search_engine.Base.{
  ℕ, zero, suc, ◌≡◌, refl, sym, ◌∙◌, inl, inr, Bool, true, false, not, ◌&&◌, Option, none, some,
  List, [], ◌∷◌, arith, if_ind, Bool-cases, ◌==◌, nat_eq, take, keep, any, elem, update_if,
  any_mono,
}
use pgs_search_engine.Base.Text.{Text, text_eq}
use pgs_search_engine.Base.Sort.{place, sort_by}
use pgs_search_engine.Base.Distinct.{has_key, once, once-update_if}
use pgs_search_engine.Database.Queue.{
  claim_row, failed, QueueRow, is_unprocessed, is_processing, served_before, ids_of, candidates,
  claim, mark_processed, mark_failed, release_stale, quarantine_row,
}

elem-take :
    (id n : ℕ) (xs : List QueueRow)
    → elem id (ids_of (take n xs)) ≡ true
    → elem id (ids_of xs) ≡ true
elem-take id zero xs h = absurd (ground arith)
elem-take id (suc n) [] h = h
elem-take id (suc n) (x ∷ xs) h = ground (arith, elem-take id n xs)

elem-place :
    (id : ℕ) (x : QueueRow) (ys : List QueueRow)
    → elem id (ids_of (place served_before x ys)) ≡ elem id (ids_of (x ∷ ys))
elem-place id x [] = refl
elem-place id x (y ∷ ys) = ground (arith, elem-place id x ys)

pub elem-sort_by :
    (id : ℕ) (xs : List QueueRow)
    → elem id (ids_of (sort_by served_before xs)) ≡ elem id (ids_of xs)
elem-sort_by id [] = refl
elem-sort_by id (x ∷ xs) =
    ground (arith, elem-place id x (sort_by served_before xs), elem-sort_by id xs)

-- Some row with this id passes the test.
abbrev pub has_row : (QueueRow → Bool) → ℕ → List QueueRow → Bool
has_row p id rows = any (λ (row : QueueRow). (row.id == id) && p row) rows

pub elem-keep_row :
    (p : QueueRow → Bool) (id : ℕ) (rows : List QueueRow)
    → elem id (ids_of (keep p rows)) ≡ has_row p id rows
elem-keep_row p id [] = refl
elem-keep_row p id (r ∷ rows) = ground (arith, elem-keep_row p id rows)

-- What a claim takes was unprocessed and not locked.
candidates-free :
    (limit : ℕ) (locked : List ℕ) (rows : List QueueRow) (id : ℕ)
    → elem id (ids_of (candidates limit locked rows)) ≡ true
    → has_row (λ row. is_unprocessed row && not (elem row.id locked)) id rows ≡ true
unfolding candidates
candidates-free limit locked rows id h =
    let free : QueueRow → Bool = λ row. is_unprocessed row && not (elem row.id locked) in
    let waiting = keep free rows in
    sym (elem-keep_row free id rows)
    ∙ sym (elem-sort_by id waiting)
    ∙ elem-take id limit (sort_by served_before waiting) h

-- Rows that are done: a worker has nothing to do with them any more.
abbrev pub is_done : QueueRow → Bool
is_done row = not (is_unprocessed row) && not (is_processing row)

module _ (p : QueueRow → Bool) (f : QueueRow → QueueRow) where
  -- A write that keeps the ids, and does not undo what is done.
  has_row-update_if :
      (test : QueueRow → Bool) (id : ℕ)
      → ((r : QueueRow) → (f r).id ≡ r.id)
      → ((r : QueueRow) → r.id ≡ id → test r ≡ true → p r ≡ true → test (f r) ≡ true)
      → (rows : List QueueRow) → has_row test id rows ≡ true
      → has_row test id (update_if p f rows) ≡ true
  has_row-update_if test id same stays [] h = h
  has_row-update_if test id same stays (r ∷ rows) h =
      ground (arith, same r, stays r, has_row-update_if test id same stays rows)

-- The writes of the queue, with the time of each and the rows that others have locked.
pub data QueueCall : Type 0 where
  claim_call : ℕ → ℕ → List ℕ → QueueCall
  processed_call : List ℕ → QueueCall
  failed_call : ℕ → Text → QueueCall
  release_call : ℕ → ℕ → QueueCall
  quarantine_call : ℕ → Text → QueueCall

abbrev pub or_same_rows : List QueueRow → Option (List QueueRow) → List QueueRow
or_same_rows rows none = rows
or_same_rows rows (some after) = after

unfoldable pub run_call : QueueCall → List QueueRow → List QueueRow
run_call (claim_call limit now locked) rows = (claim limit now locked rows).1
run_call (processed_call ids) rows = (mark_processed ids rows).1
run_call (failed_call id error) rows = or_same_rows rows (mark_failed id error rows)
run_call (release_call older_than now) rows = (release_stale older_than now rows).1
run_call (quarantine_call id threat) rows = quarantine_row id threat rows

unfoldable pub run_calls : List QueueCall → List QueueRow → List QueueRow
unfolding run_call
run_calls [] rows = rows
run_calls (call ∷ calls) rows = run_calls calls (run_call call rows)

-- A row is one of two kinds, not both.
one_kind :
    (p : QueueRow → Bool) (id : ℕ) (rows : List QueueRow)
    → once (λ (row : QueueRow). row.id) rows ≡ true
    → has_row p id rows ≡ true
    → has_row (λ row. not (p row)) id rows ≡ false
one_kind p id [] h k = refl
one_kind p id (r ∷ rows) h k = elim (Bool-cases (r.id == id)) [
  | inr other ↦ ground (arith, one_kind p id rows)
  | inl same ↦
      let alone : has_key (λ (row : QueueRow). row.id) id rows ≡ false = ground arith in
      ground (arith, no_row p id rows alone, no_row (λ row. not (p row)) id rows alone)
]
  where
    no_row :
        (q : QueueRow → Bool) (n : ℕ) (xs : List QueueRow)
        → has_key (λ (row : QueueRow). row.id) n xs ≡ false
        → has_row q n xs ≡ false
    no_row q n [] e = refl
    no_row q n (x ∷ xs) e = ground (arith, no_row q n xs)

-- No claim takes a row that is not waiting.
not_claimed :
    (busy : QueueRow → Bool) (limit : ℕ) (locked : List ℕ) (rows : List QueueRow) (id : ℕ)
    → ((r : QueueRow) → busy r ≡ true → is_unprocessed r ≡ false)
    → once (λ (row : QueueRow). row.id) rows ≡ true
    → has_row busy id rows ≡ true
    → elem id (ids_of (candidates limit locked rows)) ≡ false
not_claimed busy limit locked rows id apart single h =
    elim (Bool-cases (elem id (ids_of (candidates limit locked rows)))) [
      | inr none_such ↦ none_such
      | inl taken_again ↦
          let free = candidates-free limit locked rows id taken_again in
          let idle : has_row (λ row. not (busy row)) id rows ≡ true =
            any_mono
              (λ (row : QueueRow).
                (row.id == id) && (is_unprocessed row && not (elem row.id locked)))
              (λ (row : QueueRow). (row.id == id) && not (busy row))
              (λ r e. ground (arith, apart r)) rows free in
          absurd (ground (arith, one_kind busy id rows single h))
    ]

has_row-id :
    (q : ℕ → Bool) (id : ℕ) (rows : List QueueRow)
    → has_row (λ row. q row.id) id rows ≡ true
    → q id ≡ true
has_row-id q id [] h = absurd (ground arith)
has_row-id q id (r ∷ rows) h = elim (Bool-cases (r.id == id)) [
  | inl same ↦ ground (arith, has_row-id q id rows)
  | inr other ↦ ground (arith, has_row-id q id rows)
]

-- Every row that a claim returns is one of its candidates, and is processing.
claimed_candidates :
    (limit now : ℕ) (locked : List ℕ) (rows : List QueueRow) (id : ℕ)
    → elem id (ids_of (claim limit now locked rows).0) ≡ true
    → (elem id (ids_of (candidates limit locked rows)) ≡ true)
      × (has_row is_processing id (claim limit now locked rows).1 ≡ true)
unfolding claim
claimed_candidates limit now locked rows id h =
    let ids = ids_of (candidates limit locked rows) in
    let taken : QueueRow → Bool = λ row. elem row.id ids in
    let after = update_if taken (claim_row now) rows in
    let there : has_row taken id after ≡ true =
      sym (elem-keep_row taken id after) ∙ sym (elem-sort_by id (keep taken after)) ∙ h in
    let chosen : elem id ids ≡ true = has_row-id (λ n. elem n ids) id after there in
    (chosen, processing_now rows there)
  where
    processing_now :
        (xs : List QueueRow)
        → has_row
            (λ row. elem row.id (ids_of (candidates limit locked rows)))
            id
            (update_if
              (λ row. elem row.id (ids_of (candidates limit locked rows)))
              (claim_row now)
              xs)
          ≡ true
        → has_row is_processing id (
            update_if
              (λ row. elem row.id (ids_of (candidates limit locked rows)))
              (claim_row now)
              xs)
          ≡ true
    processing_now [] e = e
    processing_now (x ∷ xs) e = ground (arith, processing_now xs)

-- Two workers that claim one after the other share no row. The ids of the table stand once.
pub claims_disjoint :
    (limit now limit_next later : ℕ) (locked locked_next : List ℕ) (rows : List QueueRow) (id : ℕ)
    → once (λ (row : QueueRow). row.id) rows ≡ true
    → elem id (ids_of (claim limit now locked rows).0) ≡ true
    → elem id (ids_of (claim limit_next later locked_next (claim limit now locked rows).1).0)
      ≡ false
unfolding claim
claims_disjoint limit now limit_next later locked locked_next rows id single h =
    let after = (claim limit now locked rows).1 in
    let (chosen, busy) = claimed_candidates limit now locked rows id h in
    let ids = ids_of (candidates limit locked rows) in
    let apart : once (λ (row : QueueRow). row.id) after ≡ true =
      once-update_if (λ (row : QueueRow). row.id) (λ (row : QueueRow). elem row.id ids)
        (claim_row now) (λ r. refl) rows
      ∙ single in
    let free =
      not_claimed is_processing limit_next locked_next after id (λ r e. ground arith) apart busy in
    elim (Bool-cases (elem id (ids_of (claim limit_next later locked_next after).0))) [
      | inr none_such ↦ none_such
      | inl taken_again ↦ absurd (
          ground
            (arith, (claimed_candidates limit_next later locked_next after id taken_again).0, free))
    ]

once-run_call :
    (call : QueueCall) (rows : List QueueRow)
    → once (λ (row : QueueRow). row.id) rows ≡ true
    → once (λ (row : QueueRow). row.id) (run_call call rows) ≡ true
unfolding run_call claim mark_processed mark_failed release_stale quarantine_row
once-run_call (claim_call limit now locked) rows h =
    once-update_if (λ (row : QueueRow). row.id) _ _ (λ r. refl) rows ∙ h
once-run_call (processed_call ids) rows h =
    once-update_if (λ (row : QueueRow). row.id) _ _ (λ r. refl) rows ∙ h
once-run_call (failed_call id error) rows h =
    elim (Bool-cases (any (λ (row : QueueRow). row.id == id) rows)) [
      | inl found ↦ ground (
        arith,
        once-update_if (λ (row : QueueRow). row.id) (λ (row : QueueRow). row.id == id)
            (λ row. record row { processing_status = failed; processing_error = some error })
            (λ r. refl) rows,
      )
      | inr none_found ↦ ground arith
    ]
once-run_call (release_call older_than now) rows h =
    once-update_if (λ (row : QueueRow). row.id) _ _ (λ r. refl) rows ∙ h
once-run_call (quarantine_call id threat) rows h =
    once-update_if (λ (row : QueueRow). row.id) _ _ (λ r. refl) rows ∙ h

done-run_call :
    (call : QueueCall) (rows : List QueueRow) (id : ℕ)
    → once (λ (row : QueueRow). row.id) rows ≡ true
    → has_row is_done id rows ≡ true
    → has_row is_done id (run_call call rows) ≡ true
unfolding run_call claim mark_processed mark_failed release_stale quarantine_row
done-run_call (claim_call limit now locked) rows id single h =
    let free = not_claimed is_done limit locked rows id (λ r e. ground arith) single h in
    has_row-update_if _ _ is_done id (λ r. refl) (λ r same d taken. absurd (ground (arith, free)))
      rows h
done-run_call (processed_call ids) rows id single h =
    has_row-update_if _ _ is_done id (λ r. refl) (λ r same d taken. refl) rows h
done-run_call (failed_call n error) rows id single h =
    if_ind (λ r. has_row is_done id (or_same_rows rows r) ≡ true)
      (any (λ (row : QueueRow). row.id == n) rows)
      (λ _. has_row-update_if _ _ is_done id (λ r. refl) (λ r same d taken. refl) rows h) λ _. h
done-run_call (release_call older_than now) rows id single h =
    has_row-update_if _ _ is_done id (λ r. refl) (λ r same d taken. absurd (ground arith)) rows h
done-run_call (quarantine_call n threat) rows id single h =
    has_row-update_if _ _ is_done id (λ r. refl) (λ r same d taken. refl) rows h

-- A row that was processed, has failed or is quarantined stays one of the three under every sequence of
-- the queue's writes, and no claim after them returns it. The ids of the table stand once.
pub done_stays :
    (calls : List QueueCall) (rows : List QueueRow) (id limit now : ℕ) (locked : List ℕ)
    → once (λ (row : QueueRow). row.id) rows ≡ true
    → has_row is_done id rows ≡ true
    → (has_row is_done id (run_calls calls rows) ≡ true)
      × (elem id (ids_of (claim limit now locked (run_calls calls rows)).0) ≡ false)
unfolding run_calls
done_stays [] rows id limit now locked single h =
    let free = not_claimed is_done limit locked rows id (λ r e. ground arith) single h in
    (
      h,
      elim (Bool-cases (elem id (ids_of (claim limit now locked rows).0))) [
        | inr none_such ↦ none_such
        | inl taken_again ↦
            absurd
              (ground (arith, (claimed_candidates limit now locked rows id taken_again).0, free))
      ],
    )
done_stays (call ∷ calls) rows id limit now locked single h =
    done_stays calls (run_call call rows) id limit now locked (once-run_call call rows single)
      (done-run_call call rows id single h)
