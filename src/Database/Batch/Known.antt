-- ===== src/Database/Batch/Known.antt =====
-- The rows of the queue stay, whatever a batch does; the steps of a batch that give a result.
use pgs_search_engine.Base.{
  ℕ, ◌≡◌, refl, sym, ◌∙◌, Bool, true, false, ◌&&◌, Option, none, some, List, [], ◌∷◌, ◌++◌, arith,
  ⊤, if_ind, ◌==◌, nat_eq, keep, any, elem, update_if, any_mono,
}
use pgs_search_engine.Base.Text.{Text, text_eq, codes, is_blank}
use pgs_search_engine.Base.Dict.{Dict, lookup, contains}
use pgs_search_engine.Database.Queue.{
  QueueRow, claim, candidates, claim_row, ids_of, mark_processed, mark_failed, quarantine_row,
  processed, failed, quarantined,
}
use pgs_search_engine.Database.Queue.Claims.{elem-sort_by, elem-keep_row}
use pgs_search_engine.Database.Batch.{Document}
use pgs_search_engine.Base.Partial.{◌>>=◌}
use pgs_search_engine.Database.Pages.{blank_to_none}

-- There is a result, and this holds of it.
pub data Returns {A : Type 0} (P : A → Type 0) : Option A → Type 0 where
  returns : {a : A} → P a → Returns P (some a)

pub Returns-bind :
    {A B : Type 0} {Q : A → Type 0} {P : B → Type 0} {f : A → Option B} {o : Option A}
    → Returns Q o
    → ((a : A) → Q a → Returns P (f a))
    → Returns P (o >>= f)
Returns-bind (returns {a} q) h = h a q

pub the_result : {A : Type 0} {P : A → Type 0} {o : Option A} → Returns P o → (a : A) × (o ≡ some a)
the_result (returns {a} p) = (a, refl)

-- The queue has a row with this id.
abbrev pub known : ℕ → List QueueRow → Bool
known id rows = any (λ (row : QueueRow). row.id == id) rows

abbrev pub SameIds : List QueueRow → List QueueRow → Type 0
SameIds rows after = (id : ℕ) → known id after ≡ known id rows

update_if-SameIds :
    (p : QueueRow → Bool) (f : QueueRow → QueueRow)
    → ((r : QueueRow) → (f r).id ≡ r.id)
    → (rows : List QueueRow) → SameIds rows (update_if p f rows)
update_if-SameIds p f same [] id = refl
update_if-SameIds p f same (r ∷ rows) id =
    ground (arith, same r, update_if-SameIds p f same rows id)

pub mark_processed-SameIds :
    (ids : List ℕ) (rows : List QueueRow) → SameIds rows (mark_processed ids rows).1
unfolding mark_processed
mark_processed-SameIds ids rows =
    update_if-SameIds (λ (row : QueueRow). elem row.id ids)
      (λ (row : QueueRow). record row { processing_status = processed; processing_error = none })
      (λ r. refl) rows

pub quarantine_row-SameIds :
    (row_id : ℕ) (signature : Text) (rows : List QueueRow)
    → SameIds rows (quarantine_row row_id signature rows)
unfolding quarantine_row
quarantine_row-SameIds row_id signature rows =
    update_if-SameIds (λ (row : QueueRow). row.id == row_id)
      (λ (row : QueueRow). record row {
        processing_status = quarantined;
        processing_error = some (codes "quarantined: " ++ signature);
      })
      (λ r. refl) rows

pub mark_failed-Returns :
    (row_id : ℕ) (message : Text) (rows : List QueueRow)
    → known row_id rows ≡ true
    → Returns (SameIds rows) (mark_failed row_id message rows)
unfolding mark_failed
mark_failed-Returns row_id message rows h =
    if_ind (λ (o : Option (List QueueRow)). Returns (SameIds rows) o)
      (any (λ (row : QueueRow). row.id == row_id) rows)
      (λ there. returns (
        update_if-SameIds (λ (row : QueueRow). row.id == row_id)
          (λ (row : QueueRow). record row {
            processing_status = failed;
            processing_error = some message;
          })
          (λ r. refl) rows))
      (λ gone. absurd (ground (arith, h, gone)))

pub blank_to_none-Returns :
    (t : Text) → is_blank t ≡ false → Returns (λ (s : Text). ⊤) (blank_to_none (some t))
unfolding blank_to_none
blank_to_none-Returns t h =
    if_ind (λ (o : Option Text). Returns (λ (s : Text). ⊤) o) (is_blank t)
      (λ blank. absurd (ground (arith, h, blank))) (λ _. returns tt)

pub lookup-Returns :
    (id : ℕ) (documents : Dict ℕ Document)
    → contains id documents ≡ true
    → Returns (λ (d : Document). ⊤) (lookup id documents)
lookup-Returns id documents h = found (lookup id documents) h
  where
    found :
        (o : Option Document)
        → (elim o [ none ↦ false | some _ ↦ true ]) ≡ true
        → Returns (λ (d : Document). ⊤) o
    found none e = absurd (ground (arith, e))
    found (some d) e = returns tt

-- A claim keeps the ids of the queue, and takes rows of it.
pub claim-SameIds :
    (limit now : ℕ) (locked : List ℕ) (rows : List QueueRow)
    → SameIds rows (claim limit now locked rows).1
unfolding claim
claim-SameIds limit now locked rows =
    update_if-SameIds (λ (row : QueueRow). elem row.id (ids_of (candidates limit locked rows)))
      (claim_row now) (λ r. refl) rows

pub claim-known :
    (limit now : ℕ) (locked : List ℕ) (rows : List QueueRow) (id : ℕ)
    → elem id (ids_of (claim limit now locked rows).0) ≡ true
    → known id (claim limit now locked rows).1 ≡ true
unfolding claim
claim-known limit now locked rows id h =
    let taken : QueueRow → Bool = λ row. elem row.id (ids_of (candidates limit locked rows)) in
    let after = update_if taken (claim_row now) rows in
    any_mono (λ (row : QueueRow). (row.id == id) && taken row) (λ (row : QueueRow). row.id == id)
      (λ r e. ground (arith, e)) after
      (sym (elem-keep_row taken id after) ∙ sym (elem-sort_by id (keep taken after)) ∙ h)
