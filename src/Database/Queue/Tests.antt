-- ===== src/Database/Queue/Tests.antt =====
-- A queue of four rows, one of them done.
use pgs_search_engine.Base.{ℕ, ◌≡◌, refl, ap, true, false, none, List, [], ◌∷◌, nat_eq, elem}
use pgs_search_engine.Base.Text.{text_eq, codes}
use pgs_search_engine.Database.Queue.{
  ProcessingStatus, unprocessed, quarantined, QueueRow, ids_of, claim,
}
use pgs_search_engine.Database.Queue.Claims.{
  QueueCall, claim_call, processed_call, failed_call, release_call, quarantine_call, run_calls,
  has_row, is_done, claims_disjoint, done_stays,
}

abbrev row_with : ℕ → ℕ → ProcessingStatus → QueueRow
row_with id order_at status = record {
  id = id;
  order_at = order_at;
  processing_status = status;
  processing_error = none;
  updated_at = 0;
}

abbrev four_rows : List QueueRow
four_rows =
    row_with 1 40 unprocessed
    ∷ row_with 2 10 unprocessed
    ∷ row_with 3 20 quarantined
    ∷ row_with 4 30 unprocessed
    ∷ []

-- The oldest two that wait, oldest first.
first_claim : ids_of (claim 2 100 [] four_rows).0 ≡ 2 ∷ 4 ∷ []
unfolding claim
first_claim = refl

claims_disjoint_example : elem 4 (ids_of (claim 2 200 [] (claim 2 100 [] four_rows).1).0) ≡ false
claims_disjoint_example =
    claims_disjoint 2 100 2 200 [] [] four_rows 4 refl (ap (λ ids. elem 4 ids) first_claim)

abbrev day : List QueueCall
day =
    claim_call 2 100 []
    ∷ processed_call (2 ∷ [])
    ∷ failed_call 4 (codes "bad PDF")
    ∷ release_call 50 500
    ∷ quarantine_call 1 (codes "Eicar")
    ∷ []

done_stays_example :
    (has_row is_done 3 (run_calls day four_rows) ≡ true)
    × (elem 3 (ids_of (claim 9 900 [] (run_calls day four_rows)).0) ≡ false)
done_stays_example = done_stays day four_rows 3 9 900 [] refl refl
