-- ===== src/Api/Throttle/Tests.antt =====
-- The throttle at concrete inputs.
use pgs_search_engine.Base.{ℕ, ◌≤◌, ◌<◌, ◌≡◌, refl, ◌≢◌, ◌↔◌, List, [], ◌∷◌, arith, nat_eq, All}
use pgs_search_engine.Api.Throttle.Lock.{
  Failed, record_all, ip_count, account_count, retry_after-eq_zero, retry_after-le_window,
  locked_after_failures,
}
use pgs_search_engine.Base.Text.{Text, text_eq, codes}
use pgs_search_engine.Api.Throttle.{LoginFailure, LoginThrottle, retry_after, record_failure}

abbrev same : Text → Text
same s = s

abbrev strict : LoginThrottle
strict = record { max_failures = 2; account_max_failures = 3; window = 900000000 }

abbrev old_rows : List LoginFailure
old_rows = record_failure same (codes "7") (codes "10.0.0.1") 5000000 []

-- Two failures five and four seconds ago: the older one leaves the window in 895 seconds.
retry_after_two_failures :
    retry_after same strict
      (codes "7")
      (codes "10.0.0.1")
      10000000
      (record_failure same (codes "7") (codes "10.0.0.1") 6000000 old_rows)
    ≡ 896
unfolding retry_after record_failure
retry_after_two_failures = refl

retry_after-eq_zero_example :
    (retry_after same strict (codes "7") (codes "10.0.0.1") 10000000 old_rows ≡ 0) ↔ (
      (ip_count same strict (codes "7") (codes "10.0.0.1") 10000000 old_rows < 2)
      × (account_count same strict (codes "7") (codes "10.0.0.1") 10000000 old_rows < 3))
retry_after-eq_zero_example =
    retry_after-eq_zero same strict (codes "7") (codes "10.0.0.1") 10000000 old_rows (omega arith)
      (omega arith)

old_rows_past : All (λ (row : LoginFailure). row.failed_at ≤ 10000000) old_rows
unfolding record_failure
old_rows_past = omega arith

retry_after-le_window_example :
    retry_after same strict (codes "7") (codes "10.0.0.1") 10000000 old_rows ≤ 901
retry_after-le_window_example =
    retry_after-le_window same strict (codes "7") (codes "10.0.0.1") 10000000 old_rows old_rows_past

abbrev failed : Text → ℕ → Failed
failed ip at = record { identity = codes "7"; ip = ip; at = at }

-- Two failures at different times, with one from another address between them.
abbrev three_failures : List Failed
three_failures =
    failed (codes "10.0.0.1") 6000000
    ∷ failed (codes "10.0.0.2") 6500000
    ∷ failed (codes "10.0.0.1") 7000000
    ∷ []

locked_after_failures_example :
    retry_after same strict
      (codes "7")
      (codes "10.0.0.1")
      900000000
      (record_all same three_failures old_rows)
    ≢ 0
locked_after_failures_example =
    locked_after_failures same strict (codes "7") (codes "10.0.0.1") 900000000 three_failures
      old_rows (omega arith) (omega arith) (omega arith)
