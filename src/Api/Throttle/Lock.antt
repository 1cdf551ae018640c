-- ===== src/Api/Throttle/Lock.antt =====
-- When the throttle refuses a login, and for how long.
use pgs_search_engine.Base.{
  ℕ, ◌+◌, ◌-◌, ◌/◌, ◌≤◌, ◌<◌, ◌≡◌, sym, ap, subst, ◌≢◌, ◌↔◌, inl, inr, Bool, ◌&&◌, List, [], ◌∷◌,
  ◌++◌, arith, leb, if◌then◌else◌, le→leb, Bool-cases, Option-cases, ◌==◌, nat_eq, beq_self, beq-ne,
  beq→eq, All, count_if,
}
use pgs_search_engine.Base.Text.{Text, text_eq}
use pgs_search_engine.Api.Throttle.{
  LoginFailure, matches, count_login_failures, LoginThrottle, second, ip_key, account_key,
  longer_wait, retry_after, record_failure, record_success, add_login_failures,
}
use pgs_search_engine.Api.Throttle.Counts.{
  keep-not_matching, cleared_count, count-append, oldest_of_count, oldest_not_after,
  ip_key-ne-account_key,
}

module _ (casefold : Text → Text) (t : LoginThrottle) (identity ip : Text) where
  abbrev pub ip_count : ℕ → List LoginFailure → ℕ
  ip_count now rows = (count_login_failures (ip_key casefold identity ip) (now - t.window) rows).0

  abbrev pub account_count : ℕ → List LoginFailure → ℕ
  account_count now rows =
      (count_login_failures (account_key casefold identity) (now - t.window) rows).0

-- One limit's share of the wait is nothing exactly while the count is below the limit.
longer_wait-zero :
    (t : LoginThrottle) (now limit wait : ℕ) (key : Text) (rows : List LoginFailure)
    → 1 ≤ limit
    → let counted = count_login_failures key (now - t.window) rows in
      (longer_wait t now limit counted wait ≡ 0) ↔ ((wait ≡ 0) × (counted.0 < limit))
unfolding longer_wait
longer_wait-zero t now limit wait key rows h =
    elim (Option-cases (count_login_failures key (now - t.window) rows).1) [
      | inl nothing ↦ ground (arith, oldest_of_count key (now - t.window) rows)
      | inr (o, found) ↦ ground arith
    ]

-- With limits of at least one, a login may be tried exactly when both counts are below theirs.
pub retry_after-eq_zero :
    (casefold : Text → Text) (t : LoginThrottle) (identity ip : Text) (now : ℕ)
    (rows : List LoginFailure)
    → 1 ≤ t.max_failures
    → 1 ≤ t.account_max_failures
    → (retry_after casefold t identity ip now rows ≡ 0) ↔ (
        (ip_count casefold t identity ip now rows < t.max_failures)
        × (account_count casefold t identity ip now rows < t.account_max_failures))
unfolding retry_after
retry_after-eq_zero casefold t identity ip now rows h k =
    let since = now - t.window in
    let of_ip = count_login_failures (ip_key casefold identity ip) since rows in
    let first = longer_wait-zero t now t.max_failures 0 (ip_key casefold identity ip) rows h in
    let both =
      longer_wait-zero t now t.account_max_failures (longer_wait t now t.max_failures of_ip 0)
        (account_key casefold identity) rows k in
    ground (arith, first, both)

-- The wait that one limit asks for.
longer_wait-le :
    (t : LoginThrottle) (now limit wait bound : ℕ) (key : Text) (rows : List LoginFailure)
    → All (λ row. row.failed_at ≤ now) rows
    → t.window / second + 1 ≤ bound
    → wait ≤ bound
    → longer_wait t now limit (count_login_failures key (now - t.window) rows) wait ≤ bound
unfolding longer_wait
longer_wait-le t now limit wait bound key rows past h k =
    elim (Option-cases (count_login_failures key (now - t.window) rows).1) [
      | inl nothing ↦ ground arith
      | inr (o, found) ↦
          let late = oldest_not_after key (now - t.window) now rows o past found in ground arith
    ]

-- With no failure recorded in the future, nobody is told to wait for more seconds than the window has
-- whole ones, plus one.
pub retry_after-le_window :
    (casefold : Text → Text) (t : LoginThrottle) (identity ip : Text) (now : ℕ)
    (rows : List LoginFailure)
    → All (λ row. row.failed_at ≤ now) rows
    → retry_after casefold t identity ip now rows ≤ t.window / second + 1
unfolding retry_after
retry_after-le_window casefold t identity ip now rows past =
    let since = now - t.window in
    let bound = t.window / second + 1 in
    let of_ip = count_login_failures (ip_key casefold identity ip) since rows in
    let first =
      longer_wait-le t now t.max_failures 0 bound (ip_key casefold identity ip) rows past
        (omega arith) (omega arith) in
    let both =
      longer_wait-le t now t.account_max_failures (longer_wait t now t.max_failures of_ip 0) bound
        (account_key casefold identity) rows past (omega arith) first in
    ground (arith, both)

-- Of the two rows that a failure adds, each key counts its own.
two_rows_count :
    (key : Text) (since : ℕ) (rows : List LoginFailure) (one two : LoginFailure)
    → (count_login_failures key since ((rows ++ one ∷ []) ++ two ∷ [])).0
      ≡ (count_login_failures key since rows).0
        + (if matches key since one then 1 else 0)
        + (if matches key since two then 1 else 0)
two_rows_count key since rows one two =
    omega (arith, count-append key since (rows ++ one ∷ []) two, count-append key since rows one)

-- A failure recorded at `at` counts once for the address and once for the account, for as long as
-- it lies in the window.
pub record_failure_counts :
    (casefold : Text → Text) (t : LoginThrottle) (identity ip : Text) (at now : ℕ)
    (rows : List LoginFailure)
    → now ≤ at + t.window
    → let after = record_failure casefold identity ip at rows in
      (ip_count casefold t identity ip now after ≡ ip_count casefold t identity ip now rows + 1)
      × (account_count casefold t identity ip now after
          ≡ account_count casefold t identity ip now rows + 1)
unfolding record_failure add_login_failures
record_failure_counts casefold t identity ip at now rows h =
    let a = ip_key casefold identity ip in
    let b = account_key casefold identity in
    let since = now - t.window in
    let ra : LoginFailure = record { key = a; failed_at = at } in
    let rb : LoginFailure = record { key = b; failed_at = at } in
    let apart = ip_key-ne-account_key casefold identity ip identity in
    let recent = le→leb since at (omega arith) in
    (
      ground (
        arith,
        two_rows_count a since rows ra rb,
        beq_self a,
        beq-ne b a (λ e. apart (sym e)),
        recent,
      ),
      ground (arith, two_rows_count b since rows ra rb, beq_self b, beq-ne a b apart, recent),
    )

-- A failed login: the identity it was for, the address it came from, and its time.
pub record Failed : Type 0 where
  pub identity : Text
  pub ip : Text
  pub at : ℕ

-- The rows after some failed logins, of any identities and addresses.
unfoldable pub record_all : (Text → Text) → List Failed → List LoginFailure → List LoginFailure
unfolding record_failure
record_all casefold [] rows = rows
record_all casefold (f ∷ failures) rows =
    record_all casefold failures (record_failure casefold f.identity f.ip f.at rows)

-- A failure of this address against this account that lies in the window at the time `now`.
abbrev pub is_recent : LoginThrottle → Text → Text → ℕ → Failed → Bool
is_recent t identity ip now f =
    (f.identity == identity) && (f.ip == ip) && leb now (f.at + t.window)

fewer_rows :
    (casefold : Text → Text) (t : LoginThrottle) (identity ip : Text) (now : ℕ) (f : Failed)
    (rows : List LoginFailure)
    → ip_count casefold t identity ip now rows
      ≤ ip_count casefold t identity ip now (record_failure casefold f.identity f.ip f.at rows)
unfolding record_failure add_login_failures
fewer_rows casefold t identity ip now f rows = omega (
  arith,
  two_rows_count (ip_key casefold identity ip) (now - t.window) rows
      (record { key = ip_key casefold f.identity f.ip; failed_at = f.at })
      (record { key = account_key casefold f.identity; failed_at = f.at }),
)

record_failure_adds :
    (casefold : Text → Text) (t : LoginThrottle) (identity ip : Text) (now : ℕ) (f : Failed)
    (rows : List LoginFailure)
    → ip_count casefold t identity ip now rows + (if is_recent t identity ip now f then 1 else 0)
      ≤ ip_count casefold t identity ip now (record_failure casefold f.identity f.ip f.at rows)
record_failure_adds casefold t identity ip now f rows =
    elim (Bool-cases (is_recent t identity ip now f)) [
      | inr other ↦ rw other (omega (arith, fewer_rows casefold t identity ip now f rows))
      | inl mine ↦
          let same_identity : f.identity ≡ identity = beq→eq f.identity identity (ground arith) in
          let same_ip : f.ip ≡ ip = beq→eq f.ip ip (ground arith) in
          let counted =
            (record_failure_counts casefold t f.identity f.ip f.at now rows (ground arith)).0 in
          rw mine (
            subst
              (λ i.
                ip_count casefold t i ip now rows + 1
                ≤ ip_count casefold t i ip now (record_failure casefold f.identity f.ip f.at rows))
              same_identity
              (subst
                (λ a.
                  ip_count casefold t f.identity a now rows + 1
                  ≤ ip_count casefold t f.identity a now
                      (record_failure casefold f.identity f.ip f.at rows))
                same_ip (omega (arith, counted))))
    ]

record_all-count :
    (casefold : Text → Text) (t : LoginThrottle) (identity ip : Text) (now : ℕ)
    (failures : List Failed) (rows : List LoginFailure)
    → ip_count casefold t identity ip now rows + count_if (is_recent t identity ip now) failures
      ≤ ip_count casefold t identity ip now (record_all casefold failures rows)
unfolding record_all
record_all-count casefold t identity ip now [] rows = omega arith
record_all-count casefold t identity ip now (f ∷ failures) rows =
    let first = record_failure_adds casefold t identity ip now f rows in
    let others =
      record_all-count casefold t identity ip now failures
        (record_failure casefold f.identity f.ip f.at rows) in
    elim (Bool-cases (is_recent t identity ip now f)) [
      | inl mine ↦ ground (arith, first, others, mine)
      | inr other ↦ ground (arith, first, others, other)
    ]

-- Once at least `max_failures` failures of an address against an account lie in the window, each
-- recorded at its own time and among any failures of others, the address is refused for that account,
-- whatever was recorded before. Both limits are at least one.
pub locked_after_failures :
    (casefold : Text → Text) (t : LoginThrottle) (identity ip : Text) (now : ℕ)
    (failures : List Failed) (rows : List LoginFailure)
    → 1 ≤ t.max_failures
    → 1 ≤ t.account_max_failures
    → t.max_failures ≤ count_if (is_recent t identity ip now) failures
    → retry_after casefold t identity ip now (record_all casefold failures rows) ≢ 0
locked_after_failures casefold t identity ip now failures rows h k many free =
    let after = record_all casefold failures rows in
    let under = (retry_after-eq_zero casefold t identity ip now after h k).0 free in
    omega (arith, record_all-count casefold t identity ip now failures rows)

-- A successful login clears the failures of its own address against the account and leaves the
-- account's own count, which guards it from other addresses, as it was.
pub record_success_counts :
    (casefold : Text → Text) (t : LoginThrottle) (identity ip : Text) (now : ℕ)
    (rows : List LoginFailure)
    → let after = record_success casefold identity ip rows in
      (ip_count casefold t identity ip now after ≡ 0)
      × (account_count casefold t identity ip now after
          ≡ account_count casefold t identity ip now rows)
unfolding record_success
record_success_counts casefold t identity ip now rows =
    let a = ip_key casefold identity ip in
    let b = account_key casefold identity in
    let since = now - t.window in
    (
      cleared_count a since rows,
      ap (λ c. c.0)
          (keep-not_matching a b since rows (ip_key-ne-account_key casefold identity ip identity)),
    )
