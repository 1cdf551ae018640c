-- ===== src/Api/Throttle.antt =====
-- The brake on failed logins: `LoginThrottle` of api/src/pgs_api/auth/throttle.py over the rows of
-- `login_failures`, which database/src/pgs_db/repositories/accounts.py reads and writes.
-- Times are microseconds since an epoch; `str.casefold` is a parameter.
pub mod Counts
pub mod Lock
pub mod Tests
use pgs_search_engine.Base.{
  ℕ, zero, suc, ◌+◌, ◌-◌, ◌*◌, ◌/◌, ◌%◌, ◌^◌, ◌≤◌, ◌<◌, min, max, ◌≡◌, refl, sym, ap, subst, ◌∙◌,
  ◌≢◌, ◌↔◌, ◌⊎◌, inl, inr, Bool, true, false, not, ◌&&◌, ◌||◌, Option, none, some, List, [], ◌∷◌,
  ◌++◌, map, arith, String, ⊤, ltb, leb, nat_beq, if◌then◌else◌, ltb→lt, lt→ltb, leb→le, le→leb,
  nat_beq_iff, Bool-cases, Option-cases, PyEq, ◌==◌, nat_eq, beq_self, beq-ne, beq→eq, length, take,
  drop, keep, any, all, All, length-append, take-append-drop, length-take, length-drop, length-keep,
  length-map, elem, distinct, elem-append, elem-keep,
}
use pgs_search_engine.Base.Text.{
  Text, text_eq, codes, is_empty, between, is_space, strip, strip_left, strip_right, is_blank,
  starts_with, ends_with, drop_end, words, join,
}

-- A row of `login_failures`.
pub record LoginFailure : Type 0 where
  pub key : Text
  pub failed_at : ℕ

-- `func.min(LoginFailure.failed_at)`
unfoldable pub earlier : ℕ → Option ℕ → Option ℕ
earlier a none = some a
earlier a (some b) = some (if leb a b then a else b)

abbrev pub matches : Text → ℕ → LoginFailure → Bool
matches key since row = (row.key == key) && leb since row.failed_at

unfoldable pub count_login_failures : Text → ℕ → List LoginFailure → ℕ × Option ℕ
unfolding earlier
count_login_failures key since [] = (0, none)
count_login_failures key since (row ∷ rows) =
    let (count, oldest) = count_login_failures key since rows in
    if matches key since row then (suc count, earlier row.failed_at oldest) else (count, oldest)

-- The rows take their time from the database's clock.
unfoldable pub add_login_failures : List Text → ℕ → List LoginFailure → List LoginFailure
add_login_failures [] now rows = rows
add_login_failures (key ∷ keys) now rows =
    add_login_failures keys now (rows ++ record { key = key; failed_at = now } ∷ [])

unfoldable pub clear_login_failures : List Text → List LoginFailure → List LoginFailure
clear_login_failures keys rows = keep (λ row. not (elem row.key keys)) rows

pub record LoginThrottle : Type 0 where
  pub max_failures : ℕ
  pub account_max_failures : ℕ
  pub window : ℕ

abbrev pub second : ℕ
second = 1000000

module _ (casefold : Text → Text) where
  abbrev pub ip_key : Text → Text → Text
  ip_key identity ip = take 400 (codes "ip:" ++ ip ++ codes "|" ++ casefold identity)

  abbrev pub account_key : Text → Text
  account_key identity = take 400 (codes "acct:" ++ casefold identity)

-- One round of the loop of `retry_after`.
unfoldable pub longer_wait : LoginThrottle → ℕ → ℕ → ℕ × Option ℕ → ℕ → ℕ
longer_wait t now limit (count, none) wait = wait
longer_wait t now limit (count, some oldest) wait =
    if leb limit count then max wait ((oldest + t.window - now) / second + 1) else wait

module _ (casefold : Text → Text) (t : LoginThrottle) where
  unfoldable pub retry_after : Text → Text → ℕ → List LoginFailure → ℕ
  unfolding longer_wait count_login_failures
  retry_after identity ip now rows =
      let since = now - t.window in
      let of_ip = count_login_failures (ip_key casefold identity ip) since rows in
      let of_account = count_login_failures (account_key casefold identity) since rows in
      let wait =
        longer_wait t now t.account_max_failures of_account
          (longer_wait t now t.max_failures of_ip 0) in
      if leb 1 wait then max wait 1 else 0

module _ (casefold : Text → Text) where
  unfoldable pub record_failure : Text → Text → ℕ → List LoginFailure → List LoginFailure
  unfolding add_login_failures
  record_failure identity ip now rows =
      add_login_failures (ip_key casefold identity ip ∷ account_key casefold identity ∷ []) now rows

  unfoldable pub record_success : Text → Text → List LoginFailure → List LoginFailure
  unfolding clear_login_failures
  record_success identity ip rows = clear_login_failures (ip_key casefold identity ip ∷ []) rows
