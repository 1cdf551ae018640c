-- ===== src/Api/Throttle/Counts.antt =====
-- What the counts of login failures say after each write.
use pgs_search_engine.Base.{
  ap, ℕ, ◌+◌, ◌≤◌, ◌≡◌, refl, sym, ◌∙◌, ◌≢◌, inl, inr, some, List, [], ◌∷◌, ◌++◌, arith,
  if◌then◌else◌, Bool-cases, Option-cases, ◌==◌, nat_eq, beq-ne, beq→eq, All,
}
use pgs_search_engine.Base.Text.{Text, text_eq}
use pgs_search_engine.Api.Throttle.{
  LoginFailure, earlier, matches, count_login_failures, clear_login_failures, ip_key, account_key,
}

pub keep-not_matching :
    (key since_key : Text) (since : ℕ) (rows : List LoginFailure)
    → key ≢ since_key
    → count_login_failures since_key since (clear_login_failures (key ∷ []) rows)
      ≡ count_login_failures since_key since rows
unfolding count_login_failures clear_login_failures
keep-not_matching key other since [] h = refl
keep-not_matching key other since (row ∷ rows) h = elim (Bool-cases (row.key == key)) [
  | inl same ↦ ground (
    arith,
    keep-not_matching key other since rows h,
    beq-ne row.key other (λ e. h (sym (beq→eq row.key key same) ∙ e)),
  )
  | inr different ↦ ground (arith, keep-not_matching key other since rows h)
]

pub cleared_count :
    (key : Text) (since : ℕ) (rows : List LoginFailure)
    → (count_login_failures key since (clear_login_failures (key ∷ []) rows)).0 ≡ 0
unfolding count_login_failures clear_login_failures
cleared_count key since [] = refl
cleared_count key since (row ∷ rows) = ground (arith, cleared_count key since rows)

pub count-append :
    (key : Text) (since : ℕ) (rows : List LoginFailure) (row : LoginFailure)
    → (count_login_failures key since (rows ++ row ∷ [])).0
      ≡ (count_login_failures key since rows).0 + (if matches key since row then 1 else 0)
unfolding count_login_failures
count-append key since [] row = ground arith
count-append key since (r ∷ rows) row = ground (arith, count-append key since rows row)

-- The oldest failure that is counted lies in the window, and there is one if any is counted.
pub oldest_within :
    (key : Text) (since : ℕ) (rows : List LoginFailure) (oldest : ℕ)
    → (count_login_failures key since rows).1 ≡ some oldest
    → since ≤ oldest
unfolding count_login_failures earlier
oldest_within key since [] oldest h = cc
oldest_within key since (row ∷ rows) oldest h =
    elim (Option-cases (count_login_failures key since rows).1) [
      | inl nothing ↦ ground arith
      | inr (o, found) ↦ ground (arith, oldest_within key since rows o)
    ]

pub oldest_of_count :
    (key : Text) (since : ℕ) (rows : List LoginFailure)
    → 1 ≤ (count_login_failures key since rows).0
    → (o : ℕ) × ((count_login_failures key since rows).1 ≡ some o)
unfolding count_login_failures earlier
oldest_of_count key since [] h = absurd (omega arith)
oldest_of_count key since (row ∷ rows) h =
    elim (Option-cases (count_login_failures key since (row ∷ rows)).1) [
      | inl nothing ↦ absurd (ground (arith, oldest_of_count key since rows))
      | inr found ↦ found
    ]

pub oldest_not_after :
    (key : Text) (since now : ℕ) (rows : List LoginFailure) (oldest : ℕ)
    → All (λ row. row.failed_at ≤ now) rows
    → (count_login_failures key since rows).1 ≡ some oldest
    → oldest ≤ now
unfolding count_login_failures earlier
oldest_not_after key since now [] oldest past h = cc
oldest_not_after key since now (row ∷ rows) oldest past h =
    elim (Option-cases (count_login_failures key since rows).1) [
      | inl nothing ↦ ground arith
      | inr (o, found) ↦ ground (arith, oldest_not_after key since now rows o past.1)
    ]

abbrev first : Text → ℕ
first [] = 0
first (c ∷ _) = c

-- The keys of an address and of an account never meet.
pub ip_key-ne-account_key :
    (casefold : Text → Text) (identity ip other : Text)
    → ip_key casefold identity ip ≢ account_key casefold other
ip_key-ne-account_key casefold identity ip other e =
    let apart : ◌≡◌ {A = ℕ} 105 97 = ap first e in omega arith
