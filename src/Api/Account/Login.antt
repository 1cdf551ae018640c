-- ===== src/Api/Account/Login.antt =====
-- The handler login of api/src/pgs_api/routers/account.py: its answers, and a sequence of attempts at it.
use pgs_search_engine.Base.{
  ℕ, ◌+◌, ◌≤◌, ◌≡◌, refl, sym, ap, subst, ◌∙◌, ◌≢◌, ◌⊎◌, inl, inr, Bool, true, false, not, ◌&&◌,
  ◌||◌, some, List, [], ◌∷◌, arith, if◌then◌else◌, Bool-cases, Option-cases, ◌==◌, nat_eq, beq-ne,
  All, find-some,
}
use pgs_search_engine.Base.Text.{codes, Text, text_eq}
use pgs_search_engine.Api.Throttle.{record_success, retry_after, record_failure}
use pgs_search_engine.Api.Throttle.Lock.{
  record_success_counts, ip_count, record_failure_counts, retry_after-eq_zero,
}
use pgs_search_engine.Api.Account.{
  Response, ok, error, Services, Site, Context, user_audience, seconds,
}
use pgs_search_engine.Api.Account.Session.{
  user_identity, auth_response, signed_in, record_user_login, AuthResponse, login_identity, login,
}
use pgs_search_engine.Database.Accounts
use pgs_search_engine.Database.Accounts.{User, HistoryRow, Accounts, user_row}
use pgs_search_engine.Api.Tokens.{TokenClaims, Codec, Result-cases}
use pgs_search_engine.Api.Tokens

-- The password opens no account.
abbrev pub Wrong : Services → Text → Site → Text → Type 0
Wrong sv email site password =
    (account : User)
    → Accounts.get_user_by_email sv.lower email true site.accounts ≡ some account
    → sv.verify_password account.password_hash password ≡ false

-- A login that was tried: its password, and the request's clock, address and slot.
pub record Try : Type 0 where
  pub password : Text
  pub cx : Context

-- These logins, one after the other.
unfoldable pub try_passwords : Services → Text → List Try → Site → Site
try_passwords sv email [] site = site
try_passwords sv email (t ∷ tries) site =
    try_passwords sv email tries (login sv email t.password t.cx site).1

abbrev pub is_unauthorized : {A : Type 0} → Response A → Bool
is_unauthorized (ok _) = false
is_unauthorized (error status) = status == 401

-- How many of these logins are answered 401.
unfoldable pub count_unauthorized : Services → Text → List Try → Site → ℕ
count_unauthorized sv email [] site = 0
count_unauthorized sv email (t ∷ tries) site =
    (if is_unauthorized (login sv email t.password t.cx site).0 then 1 else 0)
    + count_unauthorized sv email tries (login sv email t.password t.cx site).1

abbrev pub wait_of : Services → Text → Context → Site → ℕ
wait_of sv email cx site =
    retry_after sv.casefold sv.throttle
      (login_identity email (Accounts.get_user_by_email sv.lower email true site.accounts)) cx.ip
      cx.now site.failures

-- A locked address gets 429 and changes nothing.
login-locked :
    (sv : Services) (email password : Text) (cx : Context) (site : Site)
    → wait_of sv email cx site ≢ 0
    → login sv email password cx site ≡ (error 429, site)
unfolding login
login-locked sv email password cx site h =
    let b : (wait_of sv email cx site == 0) ≡ false = beq-ne (wait_of sv email cx site) 0 h in
    ground (arith, b)

abbrev identity_of : Services → Text → Site → Text
identity_of sv email site =
    login_identity email (Accounts.get_user_by_email sv.lower email true site.accounts)

abbrev with_failure : Services → Text → Context → Site → Site
with_failure sv email cx site = record site {
  failures = record_failure sv.casefold (identity_of sv email site) cx.ip cx.now site.failures;
}

-- A login with a wrong password is answered 401 and recorded, or changes nothing.
login-Wrong :
    (sv : Services) (email password : Text) (cx : Context) (site : Site)
    → Wrong sv email site password
    → (login sv email password cx site ≡ (error 401, with_failure sv email cx site))
      ⊎ ((is_unauthorized (login sv email password cx site).0 ≡ false)
          × ((login sv email password cx site).1 ≡ site))
unfolding login
login-Wrong sv email password cx site wrong = elim (Bool-cases (wait_of sv email cx site == 0)) [
  | inr locked ↦ inr (ground arith, ground arith)
  | inl free ↦ elim (Bool-cases cx.slot_free) [
    | inr busy ↦ inr (ground arith, ground arith)
    | inl slot ↦
        elim (Option-cases (Accounts.get_user_by_email sv.lower email true site.accounts)) [
          | inl nobody ↦ inl (ground arith)
          | inr (account, found) ↦ inl (ground (arith, wrong account found))
        ]
  ]
]

-- The login had a wrong password and came from this address, and the time is in its window still.
abbrev pub IsCounted : Services → Text → Context → Site → Try → Type 0
IsCounted sv email cx site t =
    Wrong sv email site t.password × (t.cx.ip ≡ cx.ip) × (cx.now ≤ t.cx.now + sv.throttle.window)

abbrev count_at : Services → Text → Context → Site → ℕ
count_at sv email cx site =
    ip_count sv.casefold sv.throttle (identity_of sv email site) cx.ip cx.now site.failures

with_failure-count :
    (sv : Services) (email : Text) (cx at : Context) (site : Site)
    → at.ip ≡ cx.ip
    → cx.now ≤ at.now + sv.throttle.window
    → count_at sv email cx (with_failure sv email at site) ≡ count_at sv email cx site + 1
with_failure-count sv email cx at site same recent =
    subst
      (λ ip.
        ip_count sv.casefold sv.throttle (identity_of sv email site) ip cx.now
          (with_failure sv email at site).failures
        ≡ ip_count sv.casefold sv.throttle (identity_of sv email site) ip cx.now site.failures + 1)
      same
      (record_failure_counts sv.casefold sv.throttle (identity_of sv email site) at.ip at.now cx.now
        site.failures recent).0

-- The bound of the lemma below, with the first login's answer apart.
abbrev Bound : Services → Text → Context → List Try → Site → Response AuthResponse × Site → Type 0
Bound sv email cx tries site r =
    count_at sv email cx site
      + ((if is_unauthorized r.0 then 1 else 0) + count_unauthorized sv email tries r.1)
    ≤ count_at sv email cx (try_passwords sv email tries r.1)

unchanged-Bound :
    (sv : Services) (email : Text) (cx : Context) (tries : List Try) (site : Site)
    (r : Response AuthResponse × Site)
    → is_unauthorized r.0 ≡ false
    → r.1 ≡ site
    → count_at sv email cx site + count_unauthorized sv email tries site
      ≤ count_at sv email cx (try_passwords sv email tries site)
    → Bound sv email cx tries site r
unchanged-Bound sv email cx tries site r answered same h = rw answered (
    subst
      (λ s.
        count_at sv email cx site + (0 + count_unauthorized sv email tries s)
        ≤ count_at sv email cx (try_passwords sv email tries s))
      (sym same) (omega (arith, h)))

try_passwords-count :
    (sv : Services) (email : Text) (cx : Context) (tries : List Try) (site : Site)
    → All (IsCounted sv email cx site) tries
    → count_at sv email cx site + count_unauthorized sv email tries site
      ≤ count_at sv email cx (try_passwords sv email tries site)
unfolding try_passwords count_unauthorized
try_passwords-count sv email cx [] site wrong = omega arith
try_passwords-count sv email cx (t ∷ tries) site ((wrong, address, recent), later) =
    elim (login-Wrong sv email t.password t.cx site wrong) [
      | inl refused ↦ subst (Bound sv email cx tries site) (sym refused) (
          omega (
            arith,
            with_failure-count sv email cx t.cx site address recent,
            try_passwords-count sv email cx tries (with_failure sv email t.cx site) later,
          ))
      | inr (answered, same) ↦
          unchanged-Bound sv email cx tries site (login sv email t.password t.cx site) answered same
            (try_passwords-count sv email cx tries site later)
    ]

-- After logins to an account with wrong passwords from one address, each at its own time, of which at
-- least `max_failures` were answered 401, a login to it from there at a time when all of them lie in
-- the window gets 429 and changes nothing, with the right password too. Both limits are at least one.
pub login_locked_out :
    (sv : Services) (email password : Text) (tries : List Try) (cx : Context) (site : Site)
    → 1 ≤ sv.throttle.max_failures
    → 1 ≤ sv.throttle.account_max_failures
    → All (IsCounted sv email cx site) tries
    → sv.throttle.max_failures ≤ count_unauthorized sv email tries site
    → let after = try_passwords sv email tries site in
      login sv email password cx after ≡ (error 429, after)
login_locked_out sv email password tries cx site h k wrong many =
    let after = try_passwords sv email tries site in
    login-locked sv email password cx after (λ free.
      let under =
        (retry_after-eq_zero sv.casefold sv.throttle (identity_of sv email after) cx.ip cx.now
            after.failures h k).0
          free in
      omega (arith, try_passwords-count sv email cx tries site wrong))

Accounts-cases :
    {A : Type 0} (r : Accounts.Result A)
    → ((a : A) × (r ≡ Accounts.ok a)) ⊎ ((e : Accounts.Failure) × (r ≡ Accounts.err e))
Accounts-cases (Accounts.ok a) = inl (a, refl)
Accounts-cases (Accounts.err e) = inr (e, refl)

-- The token that a login issues is for this account.
abbrev pub issued_for : Services → User → Context → Tokens.Result Text
issued_for sv account cx =
    Tokens.issue sv.codec account.email account.id (codes "USER") user_audience
      (some sv.user_token_ttl_seconds) cx.new_token_id (seconds cx)

auth_response-ok :
    (sv : Services) (account : User) (cx : Context) (r : AuthResponse)
    → auth_response sv account cx ≡ ok r
    → issued_for sv account cx ≡ Tokens.ok r.access_token
unfolding auth_response
auth_response-ok sv account cx r e = elim (Result-cases (issued_for sv account cx)) [
  | inl (token, issued) ↦ ground arith
  | inr (failure, failed) ↦ absurd (ground arith)
]

signed_in_sound :
    (sv : Services) (identity password : Text) (account : User) (cx : Context) (site after : Site)
    (r : AuthResponse)
    → signed_in sv identity password account cx site ≡ (ok r, after)
    → (issued_for sv account cx ≡ Tokens.ok r.access_token)
      × (after.failures ≡ record_success sv.casefold identity cx.ip site.failures)
unfolding signed_in
signed_in_sound sv identity password account cx site after r e =
    elim (Accounts-cases (
      record_user_login account.id (sv.upgraded_hash account.password_hash password) cx.now
        site.accounts)) [
          | inl (db, done) ↦ (auth_response-ok sv account cx r (ground arith), ground arith)
          | inr (failure, failed) ↦ absurd (ground arith)
        ]

found_account :
    (sv : Services) (email : Text) (db : Accounts) (account : User)
    → Accounts.get_user_by_email sv.lower email true db ≡ some account
    → (account.is_active ≡ true)
      × ((account.email == Accounts.normalize_email sv.lower email) ≡ true)
unfolding Accounts.get_user_by_email
found_account sv email db account found =
    let test : User → Bool =
      λ u. u.email == Accounts.normalize_email sv.lower email && (not true || u.is_active) in
    let both = find-some test db.users account found in (ground (arith, both), ground (arith, both))

-- A login that succeeds was for the active account of the normalized address, with its password, from
-- an address that was not locked; the token that it answers with was issued for that account, and the
-- failures of the address against the account are cleared, at any time.
pub login_sound :
    (sv : Services) (email password : Text) (cx : Context) (site after : Site) (r : AuthResponse)
    (later : ℕ)
    → login sv email password cx site ≡ (ok r, after)
    → (account : User) × (Accounts.get_user_by_email sv.lower email true site.accounts
        ≡ some account)
      × (account.is_active ≡ true)
      × ((account.email == Accounts.normalize_email sv.lower email) ≡ true)
      × (sv.verify_password account.password_hash password ≡ true)
      × (wait_of sv email cx site ≡ 0)
      × (issued_for sv account cx ≡ Tokens.ok r.access_token)
      × (ip_count sv.casefold sv.throttle (user_identity account.id) cx.ip later after.failures ≡ 0)
unfolding login
login_sound sv email password cx site after r later e =
    elim (Option-cases (Accounts.get_user_by_email sv.lower email true site.accounts)) [
      | inl nobody ↦ absurd (ground arith)
      | inr (account, found) ↦
          let (active, address) = found_account sv email site.accounts account found in
          let right : sv.verify_password account.password_hash password ≡ true = ground arith in
          let (issued, cleared) =
            signed_in_sound sv (user_identity account.id) password account cx site after r
              (ground arith) in
          (
            account,
            found,
            active,
            address,
            right,
            ground arith,
            issued,
            ap (λ l. ip_count sv.casefold sv.throttle (user_identity account.id) cx.ip later l)
                  cleared
                ∙ (record_success_counts sv.casefold sv.throttle (user_identity account.id) cx.ip
                    later site.failures).0,
          )
    ]
