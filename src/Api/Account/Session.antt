-- ===== src/Api/Account/Session.antt =====
-- The handlers of api/src/pgs_api/routers/account.py, with the methods of `PgDatabase`
-- (api/src/pgs_api/db/database.py) that they call in a transaction each.
use pgs_search_engine.Base.{
  ℕ, ◌*◌, Bool, true, not, Option, none, some, List, [], ◌∷◌, ◌++◌, ⊤, if◌then◌else◌, ◌==◌, nat_eq,
  length,
}
use pgs_search_engine.Base.Text.{Text, text_eq, codes}
use pgs_search_engine.Database.Accounts
use pgs_search_engine.Database.Accounts.{User, HistoryRow, Accounts}
use pgs_search_engine.Api.Throttle.{second, retry_after, record_failure, record_success}
use pgs_search_engine.Base.Int.{ℤ, pos, negsuc}
use pgs_search_engine.Api.Tokens.{TokenClaims, Codec}
use pgs_search_engine.Api.Tokens
use pgs_search_engine.Api.Account.{
  Response, ok, error, UserPrincipal, Services, Site, Context, user_audience, seconds,
}
use pgs_search_engine.Api.Account.Decimal.{decimal}

pub record Profile : Type 0 where
  pub email : Text
  pub display_name : Option Text
  pub save_history : Bool

pub record AuthResponse : Type 0 where
  pub access_token : Text
  pub expires_in : ℕ
  pub user : Profile

pub record HistoryPage : Type 0 where
  pub items : List HistoryRow
  pub next_before : Option ℕ

abbrev pub user_identity : ℕ → Text
user_identity user_id = codes "user:" ++ decimal user_id

abbrev pub login_identity : Text → Option User → Text
login_identity email none = codes "user-login:" ++ email
login_identity email (some account) = user_identity account.id

-- `datetime.fromtimestamp`, in microseconds; no accepted token expires before 1970.
abbrev pub timestamp : ℤ → ℕ
timestamp (pos n) = n * second
timestamp (negsuc _) = 0

abbrev pub profile : User → Profile
profile account = record {
  email = account.email;
  display_name = account.display_name;
  save_history = account.save_history;
}

-- `record_login` and `set_password_hash` in one transaction.
unfoldable pub record_user_login : ℕ → Option Text → ℕ → Accounts → Accounts.Result Accounts
record_user_login user_id none now db = Accounts.record_login user_id now db
record_user_login user_id (some new_password_hash) now db =
    elim (Accounts.record_login user_id now db) [
      | Accounts.ok after ↦ Accounts.set_password_hash user_id new_password_hash after
      | Accounts.err e ↦ Accounts.err e
    ]

module _ (sv : Services) where
  unfoldable pub auth_response : User → Context → Response AuthResponse
  auth_response account cx =
      let ttl = sv.user_token_ttl_seconds in
      elim (Tokens.issue sv.codec account.email account.id (codes "USER") user_audience (some ttl)
        cx.new_token_id (seconds cx)) [
          | Tokens.ok token ↦
              ok (record { access_token = token; expires_in = ttl; user = profile account })
          | Tokens.err _ ↦ error 500
        ]

  unfoldable pub register :
      Text → Text → Option Text → Context → Site → Response AuthResponse × Site
  unfolding auth_response
  register email password display_name cx site =
      if not cx.slot_free
      then (error 503, site)
      else elim (Accounts.create_user sv.lower email (sv.hash_password password) display_name
          site.accounts) [
            | Accounts.ok (account, db) ↦ (auth_response account cx, record site { accounts = db })
            | Accounts.err Accounts.integrity_error ↦ (error 409, site)
            | Accounts.err _ ↦ (error 500, site)
          ]

  -- `record_failure` and the answer 401.
  abbrev pub refuse : {A : Type 0} → Text → Context → Site → Response A × Site
  refuse identity cx site = (
    error 401,
    record site { failures = record_failure sv.casefold identity cx.ip cx.now site.failures },
  )

  -- What follows a right password.
  unfoldable pub signed_in : Text → Text → User → Context → Site → Response AuthResponse × Site
  unfolding record_user_login auth_response
  signed_in identity password account cx site =
      let failures = record_success sv.casefold identity cx.ip site.failures in
      let new_hash = sv.upgraded_hash account.password_hash password in
      elim (record_user_login account.id new_hash cx.now site.accounts) [
        | Accounts.ok db ↦ (auth_response account cx, record { accounts = db; failures = failures })
        | Accounts.err Accounts.lookup_error ↦ (error 401, record site { failures = failures })
        | Accounts.err _ ↦ (error 500, record site { failures = failures })
      ]

  unfoldable pub login : Text → Text → Context → Site → Response AuthResponse × Site
  unfolding signed_in
  login email password cx site =
      let found = Accounts.get_user_by_email sv.lower email true site.accounts in
      let identity = login_identity email found in
      if not (retry_after sv.casefold sv.throttle identity cx.ip cx.now site.failures == 0)
      then (error 429, site)
      else if not cx.slot_free
      then (error 503, site)
      else elim found [
        | none ↦ refuse identity cx site
        | some account ↦
            if sv.verify_password account.password_hash password
            then signed_in identity password account cx site
            else refuse identity cx site
      ]

  unfoldable pub delete_account : Text → UserPrincipal → Context → Site → Response ⊤ × Site
  delete_account password user cx site =
      let identity = user_identity user.user_id in
      if not (retry_after sv.casefold sv.throttle identity cx.ip cx.now site.failures == 0)
      then (error 429, site)
      else if not cx.slot_free
      then (error 503, site)
      else elim (Accounts.get_user user.user_id true site.accounts) [
        | none ↦ refuse identity cx site
        | some account ↦
            if sv.verify_password account.password_hash password
            then (
              ok tt,
              record site {
                accounts =
                    Accounts.revoke_token user.token_id (timestamp user.token_expires_at)
                      (Accounts.delete_user user.user_id site.accounts).1;
              },
            )
            else refuse identity cx site
      ]

unfoldable pub logout : UserPrincipal → Site → Response ⊤ × Site
logout user site = (
  ok tt,
  record site {
    accounts = Accounts.revoke_token user.token_id (timestamp user.token_expires_at) site.accounts;
  },
)

-- The account may have been deleted since the token was checked: `LookupError` is not caught.
unfoldable pub update_settings : Bool → UserPrincipal → Site → Response Profile × Site
update_settings enabled user site =
    elim (Accounts.set_save_history user.user_id enabled site.accounts) [
      | Accounts.ok db ↦ (
        ok (record {
          email = user.email;
          display_name = user.display_name;
          save_history = enabled;
        }),
        record site { accounts = db },
      )
      | Accounts.err _ ↦ (error 500, site)
    ]

-- The id of the last row.
abbrev pub last_id : List HistoryRow → Option ℕ
last_id [] = none
last_id (row ∷ []) = some row.id
last_id (row ∷ other ∷ rows) = last_id (other ∷ rows)

unfoldable pub history : UserPrincipal → ℕ → Option ℕ → Site → HistoryPage
history user limit before site =
    let rows = Accounts.list_history user.user_id limit before site.accounts in
    record { items = rows; next_before = if length rows == limit then last_id rows else none }

unfoldable pub delete_history_item : ℕ → UserPrincipal → Site → Response ⊤ × Site
delete_history_item item_id user site =
    let (found, db) = Accounts.delete_history_item user.user_id item_id site.accounts in
    if found then (ok tt, record site { accounts = db }) else (error 404, site)

unfoldable pub clear_history : UserPrincipal → Site → Response ℕ × Site
clear_history user site =
    let (deleted, db) = Accounts.clear_history user.user_id site.accounts in
    (ok deleted, record site { accounts = db })
