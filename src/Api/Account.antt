-- ===== src/Api/Account.antt =====
-- The public site's accounts: api/src/pgs_api/routers/account.py and auth/users.py, over the account
-- tables of Database/Accounts, the throttle and the tokens. An HTTP error is a value with its status
-- code. What comes from outside is an argument: the password functions (Argon2), the random token
-- id, the clock, and whether a slot for password hashing is free. Each handler returns its response
-- and the state after it.
pub mod Decimal
pub mod Session
pub mod Login
pub mod Access
mod Tests
use pgs_search_engine.Base.{
  ℕ, zero, suc, ◌+◌, ◌-◌, ◌*◌, ◌/◌, ◌%◌, ◌^◌, ◌≤◌, ◌<◌, min, max, ◌≡◌, refl, sym, ap, subst, ◌∙◌,
  ◌≢◌, ◌↔◌, ◌⊎◌, inl, inr, Bool, true, false, not, ◌&&◌, ◌||◌, Option, none, some, List, [], ◌∷◌,
  ◌++◌, map, arith, String, ⊤, ltb, leb, nat_beq, if◌then◌else◌, if_ind, ltb→lt, lt→ltb, leb→le,
  le→leb, nat_beq_iff, Bool-cases, Option-cases, PyEq, ◌==◌, nat_eq, beq_self, beq-ne, beq→eq,
  length, take, drop, keep, any, all, All, length-append, take-append-drop, length-take,
  length-drop, length-keep, length-map, elem, distinct, elem-append, elem-keep, find, update_if,
  count_if, find-some, All-keep, All-map, All-append, All-update_if, any_mono, length-update_if,
  length-keep-count,
}
use pgs_search_engine.Base.Text.{
  Text, text_eq, codes, is_empty, between, is_space, strip, strip_left, strip_right, put_back,
  is_blank, starts_with, ends_with, drop_end, words, join,
}
use pgs_search_engine.Database.Accounts
use pgs_search_engine.Database.Accounts.{User, HistoryRow, Accounts}
use pgs_search_engine.Api.Throttle.{
  LoginFailure, LoginThrottle, second, retry_after, record_failure, record_success,
}
use pgs_search_engine.Base.Int.{ℤ, pos, negsuc}
use pgs_search_engine.Api.Tokens.{TokenClaims, Codec}
use pgs_search_engine.Api.Tokens
use pgs_search_engine.Api.Account.Decimal.{decimal}

pub data Response (A : Type 0) : Type 0 where
  ok : A → Response A
  -- `HTTPException` with this status; 500 is an exception that the handler lets through.
  error : ℕ → Response A

pub record UserPrincipal : Type 0 where
  pub user_id : ℕ
  pub email : Text
  pub display_name : Option Text
  pub save_history : Bool
  pub token_id : Text
  pub token_expires_at : ℤ

-- What the handlers read of `Services`; `upgraded_hash` is `none` if the hash is up to date.
pub record Services : Type 0 where
  pub codec : Codec
  pub throttle : LoginThrottle
  pub user_token_ttl_seconds : ℕ
  pub casefold : Text → Text
  pub lower : Text → Text
  pub verify_password : Text → Text → Bool
  pub upgraded_hash : Text → Text → Option Text
  pub hash_password : Text → Text

pub record Site : Type 0 where
  pub accounts : Accounts
  pub failures : List LoginFailure

-- What a request brings with it beside its body: the clock (in microseconds), the client's address,
-- the random token id, and whether a password slot is free.
pub record Context : Type 0 where
  pub now : ℕ
  pub ip : Text
  pub new_token_id : Text
  pub slot_free : Bool

abbrev pub user_audience : Text
user_audience = codes "user"

abbrev pub seconds : Context → ℕ
seconds cx = cx.now / second

module _ (sv : Services) where
  -- A JSON `uid` that is not the id of an account finds none.
  abbrev pub account_of : ℤ → Accounts → Option User
  account_of (pos user_id) db = Accounts.get_user user_id true db
  account_of (negsuc _) db = none

  unfoldable pub principal_of : TokenClaims → Site → Response UserPrincipal
  principal_of claims site =
      if Accounts.is_token_revoked claims.token_id site.accounts
      then error 401
      else elim (account_of claims.user_id site.accounts) [
        | none ↦ error 401
        | some account ↦ ok (record {
          user_id = account.id;
          email = account.email;
          display_name = account.display_name;
          save_history = account.save_history;
          token_id = claims.token_id;
          token_expires_at = claims.expires_at;
        })
      ]

  unfoldable pub current_user : Option Text → Context → Site → Response UserPrincipal
  unfolding principal_of
  current_user none cx site = error 401
  current_user (some credentials) cx site =
      elim (Tokens.verify sv.codec credentials user_audience (seconds cx)) [
        | Tokens.ok claims ↦ principal_of claims site
        | Tokens.err Tokens.not_ascii ↦ error 500
        | Tokens.err Tokens.too_nested ↦ error 500
        | Tokens.err _ ↦ error 401
      ]

  -- `none` is a visitor; the outer `error` is an exception that is not caught.
  unfoldable pub optional_user : Option Text → Context → Response (Option (ℤ × Text))
  optional_user none cx = ok none
  optional_user (some credentials) cx =
      elim (Tokens.verify sv.codec credentials user_audience (seconds cx)) [
        | Tokens.ok claims ↦ ok (some (claims.user_id, claims.token_id))
        | Tokens.err Tokens.not_ascii ↦ error 500
        | Tokens.err Tokens.too_nested ↦ error 500
        | Tokens.err _ ↦ ok none
      ]
