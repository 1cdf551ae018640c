-- ===== src/Api/Account/Tests.antt =====
-- The account handlers at a small site: one account, whose password is `pw`.
use pgs_search_engine.Api.Account.Access.{logout_ends_session, delete_account_closes}
use pgs_search_engine.Api.Account.Login.{
  Try, count_unauthorized, issued_for, Wrong, try_passwords, wait_of, login_locked_out, login_sound,
}
use pgs_search_engine.Base.Text.{strip, Text, text_eq, codes}
use pgs_search_engine.Api.Account.Decimal.{decimal}
use pgs_search_engine.Base.{
  ℕ, ◌≡◌, refl, ◌≢◌, true, false, none, some, List, [], ◌∷◌, arith, if◌then◌else◌, ◌==◌, nat_eq,
}
use pgs_search_engine.Api.Account.Session.{
  user_identity, AuthResponse, login, logout, delete_account,
}
use pgs_search_engine.Api.Throttle.{retry_after, record_failure}
use pgs_search_engine.Api.Throttle.Lock.{ip_count}
use pgs_search_engine.Api.Base64.{b64encode, b64decode}
use pgs_search_engine.Base.Distinct.{has_key}
use pgs_search_engine.Base.Int.{pos}
use pgs_search_engine.Database.Accounts
use pgs_search_engine.Database.Accounts.{User, HistoryRow, Accounts}
use pgs_search_engine.Api.Tokens.{Codec, Object, object, bad_json, header, is_header}
use pgs_search_engine.Api.Tokens
use pgs_search_engine.Api.Account.{ok, error, UserPrincipal, Services, Site, Context, current_user}

abbrev same : Text → Text
same s = s

abbrev sample_claims : Object
sample_claims =
    (codes "iss", Tokens.text (codes "pgs-api"))
    ∷ (codes "aud", Tokens.text (codes "user"))
    ∷ (codes "jti", Tokens.text (codes "t"))
    ∷ (codes "sub", Tokens.text (codes "a@x"))
    ∷ (codes "uid", Tokens.int (pos 1))
    ∷ (codes "role", Tokens.text (codes "USER"))
    ∷ (codes "iat", Tokens.int (pos 100))
    ∷ (codes "exp", Tokens.int (pos 160))
    ∷ []

abbrev small_codec : Codec
small_codec = record {
  dumps = λ o. if is_header o then 1 ∷ [] else 2 ∷ [];
  loads = λ bytes.
      if bytes == 1 ∷ []
      then object header
      else if bytes == 2 ∷ []
      then object sample_claims
      else bad_json;
  sign = λ input. 7 ∷ [];
  ttl_seconds = 60;
}

abbrev services : Services
services = record {
  codec = small_codec;
  throttle = record { max_failures = 2; account_max_failures = 5; window = 900000000 };
  user_token_ttl_seconds = 60;
  casefold = same;
  lower = same;
  verify_password = λ hash password. hash == password;
  upgraded_hash = λ hash password. none;
  hash_password = same;
}

abbrev one_user : User
one_user = record {
  id = 1;
  email = codes "a@x";
  password_hash = codes "pw";
  display_name = none;
  is_active = true;
  save_history = true;
  last_login_at = none;
}

abbrev site : Site
site = record {
  accounts = record {
    users = one_user ∷ [];
    history = [];
    revoked = [];
    next_user = 2;
    next_item = 1;
  };
  failures = [];
}

abbrev context : Context
context = record {
  now = 120000000;
  ip = codes "10.0.0.1";
  new_token_id = codes "t";
  slot_free = true;
}

abbrev token : Text
token = codes "AQ.Ag.Bw"

abbrev principal : UserPrincipal
principal = record {
  user_id = 1;
  email = codes "a@x";
  display_name = none;
  save_history = true;
  token_id = codes "t";
  token_expires_at = pos 160;
}

no_guess : (guess : Text) → (codes "pw" == guess) ≡ false → Wrong services (codes "a@x") site guess
unfolding Accounts.get_user_by_email
no_guess guess wrong account found = ground arith

abbrev try_at : Text → ℕ → Try
try_at password now = record { password = password; cx = record context { now = now } }

-- Two guesses, a minute apart.
abbrev guesses : List Try
guesses = try_at (codes "p1") 60000000 ∷ try_at (codes "p2") 120000000 ∷ []

both_unauthorized : count_unauthorized services (codes "a@x") guesses site ≡ 2
unfolding count_unauthorized login retry_after record_failure Accounts.get_user_by_email strip
    decimal
both_unauthorized = refl

login_locked_out_example :
    let after = try_passwords services (codes "a@x") guesses site in
    login services (codes "a@x") (codes "pw") context after ≡ (error 429, after)
login_locked_out_example =
    login_locked_out services (codes "a@x") (codes "pw") guesses context site (omega arith)
      (omega arith)
      (
        (no_guess (codes "p1") refl, refl, omega arith),
        ((no_guess (codes "p2") refl, refl, omega arith), tt),
      )
      (omega (arith, both_unauthorized))

abbrev after_login : Site
after_login = (login services (codes "a@x") (codes "pw") context site).1

abbrev response : AuthResponse
response = record {
  access_token = token;
  expires_in = 60;
  user = record { email = codes "a@x"; display_name = none; save_history = true };
}

logged_in : login services (codes "a@x") (codes "pw") context site ≡ (ok response, after_login)
unfolding login retry_after Accounts.get_user_by_email strip Accounts.record_login Tokens.issue
    b64encode
logged_in = refl

login_sound_example :
    (account : User) × (Accounts.get_user_by_email same (codes "a@x") true site.accounts
      ≡ some account)
    × (account.is_active ≡ true)
    × ((account.email == Accounts.normalize_email same (codes "a@x")) ≡ true)
    × ((account.password_hash == codes "pw") ≡ true)
    × (wait_of services (codes "a@x") context site ≡ 0)
    × (issued_for services account context ≡ Tokens.ok response.access_token)
    × (ip_count same services.throttle
          (user_identity account.id)
          context.ip
          120000001
          after_login.failures
        ≡ 0)
login_sound_example =
    login_sound services (codes "a@x") (codes "pw") context site after_login response 120000001
      logged_in

signed_in : current_user services (some token) context site ≡ ok principal
unfolding current_user Tokens.verify b64decode Tokens.sign_text Tokens.decode_object
    Tokens.read_claims Tokens.int_claim Tokens.str_claim Accounts.is_token_revoked Accounts.get_user
signed_in = refl

logout_ends_session_example :
    current_user services (some token) context (logout principal site).1 ≢ ok principal
logout_ends_session_example =
    logout_ends_session services token context context site principal principal signed_in

abbrev after_delete : Site
after_delete = (delete_account services (codes "pw") principal context site).1

deleted : delete_account services (codes "pw") principal context site ≡ (ok tt, after_delete)
unfolding delete_account retry_after Accounts.get_user
deleted = refl

delete_account_closes_example :
    (current_user services (some token) context after_delete ≢ ok principal)
    × (has_key (λ (u : User). u.id) 1 after_delete.accounts.users ≡ false)
    × (has_key (λ (h : HistoryRow). h.user_id) 1 after_delete.accounts.history ≡ false)
    × (Accounts.is_token_revoked (codes "t") after_delete.accounts ≡ true)
delete_account_closes_example =
    delete_account_closes services token (codes "pw") context context site after_delete principal
      principal deleted refl
