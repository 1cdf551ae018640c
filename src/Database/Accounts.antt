-- ===== src/Database/Accounts.antt =====
-- `AccountsRepository` of database/src/pgs_db/repositories/accounts.py: public-site accounts, their
-- search history and the revoked tokens. A session's tables are lists of rows in order of id; the
-- ids come from a sequence. Times are microseconds. `str.lower` is a parameter of the methods that
-- call it. The rows of `login_failures` are those of Api/Throttle.
pub mod Validity
pub mod Erasure
mod Tests
use pgs_search_engine.Base.{
  ℕ, ◌+◌, Bool, true, false, not, ◌&&◌, ◌||◌, Option, none, some, List, [], ◌∷◌, ◌++◌, ltb,
  if◌then◌else◌, ◌==◌, nat_eq, take, keep, any, elem, find, update_if, count_if,
}
use pgs_search_engine.Base.Text.{Text, text_eq, is_empty, strip, is_blank}
use mathlib.Core.List.{reverse}

pub record User : Type 0 where
  pub id : ℕ
  pub email : Text
  pub password_hash : Text
  pub display_name : Option Text
  pub is_active : Bool
  pub save_history : Bool
  pub last_login_at : Option ℕ

pub record HistoryRow : Type 0 where
  pub id : ℕ
  pub user_id : ℕ
  pub query_text : Text
  pub filters : Option Text
  pub result_count : ℕ

pub record RevokedToken : Type 0 where
  pub jti : Text
  pub expires_at : ℕ

pub record Accounts : Type 0 where
  pub users : List User
  pub history : List HistoryRow
  pub revoked : List RevokedToken
  pub next_user : ℕ
  pub next_item : ℕ

-- The exceptions: `ValueError`, `LookupError` and `IntegrityError`.
pub data Failure : Type 0 where
  value_error lookup_error integrity_error : Failure

pub data Result (A : Type 0) : Type 0 where
  ok : A → Result A
  err : Failure → Result A

-- The CHECK `position('@' in email) > 1`.
abbrev pub has_at : Text → Bool
has_at [] = false
has_at (c ∷ s) = not (c == b'@') && elem b'@' s

module _ (lower : Text → Text) where
  unfoldable pub normalize_email : Text → Text
  normalize_email email = lower (strip email)

  -- `(display_name or "").strip() or None`
  abbrev pub clean_name : Option Text → Option Text
  clean_name none = none
  clean_name (some name) = if is_empty (strip name) then none else some (strip name)

  unfoldable pub create_user : Text → Text → Option Text → Accounts → Result (User × Accounts)
  unfolding normalize_email
  create_user email password_hash display_name db =
      let address = normalize_email email in
      let user : User = record {
        id = db.next_user;
        email = address;
        password_hash = password_hash;
        display_name = clean_name display_name;
        is_active = true;
        save_history = true;
        last_login_at = none;
      } in
      if is_empty password_hash
      then err value_error
      else if any (λ u. u.email == address) db.users || not (has_at address)
      then err integrity_error
      else ok (user, record db { users = db.users ++ user ∷ []; next_user = db.next_user + 1 })

  unfoldable pub get_user_by_email : Text → Bool → Accounts → Option User
  unfolding normalize_email
  get_user_by_email email active_only db =
      find (λ u. u.email == normalize_email email && (not active_only || u.is_active)) db.users

-- `session.get(User, user_id)`
abbrev pub user_row : ℕ → Accounts → Option User
user_row user_id db = find (λ u. u.id == user_id) db.users

unfoldable pub get_user : ℕ → Bool → Accounts → Option User
get_user user_id active_only db = elim (user_row user_id db) [
  | none ↦ none
  | some user ↦ if active_only && not user.is_active then none else some user
]

-- `_require(user_id)`, followed by a write to the row that was found.
abbrev pub update_user : ℕ → (User → User) → Accounts → Result Accounts
update_user user_id change db = elim (user_row user_id db) [
  | none ↦ err lookup_error
  | some _ ↦ ok (record db { users = update_if (λ u. u.id == user_id) change db.users })
]

unfoldable pub record_login : ℕ → ℕ → Accounts → Result Accounts
record_login user_id now db = update_user user_id (λ u. record u { last_login_at = some now }) db

unfoldable pub set_password_hash : ℕ → Text → Accounts → Result Accounts
set_password_hash user_id password_hash db =
    if is_empty password_hash
    then err value_error
    else update_user user_id (λ u. record u { password_hash = password_hash }) db

unfoldable pub set_save_history : ℕ → Bool → Accounts → Result Accounts
set_save_history user_id enabled db =
    update_user user_id (λ u. record u { save_history = enabled }) db

-- The account and, by the foreign key's cascade, its history; whether there was one.
unfoldable pub delete_user : ℕ → Accounts → Bool × Accounts
delete_user user_id db = (
  any (λ u. u.id == user_id) db.users,
  record db {
    users = keep (λ u. not (u.id == user_id)) db.users;
    history = keep (λ h. not (h.user_id == user_id)) db.history;
  },
)

unfoldable pub is_token_revoked : Text → Accounts → Bool
is_token_revoked token_id db = any (λ r. r.jti == token_id) db.revoked

-- The `WHERE` of the insert: the account is active, saves history, and the token still holds.
abbrev pub may_record : ℕ → Option Text → Accounts → Bool
may_record user_id token_id db =
    any (λ u. u.id == user_id && u.is_active && u.save_history) db.users
    && elim token_id [ none ↦ true | some jti ↦ not (any (λ r. r.jti == jti) db.revoked) ]

unfoldable pub record_search : ℕ → Text → ℕ → Option Text → Option Text → Accounts → Bool × Accounts
record_search user_id query_text result_count filters token_id db =
    if is_blank query_text
    then (false, db)
    else if may_record user_id token_id db
    then (
      true,
      record db {
        history =
            db.history
            ++ record {
              id = db.next_item;
              user_id = user_id;
              query_text = query_text;
              filters = filters;
              result_count = result_count;
            }
              ∷ [];
        next_item = db.next_item + 1;
      },
    )
    else (false, db)

-- Newest first: the rows stand in order of id, so they are read from the back.
unfoldable pub list_history : ℕ → ℕ → Option ℕ → Accounts → List HistoryRow
list_history user_id limit before_id db = take limit (
    reverse (
      keep
        (λ h. h.user_id == user_id && elim before_id [ none ↦ true | some bound ↦ ltb h.id bound ])
        db.history))

unfoldable pub delete_history_item : ℕ → ℕ → Accounts → Bool × Accounts
delete_history_item user_id item_id db = (
  any (λ h. h.id == item_id && h.user_id == user_id) db.history,
  record db { history = keep (λ h. not (h.id == item_id && h.user_id == user_id)) db.history },
)

unfoldable pub clear_history : ℕ → Accounts → ℕ × Accounts
clear_history user_id db = (
  count_if (λ h. h.user_id == user_id) db.history,
  record db { history = keep (λ h. not (h.user_id == user_id)) db.history },
)

-- `ON CONFLICT DO NOTHING` on the token id.
unfoldable pub revoke_token : Text → ℕ → Accounts → Accounts
unfolding is_token_revoked
revoke_token token_id expires_at db = if is_token_revoked token_id db then db else record db {
  revoked = db.revoked ++ record { jti = token_id; expires_at = expires_at } ∷ [];
}

-- The revoked tokens' part of `purge_auth_bookkeeping`, with how many rows went.
unfoldable pub purge_revoked : ℕ → Accounts → ℕ × Accounts
purge_revoked moment db = (
  count_if (λ r. ltb r.expires_at moment) db.revoked,
  record db { revoked = keep (λ r. not (ltb r.expires_at moment)) db.revoked },
)
