-- ===== src/Api/Account/Access.antt =====
-- The handlers logout and delete_account of api/src/pgs_api/routers/account.py, and tokens used after them.
use pgs_search_engine.Base.{
  ℕ, ◌≡◌, sym, ap, ◌∙◌, ◌≢◌, inl, inr, true, false, some, List, [], ◌∷◌, ◌++◌, arith, Bool-cases,
  Option-cases, ◌==◌, nat_eq, beq_self, any, find,
}
use pgs_search_engine.Base.Text.{Text, text_eq}
use pgs_search_engine.Api.Account.{
  ok, UserPrincipal, Services, Site, Context, user_audience, seconds, account_of, principal_of,
  current_user,
}
use pgs_search_engine.Api.Account.Session.{timestamp, logout, delete_account}
use pgs_search_engine.Api.Tokens.Outcomes.{verify_same}
use pgs_search_engine.Base.Distinct.{has_key, has_key-keep_self}
use pgs_search_engine.Database.Accounts
use pgs_search_engine.Database.Accounts.{User, HistoryRow, Accounts, user_row}
use pgs_search_engine.Base.Int.{ℤ, pos, negsuc}
use pgs_search_engine.Api.Tokens.{TokenClaims, Codec, Result-cases}
use pgs_search_engine.Api.Tokens

revoked_now :
    (token_id : Text) (expires_at : ℕ) (db : Accounts)
    → Accounts.is_token_revoked token_id (Accounts.revoke_token token_id expires_at db) ≡ true
unfolding Accounts.is_token_revoked Accounts.revoke_token
revoked_now token_id expires_at db = elim (Bool-cases (Accounts.is_token_revoked token_id db)) [
  | inl before ↦ ground arith
  | inr new ↦ ground (arith, any-last token_id expires_at db.revoked)
]
  where
    any-last :
        (t : Text) (at : ℕ) (rows : List Accounts.RevokedToken)
        → any (λ r. r.jti == t) (rows ++ record { jti = t; expires_at = at } ∷ []) ≡ true
    any-last t at [] = ground (arith, beq_self t)
    any-last t at (r ∷ rows) = ground (arith, any-last t at rows)

-- A principal is read from the claims of the token.
current_user_claims :
    (sv : Services) (credentials : Text) (cx : Context) (site : Site) (user : UserPrincipal)
    → current_user sv (some credentials) cx site ≡ ok user
    → (claims : TokenClaims) × (Tokens.verify sv.codec credentials user_audience (seconds cx)
        ≡ Tokens.ok claims)
      × (principal_of sv claims site ≡ ok user)
unfolding current_user
current_user_claims sv credentials cx site user e =
    elim (Result-cases (Tokens.verify sv.codec credentials user_audience (seconds cx))) [
      | inl (claims, accepted) ↦ (claims, accepted, ground arith)
      | inr (failure, refused) ↦ absurd (refused_no failure refused)
    ]
  where
    refused_no :
        (failure : Tokens.TokenFailure)
        → Tokens.verify sv.codec credentials user_audience (seconds cx) ≡ Tokens.err failure
        → ⊥
    refused_no Tokens.not_ascii r = ground arith
    refused_no Tokens.too_nested r = ground arith
    refused_no _ r = ground arith

account_has_key :
    (sv : Services) (uid : ℤ) (db : Accounts) (account : User)
    → account_of sv uid db ≡ some account
    → has_key (λ (u : User). u.id) account.id db.users ≡ true
unfolding Accounts.get_user
account_has_key sv (pos n) db account e = elim (Option-cases (user_row n db)) [
  | inl nobody ↦ absurd (ground arith)
  | inr (user, found) ↦ ground (arith, found_has_key n db.users user found)
]
  where
    found_has_key :
        (n : ℕ) (users : List User) (user : User)
        → find (λ u. u.id == n) users ≡ some user
        → has_key (λ (u : User). u.id) user.id users ≡ true
    found_has_key n [] user f = ground arith
    found_has_key n (u ∷ users) user f = ground (arith, found_has_key n users user)
account_has_key sv (negsuc n) db account e = absurd (ground arith)

principal_of_sound :
    (sv : Services) (claims : TokenClaims) (site : Site) (user : UserPrincipal)
    → principal_of sv claims site ≡ ok user
    → (user.token_id ≡ claims.token_id)
      × (Accounts.is_token_revoked user.token_id site.accounts ≡ false)
      × (has_key (λ (u : User). u.id) user.user_id site.accounts.users ≡ true)
unfolding principal_of
principal_of_sound sv claims site user e =
    elim (Option-cases (account_of sv claims.user_id site.accounts)) [
      | inl nobody ↦ absurd (ground arith)
      | inr (account, found) ↦
          let key = account_has_key sv claims.user_id site.accounts account found in
          (ground arith, ground arith, ground (arith, key))
    ]

-- In the state that a logout leaves, its token is refused, whatever the time.
pub logout_ends_session :
    (sv : Services) (credentials : Text) (now later : Context) (site : Site)
    (user again : UserPrincipal)
    → current_user sv (some credentials) now site ≡ ok user
    → current_user sv (some credentials) later (logout user site).1 ≢ ok again
unfolding logout
logout_ends_session sv credentials now later site user again e f =
    let (c, accepted, read) = current_user_claims sv credentials now site user e in
    let (d, accepted_again, read_again) =
      current_user_claims sv credentials later (logout user site).1 again f in
    let same =
      verify_same sv.codec credentials user_audience (seconds now) (seconds later) c d accepted
        accepted_again in
    let before = principal_of_sound sv c site user read in
    let after = principal_of_sound sv d (logout user site).1 again read_again in
    let gone = revoked_now user.token_id (timestamp user.token_expires_at) site.accounts in
    let one : again.token_id ≡ user.token_id =
      after.0 ∙ ap (λ x. x.token_id) (sym same) ∙ sym before.0 in
    ground (arith, gone, one, after)

revoke_token_rows :
    (token_id : Text) (expires_at : ℕ) (db : Accounts)
    → ((Accounts.revoke_token token_id expires_at db).users ≡ db.users)
      × ((Accounts.revoke_token token_id expires_at db).history ≡ db.history)
unfolding Accounts.revoke_token
revoke_token_rows token_id expires_at db = (ground arith, ground arith)

-- What a deletion that answers 204 has done.
delete_account_state :
    (sv : Services) (password : Text) (cx : Context) (site after : Site) (user : UserPrincipal)
    → delete_account sv password user cx site ≡ (ok tt, after)
    → after.accounts
      ≡ Accounts.revoke_token user.token_id
          (timestamp user.token_expires_at)
          (Accounts.delete_user user.user_id site.accounts).1
unfolding delete_account
delete_account_state sv password cx site after user e =
    elim (Option-cases (Accounts.get_user user.user_id true site.accounts)) [
      | inl nobody ↦ absurd (ground arith)
      | inr (account, found) ↦ ground arith
    ]

-- An account that was deleted is gone with its history, and no token of it opens anything any more,
-- at any time.
pub delete_account_closes :
    (sv : Services) (credentials password : Text) (now later : Context) (site after : Site)
    (user again : UserPrincipal)
    → delete_account sv password user now site ≡ (ok tt, after)
    → again.user_id ≡ user.user_id
    → (current_user sv (some credentials) later after ≢ ok again)
      × (has_key (λ (u : User). u.id) user.user_id after.accounts.users ≡ false)
      × (has_key (λ (h : HistoryRow). h.user_id) user.user_id after.accounts.history ≡ false)
      × (Accounts.is_token_revoked user.token_id after.accounts ≡ true)
unfolding Accounts.delete_user
delete_account_closes sv credentials password now later site after user again e same =
    let state = delete_account_state sv password now site after user e in
    let deleted = (Accounts.delete_user user.user_id site.accounts).1 in
    let expires_at = timestamp user.token_expires_at in
    let rows = revoke_token_rows user.token_id expires_at deleted in
    let no_user = has_key-keep_self (λ (u : User). u.id) user.user_id site.accounts.users in
    let no_rows =
      has_key-keep_self (λ (h : HistoryRow). h.user_id) user.user_id site.accounts.history in
    let gone : has_key (λ (u : User). u.id) user.user_id after.accounts.users ≡ false =
      ap (λ (db : Accounts). has_key (λ (u : User). u.id) user.user_id db.users) state
      ∙ ap (has_key (λ (u : User). u.id) user.user_id) rows.0
      ∙ no_user in
    (
      λ f.
          let (c, accepted, read) = current_user_claims sv credentials later after again f in
          let sound = principal_of_sound sv c after again read in ground (arith, gone, sound, same),
      gone,
      ap (λ (db : Accounts). has_key (λ (h : HistoryRow). h.user_id) user.user_id db.history) state
          ∙ ap (has_key (λ (h : HistoryRow). h.user_id) user.user_id) rows.1
          ∙ no_rows,
      ap (Accounts.is_token_revoked user.token_id) state
          ∙ revoked_now user.token_id expires_at deleted,
    )
