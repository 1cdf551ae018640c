-- ===== src/Database/Accounts/Erasure.antt =====
-- database/src/pgs_db/repositories/accounts.py: revoked tokens, deleted accounts, and the pages of a
-- user's history.
use pgs_search_engine.Base.{
  ◌⊎◌, ℕ, ◌+◌, ◌≤◌, ◌≡◌, refl, ◌≢◌, inl, inr, Bool, true, false, not, ◌&&◌, Option, List, [], ◌∷◌,
  ◌++◌, arith, ltb, leb, if◌then◌else◌, if_ind, Bool-cases, ◌==◌, nat_eq, beq-ne, length, keep, any,
  length-append, any_mono,
}
use pgs_search_engine.Base.Text.{Text, text_eq, is_blank}
use pgs_search_engine.Base.Distinct.{has_key, has_key-keep_ne, has_key-keep_self}
use pgs_search_engine.Database.Accounts.{
  User, HistoryRow, RevokedToken, Accounts, update_user, create_user, record_login,
  set_password_hash, set_save_history, delete_user, is_token_revoked, may_record, record_search,
  delete_history_item, clear_history, revoke_token, purge_revoked,
}
use pgs_search_engine.Database.Accounts.Validity.{
  Call, create, login, new_hash, save_history, delete, search, delete_item, clear_all, revoke,
  purge, or_same, run,
}

-- A row says that the token is revoked, and no purge up to `moment` removes it.
abbrev pub revoked_until : ℕ → Text → Accounts → Bool
revoked_until moment token_id db =
    any (λ r. r.jti == token_id && leb moment r.expires_at) db.revoked

-- The purges of a call are no later than `moment`.
abbrev pub PurgesBy : ℕ → Call → Type 0
PurgesBy moment (purge at) = at ≤ moment
PurgesBy moment _ = Unit

update_user_revoked :
    (db : Accounts) (user_id : ℕ) (f : User → User)
    → (or_same db (update_user user_id f db)).revoked ≡ db.revoked
update_user_revoked db user_id f = ground arith

any-append-left {ℓ} :
    {A : Type ℓ} (p : A → Bool) (xs ys : List A) → any p xs ≡ true → any p (xs ++ ys) ≡ true
any-append-left p [] ys h = cc
any-append-left p (x ∷ xs) ys h = ground (arith, any-append-left p xs ys)

purged_stays :
    (moment at : ℕ) (token_id : Text) (rows : List RevokedToken)
    → at ≤ moment
    → any (λ r. r.jti == token_id && leb moment r.expires_at) rows ≡ true
    → any
        (λ r. r.jti == token_id && leb moment r.expires_at)
        (keep (λ r. not (ltb r.expires_at at)) rows)
      ≡ true
purged_stays moment at token_id [] le h = cc
purged_stays moment at token_id (r ∷ rows) le h = elim (Bool-cases (ltb r.expires_at at)) [
  | inl old ↦ rw (old, keep) (purged_stays moment at token_id rows le (ground arith))
  | inr young ↦ rw (young, keep) (ground (arith, purged_stays moment at token_id rows le))
]

-- A token that was revoked until its expiry stays revoked under every write, purges up to that
-- time included.
pub revoked_until-run :
    (lower : Text → Text) (moment : ℕ) (token_id : Text) (call : Call) (db : Accounts)
    → PurgesBy moment call
    → revoked_until moment token_id db ≡ true
    → revoked_until moment token_id (run lower call db) ≡ true
unfolding run record_login set_password_hash set_save_history delete_user record_search
    delete_history_item clear_history revoke_token purge_revoked create_user
revoked_until-run lower moment token_id (create email hash name) db by h = ground arith
revoked_until-run lower moment token_id (login user_id now) db by h = ground arith
revoked_until-run lower moment token_id (new_hash user_id hash) db by h = ground arith
revoked_until-run lower moment token_id (save_history user_id enabled) db by h = ground arith
revoked_until-run lower moment token_id (delete user_id) db by h = h
revoked_until-run lower moment token_id (search user_id query count filters token) db by h =
    ground arith
revoked_until-run lower moment token_id (delete_item user_id item_id) db by h = h
revoked_until-run lower moment token_id (clear_all user_id) db by h = h
revoked_until-run lower moment token_id (revoke other expires_at) db by h =
    if_ind (λ r. revoked_until moment token_id r ≡ true) (is_token_revoked other db) (λ _. h)
      λ _. any-append-left (λ r. r.jti == token_id && leb moment r.expires_at) db.revoked _ h
revoked_until-run lower moment token_id (purge at) db by h =
    purged_stays moment at token_id db.revoked by h

-- And such a token is refused.
pub revoked_until-refused :
    (moment : ℕ) (token_id : Text) (db : Accounts)
    → revoked_until moment token_id db ≡ true
    → is_token_revoked token_id db ≡ true
unfolding is_token_revoked
revoked_until-refused moment token_id db h =
    any_mono (λ r. r.jti == token_id && leb moment r.expires_at) (λ r. r.jti == token_id)
      (λ r k. ground arith) db.revoked h

of_other_user :
    (d other : ℕ) (rows : List HistoryRow)
    → other ≢ d
    → keep (λ h. h.user_id == other) (keep (λ h. not (h.user_id == d)) rows)
      ≡ keep (λ h. h.user_id == other) rows
of_other_user d other [] ne = refl
of_other_user d other (r ∷ rows) ne = ground (arith, of_other_user d other rows ne)

-- Deleting an account removes its row and its whole history, and no other account or history row.
pub delete_user_forgets :
    (d other : ℕ) (db : Accounts)
    → other ≢ d
    → let after = (delete_user d db).1 in
      (has_key (λ (u : User). u.id) d after.users ≡ false)
      × (has_key (λ (h : HistoryRow). h.user_id) d after.history ≡ false)
      × (has_key (λ (u : User). u.id) other after.users
          ≡ has_key (λ (u : User). u.id) other db.users)
      × (keep (λ h. h.user_id == other) after.history ≡ keep (λ h. h.user_id == other) db.history)
unfolding delete_user
delete_user_forgets d other db ne = (
  has_key-keep_self (λ (u : User). u.id) d db.users,
  has_key-keep_self (λ (h : HistoryRow). h.user_id) d db.history,
  has_key-keep_ne (λ (u : User). u.id) d other db.users (beq-ne other d ne),
  of_other_user d other db.history ne,
)

-- A search is recorded, as one more history row, exactly if its text is not blank, the account is
-- active and saves its history, and the token has not been signed out; otherwise nothing changes.
pub record_search_lem :
    (user_id : ℕ) (query : Text) (count : ℕ) (filters token : Option Text) (db : Accounts)
    → let (written, after) = record_search user_id query count filters token db in
      (written ≡ (not (is_blank query) && may_record user_id token db))
      × (length after.history ≡ length db.history + (if written then 1 else 0))
      × (after.users ≡ db.users)
      × ((written ≡ true) ⊎ (after ≡ db))
unfolding record_search
record_search_lem user_id query count filters token db =
    let row : HistoryRow = record {
      id = db.next_item;
      user_id = user_id;
      query_text = query;
      filters = filters;
      result_count = count;
    } in
    (
      ground arith,
      ground (arith, length-append db.history (row ∷ [])),
      ground arith,
      elim (Bool-cases (record_search user_id query count filters token db).0) [
        | inl wrote ↦ inl wrote
        | inr not_written ↦ inr (ground arith)
      ],
    )
