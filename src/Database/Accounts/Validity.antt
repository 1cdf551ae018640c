-- ===== src/Database/Accounts/Validity.antt =====
-- The integrity of the account tables under every write.
use pgs_search_engine.Base.{
  any_mono, All-append, if_ind, All-update_if, ℕ, ◌+◌, ◌<◌, ◌≡◌, refl, ap, ◌∙◌, inl, inr, Bool,
  true, false, not, ◌&&◌, ◌||◌, Option, some, List, [], ◌∷◌, ◌++◌, arith, ltb, Bool-cases,
  Option-cases, ◌==◌, nat_eq, keep, any, All, All-keep, All-map,
}
use pgs_search_engine.Base.Distinct.{
  has_key-keep_ne, has_key, once, has_key-append, once-append_new, once-keep, has_key-update_if,
  once-update_if,
}
use pgs_search_engine.Base.Text.{Text, text_eq, is_empty, is_blank}
use pgs_search_engine.Database.Accounts.{
  User, HistoryRow, RevokedToken, Accounts, Result, ok, err, has_at, normalize_email, create_user,
  user_row, update_user, record_login, set_password_hash, set_save_history, delete_user,
  is_token_revoked, may_record, record_search, delete_history_item, clear_history, revoke_token,
  purge_revoked,
}

-- The writes of the repository, as calls with their arguments.
pub data Call : Type 0 where
  create : Text → Text → Option Text → Call
  login : ℕ → ℕ → Call
  new_hash : ℕ → Text → Call
  save_history : ℕ → Bool → Call
  delete : ℕ → Call
  search : ℕ → Text → ℕ → Option Text → Option Text → Call
  delete_item : ℕ → ℕ → Call
  clear_all : ℕ → Call
  revoke : Text → ℕ → Call
  purge : ℕ → Call

-- A raised exception rolls the transaction back.
abbrev pub or_same : Accounts → Result Accounts → Accounts
or_same db (ok after) = after
or_same db (err _) = db

abbrev pub or_same_pair : Accounts → Result (User × Accounts) → Accounts
or_same_pair db (ok (_, after)) = after
or_same_pair db (err _) = db

module _ (lower : Text → Text) where
  unfoldable pub run : Call → Accounts → Accounts
  run (create email hash name) db = or_same_pair db (create_user lower email hash name db)
  run (login user_id now) db = or_same db (record_login user_id now db)
  run (new_hash user_id hash) db = or_same db (set_password_hash user_id hash db)
  run (save_history user_id enabled) db = or_same db (set_save_history user_id enabled db)
  run (delete user_id) db = (delete_user user_id db).1
  run (search user_id query count filters token) db =
      (record_search user_id query count filters token db).1
  run (delete_item user_id item_id) db = (delete_history_item user_id item_id db).1
  run (clear_all user_id) db = (clear_history user_id db).1
  run (revoke token_id expires_at) db = revoke_token token_id expires_at db
  run (purge moment) db = (purge_revoked moment db).1

-- Ids, emails and token ids stand once, ids are below the sequences, and each history row belongs
-- to an account.
pub record IsValid (db : Accounts) : Type 0 where
  pub users_below : All (λ u. u.id < db.next_user) db.users
  pub ids_once : once (λ (u : User). u.id) db.users ≡ true
  pub emails_once : once (λ (u : User). u.email) db.users ≡ true
  pub items_below : All (λ h. h.id < db.next_item) db.history
  pub items_once : once (λ (h : HistoryRow). h.id) db.history ≡ true
  pub owned : All (λ h. has_key (λ (u : User). u.id) h.user_id db.users ≡ true) db.history
  pub tokens_once : once (λ (r : RevokedToken). r.jti) db.revoked ≡ true

module _ {A : Type 0} (id : A → ℕ) where
  -- An id that the sequence has not given yet is not in the table.
  fresh_id : (n : ℕ) (xs : List A) → All (λ x. id x < n) xs → has_key id n xs ≡ false
  fresh_id n [] h = refl
  fresh_id n (x ∷ xs) h = ground (arith, fresh_id n xs h.1)

  below_snoc :
      (n : ℕ) (xs : List A) (x : A)
      → All (λ y. id y < n) xs
      → id x ≡ n
      → All (λ y. id y < n + 1) (xs ++ x ∷ [])
  below_snoc n [] x h e = omega arith
  below_snoc n (y ∷ xs) x h e = (omega arith, below_snoc n xs x h.1 e)

user_update-IsValid :
    (db : Accounts) (user_id : ℕ) (f : User → User)
    → ((u : User) → (f u).id ≡ u.id)
    → ((u : User) → (f u).email ≡ u.email)
    → IsValid db
    → IsValid (or_same db (update_user user_id f db))
user_update-IsValid db user_id f ids emails v = elim (Option-cases (user_row user_id db)) [
  | inl nobody ↦ rw (nobody, update_user) v
  | inr (u, found) ↦
      rw (found, update_user)
        (record {
          users_below =
              All-update_if (λ u. u.id < db.next_user) (λ u. u.id == user_id) f
                (λ u h. omega (arith, ids u)) db.users v.users_below;
          ids_once =
              once-update_if (λ (u : User). u.id) (λ u. u.id == user_id) f ids db.users
              ∙ v.ids_once;
          emails_once =
              once-update_if (λ (u : User). u.email) (λ u. u.id == user_id) f emails db.users
              ∙ v.emails_once;
          items_below = v.items_below;
          items_once = v.items_once;
          owned =
              All-map
                (λ h o.
                  has_key-update_if (λ (u : User). u.id) (λ u. u.id == user_id) f ids h.user_id
                    db.users
                  ∙ o)
                db.history v.owned;
          tokens_once = v.tokens_once;
        })
]

abbrev Owner : List User → HistoryRow → Type 0
Owner users h = has_key (λ (u : User). u.id) h.user_id users ≡ true

-- The cascade leaves no row without its account.
owned-delete :
    (d : ℕ) (users : List User) (rows : List HistoryRow)
    → All (Owner users) rows
    → All (Owner (keep (λ u. not (u.id == d)) users)) (keep (λ h. not (h.user_id == d)) rows)
owned-delete d users [] h = tt
owned-delete d users (r ∷ rows) h = elim (Bool-cases (r.user_id == d)) [
  | inl mine ↦ rw (mine, keep) (owned-delete d users rows h.1)
  | inr other ↦
      rw (other, keep)
        (
          has_key-keep_ne (λ (u : User). u.id) d r.user_id users other ∙ h.0,
          owned-delete d users rows h.1,
        )
]

delete_user-IsValid : (d : ℕ) (db : Accounts) → IsValid db → IsValid (delete_user d db).1
unfolding delete_user
delete_user-IsValid d db v = record {
  users_below = All-keep (λ u. u.id < db.next_user) (λ u. not (u.id == d)) db.users v.users_below;
  ids_once = once-keep (λ (u : User). u.id) (λ u. not (u.id == d)) db.users v.ids_once;
  emails_once = once-keep (λ (u : User). u.email) (λ u. not (u.id == d)) db.users v.emails_once;
  items_below =
      All-keep (λ h. h.id < db.next_item) (λ h. not (h.user_id == d)) db.history v.items_below;
  items_once =
      once-keep (λ (h : HistoryRow). h.id) (λ h. not (h.user_id == d)) db.history v.items_once;
  owned = owned-delete d db.users db.history v.owned;
  tokens_once = v.tokens_once;
}

-- Deleting history rows only.
history_keep-IsValid :
    (p : HistoryRow → Bool) (db : Accounts)
    → IsValid db
    → IsValid (record db { history = keep p db.history })
history_keep-IsValid p db v = record {
  users_below = v.users_below;
  ids_once = v.ids_once;
  emails_once = v.emails_once;
  items_below = All-keep (λ h. h.id < db.next_item) p db.history v.items_below;
  items_once = once-keep (λ (h : HistoryRow). h.id) p db.history v.items_once;
  owned = All-keep (Owner db.users) p db.history v.owned;
  tokens_once = v.tokens_once;
}

add_user-IsValid :
    (db : Accounts) (user : User)
    → user.id ≡ db.next_user
    → any (λ u. u.email == user.email) db.users ≡ false
    → IsValid db
    → IsValid (record db { users = db.users ++ user ∷ []; next_user = db.next_user + 1 })
add_user-IsValid db user new free v =
    let unused = fresh_id (λ (u : User). u.id) db.next_user db.users v.users_below in
    record {
      users_below = below_snoc (λ (u : User). u.id) db.next_user db.users user v.users_below new;
      ids_once =
          once-append_new (λ (u : User). u.id) db.users user v.ids_once
            (ap (λ n. has_key (λ (u : User). u.id) n db.users) new ∙ unused);
      emails_once = once-append_new (λ (u : User). u.email) db.users user v.emails_once free;
      items_below = v.items_below;
      items_once = v.items_once;
      owned =
          All-map
            (λ h o.
              ground (arith, has_key-append (λ (u : User). u.id) h.user_id db.users (user ∷ []), o))
            db.history v.owned;
      tokens_once = v.tokens_once;
    }

create_user-IsValid :
    (lower : Text → Text) (email hash : Text) (name : Option Text) (db : Accounts)
    → IsValid db
    → IsValid (or_same_pair db (create_user lower email hash name db))
unfolding create_user
create_user-IsValid lower email hash name db v =
    let address = normalize_email lower email in
    if_ind (λ r. IsValid (or_same_pair db r)) (is_empty hash) (λ _. v)
      λ _.
        if_ind (λ r. IsValid (or_same_pair db r))
          (any (λ u. u.email == address) db.users || not (has_at address)) (λ _. v)
          (λ free. add_user-IsValid db _ refl (ground arith) v)

record_search-IsValid :
    (user_id : ℕ) (query : Text) (count : ℕ) (filters token : Option Text) (db : Accounts)
    → IsValid db
    → IsValid (record_search user_id query count filters token db).1
unfolding record_search
record_search-IsValid user_id query count filters token db v =
    if_ind {A = Bool × Accounts} (λ r. IsValid r.1) (is_blank query) (λ _. v)
      λ _.
        if_ind {A = Bool × Accounts} (λ r. IsValid r.1) (may_record user_id token db)
          (λ allowed. record {
            users_below = v.users_below;
            ids_once = v.ids_once;
            emails_once = v.emails_once;
            items_below =
                below_snoc (λ (h : HistoryRow). h.id) db.next_item db.history _ v.items_below refl;
            items_once =
                once-append_new (λ (h : HistoryRow). h.id) db.history _ v.items_once
                  (fresh_id (λ (h : HistoryRow). h.id) db.next_item db.history v.items_below);
            owned = All-append (Owner db.users) db.history _ v.owned (
              any_mono (λ u. u.id == user_id && u.is_active && u.save_history)
                  (λ u. u.id == user_id) (λ u h. ground arith) db.users (ground arith),
              tt,
            );
            tokens_once = v.tokens_once;
          })
          (λ _. v)

revoke_token-IsValid :
    (token_id : Text) (expires_at : ℕ) (db : Accounts)
    → IsValid db
    → IsValid (revoke_token token_id expires_at db)
unfolding revoke_token
revoke_token-IsValid token_id expires_at db v =
    if_ind IsValid (is_token_revoked token_id db) (λ _. v)
      λ new. record {
        users_below = v.users_below;
        ids_once = v.ids_once;
        emails_once = v.emails_once;
        items_below = v.items_below;
        items_once = v.items_once;
        owned = v.owned;
        tokens_once = once-append_new (λ (r : RevokedToken). r.jti) db.revoked _ v.tokens_once new;
      }

purge_revoked-IsValid :
    (moment : ℕ) (db : Accounts) → IsValid db → IsValid (purge_revoked moment db).1
unfolding purge_revoked
purge_revoked-IsValid moment db v = record {
  users_below = v.users_below;
  ids_once = v.ids_once;
  emails_once = v.emails_once;
  items_below = v.items_below;
  items_once = v.items_once;
  owned = v.owned;
  tokens_once =
      once-keep (λ (r : RevokedToken). r.jti) (λ r. not (ltb r.expires_at moment)) db.revoked
        v.tokens_once;
}

-- Every write of the repository, also one that raises, keeps the tables' integrity.
pub run-IsValid :
    (lower : Text → Text) (call : Call) (db : Accounts) → IsValid db → IsValid (run lower call db)
unfolding run record_login set_password_hash set_save_history delete_history_item clear_history
run-IsValid lower (create email hash name) db v = create_user-IsValid lower email hash name db v
run-IsValid lower (login user_id now) db v =
    user_update-IsValid db user_id (λ u. record u { last_login_at = some now }) (λ u. refl)
      (λ u. refl) v
run-IsValid lower (new_hash user_id hash) db v =
    if_ind (λ r. IsValid (or_same db r)) (is_empty hash) (λ _. v)
      λ _.
        user_update-IsValid db user_id (λ u. record u { password_hash = hash }) (λ u. refl)
          (λ u. refl) v
run-IsValid lower (save_history user_id enabled) db v =
    user_update-IsValid db user_id (λ u. record u { save_history = enabled }) (λ u. refl)
      (λ u. refl) v
run-IsValid lower (delete user_id) db v = delete_user-IsValid user_id db v
run-IsValid lower (search user_id query count filters token) db v =
    record_search-IsValid user_id query count filters token db v
run-IsValid lower (delete_item user_id item_id) db v =
    history_keep-IsValid (λ h. not (h.id == item_id && h.user_id == user_id)) db v
run-IsValid lower (clear_all user_id) db v =
    history_keep-IsValid (λ h. not (h.user_id == user_id)) db v
run-IsValid lower (revoke token_id expires_at) db v = revoke_token-IsValid token_id expires_at db v
run-IsValid lower (purge moment) db v = purge_revoked-IsValid moment db v
