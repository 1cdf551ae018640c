-- ===== src/Database/Accounts/Tests.antt =====
-- The account tables with two accounts, a search of each, and a revoked token.
use pgs_search_engine.Base.{ℕ, ◌≡◌, refl, true, false, none, [], ◌∷◌, arith, ◌==◌, nat_eq, keep}
use pgs_search_engine.Base.Text.{Text, text_eq, codes}
use pgs_search_engine.Base.Distinct.{has_key}
use pgs_search_engine.Database.Accounts.{User, HistoryRow, Accounts, delete_user}
use pgs_search_engine.Database.Accounts.Validity.{create, purge, run, IsValid, run-IsValid}
use pgs_search_engine.Database.Accounts.Erasure.{
  revoked_until, revoked_until-run, delete_user_forgets,
}

abbrev same : Text → Text
same s = s

abbrev user_with : ℕ → Text → User
user_with id email = record {
  id = id;
  email = email;
  password_hash = codes "h";
  display_name = none;
  is_active = true;
  save_history = true;
  last_login_at = none;
}

abbrev row_of : ℕ → ℕ → HistoryRow
row_of id user_id = record {
  id = id;
  user_id = user_id;
  query_text = codes "q";
  filters = none;
  result_count = 3;
}

abbrev two_users : Accounts
two_users = record {
  users = user_with 1 (codes "a@x") ∷ user_with 2 (codes "b@x") ∷ [];
  history = row_of 1 1 ∷ row_of 2 2 ∷ [];
  revoked = record { jti = codes "old"; expires_at = 500 } ∷ [];
  next_user = 3;
  next_item = 3;
}

two_users-IsValid : IsValid two_users
two_users-IsValid = record {
  users_below = (omega arith, (omega arith, tt));
  ids_once = refl;
  emails_once = refl;
  items_below = (omega arith, (omega arith, tt));
  items_once = refl;
  owned = (refl, (refl, tt));
  tokens_once = refl;
}

run-IsValid_example : IsValid (run same (create (codes "c@x") (codes "h") none) two_users)
run-IsValid_example =
    run-IsValid same (create (codes "c@x") (codes "h") none) two_users two_users-IsValid

revoked_until-run_example : revoked_until 400 (codes "old") (run same (purge 300) two_users) ≡ true
revoked_until-run_example =
    revoked_until-run same 400 (codes "old") (purge 300) two_users (omega arith) refl

delete_user_forgets_example :
    let after = (delete_user 1 two_users).1 in
    (has_key (λ (u : User). u.id) 1 after.users ≡ false)
    × (has_key (λ (h : HistoryRow). h.user_id) 1 after.history ≡ false)
    × (has_key (λ (u : User). u.id) 2 after.users ≡ has_key (λ (u : User). u.id) 2 two_users.users)
    × (keep (λ h. h.user_id == 2) after.history ≡ keep (λ h. h.user_id == 2) two_users.history)
delete_user_forgets_example = delete_user_forgets 1 2 two_users (λ e. absurd (omega arith))
