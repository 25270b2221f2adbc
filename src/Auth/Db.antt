-- ===== src/Auth/Db.antt =====
-- auth_db (services/auth/migrations/001_init.sql).
use food_flow.Prelude.{ℕ, String, Bool, Option, none, some, [], ◌∷◌, leb, if◌then◌else◌, not}
use food_flow.Shared.Uuid.{Uuid}
use food_flow.Shared.Text.{text_length, same_text}
use food_flow.Shared.Error.{
  value_too_long, unique_violation, users_pkey, users_email_key, refresh_tokens_pkey,
}
use food_flow.Shared.Table.{Table, lookup, delete_row, is_some}
use food_flow.Shared.Transaction.{Tx, Done, gets, modify, raise_if, ◌>>=◌, ◌>>◌}

pub record User : Type 0 where
  pub email : String
  pub password_hash : String
  pub created_at : ℕ

pub record RefreshToken : Type 0 where
  pub user_id : Uuid
  pub token_hash : String
  pub expires_at : ℕ
  pub created_at : ℕ

pub record Db : Type 0 where
  pub users : Table User
  pub refresh_tokens : Table RefreshToken

-- SELECT … FROM users WHERE email = $1
unfoldable pub find_user : String → Table User → Option (Uuid × User)
find_user email [] = none
find_user email ((i, u) ∷ rows) =
    if same_text u.email email then some (i, u) else find_user email rows

-- SELECT … FROM refresh_tokens rt JOIN users u ON u.id = rt.user_id WHERE rt.token_hash = $1: the id of
-- the first such row, the row, and its user.
unfoldable pub find_token :
    String → Table User → Table RefreshToken → Option (Uuid × RefreshToken × User)
find_token hash users [] = none
find_token hash users ((i, t) ∷ rows) =
    let rest = find_token hash users rows in
    if same_text t.token_hash hash
    then elim (lookup t.user_id users) [ none ↦ rest | some u ↦ some (i, t, u) ]
    else rest

abbrev pub fits_varchar : ℕ → String → Bool
fits_varchar n s = leb (text_length s) n

-- INSERT INTO users
unfoldable pub insert_user : Uuid → User → Tx Db Done
insert_user user_id u = do
  raise_if (not (fits_varchar 255 u.email)) value_too_long
  raise_if (not (fits_varchar 255 u.password_hash)) value_too_long
  taken ← gets (λ (db : Db). is_some (lookup user_id db.users))
  raise_if taken (unique_violation users_pkey)
  clash ← gets (λ (db : Db). is_some (find_user u.email db.users))
  raise_if clash (unique_violation users_email_key)
  modify (λ (db : Db). record db { users = (user_id, u) ∷ db.users })

-- INSERT INTO refresh_tokens, for a user that was selected before; users are never deleted.
unfoldable pub insert_token : Uuid → RefreshToken → Tx Db Done
insert_token token_id t = do
  raise_if (not (fits_varchar 255 t.token_hash)) value_too_long
  taken ← gets (λ (db : Db). is_some (lookup token_id db.refresh_tokens))
  raise_if taken (unique_violation refresh_tokens_pkey)
  modify (λ (db : Db). record db { refresh_tokens = (token_id, t) ∷ db.refresh_tokens })

-- DELETE FROM refresh_tokens WHERE id = $1
unfoldable pub delete_token : Uuid → Tx Db Done
delete_token token_id =
    modify (λ (db : Db). record db { refresh_tokens = delete_row token_id db.refresh_tokens })
