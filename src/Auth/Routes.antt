-- ===== src/Auth/Routes.antt =====
-- services/auth/routes.py
pub mod Rotation
pub mod Calls
pub mod Refresh
pub mod Login
pub mod Session
pub mod Race
use food_flow.Prelude.{ℕ, ◌+◌, String, Bool, true, false, Option, none, some, ltb, if◌then◌else◌}
use food_flow.Shared.Uuid.{Uuid, IdText, str}
use food_flow.Shared.Error.{Result, ok, err, http}
use food_flow.Shared.Table.{is_some}
use food_flow.Shared.Transaction.{
  Tx, Done, pure, raise, lift, gets, modify, raise_if, transaction, ◌>>=◌, ◌>>◌,
}
use food_flow.Auth.Crypto.{
  Crypto, hash_password, verify_password, create_access_token, hash_refresh_token, refresh_lifetime,
}
use food_flow.Auth.Db.{
  User, RefreshToken, Db, find_user, find_token, insert_user, insert_token, delete_token,
}

-- RegisterRequest and LoginRequest; the email has been validated.
pub record Credentials : Type 0 where
  pub email : String
  pub password : String

pub record UserResponse : Type 0 where
  pub id : IdText
  pub email : String
  pub created_at : ℕ

pub record AuthResponse : Type 0 where
  pub access_token : String
  pub refresh_token : String

pub record RegisterDraw : Type 0 where
  pub salt : ℕ
  pub user_uuid : Uuid
  pub now : ℕ

-- What issuing tokens draws: the clock, twice for the access token and once for the row, the random
-- text, the row's id and NOW().
pub record TokenDraw : Type 0 where
  pub exp_clock : ℕ
  pub iat_clock : ℕ
  pub random_text : String
  pub token_uuid : Uuid
  pub row_clock : ℕ
  pub now : ℕ

unfoldable pub register : Crypto → RegisterDraw → Credentials → Tx Db UserResponse
register c d body = do
  password_hash ← lift (hash_password c d.salt body.password)
  existing ← gets (λ (db : Db). find_user body.email db.users)
  raise_if (is_some existing) (http 409)
  insert_user d.user_uuid
      (record { email = body.email; password_hash = password_hash; created_at = d.now })
  pure (record { id = str d.user_uuid; email = body.email; created_at = d.now })

-- not row or not verify_password(…)
abbrev pub check_password : Crypto → String → Option (Uuid × User) → Result (Uuid × User)
check_password c password none = err (http 401)
check_password c password (some (i, u)) = elim (verify_password c password u.password_hash) [
  | err e ↦ err e
  | ok good ↦ if good then ok (i, u) else err (http 401)
]

abbrev pub token_row : Crypto → TokenDraw → Uuid → RefreshToken
token_row c d user_id = record {
  user_id = user_id;
  token_hash = hash_refresh_token c d.random_text;
  expires_at = d.row_clock + refresh_lifetime;
  created_at = d.now;
}

-- The pair of tokens that is answered.
abbrev pub tokens : Crypto → TokenDraw → Uuid → User → AuthResponse
tokens c d user_id u = record {
  access_token = create_access_token c d.exp_clock d.iat_clock user_id u.email;
  refresh_token = d.random_text;
}

unfoldable pub login : Crypto → TokenDraw → Credentials → Tx Db AuthResponse
login c d body = do
  row ← gets (λ (db : Db). find_user body.email db.users)
  found ← lift (check_password c body.password row)
  insert_token d.token_uuid (token_row c d found.0)
  pure (tokens c d found.0 found.1)

-- By the row that was selected, at the time `clock` of the test.
unfoldable pub rotate :
    Crypto → ℕ → TokenDraw → Option (Uuid × RefreshToken × User) → Tx Db AuthResponse
rotate c clock d none = raise (http 401)
rotate c clock d (some (i, t, u)) =
    if ltb t.expires_at clock
    then delete_token i >> raise (http 401)
    else delete_token i
      >> insert_token d.token_uuid (token_row c d t.user_id)
      >> pure (tokens c d t.user_id u)

unfoldable pub refresh : Crypto → ℕ → TokenDraw → String → Tx Db AuthResponse
refresh c clock d refresh_token = transaction (do
  row ←
      gets (λ (db : Db). find_token (hash_refresh_token c refresh_token) db.users db.refresh_tokens)
  rotate c clock d row)
