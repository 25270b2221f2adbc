-- ===== src/Auth/Routes/Calls.antt =====
-- Calls of services/auth/routes.py one after another, and the hashes that refresh_tokens holds.
use food_flow.Prelude.{ℕ, String, ◌≡◌, refl, subst, sym, Bool, false, ◌||◌, [], ◌∷◌, arith, List}
use food_flow.Shared.Uuid.{Uuid}
use food_flow.Shared.Text.{same_text}
use food_flow.Shared.Error.{Result}
use food_flow.Shared.Table.{Table, delete_row}
use food_flow.Auth.Crypto.{Crypto, hash_refresh_token}
use food_flow.Auth.Db.{RefreshToken, Db, insert_token, insert_user}
use food_flow.Auth.Routes.{
  AuthResponse, TokenDraw, refresh, Credentials, RegisterDraw, register, login,
}
use food_flow.Auth.Routes.Rotation.{
  Refreshed, unknown_token, expired, refused, rotated, refresh-Refreshed,
}

abbrev pub has_hash : String → Table RefreshToken → Bool
has_hash hash [] = false
has_hash hash ((i, t) ∷ rows) = same_text t.token_hash hash || has_hash hash rows

-- A call of the service that writes, with its arguments and what it draws.
pub data AuthCall : Type 0 where
  registers : RegisterDraw → Credentials → AuthCall
  logs_in : TokenDraw → Credentials → AuthCall
  refreshes : ℕ → TokenDraw → String → AuthCall

-- The database after a call, whether it answers or raises.
unfoldable pub call_db : Crypto → AuthCall → Db → Db
call_db c (registers d body) db = (register c d body db).1
call_db c (logs_in d body) db = (login c d body db).1
call_db c (refreshes clock d token) db = (refresh c clock d token db).1

-- Calls none of which starts before the one before it has ended.
unfoldable pub run_calls : Crypto → List AuthCall → Db → Db
run_calls c [] db = db
run_calls c (x ∷ calls) db = run_calls c calls (call_db c x db)

-- A call that issues a token draws one with another hash.
abbrev pub DrawsOther : Crypto → String → AuthCall → Type 0
DrawsOther c hash (registers d body) = Unit
DrawsOther c hash (logs_in d body) = same_text (hash_refresh_token c d.random_text) hash ≡ false
DrawsOther c hash (refreshes clock d token) =
    same_text (hash_refresh_token c d.random_text) hash ≡ false

abbrev pub AllDrawOther : Crypto → String → List AuthCall → Type 0
AllDrawOther c hash [] = Unit
AllDrawOther c hash (x ∷ calls) = DrawsOther c hash x × AllDrawOther c hash calls

pub has_hash-delete_row :
    (hash : String) (i : Uuid) (rows : Table RefreshToken)
    → has_hash hash rows ≡ false
    → has_hash hash (delete_row i rows) ≡ false
unfolding delete_row
has_hash-delete_row hash i [] h = refl
has_hash-delete_row hash i ((j, t) ∷ rows) h = ground (arith, has_hash-delete_row hash i rows)

register_tokens :
    (c : Crypto) (d : RegisterDraw) (body : Credentials) (db : Db)
    → (register c d body db).1.refresh_tokens ≡ db.refresh_tokens
unfolding register insert_user
register_tokens c d body db = ground arith

login_tokens :
    (c : Crypto) (d : TokenDraw) (body : Credentials) (db : Db) (hash : String)
    → has_hash hash db.refresh_tokens ≡ false
    → same_text (hash_refresh_token c d.random_text) hash ≡ false
    → has_hash hash (login c d body db).1.refresh_tokens ≡ false
unfolding login insert_token
login_tokens c d body db hash h other = ground arith

rotated_tokens :
    {c : Crypto} {clock : ℕ} {d : TokenDraw} {token : String} {db : Db}
    {r : Result AuthResponse × Db} (hash : String)
    → Refreshed c clock d token db r
    → has_hash hash db.refresh_tokens ≡ false
    → same_text (hash_refresh_token c d.random_text) hash ≡ false
    → has_hash hash r.1.refresh_tokens ≡ false
rotated_tokens hash (unknown_token e) h other = h
rotated_tokens hash (expired i t u e late) h other = h
rotated_tokens hash (refused w i t u e live) h other = h
rotated_tokens {db} hash (rotated i t u e live) h other =
    ground (arith, has_hash-delete_row hash i db.refresh_tokens)

call_db-has_hash :
    (c : Crypto) (hash : String) (x : AuthCall) (db : Db)
    → DrawsOther c hash x
    → has_hash hash db.refresh_tokens ≡ false
    → has_hash hash (call_db c x db).refresh_tokens ≡ false
unfolding call_db
call_db-has_hash c hash (registers d body) db other h =
    subst (λ (rows : Table RefreshToken). has_hash hash rows ≡ false)
      (sym (register_tokens c d body db)) h
call_db-has_hash c hash (logs_in d body) db other h = login_tokens c d body db hash h other
call_db-has_hash c hash (refreshes clock d token) db other h =
    rotated_tokens hash (refresh-Refreshed c clock d token db) h other

-- A hash that no row has stays away while no call draws a token with it.
pub run_calls-has_hash :
    (c : Crypto) (hash : String) (calls : List AuthCall) (db : Db)
    → AllDrawOther c hash calls
    → has_hash hash db.refresh_tokens ≡ false
    → has_hash hash (run_calls c calls db).refresh_tokens ≡ false
unfolding run_calls
run_calls-has_hash c hash [] db others h = h
run_calls-has_hash c hash (x ∷ calls) db (other, others) h =
    run_calls-has_hash c hash calls (call_db c x db) others (call_db-has_hash c hash x db other h)
