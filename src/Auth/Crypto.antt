-- ===== src/Auth/Crypto.antt =====
-- services/auth/auth.py. The functions of bcrypt, hashlib and PyJWT are parameters.
use food_flow.Prelude.{ℕ, ◌+◌, ◌*◌, String, Bool, Option, none, some}
use food_flow.Shared.Uuid.{Uuid, IdText, str}
use food_flow.Shared.Error.{Result, ok, err, value_error}

-- What an access token says; the times are in microseconds.
pub record Claims : Type 0 where
  pub sub : IdText
  pub email : String
  pub exp : ℕ
  pub iat : ℕ

pub record Crypto : Type 0 where
  -- bcrypt.hashpw, with the salt that bcrypt.gensalt() drew; none where it raises ValueError
  pub hashpw : ℕ → String → Option String
  -- bcrypt.checkpw
  pub checkpw : String → String → Option Bool
  -- hashlib.sha256(…).hexdigest()
  pub sha256 : String → String
  -- jwt.encode, of the claims and "type": "access", under JWT_SECRET
  pub encode : Claims → String

abbrev value_or_error {ℓ} : {A : Type ℓ} → Option A → Result A
value_or_error none = err value_error
value_or_error (some a) = ok a

abbrev pub hash_password : Crypto → ℕ → String → Result String
hash_password c salt password = value_or_error (c.hashpw salt password)

abbrev pub verify_password : Crypto → String → String → Result Bool
verify_password c password password_hash = value_or_error (c.checkpw password password_hash)

-- timedelta(minutes=ACCESS_TOKEN_EXPIRE_MINUTES)
abbrev pub access_lifetime : ℕ
access_lifetime = 15 * 60000000

-- timedelta(days=REFRESH_TOKEN_EXPIRE_DAYS)
abbrev pub refresh_lifetime : ℕ
refresh_lifetime = 7 * 86400000000

-- The clock is read twice.
abbrev pub create_access_token : Crypto → ℕ → ℕ → Uuid → String → String
create_access_token c now now' user_id email =
    c.encode (record { sub = str user_id; email = email; exp = now + access_lifetime; iat = now' })

abbrev pub hash_refresh_token : Crypto → String → String
hash_refresh_token c token = c.sha256 token
