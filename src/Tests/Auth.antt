-- ===== src/Tests/Auth.antt =====
-- Concrete inputs for services/auth.
use food_flow.Prelude.{List, ℕ, ◌+◌, String, ◌≡◌, ◌≢◌, refl, true, none, some, [], ◌∷◌, arith}
use food_flow.Shared.Uuid.{Uuid, str}
use food_flow.Shared.Text.{text_length, same_text, same_text_refl}
use food_flow.Shared.Error.{Error, ok, err, http}
use food_flow.Shared.Table.{lookup, delete_row}
use food_flow.Shared.Transaction.{transaction}
use food_flow.Auth.Crypto.{Crypto}
use food_flow.Auth.Db.{
  User, RefreshToken, Db, find_user, find_token, insert_user, insert_token, delete_token,
}
use food_flow.Auth.Routes.{
  Credentials, RegisterDraw, TokenDraw, register, login, refresh, rotate, tokens,
}
use food_flow.Auth.Routes.Calls.{AuthCall, registers, logs_in, refreshes, run_calls}
use food_flow.Auth.Routes.Refresh.{refresh_token_once}
use food_flow.Auth.Routes.Race.{
  finish_refresh, HoldsBoth, refresh_raced, finish_register, register_raced,
}
use food_flow.Auth.Routes.Login.{AcceptsOwn, FitsColumn, login-register}
use food_flow.Auth.RateLimiter.{Redis, Counts, passed, passed_limit}

-- The first character in place of a digest.
abbrev digest : String → String
digest String.[] = "0"
digest (String.◌∷◌ c s) = String.◌∷◌ c String.[]

-- The password in place of its hash.
abbrev plain : Crypto
plain = record {
  hashpw = λ salt password. some password;
  checkpw = λ password hash. some (same_text password hash);
  sha256 = digest;
  encode = λ claims. claims.email;
}

plain-FitsColumn : FitsColumn plain
unfolding text_length
plain-FitsColumn String.[] = refl
plain-FitsColumn (String.◌∷◌ c s) = refl

plain-AcceptsOwn : AcceptsOwn plain
plain-AcceptsOwn salt password hash h = ground (arith, same_text_refl password)

abbrev body : Credentials
body = record { email = "a@b"; password = "secret" }

abbrev empty : Db
empty = record { users = []; refresh_tokens = [] }

abbrev alice : User
alice = record { email = "a@b"; password_hash = "secret"; created_at = 1 }

abbrev old_token : RefreshToken
old_token = record { user_id = 4; token_hash = "x"; expires_at = 100; created_at = 1 }

abbrev members : Db
members = record { users = (4, alice) ∷ []; refresh_tokens = (8, old_token) ∷ [] }

abbrev register_draw : RegisterDraw
register_draw = record { salt = 0; user_uuid = 4; now = 1 }

abbrev token_draw : String → Uuid → TokenDraw
token_draw text id = record {
  exp_clock = 2;
  iat_clock = 2;
  random_text = text;
  token_uuid = id;
  row_clock = 2;
  now = 2;
}

register_answers :
    (register plain register_draw body empty).0
    ≡ ok (record { id = str 4; email = "a@b"; created_at = 1 })
unfolding register insert_user find_user text_length lookup
register_answers = refl

login_answers :
    (login plain (token_draw "y" 9) body members).0
    ≡ ok (record { access_token = "a@b"; refresh_token = "y" })
unfolding login insert_token find_user text_length lookup
login_answers = refl

exchanges :
    (refresh plain 50 (token_draw "y" 9) "xyz" members).0
    ≡ ok (record { access_token = "a@b"; refresh_token = "y" })
unfolding refresh transaction rotate delete_token insert_token find_token text_length lookup
    delete_row
exchanges = refl

-- Between the two exchanges: a registration, a login and an exchange of the new token.
abbrev between : List AuthCall
between =
    registers (record register_draw { user_uuid = 5 }) (record { email = "c@d"; password = "word" })
    ∷ logs_in (token_draw "w" 11) body
    ∷ refreshes 55 (token_draw "v" 12) "y"
    ∷ []

refresh_token_once_example :
    let db' = run_calls plain between (refresh plain 50 (token_draw "y" 9) "xyz" members).1 in
    refresh plain 60 (token_draw "z" 10) "xyz" db' ≡ (err (http 401), db')
refresh_token_once_example =
    refresh_token_once plain 50 60 (token_draw "y" 9) (token_draw "z" 10) "xyz" members
      (record { access_token = "a@b"; refresh_token = "y" }) between (refl, tt) exchanges refl
      (tt, (refl, (refl, tt)))

refresh_raced_example :
    let mid = (refresh plain 50 (token_draw "y" 9) "xyz" members).1 in
    let second = finish_refresh plain 50 (token_draw "z" 10) (some (8, old_token, alice)) mid in
    (second.0 ≡ ok (tokens plain (token_draw "z" 10) 4 alice))
    × HoldsBoth plain (token_draw "y" 9) (token_draw "z" 10) 4 second.1
refresh_raced_example =
    refresh_raced plain 50 50 (token_draw "y" 9) (token_draw "z" 10) "xyz" members 8 old_token alice
      (unfold find_token lookup in refl) (record { access_token = "a@b"; refresh_token = "y" })
      exchanges refl (unfold text_length in refl) (ground arith)
      (unfold refresh transaction rotate delete_token insert_token find_token text_length lookup
          delete_row in
        refl)

register_raced_example :
    let mid = (register plain register_draw body empty).1 in
    (e : Error) × (finish_register (record register_draw { user_uuid = 5 }) body "secret" none mid
      ≡ (err e, mid))
    × (e ≢ http 409)
register_raced_example =
    register_raced plain register_draw (record register_draw { user_uuid = 5 }) body body "secret"
      empty (record { id = str 4; email = "a@b"; created_at = 1 }) register_answers refl

login-register_example :
    (u : User) × (u.email ≡ "a@b")
    × ((login plain (token_draw "y" 9) body (register plain register_draw body empty).1).0
        ≡ ok (tokens plain (token_draw "y" 9) 4 u))
login-register_example =
    login-register plain register_draw (token_draw "y" 9) body empty
      (record { id = str 4; email = "a@b"; created_at = 1 }) plain-AcceptsOwn plain-FitsColumn
      (unfold lookup in refl) register_answers

-- Redis with one client.
abbrev one_counter : Redis ℕ
one_counter = record {
  incr = λ ip n. (some (n + 1), n + 1);
  expire = λ ip seconds n. (some true, n);
}

one_counter-Counts : Counts one_counter "10.0.0.1" (λ n. n)
one_counter-Counts = record {
  answers = λ r. refl;
  counts = λ r. refl;
  expires = λ r. refl;
  keeps = λ r. refl;
}

passed_limit_example : passed one_counter 50 (some "10.0.0.1") 0 ≡ 30
passed_limit_example =
    passed_limit one_counter (some "10.0.0.1") (λ n. n) one_counter-Counts 50 0 refl
