-- ===== src/Auth/Routes/Login.antt =====
-- POST /register and POST /login (services/auth/routes.py), and what one makes good for the next.
use food_flow.Prelude.{
  ◌⊎◌, ℕ, String, ◌≡◌, refl, ap, true, none, some, [], ◌∷◌, arith, inl, inr, ==_refl, ==_iff,
  Bool-cases, Option-cases,
}
use food_flow.Shared.Uuid.{Uuid}
use food_flow.Shared.Text.{same_text_refl}
use food_flow.Shared.Error.{
  users_pkey, unique_violation, value_too_long, value_error, Error, Result, ok, err, http,
}
use food_flow.Shared.Table.{Table, lookup, HasUniqueKeys}
use food_flow.Auth.Crypto.{Crypto}
use food_flow.Auth.Db.{User, Db, find_user, insert_token, insert_user, fits_varchar}
use food_flow.Auth.Routes.{
  str, Credentials, UserResponse, AuthResponse, RegisterDraw, TokenDraw, token_row, tokens,
  register, login,
}

-- bcrypt accepts the password that it hashed.
abbrev pub AcceptsOwn : Crypto → Type 0
AcceptsOwn c =
    (salt : ℕ) (password hash : String)
    → c.hashpw salt password ≡ some hash
    → c.checkpw password hash ≡ some true

-- A SHA-256 digest in hexadecimal fits its column.
abbrev pub FitsColumn : Crypto → Type 0
FitsColumn c = (text : String) → fits_varchar 255 (c.sha256 text) ≡ true

-- An INSERT of a user under a new email stores the row, or raises and stores nothing.
insert_user_cases :
    (id : Uuid) (u : User) (db : Db)
    → find_user u.email db.users ≡ none
    → ((e : Error) × (insert_user id u db ≡ (err e, db)))
      ⊎ ((lookup id db.users ≡ none)
          × (insert_user id u db ≡ (ok tt, record db { users = (id, u) ∷ db.users })))
insert_user_cases id u db new = elim (Bool-cases (fits_varchar 255 u.email)) [
  | inr long ↦ inl (value_too_long, unfold insert_user in ground arith)
  | inl fits ↦ elim (Bool-cases (fits_varchar 255 u.password_hash)) [
    | inr long ↦ inl (value_too_long, unfold insert_user in ground arith)
    | inl fits' ↦ elim (Option-cases (lookup id db.users)) [
      | inr (v, clash) ↦ inl (unique_violation users_pkey, unfold insert_user in ground arith)
      | inl free ↦ inr (free, unfold insert_user in ground arith)
    ]
  ]
]

-- The database after a registration.
abbrev registered_db : RegisterDraw → Credentials → String → Db → Db
registered_db d body hash db = record db {
  users =
      (d.user_uuid, record { email = body.email; password_hash = hash; created_at = d.now })
      ∷ db.users;
}

module _ (c : Crypto) (d : RegisterDraw) (body : Credentials) (db : Db) where
  pub data Registered : Result UserResponse × Db → Type 0 where
    raised : (e : Error) → Registered (err e, db)
    stored :
        (hash : String)
        → c.hashpw d.salt body.password ≡ some hash
        → find_user body.email db.users ≡ none
        → lookup d.user_uuid db.users ≡ none
        → Registered (
          ok (record { id = str d.user_uuid; email = body.email; created_at = d.now }),
          registered_db d body hash db,
        )

  hashed :
      (hash : String)
      → c.hashpw d.salt body.password ≡ some hash
      → Registered (register c d body db)
  hashed hash e = elim (Option-cases (find_user body.email db.users)) [
    | inr (row, taken) ↦ rw (conflicts row taken) (raised (http 409))
    | inl new ↦
        let u : User = record { email = body.email; password_hash = hash; created_at = d.now } in
        elim (insert_user_cases d.user_uuid u db new) [
          | inl (w, fails) ↦ rw (gives_up new w fails) (raised w)
          | inr (free, runs) ↦ rw (goes new runs) (stored hash e new free)
        ]
  ]
    where
      conflicts :
          (row : Uuid × User)
          → find_user body.email db.users ≡ some row
          → register c d body db ≡ (err (http 409), db)
      conflicts row taken = unfold register in ground arith

      gives_up :
          find_user body.email db.users ≡ none
          → (w : Error)
          → insert_user d.user_uuid
              (record { email = body.email; password_hash = hash; created_at = d.now })
              db
            ≡ (err w, db)
          → register c d body db ≡ (err w, db)
      gives_up new w fails = unfold register in ground arith

      goes :
          find_user body.email db.users ≡ none
          → insert_user d.user_uuid
              (record { email = body.email; password_hash = hash; created_at = d.now })
              db
            ≡ (ok tt, registered_db d body hash db)
          → register c d body db ≡ (
            ok (record { id = str d.user_uuid; email = body.email; created_at = d.now }),
            registered_db d body hash db,
          )
      goes new runs = unfold register in ground arith

  -- A registration raises and changes nothing, or it stores one user, under an email and an id that no
  -- user had, with the hash of the password.
  pub register-Registered : Registered (register c d body db)
  register-Registered = elim (Option-cases (c.hashpw d.salt body.password)) [
    | inl fails ↦ rw (unhashed fails) (raised value_error)
    | inr (hash, e) ↦ hashed hash e
  ]
    where
      unhashed : c.hashpw d.salt body.password ≡ none → register c d body db ≡ (err value_error, db)
      unhashed fails = unfold register in ground arith

pub logs_in :
    (c : Crypto) (d : TokenDraw) (body : Credentials) (i : Uuid) (u : User) (db : Db)
    → FitsColumn c
    → find_user body.email db.users ≡ some (i, u)
    → c.checkpw body.password u.password_hash ≡ some true
    → lookup d.token_uuid db.refresh_tokens ≡ none
    → login c d body db ≡ (
      ok (tokens c d i u),
      record db { refresh_tokens = (d.token_uuid, token_row c d i) ∷ db.refresh_tokens },
    )
unfolding login insert_token
logs_in c d body i u db fits found good free = ground (arith, fits d.random_text)

Registered-in :
    {c : Crypto} {d : RegisterDraw} {body : Credentials} {db : Db} {r : Result UserResponse × Db}
    {a : UserResponse} (t : TokenDraw)
    → Registered c d body db r
    → r.0 ≡ ok a
    → AcceptsOwn c
    → FitsColumn c
    → lookup t.token_uuid db.refresh_tokens ≡ none
    → (u : User) × (u.email ≡ body.email) × ((login c t body r.1).0 ≡ ok (tokens c t d.user_uuid u))
Registered-in t (raised e) h accepts fits free = cc
Registered-in {c} {d} {body} {db} t (stored hash e new fresh) h accepts fits free =
    let u : User = record { email = body.email; password_hash = hash; created_at = d.now } in
    (
      u,
      refl,
      ap (λ (x : Result AuthResponse × Db). x.0)
          (logs_in c t body d.user_uuid u (registered_db d body hash db) fits
            (unfold find_user in ground (arith, same_text_refl body.email))
            (accepts d.salt body.password hash e) free),
    )

-- Where bcrypt accepts a password that it hashed, and digests fit their column: after a registration
-- that was answered, a login with the same email and password, whose row's id is not taken, is answered
-- with tokens for the new user's id and email.
pub login-register :
    (c : Crypto) (d : RegisterDraw) (t : TokenDraw) (body : Credentials) (db : Db)
    (a : UserResponse)
    → AcceptsOwn c
    → FitsColumn c
    → lookup t.token_uuid db.refresh_tokens ≡ none
    → (register c d body db).0 ≡ ok a
    → (u : User) × (u.email ≡ body.email)
      × ((login c t body (register c d body db).1).0 ≡ ok (tokens c t d.user_uuid u))
login-register c d t body db a accepts fits free h =
    Registered-in t (register-Registered c d body db) h accepts fits free

pub lookup-find_user :
    (email : String) (users : Table User) (i : Uuid) (u : User)
    → HasUniqueKeys users
    → find_user email users ≡ some (i, u)
    → lookup i users ≡ some u
unfolding find_user lookup
lookup-find_user email [] i u v h = cc
lookup-find_user email ((j, w) ∷ users) i u (fresh, v) h =
    ground (arith, lookup-find_user email users i u v, ==_iff j i, ==_refl i)
