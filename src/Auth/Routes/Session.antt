-- ===== src/Auth/Routes/Session.antt =====
-- POST /login (`login` of services/auth/routes.py): how it ends, and that its refresh token is good.
use food_flow.Prelude.{
  ◌∙◌, ℕ, ◌+◌, ◌≤◌, String, ◌≡◌, sym, subst, ap, Bool, true, false, none, some, [], ◌∷◌, arith, inl,
  inr, ==_refl, Bool-cases, Option-cases,
}
use food_flow.Shared.Uuid.{Uuid}
use food_flow.Shared.Text.{same_text_iff, same_text_refl}
use food_flow.Shared.Error.{
  Error, Result, ok, err, http, value_error, value_too_long, unique_violation, refresh_tokens_pkey,
}
use food_flow.Shared.Table.{Table, lookup, delete_row, HasUniqueKeys, lookup-delete_row}
use food_flow.Shared.Transaction.{transaction}
use food_flow.Auth.Crypto.{Crypto, hash_refresh_token, refresh_lifetime}
use food_flow.Auth.Db.{
  User, RefreshToken, Db, find_user, find_token, insert_token, delete_token, fits_varchar,
}
use food_flow.Auth.Routes.{
  Credentials, AuthResponse, TokenDraw, token_row, tokens, login, rotate, refresh,
}
use food_flow.Auth.Routes.Calls.{has_hash}
use food_flow.Auth.Routes.Login.{FitsColumn, lookup-find_user}

-- The database after a login.
abbrev pub session_db : Crypto → TokenDraw → Uuid → Db → Db
session_db c d i db = record db {
  refresh_tokens = (d.token_uuid, token_row c d i) ∷ db.refresh_tokens;
}

module _ (c : Crypto) (d : TokenDraw) (body : Credentials) (db : Db) where
  pub data LoggedIn : Result AuthResponse × Db → Type 0 where
    stranger : find_user body.email db.users ≡ none → LoggedIn (err (http 401), db)
    wrong_password :
        (i : Uuid) (u : User)
        → find_user body.email db.users ≡ some (i, u)
        → c.checkpw body.password u.password_hash ≡ some false
        → LoggedIn (err (http 401), db)
    failed :
        (e : Error) (i : Uuid) (u : User)
        → find_user body.email db.users ≡ some (i, u)
        → LoggedIn (err e, db)
    started :
        (i : Uuid) (u : User)
        → find_user body.email db.users ≡ some (i, u)
        → c.checkpw body.password u.password_hash ≡ some true
        → LoggedIn (ok (tokens c d i u), session_db c d i db)

  accepted :
      (i : Uuid) (u : User)
      → find_user body.email db.users ≡ some (i, u)
      → c.checkpw body.password u.password_hash ≡ some true
      → LoggedIn (login c d body db)
  accepted i u e good = elim (Bool-cases (fits_varchar 255 (token_row c d i).token_hash)) [
    | inr long ↦ rw (too_long long) (failed value_too_long i u e)
    | inl fits ↦ elim (Option-cases (lookup d.token_uuid db.refresh_tokens)) [
      | inl free ↦ rw (goes fits free) (started i u e good)
      | inr (r, clash) ↦
          rw (clashes fits r clash) (failed (unique_violation refresh_tokens_pkey) i u e)
    ]
  ]
    where
      too_long :
          fits_varchar 255 (token_row c d i).token_hash ≡ false
          → login c d body db ≡ (err value_too_long, db)
      too_long long = unfold login insert_token in ground arith

      goes :
          fits_varchar 255 (token_row c d i).token_hash ≡ true
          → lookup d.token_uuid db.refresh_tokens ≡ none
          → login c d body db ≡ (ok (tokens c d i u), session_db c d i db)
      goes fits free = unfold login insert_token in ground arith

      clashes :
          fits_varchar 255 (token_row c d i).token_hash ≡ true
          → (r : RefreshToken) → lookup d.token_uuid db.refresh_tokens ≡ some r
          → login c d body db ≡ (err (unique_violation refresh_tokens_pkey), db)
      clashes fits r clash = unfold login insert_token in ground arith

  -- A login with an email that no user has, or with a password that bcrypt refuses, answers 401 and
  -- changes nothing. Else it raises and changes nothing, or it answers with tokens for the user and adds
  -- one row, with the hash of the refresh token and an expiry seven days ahead.
  pub login-LoggedIn : LoggedIn (login c d body db)
  login-LoggedIn = elim (Option-cases (find_user body.email db.users)) [
    | inl e ↦ rw (no_user e) (stranger e)
    | inr ((i, u), e) ↦ elim (Option-cases (c.checkpw body.password u.password_hash)) [
      | inl fails ↦ rw (unverified i u e fails) (failed value_error i u e)
      | inr (b, checked) ↦ elim (Bool-cases b) [
        | inl good ↦ accepted i u e (checked ∙ ap (λ (x : Bool). some x) good)
        | inr bad ↦
            let refused = checked ∙ ap (λ (x : Bool). some x) bad in
            rw (refuses i u e refused) (wrong_password i u e refused)
      ]
    ]
  ]
    where
      no_user : find_user body.email db.users ≡ none → login c d body db ≡ (err (http 401), db)
      no_user e = unfold login in ground arith

      unverified :
          (i : Uuid) (u : User)
          → find_user body.email db.users ≡ some (i, u)
          → c.checkpw body.password u.password_hash ≡ none
          → login c d body db ≡ (err value_error, db)
      unverified i u e fails = unfold login in ground arith

      refuses :
          (i : Uuid) (u : User)
          → find_user body.email db.users ≡ some (i, u)
          → c.checkpw body.password u.password_hash ≡ some false
          → login c d body db ≡ (err (http 401), db)
      refuses i u e bad = unfold login in ground arith

find_user-email :
    (email : String) (users : Table User) (i : Uuid) (u : User)
    → find_user email users ≡ some (i, u)
    → u.email ≡ email
unfolding find_user
find_user-email email [] i u h = cc
find_user-email email ((j, w) ∷ users) i u h =
    ground (arith, find_user-email email users i u, same_text_iff w.email email)

exchanges :
    (c : Crypto) (clock : ℕ) (d d' : TokenDraw) (i : Uuid) (u : User) (db : Db)
    → FitsColumn c
    → lookup i db.users ≡ some u
    → clock ≤ d.row_clock + refresh_lifetime
    → lookup d'.token_uuid db.refresh_tokens ≡ none
    → (refresh c clock d' d.random_text (session_db c d i db)).0 ≡ ok (tokens c d' i u)
unfolding refresh transaction rotate delete_token insert_token find_token delete_row
exchanges c clock d d' i u db fits is_user live free = ground (
  arith,
  same_text_refl (hash_refresh_token c d.random_text),
  ==_refl d.token_uuid,
  fits d'.random_text,
  lookup-delete_row d'.token_uuid d.token_uuid db.refresh_tokens,
)

session_good :
    {c : Crypto} {d : TokenDraw} {body : Credentials} {db : Db} {r : Result AuthResponse × Db}
    {a : AuthResponse} (clock : ℕ) (d' : TokenDraw)
    → LoggedIn c d body db r
    → r.0 ≡ ok a
    → FitsColumn c
    → HasUniqueKeys db.users
    → clock ≤ d.row_clock + refresh_lifetime
    → lookup d'.token_uuid db.refresh_tokens ≡ none
    → (i : Uuid) × (u : User) × (u.email ≡ body.email)
      × (a ≡ tokens c d i u)
      × ((refresh c clock d' a.refresh_token r.1).0 ≡ ok (tokens c d' i u))
session_good clock d' (stranger e) h fits v live free = cc
session_good clock d' (wrong_password i u e bad) h fits v live free = cc
session_good clock d' (failed w i u e) h fits v live free = cc
session_good {c} {d} {body} {db} {a} clock d' (started i u e good) h fits v live free =
    let same : tokens c d i u ≡ a = cc in
    (
      i,
      u,
      find_user-email body.email db.users i u e,
      sym same,
      subst
          (λ (x : AuthResponse).
            (refresh c clock d' x.refresh_token (session_db c d i db)).0 ≡ ok (tokens c d' i u))
          same
          (exchanges c clock d d' i u db fits (lookup-find_user body.email db.users i u v e) live
            free),
    )

-- Where user ids are unique and digests fit their column: the refresh token that a login answered with,
-- whose hash no row had before, is exchanged up to seven days later for tokens of the same user, whose
-- email is the one that logged in; the new row's id must not be taken.
pub refresh-login :
    (c : Crypto) (clock : ℕ) (d d' : TokenDraw) (body : Credentials) (db : Db) (a : AuthResponse)
    → FitsColumn c
    → HasUniqueKeys db.users
    → has_hash (hash_refresh_token c a.refresh_token) db.refresh_tokens ≡ false
    → clock ≤ d.row_clock + refresh_lifetime
    → lookup d'.token_uuid db.refresh_tokens ≡ none
    → (login c d body db).0 ≡ ok a
    → (i : Uuid) × (u : User) × (u.email ≡ body.email)
      × (a ≡ tokens c d i u)
      × ((refresh c clock d' a.refresh_token (login c d body db).1).0 ≡ ok (tokens c d' i u))
refresh-login c clock d d' body db a fits v fresh live free h =
    session_good clock d' (login-LoggedIn c d body db) h fits v live free
