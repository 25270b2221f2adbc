-- ===== src/Auth/Routes/Race.antt =====
-- Two overlapping calls of services/auth/routes.py: the SELECT of neither `register` nor `refresh` locks a
-- row, so the second call can have made it before the first one writes.
use food_flow.Prelude.{
  ℕ, String, ◌≡◌, ◌≢◌, refl, sym, ap, ◌∙◌, true, false, Option, none, some, arith, inl, inr, ltb,
  ==_iff, ==_refl, Bool-cases, Option-cases,
}
use food_flow.Shared.Uuid.{Uuid, str}
use food_flow.Shared.Text.{same_text_refl}
use food_flow.Shared.Error.{
  Error, Result, ok, err, http, unique_violation, users_email_key, users_pkey, value_too_long,
}
use food_flow.Shared.Table.{lookup, delete_row, is_some, lookup-delete_row}
use food_flow.Shared.Transaction.{Tx, pure, raise_if, transaction, ◌>>◌}
use food_flow.Auth.Crypto.{Crypto, hash_password}
use food_flow.Auth.Db.{
  User, RefreshToken, Db, fits_varchar, find_user, insert_user, insert_token, delete_token,
}
use food_flow.Auth.Routes.{
  Credentials, AuthResponse, UserResponse, RegisterDraw, TokenDraw, token_row, tokens, rotate,
  register, refresh,
}
use food_flow.Auth.Routes.Login.{Registered, raised, stored, register-Registered}
use food_flow.Auth.Routes.Rotation.{
  Refreshed, unknown_token, expired, refused, rotated, rotated_db, found_token, refresh-Refreshed,
}

-- The end of `refresh`, after its SELECT: the rest of its transaction.
unfoldable pub finish_refresh :
    Crypto → ℕ → TokenDraw → Option (Uuid × RefreshToken × User) → Tx Db AuthResponse
finish_refresh c clock d row = transaction (rotate c clock d row)

module _ (c : Crypto) (clock' : ℕ) (d' : TokenDraw) (i : Uuid) (t : RefreshToken) (u : User) where
  finishes :
      (db : Db)
      → ltb t.expires_at clock' ≡ false
      → fits_varchar 255 (token_row c d' t.user_id).token_hash ≡ true
      → lookup d'.token_uuid (delete_row i db.refresh_tokens) ≡ none
      → finish_refresh c clock' d' (some (i, t, u)) db
        ≡ (ok (tokens c d' t.user_id u), rotated_db c d' i t.user_id db)
  finishes db live fits free =
      unfold finish_refresh transaction rotate delete_token insert_token in ground arith

-- The database after two exchanges of the row `i`.
abbrev pub twice_db : Crypto → TokenDraw → TokenDraw → Uuid → Uuid → Db → Db
twice_db c d d' i user_id db = rotated_db c d' i user_id (rotated_db c d i user_id db)

-- Both of the rows that two calls insert stand.
abbrev pub HoldsBoth : Crypto → TokenDraw → TokenDraw → Uuid → Db → Type 0
HoldsBoth c d d' user_id db =
    (lookup d.token_uuid db.refresh_tokens ≡ some (token_row c d user_id))
    × (lookup d'.token_uuid db.refresh_tokens ≡ some (token_row c d' user_id))

module _ (c : Crypto) (clock clock' : ℕ) (d d' : TokenDraw) (token : String) (db : Db) (i : Uuid)
    (t : RefreshToken) (u : User) (found : found_token c clock d token db ≡ some (i, t, u)) where
  first_db :
      {r : Result AuthResponse × Db} (a : AuthResponse)
      → Refreshed c clock d token db r
      → r.0 ≡ ok a
      → r.1 ≡ rotated_db c d i t.user_id db
  first_db a (unknown_token e) h = cc
  first_db a (expired j q w e late) h = cc
  first_db a (refused x j q w e live) h = cc
  first_db a (rotated j q w e live) h =
      ap
        (λ (w : Option (Uuid × RefreshToken × User)). elim w [
          | none ↦ db
          | some y ↦ rotated_db c d y.0 y.1.user_id db
        ])
        (sym e ∙ found)

  twice-HoldsBoth :
      d.token_uuid ≢ i
      → lookup d'.token_uuid (rotated_db c d i t.user_id db).refresh_tokens ≡ none
      → HoldsBoth c d d' t.user_id (twice_db c d d' i t.user_id db)
  unfolding lookup
  twice-HoldsBoth own fresh =
      let rows = (rotated_db c d i t.user_id db).refresh_tokens in
      (
        ground (
          arith,
          lookup-delete_row d.token_uuid i rows,
          ==_iff i d.token_uuid,
          ==_iff d'.token_uuid d.token_uuid,
          ==_refl d.token_uuid,
        ),
        ground (arith, ==_refl d'.token_uuid),
      )

  -- A call that nothing interrupts.
  refresh-finish_refresh :
      refresh c clock d token db ≡ finish_refresh c clock d (found_token c clock d token db) db
  unfolding refresh finish_refresh transaction
  refresh-finish_refresh = refl

  -- Two calls with one refresh token, of which the second has selected the token's row before the first one
  -- deletes it: where the first is answered, under another row id than the old, and the second finds the
  -- token live and draws a new row id and a hash that fits its column, the second is answered with tokens
  -- for the user too, and both of the new refresh tokens stand in the table, although one was exchanged for
  -- them.
  pub refresh_raced :
      (a : AuthResponse)
      → (refresh c clock d token db).0 ≡ ok a
      → ltb t.expires_at clock' ≡ false
      → fits_varchar 255 (token_row c d' t.user_id).token_hash ≡ true
      → d.token_uuid ≢ i
      → lookup d'.token_uuid (refresh c clock d token db).1.refresh_tokens ≡ none
      → let second = finish_refresh c clock' d' (some (i, t, u)) (refresh c clock d token db).1 in
        (second.0 ≡ ok (tokens c d' t.user_id u)) × HoldsBoth c d d' t.user_id second.1
  refresh_raced a h live fits own fresh =
      let mid = first_db a (refresh-Refreshed c clock d token db) h in
      let fresh' : lookup d'.token_uuid (rotated_db c d i t.user_id db).refresh_tokens ≡ none =
        ap (λ (s : Db). lookup d'.token_uuid s.refresh_tokens) (sym mid) ∙ fresh in
      rw mid (answered fresh')
    where
      unlocked :
          lookup d'.token_uuid (rotated_db c d i t.user_id db).refresh_tokens ≡ none
          → lookup d'.token_uuid (delete_row i (rotated_db c d i t.user_id db).refresh_tokens)
            ≡ none
      unlocked fresh' =
          ground (
            arith,
            lookup-delete_row d'.token_uuid i (rotated_db c d i t.user_id db).refresh_tokens,
          )

      answered :
          lookup d'.token_uuid (rotated_db c d i t.user_id db).refresh_tokens ≡ none
          → let second =
              finish_refresh c clock' d' (some (i, t, u)) (rotated_db c d i t.user_id db) in
            (second.0 ≡ ok (tokens c d' t.user_id u)) × HoldsBoth c d d' t.user_id second.1
      answered fresh' =
          rw
            (finishes c clock' d' i t u (rotated_db c d i t.user_id db) live fits (unlocked fresh'))
            (refl, twice-HoldsBoth own fresh')

-- The end of `register`, after its SELECT.
unfoldable pub finish_register :
    RegisterDraw → Credentials → String → Option (Uuid × User) → Tx Db UserResponse
finish_register d body password_hash existing =
    raise_if (is_some existing) (http 409)
    >> insert_user d.user_uuid
        (record { email = body.email; password_hash = password_hash; created_at = d.now })
    >> pure (record { id = str d.user_uuid; email = body.email; created_at = d.now })

module _ (c : Crypto) (d : RegisterDraw) (body : Credentials) where
  -- A call that nothing interrupts.
  register-finish_register :
      (password_hash : String) (db : Db)
      → hash_password c d.salt body.password ≡ ok password_hash
      → register c d body db
        ≡ finish_register d body password_hash (find_user body.email db.users) db
  register-finish_register password_hash db h = unfold register finish_register in ground arith

-- An INSERT under an email that a user has raises, but no answer of a handler, and stores nothing.
insert_user-taken :
    (id : Uuid) (u : User) (db : Db)
    → is_some (find_user u.email db.users) ≡ true
    → (e : Error) × (insert_user id u db ≡ (err e, db)) × (e ≢ http 409)
insert_user-taken id u db taken = elim (Bool-cases (fits_varchar 255 u.email)) [
  | inr long ↦ (value_too_long, unfold insert_user in ground arith, ground arith)
  | inl fits ↦ elim (Bool-cases (fits_varchar 255 u.password_hash)) [
    | inr long ↦ (value_too_long, unfold insert_user in ground arith, ground arith)
    | inl fits' ↦ elim (Option-cases (lookup id db.users)) [
      | inr (v, clash) ↦
          (unique_violation users_pkey, unfold insert_user in ground arith, ground arith)
      | inl free ↦
          (unique_violation users_email_key, unfold insert_user in ground arith, ground arith)
    ]
  ]
]

Registered-taken :
    {c : Crypto} {d : RegisterDraw} {body : Credentials} {db : Db} {r : Result UserResponse × Db}
    (a : UserResponse)
    → Registered c d body db r
    → r.0 ≡ ok a
    → is_some (find_user body.email r.1.users) ≡ true
Registered-taken a (raised e) h = cc
Registered-taken {c} {d} {body} {db} a (stored hash e new fresh) h =
    unfold find_user in ground (arith, same_text_refl body.email)

-- Two calls with one email, of which the second has found no user before the first one inserts: where
-- the first is answered, the second stores nothing and raises, but not the 409 that `register` answers
-- for an email that is taken.
pub register_raced :
    (c : Crypto) (d d' : RegisterDraw) (body body' : Credentials) (password_hash : String) (db : Db)
    (a : UserResponse)
    → (register c d body db).0 ≡ ok a
    → body'.email ≡ body.email
    → let mid = (register c d body db).1 in
      (e : Error) × (finish_register d' body' password_hash none mid ≡ (err e, mid))
      × (e ≢ http 409)
register_raced c d d' body body' password_hash db a h same =
    let mid = (register c d body db).1 in
    let taken = Registered-taken a (register-Registered c d body db) h in
    let u : User = record {
      email = body'.email;
      password_hash = password_hash;
      created_at = d'.now;
    } in
    let (e, fails, unlike) = insert_user-taken d'.user_uuid u mid (rw same taken) in
    (e, passes_on mid e fails, unlike)
  where
    passes_on :
        (s : Db) (e : Error)
        → insert_user d'.user_uuid
            (record { email = body'.email; password_hash = password_hash; created_at = d'.now })
            s
          ≡ (err e, s)
        → finish_register d' body' password_hash none s ≡ (err e, s)
    passes_on s e fails = unfold finish_register in ground arith
