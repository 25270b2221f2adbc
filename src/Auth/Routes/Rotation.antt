-- ===== src/Auth/Routes/Rotation.antt =====
-- POST /refresh (`refresh` of services/auth/routes.py): how a call ends.
use food_flow.Prelude.{
  ℕ, String, ◌≡◌, true, false, Option, none, some, ◌∷◌, arith, inl, inr, ltb, Bool-cases,
  Option-cases,
}
use food_flow.Shared.Uuid.{Uuid}
use food_flow.Shared.Error.{
  refresh_tokens_pkey, unique_violation, value_too_long, Error, Result, ok, err, http,
}
use food_flow.Shared.Table.{lookup, delete_row}
use food_flow.Shared.Transaction.{transaction}
use food_flow.Auth.Crypto.{Crypto, hash_refresh_token}
use food_flow.Auth.Db.{fits_varchar, User, RefreshToken, Db, find_token, insert_token, delete_token}
use food_flow.Auth.Routes.{AuthResponse, TokenDraw, token_row, tokens, rotate, refresh}

-- The database after a rotation.
abbrev pub rotated_db : Crypto → TokenDraw → Uuid → Uuid → Db → Db
rotated_db c d i user_id db = record db {
  refresh_tokens = (d.token_uuid, token_row c d user_id) ∷ delete_row i db.refresh_tokens;
}

module _ (c : Crypto) (clock : ℕ) (d : TokenDraw) (token : String) (db : Db) where
  -- The row that the query finds.
  abbrev pub found_token : Option (Uuid × RefreshToken × User)
  found_token = find_token (hash_refresh_token c token) db.users db.refresh_tokens

  pub data Refreshed : Result AuthResponse × Db → Type 0 where
    unknown_token : found_token ≡ none → Refreshed (err (http 401), db)
    expired :
        (i : Uuid) (t : RefreshToken) (u : User)
        → found_token ≡ some (i, t, u)
        → ltb t.expires_at clock ≡ true
        → Refreshed (err (http 401), db)
    refused :
        (e : Error) (i : Uuid) (t : RefreshToken) (u : User)
        → found_token ≡ some (i, t, u)
        → ltb t.expires_at clock ≡ false
        → Refreshed (err e, db)
    rotated :
        (i : Uuid) (t : RefreshToken) (u : User)
        → found_token ≡ some (i, t, u)
        → ltb t.expires_at clock ≡ false
        → Refreshed (ok (tokens c d t.user_id u), rotated_db c d i t.user_id db)

  live_cases :
      (i : Uuid) (t : RefreshToken) (u : User)
      → found_token ≡ some (i, t, u)
      → ltb t.expires_at clock ≡ false
      → Refreshed (refresh c clock d token db)
  live_cases i t u e live =
      elim (Bool-cases (fits_varchar 255 (token_row c d t.user_id).token_hash)) [
        | inr long ↦ rw (too_long long) (refused value_too_long i t u e live)
        | inl fits ↦ elim (Option-cases (lookup d.token_uuid (delete_row i db.refresh_tokens))) [
          | inl free ↦ rw (goes fits free) (rotated i t u e live)
          | inr (r, clash) ↦
              rw (clashes fits r clash)
                (refused (unique_violation refresh_tokens_pkey) i t u e live)
        ]
      ]
    where
      too_long :
          fits_varchar 255 (token_row c d t.user_id).token_hash ≡ false
          → refresh c clock d token db ≡ (err value_too_long, db)
      too_long long = unfold refresh transaction rotate delete_token insert_token in ground arith

      goes :
          fits_varchar 255 (token_row c d t.user_id).token_hash ≡ true
          → lookup d.token_uuid (delete_row i db.refresh_tokens) ≡ none
          → refresh c clock d token db
            ≡ (ok (tokens c d t.user_id u), rotated_db c d i t.user_id db)
      goes fits free = unfold refresh transaction rotate delete_token insert_token in ground arith

      clashes :
          fits_varchar 255 (token_row c d t.user_id).token_hash ≡ true
          → (r : RefreshToken) → lookup d.token_uuid (delete_row i db.refresh_tokens) ≡ some r
          → refresh c clock d token db ≡ (err (unique_violation refresh_tokens_pkey), db)
      clashes fits r clash =
          unfold refresh transaction rotate delete_token insert_token in ground arith

  -- A call with a token that no row has, or whose row has expired, answers 401 and changes
  -- nothing: the expired row stays too, since the raise rolls the DELETE back. Else it raises and
  -- changes nothing, or it answers with tokens for the row's user, and one new row stands in place
  -- of the old.
  pub refresh-Refreshed : Refreshed (refresh c clock d token db)
  refresh-Refreshed = elim (Option-cases found_token) [
    | inl e ↦ rw (no_row e) (unknown_token e)
    | inr ((i, t, u), e) ↦ elim (Bool-cases (ltb t.expires_at clock)) [
      | inl late ↦ rw (stale i t u e late) (expired i t u e late)
      | inr live ↦ live_cases i t u e live
    ]
  ]
    where
      no_row : found_token ≡ none → refresh c clock d token db ≡ (err (http 401), db)
      no_row e = unfold refresh transaction rotate in ground arith

      stale :
          (i : Uuid) (t : RefreshToken) (u : User)
          → found_token ≡ some (i, t, u)
          → ltb t.expires_at clock ≡ true
          → refresh c clock d token db ≡ (err (http 401), db)
      stale i t u e late = unfold refresh transaction rotate delete_token in ground arith
