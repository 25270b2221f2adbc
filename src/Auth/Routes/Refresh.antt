-- ===== src/Auth/Routes/Refresh.antt =====
-- POST /refresh (`refresh` of services/auth/routes.py): a token that was exchanged is good no more.
use food_flow.Prelude.{
  ℕ, String, ◌≡◌, refl, subst, false, none, some, [], ◌∷◌, arith, inl, inr, List, ==_refl,
  Bool-cases,
}
use food_flow.Shared.Uuid.{Uuid}
use food_flow.Shared.Text.{same_text, same_text_iff}
use food_flow.Shared.Error.{Result, ok, err, http}
use food_flow.Shared.Table.{Table, delete_row}
use food_flow.Shared.Transaction.{transaction}
use food_flow.Auth.Crypto.{Crypto, hash_refresh_token}
use food_flow.Auth.Db.{User, RefreshToken, Db, find_token}
use food_flow.Auth.Routes.{AuthResponse, TokenDraw, rotate, refresh}
use food_flow.Auth.Routes.Rotation.{
  Refreshed, unknown_token, expired, refused, rotated, refresh-Refreshed,
}
use food_flow.Auth.Routes.Calls.{
  has_hash, AuthCall, run_calls, AllDrawOther, has_hash-delete_row, run_calls-has_hash,
}

-- No two rows have the same hash.
abbrev pub HasUniqueHashes : Table RefreshToken → Type 0
HasUniqueHashes [] = Unit
HasUniqueHashes ((i, t) ∷ rows) = (has_hash t.token_hash rows ≡ false) × HasUniqueHashes rows

find_token_nowhere :
    (hash : String) (users : Table User) (rows : Table RefreshToken)
    → has_hash hash rows ≡ false
    → find_token hash users rows ≡ none
unfolding find_token
find_token_nowhere hash users [] h = refl
find_token_nowhere hash users ((j, t) ∷ rows) h = ground (arith, find_token_nowhere hash users rows)

-- Once the row that is found is deleted, its hash is in no row.
found-delete_row :
    (hash : String) (users : Table User) (rows : Table RefreshToken) (i : Uuid) (t : RefreshToken)
    (u : User)
    → HasUniqueHashes rows
    → find_token hash users rows ≡ some (i, t, u)
    → has_hash hash (delete_row i rows) ≡ false
unfolding find_token delete_row
found-delete_row hash users [] i t u v h = cc
found-delete_row hash users ((j, r) ∷ rows) i t u (fresh, v) h =
    elim (Bool-cases (same_text r.token_hash hash)) [
      | inr miss ↦ ground (arith, found-delete_row hash users rows i t u v)
      | inl hit ↦
          let none_left =
            subst (λ x. has_hash x rows ≡ false) ((same_text_iff r.token_hash hash).0 hit) fresh in
          ground (
            arith,
            has_hash-delete_row hash i rows none_left,
            find_token_nowhere hash users rows none_left,
            ==_refl i,
          )
    ]

once :
    {c : Crypto} {clock : ℕ} {d : TokenDraw} {token : String} {db : Db}
    {r : Result AuthResponse × Db} {a : AuthResponse}
    → Refreshed c clock d token db r
    → r.0 ≡ ok a
    → HasUniqueHashes db.refresh_tokens
    → same_text (hash_refresh_token c d.random_text) (hash_refresh_token c token) ≡ false
    → has_hash (hash_refresh_token c token) r.1.refresh_tokens ≡ false
once (unknown_token e) h v differs = cc
once (expired i t u e late) h v differs = cc
once (refused w i t u e live) h v differs = cc
once {c} {d} {token} {db} (rotated i t u e live) h v differs =
    ground
      (arith, found-delete_row (hash_refresh_token c token) db.users db.refresh_tokens i t u v e)

-- In a database where no two tokens have the same hash, after a token was exchanged for one with another
-- hash and after any calls of register, login and refresh, one after another, none of which draws a token
-- with the old one's hash: an exchange of the old token, at whatever time and with whatever draws, answers
-- 401 and changes nothing. Calls that overlap are not in this statement.
pub refresh_token_once :
    (c : Crypto) (clock clock' : ℕ) (d d' : TokenDraw) (token : String) (db : Db) (a : AuthResponse)
    (calls : List AuthCall)
    → HasUniqueHashes db.refresh_tokens
    → (refresh c clock d token db).0 ≡ ok a
    → same_text (hash_refresh_token c d.random_text) (hash_refresh_token c token) ≡ false
    → AllDrawOther c (hash_refresh_token c token) calls
    → let db' = run_calls c calls (refresh c clock d token db).1 in
      refresh c clock' d' token db' ≡ (err (http 401), db')
refresh_token_once c clock clock' d d' token db a calls v h differs others =
    let hash = hash_refresh_token c token in
    let mid = (refresh c clock d token db).1 in
    let gone = once (refresh-Refreshed c clock d token db) h v differs in
    let db' = run_calls c calls mid in
    refuses db' (
      find_token_nowhere hash db'.users db'.refresh_tokens
        (run_calls-has_hash c hash calls mid others gone))
  where
    refuses :
        (s : Db)
        → find_token (hash_refresh_token c token) s.users s.refresh_tokens ≡ none
        → refresh c clock' d' token s ≡ (err (http 401), s)
    refuses s e = unfold refresh transaction rotate in ground arith
