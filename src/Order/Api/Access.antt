-- ===== src/Order/Api/Access.antt =====
-- What an access token of services/auth opens in services/order: `get_current_user` and `get_order` of
-- services/order/routes.py.
use food_flow.Prelude.{
  ℕ, ◌+◌, ◌≤◌, String, ◌≡◌, refl, ◌∙◌, ap, true, false, none, some, Option, arith, leb, ◌==◌,
  if◌then◌else◌, inl, inr, ◌⊎◌, ==_iff, Bool-cases,
}
use food_flow.Shared.Uuid.{Uuid, str}
use food_flow.Shared.Text.{same_text, same_text_iff, non_empty}
use food_flow.Shared.Error.{Result, ok, err, http}
use food_flow.Shared.Table.{lookup}
use food_flow.Auth.Crypto.{Crypto, Claims, access_lifetime}
use food_flow.Auth.Db as AuthDb
use food_flow.Auth.Routes.{TokenDraw, tokens}
use food_flow.Order.Db.{Order, Db}
use food_flow.Shared.Response.{Texts}
use food_flow.Order.Api.{
  Decoded, decoded, expired_signature, OrderResponse, order_response, after_space, show_row,
  read_claims, get_current_user, get_order, get_order_request,
}
use text.Mathlib.TextPositions.{starts_with-append}
use text.Mathlib.TextLemmas.{cons-append, nil-append}
use mathlib.Core.Option.{some-injective}
use Prim.Native.Char.{code}
use Prim.Native.String.{◌++◌}

-- "Bearer " and a token
abbrev pub bearer : String → String
bearer token = "Bearer " ++ token

after_space-append : (s t : String) → after_space s ≡ some "" → after_space (s ++ t) ≡ some t
unfolding after_space
after_space-append String.[] t h = cc
after_space-append (String.◌∷◌ c s) t h = rw (cons-append c s t) (elim (Bool-cases (code c == 32)) [
  | inl space ↦
      let last : s ≡ "" = some-injective s "" (ground arith) in
      rw (space, last) (ap (λ (y : String). some y) (nil-append t))
  | inr letter ↦ rw letter (after_space-append s t (rw letter at h))
])

non_empty-append : (s t : String) → non_empty s ≡ true → non_empty (s ++ t) ≡ true
non_empty-append String.[] t h = cc
non_empty-append (String.◌∷◌ c s) t h = rw (cons-append c s t) refl

bearer-after_space : (token : String) → after_space (bearer token) ≡ some token
unfolding after_space
bearer-after_space token = after_space-append "Bearer " token refl

-- What a request with such a header goes by.
get_current_user-bearer :
    (decode : String → Decoded) (token : String)
    → get_current_user decode (some (bearer token)) ≡ read_claims (decode token)
unfolding get_current_user
get_current_user-bearer decode token =
    rw
      (
        non_empty-append "Bearer " token refl,
        starts_with-append "Bearer " token,
        bearer-after_space token,
      )
      refl

-- What PyJWT says of a token that auth.py's `encode` made, at a time (in microseconds) from its "iat" on:
-- it gives the claims back before the second of "exp", and refuses the token from "exp" on.
pub record IsJwt (c : Crypto) (x : Texts) (decode : ℕ → String → Decoded) : Type 0 where
  pub fresh :
      (k : Claims) (u : Uuid) (now : ℕ)
      → k.sub ≡ str u
      → k.iat ≤ now
      → now + 1000000 ≤ k.exp
      → decode now (c.encode k) ≡ decoded (some (x.uuid_text u)) (some k.email)
  pub stale :
      (k : Claims) (now : ℕ)
      → k.iat ≤ now
      → k.exp ≤ now
      → decode now (c.encode k) ≡ expired_signature

-- What the owner of the token sees: an order of theirs.
abbrev pub own_view : Texts → Uuid → Uuid → Option Order → Result OrderResponse
own_view x owner order_id none = err (http 404)
own_view x owner order_id (some o) =
    if o.user_id == owner then ok (order_response x order_id o) else err (http 403)

show_row-own :
    (x : Texts) (owner order_id : Uuid) (email : String) (row : Option Order)
    → ((a b : Uuid) → x.uuid_text a ≡ x.uuid_text b → a ≡ b)
    → show_row x order_id (record { user_id = x.uuid_text owner; email = email }) row
      ≡ own_view x owner order_id row
show_row-own x owner order_id email none distinct = refl
show_row-own x owner order_id email (some o) distinct = elim (Bool-cases (o.user_id == owner)) [
  | inl own ↦
      rw
        (
          own,
          (same_text_iff (x.uuid_text o.user_id) (x.uuid_text owner)).1
              (ap x.uuid_text ((==_iff o.user_id owner).0 own)),
        )
        refl
  | inr foreign ↦ rw (foreign, differs foreign) refl
]
  where
    differs :
        (o.user_id == owner) ≡ false → same_text (x.uuid_text o.user_id) (x.uuid_text owner) ≡ false
    differs foreign = elim (Bool-cases (same_text (x.uuid_text o.user_id) (x.uuid_text owner))) [
      | inr different ↦ different
      | inl same ↦
          let equal =
            distinct o.user_id owner
              ((same_text_iff (x.uuid_text o.user_id) (x.uuid_text owner)).0 same) in
          ground arith
    ]

-- A user who has logged in calls GET /orders/{id} with the access token, later than the login, and not in
-- the last second of the token's fifteen minutes. In that time the answer is the order if it is theirs, 403
-- if it is another user's and 404 if there is none; after that it is 401. The call changes nothing. This
-- takes PyJWT to read what it wrote, and UUIDs to print as distinct texts.
pub login_opens_orders :
    (c : Crypto) (x : Texts) (decode : ℕ → String → Decoded) (d : TokenDraw) (i : Uuid)
    (u : AuthDb.User) (now : ℕ) (order_id : Uuid) (db : Db)
    → IsJwt c x decode
    → ((a b : Uuid) → x.uuid_text a ≡ x.uuid_text b → a ≡ b)
    → d.iat_clock ≤ now
    → (now + 1000000 ≤ d.exp_clock + access_lifetime) ⊎ (d.exp_clock + access_lifetime ≤ now)
    → get_order_request (decode now) x (some (bearer (tokens c d i u).access_token)) order_id db ≡ (
      if leb (d.exp_clock + access_lifetime) now
          then err (http 401)
          else own_view x i order_id (lookup order_id db.orders),
      db,
    )
unfolding get_order_request get_order
login_opens_orders c x decode d i u now order_id db jwt distinct later (inl live) =
    let claims : Claims = record {
      sub = str i;
      email = u.email;
      exp = d.exp_clock + access_lifetime;
      iat = d.iat_clock;
    } in
    let known =
      get_current_user-bearer (decode now) (c.encode claims)
      ∙ ap read_claims (jwt.fresh claims i now refl later live) in
    let early : leb (d.exp_clock + access_lifetime) now ≡ false = ground arith in
    rw (known, early)
      (ap (λ (r : Result OrderResponse). (r, db))
        (show_row-own x i order_id u.email (lookup order_id db.orders) distinct))
login_opens_orders c x decode d i u now order_id db jwt distinct later (inr over) =
    let claims : Claims = record {
      sub = str i;
      email = u.email;
      exp = d.exp_clock + access_lifetime;
      iat = d.iat_clock;
    } in
    let refused =
      get_current_user-bearer (decode now) (c.encode claims)
      ∙ ap read_claims (jwt.stale claims now later over) in
    let late : leb (d.exp_clock + access_lifetime) now ≡ true = ground arith in
    rw (refused, late) refl
