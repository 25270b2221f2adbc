-- ===== src/Tests/Api.antt =====
-- Concrete inputs for the routes of services/order that read, and a stand-in for PyJWT.
use food_flow.Prelude.{
  ℕ, zero, suc, ◌+◌, String, ◌≡◌, refl, sym, ◌∙◌, ap, true, false, none, some, arith, leb, ◌==◌,
  if◌then◌else◌, inl,
}
use food_flow.Shared.Uuid.{Uuid, IdText, str, malformed}
use food_flow.Shared.Error.{err, http}
use food_flow.Shared.Text.{same_text}
use food_flow.Auth.Crypto.{Crypto, access_lifetime}
use food_flow.Auth.Db as AuthDb
use food_flow.Auth.Routes.{TokenDraw, tokens}
use food_flow.Shared.Response.{Texts}
use food_flow.Order.Api.{Decoded, decoded, expired_signature, get_order_request}
use food_flow.Order.Api.Access.{IsJwt, bearer, own_view, login_opens_orders}
use food_flow.Shared.Table.{lookup, HasUniqueKeys}
use food_flow.Order.Status.{pending}
use food_flow.Tests.Order.{shop, whole, body, create_draw, create_runs}
use food_flow.Order.Api.View.{IsShown, get_order-create_order}
use food_flow.Order.Create.{create_order}
use Prim.Native.Char.{code}

-- A number in ones, up to a comma, and a text after it.
unfoldable write_number : ℕ → String → String
write_number zero rest = String.◌∷◌ "," rest
write_number (suc n) rest = String.◌∷◌ "1" (write_number n rest)

unfoldable read_number : String → ℕ × String
read_number String.[] = (0, "")
read_number (String.◌∷◌ c s) =
    let (n, rest) = read_number s in if code c == 44 then (0, s) else (suc n, rest)

read-write : (n : ℕ) (rest : String) → read_number (write_number n rest) ≡ (n, rest)
unfolding read_number write_number
read-write zero rest = refl
read-write (suc n) rest = rw (read-write n rest) refl

abbrev number_of : IdText → ℕ
number_of (str u) = u
number_of (malformed _) = 0

abbrev texts : Texts
texts = record {
  uuid_text = λ u. write_number u "";
  time_text = λ t. write_number t "";
  amount = λ cents. 0;
}

-- Tokens that say the user, the expiry and the email, one after the other.
abbrev crypto : Crypto
crypto = record {
  hashpw = λ salt password. some password;
  checkpw = λ password hash. some (same_text password hash);
  sha256 = λ token. token;
  encode = λ k. write_number (number_of k.sub) (write_number k.exp k.email);
}

abbrev decode_rest : ℕ → ℕ → ℕ × String → Decoded
decode_rest now u (exp, email) =
    if leb exp now then expired_signature else decoded (some (write_number u "")) (some email)

abbrev decode_at : ℕ → String → Decoded
decode_at now token = decode_rest now (read_number token).0 (read_number (read_number token).1)

decode-encode :
    (now u exp : ℕ) (email : String)
    → decode_at now (write_number u (write_number exp email)) ≡ decode_rest now u (exp, email)
decode-encode now u exp email =
    rw (read-write u (write_number exp email), read-write exp email) refl

crypto-IsJwt : IsJwt crypto texts decode_at
crypto-IsJwt = record {
  fresh = λ k u now is_user begun live.
      let early : leb k.exp now ≡ false = ground arith in
      decode-encode now (number_of k.sub) k.exp k.email ∙ rw (early, is_user) refl;
  stale = λ k now begun over.
      let late : leb k.exp now ≡ true = ground arith in
      decode-encode now (number_of k.sub) k.exp k.email ∙ rw late refl;
}

texts_differ : (a b : Uuid) → write_number a "" ≡ write_number b "" → a ≡ b
texts_differ a b h =
    ap (λ (r : ℕ × String). r.0) (sym (read-write a "") ∙ ap read_number h ∙ read-write b "")

abbrev session : TokenDraw
session = record {
  exp_clock = 10;
  iat_clock = 11;
  random_text = "r";
  token_uuid = 4;
  row_clock = 12;
  now = 12;
}

abbrev account : AuthDb.User
account = record { email = "a@b.c"; password_hash = "h"; created_at = 0 }

login_opens_orders_example :
    get_order_request
      (decode_at 20)
      texts
      (some (bearer (tokens crypto session 9 account).access_token))
      1
      (shop pending)
    ≡ (
      if leb (10 + access_lifetime) 20
          then err (http 401)
          else own_view texts 9 1 (lookup 1 (shop pending).orders),
      shop pending,
    )
login_opens_orders_example =
    login_opens_orders crypto texts decode_at session 9 account 20 1 (shop pending) crypto-IsJwt
      texts_differ (omega arith) (inl (omega arith))

one_order : HasUniqueKeys (shop pending).orders
one_order = (unfold lookup in refl, tt)

get_order-create_order_example :
    IsShown texts "a@b.c" 8
      (record { id = str 2; status = pending; message = "Order accepted for processing" })
      (create_order whole create_draw body (str 8) none (some "j") (shop pending)).1
get_order-create_order_example =
    get_order-create_order texts "a@b.c" 8 whole create_draw body none (some "j") (shop pending)
      (record { id = str 2; status = pending; message = "Order accepted for processing" }) one_order
      create_runs
