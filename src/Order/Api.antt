-- ===== src/Order/Api.antt =====
-- GET /orders/{id} of services/order/routes.py, and the token that every request to the service carries.
-- PyJWT, and Python's texts for a UUID, a time and a Decimal's float, are parameters.
pub mod View
pub mod Access
use food_flow.Prelude.{
  ℕ, String, Bool, true, false, not, ◌||◌, Option, none, some, List, ◌==◌, if◌then◌else◌,
}
use food_flow.Prelude.Int.{ℤ}
use food_flow.Shared.Uuid.{Uuid}
use food_flow.Shared.Text.{same_text, non_empty}
use food_flow.Shared.Error.{Result, ok, err, http, key_error, index_error}
use food_flow.Shared.Event.{Float, Item}
use food_flow.Shared.Table.{lookup}
use food_flow.Shared.Response.{Texts}
use food_flow.Shared.Transaction.{Tx, lift, gets, raise_if, pure, get_key, ◌>>=◌, ◌>>◌}
use food_flow.Order.Status.{status_text}
use food_flow.Order.Db.{Order, Db}
use text.Mathlib.Text.{starts_with}
use Prim.Native.Char.{code}

-- What jwt.decode gives: the payload's "sub" and "email", where it has them, or which error it raises.
pub data Decoded : Type 0 where
  decoded : Option String → Option String → Decoded
  expired_signature invalid_token : Decoded

pub record CurrentUser : Type 0 where
  pub user_id : String
  pub email : String

-- What follows the first space: `split(" ", 1)[1]`.
unfoldable pub after_space : String → Option String
after_space String.[] = none
after_space (String.◌∷◌ c s) = if code c == 32 then some s else after_space s

-- get_current_user, by the Authorization header; an error other than PyJWT's is not caught.
abbrev pub read_claims : Decoded → Result CurrentUser
read_claims (decoded (some sub) (some email)) = ok (record { user_id = sub; email = email })
read_claims (decoded _ _) = err key_error
read_claims expired_signature = err (http 401)
read_claims invalid_token = err (http 401)

abbrev read_token : (String → Decoded) → Option String → Result CurrentUser
read_token decode none = err index_error
read_token decode (some token) = read_claims (decode token)

unfoldable pub get_current_user : (String → Decoded) → Option String → Result CurrentUser
get_current_user decode none = err (http 401)
get_current_user decode (some authorization) =
    if not (non_empty authorization) || not (starts_with authorization "Bearer ")
    then err (http 401)
    else read_token decode (after_space authorization)

pub record OrderResponse : Type 0 where
  pub id : String
  pub user_id : String
  pub restaurant_id : String
  pub items : List Item
  pub total_amount : Float
  pub status : String
  pub created_at : String
  pub updated_at : String

abbrev pub order_response : Texts → Uuid → Order → OrderResponse
order_response x order_id o = record {
  id = x.uuid_text order_id;
  user_id = x.uuid_text o.user_id;
  restaurant_id = x.uuid_text o.restaurant_id;
  items = o.items;
  total_amount = x.amount o.total_amount;
  status = status_text o.status;
  created_at = x.time_text o.created_at;
  updated_at = x.time_text o.updated_at;
}

-- What follows the SELECT: the tests that it found a row, and that the row is the user's.
abbrev pub show_row : Texts → Uuid → CurrentUser → Option Order → Result OrderResponse
show_row x order_id user none = err (http 404)
show_row x order_id user (some o) =
    if not (same_text (x.uuid_text o.user_id) user.user_id)
    then err (http 403)
    else ok (order_response x order_id o)

unfoldable pub get_order : Texts → Uuid → CurrentUser → Tx Db OrderResponse
get_order x order_id user = do
  row ← gets (λ (db : Db). lookup order_id db.orders)
  lift (show_row x order_id user row)

-- The whole request: `Depends(get_current_user)` is resolved first.
unfoldable pub get_order_request :
    (String → Decoded) → Texts → Option String → Uuid → Tx Db OrderResponse
get_order_request decode x authorization order_id =
    lift (get_current_user decode authorization) >>= get_order x order_id
