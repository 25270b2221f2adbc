-- ===== src/Order/Create.antt =====
-- POST /orders (`create_order` of services/order/routes.py).
pub mod Outcome
pub mod Replay
pub mod Race
use food_flow.Prelude.{
  ℕ, String, ◌≡◌, Bool, true, false, not, ◌&&◌, ◌||◌, Option, none, some, List, [], ◌∷◌, map,
  if◌then◌else◌, ltb, leb, ◌==◌,
}
use mathlib.Core.List.{foldl}
use food_flow.Prelude.Int.{ℤ}
use food_flow.Shared.Uuid.{Uuid, IdText, str}
use food_flow.Shared.Text.{truthy, text_length, same_text}
use food_flow.Shared.Error.{
  Error, Result, ok, err, out_of_range, value_too_long, unique_violation, orders_pkey,
  orders_idempotency_key_key,
}
use food_flow.Shared.Event.{Float, Item, Payload, Draw, order_placed, order_only}
use food_flow.Shared.Table.{Table, lookup, is_some}
use food_flow.Shared.Transaction.{
  Tx, Done, pure, lift, gets, raise_if, modify, transaction, uuid_of, ◌>>=◌, ◌>>◌,
}
use food_flow.Order.Status.{Status, pending}
use food_flow.Order.Db.{Order, Db, publish}

-- models.OrderItem, whose `item_id` has been read as a UUID by the validation of the request.
pub record OrderItem : Type 0 where
  pub item_id : Uuid
  pub quantity : ℤ
  pub price : Float

pub record CreateOrderRequest : Type 0 where
  pub restaurant_id : Uuid
  pub items : List OrderItem

-- The arithmetic of floats, and PostgreSQL's reading of a float as DECIMAL(10, 2): in cents, or none
-- where it does not fit.
pub record FloatOps : Type 0 where
  pub zero_sum : Float
  pub scale : ℤ → Float → Float
  pub add : Float → Float → Float
  pub to_cents : Float → Option ℤ

-- What one call draws: `uuid.uuid4()` for the order, and the draws of its event.
pub record CreateDraw : Type 0 where
  pub order_uuid : Uuid
  pub event : Draw

-- The JSON that the call returns.
pub record CreateResponse : Type 0 where
  pub id : IdText
  pub status : Status
  pub message : String

-- `items_data`
abbrev pub item_data : OrderItem → Item
item_data item = record { item_id = str item.item_id; quantity = item.quantity; price = item.price }

-- sum(item.quantity * item.price for item in body.items), as additions from the left; `scale` and `add`
-- stand for Python's, whose OverflowError for a huge quantity and whose compensated sum are left out.
unfoldable pub total_amount : FloatOps → List OrderItem → Float
total_amount f = foldl (λ acc item. f.add acc (f.scale item.quantity item.price)) f.zero_sum

-- `event_payload`
unfoldable pub event_payload : FloatOps → Uuid → Uuid → CreateOrderRequest → Option String → Payload
event_payload f order_id user_id body x_payment_simulate = record {
  order_id = some (str order_id);
  user_id = some (str user_id);
  restaurant_id = some (str body.restaurant_id);
  items = some (map item_data body.items);
  total_amount = some (total_amount f body.items);
  payment_simulate = if truthy x_payment_simulate then x_payment_simulate else none;
  reason = none;
}

abbrev pub has_key : String → Option String → Bool
has_key k none = false
has_key k (some j) = same_text j k

-- SELECT id, status FROM orders WHERE idempotency_key = $1 AND user_id = $2
unfoldable pub find_existing : String → Uuid → Table Order → Option (Uuid × Order)
find_existing k user_id [] = none
find_existing k user_id ((i, o) ∷ rows) =
    if has_key k o.idempotency_key && o.user_id == user_id
    then some (i, o)
    else find_existing k user_id rows

-- The UNIQUE constraint on `idempotency_key`, which NULL passes.
unfoldable pub key_taken : Option String → Table Order → Bool
key_taken none rows = false
key_taken (some k) [] = false
key_taken (some k) ((i, o) ∷ rows) = has_key k o.idempotency_key || key_taken (some k) rows

abbrev pub fits_varchar : ℕ → Option String → Bool
fits_varchar n none = true
fits_varchar n (some s) = leb (text_length s) n

-- INSERT INTO orders: the columns' types, then the constraints.
unfoldable pub insert_order : Uuid → Order → Tx Db Done
insert_order order_id o = do
  raise_if (not (fits_varchar 20 o.payment_simulate)) value_too_long
  raise_if (not (fits_varchar 255 o.idempotency_key)) value_too_long
  taken ← gets (λ (db : Db). is_some (lookup order_id db.orders))
  raise_if taken (unique_violation orders_pkey)
  clash ← gets (λ (db : Db). key_taken o.idempotency_key db.orders)
  raise_if clash (unique_violation orders_idempotency_key_key)
  modify (λ (db : Db). record db { orders = (order_id, o) ∷ db.orders })

abbrev pub cents_of : FloatOps → Float → Result ℤ
cents_of f x = elim (f.to_cents x) [ none ↦ err out_of_range | some c ↦ ok c ]

-- The row that the INSERT writes.
abbrev pub new_order :
    CreateDraw → Uuid → CreateOrderRequest → ℤ → Option String → Option String → Order
new_order d user_id body cents x_payment_simulate idempotency_key = record {
  user_id = user_id;
  restaurant_id = body.restaurant_id;
  items = map item_data body.items;
  total_amount = cents;
  status = pending;
  payment_simulate = x_payment_simulate;
  idempotency_key = idempotency_key;
  created_at = d.event.now;
  updated_at = d.event.now;
}

module _ (f : FloatOps) (d : CreateDraw) (body : CreateOrderRequest) (user_id : Uuid)
    (x_payment_simulate idempotency_key : Option String) where
  -- The transaction: the order and its event.
  unfoldable pub store_order : Tx Db Done
  store_order = transaction (do
    cents ← lift (cents_of f (total_amount f body.items))
    insert_order d.order_uuid (new_order d user_id body cents x_payment_simulate idempotency_key)
    publish d.event order_placed (str d.order_uuid)
        (event_payload f d.order_uuid user_id body x_payment_simulate))

abbrev pub accepted : CreateDraw → CreateResponse
accepted d = record {
  id = str d.order_uuid;
  status = pending;
  message = "Order accepted for processing";
}

abbrev pub already_accepted : Uuid × Order → CreateResponse
already_accepted (i, o) = record {
  id = str i;
  status = o.status;
  message = "Order already accepted (Idempotent response)";
}

-- The idempotency check, which is skipped without a key and with an empty one.
unfoldable pub check_existing : Uuid → Option String → Table Order → Option (Uuid × Order)
check_existing user_id none rows = none
check_existing user_id (some k) rows =
    if truthy (some k) then find_existing k user_id rows else none

-- `user_id` is the claim of the token (`user["user_id"]`), as a text.
unfoldable pub create_order :
    FloatOps
    → CreateDraw
    → CreateOrderRequest
    → IdText
    → Option String
    → Option String
    → Tx Db CreateResponse
create_order f d body user x_payment_simulate idempotency_key = do
  user_id ← lift (uuid_of user)
  existing ← gets (λ (db : Db). check_existing user_id idempotency_key db.orders)
  elim existing [
    | some row ↦ pure (already_accepted row)
    | none ↦ store_order f d body user_id x_payment_simulate idempotency_key >> pure (accepted d)
  ]
