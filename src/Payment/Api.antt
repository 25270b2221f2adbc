-- ===== src/Payment/Api.antt =====
-- GET /payments/order/{order_id}: services/payment/routes.py.
use food_flow.Prelude.{String, Option, none, some, [], ◌∷◌, ◌==◌, if◌then◌else◌}
use food_flow.Shared.Uuid.{Uuid}
use food_flow.Shared.Error.{Result, ok, err, http}
use food_flow.Shared.Event.{Float}
use food_flow.Shared.Table.{Table}
use food_flow.Shared.Response.{Texts}
use food_flow.Shared.Transaction.{Tx, gets, lift, ◌>>=◌}
use food_flow.Payment.Db.{Payment, PaymentStatus, processing, succeeded, failed, Db}

pub record PaymentResponse : Type 0 where
  pub id : String
  pub order_id : String
  pub amount : Float
  pub status : String
  pub created_at : String
  pub updated_at : String

-- The text of the `status` column.
abbrev pub payment_status_text : PaymentStatus → String
payment_status_text processing = "PROCESSING"
payment_status_text succeeded = "SUCCEEDED"
payment_status_text failed = "FAILED"

-- SELECT * FROM payments WHERE order_id = $1
unfoldable pub find_payment : Uuid → Table Payment → Option (Uuid × Payment)
find_payment order_id [] = none
find_payment order_id ((i, p) ∷ rows) =
    if p.order_id == order_id then some (i, p) else find_payment order_id rows

abbrev pub payment_response : Texts → Uuid → Payment → PaymentResponse
payment_response x i p = record {
  id = x.uuid_text i;
  order_id = x.uuid_text p.order_id;
  amount = x.amount p.amount;
  status = payment_status_text p.status;
  created_at = x.time_text p.created_at;
  updated_at = x.time_text p.updated_at;
}

-- What follows the SELECT.
abbrev pub show_payment : Texts → Option (Uuid × Payment) → Result PaymentResponse
show_payment x none = err (http 404)
show_payment x (some (i, p)) = ok (payment_response x i p)

unfoldable pub get_payment_status : Texts → Uuid → Tx Db PaymentResponse
get_payment_status x order_id = do
  row ← gets (λ (db : Db). find_payment order_id db.payments)
  lift (show_payment x row)
