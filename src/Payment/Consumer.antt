-- ===== src/Payment/Consumer.antt =====
-- services/payment/consumers.py: intent, gateway, outcome.
use food_flow.Prelude.{
  List, ℕ, String, Bool, true, not, Option, none, some, ◌∷◌, if◌then◌else◌, leb,
}
use food_flow.Prelude.Int.{ℤ}
use food_flow.Shared.Consumer.{Consumer, run_consumer}
use food_flow.Shared.Uuid.{Uuid, IdText}
use food_flow.Shared.Text.{text_length}
use food_flow.Shared.Error.{
  Result, ok, err, out_of_range, value_too_long, unique_violation, payments_pkey,
  payments_order_id_key,
}
use food_flow.Shared.Event.{Float, Envelope, Draw}
use food_flow.Shared.Table.{lookup, set_row, is_some}
use food_flow.Shared.Tables.{is_in}
use food_flow.Shared.Transaction.{
  Tx, Done, pure, lift, gets, raise_if, modify, transaction, uuid_of, get_key, ◌>>=◌, ◌>>◌,
}
use food_flow.Payment.Gateway.{process_payment}
use food_flow.Payment.Db.{
  PaymentStatus, processing, Payment, Db, outcome_status, publish_outcome, mark_processed,
  order_paid,
}

-- What one call draws: the id and the NOW() of the first transaction, and the draws of the second.
pub record PaymentDraw : Type 0 where
  pub payment_uuid : Uuid
  pub now : ℕ
  pub outcome : Draw

abbrev pub fits_varchar : ℕ → Option String → Bool
fits_varchar n none = true
fits_varchar n (some s) = leb (text_length s) n

abbrev pub cents_of : (Float → Option ℤ) → Float → Result ℤ
cents_of to_cents x = elim (to_cents x) [ none ↦ err out_of_range | some c ↦ ok c ]

-- The row that the INSERT writes.
abbrev pub new_payment : PaymentDraw → Uuid → ℤ → Option String → Payment
new_payment d order_id amount simulate = record {
  order_id = order_id;
  amount = amount;
  status = processing;
  payment_simulate = simulate;
  created_at = d.now;
  updated_at = d.now;
}

-- INSERT INTO payments … RETURNING id
unfoldable pub insert_payment : Uuid → Payment → Tx Db Uuid
insert_payment payment_id p = do
  raise_if (not (fits_varchar 20 p.payment_simulate)) value_too_long
  taken ← gets (λ (db : Db). is_some (lookup payment_id db.payments))
  raise_if taken (unique_violation payments_pkey)
  clash ← gets (λ (db : Db). order_paid p.order_id db.payments)
  raise_if clash (unique_violation payments_order_id_key)
  modify (λ (db : Db). record db { payments = (payment_id, p) ∷ db.payments })
  pure payment_id

-- except asyncpg.UniqueViolationError as e: the constraint's name decides.
abbrev pub swallow : Result (Option Uuid) × Db → Result (Option Uuid) × Db
swallow (err (unique_violation payments_order_id_key), db) = (ok none, db)
swallow (r, db) = (r, db)

module _ (to_cents : Float → Option ℤ) (d : PaymentDraw) where
  -- The INSERTs of the first transaction.
  unfoldable pub insert_intent : Uuid → IdText → Float → Option String → Tx Db (Option Uuid)
  unfolding insert_payment
  insert_intent event_id order_id amount simulate = do
    order_uuid ← lift (uuid_of order_id)
    cents ← lift (cents_of to_cents amount)
    payment_id ← insert_payment d.payment_uuid (new_payment d order_uuid cents simulate)
    mark_processed event_id
    pure (some payment_id)

  -- Transaction 1. It gives the payment's id, or none where the call returns early.
  unfoldable pub record_intent : Uuid → IdText → Float → Option String → Tx Db (Option Uuid)
  record_intent event_id order_id amount simulate db = swallow (
      transaction
        (gets (λ (s : Db). is_in event_id s.events.processed) >>= λ existing.
          if existing then pure none else insert_intent event_id order_id amount simulate)
        db)

-- UPDATE payments SET status = $1, updated_at = NOW() WHERE id = $2
unfoldable pub update_status : ℕ → Uuid → PaymentStatus → Tx Db Done
update_status now payment_id status db = elim (lookup payment_id db.payments) [
  | none ↦ (ok tt, db)
  | some p ↦ (
    ok tt,
    record db {
      payments = set_row payment_id (record p { status = status; updated_at = now }) db.payments;
    },
  )
]

-- Transaction 2.
unfoldable pub record_outcome : Draw → Uuid → IdText → Bool → Tx Db Done
record_outcome d payment_id order_id success =
    transaction (do
      update_status d.now payment_id (outcome_status success)
      publish_outcome d order_id success)

-- The call up to the commit of transaction 1.
unfoldable pub begin_payment : (Float → Option ℤ) → PaymentDraw → Envelope → Tx Db (Option Uuid)
begin_payment to_cents d envelope = do
  event_id ← lift (uuid_of envelope.event_id)
  order_id ← lift (get_key envelope.payload.order_id)
  amount ← lift (get_key envelope.payload.total_amount)
  record_intent to_cents d event_id order_id amount envelope.payload.payment_simulate

-- The rest of the call: the gateway and transaction 2.
unfoldable pub finish_payment : String → PaymentDraw → Envelope → Option Uuid → Tx Db Done
finish_payment default d envelope none = pure tt
finish_payment default d envelope (some payment_id) = do
  order_id ← lift (get_key envelope.payload.order_id)
  record_outcome d.outcome payment_id order_id
      (process_payment default envelope.payload.payment_simulate)

unfoldable pub handle_message : (Float → Option ℤ) → String → PaymentDraw → Envelope → Tx Db Done
handle_message to_cents default d envelope =
    begin_payment to_cents d envelope >>= finish_payment default d envelope

-- A message as it is delivered once, with what its handler draws then.
abbrev pub PaymentDelivery : Type 0
PaymentDelivery = PaymentDraw × Envelope

-- `run_consumer`, over the batches that it fetches before the shutdown.
unfoldable pub run :
    (Float → Option ℤ) → String → List (List PaymentDelivery) → Consumer Db → Consumer Db
run to_cents default = run_consumer (λ m. handle_message to_cents default m.0 m.1)
