-- ===== src/Payment/Db.antt =====
-- payment_db (services/payment/migrations): the payments, and the tables of events.
use food_flow.Prelude.{ℕ, String, Bool, true, false, ◌||◌, Option, [], ◌∷◌, ◌==◌}
use food_flow.Prelude.Int.{ℤ}
use food_flow.Shared.Uuid.{Uuid, IdText}
use food_flow.Shared.Event.{
  EventType, payment_succeeded, payment_failed, Draw, wrap_event, order_only,
}
use food_flow.Shared.Table.{Table}
use food_flow.Shared.Tables.{EventTables, insert_outbox, insert_processed}
use food_flow.Shared.Transaction.{Tx, Done}

-- The texts of the `status` column that the service writes.
pub data PaymentStatus : Type 0 where
  processing succeeded failed : PaymentStatus

-- A row of `payments`; `amount` is DECIMAL(10, 2), in cents.
pub record Payment : Type 0 where
  pub order_id : Uuid
  pub amount : ℤ
  pub status : PaymentStatus
  pub payment_simulate : Option String
  pub created_at : ℕ
  pub updated_at : ℕ

pub record Db : Type 0 where
  pub payments : Table Payment
  pub events : EventTables

-- A statement on the tables of events.
abbrev pub on_events : {A : Type 0} → Tx EventTables A → Tx Db A
on_events m db = let (r, t) = m db.events in (r, record db { events = t })

-- "SUCCEEDED" if success else "FAILED"
abbrev pub outcome_status : Bool → PaymentStatus
outcome_status true = succeeded
outcome_status false = failed

-- "payment.succeeded" if success else "payment.failed"
abbrev pub outcome_topic : Bool → EventType
outcome_topic true = payment_succeeded
outcome_topic false = payment_failed

-- The INSERT of the outcome event, {"order_id": order_id}, keyed by the order.
unfoldable pub publish_outcome : Draw → IdText → Bool → Tx Db Done
unfolding insert_outbox wrap_event
publish_outcome d order_id success = on_events (
    insert_outbox d (outcome_topic success) order_id
      (wrap_event d (outcome_topic success) (order_only order_id)))

unfoldable pub mark_processed : Uuid → Tx Db Done
unfolding insert_processed
mark_processed event_id = on_events (insert_processed event_id)

-- The UNIQUE constraint on `order_id`.
unfoldable pub order_paid : Uuid → Table Payment → Bool
order_paid o [] = false
order_paid o ((i, p) ∷ rows) = p.order_id == o || order_paid o rows
