-- ===== src/Order/Db.antt =====
-- order_db (services/order/migrations): the orders, and the tables of events.
use food_flow.Prelude.{ℕ, String, Option, List}
use food_flow.Prelude.Int.{ℤ}
use food_flow.Shared.Uuid.{Uuid, IdText}
use food_flow.Shared.Event.{Item, EventType, Payload, Draw, wrap_event}
use food_flow.Shared.Table.{Table}
use food_flow.Shared.Tables.{EventTables, insert_outbox, insert_processed}
use food_flow.Shared.Transaction.{Tx, Done}
use food_flow.Order.Status.{Status}

-- A row of `orders`; `total_amount` is DECIMAL(10, 2), in cents.
pub record Order : Type 0 where
  pub user_id : Uuid
  pub restaurant_id : Uuid
  pub items : List Item
  pub total_amount : ℤ
  pub status : Status
  pub payment_simulate : Option String
  pub idempotency_key : Option String
  pub created_at : ℕ
  pub updated_at : ℕ

pub record Db : Type 0 where
  pub orders : Table Order
  pub events : EventTables

-- A statement on the tables of events.
abbrev pub on_events : {A : Type 0} → Tx EventTables A → Tx Db A
on_events m db = let (r, t) = m db.events in (r, record db { events = t })

-- An INSERT of one event into the outbox, keyed by the order.
unfoldable pub publish : Draw → EventType → IdText → Payload → Tx Db Done
unfolding insert_outbox wrap_event
publish d topic order_id payload =
    on_events (insert_outbox d topic order_id (wrap_event d topic payload))

unfoldable pub mark_processed : Uuid → Tx Db Done
unfolding insert_processed
mark_processed event_id = on_events (insert_processed event_id)
