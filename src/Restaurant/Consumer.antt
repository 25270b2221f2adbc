-- ===== src/Restaurant/Consumer.antt =====
-- services/restaurant/consumers.py
pub mod Placing
pub mod Outcome
pub mod Safety
pub mod Decision
pub mod Idempotent
pub mod Stocked
use food_flow.Shared.Consumer.{Consumer, run_consumer, run_consumer-keeps}
use food_flow.Prelude.{Option, none, some, List, [], ◌∷◌, if◌then◌else◌}
use food_flow.Shared.Uuid.{Uuid, IdText}
use food_flow.Shared.Error.{
  Reason, Result, ok, err, insufficient_stock, unique_violation, stock_reservations_order_id_key,
}
use food_flow.Shared.Transaction.{
  Tx, pure, lift, gets, transaction, ◌>>=◌, ◌>>◌, Done, uuid_of, get_key,
}
use food_flow.Shared.Event.{
  Delivery, EventType, order_placed, stock_reserved, stock_rejected, stock_release, Payload,
  Envelope, Draw, order_only, wrap_event,
}
use food_flow.Shared.Tables.{EventTables, is_in, insert_outbox, insert_processed}
use food_flow.Restaurant.Stock.{Db, reserve_stock, release_stock}

-- A statement on the tables of events.
abbrev pub on_events : {A : Type 0} → Tx EventTables A → Tx Db A
on_events m db = let (r, t) = m db.events in (r, record db { events = t })

-- except InsufficientStockError as e: …
abbrev pub recover : (Reason → Tx Db Done) → Result Done × Db → Result Done × Db
recover handler (ok a, db) = (ok a, db)
recover handler (err (insufficient_stock e), db) = handler e db
recover handler (err e, db) = (err e, db)

-- except asyncpg.UniqueViolationError as e: the constraint's name decides.
abbrev pub swallow : Result Done × Db → Result Done × Db
swallow (err (unique_violation stock_reservations_order_id_key), db) = (ok tt, db)
swallow (r, db) = (r, db)

-- The savepoint around the call of `reserve_stock`.
unfoldable pub reserve_in_savepoint : IdText → Payload → Tx Db Done
reserve_in_savepoint order_id payload =
    transaction (lift (get_key payload.items) >>= reserve_stock order_id)

-- An INSERT of one event into the outbox, keyed by the order.
unfoldable pub publish : Draw → EventType → IdText → Payload → Tx Db Done
unfolding insert_outbox wrap_event
publish d topic order_id payload =
    on_events (insert_outbox d topic order_id (wrap_event d topic payload))

-- {"order_id": order_id, "reason": str(e)}
abbrev pub rejection : IdText → Reason → Payload
rejection order_id e = record (order_only order_id) { reason = some e }

-- if event_type == "order.placed": …
unfoldable pub on_order_placed : Draw → IdText → Payload → Tx Db Done
on_order_placed d order_id payload db =
    recover (λ e. publish d stock_rejected order_id (rejection order_id e))
      ((reserve_in_savepoint order_id payload >> publish d stock_reserved order_id payload) db)

unfoldable pub mark_processed : Uuid → Tx Db Done
unfolding insert_processed
mark_processed event_id = on_events (insert_processed event_id)

-- The chain of tests on `event_type`; an unknown type returns before the mark.
unfoldable pub dispatch : Draw → Uuid → IdText → Payload → EventType → Tx Db Done
dispatch d event_id order_id payload order_placed =
    on_order_placed d order_id payload >> mark_processed event_id
dispatch d event_id order_id payload stock_release =
    release_stock order_id >> mark_processed event_id
dispatch d event_id order_id payload _ = pure tt

-- The body of the transaction.
unfoldable pub process : Draw → Uuid → Envelope → Tx Db Done
process d event_id envelope = do
  existing ← gets (λ (db : Db). is_in event_id db.events.processed)
  if existing then pure tt else (do
    order_id ← lift (get_key envelope.payload.order_id)
    dispatch d event_id order_id envelope.payload envelope.event_type)

unfoldable pub handle_event : Draw → Uuid → Envelope → Tx Db Done
handle_event d event_id envelope db = swallow (transaction (process d event_id envelope) db)

unfoldable pub handle_message : Draw → Envelope → Tx Db Done
handle_message d envelope =
    lift (uuid_of envelope.event_id) >>= λ event_id. handle_event d event_id envelope

abbrev pub deliver : Delivery → Tx Db Done
deliver (d, envelope) = handle_message d envelope

-- `run_consumer`, over the batches that it fetches before the shutdown.
unfoldable pub run : List (List Delivery) → Consumer Db → Consumer Db
run = run_consumer deliver
