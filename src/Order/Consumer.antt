-- ===== src/Order/Consumer.antt =====
-- services/order/consumers.py
pub mod Outcome
pub mod Delivered
pub mod Invariant
pub mod Idempotent
use food_flow.Prelude.{Option, none, some, List, [], ◌∷◌, if◌then◌else◌}
use food_flow.Shared.Uuid.{Uuid, IdText, str}
use food_flow.Shared.Error.{Result, ok, err}
use food_flow.Shared.Transaction.{
  Tx, pure, lift, gets, transaction, ◌>>=◌, ◌>>◌, Done, uuid_of, get_key,
}
use food_flow.Shared.Event.{
  EventType, payment_succeeded, payment_failed, stock_rejected, stock_release, Payload, Envelope,
  Draw, Delivery, order_only,
}
use food_flow.Shared.Tables.{is_in}
use food_flow.Shared.Consumer.{Consumer, run_consumer}
use food_flow.Order.Status.{confirmed, stock_unavailable}
use food_flow.Order.Status
use food_flow.Order.Db.{Db, publish, mark_processed}
use food_flow.Order.Transition.{transition_order}

-- The business logic of the event types that the service subscribes to.
unfoldable pub on_payment_failed : Draw → Uuid → Tx Db Done
on_payment_failed d order_id = do
  transition_order d.now order_id Status.payment_failed
  publish d stock_release (str order_id) (order_only (str order_id))

-- The chain of tests on `event_type`; an unknown type returns before the mark.
unfoldable pub dispatch : Draw → Uuid → Uuid → EventType → Tx Db Done
dispatch d event_id order_id payment_succeeded =
    transition_order d.now order_id confirmed >> mark_processed event_id
dispatch d event_id order_id payment_failed =
    on_payment_failed d order_id >> mark_processed event_id
dispatch d event_id order_id stock_rejected =
    transition_order d.now order_id stock_unavailable >> mark_processed event_id
dispatch d event_id order_id _ = pure tt

-- The body of the transaction.
unfoldable pub process : Draw → Uuid → Envelope → Tx Db Done
process d event_id envelope = do
  existing ← gets (λ (db : Db). is_in event_id db.events.processed)
  if existing then pure tt else (do
    text ← lift (get_key envelope.payload.order_id)
    order_id ← lift (uuid_of text)
    dispatch d event_id order_id envelope.event_type)

unfoldable pub handle_message : Draw → Envelope → Tx Db Done
handle_message d envelope =
    lift (uuid_of envelope.event_id) >>= λ event_id. transaction (process d event_id envelope)

abbrev pub deliver : Delivery → Tx Db Done
deliver (d, envelope) = handle_message d envelope

-- `run_consumer`, over the batches that it fetches before the shutdown.
unfoldable pub run : List (List Delivery) → Consumer Db → Consumer Db
run = run_consumer deliver
