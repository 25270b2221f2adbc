-- ===== src/Saga.antt =====
-- The three services of the saga joined by their topics (SYSTEM_FLOW.md): requests, deliveries, deaths
-- of the payment handler and rounds of its worker, in any order.
pub mod Rows
pub mod Invariant
pub mod Outcomes
pub mod Offered
pub mod Charging
pub mod Growth
pub mod Ordering
pub mod Delivering
pub mod Placing
pub mod Answering
pub mod Stocking
pub mod Releasing
pub mod Reachable
pub mod Settled
pub mod Safety
pub mod Views
pub mod Completion
pub mod Compensation
use food_flow.Prelude.{ℕ, String, ◌≡◌, Bool, true, false, Option, List}
use food_flow.Prelude.Int.{ℤ}
use food_flow.Shared.Uuid.{Uuid, IdText}
use food_flow.Shared.Event.{
  EventType, order_placed, stock_reserved, stock_rejected, stock_release, payment_succeeded,
  payment_failed, Envelope, Draw,
}
use food_flow.Shared.Tables.{OutboxRow}
use food_flow.Shared.Outbox.Relay.{IsRow}
use food_flow.Order.Db as OrderDb
use food_flow.Order.Consumer as OrderConsumer
use food_flow.Order.Create.{FloatOps, CreateDraw, CreateOrderRequest, create_order}
use food_flow.Restaurant.Stock as Stock
use food_flow.Restaurant.Consumer as RestaurantConsumer
use food_flow.Payment.Db as PaymentDb
use food_flow.Payment.Consumer as PaymentConsumer
use food_flow.Payment.Consumer.{PaymentDraw, begin_payment}
use food_flow.Payment.Reconciliation.{reconcile_stuck_payments}

-- The databases of the three services.
pub record Saga : Type 0 where
  pub order : OrderDb.Db
  pub stock : Stock.Db
  pub payment : PaymentDb.Db

-- A message that can reach a consumer: a row of an outbox, which its relay sends, perhaps more than once.
pub data Offers (s : Saga) (t : EventType) (e : Envelope) : Type 0 where
  from_order :
      (r : OutboxRow) → IsRow r s.order.events.outbox → r.topic ≡ t → r.event ≡ e → Offers s t e
  from_stock :
      (r : OutboxRow) → IsRow r s.stock.events.outbox → r.topic ≡ t → r.event ≡ e → Offers s t e
  from_payment :
      (r : OutboxRow) → IsRow r s.payment.events.outbox → r.topic ≡ t → r.event ≡ e → Offers s t e

-- The topics that `run_consumer` of each service subscribes to.
abbrev pub order_takes : EventType → Bool
order_takes payment_succeeded = true
order_takes payment_failed = true
order_takes stock_rejected = true
order_takes _ = false

abbrev pub restaurant_takes : EventType → Bool
restaurant_takes order_placed = true
restaurant_takes stock_release = true
restaurant_takes _ = false

abbrev pub payment_takes : EventType → Bool
payment_takes stock_reserved = true
payment_takes _ = false

-- One step of the system, by what happens. `default` is PAYMENT_SIMULATE_DEFAULT.
pub data Step (f : FloatOps) (default : String) (s : Saga) : Saga → Type 0 where
  -- POST /orders
  places :
      (d : CreateDraw) (body : CreateOrderRequest) (user : IdText) (simulate key : Option String)
      → Step f default s (record s { order = (create_order f d body user simulate key s.order).1 })
  order_receives :
      (d : Draw) (t : EventType) (e : Envelope)
      → order_takes t ≡ true
      → Offers s t e
      → Step f default s (record s { order = (OrderConsumer.handle_message d e s.order).1 })
  restaurant_receives :
      (d : Draw) (t : EventType) (e : Envelope)
      → restaurant_takes t ≡ true
      → Offers s t e
      → Step f default s (record s { stock = (RestaurantConsumer.handle_message d e s.stock).1 })
  payment_receives :
      (d : PaymentDraw) (t : EventType) (e : Envelope)
      → payment_takes t ≡ true
      → Offers s t e
      → Step f default s (record s {
        payment = (PaymentConsumer.handle_message f.to_cents default d e s.payment).1;
      })
  -- The process dies between the two transactions.
  payment_dies :
      (d : PaymentDraw) (t : EventType) (e : Envelope)
      → payment_takes t ≡ true
      → Offers s t e
      → Step f default s (record s { payment = (begin_payment f.to_cents d e s.payment).1 })
  reconciles :
      (draws : ℕ → Draw) (now duration : ℕ)
      → Step f default s
          (record s { payment = (reconcile_stuck_payments default draws now duration s.payment).1 })

pub data Reach (f : FloatOps) (default : String) (s : Saga) : Saga → Type 0 where
  start : Reach f default s s
  later : {t u : Saga} → Reach f default s t → Step f default t u → Reach f default s u
