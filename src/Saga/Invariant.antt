-- ===== src/Saga/Invariant.antt =====
-- What holds of the three databases together, in every state that the saga reaches.
use food_flow.Prelude.{◌+◌, ◌≤◌, ◌≡◌, true, false, Option, some, List}
use food_flow.Prelude.Int.{ℤ}
use food_flow.Shared.Uuid.{Uuid, str}
use food_flow.Shared.Event.{Float, Item, order_placed}
use food_flow.Shared.Table.{Table, lookup}
use food_flow.Shared.Tables.{OutboxRow, is_in}
use food_flow.Shared.Outbox.Relay.{IsRow}
use food_flow.Order.Status.{Status, confirmed, payment_failed, stock_unavailable, other}
use food_flow.Order.Db.{Order}
use food_flow.Order.Consumer.Invariant.{releases}
use food_flow.Order.Consumer.Invariant as OrderInvariant
use food_flow.Restaurant.Stock as Stock
use food_flow.Restaurant.Stock.Contract as StockContract
use food_flow.Payment.Db.{Payment, order_paid}
use food_flow.Payment.Db as PaymentDb
use food_flow.Payment.Count.{outcomes}
use food_flow.Payment.Outcomes as PaymentOutcomes
use food_flow.Saga.{Saga}
use food_flow.Saga.Rows.{IsSound, AllRows, order_sends, stock_sends, payment_sends, answers}

-- The order.placed rows of one order are of one event.
abbrev pub IsSingle : List OutboxRow → Type 0
IsSingle rows =
    (o : Uuid) (r r' : OutboxRow)
    → IsRow r rows
    → IsRow r' rows
    → r.topic ≡ order_placed
    → r'.topic ≡ order_placed
    → r.key ≡ some (str o)
    → r'.key ≡ some (str o)
    → r.event.event_id ≡ r'.event.event_id

abbrev pub HasOrder : Table Order → Uuid → Type 0
HasOrder orders o = (r : Order) × (lookup o orders ≡ some r)

-- The restaurant's answers: an order has one at most, and then its order.placed event is marked; one that
-- was accepted keeps its reservation, of the order's own lines, until a release is asked for.
pub record IsDecided (orders : Table Order) (placed : List OutboxRow) (db : Stock.Db) : Type 0 where
  pub once : (o : Uuid) → answers true o db.events.outbox + answers false o db.events.outbox ≤ 1
  pub known :
      (o : Uuid)
      → 1 ≤ answers true o db.events.outbox + answers false o db.events.outbox
      → HasOrder orders o
  pub marked :
      (o : Uuid)
      → 1 ≤ answers true o db.events.outbox + answers false o db.events.outbox
      → (r : OutboxRow) → IsRow r placed
      → r.topic ≡ order_placed
      → r.key ≡ some (str o)
      → (u : Uuid) × (r.event.event_id ≡ str u) × (is_in u db.events.processed ≡ true)
  pub kept :
      (o : Uuid)
      → 1 ≤ answers true o db.events.outbox
      → releases o placed ≡ 0
      → (items : List Item) × (lookup o db.reservations ≡ some items)
  pub lines :
      (o : Uuid) (items : List Item)
      → lookup o db.reservations ≡ some items
      → (1 ≤ answers true o db.events.outbox)
        × ((r : Order) × (lookup o orders ≡ some r) × (items ≡ r.items))

-- A payment is of an order that was accepted, and of the order's own total.
pub record IsCharged (orders : Table Order) (answered : List OutboxRow) (db : PaymentDb.Db)
    : Type 0 where
  pub paid : (o : Uuid) → order_paid o db.payments ≡ true → 1 ≤ answers true o answered
  pub amounts :
      (i : Uuid) (p : Payment)
      → lookup i db.payments ≡ some p
      → (r : Order) × (lookup p.order_id orders ≡ some r) × (p.amount ≡ r.total_amount)

-- The event that a status is the answer to; no other status than the four is reached.
abbrev pub Explains : Status → Uuid → List OutboxRow → List OutboxRow → Type 0
Explains confirmed o answered settled = 1 ≤ outcomes true o settled
Explains payment_failed o answered settled = 1 ≤ outcomes false o settled
Explains stock_unavailable o answered settled = 1 ≤ answers false o answered
Explains Status.pending o answered settled = Unit
Explains (other s) o answered settled = ⊥

abbrev pub IsExplained : Table Order → List OutboxRow → List OutboxRow → Type 0
IsExplained orders answered settled =
    (o : Uuid) (r : Order) → lookup o orders ≡ some r → Explains r.status o answered settled

pub record Consistent (to_cents : Float → Option ℤ) (s : Saga) : Type 0 where
  pub order_valid : OrderInvariant.IsValid s.order
  pub stock_valid : StockContract.IsValid s.stock
  pub payment_valid : PaymentOutcomes.IsValid s.payment
  pub order_rows : AllRows (IsSound to_cents order_sends s.order.orders) s.order.events.outbox
  pub stock_rows : AllRows (IsSound to_cents stock_sends s.order.orders) s.stock.events.outbox
  pub payment_rows : AllRows (IsSound to_cents payment_sends s.order.orders) s.payment.events.outbox
  pub single : IsSingle s.order.events.outbox
  pub decided : IsDecided s.order.orders s.order.events.outbox s.stock
  pub charged : IsCharged s.order.orders s.stock.events.outbox s.payment
  pub explained : IsExplained s.order.orders s.stock.events.outbox s.payment.events.outbox
