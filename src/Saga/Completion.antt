-- ===== src/Saga/Completion.antt =====
-- One order seen through: the deliveries that take it from its order.placed event to its end.
pub mod Paying
pub mod Moving
pub mod Placed
pub mod Run
use food_flow.Prelude.{
  ◌+◌, ◌≤◌, String, ◌≡◌, refl, sym, ap, subst, ◌∙◌, Bool, true, false, Option, some, none, [], ◌∷◌,
  ◌++◌, arith, inl, inr, ◌⊎◌, Option-cases, Bool-cases, leb,
}
use food_flow.Prelude.Int.{ℤ}
use food_flow.Shared.Uuid.{Uuid, IdText, str}
use food_flow.Shared.Error.{Reason, ok}
use food_flow.Shared.Event.{
  Float, order_placed, stock_reserved, stock_rejected, payment_succeeded, payment_failed, Envelope,
  Draw, wrap_event, order_only,
}
use food_flow.Shared.Table.{lookup}
use food_flow.Shared.Tables.{OutboxRow, is_in, has_row}
use food_flow.Shared.Outbox.Relay.{IsRow}
use food_flow.Order.Status.{Status, pending, confirmed, stock_unavailable}
use food_flow.Order.Status
use food_flow.Order.Db.{Order}
use food_flow.Order.Consumer as OrderConsumer
use food_flow.Order.Create.{FloatOps}
use food_flow.Order.Transition.{moved}
use food_flow.Restaurant.Stock.Demand.{IsWellFormed, IsCovered}
use food_flow.Restaurant.Consumer as RestaurantConsumer
use food_flow.Restaurant.Consumer.{rejection}
use food_flow.Restaurant.Consumer.Decision.{order_placed_outcome}
use food_flow.Payment.Db.{order_paid, outcome_topic}
use food_flow.Payment.Gateway.{process_payment}
use food_flow.Payment.Consumer as PaymentConsumer
use food_flow.Payment.Consumer.{PaymentDraw, fits_varchar}
use food_flow.Saga.{
  Saga, Offers, from_order, from_stock, from_payment, Step, order_receives, restaurant_receives,
  payment_receives, Reach, start, later,
}
use food_flow.Saga.Safety.{Agrees}
use food_flow.Saga.Rows.{answers}
use food_flow.Saga.Invariant.{Consistent}
use food_flow.Saga.Completion.Paying.{charges}
use food_flow.Saga.Completion.Moving.{confirms, gives_up, compensates, finds_moved}

-- A delivery of a message to each of the services.
abbrev pub stock_turn : Draw → Envelope → Saga → Saga
stock_turn d e s = record s { stock = (RestaurantConsumer.handle_message d e s.stock).1 }

abbrev pub payment_turn : FloatOps → String → PaymentDraw → Envelope → Saga → Saga
payment_turn f default p e s = record s {
  payment = (PaymentConsumer.handle_message f.to_cents default p e s.payment).1;
}

abbrev pub order_turn : Draw → Envelope → Saga → Saga
order_turn q e s = record s { order = (OrderConsumer.handle_message q e s.order).1 }

-- A PENDING order whose order.placed event the restaurant service has not read.
pub record IsPlaced (o : Uuid) (r : Order) (u : Uuid) (e : Envelope) (s : Saga) : Type 0 where
  pub is_row : lookup o s.order.orders ≡ some r
  pub waits : r.status ≡ pending
  pub offered : Offers s order_placed e
  pub is_id : e.event_id ≡ str u
  pub has_order : e.payload.order_id ≡ some (str o)
  pub unread : is_in u s.stock.events.processed ≡ false
  pub well_formed : IsWellFormed r.items
  pub short : fits_varchar 20 e.payload.payment_simulate ≡ true

-- The ids that the deliveries draw are new.
pub record AreFresh (d : Draw) (p : PaymentDraw) (q : Draw) (s : Saga) : Type 0 where
  pub answer : has_row d.row_uuid s.stock.events.outbox ≡ false
  pub uncharged : is_in d.event_uuid s.payment.events.processed ≡ false
  pub unrejected : is_in d.event_uuid s.order.events.processed ≡ false
  pub payment : lookup p.payment_uuid s.payment.payments ≡ none
  pub outcome : has_row p.outcome.row_uuid s.payment.events.outbox ≡ false
  pub unsettled : is_in p.outcome.event_uuid s.order.events.processed ≡ false
  pub release : has_row q.row_uuid s.order.events.outbox ≡ false

-- What the gateway's answer makes of the order.
abbrev pub ended_status : Bool → Status
ended_status true = confirmed
ended_status false = Status.payment_failed

-- The order.placed event, the stock.reserved event and the outcome of the payment, delivered in turn.
abbrev pub charged_saga :
    FloatOps → String → Draw → PaymentDraw → Draw → Uuid → Envelope → Saga → Saga
charged_saga f default d p q o e s =
    let b = process_payment default e.payload.payment_simulate in
    order_turn q (wrap_event p.outcome (outcome_topic b) (order_only (str o)))
      (payment_turn f default p (wrap_event d stock_reserved e.payload) (stock_turn d e s))

-- The order.placed event and the stock.rejected event, delivered in turn.
abbrev pub rejected_saga : Draw → Draw → Uuid → Envelope → Reason → Saga → Saga
rejected_saga d q o e why s =
    order_turn q (wrap_event d stock_rejected (rejection (str o) why)) (stock_turn d e s)

-- The state `t` is reached from `s`, and the order, whose row was `r`, is over in it, at the time of the
-- draw, in a status that the other services agree with.
abbrev pub EndsIn : FloatOps → String → Draw → Uuid → Order → Saga → Status → Saga → Type 0
EndsIn f default q o r s st t =
    Reach f default s t
    × (lookup o t.order.orders ≡ some (moved q.now st r))
    × Agrees st o (moved q.now st r) t
