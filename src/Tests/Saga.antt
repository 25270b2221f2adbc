-- ===== src/Tests/Saga.antt =====
-- One order that goes through all three services.
use food_flow.Prelude.{ℕ, ◌+◌, ◌*◌, ◌≡◌, ◌≢◌, refl, none, some, List, [], ◌∷◌, arith, inl}
use food_flow.Prelude.Int.{ℤ, pos, negsuc, ◌-ℤ◌, ◌+ℤ◌, ◌≤ℤ◌}
use food_flow.Shared.Uuid.{str}
use food_flow.Shared.Text.{text_length}
use food_flow.Shared.Event.{
  Item, Envelope, Draw, order_placed, stock_reserved, payment_succeeded, order_only, wrap_event,
}
use food_flow.Shared.Table.{lookup, set_row}
use food_flow.Shared.Tables.{OutboxRow, is_in, has_row, new_row, insert_outbox, insert_processed}
use food_flow.Shared.Transaction.{transaction}
use food_flow.Order.Status.{
  stock_unavailable, confirmed, is_allowed, get_allowed, contains, same_status,
}
use food_flow.Order.Db.{Order}
use food_flow.Order.Db as OrderDb
use food_flow.Order.Transition.{transition_order, transition_row}
use food_flow.Order.Consumer as OrderConsumer
use food_flow.Order.Create.{
  FloatOps, CreateOrderRequest, CreateDraw, create_order, check_existing, find_existing,
  store_order, insert_order, key_taken, total_amount, event_payload, new_order,
}
use food_flow.Restaurant.Stock.{
  reserve_stock, reserve_items, reserve_item, update_stock, check_stock, insert_reservation,
}
use food_flow.Restaurant.Consumer as RestaurantConsumer
use food_flow.Payment.Consumer as PaymentConsumer
use food_flow.Payment.Db as PaymentDb
use food_flow.Payment.Gateway.{process_payment, is_failure}
use food_flow.Shared.Outbox.Relay.{IsRow}
use food_flow.Saga.{
  Saga, places, order_receives, restaurant_receives, payment_receives, Reach, start, later,
  from_order, from_stock, from_payment,
}
use food_flow.Restaurant.Stock.Held.{held}
use food_flow.Payment.Db.{order_paid, publish_outcome, Payment, succeeded}
use food_flow.Payment.Consumer.{
  PaymentDraw, begin_payment, record_intent, insert_intent, finish_payment, record_outcome,
  insert_payment, update_status, new_payment,
}
use food_flow.Payment.Count.{HasUniqueOrders}
use food_flow.Saga.Reachable.{IsFresh}
use food_flow.Shared.Response.{Texts}
use food_flow.Payment.Api.{get_payment_status}
use food_flow.Saga.Views.{ShowsPayment, order-ShowsPayment}
use food_flow.Saga.Safety.{Agrees, order-Agrees, payment_backed, reservation_backed, never_oversold}

-- Whole numbers in place of floats.
abbrev pub whole_prices : FloatOps
whole_prices = record {
  zero_sum = 0;
  scale = λ q price. elim q [ pos n ↦ n * price | negsuc _ ↦ 0 ];
  add = λ a b. a + b;
  to_cents = λ x. some (pos (x * 100));
}

-- Five of item 7 in stock, and nothing else.
abbrev pub opening : Saga
opening = record {
  order = record { orders = []; events = record { outbox = []; processed = [] } };
  stock = record {
    stock = (7, pos 5) ∷ [];
    reservations = [];
    events = record { outbox = []; processed = [] };
  };
  payment = record { payments = []; events = record { outbox = []; processed = [] } };
}

abbrev pub nth_draw : ℕ → Draw
nth_draw n = record { event_uuid = 100 + n; row_uuid = 200 + n; clock = n; now = n }

abbrev pub two_of_seven : CreateOrderRequest
two_of_seven = record {
  restaurant_id = 3;
  items = record { item_id = 7; quantity = pos 2; price = 10 } ∷ [];
}

abbrev pub first_draw : CreateDraw
first_draw = record { order_uuid = 1; event = nth_draw 1 }

abbrev pub ordered : Saga
ordered = record opening {
  order = (create_order whole_prices first_draw two_of_seven (str 8) none none opening.order).1;
}

abbrev pub order_event : Envelope
order_event =
    wrap_event (nth_draw 1) order_placed (event_payload whole_prices 1 8 two_of_seven none)

abbrev pub order_row : OutboxRow
order_row = new_row (nth_draw 1) order_placed (str 1) order_event

pub order_is_sent : IsRow order_row ordered.order.events.outbox
unfolding create_order check_existing find_existing store_order transaction insert_order text_length
    lookup key_taken OrderDb.publish insert_outbox has_row
order_is_sent = inl refl

abbrev pub reserved : Saga
reserved = record ordered {
  stock = (RestaurantConsumer.handle_message (nth_draw 2) order_event ordered.stock).1;
}

abbrev pub stock_event : Envelope
stock_event = wrap_event (nth_draw 2) stock_reserved order_event.payload

abbrev pub stock_row : OutboxRow
stock_row = new_row (nth_draw 2) stock_reserved (str 1) stock_event

pub stock_is_sent : IsRow stock_row reserved.stock.events.outbox
unfolding reserve_stock reserve_items reserve_item update_stock check_stock insert_reservation
    lookup set_row ◌-ℤ◌ RestaurantConsumer.handle_message RestaurantConsumer.handle_event
    transaction RestaurantConsumer.process RestaurantConsumer.dispatch is_in
    RestaurantConsumer.on_order_placed RestaurantConsumer.reserve_in_savepoint
    RestaurantConsumer.publish RestaurantConsumer.mark_processed insert_outbox has_row
    insert_processed wrap_event event_payload
stock_is_sent = inl refl

abbrev pub payment_draw : PaymentDraw
payment_draw = record { payment_uuid = 30; now = 3; outcome = nth_draw 3 }

abbrev paid : Saga
paid = record reserved {
  payment =
      (PaymentConsumer.handle_message whole_prices.to_cents "success" payment_draw stock_event
        reserved.payment).1;
}

abbrev payment_event : Envelope
payment_event = wrap_event (nth_draw 3) payment_succeeded (order_only (str 1))

abbrev payment_row : OutboxRow
payment_row = new_row (nth_draw 3) payment_succeeded (str 1) payment_event

payment_is_sent : IsRow payment_row paid.payment.events.outbox
unfolding PaymentConsumer.handle_message begin_payment record_intent transaction is_in insert_intent
    insert_payment text_length lookup order_paid PaymentDb.mark_processed insert_processed
    finish_payment record_outcome update_status set_row process_payment is_failure publish_outcome
    insert_outbox has_row wrap_event event_payload
payment_is_sent = inl refl

abbrev over : Saga
over = record paid {
  order = (OrderConsumer.handle_message (nth_draw 4) payment_event paid.order).1;
}

abbrev last_row : Order
last_row = record (new_order first_draw 8 two_of_seven (pos 2000) none none) {
  status = confirmed;
  updated_at = 4;
}

is_confirmed : lookup 1 over.order.orders ≡ some last_row
unfolding create_order check_existing find_existing store_order transaction insert_order text_length
    lookup set_row key_taken OrderDb.publish OrderDb.mark_processed insert_outbox insert_processed
    has_row OrderConsumer.handle_message OrderConsumer.process OrderConsumer.dispatch is_in
    transition_order is_allowed get_allowed contains same_status transition_row wrap_event
    total_amount
is_confirmed = refl

pub opening-IsFresh : IsFresh opening
opening-IsFresh = record {
  in_range = λ i q h. unfold lookup in ground arith;
  no_orders = refl;
  no_reservations = refl;
  no_payments = refl;
  none_placed = refl;
  none_answered = refl;
  none_settled = refl;
}

pub Reach-reserved : Reach whole_prices "success" opening reserved
Reach-reserved = later (later start (places first_draw two_of_seven (str 8) none none)) (
    restaurant_receives (nth_draw 2) order_placed order_event refl
      (from_order order_row order_is_sent refl refl))

Reach-paid : Reach whole_prices "success" opening paid
Reach-paid = later Reach-reserved (
    payment_receives payment_draw stock_reserved stock_event refl
      (from_stock stock_row stock_is_sent refl refl))

Reach-over : Reach whole_prices "success" opening over
Reach-over = later Reach-paid (
    order_receives (nth_draw 4) payment_succeeded payment_event refl
      (from_payment payment_row payment_is_sent refl refl))

order-Agrees_example : Agrees confirmed 1 last_row over
order-Agrees_example =
    order-Agrees whole_prices "success" 1 last_row opening-IsFresh Reach-over is_confirmed

-- The payment of the order.
abbrev charge : Payment
charge = record (new_payment payment_draw 1 (pos 2000) none) { status = succeeded; updated_at = 3 }

is_charged : lookup 30 paid.payment.payments ≡ some charge
unfolding PaymentConsumer.handle_message begin_payment record_intent transaction is_in insert_intent
    insert_payment text_length lookup order_paid PaymentDb.mark_processed insert_processed
    finish_payment record_outcome update_status set_row process_payment is_failure publish_outcome
    insert_outbox has_row wrap_event event_payload total_amount
is_charged = refl

payment_backed_example :
    ((r : Order) × (lookup 1 paid.order.orders ≡ some r)
      × (pos 2000 ≡ r.total_amount)
      × (r.status ≢ stock_unavailable))
    × HasUniqueOrders paid.payment.payments
payment_backed_example =
    payment_backed whole_prices "success" 30 charge opening-IsFresh Reach-paid is_charged

abbrev two_items : List Item
two_items = record { item_id = str 7; quantity = pos 2; price = 10 } ∷ []

is_reserved : lookup 1 reserved.stock.reservations ≡ some two_items
unfolding reserve_stock reserve_items reserve_item update_stock check_stock insert_reservation
    lookup set_row ◌-ℤ◌ RestaurantConsumer.handle_message RestaurantConsumer.handle_event
    transaction RestaurantConsumer.process RestaurantConsumer.dispatch is_in
    RestaurantConsumer.on_order_placed RestaurantConsumer.reserve_in_savepoint
    RestaurantConsumer.publish RestaurantConsumer.mark_processed insert_outbox has_row
    insert_processed wrap_event event_payload
is_reserved = refl

reservation_backed_example :
    (r : Order) × (lookup 1 reserved.order.orders ≡ some r)
    × (two_items ≡ r.items)
    × (r.status ≢ stock_unavailable)
reservation_backed_example =
    reservation_backed whole_prices "success" 1 two_items opening-IsFresh Reach-reserved is_reserved

has_seven : lookup 7 opening.stock.stock ≡ some (pos 5)
unfolding lookup
has_seven = refl

never_oversold_example :
    ((q' : ℤ) × (lookup 7 reserved.stock.stock ≡ some q')
      × (q' +ℤ held 7 reserved.stock.reservations ≡ pos 5))
    × (held 7 reserved.stock.reservations ≤ℤ pos 5)
never_oversold_example =
    never_oversold whole_prices "success" 7 (pos 5) opening-IsFresh Reach-reserved has_seven

abbrev plain_texts : Texts
plain_texts = record { uuid_text = λ u. "id"; time_text = λ t. "time"; amount = λ cents. 20 }

order-ShowsPayment_example :
    ShowsPayment plain_texts 1 last_row confirmed (get_payment_status plain_texts 1 over.payment).0
order-ShowsPayment_example =
    order-ShowsPayment whole_prices "success" plain_texts 1 last_row opening-IsFresh Reach-over
      is_confirmed
