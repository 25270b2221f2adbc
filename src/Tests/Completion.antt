-- ===== src/Tests/Completion.antt =====
-- The same order seen through, by deliveries in turn.
use food_flow.Prelude.{false, inr, ◌≡◌, refl, none, some, arith, inl, ◌⊎◌}
use food_flow.Prelude.Int.{pos, ◌-ℤ◌, ◌+ℤ◌}
use food_flow.Shared.Uuid.{str}
use food_flow.Shared.Text.{text_length}
use food_flow.Shared.Table.{lookup, set_row}
use food_flow.Shared.Tables.{OutboxRow, is_in, has_row, new_row, insert_outbox, insert_processed}
use food_flow.Shared.Transaction.{transaction}
use food_flow.Order.Status.{stock_unavailable, is_allowed, get_allowed, contains, same_status}
use food_flow.Order.Db.{Order}
use food_flow.Order.Db as OrderDb
use food_flow.Order.Transition.{transition_order, transition_row}
use food_flow.Order.Consumer as OrderConsumer
use food_flow.Order.Create.{
  create_order, check_existing, find_existing, store_order, insert_order, key_taken, total_amount,
  event_payload, new_order,
}
use food_flow.Restaurant.Stock.{
  reserve_stock, reserve_items, reserve_item, update_stock, check_stock, insert_reservation,
}
use food_flow.Restaurant.Consumer as RestaurantConsumer
use food_flow.Payment.Consumer as PaymentConsumer
use food_flow.Payment.Db as PaymentDb
use food_flow.Payment.Gateway.{process_payment, is_failure}
use food_flow.Shared.Outbox.Relay.{IsRow}
use food_flow.Saga.{
  Saga, places, order_receives, restaurant_receives, payment_receives, Reach, start, later,
  from_order, from_stock, from_payment,
}
use food_flow.Payment.Db.{order_paid, publish_outcome, Payment, succeeded}
use food_flow.Payment.Consumer.{
  PaymentDraw, begin_payment, record_intent, insert_intent, finish_payment, record_outcome,
  insert_payment, update_status, new_payment,
}
use food_flow.Shared.Event.{
  stock_release, Envelope, order_placed, stock_reserved, order_only, wrap_event, EventType,
}
use food_flow.Shared.Error.{Reason, ok}
use food_flow.Restaurant.Stock.Demand.{IsCovered, demand}
use food_flow.Saga.Completion.{
  IsPlaced, AreFresh, ended_status, stock_turn, charged_saga, rejected_saga, EndsIn,
}
use food_flow.Saga.Compensation.{AllWellFormed, release_delivered}
use food_flow.Saga.Completion.Run.{order_completes}
use food_flow.Tests.Saga.{
  whole_prices, opening, nth_draw, two_of_seven, first_draw, ordered, order_event, order_row,
  order_is_sent, payment_draw, opening-IsFresh, stock_event, stock_row, reserved, stock_is_sent,
}

-- The stored order.
abbrev first_row : Order
first_row = new_order first_draw 8 two_of_seven (pos 2000) none none

is_stored : lookup 1 ordered.order.orders ≡ some first_row
unfolding create_order check_existing find_existing store_order transaction insert_order text_length
    lookup key_taken OrderDb.publish insert_outbox has_row total_amount
is_stored = refl

first-IsPlaced : IsPlaced 1 first_row 101 order_event ordered
first-IsPlaced = record {
  is_row = is_stored;
  waits = refl;
  offered = from_order order_row order_is_sent refl refl;
  is_id = unfold wrap_event in refl;
  has_order = unfold wrap_event event_payload in refl;
  unread = unfold is_in in refl;
  well_formed = ((7, refl), omega arith, tt);
  short = unfold wrap_event event_payload in refl;
}

draws-AreFresh : AreFresh (nth_draw 2) payment_draw (nth_draw 4) ordered
unfolding create_order check_existing find_existing store_order transaction insert_order text_length
    lookup key_taken OrderDb.publish insert_outbox has_row is_in total_amount
draws-AreFresh = record {
  answer = refl;
  uncharged = refl;
  unrejected = refl;
  payment = refl;
  outcome = refl;
  unsettled = refl;
  release = refl;
}

order_completes_example :
    (IsCovered first_row.items ordered.stock.stock
      × EndsIn whole_prices "success"
          (nth_draw 4)
          1
          first_row
          ordered
          (ended_status (process_payment "success" order_event.payload.payment_simulate))
          (charged_saga whole_prices "success"
            (nth_draw 2)
            payment_draw
            (nth_draw 4)
            1
            order_event
            ordered))
    ⊎ ((¬ IsCovered first_row.items ordered.stock.stock)
        × ((why : Reason) × EndsIn whole_prices "success"
              (nth_draw 4)
              1
              first_row
              ordered
              stock_unavailable
              (rejected_saga (nth_draw 2) (nth_draw 4) 1 order_event why ordered)))
order_completes_example =
    order_completes whole_prices "success" (nth_draw 2) payment_draw (nth_draw 4) 1 order_event
      ordered 101 first_row opening-IsFresh
      (later start (places first_draw two_of_seven (str 8) none none)) first-IsPlaced draws-AreFresh

-- The same order, where the gateway refuses.
abbrev refused_saga : Saga
refused_saga =
    charged_saga whole_prices "failure" (nth_draw 2) payment_draw (nth_draw 4) 1 order_event ordered

abbrev failed_event : Envelope
failed_event = wrap_event (nth_draw 3) EventType.payment_failed (order_only (str 1))

abbrev failed_row : OutboxRow
failed_row = new_row (nth_draw 3) EventType.payment_failed (str 1) failed_event

failure_is_sent :
    IsRow failed_row
      (PaymentConsumer.handle_message whole_prices.to_cents "failure" payment_draw stock_event
        reserved.payment).1.events.outbox
unfolding PaymentConsumer.handle_message begin_payment record_intent transaction is_in insert_intent
    insert_payment text_length lookup order_paid PaymentDb.mark_processed insert_processed
    finish_payment record_outcome update_status set_row process_payment is_failure publish_outcome
    insert_outbox has_row wrap_event event_payload
failure_is_sent = inl refl

abbrev release_event : Envelope
release_event = wrap_event (nth_draw 4) stock_release (order_only (str 1))

release_is_sent :
    IsRow
      (new_row (nth_draw 4) stock_release (str 1) release_event)
      refused_saga.order.events.outbox
unfolding create_order check_existing find_existing store_order transaction insert_order text_length
    lookup set_row key_taken OrderDb.publish OrderDb.mark_processed insert_outbox insert_processed
    has_row OrderConsumer.handle_message OrderConsumer.process OrderConsumer.dispatch
    OrderConsumer.on_payment_failed is_in transition_order is_allowed get_allowed contains
    same_status transition_row wrap_event total_amount process_payment is_failure event_payload
release_is_sent = inr (inl refl)

Reach-refused : Reach whole_prices "failure" opening refused_saga
unfolding process_payment is_failure wrap_event event_payload
Reach-refused =
    let placed = later start (places first_draw two_of_seven (str 8) none none) in
    let taken = later placed (
      restaurant_receives (nth_draw 2) order_placed order_event refl
        (from_order order_row order_is_sent refl refl)) in
    let charged = later taken (
      payment_receives payment_draw stock_reserved stock_event refl
        (from_stock stock_row stock_is_sent refl refl)) in
    later charged (
      order_receives (nth_draw 4) EventType.payment_failed failed_event refl
        (from_payment failed_row failure_is_sent refl refl))

-- What the restaurant service holds then.
refused_stock :
    (lookup 1 refused_saga.stock.reservations ≡ some first_row.items)
    × (is_in 104 refused_saga.stock.events.processed ≡ false)
    × AllWellFormed refused_saga.stock.reservations
    × (lookup 7 refused_saga.stock.stock ≡ some (pos 3))
unfolding reserve_stock reserve_items reserve_item update_stock check_stock insert_reservation
    lookup set_row ◌-ℤ◌ RestaurantConsumer.handle_message RestaurantConsumer.handle_event
    transaction RestaurantConsumer.process RestaurantConsumer.dispatch is_in
    RestaurantConsumer.on_order_placed RestaurantConsumer.reserve_in_savepoint
    RestaurantConsumer.publish RestaurantConsumer.mark_processed insert_outbox has_row
    insert_processed wrap_event event_payload
refused_stock = (refl, refl, (((7, refl), omega arith, tt), tt), refl)

release_delivered_example :
    ((RestaurantConsumer.handle_message (nth_draw 5) release_event refused_saga.stock).0 ≡ ok tt)
    × (lookup 1 (stock_turn (nth_draw 5) release_event refused_saga).stock.reservations ≡ none)
    × (lookup 7 (stock_turn (nth_draw 5) release_event refused_saga).stock.stock
        ≡ some (pos 3 +ℤ demand 7 first_row.items))
release_delivered_example =
    release_delivered whole_prices "failure" (nth_draw 5) release_event 104 1 first_row.items
      opening-IsFresh Reach-refused refused_stock.2 refused_stock.0
      (from_order (new_row (nth_draw 4) stock_release (str 1) release_event) release_is_sent refl
        refl)
      (unfold wrap_event in refl) (unfold wrap_event in refl) refused_stock.1 7 (pos 3)
      refused_stock.3
