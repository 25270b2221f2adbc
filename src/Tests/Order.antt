-- ===== src/Tests/Order.antt =====
-- Concrete inputs for services/order.
use food_flow.Shared.Text.{text_length}
use food_flow.Prelude.{◌+◌, ◌*◌, ◌≡◌, refl, none, some, List, [], ◌∷◌, arith}
use food_flow.Prelude.Int.{pos, negsuc}
use food_flow.Shared.Uuid.{Uuid, str}
use food_flow.Shared.Event.{Envelope, Draw, Delivery, EventType, order_only}
use food_flow.Shared.Table.{lookup}
use food_flow.Shared.Tables.{is_in, has_row}
use food_flow.Shared.Transaction.{transaction}
use food_flow.Shared.Consumer.{Consumer}
use food_flow.Order.Status.{Status, is_allowed, pending, confirmed}
use food_flow.Order.Db.{Order, Db, publish, mark_processed}
use food_flow.Order.Transition.{transition_order, transition_row}
use food_flow.Order.Consumer.{handle_message, run, process, dispatch, on_payment_failed}
use food_flow.Order.Consumer.Invariant.{IsValid, run-IsValid, run_settled, releases}
use food_flow.Order.Consumer.Idempotent.{order_message_again}
use food_flow.Order.Create.{
  CreateOrderRequest, FloatOps, CreateDraw, CreateResponse, create_order, check_existing,
  store_order, insert_order, find_existing, key_taken, total_amount,
}
use food_flow.Order.Create.Race.{raced, finish_request, create_order-raced}
use food_flow.Shared.Error.{ok, err, unique_violation, orders_idempotency_key_key, Error}
use food_flow.Order.Create.Outcome.{Created, create_order-Created}
use food_flow.Order.Create.Replay.{create_order_again, create_order_key_of_another}

abbrev pub order_of : Uuid → Status → Order
order_of user status = record {
  user_id = user;
  restaurant_id = 3;
  items = [];
  total_amount = pos 0;
  status = status;
  payment_simulate = none;
  idempotency_key = some "k";
  created_at = 0;
  updated_at = 0;
}

-- One order of user 9, in a state.
abbrev pub shop : Status → Db
shop status = record {
  orders = (1, order_of 9 status) ∷ [];
  events = record { outbox = []; processed = [] };
}

abbrev draw : Draw
draw = record { event_uuid = 100; row_uuid = 101; clock = 1; now = 1 }

abbrev failed : Envelope
failed = record {
  event_id = str 50;
  event_type = EventType.payment_failed;
  occurred_at = 0;
  payload = order_only (str 1);
}

abbrev succeeded : Envelope
succeeded = record {
  event_id = str 51;
  event_type = EventType.payment_succeeded;
  occurred_at = 0;
  payload = order_only (str 1);
}

abbrev worker : Status → Consumer Db
worker status = record { db = shop status; committed = 0; success = 0; error = 0 }

-- The failure is delivered twice, then a success that comes too late.
abbrev batches : List (List Delivery)
batches = ((draw, failed) ∷ (draw, failed) ∷ []) ∷ ((draw, succeeded) ∷ []) ∷ []

shop-IsValid : IsValid (shop pending)
shop-IsValid = record {
  unique = (unfold lookup in refl, tt);
  compensates = λ o. unfold releases lookup in ground arith;
}

failed_runs : (handle_message draw failed (shop pending)).0 ≡ ok tt
unfolding handle_message transaction process is_in dispatch on_payment_failed transition_order
    transition_row lookup is_allowed publish has_row mark_processed
failed_runs = refl

run-IsValid_example : IsValid (run batches (worker pending)).db
run-IsValid_example = run-IsValid batches (worker pending) shop-IsValid

run_settled_example :
    lookup 1 (run batches (worker confirmed)).db.orders ≡ some (order_of 9 confirmed)
run_settled_example =
    run_settled batches (worker confirmed) 1 (order_of 9 confirmed) (unfold lookup in refl)
      (λ h. cc)

order_message_again_example :
    handle_message draw failed (handle_message draw failed (shop pending)).1
    ≡ (ok tt, (handle_message draw failed (shop pending)).1)
order_message_again_example = order_message_again draw draw failed (shop pending) failed_runs

-- Whole numbers in place of floats.
abbrev pub whole : FloatOps
whole = record {
  zero_sum = 0;
  scale = λ q price. elim q [ pos n ↦ n * price | negsuc _ ↦ 0 ];
  add = λ a b. a + b;
  to_cents = λ x. some (pos (x * 100));
}

abbrev pub body : CreateOrderRequest
body = record {
  restaurant_id = 3;
  items = record { item_id = 7; quantity = pos 2; price = 10 } ∷ [];
}

abbrev pub create_draw : CreateDraw
create_draw = record { order_uuid = 2; event = draw }

create_order-Created_example :
    Created whole create_draw body
      (str 8)
      none
      (some "j")
      (shop pending)
      (create_order whole create_draw body (str 8) none (some "j") (shop pending))
create_order-Created_example =
    create_order-Created whole create_draw body (str 8) none (some "j") (shop pending)

pub create_runs :
    (create_order whole create_draw body (str 8) none (some "j") (shop pending)).0
    ≡ ok (record { id = str 2; status = pending; message = "Order accepted for processing" })
unfolding create_order check_existing find_existing store_order transaction insert_order text_length
    lookup key_taken publish has_row
create_runs = refl

create_order_again_example :
    let db' = (create_order whole create_draw body (str 8) none (some "j") (shop pending)).1 in
    (b : CreateResponse) × (create_order whole create_draw body (str 8) none (some "j") db'
      ≡ (ok b, db'))
    × (b.id ≡ str 2)
    × (b.status ≡ pending)
create_order_again_example =
    create_order_again whole create_draw create_draw body body (str 8) none none "j" (shop pending)
      (record { id = str 2; status = pending; message = "Order accepted for processing" }) refl
      create_runs

create_order_key_of_another_example :
    create_order whole create_draw body (str 8) none (some "k") (shop pending)
    ≡ (err (unique_violation orders_idempotency_key_key), shop pending)
create_order_key_of_another_example =
    create_order_key_of_another whole create_draw body 8 none "k" (shop pending) {cents = pos 2000}
      (unfold find_existing in refl) (unfold key_taken in refl) (unfold total_amount in refl) refl
      (unfold text_length in refl) (unfold lookup in refl)

first_runs :
    (raced whole create_draw body 8 none "j" (shop pending)).0
    ≡ ok (record { id = str 2; status = pending; message = "Order accepted for processing" })
unfolding finish_request store_order transaction insert_order text_length lookup key_taken publish
    has_row
first_runs = refl

create_order-raced_example :
    let db' = (raced whole create_draw body 8 none "j" (shop pending)).1 in
    ((e : Error) × (finish_request whole create_draw body 8 none (some "j") none db'
        ≡ (err e, db')))
    × ((b : CreateResponse) × (create_order whole create_draw body (str 8) none (some "j") db'
          ≡ (ok b, db'))
        × (b.id ≡ str 2))
create_order-raced_example =
    create_order-raced whole create_draw create_draw body body 8 none none "j" (shop pending)
      (record { id = str 2; status = pending; message = "Order accepted for processing" }) refl
      (unfold check_existing find_existing in refl) first_runs
