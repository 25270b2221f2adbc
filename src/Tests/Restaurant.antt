-- ===== src/Tests/Restaurant.antt =====
-- Concrete inputs for services/restaurant.
use food_flow.Prelude.{inl, none, ◌≡◌, ◌↔◌, ◌⊎◌, refl, some, List, [], ◌∷◌, arith}
use food_flow.Prelude.Int.{◌≤ℤ◌, ℤ, pos, negsuc, ◌-ℤ◌}
use food_flow.Shared.Uuid.{Uuid, str}
use food_flow.Shared.Error.{Reason, ok, err, insufficient_stock, short_of}
use food_flow.Shared.Event.{
  Item, Envelope, Draw, Delivery, order_placed, stock_release, stock_reserved, stock_rejected,
  order_only, wrap_event,
}
use food_flow.Shared.Table.{lookup, set_row}
use food_flow.Shared.Transaction.{transaction}
use food_flow.Shared.Tables.{is_in, has_row, insert_outbox, insert_processed}
use food_flow.Shared.Consumer.{Consumer}
use food_flow.Restaurant.Api.{Catalog, Queries, MenuItemResponse, get_menu, menu_rows}
use food_flow.Restaurant.Api.Menu.{menu_line, menu_orderable}
use food_flow.Restaurant.Stock.{
  Db, reserve_stock, release_stock, reserve_items, reserve_item, update_stock, check_stock,
  insert_reservation,
}
use food_flow.Restaurant.Stock.Demand.{IsWellFormed, IsCovered}
use food_flow.Restaurant.Stock.Held.{Conserves}
use food_flow.Restaurant.Stock.Contract.{IsValid, reserve_stock_exact}
use food_flow.Restaurant.Stock.RoundTrip.{release-reserve}
use food_flow.Restaurant.Stock.Negative.{negative_line, reserve_stock_negative}
use food_flow.Restaurant.Consumer.{
  handle_message, run, handle_event, process, dispatch, on_order_placed, reserve_in_savepoint,
  publish, mark_processed, rejection,
}
use food_flow.Restaurant.Consumer.Safety.{run-Conserves}
use food_flow.Restaurant.Consumer.Outcome.{marked}
use food_flow.Restaurant.Consumer.Placing.{with_row}
use food_flow.Restaurant.Consumer.Decision.{order_placed_outcome, row_of}
use food_flow.Restaurant.Consumer.Idempotent.{stock_message_again}

abbrev two_then : ℤ → List Item
two_then q =
    record { item_id = str 7; quantity = pos 2; price = 10 }
    ∷ record { item_id = str 7; quantity = q; price = 10 }
    ∷ []

-- Five pieces of item 7, and nothing reserved.
abbrev shop : Db
shop = record {
  stock = (7, pos 5) ∷ [];
  reservations = [];
  events = record { outbox = []; processed = [] };
}

abbrev draw : Draw
draw = record { event_uuid = 100; row_uuid = 101; clock = 1; now = 1 }

abbrev placed : ℤ → Envelope
placed q = record {
  event_id = str 50;
  event_type = order_placed;
  occurred_at = 0;
  payload = record (order_only (str 1)) { items = some (two_then q) };
}

abbrev release : Envelope
release = record {
  event_id = str 51;
  event_type = stock_release;
  occurred_at = 2;
  payload = order_only (str 1);
}

abbrev worker : Consumer Db
worker = record { db = shop; committed = 0; success = 0; error = 0 }

-- An order that is placed twice, and released.
abbrev batches : List (List Delivery)
batches = ((draw, placed (pos 3)) ∷ (draw, placed (pos 3)) ∷ []) ∷ ((draw, release) ∷ []) ∷ []

shop-IsValid : IsValid shop
shop-IsValid = record { in_range = λ i q h. unfold lookup in ground arith; unique = tt }

two_then-IsWellFormed : IsWellFormed (two_then (pos 3))
two_then-IsWellFormed = ((7, refl), omega arith, ((7, refl), omega arith, tt))

shop_reserves : (reserve_stock (str 1) (two_then (pos 3)) shop).0 ≡ ok tt
unfolding reserve_stock reserve_items reserve_item update_stock check_stock insert_reservation
    lookup set_row ◌-ℤ◌
shop_reserves = refl

shop_is_short :
    (reserve_stock (str 1) (two_then (pos 4)) shop).0
    ≡ err (insufficient_stock (short_of (str 7) (pos 4) (pos 3)))
unfolding reserve_stock reserve_items reserve_item update_stock check_stock insert_reservation
    lookup set_row ◌-ℤ◌
shop_is_short = refl

-- A negative quantity passes the test, and adds to the stock.
negative_reserves :
    lookup 7 (reserve_stock (str 1) (two_then (negsuc 9)) shop).1.stock ≡ some (pos 13)
unfolding reserve_stock reserve_items reserve_item update_stock check_stock insert_reservation
    lookup set_row ◌-ℤ◌
negative_reserves = refl

order_runs : (handle_message draw (placed (pos 3)) shop).0 ≡ ok tt
unfolding reserve_stock reserve_items reserve_item update_stock check_stock insert_reservation
    lookup set_row ◌-ℤ◌ handle_message handle_event transaction process dispatch is_in
    on_order_placed reserve_in_savepoint publish mark_processed insert_outbox has_row
    insert_processed wrap_event
order_runs = refl

reserve_stock_exact_example :
    (((reserve_stock (str 1) (two_then (pos 3)) shop).0 ≡ ok tt)
      ↔ IsCovered (two_then (pos 3)) shop.stock)
    × (((reserve_stock (str 1) (two_then (pos 3)) shop).0 ≡ ok tt)
        ⊎ ((r : Reason) × ((reserve_stock (str 1) (two_then (pos 3)) shop).0
              ≡ err (insufficient_stock r))))
reserve_stock_exact_example =
    reserve_stock_exact 1 (two_then (pos 3)) shop shop-IsValid two_then-IsWellFormed
      (unfold lookup in refl)

release-reserve_example :
    let mid = (reserve_stock (str 1) (two_then (pos 3)) shop).1 in
    ((release_stock (str 1) mid).0 ≡ ok tt)
    × ((i : Uuid) → lookup i (release_stock (str 1) mid).1.stock ≡ lookup i shop.stock)
    × ((release_stock (str 1) mid).1.reservations ≡ shop.reservations)
release-reserve_example =
    release-reserve 1 (two_then (pos 3)) shop shop-IsValid two_then-IsWellFormed shop_reserves

run-Conserves_example : IsValid (run batches worker).db × Conserves 7 shop (run batches worker).db
run-Conserves_example = run-Conserves batches worker 7 shop-IsValid

stock_message_again_example :
    handle_message draw (placed (pos 3)) (handle_message draw (placed (pos 3)) shop).1
    ≡ (ok tt, (handle_message draw (placed (pos 3)) shop).1)
stock_message_again_example = stock_message_again draw draw (placed (pos 3)) shop order_runs

order_placed_outcome_example :
    (IsCovered (two_then (pos 3)) shop.stock
      × ((reserve_stock (str 1) (two_then (pos 3)) shop).0 ≡ ok tt)
      × (handle_message draw (placed (pos 3)) shop ≡ (
        ok tt,
        marked 50 (
            with_row
              (reserve_stock (str 1) (two_then (pos 3)) shop).1
              (row_of draw stock_reserved (str 1) (placed (pos 3)).payload)),
      )))
    ⊎ ((¬ IsCovered (two_then (pos 3)) shop.stock)
        × ((r : Reason) × (handle_message draw (placed (pos 3)) shop ≡ (
          ok tt,
          marked 50 (with_row shop (row_of draw stock_rejected (str 1) (rejection (str 1) r))),
        ))))
order_placed_outcome_example =
    order_placed_outcome draw 50 1 (two_then (pos 3)) (placed (pos 3)) shop refl refl refl refl
      (unfold is_in in refl) (unfold has_row in refl) shop-IsValid two_then-IsWellFormed
      (unfold lookup in refl)

reserve_stock_negative_example :
    ((reserve_stock (str 1) (negative_line 7 9 10 ∷ []) shop).0 ≡ ok tt)
    × (lookup 7 (reserve_stock (str 1) (negative_line 7 9 10 ∷ []) shop).1.stock ≡ some (pos 15))
reserve_stock_negative_example =
    reserve_stock_negative 1 7 5 9 10 shop (unfold lookup in refl) (unfold lookup in refl)
      (omega arith)

abbrev catalog : Catalog
catalog = record {
  restaurants = (3, record { name = "R"; description = none }) ∷ [];
  menu_items =
      (7, record { restaurant_id = 3; name = "M"; description = none; price = pos 1000 }) ∷ [];
}

-- One row at most, so that nothing is to sort.
abbrev queries : Queries
queries = record { sort_restaurants = λ rows. rows; sort_rows = λ rows. rows; amount = λ cents. 10 }

abbrev entry : MenuItemResponse
entry = record { id = str 7; name = "M"; description = none; price = 10; stock_quantity = pos 5 }

shows_menu : get_menu queries catalog 3 shop ≡ ok (entry ∷ [])
unfolding get_menu menu_rows lookup
shows_menu = refl

menu_orderable_example :
    ((reserve_stock (str 1) (menu_line entry 2 ∷ []) shop).0 ≡ ok tt) ↔ (pos 2 ≤ℤ pos 5)
menu_orderable_example =
    menu_orderable queries catalog 3 shop (entry ∷ []) entry 1 2 shop-IsValid (λ rows r m. m)
      shows_menu (inl refl) (unfold lookup in refl) (omega arith)
