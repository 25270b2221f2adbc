-- ===== src/Restaurant/Consumer/Decision.antt =====
-- How services/restaurant/consumers.py answers an order.placed event.
use food_flow.Prelude.{◌≡◌, ◌∙◌, ap, false, some, none, List, arith, inl, inr, ◌⊎◌}
use food_flow.Shared.Uuid.{Uuid, IdText, str}
use food_flow.Shared.Error.{Reason, ok, err, insufficient_stock}
use food_flow.Shared.Event.{
  Item, EventType, order_placed, stock_reserved, stock_rejected, Payload, Envelope, Draw,
  wrap_event,
}
use food_flow.Shared.Table.{lookup}
use food_flow.Shared.Tables.{OutboxRow, is_in, has_row, new_row}
use food_flow.Shared.Transaction.{transaction, returned}
use food_flow.Restaurant.Stock.{Db, reserve_stock}
use food_flow.Restaurant.Stock.Demand.{IsWellFormed, IsCovered}
use food_flow.Restaurant.Stock.Reserve.{reserve_items-events}
use food_flow.Restaurant.Stock.Contract.{IsValid, reserve_stock_exact, reserved}
use food_flow.Restaurant.Consumer.{
  handle_event, handle_message, process, dispatch, on_order_placed, mark_processed, publish,
  rejection, reserve_in_savepoint,
}
use food_flow.Restaurant.Consumer.Outcome.{marked}
use food_flow.Restaurant.Consumer.Placing.{with_row, accepts, raised}

-- The row that the outbox gets for an event of type `topic`.
abbrev pub row_of : Draw → EventType → IdText → Payload → OutboxRow
row_of d topic order_id payload = new_row d topic order_id (wrap_event d topic payload)

publish_succeeds :
    (d : Draw) (topic : EventType) (order_id : IdText) (payload : Payload) (db : Db)
    → has_row d.row_uuid db.events.outbox ≡ false
    → publish d topic order_id payload db ≡ (ok tt, with_row db (row_of d topic order_id payload))
unfolding publish
publish_succeeds d topic order_id payload db h = ground arith

mark_succeeds :
    (u : Uuid) (db : Db)
    → is_in u db.events.processed ≡ false
    → mark_processed u db ≡ (ok tt, marked u db)
unfolding mark_processed
mark_succeeds u db h = ground arith

savepoint_keeps :
    (o : Uuid) (items : List Item) (payload : Payload) (db mid : Db)
    → payload.items ≡ some items
    → reserve_stock (str o) items db ≡ (ok tt, mid)
    → reserve_in_savepoint (str o) payload db ≡ (ok tt, mid)
unfolding reserve_in_savepoint transaction
savepoint_keeps o items payload db mid e h = ground arith

savepoint_undoes :
    (o : Uuid) (items : List Item) (payload : Payload) (db : Db) (r : Reason)
    → payload.items ≡ some items
    → (reserve_stock (str o) items db).0 ≡ err (insufficient_stock r)
    → reserve_in_savepoint (str o) payload db ≡ (err (insufficient_stock r), db)
unfolding reserve_in_savepoint transaction
savepoint_undoes o items payload db r e h = ground arith

pub reserve_stock-events :
    (o : Uuid) (items : List Item) (db : Db)
    → (reserve_stock (str o) items db).0 ≡ ok tt
    → (reserve_stock (str o) items db).1.events ≡ db.events
reserve_stock-events o items db h =
    ap (λ (x : Db). x.events) (reserved o items db h).after ∙ reserve_items-events items db

module _ (d : Draw) (u o : Uuid) (items : List Item) (envelope : Envelope) (db : Db)
    (is_id : envelope.event_id ≡ str u) (is_placed : envelope.event_type ≡ order_placed)
    (has_order : envelope.payload.order_id ≡ some (str o))
    (has_items : envelope.payload.items ≡ some items) (is_new : is_in u db.events.processed ≡ false)
    (is_free : has_row d.row_uuid db.events.outbox ≡ false) where
  -- The whole handler, where the order.placed branch returns.
  handles :
      (mid : Db)
      → on_order_placed d (str o) envelope.payload db ≡ (ok tt, mid)
      → is_in u mid.events.processed ≡ false
      → handle_message d envelope db ≡ (ok tt, marked u mid)
  unfolding handle_message handle_event transaction process dispatch
  handles mid e n = ground (arith, mark_succeeds u mid)

  when_reserved :
      (reserve_stock (str o) items db).0 ≡ ok tt
      → handle_message d envelope db ≡ (
        ok tt,
        marked u (
            with_row
              (reserve_stock (str o) items db).1
              (row_of d stock_reserved (str o) envelope.payload)),
      )
  when_reserved h =
      let mid = (reserve_stock (str o) items db).1 in
      let same = reserve_stock-events o items db h in
      let new : is_in u mid.events.processed ≡ false = rw same is_new in
      let shape = accepts d (str o) envelope.payload db mid (
        savepoint_keeps o items envelope.payload db mid has_items
          (returned (reserve_stock (str o) items db) h)) in
      handles (with_row mid (row_of d stock_reserved (str o) envelope.payload))
        (shape ∙ publish_succeeds d stock_reserved (str o) envelope.payload mid (rw same is_free))
        new

  when_short :
      (r : Reason)
      → (reserve_stock (str o) items db).0 ≡ err (insufficient_stock r)
      → handle_message d envelope db
        ≡ (ok tt, marked u (with_row db (row_of d stock_rejected (str o) (rejection (str o) r))))
  when_short r h =
      let shape =
        raised d (str o) envelope.payload db (insufficient_stock r) db
          (savepoint_undoes o items envelope.payload db r has_items h) in
      handles (with_row db (row_of d stock_rejected (str o) (rejection (str o) r)))
        (shape ∙ publish_succeeds d stock_rejected (str o) (rejection (str o) r) db is_free) is_new

  -- In a valid database, of a new order.placed event with well-formed lines, for an order that has
  -- no reservation, where the id drawn for the outbox row is free: the handler returns and marks
  -- the event. If the stock covers the lines it has reserved them and appended one stock.reserved
  -- row with the event's payload; if not, it has changed neither stock nor reservations, and
  -- appended one stock.rejected row with a reason.
  pub order_placed_outcome :
      IsValid db
      → IsWellFormed items
      → lookup o db.reservations ≡ none
      → (IsCovered items db.stock
          × ((reserve_stock (str o) items db).0 ≡ ok tt)
          × (handle_message d envelope db ≡ (
            ok tt,
            marked u (
                with_row
                  (reserve_stock (str o) items db).1
                  (row_of d stock_reserved (str o) envelope.payload)),
          )))
        ⊎ ((¬ IsCovered items db.stock)
            × ((r : Reason) × (handle_message d envelope db ≡ (
              ok tt,
              marked u (with_row db (row_of d stock_rejected (str o) (rejection (str o) r))),
            ))))
  order_placed_outcome v w fresh =
      let exact = reserve_stock_exact o items db v w fresh in
      elim exact.1 [
        | inl runs ↦ inl (exact.0.0 runs, runs, when_reserved runs)
        | inr (r, short) ↦ inr (λ c. uncovered r short (exact.0.1 c), (r, when_short r short))
      ]
    where
      uncovered :
          (r : Reason)
          → (reserve_stock (str o) items db).0 ≡ err (insufficient_stock r)
          → (reserve_stock (str o) items db).0 ≡ ok tt
          → ⊥
      uncovered r p q = cc
