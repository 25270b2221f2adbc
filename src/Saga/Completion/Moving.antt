-- ===== src/Saga/Completion/Moving.antt =====
-- The calls of `_handle_message` of services/order/consumers.py that end a PENDING order.
use food_flow.Prelude.{◌≡◌, false, some, arith, ==_refl}
use food_flow.Shared.Uuid.{Uuid, str}
use food_flow.Shared.Error.{ok}
use food_flow.Shared.Event.{payment_succeeded, payment_failed, stock_rejected, Envelope, Draw}
use food_flow.Shared.Table.{lookup, set_row, lookup-set_row}
use food_flow.Shared.Tables.{is_in, has_row}
use food_flow.Shared.Transaction.{transaction}
use food_flow.Order.Status.{
  Status, pending, confirmed, stock_unavailable, ◌⟶◌, confirm, fail_payment, reject_stock,
  ⟶-is_allowed,
}
use food_flow.Order.Db.{Order, Db, mark_processed, publish}
use food_flow.Order.Consumer.Outcome.{with_row, marked, with_order, release_row}
use food_flow.Order.Transition.{moved, transition_row, transition_order}
use food_flow.Order.Consumer.{on_payment_failed, dispatch, process, handle_message}

module _ (d : Draw) (e : Envelope) (u o : Uuid) (r : Order) (db : Db) (is_id : e.event_id ≡ str u)
    (has_order : e.payload.order_id ≡ some (str o)) (is_new : is_in u db.events.processed ≡ false)
    (is_row : lookup o db.orders ≡ some r) (waits : r.status ≡ pending) where
  moves :
      {st : Status}
      → pending ⟶ st
      → transition_order d.now o st db ≡ (ok tt, with_order db o (moved d.now st r))
  moves {st} arrow = unfold transition_order transition_row in ground (arith, ⟶-is_allowed arrow)

  -- Up to the dispatch on the type, a new event runs.
  runs :
      (db' : Db)
      → dispatch d u o e.event_type db ≡ (ok tt, db')
      → handle_message d e db ≡ (ok tt, db')
  runs db' h = unfold handle_message transaction process in ground arith

  pub confirms :
      e.event_type ≡ payment_succeeded
      → handle_message d e db ≡ (ok tt, marked u (with_order db o (moved d.now confirmed r)))
  confirms typed =
      let first = moves confirm in
      runs (marked u (with_order db o (moved d.now confirmed r)))
        (rw typed (unfold dispatch mark_processed in ground (arith, first)))

  pub gives_up :
      e.event_type ≡ stock_rejected
      → handle_message d e db
        ≡ (ok tt, marked u (with_order db o (moved d.now stock_unavailable r)))
  gives_up typed =
      let first = moves reject_stock in
      runs (marked u (with_order db o (moved d.now stock_unavailable r)))
        (rw typed (unfold dispatch mark_processed in ground (arith, first)))

  pub compensates :
      e.event_type ≡ payment_failed
      → has_row d.row_uuid db.events.outbox ≡ false
      → handle_message d e db ≡ (
        ok tt,
        marked u
            (with_row (with_order db o (moved d.now Status.payment_failed r)) (release_row d o)),
      )
  compensates typed free =
      let first = moves fail_payment in
      runs
        (marked u
          (with_row (with_order db o (moved d.now Status.payment_failed r)) (release_row d o)))
        (rw typed
          (unfold dispatch on_payment_failed publish mark_processed in ground (arith, first)))

pub finds_moved :
    (d : Draw) (o : Uuid) (r : Order) (db : Db) (st : Status)
    → lookup o db.orders ≡ some r
    → lookup o (set_row o (moved d.now st r) db.orders) ≡ some (moved d.now st r)
finds_moved d o r db st is_row =
    ground (arith, lookup-set_row o o (moved d.now st r) db.orders, ==_refl o)
