-- ===== src/Order/Consumer/Idempotent.antt =====
-- A message that the order service has handled and that is delivered again changes nothing.
use food_flow.Prelude.{◌≡◌, refl, ◌∙◌, ap, sym, true, Option, some, none, arith, ==_refl}
use food_flow.Shared.Uuid.{Uuid, IdText, str, malformed}
use food_flow.Shared.Error.{Result, ok}
use food_flow.Shared.Event.{
  EventType, payment_succeeded, payment_failed, stock_rejected, Envelope, Draw,
}
use food_flow.Shared.Tables.{is_in}
use food_flow.Shared.Transaction.{Done, transaction}
use food_flow.Order.Status.{Status}
use food_flow.Order.Db.{Db}
use food_flow.Order.Consumer.{dispatch, process, handle_message}
use food_flow.Order.Consumer.Delivered.{Delivered, unchanged, committed, delivered}
use food_flow.Order.Consumer.Outcome.{
  Handled, duplicate, ignored, moved_order, Target, on_success, on_failure, on_rejection, marked,
}

module _ (d d' : Draw) (u : Uuid) (envelope : Envelope) where
  process_seen :
      (db : Db) → is_in u db.events.processed ≡ true → process d' u envelope db ≡ (ok tt, db)
  unfolding process
  process_seen db seen = ground arith

  process-marked : (mid : Db) → process d' u envelope (marked u mid) ≡ (ok tt, marked u mid)
  unfolding process is_in
  process-marked mid = ground (arith, ==_refl u)

  dispatch_undrawn :
      (db : Db) (order_id : Uuid) (t : EventType)
      → ((s : Status) → ¬ Target t s)
      → dispatch d u order_id t db ≡ dispatch d' u order_id t db
  unfolding dispatch
  dispatch_undrawn db order_id payment_succeeded n = absurd (n _ on_success)
  dispatch_undrawn db order_id payment_failed n = absurd (n _ on_failure)
  dispatch_undrawn db order_id stock_rejected n = absurd (n _ on_rejection)
  dispatch_undrawn db order_id t n = refl

  process_undrawn_at :
      (db : Db) (o : Option IdText)
      → envelope.payload.order_id ≡ o
      → ((s : Status) → ¬ Target envelope.event_type s)
      → process d u envelope db ≡ process d' u envelope db
  unfolding process
  process_undrawn_at db none e n = ground arith
  process_undrawn_at db (some (malformed s)) e n = ground arith
  process_undrawn_at db (some (str o)) e n =
      ground (arith, dispatch_undrawn db o envelope.event_type n)

  again-handled :
      (db db' : Db)
      → Handled d u envelope db db'
      → process d u envelope db ≡ (ok tt, db')
      → process d' u envelope db' ≡ (ok tt, db')
  again-handled db db' (duplicate seen after) run = rw after (process_seen db seen)
  again-handled db db' (ignored untargeted after) run = rw after (
      sym (process_undrawn_at db envelope.payload.order_id refl untargeted)
      ∙ run
      ∙ ap (λ (x : Db). (ok tt, x)) after)
  again-handled db db' (moved_order id o t target has_order e on after) run =
      rw after (process-marked _)

  handle_returns :
      (db db' : Db)
      → envelope.event_id ≡ str u
      → process d' u envelope db ≡ (ok tt, db')
      → handle_message d' envelope db ≡ (ok tt, db')
  unfolding handle_message transaction
  handle_returns db db' e run = ground arith

again-Delivered :
    (d d' : Draw) (envelope : Envelope) (db : Db) {r : Result Done × Db}
    → Delivered d envelope db r
    → r.0 ≡ ok tt
    → handle_message d' envelope r.1 ≡ (ok tt, r.1)
again-Delivered d d' envelope db (unchanged e) h = cc
again-Delivered d d' envelope db (committed u db' e run done) h =
    handle_returns d d' u envelope db' db' e (again-handled d d' u envelope db db' done run)

-- A message that was handled and is delivered once more, with whatever draws, is skipped: it
-- returns, and the database stays as the first delivery left it.
pub order_message_again :
    (d d' : Draw) (envelope : Envelope) (db : Db)
    → (handle_message d envelope db).0 ≡ ok tt
    → handle_message d' envelope (handle_message d envelope db).1
      ≡ (ok tt, (handle_message d envelope db).1)
order_message_again d d' envelope db = again-Delivered d d' envelope db (delivered d envelope db)
