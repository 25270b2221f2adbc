-- ===== src/Restaurant/Consumer/Idempotent.antt =====
-- A message that is delivered again changes nothing (the `processed_events` check, and the UNIQUE
-- constraint that the `except` clause names).
use food_flow.Prelude.{
  String, sym, ◌≡◌, ◌≢◌, refl, ◌∙◌, ap, true, arith, Option-cases, inl, inr, ◌⊎◌, ==_refl,
}
use food_flow.Shared.Uuid.{Uuid, IdText, str, malformed}
use food_flow.Shared.Error.{
  Result, Error, ok, err, insufficient_stock, unique_violation, stock_reservations_order_id_key,
}
use food_flow.Shared.Event.{
  EventType, order_placed, stock_reserved, stock_rejected, stock_release, Payload, Envelope, Draw,
}
use food_flow.Shared.Tables.{is_in}
use food_flow.Shared.Transaction.{Done, transaction, returned}
use food_flow.Restaurant.Stock.{Db}
use food_flow.Restaurant.Consumer.{
  rejection, handle_event, handle_message, process, dispatch, on_order_placed, mark_processed,
  publish, reserve_in_savepoint,
}
use food_flow.Restaurant.Consumer.Outcome.{
  Handled, duplicate, ignored, placed_order, released_order, processed, marked,
}
use food_flow.Restaurant.Consumer.Placing.{accepts, raised}

abbrev violated : Error
violated = unique_violation stock_reservations_order_id_key

-- Only the savepoint of the order.placed branch raises that violation.
violation_from_savepoint :
    (d : Draw) (order_id : IdText) (payload : Payload) (db : Db) (r : Result Done × Db)
    → reserve_in_savepoint order_id payload db ≡ r
    → (on_order_placed d order_id payload db).0 ≡ err violated
    → r.0 ≡ err violated
violation_from_savepoint d order_id payload db (ok a, mid) e h =
    absurd (not_publish (rw (accepts d order_id payload db mid e) at h))
  where
    not_publish : (publish d stock_reserved order_id payload mid).0 ≢ err violated
    not_publish q = unfold publish in ground arith
violation_from_savepoint d order_id payload db (err (insufficient_stock r), mid) e h =
    absurd (not_publish (rw (raised d order_id payload db (insufficient_stock r) mid e) at h))
  where
    not_publish : (publish d stock_rejected order_id (rejection order_id r) mid).0 ≢ err violated
    not_publish q = unfold publish in ground arith
violation_from_savepoint d order_id payload db (err w, mid) e h =
    cc (ap (λ (x : Result Done × Db). x.0) (raised d order_id payload db w mid e))

violation_to_savepoint :
    (d : Draw) (order_id : IdText) (payload : Payload) (db : Db)
    → (reserve_in_savepoint order_id payload db).0 ≡ err violated
    → (on_order_placed d order_id payload db).0 ≡ err violated
unfolding on_order_placed
violation_to_savepoint d order_id payload db h = ground arith

module _ (d d' : Draw) (event_id : Uuid) (envelope : Envelope) (db : Db) where
  dispatch_repeats :
      (order_id : IdText) (t : EventType)
      → (dispatch d event_id order_id envelope.payload t db).0 ≡ err violated
      → (dispatch d' event_id order_id envelope.payload t db).0 ≡ err violated
  unfolding dispatch mark_processed
  dispatch_repeats order_id order_placed h = ground (
    arith,
    violation_from_savepoint d order_id envelope.payload db
        (reserve_in_savepoint order_id envelope.payload db) refl,
    violation_to_savepoint d' order_id envelope.payload db,
  )
  dispatch_repeats order_id stock_release h = h
  dispatch_repeats order_id t h = cc

  process_repeats :
      (process d event_id envelope db).0 ≡ err violated
      → (process d' event_id envelope db).0 ≡ err violated
  unfolding process
  process_repeats h = elim (Option-cases envelope.payload.order_id) [
    | inl absent ↦ ground arith
    | inr (order_id, had) ↦ ground (arith, dispatch_repeats order_id envelope.event_type)
  ]

  -- Outside the order.placed branch nothing is drawn.
  dispatch_undrawn :
      (order_id : IdText) (t : EventType)
      → t ≢ order_placed
      → dispatch d event_id order_id envelope.payload t db
        ≡ dispatch d' event_id order_id envelope.payload t db
  unfolding dispatch
  dispatch_undrawn order_id order_placed n = absurd (n refl)
  dispatch_undrawn order_id t n = refl

  process_undrawn :
      envelope.event_type ≢ order_placed
      → process d event_id envelope db ≡ process d' event_id envelope db
  unfolding process
  process_undrawn n = elim (Option-cases envelope.payload.order_id) [
    | inl absent ↦ ground arith
    | inr (order_id, had) ↦ ground (arith, dispatch_undrawn order_id envelope.event_type n)
  ]

  process-marked :
      (mid : Db) → process d event_id envelope (marked event_id mid) ≡ (ok tt, marked event_id mid)
  unfolding process is_in
  process-marked mid = ground (arith, ==_refl event_id)

  process_seen :
      is_in event_id db.events.processed ≡ true → process d event_id envelope db ≡ (ok tt, db)
  unfolding process
  process_seen seen = ground arith

  handle_event_returns :
      {mid : Db}
      → process d event_id envelope db ≡ (ok tt, mid)
      → handle_event d event_id envelope db ≡ (ok tt, mid)
  unfolding handle_event transaction
  handle_event_returns h = ground arith

  handle_event_swallows :
      (process d event_id envelope db).0 ≡ err violated
      → handle_event d event_id envelope db ≡ (ok tt, db)
  unfolding handle_event transaction
  handle_event_swallows h = ground arith

  -- A message that is handled has run to its end, or met the UNIQUE constraint.
  handle_event_ways :
      (handle_event d event_id envelope db).0 ≡ ok tt
      → ((process d event_id envelope db).0 ≡ ok tt)
        ⊎ ((process d event_id envelope db).0 ≡ err violated)
  unfolding handle_event transaction
  handle_event_ways h = ground arith

again-handled :
    (d d' : Draw) (u : Uuid) (envelope : Envelope) (db db' : Db)
    → Handled d u envelope db db'
    → process d u envelope db ≡ (ok tt, db')
    → process d' u envelope db' ≡ (ok tt, db')
again-handled d d' u envelope db db' (duplicate seen after) run =
    rw after (process_seen d' d u envelope db seen)
again-handled d d' u envelope db db' (ignored n m after) run =
    rw after (sym (process_undrawn d d' u envelope db n) ∙ run ∙ ap (λ (x : Db). (ok tt, x)) after)
again-handled d d' u envelope db db' (placed_order order_id mid et eo new p after) run =
    rw after (process-marked d' d u envelope db mid)
again-handled d d' u envelope db db' (released_order o mid et eo runs after) run =
    rw after (process-marked d' d u envelope db mid)

handle_event_again :
    (d d' : Draw) (u : Uuid) (envelope : Envelope) (db : Db)
    → (handle_event d u envelope db).0 ≡ ok tt
    → let db' = (handle_event d u envelope db).1 in handle_event d' u envelope db' ≡ (ok tt, db')
handle_event_again d d' u envelope db h = elim (handle_event_ways d d' u envelope db h) [
  | inl done ↦
      let db' = (process d u envelope db).1 in
      let run = returned (process d u envelope db) done in
      rw (handle_event_returns d d' u envelope db run) (
        handle_event_returns d' d u envelope db'
          (again-handled d d' u envelope db db' (processed d u envelope db done) run))
  | inr met ↦
      rw (handle_event_swallows d d' u envelope db met)
        (handle_event_swallows d' d u envelope db (process_repeats d d' u envelope db met))
]

handle_message_at :
    (d : Draw) (envelope : Envelope) (u : Uuid) (db : Db)
    → envelope.event_id ≡ str u
    → handle_message d envelope db ≡ handle_event d u envelope db
unfolding handle_message
handle_message_at d envelope u db e = ground arith

handle_message_malformed :
    (d : Draw) (envelope : Envelope) (s : String) (db : Db)
    → envelope.event_id ≡ malformed s
    → (handle_message d envelope db).0 ≢ ok tt
unfolding handle_message
handle_message_malformed d envelope s db e h = ground arith

stock_message_again_at :
    (d d' : Draw) (envelope : Envelope) (db : Db) (t : IdText)
    → envelope.event_id ≡ t
    → (handle_message d envelope db).0 ≡ ok tt
    → handle_message d' envelope (handle_message d envelope db).1
      ≡ (ok tt, (handle_message d envelope db).1)
stock_message_again_at d d' envelope db (malformed s) e h =
    absurd (handle_message_malformed d envelope s db e h)
stock_message_again_at d d' envelope db (str u) e h =
    let same = handle_message_at d envelope u db e in
    rw same (
      handle_message_at d' envelope u (handle_event d u envelope db).1 e
      ∙ handle_event_again d d' u envelope db (rw same at h))

-- A message that was handled and is delivered once more, with whatever draws, is skipped: it
-- returns, and the database stays as the first delivery left it.
pub stock_message_again :
    (d d' : Draw) (envelope : Envelope) (db : Db)
    → (handle_message d envelope db).0 ≡ ok tt
    → handle_message d' envelope (handle_message d envelope db).1
      ≡ (ok tt, (handle_message d envelope db).1)
stock_message_again d d' envelope db =
    stock_message_again_at d d' envelope db envelope.event_id refl
