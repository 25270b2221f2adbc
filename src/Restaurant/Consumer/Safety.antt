-- ===== src/Restaurant/Consumer/Safety.antt =====
-- What every message leaves true of the restaurant's database.
use food_flow.Shared.Consumer.{Consumer, run_consumer-keeps}
use food_flow.Prelude.{String, ◌≡◌, refl, List, arith, inl, inr}
use food_flow.Shared.Uuid.{Uuid, IdText, str, malformed}
use food_flow.Shared.Event.{Payload, Envelope, Draw}
use food_flow.Restaurant.Stock.{Db}
use food_flow.Restaurant.Stock.Held.{Conserves-trans, Conserves, Conserves-refl}
use food_flow.Restaurant.Stock.Contract.{
  IsValid, reserve_stock-Conserves, reserve_stock-IsValid, release_stock-Conserves,
  release_stock-IsValid,
}
use food_flow.Restaurant.Consumer.{deliver, Delivery, run, handle_event, handle_message}
use food_flow.Restaurant.Consumer.Outcome.{
  Handled, duplicate, ignored, placed_order, released_order, processed, handle_event_cases,
}
use food_flow.Restaurant.Consumer.Placing.{Placed, accepted, rejected}

-- A statement about a message holds if it holds where nothing changes, and of each outcome.
module _ (P : Db → Db → Type 0) (stays : (db : Db) → P db db) where
  module _ (d : Draw) (envelope : Envelope) (db : Db)
      (commits : (event_id : Uuid) (db' : Db)
        → envelope.event_id ≡ str event_id
        → Handled d event_id envelope db db'
        → P db db') where
    handle_message_rule_at :
        (t : IdText) → envelope.event_id ≡ t → P db (handle_message d envelope db).1
    handle_message_rule_at (malformed s) e = rw (unmoved s e) (stays db)
      where
        unmoved :
            (s : String) → envelope.event_id ≡ malformed s → (handle_message d envelope db).1 ≡ db
        unmoved s e = unfold handle_message in ground arith
    handle_message_rule_at (str u) e = rw (moved u e) (elim (handle_event_cases d u envelope db) [
      | inl same ↦ rw same (stays db)
      | inr (done, run) ↦ rw run (commits u _ e (processed d u envelope db done))
    ])
      where
        moved :
            (u : Uuid)
            → envelope.event_id ≡ str u
            → handle_message d envelope db ≡ handle_event d u envelope db
        moved u e = unfold handle_message in ground arith

    pub handle_message_rule : P db (handle_message d envelope db).1
    handle_message_rule = handle_message_rule_at envelope.event_id refl

abbrev KeepsValid : Db → Db → Type 0
KeepsValid db db' = IsValid db → IsValid db'

placed-IsValid :
    {d : Draw} {order_id : IdText} {payload : Payload} {db db' : Db}
    → Placed d order_id payload db db'
    → KeepsValid db db'
placed-IsValid {db} (accepted o items eo ei runs after) v =
    let kept = reserve_stock-IsValid o items db v runs in
    rw after (record { in_range = kept.in_range; unique = kept.unique })
placed-IsValid (rejected r why after) v =
    rw after (record { in_range = v.in_range; unique = v.unique })

pub handled-IsValid :
    {d : Draw} {event_id : Uuid} {envelope : Envelope} {db db' : Db}
    → Handled d event_id envelope db db'
    → KeepsValid db db'
handled-IsValid (duplicate seen after) v = rw after v
handled-IsValid (ignored n m after) v = rw after v
handled-IsValid (placed_order order_id mid et eo new p after) v =
    let kept = placed-IsValid p v in
    rw after (record { in_range = kept.in_range; unique = kept.unique })
handled-IsValid {db} (released_order o mid et eo (runs, is_mid) after) v =
    let kept = release_stock-IsValid o db v runs in
    rw (after, is_mid) (record { in_range = kept.in_range; unique = kept.unique })

abbrev KeepsTotal : Uuid → Db → Db → Type 0
KeepsTotal i db db' = IsValid db → Conserves i db db'

placed-Conserves :
    {d : Draw} {order_id : IdText} {payload : Payload} {db db' : Db} (i : Uuid)
    → Placed d order_id payload db db'
    → Conserves i db db'
placed-Conserves {db} i (accepted o items eo ei runs after) =
    rw after (reserve_stock-Conserves o items db i runs)
placed-Conserves {db} i (rejected r why after) = rw after (Conserves-refl i db)

handled-Conserves :
    {d : Draw} {event_id : Uuid} {envelope : Envelope} {db db' : Db} (i : Uuid)
    → Handled d event_id envelope db db'
    → KeepsTotal i db db'
handled-Conserves {db} i (duplicate seen after) v = rw after (Conserves-refl i db)
handled-Conserves {db} i (ignored n m after) v = rw after (Conserves-refl i db)
handled-Conserves i (placed_order order_id mid et eo new p after) v =
    rw after (placed-Conserves i p)
handled-Conserves {db} i (released_order o mid et eo (runs, is_mid) after) v =
    rw (after, is_mid) (release_stock-Conserves o db i v runs)

-- Every message, whether it is handled, skipped or refused, leaves each quantity in range and at
-- most one reservation for an order.
pub handle_message-IsValid :
    (d : Draw) (envelope : Envelope) (db : Db)
    → IsValid db
    → IsValid (handle_message d envelope db).1
handle_message-IsValid d envelope db =
    handle_message_rule KeepsValid (λ s v. v) d envelope db (λ event_id db' ei h. handled-IsValid h)

-- Every message leaves, of each item that has a stock row, the sum of what is in stock and what is
-- reserved as it was.
pub handle_message-Conserves :
    (d : Draw) (envelope : Envelope) (db : Db) (i : Uuid)
    → IsValid db
    → Conserves i db (handle_message d envelope db).1
handle_message-Conserves d envelope db i =
    handle_message_rule (KeepsTotal i) (λ s v. Conserves-refl i s) d envelope db
      (λ event_id db' ei h. handled-Conserves i h)

-- From a valid database (quantities in range, one reservation for an order at most), over any run
-- of the consumer, whatever is delivered, in whatever order and however often: the database stays
-- valid, and of each item with a stock row what is in stock and what is reserved add up to the
-- same at the end as at the start.
pub run-Conserves :
    (batches : List (List Delivery)) (c : Consumer Db) (i : Uuid)
    → IsValid c.db
    → IsValid (run batches c).db × Conserves i c.db (run batches c).db
unfolding run
run-Conserves batches c i v =
    run_consumer-keeps deliver (λ db. IsValid db × Conserves i c.db db)
      (λ m db h. (
        handle_message-IsValid m.0 m.1 db h.0,
        Conserves-trans i c.db db (handle_message m.0 m.1 db).1 h.1
            (handle_message-Conserves m.0 m.1 db i h.0),
      ))
      batches c (v, Conserves-refl i c.db)
