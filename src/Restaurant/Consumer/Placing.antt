-- ===== src/Restaurant/Consumer/Placing.antt =====
-- The order.placed branch of services/restaurant/consumers.py: the savepoint, and the row that it
-- ends in.
use food_flow.Prelude.{
  sym, String, ◌≡◌, ◌≢◌, refl, ◌∙◌, ap, some, none, List, [], ◌∷◌, ◌++◌, arith, Option-cases, inl,
  inr,
}
use food_flow.Shared.Uuid.{Uuid, IdText, str, malformed}
use food_flow.Shared.Error.{Error, Result, Reason, ok, err, insufficient_stock}
use food_flow.Shared.Event.{
  Item, EventType, stock_reserved, stock_rejected, Payload, Draw, wrap_event,
}
use food_flow.Shared.Tables.{OutboxRow, new_row}
use food_flow.Shared.Transaction.{>>-raise, Done, ◌>>=◌, >>-run, transaction, transaction-err}
use food_flow.Restaurant.Stock.{Db, reserve_stock}
use food_flow.Restaurant.Consumer.{
  get_key, lift, recover, publish, rejection, on_order_placed, reserve_in_savepoint,
}

abbrev pub with_row : Db → OutboxRow → Db
with_row db r = record db { events = record db.events { outbox = db.events.outbox ++ r ∷ [] } }

pub publish-ok :
    (d : Draw) (topic : EventType) (order_id : IdText) (payload : Payload) (db : Db)
    → (publish d topic order_id payload db).0 ≡ ok tt
    → (publish d topic order_id payload db).1
      ≡ with_row db (new_row d topic order_id (wrap_event d topic payload))
unfolding publish
publish-ok d topic order_id payload db h = ground arith

-- What the order.placed branch has done when it returns.
pub data Placed (d : Draw) (order_id : IdText) (payload : Payload) (db db' : Db) : Type 0 where
  accepted :
      (o : Uuid) (items : List Item)
      → order_id ≡ str o
      → payload.items ≡ some items
      → (reserve_stock (str o) items db).0 ≡ ok tt
      → db'
        ≡ with_row
            (reserve_stock (str o) items db).1
            (new_row d stock_reserved order_id (wrap_event d stock_reserved payload))
      → Placed d order_id payload db db'
  rejected :
      (r : Reason)
      → (reserve_in_savepoint order_id payload db).0 ≡ err (insufficient_stock r)
      → db'
        ≡ with_row db
            (new_row d stock_rejected order_id (wrap_event d stock_rejected (rejection order_id r)))
      → Placed d order_id payload db db'

reserve_stock_malformed :
    (t : String) (payload : Payload) (db : Db)
    → (reserve_in_savepoint (malformed t) payload db).0 ≢ ok tt
unfolding reserve_in_savepoint transaction reserve_stock
reserve_stock_malformed t payload db h = ground arith

pub savepoint-ok :
    (order_id : IdText) (payload : Payload) (db : Db)
    → (reserve_in_savepoint order_id payload db).0 ≡ ok tt
    → (o : Uuid) × (items : List Item) × (order_id ≡ str o)
      × (payload.items ≡ some items)
      × ((reserve_stock (str o) items db).0 ≡ ok tt)
      × (reserve_in_savepoint order_id payload db ≡ reserve_stock (str o) items db)
savepoint-ok (str o) payload db h = elim (Option-cases payload.items) [
  | inl absent ↦ absurd (no_items absent)
  | inr (items, e) ↦ (
    o,
    items,
    refl,
    e,
    unfold reserve_in_savepoint transaction in ground arith,
    unfold reserve_in_savepoint transaction in ground arith,
  )
]
  where
    no_items : payload.items ≡ none → ⊥
    no_items absent = unfold reserve_in_savepoint transaction in ground arith
savepoint-ok (malformed t) payload db h = absurd (reserve_stock_malformed t payload db h)

pub savepoint-err :
    (order_id : IdText) (payload : Payload) (db : Db) {e : Error} {mid : Db}
    → reserve_in_savepoint order_id payload db ≡ (err e, mid)
    → mid ≡ db
unfolding reserve_in_savepoint
savepoint-err order_id payload db h =
    sym (ap (λ (x : Result Done × Db). x.1) h)
    ∙ transaction-err (lift (get_key payload.items) >>= reserve_stock order_id) db
        (ap (λ (x : Result Done × Db). x.0) h)

module _ (d : Draw) (order_id : IdText) (payload : Payload) (db : Db) where
  -- A savepoint that is released leads to a stock.reserved row on top of it.
  pub accepts :
      (mid : Db)
      → reserve_in_savepoint order_id payload db ≡ (ok tt, mid)
      → on_order_placed d order_id payload db ≡ publish d stock_reserved order_id payload mid
  unfolding on_order_placed publish
  accepts mid e =
      ap (recover (λ e. publish d stock_rejected order_id (rejection order_id e))) (
        >>-run (reserve_in_savepoint order_id payload) (publish d stock_reserved order_id payload)
          db e)
      ∙ published
    where
      published :
          recover
            (λ e. publish d stock_rejected order_id (rejection order_id e))
            (publish d stock_reserved order_id payload mid)
          ≡ publish d stock_reserved order_id payload mid
      published = ground arith

  -- One that raised is handed to the `except`, with what it left behind.
  pub raised :
      (w : Error) (mid : Db)
      → reserve_in_savepoint order_id payload db ≡ (err w, mid)
      → on_order_placed d order_id payload db
        ≡ recover (λ e. publish d stock_rejected order_id (rejection order_id e)) (err w, mid)
  unfolding on_order_placed
  raised w mid e = ap (recover (λ e. publish d stock_rejected order_id (rejection order_id e))) (
      >>-raise (reserve_in_savepoint order_id payload) (publish d stock_reserved order_id payload)
        db e)

  placed_at :
      (r : Result Done × Db)
      → reserve_in_savepoint order_id payload db ≡ r
      → (on_order_placed d order_id payload db).0 ≡ ok tt
      → Placed d order_id payload db (on_order_placed d order_id payload db).1
  placed_at (ok a, mid) e h =
      let (o, items, eo, ei, runs, same) = savepoint-ok order_id payload db (rw e) in
      let shape = accepts mid e in
      accepted o items eo ei runs (
        rw shape (
          publish-ok d stock_reserved order_id payload mid (rw shape at h)
          ∙ ap
              (λ (x : Db).
                with_row x
                  (new_row d stock_reserved order_id (wrap_event d stock_reserved payload)))
              (ap (λ (x : Result Done × Db). x.1) (sym e ∙ same))))
  placed_at (err (insufficient_stock r), mid) e h =
      let shape = raised (insufficient_stock r) mid e in
      let back : mid ≡ db = savepoint-err order_id payload db e in
      rejected r (rw e) (
        rw (shape, ← back)
          (publish-ok d stock_rejected order_id (rejection order_id r) mid (rw shape at h)))
  placed_at (err w, mid) e h = cc (ap (λ (x : Result Done × Db). x.0) (raised w mid e))

  pub placed :
      (on_order_placed d order_id payload db).0 ≡ ok tt
      → Placed d order_id payload db (on_order_placed d order_id payload db).1
  placed h = placed_at (reserve_in_savepoint order_id payload db) refl h
