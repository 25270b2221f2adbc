-- ===== src/Restaurant/Consumer/Outcome.antt =====
-- What the transaction of services/restaurant/consumers.py does when it commits.
use food_flow.Prelude.{
  Bool-cases, String, ◌≡◌, ◌≢◌, refl, true, false, some, none, ◌∷◌, arith, Option-cases, inl, inr,
  ◌⊎◌,
}
use food_flow.Shared.Uuid.{Uuid, IdText, str, malformed}
use food_flow.Shared.Error.{unique_violation, stock_reservations_order_id_key, Result, ok, err}
use food_flow.Shared.Event.{EventType, order_placed, stock_release, Envelope, Draw}
use food_flow.Shared.Tables.{is_in}
use food_flow.Shared.Transaction.{settle, Done, >>-ok, transaction}
use food_flow.Restaurant.Stock.{Db, release_stock}
use food_flow.Restaurant.Consumer.{
  unique_violation, swallow, handle_event, process, dispatch, on_order_placed, mark_processed,
}
use food_flow.Restaurant.Consumer.Placing.{Placed, placed}

abbrev pub marked : Uuid → Db → Db
marked event_id db = record db {
  events = record db.events { processed = event_id ∷ db.events.processed };
}

mark-ok :
    (event_id : Uuid) (db : Db)
    → (mark_processed event_id db).0 ≡ ok tt
    → (mark_processed event_id db).1 ≡ marked event_id db
unfolding mark_processed
mark-ok event_id db h = ground arith

-- What `process` has done when it returns.
pub data Handled (d : Draw) (event_id : Uuid) (envelope : Envelope) (db db' : Db) : Type 0 where
  duplicate :
      is_in event_id db.events.processed ≡ true → db' ≡ db → Handled d event_id envelope db db'
  ignored :
      envelope.event_type ≢ order_placed
      → envelope.event_type ≢ stock_release
      → db' ≡ db
      → Handled d event_id envelope db db'
  placed_order :
      (order_id : IdText) (mid : Db)
      → envelope.event_type ≡ order_placed
      → envelope.payload.order_id ≡ some order_id
      → is_in event_id db.events.processed ≡ false
      → Placed d order_id envelope.payload db mid
      → db' ≡ marked event_id mid
      → Handled d event_id envelope db db'
  released_order :
      (o : Uuid) (mid : Db)
      → envelope.event_type ≡ stock_release
      → envelope.payload.order_id ≡ some (str o)
      → ((release_stock (str o) db).0 ≡ ok tt) × (mid ≡ (release_stock (str o) db).1)
      → db' ≡ marked event_id mid
      → Handled d event_id envelope db db'

module _ (d : Draw) (event_id : Uuid) (envelope : Envelope) (db : Db) where
  dispatched :
      (order_id : IdText) (t : EventType)
      → envelope.event_type ≡ t
      → envelope.payload.order_id ≡ some order_id
      → is_in event_id db.events.processed ≡ false
      → (dispatch d event_id order_id envelope.payload t db).0 ≡ ok tt
      → Handled d event_id envelope db (dispatch d event_id order_id envelope.payload t db).1
  unfolding dispatch
  dispatched order_id order_placed et eo new h =
      let (first, rest, same) =
        >>-ok (on_order_placed d order_id envelope.payload) (mark_processed event_id) db h in
      let mid = (on_order_placed d order_id envelope.payload db).1 in
      placed_order order_id mid et eo new (placed d order_id envelope.payload db first)
        (rw same (mark-ok event_id mid rest))
  dispatched (malformed s) stock_release et eo new h = absurd (no_release s h)
    where
      no_release :
          (s : String)
          → (dispatch d event_id (malformed s) envelope.payload stock_release db).0 ≢ ok tt
      no_release s h = unfold release_stock dispatch in ground arith
  dispatched (str o) stock_release et eo new h =
      let (first, rest, same) = >>-ok (release_stock (str o)) (mark_processed event_id) db h in
      let mid = (release_stock (str o) db).1 in
      released_order o mid et eo (first, refl) (rw same (mark-ok event_id mid rest))
  dispatched order_id t et eo new h = ignored (λ p. cc) (λ p. cc) refl

  pub processed :
      (process d event_id envelope db).0 ≡ ok tt
      → Handled d event_id envelope db (process d event_id envelope db).1
  processed h = elim (Bool-cases (is_in event_id db.events.processed)) [
    | inl seen ↦ duplicate seen (skips seen)
    | inr new ↦ elim (Option-cases envelope.payload.order_id) [
      | inl absent ↦ absurd (no_key new absent h)
      | inr (order_id, had) ↦
          rw (goes order_id new had)
            (dispatched order_id envelope.event_type refl had new (rw (goes order_id new had) at h))
    ]
  ]
    where
      skips : is_in event_id db.events.processed ≡ true → (process d event_id envelope db).1 ≡ db
      skips seen = unfold process in ground arith

      no_key :
          is_in event_id db.events.processed ≡ false
          → envelope.payload.order_id ≡ none
          → (process d event_id envelope db).0 ≢ ok tt
      no_key new absent h = unfold process in ground arith

      goes :
          (order_id : IdText)
          → is_in event_id db.events.processed ≡ false
          → envelope.payload.order_id ≡ some order_id
          → process d event_id envelope db
            ≡ dispatch d event_id order_id envelope.payload envelope.event_type db
      goes order_id new had = unfold process in ground arith

  -- A message changes the database as one committed run of `process`, or not at all.
  pub handle_event_cases :
      ((handle_event d event_id envelope db).1 ≡ db)
      ⊎ (((process d event_id envelope db).0 ≡ ok tt)
          × (handle_event d event_id envelope db ≡ process d event_id envelope db))
  unfolding handle_event transaction
  handle_event_cases = settled (process d event_id envelope db)
    where
      settled :
          (r : Result Done × Db)
          → ((swallow (settle db r)).1 ≡ db) ⊎ ((r.0 ≡ ok tt) × (swallow (settle db r) ≡ r))
      settled (ok a, mid) = inr (refl, refl)
      settled (err (unique_violation stock_reservations_order_id_key), mid) = inl refl
      settled (err w, mid) = inl refl
