-- ===== src/Order/Consumer/Delivered.antt =====
-- What one delivery to services/order/consumers.py does, whatever comes of it.
use food_flow.Prelude.{subst, String, ◌≡◌, refl, arith}
use food_flow.Shared.Uuid.{Uuid, IdText, str, malformed}
use food_flow.Shared.Error.{value_error, Result, Error, ok, err}
use food_flow.Shared.Event.{Envelope, Draw}
use food_flow.Shared.Transaction.{Done, transaction}
use food_flow.Order.Db.{Db}
use food_flow.Order.Consumer.{process, handle_message}
use food_flow.Order.Consumer.Outcome.{Handled, processed}

-- A message changes the database as one committed run of `process`, or not at all.
pub data Delivered (d : Draw) (envelope : Envelope) (db : Db) : Result Done × Db → Type 0 where
  unchanged : (e : Error) → Delivered d envelope db (err e, db)
  committed :
      (event_id : Uuid) (db' : Db)
      → envelope.event_id ≡ str event_id
      → process d event_id envelope db ≡ (ok tt, db')
      → Handled d event_id envelope db db'
      → Delivered d envelope db (ok tt, db')

Delivered-at :
    (d : Draw) (envelope : Envelope) (db : Db) (t : IdText)
    → envelope.event_id ≡ t
    → Delivered d envelope db (handle_message d envelope db)
Delivered-at d envelope db (malformed s) e = rw (refuses s e) (unchanged value_error)
  where
    refuses :
        (s : String)
        → envelope.event_id ≡ malformed s
        → handle_message d envelope db ≡ (err value_error, db)
    refuses s e = unfold handle_message in ground arith
Delivered-at d envelope db (str u) e = settled (process d u envelope db) refl
  where
    settled :
        (r : Result Done × Db)
        → process d u envelope db ≡ r
        → Delivered d envelope db (handle_message d envelope db)
    settled (ok a, db') run = rw (returns db' run) (
        committed u db' e run (
          subst (λ (r : Result Done × Db). Handled d u envelope db r.1) run
            (processed d u envelope db (rw run))))
      where
        returns :
            (db' : Db)
            → process d u envelope db ≡ (ok tt, db')
            → handle_message d envelope db ≡ (ok tt, db')
        returns db' run = unfold handle_message transaction in ground arith
    settled (err w, db') run = rw (rolls_back w db' run) (unchanged w)
      where
        rolls_back :
            (w : Error) (db' : Db)
            → process d u envelope db ≡ (err w, db')
            → handle_message d envelope db ≡ (err w, db)
        rolls_back w db' run = unfold handle_message transaction in ground arith

-- A delivery raises and changes nothing, or it commits a run of the transaction.
pub delivered :
    (d : Draw) (envelope : Envelope) (db : Db)
    → Delivered d envelope db (handle_message d envelope db)
delivered d envelope db = Delivered-at d envelope db envelope.event_id refl
