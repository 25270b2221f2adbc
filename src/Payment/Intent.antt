-- ===== src/Payment/Intent.antt =====
-- Every way that the first transaction of services/payment/consumers.py can end.
use food_flow.Prelude.{
  String, ◌≡◌, refl, ◌≢◌, true, false, Option, none, some, ◌∷◌, arith, Option-cases, Bool-cases,
  inl, inr,
}
use food_flow.Prelude.Int.{ℤ}
use food_flow.Shared.Uuid.{Uuid, IdText, str, malformed}
use food_flow.Shared.Error.{
  Error, Result, ok, err, value_error, key_error, unique_violation, payments_order_id_key,
}
use food_flow.Shared.Event.{Float, Envelope}
use food_flow.Shared.Table.{lookup}
use food_flow.Shared.Tables.{is_in}
use food_flow.Shared.Transaction.{transaction, settle}
use food_flow.Payment.Db.{mark_processed, Db, order_paid}
use food_flow.Payment.Consumer.{
  PaymentDraw, new_payment, insert_intent, record_intent, begin_payment, swallow,
}

abbrev pub marked : Uuid → Db → Db
marked event_id db = record db {
  events = record db.events { processed = event_id ∷ db.events.processed };
}

-- The database with the PROCESSING row and the mark.
abbrev pub intended_db : PaymentDraw → Uuid → Uuid → ℤ → Option String → Db → Db
intended_db d event_id o cents simulate db =
    marked event_id
      (record db { payments = (d.payment_uuid, new_payment d o cents simulate) ∷ db.payments })

module _ (to_cents : Float → Option ℤ) (d : PaymentDraw) (envelope : Envelope) (db : Db) where
  pub data Begun : Result (Option Uuid) × Db → Type 0 where
    raised : (e : Error) → Begun (err e, db)
    duplicate :
        (event_id : Uuid)
        → envelope.event_id ≡ str event_id
        → is_in event_id db.events.processed ≡ true
        → Begun (ok none, db)
    already_paid :
        (o : Uuid)
        → envelope.payload.order_id ≡ some (str o)
        → order_paid o db.payments ≡ true
        → Begun (ok none, db)
    intended :
        (event_id o : Uuid) (cents : ℤ)
        → envelope.event_id ≡ str event_id
        → envelope.payload.order_id ≡ some (str o)
        → is_in event_id db.events.processed ≡ false
        → lookup d.payment_uuid db.payments ≡ none
        → order_paid o db.payments ≡ false
        → (amount : Float) × (envelope.payload.total_amount ≡ some amount)
          × (to_cents amount ≡ some cents)
        → Begun (
          ok (some d.payment_uuid),
          intended_db d event_id o cents envelope.payload.payment_simulate db,
        )

  -- The INSERTs, where they succeed.
  insert_intent-ok :
      (event_id o : Uuid) (amount : Float) (cents : ℤ) (simulate : Option String) {r : Option Uuid}
      → to_cents amount ≡ some cents
      → (insert_intent to_cents d event_id (str o) amount simulate db).0 ≡ ok r
      → (insert_intent to_cents d event_id (str o) amount simulate db
          ≡ (ok (some d.payment_uuid), intended_db d event_id o cents simulate db))
        × (lookup d.payment_uuid db.payments ≡ none)
        × (order_paid o db.payments ≡ false)
  unfolding insert_intent mark_processed
  insert_intent-ok event_id o amount cents simulate e h = (ground arith, ground arith, ground arith)

  insert_intent_misfit :
      (event_id o : Uuid) (amount : Float) (simulate : Option String) {r : Option Uuid}
      → to_cents amount ≡ none
      → (insert_intent to_cents d event_id (str o) amount simulate db).0 ≢ ok r
  unfolding insert_intent
  insert_intent_misfit event_id o amount simulate e h = ground arith

  insert_intent_malformed :
      (event_id : Uuid) (s : String) (amount : Float) (simulate : Option String) {r : Option Uuid}
      → (insert_intent to_cents d event_id (malformed s) amount simulate db).0 ≢ ok r
  unfolding insert_intent
  insert_intent_malformed event_id s amount simulate h = ground arith

  malformed_unviolated :
      (event_id : Uuid) (s : String) (amount : Float) (simulate : Option String)
      → (insert_intent to_cents d event_id (malformed s) amount simulate db).0
        ≢ err (unique_violation payments_order_id_key)
  unfolding insert_intent
  malformed_unviolated event_id s amount simulate h = ground arith

  -- The UNIQUE constraint that the `except` names fires for an order that has a payment.
  violation_paid :
      (event_id o : Uuid) (amount : Float) (simulate : Option String)
      → (insert_intent to_cents d event_id (str o) amount simulate db).0
        ≡ err (unique_violation payments_order_id_key)
      → order_paid o db.payments ≡ true
  unfolding insert_intent mark_processed
  violation_paid event_id o amount simulate h = ground arith

  -- The transaction with its `except`, by what its body did.
  recorded :
      (event_id : Uuid) (t : IdText) (amount : Float)
      → envelope.event_id ≡ str event_id
      → envelope.payload.order_id ≡ some t
      → envelope.payload.total_amount ≡ some amount
      → (r : Result (Option Uuid) × Db)
      → insert_intent to_cents d event_id t amount envelope.payload.payment_simulate db ≡ r
      → is_in event_id db.events.processed ≡ false
      → Begun (swallow (settle db r))
  recorded event_id (malformed s) amount ee eo ea
        (err (unique_violation payments_order_id_key), mid) e new =
      absurd (malformed_unviolated event_id s amount envelope.payload.payment_simulate (rw e))
  recorded event_id (str o) amount ee eo ea (err (unique_violation payments_order_id_key), mid) e
        new =
      already_paid o eo (violation_paid event_id o amount envelope.payload.payment_simulate (rw e))
  recorded event_id t amount ee eo ea (err w, mid) e new = raised w
  recorded event_id (malformed s) amount ee eo ea (ok r, mid) e new =
      absurd
        (insert_intent_malformed event_id s amount envelope.payload.payment_simulate {r = r} (rw e))
  recorded event_id (str o) amount ee eo ea (ok r, mid) e new =
      elim (Option-cases (to_cents amount)) [
        | inl misfit ↦ absurd (
            insert_intent_misfit event_id o amount envelope.payload.payment_simulate {r = r} misfit
              (rw e))
        | inr (cents, fits) ↦
            let (whole, fresh, unpaid) =
              insert_intent-ok event_id o amount cents envelope.payload.payment_simulate {r = r}
                fits (rw e) in
            rw (← e, whole) (intended event_id o cents ee eo new fresh unpaid (amount, ea, fits))
      ]

  intent :
      (event_id : Uuid) (t : IdText) (amount : Float)
      → envelope.event_id ≡ str event_id
      → envelope.payload.order_id ≡ some t
      → envelope.payload.total_amount ≡ some amount
      → Begun (record_intent to_cents d event_id t amount envelope.payload.payment_simulate db)
  intent event_id t amount ee eo ea = elim (Bool-cases (is_in event_id db.events.processed)) [
    | inl seen ↦ rw (skips seen) (duplicate event_id ee seen)
    | inr new ↦ rw (goes new) (
        recorded event_id t amount ee eo ea
          (insert_intent to_cents d event_id t amount envelope.payload.payment_simulate db) refl
          new)
  ]
    where
      skips :
          is_in event_id db.events.processed ≡ true
          → record_intent to_cents d event_id t amount envelope.payload.payment_simulate db
            ≡ (ok none, db)
      skips seen = unfold record_intent transaction in ground arith

      goes :
          is_in event_id db.events.processed ≡ false
          → record_intent to_cents d event_id t amount envelope.payload.payment_simulate db
            ≡ swallow (
                settle db
                  (insert_intent to_cents d event_id t amount envelope.payload.payment_simulate db))
      goes new = unfold record_intent transaction in rw new

  Begun-at :
      (i : IdText) (t : Option IdText) (amount : Option Float)
      → envelope.event_id ≡ i
      → envelope.payload.order_id ≡ t
      → envelope.payload.total_amount ≡ amount
      → Begun (begin_payment to_cents d envelope db)
  Begun-at (malformed s) t amount ei et ea = rw refuses (raised value_error)
    where
      refuses : begin_payment to_cents d envelope db ≡ (err value_error, db)
      refuses = unfold begin_payment in ground arith
  Begun-at (str u) none amount ei et ea = rw refuses (raised key_error)
    where
      refuses : begin_payment to_cents d envelope db ≡ (err key_error, db)
      refuses = unfold begin_payment in ground arith
  Begun-at (str u) (some t) none ei et ea = rw refuses (raised key_error)
    where
      refuses : begin_payment to_cents d envelope db ≡ (err key_error, db)
      refuses = unfold begin_payment in ground arith
  Begun-at (str u) (some t) (some amount) ei et ea = rw goes (intent u t amount ei et ea)
    where
      goes :
          begin_payment to_cents d envelope db
          ≡ record_intent to_cents d u t amount envelope.payload.payment_simulate db
      goes = unfold begin_payment in ground arith

  -- The first part of a call raises or returns early and changes nothing, or it commits a PROCESSING
  -- payment for an order that had none, and the mark of the event, and gives the payment's id.
  pub begin_payment-Begun : Begun (begin_payment to_cents d envelope db)
  begin_payment-Begun =
      Begun-at envelope.event_id envelope.payload.order_id envelope.payload.total_amount refl refl
        refl
