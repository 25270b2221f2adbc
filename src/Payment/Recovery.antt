-- ===== src/Payment/Recovery.antt =====
-- Reconciliation gives a payment whose call died before transaction 2 the outcome that the call would
-- have given it.
use food_flow.Prelude.{ℕ, ◌+◌, ◌<◌, String, ◌≡◌, refl, true, Bool, Option, some, arith, ==_refl}
use food_flow.Prelude.Int.{ℤ}
use food_flow.Shared.Uuid.{Uuid, str}
use food_flow.Shared.Error.{Result, ok, err}
use food_flow.Shared.Event.{Float, Envelope, Draw}
use food_flow.Shared.Table.{lookup}
use food_flow.Shared.Transaction.{Done, transaction}
use food_flow.Payment.Gateway.{process_payment}
use food_flow.Payment.Db.{Payment, Db, processing}
use food_flow.Payment.Consumer.{
  PaymentDraw, new_payment, begin_payment, finish_payment, record_outcome, update_status,
}
use food_flow.Payment.Reconciliation.{resolve, stuck_payments}
use food_flow.Payment.Intent.{
  Begun, raised, duplicate, already_paid, intended, intended_db, begin_payment-Begun,
}

-- A pass that resolved its payment, in the place of a call that returned.
abbrev pub resolved : Result Done × Db → Result Bool × Db
resolved (ok _, db) = (ok true, db)
resolved (err e, db) = (err e, db)

-- On a row that is PROCESSING still, a pass over what was read of it before does what transaction 2
-- does.
pub resolve-record_outcome :
    (default : String) (d : Draw) (id : Uuid) (p q : Payment) (db : Db)
    → lookup id db.payments ≡ some q
    → q.status ≡ processing
    → resolve default d (id, p) db
      ≡ resolved
          (record_outcome d id (str p.order_id) (process_payment default p.payment_simulate) db)
unfolding resolve record_outcome transaction update_status
resolve-record_outcome default d id p q db e s = ground arith

module _ (to_cents : Float → Option ℤ) (default : String) (d : PaymentDraw)
    (envelope : Envelope) where
  pub finish_payment_runs :
      (o id : Uuid) (db : Db)
      → envelope.payload.order_id ≡ some (str o)
      → finish_payment default d envelope (some id) db
        ≡ record_outcome d.outcome id
            (str o)
            (process_payment default envelope.payload.payment_simulate)
            db
  unfolding finish_payment
  finish_payment_runs o id db e = ground arith

  pub finds_new :
      (o event_id : Uuid) (cents : ℤ) (db : Db)
      → lookup d.payment_uuid
          (intended_db d event_id o cents envelope.payload.payment_simulate db).payments
        ≡ some (new_payment d o cents envelope.payload.payment_simulate)
  unfolding lookup
  finds_new o event_id cents db = ground (arith, ==_refl d.payment_uuid)

  sees_stuck :
      (o event_id : Uuid) (cents : ℤ) (db : Db) (now duration : ℕ)
      → d.now + duration < now
      → lookup d.payment_uuid (
          stuck_payments now duration
            (intended_db d event_id o cents envelope.payload.payment_simulate db).payments)
        ≡ some (new_payment d o cents envelope.payload.payment_simulate)
  unfolding lookup stuck_payments
  sees_stuck o event_id cents db now duration late = ground (arith, ==_refl d.payment_uuid)

  recovers :
      {db : Db} {r : Result (Option Uuid) × Db} {id : Uuid}
      → Begun to_cents d envelope db r
      → r.0 ≡ ok (some id)
      → (now duration : ℕ) → d.now + duration < now
      → (p : Payment) × (lookup id r.1.payments ≡ some p)
        × (lookup id (stuck_payments now duration r.1.payments) ≡ some p)
        × (resolve default d.outcome (id, p) r.1
            ≡ resolved (finish_payment default d envelope (some id) r.1))
  recovers (raised e) h now duration late = cc
  recovers (duplicate u ei seen) h now duration late = cc
  recovers (already_paid o eo paid) h now duration late = cc
  recovers {db} {id} (intended event_id o cents ei eo new fresh unpaid charge) h now duration late =
      let same : d.payment_uuid ≡ id = ground arith in
      let p = new_payment d o cents envelope.payload.payment_simulate in
      let mid = intended_db d event_id o cents envelope.payload.payment_simulate db in
      rw (← same) (
        p,
        finds_new o event_id cents db,
        sees_stuck o event_id cents db now duration late,
        rw (finish_payment_runs o d.payment_uuid mid eo) (
            resolve-record_outcome default d.outcome d.payment_uuid p p mid
              (finds_new o event_id cents db) refl),
      )

  -- A call whose first transaction gave a payment id and that dies then leaves a row that the
  -- query of the worker finds once it is older than the given duration; and the worker's pass over
  -- it leaves exactly the database, status and outcome event included, that the rest of the call
  -- would have left with the same draws.
  pub crash_recovery :
      (db : Db) (id : Uuid)
      → (begin_payment to_cents d envelope db).0 ≡ ok (some id)
      → (now duration : ℕ) → d.now + duration < now
      → let mid = (begin_payment to_cents d envelope db).1 in
        (p : Payment) × (lookup id mid.payments ≡ some p)
        × (lookup id (stuck_payments now duration mid.payments) ≡ some p)
        × (resolve default d.outcome (id, p) mid
            ≡ resolved (finish_payment default d envelope (some id) mid))
  crash_recovery db id h now duration late =
      recovers (begin_payment-Begun to_cents d envelope db) h now duration late
