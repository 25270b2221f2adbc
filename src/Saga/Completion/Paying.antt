-- ===== src/Saga/Completion/Paying.antt =====
-- The call of `_handle_message` of services/payment/consumers.py that charges an order.
use food_flow.Prelude.{String, ◌≡◌, true, false, Option, some, none, arith}
use food_flow.Prelude.Int.{ℤ}
use food_flow.Shared.Uuid.{Uuid, str}
use food_flow.Shared.Error.{ok}
use food_flow.Shared.Event.{Float, Envelope}
use food_flow.Shared.Table.{lookup}
use food_flow.Shared.Tables.{is_in, has_row}
use food_flow.Shared.Transaction.{transaction}
use food_flow.Payment.Gateway.{process_payment}
use food_flow.Payment.Db.{Db, order_paid, mark_processed, publish_outcome}
use food_flow.Payment.Consumer.{
  PaymentDraw, fits_varchar, new_payment, insert_intent, record_intent, begin_payment,
  handle_message, record_outcome, update_status,
}
use food_flow.Payment.Intent.{intended_db}
use food_flow.Payment.Outcomes.{with_outcome}
use food_flow.Payment.Recovery.{finish_payment_runs, finds_new}

module _ (to_cents : Float → Option ℤ) (default : String) (d : PaymentDraw) (e : Envelope)
    (u o : Uuid) (amount : Float) (cents : ℤ) (db : Db) (is_id : e.event_id ≡ str u)
    (has_order : e.payload.order_id ≡ some (str o))
    (has_amount : e.payload.total_amount ≡ some amount) (fits : to_cents amount ≡ some cents)
    (short : fits_varchar 20 e.payload.payment_simulate ≡ true)
    (is_new : is_in u db.events.processed ≡ false) (free : lookup d.payment_uuid db.payments ≡ none)
    (unpaid : order_paid o db.payments ≡ false) where
  inserts :
      insert_intent to_cents d u (str o) amount e.payload.payment_simulate db
      ≡ (ok (some d.payment_uuid), intended_db d u o cents e.payload.payment_simulate db)
  unfolding insert_intent mark_processed
  inserts = ground arith

  begins :
      begin_payment to_cents d e db
      ≡ (ok (some d.payment_uuid), intended_db d u o cents e.payload.payment_simulate db)
  begins = unfold begin_payment record_intent transaction in ground (arith, inserts)

  -- The database after the whole call.
  abbrev pub paid_db : Db
  paid_db =
      with_outcome d.outcome d.payment_uuid o (process_payment default e.payload.payment_simulate)
        (new_payment d o cents e.payload.payment_simulate)
        (intended_db d u o cents e.payload.payment_simulate db)

  pub charges :
      has_row d.outcome.row_uuid db.events.outbox ≡ false
      → handle_message to_cents default d e db ≡ (ok tt, paid_db)
  charges clear =
      let mid = intended_db d u o cents e.payload.payment_simulate db in
      let ends = finish_payment_runs to_cents default d e o d.payment_uuid mid has_order in
      unfold handle_message in
      ground (arith, begins, ends, records mid (finds_new to_cents default d e o u cents db) clear)
    where
      records :
          (mid : Db)
          → lookup d.payment_uuid mid.payments
            ≡ some (new_payment d o cents e.payload.payment_simulate)
          → has_row d.outcome.row_uuid mid.events.outbox ≡ false
          → record_outcome d.outcome d.payment_uuid
              (str o)
              (process_payment default e.payload.payment_simulate)
              mid
            ≡ (
              ok tt,
              with_outcome d.outcome d.payment_uuid o
                  (process_payment default e.payload.payment_simulate)
                  (new_payment d o cents e.payload.payment_simulate)
                  mid,
            )
      records mid found clear =
          unfold record_outcome transaction update_status publish_outcome in ground arith
