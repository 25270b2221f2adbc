-- ===== src/Tests/Payment.antt =====
-- Concrete inputs for services/payment.
use food_flow.Prelude.{ℕ, ◌+◌, ◌*◌, ◌≤◌, ◌≡◌, refl, true, false, Option, some, List, [], ◌∷◌, arith}
use food_flow.Prelude.Int.{ℤ, pos}
use food_flow.Shared.Uuid.{Uuid, str}
use food_flow.Shared.Error.{ok}
use food_flow.Shared.Text.{text_length}
use food_flow.Shared.Event.{Float, Envelope, Draw, order_placed, order_only, wrap_event}
use food_flow.Shared.Table.{lookup, set_row}
use food_flow.Shared.Tables.{is_in, has_row, insert_outbox, insert_processed}
use food_flow.Shared.Transaction.{transaction}
use food_flow.Payment.Gateway.{process_payment, is_failure}
use food_flow.Payment.Db.{
  Payment, processing, failed, Db, order_paid, publish_outcome, mark_processed,
}
use food_flow.Payment.Consumer.{
  PaymentDraw, insert_payment, insert_intent, record_intent, update_status, record_outcome,
  begin_payment, finish_payment, handle_message,
}
use food_flow.Payment.Reconciliation.{
  resolve, resolve_all, stuck_payments, reconcile_stuck_payments, Round, three_minutes,
  run_reconciliation_worker,
}
use food_flow.Payment.Recovery.{resolved, crash_recovery}
use food_flow.Payment.Idempotent.{payment_message_again}
use food_flow.Payment.Count.{outcomes, settled}
use food_flow.Payment.Outcomes.{IsValid, late_outcome_duplicates}
use food_flow.Payment.Outcomes.Settles.{IsSettledAs}
use food_flow.Payment.Outcomes.Worker.{run_reconciliation_worker_settles}
use food_flow.Payment.Outcomes.Run.{
  Action, deliver, die, reconcile, perform_all, perform_all-outcomes, handle_message-IsValid,
}

-- Whole numbers in place of floats.
abbrev whole : Float → Option ℤ
whole x = some (pos (x * 100))

abbrev empty : Db
empty = record { payments = []; events = record { outbox = []; processed = [] } }

abbrev second_draw : ℕ → Draw
second_draw n = record { event_uuid = 300 + n; row_uuid = 200 + n; clock = 2; now = 50 }

abbrev draw : PaymentDraw
draw = record { payment_uuid = 30; now = 1; outcome = second_draw 0 }

abbrev order_of : Uuid → Uuid → Envelope
order_of event order = record {
  event_id = str event;
  event_type = order_placed;
  occurred_at = 0;
  payload = record (order_only (str order)) {
    total_amount = some 20;
    payment_simulate = some "Failure";
  };
}

-- The payment that a call leaves that died half way.
abbrev stuck : Payment
stuck = record {
  order_id = 1;
  amount = pos 2000;
  status = processing;
  payment_simulate = some "Failure";
  created_at = 1;
  updated_at = 1;
}

empty-IsValid : IsValid empty
empty-IsValid = record {
  unique = tt;
  unique_orders = tt;
  counts = λ b o. unfold outcomes settled in refl;
}

begins : (begin_payment whole draw (order_of 70 1) empty).0 ≡ ok (some 30)
unfolding begin_payment record_intent transaction is_in insert_intent insert_payment text_length
    lookup order_paid mark_processed insert_processed
begins = refl

runs : (handle_message whole "success" draw (order_of 70 1) empty).0 ≡ ok tt
unfolding handle_message begin_payment record_intent transaction is_in insert_intent insert_payment
    text_length lookup order_paid mark_processed insert_processed finish_payment record_outcome
    update_status set_row process_payment is_failure publish_outcome insert_outbox has_row
    wrap_event
runs = refl

crash_recovery_example :
    let mid = (begin_payment whole draw (order_of 70 1) empty).1 in
    (p : Payment) × (lookup 30 mid.payments ≡ some p)
    × (lookup 30 (stuck_payments 40 10 mid.payments) ≡ some p)
    × (resolve "success" (second_draw 0) (30, p) mid
        ≡ resolved (finish_payment "success" draw (order_of 70 1) (some 30) mid))
crash_recovery_example =
    crash_recovery whole "success" draw (order_of 70 1) empty 30 begins 40 10 (omega arith)

payment_message_again_example :
    let db' = (handle_message whole "success" draw (order_of 70 1) empty).1 in
    (handle_message whole "success" draw (order_of 70 1) db').1 ≡ db'
payment_message_again_example =
    payment_message_again whole "success" draw draw (order_of 70 1) empty runs

-- A call that dies, the worker that finds its payment, and a redelivery.
abbrev actions : List Action
actions = die draw (order_of 70 1) ∷ reconcile second_draw 40 10 ∷ deliver draw (order_of 70 1) ∷ []

perform_all-outcomes_example :
    let db' = perform_all whole "success" actions empty in
    (outcomes true 1 db'.events.outbox ≡ settled true 1 db'.payments)
    × (outcomes false 1 db'.events.outbox ≡ settled false 1 db'.payments)
    × (outcomes true 1 db'.events.outbox + outcomes false 1 db'.events.outbox ≤ 1)
perform_all-outcomes_example = perform_all-outcomes whole "success" actions empty 1 empty-IsValid

abbrev left : Db
left = record { payments = (30, stuck) ∷ []; events = record { outbox = []; processed = 70 ∷ [] } }

round_runs : (reconcile_stuck_payments "success" second_draw 40 10 left).0 ≡ ok 1
unfolding reconcile_stuck_payments stuck_payments resolve_all resolve transaction lookup
    update_status set_row process_payment is_failure publish_outcome insert_outbox has_row
    wrap_event
round_runs = refl

-- The payment that the worker settled while the first call still waits for the gateway.
abbrev settled_db : Db
settled_db = (handle_message whole "success" draw (order_of 70 1) empty).1

abbrev settled_payment : Payment
settled_payment = record stuck { status = failed; updated_at = 50 }

settled_row : lookup 30 settled_db.payments ≡ some settled_payment
unfolding handle_message begin_payment record_intent transaction is_in insert_intent insert_payment
    text_length lookup order_paid mark_processed insert_processed finish_payment record_outcome
    update_status set_row process_payment is_failure publish_outcome insert_outbox has_row
    wrap_event
settled_row = refl

late_runs : (record_outcome (second_draw 1) 30 (str 1) true settled_db).0 ≡ ok tt
unfolding handle_message begin_payment record_intent transaction is_in insert_intent insert_payment
    text_length lookup order_paid mark_processed insert_processed finish_payment record_outcome
    update_status set_row process_payment is_failure publish_outcome insert_outbox has_row
    wrap_event
late_runs = refl

late_outcome_duplicates_example :
    let db' = (record_outcome (second_draw 1) 30 (str 1) true settled_db).1 in
    outcomes true 1 db'.events.outbox + outcomes false 1 db'.events.outbox ≡ 2
late_outcome_duplicates_example =
    late_outcome_duplicates (second_draw 1) 30 true false settled_payment settled_db
      (handle_message-IsValid whole draw (order_of 70 1) "success" empty empty-IsValid) settled_row
      refl late_runs

abbrev late_round : Round
late_round = record { now = 1000000000; draws = second_draw }

late_round_runs :
    (reconcile_stuck_payments "success" second_draw 1000000000 three_minutes left).0 ≡ ok 1
unfolding reconcile_stuck_payments stuck_payments resolve_all resolve transaction lookup
    update_status set_row process_payment is_failure publish_outcome insert_outbox has_row
    wrap_event
late_round_runs = refl

run_reconciliation_worker_settles_example :
    IsSettledAs
      (process_payment "success" (some "Failure"))
      30
      (run_reconciliation_worker "success" (late_round ∷ late_round ∷ []) left)
run_reconciliation_worker_settles_example =
    run_reconciliation_worker_settles "success" late_round (late_round ∷ []) 1 left 30 stuck
      late_round_runs (unfold lookup in refl) refl
