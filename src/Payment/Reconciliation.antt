-- ===== src/Payment/Reconciliation.antt =====
-- services/payment/reconciliation.py
use food_flow.Prelude.{
  List, ◌*◌, ℕ, ◌+◌, String, Bool, true, false, Option, none, some, [], ◌∷◌, if◌then◌else◌, ltb,
}
use food_flow.Shared.Uuid.{Uuid, str}
use food_flow.Shared.Event.{Draw}
use food_flow.Shared.Table.{Table, lookup}
use food_flow.Shared.Transaction.{Tx, pure, gets, transaction, ◌>>=◌, ◌>>◌}
use food_flow.Payment.Gateway.{process_payment}
use food_flow.Payment.Db.{PaymentStatus, processing, Payment, Db, outcome_status, publish_outcome}
use food_flow.Payment.Consumer.{update_status}

abbrev pub is_processing : PaymentStatus → Bool
is_processing processing = true
is_processing _ = false

-- WHERE status = 'PROCESSING' AND updated_at < NOW() - INTERVAL …
abbrev pub is_stuck : ℕ → ℕ → Payment → Bool
is_stuck now duration p =
    if is_processing p.status then ltb (p.updated_at + duration) now else false

-- 1. Find stuck payments
unfoldable pub stuck_payments : ℕ → ℕ → Table Payment → Table Payment
stuck_payments now duration [] = []
stuck_payments now duration ((i, p) ∷ rows) =
    let rest = stuck_payments now duration rows in
    if is_stuck now duration p then (i, p) ∷ rest else rest

-- current_status != "PROCESSING", on the row that is locked
abbrev pub still_processing : Option Payment → Bool
still_processing none = false
still_processing (some p) = is_processing p.status

-- 3. The body of the loop, with its gateway call: whether the payment was resolved here.
unfoldable pub resolve : String → Draw → Uuid × Payment → Tx Db Bool
resolve default d (payment_id, payment) = transaction (do
  row ← gets (λ (db : Db). lookup payment_id db.payments)
  if still_processing row
      then (do
        update_status d.now payment_id
            (outcome_status (process_payment default payment.payment_simulate))
        publish_outcome d (str payment.order_id) (process_payment default payment.payment_simulate)
        pure true)
      else pure false)

-- The loop, on what is left of the list, with the count so far and a draw for each pass.
unfoldable pub resolve_all : String → (ℕ → Draw) → Table Payment → ℕ → ℕ → Tx Db ℕ
resolve_all default draws [] pass reconciled_count = pure reconciled_count
resolve_all default draws (row ∷ rows) pass reconciled_count = do
  resolved ← resolve default (draws pass) row
  resolve_all default draws rows (pass + 1)
      (if resolved then reconciled_count + 1 else reconciled_count)

unfoldable pub reconcile_stuck_payments : String → (ℕ → Draw) → ℕ → ℕ → Tx Db ℕ
unfolding stuck_payments
reconcile_stuck_payments default draws now stuck_duration = do
  stuck ← gets (λ (db : Db). stuck_payments now stuck_duration db.payments)
  resolve_all default draws stuck 0 0

-- What one round of the worker draws: the time of the query, and the draws of its passes.
pub record Round : Type 0 where
  pub now : ℕ
  pub draws : ℕ → Draw

-- INTERVAL '3 minutes', in microseconds
abbrev pub three_minutes : ℕ
three_minutes = 3 * 60000000

-- The rounds up to the shutdown event; what a round raises is logged.
unfoldable pub run_reconciliation_worker : String → List Round → Db → Db
unfolding reconcile_stuck_payments
run_reconciliation_worker default [] db = db
run_reconciliation_worker default (r ∷ rounds) db =
    run_reconciliation_worker default rounds
      (reconcile_stuck_payments default r.draws r.now three_minutes db).1
