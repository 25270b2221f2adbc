-- ===== src/Payment/Outcomes/Worker.antt =====
-- run_reconciliation_worker of services/payment/reconciliation.py: what a round settled stays settled.
use food_flow.Payment.Outcomes.{List}
use food_flow.Prelude.{ℕ, String, ◌≡◌, true, Bool, some, [], ◌∷◌}
use food_flow.Shared.Uuid.{Uuid}
use food_flow.Shared.Error.{ok}
use food_flow.Shared.Table.{lookup}
use food_flow.Payment.Gateway.{process_payment}
use food_flow.Payment.Db.{Payment, Db}
use food_flow.Payment.Reconciliation.{
  three_minutes, Round, run_reconciliation_worker, stuck_payments, reconcile_stuck_payments,
  is_stuck,
}
use food_flow.Payment.Outcomes.Settles.{IsSettledAs, resolve_all-IsSettledAs, reconcile_settles}

rounds-IsSettledAs :
    (default : String) (rounds : List Round) (db : Db) (b : Bool) (i : Uuid)
    → IsSettledAs b i db
    → IsSettledAs b i (run_reconciliation_worker default rounds db)
unfolding run_reconciliation_worker reconcile_stuck_payments
rounds-IsSettledAs default [] db b i h = h
rounds-IsSettledAs default (r ∷ rounds) db b i h =
    rounds-IsSettledAs default rounds
      (reconcile_stuck_payments default r.draws r.now three_minutes db).1 b i
      (resolve_all-IsSettledAs default r.draws (stuck_payments r.now three_minutes db.payments) 0 0
        db b i h)

-- If the first round of the worker returns, a payment that is then in PROCESSING for more than
-- three minutes has, after that round and any further ones, whatever they raise, the outcome that
-- the gateway gives for the directive stored with it.
pub run_reconciliation_worker_settles :
    (default : String) (r : Round) (rounds : List Round) (m : ℕ) (db : Db) (i : Uuid) (p : Payment)
    → (reconcile_stuck_payments default r.draws r.now three_minutes db).0 ≡ ok m
    → lookup i db.payments ≡ some p
    → is_stuck r.now three_minutes p ≡ true
    → IsSettledAs
        (process_payment default p.payment_simulate)
        i
        (run_reconciliation_worker default (r ∷ rounds) db)
unfolding run_reconciliation_worker
run_reconciliation_worker_settles default r rounds m db i p h e s =
    rounds-IsSettledAs default rounds
      (reconcile_stuck_payments default r.draws r.now three_minutes db).1
      (process_payment default p.payment_simulate) i
      (reconcile_settles default r.draws r.now three_minutes m db i p h e s)
