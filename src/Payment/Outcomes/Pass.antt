-- ===== src/Payment/Outcomes/Pass.antt =====
-- One pass of the loop of services/payment/reconciliation.py: what it has done.
use food_flow.Prelude.{
  String, ◌≡◌, refl, true, false, Bool, none, some, arith, inl, inr, ◌⊎◌, Bool-cases, Option-cases,
}
use food_flow.Shared.Uuid.{Uuid}
use food_flow.Shared.Error.{Error, Result, ok, err}
use food_flow.Shared.Event.{Draw}
use food_flow.Shared.Table.{lookup}
use food_flow.Shared.Transaction.{Done, transaction}
use food_flow.Payment.Gateway.{process_payment}
use food_flow.Payment.Db.{Payment, Db, PaymentStatus, processing, succeeded, failed}
use food_flow.Payment.Reconciliation.{resolve, is_processing, still_processing}
use food_flow.Payment.Recovery.{resolved, resolve-record_outcome}
use food_flow.Payment.Outcomes.{outcome_cases, with_outcome}

-- What a pass has done: nothing, or it wrote the outcome of its payment, which was PROCESSING.
pub data Passed (default : String) (d : Draw) (id : Uuid) (p : Payment) (db : Db)
    : Result Bool × Db → Type 0 where
  failed_pass : (e : Error) → Passed default d id p db (err e, db)
  already_resolved :
      still_processing (lookup id db.payments) ≡ false → Passed default d id p db (ok false, db)
  resolved_here :
      (q : Payment)
      → lookup id db.payments ≡ some q
      → q.status ≡ processing
      → Passed default d id p db
          (ok true, with_outcome d id p.order_id (process_payment default p.payment_simulate) q db)

pub is_processing-eq : (s : PaymentStatus) → is_processing s ≡ true → s ≡ processing
is_processing-eq processing h = refl
is_processing-eq succeeded h = cc
is_processing-eq failed h = cc

Passed-settled :
    (default : String) (d : Draw) (id : Uuid) (p q : Payment) (db : Db) {r : Result Done × Db}
    → lookup id db.payments ≡ some q
    → q.status ≡ processing
    → ((e : Error) × (r ≡ (err e, db)))
      ⊎ (r
          ≡ (ok tt, with_outcome d id p.order_id (process_payment default p.payment_simulate) q db))
    → Passed default d id p db (resolved r)
Passed-settled default d id p q db e s (inl (w, h)) = rw h (failed_pass w)
Passed-settled default d id p q db e s (inr h) = rw h (resolved_here q e s)

pub passed :
    (default : String) (d : Draw) (id : Uuid) (p : Payment) (db : Db)
    → Passed default d id p db (resolve default d (id, p) db)
passed default d id p db = elim (Bool-cases (still_processing (lookup id db.payments))) [
  | inr gone ↦ rw (leaves gone) (already_resolved gone)
  | inl still ↦ elim (Option-cases (lookup id db.payments)) [
    | inl absent ↦ absurd (no_row absent still)
    | inr (q, e) ↦
        let s = is_processing-eq q.status (rw e at still) in
        rw (resolve-record_outcome default d id p q db e s) (
          Passed-settled default d id p q db e s
            (outcome_cases d id p.order_id (process_payment default p.payment_simulate) q db e))
  ]
]
  where
    leaves :
        still_processing (lookup id db.payments) ≡ false
        → resolve default d (id, p) db ≡ (ok false, db)
    leaves gone = unfold resolve transaction in ground arith

    no_row : lookup id db.payments ≡ none → still_processing (lookup id db.payments) ≡ true → ⊥
    no_row absent still = ground arith
