-- ===== src/Payment/Outcomes/Run.antt =====
-- Any sequence of deliveries, of calls that die between their transactions, and of rounds of the
-- reconciliation worker keeps the payment service's invariant.
use food_flow.Prelude.{
  ℕ, ◌+◌, ◌≤◌, String, ◌≡◌, refl, true, false, Bool, Option, List, [], ◌∷◌, arith,
}
use food_flow.Prelude.Int.{ℤ}
use food_flow.Shared.Uuid.{Uuid}
use food_flow.Shared.Error.{Result}
use food_flow.Shared.Event.{Float, Envelope, Draw}
use food_flow.Shared.Transaction.{◌>>=◌}
use food_flow.Shared.Consumer.{Consumer, run_consumer-keeps}
use food_flow.Payment.Gateway.{process_payment}
use food_flow.Payment.Db.{Db}
use food_flow.Payment.Consumer.{
  PaymentDelivery, run, PaymentDraw, new_payment, begin_payment, finish_payment, handle_message,
}
use food_flow.Payment.Reconciliation.{reconcile_stuck_payments}
use food_flow.Payment.Intent.{
  Begun, raised, duplicate, already_paid, intended, intended_db, begin_payment-Begun,
}
use food_flow.Payment.Recovery.{finish_payment_runs, finds_new}
use food_flow.Payment.Count.{outcomes, settled}
use food_flow.Payment.Outcomes.{IsValid, record_outcome-IsValid, outcomes-le}
use food_flow.Payment.Outcomes.Keeps.{reconcile-IsValid}

module _ (to_cents : Float → Option ℤ) (d : PaymentDraw) (envelope : Envelope) where
  intended-counts :
      (event_id o : Uuid) (cents : ℤ) (db : Db)
      → IsValid db
      → (b : Bool) (i : Uuid)
      → outcomes b i
          (intended_db d event_id o cents envelope.payload.payment_simulate db).events.outbox
        ≡ settled b i (intended_db d event_id o cents envelope.payload.payment_simulate db).payments
  unfolding settled
  intended-counts event_id o cents db v true i = ground (arith, v.counts true i)
  intended-counts event_id o cents db v false i = ground (arith, v.counts false i)

  pub Begun-IsValid :
      {db : Db} {r : Result (Option Uuid) × Db}
      → Begun to_cents d envelope db r
      → IsValid db
      → IsValid r.1
  Begun-IsValid (raised e) v = v
  Begun-IsValid (duplicate u ei seen) v = v
  Begun-IsValid (already_paid o eo paid) v = v
  Begun-IsValid {db} (intended event_id o cents ei eo new fresh unpaid charge) v = record {
    unique = (fresh, v.unique);
    unique_orders = (unpaid, v.unique_orders);
    counts = intended-counts event_id o cents db v;
  }

  -- The whole call, by what its first part did.
  finished-IsValid :
      {db : Db} {r : Result (Option Uuid) × Db} (default : String)
      → Begun to_cents d envelope db r
      → IsValid db
      → IsValid (◌>>=◌ (λ (s : Db). r) (finish_payment default d envelope) db).1
  finished-IsValid default (raised e) v = v
  finished-IsValid default (duplicate u ei seen) v = unfold finish_payment in v
  finished-IsValid default (already_paid o eo paid) v = unfold finish_payment in v
  finished-IsValid {db} default (intended event_id o cents ei eo new fresh unpaid charge) v =
      let mid = intended_db d event_id o cents envelope.payload.payment_simulate db in
      rw (finish_payment_runs to_cents default d envelope o d.payment_uuid mid eo) (
        record_outcome-IsValid d.outcome d.payment_uuid
          (process_payment default envelope.payload.payment_simulate)
          (new_payment d o cents envelope.payload.payment_simulate) mid
          (finds_new to_cents default d envelope o event_id cents db) refl
          (Begun-IsValid {db = db} (intended event_id o cents ei eo new fresh unpaid charge) v))

  pub handle_message-IsValid :
      (default : String) (db : Db)
      → IsValid db
      → IsValid (handle_message to_cents default d envelope db).1
  unfolding handle_message
  handle_message-IsValid default db v =
      finished-IsValid default (begin_payment-Begun to_cents d envelope db) v

-- What can happen to the service's database: a delivery that is handled to its end, one whose process
-- dies between the two transactions, and a round of the worker at a time `now`.
pub data Action : Type 0 where
  deliver die : PaymentDraw → Envelope → Action
  reconcile : (ℕ → Draw) → ℕ → ℕ → Action

module _ (to_cents : Float → Option ℤ) (default : String) where
  unfoldable pub perform : Action → Db → Db
  perform (deliver d envelope) db = (handle_message to_cents default d envelope db).1
  perform (die d envelope) db = (begin_payment to_cents d envelope db).1
  perform (reconcile draws now duration) db =
      (reconcile_stuck_payments default draws now duration db).1

  unfoldable pub perform_all : List Action → Db → Db
  unfolding perform
  perform_all [] db = db
  perform_all (a ∷ actions) db = perform_all actions (perform a db)

  perform-IsValid : (a : Action) (db : Db) → IsValid db → IsValid (perform a db)
  unfolding perform
  perform-IsValid (deliver d envelope) db v =
      handle_message-IsValid to_cents d envelope default db v
  perform-IsValid (die d envelope) db v =
      Begun-IsValid to_cents d envelope (begin_payment-Begun to_cents d envelope db) v
  perform-IsValid (reconcile draws now duration) db v =
      reconcile-IsValid default draws now duration db v

  perform_all-IsValid :
      (actions : List Action) (db : Db) → IsValid db → IsValid (perform_all actions db)
  unfolding perform_all
  perform_all-IsValid [] db v = v
  perform_all-IsValid (a ∷ actions) db v =
      perform_all-IsValid actions (perform a db) (perform-IsValid a db v)

  -- From a valid database (unique ids and orders, outcome events that match the payments), after
  -- any sequence of deliveries, deaths between the transactions, and rounds of the worker, none of
  -- which interrupts another: an order has as many payment.succeeded rows in the outbox as
  -- SUCCEEDED payments, as many payment.failed rows as FAILED payments, and one such row at most.
  pub perform_all-outcomes :
      (actions : List Action) (db : Db) (o : Uuid)
      → IsValid db
      → let db' = perform_all actions db in
        (outcomes true o db'.events.outbox ≡ settled true o db'.payments)
        × (outcomes false o db'.events.outbox ≡ settled false o db'.payments)
        × (outcomes true o db'.events.outbox + outcomes false o db'.events.outbox ≤ 1)
  perform_all-outcomes actions db o v =
      let w = perform_all-IsValid actions db v in
      (w.counts true o, w.counts false o, outcomes-le (perform_all actions db) o w)

  -- A run of the consumer keeps the invariant, whatever is delivered and however often.
  run-IsValid :
      (batches : List (List PaymentDelivery)) (c : Consumer Db)
      → IsValid c.db
      → IsValid (run to_cents default batches c).db
  unfolding run
  run-IsValid batches c v =
      run_consumer-keeps (λ m. handle_message to_cents default m.0 m.1) IsValid
        (λ m db w. handle_message-IsValid to_cents m.0 m.1 default db w) batches c v
