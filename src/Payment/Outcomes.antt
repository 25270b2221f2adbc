-- ===== src/Payment/Outcomes.antt =====
-- The payment service's invariant: an order has an outcome event in the outbox exactly if its payment
-- has that outcome, and no order has two.
pub mod Pass
pub mod Keeps
pub mod Settles
pub mod Worker
pub mod Run
use food_flow.Prelude.{
  ℕ, ◌+◌, ◌≤◌, String, ◌≡◌, refl, ◌≢◌, sym, true, false, Bool, ◌&&◌, Option, none, some, List, [],
  ◌∷◌, ◌++◌, arith, inl, inr, ap, ◌⊎◌, ◌==◌, if◌then◌else◌, Bool-cases, Option-cases,
}
use food_flow.Prelude.Int.{ℤ}
use food_flow.Shared.Uuid.{Uuid, IdText, str, malformed}
use food_flow.Shared.Error.{Error, Result, ok, err, unique_violation, outbox_events_pkey}
use food_flow.Shared.Event.{Float, Envelope, Draw, wrap_event, order_only}
use food_flow.Shared.Table.{
  Table, lookup, set_row, HasUniqueKeys, set_row-HasUniqueKeys, lookup-set_row, overwrite,
}
use food_flow.Shared.Tables.{OutboxRow, new_row, has_row}
use food_flow.Shared.Transaction.{Tx, Done, transaction}
use food_flow.Payment.Gateway.{process_payment}
use food_flow.Payment.Db.{
  Payment, Db, PaymentStatus, processing, succeeded, failed, outcome_status, outcome_topic,
  publish_outcome,
}
use food_flow.Payment.Consumer.{record_outcome, update_status}
use food_flow.Payment.Count.{
  settled-ge, outcomes, settled, row_count, payment_count, has_outcome, tells, outcomes-append,
  settled-set_row, HasUniqueOrders, set_row-HasUniqueOrders, settled-le,
}

pub record IsValid (db : Db) : Type 0 where
  pub unique : HasUniqueKeys db.payments
  pub unique_orders : HasUniqueOrders db.payments
  pub counts : (b : Bool) (o : Uuid) → outcomes b o db.events.outbox ≡ settled b o db.payments

-- In a valid database no order has two outcome events, of one kind or of both.
pub outcomes-le :
    (db : Db) (o : Uuid)
    → IsValid db
    → outcomes true o db.events.outbox + outcomes false o db.events.outbox ≤ 1
outcomes-le db o v =
    omega (arith, settled-le o db.payments v.unique_orders, v.counts true o, v.counts false o)

abbrev pub updated : ℕ → Bool → Payment → Payment
updated now b p = record p { status = outcome_status b; updated_at = now }

abbrev pub outcome_row : Draw → Uuid → Bool → OutboxRow
outcome_row d o b =
    new_row d (outcome_topic b) (str o) (wrap_event d (outcome_topic b) (order_only (str o)))

-- The database with the outcome, in the row and in the outbox.
abbrev pub with_outcome : Draw → Uuid → Uuid → Bool → Payment → Db → Db
with_outcome d id o b p db = record db {
  payments = set_row id (updated d.now b p) db.payments;
  events = record db.events { outbox = db.events.outbox ++ outcome_row d o b ∷ [] };
}

-- Transaction 2 on a row that is there: both writes, or neither.
pub outcome_cases :
    (d : Draw) (id o : Uuid) (b : Bool) (p : Payment) (db : Db)
    → lookup id db.payments ≡ some p
    → ((e : Error) × (record_outcome d id (str o) b db ≡ (err e, db)))
      ⊎ (record_outcome d id (str o) b db ≡ (ok tt, with_outcome d id o b p db))
outcome_cases d id o b p db e = elim (Bool-cases (has_row d.row_uuid db.events.outbox)) [
  | inl clash ↦ inl (unique_violation outbox_events_pkey, undone clash)
  | inr free ↦ inr (done free)
]
  where
    undone :
        has_row d.row_uuid db.events.outbox ≡ true
        → record_outcome d id (str o) b db ≡ (err (unique_violation outbox_events_pkey), db)
    undone clash = unfold record_outcome transaction update_status publish_outcome in ground arith

    done :
        has_row d.row_uuid db.events.outbox ≡ false
        → record_outcome d id (str o) b db ≡ (ok tt, with_outcome d id o b p db)
    done free = unfold record_outcome transaction update_status publish_outcome in ground arith

with_outcome-counts :
    (d : Draw) (id : Uuid) (b : Bool) (p : Payment) (db : Db)
    → lookup id db.payments ≡ some p
    → p.status ≡ processing
    → IsValid db
    → (c : Bool) (o : Uuid)
    → outcomes c o (with_outcome d id p.order_id b p db).events.outbox
      ≡ settled c o (with_outcome d id p.order_id b p db).payments
with_outcome-counts d id b p db e s v true o = ground (
  arith,
  v.counts true o,
  outcomes-append true o db.events.outbox (outcome_row d p.order_id b),
  settled-set_row true o id p (updated d.now b p) db.payments e,
)
with_outcome-counts d id b p db e s v false o = ground (
  arith,
  v.counts false o,
  outcomes-append false o db.events.outbox (outcome_row d p.order_id b),
  settled-set_row false o id p (updated d.now b p) db.payments e,
)

pub with_outcome-IsValid :
    (d : Draw) (id : Uuid) (b : Bool) (p : Payment) (db : Db)
    → lookup id db.payments ≡ some p
    → p.status ≡ processing
    → IsValid db
    → IsValid (with_outcome d id p.order_id b p db)
with_outcome-IsValid d id b p db e s v = record {
  unique = set_row-HasUniqueKeys id (updated d.now b p) db.payments v.unique;
  unique_orders =
      set_row-HasUniqueOrders id p (updated d.now b p) db.payments e refl v.unique_orders;
  counts = with_outcome-counts d id b p db e s v;
}

-- Transaction 2 on a PROCESSING payment, with the id of its own order, keeps the invariant.
pub record_outcome-IsValid :
    (d : Draw) (id : Uuid) (b : Bool) (p : Payment) (db : Db)
    → lookup id db.payments ≡ some p
    → p.status ≡ processing
    → IsValid db
    → IsValid (record_outcome d id (str p.order_id) b db).1
record_outcome-IsValid d id b p db e s v = elim (outcome_cases d id p.order_id b p db e) [
  | inl (w, same) ↦ rw same v
  | inr done ↦ rw done (with_outcome-IsValid d id b p db e s v)
]

published_at :
    (d : Draw) (id : Uuid) (b : Bool) (p : Payment) (db : Db)
    → lookup id db.payments ≡ some p
    → (record_outcome d id (str p.order_id) b db).0 ≡ ok tt
    → (record_outcome d id (str p.order_id) b db).1.events.outbox
      ≡ db.events.outbox ++ outcome_row d p.order_id b ∷ []
unfolding record_outcome transaction update_status publish_outcome
published_at d id b p db e h = ground arith

-- In a valid database, for a payment that has an outcome already, as reconciliation leaves it if
-- the gateway took longer than the threshold: transaction 2, which does not look at the status,
-- publishes one more outcome if it returns, so that the order has two.
pub late_outcome_duplicates :
    (d : Draw) (id : Uuid) (b c : Bool) (p : Payment) (db : Db)
    → IsValid db
    → lookup id db.payments ≡ some p
    → p.status ≡ outcome_status c
    → (record_outcome d id (str p.order_id) b db).0 ≡ ok tt
    → let db' = (record_outcome d id (str p.order_id) b db).1 in
      outcomes true p.order_id db'.events.outbox + outcomes false p.order_id db'.events.outbox ≡ 2
late_outcome_duplicates d id b c p db v e s h = rw (published_at d id b p db e h) (two b)
  where
    one : outcomes true p.order_id db.events.outbox + outcomes false p.order_id db.events.outbox ≡ 1
    one = omega (
      arith,
      outcomes-le db p.order_id v,
      settled-ge id c p db.payments e s,
      v.counts true p.order_id,
      v.counts false p.order_id,
    )

    two :
        (b : Bool)
        → outcomes true p.order_id (db.events.outbox ++ outcome_row d p.order_id b ∷ [])
            + outcomes false p.order_id (db.events.outbox ++ outcome_row d p.order_id b ∷ [])
          ≡ 2
    two true = ground (
      arith,
      one,
      outcomes-append true p.order_id db.events.outbox (outcome_row d p.order_id true),
      outcomes-append false p.order_id db.events.outbox (outcome_row d p.order_id true),
    )
    two false = ground (
      arith,
      one,
      outcomes-append true p.order_id db.events.outbox (outcome_row d p.order_id false),
      outcomes-append false p.order_id db.events.outbox (outcome_row d p.order_id false),
    )
