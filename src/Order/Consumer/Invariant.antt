-- ===== src/Order/Consumer/Invariant.antt =====
-- The saga's compensation: an order has a stock.release event in the outbox exactly if its payment
-- failed, and then one; and a terminal state is final.
use food_flow.Prelude.{
  ℕ, ◌+◌, ◌≡◌, ◌≢◌, refl, true, false, Bool, ◌&&◌, Option, some, none, List, [], ◌∷◌, ◌++◌, arith,
  ◌==◌, if◌then◌else◌,
}
use food_flow.Shared.Uuid.{Uuid, IdText, str, malformed}
use food_flow.Shared.Error.{Result}
use food_flow.Shared.Event.{
  order_placed, stock_reserved, unknown, EventType, payment_succeeded, payment_failed,
  stock_rejected, stock_release, Envelope, Draw, Delivery,
}
use food_flow.Shared.Table.{lookup, set_row, HasUniqueKeys, lookup-set_row, set_row-HasUniqueKeys}
use food_flow.Shared.Tables.{OutboxRow}
use food_flow.Shared.Transaction.{Done}
use food_flow.Shared.Consumer.{Consumer, run_consumer-keeps}
use food_flow.Order.Status.{
  Status, ◌⟶◌, confirm, fail_payment, reject_stock, pending, confirmed, stock_unavailable,
}
use food_flow.Order.Db.{Order, Db}
use food_flow.Order.Transition.{moved}
use food_flow.Order.Consumer.{handle_message, deliver, run}
use food_flow.Order.Consumer.Delivered.{Delivered, unchanged, committed, delivered}
use food_flow.Order.Consumer.Outcome.{
  Handled, duplicate, ignored, moved_order, Target, on_success, on_failure, on_rejection,
  with_order, compensated, release_row,
}

abbrev pub keyed_by : Uuid → Option IdText → Bool
keyed_by o none = false
keyed_by o (some (malformed s)) = false
keyed_by o (some (str u)) = u == o

abbrev pub is_release : EventType → Bool
is_release stock_release = true
is_release _ = false

-- The stock.release rows for an order.
unfoldable pub releases : Uuid → List OutboxRow → ℕ
releases o [] = 0
releases o (r ∷ rs) = (if is_release r.topic && keyed_by o r.key then 1 else 0) + releases o rs

-- 1 for an order whose payment failed, 0 for any other and for none.
abbrev pub failed_status : Status → ℕ
failed_status Status.payment_failed = 1
failed_status _ = 0

abbrev pub failures : Option Order → ℕ
failures none = 0
failures (some o) = failed_status o.status

pub record IsValid (db : Db) : Type 0 where
  pub unique : HasUniqueKeys db.orders
  pub compensates : (o : Uuid) → releases o db.events.outbox ≡ failures (lookup o db.orders)

pub releases-append :
    (o : Uuid) (rs : List OutboxRow) (r : OutboxRow)
    → releases o (rs ++ r ∷ [])
      ≡ releases o rs + (if is_release r.topic && keyed_by o r.key then 1 else 0)
unfolding releases
releases-append o [] r = omega arith
releases-append o (x ∷ rs) r = omega (arith, releases-append o rs r)

moved-compensates :
    (d : Draw) (id : Uuid) (o : Order) (db : Db) {s t : Status} {et : EventType}
    → o.status ≡ s
    → s ⟶ t
    → Target et t
    → lookup id db.orders ≡ some o
    → IsValid db
    → (i : Uuid)
    → releases i (compensated d id et (with_order db id (moved d.now t o))).events.outbox
      ≡ failures (lookup i (set_row id (moved d.now t o) db.orders))
moved-compensates d id o db es confirm on_success e v i =
    ground (arith, v.compensates i, lookup-set_row i id (moved d.now confirmed o) db.orders)
moved-compensates d id o db es reject_stock on_rejection e v i =
    ground (arith, v.compensates i, lookup-set_row i id (moved d.now stock_unavailable o) db.orders)
moved-compensates d id o db es fail_payment on_failure e v i = ground (
  arith,
  v.compensates i,
  lookup-set_row i id (moved d.now Status.payment_failed o) db.orders,
  releases-append i db.events.outbox (release_row d id),
)

handled-IsValid :
    {d : Draw} {u : Uuid} {envelope : Envelope} {db db' : Db}
    → Handled d u envelope db db'
    → IsValid db
    → IsValid db'
handled-IsValid (duplicate seen after) v = rw after v
handled-IsValid (ignored untargeted after) v = rw after v
handled-IsValid {d} {envelope} {db} (moved_order id o t target has_order e on after) v =
    rw after (record {
      unique = keeps_keys envelope.event_type;
      compensates = λ i. keeps_count envelope.event_type target i;
    })
  where
    keeps_keys :
        (et : EventType)
        → HasUniqueKeys (compensated d id et (with_order db id (moved d.now t o))).orders
    keeps_keys payment_failed = set_row-HasUniqueKeys id (moved d.now t o) db.orders v.unique
    keeps_keys et = set_row-HasUniqueKeys id (moved d.now t o) db.orders v.unique

    keeps_count :
        (et : EventType)
        → Target et t
        → (i : Uuid)
        → releases i (compensated d id et (with_order db id (moved d.now t o))).events.outbox
          ≡ failures (lookup i (compensated d id et (with_order db id (moved d.now t o))).orders)
    keeps_count payment_failed target i = moved-compensates d id o db refl on target e v i
    keeps_count payment_succeeded target i = moved-compensates d id o db refl on target e v i
    keeps_count stock_rejected target i = moved-compensates d id o db refl on target e v i
    keeps_count order_placed target i = elim target [ ]
    keeps_count stock_reserved target i = elim target [ ]
    keeps_count stock_release target i = elim target [ ]
    keeps_count (unknown _) target i = elim target [ ]

Delivered-IsValid :
    {d : Draw} {envelope : Envelope} {db : Db} {r : Result Done × Db}
    → Delivered d envelope db r
    → IsValid db
    → IsValid r.1
Delivered-IsValid (unchanged e) v = v
Delivered-IsValid (committed u db' e run h) v = handled-IsValid h v

-- Every delivery keeps this: an order has one stock.release row in the outbox if its status is
-- PAYMENT_FAILED, and none if it has another status or there is no such order.
pub handle_message-IsValid :
    (d : Draw) (envelope : Envelope) (db : Db)
    → IsValid db
    → IsValid (handle_message d envelope db).1
handle_message-IsValid d envelope db = Delivered-IsValid (delivered d envelope db)

-- Call a database valid in which order ids are unique, and each order has one stock.release row in
-- the outbox if its status is PAYMENT_FAILED, and none if it has another status or does not exist.
-- Every run of the consumer from a valid database ends in one, whatever is delivered, in whatever
-- order and however often.
pub run-IsValid :
    (batches : List (List Delivery)) (c : Consumer Db) → IsValid c.db → IsValid (run batches c).db
unfolding run
run-IsValid = run_consumer-keeps deliver IsValid (λ m db. handle_message-IsValid m.0 m.1 db)

-- The row of an order that has left PENDING.
abbrev IsSettled : Uuid → Order → Db → Type 0
IsSettled id o db = (lookup id db.orders ≡ some o) × (o.status ≢ pending)

⟶-pending : {s t : Status} → s ⟶ t → s ≡ pending
⟶-pending confirm = refl
⟶-pending fail_payment = refl
⟶-pending reject_stock = refl

handled-IsSettled :
    {d : Draw} {u : Uuid} {envelope : Envelope} {db db' : Db} (id : Uuid) (o : Order)
    → Handled d u envelope db db'
    → IsSettled id o db
    → IsSettled id o db'
handled-IsSettled id o (duplicate seen after) h = rw after h
handled-IsSettled id o (ignored untargeted after) h = rw after h
handled-IsSettled {d} {envelope} {db} id o (moved_order j p t target has_order e on after) h =
    rw after (keeps envelope.event_type)
  where
    keeps :
        (et : EventType) → IsSettled id o (compensated d j et (with_order db j (moved d.now t p)))
    keeps payment_failed =
        ground (arith, lookup-set_row id j (moved d.now t p) db.orders, ⟶-pending on)
    keeps et = ground (arith, lookup-set_row id j (moved d.now t p) db.orders, ⟶-pending on)

Delivered-IsSettled :
    {d : Draw} {envelope : Envelope} {db : Db} {r : Result Done × Db} (id : Uuid) (o : Order)
    → Delivered d envelope db r
    → IsSettled id o db
    → IsSettled id o r.1
Delivered-IsSettled id o (unchanged e) v = v
Delivered-IsSettled id o (committed u db' e run h) v = handled-IsSettled id o h v

-- The row of an order whose status is not PENDING stays as it is over any run of the consumer,
-- whatever is delivered.
pub run_settled :
    (batches : List (List Delivery)) (c : Consumer Db) (id : Uuid) (o : Order)
    → lookup id c.db.orders ≡ some o
    → o.status ≢ pending
    → lookup id (run batches c).db.orders ≡ some o
unfolding run
run_settled batches c id o e n =
    (run_consumer-keeps deliver (IsSettled id o)
      (λ m db. Delivered-IsSettled id o (delivered m.0 m.1 db)) batches c (e, n)).0
