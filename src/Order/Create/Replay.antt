-- ===== src/Order/Create/Replay.antt =====
-- Idempotency keys of POST /orders, and what a new order leaves true of the database.
use food_flow.Prelude.{String, ◌≡◌, true, false, Option, none, some, [], ◌∷◌, arith, ap, ==_refl}
use food_flow.Prelude.Int.{ℤ}
use food_flow.Shared.Uuid.{Uuid, IdText, str}
use food_flow.Shared.Text.{truthy, same_text_refl}
use food_flow.Shared.Error.{Result, ok, err, unique_violation, orders_idempotency_key_key}
use food_flow.Shared.Table.{Table, lookup}
use food_flow.Shared.Transaction.{transaction}
use food_flow.Order.Db.{Order, Db}
use food_flow.Order.Consumer.Invariant.{IsValid, failures, releases-append}
use food_flow.Order.Create.{
  CreateOrderRequest, FloatOps, CreateDraw, CreateResponse, total_amount, key_taken, find_existing,
  insert_order, new_order, store_order, already_accepted, check_existing, create_order,
  fits_varchar,
}
use food_flow.Order.Create.Outcome.{
  Created, raised, replayed, stored, stored_db, placed_row, create_order-Created,
}

module _ (f : FloatOps) (d d' : CreateDraw) (body body' : CreateOrderRequest) (user : IdText)
    (simulate simulate' : Option String) (k : String) where
  answers :
      (u : Uuid) (row : Uuid × Order) (db : Db)
      → user ≡ str u
      → check_existing u (some k) db.orders ≡ some row
      → create_order f d' body' user simulate' (some k) db ≡ (ok (already_accepted row), db)
  unfolding create_order
  answers u row db e found = ground arith

  finds_new :
      (u : Uuid) (cents : ℤ) (db : Db)
      → truthy (some k) ≡ true
      → check_existing u (some k) (stored_db f d body u cents simulate (some k) db).orders
        ≡ some (d.order_uuid, new_order d u body cents simulate (some k))
  unfolding check_existing find_existing
  finds_new u cents db h = ground (arith, same_text_refl k, ==_refl u)

  again :
      {db : Db} {r : Result CreateResponse × Db} {a : CreateResponse}
      → Created f d body user simulate (some k) db r
      → truthy (some k) ≡ true
      → r.0 ≡ ok a
      → (b : CreateResponse) × (create_order f d' body' user simulate' (some k) r.1 ≡ (ok b, r.1))
        × (b.id ≡ a.id)
        × (b.status ≡ a.status)
  again (raised e) h p = cc
  again {db} {a} (replayed u row e found) h p =
      (already_accepted row, answers u row db e found, ground arith, ground arith)
  again {db} {a} (stored u cents e new fits fresh unused) h p =
      let mid = stored_db f d body u cents simulate (some k) db in
      let row : Uuid × Order = (d.order_uuid, new_order d u body cents simulate (some k)) in
      (
        already_accepted row,
        answers u row mid e (finds_new u cents db h),
        ground arith,
        ground arith,
      )

  -- After a call with a non-empty key has been answered, a second call of the same user with that key,
  -- with whatever body, answers with the same order id and status, and changes nothing.
  pub create_order_again :
      (db : Db) (a : CreateResponse)
      → truthy (some k) ≡ true
      → (create_order f d body user simulate (some k) db).0 ≡ ok a
      → let db' = (create_order f d body user simulate (some k) db).1 in
        (b : CreateResponse) × (create_order f d' body' user simulate' (some k) db' ≡ (ok b, db'))
        × (b.id ≡ a.id)
        × (b.status ≡ a.status)
  create_order_again db a h p = again (create_order-Created f d body user simulate (some k) db) h p

-- No two orders have the same idempotency key.
abbrev pub HasUniqueIdempotencyKeys : Table Order → Type 0
HasUniqueIdempotencyKeys [] = Unit
HasUniqueIdempotencyKeys ((i, o) ∷ rows) =
    (key_taken o.idempotency_key rows ≡ false) × HasUniqueIdempotencyKeys rows

-- A new order, and its row, leave the count of the stock.release rows right.
pub stored-IsValid :
    (f : FloatOps) (d : CreateDraw) (body : CreateOrderRequest) (u : Uuid) (cents : ℤ)
    (simulate key : Option String) (db : Db)
    → lookup d.order_uuid db.orders ≡ none
    → IsValid db
    → IsValid (stored_db f d body u cents simulate key db)
unfolding lookup
stored-IsValid f d body u cents simulate key db fresh v = record {
  unique = (fresh, v.unique);
  compensates = λ i. ground (
    arith,
    releases-append i db.events.outbox (placed_row f d body u simulate),
    v.compensates i,
    ap failures fresh,
  );
}

Created-IsValid :
    {f : FloatOps} {d : CreateDraw} {body : CreateOrderRequest} {user : IdText}
    {simulate key : Option String} {db : Db} {r : Result CreateResponse × Db}
    → Created f d body user simulate key db r
    → IsValid db
    → HasUniqueIdempotencyKeys db.orders
    → IsValid r.1 × HasUniqueIdempotencyKeys r.1.orders
Created-IsValid (raised e) v h = (v, h)
Created-IsValid (replayed u row e found) v h = (v, h)
Created-IsValid {f} {d} {body} {simulate} {key} {db} (stored u cents e new fits fresh unused) v h =
    (stored-IsValid f d body u cents simulate key db fresh v, (unused, h))

-- From a database with unique idempotency keys that is valid in the sense of the order consumer
-- (unique order ids, one stock.release row for each order in PAYMENT_FAILED and for no other),
-- every call of `create_order`, whatever comes of it, ends in such a database.
create_order-IsValid :
    (f : FloatOps) (d : CreateDraw) (body : CreateOrderRequest) (user : IdText)
    (simulate key : Option String) (db : Db)
    → IsValid db
    → HasUniqueIdempotencyKeys db.orders
    → IsValid (create_order f d body user simulate key db).1
      × HasUniqueIdempotencyKeys (create_order f d body user simulate key db).1.orders
create_order-IsValid f d body user simulate key db =
    Created-IsValid (create_order-Created f d body user simulate key db)

-- A key under which this user has no order, but some order stands: the lookup goes by key and
-- user, the UNIQUE constraint by the key alone, so that a request whose total, directive, key and
-- drawn id fit fails on the constraint, and changes nothing.
pub create_order_key_of_another :
    (f : FloatOps) (d : CreateDraw) (body : CreateOrderRequest) (u : Uuid)
    (simulate : Option String) (k : String) (db : Db) {cents : ℤ}
    → find_existing k u db.orders ≡ none
    → key_taken (some k) db.orders ≡ true
    → f.to_cents (total_amount f body.items) ≡ some cents
    → fits_varchar 20 simulate ≡ true
    → fits_varchar 255 (some k) ≡ true
    → lookup d.order_uuid db.orders ≡ none
    → create_order f d body (str u) simulate (some k) db
      ≡ (err (unique_violation orders_idempotency_key_key), db)
create_order_key_of_another f d body u simulate k db none_own taken fits short short' fresh =
    unfold create_order check_existing in ground (arith, rejects)
  where
    rejects :
        store_order f d body u simulate (some k) db
        ≡ (err (unique_violation orders_idempotency_key_key), db)
    rejects = unfold store_order transaction insert_order in ground arith
