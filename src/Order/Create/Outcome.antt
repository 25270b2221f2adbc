-- ===== src/Order/Create/Outcome.antt =====
-- Every way that `create_order` (services/order/routes.py) can end.
use food_flow.Prelude.{
  String, ◌≡◌, refl, ◌≢◌, false, Option, none, some, [], ◌∷◌, ◌++◌, arith, Option-cases, inl, inr,
  ◌⊎◌,
}
use food_flow.Prelude.Int.{ℤ}
use food_flow.Shared.Uuid.{Uuid, IdText, str, malformed}
use food_flow.Shared.Error.{Error, Result, ok, err, value_error}
use food_flow.Shared.Event.{order_placed, wrap_event}
use food_flow.Shared.Table.{lookup}
use food_flow.Shared.Tables.{OutboxRow, new_row}
use food_flow.Shared.Transaction.{Done, transaction, transaction-err}
use food_flow.Order.Db.{Order, Db, publish}
use food_flow.Order.Create.{
  CreateOrderRequest, FloatOps, CreateDraw, CreateResponse, total_amount, event_payload, key_taken,
  insert_order, new_order, store_order, accepted, already_accepted, check_existing, create_order,
}

-- The outbox row of a new order.
abbrev pub placed_row :
    FloatOps → CreateDraw → CreateOrderRequest → Uuid → Option String → OutboxRow
placed_row f d body u simulate =
    new_row d.event order_placed (str d.order_uuid)
      (wrap_event d.event order_placed (event_payload f d.order_uuid u body simulate))

-- The database with the order and its event.
abbrev pub stored_db :
    FloatOps → CreateDraw → CreateOrderRequest → Uuid → ℤ → Option String → Option String → Db → Db
stored_db f d body u cents simulate key db = record db {
  orders = (d.order_uuid, new_order d u body cents simulate key) ∷ db.orders;
  events = record db.events { outbox = db.events.outbox ++ placed_row f d body u simulate ∷ [] };
}

module _ (f : FloatOps) (d : CreateDraw) (body : CreateOrderRequest) (user : IdText)
    (simulate key : Option String) (db : Db) where
  pub data Created : Result CreateResponse × Db → Type 0 where
    raised : (e : Error) → Created (err e, db)
    replayed :
        (u : Uuid) (row : Uuid × Order)
        → user ≡ str u
        → check_existing u key db.orders ≡ some row
        → Created (ok (already_accepted row), db)
    stored :
        (u : Uuid) (cents : ℤ)
        → user ≡ str u
        → check_existing u key db.orders ≡ none
        → f.to_cents (total_amount f body.items) ≡ some cents
        → lookup d.order_uuid db.orders ≡ none
        → key_taken key db.orders ≡ false
        → Created (ok (accepted d), stored_db f d body u cents simulate key db)

  -- The transaction writes both rows, or raises and writes none.
  pub store_order_cases :
      (u : Uuid)
      → ((e : Error) × (store_order f d body u simulate key db ≡ (err e, db)))
        ⊎ ((cents : ℤ) × (f.to_cents (total_amount f body.items) ≡ some cents)
            × (lookup d.order_uuid db.orders ≡ none)
            × (key_taken key db.orders ≡ false)
            × (store_order f d body u simulate key db
                ≡ (ok tt, stored_db f d body u cents simulate key db)))
  store_order_cases u = settled (store_order f d body u simulate key db) refl
    where
      whole : {r : Result Done × Db} {e : Error} → r.0 ≡ err e → r.1 ≡ db → r ≡ (err e, db)
      whole p q = ground arith

      undone :
          (e : Error)
          → (store_order f d body u simulate key db).0 ≡ err e
          → (store_order f d body u simulate key db).1 ≡ db
      undone e h = unfold store_order in transaction-err _ db h

      fits :
          (store_order f d body u simulate key db).0 ≡ ok tt
          → f.to_cents (total_amount f body.items) ≢ none
      fits h e = unfold store_order transaction in ground arith

      fresh :
          (store_order f d body u simulate key db).0 ≡ ok tt → lookup d.order_uuid db.orders ≡ none
      fresh h = unfold store_order transaction insert_order in ground arith

      unused : (store_order f d body u simulate key db).0 ≡ ok tt → key_taken key db.orders ≡ false
      unused h = unfold store_order transaction insert_order in ground arith

      both :
          (cents : ℤ)
          → f.to_cents (total_amount f body.items) ≡ some cents
          → (store_order f d body u simulate key db).0 ≡ ok tt
          → store_order f d body u simulate key db
            ≡ (ok tt, stored_db f d body u cents simulate key db)
      both cents e h = unfold store_order transaction insert_order publish in ground arith

      settled :
          (r : Result Done × Db)
          → store_order f d body u simulate key db ≡ r
          → ((e : Error) × (store_order f d body u simulate key db ≡ (err e, db)))
            ⊎ ((cents : ℤ) × (f.to_cents (total_amount f body.items) ≡ some cents)
                × (lookup d.order_uuid db.orders ≡ none)
                × (key_taken key db.orders ≡ false)
                × (store_order f d body u simulate key db
                    ≡ (ok tt, stored_db f d body u cents simulate key db)))
      settled (err e, db') h = inl (e, whole (rw h) (undone e (rw h)))
      settled (ok a, db') h = elim (Option-cases (f.to_cents (total_amount f body.items))) [
        | inl e ↦ absurd (fits (rw h) e)
        | inr (cents, e) ↦ inr (cents, e, fresh (rw h), unused (rw h), both cents e (rw h))
      ]

  Created-at_user : (t : IdText) → user ≡ t → Created (create_order f d body user simulate key db)
  Created-at_user (malformed s) e = rw (refuses s e) (raised value_error)
    where
      refuses :
          (s : String)
          → user ≡ malformed s
          → create_order f d body user simulate key db ≡ (err value_error, db)
      refuses s e = unfold create_order in ground arith
  Created-at_user (str u) e = elim (Option-cases (check_existing u key db.orders)) [
    | inr (row, found) ↦ rw (answers row found) (replayed u row e found)
    | inl new ↦ elim (store_order_cases u) [
      | inl (w, fails) ↦ rw (gives_up w new fails) (raised w)
      | inr (cents, fits, fresh, unused, runs) ↦
          rw (accepts cents new runs) (stored u cents e new fits fresh unused)
    ]
  ]
    where
      answers :
          (row : Uuid × Order)
          → check_existing u key db.orders ≡ some row
          → create_order f d body user simulate key db ≡ (ok (already_accepted row), db)
      answers row found = unfold create_order in ground arith

      gives_up :
          (w : Error)
          → check_existing u key db.orders ≡ none
          → store_order f d body u simulate key db ≡ (err w, db)
          → create_order f d body user simulate key db ≡ (err w, db)
      gives_up w new h = unfold create_order in ground arith

      accepts :
          (cents : ℤ)
          → check_existing u key db.orders ≡ none
          → store_order f d body u simulate key db
            ≡ (ok tt, stored_db f d body u cents simulate key db)
          → create_order f d body user simulate key db
            ≡ (ok (accepted d), stored_db f d body u cents simulate key db)
      accepts cents new h = unfold create_order in ground arith

  -- A call raises and changes nothing; or it answers with an order that the user placed under the
  -- same key, changing nothing; or, where there is none, it commits the PENDING order with an
  -- unused id and key, and the order.placed row with the same lines, total and simulation
  -- directive, and answers with its id.
  pub create_order-Created : Created (create_order f d body user simulate key db)
  create_order-Created = Created-at_user user refl
