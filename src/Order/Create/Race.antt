-- ===== src/Order/Create/Race.antt =====
-- Two calls of `create_order` (services/order/routes.py) with one key, the checks of both before the
-- transaction of either.
use food_flow.Prelude.{
  String, ◌≡◌, refl, true, false, Option, none, some, arith, inl, inr, ap, subst, ◌∙◌,
}
use food_flow.Prelude.Int.{ℤ}
use food_flow.Shared.Uuid.{Uuid, str}
use food_flow.Shared.Text.{truthy, same_text_refl}
use food_flow.Shared.Error.{Error, Result, ok, err}
use food_flow.Shared.Transaction.{Tx, pure, ◌>>◌}
use food_flow.Order.Db.{Order, Db}
use food_flow.Order.Create.{
  CreateOrderRequest, FloatOps, CreateDraw, CreateResponse, key_taken, store_order, accepted,
  already_accepted, check_existing, create_order,
}
use food_flow.Order.Create.Outcome.{store_order_cases, stored_db}
use food_flow.Order.Create.Replay.{create_order_again}

-- What follows the idempotency check, by the row that it found.
unfoldable pub finish_request :
    FloatOps
    → CreateDraw
    → CreateOrderRequest
    → Uuid
    → Option String
    → Option String
    → Option (Uuid × Order)
    → Tx Db CreateResponse
finish_request f d body user_id x_payment_simulate idempotency_key existing = elim existing [
  | some row ↦ pure (already_accepted row)
  | none ↦ store_order f d body user_id x_payment_simulate idempotency_key >> pure (accepted d)
]

module _ (f : FloatOps) (d : CreateDraw) (body : CreateOrderRequest) (u : Uuid)
    (simulate key : Option String) (db : Db) where
  -- A call that nothing interrupts.
  create_order-finish_request :
      create_order f d body (str u) simulate key db
      ≡ finish_request f d body u simulate key (check_existing u key db.orders) db
  unfolding create_order finish_request
  create_order-finish_request = refl

  stores :
      (db' : Db)
      → store_order f d body u simulate key db ≡ (ok tt, db')
      → finish_request f d body u simulate key none db ≡ (ok (accepted d), db')
  stores db' h = unfold finish_request in ground arith

  raises :
      (e : Error)
      → store_order f d body u simulate key db ≡ (err e, db)
      → finish_request f d body u simulate key none db ≡ (err e, db)
  raises e h = unfold finish_request in ground arith

  -- A transaction for a key that is taken raises.
  refused :
      key_taken key db.orders ≡ true
      → (e : Error) × (finish_request f d body u simulate key none db ≡ (err e, db))
  refused used = elim (store_order_cases f d body (str u) simulate key db u) [
    | inl (e, same) ↦ (e, raises e same)
    | inr (cents, fits, fresh, unused, same) ↦ absurd (clash unused)
  ]
    where
      clash : key_taken key db.orders ≡ false → ⊥
      clash unused = ground arith

-- A call whose check found no order.
abbrev pub raced :
    FloatOps
    → CreateDraw
    → CreateOrderRequest
    → Uuid
    → Option String
    → String
    → Tx Db CreateResponse
raced f d body u simulate k = finish_request f d body u simulate (some k) none

-- A transaction that is answered has taken its key.
key_used :
    (f : FloatOps) (d : CreateDraw) (body : CreateOrderRequest) (u : Uuid)
    (simulate : Option String) (k : String) (db : Db) (a : CreateResponse)
    → (finish_request f d body u simulate (some k) none db).0 ≡ ok a
    → key_taken (some k) (finish_request f d body u simulate (some k) none db).1.orders ≡ true
key_used f d body u simulate k db a h =
    elim (store_order_cases f d body (str u) simulate (some k) db u) [
      | inl (e, same) ↦ absurd (fails e (raises f d body u simulate (some k) db e same))
      | inr (cents, fits, fresh, unused, same) ↦
          rw
            (stores f d body u simulate (some k) db
              (stored_db f d body u cents simulate (some k) db) same)
            (taken cents)
    ]
  where
    fails : (e : Error) → finish_request f d body u simulate (some k) none db ≡ (err e, db) → ⊥
    fails e same = ground arith

    taken :
        (cents : ℤ)
        → key_taken (some k) (stored_db f d body u cents simulate (some k) db).orders ≡ true
    taken cents = unfold key_taken in ground (arith, same_text_refl k)

module _ (f : FloatOps) (d d' : CreateDraw) (body body' : CreateOrderRequest) (u : Uuid)
    (simulate simulate' : Option String) (k : String) (db : Db) where
  -- Of two calls of one user with one key that is not empty, which have both made their check and found
  -- no order, the first to store its order is answered, and the other raises and stores nothing; made
  -- after the first had stored its order, the check would have let it answer with that order.
  pub create_order-raced :
      (a : CreateResponse)
      → truthy (some k) ≡ true
      → check_existing u (some k) db.orders ≡ none
      → (raced f d body u simulate k db).0 ≡ ok a
      → ((e : Error) × (finish_request f d' body' u simulate'
              (some k)
              none
              (raced f d body u simulate k db).1
            ≡ (err e, (raced f d body u simulate k db).1)))
        × ((b : CreateResponse) × (create_order f d' body'
                (str u)
                simulate'
                (some k)
                (raced f d body u simulate k db).1
              ≡ (ok b, (raced f d body u simulate k db).1))
            × (b.id ≡ a.id))
  create_order-raced a set new h =
      let alone : create_order f d body (str u) simulate (some k) db
          ≡ raced f d body u simulate k db =
        create_order-finish_request f d body u simulate (some k) db
        ∙ ap (λ (row : Option (Uuid × Order)). finish_request f d body u simulate (some k) row db)
            new in
      let (b, later, id, status) =
        create_order_again f d d' body body' (str u) simulate simulate' k db a set
          (ap (λ (r : Result CreateResponse × Db). r.0) alone ∙ h) in
      (
        refused f d' body' u simulate' (some k) (raced f d body u simulate k db).1
            (key_used f d body u simulate k db a h),
        (
          b,
          subst (λ (s : Db). create_order f d' body' (str u) simulate' (some k) s ≡ (ok b, s))
              (ap (λ (r : Result CreateResponse × Db). r.1) alone) later,
          id,
        ),
      )
