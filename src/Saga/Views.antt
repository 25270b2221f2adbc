-- ===== src/Saga/Views.antt =====
-- What GET /payments/order/{order_id} (services/payment/routes.py) shows of an order that is over.
use food_flow.Prelude.{
  String, ◌≡◌, refl, sym, ap, ◌∙◌, Bool, true, false, none, some, [], ◌∷◌, arith, inl, inr, ◌==◌,
  ==_iff, Bool-cases,
}
use food_flow.Shared.Uuid.{Uuid}
use food_flow.Shared.Error.{Result, ok, err, http}
use food_flow.Shared.Table.{Table, lookup}
use food_flow.Shared.Response.{Texts}
use food_flow.Order.Status.{Status, confirmed, payment_failed, stock_unavailable, pending, other}
use food_flow.Order.Db.{Order}
use food_flow.Order.Create.{FloatOps}
use food_flow.Payment.Db.{Payment, order_paid, outcome_status}
use food_flow.Payment.Count.{HasUniqueOrders}
use food_flow.Payment.Api.{
  PaymentResponse, find_payment, payment_response, payment_status_text, get_payment_status,
}
use food_flow.Saga.{Saga, Reach}
use food_flow.Saga.Settled.{order_paid-lookup}
use food_flow.Saga.Reachable.{IsFresh, Reach-Consistent}
use food_flow.Saga.Safety.{Agrees, IsSettled, order-Agrees}
use mathlib.Core.Option.{some-injective}

find_payment-lookup :
    (i o : Uuid) (p : Payment) (rows : Table Payment)
    → HasUniqueOrders rows
    → lookup i rows ≡ some p
    → p.order_id ≡ o
    → find_payment o rows ≡ some (i, p)
unfolding find_payment lookup
find_payment-lookup i o p [] unique h own = cc
find_payment-lookup i o p ((j, q) ∷ rows) unique h own = elim (Bool-cases (j == i)) [
  | inl same ↦
      let row : q ≡ p = some-injective q p (rw same at h) in
      let hit : (q.order_id == o) ≡ true =
        (==_iff q.order_id o).1 (ap (λ (y : Payment). y.order_id) row ∙ own) in
      rw hit (ap (λ (y : Uuid × Payment). some y) (λ k. ((==_iff j i).0 same k, row k)))
  | inr distinct ↦
      let later = find_payment-lookup i o p rows unique.1 (rw distinct at h) own in
      rw (missed (rw distinct at h)) later
]
  where
    missed : lookup i rows ≡ some p → (q.order_id == o) ≡ false
    missed found = elim (Bool-cases (q.order_id == o)) [
      | inr foreign ↦ foreign
      | inl hit ↦
          let same : p.order_id ≡ q.order_id = own ∙ sym ((==_iff q.order_id o).0 hit) in
          absurd
            (clash (ap (λ (y : Uuid). order_paid y rows) same) (order_paid-lookup i p rows found))
    ]
      where
        clash :
            order_paid p.order_id rows ≡ order_paid q.order_id rows
            → order_paid p.order_id rows ≡ true
            → ⊥
        clash e paid = ground (arith, unique.0)

find_payment_unpaid :
    (o : Uuid) (rows : Table Payment) → order_paid o rows ≡ false → find_payment o rows ≡ none
unfolding find_payment order_paid
find_payment_unpaid o [] h = refl
find_payment_unpaid o ((j, q) ∷ rows) h = ground (arith, find_payment_unpaid o rows)

-- The answer for an order in a state: the payment with its outcome and the order's total, or 404.
abbrev pub ShowsPayment : Texts → Uuid → Order → Status → Result PaymentResponse → Type 0
ShowsPayment x o r confirmed w =
    (v : PaymentResponse) × (w ≡ ok v)
    × (v.order_id ≡ x.uuid_text o)
    × (v.status ≡ "SUCCEEDED")
    × (v.amount ≡ x.amount r.total_amount)
ShowsPayment x o r payment_failed w =
    (v : PaymentResponse) × (w ≡ ok v)
    × (v.order_id ≡ x.uuid_text o)
    × (v.status ≡ "FAILED")
    × (v.amount ≡ x.amount r.total_amount)
ShowsPayment x o r stock_unavailable w = w ≡ err (http 404)
ShowsPayment x o r pending w = Unit
ShowsPayment x o r (other s) w = ⊥

module _ (x : Texts) (o : Uuid) (r : Order) (t : Saga)
    (unique : HasUniqueOrders t.payment.payments) where
  settled_shown :
      (b : Bool)
      → IsSettled b o r t
      → (v : PaymentResponse) × ((get_payment_status x o t.payment).0 ≡ ok v)
        × (v.order_id ≡ x.uuid_text o)
        × (v.status ≡ payment_status_text (outcome_status b))
        × (v.amount ≡ x.amount r.total_amount)
  unfolding get_payment_status
  settled_shown b (i, p, found, own, status, amount) = (
    payment_response x i p,
    rw (find_payment-lookup i o p t.payment.payments unique found own) refl,
    ap x.uuid_text own,
    ap payment_status_text status,
    ap x.amount amount,
  )

  shows :
      (st : Status) → Agrees st o r t → ShowsPayment x o r st (get_payment_status x o t.payment).0
  shows confirmed (settled, held) = settled_shown true settled
  shows payment_failed (settled, released) = settled_shown false settled
  shows stock_unavailable (unpaid, unreserved) =
      unfold get_payment_status in rw (find_payment_unpaid o t.payment.payments unpaid) refl
  shows pending h = tt
  shows (other s) h = h

-- In every state that the services reach from fresh databases, GET /payments/order/{order_id} shows, for a
-- CONFIRMED order, a payment that SUCCEEDED, of the total that GET /orders shows; for an order in
-- PAYMENT_FAILED one that FAILED, of that total; and for one in STOCK_UNAVAILABLE it answers 404. Of a
-- PENDING order nothing is said, and no order has another status.
pub order-ShowsPayment :
    (f : FloatOps) (default : String) (x : Texts) {s t : Saga} (o : Uuid) (r : Order)
    → IsFresh s
    → Reach f default s t
    → lookup o t.order.orders ≡ some r
    → ShowsPayment x o r r.status (get_payment_status x o t.payment).0
order-ShowsPayment f default x {s} {t} o r fresh reach is_row =
    shows x o r t (Reach-Consistent f default fresh reach).payment_valid.unique_orders r.status
      (order-Agrees f default o r fresh reach is_row)
