-- ===== src/Saga/Reachable.antt =====
-- Every state that the three services reach together is consistent.
use food_flow.Prelude.{◌≡◌, refl, String, [], arith}
use food_flow.Shared.Uuid.{Uuid}
use food_flow.Shared.Table.{lookup}
use food_flow.Order.Consumer.Invariant.{releases}
use food_flow.Order.Create.{FloatOps}
use food_flow.Restaurant.Stock.Demand.{InRange}
use food_flow.Restaurant.Stock.Held.{Conserves, Conserves-refl, Conserves-trans}
use food_flow.Restaurant.Consumer.Safety.{handle_message-Conserves}
use food_flow.Payment.Db.{order_paid}
use food_flow.Payment.Count.{outcomes, settled}
use food_flow.Payment.Outcomes.Keeps.{reconcile-IsValid}
use food_flow.Saga.{
  Saga, Step, places, order_receives, restaurant_receives, payment_receives, payment_dies,
  reconciles, Reach, start, later,
}
use food_flow.Saga.Rows.{answers}
use food_flow.Saga.Invariant.{Consistent}
use food_flow.Saga.Outcomes.{reconcile-Progress}
use food_flow.Saga.Offered.{payment_source}
use food_flow.Saga.Charging.{Progress-Consistent, dies-Consistent, receives-Consistent}
use food_flow.Saga.Delivering.{order_receives-Consistent}
use food_flow.Saga.Placing.{places-Consistent}
use food_flow.Saga.Releasing.{restaurant_receives-Consistent}

-- Databases as the migrations leave them, with any stock that the columns can hold: no order, payment,
-- reservation or event yet.
pub record IsFresh (s : Saga) : Type 0 where
  pub in_range : InRange s.stock.stock
  pub no_orders : s.order.orders ≡ []
  pub no_reservations : s.stock.reservations ≡ []
  pub no_payments : s.payment.payments ≡ []
  pub none_placed : s.order.events.outbox ≡ []
  pub none_answered : s.stock.events.outbox ≡ []
  pub none_settled : s.payment.events.outbox ≡ []

IsFresh-Consistent : (to_cents : _) (s : Saga) → IsFresh s → Consistent to_cents s
unfolding releases lookup answers outcomes settled order_paid
IsFresh-Consistent to_cents s x = record {
  order_valid = record {
    unique = rw (x.no_orders) tt;
    compensates = λ o. rw (x.no_orders, x.none_placed) refl;
  };
  stock_valid = record { in_range = x.in_range; unique = rw (x.no_reservations) tt };
  payment_valid = record {
    unique = rw (x.no_payments) tt;
    unique_orders = rw (x.no_payments) tt;
    counts = λ b o. rw (x.no_payments, x.none_settled) refl;
  };
  order_rows = rw (x.none_placed) tt;
  stock_rows = rw (x.none_answered) tt;
  payment_rows = rw (x.none_settled) tt;
  single = rw (x.none_placed) (λ o r r' m. absurd m);
  decided = record {
    once = λ o. rw (x.none_answered) (omega arith);
    known = λ o h. absurd (omega (arith, (rw (x.none_answered) at h)));
    marked = λ o h. absurd (omega (arith, (rw (x.none_answered) at h)));
    kept = λ o h. absurd (omega (arith, (rw (x.none_answered) at h)));
    lines = λ o items h. absurd (ground arith);
  };
  charged = record {
    paid = λ o h. absurd (ground arith);
    amounts = λ i p h. absurd (ground arith);
  };
  explained = λ o r h. absurd (ground arith);
}

module _ (f : FloatOps) (default : String) where
  Step-Consistent :
      {s t : Saga} → Consistent f.to_cents s → Step f default s t → Consistent f.to_cents t
  Step-Consistent {s} c (places d body user simulate key) =
      places-Consistent f d body user simulate key s c
  Step-Consistent {s} c (order_receives d t e takes offer) =
      order_receives-Consistent f.to_cents s c d e t takes offer
  Step-Consistent {s} c (restaurant_receives d t e takes offer) =
      restaurant_receives-Consistent f.to_cents s c d e t takes offer
  Step-Consistent {s} c (payment_receives d t e takes offer) =
      receives-Consistent f.to_cents d e s c (payment_source f.to_cents s c t e takes offer) default
  Step-Consistent {s} c (payment_dies d t e takes offer) =
      dies-Consistent f.to_cents d e s c (payment_source f.to_cents s c t e takes offer)
  Step-Consistent {s} c (reconciles draws now duration) =
      Progress-Consistent f.to_cents s _ (reconcile-Progress default draws now duration s.payment)
        (reconcile-IsValid default draws now duration s.payment c.payment_valid) c

  pub Reach-Consistent : {s t : Saga} → IsFresh s → Reach f default s t → Consistent f.to_cents t
  Reach-Consistent x start = IsFresh-Consistent f.to_cents _ x
  Reach-Consistent x (later r step) = Step-Consistent (Reach-Consistent x r) step

  -- What is in stock and what is reserved go on adding up to the same.
  Step-Conserves :
      {s t : Saga} (i : Uuid)
      → Consistent f.to_cents s
      → Step f default s t
      → Conserves i s.stock t.stock
  Step-Conserves {s} i c (places d body user simulate key) = Conserves-refl i s.stock
  Step-Conserves {s} i c (order_receives d t e takes offer) = Conserves-refl i s.stock
  Step-Conserves {s} i c (restaurant_receives d t e takes offer) =
      handle_message-Conserves d e s.stock i c.stock_valid
  Step-Conserves {s} i c (payment_receives d t e takes offer) = Conserves-refl i s.stock
  Step-Conserves {s} i c (payment_dies d t e takes offer) = Conserves-refl i s.stock
  Step-Conserves {s} i c (reconciles draws now duration) = Conserves-refl i s.stock

  pub Reach-Conserves :
      {s t : Saga} (i : Uuid) → IsFresh s → Reach f default s t → Conserves i s.stock t.stock
  Reach-Conserves {s} i x start = Conserves-refl i s.stock
  Reach-Conserves {s} {t} i x (later {t = u} r step) =
      Conserves-trans i s.stock u.stock t.stock (Reach-Conserves i x r)
        (Step-Conserves i (Reach-Consistent x r) step)
