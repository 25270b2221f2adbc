-- ===== src/Saga/Completion/Placed.antt =====
-- What is known of an order whose order.placed event the restaurant service has not read.
use food_flow.Prelude.{
  ◌+◌, ◌≡◌, refl, sym, ap, ◌∙◌, true, false, some, none, arith, inl, inr, Option-cases, Bool-cases,
}
use food_flow.Shared.Uuid.{Uuid}
use food_flow.Shared.Event.{order_placed, Envelope}
use food_flow.Shared.Table.{lookup}
use food_flow.Order.Db.{Order}
use food_flow.Order.Create.{FloatOps}
use food_flow.Payment.Db.{order_paid}
use food_flow.Saga.{Saga}
use food_flow.Saga.Invariant.{Consistent}
use mathlib.Core.Option.{some-injective}
use food_flow.Saga.Answering.{undecided}
use food_flow.Saga.Rows.{Describes, answers, order_sends}
use food_flow.Saga.Offered.{Source, restaurant_source, source-Describes}
use food_flow.Saga.Completion.{IsPlaced}

module _ (f : FloatOps) (o : Uuid) (e : Envelope) (s : Saga) (c : Consistent f.to_cents s)
    (u : Uuid) (r : Order) (placed : IsPlaced o r u e s) where
  pub source : Source f.to_cents s order_sends s.order.events.outbox order_placed e
  source = (restaurant_source f.to_cents s c order_placed e refl placed.offered).0

  unanswered : answers true o s.stock.events.outbox + answers false o s.stock.events.outbox ≡ 0
  unanswered = undecided f.to_cents s c e u o source placed.has_order placed.is_id placed.unread

  pub unreserved : lookup o s.stock.reservations ≡ none
  unreserved = elim (Option-cases (lookup o s.stock.reservations)) [
    | inl absent ↦ absent
    | inr (items, had) ↦ absurd (omega (arith, (c.decided.lines o items had).0, unanswered))
  ]

  pub unpaid : order_paid o s.payment.payments ≡ false
  unpaid = elim (Bool-cases (order_paid o s.payment.payments)) [
    | inl paid ↦ absurd (omega (arith, c.charged.paid o paid, unanswered))
    | inr none_paid ↦ none_paid
  ]

  pub described : Describes f.to_cents s.order.orders o e.payload
  described = source-Describes source o placed.has_order refl

  own_row : described.row ≡ r
  own_row = some-injective described.row r (sym described.is_row ∙ placed.is_row)

  pub has_items : e.payload.items ≡ some r.items
  has_items = described.items ∙ ap (λ (x : Order). some x.items) own_row
