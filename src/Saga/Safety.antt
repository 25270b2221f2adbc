-- ===== src/Saga/Safety.antt =====
-- What the saga promises: an order that is over agrees with its payment and its reservation, and nothing
-- is charged or held but for an order.
use food_flow.Prelude.{
  ◌≤◌, ◌≡◌, ◌≢◌, refl, sym, ap, subst, ◌∙◌, String, Bool, true, false, Option, none, some, List,
  arith, inl, inr, Bool-cases, Option-cases,
}
use mathlib.Core.Option.{some-injective}
use food_flow.Prelude.Int.{ℤ, pos, +ℤ_zero, ◌+ℤ◌, ◌≤ℤ◌, int_laws}
use food_flow.Shared.Uuid.{Uuid}
use food_flow.Shared.Event.{Float, Item}
use food_flow.Shared.Table.{Table, lookup}
use food_flow.Order.Status.{Status, pending, confirmed, payment_failed, stock_unavailable, other}
use food_flow.Order.Db.{Order}
use food_flow.Order.Consumer.Invariant.{releases, failures, failed_status}
use food_flow.Order.Create.{FloatOps}
use food_flow.Restaurant.Stock.Held.{held}
use food_flow.Payment.Db.{Payment, order_paid, outcome_status}
use food_flow.Payment.Count.{outcomes, HasUniqueOrders}
use food_flow.Saga.{Saga, Reach}
use food_flow.Saga.Settled.{settled_found, order_paid-lookup}
use food_flow.Saga.Rows.{answers}
use food_flow.Saga.Invariant.{Consistent, Explains}
use food_flow.Saga.Reachable.{IsFresh, Reach-Consistent, Reach-Conserves}

-- The one payment of an order, with the outcome and the order's total.
abbrev pub IsSettled : Bool → Uuid → Order → Saga → Type 0
IsSettled b o r s =
    (i : Uuid) × (p : Payment) × (lookup i s.payment.payments ≡ some p)
    × (p.order_id ≡ o)
    × (p.status ≡ outcome_status b)
    × (p.amount ≡ r.total_amount)

-- What the other services have done for an order in a state: a confirmed one is paid and holds its lines;
-- one whose payment failed has one request to release them; one that was short of stock was not charged
-- and holds nothing; for a pending one no release is asked for. Another text than these is no state.
abbrev pub Agrees : Status → Uuid → Order → Saga → Type 0
Agrees confirmed o r s = IsSettled true o r s × (lookup o s.stock.reservations ≡ some r.items)
Agrees payment_failed o r s = IsSettled false o r s × (releases o s.order.events.outbox ≡ 1)
Agrees stock_unavailable o r s =
    (order_paid o s.payment.payments ≡ false) × (lookup o s.stock.reservations ≡ none)
Agrees pending o r s = releases o s.order.events.outbox ≡ 0
Agrees (other t) o r s = ⊥

module _ (to_cents : Float → Option ℤ) (s : Saga) (c : Consistent to_cents s) (o : Uuid) (r : Order)
    (is_row : lookup o s.order.orders ≡ some r) where
  settled_payment : (b : Bool) → 1 ≤ outcomes b o s.payment.events.outbox → IsSettled b o r s
  settled_payment b told =
      let (i, p, found, own, status) =
        settled_found b o s.payment.payments c.payment_valid.unique
          (omega (arith, c.payment_valid.counts b o)) in
      let (q, is_order, amount) = c.charged.amounts i p found in
      let same : q ≡ r =
        some-injective q r
          (sym is_order ∙ ap (λ (x : Uuid). lookup x s.order.orders) own ∙ is_row) in
      (i, p, found, own, status, amount ∙ ap (λ (x : Order). x.total_amount) same)

  -- A reservation of the order is of its own lines.
  own_lines : (items : List Item) → lookup o s.stock.reservations ≡ some items → items ≡ r.items
  own_lines items h =
      let (accepted, (q, is_order, same)) = c.decided.lines o items h in
      same ∙ ap (λ (x : Order). x.items) (some-injective q r (sym is_order ∙ is_row))

  paid_order : IsSettled true o r s → order_paid o s.payment.payments ≡ true
  paid_order (i, p, found, own, status, amount) =
      subst (λ (x : Uuid). order_paid x s.payment.payments ≡ true) own
        (order_paid-lookup i p s.payment.payments found)

  kept_lines :
      r.status ≡ confirmed
      → 1 ≤ answers true o s.stock.events.outbox
      → lookup o s.stock.reservations ≡ some r.items
  kept_lines e accepted =
      let (items, held_now) = c.decided.kept o accepted (quiet e) in
      held_now ∙ ap (λ (l : List Item). some l) (own_lines items held_now)
    where
      quiet : r.status ≡ confirmed → releases o s.order.events.outbox ≡ 0
      quiet e = c.order_valid.compensates o ∙ ap failures is_row ∙ ap failed_status e

  unpaid : 1 ≤ answers false o s.stock.events.outbox → order_paid o s.payment.payments ≡ false
  unpaid rejected = elim (Bool-cases (order_paid o s.payment.payments)) [
    | inl paid ↦ absurd (omega (arith, c.charged.paid o paid, c.decided.once o))
    | inr none_paid ↦ none_paid
  ]

  unreserved : 1 ≤ answers false o s.stock.events.outbox → lookup o s.stock.reservations ≡ none
  unreserved rejected = elim (Option-cases (lookup o s.stock.reservations)) [
    | inl absent ↦ absent
    | inr (items, had) ↦ absurd (omega (arith, (c.decided.lines o items had).0, c.decided.once o))
  ]

  agrees :
      (st : Status)
      → r.status ≡ st
      → Explains st o s.stock.events.outbox s.payment.events.outbox
      → Agrees st o r s
  agrees confirmed e h =
      let paid = settled_payment true h in (paid, kept_lines e (c.charged.paid o (paid_order paid)))
  agrees payment_failed e h = (
    settled_payment false h,
    c.order_valid.compensates o ∙ ap failures is_row ∙ ap failed_status e,
  )
  agrees stock_unavailable e h = (unpaid h, unreserved h)
  agrees pending e h = c.order_valid.compensates o ∙ ap failures is_row ∙ ap failed_status e
  agrees (other t) e h = h

  -- What was accepted is not in STOCK_UNAVAILABLE.
  still_wanted : 1 ≤ answers true o s.stock.events.outbox → r.status ≢ stock_unavailable
  still_wanted accepted e =
      let rejected : 1 ≤ answers false o s.stock.events.outbox =
        subst (λ (st : Status). Explains st o s.stock.events.outbox s.payment.events.outbox) e
          (c.explained o r is_row) in
      absurd (omega (arith, c.decided.once o))

part-≤ℤ : (a h q : ℤ) → pos 0 ≤ℤ a → a +ℤ h ≡ q → h ≤ℤ q
part-≤ℤ a h q low sum = subst (λ (x : ℤ). h ≤ℤ x) sum (omega (int_laws, low))

module _ (f : FloatOps) (default : String) {s t : Saga} where
  -- In every state that the services reach from fresh databases, whatever is requested, delivered, repeated
  -- or reordered and wherever the payment handler dies: a CONFIRMED order has a payment that succeeded, of
  -- the order's total, and a reservation of the order's lines; an order in PAYMENT_FAILED has a payment that
  -- failed, of the order's total, and one stock.release in the outbox; an order in STOCK_UNAVAILABLE has
  -- neither a payment nor a reservation; for a PENDING order no stock.release is in the outbox; and no order
  -- has another status than these four.
  pub order-Agrees :
      (o : Uuid) (r : Order)
      → IsFresh s
      → Reach f default s t
      → lookup o t.order.orders ≡ some r
      → Agrees r.status o r t
  order-Agrees o r x reach is_row =
      let c = Reach-Consistent f default x reach in
      agrees f.to_cents t c o r is_row r.status refl (c.explained o r is_row)

  -- In every state that the services reach from fresh databases: a payment is of an order in the
  -- table, for the total of that order, which is not in STOCK_UNAVAILABLE; and no two payments are of
  -- one order.
  pub payment_backed :
      (i : Uuid) (p : Payment)
      → IsFresh s
      → Reach f default s t
      → lookup i t.payment.payments ≡ some p
      → ((r : Order) × (lookup p.order_id t.order.orders ≡ some r)
          × (p.amount ≡ r.total_amount)
          × (r.status ≢ stock_unavailable))
        × HasUniqueOrders t.payment.payments
  payment_backed i p x reach found =
      let c = Reach-Consistent f default x reach in
      let (r, is_row, amount) = c.charged.amounts i p found in
      (
        (
          r,
          is_row,
          amount,
          still_wanted f.to_cents t c p.order_id r is_row
              (c.charged.paid p.order_id (order_paid-lookup i p t.payment.payments found)),
        ),
        c.payment_valid.unique_orders,
      )

  -- In every state that the services reach from fresh databases: a reservation is of an order in the
  -- table that is not in STOCK_UNAVAILABLE, and holds the lines of that order.
  pub reservation_backed :
      (o : Uuid) (items : List Item)
      → IsFresh s
      → Reach f default s t
      → lookup o t.stock.reservations ≡ some items
      → (r : Order) × (lookup o t.order.orders ≡ some r)
        × (items ≡ r.items)
        × (r.status ≢ stock_unavailable)
  reservation_backed o items x reach found =
      let c = Reach-Consistent f default x reach in
      let (accepted, (r, is_row, same)) = c.decided.lines o items found in
      (r, is_row, same, still_wanted f.to_cents t c o r is_row accepted)

  -- In every state that the services reach from fresh databases, of an item that has a stock row at
  -- the start, what is in stock and what is reserved add up to the stock at the start; so no more is
  -- reserved than there was.
  pub never_oversold :
      (i : Uuid) (q : ℤ)
      → IsFresh s
      → Reach f default s t
      → lookup i s.stock.stock ≡ some q
      → ((q' : ℤ) × (lookup i t.stock.stock ≡ some q') × (q' +ℤ held i t.stock.reservations ≡ q))
        × (held i t.stock.reservations ≤ℤ q)
  unfolding held
  never_oversold i q x reach found =
      let (q', now, same) = Reach-Conserves f default i x reach q found in
      let (low, high) = (Reach-Consistent f default x reach).stock_valid.in_range i q' now in
      let sum : q' +ℤ held i t.stock.reservations ≡ q =
        same ∙ ap (λ (l : Table (List Item)). q +ℤ held i l) x.no_reservations ∙ +ℤ_zero q in
      ((q', now, sum), part-≤ℤ q' (held i t.stock.reservations) q low sum)
