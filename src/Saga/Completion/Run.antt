-- ===== src/Saga/Completion/Run.antt =====
-- That the deliveries of Saga/Completion end the order.
use food_flow.Prelude.{
  List, String, ◌≡◌, refl, Bool, true, false, some, [], ◌∷◌, ◌++◌, inl, inr, ◌⊎◌,
}
use food_flow.Shared.Uuid.{Uuid, str}
use food_flow.Shared.Error.{Reason, ok}
use food_flow.Shared.Event.{
  order_placed, stock_reserved, stock_rejected, payment_succeeded, payment_failed, Envelope, Draw,
  wrap_event, order_only,
}
use food_flow.Shared.Table.{lookup}
use food_flow.Shared.Tables.{OutboxRow}
use food_flow.Shared.Outbox.Relay.{IsRow}
use food_flow.Order.Status.{Status, confirmed, stock_unavailable}
use food_flow.Order.Db.{Order}
use food_flow.Order.Consumer as OrderConsumer
use food_flow.Order.Create.{FloatOps}
use food_flow.Order.Transition.{moved}
use food_flow.Restaurant.Stock.Demand.{IsCovered}
use food_flow.Restaurant.Consumer as RestaurantConsumer
use food_flow.Restaurant.Consumer.{rejection}
use food_flow.Payment.Db.{outcome_topic}
use food_flow.Payment.Gateway.{process_payment}
use food_flow.Payment.Consumer.{PaymentDraw}
use food_flow.Saga.{
  Saga, Offers, from_stock, from_payment, order_receives, restaurant_receives, payment_receives,
  order_takes, Reach, start, later,
}
use food_flow.Saga.Invariant.{Consistent}
use food_flow.Saga.Completion.Placed.{source, described, unreserved, unpaid, has_items}
use food_flow.Saga.Completion.Paying.{charges}
use food_flow.Payment.Outcomes.{outcome_row}
use food_flow.Saga.Reachable.{IsFresh, Reach-Consistent}
use food_flow.Saga.Safety.{Agrees, order-Agrees}
use food_flow.Saga.Completion.Moving.{confirms, gives_up, compensates, finds_moved}
use food_flow.Saga.Offered.{source-type}
use food_flow.Restaurant.Consumer.Decision.{order_placed_outcome, row_of}
use food_flow.Restaurant.Consumer.Outcome.{marked}
use food_flow.Restaurant.Consumer.Placing.{with_row}
use food_flow.Restaurant.Stock as Stock
use food_flow.Restaurant.Stock.{reserve_stock}
use food_flow.Saga.Completion.{
  stock_turn, payment_turn, IsPlaced, AreFresh, ended_status, charged_saga, rejected_saga, EndsIn,
}

Reach-trans :
    {f : FloatOps} {default : String} {s t u : Saga}
    → Reach f default s t
    → Reach f default t u
    → Reach f default s u
Reach-trans r start = r
Reach-trans r (later q step) = later (Reach-trans r q) step

IsRow_last : (rows : List OutboxRow) (r : OutboxRow) → IsRow r (rows ++ r ∷ [])
IsRow_last [] r = inl refl
IsRow_last (x ∷ rows) r = inr (IsRow_last rows r)

module _ (f : FloatOps) (default : String) (d : Draw) (p : PaymentDraw) (q : Draw) (o : Uuid)
    (e : Envelope) (s : Saga) (c : Consistent f.to_cents s) (u : Uuid) (r : Order)
    (placed : IsPlaced o r u e s) (fresh : AreFresh d p q s) where
  -- The handler's last row is offered.
  Offers-answer :
      (x : Stock.Db) (row : OutboxRow)
      → RestaurantConsumer.handle_message d e s.stock ≡ (ok tt, marked u (with_row x row))
      → Offers (stock_turn d e s) row.topic row.event
  Offers-answer x row h = from_stock row (rw h (IsRow_last x.events.outbox row)) refl refl

  -- The gateway's answer is offered to the order service.
  Offers-outcome :
      let b = process_payment default e.payload.payment_simulate in
      Offers
        (payment_turn f default p (wrap_event d stock_reserved e.payload) (stock_turn d e s))
        (outcome_topic b)
        (wrap_event p.outcome (outcome_topic b) (order_only (str o)))
  unfolding wrap_event
  Offers-outcome =
      let b = process_payment default e.payload.payment_simulate in
      let e' = wrap_event d stock_reserved e.payload in
      let known = described f o e s c u r placed in
      let pays =
        charges f.to_cents default p e' d.event_uuid o known.amount known.row.total_amount s.payment
          refl placed.has_order known.total known.cents placed.short fresh.uncharged fresh.payment
          (unpaid f o e s c u r placed) fresh.outcome in
      from_payment (outcome_row p.outcome o b)
        (rw pays (IsRow_last s.payment.events.outbox (outcome_row p.outcome o b))) refl refl

  outcome_taken : (b : Bool) → order_takes (outcome_topic b) ≡ true
  outcome_taken true = refl
  outcome_taken false = refl

  charged_Reach :
      RestaurantConsumer.handle_message d e s.stock ≡ (
        ok tt,
        marked u (
            with_row
              (reserve_stock (str o) r.items s.stock).1
              (row_of d stock_reserved (str o) e.payload)),
      )
      → Reach f default s (charged_saga f default d p q o e s)
  charged_Reach h =
      let b = process_payment default e.payload.payment_simulate in
      let e' = wrap_event d stock_reserved e.payload in
      let row = row_of d stock_reserved (str o) e.payload in
      let first = later start (restaurant_receives d order_placed e refl placed.offered) in
      let second = later first (
        payment_receives p stock_reserved e' refl
          (Offers-answer (reserve_stock (str o) r.items s.stock).1 row h)) in
      later second (
        order_receives q (outcome_topic b)
          (wrap_event p.outcome (outcome_topic b) (order_only (str o))) (outcome_taken b)
          Offers-outcome)

  rejected_Reach :
      (why : Reason)
      → RestaurantConsumer.handle_message d e s.stock ≡ (
        ok tt,
        marked u (with_row s.stock (row_of d stock_rejected (str o) (rejection (str o) why))),
      )
      → Reach f default s (rejected_saga d q o e why s)
  rejected_Reach why h =
      let e' = wrap_event d stock_rejected (rejection (str o) why) in
      later (later start (restaurant_receives d order_placed e refl placed.offered)) (
        order_receives q stock_rejected e' refl
          (Offers-answer s.stock (row_of d stock_rejected (str o) (rejection (str o) why)) h))

  charged_status :
      (b : Bool)
      → lookup o
          (OrderConsumer.handle_message q
            (wrap_event p.outcome (outcome_topic b) (order_only (str o)))
            s.order).1.orders
        ≡ some (moved q.now (ended_status b) r)
  charged_status true =
      let e' = wrap_event p.outcome payment_succeeded (order_only (str o)) in
      rw
        (confirms q e' p.outcome.event_uuid o r s.order (unfold wrap_event in refl)
          (unfold wrap_event in refl) fresh.unsettled placed.is_row placed.waits
          (unfold wrap_event in refl))
        (finds_moved q o r s.order confirmed placed.is_row)
  charged_status false =
      let e' = wrap_event p.outcome payment_failed (order_only (str o)) in
      rw
        (compensates q e' p.outcome.event_uuid o r s.order (unfold wrap_event in refl)
          (unfold wrap_event in refl) fresh.unsettled placed.is_row placed.waits
          (unfold wrap_event in refl) fresh.release)
        (finds_moved q o r s.order Status.payment_failed placed.is_row)

  rejected_status :
      (why : Reason)
      → lookup o
          (OrderConsumer.handle_message q
            (wrap_event d stock_rejected (rejection (str o) why))
            s.order).1.orders
        ≡ some (moved q.now stock_unavailable r)
  rejected_status why =
      let e' = wrap_event d stock_rejected (rejection (str o) why) in
      rw
        (gives_up q e' d.event_uuid o r s.order (unfold wrap_event in refl)
          (unfold wrap_event in refl) fresh.unrejected placed.is_row placed.waits
          (unfold wrap_event in refl))
        (finds_moved q o r s.order stock_unavailable placed.is_row)

  ends :
      (IsCovered r.items s.stock.stock
        × Reach f default s (charged_saga f default d p q o e s)
        × (lookup o (charged_saga f default d p q o e s).order.orders
            ≡ some (
                moved q.now (ended_status (process_payment default e.payload.payment_simulate)) r)))
      ⊎ ((¬ IsCovered r.items s.stock.stock)
          × ((why : Reason) × Reach f default s (rejected_saga d q o e why s)
              × (lookup o (rejected_saga d q o e why s).order.orders
                  ≡ some (moved q.now stock_unavailable r))))
  ends =
      elim (order_placed_outcome d u o r.items e s.stock placed.is_id
        (source-type (source f o e s c u r placed) o placed.has_order) placed.has_order
        (has_items f o e s c u r placed) placed.unread fresh.answer c.stock_valid placed.well_formed
        (unreserved f o e s c u r placed)) [
          | inl (covered, runs, h) ↦ inl (
            covered,
            charged_Reach h,
            charged_status (process_payment default e.payload.payment_simulate),
          )
          | inr (short, (why, h)) ↦ inr (short, (why, rejected_Reach why h, rejected_status why))
        ]

module _ (f : FloatOps) (default : String) (d : Draw) (p : PaymentDraw) (q : Draw) (o : Uuid)
    (e : Envelope) (s : Saga) (u : Uuid) (r : Order) where
  -- In every state that the services reach from fresh databases, for a PENDING order whose order.placed
  -- event the restaurant service has not read, with well-formed lines and a `payment_simulate` that fits its
  -- column, and where the ids that are drawn are new: delivering the event, then the answer of each
  -- service to the next, reaches the order's end. If the stock covers the lines, it is CONFIRMED or
  -- PAYMENT_FAILED, as the gateway decides, after three deliveries; if not, it is STOCK_UNAVAILABLE
  -- after two. Each time the payment and the reservation agree with the status.
  pub order_completes :
      {s0 : Saga}
      → IsFresh s0
      → Reach f default s0 s
      → IsPlaced o r u e s
      → AreFresh d p q s
      → (IsCovered r.items s.stock.stock
          × EndsIn f default q o r s
              (ended_status (process_payment default e.payload.payment_simulate))
              (charged_saga f default d p q o e s))
        ⊎ ((¬ IsCovered r.items s.stock.stock)
            × ((why : Reason) × EndsIn f default q o r s stock_unavailable
                  (rejected_saga d q o e why s)))
  order_completes x reach placed fresh =
      elim (ends f default d p q o e s (Reach-Consistent f default x reach) u r placed fresh) [
        | inl (covered, run, now) ↦ inl (covered, (run, now, agree _ _ run now))
        | inr (short, (why, run, now)) ↦ inr (short, (why, (run, now, agree _ _ run now)))
      ]
    where
      agree :
          (st : Status) (t : Saga)
          → Reach f default s t
          → lookup o t.order.orders ≡ some (moved q.now st r)
          → Agrees st o (moved q.now st r) t
      agree st t run now = order-Agrees f default o (moved q.now st r) x (Reach-trans reach run) now
