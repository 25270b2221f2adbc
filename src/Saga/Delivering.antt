-- ===== src/Saga/Delivering.antt =====
-- A delivery to the order service keeps the three databases consistent.
use food_flow.Prelude.{
  ◌≤◌, ◌≡◌, refl, sym, ap, subst, ◌∙◌, Bool, true, false, Option, some, List, [], ◌∷◌, arith, inl,
  inr, ◌==◌, ==_iff, ==_refl, Bool-cases,
}
use food_flow.Prelude.Int.{ℤ}
use food_flow.Shared.Uuid.{Uuid, str}
use food_flow.Shared.Error.{Result}
use food_flow.Shared.Event.{
  Float, EventType, stock_rejected, payment_succeeded, payment_failed, Envelope, Draw,
}
use food_flow.Shared.Table.{lookup, set_row, lookup-set_row}
use food_flow.Shared.Tables.{OutboxRow}
use food_flow.Shared.Outbox.Relay.{IsRow}
use food_flow.Shared.Transaction.{Done}
use food_flow.Order.Status.{Status, ◌⟶◌, confirmed, stock_unavailable}
use food_flow.Order.Status as Statuses
use food_flow.Order.Db.{Order, Db}
use food_flow.Order.Transition.{moved}
use food_flow.Order.Consumer.{handle_message}
use food_flow.Order.Consumer.Outcome.{
  Handled, duplicate, ignored, moved_order, Target, on_success, on_failure, on_rejection,
}
use food_flow.Order.Consumer.Delivered.{Delivered, unchanged, committed, delivered}
use food_flow.Order.Consumer.Invariant.{releases, releases-append, handle_message-IsValid}
use food_flow.Payment.Count.{outcomes, tells}
use food_flow.Saga.{Saga, Offers, order_takes}
use food_flow.Saga.Rows.{Extends, answers-IsRow, is_answer}
use food_flow.Saga.Invariant.{Consistent, IsExplained, Explains}
use food_flow.Saga.Offered.{source-key, source-type, order_source}
use food_flow.Saga.Growth.{Grows, Grows-refl, Grows-Consistent, IsSingle-append}
use food_flow.Saga.Growth as Growth
use food_flow.Order.Consumer.Invariant as OrderInvariant
use food_flow.Saga.Ordering.{
  moved-Extends, moved_db, moved_db-orders, outbox-cases, outbox-Grows, outbox-IsSound,
  outbox-IsSingle,
}

outcomes_head :
    (b : Bool) (o : Uuid) (x r : OutboxRow) (rs : List OutboxRow)
    → x ≡ r
    → tells b r.topic ≡ true
    → r.key ≡ some (str o)
    → 1 ≤ outcomes b o (x ∷ rs)
unfolding outcomes
outcomes_head b o x r rs e t k =
    let tx : tells b x.topic ≡ true = ap (λ (y : OutboxRow). tells b y.topic) e ∙ t in
    let kx : x.key ≡ some (str o) = ap (λ (y : OutboxRow). y.key) e ∙ k in
    rw (tx, kx, ==_refl o) (omega arith)

outcomes-IsRow :
    (b : Bool) (o : Uuid) (rs : List OutboxRow) (r : OutboxRow)
    → IsRow r rs
    → tells b r.topic ≡ true
    → r.key ≡ some (str o)
    → 1 ≤ outcomes b o rs
unfolding outcomes
outcomes-IsRow b o [] r m t k = absurd m
outcomes-IsRow b o (x ∷ rs) r (inl e) t k = outcomes_head b o x r rs e t k
outcomes-IsRow b o (x ∷ rs) r (inr m) t k = omega (arith, outcomes-IsRow b o rs r m t k)

-- The status that each of the three topics asks for.
Target-succeeded :
    {et : EventType} {t : Status} → Target et t → et ≡ payment_succeeded → t ≡ confirmed
Target-succeeded on_success h = refl
Target-succeeded on_failure h = cc
Target-succeeded on_rejection h = cc

Target-failed :
    {et : EventType} {t : Status} → Target et t → et ≡ payment_failed → t ≡ Statuses.payment_failed
Target-failed on_success h = cc
Target-failed on_failure h = refl
Target-failed on_rejection h = cc

Target-rejected :
    {et : EventType} {t : Status} → Target et t → et ≡ stock_rejected → t ≡ stock_unavailable
Target-rejected on_success h = cc
Target-rejected on_failure h = cc
Target-rejected on_rejection h = refl

module _ (to_cents : Float → Option ℤ) (s : Saga) (c : Consistent to_cents s) (d : Draw)
    (e : Envelope) (et : EventType) (takes : order_takes et ≡ true) (offer : Offers s et e) where
  -- A message that asks for a status explains it.
  evidence :
      (j : Uuid) (t : Status)
      → e.payload.order_id ≡ some (str j)
      → Target e.event_type t
      → Explains t j s.stock.events.outbox s.payment.events.outbox
  evidence j t told target = elim (order_source to_cents s c et e takes offer) [
    | inl (source, inl k) ↦
        subst (λ (x : Status). Explains x j s.stock.events.outbox s.payment.events.outbox)
          (sym (Target-succeeded target (source-type source j told ∙ k)))
          (outcomes-IsRow true j s.payment.events.outbox source.row source.in_outbox
            (ap (tells true) (source.topic ∙ k)) (source-key source j told))
    | inl (source, inr k) ↦
        subst (λ (x : Status). Explains x j s.stock.events.outbox s.payment.events.outbox)
          (sym (Target-failed target (source-type source j told ∙ k)))
          (outcomes-IsRow false j s.payment.events.outbox source.row source.in_outbox
            (ap (tells false) (source.topic ∙ k)) (source-key source j told))
    | inr source ↦
        subst (λ (x : Status). Explains x j s.stock.events.outbox s.payment.events.outbox)
          (sym (Target-rejected target (source-type source j told)))
          (answers-IsRow false j s.stock.events.outbox source.row source.in_outbox
            (ap (is_answer false) source.topic) (source-key source j told))
  ]

  moved-IsExplained :
      (j : Uuid) (t : Status) (p : Order)
      → e.payload.order_id ≡ some (str j)
      → Target e.event_type t
      → IsExplained
          (set_row j (moved d.now t p) s.order.orders)
          s.stock.events.outbox
          s.payment.events.outbox
  moved-IsExplained j t p told target o r h = elim (Bool-cases (j == o)) [
    | inr other ↦
        c.explained o r (ground (arith, lookup-set_row o j (moved d.now t p) s.order.orders))
    | inl own ↦
        subst (λ (x : Status). Explains x o s.stock.events.outbox s.payment.events.outbox)
          (ground (arith, lookup-set_row o j (moved d.now t p) s.order.orders))
          (subst (λ (x : Uuid). Explains t x s.stock.events.outbox s.payment.events.outbox)
            ((==_iff j o).0 own) (evidence j t told target))
  ]

  moved-Consistent :
      (u j : Uuid) (p : Order) (t : Status)
      → Target e.event_type t
      → e.payload.order_id ≡ some (str j)
      → lookup j s.order.orders ≡ some p
      → OrderInvariant.IsValid (moved_db d j e.event_type t p u s.order)
      → Consistent to_cents (Growth.with_order s (moved_db d j e.event_type t p u s.order))
  moved-Consistent u j p t target told is_row v =
      let db' = moved_db d j e.event_type t p u s.order in
      let same = moved_db-orders d j e.event_type t p u s.order in
      let shape = outbox-cases d j e.event_type t p u s.order in
      let x : Extends s.order.orders db'.orders =
        rw same (moved-Extends s.order.orders j d.now t p is_row) in
      Grows-Consistent to_cents s db'
        (outbox-Grows to_cents s c d j db'.orders x db'.events.outbox shape) v
        (outbox-IsSound to_cents s c d j db'.orders x db'.events.outbox shape)
        (outbox-IsSingle to_cents s c d j db'.orders x db'.events.outbox shape)
        (rw same (moved-IsExplained j t p told target)) c

  handled-Consistent :
      {u : Uuid} {db' : Db}
      → Handled d u e s.order db'
      → OrderInvariant.IsValid db'
      → Consistent to_cents (Growth.with_order s db')
  handled-Consistent (duplicate seen after) v = rw after c
  handled-Consistent (ignored untargeted after) v = rw after c
  handled-Consistent {u} (moved_order j p t target told is_row on after) v =
      rw after (moved-Consistent u j p t target told is_row (rw after at v))

  Delivered-Consistent :
      {r : Result Done × Db}
      → Delivered d e s.order r
      → OrderInvariant.IsValid r.1
      → Consistent to_cents (Growth.with_order s r.1)
  Delivered-Consistent (unchanged w) v = c
  Delivered-Consistent (committed u db' ei run h) v = handled-Consistent h v

  -- A delivery to the order service keeps the three databases consistent.
  pub order_receives-Consistent :
      Consistent to_cents (Growth.with_order s (handle_message d e s.order).1)
  order_receives-Consistent =
      Delivered-Consistent (delivered d e s.order)
        (handle_message-IsValid d e s.order c.order_valid)
