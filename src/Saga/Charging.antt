-- ===== src/Saga/Charging.antt =====
-- The payment service's steps keep the three databases consistent.
use food_flow.Prelude.{
  ◌≤◌, String, ◌≡◌, refl, sym, ap, subst, ◌∙◌, Bool, true, false, Option, some, List, arith, inl,
  inr, ◌==◌, ==_iff, Bool-cases,
}
use food_flow.Prelude.Int.{ℤ}
use mathlib.Core.Option.{some-injective}
use food_flow.Shared.Uuid.{Uuid, str}
use food_flow.Shared.Error.{Result}
use food_flow.Shared.Event.{Float, stock_reserved, Envelope, Draw, wrap_event}
use food_flow.Shared.Table.{Table, lookup}
use food_flow.Shared.Tables.{OutboxRow}
use food_flow.Shared.Transaction.{◌>>=◌}
use food_flow.Order.Status.{Status, confirmed, payment_failed, stock_unavailable, pending, other}
use food_flow.Order.Db.{Order}
use food_flow.Payment.Db.{Payment, Db, order_paid}
use food_flow.Payment.Consumer.{
  PaymentDraw, new_payment, begin_payment, finish_payment, handle_message,
}
use food_flow.Payment.Gateway.{process_payment}
use food_flow.Payment.Intent.{
  Begun, raised, duplicate, already_paid, intended, intended_db, begin_payment-Begun,
}
use food_flow.Payment.Recovery.{finish_payment_runs, finds_new}
use food_flow.Payment.Count.{outcomes}
use food_flow.Payment.Outcomes as PaymentOutcomes
use food_flow.Payment.Outcomes.{outcome_row}
use food_flow.Payment.Outcomes.Run.{Begun-IsValid, handle_message-IsValid}
use food_flow.Saga.{Saga}
use food_flow.Saga.Rows.{IsSound, answers, answers-IsRow, is_answer, payment_sends, stock_sends}
use food_flow.Saga.Invariant.{Consistent, IsCharged, Explains}
use food_flow.Saga.Outcomes.{Progress, Progress-refl, record_outcome-Progress}
use food_flow.Saga.Offered.{Source, source-key, source-Describes}

-- More outcomes explain no less.
Explains-more :
    (st : Status) (o : Uuid) (answered rows rows' : List OutboxRow)
    → ((b : Bool) → outcomes b o rows ≤ outcomes b o rows')
    → Explains st o answered rows
    → Explains st o answered rows'
Explains-more confirmed o answered rows rows' more h = omega (arith, more true)
Explains-more payment_failed o answered rows rows' more h = omega (arith, more false)
Explains-more stock_unavailable o answered rows rows' more h = h
Explains-more pending o answered rows rows' more h = tt
Explains-more (other s) o answered rows rows' more h = h

outcome_row-IsSound :
    (to_cents : Float → Option ℤ) (orders : Table Order) (d : Draw) (o : Uuid) (b : Bool)
    → IsSound to_cents payment_sends orders (outcome_row d o b)
unfolding wrap_event
outcome_row-IsSound to_cents orders d o true = record {
  order = o;
  keyed = refl;
  told = refl;
  typed = refl;
  sent_by = refl;
  described = λ h. cc;
}
outcome_row-IsSound to_cents orders d o false = record {
  order = o;
  keyed = refl;
  told = refl;
  typed = refl;
  sent_by = refl;
  described = λ h. cc;
}

abbrev pub with_payment : Saga → Db → Saga
with_payment s payment = record s { payment = payment }

-- Progress of the payments keeps all three consistent.
pub Progress-Consistent :
    (to_cents : Float → Option ℤ) (s : Saga) (db' : Db)
    → Progress s.payment db'
    → PaymentOutcomes.IsValid db'
    → Consistent to_cents s
    → Consistent to_cents (with_payment s db')
Progress-Consistent to_cents s db' x v c = record {
  order_valid = c.order_valid;
  stock_valid = c.stock_valid;
  payment_valid = v;
  order_rows = c.order_rows;
  stock_rows = c.stock_rows;
  payment_rows =
      x.added (IsSound to_cents payment_sends s.order.orders)
        (outcome_row-IsSound to_cents s.order.orders) c.payment_rows;
  single = c.single;
  decided = c.decided;
  charged = record {
    paid = λ o h. c.charged.paid o (sym (x.same_orders o) ∙ h);
    amounts = λ i p' h.
        let (p, e, eo, ea) = x.same_rows i p' h in
        let (r, is_row, amount) = c.charged.amounts i p e in
        (r, ap (λ (o : Uuid). lookup o s.order.orders) eo ∙ is_row, ea ∙ amount);
  };
  explained = λ o r h.
      Explains-more r.status o s.stock.events.outbox s.payment.events.outbox db'.events.outbox
        (λ b. x.more b o) (c.explained o r h);
}

module _ (to_cents : Float → Option ℤ) (d : PaymentDraw) (e : Envelope) (s : Saga)
    (c : Consistent to_cents s)
    (source : Source to_cents s stock_sends s.stock.events.outbox stock_reserved e) where
  intended-amounts :
      (u o : Uuid) (cents : ℤ)
      → e.payload.order_id ≡ some (str o)
      → (amount : Float) × (e.payload.total_amount ≡ some amount) × (to_cents amount ≡ some cents)
      → (r : Order) × (lookup o s.order.orders ≡ some r) × (cents ≡ r.total_amount)
  intended-amounts u o cents eo (amount, ea, fits) =
      let described = source-Describes source o eo refl in
      let same : described.amount ≡ amount =
        some-injective described.amount amount (sym described.total ∙ ea) in
      (
        described.row,
        described.is_row,
        some-injective cents described.row.total_amount
            (sym fits ∙ ap to_cents (sym same) ∙ described.cents),
      )

  intended-IsCharged :
      (u o : Uuid) (cents : ℤ)
      → e.payload.order_id ≡ some (str o)
      → (amount : Float) × (e.payload.total_amount ≡ some amount) × (to_cents amount ≡ some cents)
      → IsCharged s.order.orders s.stock.events.outbox
          (intended_db d u o cents e.payload.payment_simulate s.payment)
  intended-IsCharged u o cents eo charge = record {
    paid = λ i h. elim (Bool-cases (o == i)) [
      | inl own ↦
          subst (λ (x : Uuid). 1 ≤ answers true x s.stock.events.outbox) ((==_iff o i).0 own)
            answered
      | inr foreign ↦ c.charged.paid i (unfold order_paid in ground arith)
    ];
    amounts = λ i p h. elim (Bool-cases (d.payment_uuid == i)) [
      | inl own ↦
          let made : new_payment d o cents e.payload.payment_simulate ≡ p =
            some-injective (new_payment d o cents e.payload.payment_simulate) p
              (unfold lookup in ground arith) in
          subst
            (λ (x : Payment).
              (r : Order) × (lookup x.order_id s.order.orders ≡ some r)
              × (x.amount ≡ r.total_amount))
            made (intended-amounts u o cents eo charge)
      | inr foreign ↦ c.charged.amounts i p (unfold lookup in ground arith)
    ];
  }
    where
      answered : 1 ≤ answers true o s.stock.events.outbox
      answered =
          answers-IsRow true o s.stock.events.outbox source.row source.in_outbox
            (ap (is_answer true) source.topic) (source-key source o eo)

  Begun-Consistent :
      {r : Result (Option Uuid) × Db}
      → Begun to_cents d e s.payment r
      → Consistent to_cents (with_payment s r.1)
  Begun-Consistent (raised w) = c
  Begun-Consistent (duplicate u ei seen) = c
  Begun-Consistent (already_paid o eo paid) = c
  Begun-Consistent (intended u o cents ei eo new fresh unpaid charge) = record {
    order_valid = c.order_valid;
    stock_valid = c.stock_valid;
    payment_valid =
        Begun-IsValid to_cents d e {db = s.payment}
          (intended u o cents ei eo new fresh unpaid charge) c.payment_valid;
    order_rows = c.order_rows;
    stock_rows = c.stock_rows;
    payment_rows = c.payment_rows;
    single = c.single;
    decided = c.decided;
    charged = intended-IsCharged u o cents eo charge;
    explained = c.explained;
  }

  -- What follows the first transaction is progress.
  finished-Progress :
      (default : String) {r : Result (Option Uuid) × Db}
      → Begun to_cents d e s.payment r
      → Progress r.1 (◌>>=◌ (λ (x : Db). r) (finish_payment default d e) s.payment).1
  finished-Progress default (raised w) = Progress-refl s.payment
  finished-Progress default (duplicate u ei seen) = unfold finish_payment in Progress-refl s.payment
  finished-Progress default (already_paid o eo paid) =
      unfold finish_payment in Progress-refl s.payment
  finished-Progress default (intended u o cents ei eo new fresh unpaid charge) =
      let mid = intended_db d u o cents e.payload.payment_simulate s.payment in
      rw (finish_payment_runs to_cents default d e o d.payment_uuid mid eo) (
        record_outcome-Progress d.outcome d.payment_uuid o
          (process_payment default e.payload.payment_simulate)
          (new_payment d o cents e.payload.payment_simulate) mid
          (finds_new to_cents default d e o u cents s.payment))

  pub dies-Consistent :
      Consistent to_cents (with_payment s (begin_payment to_cents d e s.payment).1)
  dies-Consistent = Begun-Consistent (begin_payment-Begun to_cents d e s.payment)

  pub receives-Consistent :
      (default : String)
      → Consistent to_cents (with_payment s (handle_message to_cents default d e s.payment).1)
  receives-Consistent default =
      Progress-Consistent to_cents (with_payment s (begin_payment to_cents d e s.payment).1)
        (handle_message to_cents default d e s.payment).1
        (unfold handle_message in
          finished-Progress default (begin_payment-Begun to_cents d e s.payment))
        (handle_message-IsValid to_cents d e default s.payment c.payment_valid) dies-Consistent
