-- ===== src/Saga/Stocking.antt =====
-- A delivery to the restaurant service keeps the three databases consistent.
use food_flow.Prelude.{
  ◌≤◌, ◌≡◌, refl, sym, ap, subst, Bool, true, false, Option, some, List, [], ◌∷◌, ◌++◌, arith,
}
use food_flow.Prelude.Int.{ℤ}
use food_flow.Shared.Uuid.{Uuid, IdText, str}
use food_flow.Shared.Error.{Reason, ok}
use food_flow.Shared.Event.{
  Float, Item, order_placed, stock_reserved, stock_rejected, Envelope, Draw, wrap_event,
}
use food_flow.Shared.Table.{lookup}
use food_flow.Shared.Tables.{EventTables, OutboxRow, is_in, new_row}
use food_flow.Order.Status.{Status, confirmed, payment_failed, stock_unavailable, pending, other}
use food_flow.Restaurant.Stock.{Db, reserve_stock}
use food_flow.Restaurant.Stock.Contract.{Reserved, reserved, Released, released}
use food_flow.Restaurant.Stock.Contract as StockContract
use food_flow.Restaurant.Consumer.{rejection}
use food_flow.Restaurant.Consumer.Placing.{Placed, accepted, rejected, with_row}
use food_flow.Restaurant.Consumer.Outcome.{marked}
use food_flow.Restaurant.Consumer.Decision.{reserve_stock-events}
use food_flow.Saga.{Saga}
use food_flow.Saga.Rows.{IsSound, AllRows, AllRows-append, order_sends, stock_sends, answers}
use food_flow.Saga.Invariant.{Consistent, IsDecided, Explains}
use food_flow.Saga.Offered.{str_injective, Source, source-Describes}
use food_flow.Saga.Answering.{Answers, answers_after, accepted-IsDecided, rejected-IsDecided}

-- More answers explain no less.
Explains-answered :
    (st : Status) (o : Uuid) (rows rows' settled : List OutboxRow)
    → answers false o rows ≤ answers false o rows'
    → Explains st o rows settled
    → Explains st o rows' settled
Explains-answered confirmed o rows rows' settled more h = h
Explains-answered payment_failed o rows rows' settled more h = h
Explains-answered stock_unavailable o rows rows' settled more h = omega arith
Explains-answered pending o rows rows' settled more h = tt
Explains-answered (other s) o rows rows' settled more h = h

abbrev pub with_stock : Saga → Db → Saga
with_stock s stock = record s { stock = stock }

module _ (to_cents : Float → Option ℤ) (s : Saga) (c : Consistent to_cents s) where
  -- Tables with more answers, that are decided as they should be, are consistent with the rest.
  pub stock-Consistent :
      (db' : Db)
      → ((b : Bool) (o : Uuid) → answers b o s.stock.events.outbox ≤ answers b o db'.events.outbox)
      → StockContract.IsValid db'
      → AllRows (IsSound to_cents stock_sends s.order.orders) db'.events.outbox
      → IsDecided s.order.orders s.order.events.outbox db'
      → Consistent to_cents (with_stock s db')
  stock-Consistent db' more v rows decided = record {
    order_valid = c.order_valid;
    stock_valid = v;
    payment_valid = c.payment_valid;
    order_rows = c.order_rows;
    stock_rows = rows;
    payment_rows = c.payment_rows;
    single = c.single;
    decided = decided;
    charged = record {
      paid = λ o h. omega (arith, c.charged.paid o h, more true o);
      amounts = c.charged.amounts;
    };
    explained = λ o r h.
        Explains-answered r.status o s.stock.events.outbox db'.events.outbox s.payment.events.outbox
          (more false o) (c.explained o r h);
  }

  answered-Consistent :
      (b : Bool) (u o : Uuid) (items : List Item) (row : OutboxRow) (db' : Db)
      → Answers b u o items row s.stock db'
      → StockContract.IsValid db'
      → IsSound to_cents stock_sends s.order.orders row
      → IsDecided s.order.orders s.order.events.outbox db'
      → Consistent to_cents (with_stock s db')
  answered-Consistent b u o items row db' a v sound decided =
      stock-Consistent db' (λ t i. omega (arith, answers_after b u o items row s.stock db' t i a)) v
        (rw (a.outbox) (
          AllRows-append (IsSound to_cents stock_sends s.order.orders) s.stock.events.outbox row
            c.stock_rows sound))
        decided

  module _ (d : Draw) (e : Envelope) (u o : Uuid)
      (source : Source to_cents s order_sends s.order.events.outbox order_placed e)
      (told : e.payload.order_id ≡ some (str o)) (is_id : e.event_id ≡ str u)
      (is_new : is_in u s.stock.events.processed ≡ false) where
    reserved_row-IsSound :
        IsSound to_cents stock_sends s.order.orders
          (new_row d stock_reserved (str o) (wrap_event d stock_reserved e.payload))
    unfolding wrap_event
    reserved_row-IsSound = record {
      order = o;
      keyed = refl;
      told = told;
      typed = refl;
      sent_by = refl;
      described = λ h. source-Describes source o told refl;
    }

    rejected_row-IsSound :
        (r : Reason)
        → IsSound to_cents stock_sends s.order.orders
            (new_row d stock_rejected (str o) (wrap_event d stock_rejected (rejection (str o) r)))
    unfolding wrap_event
    rejected_row-IsSound r = record {
      order = o;
      keyed = refl;
      told = refl;
      typed = refl;
      sent_by = refl;
      described = λ h. cc;
    }

    accepted-Answers :
        (items : List Item) (mid : Db)
        → (reserve_stock (str o) items s.stock).0 ≡ ok tt
        → mid
          ≡ with_row
              (reserve_stock (str o) items s.stock).1
              (new_row d stock_reserved (str o) (wrap_event d stock_reserved e.payload))
        → Answers true u o items
            (new_row d stock_reserved (str o) (wrap_event d stock_reserved e.payload))
            s.stock
            (marked u mid)
    accepted-Answers items mid runs after =
        let same = reserve_stock-events o items s.stock runs in
        let answer = new_row d stock_reserved (str o) (wrap_event d stock_reserved e.payload) in
        rw after (record {
          topic = refl;
          other_topic = refl;
          keyed = refl;
          outbox = ap (λ (x : EventTables). x.outbox ++ answer ∷ []) same;
          processed = ap (λ (x : EventTables). u ∷ x.processed) same;
          reserved = λ i.
              rw (ap (λ (x : Db). lookup i x.reservations) (reserved o items s.stock runs).after)
                (unfold lookup in refl);
        })

    rejected-Answers :
        (r : Reason) (mid : Db)
        → mid
          ≡ with_row s.stock
              (new_row d stock_rejected (str o) (wrap_event d stock_rejected (rejection (str o) r)))
        → Answers false u o []
            (new_row d stock_rejected (str o) (wrap_event d stock_rejected (rejection (str o) r)))
            s.stock
            (marked u mid)
    rejected-Answers r mid after = rw after (record {
      topic = refl;
      other_topic = refl;
      keyed = refl;
      outbox = refl;
      processed = refl;
      reserved = λ i. refl;
    })

    -- What the order.placed branch commits is consistent with the rest.
    pub placed-Consistent :
        (mid : Db)
        → Placed d (str o) e.payload s.stock mid
        → StockContract.IsValid (marked u mid)
        → Consistent to_cents (with_stock s (marked u mid))
    placed-Consistent mid (accepted j items ej ei runs after) v =
        let row = new_row d stock_reserved (str o) (wrap_event d stock_reserved e.payload) in
        let own : j ≡ o = str_injective (ap (λ (x : IdText). some x) (sym ej)) in
        let a =
          accepted-Answers items mid
            (subst (λ (x : Uuid). (reserve_stock (str x) items s.stock).0 ≡ ok tt) own runs)
            (subst (λ (x : Uuid). mid ≡ with_row (reserve_stock (str x) items s.stock).1 row) own
              after) in
        answered-Consistent true u o items row (marked u mid) a v reserved_row-IsSound (
          accepted-IsDecided to_cents s c e u o source told is_id is_new items row (marked u mid) a
            ei)
    placed-Consistent mid (rejected r why after) v =
        let row =
          new_row d stock_rejected (str o) (wrap_event d stock_rejected (rejection (str o) r)) in
        let a = rejected-Answers r mid after in
        answered-Consistent false u o [] row (marked u mid) a v (rejected_row-IsSound r)
          (rejected-IsDecided to_cents s c e u o source told is_id is_new [] row (marked u mid) a)
