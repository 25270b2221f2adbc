-- ===== src/Saga/Growth.antt =====
-- What a change of the order service's tables must leave as it was, for the databases to stay consistent.
use food_flow.Prelude.{
  ◌+◌, ◌≤◌, ◌≡◌, sym, ap, ◌∙◌, true, false, Option, none, some, List, [], ◌∷◌, ◌++◌, arith, inl,
  inr, ◌⊎◌, ◌≢◌,
}
use food_flow.Prelude.Int.{ℤ}
use food_flow.Shared.Uuid.{Uuid, str}
use food_flow.Shared.Event.{Float, order_placed}
use food_flow.Shared.Table.{Table, lookup}
use food_flow.Shared.Tables.{OutboxRow, is_in}
use food_flow.Shared.Outbox.Relay.{IsRow}
use food_flow.Order.Db.{Order, Db}
use food_flow.Order.Consumer.Invariant.{releases, releases-append}
use food_flow.Order.Consumer.Invariant as OrderInvariant
use food_flow.Restaurant.Stock as Stock
use food_flow.Payment.Db as PaymentDb
use food_flow.Saga.{Saga}
use food_flow.Saga.Rows.{
  IsSound, AllRows, Extends, Extends-refl, IsSound-Extends, IsRow-append, order_sends, stock_sends,
  payment_sends, answers,
}
use food_flow.Saga.Invariant.{Consistent, IsSingle, IsDecided, IsCharged, IsExplained, HasOrder}
use food_flow.Saga.Offered.{str_injective}

-- Orders keep their lines and totals, no release is taken back, and an order.placed row that is new is
-- of a new order.
pub record Grows (orders orders' : Table Order) (rows rows' : List OutboxRow) : Type 0 where
  pub extends : Extends orders orders'
  pub fewer : (o : Uuid) → releases o rows' ≡ 0 → releases o rows ≡ 0
  pub placed :
      (r : OutboxRow)
      → IsRow r rows'
      → r.topic ≡ order_placed
      → IsRow r rows ⊎ ((o : Uuid) × (r.key ≡ some (str o)) × (lookup o orders ≡ none))

pub Grows-refl : (orders : Table Order) (rows : List OutboxRow) → Grows orders orders rows rows
Grows-refl orders rows = record {
  extends = Extends-refl orders;
  fewer = λ o h. h;
  placed = λ r m t. inl m;
}

HasOrder-Extends :
    (orders orders' : Table Order) (o : Uuid)
    → Extends orders orders'
    → HasOrder orders o
    → HasOrder orders' o
HasOrder-Extends orders orders' o x (r, h) = let (r', h', items, total) = x o r h in (r', h')

module _ (orders orders' : Table Order) (rows rows' : List OutboxRow)
    (g : Grows orders orders' rows rows') where
  Grows-marked :
      (db : Stock.Db) (o : Uuid)
      → IsDecided orders rows db
      → 1 ≤ answers true o db.events.outbox + answers false o db.events.outbox
      → (r : OutboxRow) → IsRow r rows'
      → r.topic ≡ order_placed
      → r.key ≡ some (str o)
      → (u : Uuid) × (r.event.event_id ≡ str u) × (is_in u db.events.processed ≡ true)
  Grows-marked db o v h r m t k = elim (g.placed r m t) [
    | inl old ↦ v.marked o h r old t k
    | inr (i, ki, none_yet) ↦
        let (row, is_row) = v.known o h in
        absurd (absent i row (str_injective (sym ki ∙ k)) none_yet is_row)
  ]
    where
      absent :
          (i : Uuid) (row : Order) → i ≡ o → lookup i orders ≡ none → lookup o orders ≡ some row → ⊥
      absent i row e p q = ground (arith, ap (λ (x : Uuid). lookup x orders) e)

  Grows-IsDecided : (db : Stock.Db) → IsDecided orders rows db → IsDecided orders' rows' db
  Grows-IsDecided db v = record {
    once = v.once;
    known = λ o h. HasOrder-Extends orders orders' o g.extends (v.known o h);
    marked = λ o h. Grows-marked db o v h;
    kept = λ o h e. v.kept o h (g.fewer o e);
    lines = λ o items h.
        let (accepted, (r, is_row, same)) = v.lines o items h in
        let (r', is_row', items', total) = g.extends o r is_row in
        (accepted, (r', is_row', same ∙ sym items'));
  }

  Grows-IsCharged :
      (answered : List OutboxRow) (db : PaymentDb.Db)
      → IsCharged orders answered db
      → IsCharged orders' answered db
  Grows-IsCharged answered db v = record {
    paid = v.paid;
    amounts = λ i p h.
        let (r, is_row, same) = v.amounts i p h in
        let (r', is_row', items, total) = g.extends p.order_id r is_row in
        (r', is_row', same ∙ sym total);
  }

abbrev pub with_order : Saga → Db → Saga
with_order s order = record s { order = order }

pub Grows-Consistent :
    (to_cents : Float → Option ℤ) (s : Saga) (db' : Db)
    → Grows s.order.orders db'.orders s.order.events.outbox db'.events.outbox
    → OrderInvariant.IsValid db'
    → AllRows (IsSound to_cents order_sends db'.orders) db'.events.outbox
    → IsSingle db'.events.outbox
    → IsExplained db'.orders s.stock.events.outbox s.payment.events.outbox
    → Consistent to_cents s
    → Consistent to_cents (with_order s db')
Grows-Consistent to_cents s db' g v rows single explained c = record {
  order_valid = v;
  stock_valid = c.stock_valid;
  payment_valid = c.payment_valid;
  order_rows = rows;
  stock_rows =
      IsSound-Extends to_cents stock_sends s.order.orders db'.orders s.stock.events.outbox g.extends
        c.stock_rows;
  payment_rows =
      IsSound-Extends to_cents payment_sends s.order.orders db'.orders s.payment.events.outbox
        g.extends c.payment_rows;
  single = single;
  decided =
      Grows-IsDecided s.order.orders db'.orders s.order.events.outbox db'.events.outbox g s.stock
        c.decided;
  charged =
      Grows-IsCharged s.order.orders db'.orders s.order.events.outbox db'.events.outbox g
        s.stock.events.outbox s.payment c.charged;
  explained = explained;
}

-- A row of another topic appended leaves the order.placed rows as they are.
pub IsSingle-append :
    (rows : List OutboxRow) (r : OutboxRow)
    → r.topic ≢ order_placed
    → IsSingle rows
    → IsSingle (rows ++ r ∷ [])
IsSingle-append rows r n v o x x' m m' t t' k k' = elim (IsRow-append rows r x m) [
  | inr e ↦ absurd (n (ap (λ (y : OutboxRow). y.topic) e ∙ t))
  | inl old ↦ elim (IsRow-append rows r x' m') [
    | inr e ↦ absurd (n (ap (λ (y : OutboxRow). y.topic) e ∙ t'))
    | inl old' ↦ v o x x' old old' t t' k k'
  ]
]
