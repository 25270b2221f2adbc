-- ===== src/Saga/Ordering.antt =====
-- What a delivery leaves of the order service's tables.
use food_flow.Prelude.{
  ℕ, ◌≡◌, refl, sym, ap, ◌∙◌, Option, some, List, [], ◌∷◌, ◌++◌, arith, inl, inr, ◌⊎◌, ◌≢◌, ◌==◌,
  ==_iff, Bool-cases,
}
use food_flow.Prelude.Int.{ℤ}
use mathlib.Core.Option.{some-injective}
use food_flow.Shared.Uuid.{Uuid}
use food_flow.Shared.Event.{
  Float, EventType, order_placed, stock_reserved, stock_rejected, stock_release, payment_succeeded,
  payment_failed, unknown, Draw, wrap_event,
}
use food_flow.Shared.Table.{Table, lookup, set_row, lookup-set_row}
use food_flow.Shared.Tables.{OutboxRow}
use food_flow.Order.Status.{Status}
use food_flow.Order.Db.{Order, Db}
use food_flow.Order.Transition.{moved}
use food_flow.Order.Consumer.Outcome.{with_order, compensated, release_row, marked}
use food_flow.Order.Consumer.Invariant.{releases-append}
use food_flow.Saga.{Saga}
use food_flow.Saga.Rows.{
  IsSound, AllRows, AllRows-append, Extends, IsSound-Extends, IsRow-append, order_sends,
}
use food_flow.Saga.Invariant.{Consistent, IsSingle}
use food_flow.Saga.Growth.{Grows, IsSingle-append}

-- A row moved along the diagram keeps its lines and its total.
pub moved-Extends :
    (orders : Table Order) (j now : ℕ) (t : Status) (p : Order)
    → lookup j orders ≡ some p
    → Extends orders (set_row j (moved now t p) orders)
moved-Extends orders j now t p e o r h = elim (Bool-cases (j == o)) [
  | inl own ↦
      let same : p ≡ r =
        some-injective p r (sym e ∙ ap (λ (x : Uuid). lookup x orders) ((==_iff j o).0 own) ∙ h) in
      (
        moved now t p,
        ground (arith, lookup-set_row o j (moved now t p) orders, e),
        ap (λ (x : Order). x.items) same,
        ap (λ (x : Order). x.total_amount) same,
      )
  | inr other ↦ (r, ground (arith, lookup-set_row o j (moved now t p) orders), refl, refl)
]

release_row-IsSound :
    (to_cents : Float → Option ℤ) (orders : Table Order) (d : Draw) (o : Uuid)
    → IsSound to_cents order_sends orders (release_row d o)
unfolding wrap_event
release_row-IsSound to_cents orders d o = record {
  order = o;
  keyed = refl;
  told = refl;
  typed = refl;
  sent_by = refl;
  described = λ h. cc;
}

-- The database after a transition on `p`, with the compensation of the event type.
abbrev pub moved_db : Draw → Uuid → EventType → Status → Order → Uuid → Db → Db
moved_db d j et t p u db = marked u (compensated d j et (with_order db j (moved d.now t p)))

-- The outbox is as it was, or has the one release more.
pub outbox-cases :
    (d : Draw) (j : Uuid) (et : EventType) (t : Status) (p : Order) (u : Uuid) (db : Db)
    → ((moved_db d j et t p u db).events.outbox ≡ db.events.outbox)
      ⊎ ((moved_db d j et t p u db).events.outbox ≡ db.events.outbox ++ release_row d j ∷ [])
outbox-cases d j payment_failed t p u db = inr refl
outbox-cases d j order_placed t p u db = inl refl
outbox-cases d j stock_reserved t p u db = inl refl
outbox-cases d j stock_rejected t p u db = inl refl
outbox-cases d j stock_release t p u db = inl refl
outbox-cases d j payment_succeeded t p u db = inl refl
outbox-cases d j (unknown s) t p u db = inl refl

pub moved_db-orders :
    (d : Draw) (j : Uuid) (et : EventType) (t : Status) (p : Order) (u : Uuid) (db : Db)
    → (moved_db d j et t p u db).orders ≡ set_row j (moved d.now t p) db.orders
moved_db-orders d j payment_failed t p u db = refl
moved_db-orders d j order_placed t p u db = refl
moved_db-orders d j stock_reserved t p u db = refl
moved_db-orders d j stock_rejected t p u db = refl
moved_db-orders d j stock_release t p u db = refl
moved_db-orders d j payment_succeeded t p u db = refl
moved_db-orders d j (unknown s) t p u db = refl

is_no_placed : stock_release ≢ order_placed
is_no_placed h = cc

-- The outbox of the order service, as a delivery leaves it: the same, or with a release more.
abbrev pub IsOutboxOf : Db → Draw → Uuid → List OutboxRow → Type 0
IsOutboxOf db d j rows =
    (rows ≡ db.events.outbox) ⊎ (rows ≡ db.events.outbox ++ release_row d j ∷ [])

module _ (to_cents : Float → Option ℤ) (s : Saga) (c : Consistent to_cents s) (d : Draw) (j : Uuid)
    (orders' : Table Order) (x : Extends s.order.orders orders') where
  pub outbox-Grows :
      (rows : List OutboxRow)
      → IsOutboxOf s.order d j rows
      → Grows s.order.orders orders' s.order.events.outbox rows
  outbox-Grows rows (inl e) =
      rw e (record { extends = x; fewer = λ o h. h; placed = λ r m t. inl m })
  outbox-Grows rows (inr e) = rw e (record {
    extends = x;
    fewer = λ o h. omega (arith, releases-append o s.order.events.outbox (release_row d j));
    placed = λ r m t. elim (IsRow-append s.order.events.outbox (release_row d j) r m) [
      | inl old ↦ inl old
      | inr e ↦ absurd (is_no_placed (ap (λ (y : OutboxRow). y.topic) e ∙ t))
    ];
  })

  pub outbox-IsSound :
      (rows : List OutboxRow)
      → IsOutboxOf s.order d j rows
      → AllRows (IsSound to_cents order_sends orders') rows
  outbox-IsSound rows (inl e) = rw e (
      IsSound-Extends to_cents order_sends s.order.orders orders' s.order.events.outbox x
        c.order_rows)
  outbox-IsSound rows (inr e) = rw e (
      AllRows-append (IsSound to_cents order_sends orders') s.order.events.outbox (release_row d j)
        (IsSound-Extends to_cents order_sends s.order.orders orders' s.order.events.outbox x
          c.order_rows)
        (release_row-IsSound to_cents orders' d j))

  pub outbox-IsSingle : (rows : List OutboxRow) → IsOutboxOf s.order d j rows → IsSingle rows
  outbox-IsSingle rows (inl e) = rw e c.single
  outbox-IsSingle rows (inr e) =
      rw e (IsSingle-append s.order.events.outbox (release_row d j) is_no_placed c.single)
